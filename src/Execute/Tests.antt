-- ===== src/Execute/Tests.antt =====
-- The theorems on instructions on a concrete machine.
use c_vm.Prelude.{ℕ, ◌≡◌, refl, some, arith}
use c_vm.Prelude.Int.{signed8}
use c_vm.Machine.{Vm, update, ◌>>◌}
use c_vm.Machine.Keeps.{IsVm}
use c_vm.Machine.Sample.{machine, machine-IsVm}
use c_vm.Alu.{subf8}
use c_vm.Execute.{cpu_execop}
use c_vm.Execute.Branches.{Compares, subf8-Compares}
use c_vm.Execute.Codes.{accumulator_b, blt}
use c_vm.Execute.Compare.{branch-compare}
use c_vm.Execute.Calls.{jsr_extended, entered, rts-jsr}

subf8-Compares_example : Compares 5 200 (signed8 5) (signed8 200) (subf8 5 200 0x11).1
subf8-Compares_example = subf8-Compares 5 200 0x11 (omega arith) (omega arith)

-- JSR with an extended address, 0, at the start; the stack pointer is at 0x8000.
abbrev before : Vm
before = machine 0x1000 0xbd

-- The subroutine changed a register, and its RTS is at 0x3005.
abbrev later : Vm
later = record (entered jsr_extended before) {
  regs = record (before.regs) { a = 1; pc = 0x3005; s = 0x7ffe };
  memory = update (entered jsr_extended before).memory 0x3005 0x39;
}

rts-jsr_example :
    (cpu_execop before ≡ some (tt, entered jsr_extended before))
    × (cpu_execop later
        ≡ some (tt, record later { regs = record (later.regs) { pc = 0x1003; s = 0x8000 } }))
rts-jsr_example =
    rts-jsr jsr_extended before later (machine-IsVm 0x1000 0xbd (omega arith)) (omega arith) refl
      (omega arith) (omega arith) refl refl refl refl

-- CMPB #5 and BLT behind it, by 0xfe: B holds -128.
abbrev compares : Vm
compares = record before {
  memory =
      update (update (update (update before.memory 0x1000 0xc1) 0x1001 5) 0x1002 0x2d) 0x1003 0xfe;
}

compares-IsVm : IsVm compares
compares-IsVm = record { regs = h.regs; uart = h.uart; memory = λ i. ground (arith, h.memory i) }
  where
    h : IsVm before
    h = machine-IsVm 0x1000 0xbd (omega arith)

branch-compare_example :
    (cc : ℕ) × ((cpu_execop >> cpu_execop) compares
      ≡ some (tt, record compares { regs = record (compares.regs) { pc = 0x1002; cc = cc } }))
branch-compare_example =
    branch-compare accumulator_b blt compares compares-IsVm (omega arith) refl refl
