-- ===== src/Execute/Fetch.antt =====
-- How a step of `cpu_execop` (vm6809.c) begins.
use c_vm.Prelude.{ℕ, ◌+◌, ◌<◌, ◌≡◌, ap, some, u16, inl, arith}
use c_vm.Machine.{Vm, and_then}
use c_vm.Memory.Laws.{mem_rd8_ram}
use c_vm.Address.{fetch8}
use c_vm.Decode.{decode}
use c_vm.Execute.{dispatch, cpu_execop}

-- After `n` bytes of an instruction that lies below the UART.
abbrev pub fetched : ℕ → Vm → Vm
fetched n vm = record vm { regs = record (vm.regs) { pc = vm.regs.pc + n } }

pub fetch8_lem :
    (vm : Vm) → vm.regs.pc < 0xff00 → fetch8 vm ≡ some (vm.memory vm.regs.pc, fetched 1 vm)
unfolding fetch8
fetch8_lem vm low =
    let one : u16 (vm.regs.pc + 1) ≡ vm.regs.pc + 1 = omega arith in
    rw one (mem_rd8_ram vm.regs.pc (fetched 1 vm) (inl low))

pub cpu_execop_fetch :
    (vm : Vm)
    → vm.regs.pc < 0xff00
    → cpu_execop vm ≡ dispatch (decode (vm.memory vm.regs.pc)) (vm.memory vm.regs.pc) (fetched 1 vm)
unfolding cpu_execop
cpu_execop_fetch vm low =
    ap (λ o. and_then o (λ opc. dispatch (decode opc) opc)) (fetch8_lem vm low)
