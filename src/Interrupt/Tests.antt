-- ===== src/Interrupt/Tests.antt =====
-- The theorems on interrupts on a concrete machine.
use c_vm.Prelude.{◌≡◌, refl, some, arith, if◌then◌else◌}
use c_vm.Flags.{setclrf}
use c_vm.Machine.{Vm}
use c_vm.Machine.Keeps.{IsVm}
use c_vm.Machine.Sample.{machine, machine-IsVm, end_of}
use c_vm.Signal.{setclrirqf, irq_rst}
use c_vm.Memory.{mem_rd16, mem_wr8, mem_wr16}
use c_vm.Stack.{push8, push16, pushregs, pushstate, pullstate}
use c_vm.Interrupt.{serve, requested, reset, cpu_execirq}
use c_vm.Interrupt.Laws.{first_pending, sources, serve_source, cpu_execirq_lem}
use c_vm.Interrupt.Return.{pullstate-serve}

-- IRQ is requested; its vector is 0x0040.
abbrev before : Vm
before = record (machine 0xfff9 0x40) { regs = record ((machine 0xfff9 0x40).regs) { irq = 0x40 } }

before-IsVm : IsVm before
before-IsVm =
    let base = machine-IsVm 0xfff9 0x40 (omega arith) in
    record { regs = omega arith; uart = base.uart; memory = base.memory }

cpu_execirq_lem_example :
    cpu_execirq before
    ≡ (if requested irq_rst before.regs
          then reset
          else serve_source (first_pending before.regs sources))
        before
cpu_execirq_lem_example = cpu_execirq_lem before

abbrev entered : Vm
entered = end_of before (serve 0x40 pushstate 0xfff8 before)

-- The handler changed two registers.
abbrev handled : Vm
handled = record entered { regs = record (entered.regs) { a = 1; pc = 0x0055 } }

pullstate-serve_example :
    pullstate handled
    ≡ some (
      tt,
      record handled {
        regs = record (before.regs) {
          cc = setclrf before.regs.cc 0x80 0;
          irq = handled.regs.irq;
          trap = handled.regs.trap;
        };
      },
    )
unfolding setclrirqf setclrf mem_rd16 pushstate pushregs push8 push16 mem_wr8 mem_wr16
pullstate-serve_example =
    pullstate-serve 0x40 0xfff8 before entered handled (omega arith) refl
      (record { pointer_same = refl; bytes_same = λ i lo hi. refl }) refl
