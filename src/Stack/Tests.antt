-- ===== src/Stack/Tests.antt =====
-- The round trips of the stack on a concrete machine.
use c_vm.Prelude.{◌≡◌, refl, some, arith}
use c_vm.Flags.{setclrf}
use c_vm.Machine.{Vm}
use c_vm.Machine.Sample.{machine, end_of}
use c_vm.Memory.{mem_wr8, mem_wr16}
use c_vm.Stack.{system, push8, push16, pushregs, pullregs, pushstate, pushfast, pullstate}
use c_vm.Stack.Pull.{at, restored}
use c_vm.Stack.RoundTrip.{pullregs-pushregs, pullstate-pushfast}

abbrev before : Vm
before = machine 0x1000 0x4c

-- A handler that changed two registers.
abbrev changed : Vm → Vm
changed vm = record vm { regs = record (vm.regs) { a = 1; pc = 0x5000 } }

abbrev pushed_all : Vm
pushed_all = end_of before (pushregs 0xff system before)

pullregs-pushregs_example :
    pullregs 0xff system (changed pushed_all)
    ≡ some (
      tt,
      at system
          (changed pushed_all)
          0x8000
          (restored 0xff system before.regs (changed pushed_all).regs),
    )
unfolding pushregs push8 push16 mem_wr8 mem_wr16
pullregs-pushregs_example =
    pullregs-pushregs 0xff system before pushed_all (changed pushed_all) (omega arith) refl
      (record { pointer_same = refl; bytes_same = λ i lo hi. refl })

abbrev entered : Vm
entered = end_of before (pushstate before)

abbrev entered_fast : Vm
entered_fast = end_of before (pushfast before)

pullstate-pushfast_example :
    pullstate (changed entered_fast)
    ≡ some (
      tt,
      record (changed entered_fast) {
        regs = record ((changed entered_fast).regs) {
          cc = setclrf before.regs.cc 0 0x80;
          pc = before.regs.pc;
          s = before.regs.s;
        };
      },
    )
unfolding pushfast pushregs push8 push16 mem_wr8 mem_wr16 setclrf
pullstate-pushfast_example =
    pullstate-pushfast before entered_fast (changed entered_fast) (omega arith) refl
      (record { pointer_same = refl; bytes_same = λ i lo hi. refl }) refl
