-- ===== src/Transfer/Tests.antt =====
-- The theorem on TFR and EXG, with X and Y.
use c_vm.Prelude.{◌≡◌, refl, true, false, some, arith}
use c_vm.Machine.{Vm}
use c_vm.Machine.Sample.{machine, machine-IsVm}
use c_vm.Transfer.{reg_x, reg_y, register, get, put, transfer}
use c_vm.Transfer.Swap.{transfer_lem}

abbrev before : Vm
before = machine 0x1000 0x12

transfer_lem_example :
    (transfer 0x12 true before
      ≡ some (
        tt,
        record before {
          regs = put reg_y (get reg_x before.regs) (put reg_x (get reg_y before.regs) before.regs);
        },
      ))
    × (transfer 0x12 false before
        ≡ some (tt, record before { regs = put reg_y (get reg_x before.regs) before.regs }))
unfolding register
transfer_lem_example =
    transfer_lem 0x12 reg_x reg_y before refl refl refl
      (machine-IsVm 0x1000 0x12 (omega arith)).regs
