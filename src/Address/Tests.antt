-- ===== src/Address/Tests.antt =====
-- An indexed mode with a post byte in memory.
use c_vm.Prelude.{◌≡◌, refl, some, inl, arith}
use c_vm.Prelude.Int.{negsuc}
use c_vm.Machine.{Vm}
use c_vm.Machine.Sample.{machine, machine-IsVm}
use c_vm.Memory.{mem_rd16}
use c_vm.Address.{eaindexed}
use c_vm.Address.Indexed.{eaindexed_lem}

-- `[,--Y]`, and zeros where Y points.
abbrev start : Vm
start = machine 0x1000 0xb3

eaindexed_lem_example :
    eaindexed start
    ≡ some (0, record start { regs = record (start.regs) { pc = 0x1001; y = 0x2220 } })
unfolding mem_rd16
eaindexed_lem_example =
    eaindexed_lem start (negsuc 1) (negsuc 1) (machine-IsVm 0x1000 0xb3 (omega arith)) refl
      (inl (omega arith)) refl
