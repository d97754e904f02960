-- ===== src/Memory/Tests.antt =====
-- The theorems on memory at concrete addresses.
use c_vm.Prelude.{◌≡◌, inl, inr, some, arith}
use c_vm.Machine.{Vm}
use c_vm.Machine.Sample.{machine}
use c_vm.Memory.{mem_rd8, mem_wr8, mem_rd16, mem_wr16}
use c_vm.Memory.Laws.{mem_rd16-mem_wr16, mem_rd8-mem_wr8}

abbrev start : Vm
start = machine 0x1000 0x4c

mem_rd16-mem_wr16_example :
    (vm' : Vm) × (mem_wr16 0xff00 0x1234 start ≡ some (tt, vm'))
    × (mem_rd16 0xff00 vm' ≡ some (0x1234, vm'))
    × (vm'.memory 0x1000 ≡ start.memory 0x1000)
mem_rd16-mem_wr16_example =
    mem_rd16-mem_wr16 0xff00 0x1234 0x1000 start (omega arith) (inl (omega arith))

mem_rd8-mem_wr8_example :
    (vm' : Vm) × (mem_wr8 0xff05 0x12 start ≡ some (tt, vm'))
    × (mem_rd8 0xff05 vm' ≡ some (0x12, vm'))
    × (vm'.memory 0x1000 ≡ start.memory 0x1000)
mem_rd8-mem_wr8_example =
    mem_rd8-mem_wr8 0xff05 0x12 0x1000 start (inr (omega arith)) (inl (omega arith))
