-- ===== src/Text/Tests.antt =====
-- The line of a trace, and a dump, are read back.
use c_vm.Prelude.{ℕ, ◌≡◌, false, arith, List, [], ◌++◌, some}
use c_vm.Machine.{Regs}
use c_vm.Machine.Sample.{machine, machine-IsVm}
use c_vm.Monitor.Memory.{printmem}
use c_vm.Text.DumpRead.{read_dump, bytes_at, read_dump-printmem}
use c_vm.Text.Registers.{printreg_short_text}
use c_vm.Text.Trace.{read_trace, read_trace-printreg_short_text}

abbrev before : Regs
before = (machine 0x1000 0x4c).regs

abbrev after : Regs
after = record before { pc = 0x1001; a = 0x4d; cc = 0 }

read_trace-printreg_short_text_example :
    read_trace false before (printreg_short_text false before after (λ _. 0x12))
    ≡ record after { irq = before.irq; trap = before.trap }
read_trace-printreg_short_text_example =
    read_trace-printreg_short_text false before after (λ _. 0x12) (omega arith)

-- A dump of a line and a quarter.
read_dump-printmem_example :
    (text : List ℕ) × (printmem 0xff8 20 (machine 0x1000 0x4c)
      ≡ some (tt, record (machine 0x1000 0x4c) { printed = [] ++ text }))
    × (read_dump 20 text ≡ bytes_at 20 0xff8 (machine 0x1000 0x4c).memory)
read_dump-printmem_example =
    read_dump-printmem 0xff8 20 (machine 0x1000 0x4c) (omega arith)
      (machine-IsVm 0x1000 0x4c (omega arith)).memory
