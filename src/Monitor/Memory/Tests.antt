-- ===== src/Monitor/Memory/Tests.antt =====
-- The theorems on the fill of memory, from an address to another.
use c_vm.Prelude.{◌≡◌, not, ◌&&◌, ltb, leb, ◌^◌, arith, u8, []}
use c_vm.Machine.Sample.{machine}
use c_vm.System.{System, done}
use c_vm.Startup.{static_system}
use c_vm.Monitor.Memory.{fill}
use c_vm.Monitor.Commands.{fill_memory}
use c_vm.Monitor.Memory.Fill.{has_ended, filled, has_ended-fill, fill_memory_lem}

has_ended-fill_example :
    has_ended (fill 65536 0xff80 0xfffe 7 (machine 0x1000 0x4c))
    ≡ not (leb 65535 0xfffe && ltb 0xfffe (2 ^ 31))
has_ended-fill_example =
    has_ended-fill 65536 0xff80 0xfffe 7 (machine 0x1000 0x4c) (omega arith) (omega arith)

-- The current address is zero.
abbrev before : System
before = record (static_system []) { vm = machine 0x1000 0x4c }

fill_memory_lem_example :
    fill_memory 0x1fff 0x112 before
    ≡ done tt (record before {
      vm = record (before.vm) {
        memory = filled before.monitor.m_address 0x1fff (u8 0x112) before.vm.memory;
      };
    })
fill_memory_lem_example = fill_memory_lem 0x1fff 0x112 before (omega arith) (omega arith)
