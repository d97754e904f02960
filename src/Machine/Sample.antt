-- ===== src/Machine/Sample.antt =====
-- A machine for the tests of the other modules.
use c_vm.Prelude.{ℕ, ◌<◌, true, [], ◌==◌, if◌then◌else◌, arith, Option, none, some}
use c_vm.Machine.{ok, Regs, Uart, Vm}
use c_vm.Machine.Keeps.{IsVm}

abbrev pub registers : Regs
registers = record {
  x = 0x1111;
  y = 0x2222;
  u = 0x4000;
  s = 0x8000;
  pc = 0x1000;
  a = 0x7f;
  b = 0x80;
  dp = 0x20;
  cc = 0x01;
  irq = 0;
  trap = 0;
}

abbrev pub idle_uart : Uart
idle_uart = record { rbr = 0; thr = 0; lsr = 64; ier = 192; iir = 0; lcr = 0; wired = true }

-- Its memory holds `value` at one address, and zeros.
abbrev pub machine : ℕ → ℕ → Vm
machine addr value = record {
  regs = registers;
  status = ok;
  memory = λ i. if i == addr then value else 0;
  uart = idle_uart;
  terminal = [];
  printed = [];
}

pub machine-IsVm : (addr value : ℕ) → value < 256 → IsVm (machine addr value)
machine-IsVm addr value h = record {
  regs = omega arith;
  uart = omega arith;
  memory = λ i. ground arith;
}

-- Where a run ends, `start` if it has no end.
abbrev pub end_of : {A : Type 0} → Vm → Option (A × Vm) → Vm
end_of start none = start
end_of start (some (v, vm)) = vm
