-- ===== src/Startup.antt =====
-- What main.c does before its loop: `cpu_init6809` (vm6809.c), `mon_init` (vmmonitor.c), and the
-- load of the default file. `files` is what `fopen` and `fgetc` find under a path.
pub mod Boot
mod Tests
use c_vm.Prelude.{
  ℕ, ◌+◌, ◌*◌, ◌/◌, ◌%◌, ◌<◌, Bool, true, false, List, [], ◌∷◌, ◌++◌, Option, none, some, u16,
}
use c_vm.Machine.{ok, Regs, Uart, Vm}
use c_vm.Signal.{cpu_reset}
use c_vm.Uart.{uart_zero, tio_init}
use c_vm.Memory.{mem_init}
use c_vm.Interrupt.{cpu_execirq}
use c_vm.System.{
  System, MonitorState, Outcome, done, Run, give, next, ◌>>=◌, ◌>>◌, gets, change, on_vm, say,
  change_regs, change_monitor,
}
use c_vm.System.Strings.{cmd_line_length, os_sprintf}
use c_vm.Text.{chars}
use c_vm.Text.Help.{puts_lines}
use c_vm.Monitor.Breakpoint.{empty_table}
use c_vm.Monitor.Files.{setfile, getexepath, read}

abbrev pub regs_zero : Regs
regs_zero = record {
  x = 0;
  y = 0;
  u = 0;
  s = 0;
  pc = 0;
  a = 0;
  b = 0;
  dp = 0;
  cc = 0;
  irq = 0;
  trap = 0;
}

abbrev pub monitor_zero : MonitorState
monitor_zero = record {
  m_address = 0;
  m_chunk = 0;
  l_start = 0;
  l_file = [];
  l_path = [];
  l_dftpath = [];
}

-- The static initial values of the globals.
abbrev pub static_system : List ℕ → System
static_system input = record {
  vm = record {
    regs = regs_zero;
    status = ok;
    memory = λ _. 0;
    uart = uart_zero;
    terminal = [];
    printed = [];
  };
  monitor = monitor_zero;
  table = empty_table;
  sigint_received = false;
  lines = 0;
  brkcode = 0;
  perform_tio = false;
  prev_regs = regs_zero;
  input = input;
}

unfoldable pub cpu_init6809 : Vm → Vm
cpu_init6809 vm = record vm { regs = regs_zero; status = ok }

unfoldable pub mon_init : System → System
mon_init s = record s {
  monitor = record monitor_zero { m_chunk = 64 };
  vm = record (s.vm) { regs = record (s.vm.regs) { trap = 128 } };
}

-- `VM6809_DEFAULT_PATH`, `VM6809_DEFAULT_FILE` and `VM6809_DEFAULT_START`
abbrev pub default_path : List ℕ
default_path = b'.' ∷ []

abbrev pub default_file : List ℕ
default_file = b'x' ∷ b'6' ∷ b'8' ∷ b'0' ∷ b'9' ∷ b'.' ∷ b'b' ∷ b'i' ∷ b'n' ∷ []

abbrev pub default_start : ℕ
default_start = 0x4000

-- The calls of the four `init` functions.
unfoldable pub init_all : System → System
unfolding cpu_init6809 mem_init mon_init tio_init
init_all s =
    let ready = mon_init (record s { vm = mem_init (cpu_init6809 s.vm) }) in
    record ready { vm = record (ready.vm) { uart = tio_init ready.vm.uart } }

-- `_welcome`, but for the clearing of the screen.
abbrev pub welcome : List ℕ
welcome = puts_lines (
    chars "                   __   ___   ___   ___  "
    ∷ chars "                  / /  / _ \\ / _ \\ / _ \\ "
    ∷ chars "__   ___ __ ___  / /_ | (_) | | | | (_) |"
    ∷ chars "\\ \\ / / '_ ` _ \\| '_ \\ > _ <| | | |\\__, |"
    ∷ chars " \\ V /| | | | | | (_) | (_) | |_| |  / / "
    ∷ chars "  \\_/ |_| |_| |_|\\___/ \\___/ \\___/  /_/  "
    ∷ []
    ∷ [])

module _ (files : List ℕ → Option (List ℕ)) where
  -- `_load_default_bin`
  unfoldable pub load_default_bin : List ℕ → Run (Unit {0})
  unfolding getexepath os_sprintf setfile read
  load_default_bin from_path = do
    exepath ← getexepath from_path cmd_line_length
    change_monitor (λ m. record m { l_dftpath = exepath })
    dftpath ← os_sprintf cmd_line_length default_path
    change_monitor (λ m. record m { l_dftpath = dftpath })
    path ← os_sprintf cmd_line_length dftpath
    change_monitor (λ m. record m { l_path = path })
    setfile default_file
    change_monitor (λ m. record m { l_start = default_start })
    m ← gets (λ s. s.monitor)
    read files m.l_file (u16 m.l_start)

  -- `main` up to its loop; the argument is `argv[0]`.
  unfoldable pub startup : List ℕ → Run (Unit {0})
  unfolding init_all load_default_bin cpu_reset cpu_execirq
  startup from_path = do
    change init_all
    say welcome
    load_default_bin from_path
    change_regs (cpu_reset true)
    on_vm cpu_execirq
