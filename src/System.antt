-- ===== src/System.antt =====
-- The state of the whole program, and commands on it that may end it: `exit(0)`, the failed
-- assertion of os.c, undefined behaviour, or a loop that has used up its fuel.
-- The program and its monitor read standard input in turns; what `tio_exec` finds there is an
-- input of each round, and what the monitor reads is the list `input`.
pub mod Holds
pub mod Kept
pub mod Strings
use c_vm.Prelude.{ℕ, ◌+◌, ◌<◌, Bool, true, false, List, [], ◌∷◌, ◌++◌, Option, none, some}
use c_vm.Machine.{Vm, M, Regs}
use c_vm.Monitor.Breakpoint.{Table}

-- `monitor_state`, without the fields `b_adress` and `b_enabled`, which nothing uses.
pub record MonitorState : Type 0 where
  pub m_address : ℕ
  pub m_chunk : ℕ
  pub l_start : ℕ
  pub l_file : List ℕ
  pub l_path : List ℕ
  pub l_dftpath : List ℕ

-- The machine, the monitor, its break points, `_sigint_received`, the statics `lines` and
-- `brkcode` of `mon_execmon` (0 is no code), `main_perform_tio`, and the static `prev_regs` of
-- `mon_printreg_short`.
pub record System : Type 0 where
  pub vm : Vm
  pub monitor : MonitorState
  pub table : Table
  pub sigint_received : Bool
  pub lines : ℕ
  pub brkcode : ℕ
  pub perform_tio : Bool
  pub prev_regs : Regs
  pub input : List ℕ

pub data Outcome (A : Type 0) : Type 0 where
  done : A → System → Outcome A
  bye : Outcome A
  aborted : Outcome A
  faulted : Outcome A
  unfinished : Outcome A

abbrev pub Run : Type 0 → Type 0
Run A = System → Outcome A

abbrev pub give : {A : Type 0} → A → Run A
give v s = done v s

abbrev pub next : {A B : Type 0} → Outcome A → (A → Run B) → Outcome B
next (done v s) f = f v s
next bye f = bye
next aborted f = aborted
next faulted f = faulted
next unfinished f = unfinished

infixl 5 ◌>>=◌ ◌>>◌
abbrev pub ◌>>=◌ : {A B : Type 0} → Run A → (A → Run B) → Run B
◌>>=◌ m f s = next (m s) f

abbrev pub ◌>>◌ : {B : Type 0} → Run (Unit {0}) → Run B → Run B
m >> n = m >>= λ _. n

abbrev pub gets : {A : Type 0} → (System → A) → Run A
gets f s = done (f s) s

abbrev pub change : (System → System) → Run (Unit {0})
change f s = done tt (f s)

-- A command of the machine.
abbrev pub settle : {A : Type 0} → System → Option (A × Vm) → Outcome A
settle s none = faulted
settle s (some (v, vm)) = done v (record s { vm = vm })

abbrev pub on_vm : {A : Type 0} → M A → Run A
on_vm m s = settle s (m s.vm)

abbrev pub change_regs : (Regs → Regs) → Run (Unit {0})
change_regs f = change (λ s. record s { vm = record (s.vm) { regs = f s.vm.regs } })

-- `printf`, given the text that it formats.
abbrev pub say : List ℕ → Run (Unit {0})
say text = change (λ s. record s { vm = record (s.vm) { printed = s.vm.printed ++ text } })

abbrev pub change_monitor : (MonitorState → MonitorState) → Run (Unit {0})
change_monitor f = change (λ s. record s { monitor = f s.monitor })

-- A value that is undefined behaviour where there is none.
abbrev pub expect : {A : Type 0} → Option A → Run A
expect none s = faulted
expect (some v) s = done v s
