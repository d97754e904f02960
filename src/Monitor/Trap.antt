-- ===== src/Monitor/Trap.antt =====
-- What the commands of the monitor share (vmmonitor.c): the trap field and its tests, the line of
-- registers that a trace prints, and the value that a command may ask for.
use c_vm.Prelude.{
  ℕ, ◌+◌, ◌%◌, ◌^◌, bit_and, bit_or, Bool, false, List, Option, none, some, ◌==◌, ltb, nonzero,
  if◌then◌else◌,
}
use c_vm.System.{System, faulted, Run, give, ◌>>=◌, ◌>>◌, gets, say, change, change_regs, expect}
use c_vm.System.Strings.{cmd_line_length}
use c_vm.Text.{chars}
use c_vm.Text.Registers.{printreg_short_text}
use c_vm.Monitor.Console.{LineCode, no_input, input_ok, too_long, getline, char_at, getval}
use c_vm.Monitor.Files.{ask}

-- `trap_codes`
abbrev pub tc_halt : ℕ
tc_halt = 128

abbrev pub tc_trace : ℕ
tc_trace = 32

abbrev pub tc_step : ℕ
tc_step = 16

-- The letters that follow a command: `CMDOPT_SET` and its like.
abbrev pub opt_set : ℕ
opt_set = b'!'

abbrev pub opt_clear : ℕ
opt_clear = b'.'

abbrev pub opt_ask : ℕ
opt_ask = b'?'

abbrev pub opt_default : ℕ
opt_default = b'*'

abbrev pub opt_at : ℕ
opt_at = b'@'

-- `_is_trace_or_step`, `_is_trace_only` and `_is_halt_or_step`
abbrev pub is_trace_or_step : System → ℕ
is_trace_or_step s = bit_and s.vm.regs.trap (bit_or tc_trace tc_step)

abbrev pub is_trace_only : System → Bool
is_trace_only s = is_trace_or_step s == tc_trace

abbrev pub is_halt_or_step : System → Bool
is_halt_or_step s = nonzero (bit_and s.vm.regs.trap (bit_or tc_halt tc_step))

abbrev pub change_trap : (ℕ → ℕ) → Run (Unit {0})
change_trap f = change_regs (λ r. record r { trap = f r.trap })

-- `mon_printreg_short`: it reads the four bytes from the PC on.
abbrev pub print_registers : Bool → Run (Unit {0})
print_registers hdr = do
  s ← gets (λ s. s)
  say (printreg_short_text hdr s.prev_regs s.vm.regs s.vm.memory)
  change (λ s'. record s' { prev_regs = s'.vm.regs })

unfoldable pub mon_printreg_short : Bool → Run (Unit {0})
unfolding printreg_short_text
mon_printreg_short hdr s = if ltb (s.vm.regs.pc + 3) 65536 then print_registers hdr s else faulted

-- `TRACE_PAGE_LINES` and `_is_print_hdr`
abbrev pub trace_page_lines : ℕ
trace_page_lines = 25

abbrev pub is_print_hdr : System → Bool
is_print_hdr s = s.lines % trace_page_lines == 0

-- `_printreg_short`; `lines` is an `int`.
unfoldable pub printreg_short : Run (Unit {0})
unfolding mon_printreg_short
printreg_short = do
  hdr ← gets is_print_hdr
  mon_printreg_short hdr
  s ← gets (λ s. s)
  if nonzero (bit_and s.vm.regs.trap tc_step)
      then change (λ s. record s { lines = 0 })
      else if ltb (s.lines + 1) (2 ^ 31)
      then change (λ s'. record s' { lines = s.lines + 1 })
      else (λ _. faulted)

-- `(rc != NO_INPUT) && (cmdline[0])`
abbrev pub entered : LineCode × List ℕ → Bool
entered (no_input, line) = false
entered (input_ok, line) = nonzero (char_at line 0)
entered (too_long, line) = nonzero (char_at line 0)

-- `_readoptval`
unfoldable pub readoptval : Run (Option ℕ)
unfolding getline getval
readoptval = do
  answer ← ask (chars "?") (cmd_line_length + 1)
  if entered answer then (do v ← expect (getval answer.1); give (some v)) else give none

-- `if (_readoptval(&val)) ...`
abbrev pub if_value : Option ℕ → (ℕ → Run (Unit {0})) → Run (Unit {0})
if_value none f = give tt
if_value (some v) f = f v
