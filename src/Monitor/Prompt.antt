-- ===== src/Monitor/Prompt.antt =====
-- `_execcmd` and `mon_execmon` of vmmonitor.c. The loop that reads commands has fuel; a run that
-- uses it up has no result.
pub mod Traps
pub mod Stops
pub mod Types
pub mod Left
pub mod Typed
pub mod Stepping
pub mod Store
mod Tests
use c_vm.Prelude.{
  ℕ, zero, suc, ◌+◌, ◌%◌, Bool, true, false, not, ◌&&◌, List, [], ◌∷◌, Option, bit_or, ◌==◌,
  nonzero, if◌then◌else◌,
}
use c_vm.Machine.{StatusCode, ok, Vm}
use c_vm.System.{
  System, Outcome, bye, unfinished, done, Run, give, next, ◌>>=◌, ◌>>◌, gets, say, change,
}
use c_vm.System.Strings.{cmd_line_length, same_string}
use c_vm.Text.{chars, join, newline, hex4}
use c_vm.Text.Help.{help_text}
use c_vm.Monitor.Breakpoint.{breakpoint_hit}
use c_vm.Monitor.Console.{LineCode, getline, char_at, tail}
use c_vm.Monitor.Files.{read_line, ask}
use c_vm.Monitor.Trap.{
  tc_halt, is_trace_or_step, is_trace_only, is_print_hdr, is_halt_or_step, change_trap,
  printreg_short, entered,
}
use c_vm.Monitor.Commands.{
  execcmd_g, execcmd_s, execcmd_r, execcmd_t, execcmd_m, execcmd_i, execcmd_b, execcmd_l,
}

-- "bye"
abbrev pub bye_word : List ℕ
bye_word = b'b' ∷ b'y' ∷ b'e' ∷ []

-- `cpu_status.code != sc_ok`
abbrev pub is_ok : StatusCode → Bool
is_ok ok = true
is_ok _ = false

-- A command that does not leave the prompt.
abbrev pub stay : Run (Unit {0}) → Run Bool
stay m = do m; give false

-- The three reasons to stop at the start of `mon_execmon`.
unfoldable pub stop_if : (System → Bool) → ℕ → (System → System) → Run (Unit {0})
stop_if test code clear = do
  stop ← gets test
  if stop
      then (do
        change_trap (λ t. bit_or t tc_halt)
        change (λ s. record (clear s) { brkcode = code }))
      else give tt

abbrev pub stop_on_error : Run (Unit {0})
unfolding stop_if
stop_on_error =
    stop_if (λ s. not (is_ok s.vm.status)) b'E'
      (λ s. record s { vm = record (s.vm) { status = ok } })

abbrev pub stop_on_signal : Run (Unit {0})
unfolding stop_if
stop_on_signal = stop_if (λ s. s.sigint_received) b'H' (λ s. record s { sigint_received = false })

abbrev pub stop_on_breakpoint : Run (Unit {0})
unfolding stop_if breakpoint_hit
stop_on_breakpoint = stop_if (λ s. breakpoint_hit s.vm.regs.pc s.table) b'B' (λ s. s)

abbrev pub trace : Run (Unit {0})
unfolding printreg_short
trace = do
  flags ← gets is_trace_or_step
  first ← gets (λ s. is_trace_only s && is_print_hdr s)
  if nonzero flags then (do say (if first then newline else []); printreg_short) else give tt

-- `"%c@%04x>"`
abbrev pub prompt_text : System → List ℕ
prompt_text s = join (
    ((if nonzero s.brkcode then s.brkcode else b'_') ∷ [])
    ∷ chars "@"
    ∷ hex4 s.vm.regs.pc
    ∷ chars ">"
    ∷ [])

module _ (files : List ℕ → Option (List ℕ)) where
  -- `_execcmd`: whether to leave the prompt.
  unfoldable pub execcmd : List ℕ → Run Bool
  unfolding same_string execcmd_g execcmd_s execcmd_r execcmd_t execcmd_m execcmd_i execcmd_b
      execcmd_l
  execcmd line =
      let cmd = char_at line 0 in
      let cmdline = tail line in
      if same_string line bye_word
      then (λ _. bye)
      else if cmd == b'g'
      then execcmd_g cmdline
      else if cmd == b'r'
      then stay (execcmd_r cmdline)
      else if cmd == b't'
      then stay (execcmd_t cmdline)
      else if cmd == b's'
      then execcmd_s cmdline
      else if cmd == b'?'
      then stay (say (help_text (char_at cmdline 0)))
      else if cmd == b'i'
      then stay (execcmd_i cmdline)
      else if cmd == b'm'
      then stay (execcmd_m cmdline)
      else if cmd == b'l'
      then stay (execcmd_l files cmdline)
      else if cmd == b'b'
      then stay (execcmd_b cmdline)
      else stay (say (chars "  invalid command\n\n"))

  -- The loop of `mon_execmon`: one line, and the rest of the loop.
  abbrev pub execline : LineCode × List ℕ → Run Bool
  unfolding execcmd
  execline answer = if entered answer then execcmd answer.1 else give false

  unfoldable pub prompt : List ℕ → ℕ → Run (Unit {0})
  unfolding getline execcmd
  prompt text zero s = unfinished
  prompt text (suc n) s =
      next (ask text (cmd_line_length + 1) s)
        λ answer. execline answer >>= λ leave. if leave then give tt else prompt text n

  -- The prompt, and the loop that repeats it.
  abbrev pub enter : ℕ → Run (Unit {0})
  enter fuel = do say newline; text ← gets prompt_text; prompt text fuel

  -- `mon_execmon`
  unfoldable pub mon_execmon : ℕ → Run (Unit {0})
  unfolding prompt
  mon_execmon fuel = do
    stop_on_error
    stop_on_signal
    stop_on_breakpoint
    trace
    halted ← gets is_halt_or_step
    if halted
        then (do enter fuel; change (λ s. record s { perform_tio = true; brkcode = 0 }))
        else give tt
