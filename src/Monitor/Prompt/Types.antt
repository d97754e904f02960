-- ===== src/Monitor/Prompt/Types.antt =====
-- `_execcmd` and `mon_execmon` (vmmonitor.c) keep what the parts of the state keep.
use c_vm.Prelude.{
  ℕ, zero, suc, Bool, true, false, not, ◌&&◌, List, [], Option, ◌==◌, nonzero, if◌then◌else◌, arith,
}
use c_vm.Machine.{ok}
use c_vm.System.{System, Run, give, ◌>>=◌}
use c_vm.System.Holds.{
  Holds, Anything, Holds-give, Holds-bye, Holds-if, Holds-change, Holds-bind, Holds-seq, Holds-with,
}
use c_vm.System.Kept.{IsKept, Holds-say}
use c_vm.System.Strings.{same_string}
use c_vm.Text.{chars, newline}
use c_vm.Text.Help.{help_text}
use c_vm.Monitor.Breakpoint.{breakpoint_hit}
use c_vm.Monitor.Console.{LineCode, char_at, tail}
use c_vm.Monitor.Files.{ask}
use c_vm.Monitor.Files.Types.{ask-Holds}
use c_vm.Monitor.Trap.{entered, is_trace_or_step, is_trace_only, is_print_hdr, is_halt_or_step}
use c_vm.Monitor.Commands.Types.{
  change_trap-Holds, printreg_short-Holds, execcmd_g-Holds, execcmd_s-Holds, execcmd_r-Holds,
  execcmd_t-Holds, raised,
}
use c_vm.Monitor.Commands.Kept.{execcmd_m-Holds, execcmd_i-Holds, execcmd_b-Holds, execcmd_l-Holds}
use c_vm.Monitor.Prompt.{
  bye_word, is_ok, stay, stop_if, stop_on_error, stop_on_signal, stop_on_breakpoint, trace, execcmd,
  execline, prompt, prompt_text, enter, mon_execmon,
}

module _ (I : System → Type 0) (k : IsKept I) where
  stay-Holds : {m : Run (Unit {0})} → Holds I Anything m → Holds I Anything (stay m)
  stay-Holds hm = Holds-seq I hm (Holds-give I Anything false tt)

  stop_if-Holds :
      (test : System → Bool) (code : ℕ) (clear : System → System)
      → ((s : System) → I s → I (clear s))
      → Holds I Anything (stop_if test code clear)
  unfolding stop_if
  stop_if-Holds test code clear keep = Holds-with I test λ stop.
      Holds-if I Anything stop
        (Holds-seq I (change_trap-Holds I k _ (λ t h. raised I k 128 t (omega arith) h))
          (Holds-change I _ (λ s h. k.kept_code (clear s) code (keep s h))))
        (Holds-give I Anything tt tt)

  error_cleared : (s : System) → I s → I (record s { vm = record (s.vm) { status = ok } })
  error_cleared s h =
      k.kept_vm s _ (λ hv. record { regs = hv.regs; uart = hv.uart; memory = hv.memory }) h

  stop_on_error-Holds : Holds I Anything stop_on_error
  unfolding stop_on_error
  stop_on_error-Holds = stop_if-Holds (λ s. not (is_ok s.vm.status)) b'E' _ error_cleared

  stop_on_signal-Holds : Holds I Anything stop_on_signal
  unfolding stop_on_signal
  stop_on_signal-Holds =
      stop_if-Holds (λ s. s.sigint_received) b'H' _ (λ s h. k.kept_signal s false h)

  stop_on_breakpoint-Holds : Holds I Anything stop_on_breakpoint
  unfolding stop_on_breakpoint
  stop_on_breakpoint-Holds =
      stop_if-Holds (λ s. breakpoint_hit s.vm.regs.pc s.table) b'B' (λ s. s) (λ s h. h)

  trace-Holds : Holds I Anything trace
  unfolding trace
  trace-Holds = Holds-with I is_trace_or_step λ flags.
      Holds-with I (λ s. is_trace_only s && is_print_hdr s)
        λ first.
          Holds-if I Anything (nonzero flags)
            (Holds-seq I (Holds-say I k (if first then newline else [])) (printreg_short-Holds I k))
            (Holds-give I Anything tt tt)

  module _ (files : List ℕ → Option (List ℕ)) where
    execcmd-Holds : (line : List ℕ) → Holds I Anything (execcmd files line)
    unfolding execcmd
    execcmd-Holds line =
        let cmd = char_at line 0 in
        let cmdline = tail line in
        Holds-if I Anything (same_string line bye_word) (Holds-bye I Anything) (
          Holds-if I Anything (cmd == b'g') (execcmd_g-Holds I k cmdline) (
            Holds-if I Anything (cmd == b'r') (stay-Holds (execcmd_r-Holds I k cmdline)) (
              Holds-if I Anything (cmd == b't') (stay-Holds (execcmd_t-Holds I k cmdline)) (
                Holds-if I Anything (cmd == b's') (execcmd_s-Holds I k cmdline) (
                  Holds-if I Anything (cmd == b'?')
                    (stay-Holds (Holds-say I k (help_text (char_at cmdline 0))))
                    (Holds-if I Anything (cmd == b'i') (stay-Holds (execcmd_i-Holds I k cmdline)) (
                      Holds-if I Anything (cmd == b'm') (stay-Holds (execcmd_m-Holds I k cmdline)) (
                        Holds-if I Anything (cmd == b'l')
                          (stay-Holds (execcmd_l-Holds I k files cmdline))
                          (Holds-if I Anything (cmd == b'b')
                            (stay-Holds (execcmd_b-Holds I k cmdline))
                            (stay-Holds (Holds-say I k (chars "  invalid command\n\n"))))))))))))

    execline-Holds : (answer : LineCode × List ℕ) → Holds I Anything (execline files answer)
    unfolding execline
    execline-Holds answer =
        Holds-if I Anything (entered answer) (execcmd-Holds answer.1)
          (Holds-give I Anything false tt)

    prompt-Holds : (text : List ℕ) (fuel : ℕ) → Holds I Anything (prompt files text fuel)
    unfolding prompt
    prompt-Holds text zero = record { run = λ s h. tt }
    prompt-Holds text (suc n) = record { run = (loop (prompt-Holds text n)).run }
      where
        loop :
            Holds I Anything (prompt files text n)
            → Holds I Anything (
                ask text 81 >>= λ answer.
                (execline files answer >>= λ leave. if leave then give tt else prompt files text n))
        loop again = Holds-bind I (ask-Holds I k text 81) λ answer _.
            Holds-bind I (execline-Holds answer)
              λ leave _. Holds-if I Anything leave (Holds-give I Anything tt tt) again

    enter-Holds : (fuel : ℕ) → Holds I Anything (enter files fuel)
    enter-Holds fuel =
        Holds-seq I (Holds-say I k newline)
          (Holds-with I prompt_text (λ text. prompt-Holds text fuel))

    pub mon_execmon-Holds : (fuel : ℕ) → Holds I Anything (mon_execmon files fuel)
    unfolding mon_execmon
    mon_execmon-Holds fuel = Holds-seq I stop_on_error-Holds (
        Holds-seq I stop_on_signal-Holds (
          Holds-seq I stop_on_breakpoint-Holds (
            Holds-seq I trace-Holds (
              Holds-with I is_halt_or_step λ halted.
                Holds-if I Anything halted
                  (Holds-seq I (enter-Holds fuel)
                    (Holds-change I _ (λ s h. k.kept_code _ 0 (k.kept_tio s true h))))
                  (Holds-give I Anything tt tt)))))
