-- ===== src/Monitor/Prompt/Stops.antt =====
-- `mon_execmon` of vmmonitor.c: when the program stops at the prompt.
use c_vm.Prelude.{
  ℕ, ◌≡◌, refl, sym, fun_ext, Bool-cases, inl, inr, ap, ◌∙◌, Bool, true, false, not, ◌||◌, List,
  Option, bit_and, bit_or, nonzero, if◌then◌else◌, arith,
}
use c_vm.Machine.{StatusCode, ok}
use c_vm.System.{
  System, Outcome, done, bye, aborted, faulted, unfinished, Run, next, give, gets, change, ◌>>=◌,
  ◌>>◌,
}
use c_vm.Monitor.Breakpoint.{breakpoint_hit}
use c_vm.Monitor.Trap.{is_halt_or_step, printreg_short}
use c_vm.Monitor.Prompt.{
  is_ok, stop_if, stop_on_error, stop_on_signal, stop_on_breakpoint, trace, enter, mon_execmon,
}
use c_vm.Monitor.Prompt.Traps.{halted_twice, halt_no_trace, halt_halts, halts_lem}

-- The CPU has met an error, Ctrl-C has come, or the PC is at a break point.
abbrev pub has_reason : System → Bool
has_reason s = not (is_ok s.vm.status) || s.sigint_received || breakpoint_hit s.vm.regs.pc s.table

-- The code that the prompt shows: a break point before Ctrl-C before an error.
abbrev pub reason_code : System → ℕ
reason_code s =
    if breakpoint_hit s.vm.regs.pc s.table then b'B' else if s.sigint_received then b'H' else b'E'

-- The machine is halted, and the error and the signal are forgotten.
abbrev pub stopped : System → System
stopped s =
    if has_reason s
    then record s {
      vm = record (s.vm) {
        regs = record (s.vm.regs) { trap = bit_or s.vm.regs.trap 128 };
        status = ok;
      };
      sigint_received = false;
      brkcode = reason_code s;
    }
    else s

-- What one test leaves.
abbrev halt_with : ℕ → (System → System) → System → System
halt_with code clear s =
    record (clear (record s {
      vm = record (s.vm) { regs = record (s.vm.regs) { trap = bit_or s.vm.regs.trap 128 } };
    })) { brkcode = code }

stop_if_lem :
    (test : System → Bool) (code : ℕ) (clear : System → System) (s : System)
    → stop_if test code clear s ≡ done tt (if test s then halt_with code clear s else s)
unfolding stop_if
stop_if_lem test code clear s = elim (Bool-cases (test s)) [ inl e ↦ rw e refl | inr e ↦ rw e refl ]

abbrev pub first_stops : Run (Unit {0})
unfolding stop_if breakpoint_hit
first_stops = do stop_on_error; stop_on_signal; stop_on_breakpoint

is_ok_iff : (c : StatusCode) → is_ok c ≡ true → c ≡ ok
is_ok_iff ok h = refl
is_ok_iff c h = ground arith

stops_lem : (s : System) → first_stops s ≡ done tt (stopped s)
unfolding stop_if breakpoint_hit
stops_lem s = ground (
  arith,
  halted_twice s.vm.regs.trap,
  halted_twice (bit_or s.vm.regs.trap 128),
  is_ok_iff s.vm.status,
)

next-next :
    {A B C : Type 0} (x : Outcome A) (f : A → Run B) (g : B → Run C)
    → next (next x f) g ≡ next x (λ v. f v >>= g)
next-next (done v s) f g = refl
next-next bye f g = refl
next-next aborted f g = refl
next-next faulted f g = refl
next-next unfinished f g = refl

-- Whether the prompt is shown.
abbrev pub stops : System → Bool
stops s = has_reason s || nonzero (bit_and s.vm.regs.trap 128)

-- `trap` has no trace and no step bit.
abbrev pub Untraced : System → Type 0
Untraced s = bit_and s.vm.regs.trap 48 ≡ 0

stopped-Untraced : (s : System) → Untraced s → Untraced (stopped s)
stopped-Untraced s h = ground (arith, halt_no_trace s.vm.regs.trap)

stopped-halted :
    (s : System) → Untraced s → nonzero (bit_and (stopped s).vm.regs.trap 144) ≡ stops s
stopped-halted s h = ground (arith, halt_halts s.vm.regs.trap, halts_lem s.vm.regs.trap)

not_stopped :
    (s : System) (x : Outcome (Unit {0}))
    → (if stops s then x else done tt (stopped s)) ≡ (if stops s then x else done tt s)
not_stopped s x = elim (Bool-cases (has_reason s)) [ inl e ↦ rw e refl | inr e ↦ rw e refl ]

module _ (files : List ℕ → Option (List ℕ)) where
  -- `mon_execmon` after its prompt.
  abbrev pub resume : Run (Unit {0})
  resume = change (λ s. record s { perform_tio = true; brkcode = 0 })

  unfoldable pub rest : ℕ → Run (Unit {0})
  unfolding printreg_short
  rest fuel = do
    trace
    halted ← gets is_halt_or_step
    if halted then (do enter files fuel; resume) else give tt

  pub mon_execmon_first : (fuel : ℕ) (s : System) → mon_execmon files fuel s ≡ rest fuel (stopped s)
  unfolding mon_execmon first_stops rest
  mon_execmon_first fuel s = sym (
      ap (λ o. next o (λ _. rest fuel)) (sym (stops_lem s))
      ∙ next-next (stop_on_error s) (λ _. stop_on_signal >> stop_on_breakpoint) (λ _. rest fuel)
      ∙ ap (next (stop_on_error s)) (
          fun_ext (λ _.
            fun_ext
              (λ s'. next-next (stop_on_signal s') (λ _. stop_on_breakpoint) (λ _. rest fuel)))))

  rest-Untraced :
      (fuel : ℕ) (s : System)
      → Untraced s
      → rest fuel s ≡ (
          if nonzero (bit_and s.vm.regs.trap 144)
          then next (enter files fuel s) (λ _. resume)
          else done tt s)
  unfolding rest
  rest-Untraced fuel s h = ground (arith, h)

  -- `mon_execmon` where neither trace nor step is on. Without an error, a signal, a break point at
  -- the PC and a halted machine it changes nothing. With any of them the prompt is entered, before
  -- the instruction at the PC; an error, a signal or a break point halts the machine first and is
  -- itself forgotten, and after the prompt the terminal is served again.
  pub mon_execmon_lem :
      (fuel : ℕ) (s : System)
      → Untraced s
      → mon_execmon files fuel s
        ≡ (if stops s then next (enter files fuel (stopped s)) (λ _. resume) else done tt s)
  mon_execmon_lem fuel s h =
      mon_execmon_first fuel s
      ∙ rest-Untraced fuel (stopped s) (stopped-Untraced s h)
      ∙ ap (λ b. if b then entered_prompt else done tt (stopped s)) (stopped-halted s h)
      ∙ not_stopped s entered_prompt
    where
      entered_prompt : Outcome (Unit {0})
      entered_prompt = next (enter files fuel (stopped s)) (λ _. resume)
