-- ===== src/MainLoop/Alone.antt =====
-- The loop of main.c while nothing stops the program: the rounds of the machine alone, without the
-- monitor; and where they end.
use c_vm.Prelude.{
  ℕ, ◌≡◌, refl, ◌∙◌, ap, Bool, true, false, not, ◌&&◌, ◌||◌, List, [], ◌∷◌, ◌++◌, Option, none,
  some, ◌==◌, ==_iff, bit_and, nonzero, if◌then◌else◌, arith,
}
use c_vm.Machine.{Vm, M, and_then}
use c_vm.Uart.{tio_exec}
use c_vm.Interrupt.{cpu_execirq}
use c_vm.Execute.{cpu_execop}
use c_vm.System.{System, Outcome, done, Run, next, settle, give, change, on_vm, ◌>>◌}
use c_vm.Monitor.Breakpoint.{Table, breakpoint_hit}
use c_vm.Monitor.Prompt.{is_ok, enter, mon_execmon}
use c_vm.Monitor.Prompt.Stops.{Untraced, has_reason, stopped, resume, mon_execmon_lem}
use c_vm.MainLoop.{Event, sig_handler, round, rounds}

-- Without an error, a break point at the PC, a halt, and a trace or a step.
abbrev pub is_calm : Table → Vm → Bool
is_calm t vm =
    is_ok vm.status
    && not (breakpoint_hit vm.regs.pc t)
    && not (nonzero (bit_and vm.regs.trap 128))
    && (bit_and vm.regs.trap 48 == 0)

-- No signal comes.
abbrev pub quiet : Option ℕ → Event
quiet key = record { interrupt = false; key = key }

abbrev pub quiet_events : List (Option ℕ) → List Event
quiet_events [] = []
quiet_events (key ∷ keys) = quiet key ∷ quiet_events keys

abbrev pub on_result : Option (Unit {0} × Vm) → (Vm → Bool) → Bool
on_result none f = true
on_result (some (tt, vm)) f = f vm

module _ (upper : ℕ → ℕ) (tio : Bool) where
  -- The terminal, if it is served, and the interrupts; then one instruction.
  abbrev pub prepare : Option ℕ → M (Unit {0})
  prepare key vm = cpu_execirq (if tio then tio_exec upper key vm else vm)

  abbrev pub machine_round : Option ℕ → M (Unit {0})
  machine_round key vm = and_then (prepare key vm) (λ _. cpu_execop)

  abbrev pub machine_rounds : List (Option ℕ) → M (Unit {0})
  machine_rounds [] vm = some (tt, vm)
  machine_rounds (key ∷ keys) vm = and_then (machine_round key vm) (λ _. machine_rounds keys)

  -- Whether the machine is calm whenever the monitor looks at it.
  abbrev pub undisturbed : Table → List (Option ℕ) → Vm → Bool
  undisturbed t [] vm = true
  undisturbed t (key ∷ keys) vm =
      on_result (prepare key vm) (is_calm t)
      && on_result (machine_round key vm) (undisturbed t keys)

settle_again :
    (s : System) (vm : Vm) (r : Option (Unit {0} × Vm))
    → settle (record s { vm = vm }) r ≡ settle s r
settle_again s vm none = refl
settle_again s vm (some (tt, vm')) = refl

calm_parts :
    (o b h t : Bool)
    → o && not b && not h && t ≡ true
    → (o ≡ true) × (b ≡ false) × (h ≡ false) × (t ≡ true)
calm_parts true false false true e = (refl, refl, refl, refl)
calm_parts o b h t e = ground arith

and_parts : (a b : Bool) → a && b ≡ true → (a ≡ true) × (b ≡ true)
and_parts true true e = (refl, refl)
and_parts a b e = ground arith

module _ (upper : ℕ → ℕ) (files : List ℕ → Option (List ℕ)) (fuel : ℕ) where
  -- What follows the interrupts in a round.
  abbrev pub monitored : Run (Unit {0})
  monitored = mon_execmon files fuel >> on_vm cpu_execop

  round_served :
      (key : Option ℕ) (b : Bool) (s : System)
      → next
          ((if b then change (λ s. record s { vm = tio_exec upper key s.vm }) else give tt) s)
          (λ _. on_vm cpu_execirq >> monitored)
        ≡ next (settle s (prepare upper b key s.vm)) (λ _. monitored)
  round_served key true s =
      ap (λ o. next o (λ _. monitored))
        (settle_again s (tio_exec upper key s.vm) (cpu_execirq (tio_exec upper key s.vm)))
  round_served key false s = refl

  round_parts :
      (e : Event) (s : System)
      → round upper files fuel e s
        ≡ next
            (settle (sig_handler e.interrupt s) (prepare upper s.perform_tio e.key s.vm))
            (λ _. monitored)
  unfolding round sig_handler
  round_parts e s = round_served e.key s.perform_tio (sig_handler e.interrupt s)

  mon_calm :
      (s : System)
      → is_calm s.table s.vm ≡ true
      → s.sigint_received ≡ false
      → mon_execmon files fuel s ≡ done tt s
  mon_calm s calm q =
      let parts =
        calm_parts (is_ok s.vm.status) (breakpoint_hit s.vm.regs.pc s.table)
          (nonzero (bit_and s.vm.regs.trap 128)) (bit_and s.vm.regs.trap 48 == 0) calm in
      mon_execmon_lem files fuel s ((==_iff (bit_and s.vm.regs.trap 48) 0).0 parts.3)
      ∙ rw (parts.0, q, parts.1, parts.2) refl

  one_round :
      (s : System) (r : Option (Unit {0} × Vm))
      → s.sigint_received ≡ false
      → on_result r (is_calm s.table) ≡ true
      → next (settle s r) (λ _. monitored) ≡ settle s (and_then r (λ _. cpu_execop))
  one_round s none q calm = refl
  one_round s (some (tt, vm)) q calm =
      rw (mon_calm (record s { vm = vm }) calm q) (settle_again s vm (cpu_execop vm))

  later_rounds :
      (keys : List (Option ℕ)) (f g : Run (Unit {0})) (s : System) (r : Option (Unit {0} × Vm))
      → on_result r (undisturbed upper s.perform_tio s.table keys) ≡ true
      → ((vm : Vm)
          → undisturbed upper s.perform_tio s.table keys vm ≡ true
          → f (record s { vm = vm })
            ≡ next
                (settle (record s { vm = vm }) (machine_rounds upper s.perform_tio keys vm))
                (λ _. g))
      → next (settle s r) (λ _. f)
        ≡ next (settle s (and_then r (λ _. machine_rounds upper s.perform_tio keys))) (λ _. g)
  later_rounds keys f g s none calm rest = refl
  later_rounds keys f g s (some (tt, vm)) calm rest =
      rest vm calm ∙ ap (λ o. next o (λ _. g)) (settle_again s vm _)

  -- While no signal comes and the machine is calm whenever the monitor looks at it, the rounds of
  -- the program are those of the machine alone, and nothing but the machine changes.
  pub rounds-machine_rounds :
      (keys : List (Option ℕ)) (es : List Event) (s : System)
      → s.sigint_received ≡ false
      → undisturbed upper s.perform_tio s.table keys s.vm ≡ true
      → rounds upper files fuel (quiet_events keys ++ es) s
        ≡ next
            (settle s (machine_rounds upper s.perform_tio keys s.vm))
            (λ _. rounds upper files fuel es)
  unfolding rounds
  rounds-machine_rounds [] es s q calm = refl
  rounds-machine_rounds (key ∷ keys) es s q calm =
      let parts = and_parts _ _ calm in
      ap (λ o. next o (λ _. rounds upper files fuel (quiet_events keys ++ es)))
        (round_parts (quiet key) s ∙ one_round s (prepare upper s.perform_tio key s.vm) q parts.0)
      ∙ later_rounds keys (rounds upper files fuel (quiet_events keys ++ es))
          (rounds upper files fuel es) s _ parts.1
          (λ vm calm'. rounds-machine_rounds keys es (record s { vm = vm }) q calm')

  or_quiet : (b c : Bool) → c ≡ false → b || c ≡ b
  or_quiet true c h = refl
  or_quiet false c h = h

  enters :
      (s : System) (b : Bool) (o p : Outcome (Unit {0}))
      → has_reason s ≡ b
      → b ≡ true
      → (if b || nonzero (bit_and s.vm.regs.trap 128) then o else p) ≡ o
  enters s true o p h e = refl
  enters s false o p h e = cc

  -- A round with a reason to stop.
  stop_round :
      (e : Event) (s : System) (vm : Vm)
      → s.sigint_received ≡ false
      → prepare upper s.perform_tio e.key s.vm ≡ some (tt, vm)
      → Untraced (record s { vm = vm })
      → has_reason (record s { vm = vm; sigint_received = e.interrupt }) ≡ true
      → round upper files fuel e s
        ≡ next
            (next
              (enter files fuel (stopped (record s { vm = vm; sigint_received = e.interrupt })))
              (λ _. resume files))
            (λ _. on_vm cpu_execop)
  unfolding sig_handler
  stop_round e s vm q prepared untraced reason =
      round_parts e s
      ∙ ap (λ r. next (settle (sig_handler e.interrupt s) r) (λ _. monitored)) prepared
      ∙ ap (λ b. monitored (record s { vm = vm; sigint_received = b }))
          (or_quiet e.interrupt s.sigint_received q)
      ∙ ap (λ o. next o (λ _. on_vm cpu_execop))
          (mon_execmon_lem files fuel (record s { vm = vm; sigint_received = e.interrupt }) untraced
            ∙ enters (record s { vm = vm; sigint_received = e.interrupt }) _ _ _ refl reason)

  -- After rounds in which nothing stopped the program, Ctrl-C, an error of the CPU or a break point
  -- at the PC gives the user the prompt in the same round, after the interrupts and before the
  -- instruction at the PC; after the prompt that instruction runs, and the loop goes on.
  pub rounds-enter :
      (keys : List (Option ℕ)) (e : Event) (es : List Event) (s : System) (vm vm' : Vm)
      → s.sigint_received ≡ false
      → undisturbed upper s.perform_tio s.table keys s.vm ≡ true
      → machine_rounds upper s.perform_tio keys s.vm ≡ some (tt, vm)
      → prepare upper s.perform_tio e.key vm ≡ some (tt, vm')
      → Untraced (record s { vm = vm' })
      → has_reason (record s { vm = vm'; sigint_received = e.interrupt }) ≡ true
      → rounds upper files fuel (quiet_events keys ++ e ∷ es) s
        ≡ next
            (next
              (next
                (enter files fuel (stopped (record s { vm = vm'; sigint_received = e.interrupt })))
                (λ _. resume files))
              (λ _. on_vm cpu_execop))
            (λ _. rounds upper files fuel es)
  unfolding rounds
  rounds-enter keys e es s vm vm' q calm run prepared untraced reason =
      rounds-machine_rounds keys (e ∷ es) s q calm
      ∙ ap (λ r. next (settle s r) (λ _. rounds upper files fuel (e ∷ es))) run
      ∙ ap (λ o. next o (λ _. rounds upper files fuel es))
          (stop_round e (record s { vm = vm }) vm' q prepared untraced reason)
