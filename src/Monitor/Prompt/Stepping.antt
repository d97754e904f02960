-- ===== src/Monitor/Prompt/Stepping.antt =====
-- `mon_execmon` of vmmonitor.c where the program is stepped.
use mathlib.Core.List.{append-nil}
use c_vm.Prelude.{
  ℕ, ◌+◌, ◌<◌, ◌≡◌, refl, ap, ◌∙◌, true, false, List, ◌++◌, Option, ◌==◌, bit_and, nonzero, ltb,
  Bool-cases, inl, inr, arith,
}
use c_vm.Bits.{bit, bit_and-pow, bit-bit_or}
use c_vm.Text.Registers.{printreg_short_text}
use c_vm.System.{System, next}
use c_vm.Monitor.Trap.{is_print_hdr, mon_printreg_short, printreg_short}
use c_vm.Monitor.Prompt.{enter, mon_execmon, trace}
use c_vm.Monitor.Prompt.Stops.{has_reason, stopped, resume, rest, mon_execmon_first}
use c_vm.Monitor.Prompt.Traps.{trace_bits, halt_bits}

-- `trap` has the step bit.
abbrev pub IsStepped : System → Type 0
IsStepped s = bit 4 s.vm.regs.trap ≡ 1

-- The registers are printed in a line, with the header where the last page was full, and a new page
-- is begun.
abbrev pub line_after : List ℕ → System → System
line_after printed s = record s {
  vm = record (s.vm) {
    printed = printed ++ printreg_short_text (is_print_hdr s) s.prev_regs s.vm.regs s.vm.memory;
  };
  prev_regs = s.vm.regs;
  lines = 0;
}

abbrev pub line_printed : System → System
line_printed s = line_after s.vm.printed s

step_tests :
    (t : ℕ)
    → bit 4 t ≡ 1
    → (nonzero (bit_and t 48) ≡ true)
      × ((bit_and t 48 == 32) ≡ false)
      × (nonzero (bit_and t 16) ≡ true)
      × (nonzero (bit_and t 144) ≡ true)
step_tests t h = (
  ground (arith, trace_bits t),
  ground (arith, trace_bits t),
  ground (arith, bit_and-pow 4 t),
  ground (arith, halt_bits t),
)

module _ (files : List ℕ → Option (List ℕ)) (fuel : ℕ) where
  rest_stepped :
      (s : System)
      → IsStepped s
      → ltb (s.vm.regs.pc + 3) 65536 ≡ true
      → rest files fuel s ≡ next (enter files fuel (line_printed s)) (λ _. resume files)
  unfolding rest trace printreg_short mon_printreg_short
  rest_stepped s h inside =
      let tests = step_tests s.vm.regs.trap h in
      rw (tests.0, tests.1, inside, tests.2, tests.3)
        (ap (λ t. next (enter files fuel (line_after t s)) (λ _. resume files))
          (append-nil s.vm.printed))

  stopped_bits :
      (s : System)
      → (bit 4 (stopped s).vm.regs.trap ≡ bit 4 s.vm.regs.trap)
        × ((stopped s).vm.regs.pc ≡ s.vm.regs.pc)
  stopped_bits s = elim (Bool-cases (has_reason s)) [
    | inl e ↦ rw e (omega (arith, bit-bit_or 4 s.vm.regs.trap 128), refl)
    | inr e ↦ rw e (refl, refl)
  ]

  -- While the program is stepped, with the PC not in the last three bytes of memory, each look of
  -- the monitor prints the line of the registers, with a header where the last page was full, and
  -- gives the user the prompt, whether there is a reason to stop or not.
  pub mon_execmon_stepped :
      (s : System)
      → IsStepped s
      → s.vm.regs.pc + 3 < 65536
      → mon_execmon files fuel s
        ≡ next (enter files fuel (line_printed (stopped s))) (λ _. resume files)
  mon_execmon_stepped s h inside =
      let same = stopped_bits s in
      mon_execmon_first files fuel s
      ∙ rest_stepped (stopped s) (same.0 ∙ h) (ground (arith, same.1))
