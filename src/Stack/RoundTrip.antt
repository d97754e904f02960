-- ===== src/Stack/RoundTrip.antt =====
-- `_pushregs` before `_pullregs` (vm6809.c), with other code between them.
use c_vm.Prelude.{
  ℕ, suc, ◌+◌, ◌-◌, ◌≤◌, ◌<◌, ◌≡◌, refl, sym, ap, ◌∙◌, subst, List, [], ◌∷◌, some, length, arith,
  bit_and, nonzero, if◌then◌else◌,
}
use c_vm.Bits.{bit, bit_and-pow}
use c_vm.Flags.{setclrf}
use c_vm.Machine.{Regs, Vm}
use c_vm.Machine.Keeps.{result_eq}
use c_vm.Stack.{
  Stack, system, user, pointer, put_pointer, selects, pushregs, pullregs, pushstate, pushfast,
  pullstate,
}
use c_vm.Stack.Push.{writes, pushed, HasRoom, length-byte_if, pointer-put}
use c_vm.Stack.Frame.{frame, frame_a, pushregs_lem, reaches}
use c_vm.Stack.Pull.{Holds, at, restored, at_end, at_end_lem, pullregs_lem}

writes-below : (m : ℕ → ℕ) (p q : ℕ) (vs : List ℕ) → p < q → writes m q vs p ≡ m p
unfolding writes
writes-below m p q [] h = refl
writes-below m p q (v ∷ vs) h = ground (arith, writes-below m p (suc q) vs)

Holds-agree :
    (m n : ℕ → ℕ) (p : ℕ) (vs : List ℕ)
    → ((i : ℕ) → p ≤ i → i < p + length vs → n i ≡ m i)
    → Holds m p vs
    → Holds n p vs
Holds-agree m n p [] same h = tt
Holds-agree m n p (v ∷ vs) same h = (
  same p (omega arith) (omega arith) ∙ h.0,
  Holds-agree m n (suc p) vs (λ i lo hi. same i (omega arith) (omega arith)) h.1,
)

Holds-writes : (m : ℕ → ℕ) (p : ℕ) (vs : List ℕ) → Holds (writes m p vs) p vs
unfolding writes
Holds-writes m p [] = tt
Holds-writes m p (v ∷ vs) = (
  ground arith,
  Holds-agree (writes m (suc p) vs) (writes m p (v ∷ vs)) (suc p) vs (λ i lo hi. ground arith)
      (Holds-writes m (suc p) vs),
)

module _ (mask : ℕ) (st : Stack) (saved : Regs) where
  length-frame : length (frame mask st saved) ≤ 12
  length-frame = omega (
    arith,
    reaches mask st saved,
    length-byte_if (selects mask 0x01) saved.cc (frame_a mask st saved),
  )

put_self : (st : Stack) (r : Regs) → put_pointer st (pointer st r) r ≡ r
put_self system r = refl
put_self user r = refl

-- `later` is a state in which the bytes from the stack pointer of `mid` up to `top` still stand,
-- and the stack pointer is the same again.
pub record StillThere (st : Stack) (top : ℕ) (mid later : Vm) : Type 0 where
  pub pointer_same : pointer st later.regs ≡ pointer st mid.regs
  pub bytes_same : (i : ℕ) → pointer st mid.regs ≤ i → i < top → later.memory i ≡ mid.memory i

-- The registers that `_pullstate` pulls.
abbrev pull_mask : ℕ → ℕ
pull_mask flags = if nonzero (bit_and flags 0x80) then 0xff else 0x81

entire_mask : (flags : ℕ) → bit 7 flags ≡ 1 → pull_mask flags ≡ 0xff
entire_mask flags e = ground (arith, bit_and-pow 7 flags)

fast_mask : (flags : ℕ) → bit 7 flags ≡ 0 → pull_mask flags ≡ 0x81
fast_mask flags e = ground (arith, bit_and-pow 7 flags)

module _ (mask : ℕ) (st : Stack) (vm : Vm) (room : HasRoom st 12 vm) where
  abbrev with_frame : Vm
  with_frame = pushed st (frame mask st vm.regs) vm

  pull_later :
      (later : Vm)
      → StillThere st (pointer st vm.regs) with_frame later
      → pullregs mask st later
        ≡ some (tt, at st later (pointer st vm.regs) (restored mask st vm.regs later.regs))
  unfolding pushed
  pull_later later there =
      let saved = vm.regs in
      let vs = frame mask st saved in
      let top = pointer st saved in
      let p = top - length vs in
      let short = length-frame mask st saved in
      let moved : pointer st later.regs ≡ p = there.pointer_same ∙ pointer-put st p saved in
      let holds : Holds later.memory p vs =
        Holds-agree (writes vm.memory p vs) later.memory p vs
          (λ i lo hi.
            there.bytes_same i (rw (pointer-put st p saved) lo) (omega (arith, room.above)))
          (Holds-writes vm.memory p vs) in
      let fits : p + length vs ≤ 0xff00 = omega (arith, room.above, room.below) in
      let start : later ≡ at st later p later.regs =
        ap (λ r. record later { regs = r })
          (sym (put_self st later.regs) ∙ ap (λ q. put_pointer st q later.regs) moved) in
      let finish : at_end mask st later saved later.regs p fits holds ≡ top =
        omega (arith, at_end_lem mask st later saved later.regs p fits holds, room.above) in
      ap (pullregs mask st) start
      ∙ pullregs_lem mask st later saved later.regs p fits holds
      ∙ ap (λ q. some (tt, at st later q (restored mask st saved later.regs))) finish

-- What is pushed can be pulled again: with any mask and either stack, and whatever runs between
-- that keeps the frame and brings the stack pointer back to it, `_pullregs` gives the selected
-- registers their old values, leaves the others, and restores the stack pointer.
pub pullregs-pushregs :
    (mask : ℕ) (st : Stack) (vm mid later : Vm)
    → HasRoom st 12 vm
    → pushregs mask st vm ≡ some (tt, mid)
    → StillThere st (pointer st vm.regs) mid later
    → pullregs mask st later
      ≡ some (tt, at st later (pointer st vm.regs) (restored mask st vm.regs later.regs))
pullregs-pushregs mask st vm mid later room run there = pull_later mask st vm room later (
    subst (λ m. StillThere st (pointer st vm.regs) m later)
      (result_eq (sym run ∙ pushregs_lem mask st vm room)) there)

-- After `_pushstate`, and a handler that keeps the frame, the stack pointer and the E flag,
-- `_pullstate` brings back every register as it was interrupted, but with E set in CC. The
-- interrupt and trap flags are those of the handler.
pub pullstate-pushstate :
    (vm mid later : Vm)
    → HasRoom system 12 vm
    → pushstate vm ≡ some (tt, mid)
    → StillThere system vm.regs.s mid later
    → bit 7 later.regs.cc ≡ 1
    → pullstate later
      ≡ some (
        tt,
        record later {
          regs = record (vm.regs) {
            cc = setclrf vm.regs.cc 0x80 0;
            irq = later.regs.irq;
            trap = later.regs.trap;
          };
        },
      )
unfolding pushstate pullstate
pullstate-pushstate vm mid later room run there e =
    let marked = record vm { regs = record (vm.regs) { cc = setclrf vm.regs.cc 0x80 0 } } in
    rw (entire_mask later.regs.cc e) (
      pullregs-pushregs 0xff system marked mid later
        (record { above = room.above; below = room.below }) run there)

-- After `_pushfast`, and a handler that keeps the frame, the stack pointer and a clear E flag,
-- `_pullstate` brings back PC, S and CC, and leaves the other registers as the handler left them.
pub pullstate-pushfast :
    (vm mid later : Vm)
    → HasRoom system 12 vm
    → pushfast vm ≡ some (tt, mid)
    → StillThere system vm.regs.s mid later
    → bit 7 later.regs.cc ≡ 0
    → pullstate later
      ≡ some (
        tt,
        record later {
          regs = record (later.regs) {
            cc = setclrf vm.regs.cc 0 0x80;
            pc = vm.regs.pc;
            s = vm.regs.s;
          };
        },
      )
unfolding pushfast pullstate
pullstate-pushfast vm mid later room run there e =
    let marked = record vm { regs = record (vm.regs) { cc = setclrf vm.regs.cc 0 0x80 } } in
    rw (fast_mask later.regs.cc e) (
      pullregs-pushregs 0x81 system marked mid later
        (record { above = room.above; below = room.below }) run there)
