-- ===== src/Stack/Push.antt =====
-- The single pushes of `_pushregs` (vm6809.c), as bytes below the old stack pointer.
use c_vm.Prelude.{
  ℕ, suc, ◌+◌, ◌-◌, ◌/◌, ◌%◌, ◌≤◌, ◌≡◌, refl, sym, ap, fun_ext, Bool, true, false, List, [], ◌∷◌,
  ◌++◌, some, length, length-append, ap₂, arith, if◌then◌else◌, u16, inl, ◌∙◌,
}
use c_vm.Machine.{Regs, Vm, update}
use c_vm.Memory.Laws.{mem_wr8_ram, mem_wr16_lem, update16}
use c_vm.Stack.{Stack, system, user, other, pointer, put_pointer, when, push8, push16}

-- A block of bytes from the address `p` on.
unfoldable pub writes : (ℕ → ℕ) → ℕ → List ℕ → ℕ → ℕ
writes m p [] = m
writes m p (v ∷ vs) = update (writes m (suc p) vs) p v

-- The state after the bytes `vs` have been pushed, the first at the top of the stack.
unfoldable pub pushed : Stack → List ℕ → Vm → Vm
unfolding writes
pushed st vs vm =
    let p = pointer st vm.regs - length vs in
    record vm { regs = put_pointer st p vm.regs; memory = writes vm.memory p vs }

-- Between 12 and 0xff00 a stack pointer has room for all registers, and stays off the UART.
pub record HasRoom (st : Stack) (n : ℕ) (vm : Vm) : Type 0 where
  pub above : n ≤ pointer st vm.regs
  pub below : pointer st vm.regs ≤ 0xff00

writes-append :
    (m : ℕ → ℕ) (p : ℕ) (us vs : List ℕ)
    → writes m p (us ++ vs) ≡ writes (writes m (p + length us) vs) p us
unfolding writes
writes-append m p [] vs = ap (λ q. writes m q vs) (omega arith)
writes-append m p (u ∷ us) vs =
    ap (λ w. update w p u)
      (writes-append m (suc p) us vs ∙ ap (λ q. writes (writes m q vs) (suc p) us) (omega arith))

pushes :
    (st : Stack) (vs : List ℕ) (p : ℕ) (m : ℕ → ℕ) (vm : Vm)
    → p ≡ pointer st vm.regs - length vs
    → m ≡ writes vm.memory p vs
    → record vm { regs = put_pointer st p vm.regs; memory = m } ≡ pushed st vs vm
unfolding pushed
pushes st vs p m vm e f = rw (f, e)

push8_lem :
    (st : Stack) (field : Regs → ℕ) (vm : Vm)
    → HasRoom st 1 vm
    → push8 st field vm ≡ some (tt, pushed st (field vm.regs ∷ []) vm)
unfolding push8 writes
push8_lem system field vm h =
    mem_wr8_ram (u16 (vm.regs.s + 65535)) (field vm.regs)
      (record vm { regs = record (vm.regs) { s = u16 (vm.regs.s + 65535) } }) (inl (omega arith))
    ∙ ap (λ w. some (tt, w))
        (pushes system (field vm.regs ∷ []) (u16 (vm.regs.s + 65535)) _ vm (omega arith) refl)
push8_lem user field vm h =
    mem_wr8_ram (u16 (vm.regs.u + 65535)) (field vm.regs)
      (record vm { regs = record (vm.regs) { u = u16 (vm.regs.u + 65535) } }) (inl (omega arith))
    ∙ ap (λ w. some (tt, w))
        (pushes user (field vm.regs ∷ []) (u16 (vm.regs.u + 65535)) _ vm (omega arith) refl)

-- A word is written high byte first, and stands in memory as its two bytes.
writes_word : (m : ℕ → ℕ) (p v : ℕ) → update16 m p v ≡ writes m p (v / 256 ∷ v % 256 ∷ [])
unfolding writes
writes_word m p v = fun_ext λ i. ground arith

push16_lem :
    (st : Stack) (field : Regs → ℕ) (vm : Vm)
    → HasRoom st 2 vm
    → push16 st field vm ≡ some (tt, pushed st (field vm.regs / 256 ∷ field vm.regs % 256 ∷ []) vm)
unfolding push16
push16_lem system field vm h =
    let v = field vm.regs in
    let p = u16 (vm.regs.s + 65534) in
    mem_wr16_lem p v (record vm { regs = record (vm.regs) { s = p } }) (omega arith)
    ∙ ap (λ w. some (tt, w))
        (pushes system (v / 256 ∷ v % 256 ∷ []) p _ vm (omega arith) (writes_word vm.memory p v))
push16_lem user field vm h =
    let v = field vm.regs in
    let p = u16 (vm.regs.u + 65534) in
    mem_wr16_lem p v (record vm { regs = record (vm.regs) { u = p } }) (omega arith)
    ∙ ap (λ w. some (tt, w))
        (pushes user (v / 256 ∷ v % 256 ∷ []) p _ vm (omega arith) (writes_word vm.memory p v))

-- The bytes of a register that is pushed if `b` says so.
abbrev pub byte_if : Bool → ℕ → List ℕ
byte_if b v = if b then v ∷ [] else []

abbrev pub word_if : Bool → ℕ → List ℕ
word_if b v = if b then v / 256 ∷ v % 256 ∷ [] else []

module _ (m : ℕ → ℕ) (s : ℕ) (us vs : List ℕ) (h : length us + length vs ≤ s) where
  stacked_pointer : s - length vs - length us ≡ s - length (us ++ vs)
  stacked_pointer = omega (arith, length-append us vs)

  stacked_memory :
      writes (writes m (s - length vs) vs) (s - length vs - length us) us
      ≡ writes m (s - length (us ++ vs)) (us ++ vs)
  stacked_memory =
      let q = s - length vs - length us in
      let e : s - length vs ≡ q + length us = omega arith in
      ap (λ t. writes (writes m t vs) q us) e
      ∙ sym (writes-append m q us vs)
      ∙ ap (λ t. writes m t (us ++ vs)) stacked_pointer

-- Two blocks are one block, the later on top.
pushed-append :
    (st : Stack) (us vs : List ℕ) (vm : Vm)
    → length us + length vs ≤ pointer st vm.regs
    → pushed st us (pushed st vs vm) ≡ pushed st (us ++ vs) vm
unfolding pushed
pushed-append system us vs vm h =
    ap₂ (λ p m. record vm { regs = record (vm.regs) { s = p }; memory = m })
      (stacked_pointer vm.memory vm.regs.s us vs h) (stacked_memory vm.memory vm.regs.s us vs h)
pushed-append user us vs vm h =
    ap₂ (λ p m. record vm { regs = record (vm.regs) { u = p }; memory = m })
      (stacked_pointer vm.memory vm.regs.u us vs h) (stacked_memory vm.memory vm.regs.u us vs h)

pub pushed-nil : (st : Stack) (vm : Vm) → pushed st [] vm ≡ vm
unfolding pushed writes
pushed-nil system vm = ap (λ p. record vm { regs = record (vm.regs) { s = p } }) (omega arith)
pushed-nil user vm = ap (λ p. record vm { regs = record (vm.regs) { u = p } }) (omega arith)

-- A register that pushing does not change, since it is not the stack pointer.
abbrev pub IsKept : Stack → (Regs → ℕ) → Type 0
IsKept st field = (p : ℕ) (r : Regs) → field (put_pointer st p r) ≡ field r

pub other-IsKept : (st : Stack) → IsKept st (pointer (other st))
other-IsKept system p r = refl
other-IsKept user p r = refl

pub IsKept-intro :
    (field : Regs → ℕ)
    → ((p : ℕ) (r : Regs) → field (record r { s = p }) ≡ field r)
    → ((p : ℕ) (r : Regs) → field (record r { u = p }) ≡ field r)
    → (st : Stack) → IsKept st field
IsKept-intro field hs hu system = hs
IsKept-intro field hs hu user = hu

pub pointer-put : (st : Stack) (p : ℕ) (r : Regs) → pointer st (put_pointer st p r) ≡ p
pointer-put system p r = refl
pointer-put user p r = refl

module _ (st : Stack) (field : Regs → ℕ) (kept : IsKept st field) (vs : List ℕ) (vm : Vm) where
  field-pushed : field (pushed st vs vm).regs ≡ field vm.regs
  unfolding pushed
  field-pushed = kept (pointer st vm.regs - length vs) vm.regs

  pointer-pushed : pointer st (pushed st vs vm).regs ≡ pointer st vm.regs - length vs
  unfolding pushed
  pointer-pushed = pointer-put st (pointer st vm.regs - length vs) vm.regs

  -- The next register goes on top of what has been pushed.
  pub push8_next :
      (b : Bool)
      → length vs + 1 ≤ pointer st vm.regs
      → pointer st vm.regs ≤ 0xff00
      → when b (push8 st field) (pushed st vs vm)
        ≡ some (tt, pushed st (byte_if b (field vm.regs) ++ vs) vm)
  push8_next false above below = refl
  push8_next true above below =
      push8_lem st field (pushed st vs vm)
        (record { above = omega (arith, pointer-pushed); below = omega (arith, pointer-pushed) })
      ∙ ap (λ w. some (tt, w))
          (ap (λ v. pushed st (v ∷ []) (pushed st vs vm)) field-pushed
            ∙ pushed-append st (field vm.regs ∷ []) vs vm (omega arith))

  pub push16_next :
      (b : Bool)
      → length vs + 2 ≤ pointer st vm.regs
      → pointer st vm.regs ≤ 0xff00
      → when b (push16 st field) (pushed st vs vm)
        ≡ some (tt, pushed st (word_if b (field vm.regs) ++ vs) vm)
  push16_next false above below = refl
  push16_next true above below =
      push16_lem st field (pushed st vs vm)
        (record { above = omega (arith, pointer-pushed); below = omega (arith, pointer-pushed) })
      ∙ ap (λ w. some (tt, w))
          (ap (λ v. pushed st (v / 256 ∷ v % 256 ∷ []) (pushed st vs vm)) field-pushed
            ∙ pushed-append st (field vm.regs / 256 ∷ field vm.regs % 256 ∷ []) vs vm (omega arith))

pub length-byte_if : (b : Bool) (v : ℕ) (vs : List ℕ) → length (byte_if b v ++ vs) ≤ length vs + 1
length-byte_if true v vs = omega arith
length-byte_if false v vs = omega arith

pub length-word_if : (b : Bool) (v : ℕ) (vs : List ℕ) → length (word_if b v ++ vs) ≤ length vs + 2
length-word_if true v vs = omega arith
length-word_if false v vs = omega arith
