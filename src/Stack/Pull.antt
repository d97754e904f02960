-- ===== src/Stack/Pull.antt =====
-- `_pullregs` (vm6809.c) on a frame that stands in memory.
use c_vm.Prelude.{
  ℕ, suc, ◌+◌, ◌/◌, ◌%◌, ◌≤◌, ◌<◌, ◌≡◌, refl, sym, ap, ◌∙◌, subst, Bool, true, false, List, [], ◌∷◌,
  ◌++◌, some, length, length-append, arith, u16, inl, if◌then◌else◌,
}
use native.Mathlib.Nat.{zero-add}
use native.Mathlib.Numerals.{add-one}
use c_vm.Machine.{Regs, Vm}
use c_vm.Memory.Laws.{mem_rd8_ram, mem_rd16_lem, word_at}
use c_vm.Stack.{
  Stack, system, user, other, pointer, put_pointer, when, selects, pull8, pull16, pullregs,
}
use c_vm.Stack.Push.{byte_if, word_if, pointer-put}
use c_vm.Stack.Frame.{frame, frame_a, frame_b, frame_dp, frame_x, frame_y, frame_us, frame_pc}

-- The bytes `vs` stand in memory from the address `p` on.
abbrev pub Holds : (ℕ → ℕ) → ℕ → List ℕ → Type 0
Holds m p [] = Unit
Holds m p (v ∷ vs) = (m p ≡ v) × Holds m (suc p) vs

-- A state whose stack pointer is at `p` and whose other registers are those of `r`.
abbrev pub at : Stack → Vm → ℕ → Regs → Vm
at st vm p r = record vm { regs = put_pointer st p r }

-- Two updates of different registers.
abbrev pub Commutes : Stack → (ℕ → Regs → Regs) → Type 0
Commutes st put = (v p : ℕ) (r : Regs) → put v (put_pointer st p r) ≡ put_pointer st p (put v r)

put-put :
    (st : Stack) (p q : ℕ) (r : Regs) → put_pointer st p (put_pointer st q r) ≡ put_pointer st p r
put-put system p q r = refl
put-put user p q r = refl

pub Commutes-intro :
    (put : ℕ → Regs → Regs)
    → Commutes system put
    → Commutes user put
    → (st : Stack) → Commutes st put
Commutes-intro put hs hu system = hs
Commutes-intro put hs hu user = hu

pub other-Commutes : (st : Stack) → Commutes st (put_pointer (other st))
other-Commutes system v p r = refl
other-Commutes user v p r = refl

module _ (st : Stack) (put : ℕ → Regs → Regs) (commutes : Commutes st put) where
  pull8_lem :
      (vm : Vm) (p : ℕ) (r : Regs)
      → p < 0xff00
      → pull8 st put (at st vm p r) ≡ some (tt, at st vm (suc p) (put (vm.memory p) r))
  unfolding pull8
  pull8_lem vm p r h =
      let next : u16 (p + 1) ≡ suc p = omega arith in
      rw (
        pointer-put st p r,
        put-put st (u16 (p + 1)) p r,
        next,
        mem_rd8_ram p (at st vm (suc p) r) (inl h),
        commutes (vm.memory p) (suc p) r,
      )

  pull16_lem :
      (vm : Vm) (p v : ℕ) (r : Regs)
      → p + 1 < 0xff00
      → Holds vm.memory p (v / 256 ∷ v % 256 ∷ [])
      → pull16 st put (at st vm p r) ≡ some (tt, at st vm (suc (suc p)) (put v r))
  unfolding pull16
  pull16_lem vm p v r h holds =
      let next : u16 (p + 2) ≡ suc (suc p) = omega arith in
      let low : vm.memory (p + 1) ≡ v % 256 = rw add-one holds.1.0 in
      let word : word_at vm.memory p ≡ v = omega arith in
      rw (
        pointer-put st p r,
        mem_rd16_lem p (at st vm p r) (omega arith) (omega arith),
        word,
        commutes v p r,
        pointer-put st p (put v r),
        put-put st (u16 (p + 2)) p (put v r),
        next,
      )

-- A block in two parts.
Holds-append :
    (m : ℕ → ℕ) (p : ℕ) (us vs : List ℕ)
    → Holds m p (us ++ vs)
    → Holds m p us × Holds m (length us + p) vs
Holds-append m p [] vs h = (tt, rw zero-add h)
Holds-append m p (u ∷ us) vs h =
    let (front, back) = Holds-append m (suc p) us vs h.1 in
    let moved : length us + suc p ≡ suc (length us) + p = omega arith in
    ((h.0, front), subst (λ q. Holds m q vs) moved back)

-- The register that is pulled if `b` says so.
abbrev pub put_if : Bool → (ℕ → Regs → Regs) → ℕ → Regs → Regs
put_if b put v r = if b then put v r else r

module _ (st : Stack) (put : ℕ → Regs → Regs) (commutes : Commutes st put) (vm : Vm) where
  pull8_next :
      (b : Bool) (p v : ℕ) (r : Regs) (vs : List ℕ)
      → Holds vm.memory p (byte_if b v ++ vs)
      → length (byte_if b v) + p ≤ 0xff00
      → when b (pull8 st put) (at st vm p r)
        ≡ some (tt, at st vm (length (byte_if b v) + p) (put_if b put v r))
  pull8_next false p v r vs holds h = ap (λ q. some (tt, at st vm q r)) (sym (zero-add p))
  pull8_next true p v r vs holds h =
      let next : suc p ≡ 1 + p = omega arith in
      pull8_lem st put commutes vm p r (omega arith)
      ∙ ap (λ q. some (tt, at st vm q (put (vm.memory p) r))) next
      ∙ ap (λ w. some (tt, at st vm (1 + p) (put w r))) holds.0

  pull16_next :
      (b : Bool) (p v : ℕ) (r : Regs) (vs : List ℕ)
      → Holds vm.memory p (word_if b v ++ vs)
      → length (word_if b v) + p ≤ 0xff00
      → when b (pull16 st put) (at st vm p r)
        ≡ some (tt, at st vm (length (word_if b v) + p) (put_if b put v r))
  pull16_next false p v r vs holds h = ap (λ q. some (tt, at st vm q r)) (sym (zero-add p))
  pull16_next true p v r vs holds h =
      let next : suc (suc p) ≡ 2 + p = omega arith in
      pull16_lem st put commutes vm p v r (omega arith) (holds.0, (holds.1.0, tt))
      ∙ ap (λ q. some (tt, at st vm q (put v r))) next

module _ (mask : ℕ) (st : Stack) (saved r : Regs) where
  -- The registers of `r`, with those that the mask selects taken from `saved`.
  abbrev pub restored_cc : Regs
  restored_cc = put_if (selects mask 0x01) (λ v q. record q { cc = v }) saved.cc r

  abbrev pub restored_a : Regs
  restored_a = put_if (selects mask 0x02) (λ v q. record q { a = v }) saved.a restored_cc

  abbrev pub restored_b : Regs
  restored_b = put_if (selects mask 0x04) (λ v q. record q { b = v }) saved.b restored_a

  abbrev pub restored_dp : Regs
  restored_dp = put_if (selects mask 0x08) (λ v q. record q { dp = v }) saved.dp restored_b

  abbrev pub restored_x : Regs
  restored_x = put_if (selects mask 0x10) (λ v q. record q { x = v }) saved.x restored_dp

  abbrev pub restored_y : Regs
  restored_y = put_if (selects mask 0x20) (λ v q. record q { y = v }) saved.y restored_x

  abbrev pub restored_us : Regs
  restored_us =
      put_if (selects mask 0x40) (put_pointer (other st)) (pointer (other st) saved) restored_y

  abbrev pub restored : Regs
  restored = put_if (selects mask 0x80) (λ v q. record q { pc = v }) saved.pc restored_us

module _ (st : Stack) where
  cc-Commutes : Commutes st (λ v q. record q { cc = v })
  cc-Commutes = Commutes-intro (λ v q. record q { cc = v }) (λ v p r. refl) (λ v p r. refl) st

  a-Commutes : Commutes st (λ v q. record q { a = v })
  a-Commutes = Commutes-intro (λ v q. record q { a = v }) (λ v p r. refl) (λ v p r. refl) st

  b-Commutes : Commutes st (λ v q. record q { b = v })
  b-Commutes = Commutes-intro (λ v q. record q { b = v }) (λ v p r. refl) (λ v p r. refl) st

  dp-Commutes : Commutes st (λ v q. record q { dp = v })
  dp-Commutes = Commutes-intro (λ v q. record q { dp = v }) (λ v p r. refl) (λ v p r. refl) st

  x-Commutes : Commutes st (λ v q. record q { x = v })
  x-Commutes = Commutes-intro (λ v q. record q { x = v }) (λ v p r. refl) (λ v p r. refl) st

  y-Commutes : Commutes st (λ v q. record q { y = v })
  y-Commutes = Commutes-intro (λ v q. record q { y = v }) (λ v p r. refl) (λ v p r. refl) st

  pc-Commutes : Commutes st (λ v q. record q { pc = v })
  pc-Commutes = Commutes-intro (λ v q. record q { pc = v }) (λ v p r. refl) (λ v p r. refl) st

module _ (mask : ℕ) (st : Stack) (vm : Vm) (saved r : Regs) (p : ℕ)
    (fits : p + length (frame mask st saved) ≤ 0xff00)
    (holds : Holds vm.memory p (frame mask st saved)) where
  -- Where each part of the frame begins.
  abbrev pub at_a : ℕ
  at_a = length (byte_if (selects mask 0x01) saved.cc) + p

  abbrev pub at_b : ℕ
  at_b = length (byte_if (selects mask 0x02) saved.a) + at_a

  abbrev pub at_dp : ℕ
  at_dp = length (byte_if (selects mask 0x04) saved.b) + at_b

  abbrev pub at_x : ℕ
  at_x = length (byte_if (selects mask 0x08) saved.dp) + at_dp

  abbrev pub at_y : ℕ
  at_y = length (word_if (selects mask 0x10) saved.x) + at_x

  abbrev pub at_us : ℕ
  at_us = length (word_if (selects mask 0x20) saved.y) + at_y

  abbrev pub at_pc : ℕ
  at_pc = length (word_if (selects mask 0x40) (pointer (other st) saved)) + at_us

  abbrev pub at_end : ℕ
  at_end = length (word_if (selects mask 0x80) saved.pc) + at_pc

  Holds-a : Holds vm.memory at_a (frame_a mask st saved)
  Holds-a = (Holds-append vm.memory p (byte_if (selects mask 0x01) saved.cc) _ holds).1

  Holds-b : Holds vm.memory at_b (frame_b mask st saved)
  Holds-b = (Holds-append vm.memory at_a (byte_if (selects mask 0x02) saved.a) _ Holds-a).1

  Holds-dp : Holds vm.memory at_dp (frame_dp mask st saved)
  Holds-dp = (Holds-append vm.memory at_b (byte_if (selects mask 0x04) saved.b) _ Holds-b).1

  Holds-x : Holds vm.memory at_x (frame_x mask st saved)
  Holds-x = (Holds-append vm.memory at_dp (byte_if (selects mask 0x08) saved.dp) _ Holds-dp).1

  Holds-y : Holds vm.memory at_y (frame_y mask st saved)
  Holds-y = (Holds-append vm.memory at_x (word_if (selects mask 0x10) saved.x) _ Holds-x).1

  Holds-us : Holds vm.memory at_us (frame_us mask st saved)
  Holds-us = (Holds-append vm.memory at_y (word_if (selects mask 0x20) saved.y) _ Holds-y).1

  Holds-pc : Holds vm.memory at_pc (frame_pc mask st saved)
  Holds-pc =
      (Holds-append vm.memory at_us (word_if (selects mask 0x40) (pointer (other st) saved)) _
        Holds-us).1

  pub at_end_lem : at_end ≡ p + length (frame mask st saved)
  at_end_lem = omega (
    arith,
    length-append (byte_if (selects mask 0x01) saved.cc) (frame_a mask st saved),
    length-append (byte_if (selects mask 0x02) saved.a) (frame_b mask st saved),
    length-append (byte_if (selects mask 0x04) saved.b) (frame_dp mask st saved),
    length-append (byte_if (selects mask 0x08) saved.dp) (frame_x mask st saved),
    length-append (word_if (selects mask 0x10) saved.x) (frame_y mask st saved),
    length-append (word_if (selects mask 0x20) saved.y) (frame_us mask st saved),
    length-append (word_if (selects mask 0x40) (pointer (other st) saved)) (frame_pc mask st saved),
    length-append (word_if (selects mask 0x80) saved.pc) [],
  )

  -- From a frame in memory `_pullregs` takes the registers that the mask selects, and leaves the
  -- stack pointer behind the frame.
  pub pullregs_lem :
      pullregs mask st (at st vm p r) ≡ some (tt, at st vm at_end (restored mask st saved r))
  unfolding pullregs
  pullregs_lem =
      let e = at_end_lem in
      rw (
        pull8_next st (λ v q. record q { cc = v }) (cc-Commutes st) vm (selects mask 0x01) p
            saved.cc r (frame_a mask st saved) holds (omega arith),
        pull8_next st (λ v q. record q { a = v }) (a-Commutes st) vm (selects mask 0x02) at_a
            saved.a (restored_cc mask st saved r) (frame_b mask st saved) Holds-a (omega arith),
        pull8_next st (λ v q. record q { b = v }) (b-Commutes st) vm (selects mask 0x04) at_b
            saved.b (restored_a mask st saved r) (frame_dp mask st saved) Holds-b (omega arith),
        pull8_next st (λ v q. record q { dp = v }) (dp-Commutes st) vm (selects mask 0x08) at_dp
            saved.dp (restored_b mask st saved r) (frame_x mask st saved) Holds-dp (omega arith),
        pull16_next st (λ v q. record q { x = v }) (x-Commutes st) vm (selects mask 0x10) at_x
            saved.x (restored_dp mask st saved r) (frame_y mask st saved) Holds-x (omega arith),
        pull16_next st (λ v q. record q { y = v }) (y-Commutes st) vm (selects mask 0x20) at_y
            saved.y (restored_x mask st saved r) (frame_us mask st saved) Holds-y (omega arith),
        pull16_next st (put_pointer (other st)) (other-Commutes st) vm (selects mask 0x40) at_us
            (pointer (other st) saved) (restored_y mask st saved r) (frame_pc mask st saved)
            Holds-us (omega arith),
        pull16_next st (λ v q. record q { pc = v }) (pc-Commutes st) vm (selects mask 0x80) at_pc
            saved.pc (restored_us mask st saved r) [] Holds-pc (omega arith),
      )
