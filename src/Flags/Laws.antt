-- ===== src/Flags/Laws.antt =====
-- Each flag after the marks are applied.
use c_vm.Prelude.{ℕ, ◌-◌, ◌/◌, ◌%◌, ◌<◌, min, max, ◌≡◌, Bool, true, false, if◌then◌else◌, arith}
use c_vm.Bits.{bit, bit-bit_and, bit-bit_or, bit-not8, bit-le-one, bit_and-pow}
use c_vm.Flags.{setclrf, nsign8, nsign16, carry8, carry16, Marks, mark, apply, no_marks, clear_v}

abbrev pub as_bit : Bool → ℕ
as_bit b = if b then 1 else 0

pub nsign8_lem : (a : ℕ) → a < 256 → nsign8 a ≡ a / 128
unfolding nsign8
nsign8_lem a h = omega (arith, bit_and-pow 7 a)

pub nsign16_lem : (a : ℕ) → a < 65536 → nsign16 a ≡ a / 32768
unfolding nsign16
nsign16_lem a h = omega (arith, bit_and-pow 15 a)

pub carry8_lem : (a : ℕ) → carry8 a ≡ a / 256 % 2
unfolding carry8
carry8_lem a = omega (arith, bit_and-pow 8 a)

pub carry16_lem : (a : ℕ) → carry16 a ≡ a / 65536 % 2
unfolding carry16
carry16_lem a = omega (arith, bit_and-pow 16 a)

pub bit-setclrf :
    (k reg set clr : ℕ)
    → k < 8
    → clr < 256
    → bit k (setclrf reg set clr) ≡ max (min (bit k reg) (1 - bit k clr)) (bit k set)
unfolding setclrf
bit-setclrf k reg set clr hk hc = simp (bit-bit_or, bit-bit_and, bit-not8 k clr hk hc)

pub bit-mark_set :
    (k flag : ℕ) (test : Bool) (m : Marks)
    → bit k (mark test flag m).set ≡ max (bit k m.set) (if test then bit k flag else 0)
unfolding mark
bit-mark_set k flag true m = bit-bit_or k m.set flag
bit-mark_set k flag false m = omega arith

pub bit-mark_clr :
    (k flag : ℕ) (test : Bool) (m : Marks)
    → bit k (mark test flag m).clr ≡ max (bit k m.clr) (if test then 0 else bit k flag)
unfolding mark
bit-mark_clr k flag true m = omega arith
bit-mark_clr k flag false m = bit-bit_or k m.clr flag

-- All eight flags of a condition code register.
pub record HasFlags (cc e f h i n z v c : ℕ) : Type 0 where
  pub entire : bit 7 cc ≡ e
  pub firq_mask : bit 6 cc ≡ f
  pub half_carry : bit 5 cc ≡ h
  pub irq_mask : bit 4 cc ≡ i
  pub negative : bit 3 cc ≡ n
  pub zero : bit 2 cc ≡ z
  pub overflow : bit 1 cc ≡ v
  pub carry : bit 0 cc ≡ c

module _ (cc : ℕ) (m : Marks) (small : m.clr < 256) where
  -- What is marked neither way stays.
  abbrev pub after : ℕ → ℕ
  after k = max (min (bit k cc) (1 - bit k m.clr)) (bit k m.set)

  pub apply-HasFlags :
      HasFlags
        (apply cc m)
        (after 7)
        (after 6)
        (after 5)
        (after 4)
        (after 3)
        (after 2)
        (after 1)
        (after 0)
  unfolding apply
  apply-HasFlags = record {
    entire = bit-setclrf 7 cc m.set m.clr (omega arith) small;
    firq_mask = bit-setclrf 6 cc m.set m.clr (omega arith) small;
    half_carry = bit-setclrf 5 cc m.set m.clr (omega arith) small;
    irq_mask = bit-setclrf 4 cc m.set m.clr (omega arith) small;
    negative = bit-setclrf 3 cc m.set m.clr (omega arith) small;
    zero = bit-setclrf 2 cc m.set m.clr (omega arith) small;
    overflow = bit-setclrf 1 cc m.set m.clr (omega arith) small;
    carry = bit-setclrf 0 cc m.set m.clr (omega arith) small;
  }

module _ (cc : ℕ) (n z : Bool) where
  pub nzcvh-HasFlags :
      (c v h : Bool)
      → HasFlags
          (apply cc (mark h 32 (mark v 2 (mark c 1 (mark z 4 (mark n 8 no_marks))))))
          (bit 7 cc)
          (bit 6 cc)
          (as_bit h)
          (bit 4 cc)
          (as_bit n)
          (as_bit z)
          (as_bit v)
          (as_bit c)
  unfolding mark
  nzcvh-HasFlags c v h =
      ground
        (arith, apply-HasFlags cc (mark h 32 (mark v 2 (mark c 1 (mark z 4 (mark n 8 no_marks))))))

  pub nzcv-HasFlags :
      (c v : Bool)
      → HasFlags
          (apply cc (mark v 2 (mark c 1 (mark z 4 (mark n 8 no_marks)))))
          (bit 7 cc)
          (bit 6 cc)
          (bit 5 cc)
          (bit 4 cc)
          (as_bit n)
          (as_bit z)
          (as_bit v)
          (as_bit c)
  unfolding mark
  nzcv-HasFlags c v =
      ground (arith, apply-HasFlags cc (mark v 2 (mark c 1 (mark z 4 (mark n 8 no_marks)))))

  pub nzv-HasFlags :
      (v : Bool)
      → HasFlags
          (apply cc (mark v 2 (mark z 4 (mark n 8 no_marks))))
          (bit 7 cc)
          (bit 6 cc)
          (bit 5 cc)
          (bit 4 cc)
          (as_bit n)
          (as_bit z)
          (as_bit v)
          (bit 0 cc)
  unfolding mark
  nzv-HasFlags v = ground (arith, apply-HasFlags cc (mark v 2 (mark z 4 (mark n 8 no_marks))))

  -- The functions that clear V.
  pub nz-HasFlags :
      HasFlags
        (apply cc (mark z 4 (mark n 8 clear_v)))
        (bit 7 cc)
        (bit 6 cc)
        (bit 5 cc)
        (bit 4 cc)
        (as_bit n)
        (as_bit z)
        0
        (bit 0 cc)
  unfolding mark
  nz-HasFlags = ground (arith, apply-HasFlags cc (mark z 4 (mark n 8 clear_v)))

  pub cnz-HasFlags :
      (c : Bool)
      → HasFlags
          (apply cc (mark z 4 (mark n 8 (mark c 1 clear_v))))
          (bit 7 cc)
          (bit 6 cc)
          (bit 5 cc)
          (bit 4 cc)
          (as_bit n)
          (as_bit z)
          0
          (as_bit c)
  unfolding mark
  cnz-HasFlags c = ground (arith, apply-HasFlags cc (mark z 4 (mark n 8 (mark c 1 clear_v))))

pub z-HasFlags :
    (cc : ℕ) (z : Bool)
    → HasFlags
        (apply cc (mark z 4 no_marks))
        (bit 7 cc)
        (bit 6 cc)
        (bit 5 cc)
        (bit 4 cc)
        (bit 3 cc)
        (as_bit z)
        (bit 1 cc)
        (bit 0 cc)
unfolding mark
z-HasFlags cc z = ground (arith, apply-HasFlags cc (mark z 4 no_marks), bit-le-one 3 cc)
