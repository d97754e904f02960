-- ===== src/Alu/Logic.antt =====
-- `_logicf8` and `_shiftf8` of vm6809.c.
use c_vm.Prelude.{
  ℕ, refl, ◌+◌, ◌-◌, ◌*◌, ◌/◌, ◌%◌, ◌<◌, ◌≡◌, min, max, bit_and, bit_or, bit_xor, arith, true,
  false, nonzero, not8, not, ◌==◌,
}
use c_vm.Prelude.Int.{ℤ, pos, negsuc, signed8}
use c_vm.Bits.{
  bit, bit-bit_and, bit-bit_or, bit-bit_xor, bit-not8, bit_and-le, bit_or-lt, bit_xor-lt,
  bit_and-pow, bit_and-seven, bit_or-fields, bit_or_comm,
}
use c_vm.Flags.{nsign8}
use c_vm.Flags.Laws.{HasFlags, as_bit, nsign8_lem, nz-HasFlags, cnz-HasFlags}
use c_vm.Alu.{
  Out, LogicOp, lo_and, lo_or, lo_xor, lo_com, logic_result, logicf8, sh_left, sh_right, sh_aright,
  shift_result, shiftf8,
}

-- Each operation on one bit.
abbrev pub digit : LogicOp → ℕ → ℕ → ℕ
digit lo_and x y = min x y
digit lo_or x y = max x y
digit lo_xor x y = (x + y) % 2
digit lo_com x y = 1 - x

-- The complement takes C from its result; the other operations leave C alone.
abbrev pub logic_carry : LogicOp → ℕ → ℕ → ℕ
logic_carry lo_com res cc = as_bit (nonzero res)
logic_carry _ res cc = bit 0 cc

pub logic_result-lt : (a b : ℕ) (op : LogicOp) → a < 256 → b < 256 → logic_result op a b < 256
logic_result-lt a b lo_and ha hb = omega (arith, bit_and-le 8 a b ha)
logic_result-lt a b lo_or ha hb = bit_or-lt 8 a b ha hb
logic_result-lt a b lo_xor ha hb = bit_xor-lt 8 a b ha hb
logic_result-lt a b lo_com ha hb = omega arith

logic_result-bit :
    (a b k : ℕ) (op : LogicOp)
    → a < 256
    → k < 8
    → bit k (logic_result op a b) ≡ digit op (bit k a) (bit k b)
logic_result-bit a b k lo_and ha hk = bit-bit_and k a b
logic_result-bit a b k lo_or ha hk = bit-bit_or k a b
logic_result-bit a b k lo_xor ha hk = bit-bit_xor k a b
logic_result-bit a b k lo_com ha hk = bit-not8 k a hk ha

-- A logic operation works on bit `k`, clears V, and sets N and Z from its result.
pub record IsLogic (a b : ℕ) (op : LogicOp) (cc k : ℕ) (out : Out) : Type 0 where
  pub byte : out.0 < 256
  pub bits : bit k out.0 ≡ digit op (bit k a) (bit k b)
  pub flags :
      HasFlags out.1
        (bit 7 cc)
        (bit 6 cc)
        (bit 5 cc)
        (bit 4 cc)
        (out.0 / 128)
        (as_bit (out.0 == 0))
        0
        (logic_carry op out.0 cc)

module _ (a b cc : ℕ) (ha : a < 256) (hb : b < 256) where
  logicf8-HasFlags :
      (op : LogicOp)
      → let res = logic_result op a b in
        HasFlags
          (logicf8 a b op cc).1
          (bit 7 cc)
          (bit 6 cc)
          (bit 5 cc)
          (bit 4 cc)
          (res / 128)
          (as_bit (res == 0))
          0
          (logic_carry op res cc)
  unfolding logicf8
  logicf8-HasFlags lo_com = ground (
    arith,
    cnz-HasFlags cc (nonzero (nsign8 (not8 a))) (not (nonzero (not8 a))) (nonzero (not8 a)),
    nsign8_lem (not8 a),
  )
  logicf8-HasFlags lo_and =
      let res : ℕ = bit_and a b in
      let small = logic_result-lt a b lo_and ha hb in
      ground
        (arith, nz-HasFlags cc (nonzero (nsign8 res)) (not (nonzero res)), nsign8_lem res small)
  logicf8-HasFlags lo_or =
      let res : ℕ = bit_or a b in
      let small = logic_result-lt a b lo_or ha hb in
      ground
        (arith, nz-HasFlags cc (nonzero (nsign8 res)) (not (nonzero res)), nsign8_lem res small)
  logicf8-HasFlags lo_xor =
      let res : ℕ = bit_xor a b in
      let small = logic_result-lt a b lo_xor ha hb in
      ground
        (arith, nz-HasFlags cc (nonzero (nsign8 res)) (not (nonzero res)), nsign8_lem res small)

  -- Each logic operation on two bytes works bit by bit, clears V, and sets N and Z from its result;
  -- the complement sets C when its result is not 0, and no other flag changes.
  pub logicf8-IsLogic : (op : LogicOp) (k : ℕ) → k < 8 → IsLogic a b op cc k (logicf8 a b op cc)
  unfolding logicf8
  logicf8-IsLogic op k hk = record {
    byte = logic_result-lt a b op ha hb;
    bits = logic_result-bit a b k op ha hk;
    flags = logicf8-HasFlags op;
  }

-- Half of a signed number, rounded down.
abbrev pub half_ℤ : ℤ → ℤ
half_ℤ (pos n) = pos (n / 2)
half_ℤ (negsuc n) = negsuc (n / 2)

shift_aright : (a : ℕ) → a < 256 → shift_result sh_aright a false ≡ a / 128 * 128 + a / 2
shift_aright a h = ground (
  arith,
  bit_and-seven (a / 2),
  bit_and-pow 7 a,
  bit_or_comm 8 (a / 2) (a / 128 * 128),
  bit_or-fields 7 (a / 128) (a / 2),
)

-- Without a rotation, the left shift doubles modulo 256, the right shift halves, and the
-- arithmetic right shift halves the signed number. None of them changes a flag.
pub shiftf8_lem :
    (a cc : ℕ)
    → a < 256
    → (shiftf8 a sh_left false cc ≡ (a * 2 % 256, cc))
      × (shiftf8 a sh_right false cc ≡ (a / 2, cc))
      × (signed8 (shiftf8 a sh_aright false cc).0 ≡ half_ℤ (signed8 a))
      × ((shiftf8 a sh_aright false cc).1 ≡ cc)
unfolding shiftf8
shiftf8_lem a cc h = (refl, refl, rw (shift_aright a h) (ground arith), refl)

-- With the carry set, a rotation puts it at the end of the byte that the bits move out of: the
-- left rotation sets bit 7 and leaves bit 0 clear, the right one sets bit 0
-- and leaves bit 7 clear.
pub shiftf8_rotates :
    (a cc : ℕ)
    → a < 256
    → bit 0 cc ≡ 1
    → (bit 7 (shiftf8 a sh_left true cc).0 ≡ 1)
      × (bit 0 (shiftf8 a sh_left true cc).0 ≡ 0)
      × (bit 0 (shiftf8 a sh_right true cc).0 ≡ 1)
      × (bit 7 (shiftf8 a sh_right true cc).0 ≡ 0)
unfolding shiftf8
shiftf8_rotates a cc h c = (
  ground (arith, bit_and-pow 0 cc, bit-bit_or 7 (a * 2 % 256) 0x80),
  ground (arith, bit_and-pow 0 cc, bit-bit_or 0 (a * 2 % 256) 0x80),
  ground (arith, bit_and-pow 0 cc, bit-bit_or 0 (a / 2) 0x01),
  ground (arith, bit_and-pow 0 cc, bit-bit_or 7 (a / 2) 0x01),
)
