-- ===== src/Execute/Branches.antt =====
-- The conditional branches of `cpu_execop` (vm6809.c), on the flags of a comparison.
use c_vm.Prelude.{
  ℕ, zero, suc, ◌≤◌, ◌+◌, ◌*◌, ◌/◌, ◌^◌, ◌<◌, ◌≡◌, Bool, true, false, refl, not, ◌&&◌, ◌||◌,
  nonzero, ltb, leb, ◌==◌, bit_and, arith,
}
use c_vm.Prelude.Int.{ℤ, pos_part, neg_part, signed8, signed16}
use c_vm.Bits.{bit, bit_and_step, bit_and-zero, bit_and-pow, bit-le-one}
use c_vm.Flags.{sameccf, orccf}
use c_vm.Alu.{subf8, subf16}
use c_vm.Alu.Sub.{raw_subcf8-HasFlags, subf16-HasFlags}
use c_vm.Decode.{
  Cond, if_cc, if_cs, if_eq, if_ge, if_gt, if_hi, if_le, if_ls, if_lt, if_mi, if_ne, if_pl, if_vc,
  if_vs, always, never,
}
use c_vm.Execute.{taken}

-- The test of each branch in terms of single flags.
abbrev pub tested : Cond → (n z v c : ℕ) → Bool
tested if_cc n z v c = c == 0
tested if_cs n z v c = c == 1
tested if_eq n z v c = z == 1
tested if_ge n z v c = n == v
tested if_gt n z v c = n == v && z == 0
tested if_hi n z v c = c == 0 && z == 0
tested if_le n z v c = not (n == v) || z == 1
tested if_ls n z v c = c == 1 || z == 1
tested if_lt n z v c = not (n == v)
tested if_mi n z v c = n == 1
tested if_ne n z v c = z == 0
tested if_pl n z v c = n == 0
tested if_vc n z v c = v == 0
tested if_vs n z v c = v == 1
tested always n z v c = true
tested never n z v c = false

module _ (cc : ℕ) where
  two_flags_nv : bit_and cc 0x0a ≡ bit 3 cc * 8 + bit 1 cc * 2
  two_flags_nv = omega (
    arith,
    bit_and_step cc 10,
    bit_and_step (cc / 2) 5,
    bit_and_step (cc / 2 / 2) 2,
    bit_and_step (cc / 2 / 2 / 2) 1,
    bit_and-zero (cc / 2 / 2 / 2 / 2),
  )

  two_flags_zc : bit_and cc 0x05 ≡ bit 2 cc * 4 + bit 0 cc
  two_flags_zc = omega (
    arith,
    bit_and_step cc 5,
    bit_and_step (cc / 2) 2,
    bit_and_step (cc / 2 / 2) 1,
    bit_and-zero (cc / 2 / 2 / 2),
  )

  abbrev flag_tested : Cond → Bool
  flag_tested cond = tested cond (bit 3 cc) (bit 2 cc) (bit 1 cc) (bit 0 cc)

  same_flags_lem : sameccf 0x0a cc ≡ (bit 3 cc == bit 1 cc)
  unfolding sameccf
  same_flags_lem = ground (arith, two_flags_nv, bit-le-one 3 cc, bit-le-one 1 cc)

  or_flags_lem : nonzero (orccf 0x05 cc) ≡ (bit 0 cc == 1 || bit 2 cc == 1)
  unfolding orccf
  or_flags_lem = ground (arith, two_flags_zc, bit-le-one 2 cc, bit-le-one 0 cc)

  scaled : (w x : ℕ) → 0 < w → x ≤ 1 → nonzero (x * w) ≡ (x == 1)
  scaled w zero hw hx = ground arith
  scaled w (suc zero) hw hx = ground arith
  scaled w (suc (suc x)) hw hx = absurd (omega arith)

  flag_lem : (k : ℕ) → 0 < 2 ^ k → nonzero (bit_and cc (2 ^ k)) ≡ (bit k cc == 1)
  flag_lem k h = rw (bit_and-pow k cc) (scaled (2 ^ k) (bit k cc) h (bit-le-one k cc))

  pub taken-tested : (cond : Cond) → taken cond cc ≡ flag_tested cond
  unfolding taken
  taken-tested if_cc = ground (arith, flag_lem 0 (omega arith), bit-le-one 0 cc)
  taken-tested if_cs = ground (arith, flag_lem 0 (omega arith), bit-le-one 0 cc)
  taken-tested if_eq = ground (arith, flag_lem 2 (omega arith), bit-le-one 2 cc)
  taken-tested if_ge = same_flags_lem
  taken-tested if_gt = ground (arith, same_flags_lem, flag_lem 2 (omega arith), bit-le-one 2 cc)
  taken-tested if_hi = ground (arith, or_flags_lem, bit-le-one 2 cc, bit-le-one 0 cc)
  taken-tested if_le = ground (arith, same_flags_lem, flag_lem 2 (omega arith), bit-le-one 2 cc)
  taken-tested if_ls = ground (arith, or_flags_lem, bit-le-one 2 cc, bit-le-one 0 cc)
  taken-tested if_lt = ground (arith, same_flags_lem)
  taken-tested if_mi = ground (arith, flag_lem 3 (omega arith), bit-le-one 3 cc)
  taken-tested if_ne = ground (arith, flag_lem 2 (omega arith), bit-le-one 2 cc)
  taken-tested if_pl = ground (arith, flag_lem 3 (omega arith), bit-le-one 3 cc)
  taken-tested if_vc = ground (arith, flag_lem 1 (omega arith), bit-le-one 1 cc)
  taken-tested if_vs = ground (arith, flag_lem 1 (omega arith), bit-le-one 1 cc)
  taken-tested always = refl
  taken-tested never = refl

-- The order of the integers.
abbrev pub less : ℤ → ℤ → Bool
less x y = ltb (pos_part x + neg_part y) (pos_part y + neg_part x)

-- What each branch says of the operands that were compared: unsigned, and signed.
pub record Compares (a b : ℕ) (sa sb : ℤ) (cc : ℕ) : Type 0 where
  pub equal : taken if_eq cc ≡ (a == b)
  pub not_equal : taken if_ne cc ≡ not (a == b)
  pub lower : taken if_cs cc ≡ ltb a b
  pub lower_or_same : taken if_ls cc ≡ leb a b
  pub higher : taken if_hi cc ≡ ltb b a
  pub higher_or_same : taken if_cc cc ≡ leb b a
  pub less_than : taken if_lt cc ≡ less sa sb
  pub greater_or_equal : taken if_ge cc ≡ not (less sa sb)
  pub less_or_equal : taken if_le cc ≡ not (less sb sa)
  pub greater_than : taken if_gt cc ≡ less sb sa

-- After a comparison of two bytes each branch is taken exactly when the relation that it is named
-- for holds: BEQ and BNE for equality, BCS (BLO), BLS, BHI and BCC (BHS) for the order of unsigned
-- bytes, and BLT, BLE, BGT and BGE for the order of signed bytes.
pub subf8-Compares :
    (a b cc : ℕ) → a < 256 → b < 256 → Compares a b (signed8 a) (signed8 b) (subf8 a b cc).1
unfolding subf8
subf8-Compares a b cc ha hb =
    let f = raw_subcf8-HasFlags a b 0 cc ha hb (omega arith) in
    record {
      equal = ground (arith, taken-tested (subf8 a b cc).1 if_eq, f.zero);
      not_equal = ground (arith, taken-tested (subf8 a b cc).1 if_ne, f.zero);
      lower = ground (arith, taken-tested (subf8 a b cc).1 if_cs, f.carry);
      lower_or_same = ground (arith, taken-tested (subf8 a b cc).1 if_ls, f.carry, f.zero);
      higher = ground (arith, taken-tested (subf8 a b cc).1 if_hi, f.carry, f.zero);
      higher_or_same = ground (arith, taken-tested (subf8 a b cc).1 if_cc, f.carry);
      less_than = ground (arith, taken-tested (subf8 a b cc).1 if_lt, f.negative, f.overflow);
      greater_or_equal =
          ground (arith, taken-tested (subf8 a b cc).1 if_ge, f.negative, f.overflow);
      less_or_equal =
          ground (arith, taken-tested (subf8 a b cc).1 if_le, f.negative, f.overflow, f.zero);
      greater_than =
          ground (arith, taken-tested (subf8 a b cc).1 if_gt, f.negative, f.overflow, f.zero);
    }

-- After a comparison of two words each branch is taken exactly when the relation that it is named
-- for holds: BEQ and BNE for equality, BCS (BLO), BLS, BHI and BCC (BHS) for the order of unsigned
-- words, and BLT, BLE, BGT and BGE for the order of signed words.
pub subf16-Compares :
    (a b cc : ℕ) → a < 65536 → b < 65536 → Compares a b (signed16 a) (signed16 b) (subf16 a b cc).1
subf16-Compares a b cc ha hb =
    let f = subf16-HasFlags a b cc ha hb in
    record {
      equal = ground (arith, taken-tested (subf16 a b cc).1 if_eq, f.zero);
      not_equal = ground (arith, taken-tested (subf16 a b cc).1 if_ne, f.zero);
      lower = ground (arith, taken-tested (subf16 a b cc).1 if_cs, f.carry);
      lower_or_same = ground (arith, taken-tested (subf16 a b cc).1 if_ls, f.carry, f.zero);
      higher = ground (arith, taken-tested (subf16 a b cc).1 if_hi, f.carry, f.zero);
      higher_or_same = ground (arith, taken-tested (subf16 a b cc).1 if_cc, f.carry);
      less_than = ground (arith, taken-tested (subf16 a b cc).1 if_lt, f.negative, f.overflow);
      greater_or_equal =
          ground (arith, taken-tested (subf16 a b cc).1 if_ge, f.negative, f.overflow);
      less_or_equal =
          ground (arith, taken-tested (subf16 a b cc).1 if_le, f.negative, f.overflow, f.zero);
      greater_than =
          ground (arith, taken-tested (subf16 a b cc).1 if_gt, f.negative, f.overflow, f.zero);
    }
