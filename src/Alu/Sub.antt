-- ===== src/Alu/Sub.antt =====
-- The subtractions of vm6809.c, against the differences of natural numbers and of integers.
use c_vm.Prelude.{
  ℕ, zero, suc, refl, ◌+◌, ◌-◌, ◌*◌, ◌/◌, ◌%◌, ◌^◌, ◌≤◌, ◌<◌, ◌≡◌, ◌↔◌, bit_and, bit_xor, arith,
  Bool, nonzero, u8, u16, not, ◌==◌, ◌&&◌,
}
use c_vm.Prelude.Int.{pos, ◌-ℤ◌, signed8, signed16}
use c_vm.Bits.{bit, bit-le-one}
use c_vm.Flags.{nsign8, nsign16, carry8, carry16}
use c_vm.Flags.Laws.{
  HasFlags, as_bit, nsign8_lem, nsign16_lem, carry8_lem, carry16_lem, nzcv-HasFlags,
}
use c_vm.Alu.{Out, raw_subcf8, subf8, subcf8, subf16}
use c_vm.Alu.Add.{carry_in_lem}

-- The difference of two bytes and a borrow, with each flag of the result.
pub record IsDifference8 (a b carry cc : ℕ) (out : Out) : Type 0 where
  pub byte : out.0 < 256
  pub exact : out.0 + b + carry ≡ a + 256 * bit 0 out.1
  pub signed : (bit 1 out.1 ≡ 0) ↔ (signed8 out.0 ≡ signed8 a -ℤ signed8 b -ℤ pos carry)
  pub zero : (bit 2 out.1 ≡ 1) ↔ (out.0 ≡ 0)
  pub negative : bit 3 out.1 ≡ out.0 / 128
  pub half : bit 5 out.1 ≡ bit 5 cc
  pub entire : bit 7 out.1 ≡ bit 7 cc
  pub firq_mask : bit 6 out.1 ≡ bit 6 cc
  pub irq_mask : bit 4 out.1 ≡ bit 4 cc

-- The same of two words.
pub record IsDifference16 (a b cc : ℕ) (out : Out) : Type 0 where
  pub word : out.0 < 65536
  pub exact : out.0 + b ≡ a + 65536 * bit 0 out.1
  pub signed : (bit 1 out.1 ≡ 0) ↔ (signed16 out.0 ≡ signed16 a -ℤ signed16 b)
  pub zero : (bit 2 out.1 ≡ 1) ↔ (out.0 ≡ 0)
  pub negative : bit 3 out.1 ≡ out.0 / 32768
  pub half : bit 5 out.1 ≡ bit 5 cc
  pub entire : bit 7 out.1 ≡ bit 7 cc
  pub firq_mask : bit 6 out.1 ≡ bit 6 cc
  pub irq_mask : bit 4 out.1 ≡ bit 4 cc

-- The overflow test on three signs: the operands differ, and the result differs from the first.
over_sub :
    (x y z : ℕ)
    → x ≤ 1
    → y ≤ 1
    → z ≤ 1
    → bit_and (bit_xor x y) (bit_xor x z) ≡ as_bit (not (x == y) && not (x == z))
over_sub zero zero zero hx hy hz = refl
over_sub zero zero (suc zero) hx hy hz = refl
over_sub zero (suc zero) zero hx hy hz = refl
over_sub zero (suc zero) (suc zero) hx hy hz = refl
over_sub (suc zero) zero zero hx hy hz = refl
over_sub (suc zero) zero (suc zero) hx hy hz = refl
over_sub (suc zero) (suc zero) zero hx hy hz = refl
over_sub (suc zero) (suc zero) (suc zero) hx hy hz = refl
over_sub (suc (suc x)) y z hx hy hz = absurd (omega arith)
over_sub zero (suc (suc y)) z hx hy hz = absurd (omega arith)
over_sub (suc zero) (suc (suc y)) z hx hy hz = absurd (omega arith)
over_sub zero zero (suc (suc z)) hx hy hz = absurd (omega arith)
over_sub zero (suc zero) (suc (suc z)) hx hy hz = absurd (omega arith)
over_sub (suc zero) zero (suc (suc z)) hx hy hz = absurd (omega arith)
over_sub (suc zero) (suc zero) (suc (suc z)) hx hy hz = absurd (omega arith)

module _ (a b carry cc : ℕ) (ha : a < 256) (hb : b < 256) (hc : carry ≤ 1) where
  -- The stored difference, and its low byte.
  abbrev pub wide : ℕ
  wide = u16 (a + 65536 - b - carry)

  abbrev pub over8 : Bool
  over8 = not (a / 128 == b / 128) && not (a / 128 == wide % 256 / 128)

  pub raw_subcf8-HasFlags :
      HasFlags
        (raw_subcf8 a b carry cc).1
        (bit 7 cc)
        (bit 6 cc)
        (bit 5 cc)
        (bit 4 cc)
        (wide % 256 / 128)
        (as_bit (wide % 256 == 0))
        (as_bit over8)
        (wide / 256 % 2)
  unfolding raw_subcf8
  raw_subcf8-HasFlags = ground (
    arith,
    nzcv-HasFlags cc (nonzero (nsign8 (u8 wide))) (not (nonzero (u8 wide))) (nonzero (carry8 wide))
        (nonzero (bit_and (bit_xor (nsign8 a) (nsign8 b)) (bit_xor (nsign8 a) (nsign8 (u8 wide))))),
    nsign8_lem a,
    nsign8_lem b,
    nsign8_lem (u8 wide),
    carry8_lem wide,
    over_sub (nsign8 a) (nsign8 b) (nsign8 (u8 wide)),
  )

  -- V is the sign of a result that does not fit.
  overflow8 : (as_bit over8 ≡ 0) ↔ (signed8 (wide % 256) ≡ signed8 a -ℤ signed8 b -ℤ pos carry)
  overflow8 = ground arith steps 10000000

  raw_subcf8_result : (raw_subcf8 a b carry cc).0 ≡ wide % 256
  unfolding raw_subcf8
  raw_subcf8_result = refl

  raw_subcf8-IsDifference8 : IsDifference8 a b carry cc (raw_subcf8 a b carry cc)
  raw_subcf8-IsDifference8 =
      let f = raw_subcf8-HasFlags in
      record {
        byte = omega (arith, raw_subcf8_result);
        exact = omega (arith, f.carry, raw_subcf8_result);
        signed = rw (f.overflow, raw_subcf8_result) overflow8;
        zero = rw raw_subcf8_result (ground (arith, f.zero));
        negative = omega (arith, f.negative, raw_subcf8_result);
        half = f.half_carry;
        entire = f.entire;
        firq_mask = f.firq_mask;
        irq_mask = f.irq_mask;
      }

module _ (a b cc : ℕ) (ha : a < 65536) (hb : b < 65536) where
  abbrev pub long : ℕ
  long = (a + 2 ^ 32 - b) % 2 ^ 32

  abbrev pub over16 : Bool
  over16 = not (a / 32768 == b / 32768) && not (a / 32768 == long % 65536 / 32768)

  pub subf16-HasFlags :
      HasFlags
        (subf16 a b cc).1
        (bit 7 cc)
        (bit 6 cc)
        (bit 5 cc)
        (bit 4 cc)
        (long % 65536 / 32768)
        (as_bit (long % 65536 == 0))
        (as_bit over16)
        (long / 65536 % 2)
  unfolding subf16
  subf16-HasFlags = ground (
    arith,
    nzcv-HasFlags cc (nonzero (nsign16 (u16 long))) (not (nonzero (u16 long)))
        (nonzero (carry16 long))
        (nonzero
          (bit_and (bit_xor (nsign16 a) (nsign16 b)) (bit_xor (nsign16 a) (nsign16 (u16 long))))),
    nsign16_lem a,
    nsign16_lem b,
    nsign16_lem (u16 long),
    carry16_lem long,
    over_sub (nsign16 a) (nsign16 b) (nsign16 (u16 long)),
  )

  overflow16 : (as_bit over16 ≡ 0) ↔ (signed16 (long % 65536) ≡ signed16 a -ℤ signed16 b)
  overflow16 = ground arith steps 10000000

  subf16_result : (subf16 a b cc).0 ≡ long % 65536
  unfolding subf16
  subf16_result = refl

  -- C is the borrow of two words, and V is clear exactly when the signed difference is exact.
  pub subf16-IsDifference16 : IsDifference16 a b cc (subf16 a b cc)
  subf16-IsDifference16 =
      let f = subf16-HasFlags in
      record {
        word = omega (arith, subf16_result);
        exact = omega (arith, f.carry, subf16_result);
        signed = rw (f.overflow, subf16_result) overflow16;
        zero = rw subf16_result (ground (arith, f.zero));
        negative = omega (arith, f.negative, subf16_result);
        half = f.half_carry;
        entire = f.entire;
        firq_mask = f.firq_mask;
        irq_mask = f.irq_mask;
      }

-- C is the borrow, and V is clear exactly when the signed difference is exact.
pub subf8-IsDifference8 : (a b cc : ℕ) → a < 256 → b < 256 → IsDifference8 a b 0 cc (subf8 a b cc)
unfolding subf8
subf8-IsDifference8 a b cc ha hb = raw_subcf8-IsDifference8 a b 0 cc ha hb (omega arith)

-- With the carry flag taken off too, C is the borrow, and V is clear exactly when the signed
-- difference is exact.
pub subcf8-IsDifference8 :
    (a b cc : ℕ) → a < 256 → b < 256 → IsDifference8 a b (bit 0 cc) cc (subcf8 a b cc)
unfolding subcf8
subcf8-IsDifference8 a b cc ha hb =
    rw (carry_in_lem cc) (raw_subcf8-IsDifference8 a b (bit 0 cc) cc ha hb (bit-le-one 0 cc))
