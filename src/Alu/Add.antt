-- ===== src/Alu/Add.antt =====
-- The additions of vm6809.c, against the sums of natural numbers and of integers.
use c_vm.Prelude.{
  ℕ, ◌+◌, ◌*◌, ◌/◌, ◌%◌, ◌≤◌, ◌<◌, ◌≡◌, ◌↔◌, bit_and, bit_xor, arith, Bool, nonzero, not8,
  if◌then◌else◌, ◌^◌, u8, u16, not, ◌==◌, ◌&&◌, zero, suc, refl,
}
use c_vm.Prelude.Int.{pos, ◌+ℤ◌, signed8, signed16}
use c_vm.Bits.{bit, bit-le-one, bit_and-pow, bit_and-nibble}
use c_vm.Flags.{nsign8, nsign16, carry8, carry16}
use c_vm.Flags.Laws.{
  HasFlags, as_bit, nsign8_lem, nsign16_lem, carry8_lem, carry16_lem, nzcvh-HasFlags, nzcv-HasFlags,
}
use c_vm.Alu.{Out, raw_addcf8, addf8, addcf8, addf16}

-- The sum of two bytes and a carry, with each flag of the result.
pub record IsSum8 (a b carry cc : ℕ) (out : Out) : Type 0 where
  pub byte : out.0 < 256
  pub exact : out.0 + 256 * bit 0 out.1 ≡ a + b + carry
  pub signed : (bit 1 out.1 ≡ 0) ↔ (signed8 out.0 ≡ signed8 a +ℤ signed8 b +ℤ pos carry)
  pub zero : (bit 2 out.1 ≡ 1) ↔ (out.0 ≡ 0)
  pub negative : bit 3 out.1 ≡ out.0 / 128
  pub half : bit 5 out.1 ≡ (a % 16 + b % 16) / 16
  pub entire : bit 7 out.1 ≡ bit 7 cc
  pub firq_mask : bit 6 out.1 ≡ bit 6 cc
  pub irq_mask : bit 4 out.1 ≡ bit 4 cc

-- The overflow test on three signs: the operands agree, and the result differs from them.
over_add :
    (x y z : ℕ)
    → x ≤ 1
    → y ≤ 1
    → z ≤ 1
    → bit_and (not8 (bit_xor x y)) (bit_xor x z) ≡ as_bit (x == y && not (x == z))
over_add zero zero zero hx hy hz = refl
over_add zero zero (suc zero) hx hy hz = refl
over_add zero (suc zero) zero hx hy hz = refl
over_add zero (suc zero) (suc zero) hx hy hz = refl
over_add (suc zero) zero zero hx hy hz = refl
over_add (suc zero) zero (suc zero) hx hy hz = refl
over_add (suc zero) (suc zero) zero hx hy hz = refl
over_add (suc zero) (suc zero) (suc zero) hx hy hz = refl
over_add (suc (suc x)) y z hx hy hz = absurd (omega arith)
over_add zero (suc (suc y)) z hx hy hz = absurd (omega arith)
over_add (suc zero) (suc (suc y)) z hx hy hz = absurd (omega arith)
over_add zero zero (suc (suc z)) hx hy hz = absurd (omega arith)
over_add zero (suc zero) (suc (suc z)) hx hy hz = absurd (omega arith)
over_add (suc zero) zero (suc (suc z)) hx hy hz = absurd (omega arith)
over_add (suc zero) (suc zero) (suc (suc z)) hx hy hz = absurd (omega arith)

module _ (a b carry cc : ℕ) (ha : a < 256) (hb : b < 256) (hc : carry ≤ 1) where
  abbrev sum : ℕ
  sum = a + b + carry

  -- The flags as tests on numbers.
  abbrev over8 : Bool
  over8 = a / 128 == b / 128 && not (a / 128 == sum % 256 / 128)

  raw_addcf8-HasFlags :
      HasFlags
        (raw_addcf8 a b carry cc).1
        (bit 7 cc)
        (bit 6 cc)
        ((a % 16 + b % 16) / 16)
        (bit 4 cc)
        (sum % 256 / 128)
        (as_bit (sum % 256 == 0))
        (as_bit over8)
        (sum / 256)
  unfolding raw_addcf8
  raw_addcf8-HasFlags = ground (
    arith,
    nzcvh-HasFlags cc (nonzero (nsign8 (u8 (u16 sum)))) (not (nonzero (u8 (u16 sum))))
        (nonzero (carry8 (u16 sum)))
        (nonzero (
          bit_and (not8 (bit_xor (nsign8 a) (nsign8 b)))
            (bit_xor (nsign8 a) (nsign8 (u8 (u16 sum))))))
        (nonzero (bit_and (bit_and a 0x0f + bit_and b 0x0f) 0x10)),
    nsign8_lem a,
    nsign8_lem b,
    nsign8_lem (u8 (u16 sum)),
    carry8_lem (u16 sum),
    over_add (nsign8 a) (nsign8 b) (nsign8 (u8 (u16 sum))),
    bit_and-pow 4 (bit_and a 0x0f + bit_and b 0x0f),
    bit_and-nibble a,
    bit_and-nibble b,
  )

  -- V is the sign of a result that does not fit.
  overflow8 : (as_bit over8 ≡ 0) ↔ (signed8 (sum % 256) ≡ signed8 a +ℤ signed8 b +ℤ pos carry)
  overflow8 = ground arith steps 10000000

  raw_addcf8_result : (raw_addcf8 a b carry cc).0 ≡ sum % 256
  unfolding raw_addcf8
  raw_addcf8_result = omega arith

  raw_addcf8-IsSum8 : IsSum8 a b carry cc (raw_addcf8 a b carry cc)
  raw_addcf8-IsSum8 =
      let f = raw_addcf8-HasFlags in
      record {
        byte = omega (arith, raw_addcf8_result);
        exact = omega (arith, f.carry, raw_addcf8_result);
        signed = rw (f.overflow, raw_addcf8_result) overflow8;
        zero = rw raw_addcf8_result (ground (arith, f.zero));
        negative = omega (arith, f.negative, raw_addcf8_result);
        half = f.half_carry;
        entire = f.entire;
        firq_mask = f.firq_mask;
        irq_mask = f.irq_mask;
      }

-- The sum of two words, with each flag of the result.
pub record IsSum16 (a b cc : ℕ) (out : Out) : Type 0 where
  pub word : out.0 < 65536
  pub exact : out.0 + 65536 * bit 0 out.1 ≡ a + b
  pub signed : (bit 1 out.1 ≡ 0) ↔ (signed16 out.0 ≡ signed16 a +ℤ signed16 b)
  pub zero : (bit 2 out.1 ≡ 1) ↔ (out.0 ≡ 0)
  pub negative : bit 3 out.1 ≡ out.0 / 32768
  pub half : bit 5 out.1 ≡ bit 5 cc
  pub entire : bit 7 out.1 ≡ bit 7 cc
  pub firq_mask : bit 6 out.1 ≡ bit 6 cc
  pub irq_mask : bit 4 out.1 ≡ bit 4 cc

module _ (a b cc : ℕ) (ha : a < 65536) (hb : b < 65536) where
  abbrev over16 : Bool
  over16 = a / 32768 == b / 32768 && not (a / 32768 == (a + b) % 65536 / 32768)

  addf16-HasFlags :
      HasFlags
        (addf16 a b cc).1
        (bit 7 cc)
        (bit 6 cc)
        (bit 5 cc)
        (bit 4 cc)
        ((a + b) % 65536 / 32768)
        (as_bit ((a + b) % 65536 == 0))
        (as_bit over16)
        ((a + b) / 65536)
  unfolding addf16
  addf16-HasFlags =
      let res : ℕ = (a + b) % 2 ^ 32 in
      ground (
        arith,
        nzcv-HasFlags cc (nonzero (nsign16 (u16 res))) (not (nonzero (u16 res)))
            (nonzero (carry16 res))
            (nonzero (
              bit_and (not8 (bit_xor (nsign16 a) (nsign16 b)))
                (bit_xor (nsign16 a) (nsign16 (u16 res))))),
        nsign16_lem a,
        nsign16_lem b,
        nsign16_lem (u16 res),
        carry16_lem res,
        over_add (nsign16 a) (nsign16 b) (nsign16 (u16 res)),
      )

  -- The sum of two words is exact with the carry, and V is clear exactly when the signed sum is.
  pub addf16-IsSum16 : IsSum16 a b cc (addf16 a b cc)
  unfolding addf16
  addf16-IsSum16 = ground (arith, addf16-HasFlags)

-- What `_addcf8` adds for the carry flag.
abbrev pub carry_in : ℕ → ℕ
carry_in cc = if nonzero (bit_and cc 1) then 1 else 0

pub carry_in_lem : (cc : ℕ) → carry_in cc ≡ bit 0 cc
carry_in_lem cc = ground (arith, bit_and-pow 0 cc)

-- The sum of two bytes is exact with the carry, and V is clear exactly when the signed sum is; Z and
-- N tell of the result, H of the low nibbles, and E, F and I stay.
pub addf8-IsSum8 : (a b cc : ℕ) → a < 256 → b < 256 → IsSum8 a b 0 cc (addf8 a b cc)
unfolding addf8
addf8-IsSum8 a b cc ha hb = raw_addcf8-IsSum8 a b 0 cc ha hb (omega arith)

-- The sum of two bytes and the carry flag is exact with the carry that comes out, and V is clear
-- exactly when the signed sum is. H tells of the low nibbles without the carry that goes in.
pub addcf8-IsSum8 : (a b cc : ℕ) → a < 256 → b < 256 → IsSum8 a b (bit 0 cc) cc (addcf8 a b cc)
unfolding addcf8
addcf8-IsSum8 a b cc ha hb =
    rw (carry_in_lem cc) (raw_addcf8-IsSum8 a b (bit 0 cc) cc ha hb (bit-le-one 0 cc))
