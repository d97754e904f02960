-- ===== src/Alu/Step.antt =====
-- `_incf8`, `_decf8` and `_mulf8` of vm6809.c.
use c_vm.Prelude.{
  ℕ, zero, suc, refl, ◌+◌, ◌*◌, ◌/◌, ◌%◌, ◌≤◌, ◌<◌, ◌≡◌, bit_and, bit_xor, arith, nonzero, not8, u8,
  u16, not, ◌==◌, ◌&&◌,
}
use c_vm.Bits.{bit}
use c_vm.Flags.{nsign8}
use c_vm.Flags.Laws.{HasFlags, as_bit, nsign8_lem, nzv-HasFlags}
use c_vm.Alu.{incf8, decf8, mulf8}

-- Each sign test of these two functions, on signs.
over_inc : (x z : ℕ) → x ≤ 1 → z ≤ 1 → bit_and (not8 x) (bit_xor x z) ≡ as_bit (x == 0 && z == 1)
over_inc zero zero hx hz = refl
over_inc zero (suc zero) hx hz = refl
over_inc (suc zero) zero hx hz = refl
over_inc (suc zero) (suc zero) hx hz = refl
over_inc (suc (suc x)) z hx hz = absurd (omega arith)
over_inc zero (suc (suc z)) hx hz = absurd (omega arith)
over_inc (suc zero) (suc (suc z)) hx hz = absurd (omega arith)

over_dec : (x z : ℕ) → x ≤ 1 → z ≤ 1 → bit_and x (bit_xor x z) ≡ as_bit (x == 1 && z == 0)
over_dec zero zero hx hz = refl
over_dec zero (suc zero) hx hz = refl
over_dec (suc zero) zero hx hz = refl
over_dec (suc zero) (suc zero) hx hz = refl
over_dec (suc (suc x)) z hx hz = absurd (omega arith)
over_dec zero (suc (suc z)) hx hz = absurd (omega arith)
over_dec (suc zero) (suc (suc z)) hx hz = absurd (omega arith)

module _ (a cc : ℕ) (ha : a < 256) where
  -- An increment wraps at 256, keeps C and H, and sets V exactly at 127.
  incf8-HasFlags :
      ((incf8 a cc).0 ≡ (a + 1) % 256)
      × HasFlags
          (incf8 a cc).1
          (bit 7 cc)
          (bit 6 cc)
          (bit 5 cc)
          (bit 4 cc)
          ((a + 1) % 256 / 128)
          (as_bit (a == 255))
          (as_bit (a == 127))
          (bit 0 cc)
  unfolding incf8
  incf8-HasFlags =
      let res : ℕ = u16 (a + 1) in
      ground (
        arith,
        nzv-HasFlags cc (nonzero (nsign8 (u8 res))) (not (nonzero (u8 res)))
            (nonzero (bit_and (not8 (nsign8 a)) (bit_xor (nsign8 a) (nsign8 (u8 res))))),
        nsign8_lem a,
        nsign8_lem (u8 res),
        over_inc (nsign8 a) (nsign8 (u8 res)),
      )

  -- A decrement wraps at 0, keeps C and H, and sets V exactly at 128.
  decf8-HasFlags :
      ((decf8 a cc).0 ≡ (a + 255) % 256)
      × HasFlags
          (decf8 a cc).1
          (bit 7 cc)
          (bit 6 cc)
          (bit 5 cc)
          (bit 4 cc)
          ((a + 255) % 256 / 128)
          (as_bit (a == 1))
          (as_bit (a == 128))
          (bit 0 cc)
  unfolding decf8
  decf8-HasFlags =
      let res : ℕ = u16 (a + 65535) in
      ground (
        arith,
        nzv-HasFlags cc (nonzero (nsign8 (u8 res))) (not (nonzero (u8 res)))
            (nonzero (bit_and (nsign8 a) (bit_xor (nsign8 a) (nsign8 (u8 res))))),
        nsign8_lem a,
        nsign8_lem (u8 res),
        over_dec (nsign8 a) (nsign8 (u8 res)),
      )

  -- An increment wraps at 256 and sets V exactly at 127; a decrement wraps at 0 and sets V exactly
  -- at 128; both keep C and H.
  pub incf8_and_decf8 :
      ((incf8 a cc).0 ≡ (a + 1) % 256)
      × HasFlags
          (incf8 a cc).1
          (bit 7 cc)
          (bit 6 cc)
          (bit 5 cc)
          (bit 4 cc)
          ((a + 1) % 256 / 128)
          (as_bit (a == 255))
          (as_bit (a == 127))
          (bit 0 cc)
      × ((decf8 a cc).0 ≡ (a + 255) % 256)
      × HasFlags
          (decf8 a cc).1
          (bit 7 cc)
          (bit 6 cc)
          (bit 5 cc)
          (bit 4 cc)
          ((a + 255) % 256 / 128)
          (as_bit (a == 1))
          (as_bit (a == 128))
          (bit 0 cc)
  incf8_and_decf8 = (incf8-HasFlags.0, incf8-HasFlags.1, decf8-HasFlags.0, decf8-HasFlags.1)

product-lt : (a b : ℕ) → a < 256 → b < 256 → a * b < 65536
product-lt a b ha hb = grind arith

-- The product of two bytes never wraps, and every flag keeps its value.
pub mulf8_lem : (a b cc : ℕ) → a < 256 → b < 256 → mulf8 a b cc ≡ (a * b, cc)
unfolding mulf8
mulf8_lem a b cc ha hb = ground (arith, product-lt a b ha hb)
