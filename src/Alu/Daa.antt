-- ===== src/Alu/Daa.antt =====
-- `_decadja` of vm6809.c, after the addition of two-digit decimal numbers.
use c_vm.Prelude.{
  ℕ, ◌+◌, ◌*◌, ◌/◌, ◌%◌, ◌<◌, ◌≡◌, bit_and, arith, ◌==◌, ◌&&◌, ◌||◌, leb, ltb, if◌then◌else◌, not,
  nonzero, u8,
}
use c_vm.Bits.{bit, bit-le-one, bit_and-pow, bit_and-nibble, bit_and-high_nibble, bit_and-high_byte}
use c_vm.Flags.{nsign8, setclrf, flags_nz_v8}
use c_vm.Flags.Laws.{as_bit, bit-setclrf, nz-HasFlags}
use c_vm.Alu.{addf8, decadja_a74, decadja_a30, decadja}
use c_vm.Alu.Add.{addf8-IsSum8}

-- A number below 100 as two decimal digits in a byte.
abbrev pub bcd : ℕ → ℕ
bcd n = n / 10 * 16 + n % 10

-- The two additions, on the nibbles of `a`.
abbrev high_sum : ℕ → ℕ → ℕ
high_sum a c =
    if c == 1 || ltb 9 (a / 16) || (ltb 8 (a / 16) && ltb 9 (a % 16))
    then a / 16 * 16 + 96
    else a / 16 * 16

abbrev low_sum : ℕ → ℕ → ℕ
low_sum a h = if h == 1 || ltb 9 (a % 16) then a % 16 + 6 else a % 16

module _ (a cc : ℕ) (ha : a < 256) where
  decadja_a74_lem : decadja_a74 a cc ≡ high_sum a (bit 0 cc)
  unfolding decadja_a74
  decadja_a74_lem = ground (arith, bit_and-nibble a, bit_and-high_nibble a, bit_and-pow 0 cc)

  decadja_a30_lem : decadja_a30 a cc ≡ low_sum a (bit 5 cc)
  unfolding decadja_a30
  decadja_a30_lem = ground (arith, bit_and-nibble a, bit_and-pow 5 cc)

  decadja_result : (decadja a cc).0 ≡ (high_sum a (bit 0 cc) + low_sum a (bit 5 cc)) % 256
  unfolding decadja
  decadja_result = rw (decadja_a74_lem, decadja_a30_lem)

-- The carry is set by a first addition that passes 255, and is never cleared.
carry_after :
    (res a74 cc : ℕ)
    → res < 256
    → a74 < 65536
    → bit 0 (setclrf (flags_nz_v8 res cc) (if nonzero (bit_and a74 0xff00) then 1 else 0) 0)
      ≡ (if leb 256 a74 then 1 else bit 0 cc)
unfolding flags_nz_v8
carry_after res a74 cc hr ha =
    let nz = nz-HasFlags cc (nonzero (nsign8 res)) (not (nonzero res)) in
    let set : ℕ = if nonzero (bit_and a74 0xff00) then 1 else 0 in
    ground
      (arith, nz, bit-setclrf 0 (flags_nz_v8 res cc) set 0, bit_and-high_byte a74, bit-le-one 0 cc)

decadja_carry :
    (a cc : ℕ)
    → a < 256
    → bit 0 (decadja a cc).1 ≡ (if leb 256 (high_sum a (bit 0 cc)) then 1 else bit 0 cc)
unfolding decadja
decadja_carry a cc h = rw (decadja_a74_lem a cc h) (
    carry_after (u8 (high_sum a (bit 0 cc) + decadja_a30 a cc)) (high_sum a (bit 0 cc)) cc
      (omega arith) (ground arith))

-- The sum of the tens and that of the units decide everything.
module _ (tens units : ℕ) (ht : tens < 19) (hu : units < 19) where
  abbrev byte : ℕ
  byte = (tens * 16 + units) % 256

  abbrev carry : ℕ
  carry = (tens * 16 + units) / 256

  digits_lem :
      (high_sum byte carry + low_sum byte (units / 16)) % 256 ≡ bcd ((tens * 10 + units) % 100)
  digits_lem = ground arith

  carry_lem :
      (if leb 256 (high_sum byte carry) then 1 else carry)
      ≡ as_bit (leb 100 (tens * 10 + units) && not (tens == 9 && ltb units 16))
  carry_lem = ground arith

  module _ (sum cc : ℕ) (e : sum ≡ byte) (c : bit 0 cc ≡ carry) (h : bit 5 cc ≡ units / 16) where
    adjusted_digits :
        ((decadja sum cc).0 ≡ bcd ((tens * 10 + units) % 100))
        × (bit 0 (decadja sum cc).1
            ≡ as_bit (leb 100 (tens * 10 + units) && not (tens == 9 && ltb units 16)))
    adjusted_digits =
        let small : sum < 256 = omega arith in
        (
          rw (decadja_result sum cc small, c, h, e) digits_lem,
          rw (decadja_carry sum cc small, c, e) carry_lem,
        )

-- After the addition of two decimal numbers the adjustment leaves the decimal digits of their
-- sum modulo 100, and sets C when the sum passes 99, but for one case: where the tens add up to 9
-- and the units to 10 or more with no carry out of the low nibble, C stays clear.
pub decadja-addf8 :
    (m n cc : ℕ)
    → m < 100
    → n < 100
    → let (sum, cc') = addf8 (bcd m) (bcd n) cc in
      let (out, cc'') = decadja sum cc' in
      (out ≡ bcd ((m + n) % 100))
      × (bit 0 cc''
          ≡ as_bit (leb 100 (m + n) && not (m / 10 + n / 10 == 9 && ltb (m % 10 + n % 10) 16)))
decadja-addf8 m n cc hm hn =
    let s = addf8-IsSum8 (bcd m) (bcd n) cc (omega arith) (omega arith) in
    let out = addf8 (bcd m) (bcd n) cc in
    let tens : (m / 10 + n / 10) * 10 + (m % 10 + n % 10) ≡ m + n = omega arith in
    rw tens at (
      adjusted_digits (m / 10 + n / 10) (m % 10 + n % 10) (omega arith) (omega arith) out.0 out.1
        (omega (arith, s.exact, s.byte)) (omega (arith, s.exact, s.byte)) (omega (arith, s.half)))
