-- ===== src/Bits.antt =====
-- The bits of a number, and the operations of C on bits read one bit at a time.
mod Step
pub use Step.{bit_and_step, bit_or_step, bit_xor_step}
use Prim.Native.Nat.{bit_and-bitwise, bit_or-bitwise, bit_xor-bitwise}
use native.Mathlib.Nat.{pow-suc}
use c_vm.Prelude.{
  ℕ, zero, suc, ◌+◌, ◌-◌, ◌*◌, ◌/◌, ◌%◌, ◌^◌, ◌≤◌, ◌<◌, min, max, bit_and, bit_or, bit_xor, ◌≡◌,
  refl, arith, ap,
}

-- An even mask skips the lowest bit.
pub even_mask : (x mask : ℕ) → bit_and x (mask * 2) ≡ bit_and (x / 2) mask * 2
even_mask x mask = ground (arith, bit_and_step x (mask * 2))

pub even_or : (x m mask : ℕ) → m ≡ mask * 2 → bit_or x m ≡ bit_or (x / 2) mask * 2 + x % 2
even_or x m mask e = rw e (ground (arith, bit_or_step x (mask * 2)))

zero-bit_and : (b : ℕ) → bit_and 0 b ≡ 0
zero-bit_and b = bit_and-bitwise 0 b

zero-bit_or : (b : ℕ) → bit_or 0 b ≡ b
zero-bit_or b = bit_or-bitwise 0 b

zero-bit_xor : (b : ℕ) → bit_xor 0 b ≡ b
zero-bit_xor b = bit_xor-bitwise 0 b

-- Bit `k`, counted from the lowest.
abbrev pub bit : ℕ → ℕ → ℕ
bit zero x = x % 2
bit (suc k) x = bit k (x / 2)

pub bit-le-one : (k x : ℕ) → bit k x ≤ 1
bit-le-one zero x = omega arith
bit-le-one (suc k) x = bit-le-one k (x / 2)

bit_and-half : (a b : ℕ) → bit_and a b / 2 ≡ bit_and (a / 2) (b / 2)
bit_and-half a b = omega (arith, bit_and_step a b)

bit_or-half : (a b : ℕ) → bit_or a b / 2 ≡ bit_or (a / 2) (b / 2)
bit_or-half a b = omega (arith, bit_or_step a b)

bit_xor-half : (a b : ℕ) → bit_xor a b / 2 ≡ bit_xor (a / 2) (b / 2)
bit_xor-half a b = omega (arith, bit_xor_step a b)

pub bit-bit_and : (k a b : ℕ) → bit k (bit_and a b) ≡ min (bit k a) (bit k b)
bit-bit_and zero a b = omega (arith, bit_and_step a b)
bit-bit_and (suc k) a b = rw (bit_and-half a b) (bit-bit_and k (a / 2) (b / 2))

pub bit-bit_or : (k a b : ℕ) → bit k (bit_or a b) ≡ max (bit k a) (bit k b)
bit-bit_or zero a b = omega (arith, bit_or_step a b)
bit-bit_or (suc k) a b = rw (bit_or-half a b) (bit-bit_or k (a / 2) (b / 2))

pub bit-bit_xor : (k a b : ℕ) → bit k (bit_xor a b) ≡ (bit k a + bit k b) % 2
bit-bit_xor zero a b = omega (arith, bit_xor_step a b)
bit-bit_xor (suc k) a b = rw (bit_xor-half a b) (bit-bit_xor k (a / 2) (b / 2))

bit-zero : (k : ℕ) → bit k 0 ≡ 0
bit-zero zero = refl
bit-zero (suc k) = bit-zero k

bit_and-zero_upto : (n a : ℕ) → a ≤ n → bit_and a 0 ≡ 0
bit_and-zero_upto n zero h = refl
bit_and-zero_upto zero (suc a) h = absurd (omega arith)
bit_and-zero_upto (suc n) (suc a) h =
    omega (arith, bit_and_step (suc a) 0, bit_and-zero_upto n (suc a / 2) (omega arith))

pub bit_and-zero : (a : ℕ) → bit_and a 0 ≡ 0
bit_and-zero a = bit_and-zero_upto a a (omega arith)

bit_or-zero_upto : (n a : ℕ) → a ≤ n → bit_or a 0 ≡ a
bit_or-zero_upto n zero h = refl
bit_or-zero_upto zero (suc a) h = absurd (omega arith)
bit_or-zero_upto (suc n) (suc a) h =
    omega (arith, bit_or_step (suc a) 0, bit_or-zero_upto n (suc a / 2) (omega arith))

pub bit_or-zero : (a : ℕ) → bit_or a 0 ≡ a
bit_or-zero a = bit_or-zero_upto a a (omega arith)

-- Numbers of `n` bits with the same bits are the same.
pub bit_ext : (n x y : ℕ) → x < 2 ^ n → y < 2 ^ n → ((k : ℕ) → k < n → bit k x ≡ bit k y) → x ≡ y
bit_ext zero x y hx hy same = omega arith
bit_ext (suc n) x y hx hy same = omega (
  arith,
  same 0 (omega arith),
  bit_ext n (x / 2) (y / 2) (omega (arith, pow-suc 2 n)) (omega (arith, pow-suc 2 n))
      λ k h. same (suc k) (omega arith),
)

pub bit_and-le : (n a b : ℕ) → a < 2 ^ n → bit_and a b ≤ a
bit_and-le zero a b h = ground (arith, zero-bit_and b)
bit_and-le (suc n) a b h = omega (
  arith,
  pow-suc 2 n,
  bit_and_step a b,
  bit_and-le n (a / 2) (b / 2) (omega (arith, pow-suc 2 n)),
)

pub bit_or-lt : (n a b : ℕ) → a < 2 ^ n → b < 2 ^ n → bit_or a b < 2 ^ n
bit_or-lt zero a b ha hb = ground (arith, zero-bit_or b)
bit_or-lt (suc n) a b ha hb = omega (
  arith,
  pow-suc 2 n,
  bit_or_step a b,
  bit_or-lt n (a / 2) (b / 2) (omega (arith, pow-suc 2 n)) (omega (arith, pow-suc 2 n)),
)

pub bit_xor-lt : (n a b : ℕ) → a < 2 ^ n → b < 2 ^ n → bit_xor a b < 2 ^ n
bit_xor-lt zero a b ha hb = ground (arith, zero-bit_xor b)
bit_xor-lt (suc n) a b ha hb = omega (
  arith,
  pow-suc 2 n,
  bit_xor_step a b,
  bit_xor-lt n (a / 2) (b / 2) (omega (arith, pow-suc 2 n)) (omega (arith, pow-suc 2 n)),
)

halve-pow : (k : ℕ) → 2 ^ suc k / 2 ≡ 2 ^ k
halve-pow k = omega (arith, pow-suc 2 k)

-- A mask of one bit.
pub bit_and-pow : (k a : ℕ) → bit_and a (2 ^ k) ≡ bit k a * 2 ^ k
bit_and-pow zero a = omega (arith, bit_and_step a 1, bit_and-zero (a / 2))
bit_and-pow (suc k) a = ground (
  arith,
  pow-suc 2 k,
  bit_and_step a (2 ^ suc k),
  halve-pow k,
  bit_and-pow k (a / 2),
  ap (λ (t : ℕ). bit k (a / 2) * t) (pow-suc 2 k),
)

-- The masks of low bits that the program uses.
and_one : (a : ℕ) → bit_and a 1 ≡ a % 2
and_one a = omega (arith, bit_and_step a 1, bit_and-zero (a / 2))

and_three : (a : ℕ) → bit_and a 3 ≡ a % 4
and_three a = omega (arith, bit_and_step a 3, and_one (a / 2))

and_seven : (a : ℕ) → bit_and a 7 ≡ a % 8
and_seven a = omega (arith, bit_and_step a 7, and_three (a / 2))

pub bit_and-nibble : (a : ℕ) → bit_and a 0x0f ≡ a % 16
bit_and-nibble a = omega (arith, bit_and_step a 15, and_seven (a / 2))

pub bit_and-five : (a : ℕ) → bit_and a 0x1f ≡ a % 32
bit_and-five a = omega (arith, bit_and_step a 31, bit_and-nibble (a / 2))

and_six : (a : ℕ) → bit_and a 0x3f ≡ a % 64
and_six a = omega (arith, bit_and_step a 63, bit_and-five (a / 2))

pub bit_and-seven : (a : ℕ) → bit_and a 0x7f ≡ a % 128
bit_and-seven a = omega (arith, bit_and_step a 127, and_six (a / 2))

pub bit_and-byte : (a : ℕ) → bit_and a 0xff ≡ a % 256
bit_and-byte a = omega (arith, bit_and_step a 255, bit_and-seven (a / 2))

-- `hi << k | lo`, where `lo` has `k` bits.
pub bit_or-fields : (k hi lo : ℕ) → lo < 2 ^ k → bit_or (hi * 2 ^ k) lo ≡ hi * 2 ^ k + lo
bit_or-fields zero hi lo h = ground (arith, bit_or-zero hi)
bit_or-fields (suc k) hi lo h = ground (
  arith,
  pow-suc 2 k,
  bit_or_step (hi * 2 ^ suc k) lo,
  ap (λ (t : ℕ). hi * t) (pow-suc 2 k),
  bit_or-fields k hi (lo / 2),
)

-- `~x` on a byte flips each of its bits.
pub bit-not8 : (k x : ℕ) → k < 8 → x < 256 → bit k (255 - x) ≡ 1 - bit k x
bit-not8 zero x hk hx = omega arith
bit-not8 (suc zero) x hk hx = omega arith
bit-not8 (suc (suc zero)) x hk hx = omega arith
bit-not8 (suc (suc (suc zero))) x hk hx = omega arith
bit-not8 (suc (suc (suc (suc zero)))) x hk hx = omega arith
bit-not8 (suc (suc (suc (suc (suc zero))))) x hk hx = omega arith
bit-not8 (suc (suc (suc (suc (suc (suc zero)))))) x hk hx = omega arith
bit-not8 (suc (suc (suc (suc (suc (suc (suc zero))))))) x hk hx = omega arith
bit-not8 (suc (suc (suc (suc (suc (suc (suc (suc k)))))))) x hk hx = absurd (omega arith)

-- Masks of high bits: what is left is a multiple.
and_thirty : (a : ℕ) → bit_and a 0x1e ≡ a % 32 / 2 * 2
and_thirty a = omega (arith, bit_and_step a 30, bit_and-nibble (a / 2))

and_sixty : (a : ℕ) → bit_and a 0x3c ≡ a % 64 / 4 * 4
and_sixty a = omega (arith, bit_and_step a 60, and_thirty (a / 2))

and_120 : (a : ℕ) → bit_and a 0x78 ≡ a % 128 / 8 * 8
and_120 a = omega (arith, bit_and_step a 120, and_sixty (a / 2))

pub bit_and-high_nibble : (a : ℕ) → bit_and a 0xf0 ≡ a % 256 / 16 * 16
bit_and-high_nibble a = omega (arith, bit_and_step a 240, and_120 (a / 2))

-- Doubling both sides of `&`.
and_double : (a m : ℕ) → bit_and a (m * 2) ≡ bit_and (a / 2) m * 2
and_double a m = ground (arith, bit_and_step a (m * 2))

pub bit_and-high_byte : (a : ℕ) → bit_and a 0xff00 ≡ a / 256 % 256 * 256
bit_and-high_byte a = omega (
  arith,
  and_double a 0x7f80,
  and_double (a / 2) 0x3fc0,
  and_double (a / 2 / 2) 0x1fe0,
  and_double (a / 2 / 2 / 2) 0x0ff0,
  and_double (a / 2 / 2 / 2 / 2) 0x07f8,
  and_double (a / 2 / 2 / 2 / 2 / 2) 0x03fc,
  and_double (a / 2 / 2 / 2 / 2 / 2 / 2) 0x01fe,
  and_double (a / 2 / 2 / 2 / 2 / 2 / 2 / 2) 0x00ff,
  bit_and-byte (a / 2 / 2 / 2 / 2 / 2 / 2 / 2 / 2),
)

pub bit_or_comm : (n a b : ℕ) → a < 2 ^ n → b < 2 ^ n → bit_or a b ≡ bit_or b a
bit_or_comm n a b ha hb =
    bit_ext n (bit_or a b) (bit_or b a) (bit_or-lt n a b ha hb) (bit_or-lt n b a hb ha)
      λ k h. omega (arith, bit-bit_or k a b, bit-bit_or k b a)
