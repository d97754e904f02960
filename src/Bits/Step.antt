-- ===== src/Bits/Step.antt =====
-- One equation for the lowest digit of each native operation on binary digits.
use Prim.Native.Nat.{digits, differ, bit_and-bitwise, bit_or-bitwise, bit_xor-bitwise}
use c_vm.Prelude.{
  ℕ, zero, suc, ◌+◌, ◌*◌, ◌/◌, ◌%◌, ◌≤◌, min, max, bit_and, bit_or, bit_xor, ◌≡◌, refl, arith,
}

module _ (rest : ℕ → ℕ) (digit : ℕ → ℕ → ℕ) where
  -- Any count of digits that is large enough gives the same number.
  digits_enough : (k l a b : ℕ) → a ≤ k → a ≤ l → digits rest digit k a b ≡ digits rest digit l a b
  digits_enough zero zero a b hk hl = refl
  digits_enough zero (suc l) zero b hk hl = refl
  digits_enough (suc k) zero zero b hk hl = refl
  digits_enough (suc k) (suc l) zero b hk hl = refl
  digits_enough zero l (suc a) b hk hl = absurd (omega arith)
  digits_enough (suc k) zero (suc a) b hk hl = absurd (omega arith)
  digits_enough (suc k) (suc l) (suc a) b hk hl =
      omega (arith, digits_enough k l (suc a / 2) (b / 2) (omega arith) (omega arith))

  digits_step :
      (a b : ℕ)
      → digits rest digit (suc a) (suc a) b
        ≡ digit (suc a % 2) (b % 2) + 2 * digits rest digit (suc a / 2) (suc a / 2) (b / 2)
  digits_step a b =
      omega (arith, digits_enough a (suc a / 2) (suc a / 2) (b / 2) (omega arith) (omega arith))

abbrev pub xor_digit : ℕ → ℕ → ℕ
xor_digit x y = (x + y) % 2

differ_digit : (x y : ℕ) → x ≤ 1 → y ≤ 1 → differ x y ≡ xor_digit x y
differ_digit zero zero hx hy = refl
differ_digit zero (suc zero) hx hy = refl
differ_digit (suc zero) zero hx hy = refl
differ_digit (suc zero) (suc zero) hx hy = refl
differ_digit zero (suc (suc y)) hx hy = absurd (omega arith)
differ_digit (suc zero) (suc (suc y)) hx hy = absurd (omega arith)
differ_digit (suc (suc x)) y hx hy = absurd (omega arith)

pub bit_xor_step : (x y : ℕ) → bit_xor x y ≡ xor_digit (x % 2) (y % 2) + 2 * bit_xor (x / 2) (y / 2)
bit_xor_step (suc x) y = simp bit_xor-bitwise (
    omega (
      arith,
      digits_step (λ t. t) differ x y,
      differ_digit (suc x % 2) (y % 2) (omega arith) (omega arith),
    ))
bit_xor_step zero y = simp bit_xor-bitwise (omega arith)

pub bit_or_step : (x y : ℕ) → bit_or x y ≡ max (x % 2) (y % 2) + 2 * bit_or (x / 2) (y / 2)
bit_or_step (suc x) y = simp bit_or-bitwise (digits_step (λ t. t) max x y)
bit_or_step zero y = simp bit_or-bitwise (omega arith)

pub bit_and_step : (x y : ℕ) → bit_and x y ≡ min (x % 2) (y % 2) + 2 * bit_and (x / 2) (y / 2)
bit_and_step (suc x) y = simp bit_and-bitwise (digits_step (λ _. zero) min x y)
bit_and_step zero y = simp bit_and-bitwise (omega arith)
