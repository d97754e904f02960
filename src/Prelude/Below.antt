-- ===== src/Prelude/Below.antt =====
-- A test of all numbers below a bound.
use Prim.Native.Nat.{ℕ, zero, suc, ◌<◌}
use mathlib.Core.Path.{◌≡◌, refl, subst}
use mathlib.Core.Logic.{◌⊎◌, inl, inr}
use mathlib.Core.Bool.{Bool, true, false, ◌&&◌}
use native.Mathlib.Omega.{arith}

abbrev pub all_below : ℕ → (ℕ → Bool) → Bool
all_below zero p = true
all_below (suc n) p = p n && all_below n p

and_both : (a b : Bool) → a && b ≡ true → (a ≡ true) × (b ≡ true)
and_both true true e = (refl, refl)
and_both true false e = cc
and_both false b e = cc

pub at_below : (n : ℕ) (p : ℕ → Bool) → all_below n p ≡ true → (i : ℕ) → i < n → p i ≡ true
at_below zero p e i h = absurd (omega arith)
at_below (suc n) p e i h =
    let parts = and_both (p n) (all_below n p) e in
    elim (last_or_below i n h) [
      | inl this ↦ subst (λ k. p k ≡ true) this parts.0
      | inr below ↦ at_below n p parts.1 i below
    ]
  where
    last_or_below : (i n : ℕ) → i < suc n → (n ≡ i) ⊎ (i < n)
    last_or_below i n h = ground arith
