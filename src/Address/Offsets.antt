-- ===== src/Address/Offsets.antt =====
-- The offsets of `_sext58` and `_sext816` (vm6809.c), added to a word, against the integers.
use c_vm.Prelude.{
  ℕ, ◌+◌, ◌-◌, ◌*◌, ◌/◌, ◌%◌, ◌<◌, ◌≡◌, ltb, bit_and, if◌then◌else◌, arith, u16, Bool-cases, inl,
  inr,
}
use c_vm.Prelude.Int.{ℤ, pos, negsuc, ◌+ℤ◌, signed8}
use c_vm.Bits.{bit_or-fields, bit_and-five, bit_and-pow}
use c_vm.Address.{sext58, sext816}

-- The word of an integer.
abbrev pub to_word : ℤ → ℕ
to_word (pos n) = n % 65536
to_word (negsuc n) = 65535 - n % 65536

abbrev pub signed5 : ℕ → ℤ
signed5 w = if ltb w 16 then pos w else negsuc (31 - w)

sign_bit : (w : ℕ) → w < 256 → bit_and w 0x80 ≡ w / 128 * 128
sign_bit w h = omega (arith, bit_and-pow 7 w)

sext816_lem : (w : ℕ) → w < 256 → sext816 w ≡ (if ltb w 128 then w else 65280 + w)
unfolding sext816
sext816_lem w h = ground (arith, sign_bit w h, bit_or-fields 8 255 w)

sext58_lem : (post : ℕ) → sext58 post ≡ (if ltb (post % 32) 16 then post % 32 else 224 + post % 32)
unfolding sext58
sext58_lem post =
    ground (arith, bit_and-five post, bit_and-pow 4 post, bit_or-fields 5 7 (post % 32))

pub displaced8 :
    (base w : ℕ) → base < 65536 → w < 256 → u16 (base + sext816 w) ≡ to_word (pos base +ℤ signed8 w)
displaced8 base w hb hw = rw (sext816_lem w hw) (ground arith)

pub displaced5 :
    (base post : ℕ)
    → base < 65536
    → u16 (base + sext816 (sext58 post)) ≡ to_word (pos base +ℤ signed5 (post % 32))
displaced5 base post hb = rw (sext58_lem post) (elim (Bool-cases (ltb (post % 32) 16)) [
  | inl e ↦ rw (e, sext816_lem (post % 32) (omega arith)) (ground (arith, e))
  | inr e ↦ rw (e, sext816_lem (224 + post % 32) (omega arith)) (ground (arith, e))
])

-- Sums of a word and an integer.
pub moved_up : (base n : ℕ) → u16 (base + n) ≡ to_word (pos base +ℤ pos n)
moved_up base n = ground arith

pub moved_down :
    (base n : ℕ)
    → base < 65536
    → n < 65535
    → u16 (base + (65535 - n)) ≡ to_word (pos base +ℤ negsuc n)
moved_down base n hb hn = ground arith

pub moved_word : (z : ℤ) → u16 (to_word z + 0) ≡ to_word z
moved_word (pos n) = omega arith
moved_word (negsuc n) = omega arith
