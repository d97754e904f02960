-- ===== src/Address/PostByte.antt =====
-- The post byte of the indexed modes (`_eaindexed` of vm6809.c), read as a number.
use c_vm.Prelude.{
  ℕ, ◌+◌, ◌*◌, ◌/◌, ◌%◌, ◌<◌, ◌≡◌, refl, ap, ◌∙◌, Bool, true, false, ◌&&◌, Option, none, some, ◌==◌,
  ltb, bit_and, if◌then◌else◌, arith,
}
use c_vm.Prelude.Int.{ℤ, pos, negsuc, signed8}
use c_vm.Bits.{bit_and_step, bit_and-pow, bit-le-one}
use c_vm.Machine.{Regs}
use c_vm.Address.Offsets.{signed5}
use c_vm.Address.{
  IndexReg, index_x, index_y, index_u, index_s, index_value, put_index, indirect, index_of,
}

mode_lem : (post : ℕ) → post < 256 → bit_and post 0x8f ≡ post / 128 * 128 + post % 16
mode_lem post h = omega (
  arith,
  bit_and_step post 0x8f,
  bit_and_step (post / 2) 0x47,
  bit_and_step (post / 2 / 2) 0x23,
  bit_and_step (post / 2 / 2 / 2) 0x11,
  bit_and_step (post / 2 / 2 / 2 / 2) 0x08,
  bit_and-pow 3 (post / 2 / 2 / 2 / 2),
)

low_two : (n : ℕ) → bit_and n 3 ≡ n % 4
low_two n = omega (arith, bit_and_step n 3, bit_and_step (n / 2) 1, bit_and-pow 0 (n / 2))

abbrev named_index : ℕ → IndexReg
named_index post =
    let n = post / 32 % 4 in
    if n == 0 then index_x else if n == 1 then index_y else if n == 2 then index_u else index_s

index_of_lem : (post : ℕ) → index_of post ≡ named_index post
index_of_lem post = rw (low_two (post / 32)) refl

-- Only the post bytes from 128 on can be indirect: bit 4 of the others belongs to the offset.
abbrev pub is_indirect : ℕ → Bool
is_indirect post = ltb 127 post && post / 16 % 2 == 1

pub indirect_lem : (post : ℕ) → post < 256 → indirect post ≡ is_indirect post
indirect_lem post h = ground (arith, mode_lem post h, bit_and-pow 4 post, bit-le-one 4 post)

-- The register of a post byte: X, Y, U and S in the order of bits 5 and 6.
abbrev pub register_of : ℕ → Regs → ℕ
register_of post r =
    let n = post / 32 % 4 in
    if n == 0 then r.x else if n == 1 then r.y else if n == 2 then r.u else r.s

abbrev pub put_register : ℕ → ℕ → Regs → Regs
put_register post v r =
    let n = post / 32 % 4 in
    if n == 0
    then record r { x = v }
    else if n == 1
    then record r { y = v }
    else if n == 2
    then record r { u = v }
    else record r { s = v }

abbrev choose : {A : Type 0} → Bool → Bool → Bool → A → A → A → A → A
choose b c e x y u s = if b then x else if c then y else if e then u else s

choose-ap :
    {A B : Type 0} (f : A → B) (b c e : Bool) (x y u s : A)
    → f (choose b c e x y u s) ≡ choose b c e (f x) (f y) (f u) (f s)
choose-ap f true c e x y u s = refl
choose-ap f false true e x y u s = refl
choose-ap f false false true x y u s = refl
choose-ap f false false false x y u s = refl

pub index_value-index_of :
    (post : ℕ) (r : Regs) → index_value (index_of post) r ≡ register_of post r
index_value-index_of post r =
    let n = post / 32 % 4 in
    ap (λ i. index_value i r) (index_of_lem post)
    ∙ choose-ap (λ i. index_value i r) (n == 0) (n == 1) (n == 2) index_x index_y index_u index_s

pub put_index-index_of :
    (post v : ℕ) (r : Regs) → put_index (index_of post) v r ≡ put_register post v r
put_index-index_of post v r =
    let n = post / 32 % 4 in
    ap (λ i. put_index i v r) (index_of_lem post)
    ∙ choose-ap (λ i. put_index i v r) (n == 0) (n == 1) (n == 2) index_x index_y index_u index_s

-- What the modes mean: the displacement from the register, and by how much the register changes. Below
-- 128 the low five bits are a signed offset; above, the low nibble is the mode. The modes with bytes
-- of their own, and the post bytes that mean nothing, are not in the table.
abbrev pub displacement : ℕ → Regs → Option (ℤ × ℤ)
displacement post r =
    let mode = post % 16 in
    if ltb post 128
    then some (signed5 (post % 32), pos 0)
    else if mode == 0
    then some (pos 0, pos 1)
    else if mode == 1
    then some (pos 0, pos 2)
    else if mode == 2
    then some (negsuc 0, negsuc 0)
    else if mode == 3
    then some (negsuc 1, negsuc 1)
    else if mode == 4
    then some (pos 0, pos 0)
    else if mode == 5
    then some (signed8 r.b, pos 0)
    else if mode == 6
    then some (signed8 r.a, pos 0)
    else if mode == 8
    then none
    else if mode == 9
    then none
    else if mode == 11
    then some (pos (r.a * 256 + r.b), pos 0)
    else none

-- The tests of the switch of `_eaindexed`, and those of the table.
pub small_mode : (post : ℕ) → post < 256 → ltb (bit_and post 0x8f) 0x20 ≡ ltb post 128
small_mode post h = ground (arith, mode_lem post h)

pub large_mode :
    (post k : ℕ)
    → post < 256
    → ltb post 128 ≡ false
    → (bit_and post 0x8f == 128 + k) ≡ (post % 16 == k)
large_mode post k h large = ground (arith, mode_lem post h)
