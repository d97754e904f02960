-- ===== src/Transfer/Swap.antt =====
-- TFR and EXG (vm6809.c) between registers of one size.
use c_vm.Prelude.{
  ℕ, zero, suc, ◌+◌, ◌*◌, ◌/◌, ◌%◌, ◌^◌, ◌≤◌, ◌<◌, ◌≡◌, refl, sym, ap, ap₂, ◌∙◌, true, false,
  bit_and, bit_or, bit_xor, some, u8, if◌then◌else◌, arith,
}
use c_vm.Bits.{even_or, bit_xor_step}
use c_vm.Machine.{Regs, Vm}
use c_vm.Machine.Keeps.{IsRegs}
use c_vm.Transfer.{
  RegName, reg_d, reg_x, reg_y, reg_u, reg_s, reg_pc, reg_a, reg_b, reg_cc, reg_dp, register,
  is_byte, get, put, widen, narrow, transfer_sd, transfer,
}
use c_vm.Transfer.Types.{Held, get-Held}

-- The two identities of an exchange without a third variable.
xor_first : (n a b : ℕ) → a ≤ n → b ≤ n → bit_xor b (bit_xor a b) ≡ a
xor_first zero a b ha hb =
    let za : a ≡ 0 = omega arith in let zb : b ≡ 0 = omega arith in rw (za, zb) refl
xor_first (suc n) a b ha hb = omega (
  arith,
  bit_xor_step a b,
  bit_xor_step b (bit_xor a b),
  half,
  xor_first n (a / 2) (b / 2) (omega arith) (omega arith),
)
  where
    half : bit_xor (b / 2) (bit_xor a b / 2) ≡ bit_xor (b / 2) (bit_xor (a / 2) (b / 2))
    half = ap (bit_xor (b / 2)) (omega (arith, bit_xor_step a b))

xor_second : (n a b : ℕ) → a ≤ n → b ≤ n → bit_xor (bit_xor a b) a ≡ b
xor_second zero a b ha hb =
    let za : a ≡ 0 = omega arith in let zb : b ≡ 0 = omega arith in rw (za, zb) refl
xor_second (suc n) a b ha hb = omega (
  arith,
  bit_xor_step a b,
  bit_xor_step (bit_xor a b) a,
  half,
  xor_second n (a / 2) (b / 2) (omega arith) (omega arith),
)
  where
    half : bit_xor (bit_xor a b / 2) (a / 2) ≡ bit_xor (bit_xor (a / 2) (b / 2)) (a / 2)
    half = ap (λ x. bit_xor x (a / 2)) (omega (arith, bit_xor_step a b))

-- The low half of a byte that stands in both halves of a word.
doubled_low : (v : ℕ) → v < 256 → bit_or v (v * 2 ^ 8) % 256 ≡ v
doubled_low v h = omega (
  arith,
  even_or v (v * 2 ^ 8) (v * 128) (omega arith),
  even_or (v / 2) (v * 128) (v * 64) (omega arith),
  even_or (v / 2 / 2) (v * 64) (v * 32) (omega arith),
  even_or (v / 2 / 2 / 2) (v * 32) (v * 16) (omega arith),
  even_or (v / 2 / 2 / 2 / 2) (v * 16) (v * 8) (omega arith),
  even_or (v / 2 / 2 / 2 / 2 / 2) (v * 8) (v * 4) (omega arith),
  even_or (v / 2 / 2 / 2 / 2 / 2 / 2) (v * 4) (v * 2) (omega arith),
  even_or (v / 2 / 2 / 2 / 2 / 2 / 2 / 2) (v * 2) v (omega arith),
)

narrow-widen : (name : RegName) (v : ℕ) → Held name v → narrow name (widen name v) ≡ v
narrow-widen reg_d v h = refl
narrow-widen reg_x v h = refl
narrow-widen reg_y v h = refl
narrow-widen reg_u v h = refl
narrow-widen reg_s v h = refl
narrow-widen reg_pc v h = refl
narrow-widen reg_a v h = doubled_low v h
narrow-widen reg_b v h = doubled_low v h
narrow-widen reg_cc v h = doubled_low v h
narrow-widen reg_dp v h = doubled_low v h

-- A value of a register of one size is cut and doubled alike for another of that size.
narrow_same : (m n : RegName) (v : ℕ) → is_byte m ≡ is_byte n → narrow m v ≡ narrow n v
narrow_same m n v e = ap (λ b. if b then u8 v else v) e

moved :
    (src dst : RegName) (r : Regs)
    → is_byte src ≡ is_byte dst
    → IsRegs r
    → narrow dst (widen src (get src r)) ≡ get src r
moved src dst r e h =
    sym (narrow_same src dst (widen src (get src r)) e)
    ∙ narrow-widen src (get src r) (get-Held src r h)

transfer_sd-swap :
    (src dst : RegName) (r : Regs)
    → is_byte src ≡ is_byte dst
    → IsRegs r
    → transfer_sd src dst true r ≡ put dst (get src r) (put src (get dst r) r)
unfolding transfer_sd
transfer_sd-swap src dst r e h =
    let a = widen src (get src r) in
    let b = widen dst (get dst r) in
    rw
      (
        xor_first (a + b) a b (omega arith) (omega arith),
        xor_second (a + b) a b (omega arith) (omega arith),
      )
      (ap₂ (λ v w. put dst v (put src w r)) (moved src dst r e h) (moved dst src r (sym e) h))

transfer_sd-copy :
    (src dst : RegName) (r : Regs)
    → is_byte src ≡ is_byte dst
    → IsRegs r
    → transfer_sd src dst false r ≡ put dst (get src r) r
unfolding transfer_sd
transfer_sd-copy src dst r e h = ap (λ v. put dst v r) (moved src dst r e h)

-- Where the two halves of the post byte name registers of one size, EXG exchanges their values and
-- TFR copies the one named by the high half to the other; nothing else changes.
pub transfer_lem :
    (post : ℕ) (src dst : RegName) (vm : Vm)
    → register (post / 2 ^ 4) ≡ some src
    → register (bit_and post 0x0f) ≡ some dst
    → is_byte src ≡ is_byte dst
    → IsRegs vm.regs
    → (transfer post true vm
        ≡ some (
          tt,
          record vm { regs = put dst (get src vm.regs) (put src (get dst vm.regs) vm.regs) },
        ))
      × (transfer post false vm ≡ some (tt, record vm { regs = put dst (get src vm.regs) vm.regs }))
unfolding transfer
transfer_lem post src dst vm hs hd e h = (
  rw (hs, hd) (ap (λ r. some (tt, record vm { regs = r })) (transfer_sd-swap src dst vm.regs e h)),
  rw (hs, hd) (ap (λ r. some (tt, record vm { regs = r })) (transfer_sd-copy src dst vm.regs e h)),
)
