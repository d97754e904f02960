-- ===== src/Stack/Frame.antt =====
-- All of `_pushregs` (vm6809.c): the bytes of a frame in their order.
use c_vm.Prelude.{ℕ, ◌≤◌, ◌≡◌, refl, sym, ap, ◌∙◌, List, [], ◌++◌, some, length, arith}
use c_vm.Machine.{Regs, Vm}
use c_vm.Stack.{Stack, other, pointer, selects, pushregs}
use c_vm.Stack.Push.{
  pushed, pushed-nil, byte_if, word_if, push8_next, push16_next, other-IsKept, length-byte_if,
  length-word_if, HasRoom, IsKept, IsKept-intro,
}

-- The bytes from the new stack pointer up, CC first and PC last.
module _ (mask : ℕ) (st : Stack) (r : Regs) where
  abbrev pub frame_pc : List ℕ
  frame_pc = word_if (selects mask 0x80) r.pc ++ []

  abbrev pub frame_us : List ℕ
  frame_us = word_if (selects mask 0x40) (pointer (other st) r) ++ frame_pc

  abbrev pub frame_y : List ℕ
  frame_y = word_if (selects mask 0x20) r.y ++ frame_us

  abbrev pub frame_x : List ℕ
  frame_x = word_if (selects mask 0x10) r.x ++ frame_y

  abbrev pub frame_dp : List ℕ
  frame_dp = byte_if (selects mask 0x08) r.dp ++ frame_x

  abbrev pub frame_b : List ℕ
  frame_b = byte_if (selects mask 0x04) r.b ++ frame_dp

  abbrev pub frame_a : List ℕ
  frame_a = byte_if (selects mask 0x02) r.a ++ frame_b

  abbrev pub frame : List ℕ
  frame = byte_if (selects mask 0x01) r.cc ++ frame_a

module _ (st : Stack) where
  pc-IsKept : IsKept st (λ r. r.pc)
  pc-IsKept = IsKept-intro (λ r. r.pc) (λ p r. refl) (λ p r. refl) st

  y-IsKept : IsKept st (λ r. r.y)
  y-IsKept = IsKept-intro (λ r. r.y) (λ p r. refl) (λ p r. refl) st

  x-IsKept : IsKept st (λ r. r.x)
  x-IsKept = IsKept-intro (λ r. r.x) (λ p r. refl) (λ p r. refl) st

  dp-IsKept : IsKept st (λ r. r.dp)
  dp-IsKept = IsKept-intro (λ r. r.dp) (λ p r. refl) (λ p r. refl) st

  b-IsKept : IsKept st (λ r. r.b)
  b-IsKept = IsKept-intro (λ r. r.b) (λ p r. refl) (λ p r. refl) st

  a-IsKept : IsKept st (λ r. r.a)
  a-IsKept = IsKept-intro (λ r. r.a) (λ p r. refl) (λ p r. refl) st

  cc-IsKept : IsKept st (λ r. r.cc)
  cc-IsKept = IsKept-intro (λ r. r.cc) (λ p r. refl) (λ p r. refl) st

module _ (mask : ℕ) (st : Stack) (r : Regs) where
  -- How far down the stack each part of the frame reaches at most.
  pub reaches :
      (length (frame_pc mask st r) ≤ 2)
      × (length (frame_us mask st r) ≤ 4)
      × (length (frame_y mask st r) ≤ 6)
      × (length (frame_x mask st r) ≤ 8)
      × (length (frame_dp mask st r) ≤ 9)
      × (length (frame_b mask st r) ≤ 10)
      × (length (frame_a mask st r) ≤ 11)
  reaches = omega (
    arith,
    length-word_if (selects mask 0x80) r.pc [],
    length-word_if (selects mask 0x40) (pointer (other st) r) (frame_pc mask st r),
    length-word_if (selects mask 0x20) r.y (frame_us mask st r),
    length-word_if (selects mask 0x10) r.x (frame_y mask st r),
    length-byte_if (selects mask 0x08) r.dp (frame_x mask st r),
    length-byte_if (selects mask 0x04) r.b (frame_dp mask st r),
    length-byte_if (selects mask 0x02) r.a (frame_b mask st r),
  )

module _ (mask : ℕ) (st : Stack) (vm : Vm) (room : HasRoom st 12 vm) where
  abbrev regs : Regs
  regs = vm.regs

  pushregs-pushed :
      pushregs mask st (pushed st [] vm) ≡ some (tt, pushed st (frame mask st vm.regs) vm)
  unfolding pushregs
  pushregs-pushed =
      let far = reaches mask st regs in
      let low = room.below in
      rw (
        push16_next st (λ r. r.pc) (pc-IsKept st) [] vm (selects mask 0x80) (omega arith) low,
        push16_next st (pointer (other st)) (other-IsKept st) (frame_pc mask st regs) vm
            (selects mask 0x40) (omega arith) low,
        push16_next st (λ r. r.y) (y-IsKept st) (frame_us mask st regs) vm (selects mask 0x20)
            (omega arith) low,
        push16_next st (λ r. r.x) (x-IsKept st) (frame_y mask st regs) vm (selects mask 0x10)
            (omega arith) low,
        push8_next st (λ r. r.dp) (dp-IsKept st) (frame_x mask st regs) vm (selects mask 0x08)
            (omega arith) low,
        push8_next st (λ r. r.b) (b-IsKept st) (frame_dp mask st regs) vm (selects mask 0x04)
            (omega arith) low,
        push8_next st (λ r. r.a) (a-IsKept st) (frame_b mask st regs) vm (selects mask 0x02)
            (omega arith) low,
        push8_next st (λ r. r.cc) (cc-IsKept st) (frame_a mask st regs) vm (selects mask 0x01)
            (omega arith) low,
      )

-- With room for twelve bytes clear of the UART, `_pushregs` puts the selected registers below the
-- old stack pointer, for either stack and every mask, and changes nothing else.
pub pushregs_lem :
    (mask : ℕ) (st : Stack) (vm : Vm)
    → HasRoom st 12 vm
    → pushregs mask st vm ≡ some (tt, pushed st (frame mask st vm.regs) vm)
pushregs_lem mask st vm h =
    ap (pushregs mask st) (sym (pushed-nil st vm)) ∙ pushregs-pushed mask st vm h
