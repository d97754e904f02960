-- ===== src/Stack.antt =====
-- `_pushregs` and `_pullregs` of vm6809.c, and the frames of the interrupts. The pointers `st` and
-- `stus` are always the two stack registers, one of each, so the first tells the second.
pub mod Push
pub mod Frame
pub mod Pull
pub mod RoundTrip
mod Tests
pub mod Types
use c_vm.Prelude.{
  ℕ, ◌+◌, ◌*◌, ◌/◌, ◌%◌, ◌<◌, bit_and, Bool, true, false, Option, none, some, nonzero, u8, u16,
  if◌then◌else◌,
}
use c_vm.Flags.{cc_e, setclrf}
use c_vm.Machine.{Regs, Vm, M, pure, ◌>>=◌, ◌>>◌, reads, modify}
use c_vm.Memory.{mem_rd8, mem_rd16, mem_wr8, mem_wr16}

-- `regnumber_6809`
abbrev pub rn_pc : ℕ
rn_pc = 0x80

abbrev pub rn_us : ℕ
rn_us = 0x40

abbrev pub rn_y : ℕ
rn_y = 0x20

abbrev pub rn_x : ℕ
rn_x = 0x10

abbrev pub rn_dp : ℕ
rn_dp = 0x08

abbrev pub rn_b : ℕ
rn_b = 0x04

abbrev pub rn_a : ℕ
rn_a = 0x02

abbrev pub rn_cc : ℕ
rn_cc = 0x01

abbrev pub rn_entire : ℕ
rn_entire = 0xff

abbrev pub rn_fast : ℕ
rn_fast = 0x81

-- The stack that `st` points to; `stus` points to the other.
pub data Stack : Type 0 where
  system user : Stack

abbrev pub other : Stack → Stack
other system = user
other user = system

abbrev pub pointer : Stack → Regs → ℕ
pointer system r = r.s
pointer user r = r.u

abbrev pub put_pointer : Stack → ℕ → Regs → Regs
put_pointer system v r = record r { s = v }
put_pointer user v r = record r { u = v }

abbrev pub when : Bool → M (Unit {0}) → M (Unit {0})
when true m = m
when false m = pure tt

abbrev pub selects : ℕ → ℕ → Bool
selects mask flag = nonzero (bit_and mask flag)

-- `mem_wr8(--(*st), v)` and `mem_wr16((*st)-=2, v)`
unfoldable pub push8 : Stack → (Regs → ℕ) → M (Unit {0})
unfolding mem_wr8
push8 st field = do
  v ← reads field
  modify (λ r. put_pointer st (u16 (pointer st r + 65535)) r)
  p ← reads (pointer st)
  mem_wr8 p v

unfoldable pub push16 : Stack → (Regs → ℕ) → M (Unit {0})
unfolding mem_wr16
push16 st field = do
  v ← reads field
  modify (λ r. put_pointer st (u16 (pointer st r + 65534)) r)
  p ← reads (pointer st)
  mem_wr16 p v

-- `mem_rd8((*st)++)`, and `mem_rd16(*st)` with `(*st) += 2` after it.
unfoldable pub pull8 : Stack → (ℕ → Regs → Regs) → M (Unit {0})
unfolding mem_rd8
pull8 st put = do
  p ← reads (pointer st)
  modify (λ r. put_pointer st (u16 (pointer st r + 1)) r)
  v ← mem_rd8 p
  modify (put v)

unfoldable pub pull16 : Stack → (ℕ → Regs → Regs) → M (Unit {0})
unfolding mem_rd16
pull16 st put = do
  p ← reads (pointer st)
  v ← mem_rd16 p
  modify (put v)
  modify (λ r. put_pointer st (u16 (pointer st r + 2)) r)

-- `_pushregs`
unfoldable pub pushregs : ℕ → Stack → M (Unit {0})
unfolding push8 push16
pushregs mask st = do
  when (selects mask rn_pc) (push16 st (λ r. r.pc))
  when (selects mask rn_us) (push16 st (pointer (other st)))
  when (selects mask rn_y) (push16 st (λ r. r.y))
  when (selects mask rn_x) (push16 st (λ r. r.x))
  when (selects mask rn_dp) (push8 st (λ r. r.dp))
  when (selects mask rn_b) (push8 st (λ r. r.b))
  when (selects mask rn_a) (push8 st (λ r. r.a))
  when (selects mask rn_cc) (push8 st (λ r. r.cc))

-- `_pullregs`
unfoldable pub pullregs : ℕ → Stack → M (Unit {0})
unfolding pull8 pull16
pullregs mask st = do
  when (selects mask 0x01) (pull8 st (λ v r. record r { cc = v }))
  when (selects mask 0x02) (pull8 st (λ v r. record r { a = v }))
  when (selects mask 0x04) (pull8 st (λ v r. record r { b = v }))
  when (selects mask 0x08) (pull8 st (λ v r. record r { dp = v }))
  when (selects mask 0x10) (pull16 st (λ v r. record r { x = v }))
  when (selects mask 0x20) (pull16 st (λ v r. record r { y = v }))
  when (selects mask 0x40) (pull16 st (put_pointer (other st)))
  when (selects mask 0x80) (pull16 st (λ v r. record r { pc = v }))

-- `_setclrccf`
abbrev pub setclrccf : ℕ → ℕ → M (Unit {0})
setclrccf set clr = modify (λ r. record r { cc = setclrf r.cc set clr })

-- `_pushfast`, `_pushstate` and `_pullstate`. The null pointer that `_pushfast` passes is not read,
-- since `rn_fast` has no `rn_us`.
unfoldable pub pushfast : M (Unit {0})
unfolding pushregs setclrf
pushfast = do setclrccf 0 cc_e; pushregs rn_fast system

unfoldable pub pushstate : M (Unit {0})
unfolding pushregs setclrf
pushstate = do setclrccf cc_e 0; pushregs rn_entire system

unfoldable pub pullstate : M (Unit {0})
unfolding pullregs
pullstate = do
  cc ← reads (λ r. r.cc)
  pullregs (if nonzero (bit_and cc cc_e) then rn_entire else rn_fast) system
