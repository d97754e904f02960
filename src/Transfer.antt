-- ===== src/Transfer.antt =====
-- `_register`, `_transfer_sd` and `_transfer` of vm6809.c: TFR and EXG.
pub mod Types
pub mod Swap
mod Tests
use c_vm.Prelude.{
  ℕ, ◌+◌, ◌*◌, ◌/◌, ◌%◌, ◌<◌, ◌^◌, bit_and, bit_or, bit_xor, Bool, true, false, Option, none, some,
  ◌==◌, nonzero, u8, u16, if◌then◌else◌,
}
use c_vm.Machine.{Regs, Vm, M, d, put_d, pure, undefined, ◌>>=◌, ◌>>◌, reads, modify}

-- The registers that a post byte names, and that instructions work on.
pub data RegName : Type 0 where
  reg_d reg_x reg_y reg_u reg_s reg_pc reg_a reg_b reg_cc reg_dp : RegName

-- `none` is the null pointer that `_register` returns after its error.
unfoldable pub register : ℕ → Option RegName
register reg =
    if reg == 0x0
    then some reg_d
    else if reg == 0x1
    then some reg_x
    else if reg == 0x2
    then some reg_y
    else if reg == 0x3
    then some reg_u
    else if reg == 0x4
    then some reg_s
    else if reg == 0x5
    then some reg_pc
    else if reg == 0x8
    then some reg_a
    else if reg == 0x9
    then some reg_b
    else if reg == 0xa
    then some reg_cc
    else if reg == 0xb
    then some reg_dp
    else none

-- `*regsz` is 1.
abbrev pub is_byte : RegName → Bool
is_byte reg_a = true
is_byte reg_b = true
is_byte reg_cc = true
is_byte reg_dp = true
is_byte _ = false

abbrev pub get : RegName → Regs → ℕ
get reg_d r = d r
get reg_x r = r.x
get reg_y r = r.y
get reg_u r = r.u
get reg_s r = r.s
get reg_pc r = r.pc
get reg_a r = r.a
get reg_b r = r.b
get reg_cc r = r.cc
get reg_dp r = r.dp

abbrev pub put : RegName → ℕ → Regs → Regs
put reg_d v r = put_d v r
put reg_x v r = record r { x = v }
put reg_y v r = record r { y = v }
put reg_u v r = record r { u = v }
put reg_s v r = record r { s = v }
put reg_pc v r = record r { pc = v }
put reg_a v r = record r { a = v }
put reg_b v r = record r { b = v }
put reg_cc v r = record r { cc = v }
put reg_dp v r = record r { dp = v }

-- A byte register is read into both halves of a word, and written from the low half.
abbrev pub widen : RegName → ℕ → ℕ
widen name v = if is_byte name then bit_or v (v * 2 ^ 8) else v

abbrev pub narrow : RegName → ℕ → ℕ
narrow name v = if is_byte name then u8 v else v

-- `_transfer_sd`
unfoldable pub transfer_sd : RegName → RegName → Bool → Regs → Regs
transfer_sd src dst swap r =
    let srca = widen src (get src r) in
    let dsta = widen dst (get dst r) in
    if swap
    then (let srca' = bit_xor srca dsta in
        let dsta' = bit_xor dsta srca' in
        let srca'' = bit_xor srca' dsta' in
        put dst (narrow dst dsta') (put src (narrow src srca'') r))
    else put dst (narrow dst srca) r

abbrev pub transfer_between : Option RegName → Option RegName → Bool → M (Unit {0})
transfer_between (some dst) (some src) swap = modify (transfer_sd src dst swap)
transfer_between (some dst) none swap = undefined
transfer_between none src swap = undefined

-- `_transfer`: with an invalid register the null pointer is read.
unfoldable pub transfer : ℕ → Bool → M (Unit {0})
unfolding register transfer_sd
transfer post swap = transfer_between (register (bit_and post 0x0f)) (register (post / 2 ^ 4)) swap
