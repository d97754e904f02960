-- ===== src/Alu.antt =====
-- The functions of vm6809.c that compute a byte or word and the flags. Each takes the condition
-- codes `cc` last, and returns its result with the new condition codes.
pub mod Add
pub mod Sub
pub mod Step
pub mod Logic
pub mod Range
pub mod Daa
mod Tests
use c_vm.Prelude.{
  ℕ, ◌+◌, ◌-◌, ◌*◌, ◌/◌, ◌%◌, ◌^◌, bit_and, bit_or, bit_xor, Bool, true, false, not, ◌&&◌, ◌||◌,
  ltb, ◌==◌, nonzero, u8, u16, not8, if◌then◌else◌,
}
use c_vm.Flags.{
  cc_h, cc_n, cc_z, cc_v, cc_c, setclrf, nsign8, nsign16, carry8, carry16, Marks, mark, no_marks,
  clear_v, apply, flags_nz_v8,
}

-- A result and the condition codes.
abbrev pub Out : Type 0
Out = ℕ × ℕ

-- `__addcf8`. The half carry leaves the carry in out of its sum.
unfoldable pub raw_addcf8 : ℕ → ℕ → ℕ → ℕ → Out
raw_addcf8 a b carry cc =
    let res = u16 (a + b + carry) in
    let n = mark (nonzero (nsign8 (u8 res))) cc_n no_marks in
    let z = mark (not (nonzero (u8 res))) cc_z n in
    let c = mark (nonzero (carry8 res)) cc_c z in
    let over =
      bit_and (not8 (bit_xor (nsign8 a) (nsign8 b))) (bit_xor (nsign8 a) (nsign8 (u8 res))) in
    let v = mark (nonzero over) cc_v c in
    let h = mark (nonzero (bit_and (bit_and a 0x0f + bit_and b 0x0f) 0x10)) cc_h v in
    (u8 res, apply cc h)

-- `_addf8` and `_addcf8`
unfoldable pub addf8 : ℕ → ℕ → ℕ → Out
unfolding raw_addcf8
addf8 a b cc = raw_addcf8 a b 0 cc

unfoldable pub addcf8 : ℕ → ℕ → ℕ → Out
unfolding raw_addcf8
addcf8 a b cc = raw_addcf8 a b (if nonzero (bit_and cc cc_c) then 1 else 0) cc

-- `_addf16`
unfoldable pub addf16 : ℕ → ℕ → ℕ → Out
addf16 a b cc =
    let res = (a + b) % 2 ^ 32 in
    let n = mark (nonzero (nsign16 (u16 res))) cc_n no_marks in
    let z = mark (not (nonzero (u16 res))) cc_z n in
    let c = mark (nonzero (carry16 res)) cc_c z in
    let over =
      bit_and (not8 (bit_xor (nsign16 a) (nsign16 b))) (bit_xor (nsign16 a) (nsign16 (u16 res))) in
    (u16 res, apply cc (mark (nonzero over) cc_v c))

-- `__subcf8`: the difference is stored in a `uint16_t`.
unfoldable pub raw_subcf8 : ℕ → ℕ → ℕ → ℕ → Out
raw_subcf8 a b carry cc =
    let res = u16 (a + 65536 - b - carry) in
    let n = mark (nonzero (nsign8 (u8 res))) cc_n no_marks in
    let z = mark (not (nonzero (u8 res))) cc_z n in
    let c = mark (nonzero (carry8 res)) cc_c z in
    let over = bit_and (bit_xor (nsign8 a) (nsign8 b)) (bit_xor (nsign8 a) (nsign8 (u8 res))) in
    (u8 res, apply cc (mark (nonzero over) cc_v c))

-- `_subf8` and `_subcf8`
unfoldable pub subf8 : ℕ → ℕ → ℕ → Out
unfolding raw_subcf8
subf8 a b cc = raw_subcf8 a b 0 cc

unfoldable pub subcf8 : ℕ → ℕ → ℕ → Out
unfolding raw_subcf8
subcf8 a b cc = raw_subcf8 a b (if nonzero (bit_and cc cc_c) then 1 else 0) cc

-- `_subf16`: the difference is stored in a `uint32_t`.
unfoldable pub subf16 : ℕ → ℕ → ℕ → Out
subf16 a b cc =
    let res = (a + 2 ^ 32 - b) % 2 ^ 32 in
    let n = mark (nonzero (nsign16 (u16 res))) cc_n no_marks in
    let z = mark (not (nonzero (u16 res))) cc_z n in
    let c = mark (nonzero (carry16 res)) cc_c z in
    let over =
      bit_and (bit_xor (nsign16 a) (nsign16 b)) (bit_xor (nsign16 a) (nsign16 (u16 res))) in
    (u16 res, apply cc (mark (nonzero over) cc_v c))

-- `_mulf8`: the marks are computed and then not applied.
unfoldable pub mulf8 : ℕ → ℕ → ℕ → Out
mulf8 a b cc = (u16 (a * b), cc)

-- `_incf8` and `_decf8`
unfoldable pub incf8 : ℕ → ℕ → Out
incf8 a cc =
    let res = u16 (a + 1) in
    let n = mark (nonzero (nsign8 (u8 res))) cc_n no_marks in
    let z = mark (not (nonzero (u8 res))) cc_z n in
    let over = bit_and (not8 (nsign8 a)) (bit_xor (nsign8 a) (nsign8 (u8 res))) in
    (u8 res, apply cc (mark (nonzero over) cc_v z))

unfoldable pub decf8 : ℕ → ℕ → Out
decf8 a cc =
    let res = u16 (a + 65535) in
    let n = mark (nonzero (nsign8 (u8 res))) cc_n no_marks in
    let z = mark (not (nonzero (u8 res))) cc_z n in
    let over = bit_and (nsign8 a) (bit_xor (nsign8 a) (nsign8 (u8 res))) in
    (u8 res, apply cc (mark (nonzero over) cc_v z))

-- `logicop`. The enumeration has no other value, so the default of `_logicf8` is not reached.
pub data LogicOp : Type 0 where
  lo_and lo_or lo_xor lo_com : LogicOp

abbrev pub logic_result : LogicOp → ℕ → ℕ → ℕ
logic_result lo_and a b = bit_and a b
logic_result lo_or a b = bit_or a b
logic_result lo_xor a b = bit_xor a b
logic_result lo_com a b = not8 a

-- The marks before N and Z: the complement alone marks C.
abbrev pub logic_marks : LogicOp → ℕ → Marks
logic_marks lo_com res = mark (nonzero res) cc_c clear_v
logic_marks _ res = clear_v

-- `_logicf8`
unfoldable pub logicf8 : ℕ → ℕ → LogicOp → ℕ → Out
logicf8 a b op cc =
    let res = logic_result op a b in
    let n = mark (nonzero (nsign8 res)) cc_n (logic_marks op res) in
    (res, apply cc (mark (not (nonzero res)) cc_z n))

-- `shiftmode`
pub data ShiftMode : Type 0 where
  sh_left sh_right sh_aright : ShiftMode

-- What `_shiftf8` does to the shifted byte: the sign is put back, or the carry is rotated in.
abbrev pub shift_result : ShiftMode → ℕ → Bool → ℕ
shift_result sh_left a carry = let res = u8 (a * 2) in if carry then bit_or res 0x80 else res
shift_result sh_right a carry = let res = a / 2 in if carry then bit_or res 0x01 else res
shift_result sh_aright a carry = bit_or (bit_and (a / 2) 0x7f) (bit_and a 0x80)

-- `_shiftf8`: as in `_mulf8`, the marks are not applied. `rot` is the third argument of the code.
unfoldable pub shiftf8 : ℕ → ShiftMode → Bool → ℕ → Out
shiftf8 a mode rot cc = (shift_result mode a (rot && nonzero (bit_and cc cc_c)), cc)

-- The two local variables of `_decadja`, on the accumulator `a`: `a74` and `a30`.
unfoldable pub decadja_a74 : ℕ → ℕ → ℕ
decadja_a74 a cc =
    let high = bit_and a 0xf0 in
    let low = bit_and a 0x0f in
    if nonzero (bit_and cc cc_c) || ltb 0x90 high || (ltb 0x80 high && ltb 9 low)
    then u16 (high + 0x60)
    else high

unfoldable pub decadja_a30 : ℕ → ℕ → ℕ
decadja_a30 a cc =
    let low = bit_and a 0x0f in if nonzero (bit_and cc cc_h) || ltb 9 low then u8 (low + 6) else low

-- `_decadja`
unfoldable pub decadja : ℕ → ℕ → Out
decadja a cc =
    let a74 = decadja_a74 a cc in
    let res = u8 (a74 + decadja_a30 a cc) in
    (res, setclrf (flags_nz_v8 res cc) (if nonzero (bit_and a74 0xff00) then cc_c else 0) 0)
