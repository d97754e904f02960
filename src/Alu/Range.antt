-- ===== src/Alu/Range.antt =====
-- The functions of the ALU (vm6809.c), and the C types of their results.
use c_vm.Prelude.{ℕ, ◌+◌, ◌*◌, ◌/◌, ◌<◌, Bool, true, false, bit_and, arith, not8, u8}
use c_vm.Bits.{bit_and-le, bit_or-lt}
use c_vm.Flags.{
  setclrf, Marks, mark, no_marks, clear_v, apply, flags_nz_v8, flags_nz_v16, flags_z16,
}
use c_vm.Alu.{
  Out, addf8, addcf8, addf16, subf8, subcf8, subf16, mulf8, incf8, decf8, LogicOp, lo_and, lo_or,
  lo_xor, lo_com, logicf8, ShiftMode, sh_left, sh_right, sh_aright, shift_result, shiftf8,
  decadja_a74, decadja_a30, decadja,
}
use c_vm.Alu.Logic.{logic_result-lt}

abbrev pub IsOut8 : Out → Type 0
IsOut8 out = (out.0 < 256) × (out.1 < 256)

abbrev pub IsOut16 : Out → Type 0
IsOut16 out = (out.0 < 65536) × (out.1 < 256)

pub setclrf-lt : (reg set clr : ℕ) → reg < 256 → set < 256 → setclrf reg set clr < 256
unfolding setclrf
setclrf-lt reg set clr hr hs =
    bit_or-lt 8 (bit_and reg (not8 clr)) set (omega (arith, bit_and-le 8 reg (not8 clr) hr)) hs

module _ (codes : ℕ) (fits : codes < 256) where
  apply-lt : (m : Marks) → m.set < 256 → apply codes m < 256
  unfolding apply
  apply-lt m h = setclrf-lt codes m.set m.clr fits h

  -- One lemma for each row of marks.
  nzcvh-lt :
      (n z c v h : Bool)
      → apply codes (mark h 32 (mark v 2 (mark c 1 (mark z 4 (mark n 8 no_marks))))) < 256
  unfolding mark
  nzcvh-lt n z c v h =
      ground (arith, apply-lt (mark h 32 (mark v 2 (mark c 1 (mark z 4 (mark n 8 no_marks))))))

  nzcv-lt :
      (n z c v : Bool) → apply codes (mark v 2 (mark c 1 (mark z 4 (mark n 8 no_marks)))) < 256
  unfolding mark
  nzcv-lt n z c v = ground (arith, apply-lt (mark v 2 (mark c 1 (mark z 4 (mark n 8 no_marks)))))

  nzv-lt : (n z v : Bool) → apply codes (mark v 2 (mark z 4 (mark n 8 no_marks))) < 256
  unfolding mark
  nzv-lt n z v = ground (arith, apply-lt (mark v 2 (mark z 4 (mark n 8 no_marks))))

  nz-lt : (n z : Bool) → apply codes (mark z 4 (mark n 8 clear_v)) < 256
  unfolding mark
  nz-lt n z = ground (arith, apply-lt (mark z 4 (mark n 8 clear_v)))

  cnz-lt : (c n z : Bool) → apply codes (mark z 4 (mark n 8 (mark c 1 clear_v))) < 256
  unfolding mark
  cnz-lt c n z = ground (arith, apply-lt (mark z 4 (mark n 8 (mark c 1 clear_v))))

  z-lt : (z : Bool) → apply codes (mark z 4 no_marks) < 256
  unfolding mark
  z-lt z = ground (arith, apply-lt (mark z 4 no_marks))

  pub flags_nz_v8-lt : (a : ℕ) → flags_nz_v8 a codes < 256
  unfolding flags_nz_v8
  flags_nz_v8-lt a = nz-lt _ _

  pub flags_nz_v16-lt : (a : ℕ) → flags_nz_v16 a codes < 256
  unfolding flags_nz_v16
  flags_nz_v16-lt a = nz-lt _ _

  pub flags_z16-lt : (a : ℕ) → flags_z16 a codes < 256
  unfolding flags_z16
  flags_z16-lt a = z-lt _

  pub addf8-IsOut8 : (a b : ℕ) → IsOut8 (addf8 a b codes)
  unfolding addf8
  addf8-IsOut8 a b = (omega arith, nzcvh-lt _ _ _ _ _)

  pub addcf8-IsOut8 : (a b : ℕ) → IsOut8 (addcf8 a b codes)
  unfolding addcf8
  addcf8-IsOut8 a b = (omega arith, nzcvh-lt _ _ _ _ _)

  pub subf8-IsOut8 : (a b : ℕ) → IsOut8 (subf8 a b codes)
  unfolding subf8
  subf8-IsOut8 a b = (omega arith, nzcv-lt _ _ _ _)

  pub subcf8-IsOut8 : (a b : ℕ) → IsOut8 (subcf8 a b codes)
  unfolding subcf8
  subcf8-IsOut8 a b = (omega arith, nzcv-lt _ _ _ _)

  pub addf16-IsOut16 : (a b : ℕ) → IsOut16 (addf16 a b codes)
  unfolding addf16
  addf16-IsOut16 a b = (omega arith, nzcv-lt _ _ _ _)

  pub subf16-IsOut16 : (a b : ℕ) → IsOut16 (subf16 a b codes)
  unfolding subf16
  subf16-IsOut16 a b = (omega arith, nzcv-lt _ _ _ _)

  pub mulf8-IsOut16 : (a b : ℕ) → IsOut16 (mulf8 a b codes)
  unfolding mulf8
  mulf8-IsOut16 a b = (omega arith, fits)

  pub incf8-IsOut8 : (a : ℕ) → IsOut8 (incf8 a codes)
  unfolding incf8
  incf8-IsOut8 a = (omega arith, nzv-lt _ _ _)

  pub decf8-IsOut8 : (a : ℕ) → IsOut8 (decf8 a codes)
  unfolding decf8
  decf8-IsOut8 a = (omega arith, nzv-lt _ _ _)

  pub logicf8-IsOut8 : (a b : ℕ) (op : LogicOp) → a < 256 → b < 256 → IsOut8 (logicf8 a b op codes)
  unfolding logicf8
  logicf8-IsOut8 a b lo_and ha hb = (logic_result-lt a b lo_and ha hb, nz-lt _ _)
  logicf8-IsOut8 a b lo_or ha hb = (logic_result-lt a b lo_or ha hb, nz-lt _ _)
  logicf8-IsOut8 a b lo_xor ha hb = (logic_result-lt a b lo_xor ha hb, nz-lt _ _)
  logicf8-IsOut8 a b lo_com ha hb = (logic_result-lt a b lo_com ha hb, cnz-lt _ _ _)

  pub decadja-IsOut8 : (a : ℕ) → IsOut8 (decadja a codes)
  unfolding decadja
  decadja-IsOut8 a = (
    omega arith,
    setclrf-lt _ _ 0 (flags_nz_v8-lt (u8 (decadja_a74 a codes + decadja_a30 a codes)))
        (ground arith),
  )

shift_result-lt :
    (mode : ShiftMode) (a : ℕ) (carry : Bool) → a < 256 → shift_result mode a carry < 256
shift_result-lt sh_left a true h = bit_or-lt 8 (u8 (a * 2)) 0x80 (omega arith) (omega arith)
shift_result-lt sh_left a false h = omega arith
shift_result-lt sh_right a true h = bit_or-lt 8 (a / 2) 0x01 (omega arith) (omega arith)
shift_result-lt sh_right a false h = omega arith
shift_result-lt sh_aright a carry h =
    bit_or-lt 8 (bit_and (a / 2) 0x7f) (bit_and a 0x80) (omega (arith, bit_and-le 8 (a / 2) 0x7f))
      (omega (arith, bit_and-le 8 a 0x80))

pub shiftf8-IsOut8 :
    (a : ℕ) (mode : ShiftMode) (rot : Bool) (codes : ℕ)
    → a < 256
    → codes < 256
    → IsOut8 (shiftf8 a mode rot codes)
unfolding shiftf8
shiftf8-IsOut8 a mode rot codes h fits = (shift_result-lt mode a _ h, fits)
