-- ===== src/Decode/Laws.antt =====
-- `cpu_execop` and `_eafromopc` of vm6809.c: the opcodes without a case, and the addressing modes.
use c_vm.Prelude.{
  ℕ, ◌<◌, ◌≡◌, ◌≢◌, refl, Bool, true, false, not, if◌then◌else◌, arith, List, [], ◌∷◌, all_below,
  at_below,
}
use c_vm.Decode.{Instr, unsupported, member, decode, decode_page2, decode_page3}
use c_vm.Decode.Opcode.{
  Opcode, op_neg_d, op_rol_d, op_rol_n, op_rol_x, op_ror_d, op_ror_n, op_ror_x, code,
}
use c_vm.Decode.Pages.{OpcodePage2, op2_lds_i, code_page2, OpcodePage3, op3_cmpu_i, code_page3}
use c_vm.Address.{undefined_mode, mode_of}

abbrev pub is_unsupported : Instr → Bool
is_unsupported unsupported = true
is_unsupported _ = false

-- The opcodes of the first page that are neither implemented nor listed as invalid.
abbrev pub missing_opcodes : List ℕ
missing_opcodes =
    0x06 ∷ 0x09 ∷ 0x13 ∷ 0x3c ∷ 0x4d ∷ 0x5d ∷ 0x66 ∷ 0x69 ∷ 0x6d ∷ 0x76 ∷ 0x79 ∷ 0x7d ∷ []

abbrev same : Bool → Bool → Bool
same a b = if a then b else not b

same_bits : (a b : Bool) → same a b ≡ true → a ≡ b
same_bits true true e = refl
same_bits true false e = cc
same_bits false true e = cc
same_bits false false e = refl

abbrev agrees : ℕ → Bool
agrees opc = same (is_unsupported (decode opc)) (member opc missing_opcodes)

all_agree : all_below 256 agrees ≡ true
unfolding decode
all_agree = refl

decode-unsupported :
    (opc : ℕ) → opc < 256 → is_unsupported (decode opc) ≡ member opc missing_opcodes
decode-unsupported opc h = same_bits _ _ (at_below 256 agrees all_agree opc h)

mode_of_defined : (opc : ℕ) → opc < 256 → mode_of opc ≢ undefined_mode
unfolding mode_of
mode_of_defined opc h = ground arith

-- The rotations of memory, which are enumerated and have no case.
abbrev pub is_rotation : Opcode → Bool
is_rotation op_rol_d = true
is_rotation op_rol_n = true
is_rotation op_rol_x = true
is_rotation op_ror_d = true
is_rotation op_ror_n = true
is_rotation op_ror_x = true
is_rotation _ = false

decode-code : (op : Opcode) → is_unsupported (decode (code op)) ≡ is_rotation op
unfolding decode
decode-code op_neg_d = refl
decode-code _ = refl

decode_page2-code_page2 : (op : OpcodePage2) → is_unsupported (decode_page2 (code_page2 op)) ≡ false
unfolding decode_page2
decode_page2-code_page2 op2_lds_i = refl
decode_page2-code_page2 _ = refl

decode_page3-code_page3 : (op : OpcodePage3) → is_unsupported (decode_page3 (code_page3 op)) ≡ false
unfolding decode_page3
decode_page3-code_page3 op3_cmpu_i = refl
decode_page3-code_page3 _ = refl

-- An opcode of the first page is unsupported exactly when it is one of `missing_opcodes`, and each
-- byte has an addressing mode: `_eafromopc` never reports an undefined one. Of the opcodes that the
-- program enumerates for the three pages, all have a case but the rotations of memory.
pub decode_lem :
    (opc : ℕ) (op : Opcode) (op2 : OpcodePage2) (op3 : OpcodePage3)
    → opc < 256
    → (is_unsupported (decode opc) ≡ member opc missing_opcodes)
      × (mode_of opc ≢ undefined_mode)
      × (is_unsupported (decode (code op)) ≡ is_rotation op)
      × (is_unsupported (decode_page2 (code_page2 op2)) ≡ false)
      × (is_unsupported (decode_page3 (code_page3 op3)) ≡ false)
decode_lem opc op op2 op3 h = (
  decode-unsupported opc h,
  mode_of_defined opc h,
  decode-code op,
  decode_page2-code_page2 op2,
  decode_page3-code_page3 op3,
)
