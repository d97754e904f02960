-- ===== src/Decode/Sizes.antt =====
-- The width of the registers in the cases of the switches (vm6809.c).
use c_vm.Prelude.{
  ℕ, ltb, Bool, true, false, not, ◌&&◌, ◌≡◌, List, [], ◌∷◌, refl, arith, if◌then◌else◌,
}
use c_vm.Transfer.{is_byte}
use c_vm.Decode.{
  Instr, neg_reg, com_reg, inc_reg, dec_reg, clr_reg, test_reg, logic_reg, shift_reg, load8, load16,
  store8, store16, add8, adc8, sub8, sbc8, cmp8, cmp16, lea, leaf, swi, Group, find, member, decode,
  decode_page2, decode_page3, unsupported, cases_logic, cases_unary, cases_binary, cases_transfer,
  cases_branch, cases_control, cases_page2, cases_page3, cases_long_branch,
}

abbrev pub well_sized : Instr → Bool
well_sized (neg_reg r) = is_byte r
well_sized (com_reg r) = is_byte r
well_sized (inc_reg r) = is_byte r
well_sized (dec_reg r) = is_byte r
well_sized (clr_reg r) = is_byte r
well_sized (test_reg r) = is_byte r
well_sized (logic_reg op r) = is_byte r
well_sized (shift_reg mode rot r) = is_byte r
well_sized (load8 r) = is_byte r
well_sized (load16 r) = not (is_byte r)
well_sized (store8 r) = is_byte r
well_sized (store16 r) = not (is_byte r)
well_sized (add8 r) = is_byte r
well_sized (adc8 r) = is_byte r
well_sized (sub8 r) = is_byte r
well_sized (sbc8 r) = is_byte r
well_sized (cmp8 r) = is_byte r
well_sized (cmp16 r) = not (is_byte r)
well_sized (lea r) = not (is_byte r)
well_sized (leaf r) = not (is_byte r)
well_sized (swi flag) = ltb flag 256
well_sized _ = true

abbrev all_sized : List Group → Bool
all_sized [] = true
all_sized ((labels, instr) ∷ groups) = well_sized instr && all_sized groups

chosen-sized :
    (b : Bool) (x y : Instr)
    → well_sized x ≡ true
    → well_sized y ≡ true
    → well_sized (if b then x else y) ≡ true
chosen-sized true x y hx hy = hx
chosen-sized false x y hx hy = hy

find-sized :
    (opc : ℕ) (default : Instr) (groups : List Group)
    → well_sized default ≡ true
    → all_sized groups ≡ true
    → well_sized (find opc default groups) ≡ true
find-sized opc default [] hd h = hd
find-sized opc default ((labels, instr) ∷ groups) hd h =
    chosen-sized (member opc labels) instr (find opc default groups) (ground (arith, h))
      (find-sized opc default groups hd (ground (arith, h)))

pub decode-sized : (opc : ℕ) → well_sized (decode opc) ≡ true
unfolding decode
decode-sized opc =
    find-sized opc _ cases_logic
      (find-sized opc _ cases_unary
        (find-sized opc _ cases_binary
          (find-sized opc _ cases_transfer
            (find-sized opc _ cases_branch (find-sized opc unsupported cases_control refl refl)
              refl)
            refl)
          refl)
        refl)
      refl

pub decode_page2-sized : (opc : ℕ) → well_sized (decode_page2 opc) ≡ true
unfolding decode_page2
decode_page2-sized opc =
    find-sized opc _ cases_page2 (find-sized opc unsupported cases_long_branch refl refl) refl

pub decode_page3-sized : (opc : ℕ) → well_sized (decode_page3 opc) ≡ true
unfolding decode_page3
decode_page3-sized opc = find-sized opc unsupported cases_page3 refl refl
