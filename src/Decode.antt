-- ===== src/Decode.antt =====
-- The switches of `cpu_execop`, `_execop_page2` and `_execop_page3` (vm6809.c): which opcodes
-- share a case, and what the case does. The opcodes are those of the three enumerations, in the
-- order of the switches; a group is the labels of one case.
pub mod Opcode
pub mod Pages
pub mod Laws
pub mod Sizes
mod Tests
use c_vm.Prelude.{ℕ, Bool, true, false, List, [], ◌∷◌, ◌==◌, ◌||◌, if◌then◌else◌}
use Opcode.*
use Pages.*
use c_vm.Transfer.{RegName, reg_d, reg_x, reg_y, reg_u, reg_s, reg_pc, reg_a, reg_b, reg_cc, reg_dp}
use c_vm.Alu.{ShiftMode, sh_left, sh_right, sh_aright, LogicOp, lo_and, lo_or, lo_xor}

-- The conditions of the branches.
pub data Cond : Type 0 where
  if_cc if_cs if_eq if_ge if_gt if_hi if_le if_ls if_lt if_mi if_ne if_pl if_vc if_vs : Cond
  always never : Cond

-- What a case does, with the registers that it works on.
pub data Instr : Type 0 where
  page2 page3 : Instr
  neg_mem com_mem inc_mem dec_mem clr_mem : Instr
  neg_reg com_reg inc_reg dec_reg clr_reg : RegName → Instr
  test_reg : RegName → Instr
  logic_reg : LogicOp → RegName → Instr
  abx tst jmp nop mul rts sex daa rti jsr exg tfr : Instr
  shift_reg : ShiftMode → Bool → RegName → Instr
  shift_mem : ShiftMode → Instr
  load8 load16 store8 store16 : RegName → Instr
  add8 adc8 sub8 sbc8 cmp8 cmp16 : RegName → Instr
  addd subd : Instr
  lea leaf : RegName → Instr
  pshs pshu puls pulu : Instr
  branch : Cond → Instr
  swi : ℕ → Instr
  invalid unsupported : Instr

abbrev pub Group : Type 0
Group = List ℕ × Instr

abbrev pub member : ℕ → List ℕ → Bool
member opc [] = false
member opc (x ∷ xs) = opc == x || member opc xs

-- The first case with a label, and otherwise the default.
abbrev pub find : ℕ → Instr → List Group → Instr
find opc default [] = default
find opc default ((labels, instr) ∷ groups) =
    if member opc labels then instr else find opc default groups

-- From the pages to the exclusive or.
abbrev pub cases_logic : List Group
cases_logic =
    (codes (op_page2 ∷ []), page2)
    ∷ (codes (op_page3 ∷ []), page3)
    ∷ (codes (op_neg_d ∷ op_neg_n ∷ op_neg_x ∷ []), neg_mem)
    ∷ (codes (op_nega ∷ []), neg_reg reg_a)
    ∷ (codes (op_negb ∷ []), neg_reg reg_b)
    ∷ (codes (op_com_d ∷ op_com_n ∷ op_com_x ∷ []), com_mem)
    ∷ (codes (op_coma ∷ []), com_reg reg_a)
    ∷ (codes (op_comb ∷ []), com_reg reg_b)
    ∷ (codes (op_bita_d ∷ op_bita_i ∷ op_bita_n ∷ op_bita_x ∷ []), test_reg reg_a)
    ∷ (codes (op_bitb_d ∷ op_bitb_i ∷ op_bitb_n ∷ op_bitb_x ∷ []), test_reg reg_b)
    ∷ (codes (op_abx ∷ []), abx)
    ∷ (codes (op_andcc_i ∷ []), logic_reg lo_and reg_cc)
    ∷ (codes (op_anda_i ∷ op_anda_d ∷ op_anda_n ∷ op_anda_x ∷ []), logic_reg lo_and reg_a)
    ∷ (codes (op_andb_i ∷ op_andb_d ∷ op_andb_n ∷ op_andb_x ∷ []), logic_reg lo_and reg_b)
    ∷ (codes (op_orcc_i ∷ []), logic_reg lo_or reg_cc)
    ∷ (codes (op_ora_i ∷ op_ora_d ∷ op_ora_n ∷ op_ora_x ∷ []), logic_reg lo_or reg_a)
    ∷ (codes (op_orb_i ∷ op_orb_d ∷ op_orb_n ∷ op_orb_x ∷ []), logic_reg lo_or reg_b)
    ∷ (codes (op_eora_i ∷ op_eora_d ∷ op_eora_n ∷ op_eora_x ∷ []), logic_reg lo_xor reg_a)
    ∷ (codes (op_eorb_i ∷ op_eorb_d ∷ op_eorb_n ∷ op_eorb_x ∷ []), logic_reg lo_xor reg_b)
    ∷ []

-- From the test of memory to the rotations.
abbrev pub cases_unary : List Group
cases_unary =
    (codes (op_tst_d ∷ []), tst)
    ∷ (codes (op_inc_d ∷ op_inc_n ∷ op_inc_x ∷ []), inc_mem)
    ∷ (codes (op_inca ∷ []), inc_reg reg_a)
    ∷ (codes (op_incb ∷ []), inc_reg reg_b)
    ∷ (codes (op_dec_d ∷ op_dec_n ∷ op_dec_x ∷ []), dec_mem)
    ∷ (codes (op_deca ∷ []), dec_reg reg_a)
    ∷ (codes (op_decb ∷ []), dec_reg reg_b)
    ∷ (codes (op_jmp_d ∷ op_jmp_n ∷ op_jmp_x ∷ []), jmp)
    ∷ (codes (op_clra ∷ []), clr_reg reg_a)
    ∷ (codes (op_clrb ∷ []), clr_reg reg_b)
    ∷ (codes (op_clr_d ∷ op_clr_n ∷ op_clr_x ∷ []), clr_mem)
    ∷ (codes (op_nop ∷ []), nop)
    ∷ (codes (op_lsla ∷ []), shift_reg sh_left false reg_a)
    ∷ (codes (op_lslb ∷ []), shift_reg sh_left false reg_b)
    ∷ (codes (op_lsra ∷ []), shift_reg sh_right false reg_a)
    ∷ (codes (op_lsrb ∷ []), shift_reg sh_right false reg_b)
    ∷ (codes (op_asra ∷ []), shift_reg sh_aright false reg_a)
    ∷ (codes (op_asrb ∷ []), shift_reg sh_aright false reg_b)
    ∷ (codes (op_lsl_d ∷ op_lsl_n ∷ op_lsl_x ∷ []), shift_mem sh_left)
    ∷ (codes (op_lsr_d ∷ op_lsr_n ∷ op_lsr_x ∷ []), shift_mem sh_right)
    ∷ (codes (op_asr_d ∷ op_asr_n ∷ op_asr_x ∷ []), shift_mem sh_aright)
    ∷ (codes (op_rola ∷ []), shift_reg sh_left true reg_a)
    ∷ (codes (op_rolb ∷ []), shift_reg sh_left true reg_b)
    ∷ (codes (op_rora ∷ []), shift_reg sh_right true reg_a)
    ∷ (codes (op_rorb ∷ []), shift_reg sh_right true reg_b)
    ∷ []

-- From the loads to the comparisons.
abbrev pub cases_binary : List Group
cases_binary =
    (codes (op_lda_i ∷ op_lda_d ∷ op_lda_n ∷ op_lda_x ∷ []), load8 reg_a)
    ∷ (codes (op_ldb_i ∷ op_ldb_d ∷ op_ldb_n ∷ op_ldb_x ∷ []), load8 reg_b)
    ∷ (codes (op_ldd_i ∷ op_ldd_d ∷ op_ldd_n ∷ op_ldd_x ∷ []), load16 reg_d)
    ∷ (codes (op_ldx_i ∷ op_ldx_d ∷ op_ldx_n ∷ op_ldx_x ∷ []), load16 reg_x)
    ∷ (codes (op_ldu_i ∷ op_ldu_d ∷ op_ldu_n ∷ op_ldu_x ∷ []), load16 reg_u)
    ∷ (codes (op_adda_d ∷ op_adda_i ∷ op_adda_n ∷ op_adda_x ∷ []), add8 reg_a)
    ∷ (codes (op_addb_d ∷ op_addb_i ∷ op_addb_n ∷ op_addb_x ∷ []), add8 reg_b)
    ∷ (codes (op_adca_d ∷ op_adca_i ∷ op_adca_n ∷ op_adca_x ∷ []), adc8 reg_a)
    ∷ (codes (op_adcb_d ∷ op_adcb_i ∷ op_adcb_n ∷ op_adcb_x ∷ []), adc8 reg_b)
    ∷ (codes (op_suba_d ∷ op_suba_i ∷ op_suba_n ∷ op_suba_x ∷ []), sub8 reg_a)
    ∷ (codes (op_subb_d ∷ op_subb_i ∷ op_subb_n ∷ op_subb_x ∷ []), sub8 reg_b)
    ∷ (codes (op_sbca_d ∷ op_sbca_i ∷ op_sbca_n ∷ op_sbca_x ∷ []), sbc8 reg_a)
    ∷ (codes (op_sbcb_d ∷ op_sbcb_i ∷ op_sbcb_n ∷ op_sbcb_x ∷ []), sbc8 reg_b)
    ∷ (codes (op_addd_d ∷ op_addd_i ∷ op_addd_n ∷ op_addd_x ∷ []), addd)
    ∷ (codes (op_subd_d ∷ op_subd_i ∷ op_subd_n ∷ op_subd_x ∷ []), subd)
    ∷ (codes (op_cmpa_d ∷ op_cmpa_i ∷ op_cmpa_n ∷ op_cmpa_x ∷ []), cmp8 reg_a)
    ∷ (codes (op_cmpb_d ∷ op_cmpb_i ∷ op_cmpb_n ∷ op_cmpb_x ∷ []), cmp8 reg_b)
    ∷ (codes (op_cmpx_d ∷ op_cmpx_i ∷ op_cmpx_n ∷ op_cmpx_x ∷ []), cmp16 reg_x)
    ∷ []

-- From the exchange to the decimal adjustment.
abbrev pub cases_transfer : List Group
cases_transfer =
    (codes (op_exg_i ∷ []), exg)
    ∷ (codes (op_tfr_i ∷ []), tfr)
    ∷ (codes (op_leas_n ∷ []), lea reg_s)
    ∷ (codes (op_leau_n ∷ []), lea reg_u)
    ∷ (codes (op_leax_n ∷ []), leaf reg_x)
    ∷ (codes (op_leay_n ∷ []), leaf reg_y)
    ∷ (codes (op_mul ∷ []), mul)
    ∷ (codes (op_pshs_i ∷ []), pshs)
    ∷ (codes (op_pshu_i ∷ []), pshu)
    ∷ (codes (op_puls_i ∷ []), puls)
    ∷ (codes (op_pulu_i ∷ []), pulu)
    ∷ (codes (op_jsr_d ∷ op_jsr_n ∷ op_jsr_x ∷ []), jsr)
    ∷ (codes (op_rts ∷ []), rts)
    ∷ (codes (op_sta_d ∷ op_sta_n ∷ op_sta_x ∷ []), store8 reg_a)
    ∷ (codes (op_stb_d ∷ op_stb_n ∷ op_stb_x ∷ []), store8 reg_b)
    ∷ (codes (op_std_d ∷ op_std_n ∷ op_std_x ∷ []), store16 reg_d)
    ∷ (codes (op_stu_d ∷ op_stu_n ∷ op_stu_x ∷ []), store16 reg_u)
    ∷ (codes (op_stx_d ∷ op_stx_n ∷ op_stx_x ∷ []), store16 reg_x)
    ∷ (codes (op_sex ∷ []), sex)
    ∷ (codes (op_daa ∷ []), daa)
    ∷ []

-- The conditional branches, of the first page.
abbrev pub cases_branch : List Group
cases_branch =
    (codes (op_bcc_r ∷ []), branch if_cc)
    ∷ (codes (op_bcs_r ∷ []), branch if_cs)
    ∷ (codes (op_beq_r ∷ []), branch if_eq)
    ∷ (codes (op_bge_r ∷ []), branch if_ge)
    ∷ (codes (op_bgt_r ∷ []), branch if_gt)
    ∷ (codes (op_bhi_r ∷ []), branch if_hi)
    ∷ (codes (op_ble_r ∷ []), branch if_le)
    ∷ (codes (op_bls_r ∷ []), branch if_ls)
    ∷ (codes (op_blt_r ∷ []), branch if_lt)
    ∷ (codes (op_bmi_r ∷ []), branch if_mi)
    ∷ (codes (op_bne_r ∷ []), branch if_ne)
    ∷ (codes (op_bpl_r ∷ []), branch if_pl)
    ∷ (codes (op_brn_r ∷ []), branch never)
    ∷ (codes (op_bvc_r ∷ []), branch if_vc)
    ∷ (codes (op_bvs_r ∷ []), branch if_vs)
    ∷ []

-- The other jumps, and the opcodes that are invalid.
abbrev pub cases_control : List Group
cases_control =
    (codes (op_bra_r ∷ op_lbra_r ∷ []), branch always)
    ∷ (codes (op_bsr_r ∷ op_lbsr_r ∷ []), jsr)
    ∷ (codes (op_rti ∷ []), rti)
    ∷ (codes (op_swi ∷ []), swi 8)
    ∷ (
      0x01 ∷ 0x02 ∷ 0x05 ∷ 0x0b ∷ 0x14 ∷ 0x15 ∷ 0x18 ∷ 0x1b ∷ 0x38 ∷ 0x3e ∷ 0x41 ∷ 0x42 ∷ 0x45
          ∷ 0x4b ∷ 0x4e ∷ 0x51 ∷ 0x52 ∷ 0x55 ∷ 0x5b ∷ 0x5e ∷ 0x61 ∷ 0x62 ∷ 0x65 ∷ 0x6b ∷ 0x71 ∷ 0x72
          ∷ 0x75 ∷ 0x7b ∷ 0x87 ∷ 0x8f ∷ 0xc7 ∷ 0xcd ∷ 0xcf ∷ [],
      invalid,
    )
    ∷ []

-- The cases of `cpu_execop`, part by part; the default is an unsupported opcode.
unfoldable pub decode : ℕ → Instr
decode opc =
    find opc
      (find opc
        (find opc
          (find opc (find opc (find opc unsupported cases_control) cases_branch) cases_transfer)
          cases_binary)
        cases_unary)
      cases_logic

-- The cases of `_execop_page2`.
abbrev pub cases_page2 : List Group
cases_page2 =
    (codes_page2 (op2_lds_d ∷ op2_lds_i ∷ op2_lds_n ∷ op2_lds_x ∷ []), load16 reg_s)
    ∷ (codes_page2 (op2_ldy_d ∷ op2_ldy_i ∷ op2_ldy_n ∷ op2_ldy_x ∷ []), load16 reg_y)
    ∷ (codes_page2 (op2_cmpd_d ∷ op2_cmpd_i ∷ op2_cmpd_n ∷ op2_cmpd_x ∷ []), cmp16 reg_d)
    ∷ (codes_page2 (op2_cmpy_d ∷ op2_cmpy_i ∷ op2_cmpy_n ∷ op2_cmpy_x ∷ []), cmp16 reg_y)
    ∷ (codes_page2 (op2_sts_d ∷ op2_sts_n ∷ op2_sts_x ∷ []), store16 reg_s)
    ∷ (codes_page2 (op2_sty_d ∷ op2_sty_n ∷ op2_sty_x ∷ []), store16 reg_y)
    ∷ (codes_page2 (op2_swi2 ∷ []), swi 4)
    ∷ []

-- The long branches.
abbrev pub cases_long_branch : List Group
cases_long_branch =
    (codes_page2 (op2_lbcc_r ∷ []), branch if_cc)
    ∷ (codes_page2 (op2_lbcs_r ∷ []), branch if_cs)
    ∷ (codes_page2 (op2_lbeq_r ∷ []), branch if_eq)
    ∷ (codes_page2 (op2_lbge_r ∷ []), branch if_ge)
    ∷ (codes_page2 (op2_lbgt_r ∷ []), branch if_gt)
    ∷ (codes_page2 (op2_lbhi_r ∷ []), branch if_hi)
    ∷ (codes_page2 (op2_lble_r ∷ []), branch if_le)
    ∷ (codes_page2 (op2_lbls_r ∷ []), branch if_ls)
    ∷ (codes_page2 (op2_lblt_r ∷ []), branch if_lt)
    ∷ (codes_page2 (op2_lbmi_r ∷ []), branch if_mi)
    ∷ (codes_page2 (op2_lbne_r ∷ []), branch if_ne)
    ∷ (codes_page2 (op2_lbpl_r ∷ []), branch if_pl)
    ∷ (codes_page2 (op2_lbrn_r ∷ []), branch never)
    ∷ (codes_page2 (op2_lbvc_r ∷ []), branch if_vc)
    ∷ (codes_page2 (op2_lbvs_r ∷ []), branch if_vs)
    ∷ []

unfoldable pub decode_page2 : ℕ → Instr
decode_page2 opc = find opc (find opc unsupported cases_long_branch) cases_page2

-- The cases of `_execop_page3`.
abbrev pub cases_page3 : List Group
cases_page3 =
    (codes_page3 (op3_cmps_d ∷ op3_cmps_i ∷ op3_cmps_n ∷ op3_cmps_x ∷ []), cmp16 reg_s)
    ∷ (codes_page3 (op3_cmpu_d ∷ op3_cmpu_i ∷ op3_cmpu_n ∷ op3_cmpu_x ∷ []), cmp16 reg_u)
    ∷ (codes_page3 (op3_swi3 ∷ []), swi 2)
    ∷ []

unfoldable pub decode_page3 : ℕ → Instr
decode_page3 opc = find opc unsupported cases_page3
