-- ===== src/Decode/Pages.antt =====
-- The enumerations of the second bytes of the opcodes of the pages 2 and 3 (vm6809.c).
use c_vm.Prelude.{ℕ, List, [], ◌∷◌}

-- `cpu_opcode_page2_6809`
pub data OpcodePage2 : Type 0 where
  op2_lds_i op2_lds_d op2_lds_n op2_lds_x op2_ldy_i op2_ldy_d op2_ldy_n op2_ldy_x : OpcodePage2
  op2_cmpd_i op2_cmpd_d op2_cmpd_n op2_cmpd_x op2_cmpy_i op2_cmpy_d op2_cmpy_n : OpcodePage2
  op2_cmpy_x op2_sts_d op2_sts_n op2_sts_x op2_sty_d op2_sty_n op2_sty_x op2_lbcc_r : OpcodePage2
  op2_lbcs_r op2_lbeq_r op2_lbge_r op2_lbgt_r op2_lbhi_r op2_lbhs_r op2_lble_r : OpcodePage2
  op2_lblo_r op2_lbls_r op2_lblt_r op2_lbmi_r op2_lbne_r op2_lbpl_r op2_lbrn_r : OpcodePage2
  op2_lbvc_r op2_lbvs_r op2_swi2 : OpcodePage2

abbrev pub code_page2 : OpcodePage2 → ℕ
code_page2 op2_lds_i = 0xce
code_page2 op2_lds_d = 0xde
code_page2 op2_lds_n = 0xee
code_page2 op2_lds_x = 0xfe
code_page2 op2_ldy_i = 0x8e
code_page2 op2_ldy_d = 0x9e
code_page2 op2_ldy_n = 0xae
code_page2 op2_ldy_x = 0xbe
code_page2 op2_cmpd_i = 0x83
code_page2 op2_cmpd_d = 0x93
code_page2 op2_cmpd_n = 0xa3
code_page2 op2_cmpd_x = 0xb3
code_page2 op2_cmpy_i = 0x8c
code_page2 op2_cmpy_d = 0x9c
code_page2 op2_cmpy_n = 0xac
code_page2 op2_cmpy_x = 0xbc
code_page2 op2_sts_d = 0xdf
code_page2 op2_sts_n = 0xef
code_page2 op2_sts_x = 0xff
code_page2 op2_sty_d = 0x9f
code_page2 op2_sty_n = 0xaf
code_page2 op2_sty_x = 0xbf
code_page2 op2_lbcc_r = 0x24
code_page2 op2_lbcs_r = 0x25
code_page2 op2_lbeq_r = 0x27
code_page2 op2_lbge_r = 0x2c
code_page2 op2_lbgt_r = 0x2e
code_page2 op2_lbhi_r = 0x22
code_page2 op2_lbhs_r = 0x24
code_page2 op2_lble_r = 0x2f
code_page2 op2_lblo_r = 0x25
code_page2 op2_lbls_r = 0x23
code_page2 op2_lblt_r = 0x2d
code_page2 op2_lbmi_r = 0x2b
code_page2 op2_lbne_r = 0x26
code_page2 op2_lbpl_r = 0x2a
code_page2 op2_lbrn_r = 0x21
code_page2 op2_lbvc_r = 0x28
code_page2 op2_lbvs_r = 0x29
code_page2 op2_swi2 = 0x3f

abbrev pub codes_page2 : List OpcodePage2 → List ℕ
codes_page2 [] = []
codes_page2 (x ∷ xs) = code_page2 x ∷ codes_page2 xs

-- `cpu_opcode_page3_6809`
pub data OpcodePage3 : Type 0 where
  op3_cmpu_i op3_cmpu_d op3_cmpu_n op3_cmpu_x op3_cmps_i op3_cmps_d op3_cmps_n : OpcodePage3
  op3_cmps_x op3_swi3 : OpcodePage3

abbrev pub code_page3 : OpcodePage3 → ℕ
code_page3 op3_cmpu_i = 0x83
code_page3 op3_cmpu_d = 0x93
code_page3 op3_cmpu_n = 0xa3
code_page3 op3_cmpu_x = 0xb3
code_page3 op3_cmps_i = 0x8c
code_page3 op3_cmps_d = 0x9c
code_page3 op3_cmps_n = 0xac
code_page3 op3_cmps_x = 0xbc
code_page3 op3_swi3 = 0x3f

abbrev pub codes_page3 : List OpcodePage3 → List ℕ
codes_page3 [] = []
codes_page3 (x ∷ xs) = code_page3 x ∷ codes_page3 xs
