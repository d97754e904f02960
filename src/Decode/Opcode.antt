-- ===== src/Decode/Opcode.antt =====
-- The enumeration of the opcodes of the first page (vm6809.c).
use c_vm.Prelude.{ℕ, List, [], ◌∷◌}

-- `cpu_opcode_6809`
pub data Opcode : Type 0 where
  op_neg_d op_neg_n op_neg_x op_nega op_negb op_invalid op_page2 op_page3 op_com_d : Opcode
  op_com_n op_com_x op_coma op_comb op_bita_i op_bita_d op_bita_n op_bita_x : Opcode
  op_bitb_i op_bitb_d op_bitb_n op_bitb_x op_abx op_andcc_i op_anda_i op_anda_d : Opcode
  op_anda_n op_anda_x op_andb_i op_andb_d op_andb_n op_andb_x op_orcc_i op_ora_i : Opcode
  op_ora_d op_ora_n op_ora_x op_orb_i op_orb_d op_orb_n op_orb_x op_eora_i : Opcode
  op_eora_d op_eora_n op_eora_x op_eorb_i op_eorb_d op_eorb_n op_eorb_x op_tst_d : Opcode
  op_inc_d op_inc_n op_inc_x op_inca op_incb op_dec_d op_dec_n op_dec_x op_deca : Opcode
  op_decb op_jmp_d op_jmp_n op_jmp_x op_clra op_clrb op_clr_d op_clr_n op_clr_x : Opcode
  op_nop op_lsla op_lslb op_lsl_d op_lsl_n op_lsl_x op_lsra op_lsrb op_lsr_d : Opcode
  op_lsr_n op_lsr_x op_asra op_asrb op_asr_d op_asr_n op_asr_x op_rola op_rolb : Opcode
  op_rol_d op_rol_n op_rol_x op_rora op_rorb op_ror_d op_ror_n op_ror_x op_lda_i : Opcode
  op_lda_d op_lda_n op_lda_x op_ldb_i op_ldb_d op_ldb_n op_ldb_x op_ldd_i op_ldd_d : Opcode
  op_ldd_n op_ldd_x op_ldu_i op_ldu_d op_ldu_n op_ldu_x op_ldx_i op_ldx_d op_ldx_n : Opcode
  op_ldx_x op_adda_i op_addb_i op_addd_i op_adda_d op_addb_d op_addd_d op_adda_n : Opcode
  op_addb_n op_addd_n op_adda_x op_addb_x op_addd_x op_adca_i op_adcb_i op_adca_d : Opcode
  op_adcb_d op_adca_n op_adcb_n op_adca_x op_adcb_x op_sbca_i op_sbcb_i op_sbca_d : Opcode
  op_sbcb_d op_sbca_n op_sbcb_n op_sbca_x op_sbcb_x op_suba_i op_subb_i op_subd_i : Opcode
  op_suba_d op_subb_d op_subd_d op_suba_n op_subb_n op_subd_n op_suba_x op_subb_x : Opcode
  op_subd_x op_cmpa_i op_cmpa_d op_cmpa_n op_cmpa_x op_cmpb_i op_cmpb_d op_cmpb_n : Opcode
  op_cmpb_x op_cmpx_i op_cmpx_d op_cmpx_n op_cmpx_x op_exg_i op_tfr_i op_leas_n : Opcode
  op_leau_n op_leax_n op_leay_n op_mul op_pshs_i op_pshu_i op_puls_i op_pulu_i : Opcode
  op_jsr_d op_jsr_n op_jsr_x op_rts op_sta_d op_sta_n op_sta_x op_stb_d op_stb_n : Opcode
  op_stb_x op_std_d op_std_n op_std_x op_stu_d op_stu_n op_stu_x op_stx_d op_stx_n : Opcode
  op_stx_x op_sex op_daa op_bcc_r op_bcs_r op_beq_r op_bge_r op_bgt_r op_bhi_r : Opcode
  op_bhs_r op_ble_r op_blo_r op_bls_r op_blt_r op_bmi_r op_bne_r op_bpl_r op_bra_r : Opcode
  op_lbra_r op_brn_r op_bsr_r op_lbsr_r op_bvc_r op_bvs_r op_rti op_swi : Opcode

abbrev pub code : Opcode → ℕ
code op_neg_d = 0x00
code op_neg_n = 0x60
code op_neg_x = 0x70
code op_nega = 0x40
code op_negb = 0x50
code op_invalid = 0x01
code op_page2 = 0x10
code op_page3 = 0x11
code op_com_d = 0x03
code op_com_n = 0x63
code op_com_x = 0x73
code op_coma = 0x43
code op_comb = 0x53
code op_bita_i = 0x85
code op_bita_d = 0x95
code op_bita_n = 0xa5
code op_bita_x = 0xb5
code op_bitb_i = 0xc5
code op_bitb_d = 0xd5
code op_bitb_n = 0xe5
code op_bitb_x = 0xf5
code op_abx = 0x3a
code op_andcc_i = 0x1c
code op_anda_i = 0x84
code op_anda_d = 0x94
code op_anda_n = 0xa4
code op_anda_x = 0xb4
code op_andb_i = 0xc4
code op_andb_d = 0xd4
code op_andb_n = 0xe4
code op_andb_x = 0xf4
code op_orcc_i = 0x1a
code op_ora_i = 0x8a
code op_ora_d = 0x9a
code op_ora_n = 0xaa
code op_ora_x = 0xba
code op_orb_i = 0xca
code op_orb_d = 0xda
code op_orb_n = 0xea
code op_orb_x = 0xfa
code op_eora_i = 0x88
code op_eora_d = 0x98
code op_eora_n = 0xa8
code op_eora_x = 0xb8
code op_eorb_i = 0xc8
code op_eorb_d = 0xd8
code op_eorb_n = 0xe8
code op_eorb_x = 0xf8
code op_tst_d = 0x0d
code op_inc_d = 0x0c
code op_inc_n = 0x6c
code op_inc_x = 0x7c
code op_inca = 0x4c
code op_incb = 0x5c
code op_dec_d = 0x0a
code op_dec_n = 0x6a
code op_dec_x = 0x7a
code op_deca = 0x4a
code op_decb = 0x5a
code op_jmp_d = 0x0e
code op_jmp_n = 0x6e
code op_jmp_x = 0x7e
code op_clra = 0x4f
code op_clrb = 0x5f
code op_clr_d = 0x0f
code op_clr_n = 0x6f
code op_clr_x = 0x7f
code op_nop = 0x12
code op_lsla = 0x48
code op_lslb = 0x58
code op_lsl_d = 0x08
code op_lsl_n = 0x68
code op_lsl_x = 0x78
code op_lsra = 0x44
code op_lsrb = 0x54
code op_lsr_d = 0x04
code op_lsr_n = 0x64
code op_lsr_x = 0x74
code op_asra = 0x47
code op_asrb = 0x57
code op_asr_d = 0x07
code op_asr_n = 0x67
code op_asr_x = 0x77
code op_rola = 0x49
code op_rolb = 0x59
code op_rol_d = 0x09
code op_rol_n = 0x69
code op_rol_x = 0x79
code op_rora = 0x46
code op_rorb = 0x56
code op_ror_d = 0x06
code op_ror_n = 0x66
code op_ror_x = 0x76
code op_lda_i = 0x86
code op_lda_d = 0x96
code op_lda_n = 0xa6
code op_lda_x = 0xb6
code op_ldb_i = 0xc6
code op_ldb_d = 0xd6
code op_ldb_n = 0xe6
code op_ldb_x = 0xf6
code op_ldd_i = 0xcc
code op_ldd_d = 0xdc
code op_ldd_n = 0xec
code op_ldd_x = 0xfc
code op_ldu_i = 0xce
code op_ldu_d = 0xde
code op_ldu_n = 0xee
code op_ldu_x = 0xfe
code op_ldx_i = 0x8e
code op_ldx_d = 0x9e
code op_ldx_n = 0xae
code op_ldx_x = 0xbe
code op_adda_i = 0x8b
code op_addb_i = 0xcb
code op_addd_i = 0xc3
code op_adda_d = 0x9b
code op_addb_d = 0xdb
code op_addd_d = 0xd3
code op_adda_n = 0xab
code op_addb_n = 0xeb
code op_addd_n = 0xe3
code op_adda_x = 0xbb
code op_addb_x = 0xfb
code op_addd_x = 0xf3
code op_adca_i = 0x89
code op_adcb_i = 0xc9
code op_adca_d = 0x99
code op_adcb_d = 0xd9
code op_adca_n = 0xa9
code op_adcb_n = 0xe9
code op_adca_x = 0xb9
code op_adcb_x = 0xf9
code op_sbca_i = 0x82
code op_sbcb_i = 0xc2
code op_sbca_d = 0x92
code op_sbcb_d = 0xd2
code op_sbca_n = 0xa2
code op_sbcb_n = 0xe2
code op_sbca_x = 0xb2
code op_sbcb_x = 0xf2
code op_suba_i = 0x80
code op_subb_i = 0xc0
code op_subd_i = 0x83
code op_suba_d = 0x90
code op_subb_d = 0xd0
code op_subd_d = 0x93
code op_suba_n = 0xa0
code op_subb_n = 0xe0
code op_subd_n = 0xa3
code op_suba_x = 0xb0
code op_subb_x = 0xf0
code op_subd_x = 0xb3
code op_cmpa_i = 0x81
code op_cmpa_d = 0x91
code op_cmpa_n = 0xa1
code op_cmpa_x = 0xb1
code op_cmpb_i = 0xc1
code op_cmpb_d = 0xd1
code op_cmpb_n = 0xe1
code op_cmpb_x = 0xf1
code op_cmpx_i = 0x8c
code op_cmpx_d = 0x9c
code op_cmpx_n = 0xac
code op_cmpx_x = 0xbc
code op_exg_i = 0x1e
code op_tfr_i = 0x1f
code op_leas_n = 0x32
code op_leau_n = 0x33
code op_leax_n = 0x30
code op_leay_n = 0x31
code op_mul = 0x3d
code op_pshs_i = 0x34
code op_pshu_i = 0x36
code op_puls_i = 0x35
code op_pulu_i = 0x37
code op_jsr_d = 0x9d
code op_jsr_n = 0xad
code op_jsr_x = 0xbd
code op_rts = 0x39
code op_sta_d = 0x97
code op_sta_n = 0xa7
code op_sta_x = 0xb7
code op_stb_d = 0xd7
code op_stb_n = 0xe7
code op_stb_x = 0xf7
code op_std_d = 0xdd
code op_std_n = 0xed
code op_std_x = 0xfd
code op_stu_d = 0xdf
code op_stu_n = 0xef
code op_stu_x = 0xff
code op_stx_d = 0x9f
code op_stx_n = 0xaf
code op_stx_x = 0xbf
code op_sex = 0x1d
code op_daa = 0x19
code op_bcc_r = 0x24
code op_bcs_r = 0x25
code op_beq_r = 0x27
code op_bge_r = 0x2c
code op_bgt_r = 0x2e
code op_bhi_r = 0x22
code op_bhs_r = 0x24
code op_ble_r = 0x2f
code op_blo_r = 0x25
code op_bls_r = 0x23
code op_blt_r = 0x2d
code op_bmi_r = 0x2b
code op_bne_r = 0x26
code op_bpl_r = 0x2a
code op_bra_r = 0x20
code op_lbra_r = 0x16
code op_brn_r = 0x21
code op_bsr_r = 0x8d
code op_lbsr_r = 0x17
code op_bvc_r = 0x28
code op_bvs_r = 0x29
code op_rti = 0x3b
code op_swi = 0x3f

-- The labels of a case.
abbrev pub codes : List Opcode → List ℕ
codes [] = []
codes (x ∷ xs) = code x ∷ codes xs
