-- ===== src/Decode/Tests.antt =====
-- The theorem on decoding at concrete opcodes.
use c_vm.Prelude.{◌≡◌, ◌≢◌, false, arith}
use c_vm.Decode.{member, decode, decode_page2, decode_page3}
use c_vm.Decode.Opcode.{op_rol_x, code}
use c_vm.Decode.Pages.{op2_swi2, code_page2, op3_swi3, code_page3}
use c_vm.Decode.Laws.{is_unsupported, missing_opcodes, is_rotation, decode_lem}
use c_vm.Address.{undefined_mode, mode_of}

decode_lem_example :
    (is_unsupported (decode 0x13) ≡ member 0x13 missing_opcodes)
    × (mode_of 0x13 ≢ undefined_mode)
    × (is_unsupported (decode (code op_rol_x)) ≡ is_rotation op_rol_x)
    × (is_unsupported (decode_page2 (code_page2 op2_swi2)) ≡ false)
    × (is_unsupported (decode_page3 (code_page3 op3_swi3)) ≡ false)
decode_lem_example = decode_lem 0x13 op_rol_x op2_swi2 op3_swi3 (omega arith)
