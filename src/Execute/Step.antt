-- ===== src/Execute/Step.antt =====
-- `cpu_execop` and its two pages (vm6809.c), and the C types.
use c_vm.Prelude.{ℕ, ◌≡◌, true}
use c_vm.Machine.{
  StatusCode, unsupported_opcode, unsupported_page2_opcode, unsupported_page3_opcode, ◌>>=◌,
}
use c_vm.Machine.Keeps.{Byte, Word, Any, Keeps, Keeps-bind}
use c_vm.Address.{eafromopc}
use c_vm.Address.Types.{fetch8-Keeps, eafromopc-Keeps}
use c_vm.Decode
use c_vm.Decode.Sizes.{well_sized, decode-sized, decode_page2-sized, decode_page3-sized}
use c_vm.Execute.{execute, execop_page2, execop_page3, dispatch, cpu_execop}
use c_vm.Execute.Types.{execute-Keeps}

addressed-Keeps :
    (missing : StatusCode) (instr : Decode.Instr) (opc : ℕ)
    → well_sized instr ≡ true
    → Keeps Any (do ea ← eafromopc opc; execute missing instr ea)
addressed-Keeps missing instr opc e =
    Keeps-bind Word Any _ _ (eafromopc-Keeps opc) (λ ea h. execute-Keeps missing instr ea e h)

execop_page2-Keeps : Keeps Any execop_page2
unfolding execop_page2
execop_page2-Keeps = Keeps-bind Byte Any _ _ fetch8-Keeps λ opc _.
    addressed-Keeps unsupported_page2_opcode (Decode.decode_page2 opc) opc (decode_page2-sized opc)

execop_page3-Keeps : Keeps Any execop_page3
unfolding execop_page3
execop_page3-Keeps = Keeps-bind Byte Any _ _ fetch8-Keeps λ opc _.
    addressed-Keeps unsupported_page3_opcode (Decode.decode_page3 opc) opc (decode_page3-sized opc)

dispatch-Keeps :
    (instr : Decode.Instr) (opc : ℕ) → well_sized instr ≡ true → Keeps Any (dispatch instr opc)
dispatch-Keeps Decode.page2 opc e = execop_page2-Keeps
dispatch-Keeps Decode.page3 opc e = execop_page3-Keeps
dispatch-Keeps instr opc e = addressed-Keeps unsupported_opcode instr opc e

pub cpu_execop-Keeps : Keeps Any cpu_execop
unfolding cpu_execop
cpu_execop-Keeps =
    Keeps-bind Byte Any _ _ fetch8-Keeps
      (λ opc _. dispatch-Keeps (Decode.decode opc) opc (decode-sized opc))
