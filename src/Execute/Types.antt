-- ===== src/Execute/Types.antt =====
-- The cases of `cpu_execop` (vm6809.c), and the C types.
use c_vm.Prelude.{ℕ, ltb, ◌+◌, ◌<◌, ◌≡◌, true, false, u16, arith, bit_or, refl, if◌then◌else◌}
use c_vm.Bits.{bit_or-lt}
use c_vm.Flags.{flags_nz_v16}
use c_vm.Machine.{StatusCode, M, pure, ◌>>=◌, ◌>>◌, reads, modify, put_d, invalid_opcode}
use c_vm.Machine.Keeps.{
  Byte, Word, Any, Keeps, Keeps-pure, Keeps-reads, Keeps-if, Keeps-modify, Keeps-bind, Keeps-seq,
  Keeps-errorexit,
}
use c_vm.Alu.{mulf8, LogicOp, lo_and, lo_com, logicf8}
use c_vm.Alu.Range
use c_vm.Memory.{mem_rd8, mem_rd16}
use c_vm.Memory.Types.{mem_rd8-Keeps, mem_rd16-Keeps, mem_wr8-Keeps, mem_wr16-Keeps}
use c_vm.Stack.{system, user, setclrccf}
use c_vm.Stack.Types.{pushregs-Keeps, pullregs-Keeps, pullstate-Keeps, setclrccf-Keeps}
use c_vm.Address.{sext816}
use c_vm.Address.Types.{sext816-Word}
use c_vm.Transfer.{RegName, reg_d, reg_a, is_byte, put}
use c_vm.Transfer.Types.{Held, transfer-Keeps}
use c_vm.Decode
use c_vm.Decode.Sizes.{well_sized}
use c_vm.Execute.{alu, flags, taken, jump, into, call, execute}
use c_vm.Execute.Parts.{
  from_byte, from_word, alu-Keeps, flags-Keeps, drop_result-Keeps, jump-Keeps, put-Keeps,
  into-Keeps, with_word-Keeps, load16-Keeps, store16-Keeps, with_byte-Keeps, change_reg-Keeps,
  load8-Keeps, store8-Keeps, change_mem-Keeps, Gives,
}

logic-Gives : (op : LogicOp) (a v : ℕ) → a < 256 → v < 256 → Gives Byte (logicf8 a v op)
logic-Gives op a v ha hv codes hc = Range.logicf8-IsOut8 codes hc a v op ha hv

add_x-Keeps : Keeps Any (modify (λ r. record r { x = u16 (r.x + r.a) }))
add_x-Keeps = Keeps-modify _ (λ r h. omega arith)

byte_clear : (r : RegName) → is_byte r ≡ true → Keeps Any (do modify (put r 0); setclrccf 4 11)
byte_clear r e =
    Keeps-seq Any _ _ (put-Keeps r 0 (from_byte r 0 e (omega arith)))
      (setclrccf-Keeps 4 11 (omega arith))

mul-Keeps : Keeps Any (do a ← reads (λ r. r.a); b ← reads (λ r. r.b); into reg_d (alu (mulf8 a b)))
mul-Keeps = Keeps-bind Byte Any _ _ (Keeps-reads Byte _ (λ r h. h.a)) λ a _.
    Keeps-bind Byte Any _ _ (Keeps-reads Byte _ (λ r h. h.b))
      λ b _. into-Keeps reg_d _ (alu-Keeps Word _ (λ codes hc. Range.mulf8-IsOut16 codes hc a b))

masked-Keeps :
    (f : ℕ → M (Unit {0})) (ea : ℕ)
    → ((v : ℕ) → Keeps Any (f v))
    → Keeps Any (do v ← mem_rd8 ea; f v)
masked-Keeps f ea keep = Keeps-bind Byte Any _ f (mem_rd8-Keeps ea) (λ v _. keep v)

call-Keeps : (ea : ℕ) → ea < 65536 → Keeps Any (call ea)
call-Keeps ea h = Keeps-seq Any _ _ (Keeps-modify _ (λ r hr. omega arith)) (
    Keeps-bind Word Any _ _ (Keeps-reads Word _ (λ r hr. hr.s)) λ s _.
      Keeps-bind Word Any _ _ (Keeps-reads Word _ (λ r hr. hr.pc))
        λ pc hp. Keeps-seq Any _ _ (mem_wr16-Keeps s pc hp) (jump-Keeps ea h))

rts-Keeps :
    Keeps Any (do
      s ← reads (λ r. r.s)
      v ← mem_rd16 s
      jump v
      modify (λ r. record r { s = u16 (r.s + 2) }))
rts-Keeps = Keeps-bind Word Any _ _ (Keeps-reads Word _ (λ r hr. hr.s)) λ s _.
    Keeps-bind Word Any _ _ (mem_rd16-Keeps s) λ v hv.
      Keeps-seq Any _ _ (jump-Keeps v hv)
        (Keeps-modify (λ r. record r { s = u16 (r.s + 2) }) (λ r hr. omega arith))

sex-Keeps :
    Keeps Any
      (do a ← reads (λ r. r.a); modify (put_d (sext816 a)); flags (flags_nz_v16 (sext816 a)))
sex-Keeps = Keeps-bind Byte Any _ _ (Keeps-reads Byte _ (λ r h. h.a)) λ a ha.
    Keeps-seq Any _ _ (put-Keeps reg_d (sext816 a) (sext816-Word a ha))
      (flags-Keeps _ (λ codes hc. Range.flags_nz_v16-lt codes hc (sext816 a)))

branch-Keeps :
    (cond : Decode.Cond) (ea : ℕ)
    → ea < 65536
    → Keeps Any (do cc ← reads (λ r. r.cc); if taken cond cc then jump ea else pure tt)
branch-Keeps cond ea h =
    Keeps-bind Byte Any _ _ (Keeps-reads Byte _ (λ r h. h.cc))
      λ codes _. Keeps-if Any (taken cond codes) _ _ (jump-Keeps ea h) (Keeps-pure Any tt tt)

raise-Keeps :
    (flag : ℕ)
    → ltb flag 256 ≡ true
    → Keeps Any (modify (λ r. record r { irq = bit_or r.irq flag }))
raise-Keeps flag h = Keeps-modify _ λ r hr.
    let fits : bit_or r.irq flag < 256 = bit_or-lt 8 r.irq flag hr.irq (ground (arith, h)) in
    omega arith

pub execute-Keeps :
    (missing : StatusCode) (instr : Decode.Instr) (ea : ℕ)
    → well_sized instr ≡ true
    → ea < 65536
    → Keeps Any (execute missing instr ea)
unfolding execute
execute-Keeps missing Decode.page2 ea e h = Keeps-pure Any tt tt
execute-Keeps missing Decode.page3 ea e h = Keeps-pure Any tt tt
execute-Keeps missing Decode.neg_mem ea e h =
    change_mem-Keeps _ ea (λ v _ codes hc. Range.subf8-IsOut8 codes hc 0 v)
execute-Keeps missing (Decode.neg_reg r) ea e h =
    change_reg-Keeps r e _ (λ v _ codes hc. Range.subf8-IsOut8 codes hc 0 v)
execute-Keeps missing Decode.com_mem ea e h =
    change_mem-Keeps _ ea (λ v hv. logic-Gives lo_com v 0 hv (omega arith))
execute-Keeps missing (Decode.com_reg r) ea e h =
    change_reg-Keeps r e _ (λ v hv. logic-Gives lo_com v 0 hv (omega arith))
execute-Keeps missing (Decode.test_reg r) ea e h =
    drop_result-Keeps (Held r) _ (with_byte-Keeps r e _ ea (logic-Gives lo_and))
execute-Keeps missing Decode.abx ea e h = add_x-Keeps
execute-Keeps missing (Decode.logic_reg op r) ea e h =
    into-Keeps r _ (with_byte-Keeps r e _ ea (logic-Gives op))
execute-Keeps missing Decode.tst ea e h = Keeps-pure Any tt tt
execute-Keeps missing Decode.inc_mem ea e h =
    change_mem-Keeps _ ea (λ v _ codes hc. Range.incf8-IsOut8 codes hc v)
execute-Keeps missing (Decode.inc_reg r) ea e h =
    change_reg-Keeps r e _ (λ v _ codes hc. Range.incf8-IsOut8 codes hc v)
execute-Keeps missing Decode.dec_mem ea e h =
    change_mem-Keeps _ ea (λ v _ codes hc. Range.decf8-IsOut8 codes hc v)
execute-Keeps missing (Decode.dec_reg r) ea e h =
    change_reg-Keeps r e _ (λ v _ codes hc. Range.decf8-IsOut8 codes hc v)
execute-Keeps missing Decode.jmp ea e h = jump-Keeps ea h
execute-Keeps missing (Decode.clr_reg r) ea e h = byte_clear r e
execute-Keeps missing Decode.clr_mem ea e h =
    Keeps-seq Any _ _ (mem_wr8-Keeps ea 0 (omega arith)) (setclrccf-Keeps 4 11 (omega arith))
execute-Keeps missing Decode.nop ea e h = Keeps-pure Any tt tt
execute-Keeps missing (Decode.shift_reg mode rot r) ea e h =
    change_reg-Keeps r e _ (λ v hv codes hc. Range.shiftf8-IsOut8 v mode rot codes hv hc)
execute-Keeps missing (Decode.shift_mem mode) ea e h =
    change_mem-Keeps _ ea (λ v hv codes hc. Range.shiftf8-IsOut8 v mode false codes hv hc)
execute-Keeps missing (Decode.load8 r) ea e h = load8-Keeps r e ea
execute-Keeps missing (Decode.load16 r) ea e h = load16-Keeps r ea e
execute-Keeps missing (Decode.add8 r) ea e h =
    into-Keeps r _ (with_byte-Keeps r e _ ea (λ a v _ _ codes hc. Range.addf8-IsOut8 codes hc a v))
execute-Keeps missing (Decode.adc8 r) ea e h =
    into-Keeps r _ (with_byte-Keeps r e _ ea (λ a v _ _ codes hc. Range.addcf8-IsOut8 codes hc a v))
execute-Keeps missing (Decode.sub8 r) ea e h =
    into-Keeps r _ (with_byte-Keeps r e _ ea (λ a v _ _ codes hc. Range.subf8-IsOut8 codes hc a v))
execute-Keeps missing (Decode.sbc8 r) ea e h =
    into-Keeps r _ (with_byte-Keeps r e _ ea (λ a v _ _ codes hc. Range.subcf8-IsOut8 codes hc a v))
execute-Keeps missing Decode.addd ea e h =
    into-Keeps reg_d _
      (with_word-Keeps reg_d _ ea (λ a v codes hc. Range.addf16-IsOut16 codes hc a v))
execute-Keeps missing Decode.subd ea e h =
    into-Keeps reg_d _
      (with_word-Keeps reg_d _ ea (λ a v codes hc. Range.subf16-IsOut16 codes hc a v))
execute-Keeps missing (Decode.cmp8 r) ea e h =
    drop_result-Keeps (Held r) _
      (with_byte-Keeps r e _ ea (λ a v _ _ codes hc. Range.subf8-IsOut8 codes hc a v))
execute-Keeps missing (Decode.cmp16 r) ea e h =
    drop_result-Keeps Word _
      (with_word-Keeps r _ ea (λ a v codes hc. Range.subf16-IsOut16 codes hc a v))
execute-Keeps missing Decode.exg ea e h = masked-Keeps _ ea (λ v. transfer-Keeps v true)
execute-Keeps missing Decode.tfr ea e h = masked-Keeps _ ea (λ v. transfer-Keeps v false)
execute-Keeps missing (Decode.lea r) ea e h = put-Keeps r ea (from_word r ea e h)
execute-Keeps missing (Decode.leaf r) ea e h =
    Keeps-seq Any _ _ (put-Keeps r ea (from_word r ea e h))
      (flags-Keeps _ (λ codes hc. Range.flags_z16-lt codes hc ea))
execute-Keeps missing Decode.mul ea e h = mul-Keeps
execute-Keeps missing Decode.pshs ea e h = masked-Keeps _ ea (λ v. pushregs-Keeps v system)
execute-Keeps missing Decode.pshu ea e h = masked-Keeps _ ea (λ v. pushregs-Keeps v user)
execute-Keeps missing Decode.puls ea e h = masked-Keeps _ ea (λ v. pullregs-Keeps v system)
execute-Keeps missing Decode.pulu ea e h = masked-Keeps _ ea (λ v. pullregs-Keeps v user)
execute-Keeps missing Decode.jsr ea e h = call-Keeps ea h
execute-Keeps missing Decode.rts ea e h = rts-Keeps
execute-Keeps missing (Decode.store8 r) ea e h = store8-Keeps r e ea
execute-Keeps missing (Decode.store16 r) ea e h = store16-Keeps r ea
execute-Keeps missing Decode.sex ea e h = sex-Keeps
execute-Keeps missing Decode.daa ea e h =
    change_reg-Keeps reg_a refl _ (λ v _ codes hc. Range.decadja-IsOut8 codes hc v)
execute-Keeps missing (Decode.branch cond) ea e h = branch-Keeps cond ea h
execute-Keeps missing Decode.rti ea e h = pullstate-Keeps
execute-Keeps missing (Decode.swi flag) ea e h = raise-Keeps flag e
execute-Keeps missing Decode.invalid ea e h = Keeps-errorexit invalid_opcode
execute-Keeps missing Decode.unsupported ea e h = Keeps-errorexit missing
