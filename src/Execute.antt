-- ===== src/Execute.antt =====
-- What the cases of `cpu_execop`, `_execop_page2` and `_execop_page3` do (vm6809.c).
pub mod Fetch
pub mod Calls
pub mod Codes
pub mod Compare
pub mod Parts
pub mod Types
pub mod Step
pub mod Branches
mod Tests
use c_vm.Prelude.{
  ℕ, ◌+◌, ◌*◌, ◌/◌, ◌%◌, ◌<◌, bit_and, bit_or, Bool, true, false, not, ◌&&◌, ◌||◌, Option, none,
  some, ◌==◌, nonzero, u8, u16, if◌then◌else◌,
}
use c_vm.Flags.{
  setclrf, sameccf, orccf, flags_nz_v8, flags_nz_v16, flags_z16, cc_n, cc_z, cc_v, cc_c,
}
use c_vm.Machine.{
  StatusCode, invalid_opcode, unsupported_opcode, unsupported_page2_opcode,
  unsupported_page3_opcode, Regs, Vm, M, d, put_d, pure, ◌>>=◌, ◌>>◌, reads, modify, errorexit,
  eyecatcher_16,
}
use c_vm.Memory.{mem_rd8, mem_rd16, mem_wr8, mem_wr16}
use c_vm.Alu.{
  Out, addf8, addcf8, addf16, subf8, subcf8, subf16, mulf8, incf8, decf8, LogicOp, lo_and, lo_com,
  logicf8, ShiftMode, shiftf8, decadja,
}
use c_vm.Stack.{Stack, system, user, pushregs, pullregs, pullstate, setclrccf}
use c_vm.Address.{sext816, fetch8, eafromopc}
use c_vm.Transfer.{RegName, reg_a, reg_d, get, put, transfer}
use c_vm.Decode.{
  Cond, if_cc, if_cs, if_eq, if_ge, if_gt, if_hi, if_le, if_ls, if_lt, if_mi, if_ne, if_pl, if_vc,
  if_vs, always, never, Instr, page2, page3, neg_mem, com_mem, inc_mem, dec_mem, clr_mem, neg_reg,
  com_reg, inc_reg, dec_reg, clr_reg, test_reg, logic_reg, abx, tst, jmp, nop, mul, rts, sex, daa,
  rti, jsr, exg, tfr, shift_reg, shift_mem, load8, load16, store8, store16, add8, adc8, sub8, sbc8,
  cmp8, cmp16, addd, subd, lea, leaf, pshs, pshu, puls, pulu, branch, swi, invalid, unsupported,
  decode, decode_page2, decode_page3,
}

-- A function that computes a value and flags, on the flags of the CPU.
abbrev pub alu : (ℕ → Out) → M ℕ
alu f vm =
    let (res, cc) = f vm.regs.cc in some (res, record vm { regs = record (vm.regs) { cc = cc } })

-- A function of the flags alone.
abbrev pub flags : (ℕ → ℕ) → M (Unit {0})
flags f = modify (λ r. record r { cc = f r.cc })

-- The test of each branch.
unfoldable pub taken : Cond → ℕ → Bool
unfolding sameccf orccf
taken if_cc cc = not (nonzero (bit_and cc cc_c))
taken if_cs cc = nonzero (bit_and cc cc_c)
taken if_eq cc = nonzero (bit_and cc cc_z)
taken if_ge cc = sameccf 0x0a cc
taken if_gt cc = sameccf 0x0a cc && not (nonzero (bit_and cc cc_z))
taken if_hi cc = not (nonzero (orccf 0x05 cc))
taken if_le cc = not (sameccf 0x0a cc) || nonzero (bit_and cc cc_z)
taken if_ls cc = nonzero (orccf 0x05 cc)
taken if_lt cc = not (sameccf 0x0a cc)
taken if_mi cc = nonzero (bit_and cc cc_n)
taken if_ne cc = not (nonzero (bit_and cc cc_z))
taken if_pl cc = not (nonzero (bit_and cc cc_n))
taken if_vc cc = not (nonzero (bit_and cc cc_v))
taken if_vs cc = nonzero (bit_and cc cc_v)
taken always cc = true
taken never cc = false

-- `_jump`
abbrev pub jump : ℕ → M (Unit {0})
jump a = modify (λ r. record r { pc = a })

-- A byte or word of memory combined with a register, and the result stored in the register or
-- dropped.
abbrev pub with_byte : (ℕ → ℕ → ℕ → Out) → RegName → ℕ → M ℕ
with_byte f name ea = do v ← mem_rd8 ea; a ← reads (get name); alu (f a v)

abbrev pub with_word : (ℕ → ℕ → ℕ → Out) → RegName → ℕ → M ℕ
with_word f name ea = do v ← mem_rd16 ea; a ← reads (get name); alu (f a v)

abbrev pub into : RegName → M ℕ → M (Unit {0})
into name m = do v ← m; modify (put name v)

abbrev pub drop_result : M ℕ → M (Unit {0})
drop_result m = do v ← m; pure tt

-- A byte of memory, or a register, replaced by a function of it.
abbrev pub change_mem : (ℕ → ℕ → Out) → ℕ → M (Unit {0})
change_mem f ea = do v ← mem_rd8 ea; res ← alu (f v); mem_wr8 ea res

abbrev pub change_reg : (ℕ → ℕ → Out) → RegName → M (Unit {0})
change_reg f name = do v ← reads (get name); res ← alu (f v); modify (put name res)

-- `op_jsr_*`, `op_bsr_r` and `op_lbsr_r`
abbrev pub call : ℕ → M (Unit {0})
call ea = do
  modify (λ r. record r { s = u16 (r.s + 65534) })
  s ← reads (λ r. r.s)
  pc ← reads (λ r. r.pc)
  mem_wr16 s pc
  jump ea

-- The body of each case, given the effective address. `page2` and `page3` are `cpu_execop`'s.
unfoldable pub execute : StatusCode → Instr → ℕ → M (Unit {0})
unfolding mem_rd8 mem_rd16 mem_wr8 mem_wr16 pushregs pullregs pullstate transfer errorexit
execute missing page2 ea = pure tt
execute missing page3 ea = pure tt
execute missing neg_mem ea = change_mem (subf8 0) ea
execute missing (neg_reg r) ea = change_reg (subf8 0) r
execute missing com_mem ea = change_mem (λ v. logicf8 v 0 lo_com) ea
execute missing (com_reg r) ea = change_reg (λ v. logicf8 v 0 lo_com) r
execute missing (test_reg r) ea = drop_result (with_byte (λ a v. logicf8 a v lo_and) r ea)
execute missing abx ea = modify (λ r. record r { x = u16 (r.x + r.a) })
execute missing (logic_reg op r) ea = into r (with_byte (λ a v. logicf8 a v op) r ea)
execute missing tst ea = pure tt
execute missing inc_mem ea = change_mem incf8 ea
execute missing (inc_reg r) ea = change_reg incf8 r
execute missing dec_mem ea = change_mem decf8 ea
execute missing (dec_reg r) ea = change_reg decf8 r
execute missing jmp ea = jump ea
execute missing (clr_reg r) ea = do modify (put r 0); setclrccf 4 11
execute missing clr_mem ea = do mem_wr8 ea 0; setclrccf 4 11
execute missing nop ea = pure tt
execute missing (shift_reg mode rot r) ea = change_reg (λ v. shiftf8 v mode rot) r
execute missing (shift_mem mode) ea = change_mem (λ v. shiftf8 v mode false) ea
execute missing (load8 r) ea = do v ← mem_rd8 ea; modify (put r v); flags (flags_nz_v8 v)
execute missing (load16 r) ea = do v ← mem_rd16 ea; modify (put r v); flags (flags_nz_v16 v)
execute missing (add8 r) ea = into r (with_byte addf8 r ea)
execute missing (adc8 r) ea = into r (with_byte addcf8 r ea)
execute missing (sub8 r) ea = into r (with_byte subf8 r ea)
execute missing (sbc8 r) ea = into r (with_byte subcf8 r ea)
execute missing addd ea = into reg_d (with_word addf16 reg_d ea)
execute missing subd ea = into reg_d (with_word subf16 reg_d ea)
execute missing (cmp8 r) ea = drop_result (with_byte subf8 r ea)
execute missing (cmp16 r) ea = drop_result (with_word subf16 r ea)
execute missing exg ea = do post ← mem_rd8 ea; transfer post true
execute missing tfr ea = do post ← mem_rd8 ea; transfer post false
execute missing (lea r) ea = modify (put r ea)
execute missing (leaf r) ea = do modify (put r ea); flags (flags_z16 ea)
execute missing mul ea = do a ← reads (λ r. r.a); b ← reads (λ r. r.b); into reg_d (alu (mulf8 a b))
execute missing pshs ea = do mask ← mem_rd8 ea; pushregs mask system
execute missing pshu ea = do mask ← mem_rd8 ea; pushregs mask user
execute missing puls ea = do mask ← mem_rd8 ea; pullregs mask system
execute missing pulu ea = do mask ← mem_rd8 ea; pullregs mask user
execute missing jsr ea = call ea
execute missing rts ea = do
  s ← reads (λ r. r.s)
  v ← mem_rd16 s
  jump v
  modify (λ r. record r { s = u16 (r.s + 2) })
execute missing (store8 r) ea = do v ← reads (get r); mem_wr8 ea v; flags (flags_nz_v8 v)
execute missing (store16 r) ea = do v ← reads (get r); mem_wr16 ea v; flags (flags_nz_v16 v)
execute missing sex ea = do
  a ← reads (λ r. r.a)
  modify (put_d (sext816 a))
  flags (flags_nz_v16 (sext816 a))
execute missing daa ea = change_reg decadja reg_a
execute missing (branch cond) ea = do
  cc ← reads (λ r. r.cc)
  if taken cond cc then jump ea else pure tt
execute missing rti ea = pullstate
execute missing (swi flag) ea = modify (λ r. record r { irq = bit_or r.irq flag })
execute missing invalid ea = errorexit invalid_opcode
execute missing unsupported ea = errorexit missing

-- `_execop_page2` and `_execop_page3`
unfoldable pub execop_page2 : M (Unit {0})
unfolding fetch8 eafromopc execute decode_page2
execop_page2 = do
  opc ← fetch8
  ea ← eafromopc opc
  execute unsupported_page2_opcode (decode_page2 opc) ea

unfoldable pub execop_page3 : M (Unit {0})
unfolding fetch8 eafromopc execute decode_page3
execop_page3 = do
  opc ← fetch8
  ea ← eafromopc opc
  execute unsupported_page3_opcode (decode_page3 opc) ea

-- The two prefixes lead to their pages; any other opcode has its address computed first.
abbrev pub dispatch : Instr → ℕ → M (Unit {0})
dispatch page2 opc = execop_page2
dispatch page3 opc = execop_page3
dispatch instr opc = do ea ← eafromopc opc; execute unsupported_opcode instr ea

unfoldable pub cpu_execop : M (Unit {0})
unfolding fetch8 decode
cpu_execop = do opc ← fetch8; dispatch (decode opc) opc
