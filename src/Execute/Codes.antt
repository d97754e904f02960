-- ===== src/Execute/Codes.antt =====
-- The opcodes of a comparison and of the branches on an order (vm6809.h), and what they ask.
use c_vm.Prelude.{ℕ, ◌<◌, ◌≡◌, refl, Bool, not, ◌==◌, ltb, leb}
use c_vm.Prelude.Int.{signed8}
use c_vm.Machine.{Regs}
use c_vm.Alu.{subf8}
use c_vm.Address.{earelative, eaimmediate, mode_of, ea_of_mode, eafromopc}
use c_vm.Transfer.{RegName, reg_a, reg_b}
use c_vm.Decode.{
  Cond, if_cc, if_cs, if_eq, if_ge, if_gt, if_hi, if_le, if_ls, if_lt, if_ne, branch, cmp8, decode,
}
use c_vm.Execute.{taken}
use c_vm.Execute.Branches.{less, subf8-Compares}

-- CMPA and CMPB with an immediate operand.
pub data Accumulator : Type 0 where
  accumulator_a accumulator_b : Accumulator

abbrev pub compare_code : Accumulator → ℕ
compare_code accumulator_a = 0x81
compare_code accumulator_b = 0xc1

abbrev pub value_in : Accumulator → Regs → ℕ
value_in accumulator_a r = r.a
value_in accumulator_b r = r.b

abbrev pub name_of : Accumulator → RegName
name_of accumulator_a = reg_a
name_of accumulator_b = reg_b

-- The branches on an order, of bytes without and with a sign.
pub data Branch : Type 0 where
  beq bne blo bls bhi bhs blt ble bgt bge : Branch

abbrev pub branch_code : Branch → ℕ
branch_code beq = 0x27
branch_code bne = 0x26
branch_code blo = 0x25
branch_code bls = 0x23
branch_code bhi = 0x22
branch_code bhs = 0x24
branch_code blt = 0x2d
branch_code ble = 0x2f
branch_code bgt = 0x2e
branch_code bge = 0x2c

-- What they ask of the accumulator and the operand.
abbrev pub holds : Branch → ℕ → ℕ → Bool
holds beq a b = a == b
holds bne a b = not (a == b)
holds blo a b = ltb a b
holds bls a b = leb a b
holds bhi a b = ltb b a
holds bhs a b = leb b a
holds blt a b = less (signed8 a) (signed8 b)
holds ble a b = not (less (signed8 b) (signed8 a))
holds bgt a b = less (signed8 b) (signed8 a)
holds bge a b = not (less (signed8 a) (signed8 b))

abbrev pub condition : Branch → Cond
condition beq = if_eq
condition bne = if_ne
condition blo = if_cs
condition bls = if_ls
condition bhi = if_hi
condition bhs = if_cc
condition blt = if_lt
condition ble = if_le
condition bgt = if_gt
condition bge = if_ge

pub taken-holds :
    (b : Branch) (v w cc : ℕ)
    → v < 256
    → w < 256
    → taken (condition b) (subf8 v w cc).1 ≡ holds b v w
taken-holds beq v w cc hv hw = (subf8-Compares v w cc hv hw).equal
taken-holds bne v w cc hv hw = (subf8-Compares v w cc hv hw).not_equal
taken-holds blo v w cc hv hw = (subf8-Compares v w cc hv hw).lower
taken-holds bls v w cc hv hw = (subf8-Compares v w cc hv hw).lower_or_same
taken-holds bhi v w cc hv hw = (subf8-Compares v w cc hv hw).higher
taken-holds bhs v w cc hv hw = (subf8-Compares v w cc hv hw).higher_or_same
taken-holds blt v w cc hv hw = (subf8-Compares v w cc hv hw).less_than
taken-holds ble v w cc hv hw = (subf8-Compares v w cc hv hw).less_or_equal
taken-holds bgt v w cc hv hw = (subf8-Compares v w cc hv hw).greater_than
taken-holds bge v w cc hv hw = (subf8-Compares v w cc hv hw).greater_or_equal

pub decode-branch_code : (b : Branch) → decode (branch_code b) ≡ branch (condition b)
unfolding decode
decode-branch_code beq = refl
decode-branch_code bne = refl
decode-branch_code blo = refl
decode-branch_code bls = refl
decode-branch_code bhi = refl
decode-branch_code bhs = refl
decode-branch_code blt = refl
decode-branch_code ble = refl
decode-branch_code bgt = refl
decode-branch_code bge = refl

pub eafromopc-branch_code : (b : Branch) → eafromopc (branch_code b) ≡ earelative 1
unfolding eafromopc mode_of ea_of_mode
eafromopc-branch_code beq = refl
eafromopc-branch_code bne = refl
eafromopc-branch_code blo = refl
eafromopc-branch_code bls = refl
eafromopc-branch_code bhi = refl
eafromopc-branch_code bhs = refl
eafromopc-branch_code blt = refl
eafromopc-branch_code ble = refl
eafromopc-branch_code bgt = refl
eafromopc-branch_code bge = refl

pub decode-compare_code : (acc : Accumulator) → decode (compare_code acc) ≡ cmp8 (name_of acc)
unfolding decode
decode-compare_code accumulator_a = refl
decode-compare_code accumulator_b = refl

pub eafromopc-compare_code : (acc : Accumulator) → eafromopc (compare_code acc) ≡ eaimmediate 1
unfolding eafromopc mode_of ea_of_mode
eafromopc-compare_code accumulator_a = refl
eafromopc-compare_code accumulator_b = refl
