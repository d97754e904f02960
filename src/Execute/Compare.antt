-- ===== src/Execute/Compare.antt =====
-- A comparison and a conditional branch as two steps of `cpu_execop` (vm6809.c).
use c_vm.Prelude.{
  ℕ, ◌+◌, ◌<◌, ◌≡◌, refl, ap, ◌∙◌, Bool, true, false, some, u16, if◌then◌else◌, inl, arith,
}
use c_vm.Prelude.Int.{pos, ◌+ℤ◌, signed8}
use c_vm.Machine.{Vm, M, unsupported_opcode, and_then, ◌>>◌}
use c_vm.Machine.Keeps.{IsVm}
use c_vm.Memory.Laws.{mem_rd8_ram}
use c_vm.Alu.{subf8}
use c_vm.Address.{sext816, earelative, eaimmediate}
use c_vm.Address.Offsets.{to_word, displaced8}
use c_vm.Decode.{branch, cmp8, decode}
use c_vm.Execute.{taken, jump, execute, dispatch, cpu_execop}
use c_vm.Execute.Fetch.{fetched, cpu_execop_fetch}
use c_vm.Execute.Codes.{
  Accumulator, accumulator_a, accumulator_b, compare_code, value_in, name_of, Branch, branch_code,
  holds, condition, taken-holds, decode-branch_code, eafromopc-branch_code, decode-compare_code,
  eafromopc-compare_code,
}

-- The state behind a comparison.
abbrev compared : Accumulator → Vm → Vm
compared acc vm = record vm {
  regs = record (vm.regs) {
    pc = vm.regs.pc + 2;
    cc = (subf8 (value_in acc vm.regs) (vm.memory (vm.regs.pc + 1)) vm.regs.cc).1;
  };
}

execute-compare :
    (acc : Accumulator) (vm : Vm)
    → vm.regs.pc + 2 < 0xff00
    → execute unsupported_opcode (cmp8 (name_of acc)) (vm.regs.pc + 1) (fetched 2 vm)
      ≡ some (tt, compared acc vm)
unfolding execute
execute-compare accumulator_a vm low =
    rw (mem_rd8_ram (vm.regs.pc + 1) (fetched 2 vm) (inl (omega arith))) refl
execute-compare accumulator_b vm low =
    rw (mem_rd8_ram (vm.regs.pc + 1) (fetched 2 vm) (inl (omega arith))) refl

compare_step :
    (acc : Accumulator) (vm : Vm)
    → vm.regs.pc + 2 < 0xff00
    → vm.memory vm.regs.pc ≡ compare_code acc
    → cpu_execop vm ≡ some (tt, compared acc vm)
unfolding eaimmediate
compare_step acc vm low op =
    let two : u16 (vm.regs.pc + 1 + 1) ≡ vm.regs.pc + 2 = omega arith in
    cpu_execop_fetch vm (omega arith)
    ∙ ap (λ o. dispatch (decode o) o (fetched 1 vm)) op
    ∙ ap (λ i. dispatch i (compare_code acc) (fetched 1 vm)) (decode-compare_code acc)
    ∙ ap
        (λ (ea : M ℕ).
          and_then (ea (fetched 1 vm)) (execute unsupported_opcode (cmp8 (name_of acc))))
        (eafromopc-compare_code acc)
    ∙ rw two (execute-compare acc vm low)

-- The state behind a branch, or where it leads.
abbrev branched : Bool → Vm → Vm
branched go vm =
    let behind = vm.regs.pc + 2 in
    record vm {
      regs = record (vm.regs) {
        pc = if go then to_word (pos behind +ℤ signed8 (vm.memory (vm.regs.pc + 1))) else behind;
      };
    }

branch_step :
    (b : Branch) (vm : Vm)
    → vm.regs.pc + 2 < 0xff00
    → vm.memory (vm.regs.pc + 1) < 256
    → vm.memory vm.regs.pc ≡ branch_code b
    → cpu_execop vm ≡ some (tt, branched (taken (condition b) vm.regs.cc) vm)
unfolding execute earelative
branch_step b vm low byte op =
    let two : u16 (vm.regs.pc + 1 + 1) ≡ vm.regs.pc + 2 = omega arith in
    let lead : u16 (vm.regs.pc + 2 + sext816 (vm.memory (vm.regs.pc + 1)))
        ≡ to_word (pos (vm.regs.pc + 2) +ℤ signed8 (vm.memory (vm.regs.pc + 1))) =
      displaced8 (vm.regs.pc + 2) (vm.memory (vm.regs.pc + 1)) (omega arith) byte in
    cpu_execop_fetch vm (omega arith)
    ∙ ap (λ o. dispatch (decode o) o (fetched 1 vm)) op
    ∙ ap (λ i. dispatch i (branch_code b) (fetched 1 vm)) (decode-branch_code b)
    ∙ ap
        (λ (ea : M ℕ).
          and_then (ea (fetched 1 vm)) (execute unsupported_opcode (branch (condition b))))
        (eafromopc-branch_code b)
    ∙ rw (mem_rd8_ram (vm.regs.pc + 1) (fetched 1 vm) (inl (omega arith)), two, lead)
        (decided (taken (condition b) vm.regs.cc))
  where
    decided :
        (go : Bool)
        → (if go
              then jump (to_word (pos (vm.regs.pc + 2) +ℤ signed8 (vm.memory (vm.regs.pc + 1))))
              else (λ vm. some (tt, vm)))
            (fetched 2 vm)
          ≡ some (tt, branched go vm)
    decided true = refl
    decided false = refl

value_in_lt : (acc : Accumulator) (vm : Vm) → IsVm vm → value_in acc vm.regs < 256
value_in_lt accumulator_a vm h = h.regs.a
value_in_lt accumulator_b vm h = h.regs.b

-- From a state that holds values of the C types, two steps of the CPU at CMPA or CMPB with an immediate operand and a conditional branch behind it,
-- both below the UART: the branch leads to the address behind it moved by its signed offset, modulo
-- 65536, exactly if the relation that it is named for holds between the accumulator and the operand:
-- equality, the order of unsigned bytes (BLO, BLS, BHI, BHS), or that of signed bytes (BLT, BLE,
-- BGT, BGE). Otherwise the PC is behind it. But for the PC and the condition codes nothing changes.
pub branch-compare :
    (acc : Accumulator) (b : Branch) (vm : Vm)
    → IsVm vm
    → vm.regs.pc + 4 < 0xff00
    → vm.memory vm.regs.pc ≡ compare_code acc
    → vm.memory (vm.regs.pc + 2) ≡ branch_code b
    → (let behind = vm.regs.pc + 4 in
        let to = to_word (pos behind +ℤ signed8 (vm.memory (vm.regs.pc + 3))) in
        (cc : ℕ) × ((cpu_execop >> cpu_execop) vm
          ≡ some (
            tt,
            record vm {
              regs = record (vm.regs) {
                pc =
                    if holds b (value_in acc vm.regs) (vm.memory (vm.regs.pc + 1))
                    then to
                    else behind;
                cc = cc;
              };
            },
          )))
branch-compare acc b vm fine low op op' =
    let flags = (subf8 (value_in acc vm.regs) (vm.memory (vm.regs.pc + 1)) vm.regs.cc).1 in
    let at : vm.regs.pc + 2 + 1 ≡ vm.regs.pc + 3 = omega arith in
    let behind : vm.regs.pc + 2 + 2 ≡ vm.regs.pc + 4 = omega arith in
    (
      flags,
      ap (λ o. and_then o (λ _. cpu_execop)) (compare_step acc vm (omega arith) op)
          ∙ branch_step b (compared acc vm) (omega arith) (fine.memory _) op'
          ∙ rw
              (
                at,
                behind,
                taken-holds b (value_in acc vm.regs) (vm.memory (vm.regs.pc + 1)) vm.regs.cc
                    (value_in_lt acc vm fine) (fine.memory _),
              )
              refl,
    )
