-- ===== src/Execute/Calls.antt =====
-- JSR, LBSR and RTS as steps of `cpu_execop` (vm6809.c).
use c_vm.Prelude.{
  ℕ, ◌+◌, ◌-◌, ◌*◌, ◌%◌, ◌≤◌, ◌<◌, ◌≡◌, refl, sym, ap, ap₂, ◌∙◌, subst, some, u16, arith, bit_or,
}
use c_vm.Bits.{bit_or-fields}
use c_vm.Machine.{
  StatusCode, unsupported_opcode, Vm, and_then, ◌>>◌, ◌>>=◌, modify, reads, pure, eyecatcher_16,
}
use c_vm.Machine.Keeps.{IsVm}
use c_vm.Memory.{mem_rd16}
use c_vm.Memory.Laws.{word_at, update16, mem_rd16_lem, mem_wr16_lem, word_at-update16}
use c_vm.Address.{fetch16, eadirect, eaextended, earelative, ea_of_mode, mode_of, eafromopc}
use c_vm.Decode.{jsr, rts, decode}
use c_vm.Execute.{jump, execute, dispatch, cpu_execop}
use c_vm.Execute.Fetch.{fetched, fetch8_lem, cpu_execop_fetch}

module _ (missing : StatusCode) (ea : ℕ) (vm : Vm) (room : 2 ≤ vm.regs.s)
    (small : vm.regs.s < 65536) where
  -- The state inside the subroutine.
  abbrev called : Vm
  called = record vm {
    regs = record (vm.regs) { s = vm.regs.s - 2; pc = ea };
    memory = update16 vm.memory (vm.regs.s - 2) vm.regs.pc;
  }

  -- `cpu_regs.s -= 2`
  lowered : u16 (vm.regs.s + 65534) ≡ vm.regs.s - 2
  lowered = omega arith

  jsr_lem : execute missing jsr ea vm ≡ some (tt, called)
  unfolding execute
  jsr_lem = rw lowered (
      ap (λ r. and_then r (λ _. jump ea))
        (mem_wr16_lem (vm.regs.s - 2) vm.regs.pc
          (record vm { regs = record (vm.regs) { s = vm.regs.s - 2 } }) (omega arith)))

wrapped : (s : ℕ) → s < 65534 → u16 (s + 2) ≡ s + 2
wrapped s h = omega arith

rts_lem :
    (missing : StatusCode) (anything v : ℕ) (vm : Vm)
    → vm.regs.s < 65534
    → vm.memory (vm.regs.s + 1) < 256
    → word_at vm.memory vm.regs.s ≡ v
    → execute missing rts anything vm
      ≡ some (tt, record vm { regs = record (vm.regs) { pc = v; s = vm.regs.s + 2 } })
unfolding execute
rts_lem missing anything v vm room byte e =
    ap (λ r. and_then r (λ w. jump w >> modify (λ r. record r { s = u16 (r.s + 2) })))
      (mem_rd16_lem vm.regs.s vm (omega arith) byte)
    ∙ ap₂ (λ w t. some (tt, record vm { regs = record (vm.regs) { pc = w; s = t } })) e
        (wrapped vm.regs.s room)

-- The calls whose operand the program fetches as a whole.
pub data CallForm : Type 0 where
  jsr_direct jsr_extended lbsr : CallForm

abbrev pub opcode : CallForm → ℕ
opcode jsr_direct = 0x9d
opcode jsr_extended = 0xbd
opcode lbsr = 0x17

-- How many bytes the instruction has, and where it leads.
abbrev pub size : CallForm → ℕ
size jsr_direct = 2
size jsr_extended = 3
size lbsr = 3

abbrev target : CallForm → Vm → ℕ
target jsr_direct vm = vm.regs.dp * 256 + vm.memory (vm.regs.pc + 1)
target jsr_extended vm = word_at vm.memory (vm.regs.pc + 1)
target lbsr vm = (vm.regs.pc + 3 + word_at vm.memory (vm.regs.pc + 1)) % 65536

decode_call : (form : CallForm) → decode (opcode form) ≡ jsr
unfolding decode
decode_call jsr_direct = refl
decode_call jsr_extended = refl
decode_call lbsr = refl

module _ (vm : Vm) (fine : IsVm vm) where
  word_fetched :
      vm.regs.pc + 3 < 0xff00
      → mem_rd16 (vm.regs.pc + 1) (fetched 1 vm)
        ≡ some (word_at vm.memory (vm.regs.pc + 1), fetched 1 vm)
  word_fetched low = mem_rd16_lem (vm.regs.pc + 1) (fetched 1 vm) (omega arith) (fine.memory _)

  call_fetched :
      (form : CallForm)
      → vm.regs.pc + 3 < 0xff00
      → and_then (eafromopc (opcode form) (fetched 1 vm)) (execute unsupported_opcode jsr)
        ≡ execute unsupported_opcode jsr (target form vm) (fetched (size form) vm)
  unfolding eafromopc mode_of ea_of_mode eadirect eaextended fetch16 earelative
  call_fetched jsr_direct low =
      let two : vm.regs.pc + 1 + 1 ≡ vm.regs.pc + 2 = omega arith in
      ap
        (λ o.
          and_then
            (and_then o (λ low. (reads (λ r. r.dp) >>= λ high. pure (bit_or (high * 256) low))))
            (execute unsupported_opcode jsr))
        (fetch8_lem (fetched 1 vm) (omega arith))
      ∙ rw (two, bit_or-fields 8 vm.regs.dp (vm.memory (vm.regs.pc + 1)) (fine.memory _)) refl
  call_fetched jsr_extended low =
      let three : u16 (vm.regs.pc + 1 + 2) ≡ vm.regs.pc + 3 = omega arith in
      rw (word_fetched low, three) refl
  call_fetched lbsr low =
      let three : u16 (vm.regs.pc + 1 + 2) ≡ vm.regs.pc + 3 = omega arith in
      rw (word_fetched low, three) refl

-- The state inside the subroutine.
abbrev pub entered : CallForm → Vm → Vm
entered form vm = record vm {
  regs = record (vm.regs) { s = vm.regs.s - 2; pc = target form vm };
  memory = update16 vm.memory (vm.regs.s - 2) (vm.regs.pc + size form);
}

call_step :
    (form : CallForm) (vm : Vm)
    → IsVm vm
    → vm.regs.pc + 3 < 0xff00
    → vm.memory vm.regs.pc ≡ opcode form
    → 2 ≤ vm.regs.s
    → cpu_execop vm ≡ some (tt, entered form vm)
call_step form vm fine low op room =
    cpu_execop_fetch vm (omega arith)
    ∙ ap (λ o. dispatch (decode o) o (fetched 1 vm)) op
    ∙ ap (λ i. dispatch i (opcode form) (fetched 1 vm)) (decode_call form)
    ∙ call_fetched vm fine form low
    ∙ jsr_lem unsupported_opcode (target form vm) (fetched (size form) vm) room fine.regs.s

rts_step :
    (v : ℕ) (vm : Vm)
    → vm.regs.pc < 0xff00
    → vm.memory vm.regs.pc ≡ 0x39
    → vm.regs.s < 65534
    → vm.memory (vm.regs.s + 1) < 256
    → word_at vm.memory vm.regs.s ≡ v
    → cpu_execop vm ≡ some (tt, record vm { regs = record (vm.regs) { pc = v; s = vm.regs.s + 2 } })
unfolding decode eafromopc mode_of ea_of_mode
rts_step v vm low op room byte e =
    cpu_execop_fetch vm low
    ∙ ap (λ o. dispatch (decode o) o (fetched 1 vm)) op
    ∙ rts_lem unsupported_opcode eyecatcher_16 v (fetched 1 vm) room byte e

-- A step of the CPU at JSR with a direct or an extended address, or at LBSR, leads to the address
-- that the operand means, with the stack pointer moved down by two. A step at an RTS anywhere below
-- the UART, from any state with that stack pointer and the same two bytes at it, then leads to
-- the instruction behind the call, restores the stack pointer, and changes nothing else. The call
-- with its operand lies below the UART, the stack pointer is two or more, and the state before it
-- holds values of the C types.
pub rts-jsr :
    (form : CallForm) (vm later : Vm)
    → IsVm vm
    → vm.regs.pc + 3 < 0xff00
    → vm.memory vm.regs.pc ≡ opcode form
    → 2 ≤ vm.regs.s
    → later.regs.pc < 0xff00
    → later.memory later.regs.pc ≡ 0x39
    → later.regs.s ≡ (entered form vm).regs.s
    → later.memory (vm.regs.s - 2) ≡ (entered form vm).memory (vm.regs.s - 2)
    → later.memory (vm.regs.s - 2 + 1) ≡ (entered form vm).memory (vm.regs.s - 2 + 1)
    → (cpu_execop vm ≡ some (tt, entered form vm))
      × (cpu_execop later
          ≡ some (
            tt,
            record later {
              regs = record (later.regs) { pc = vm.regs.pc + size form; s = vm.regs.s };
            },
          ))
rts-jsr form vm later fine low op room low' op' stack high_byte low_byte =
    let behind = vm.regs.pc + size form in
    let small : vm.regs.s < 65536 = fine.regs.s in
    let word : word_at later.memory (vm.regs.s - 2) ≡ behind =
      ap₂ (λ h l. h * 256 + l) high_byte low_byte
      ∙ word_at-update16 vm.memory (vm.regs.s - 2) behind in
    let byte : later.memory (vm.regs.s - 2 + 1) < 256 =
      subst (λ v. v < 256) (sym low_byte) (ground arith) in
    (
      call_step form vm fine low op room,
      rts_step behind later low' op' (omega arith) (rw stack byte) (rw stack word)
          ∙ ap (λ t. some (tt, record later { regs = record (later.regs) { pc = behind; s = t } }))
              (omega arith),
    )
