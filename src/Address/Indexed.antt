-- ===== src/Address/Indexed.antt =====
-- `_eaindexed` of vm6809.c: the modes whose offset is not in bytes of its own, against the integers.
use c_vm.Prelude.{
  ℕ, ◌+◌, ◌-◌, ◌%◌, ◌<◌, ◌≡◌, refl, subst, ap, ap₂, ◌∙◌, ◌&&◌, Bool, true, false, Option, none,
  some, ◌==◌, ltb, bit_and, if◌then◌else◌, arith, u16, Bool-cases, inl, inr,
}
use c_vm.Prelude.Int.{ℤ, pos, negsuc, ◌+ℤ◌}
use c_vm.Machine.{Regs, Vm, M, ok, and_then, d, pure, ◌>>=◌, ◌>>◌}
use c_vm.Machine.Keeps.{IsRegs, IsVm}
use c_vm.Memory.{mem_rd16}
use c_vm.Memory.Laws.{IsRam, mem_rd8_ram}
use c_vm.Address.{
  IndexReg, index_x, index_y, index_u, index_s, index_value, put_index, indexed_ea, indirect, is_ok,
  index_of, fetch8, eaindexed, offset, step_index,
}
use c_vm.Address.Offsets.{to_word, displaced8, displaced5, moved_up, moved_down, moved_word}
use c_vm.Address.PostByte.{
  register_of, put_register, is_indirect, indirect_lem, displacement, small_mode, large_mode,
  index_value-index_of, put_index-index_of,
}

put_same : (i : IndexReg) (r : Regs) (v : ℕ) → v ≡ index_value i r → put_index i v r ≡ r
put_same index_x r v e = rw e refl
put_same index_y r v e = rw e refl
put_same index_u r v e = rw e refl
put_same index_s r v e = rw e refl

index_lt : (i : IndexReg) (r : Regs) → IsRegs r → index_value i r < 65536
index_lt index_x r h = h.x
index_lt index_y r h = h.y
index_lt index_u r h = h.u
index_lt index_s r h = h.s

index_put : (i : IndexReg) (r : Regs) (v : ℕ) → index_value i (put_index i v r) ≡ v
index_put index_x r v = refl
index_put index_y r v = refl
index_put index_u r v = refl
index_put index_s r v = refl

-- The address and the state that the table asks for.
abbrev moved : IndexReg → Vm → ℤ → Vm
moved i vm change = record vm {
  regs = put_index i (to_word (pos (index_value i vm.regs) +ℤ change)) vm.regs;
}

abbrev placed : IndexReg → Vm → ℤ → ℤ → Option (ℕ × Vm)
placed i vm place change = some (to_word (pos (index_value i vm.regs) +ℤ place), moved i vm change)

module _ (i : IndexReg) (vm : Vm) (h : IsRegs vm.regs) where
  SameAt : M ℕ → Option (ℤ × ℤ) → Type 0
  SameAt x none = Unit {0}
  SameAt x (some (place, change)) = x vm ≡ placed i vm place change

  record Same (x : M ℕ) (o : Option (ℤ × ℤ)) : Type 0 where
    same : SameAt x o

  Same-if :
      (c : Bool) {x y : M ℕ} {o p : Option (ℤ × ℤ)}
      → Same x o
      → Same y p
      → Same (if c then x else y) (if c then o else p)
  Same-if true hx hy = hx
  Same-if false hx hy = hy

  Same-none : (x : M ℕ) → Same x none
  unfolding SameAt
  Same-none x = record { same = tt }

  Same-some :
      (x : M ℕ) (place change : ℤ) → x vm ≡ placed i vm place change → Same x (some (place, change))
  unfolding SameAt
  Same-some x place change e = record { same = e }

  base_lt : index_value i vm.regs < 65536
  base_lt = index_lt i vm.regs h

  unmoved : put_index i (to_word (pos (index_value i vm.regs) +ℤ pos 0)) vm.regs ≡ vm.regs
  unmoved = put_same i vm.regs _ (ground (arith, base_lt))

  -- A mode that does not change the register.
  Same-still :
      (x : M ℕ) (ea : ℕ) (place : ℤ)
      → x vm ≡ some (ea, vm)
      → ea ≡ to_word (pos (index_value i vm.regs) +ℤ place)
      → Same x (some (place, pos 0))
  Same-still x ea place run e = Same-some x place (pos 0) (rw (run, e, unmoved) refl)

  Same-after : (n : ℕ) → Same (do ea ← offset i 0; step_index i n; pure ea) (some (pos 0, pos n))
  Same-after n =
      Same-some _ (pos 0) (pos n)
        (rw (moved_up (index_value i vm.regs) n, moved_up (index_value i vm.regs) 0) refl)

  Same-before :
      (n : ℕ)
      → n < 65535
      → Same (do step_index i (65535 - n); offset i 0) (some (negsuc n, negsuc n))
  Same-before n hn =
      Same-some _ (negsuc n) (negsuc n)
        (rw (index_put, moved_down (index_value i vm.regs) n base_lt hn, moved_word) refl)

  -- A case of the switch.
  Same-test :
      (post : ℕ)
      → post < 256
      → ltb post 128 ≡ false
      → (k : ℕ) {x y : M ℕ} {o p : Option (ℤ × ℤ)} → Same x o
      → Same y p
      → Same (if bit_and post 0x8f == 128 + k then x else y) (if post % 16 == k then o else p)
  Same-test post hp large k {x = x} {y = y} {o = o} {p = p} hx hy =
      rw (large_mode post k hp large) (Same-if (post % 16 == k) hx hy)

  table_lem : (post : ℕ) → post < 256 → Same (indexed_ea post i) (displacement post vm.regs)
  unfolding indexed_ea
  table_lem post hp = rw (small_mode post hp) (elim (Bool-cases (ltb post 128)) [
    | inl small ↦ rw small (Same-still _ _ _ refl (displaced5 (index_value i vm.regs) post base_lt))
    | inr large ↦ rw large (
        Same-test post hp large 0 (Same-after 1) (
          Same-test post hp large 1 (Same-after 2) (
            Same-test post hp large 2 (Same-before 0 (omega arith)) (
              Same-test post hp large 3 (Same-before 1 (omega arith)) (
                Same-test post hp large 4
                  (Same-still _ _ (pos 0) refl (moved_up (index_value i vm.regs) 0))
                  (Same-test post hp large 5
                    (Same-still _ _ _ refl
                      (displaced8 (index_value i vm.regs) vm.regs.b base_lt h.b))
                    (Same-test post hp large 6
                      (Same-still _ _ _ refl
                        (displaced8 (index_value i vm.regs) vm.regs.a base_lt h.a))
                      (Same-test post hp large 8 (Same-none _) (
                        Same-test post hp large 9 (Same-none _) (
                          Same-test post hp large 11
                            (Same-still _ _ _ refl (moved_up (index_value i vm.regs) (d vm.regs)))
                            (Same-none _)))))))))))
  ])

indexed_ea_lem :
    (post : ℕ) (i : IndexReg) (vm : Vm) (place change : ℤ)
    → IsRegs vm.regs
    → post < 256
    → displacement post vm.regs ≡ some (place, change)
    → indexed_ea post i vm ≡ placed i vm place change
unfolding SameAt
indexed_ea_lem post i vm place change h hp e =
    subst (SameAt i vm h (indexed_ea post i)) e (table_lem i vm h post hp).same

-- What a post byte asks for: the address, and the state with its register changed.
abbrev pub meant : ℕ → Vm → ℤ → ℤ → Option (ℕ × Vm)
meant post vm place change = some (
  to_word (pos (register_of post vm.regs) +ℤ place),
  record vm {
    regs = put_register post (to_word (pos (register_of post vm.regs) +ℤ change)) vm.regs;
  },
)

placed-meant :
    (post : ℕ) (vm : Vm) (place change : ℤ)
    → placed (index_of post) vm place change ≡ meant post vm place change
placed-meant post vm place change =
    ap₂ (λ v r. some (to_word (pos v +ℤ place), record vm { regs = r }))
      (index_value-index_of post vm.regs)
      (put_index-index_of post (to_word (pos (index_value (index_of post) vm.regs) +ℤ change))
          vm.regs
        ∙ ap (λ v. put_register post (to_word (pos v +ℤ change)) vm.regs)
            (index_value-index_of post vm.regs))

-- The word at the address, if the mode is indirect.
abbrev pub pointed : ℕ → ℕ → M ℕ
pointed post ea vm = if is_indirect post then mem_rd16 ea vm else some (ea, vm)

no_error :
    (post ea : ℕ) (vm : Vm)
    → post < 256
    → vm.status ≡ ok
    → (if indirect post && is_ok vm.status then mem_rd16 ea vm else some (ea, vm))
      ≡ pointed post ea vm
no_error post ea vm h fine =
    rw (indirect_lem post h) (cases (is_indirect post) (is_ok vm.status) (ap is_ok fine))
  where
    cases :
        (b c : Bool)
        → c ≡ true
        → (if b && c then mem_rd16 ea vm else some (ea, vm))
          ≡ (if b then mem_rd16 ea vm else some (ea, vm))
    cases true c e = rw e refl
    cases false c e = refl

-- Where no error has come, behind the post byte of an indexed mode of the table, which does not lie
-- at a register of the UART, with values of the C types, and read as a number: the address is that of the
-- register that bits 5 and 6 name and the displacement, a signed offset of 5 bits, a signed
-- accumulator, or D, added modulo 65536. The register changes by 1 or 2 after the access, or
-- before it, and not at all in the other modes. A post byte from 128 on with bit 4 set goes on with
-- the word at that address, and no other does.
pub eaindexed_lem :
    (vm : Vm) (place change : ℤ)
    → IsVm vm
    → vm.status ≡ ok
    → IsRam vm.regs.pc
    → displacement (vm.memory vm.regs.pc) vm.regs ≡ some (place, change)
    → (let post = vm.memory vm.regs.pc in
        let vm' = record vm { regs = record (vm.regs) { pc = u16 (vm.regs.pc + 1) } } in
        eaindexed vm ≡ and_then (meant post vm' place change) (pointed post))
unfolding eaindexed fetch8
eaindexed_lem vm place change h fine ram e =
    let post = vm.memory vm.regs.pc in
    let vm' : Vm = record vm { regs = record (vm.regs) { pc = u16 (vm.regs.pc + 1) } } in
    rw
      (
        mem_rd8_ram vm.regs.pc vm' ram,
        indexed_ea_lem post (index_of post) vm' place change (behind vm.regs h.regs)
            (h.memory vm.regs.pc) e,
      )
      (no_error post _ (moved (index_of post) vm' change) (h.memory vm.regs.pc) fine)
    ∙ ap (λ o. and_then o (pointed post)) (placed-meant post vm' place change)
  where
    behind : (r : Regs) → IsRegs r → IsRegs (record r { pc = u16 (r.pc + 1) })
    behind r k = omega (arith, k)
