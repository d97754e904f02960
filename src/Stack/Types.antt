-- ===== src/Stack/Types.antt =====
-- `_pushregs` and `_pullregs` (vm6809.c), and the C types.
use c_vm.Prelude.{ℕ, ◌+◌, ◌<◌, Bool, true, false, u16, arith, nonzero, bit_and, if◌then◌else◌}
use c_vm.Flags.{setclrf, cc_e}
use c_vm.Machine.{Regs, M, ◌>>◌, reads, modify}
use c_vm.Machine.Keeps.{
  IsRegs, Byte, Word, Any, Keeps, Keeps-pure, Keeps-reads, Keeps-modify, Keeps-bind, Keeps-seq,
}
use c_vm.Alu.Range.{setclrf-lt}
use c_vm.Memory.Types.{mem_rd8-Keeps, mem_rd16-Keeps, mem_wr8-Keeps, mem_wr16-Keeps}
use c_vm.Stack.{
  Stack, system, user, other, pointer, put_pointer, when, selects, push8, push16, pull8, pull16,
  pushregs, pullregs, setclrccf, pushfast, pushstate, pullstate, rn_entire, rn_fast, rn_pc, rn_us,
  rn_y, rn_x, rn_dp, rn_b, rn_a, rn_cc,
}

put_pointer-IsRegs :
    (st : Stack) (r : Regs) (v : ℕ) → IsRegs r → v < 65536 → IsRegs (put_pointer st v r)
put_pointer-IsRegs system r v h hv = omega arith
put_pointer-IsRegs user r v h hv = omega arith

pointer-Word : (st : Stack) (r : Regs) → IsRegs r → pointer st r < 65536
pointer-Word system r h = h.s
pointer-Word user r h = h.u

when-Keeps : (b : Bool) (m : M (Unit {0})) → Keeps Any m → Keeps Any (when b m)
when-Keeps true m h = h
when-Keeps false m h = Keeps-pure Any tt tt

pub setclrccf-Keeps : (set clr : ℕ) → set < 256 → Keeps Any (setclrccf set clr)
setclrccf-Keeps set clr hs =
    Keeps-modify _
      λ r h. let fits : setclrf r.cc set clr < 256 = setclrf-lt r.cc set clr h.cc hs in omega arith

module _ (st : Stack) where
  move-Keeps : (n : ℕ) → Keeps Any (modify (λ r. put_pointer st (u16 (pointer st r + n)) r))
  move-Keeps n =
      Keeps-modify _ (λ r h. put_pointer-IsRegs st r (u16 (pointer st r + n)) h (omega arith))

  top-Keeps : Keeps Word (reads (pointer st))
  top-Keeps = Keeps-reads Word _ (pointer-Word st)

  module _ (field : Regs → ℕ) where
    push8-Keeps : ((r : Regs) → IsRegs r → field r < 256) → Keeps Any (push8 st field)
    unfolding push8
    push8-Keeps fits = Keeps-bind Byte Any _ _ (Keeps-reads Byte field fits) λ v hv.
        Keeps-seq Any _ _ (move-Keeps 65535)
          (Keeps-bind Word Any _ _ top-Keeps (λ p _. mem_wr8-Keeps p v hv))

    push16-Keeps : ((r : Regs) → IsRegs r → field r < 65536) → Keeps Any (push16 st field)
    unfolding push16
    push16-Keeps fits = Keeps-bind Word Any _ _ (Keeps-reads Word field fits) λ v hv.
        Keeps-seq Any _ _ (move-Keeps 65534)
          (Keeps-bind Word Any _ _ top-Keeps (λ p _. mem_wr16-Keeps p v hv))

  module _ (put : ℕ → Regs → Regs) where
    pull8-Keeps :
        ((v : ℕ) (r : Regs) → v < 256 → IsRegs r → IsRegs (put v r)) → Keeps Any (pull8 st put)
    unfolding pull8
    pull8-Keeps keep = Keeps-bind Word Any _ _ top-Keeps λ p _. Keeps-seq Any _ _ (move-Keeps 1) (
        Keeps-bind Byte Any _ _ (mem_rd8-Keeps p)
          λ v hv. Keeps-modify (put v) (λ r h. keep v r hv h))

    pull16-Keeps :
        ((v : ℕ) (r : Regs) → v < 65536 → IsRegs r → IsRegs (put v r)) → Keeps Any (pull16 st put)
    unfolding pull16
    pull16-Keeps keep = Keeps-bind Word Any _ _ top-Keeps λ p _.
        Keeps-bind Word Any _ _ (mem_rd16-Keeps p)
          λ v hv. Keeps-seq Any _ _ (Keeps-modify (put v) (λ r h. keep v r hv h)) (move-Keeps 2)

then-Keeps : (b : Bool) (m n : M (Unit {0})) → Keeps Any m → Keeps Any n → Keeps Any (when b m >> n)
then-Keeps b m n hm hn = Keeps-seq Any (when b m) n (when-Keeps b m hm) hn

pub pushregs-Keeps : (mask : ℕ) (st : Stack) → Keeps Any (pushregs mask st)
unfolding pushregs
pushregs-Keeps mask st = then-Keeps (selects mask rn_pc) _ _ (push16-Keeps st _ (λ r h. h.pc)) (
    then-Keeps (selects mask rn_us) _ _ (push16-Keeps st _ (pointer-Word (other st))) (
      then-Keeps (selects mask rn_y) _ _ (push16-Keeps st _ (λ r h. h.y)) (
        then-Keeps (selects mask rn_x) _ _ (push16-Keeps st _ (λ r h. h.x)) (
          then-Keeps (selects mask rn_dp) _ _ (push8-Keeps st _ (λ r h. h.dp)) (
            then-Keeps (selects mask rn_b) _ _ (push8-Keeps st _ (λ r h. h.b)) (
              then-Keeps (selects mask rn_a) _ _ (push8-Keeps st _ (λ r h. h.a))
                (when-Keeps (selects mask rn_cc) _ (push8-Keeps st _ (λ r h. h.cc)))))))))

pub pullregs-Keeps : (mask : ℕ) (st : Stack) → Keeps Any (pullregs mask st)
unfolding pullregs
pullregs-Keeps mask st =
    then-Keeps (selects mask 0x01) _ _ (pull8-Keeps st _ (λ v r hv h. omega arith)) (
      then-Keeps (selects mask 0x02) _ _ (pull8-Keeps st _ (λ v r hv h. omega arith)) (
        then-Keeps (selects mask 0x04) _ _ (pull8-Keeps st _ (λ v r hv h. omega arith)) (
          then-Keeps (selects mask 0x08) _ _ (pull8-Keeps st _ (λ v r hv h. omega arith)) (
            then-Keeps (selects mask 0x10) _ _ (pull16-Keeps st _ (λ v r hv h. omega arith)) (
              then-Keeps (selects mask 0x20) _ _ (pull16-Keeps st _ (λ v r hv h. omega arith)) (
                then-Keeps (selects mask 0x40) _ _
                  (pull16-Keeps st _ (λ v r hv h. put_pointer-IsRegs (other st) r v h hv))
                  (when-Keeps (selects mask 0x80) _
                    (pull16-Keeps st _ (λ v r hv h. omega arith)))))))))

pub pushfast-Keeps : Keeps Any pushfast
unfolding pushfast
pushfast-Keeps =
    Keeps-seq Any _ _ (setclrccf-Keeps 0 cc_e (omega arith)) (pushregs-Keeps rn_fast system)

pub pushstate-Keeps : Keeps Any pushstate
unfolding pushstate
pushstate-Keeps =
    Keeps-seq Any _ _ (setclrccf-Keeps cc_e 0 (omega arith)) (pushregs-Keeps rn_entire system)

pub pullstate-Keeps : Keeps Any pullstate
unfolding pullstate
pullstate-Keeps =
    Keeps-bind Byte Any _ _ (Keeps-reads Byte _ (λ r h. h.cc))
      λ codes _. pullregs-Keeps (if nonzero (bit_and codes cc_e) then rn_entire else rn_fast) system
