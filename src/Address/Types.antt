-- ===== src/Address/Types.antt =====
-- The addressing modes of vm6809.c, and the C types.
use c_vm.Prelude.{ℕ, ◌+◌, ◌*◌, ◌<◌, some, bit_and, arith, ◌==◌, ltb, u16, ◌&&◌}
use c_vm.Bits.{bit_or-lt}
use c_vm.Machine.{
  Regs, pure, ◌>>=◌, ◌>>◌, reads, d, undefined_adressing_mode, invalid_postcode, eyecatcher_16,
}
use c_vm.Machine.Keeps.{
  IsRegs, Byte, Word, Any, Fine, Fine-some, Fine-if, Keeps, Keeps-pure, Keeps-reads, Keeps-if,
  Keeps-modify, Keeps-bind, Keeps-seq, Keeps-errorexit,
}
use c_vm.Memory.{mem_rd16}
use c_vm.Memory.Types.{mem_rd8-Keeps, mem_rd16-Keeps}
use c_vm.Address.{
  sext816, advance, fetch8, fetch16, eadirect, IndexReg, index_x, index_y, index_u, index_s,
  index_of, index_value, put_index, step_index, offset, indexed_ea, indirect, is_ok, eaindexed,
  earelative, eaextended, eaimmediate, Mode, direct, indexed, extended, inherent, undefined_mode,
  relative, immediate, mode_of, ea_of_mode, eafromopc,
}

pub sext816-Word : (v : ℕ) → v < 256 → sext816 v < 65536
unfolding sext816
sext816-Word v h = ground (arith, bit_or-lt 16 0xff00 v)

pub put_pc-IsRegs : (r : Regs) (v : ℕ) → IsRegs r → v < 65536 → IsRegs (record r { pc = v })
put_pc-IsRegs r v h hv = omega arith

pub advance-Keeps : (n : ℕ) → Keeps Any (advance n)
advance-Keeps n = Keeps-modify _ (λ r h. put_pc-IsRegs r (u16 (r.pc + n)) h (omega arith))

pc-Keeps : Keeps Word (reads (λ r. r.pc))
pc-Keeps = Keeps-reads Word _ (λ r h. h.pc)

pub fetch8-Keeps : Keeps Byte fetch8
unfolding fetch8
fetch8-Keeps =
    Keeps-bind Word Byte _ _ pc-Keeps λ p hp. Keeps-seq Byte _ _ (advance-Keeps 1) (mem_rd8-Keeps p)

pub fetch16-Keeps : Keeps Word fetch16
unfolding fetch16
fetch16-Keeps = Keeps-bind Word Word _ _ pc-Keeps λ p hp.
    Keeps-bind Word Word _ _ (mem_rd16-Keeps p)
      λ v hv. Keeps-seq Word _ _ (advance-Keeps 2) (Keeps-pure Word v hv)

eadirect-Keeps : Keeps Word eadirect
unfolding eadirect
eadirect-Keeps = Keeps-bind Byte Word _ _ fetch8-Keeps λ low hl.
    Keeps-bind Byte Word _ _ (Keeps-reads Byte _ (λ r h. h.dp))
      λ high hh. Keeps-pure Word _ (bit_or-lt 16 (high * 256) low (omega arith) (omega arith))

index_value-Word : (i : IndexReg) (r : Regs) → IsRegs r → index_value i r < 65536
index_value-Word index_x r h = h.x
index_value-Word index_y r h = h.y
index_value-Word index_u r h = h.u
index_value-Word index_s r h = h.s

put_index-IsRegs :
    (i : IndexReg) (r : Regs) (v : ℕ) → IsRegs r → v < 65536 → IsRegs (put_index i v r)
put_index-IsRegs index_x r v h hv = omega arith
put_index-IsRegs index_y r v h hv = omega arith
put_index-IsRegs index_u r v h hv = omega arith
put_index-IsRegs index_s r v h hv = omega arith

module _ (i : IndexReg) where
  step_index-Keeps : (n : ℕ) → Keeps Any (step_index i n)
  step_index-Keeps n =
      Keeps-modify _ (λ r h. put_index-IsRegs i r (u16 (index_value i r + n)) h (omega arith))

  offset-Keeps : (n : ℕ) → Keeps Word (offset i n)
  offset-Keeps n = Keeps-reads Word _ (λ r h. omega arith)

  -- `,R+` and `,R++`; `,-R` and `,--R`; an accumulator as the offset.
  after-Keeps : (n : ℕ) → Keeps Word (do ea ← offset i 0; step_index i n; pure ea)
  after-Keeps n =
      Keeps-bind Word Word _ _ (offset-Keeps 0)
        λ ea h. Keeps-seq Word _ _ (step_index-Keeps n) (Keeps-pure Word ea h)

  before-Keeps : (n : ℕ) → Keeps Word (do step_index i n; offset i 0)
  before-Keeps n = Keeps-seq Word _ _ (step_index-Keeps n) (offset-Keeps 0)

  by_register-Keeps : (f : Regs → ℕ) (g : ℕ → ℕ) → Keeps Word (do v ← reads f; offset i (g v))
  by_register-Keeps f g =
      Keeps-bind Any Word _ _ (Keeps-reads Any f (λ r h. tt)) (λ v _. offset-Keeps (g v))

  short_offset-Keeps : Keeps Word (do ofs ← fetch8; offset i (sext816 ofs))
  short_offset-Keeps = Keeps-bind Byte Word _ _ fetch8-Keeps (λ ofs _. offset-Keeps (sext816 ofs))

  long_offset-Keeps :
      Keeps Word (do p ← reads (λ r. r.pc); advance 1; ofs ← mem_rd16 p; offset i ofs)
  long_offset-Keeps = Keeps-bind Word Word _ _ pc-Keeps λ p _.
      Keeps-seq Word _ _ (advance-Keeps 1)
        (Keeps-bind Word Word _ _ (mem_rd16-Keeps p) (λ ofs _. offset-Keeps ofs))

from_pc-Keeps : (n : ℕ) → Keeps Word (reads (λ r. u16 (r.pc + n)))
from_pc-Keeps n = Keeps-reads Word _ (λ r h. omega arith)

invalid_post-Keeps :
    Keeps Word (λ vm. some (eyecatcher_16, record vm { status = invalid_postcode }))
invalid_post-Keeps = record {
  run = λ vm h. (omega arith, record { regs = h.regs; uart = h.uart; memory = h.memory });
}

indexed_ea-Keeps : (post : ℕ) (i : IndexReg) → Keeps Word (indexed_ea post i)
unfolding indexed_ea
indexed_ea-Keeps post i =
    let mode : ℕ = bit_and post 0x8f in
    Keeps-if Word (ltb mode 0x20) _ _ (offset-Keeps i _) (
      Keeps-if Word (mode == 0x80) _ _ (after-Keeps i 1) (
        Keeps-if Word (mode == 0x81) _ _ (after-Keeps i 2) (
          Keeps-if Word (mode == 0x82) _ _ (before-Keeps i 65535) (
            Keeps-if Word (mode == 0x83) _ _ (before-Keeps i 65534) (
              Keeps-if Word (mode == 0x84) _ _ (offset-Keeps i 0) (
                Keeps-if Word (mode == 0x85) _ _ (by_register-Keeps i (λ r. r.b) sext816) (
                  Keeps-if Word (mode == 0x86) _ _ (by_register-Keeps i (λ r. r.a) sext816) (
                    Keeps-if Word (mode == 0x88) _ _ (short_offset-Keeps i) (
                      Keeps-if Word (mode == 0x89) _ _ (long_offset-Keeps i) (
                        Keeps-if Word (mode == 0x8b) _ _ (by_register-Keeps i d (λ v. v)) (
                          Keeps-if Word (mode == 0x8c) _ _
                            (Keeps-bind Byte Word _ _ fetch8-Keeps
                              (λ ofs _. from_pc-Keeps (sext816 ofs)))
                            (Keeps-if Word (mode == 0x8d) _ _
                              (Keeps-bind Word Word _ _ fetch16-Keeps (λ ofs _. from_pc-Keeps ofs))
                              (Keeps-if Word (mode == 0x8f) _ _ fetch16-Keeps
                                invalid_post-Keeps)))))))))))))

eaindexed-Keeps : Keeps Word eaindexed
unfolding eaindexed
eaindexed-Keeps = Keeps-bind Byte Word _ _ fetch8-Keeps λ post _.
    Keeps-bind Word Word _ _ (indexed_ea-Keeps post (index_of post)) λ ea h. record {
      run = λ vm hv. Fine.post (
          Fine-if (indirect post && is_ok vm.status)
            (record { post = (mem_rd16-Keeps ea).run vm hv }) (Fine-some h hv));
    }

earelative-Keeps : (n : ℕ) → Keeps Word (earelative n)
unfolding earelative
earelative-Keeps n = Keeps-bind Word Word _ _ pc-Keeps λ p _.
    Keeps-bind Word Word _ _
      (Keeps-if Word (ltb 1 n) _ _ (mem_rd16-Keeps p)
        (Keeps-bind Byte Word _ _ (mem_rd8-Keeps p) λ v hv. Keeps-pure Word _ (sext816-Word v hv)))
      λ ofs _. Keeps-seq Word _ _ (advance-Keeps n) (from_pc-Keeps ofs)

eaimmediate-Keeps : (n : ℕ) → Keeps Word (eaimmediate n)
unfolding eaimmediate
eaimmediate-Keeps n =
    Keeps-bind Word Word _ _ pc-Keeps
      λ ea h. Keeps-seq Word _ _ (advance-Keeps n) (Keeps-pure Word ea h)

ea_of_mode-Keeps : (mode : Mode) → Keeps Word (ea_of_mode mode)
unfolding ea_of_mode eaextended
ea_of_mode-Keeps direct = eadirect-Keeps
ea_of_mode-Keeps indexed = eaindexed-Keeps
ea_of_mode-Keeps extended = fetch16-Keeps
ea_of_mode-Keeps inherent = Keeps-pure Word _ (omega arith)
ea_of_mode-Keeps (relative n) = earelative-Keeps n
ea_of_mode-Keeps (immediate n) = eaimmediate-Keeps n
ea_of_mode-Keeps undefined_mode =
    Keeps-seq Word _ _ (Keeps-errorexit undefined_adressing_mode) (Keeps-pure Word _ (omega arith))

pub eafromopc-Keeps : (opc : ℕ) → Keeps Word (eafromopc opc)
unfolding eafromopc
eafromopc-Keeps opc = ea_of_mode-Keeps (mode_of opc)
