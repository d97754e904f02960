-- ===== src/Execute/Parts.antt =====
-- The steps that the cases of `cpu_execop` share (vm6809.c), and the C types.
use c_vm.Prelude.{ℕ, ◌<◌, ◌≡◌, true, not, arith}
use c_vm.Flags.{flags_nz_v8, flags_nz_v16}
use c_vm.Machine.{Regs, M, ◌>>=◌, ◌>>◌, reads, modify}
use c_vm.Machine.Keeps.{
  IsRegs, Byte, Word, Any, Keeps, Keeps-pure, Keeps-reads, Keeps-modify, Keeps-bind, Keeps-seq,
}
use c_vm.Alu.{Out}
use c_vm.Alu.Range
use c_vm.Memory.{mem_rd8, mem_rd16, mem_wr8, mem_wr16}
use c_vm.Memory.Types.{mem_rd8-Keeps, mem_rd16-Keeps, mem_wr8-Keeps, mem_wr16-Keeps}
use c_vm.Transfer.{
  RegName, reg_d, reg_x, reg_y, reg_u, reg_s, reg_pc, reg_a, reg_b, reg_cc, reg_dp, is_byte, get,
  put,
}
use c_vm.Transfer.Types.{Held, get-Held, put-IsRegs}
use c_vm.Execute.{alu, flags, jump, with_byte, with_word, into, drop_result, change_mem, change_reg}

pub from_byte : (r : RegName) (v : ℕ) → is_byte r ≡ true → v < 256 → Held r v
from_byte reg_a v e h = h
from_byte reg_b v e h = h
from_byte reg_cc v e h = h
from_byte reg_dp v e h = h
from_byte reg_d v e h = omega arith
from_byte reg_x v e h = omega arith
from_byte reg_y v e h = omega arith
from_byte reg_u v e h = omega arith
from_byte reg_s v e h = omega arith
from_byte reg_pc v e h = omega arith

to_byte : (r : RegName) (v : ℕ) → is_byte r ≡ true → Held r v → v < 256
to_byte reg_a v e h = h
to_byte reg_b v e h = h
to_byte reg_cc v e h = h
to_byte reg_dp v e h = h
to_byte reg_d v e h = cc
to_byte reg_x v e h = cc
to_byte reg_y v e h = cc
to_byte reg_u v e h = cc
to_byte reg_s v e h = cc
to_byte reg_pc v e h = cc

pub from_word : (r : RegName) (v : ℕ) → not (is_byte r) ≡ true → v < 65536 → Held r v
from_word reg_a v e h = cc
from_word reg_b v e h = cc
from_word reg_cc v e h = cc
from_word reg_dp v e h = cc
from_word reg_d v e h = h
from_word reg_x v e h = h
from_word reg_y v e h = h
from_word reg_u v e h = h
from_word reg_s v e h = h
from_word reg_pc v e h = h

to_word : (r : RegName) (v : ℕ) → Held r v → v < 65536
to_word reg_a v h = omega arith
to_word reg_b v h = omega arith
to_word reg_cc v h = omega arith
to_word reg_dp v h = omega arith
to_word reg_d v h = h
to_word reg_x v h = h
to_word reg_y v h = h
to_word reg_u v h = h
to_word reg_s v h = h
to_word reg_pc v h = h

pub put_cc-IsRegs : (r : Regs) (v : ℕ) → IsRegs r → v < 256 → IsRegs (record r { cc = v })
put_cc-IsRegs r v h hv = omega arith

-- The result of a function of the ALU is in `P` and its codes are a byte.
abbrev pub Gives : (ℕ → Type 0) → (ℕ → Out) → Type 0
Gives P f = (codes : ℕ) → codes < 256 → P (f codes).0 × ((f codes).1 < 256)

pub alu-Keeps : (P : ℕ → Type 0) (f : ℕ → Out) → Gives P f → Keeps P (alu f)
alu-Keeps P f gives = record {
  run = λ vm h.
      let out : P (f vm.regs.cc).0 × ((f vm.regs.cc).1 < 256) = gives vm.regs.cc h.regs.cc in
      (
        out.0,
        record {
          regs = put_cc-IsRegs vm.regs (f vm.regs.cc).1 h.regs out.1;
          uart = h.uart;
          memory = h.memory;
        },
      );
}

pub flags-Keeps : (f : ℕ → ℕ) → ((codes : ℕ) → codes < 256 → f codes < 256) → Keeps Any (flags f)
flags-Keeps f keep = Keeps-modify _ (λ r h. put_cc-IsRegs r (f r.cc) h (keep r.cc h.cc))

pub drop_result-Keeps : (P : ℕ → Type 0) (m : M ℕ) → Keeps P m → Keeps Any (drop_result m)
drop_result-Keeps P m h = Keeps-bind P Any _ _ h (λ _ _. Keeps-pure Any tt tt)

pub jump-Keeps : (a : ℕ) → a < 65536 → Keeps Any (jump a)
jump-Keeps a h = Keeps-modify _ (λ r hr. omega arith)

module _ (r : RegName) where
  pub put-Keeps : (v : ℕ) → Held r v → Keeps Any (modify (put r v))
  put-Keeps v hv = Keeps-modify _ (λ regs h. put-IsRegs r v regs hv h)

  pub into-Keeps : (m : M ℕ) → Keeps (Held r) m → Keeps Any (into r m)
  into-Keeps m h = Keeps-bind (Held r) Any _ _ h put-Keeps

  get-Keeps : Keeps (Held r) (reads (get r))
  get-Keeps = Keeps-reads (Held r) _ (get-Held r)

  pub with_word-Keeps :
      (f : ℕ → ℕ → ℕ → Out) (ea : ℕ)
      → ((a v : ℕ) → Gives Word (f a v))
      → Keeps Word (with_word f r ea)
  with_word-Keeps f ea gives =
      Keeps-bind Word Word _ _ (mem_rd16-Keeps ea)
        λ v _. Keeps-bind (Held r) Word _ _ get-Keeps (λ a _. alu-Keeps Word (f a v) (gives a v))

  pub load16-Keeps :
      (ea : ℕ)
      → not (is_byte r) ≡ true
      → Keeps Any (do v ← mem_rd16 ea; modify (put r v); flags (flags_nz_v16 v))
  load16-Keeps ea e = Keeps-bind Word Any _ _ (mem_rd16-Keeps ea) λ v hv.
      Keeps-seq Any _ _ (put-Keeps v (from_word r v e hv))
        (flags-Keeps _ (λ codes hc. Range.flags_nz_v16-lt codes hc v))

  pub store16-Keeps :
      (ea : ℕ) → Keeps Any (do v ← reads (get r); mem_wr16 ea v; flags (flags_nz_v16 v))
  store16-Keeps ea = Keeps-bind (Held r) Any _ _ get-Keeps λ v hv.
      Keeps-seq Any _ _ (mem_wr16-Keeps ea v (to_word r v hv))
        (flags-Keeps _ (λ codes hc. Range.flags_nz_v16-lt codes hc v))

  module _ (e : is_byte r ≡ true) where
    pub with_byte-Keeps :
        (f : ℕ → ℕ → ℕ → Out) (ea : ℕ)
        → ((a v : ℕ) → a < 256 → v < 256 → Gives Byte (f a v))
        → Keeps (Held r) (with_byte f r ea)
    with_byte-Keeps f ea gives = Keeps-bind Byte (Held r) _ _ (mem_rd8-Keeps ea) λ v hv.
        Keeps-bind (Held r) (Held r) _ _ get-Keeps λ a ha. alu-Keeps (Held r) (f a v) λ codes hc.
          let out : ((f a v codes).0 < 256) × ((f a v codes).1 < 256) =
            gives a v (to_byte r a e ha) hv codes hc in
          (from_byte r _ e out.0, out.1)

    pub change_reg-Keeps :
        (f : ℕ → ℕ → Out) → ((v : ℕ) → v < 256 → Gives Byte (f v)) → Keeps Any (change_reg f r)
    change_reg-Keeps f gives = Keeps-bind (Held r) Any _ _ get-Keeps λ v hv.
        Keeps-bind Byte Any _ _ (alu-Keeps Byte (f v) (gives v (to_byte r v e hv)))
          λ res hr. put-Keeps res (from_byte r res e hr)

    pub load8-Keeps :
        (ea : ℕ) → Keeps Any (do v ← mem_rd8 ea; modify (put r v); flags (flags_nz_v8 v))
    load8-Keeps ea = Keeps-bind Byte Any _ _ (mem_rd8-Keeps ea) λ v hv.
        Keeps-seq Any _ _ (put-Keeps v (from_byte r v e hv))
          (flags-Keeps _ (λ codes hc. Range.flags_nz_v8-lt codes hc v))

    pub store8-Keeps :
        (ea : ℕ) → Keeps Any (do v ← reads (get r); mem_wr8 ea v; flags (flags_nz_v8 v))
    store8-Keeps ea = Keeps-bind (Held r) Any _ _ get-Keeps λ v hv.
        Keeps-seq Any _ _ (mem_wr8-Keeps ea v (to_byte r v e hv))
          (flags-Keeps _ (λ codes hc. Range.flags_nz_v8-lt codes hc v))

pub change_mem-Keeps :
    (f : ℕ → ℕ → Out) (ea : ℕ)
    → ((v : ℕ) → v < 256 → Gives Byte (f v))
    → Keeps Any (change_mem f ea)
change_mem-Keeps f ea gives =
    Keeps-bind Byte Any _ _ (mem_rd8-Keeps ea)
      λ v hv. Keeps-bind Byte Any _ _ (alu-Keeps Byte (f v) (gives v hv)) (mem_wr8-Keeps ea)
