-- ===== src/Machine/Keeps.antt =====
-- What the C types promise of a state, and rules that carry the promise through commands.
use c_vm.Prelude.{List, ℕ, ◌<◌, ◌≡◌, Option, none, some, Bool, true, false, if◌then◌else◌, arith}
use c_vm.Machine.{
  StatusCode, Regs, Uart, Vm, M, pure, undefined, and_then, ◌>>=◌, ◌>>◌, reads, modify, print,
  errorexit,
}

-- Each register holds a value of its C type.
pub record IsRegs (r : Regs) : Type 0 where
  pub x : r.x < 65536
  pub y : r.y < 65536
  pub u : r.u < 65536
  pub s : r.s < 65536
  pub pc : r.pc < 65536
  pub a : r.a < 256
  pub b : r.b < 256
  pub dp : r.dp < 256
  pub cc : r.cc < 256
  pub irq : r.irq < 256
  pub trap : r.trap < 256

pub record IsUart (t : Uart) : Type 0 where
  pub rbr : t.rbr < 256
  pub thr : t.thr < 256
  pub lsr : t.lsr < 256
  pub ier : t.ier < 256
  pub iir : t.iir < 256
  pub lcr : t.lcr < 256

pub record IsVm (vm : Vm) : Type 0 where
  pub regs : IsRegs vm.regs
  pub uart : IsUart vm.uart
  pub memory : (i : ℕ) → vm.memory i < 256

abbrev pub Byte : ℕ → Type 0
Byte v = v < 256

abbrev pub Word : ℕ → Type 0
Word v = v < 65536

abbrev pub Any : {A : Type 0} → A → Type 0
Any v = Unit {0}

-- What holds of a result and its state, where the run is defined.
abbrev pub Post : {A : Type 0} → (A → Type 0) → Option (A × Vm) → Type 0
Post P none = Unit {0}
Post P (some (v, vm)) = P v × IsVm vm

-- From a state of the C types the command leads to such a state, with a result in `P`.
pub record Keeps {A : Type 0} (P : A → Type 0) (m : M A) : Type 0 where
  pub run : (vm : Vm) → IsVm vm → Post P (m vm)

module _ {A : Type 0} (P : A → Type 0) where
  pub Keeps-pure : (v : A) → P v → Keeps P (pure v)
  Keeps-pure v p = record { run = λ vm h. (p, h) }

  pub Keeps-undefined : Keeps P undefined
  Keeps-undefined = record { run = λ vm h. tt }

  pub Keeps-reads : (f : Regs → A) → ((r : Regs) → IsRegs r → P (f r)) → Keeps P (reads f)
  Keeps-reads f keep = record { run = λ vm h. (keep vm.regs h.regs, h) }

  pub Keeps-if : (b : Bool) (m n : M A) → Keeps P m → Keeps P n → Keeps P (if b then m else n)
  Keeps-if true m n km kn = km
  Keeps-if false m n km kn = kn

-- The same for one state, as a record, so that a branch shows which run it is about.
pub record Fine {A : Type 0} (P : A → Type 0) (r : Option (A × Vm)) : Type 0 where
  pub post : Post P r

module _ {A : Type 0} {P : A → Type 0} where
  pub Fine-some : {v : A} {vm : Vm} → P v → IsVm vm → Fine P (some (v, vm))
  Fine-some p h = record { post = (p, h) }

  pub Fine-none : Fine P none
  Fine-none = record { post = tt }

  pub Fine-if :
      (b : Bool) {x y : Option (A × Vm)} → Fine P x → Fine P y → Fine P (if b then x else y)
  Fine-if true hx hy = hx
  Fine-if false hx hy = hy

pub Keeps-modify : (f : Regs → Regs) → ((r : Regs) → IsRegs r → IsRegs (f r)) → Keeps Any (modify f)
Keeps-modify f keep = record {
  run = λ vm h. (tt, record { regs = keep vm.regs h.regs; uart = h.uart; memory = h.memory });
}

pub Keeps-print : (text : List ℕ) → Keeps Any (print text)
Keeps-print text = record {
  run = λ vm h. (tt, record { regs = h.regs; uart = h.uart; memory = h.memory });
}

halted-IsRegs : (r : Regs) → IsRegs r → IsRegs (record r { trap = 64 })
halted-IsRegs r h = omega arith

pub Keeps-errorexit : (code : StatusCode) → Keeps Any (errorexit code)
unfolding errorexit
Keeps-errorexit code = record {
  run = λ vm h.
      (tt, record { regs = halted-IsRegs vm.regs h.regs; uart = h.uart; memory = h.memory });
}

module _ {A B : Type 0} (P : A → Type 0) (Q : B → Type 0) where
  Post-and_then :
      (r : Option (A × Vm)) (f : A → M B)
      → Post P r
      → ((v : A) → P v → Keeps Q (f v))
      → Post Q (and_then r f)
  Post-and_then none f h keep = tt
  Post-and_then (some (v, vm)) f h keep = (keep v h.0).run vm h.1

  pub Keeps-bind :
      (m : M A) (f : A → M B) → Keeps P m → ((v : A) → P v → Keeps Q (f v)) → Keeps Q (m >>= f)
  Keeps-bind m f km kf = record { run = λ vm h. Post-and_then (m vm) f (km.run vm h) kf }

pub Keeps-seq :
    {B : Type 0} (Q : B → Type 0) (m : M (Unit {0})) (n : M B)
    → Keeps Any m
    → Keeps Q n
    → Keeps Q (m >> n)
Keeps-seq Q m n km kn = Keeps-bind Any Q m (λ _. n) km (λ _ _. kn)

pub result_eq : {v w : Vm} → ◌≡◌ {A = Option (Unit {0} × Vm)} (some (tt, v)) (some (tt, w)) → v ≡ w
result_eq e = cc
