-- ===== src/Interrupt/Laws.antt =====
-- `cpu_execirq` of vm6809.c: the sources of interrupts and their order.
use c_vm.Prelude.{
  ℕ, ◌≡◌, refl, ap, Bool, true, false, not, ◌&&◌, Option, none, some, if◌then◌else◌, arith, List,
  [], ◌∷◌,
}
use c_vm.Bits.{bit_and-zero}
use c_vm.Flags.{cc_f, cc_i}
use c_vm.Machine.{Regs, Vm, M, pure}
use c_vm.Signal.{irq_rst, irq_irq, irq_firq, irq_nmi, irq_swi, irq_swi2, irq_swi3}
use c_vm.Stack.{pushfast, pushstate}
use c_vm.Interrupt.{serve, requested, masked, reset, cpu_execirq}

-- A source of interrupts: its request flag, the CC flag that masks it (0 if none does), its
-- vector, and whether all registers are pushed.
pub record Source : Type 0 where
  pub flag : ℕ
  pub mask : ℕ
  pub at : ℕ
  pub entire : Bool

abbrev pub nmi : Source
nmi = record { flag = irq_nmi; mask = 0; at = 0xfffc; entire = true }

abbrev pub firq : Source
firq = record { flag = irq_firq; mask = cc_f; at = 0xfff6; entire = false }

abbrev pub irq : Source
irq = record { flag = irq_irq; mask = cc_i; at = 0xfff8; entire = true }

abbrev pub swi : Source
swi = record { flag = irq_swi; mask = 0; at = 0xfffa; entire = true }

abbrev pub swi2 : Source
swi2 = record { flag = irq_swi2; mask = 0; at = 0xfff4; entire = true }

abbrev pub swi3 : Source
swi3 = record { flag = irq_swi3; mask = 0; at = 0xfff2; entire = true }

-- The sources but the reset, the most urgent first.
abbrev pub sources : List Source
sources = nmi ∷ firq ∷ irq ∷ swi ∷ swi2 ∷ swi3 ∷ []

abbrev pub pending : Regs → Source → Bool
pending r s = requested s.flag r && not (masked s.mask r)

-- The first source whose request is pending.
abbrev pub first_pending : Regs → List Source → Option Source
first_pending r [] = none
first_pending r (s ∷ rest) = if pending r s then some s else first_pending r rest

abbrev pub serve_source : Option Source → M (Unit {0})
serve_source none = pure tt
serve_source (some s) = serve s.flag (if s.entire then pushstate else pushfast) s.at

chosen :
    (b : Bool) (x y : Option Source)
    → (if b then serve_source x else serve_source y) ≡ serve_source (if b then x else y)
chosen true x y = refl
chosen false x y = refl

first_step :
    (r : Regs) (s : Source) (rest : List Source) (b : Bool) (m : M (Unit {0}))
    → b ≡ pending r s
    → m ≡ serve_source (first_pending r rest)
    → (if b then serve_source (some s) else m) ≡ serve_source (first_pending r (s ∷ rest))
first_step r s rest b m e h = rw (e, h) (chosen (pending r s) (some s) (first_pending r rest))

unmasked : (flag : ℕ) (r : Regs) → requested flag r ≡ requested flag r && not (masked 0 r)
unmasked flag r = ground (arith, bit_and-zero r.cc)

-- At most one request is served in a call: the reset before all others, then the first of the
-- sources that is requested and not masked; without one nothing happens.
pub cpu_execirq_lem :
    (vm : Vm)
    → cpu_execirq vm
      ≡ (if requested irq_rst vm.regs then reset else serve_source (first_pending vm.regs sources))
          vm
unfolding cpu_execirq
cpu_execirq_lem vm =
    let r = vm.regs in
    ap (λ m. (if requested irq_rst r then reset else m) vm)
      (first_step r nmi (firq ∷ irq ∷ swi ∷ swi2 ∷ swi3 ∷ []) _ _ (unmasked irq_nmi r) (
        first_step r firq (irq ∷ swi ∷ swi2 ∷ swi3 ∷ []) _ _ refl (
          first_step r irq (swi ∷ swi2 ∷ swi3 ∷ []) _ _ refl (
            first_step r swi (swi2 ∷ swi3 ∷ []) _ _ (unmasked irq_swi r) (
              first_step r swi2 (swi3 ∷ []) _ _ (unmasked irq_swi2 r)
                (first_step r swi3 [] _ _ (unmasked irq_swi3 r) refl))))))
