-- ===== src/Interrupt/Types.antt =====
-- `cpu_execirq` of vm6809.c, and the C types.
use c_vm.Prelude.{ℕ, ◌<◌, not, ◌&&◌, arith}
use c_vm.Flags.{setclrf, cc_f, cc_i}
use c_vm.Machine.{Regs, M}
use c_vm.Machine.Keeps.{
  IsRegs, Word, Any, Keeps, Keeps-pure, Keeps-reads, Keeps-if, Keeps-modify, Keeps-bind, Keeps-seq,
}
use c_vm.Signal.{setclrirqf, irq_rst, irq_irq, irq_firq, irq_nmi, irq_swi, irq_swi2, irq_swi3}
use c_vm.Alu.Range.{setclrf-lt}
use c_vm.Memory.Types.{mem_rd16-Keeps}
use c_vm.Stack.{pushfast, pushstate}
use c_vm.Stack.Types.{pushfast-Keeps, pushstate-Keeps}
use c_vm.Interrupt.{vector, serve, requested, masked, reset, cpu_execirq}

vector-Keeps : (addr : ℕ) → Keeps Any (vector addr)
vector-Keeps addr =
    Keeps-bind Word Any _ _ (mem_rd16-Keeps addr) λ v hv. Keeps-modify _ (λ r h. omega arith)

pub setclrirqf-IsRegs :
    (set clr : ℕ) (r : Regs) → set < 256 → IsRegs r → IsRegs (setclrirqf set clr r)
unfolding setclrirqf
setclrirqf-IsRegs set clr r hs h =
    let fits : setclrf r.irq set clr < 256 = setclrf-lt r.irq set clr h.irq hs in omega arith

serve-Keeps :
    (flag : ℕ) (push : M (Unit {0})) (addr : ℕ) → Keeps Any push → Keeps Any (serve flag push addr)
serve-Keeps flag push addr h =
    Keeps-seq Any _ _ (Keeps-modify _ (λ r hr. setclrirqf-IsRegs 0 flag r (omega arith) hr))
      (Keeps-seq Any push (vector addr) h (vector-Keeps addr))

reset-Keeps : Keeps Any reset
reset-Keeps = Keeps-seq Any _ _ (Keeps-modify _ (λ r h. omega arith)) (vector-Keeps 0xfffe)

pub cpu_execirq-Keeps : Keeps Any cpu_execirq
unfolding cpu_execirq
cpu_execirq-Keeps = Keeps-bind IsRegs Any _ _ (Keeps-reads IsRegs _ (λ r h. h)) λ r _.
    Keeps-if Any (requested irq_rst r) _ _ reset-Keeps (
      Keeps-if Any (requested irq_nmi r) _ _ (serve-Keeps irq_nmi pushstate 0xfffc pushstate-Keeps)
        (Keeps-if Any (requested irq_firq r && not (masked cc_f r)) _ _
          (serve-Keeps irq_firq pushfast 0xfff6 pushfast-Keeps)
          (Keeps-if Any (requested irq_irq r && not (masked cc_i r)) _ _
            (serve-Keeps irq_irq pushstate 0xfff8 pushstate-Keeps)
            (Keeps-if Any (requested irq_swi r) _ _
              (serve-Keeps irq_swi pushstate 0xfffa pushstate-Keeps)
              (Keeps-if Any (requested irq_swi2 r) _ _
                (serve-Keeps irq_swi2 pushstate 0xfff4 pushstate-Keeps)
                (Keeps-if Any (requested irq_swi3 r) _ _
                  (serve-Keeps irq_swi3 pushstate 0xfff2 pushstate-Keeps)
                  (Keeps-pure Any tt tt)))))))
