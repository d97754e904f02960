-- ===== src/Interrupt.antt =====
-- `cpu_execirq` of vm6809.c.
pub mod Laws
pub mod Types
pub mod Return
mod Tests
use c_vm.Prelude.{
  ℕ, ◌+◌, ◌*◌, ◌<◌, bit_and, Bool, true, false, not, ◌&&◌, Option, none, some, nonzero,
  if◌then◌else◌,
}
use c_vm.Flags.{cc_f, cc_i}
use c_vm.Machine.{Regs, Vm, M, pure, ◌>>=◌, ◌>>◌, reads, modify}
use c_vm.Signal.{setclrirqf, irq_rst, irq_irq, irq_firq, irq_nmi, irq_swi, irq_swi2, irq_swi3}
use c_vm.Memory.{mem_rd16}
use c_vm.Stack.{pushfast, pushstate}

-- `cpu_regs.pc = mem_rd16(vector)`
abbrev pub vector : ℕ → M (Unit {0})
vector addr = do v ← mem_rd16 addr; modify (λ r. record r { pc = v })

-- The body of each case but the first.
abbrev pub serve : ℕ → M (Unit {0}) → ℕ → M (Unit {0})
serve flag push addr = do modify (setclrirqf 0 flag); push; vector addr

abbrev pub requested : ℕ → Regs → Bool
requested flag r = nonzero (bit_and r.irq flag)

abbrev pub masked : ℕ → Regs → Bool
masked flag r = nonzero (bit_and r.cc flag)

abbrev pub reset : M (Unit {0})
reset = do modify (λ r. record r { dp = 0; irq = 0 }); vector 0xfffe

unfoldable pub cpu_execirq : M (Unit {0})
unfolding mem_rd16 setclrirqf pushstate pushfast
cpu_execirq = do
  r ← reads (λ r. r)
  if requested irq_rst r
      then reset
      else if requested irq_nmi r
      then serve irq_nmi pushstate 0xfffc
      else if requested irq_firq r && not (masked cc_f r)
      then serve irq_firq pushfast 0xfff6
      else if requested irq_irq r && not (masked cc_i r)
      then serve irq_irq pushstate 0xfff8
      else if requested irq_swi r
      then serve irq_swi pushstate 0xfffa
      else if requested irq_swi2 r
      then serve irq_swi2 pushstate 0xfff4
      else if requested irq_swi3 r
      then serve irq_swi3 pushstate 0xfff2
      else pure tt
