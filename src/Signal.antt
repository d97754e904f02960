-- ===== src/Signal.antt =====
-- The interrupt request flags (end of vm6809.c): the lines that raise and drop a request.
use c_vm.Prelude.{ℕ, Bool, if◌then◌else◌}
use c_vm.Flags.{setclrf}
use c_vm.Machine.{Regs}

-- `cpu_irqflags_6809`
abbrev pub irq_rst : ℕ
irq_rst = 128

abbrev pub irq_irq : ℕ
irq_irq = 64

abbrev pub irq_firq : ℕ
irq_firq = 32

abbrev pub irq_nmi : ℕ
irq_nmi = 16

abbrev pub irq_swi : ℕ
irq_swi = 8

abbrev pub irq_swi2 : ℕ
irq_swi2 = 4

abbrev pub irq_swi3 : ℕ
irq_swi3 = 2

-- `_setclrirqf`
unfoldable pub setclrirqf : ℕ → ℕ → Regs → Regs
setclrirqf set clr r = record r { irq = setclrf r.irq set clr }

-- `_irq` of vm6809.c: `set` raises the request, otherwise it is dropped.
unfoldable pub request : ℕ → Bool → Regs → Regs
unfolding setclrirqf
request flag set = setclrirqf (if set then flag else 0) (if set then 0 else flag)

unfoldable pub cpu_reset : Bool → Regs → Regs
unfolding request
cpu_reset = request irq_rst

unfoldable pub cpu_irq : Bool → Regs → Regs
unfolding request
cpu_irq = request irq_irq

unfoldable pub cpu_firq : Bool → Regs → Regs
unfolding request
cpu_firq = request irq_firq

unfoldable pub cpu_nmi : Bool → Regs → Regs
unfolding request
cpu_nmi = request irq_nmi
