-- ===== src/Machine.antt =====
-- The global state of the program (vm6809.h, vm6809.c, vmmemory.c, vmtermio.c), and commands on it.
-- The byte registers A and B are the two halves of D: the program checks at its start that the
-- host lays the union out that way.
pub mod Keeps
pub mod Sample
use c_vm.Prelude.{
  ℕ, ◌+◌, ◌*◌, ◌/◌, ◌%◌, ◌<◌, Bool, true, false, List, ◌++◌, Option, none, some, ◌==◌, ltb,
  if◌then◌else◌, u8,
}

-- `cpu_status_code`
pub data StatusCode : Type 0 where
  ok invalid_opcode invalid_postcode invalid_logicop invalid_register program_error : StatusCode
  undefined_adressing_mode unsupported_page2_opcode unsupported_page3_opcode : StatusCode
  unsupported_opcode : StatusCode

-- `cpu_registers_6809`; `irq` and `trap` are the fields `_irq` and `_trap`.
pub record Regs : Type 0 where
  pub x : ℕ
  pub y : ℕ
  pub u : ℕ
  pub s : ℕ
  pub pc : ℕ
  pub a : ℕ
  pub b : ℕ
  pub dp : ℕ
  pub cc : ℕ
  pub irq : ℕ
  pub trap : ℕ

-- The word that the union lays over A and B.
abbrev pub d : Regs → ℕ
d r = r.a * 256 + r.b

abbrev pub put_d : ℕ → Regs → Regs
put_d v r = record r { a = v / 256; b = v % 256 }

-- `uart_registers`; `wired` says that `issue_irq` points to `_irq` and not to `_none`.
pub record Uart : Type 0 where
  pub rbr : ℕ
  pub thr : ℕ
  pub lsr : ℕ
  pub ier : ℕ
  pub iir : ℕ
  pub lcr : ℕ
  pub wired : Bool

-- `terminal` holds the characters given to `os_putchar_nowait`, oldest first, and `printed` those of
-- `printf`, `puts` and `putchar`: the first are written at once, the others wait in a buffer.
pub record Vm : Type 0 where
  pub regs : Regs
  pub status : StatusCode
  pub memory : ℕ → ℕ
  pub uart : Uart
  pub terminal : List ℕ
  pub printed : List ℕ

abbrev pub memory_size : ℕ
memory_size = 65536

-- `EYECATCHER_16`
abbrev pub eyecatcher_16 : ℕ
eyecatcher_16 = 0x5555

-- `memory[addr] = v`
abbrev pub update : (ℕ → ℕ) → ℕ → ℕ → ℕ → ℕ
update m addr v i = if addr == i then v else m i

-- `none` is undefined behaviour: an access outside `memory`, or through a null pointer.
abbrev pub M : Type 0 → Type 0
M A = Vm → Option (A × Vm)

abbrev pub pure : {A : Type 0} → A → M A
pure v vm = some (v, vm)

abbrev pub undefined : {A : Type 0} → M A
undefined vm = none

abbrev pub and_then : {A B : Type 0} → Option (A × Vm) → (A → M B) → Option (B × Vm)
and_then none f = none
and_then (some (v, vm)) f = f v vm

infixl 5 ◌>>=◌ ◌>>◌
abbrev pub ◌>>=◌ : {A B : Type 0} → M A → (A → M B) → M B
◌>>=◌ m f vm = and_then (m vm) f

abbrev pub ◌>>◌ : {B : Type 0} → M (Unit {0}) → M B → M B
m >> n = m >>= λ _. n

abbrev pub reads : {A : Type 0} → (Regs → A) → M A
reads f vm = some (f vm.regs, vm)

abbrev pub modify : (Regs → Regs) → M (Unit {0})
modify f vm = some (tt, record vm { regs = f vm.regs })

-- `printf`, given the text that it formats.
abbrev pub print : List ℕ → M (Unit {0})
print text vm = some (tt, record vm { printed = vm.printed ++ text })

-- `ERROREXIT`, but for what it prints, which tells a line of the source: it sets the status and the trap code `tc_trap`.
unfoldable pub errorexit : StatusCode → M (Unit {0})
errorexit code vm = some (tt, record vm { regs = record (vm.regs) { trap = 64 }; status = code })
