-- ===== src/Monitor/Memory.antt =====
-- The parts of vmmonitor.c that go through memory in a loop: the dump, the vector table, the fill
-- of `m=`, and the bytes of a file.
pub mod Fill
pub mod Image
pub mod Types
mod Tests
use c_vm.Prelude.{
  ℕ, zero, suc, ◌+◌, ◌-◌, ◌%◌, ◌^◌, ◌++◌, ◌==◌, nonzero, Bool, true, false, ◌&&◌, List, [], ◌∷◌,
  Option, none, some, ltb, leb, u8, u16, if◌then◌else◌,
}
use c_vm.Machine.{Vm, M, pure, print, ◌>>=◌, ◌>>◌, memory_size, update}
use c_vm.Text.{chars}
use c_vm.Text.Registers.{vector_text}
use c_vm.Text.Dump.{dump_header, line_start, dump_cell, graphic, filling, dump_end}
use c_vm.Memory.{mem_rd8, mem_rd16, mem_wr8}

-- The loop of `mon_printmem` from its index `ii` on, with `n` bytes to go; it returns `pchars`.
abbrev pub print_bytes : ℕ → ℕ → ℕ → List ℕ → M (List ℕ)
print_bytes zero ii addr pchars = pure pchars
print_bytes (suc n) ii addr pchars = do
  byte ← mem_rd8 (u16 (addr + ii))
  print (if ii % 16 == 0 then line_start addr ii pchars else [])
  print (dump_cell ii byte)
  print_bytes n (ii + 1) addr ((if ii % 16 == 0 then [] else pchars) ++ graphic byte ∷ [])

abbrev pub printmem : ℕ → ℕ → M (Unit {0})
printmem addr cnt = do
  print dump_header
  pchars ← print_bytes cnt 0 addr []
  print (if nonzero (cnt % 16) then filling (16 - cnt % 16) (cnt % 16) else [])
  print (dump_end pchars)

-- `_pvector` and `mon_printvectors`
abbrev pub pvector : ℕ → List ℕ → M (Unit {0})
pvector addr name = do v ← mem_rd16 addr; print (vector_text name addr v)

abbrev pub printvectors : M (Unit {0})
printvectors = do
  pvector 0xfff2 (chars "swi3")
  pvector 0xfff4 (chars "swi2")
  pvector 0xfff6 (chars "firq")
  pvector 0xfff8 (chars "irq")
  pvector 0xfffa (chars "swi")
  pvector 0xfffc (chars "nmi")
  pvector 0xfffe (chars "rst")

-- `addr` is a 32-bit word that stands for an `int`, `ii` is a `uint16_t`.
abbrev pub within : ℕ → ℕ → Bool
within ii addr = ltb addr (2 ^ 31) && leb ii addr

-- The state after `mem_wr8`, which always has one.
abbrev pub written : Vm → Option (Unit {0} × Vm) → Vm
written vm none = vm
written vm (some (v, vm')) = vm'

-- The loop of `m=`. Without fuel there is no result.
unfoldable pub fill : ℕ → ℕ → ℕ → ℕ → Vm → Option Vm
unfolding mem_wr8
fill zero ii addr v vm = none
fill (suc n) ii addr v vm =
    let rest = fill n (u16 (ii + 1)) addr v (written vm (mem_wr8 ii v vm)) in
    if within ii addr then rest else some vm

-- The loop of `mon_read_bin` over the characters of the file: the memory, and `nret`.
unfoldable pub read_bytes : List ℕ → ℕ → (ℕ → ℕ) → (ℕ → ℕ) × ℕ
read_bytes [] addr memory = (memory, 0)
read_bytes (c ∷ cs) addr memory =
    let (memory', n) = read_bytes cs (addr + 1) (update memory addr (u8 c)) in
    if ltb addr memory_size then (memory', suc n) else (memory, 0)
