-- ===== src/Monitor/Memory/Types.antt =====
-- The loops over memory of vmmonitor.c, and the C types.
use c_vm.Prelude.{
  ℕ, zero, suc, ◌+◌, ◌<◌, Bool, true, false, List, [], ◌∷◌, Option, none, some, u8, u16,
  if◌then◌else◌, arith,
}
use c_vm.Machine.{Vm, update}
use c_vm.Machine.Keeps.{
  IsVm, Any, Byte, Word, Post, Keeps, Keeps-pure, Keeps-bind, Keeps-seq, Keeps-print,
}
use c_vm.Text.{chars}
use c_vm.Text.Registers.{vector_text}
use c_vm.Memory.{mem_wr8}
use c_vm.Memory.Types.{mem_rd8-Keeps, mem_rd16-Keeps, mem_wr8-Keeps}
use c_vm.Monitor.Memory.{
  print_bytes, printmem, pvector, printvectors, within, written, fill, read_bytes,
}

print_bytes-Keeps : (n ii addr : ℕ) (pchars : List ℕ) → Keeps Any (print_bytes n ii addr pchars)
print_bytes-Keeps zero ii addr pchars = Keeps-pure Any pchars tt
print_bytes-Keeps (suc n) ii addr pchars =
    Keeps-bind Byte Any _ _ (mem_rd8-Keeps (u16 (addr + ii))) λ v _.
      Keeps-seq Any _ _ (Keeps-print _)
        (Keeps-seq Any _ _ (Keeps-print _) (print_bytes-Keeps n (ii + 1) addr _))

pub printmem-Keeps : (addr cnt : ℕ) → Keeps Any (printmem addr cnt)
printmem-Keeps addr cnt = Keeps-seq Any _ _ (Keeps-print _) (
    Keeps-bind Any Any _ _ (print_bytes-Keeps cnt 0 addr [])
      (λ pchars _. Keeps-seq Any _ _ (Keeps-print _) (Keeps-print _)))

pvector-Keeps : (addr : ℕ) (name : List ℕ) → Keeps Any (pvector addr name)
pvector-Keeps addr name =
    Keeps-bind Word Any _ _ (mem_rd16-Keeps addr) (λ v _. Keeps-print (vector_text name addr v))

pub printvectors-Keeps : Keeps Any printvectors
printvectors-Keeps = Keeps-seq Any _ _ (pvector-Keeps 0xfff2 (chars "swi3")) (
    Keeps-seq Any _ _ (pvector-Keeps 0xfff4 (chars "swi2")) (
      Keeps-seq Any _ _ (pvector-Keeps 0xfff6 (chars "firq")) (
        Keeps-seq Any _ _ (pvector-Keeps 0xfff8 (chars "irq")) (
          Keeps-seq Any _ _ (pvector-Keeps 0xfffa (chars "swi")) (
            Keeps-seq Any _ _ (pvector-Keeps 0xfffc (chars "nmi"))
              (pvector-Keeps 0xfffe (chars "rst")))))))

written-IsVm : (vm : Vm) (o : Option (Unit {0} × Vm)) → IsVm vm → Post Any o → IsVm (written vm o)
written-IsVm vm none h p = h
written-IsVm vm (some (v, vm')) h p = p.1

-- What holds of the state if the fill ends.
abbrev pub Filled : Option Vm → Type 0
Filled none = Unit {0}
Filled (some vm) = IsVm vm

Filled-if : (b : Bool) (o p : Option Vm) → Filled o → Filled p → Filled (if b then o else p)
Filled-if true o p ho hp = ho
Filled-if false o p ho hp = hp

pub fill-Filled : (n ii addr v : ℕ) (vm : Vm) → v < 256 → IsVm vm → Filled (fill n ii addr v vm)
unfolding fill
fill-Filled zero ii addr v vm hv h = tt
fill-Filled (suc n) ii addr v vm hv h =
    let next = written-IsVm vm (mem_wr8 ii v vm) h ((mem_wr8-Keeps ii v hv).run vm h) in
    Filled-if (within ii addr) _ _ (fill-Filled n (u16 (ii + 1)) addr v _ hv next) h

pub read_bytes_lt :
    (cs : List ℕ) (addr : ℕ) (memory : ℕ → ℕ)
    → ((i : ℕ) → memory i < 256)
    → (i : ℕ) → (read_bytes cs addr memory).0 i < 256
unfolding read_bytes
read_bytes_lt [] addr memory h i = h i
read_bytes_lt (c ∷ cs) addr memory h i =
    ground (arith, h i, read_bytes_lt cs (addr + 1) (update memory addr (u8 c)) stored i)
  where
    stored : (j : ℕ) → update memory addr (u8 c) j < 256
    stored j = ground (arith, h j)
