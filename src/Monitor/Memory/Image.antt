-- ===== src/Monitor/Memory/Image.antt =====
-- `mon_read_bin` of vmmonitor.c: what a file leaves in memory.
use c_vm.Prelude.{
  ℕ, suc, ◌+◌, ◌-◌, ◌≤◌, ◌<◌, ◌≡◌, refl, ap₂, ◌⊎◌, inl, inr, Bool-cases, fun_ext, ◌&&◌, List, [],
  ◌∷◌, ltb, leb, u8, if◌then◌else◌, get_or, length, arith, min,
}
use c_vm.Machine.{update}
use c_vm.Monitor.Memory.{read_bytes}

-- The bytes of the file from the address on, as far as memory goes, over what was there.
abbrev pub image : List ℕ → ℕ → (ℕ → ℕ) → ℕ → ℕ
image content addr memory i =
    if leb addr i && ltb i (addr + length content) && ltb i 65536
    then u8 (get_or content (i - addr) 0)
    else memory i

get_or_first : (c : ℕ) (cs : List ℕ) (addr i : ℕ) → addr ≡ i → get_or (c ∷ cs) (i - addr) 0 ≡ c
get_or_first c cs addr i h = let first : i - addr ≡ 0 = omega arith in rw first refl

get_or_later :
    (c : ℕ) (cs : List ℕ) (addr i : ℕ)
    → addr < i
    → get_or (c ∷ cs) (i - addr) 0 ≡ get_or cs (i - (addr + 1)) 0
get_or_later c cs addr i h =
    let later : i - addr ≡ suc (i - (addr + 1)) = omega arith in rw later refl

image_step :
    (c : ℕ) (cs : List ℕ) (addr : ℕ) (memory : ℕ → ℕ)
    → addr < 65536
    → image cs (addr + 1) (update memory addr (u8 c)) ≡ image (c ∷ cs) addr memory
image_step c cs addr memory h =
    fun_ext (λ i. ground (arith, get_or_first c cs addr i, get_or_later c cs addr i))

image_nothing :
    (content : List ℕ) (addr : ℕ) (memory : ℕ → ℕ)
    → (length content ≡ 0) ⊎ (65536 ≤ addr)
    → memory ≡ image content addr memory
image_nothing content addr memory h = fun_ext (λ i. ground (arith, h))

both : {m m' : ℕ → ℕ} {n n' : ℕ} → m ≡ m' → n ≡ n' → ◌≡◌ {A = (ℕ → ℕ) × ℕ} (m, n) (m', n')
both e f = ap₂ (λ m n. (m, n)) e f

pub read_bytes_lem :
    (content : List ℕ) (addr : ℕ) (memory : ℕ → ℕ)
    → addr ≤ 65536
    → read_bytes content addr memory
      ≡ (image content addr memory, min (length content) (65536 - addr))
unfolding read_bytes
read_bytes_lem [] addr memory h = both (image_nothing [] addr memory (inl refl)) (omega arith)
read_bytes_lem (c ∷ cs) addr memory h = elim (Bool-cases (ltb addr 65536)) [
  | inl e ↦
      rw (e, read_bytes_lem cs (addr + 1) (update memory addr (u8 c)) (ground (arith, e)))
        (both (image_step c cs addr memory (ground (arith, e))) (ground (arith, e)))
  | inr e ↦
      rw e (both (image_nothing (c ∷ cs) addr memory (inr (ground (arith, e)))) (ground (arith, e)))
]
