-- ===== src/Memory/Laws.antt =====
-- vmmemory.c: reads after writes, and the addresses of the UART.
use c_vm.Prelude.{ℕ, ◌+◌, ◌*◌, ◌/◌, ◌%◌, ◌<◌, ◌≡◌, ◌⊎◌, refl, ap, ◌∙◌, some, arith}
use c_vm.Bits.{bit_and-byte, bit_or-fields}
use c_vm.Machine.{Vm, update}
use c_vm.Memory.{mem_rd8, mem_wr8, mem_rd16, mem_wr16}

-- No register of the UART is at this address.
abbrev pub IsRam : ℕ → Type 0
IsRam addr = (addr < 0xff00) ⊎ (0xff04 < addr)

pub mem_rd8_ram : (addr : ℕ) (vm : Vm) → IsRam addr → mem_rd8 addr vm ≡ some (vm.memory addr, vm)
unfolding mem_rd8
mem_rd8_ram addr vm h = ground arith

pub mem_wr8_ram :
    (addr v : ℕ) (vm : Vm)
    → IsRam addr
    → mem_wr8 addr v vm ≡ some (tt, record vm { memory = update vm.memory addr v })
unfolding mem_wr8
mem_wr8_ram addr v vm h = ground arith

-- The word at an address, high byte first.
abbrev pub word_at : (ℕ → ℕ) → ℕ → ℕ
word_at m addr = m addr * 256 + m (addr + 1)

pub mem_rd16_lem :
    (addr : ℕ) (vm : Vm)
    → addr < 65535
    → vm.memory (addr + 1) < 256
    → mem_rd16 addr vm ≡ some (word_at vm.memory addr, vm)
unfolding mem_rd16
mem_rd16_lem addr vm h byte =
    ground (arith, bit_or-fields 8 (vm.memory addr) (vm.memory (addr + 1)))

abbrev pub update16 : (ℕ → ℕ) → ℕ → ℕ → ℕ → ℕ
update16 m addr v = update (update m addr (v / 256)) (addr + 1) (v % 256)

pub update_self : (m : ℕ → ℕ) (addr v : ℕ) → update m addr v addr ≡ v
update_self m addr v = ground arith

pub word_at-update16 : (m : ℕ → ℕ) (addr v : ℕ) → word_at (update16 m addr v) addr ≡ v
word_at-update16 m addr v = ground arith

pub mem_wr16_lem :
    (addr v : ℕ) (vm : Vm)
    → addr < 65535
    → mem_wr16 addr v vm ≡ some (tt, record vm { memory = update16 vm.memory addr v })
unfolding mem_wr16
mem_wr16_lem addr v vm h = rw (bit_and-byte v) (ground arith)

-- A word that is written is read back, anywhere but at the last address, and the byte at another
-- address `i` does not change.
pub mem_rd16-mem_wr16 :
    (addr v i : ℕ) (vm : Vm)
    → addr < 65535
    → (i < addr) ⊎ (addr + 1 < i)
    → (vm' : Vm) × (mem_wr16 addr v vm ≡ some (tt, vm'))
      × (mem_rd16 addr vm' ≡ some (v, vm'))
      × (vm'.memory i ≡ vm.memory i)
mem_rd16-mem_wr16 addr v i vm h out = (
  record vm { memory = update16 vm.memory addr v },
  mem_wr16_lem addr v vm h,
  (let vm' : Vm = record vm { memory = update16 vm.memory addr v } in
      mem_rd16_lem addr vm' h
        (rw (update_self (update vm.memory addr (v / 256)) (addr + 1) (v % 256)) (omega arith))
      ∙ ap (λ w. some (w, vm')) (word_at-update16 vm.memory addr v)),
  ground arith,
)

-- A byte that is written is read back wherever no register of the UART is, and the byte at
-- another address `i` does not change.
pub mem_rd8-mem_wr8 :
    (addr v i : ℕ) (vm : Vm)
    → IsRam addr
    → (i < addr) ⊎ (addr < i)
    → (vm' : Vm) × (mem_wr8 addr v vm ≡ some (tt, vm'))
      × (mem_rd8 addr vm' ≡ some (v, vm'))
      × (vm'.memory i ≡ vm.memory i)
mem_rd8-mem_wr8 addr v i vm h out = (
  record vm { memory = update vm.memory addr v },
  mem_wr8_ram addr v vm h,
  (let vm' : Vm = record vm { memory = update vm.memory addr v } in
      mem_rd8_ram addr vm' h ∙ ap (λ w. some (w, vm')) (update_self vm.memory addr v)),
  ground arith,
)

-- Writes to LSR and IIR are ignored. A write to LCR is read back, and also changes memory.
pub uart_writes :
    (v : ℕ) (vm : Vm)
    → (mem_wr8 0xff01 v vm ≡ some (tt, vm))
      × (mem_wr8 0xff03 v vm ≡ some (tt, vm))
      × ((vm' : Vm) × (mem_wr8 0xff04 v vm ≡ some (tt, vm'))
          × (mem_rd8 0xff04 vm' ≡ some (v, vm'))
          × (vm'.memory 0xff04 ≡ v))
unfolding mem_wr8 mem_rd8
uart_writes v vm = (
  refl,
  refl,
  (
    record vm { uart = record (vm.uart) { lcr = v }; memory = update vm.memory 0xff04 v },
    refl,
    refl,
    refl,
  ),
)
