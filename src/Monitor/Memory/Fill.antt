-- ===== src/Monitor/Memory/Fill.antt =====
-- The fill of `m=` (vmmonitor.c): when its loop ends, and what it leaves in memory.
use c_vm.Prelude.{
  ℕ, zero, suc, ◌+◌, ◌^◌, ◌≤◌, ◌<◌, ◌≡◌, refl, ap, ◌∙◌, fun_ext, Bool, true, false, not, ◌&&◌,
  Option, none, some, ltb, leb, u8, u16, if◌then◌else◌, arith,
}
use c_vm.Machine.{Vm, update}
use c_vm.Memory.{mem_wr8}
use c_vm.System.{System, done}
use c_vm.Monitor.Memory.{written, fill}
use c_vm.Monitor.Commands.{settle_fill, fill_memory}

abbrev pub has_ended : Option Vm → Bool
has_ended none = false
has_ended (some vm) = true

abbrev pub filled : ℕ → ℕ → ℕ → (ℕ → ℕ) → ℕ → ℕ
filled a addr v memory i = if leb a i && leb i addr then v else memory i

-- An end that the address register can pass: each step comes closer.
ends :
    (n a addr v : ℕ) (vm : Vm)
    → a < 65536
    → addr < 65535
    → addr + 2 ≤ n + a
    → 0 < n
    → has_ended (fill n a addr v vm) ≡ true
unfolding fill
ends zero a addr v vm ha h f p = absurd (omega arith)
ends (suc n) a addr v vm ha h f p =
    ground (arith, ends n (u16 (a + 1)) addr v (written vm (mem_wr8 a v vm)))

-- A negative end is below every address.
ends_negative :
    (n a addr v : ℕ) (vm : Vm) → 2 ^ 31 ≤ addr → 0 < n → has_ended (fill n a addr v vm) ≡ true
unfolding fill
ends_negative zero a addr v vm h p = absurd (omega arith)
ends_negative (suc n) a addr v vm h p = ground arith

endless :
    (n a addr v : ℕ) (vm : Vm)
    → a < 65536
    → 65535 ≤ addr
    → addr < 2 ^ 31
    → has_ended (fill n a addr v vm) ≡ false
unfolding fill
endless zero a addr v vm ha h l = refl
endless (suc n) a addr v vm ha h l =
    ground (arith, endless n (u16 (a + 1)) addr v (written vm (mem_wr8 a v vm)))

-- With fuel for 65536 rounds or more, the fill ends exactly if its last address, an `int`, is
-- negative or less than 0xffff. From 0xffff on the address wraps around and the loop never ends.
pub has_ended-fill :
    (n a addr v : ℕ) (vm : Vm)
    → a < 65536
    → 65536 ≤ n
    → has_ended (fill n a addr v vm) ≡ not (leb 65535 addr && ltb addr (2 ^ 31))
has_ended-fill n a addr v vm ha hn =
    ground (arith, ends n a addr v vm, ends_negative n a addr v vm, endless n a addr v vm)

-- Below the UART a byte is stored and nothing else.
stored :
    (a v : ℕ) (vm : Vm)
    → a < 0xff00
    → mem_wr8 a v vm ≡ some (tt, record vm { memory = update vm.memory a v })
unfolding mem_wr8
stored a v vm h = ground arith

with_memory :
    (vm : Vm) {m m' : ℕ → ℕ}
    → ((i : ℕ) → m i ≡ m' i)
    → ◌≡◌ {A = Option Vm} (some (record vm { memory = m })) (some (record vm { memory = m' }))
with_memory vm e = ap (λ m. some (record vm { memory = m })) (fun_ext e)

-- One round, given the rounds after it.
fill_step :
    (n a addr v : ℕ) (vm : Vm)
    → a ≤ addr
    → addr < 0xff00
    → (let vm' = record vm { memory = update vm.memory a v } in
        fill n (a + 1) addr v vm' ≡ some (record vm' { memory = filled (a + 1) addr v vm'.memory }))
    → fill n (u16 (a + 1)) addr v (written vm (mem_wr8 a v vm))
      ≡ some (record vm { memory = filled a addr v vm.memory })
fill_step n a addr v vm ha h rest =
    let wrapped : u16 (a + 1) ≡ a + 1 = omega arith in
    rw (stored a v vm (omega arith), wrapped) (rest ∙ with_memory vm (λ i. ground arith))

fill_none :
    (a addr v : ℕ) (vm : Vm)
    → a ≡ addr + 1
    → some vm ≡ some (record vm { memory = filled a addr v vm.memory })
fill_none a addr v vm ha = with_memory vm (λ i. ground arith)

fill_image :
    (n a addr v : ℕ) (vm : Vm)
    → a ≤ addr + 1
    → addr < 0xff00
    → addr + 2 ≤ n + a
    → fill n a addr v vm ≡ some (record vm { memory = filled a addr v vm.memory })
unfolding fill
fill_image zero a addr v vm ha h f = absurd (omega arith)
fill_image (suc n) a addr v vm ha h f =
    let rest = fill_image n (a + 1) addr v (record vm { memory = update vm.memory a v }) in
    ground (arith, fill_step n a addr v vm, fill_none a addr v vm, rest)

-- The fill from the current address to one below the UART leaves the value in the bytes between,
-- the two ends included, and everything else as it was.
pub fill_memory_lem :
    (addr v : ℕ) (s : System)
    → s.monitor.m_address ≤ addr
    → addr < 0xff00
    → fill_memory addr v s
      ≡ done tt (record s {
        vm = record (s.vm) { memory = filled s.monitor.m_address addr (u8 v) s.vm.memory };
      })
unfolding fill_memory
fill_memory_lem addr v s ha h =
    ap (settle_fill s)
      (fill_image 65536 s.monitor.m_address addr (u8 v) s.vm (omega arith) h (omega arith))
