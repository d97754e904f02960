-- ===== src/Memory.antt =====
-- vmmemory.c: the 64 K bytes of memory, with the UART registers at five of the addresses.
-- Words are read and written without regard to the UART, and at the last address they reach one
-- byte past the array.
pub mod Laws
pub mod Types
mod Tests
use c_vm.Prelude.{
  ℕ, ◌+◌, ◌*◌, ◌/◌, ◌%◌, ◌<◌, bit_and, bit_or, ◌≡◌, Option, none, some, ◌==◌, ltb, u8, u16,
  if◌then◌else◌, ◌^◌,
}
use c_vm.Machine.{Uart, Vm, M, memory_size, update}
use c_vm.Uart.{
  tio_read_rbr, tio_write_thr, tio_read_lsr, tio_write_ier, tio_read_ier, tio_read_iir,
  tio_write_lcr, tio_read_lcr,
}

-- `TIO_BASE_ADDRESS` and the registers from there.
abbrev pub tio_addr_rbr_thr : ℕ
tio_addr_rbr_thr = 0xff00

abbrev pub tio_addr_lsr : ℕ
tio_addr_lsr = 0xff01

abbrev pub tio_addr_ier : ℕ
tio_addr_ier = 0xff02

abbrev pub tio_addr_iir : ℕ
tio_addr_iir = 0xff03

abbrev pub tio_addr_lcr : ℕ
tio_addr_lcr = 0xff04

-- `mem_erase` ignores its argument; `mem_init`.
unfoldable pub mem_erase : ℕ → Vm → Vm
mem_erase v vm = record vm { memory = λ _. 0 }

unfoldable pub mem_init : Vm → Vm
unfolding mem_erase
mem_init = mem_erase 0

unfoldable pub mem_rd8 : ℕ → M ℕ
unfolding tio_read_rbr
mem_rd8 addr vm =
    if addr == tio_addr_rbr_thr
    then (let (v, t) = tio_read_rbr vm.uart in some (v, record vm { uart = t }))
    else if addr == tio_addr_lsr
    then some (tio_read_lsr vm.uart, vm)
    else if addr == tio_addr_ier
    then some (tio_read_ier vm.uart, vm)
    else if addr == tio_addr_iir
    then some (tio_read_iir vm.uart, vm)
    else if addr == tio_addr_lcr
    then some (tio_read_lcr vm.uart, vm)
    else some (vm.memory addr, vm)

-- The case of the LCR has no `break`, and writes memory too.
unfoldable pub mem_wr8 : ℕ → ℕ → M (Unit {0})
unfolding tio_write_thr
mem_wr8 addr v vm =
    if addr == tio_addr_rbr_thr
    then some (tt, record vm { uart = tio_write_thr v vm.uart })
    else if addr == tio_addr_lsr
    then some (tt, vm)
    else if addr == tio_addr_ier
    then some (tt, record vm { uart = tio_write_ier v vm.uart })
    else if addr == tio_addr_iir
    then some (tt, vm)
    else if addr == tio_addr_lcr
    then some (tt, record vm { uart = tio_write_lcr v vm.uart; memory = update vm.memory addr v })
    else some (tt, record vm { memory = update vm.memory addr v })

unfoldable pub mem_rd16 : ℕ → M ℕ
mem_rd16 addr vm =
    if ltb (addr + 1) memory_size
    then some (bit_or (vm.memory addr * 2 ^ 8) (vm.memory (addr + 1)), vm)
    else none

unfoldable pub mem_wr16 : ℕ → ℕ → M (Unit {0})
mem_wr16 addr v vm =
    if ltb (addr + 1) memory_size
    then some (
      tt,
      record vm { memory = update (update vm.memory addr (v / 2 ^ 8)) (addr + 1) (bit_and v 0xff) },
    )
    else none
