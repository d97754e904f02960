-- ===== src/Uart.antt =====
-- The terminal interface vmtermio.c: the six registers of the UART, which the CPU reads and
-- writes through memory, and the two transfers that `tio_exec` makes between them and the
-- terminal. `toupper` of the C library is the parameter `upper`; what `os_getchar_nowait` finds
-- in one round is an `Option`.
pub mod Mailbox
pub mod Types
mod Tests
use c_vm.Prelude.{
  ℕ, ◌≡◌, bit_and, bit_or, Bool, true, false, not, ◌&&◌, List, [], ◌∷◌, ◌++◌, Option, none, some,
  ◌==◌, nonzero, not8, u8, if◌then◌else◌,
}
use c_vm.Machine.{Regs, Uart, Vm}
use c_vm.Signal.{cpu_irq}

-- `lsr_flags`
abbrev pub rbr_full : ℕ
rbr_full = 128

abbrev pub thr_empty : ℕ
thr_empty = 64

unfoldable pub tio_read_rbr : Uart → ℕ × Uart
tio_read_rbr t = (t.rbr, record t { lsr = bit_and t.lsr (not8 rbr_full) })

unfoldable pub tio_write_thr : ℕ → Uart → Uart
tio_write_thr v t = record t { lsr = bit_and t.lsr (not8 thr_empty); thr = v }

abbrev pub tio_read_lsr : Uart → ℕ
tio_read_lsr t = t.lsr

abbrev pub tio_write_ier : ℕ → Uart → Uart
tio_write_ier v t = record t { ier = v }

abbrev pub tio_read_ier : Uart → ℕ
tio_read_ier t = t.ier

abbrev pub tio_read_iir : Uart → ℕ
tio_read_iir t = t.iir

abbrev pub tio_write_lcr : ℕ → Uart → Uart
tio_write_lcr v t = record t { lcr = v }

abbrev pub tio_read_lcr : Uart → ℕ
tio_read_lcr t = t.lcr

-- The static initial value of `regs` and `issue_irq`, and `tio_init`.
abbrev pub uart_zero : Uart
uart_zero = record { rbr = 0; thr = 0; lsr = 0; ier = 0; iir = 0; lcr = 0; wired = false }

unfoldable pub tio_init : Uart → Uart
tio_init t = record t { lsr = thr_empty; wired = true }

-- `_generate_interrupt`, with the function that `issue_irq` points to.
unfoldable pub generate_interrupt : ℕ → Vm → Vm
unfolding cpu_irq
generate_interrupt flag vm =
    if nonzero (bit_and vm.uart.ier flag)
    then record vm {
      uart = record (vm.uart) { iir = bit_or vm.uart.iir flag };
      regs = if vm.uart.wired then cpu_irq true vm.regs else vm.regs;
    }
    else vm

-- `os_putchar_nowait`
abbrev pub putchar : ℕ → Vm → Vm
putchar c vm = record vm { terminal = vm.terminal ++ (c ∷ []) }

-- `_sendc`
unfoldable pub sendc : Vm → Vm
unfolding generate_interrupt
sendc vm =
    if nonzero (bit_and vm.uart.lsr thr_empty)
    then vm
    else (let c = vm.uart.thr in
        let emptied = record vm {
          uart = record (vm.uart) { lsr = bit_or vm.uart.lsr thr_empty };
        } in
        let sent = putchar c (generate_interrupt thr_empty emptied) in
        if c == b'\r' then putchar b'\n' sent else sent)

module _ (upper : ℕ → ℕ) where
  -- `_recvc`, with the character that the terminal has ready, if any.
  unfoldable pub recvc : Option ℕ → Vm → Vm
  unfolding generate_interrupt
  recvc none vm = vm
  recvc (some c) vm =
      if nonzero (bit_and vm.uart.lsr rbr_full)
      then vm
      else generate_interrupt rbr_full (record vm {
        uart = record (vm.uart) { rbr = u8 (upper c); lsr = bit_or vm.uart.lsr rbr_full };
      })

  unfoldable pub tio_exec : Option ℕ → Vm → Vm
  unfolding recvc sendc
  tio_exec input vm = sendc (recvc input vm)
