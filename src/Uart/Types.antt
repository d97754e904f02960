-- ===== src/Uart/Types.antt =====
-- `tio_exec` of vmtermio.c, and the C types.
use c_vm.Prelude.{
  ℕ, ◌<◌, bit_and, bit_or, Bool, true, false, Option, none, some, nonzero, u8, ◌==◌, if◌then◌else◌,
  arith,
}
use c_vm.Bits.{bit_or-lt}
use c_vm.Flags.{setclrf}
use c_vm.Machine.{Regs, Uart, Vm}
use c_vm.Machine.Keeps.{IsRegs, IsUart, IsVm}
use c_vm.Alu.Range.{setclrf-lt}
use c_vm.Signal.{setclrirqf, request, cpu_irq}
use c_vm.Uart.{rbr_full, thr_empty, generate_interrupt, putchar, sendc, recvc, tio_exec}

pub request-IsRegs :
    (flag : ℕ) (set : Bool) (r : Regs) → flag < 256 → IsRegs r → IsRegs (request flag set r)
unfolding request setclrirqf
request-IsRegs flag true r hf h =
    let fits : setclrf r.irq flag 0 < 256 = setclrf-lt r.irq flag 0 h.irq hf in omega arith
request-IsRegs flag false r hf h =
    let fits : setclrf r.irq 0 flag < 256 = setclrf-lt r.irq 0 flag h.irq (omega arith) in
    omega arith

chosen-IsVm : (b : Bool) (v w : Vm) → IsVm v → IsVm w → IsVm (if b then v else w)
chosen-IsVm true v w hv hw = hv
chosen-IsVm false v w hv hw = hw

line-IsRegs : (b : Bool) (r : Regs) → IsRegs r → IsRegs (if b then cpu_irq true r else r)
unfolding cpu_irq
line-IsRegs true r h = request-IsRegs 64 true r (omega arith) h
line-IsRegs false r h = h

identified-IsUart :
    (flag : ℕ) (t : Uart) → flag < 256 → IsUart t → IsUart (record t { iir = bit_or t.iir flag })
identified-IsUart flag t hf h =
    let fits : bit_or t.iir flag < 256 = bit_or-lt 8 t.iir flag h.iir hf in omega arith

generate_interrupt-IsVm :
    (flag : ℕ) (vm : Vm) → flag < 256 → IsVm vm → IsVm (generate_interrupt flag vm)
unfolding generate_interrupt
generate_interrupt-IsVm flag vm hf h =
    chosen-IsVm (nonzero (bit_and vm.uart.ier flag)) _ _
      (record {
        regs = line-IsRegs vm.uart.wired vm.regs h.regs;
        uart = identified-IsUart flag vm.uart hf h.uart;
        memory = h.memory;
      })
      h

putchar-IsVm : (c : ℕ) (vm : Vm) → IsVm vm → IsVm (putchar c vm)
putchar-IsVm c vm h = record { regs = h.regs; uart = h.uart; memory = h.memory }

emptied-IsUart : (t : Uart) → IsUart t → IsUart (record t { lsr = bit_or t.lsr thr_empty })
emptied-IsUart t h =
    let fits : bit_or t.lsr thr_empty < 256 = bit_or-lt 8 t.lsr thr_empty h.lsr (omega arith) in
    omega arith

filled-IsUart :
    (c : ℕ) (t : Uart) → IsUart t → IsUart (record t { rbr = u8 c; lsr = bit_or t.lsr rbr_full })
filled-IsUart c t h =
    let fits : bit_or t.lsr rbr_full < 256 = bit_or-lt 8 t.lsr rbr_full h.lsr (omega arith) in
    omega arith

sendc-IsVm : (vm : Vm) → IsVm vm → IsVm (sendc vm)
unfolding sendc
sendc-IsVm vm h =
    let emptied : Vm = record vm {
      uart = record (vm.uart) { lsr = bit_or vm.uart.lsr thr_empty };
    } in
    let sent : Vm = putchar vm.uart.thr (generate_interrupt thr_empty emptied) in
    let hs : IsVm sent = putchar-IsVm vm.uart.thr _ (
      generate_interrupt-IsVm thr_empty emptied (omega arith)
        (record { regs = h.regs; uart = emptied-IsUart vm.uart h.uart; memory = h.memory })) in
    chosen-IsVm (nonzero (bit_and vm.uart.lsr thr_empty)) vm _ h
      (chosen-IsVm (vm.uart.thr == b'\r') _ _ (putchar-IsVm b'\n' sent hs) hs)

module _ (upper : ℕ → ℕ) where
  recvc-IsVm : (input : Option ℕ) (vm : Vm) → IsVm vm → IsVm (recvc upper input vm)
  unfolding recvc
  recvc-IsVm none vm h = h
  recvc-IsVm (some c) vm h = chosen-IsVm (nonzero (bit_and vm.uart.lsr rbr_full)) vm _ h (
      generate_interrupt-IsVm rbr_full _ (omega arith) (record {
        regs = h.regs;
        uart = filled-IsUart (upper c) vm.uart h.uart;
        memory = h.memory;
      }))

  -- From a state in which every register, byte of memory and register of the UART holds a value
  -- of its C type, a round of the terminal interface leads to such a state.
  pub tio_exec-IsVm : (input : Option ℕ) (vm : Vm) → IsVm vm → IsVm (tio_exec upper input vm)
  unfolding tio_exec
  tio_exec-IsVm input vm h = sendc-IsVm (recvc upper input vm) (recvc-IsVm input vm h)
