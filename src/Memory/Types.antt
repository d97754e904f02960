-- ===== src/Memory/Types.antt =====
-- vmmemory.c and the C types.
use c_vm.Prelude.{ℕ, ◌+◌, ◌*◌, ◌/◌, ◌^◌, ◌<◌, bit_and, arith, ◌==◌, ltb}
use c_vm.Bits.{bit_and-le, bit_or-lt, bit_and-byte}
use c_vm.Machine.{Uart, Vm, update}
use c_vm.Machine.Keeps.{IsUart, IsVm, Byte, Word, Any, Fine, Fine-some, Fine-none, Fine-if, Keeps}
use c_vm.Uart.{tio_read_rbr, tio_write_thr, tio_write_ier, tio_write_lcr}
use c_vm.Memory.{mem_rd8, mem_wr8, mem_rd16, mem_wr16}

IsVm-uart : {vm : Vm} {t : Uart} → IsVm vm → IsUart t → IsVm (record vm { uart = t })
IsVm-uart h ht = record { regs = h.regs; uart = ht; memory = h.memory }

IsVm-memory :
    {vm : Vm} (m : ℕ → ℕ) → IsVm vm → ((i : ℕ) → m i < 256) → IsVm (record vm { memory = m })
IsVm-memory m h hm = record { regs = h.regs; uart = h.uart; memory = hm }

update-lt :
    (m : ℕ → ℕ) (addr v : ℕ) → ((i : ℕ) → m i < 256) → v < 256 → (i : ℕ) → update m addr v i < 256
update-lt m addr v hm hv i = ground (arith, hm i)

tio_read_rbr-IsUart : (t : Uart) → IsUart t → IsUart (tio_read_rbr t).1
unfolding tio_read_rbr
tio_read_rbr-IsUart t h = ground (arith, bit_and-le 8 t.lsr 0x7f)

tio_write_thr-IsUart : (v : ℕ) (t : Uart) → IsUart t → v < 256 → IsUart (tio_write_thr v t)
unfolding tio_write_thr
tio_write_thr-IsUart v t h hv = ground (arith, bit_and-le 8 t.lsr 0xbf)

tio_write_ier-IsUart : (v : ℕ) (t : Uart) → IsUart t → v < 256 → IsUart (tio_write_ier v t)
tio_write_ier-IsUart v t h hv = omega arith

tio_write_lcr-IsUart : (v : ℕ) (t : Uart) → IsUart t → v < 256 → IsUart (tio_write_lcr v t)
tio_write_lcr-IsUart v t h hv = omega arith

tio_read_rbr-Byte : (t : Uart) → IsUart t → (tio_read_rbr t).0 < 256
unfolding tio_read_rbr
tio_read_rbr-Byte t h = h.rbr

pub mem_rd8-Keeps : (addr : ℕ) → Keeps Byte (mem_rd8 addr)
unfolding mem_rd8
mem_rd8-Keeps addr = record {
  run = λ vm h. Fine.post (
      Fine-if (addr == 0xff00)
        (Fine-some (tio_read_rbr-Byte vm.uart h.uart)
          (IsVm-uart h (tio_read_rbr-IsUart vm.uart h.uart)))
        (Fine-if (addr == 0xff01) (Fine-some h.uart.lsr h) (
          Fine-if (addr == 0xff02) (Fine-some h.uart.ier h) (
            Fine-if (addr == 0xff03) (Fine-some h.uart.iir h)
              (Fine-if (addr == 0xff04) (Fine-some h.uart.lcr h) (Fine-some (h.memory addr) h))))));
}

pub mem_wr8-Keeps : (addr v : ℕ) → v < 256 → Keeps Any (mem_wr8 addr v)
unfolding mem_wr8
mem_wr8-Keeps addr v hv = record {
  run = λ vm h.
      let filled : (i : ℕ) → update vm.memory addr v i < 256 =
        update-lt vm.memory addr v h.memory hv in
      Fine.post (
        Fine-if (addr == 0xff00)
          (Fine-some tt (IsVm-uart h (tio_write_thr-IsUart v vm.uart h.uart hv)))
          (Fine-if (addr == 0xff01) (Fine-some tt h) (
            Fine-if (addr == 0xff02)
              (Fine-some tt (IsVm-uart h (tio_write_ier-IsUart v vm.uart h.uart hv)))
              (Fine-if (addr == 0xff03) (Fine-some tt h) (
                Fine-if (addr == 0xff04)
                  (Fine-some tt (
                    IsVm-memory (update vm.memory addr v)
                      (IsVm-uart h (tio_write_lcr-IsUart v vm.uart h.uart hv)) filled))
                  (Fine-some tt (IsVm-memory (update vm.memory addr v) h filled)))))));
}

pub mem_rd16-Keeps : (addr : ℕ) → Keeps Word (mem_rd16 addr)
unfolding mem_rd16
mem_rd16-Keeps addr = record {
  run = λ vm h. Fine.post (
      Fine-if (ltb (addr + 1) 65536)
        (Fine-some
          (bit_or-lt 16 (vm.memory addr * 256) (vm.memory (addr + 1)) (omega (arith, h.memory addr))
            (omega (arith, h.memory (addr + 1))))
          h)
        Fine-none);
}

pub mem_wr16-Keeps : (addr v : ℕ) → v < 65536 → Keeps Any (mem_wr16 addr v)
unfolding mem_wr16
mem_wr16-Keeps addr v hv = record {
  run = λ vm h.
      let high : ℕ → ℕ = update vm.memory addr (v / 2 ^ 8) in
      Fine.post (
        Fine-if (ltb (addr + 1) 65536)
          (Fine-some tt (
            IsVm-memory (update high (addr + 1) (bit_and v 0xff)) h (
              update-lt high (addr + 1) (bit_and v 0xff)
                (update-lt vm.memory addr (v / 2 ^ 8) h.memory (omega arith))
                (omega (arith, bit_and-byte v)))))
          Fine-none);
}
