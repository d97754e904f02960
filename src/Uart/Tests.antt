-- ===== src/Uart/Tests.antt =====
-- The theorems on the terminal interface, on a character that waits in each mailbox.
use c_vm.Prelude.{ℕ, ◌≡◌, ◌⊎◌, ◌+◌, ◌++◌, some, none}
use c_vm.Machine.{Vm}
use c_vm.Machine.Sample.{machine}
use c_vm.Uart.{tio_read_rbr, tio_write_thr, tio_exec}
use c_vm.Uart.Mailbox.{
  outgoing, incoming, printed, deliver, arrived, mailbox_accesses, tio_exec_lem,
}

-- A stand-in for `toupper`.
abbrev shout : ℕ → ℕ
shout c = c + 128

-- A carriage return is waiting to be sent, and nothing has been received.
abbrev waiting : Vm
waiting = record (machine 0 0) { uart = record ((machine 0 0).uart) { thr = b'\r'; lsr = 0 } }

mailbox_accesses_example :
    (outgoing (tio_write_thr 65 waiting.uart) ≡ some 65)
    × (incoming (tio_write_thr 65 waiting.uart) ≡ incoming waiting.uart)
    × ((incoming waiting.uart ≡ none)
        ⊎ (incoming waiting.uart ≡ some (tio_read_rbr waiting.uart).0))
    × (incoming (tio_read_rbr waiting.uart).1 ≡ none)
    × (outgoing (tio_read_rbr waiting.uart).1 ≡ outgoing waiting.uart)
mailbox_accesses_example = mailbox_accesses 65 waiting.uart

tio_exec_lem_example :
    (outgoing (tio_exec shout (some 65) waiting).uart ≡ none)
    × ((tio_exec shout (some 65) waiting).terminal
        ≡ waiting.terminal ++ printed (outgoing waiting.uart))
    × (incoming (tio_exec shout (some 65) waiting).uart
        ≡ deliver (arrived shout (some 65)) (incoming waiting.uart))
    × ((tio_exec shout (some 65) waiting).memory ≡ waiting.memory)
tio_exec_lem_example = tio_exec_lem shout (some 65) waiting
