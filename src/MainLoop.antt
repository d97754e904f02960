-- ===== src/MainLoop.antt =====
-- The loop of main.c. What the outside does before a round is an event: whether Ctrl-C has been
-- pressed, and the character that the terminal has ready.
pub mod Types
pub mod Alone
mod Tests
use c_vm.Prelude.{ℕ, Bool, true, false, ◌||◌, List, [], ◌∷◌, Option, if◌then◌else◌}
use c_vm.Machine.{Vm}
use c_vm.Uart.{tio_exec}
use c_vm.Interrupt.{cpu_execirq}
use c_vm.Execute.{cpu_execop}
use c_vm.System.{System, Outcome, Run, give, next, ◌>>=◌, ◌>>◌, gets, change, on_vm}
use c_vm.Monitor.Prompt.{mon_execmon}
use c_vm.Startup.{startup}

pub record Event : Type 0 where
  pub interrupt : Bool
  pub key : Option ℕ

-- `_sig_handler`, if the signal comes.
unfoldable pub sig_handler : Bool → System → System
sig_handler signal s = record s { sigint_received = signal || s.sigint_received }

module _ (upper : ℕ → ℕ) (files : List ℕ → Option (List ℕ)) where
  abbrev pub transfer_terminal : Option ℕ → Run (Unit {0})
  unfolding tio_exec
  transfer_terminal key = do
    on ← gets (λ s. s.perform_tio)
    if on then change (λ s. record s { vm = tio_exec upper key s.vm }) else give tt

  -- The body of the loop, with the fuel of the prompt.
  unfoldable pub round : ℕ → Event → Run (Unit {0})
  unfolding sig_handler tio_exec cpu_execirq mon_execmon cpu_execop
  round fuel e = do
    change (sig_handler e.interrupt)
    transfer_terminal e.key
    on_vm cpu_execirq
    mon_execmon files fuel
    on_vm cpu_execop

  abbrev pub rounds : ℕ → List Event → Run (Unit {0})
  unfolding round
  rounds fuel [] = give tt
  rounds fuel (e ∷ es) = do round fuel e; rounds fuel es

  -- `main`: up to the loop, and then a round for each event. The path is `argv[0]`.
  unfoldable pub program : ℕ → List ℕ → List Event → Run (Unit {0})
  unfolding startup rounds
  program fuel from_path es = startup files from_path >> rounds fuel es
