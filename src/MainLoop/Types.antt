-- ===== src/MainLoop/Types.antt =====
-- Every state that the program reaches holds values of the C types.
use c_vm.Prelude.{
  ℕ, ◌<◌, ◌≡◌, Bool, true, false, ◌||◌, List, [], ◌∷◌, Option, none, some, ltb, if◌then◌else◌,
  length, arith,
}
use c_vm.Uart.Types.{tio_exec-IsVm}
use c_vm.Interrupt.Types.{cpu_execirq-Keeps}
use c_vm.Execute.Step.{cpu_execop-Keeps}
use c_vm.System.{System, Outcome, aborted, done, Run, next}
use c_vm.System.Holds.{
  Ends, Holds, Anything, Holds-give, Holds-if, Holds-change, Holds-seq, Holds-with, Ends-result,
}
use c_vm.System.Kept.{IsSystem, IsSystem-IsKept, IsKept, Holds-on_vm}
use c_vm.Monitor.Breakpoint.Laws.{empty_table-IsTable}
use c_vm.Monitor.Prompt.Types.{mon_execmon-Holds}
use c_vm.Startup.{static_system}
use c_vm.Startup.Boot.{boot_file, boot_image, ready, booted, startup_lem}
use c_vm.MainLoop.{Event, sig_handler, transfer_terminal, round, rounds, program}

module _ (I : System → Type 0) (k : IsKept I) (upper : ℕ → ℕ)
    (files : List ℕ → Option (List ℕ)) where
  transfer_terminal-Holds : (key : Option ℕ) → Holds I Anything (transfer_terminal upper files key)
  unfolding transfer_terminal
  transfer_terminal-Holds key =
      Holds-with I (λ s. s.perform_tio)
        λ on.
          Holds-if I Anything on
            (Holds-change I _ (λ s h. k.kept_vm s _ (tio_exec-IsVm upper key s.vm) h))
            (Holds-give I Anything tt tt)

  round-Holds : (fuel : ℕ) (e : Event) → Holds I Anything (round upper files fuel e)
  unfolding round sig_handler
  round-Holds fuel e =
      Holds-seq I (Holds-change I _ (λ s h. k.kept_signal s (e.interrupt || s.sigint_received) h)) (
        Holds-seq I (transfer_terminal-Holds e.key) (
          Holds-seq I (Holds-on_vm I k cpu_execirq-Keeps)
            (Holds-seq I (mon_execmon-Holds I k files fuel) (Holds-on_vm I k cpu_execop-Keeps))))

  rounds-Holds : (fuel : ℕ) (es : List Event) → Holds I Anything (rounds upper files fuel es)
  unfolding rounds
  rounds-Holds fuel [] = Holds-give I Anything tt tt
  rounds-Holds fuel (e ∷ es) = Holds-seq I (round-Holds fuel e) (rounds-Holds fuel es)

boot_image_lt : (content : List ℕ) (i : ℕ) → boot_image content i < 256
boot_image_lt content i = ground arith

ready-IsSystem :
    (memory : ℕ → ℕ) (pc : ℕ) (printed input : List ℕ)
    → ((i : ℕ) → memory i < 256)
    → pc < 65536
    → IsSystem (ready memory pc printed input)
ready-IsSystem memory pc printed input hm hp = record {
  vm = record { regs = omega arith; uart = omega arith; memory = hm };
  monitor = ground arith;
  table = empty_table-IsTable;
  lines = omega arith;
}

booted-IsSystem : (o : Option (List ℕ)) (input : List ℕ) → IsSystem (booted o input)
booted-IsSystem none input = ready-IsSystem (λ _. 0) 0 _ input (λ i. omega arith) (omega arith)
booted-IsSystem (some []) input = ready-IsSystem (λ _. 0) 0 _ input (λ i. omega arith) (omega arith)
booted-IsSystem (some (c ∷ cs)) input =
    ready-IsSystem (boot_image (c ∷ cs)) 0x4000 _ input (boot_image_lt (c ∷ cs)) (omega arith)

Ends-program :
    (o : Outcome (Unit {0})) (b : Bool) (s : System) (m : Run (Unit {0}))
    → IsSystem s
    → Holds IsSystem Anything m
    → o ≡ (if b then done tt s else aborted)
    → Ends IsSystem Anything (next o (λ _. m))
Ends-program o true s m h hm e = rw e (hm.run s h)
Ends-program o false s m h hm e = rw e tt

-- Every state that the program reaches, from its start and through any events, whatever the files
-- and the input hold: registers, UART and memory hold values of their C types, at most one armed
-- break point has each address, and the strings of the monitor fit in their buffers.
pub program-IsSystem :
    (upper : ℕ → ℕ) (files : List ℕ → Option (List ℕ)) (fuel : ℕ) (from_path input : List ℕ)
    (es : List Event) (s : System)
    → program upper files fuel from_path es (static_system input) ≡ done tt s
    → IsSystem s
unfolding program
program-IsSystem upper files fuel from_path input es s e =
    Ends-result IsSystem Anything _ tt s
      (Ends-program _ (ltb (length from_path) 80) _ (rounds upper files fuel es)
        (booted-IsSystem (files boot_file) input)
        (rounds-Holds IsSystem IsSystem-IsKept upper files fuel es)
        (startup_lem files from_path input))
      e
