-- ===== src/MainLoop/Tests.antt =====
-- The whole program on a file of two instructions: it starts, the user continues, and the first
-- instruction runs.
use c_vm.Prelude.{ℕ, ◌≡◌, refl, true, false, ◌++◌, List, [], ◌∷◌, Option, none, some}
use c_vm.System.{System, Outcome, done, next, settle, on_vm}
use c_vm.System.Kept.{IsSystem}
use c_vm.Startup.{static_system, startup, init_all, cpu_init6809, mon_init, load_default_bin}
use c_vm.System.Strings.{os_sprintf, directory, same_string}
use c_vm.Signal.{cpu_reset, request, setclrirqf}
use c_vm.Uart.{tio_init, tio_exec}
use c_vm.Memory.{mem_init, mem_erase, mem_rd8, mem_rd16, mem_wr16}
use c_vm.Interrupt.{cpu_execirq}
use c_vm.Decode.{decode}
use c_vm.Address.{fetch8, eafromopc, ea_of_mode, mode_of}
use c_vm.Execute.{execute, cpu_execop}
use c_vm.Monitor.Breakpoint.{
  breakpoint_hit, setclr_breakpoint, find_breakpoint, find_nextbest, empty_table,
}
use c_vm.Monitor.Console.{getline, fgets, skip_line, c_string, last, drop_last, getval}
use c_vm.Monitor.Memory.{read_bytes}
use c_vm.Monitor.Files.{getexepath, setfile, read, read_bin, read_line}
use c_vm.Monitor.Trap.{printreg_short}
use c_vm.Monitor.Commands.{execcmd_g}
use c_vm.Monitor.Prompt.{stop_if, prompt, enter, execcmd, mon_execmon}
use c_vm.MainLoop.{sig_handler, Event, program, rounds, round}
use c_vm.MainLoop.Types.{program-IsSystem}
use c_vm.Monitor.Prompt.Stops.{stopped, resume}
use c_vm.MainLoop.Alone.{quiet, quiet_events, machine_rounds, rounds-machine_rounds, rounds-enter}
use c_vm.Machine.{Vm}
use c_vm.Machine.Sample.{machine}

-- No operation, and a branch to itself.
abbrev files : List ℕ → Option (List ℕ)
files path = some (0x12 ∷ 0x20 ∷ 0xfe ∷ [])

abbrev upper : ℕ → ℕ
upper c = c

abbrev alarm : Event
alarm = record { interrupt = true; key = none }

abbrev start : System
start = static_system (b'g' ∷ b'\n' ∷ [])

abbrev state_of : Outcome (Unit {0}) → System
state_of (done v s) = s
state_of _ = start

program-IsSystem_example : IsSystem (state_of (program upper files 3 [] (quiet none ∷ []) start))
unfolding program startup init_all cpu_init6809 mem_init mem_erase mon_init tio_init
    load_default_bin getexepath directory os_sprintf setfile read read_bin read_bytes mem_wr16
    mem_rd16 cpu_reset request setclrirqf cpu_execirq rounds round sig_handler tio_exec mon_execmon
    stop_if breakpoint_hit prompt read_line getline fgets skip_line c_string last drop_last execcmd
    same_string execcmd_g printreg_short getval cpu_execop fetch8 mem_rd8 decode execute eafromopc
    ea_of_mode mode_of
program-IsSystem_example =
    program-IsSystem upper files 3 [] (b'g' ∷ b'\n' ∷ []) (quiet none ∷ [])
      (state_of (program upper files 3 [] (quiet none ∷ []) start)) refl

-- A machine that runs, with no operation at the PC and a break point behind it.
abbrev running : System
running = record start {
  vm = machine 0x1000 0x12;
  table = setclr_breakpoint 0x1001 true empty_table;
}

rounds-machine_rounds_example :
    rounds upper files 3 (quiet_events (none ∷ []) ++ (alarm ∷ [])) running
    ≡ next
        (settle running (machine_rounds upper false (none ∷ []) running.vm))
        (λ _. rounds upper files 3 (alarm ∷ []))
unfolding cpu_execirq cpu_execop fetch8 mem_rd8 decode execute eafromopc ea_of_mode mode_of
    breakpoint_hit setclr_breakpoint find_breakpoint find_nextbest
rounds-machine_rounds_example =
    rounds-machine_rounds upper files 3 (none ∷ []) (alarm ∷ []) running refl refl

-- After the first instruction.
abbrev behind : Vm
behind = record (running.vm) { regs = record (running.vm.regs) { pc = 0x1001 } }

rounds-enter_example :
    rounds upper files 3 (quiet_events (none ∷ []) ++ alarm ∷ []) running
    ≡ next
        (next
          (next
            (enter files 3 (stopped (record running { vm = behind; sigint_received = true })))
            (λ _. resume files))
          (λ _. on_vm cpu_execop))
        (λ _. rounds upper files 3 [])
unfolding cpu_execirq cpu_execop fetch8 mem_rd8 decode execute eafromopc ea_of_mode mode_of
    breakpoint_hit setclr_breakpoint find_breakpoint find_nextbest
rounds-enter_example =
    rounds-enter upper files 3 (none ∷ []) alarm [] running behind behind refl refl refl refl refl
      refl
