-- ===== src/Monitor/Prompt/Tests.antt =====
-- The theorems on the prompt, where the program has come to a break point.
use c_vm.Prelude.{
  ℕ, ◌≡◌, refl, true, not, ◌&&◌, ◌||◌, ◌==◌, List, [], ◌∷◌, ◌++◌, Option, none, if◌then◌else◌,
  arith,
}
use c_vm.Machine.Sample.{machine}
use c_vm.System.{System, done, bye, unfinished, next, give}
use c_vm.Startup.{static_system}
use c_vm.Monitor.Breakpoint.{
  empty_table, find_breakpoint, find_nextbest, setclr_breakpoint, breakpoint_hit,
}
use c_vm.Monitor.Prompt.{bye_word, prompt, enter, execcmd, mon_execmon}
use c_vm.Monitor.Prompt.Stops.{stops, stopped, resume, mon_execmon_lem}
use c_vm.Monitor.Prompt.Left.{with_input, typed, all_shown, released, prompt_left}
use c_vm.Monitor.Prompt.Stepping.{line_printed, mon_execmon_stepped}
use c_vm.Text.{hex4}
use c_vm.Monitor.Breakpoint.Laws.{gives_way, empty_table-IsTable}
use c_vm.Monitor.Prompt.Typed.{heard, prompt-execcmd, prompt_break_go}
use c_vm.Monitor.Prompt.Store.{stored, prompt_store}

abbrev files : List ℕ → Option (List ℕ)
files path = none

-- The line that comes continues the program.
abbrev at_break : System
at_break = record (static_system (b'g' ∷ b'\n' ∷ [])) {
  vm = machine 0x1000 0x4c;
  table = setclr_breakpoint 0x1000 true empty_table;
}

mon_execmon_lem_example : mon_execmon files 3 at_break ≡ (
    if stops at_break
    then next (enter files 3 (stopped at_break)) (λ _. resume files)
    else done tt at_break)
mon_execmon_lem_example = mon_execmon_lem files 3 at_break refl

-- "B>"
abbrev text : List ℕ
text = b'B' ∷ b'>' ∷ []

-- The program stops at the break point, and goes on with the command g.
stops_here : stops at_break ≡ true
unfolding breakpoint_hit setclr_breakpoint find_breakpoint find_nextbest
stops_here = refl

-- Commands typed at the prompt.
abbrev asked : List ℕ → System
asked input = record (static_system input) { vm = machine 0x1000 0x4c }

prompt-execcmd_example :
    prompt files text 4 (asked ((b'?' ∷ b'g' ∷ []) ++ 10 ∷ []))
    ≡ next
        (execcmd files (b'?' ∷ b'g' ∷ []) (heard text [] (asked ((b'?' ∷ b'g' ∷ []) ++ 10 ∷ []))))
        (λ leave. if leave then give tt else prompt files text 3)
prompt-execcmd_example =
    prompt-execcmd files text 3 b'?' (b'g' ∷ []) [] (asked ((b'?' ∷ b'g' ∷ []) ++ 10 ∷ [])) refl
      (omega arith, omega arith, (omega arith, omega arith, tt)) (omega arith)

abbrev session : List ℕ
session = (b'b' ∷ b'!' ∷ hex4 0x1234) ++ 10 ∷ ((b'g' ∷ hex4 0x1000) ++ 10 ∷ [])

prompt_break_go_example :
    (s' : System) × (prompt files text 2 (asked session) ≡ done tt s')
    × (s'.vm.regs.pc ≡ 0x1000)
    × (s'.input ≡ [])
    × ((c : ℕ)
        → breakpoint_hit c s'.table
          ≡ (0x1234 == c || breakpoint_hit c empty_table && not (gives_way 0x1234 empty_table c)))
prompt_break_go_example =
    prompt_break_go files text 0 0x1234 0x1000 [] (asked session) (omega arith) (omega arith) refl
      refl empty_table-IsTable

abbrev store : List ℕ
store = (b'm' ∷ b':' ∷ hex4 0xff00) ++ 10 ∷ (hex4 0xbeef ++ 10 ∷ [])

prompt_store_example :
    prompt files text 3 (asked store)
    ≡ prompt files text 2
        (stored 0xff00 0xbeef [] (heard text (hex4 0xbeef ++ 10 ∷ []) (asked store)))
prompt_store_example =
    prompt_store files text 2 0xff00 0xbeef [] (asked store) (omega arith) (omega arith)
      (omega arith) refl

-- A machine that is stepped.
abbrev stepped : System
stepped = record (asked (b's' ∷ b'\n' ∷ [])) {
  vm = record (machine 0x1000 0x4c) { regs = record ((machine 0x1000 0x4c).regs) { trap = 16 } };
}

mon_execmon_stepped_example :
    mon_execmon files 3 stepped
    ≡ next (enter files 3 (line_printed (stopped stepped))) (λ _. resume files)
mon_execmon_stepped_example = mon_execmon_stepped files 3 stepped refl (omega arith)

-- A line that is empty, and one that is no command.
abbrev noise : List (List ℕ)
noise = [] ∷ (b'x' ∷ b'1' ∷ []) ∷ []

prompt_left_example :
    (prompt files text 3 (with_input (typed noise (b'g' ∷ 10 ∷ b'b' ∷ [])) [] stepped)
      ≡ done tt (released (b'b' ∷ []) (all_shown text noise [] ++ text) stepped))
    × (prompt files text 3 (with_input (typed noise (bye_word ++ 10 ∷ b'b' ∷ [])) [] stepped) ≡ bye)
    × (prompt files text 3 (with_input (typed noise []) [] stepped) ≡ unfinished)
prompt_left_example =
    prompt_left files text 3 noise (b'b' ∷ []) [] stepped
      (tt, ((refl, (omega arith, omega arith, (omega arith, omega arith, tt)), omega arith), tt))
      (omega arith)
