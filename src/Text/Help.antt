-- ===== src/Text/Help.antt =====
-- The texts of `_execcmd_question` (vmmonitor.c), line by line.
use c_vm.Prelude.{ℕ, List, [], ◌∷◌, ◌++◌, ◌==◌, if◌then◌else◌}
use c_vm.Text.{chars, newline}

-- `puts` of each line.
abbrev pub puts_lines : List (List ℕ) → List ℕ
puts_lines [] = []
puts_lines (l ∷ ls) = l ++ (newline ++ puts_lines ls)

abbrev pub help_commands : List (List ℕ)
help_commands =
    chars "Commands"
    ∷ chars "  b    Break points."
    ∷ chars "  g    Program execution."
    ∷ chars "  i    Interrupt control and reset."
    ∷ chars "  l    File management."
    ∷ chars "  m    Memory inspection."
    ∷ chars "  r    Register operations."
    ∷ chars "  s    Single stepping control."
    ∷ chars "  t    Tracing control."
    ∷ chars "  ?X   Show help for the X command."
    ∷ chars "  bye  End the simulator."
    ∷ []

abbrev pub help_breakpoints : List (List ℕ)
help_breakpoints =
    chars "b: Break points."
    ∷ chars "  b       List break points (there are four)."
    ∷ chars "          Format .N:XXXX* N:number, XXXX:address."
    ∷ chars "          '.' position is free."
    ∷ chars "          '*' break point is enabled."
    ∷ chars "  b!XXXX  Set break point at address XXXX."
    ∷ chars "  b.XXXX  Clear break point at address XXXX."
    ∷ chars "  b*XXXX  Toggle break point at address XXXX."
    ∷ []

abbrev pub help_go : List (List ℕ)
help_go =
    chars "g: Program execution."
    ∷ chars "  g      Continue from current PC."
    ∷ chars "  gXXXX  Restart from XXXX."
    ∷ chars "  Hit ctrl-c to return to the monitor."
    ∷ []

abbrev pub help_registers : List (List ℕ)
help_registers =
    chars "r: Register operations."
    ∷ chars "  r   Print registers short."
    ∷ chars "  r?  Print registers full."
    ∷ chars "  rR  Print register content and allow modification."
    ∷ chars "  R: a, b, c=cc, d, p=dp, x, y, u, s"
    ∷ []

abbrev pub help_trace : List (List ℕ)
help_trace =
    chars "t: Tracing control."
    ∷ chars "  t   Show tracing status."
    ∷ chars "  t!  Begin tracing mode."
    ∷ chars "  t.  End tracing mode."
    ∷ []

abbrev pub help_step : List (List ℕ)
help_step =
    chars "s: Single stepping control."
    ∷ chars "  s      Single step from current PC."
    ∷ chars "  sXXXX  Restart single stepping from XXXX."
    ∷ []

abbrev pub help_memory : List (List ℕ)
help_memory =
    chars "m: Memory inspection."
    ∷ chars "  mXXXX  Show memory byte at address XXXX."
    ∷ chars "  m:XXXX Show memory byte at the PC."
    ∷ chars "  m:@    Show memory word at the PC."
    ∷ chars "         Optionally supply a new value after the '?'."
    ∷ chars "         Hit Enter to accept the current value."
    ∷ chars "  m      Show next byte of memory."
    ∷ chars "  m=XXXX Fill memory bytes from current address until"
    ∷ chars "         address XXXX."
    ∷ chars "         Hit Enter to cancel the filling."
    ∷ chars "  m?XXXX Dump a chunk of memory at address XXXX."
    ∷ chars "  m?@    Dump a chunk of memory at the PC."
    ∷ chars "  m?     Dump next chunk of memory."
    ∷ chars "  m!XXXX Set memory dump chunk size."
    ∷ chars "  mv     Show the vector table."
    ∷ []

abbrev pub help_interrupts : List (List ℕ)
help_interrupts =
    chars "i: Interrupt control and reset."
    ∷ chars "  i    Show interrupt flags."
    ∷ chars "  i!X  Set interrupt X."
    ∷ chars "  i.X  Cleaar X interrupt X."
    ∷ chars "  X: r=reset, n=nmi, f=firq, i=irq, s=swi, 2=swi2, 3=swi3"
    ∷ []

abbrev pub help_files : List (List ℕ)
help_files =
    chars "l: File management."
    ∷ chars "  lNAME Load the file NAME to the start address"
    ∷ chars "        and set the reset vector accordingly."
    ∷ chars "  l*    Reload the previous file."
    ∷ chars "  l?    List bin, hex and asm files."
    ∷ chars "  l!    Show the current directory."
    ∷ chars "        Optionally supply a new path after the '?'."
    ∷ chars "  l!*   Set the path to the default path."
    ∷ chars "        Hit Enter to accept the current value."
    ∷ chars "  l@    Show the start address."
    ∷ chars "        Optionally supply a new start address after the '?'."
    ∷ chars "        Hit Enter to accept the current value."
    ∷ chars "  lNAME Load the file NAME."
    ∷ []

-- `_execcmd_question`
unfoldable pub help_text : ℕ → List ℕ
help_text c =
    if c == 0
    then puts_lines help_commands
    else if c == b'b'
    then puts_lines help_breakpoints
    else if c == b'g'
    then puts_lines help_go
    else if c == b'r'
    then puts_lines help_registers
    else if c == b't'
    then puts_lines help_trace
    else if c == b's'
    then puts_lines help_step
    else if c == b'm'
    then puts_lines help_memory
    else if c == b'i'
    then puts_lines help_interrupts
    else if c == b'l'
    then puts_lines help_files
    else puts_lines (chars "  can't help" ∷ [])
