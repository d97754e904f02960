-- ===== src/Monitor/Commands.antt =====
-- The commands of the monitor (vmmonitor.c): the functions `_execcmd_*`, given the command line
-- after its first character.
pub mod Types
pub mod Kept
use c_vm.Prelude.{
  ℕ, ◌+◌, ◌*◌, ◌/◌, ◌%◌, ◌^◌, ◌<◌, bit_and, bit_or, Bool, true, false, not, ◌&&◌, ◌||◌, List, [],
  ◌∷◌, Option, none, some, ◌==◌, ltb, nonzero, get_or, not8, u8, u16, if◌then◌else◌,
}
use c_vm.Machine.{Regs, Vm}
use c_vm.Signal.{cpu_reset, cpu_nmi, cpu_firq, cpu_irq}
use c_vm.Memory.{mem_rd8, mem_rd16, mem_wr8, mem_wr16}
use c_vm.Transfer.{
  RegName, reg_a, reg_b, reg_cc, reg_dp, reg_d, reg_u, reg_s, reg_x, reg_y, get, put,
}
use c_vm.System.{
  System, MonitorState, Outcome, faulted, unfinished, done, Run, give, next, ◌>>=◌, ◌>>◌, gets,
  change, on_vm, say, change_regs, change_monitor, expect,
}
use c_vm.System.Strings.{cmd_line_length, os_sprintf}
use c_vm.Text.{chars, join, newline, hex2, hex4, hex_int}
use c_vm.Text.Registers.{printreg_text, showset_text, setclr_text, toggle_text, list_text, irq_text}
use c_vm.Monitor.Breakpoint.{
  Breakpoint, Table, empty_slot, find_breakpoint, setclr_breakpoint, toggle_breakpoint,
}
use c_vm.Monitor.Console.{LineCode, no_input, input_ok, too_long, getline, char_at, tail, getval}
use c_vm.Monitor.Memory.{printmem, printvectors, fill}
use c_vm.Monitor.Files.{read_line, setfile, getpath, listdir, read}
use c_vm.Monitor.Trap.{
  tc_halt, tc_trace, tc_step, opt_set, opt_clear, opt_ask, opt_default, opt_at, is_trace_or_step,
  is_trace_only, is_halt_or_step, change_trap, mon_printreg_short, printreg_short, entered,
  readoptval, if_value,
}

-- `"  Run:%04x\n"` and its like.
abbrev pub pc_text : List ℕ → ℕ → List ℕ
pc_text word pc = join (word ∷ hex4 pc ∷ newline ∷ [])

-- `cpu_regs.pc = _getval(cmdline)`, the text that shows it, and `*plines = 0`.
abbrev pub put_pc : List ℕ → List ℕ → Run (Unit {0})
unfolding getval
put_pc word cmdline = do
  v ← expect (getval cmdline)
  change_regs (λ r. record r { pc = u16 v })
  pc ← gets (λ s. s.vm.regs.pc)
  say (pc_text word pc)
  change (λ s. record s { lines = 0 })

-- `_execcmd_g`, which returns `leave`, as `_execcmd_s` does.
unfoldable pub execcmd_g : List ℕ → Run Bool
unfolding printreg_short getval
execcmd_g cmdline = do
  change_trap (λ t. bit_and t (not8 (bit_or tc_halt tc_step)))
  if nonzero (char_at cmdline 0)
      then (do
        put_pc (chars "  Run:") cmdline
        only ← gets is_trace_only
        if only then printreg_short else give tt
        give true)
      else give true

unfoldable pub execcmd_s : List ℕ → Run Bool
unfolding printreg_short getval
execcmd_s cmdline = do
  change_trap (λ t. bit_or (bit_and t (not8 tc_halt)) tc_step)
  if nonzero (char_at cmdline 0)
      then (do put_pc (chars "  Step:") cmdline; printreg_short; say newline; give false)
      else give true

-- `_pregfromc8` and `_pregfromc16`
abbrev pub pregfromc8 : ℕ → Option RegName
pregfromc8 c =
    if c == b'a'
    then some reg_a
    else if c == b'b'
    then some reg_b
    else if c == b'c'
    then some reg_cc
    else if c == b'p'
    then some reg_dp
    else none

abbrev pub pregfromc16 : ℕ → Option RegName
pregfromc16 c =
    if c == b'd'
    then some reg_d
    else if c == b'u'
    then some reg_u
    else if c == b's'
    then some reg_s
    else if c == b'x'
    then some reg_x
    else if c == b'y'
    then some reg_y
    else none

-- `"  %c:$"` and the value of the register.
abbrev pub register_text : ℕ → List ℕ → List ℕ
register_text c value = join (chars "  " ∷ (c ∷ []) ∷ chars ":$" ∷ value ∷ chars " " ∷ [])

-- `*preg8 = val`, or `*preg16 = val`.
abbrev pub ask_register : ℕ → Option RegName → Option RegName → Run (Unit {0})
unfolding readoptval
ask_register c (some name) other = do
  old ← gets (λ s. get name s.vm.regs)
  say (register_text c (hex2 old))
  val ← readoptval
  if_value val (λ v. change_regs (put name (u8 v)))
ask_register c none (some name) = do
  old ← gets (λ s. get name s.vm.regs)
  say (register_text c (hex4 old))
  val ← readoptval
  if_value val (λ v. change_regs (put name (u16 v)))
ask_register c none none = say (chars "  invalid register\n\n")

unfoldable pub execcmd_r : List ℕ → Run (Unit {0})
unfolding mon_printreg_short readoptval printreg_text
execcmd_r cmdline =
    let c = char_at cmdline 0 in
    if c == 0
    then (do mon_printreg_short true; say newline)
    else if c == opt_ask
    then (do r ← gets (λ s. s.vm.regs); say (printreg_text r))
    else ask_register c (pregfromc8 c) (pregfromc16 c)

abbrev pub set_trace : ℕ → Run (Unit {0})
set_trace c =
    if c == opt_set
    then change_trap (λ t. bit_or t tc_trace)
    else if c == opt_clear
    then change_trap (λ t. bit_and t (not8 tc_trace))
    else give tt

unfoldable pub execcmd_t : List ℕ → Run (Unit {0})
execcmd_t cmdline = do
  set_trace (char_at cmdline 0)
  trap ← gets (λ s. s.vm.regs.trap)
  say (showset_text (chars "trace") (nonzero (bit_and trap tc_trace)))

-- The loop of `m=`, which goes through all addresses at most once if it ends.
abbrev pub settle_fill : System → Option Vm → Outcome (Unit {0})
settle_fill s none = unfinished
settle_fill s (some vm) = done tt (record s { vm = vm })

unfoldable pub fill_memory : ℕ → ℕ → Run (Unit {0})
unfolding fill
fill_memory addr v s = settle_fill s (fill 65536 s.monitor.m_address addr (u8 v) s.vm)

-- `"  %04x-%04x:%02x\n"`
abbrev pub fill_text : ℕ → ℕ → ℕ → List ℕ
fill_text from addr v =
    join
      (chars "  " ∷ hex4 from ∷ chars "-" ∷ hex_int 4 addr ∷ chars ":" ∷ hex_int 2 v ∷ newline ∷ [])

abbrev pub show_fill : ℕ → ℕ → Run (Unit {0})
show_fill addr v = do from ← gets (λ s. s.monitor.m_address); say (fill_text from addr v)

abbrev pub set_address : ℕ → Run (Unit {0})
set_address addr = change_monitor (λ m. record m { m_address = u16 addr })

-- `monitor.m_address += n`
abbrev pub add_address : ℕ → Run (Unit {0})
add_address n = change_monitor (λ m. record m { m_address = u16 (m.m_address + n) })

-- The address that is given: that of the PC, a number, or the one from before.
abbrev pub choose_address : List ℕ → Run (Unit {0})
unfolding getval
choose_address cmdline =
    let c = char_at cmdline 0 in
    if c == opt_at
    then (do pc ← gets (λ s. s.vm.regs.pc); set_address pc)
    else if nonzero c
    then (do v ← expect (getval cmdline); set_address v)
    else give tt

-- `"  %04x:%02x "` and its like.
abbrev pub cell_text : List ℕ → List ℕ → List ℕ
cell_text addr value = join (chars "  " ∷ addr ∷ chars ":" ∷ value ∷ chars " " ∷ [])

-- A byte or a word that is shown, and changed if there is a value.
abbrev pub show_byte : Run (Unit {0})
unfolding mem_rd8 mem_wr8 readoptval
show_byte = do
  addr ← gets (λ s. s.monitor.m_address)
  old ← on_vm (mem_rd8 addr)
  say (cell_text (hex4 addr) (hex2 old))
  val ← readoptval
  if_value val (λ v. on_vm (mem_wr8 addr (u8 v)))
  add_address 1

abbrev pub show_word : Run (Unit {0})
unfolding mem_rd16 mem_wr16 readoptval
show_word = do
  addr ← gets (λ s. s.monitor.m_address)
  old ← on_vm (mem_rd16 addr)
  say (cell_text (hex4 addr) (hex4 old))
  val ← readoptval
  if_value val (λ v. on_vm (mem_wr16 addr (u16 v)))
  add_address 2

abbrev pub dump : Run (Unit {0})
unfolding mem_rd8
dump = do m ← gets (λ s. s.monitor); on_vm (printmem m.m_address m.m_chunk); add_address m.m_chunk

unfoldable pub execcmd_m : List ℕ → Run (Unit {0})
unfolding mem_rd8 mem_rd16 mem_wr8 mem_wr16 readoptval getval fill_memory
execcmd_m cmdline =
    let c = char_at cmdline 0 in
    if c == 0
    then show_byte
    else if c == opt_set
    then (do v ← expect (getval (tail cmdline)); change_monitor (λ m. record m { m_chunk = u16 v }))
    else if c == opt_ask
    then (do choose_address (tail cmdline); dump)
    else if c == b'v'
    then on_vm printvectors
    else if c == b'='
    then (do
      addr ← expect (getval (tail cmdline))
      old ← on_vm (mem_rd8 (u16 addr))
      say (cell_text (hex_int 4 addr) (hex2 old))
      val ← readoptval
      if_value val (λ v. do show_fill addr v; fill_memory addr v))
    else if c == b':'
    then (do choose_address (tail cmdline); show_word)
    else (do choose_address cmdline; show_byte)

-- The switch of `_execcmd_i`.
abbrev pub set_request : ℕ → Bool → Regs → Regs
unfolding cpu_reset cpu_nmi cpu_firq cpu_irq
set_request c set r =
    if c == b'r'
    then cpu_reset set r
    else if c == b'n'
    then cpu_nmi set r
    else if c == b'f'
    then cpu_firq set r
    else if c == b'i'
    then cpu_irq set r
    else r

abbrev pub request_text : ℕ → Bool → List ℕ
request_text c set =
    if c == b'r'
    then showset_text (chars "reset") set
    else if c == b'n'
    then showset_text (chars "nmi") set
    else if c == b'f'
    then showset_text (chars "firq") set
    else if c == b'i'
    then showset_text (chars "irq") set
    else chars "  invalid interrupt\n"

unfoldable pub execcmd_i : List ℕ → Run (Unit {0})
unfolding cpu_reset cpu_nmi cpu_firq cpu_irq irq_text
execcmd_i cmdline =
    let c = char_at cmdline 0 in
    if c == 0
    then (do irq ← gets (λ s. s.vm.regs.irq); say (irq_text irq))
    else if c == opt_set || c == opt_clear
    then (do
      change_regs (set_request (char_at cmdline 1) (c == opt_set))
      say (request_text (char_at cmdline 1) (c == opt_set)))
    else give tt

-- The line on the slot that an operation has changed, which is the first one with the address.
abbrev pub changed_text : (ℕ → ℕ → Breakpoint → List ℕ) → ℕ → Option ℕ → Table → List ℕ
changed_text text addr none t = []
changed_text text addr (some i) t = text i addr (get_or t.slots i empty_slot)

-- The address after the letter, given to an operation on the table, and the line that it prints.
abbrev pub change_table :
    List ℕ → (ℕ → Table → Table) → (ℕ → ℕ → Breakpoint → List ℕ) → Run (Unit {0})
unfolding getval find_breakpoint
change_table str f text = do
  v ← expect (getval str)
  change (λ s. record s { table = f (u16 v) s.table })
  t ← gets (λ s. s.table)
  say (changed_text text (u16 v) (find_breakpoint (u16 v) t) t)

unfoldable pub execcmd_b : List ℕ → Run (Unit {0})
unfolding getval find_breakpoint setclr_breakpoint toggle_breakpoint setclr_text toggle_text
    list_text
execcmd_b cmdline =
    let c = char_at cmdline 0 in
    if c == 0
    then (do t ← gets (λ s. s.table); say (list_text 0 t.slots))
    else if c == b'*'
    then change_table (tail cmdline) toggle_breakpoint toggle_text
    else if c == opt_set
    then change_table (tail cmdline) (λ addr. setclr_breakpoint addr true) setclr_text
    else if c == opt_clear
    then change_table (tail cmdline) (λ addr. setclr_breakpoint addr false) setclr_text
    else give tt

-- `"  start:%04x "`
abbrev pub start_text : ℕ → List ℕ
start_text start = join (chars "  start:" ∷ hex4 start ∷ chars " " ∷ [])

module _ (files : List ℕ → Option (List ℕ)) where
  unfoldable pub execcmd_l : List ℕ → Run (Unit {0})
  unfolding listdir os_sprintf getpath readoptval setfile read
  execcmd_l cmdline =
      let c = char_at cmdline 0 in
      let load = (do m ← gets (λ s. s.monitor); read files m.l_file (u16 m.l_start)) in
      if c == opt_ask
      then (do path ← gets (λ s. s.monitor.l_path); listdir path)
      else if c == opt_set
      then (if char_at cmdline 1 == opt_default
          then (do
            path ← gets (λ s. s.monitor.l_dftpath)
            text ← os_sprintf cmd_line_length path
            change_monitor (λ m. record m { l_path = text }))
          else getpath)
      else if c == opt_at
      then (do
        start ← gets (λ s. s.monitor.l_start)
        say (start_text start)
        val ← readoptval
        if_value val (λ v. change_monitor (λ m. record m { l_start = u16 v })))
      else if c == opt_default
      then load
      else (do setfile cmdline; load)
