-- ===== src/Monitor/Commands/Kept.antt =====
-- The commands m, i, b and l of the monitor (vmmonitor.c) keep what the parts of the state keep.
use c_vm.Prelude.{ℕ, Bool, ◌||◌, List, Option, none, some, ◌==◌, u8, u16, nonzero, arith}
use c_vm.Machine.{Regs, Vm}
use c_vm.Machine.Keeps.{IsRegs, IsVm}
use c_vm.Signal.{cpu_reset, cpu_nmi, cpu_firq, cpu_irq}
use c_vm.Uart.Types.{request-IsRegs}
use c_vm.Memory.Types.{mem_rd8-Keeps, mem_rd16-Keeps, mem_wr8-Keeps, mem_wr16-Keeps}
use c_vm.System.{System, gets, ◌>>=◌}
use c_vm.System.Holds.{
  Ends, Holds, Anything, Holds-give, Holds-if, Holds-change, Holds-bind, Holds-seq, Holds-with,
}
use c_vm.System.Kept.{IsKept, Holds-on_vm, Holds-say, Holds-change_regs, Holds-change_monitor}
use c_vm.Monitor.Breakpoint.{Breakpoint, Table, toggle_breakpoint, find_breakpoint}
use c_vm.Monitor.Breakpoint.Shape.{IsTable}
use c_vm.Monitor.Breakpoint.Laws.{table_ops-IsTable}
use c_vm.Monitor.Console.{char_at, tail}
use c_vm.Monitor.Memory.{fill}
use c_vm.Monitor.Memory.Types.{printmem-Keeps, printvectors-Keeps, Filled, fill-Filled}
use c_vm.Monitor.Files.Types.{
  setfile-Holds, put_line-Holds, getpath-Holds, listdir-Holds, read-Holds,
}
use c_vm.Monitor.Files.{read}
use c_vm.Monitor.Commands
use c_vm.Text.{hex2, hex4, hex_int}
use c_vm.Text.Registers.{setclr_text, toggle_text}
use c_vm.Monitor.Commands.Types.{answered-Holds, value-Holds, readoptval-Holds, if_value-Holds}

set_request-IsRegs :
    (c : ℕ) (set : Bool) (r : Regs) → IsRegs r → IsRegs (Commands.set_request c set r)
unfolding Commands.set_request cpu_reset cpu_nmi cpu_firq cpu_irq
set_request-IsRegs c set r h = ground (
  arith,
  request-IsRegs 128 set r (omega arith) h,
  request-IsRegs 16 set r (omega arith) h,
  request-IsRegs 32 set r (omega arith) h,
  request-IsRegs 64 set r (omega arith) h,
)

module _ (I : System → Type 0) (k : IsKept I) where
  Ends-settle_fill :
      (s : System) (o : Option Vm)
      → (IsVm s.vm → Filled o)
      → I s
      → Ends I Anything (Commands.settle_fill s o)
  Ends-settle_fill s none f h = tt
  Ends-settle_fill s (some vm) f h = (tt, k.kept_vm s vm f h)

  fill_memory-Holds : (addr v : ℕ) → Holds I Anything (Commands.fill_memory addr v)
  unfolding Commands.fill_memory
  fill_memory-Holds addr v = record {
    run = λ s h.
        Ends-settle_fill s (fill 65536 s.monitor.m_address addr (u8 v) s.vm)
          (fill-Filled 65536 s.monitor.m_address addr (u8 v) s.vm (omega arith)) h;
  }

  show_fill-Holds : (addr v : ℕ) → Holds I Anything (Commands.show_fill addr v)
  show_fill-Holds addr v = Holds-with I (λ s. s.monitor.m_address) (λ from. Holds-say I k _)

  set_address-Holds : (addr : ℕ) → Holds I Anything (Commands.set_address addr)
  set_address-Holds addr = Holds-change_monitor I k (λ m h. omega arith)

  add_address-Holds : (n : ℕ) → Holds I Anything (Commands.add_address n)
  add_address-Holds n = Holds-change_monitor I k (λ m h. omega arith)

  choose_address-Holds : (cmdline : List ℕ) → Holds I Anything (Commands.choose_address cmdline)
  unfolding Commands.choose_address
  choose_address-Holds cmdline =
      let c = char_at cmdline 0 in
      Holds-if I Anything (c == b'@') (Holds-with I (λ s. s.vm.regs.pc) set_address-Holds) (
        Holds-if I Anything (nonzero c) (value-Holds I k cmdline set_address-Holds)
          (Holds-give I Anything tt tt))

  show_byte-Holds : Holds I Anything Commands.show_byte
  unfolding Commands.show_byte
  show_byte-Holds =
      Holds-with I (λ s. s.monitor.m_address)
        λ addr. Holds-bind I (Holds-on_vm I k (mem_rd8-Keeps addr)) λ old _.
          Holds-seq I (Holds-say I k (Commands.cell_text (hex4 addr) (hex2 old))) (
            Holds-bind I (readoptval-Holds I k) λ val _.
              Holds-seq I
                (if_value-Holds I k val _
                  (λ v. Holds-on_vm I k (mem_wr8-Keeps addr (u8 v) (omega arith))))
                (add_address-Holds 1))

  show_word-Holds : Holds I Anything Commands.show_word
  unfolding Commands.show_word
  show_word-Holds =
      Holds-with I (λ s. s.monitor.m_address)
        λ addr. Holds-bind I (Holds-on_vm I k (mem_rd16-Keeps addr)) λ old _.
          Holds-seq I (Holds-say I k (Commands.cell_text (hex4 addr) (hex4 old))) (
            Holds-bind I (readoptval-Holds I k) λ val _.
              Holds-seq I
                (if_value-Holds I k val _
                  (λ v. Holds-on_vm I k (mem_wr16-Keeps addr (u16 v) (omega arith))))
                (add_address-Holds 2))

  dump-Holds : Holds I Anything Commands.dump
  unfolding Commands.dump
  dump-Holds =
      Holds-with I (λ s. s.monitor)
        λ m.
          Holds-seq I (Holds-on_vm I k (printmem-Keeps m.m_address m.m_chunk))
            (add_address-Holds m.m_chunk)

  pub execcmd_m-Holds : (cmdline : List ℕ) → Holds I Anything (Commands.execcmd_m cmdline)
  unfolding Commands.execcmd_m
  execcmd_m-Holds cmdline =
      let c = char_at cmdline 0 in
      Holds-if I Anything (c == 0) show_byte-Holds (
        Holds-if I Anything (c == b'!')
          (value-Holds I k (tail cmdline) (λ v. Holds-change_monitor I k (λ m h. omega arith)))
          (Holds-if I Anything (c == b'?')
            (Holds-seq I (choose_address-Holds (tail cmdline)) dump-Holds)
            (Holds-if I Anything (c == b'v') (Holds-on_vm I k printvectors-Keeps) (
              Holds-if I Anything (c == b'=')
                (value-Holds I k (tail cmdline) λ addr.
                  Holds-bind I (Holds-on_vm I k (mem_rd8-Keeps (u16 addr))) (λ old _.
                    Holds-seq I (Holds-say I k (Commands.cell_text (hex_int 4 addr) (hex2 old))) (
                      answered-Holds I k _
                        (λ v. Holds-seq I (show_fill-Holds addr v) (fill_memory-Holds addr v)))))
                (Holds-if I Anything (c == b':')
                  (Holds-seq I (choose_address-Holds (tail cmdline)) show_word-Holds)
                  (Holds-seq I (choose_address-Holds cmdline) show_byte-Holds))))))

  pub execcmd_i-Holds : (cmdline : List ℕ) → Holds I Anything (Commands.execcmd_i cmdline)
  unfolding Commands.execcmd_i
  execcmd_i-Holds cmdline =
      let c = char_at cmdline 0 in
      Holds-if I Anything (c == 0) (Holds-with I (λ s. s.vm.regs.irq) (λ irq. Holds-say I k _)) (
        Holds-if I Anything (c == b'!' || c == b'.')
          (Holds-seq I (Holds-change_regs I k (set_request-IsRegs (char_at cmdline 1) (c == b'!')))
            (Holds-say I k _))
          (Holds-give I Anything tt tt))

  change_table-Holds :
      (str : List ℕ) (f : ℕ → Table → Table) (text : ℕ → ℕ → Breakpoint → List ℕ)
      → ((addr : ℕ) (t : Table) → IsTable t → IsTable (f addr t))
      → Holds I Anything (Commands.change_table str f text)
  unfolding Commands.change_table
  change_table-Holds str f text keep = value-Holds I k str λ v.
      Holds-seq I
        (Holds-change I _ (λ s h. k.kept_table s (f (u16 v) s.table) (keep (u16 v) s.table) h))
        (Holds-with I (λ s. s.table)
          (λ t. Holds-say I k (Commands.changed_text text (u16 v) (find_breakpoint (u16 v) t) t)))

  pub execcmd_b-Holds : (cmdline : List ℕ) → Holds I Anything (Commands.execcmd_b cmdline)
  unfolding Commands.execcmd_b
  execcmd_b-Holds cmdline =
      let c = char_at cmdline 0 in
      Holds-if I Anything (c == 0) (Holds-with I (λ s. s.table) (λ t. Holds-say I k _)) (
        Holds-if I Anything (c == b'*')
          (change_table-Holds (tail cmdline) toggle_breakpoint toggle_text
            (λ a t h. (table_ops-IsTable a t h).2))
          (Holds-if I Anything (c == b'!')
            (change_table-Holds (tail cmdline) _ setclr_text (λ a t h. (table_ops-IsTable a t h).0))
            (Holds-if I Anything (c == b'.')
              (change_table-Holds (tail cmdline) _ setclr_text
                (λ a t h. (table_ops-IsTable a t h).1))
              (Holds-give I Anything tt tt))))

  module _ (files : List ℕ → Option (List ℕ)) where
    load-Holds :
        Holds I Anything (do m ← gets (λ s. s.monitor); read files m.l_file (u16 m.l_start))
    load-Holds =
        Holds-with I (λ s. s.monitor)
          (λ m. read-Holds I k files m.l_file (u16 m.l_start) (omega arith))

    pub execcmd_l-Holds : (cmdline : List ℕ) → Holds I Anything (Commands.execcmd_l files cmdline)
    unfolding Commands.execcmd_l
    execcmd_l-Holds cmdline =
        let c = char_at cmdline 0 in
        Holds-if I Anything (c == b'?') (Holds-with I (λ s. s.monitor.l_path) (listdir-Holds I k)) (
          Holds-if I Anything (c == b'!')
            (Holds-if I Anything (char_at cmdline 1 == b'*')
              (Holds-with I (λ s. s.monitor.l_dftpath) (put_line-Holds I k)) (getpath-Holds I k))
            (Holds-if I Anything (c == b'@')
              (Holds-with I (λ s. s.monitor.l_start)
                (λ start.
                  Holds-seq I (Holds-say I k (Commands.start_text start))
                    (answered-Holds I k _ (λ v. Holds-change_monitor I k (λ m h. omega arith)))))
              (Holds-if I Anything (c == b'*') load-Holds
                (Holds-seq I (setfile-Holds I k cmdline) load-Holds))))
