-- ===== src/System/Kept.antt =====
-- Properties of the state that its parts keep: the C types and the sizes of the buffers.
use c_vm.Prelude.{ℕ, ◌<◌, ◌^◌, Bool, List, Option, none, some, length}
use c_vm.Machine.{Regs, Vm, M}
use c_vm.Machine.Keeps.{IsRegs, IsVm, Post, Keeps}
use c_vm.System.{System, MonitorState, settle, on_vm, say, change_regs, change_monitor}
use c_vm.System.Holds.{Ends, Holds, Anything, Holds-change}
use c_vm.Monitor.Breakpoint.{Table}
use c_vm.Monitor.Breakpoint.Shape.{IsTable}

-- Addresses of 16 bits, and strings that fit in their buffers with the null.
pub record IsMonitor (m : MonitorState) : Type 0 where
  pub m_address : m.m_address < 65536
  pub m_chunk : m.m_chunk < 65536
  pub l_start : m.l_start < 65536
  pub l_file : length m.l_file < 80
  pub l_path : length m.l_path < 80
  pub l_dftpath : length m.l_dftpath < 80

-- The registers, the UART and memory hold values of their C types, the table of break points is
-- well formed, and the fields of the monitor and its count of lines are in bounds.
pub record IsSystem (s : System) : Type 0 where
  pub vm : IsVm s.vm
  pub monitor : IsMonitor s.monitor
  pub table : IsTable s.table
  pub lines : s.lines < 2 ^ 31

-- A property that holds still if a part of the state changes as the program changes it.
pub record IsKept (I : System → Type 0) : Type 0 where
  pub kept_vm : (s : System) (vm : Vm) → (IsVm s.vm → IsVm vm) → I s → I (record s { vm = vm })
  pub kept_monitor :
      (s : System) (m : MonitorState)
      → (IsMonitor s.monitor → IsMonitor m)
      → I s
      → I (record s { monitor = m })
  pub kept_table :
      (s : System) (t : Table) → (IsTable s.table → IsTable t) → I s → I (record s { table = t })
  pub kept_lines : (s : System) (n : ℕ) → n < 2 ^ 31 → I s → I (record s { lines = n })
  pub kept_signal : (s : System) (b : Bool) → I s → I (record s { sigint_received = b })
  pub kept_code : (s : System) (c : ℕ) → I s → I (record s { brkcode = c })
  pub kept_tio : (s : System) (b : Bool) → I s → I (record s { perform_tio = b })
  pub kept_prev : (s : System) (r : Regs) → I s → I (record s { prev_regs = r })
  pub kept_input : (s : System) (rest : List ℕ) → I s → I (record s { input = rest })

pub IsSystem-IsKept : IsKept IsSystem
IsSystem-IsKept = record {
  kept_vm =
      λ s vm f h. record { vm = f h.vm; monitor = h.monitor; table = h.table; lines = h.lines };
  kept_monitor =
      λ s m f h. record { vm = h.vm; monitor = f h.monitor; table = h.table; lines = h.lines };
  kept_table =
      λ s t f h. record { vm = h.vm; monitor = h.monitor; table = f h.table; lines = h.lines };
  kept_lines = λ s n f h. record { vm = h.vm; monitor = h.monitor; table = h.table; lines = f };
  kept_signal =
      λ s b h. record { vm = h.vm; monitor = h.monitor; table = h.table; lines = h.lines };
  kept_code = λ s c h. record { vm = h.vm; monitor = h.monitor; table = h.table; lines = h.lines };
  kept_tio = λ s b h. record { vm = h.vm; monitor = h.monitor; table = h.table; lines = h.lines };
  kept_prev = λ s r h. record { vm = h.vm; monitor = h.monitor; table = h.table; lines = h.lines };
  kept_input =
      λ s rest h. record { vm = h.vm; monitor = h.monitor; table = h.table; lines = h.lines };
}

module _ (I : System → Type 0) (k : IsKept I) where
  Ends-settle :
      {A : Type 0} (P : A → Type 0) (s : System) (o : Option (A × Vm))
      → (IsVm s.vm → Post P o)
      → I s
      → Ends I Anything (settle s o)
  Ends-settle P s none f h = tt
  Ends-settle P s (some (v, vm)) f h = (tt, k.kept_vm s vm (λ hv. (f hv).1) h)

  pub Holds-on_vm : {A : Type 0} {P : A → Type 0} {m : M A} → Keeps P m → Holds I Anything (on_vm m)
  Holds-on_vm {P = P} {m = m} hm = record {
    run = λ s h. Ends-settle P s (m s.vm) (λ hv. hm.run s.vm hv) h;
  }

  pub Holds-say : (text : List ℕ) → Holds I Anything (say text)
  Holds-say text =
      Holds-change I _
        λ s h. k.kept_vm s _ (λ hv. record { regs = hv.regs; uart = hv.uart; memory = hv.memory }) h

  pub Holds-change_regs :
      {f : Regs → Regs} → ((r : Regs) → IsRegs r → IsRegs (f r)) → Holds I Anything (change_regs f)
  Holds-change_regs {f} keep = Holds-change I _ λ s h.
      k.kept_vm s (record (s.vm) { regs = f s.vm.regs })
        (λ hv. record { regs = keep s.vm.regs hv.regs; uart = hv.uart; memory = hv.memory }) h

  pub Holds-change_monitor :
      {f : MonitorState → MonitorState}
      → ((m : MonitorState) → IsMonitor m → IsMonitor (f m))
      → Holds I Anything (change_monitor f)
  Holds-change_monitor {f} keep =
      Holds-change I _ (λ s h. k.kept_monitor s (f s.monitor) (keep s.monitor) h)
