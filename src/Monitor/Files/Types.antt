-- ===== src/Monitor/Files/Types.antt =====
-- The files and paths of vmmonitor.c keep what the parts of the state keep.
use c_vm.Prelude.{
  ℕ, ◌<◌, ◌≡◌, refl, Bool, true, false, List, ◌∷◌, ◌++◌, Option, none, some, ltb, nonzero,
  if◌then◌else◌, length, arith,
}
use c_vm.Memory.Types.{mem_wr16-Keeps}
use c_vm.System.{System, done, aborted, change_monitor, ◌>>=◌}
use c_vm.System.Holds.{
  Ends, Holds, Anything, Holds-give, Holds-with, Holds-if, Holds-bind, Holds-seq,
}
use c_vm.System.Kept.{IsKept, Holds-on_vm, Holds-say, Holds-change_monitor}
use c_vm.System.Strings.{os_sprintf}
use c_vm.Monitor.Console.{LineCode, no_input, input_ok, too_long, Line, char_at, getline}
use c_vm.Monitor.Memory.Types.{read_bytes_lt}
use c_vm.Monitor.Files.{
  take_line, read_line, ask, setfile, put_path, getpath, list_files, listdir, read_bin, read,
}

abbrev pub Fits : List ℕ → Type 0
Fits text = length text < 80

module _ (I : System → Type 0) (k : IsKept I) where
  Ends-sprintf :
      (b : Bool) (text : List ℕ) (s : System)
      → ltb (length text) 80 ≡ b
      → I s
      → Ends I Fits (if b then done text s else aborted)
  Ends-sprintf true text s e h = (ground (arith, e), h)
  Ends-sprintf false text s e h = tt

  pub os_sprintf-Holds : (text : List ℕ) → Holds I Fits (os_sprintf 80 text)
  unfolding os_sprintf
  os_sprintf-Holds text = record { run = λ s h. Ends-sprintf _ text s refl h }

  Ends-take_line : (o : Option Line) (s : System) → I s → Ends I Anything (take_line o s)
  Ends-take_line none s h = tt
  Ends-take_line (some (code, line, rest)) s h = (tt, k.kept_input s rest h)

  pub read_line-Holds : (size : ℕ) → Holds I Anything (read_line size)
  unfolding read_line
  read_line-Holds size = record { run = λ s h. Ends-take_line (getline size s.input) s h }

  pub ask-Holds : (text : List ℕ) (size : ℕ) → Holds I Anything (ask text size)
  ask-Holds text size = Holds-seq I (Holds-say I k text) (read_line-Holds size)

  pub setfile-Holds : (file : List ℕ) → Holds I Anything (setfile file)
  unfolding setfile
  setfile-Holds file =
      Holds-with I (λ s. s.monitor.l_path)
        λ path. Holds-bind I (os_sprintf-Holds (path ++ b'/' ∷ file)) λ text fits.
          Holds-change_monitor I k (λ m h. record {
            m_address = h.m_address;
            m_chunk = h.m_chunk;
            l_start = h.l_start;
            l_file = fits;
            l_path = h.l_path;
            l_dftpath = h.l_dftpath;
          })

  pub put_line-Holds :
      (text : List ℕ)
      → Holds I Anything
          (do line ← os_sprintf 80 text; change_monitor (λ m. record m { l_path = line }))
  put_line-Holds text = Holds-bind I (os_sprintf-Holds text) λ line fits.
      Holds-change_monitor I k (λ m h. record {
        m_address = h.m_address;
        m_chunk = h.m_chunk;
        l_start = h.l_start;
        l_file = h.l_file;
        l_path = fits;
        l_dftpath = h.l_dftpath;
      })

  put_path-Holds : (code : LineCode) (line : List ℕ) → Holds I Anything (put_path code line)
  unfolding put_path
  put_path-Holds input_ok line =
      Holds-if I Anything (nonzero (char_at line 0)) (put_line-Holds line)
        (Holds-give I Anything tt tt)
  put_path-Holds no_input line = Holds-give I Anything tt tt
  put_path-Holds too_long line = Holds-give I Anything tt tt

  pub getpath-Holds : Holds I Anything getpath
  unfolding getpath
  getpath-Holds =
      Holds-with I (λ s. s.monitor.l_path)
        λ path.
          Holds-seq I (Holds-say I k _)
            (Holds-bind I (ask-Holds _ 80) (λ answer _. put_path-Holds answer.0 answer.1))

  pub listdir-Holds : (path : List ℕ) → Holds I Anything (listdir path)
  unfolding listdir
  listdir-Holds path = Holds-bind I (os_sprintf-Holds (list_files path)) (λ _ _. Holds-say I k _)

  read_bin-Holds :
      (file : List ℕ) (o : Option (List ℕ)) (start : ℕ) → Holds I Anything (read_bin file o start)
  unfolding read_bin
  read_bin-Holds file none start = record {
    run = λ s h. (Holds-seq I {B = ℕ} (Holds-say I k _) (Holds-give I Anything 0 tt)).run s h;
  }
  read_bin-Holds file (some content) start = record {
    run = λ s h. (
      tt,
      k.kept_vm s _
          (λ hv. record {
            regs = hv.regs;
            uart = hv.uart;
            memory = read_bytes_lt content start s.vm.memory hv.memory;
          })
          h,
    );
  }

  pub read-Holds :
      (files : List ℕ → Option (List ℕ)) (file : List ℕ) (start : ℕ)
      → start < 65536
      → Holds I Anything (read files file start)
  unfolding read
  read-Holds files file start small = Holds-bind I (read_bin-Holds file (files file) start) λ n _.
      Holds-if I Anything (nonzero n)
        (Holds-seq I (Holds-say I k _) (Holds-on_vm I k (mem_wr16-Keeps 0xfffe start small)))
        (Holds-give I Anything tt tt)
