-- ===== src/Monitor/Files.antt =====
-- The files and paths of vmmonitor.c. `files` is what `fopen` and `fgetc` find under a path.
pub mod Types
use c_vm.Prelude.{
  ℕ, ◌+◌, Bool, true, false, List, [], ◌∷◌, ◌++◌, Option, none, some, nonzero, u16, if◌then◌else◌,
}
use c_vm.Machine.{Vm}
use c_vm.Memory.{mem_wr16}
use c_vm.System.{
  System, MonitorState, Outcome, faulted, done, Run, give, next, ◌>>=◌, ◌>>◌, gets, change, on_vm,
  say, change_monitor,
}
use c_vm.System.Strings.{cmd_line_length, separator, current_path, os_sprintf, directory}
use c_vm.Text.{chars, join, newline, dec, hex4}
use c_vm.Monitor.Console.{LineCode, no_input, input_ok, too_long, Line, char_at, getline}
use c_vm.Monitor.Memory.{read_bytes}

-- A call of `_getline`: its code and the string in the buffer.
abbrev pub take_line : Option Line → Run (LineCode × List ℕ)
take_line none s = faulted
take_line (some (code, line, rest)) s = done (code, line) (record s { input = rest })

unfoldable pub read_line : ℕ → Run (LineCode × List ℕ)
unfolding getline
read_line size s = take_line (getline size s.input) s

-- `_getline` with its prompt.
abbrev pub ask : List ℕ → ℕ → Run (LineCode × List ℕ)
ask text size = do say text; read_line size

-- `mon_setfile`
unfoldable pub setfile : List ℕ → Run (Unit {0})
unfolding os_sprintf
setfile file = do
  path ← gets (λ s. s.monitor.l_path)
  text ← os_sprintf cmd_line_length (path ++ separator ∷ file)
  change_monitor (λ m. record m { l_file = text })

-- `mon_getexepath`: the path up to its last separator.
abbrev pub cut_path : ℕ → Option (List ℕ) → Run (List ℕ)
unfolding os_sprintf
cut_path size (some path) = give path
cut_path size none = os_sprintf size current_path

unfoldable pub getexepath : List ℕ → ℕ → Run (List ℕ)
unfolding os_sprintf directory
getexepath path size = do text ← os_sprintf size path; cut_path size (directory text)

-- `mon_getpath`, for `monitor.l_path`.
abbrev pub put_path : LineCode → List ℕ → Run (Unit {0})
unfolding os_sprintf
put_path input_ok line =
    if nonzero (char_at line 0)
    then (do
      text ← os_sprintf cmd_line_length line
      change_monitor (λ m. record m { l_path = text }))
    else give tt
put_path no_input line = give tt
put_path too_long line = give tt

unfoldable pub getpath : Run (Unit {0})
unfolding getline os_sprintf
getpath = do
  path ← gets (λ s. s.monitor.l_path)
  say (join (chars "path:" ∷ path ∷ newline ∷ []))
  answer ← ask (chars "  ?") cmd_line_length
  put_path answer.0 answer.1

-- `mon_listdir`, but for the call of `system`: the text of `CMD_LIST_FILES` around the path.
abbrev pub list_files : List ℕ → List ℕ
list_files path =
    b'c'
    ∷ b'd'
    ∷ b' '
    ∷ (path
        ++ b' ' ∷ b'&' ∷ b'&' ∷ b' ' ∷ b'l' ∷ b's' ∷ b' ' ∷ b'-' ∷ b'1' ∷ b' ' ∷ b'*' ∷ b'.' ∷ b'b'
          ∷ b'i' ∷ b'n' ∷ [])

unfoldable pub listdir : List ℕ → Run (Unit {0})
unfolding os_sprintf
listdir path = do cmd ← os_sprintf cmd_line_length (list_files path); say newline

abbrev pub not_found_text : List ℕ → List ℕ
not_found_text file = join (chars "  could not open " ∷ file ∷ newline ∷ [])

-- `mon_read_bin`, once the file is open or is not.
unfoldable pub read_bin : List ℕ → Option (List ℕ) → ℕ → Run ℕ
unfolding read_bytes
read_bin file none start s = (do say (not_found_text file); give 0) s
read_bin file (some content) start s =
    let (memory, n) = read_bytes content start s.vm.memory in
    done n (record s { vm = record (s.vm) { memory = memory } })

abbrev pub read_text : ℕ → List ℕ → ℕ → List ℕ
read_text n file start = join (
    chars "  Read "
    ∷ dec n
    ∷ chars " bytes\n  from "
    ∷ file
    ∷ chars "\n  to "
    ∷ hex4 start
    ∷ newline
    ∷ [])

module _ (files : List ℕ → Option (List ℕ)) where
  -- `mon_read`
  unfoldable pub read : List ℕ → ℕ → Run (Unit {0})
  unfolding read_bin mem_wr16
  read file start = do
    n ← read_bin file (files file) start
    if nonzero n then (do say (read_text n file start); on_vm (mem_wr16 0xfffe start)) else give tt
