-- ===== src/System/Strings.antt =====
-- Strings of C in buffers of a fixed size: `os_sprintf` of os.c, and the paths of vmmonitor.c.
use c_vm.Prelude.{
  ℕ, Bool, true, false, List, [], ◌∷◌, Option, none, some, ◌==◌, ltb, if◌then◌else◌, length,
}
use c_vm.System.{aborted, done, Run}

-- `CMD_LINE_LENGTH`
abbrev pub cmd_line_length : ℕ
cmd_line_length = 80

-- `CMD_PATH_SEPARATOR` and `CMD_CURRENT_PATH`
abbrev pub separator : ℕ
separator = b'/'

abbrev pub current_path : List ℕ
current_path = b'.' ∷ separator ∷ []

-- `os_sprintf`, given the text that it formats: `vsnprintf` cuts the text to the buffer and
-- returns its whole length, and the assertion ends the program if that does not fit.
unfoldable pub os_sprintf : ℕ → List ℕ → Run (List ℕ)
os_sprintf size text s = if ltb (length text) size then done text s else aborted

-- `strcmp` and the null test of the results.
unfoldable pub same_string : List ℕ → List ℕ → Bool
same_string [] [] = true
same_string [] (c ∷ cs) = false
same_string (c ∷ cs) [] = false
same_string (c ∷ cs) (e ∷ es) = let rest = same_string cs es in if c == e then rest else false

-- The loop of `strchr` in `mon_getexepath`: what stands up to the last separator, if there is one.
unfoldable pub directory : List ℕ → Option (List ℕ)
directory [] = none
directory (c ∷ cs) = elim (directory cs) [
  | none ↦ if c == separator then some (c ∷ []) else none
  | some path ↦ some (c ∷ path)
]
