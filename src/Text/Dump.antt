-- ===== src/Text/Dump.antt =====
-- The pieces of text that `mon_printmem` (vmmonitor.c) prints.
use c_vm.Prelude.{ℕ, zero, suc, ◌+◌, ◌%◌, List, [], ◌∷◌, ◌++◌, nonzero, u16, if◌then◌else◌}
use c_vm.Text.{chars, join, newline, hex2, hex4, is_graph}

abbrev pub dump_header : List ℕ
dump_header = chars "       0  1  2  3   4  5  6  7   8  9  a  b   c  d  e  f  0123456789abcdef\n"

-- `"%s%s%s%04x"` at the start of a line: the end of the line before, and the address.
abbrev pub line_start : ℕ → ℕ → List ℕ → List ℕ
line_start addr ii pchars = join (
    (if nonzero ii then join (chars "  " ∷ pchars ∷ newline ∷ []) else [])
    ∷ hex4 (u16 (addr + ii))
    ∷ [])

-- A byte: a space, two of them before each fourth, and `%02x`, or a point for 0.
abbrev pub dump_cell : ℕ → ℕ → List ℕ
dump_cell ii byte =
    (if nonzero (ii % 4) then chars " " else chars "  ")
    ++ (if nonzero byte then hex2 byte else chars " .")

abbrev pub graphic : ℕ → ℕ
graphic byte = if is_graph byte then byte else b'.'

-- The loop that fills the last line, with `n` places to go.
abbrev pub filling : ℕ → ℕ → List ℕ
filling zero ii = []
filling (suc n) ii = (if nonzero (ii % 4) then chars "   " else chars "    ") ++ filling n (ii + 1)

abbrev pub dump_end : List ℕ → List ℕ
dump_end pchars = join (chars "  " ∷ pchars ∷ newline ∷ [])
