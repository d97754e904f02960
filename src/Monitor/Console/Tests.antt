-- ===== src/Monitor/Console/Tests.antt =====
-- The theorems on reading lines and numbers on a line of input.
use c_vm.Prelude.{ℕ, ◌-◌, ◌<◌, ◌≡◌, refl, ◌++◌, List, [], ◌∷◌, some, length, arith}
use c_vm.Monitor.Console.{getline, scan_dec, scan_hex, skip_space, scan_digits, getval}
use c_vm.Monitor.Console.Lines.{line_code, take, getline_lem}

-- "go" and a second line.
abbrev word : List ℕ
word = b'g' ∷ b'o' ∷ []

abbrev more : List ℕ
more = b'r' ∷ b'\n' ∷ []

getline_lem_example :
    (getline 2 (word ++ 10 ∷ more) ≡ some (line_code (2 - 1) word, take (2 - 1) word, more))
    × (length (take (2 - 1) word) < 2)
getline_lem_example = getline_lem 2 word more (omega arith) (ground arith)

-- A number in decimal, and one with a sign.
getval_decimal : getval (b'.' ∷ b'1' ∷ b'0' ∷ []) ≡ some 10
unfolding getval scan_dec skip_space scan_digits
getval_decimal = refl

getval_minus : getval (b'-' ∷ b'1' ∷ []) ≡ some 0xffffffff
unfolding getval scan_hex skip_space scan_digits
getval_minus = refl
