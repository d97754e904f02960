-- ===== src/Monitor/Console.antt =====
-- `_getline` and `_getval` of vmmonitor.c, with what they use of the standard library: `fgets`,
-- `getchar`, `strlen` and `sscanf` with `%d` and `%x`. Standard input is the list of the
-- characters to come, and a string of C the list of its characters before the null.
pub mod Lines
pub mod Numbers
mod Tests
use c_vm.Prelude.{
  ℕ, zero, suc, ◌+◌, ◌-◌, ◌*◌, ◌%◌, ◌^◌, Bool, true, false, not, ◌&&◌, ◌||◌, List, [], ◌∷◌, Option,
  none, some, ◌==◌, ltb, leb, if◌then◌else◌, get_or,
}

-- `cmdline[i]`, within the string or at its null.
abbrev pub char_at : List ℕ → ℕ → ℕ
char_at cs i = get_or cs i 0

-- `cmdline+1`
abbrev pub tail : List ℕ → List ℕ
tail [] = []
tail (c ∷ cs) = cs

-- What `fgets` stores, with `n` characters to go, and the characters that it leaves.
unfoldable pub fgets : ℕ → List ℕ → List ℕ × List ℕ
fgets zero input = ([], input)
fgets (suc n) [] = ([], [])
fgets (suc n) (c ∷ input) =
    let (line, rest) = fgets n input in if c == b'\n' then (c ∷ [], input) else (c ∷ line, rest)

-- The loop of `getchar` in `_getline`: whether it skips anything, and what is left.
unfoldable pub skip_line : List ℕ → Bool × List ℕ
skip_line [] = (false, [])
skip_line (c ∷ input) =
    let (extra, rest) = skip_line input in if c == b'\n' then (false, input) else (true, rest)

-- The characters before the first null.
unfoldable pub c_string : List ℕ → List ℕ
c_string [] = []
c_string (c ∷ cs) = let rest = c_string cs in if c == 0 then [] else c ∷ rest

unfoldable pub last : List ℕ → ℕ
last [] = 0
last (c ∷ []) = c
last (c ∷ e ∷ cs) = last (e ∷ cs)

unfoldable pub drop_last : List ℕ → List ℕ
drop_last [] = []
drop_last (c ∷ []) = []
drop_last (c ∷ e ∷ cs) = c ∷ drop_last (e ∷ cs)

pub data LineCode : Type 0 where
  no_input input_ok too_long : LineCode

-- The code, the string in the buffer, and the input that is left.
abbrev pub Line : Type 0
Line = LineCode × List ℕ × List ℕ

-- `_getline` after `fgets`. The string is empty only if its first character is a null; then the
-- character before the buffer is read, and there is no result.
abbrev pub finish_line : List ℕ → List ℕ → Option Line
finish_line [] rest = none
finish_line (c ∷ cs) rest =
    let (extra, left) = skip_line rest in
    if last (c ∷ cs) == b'\n'
    then some (input_ok, drop_last (c ∷ cs), rest)
    else some (if extra then too_long else input_ok, c ∷ cs, left)

-- `_getline` with a buffer of `sz` characters. With `no_input` the buffer is as it was.
unfoldable pub getline : ℕ → List ℕ → Option Line
unfolding fgets skip_line c_string last drop_last
getline sz [] = some (no_input, [], [])
getline sz (c ∷ input) =
    let (line, rest) = fgets (sz - 1) (c ∷ input) in finish_line (c_string line) rest

-- `isspace`, and the value of a digit; 16 for what is none.
abbrev pub is_space : ℕ → Bool
is_space c = c == b' ' || (leb 9 c && leb c 13)

abbrev pub digit_value : ℕ → ℕ
digit_value c =
    if leb b'0' c && leb c b'9'
    then c - b'0'
    else if leb b'a' c && leb c b'f'
    then c - b'a' + 10
    else if leb b'A' c && leb c b'F'
    then c - b'A' + 10
    else 16

unfoldable pub skip_space : List ℕ → List ℕ
skip_space [] = []
skip_space (c ∷ cs) = let rest = skip_space cs in if is_space c then rest else c ∷ cs

unfoldable pub scan_digits : ℕ → ℕ → List ℕ → ℕ
scan_digits base acc [] = acc
scan_digits base acc (c ∷ cs) =
    let more = scan_digits base (acc * base + digit_value c) cs in
    if ltb (digit_value c) base then more else acc

-- A sign, whether it is a minus, and what follows.
abbrev pub scan_sign : List ℕ → Bool × List ℕ
scan_sign [] = (false, [])
scan_sign (c ∷ cs) =
    if c == b'-' then (true, cs) else if c == b'+' then (false, cs) else (false, c ∷ cs)

-- The `0x` that `%x` allows.
abbrev pub skip_prefix : List ℕ → List ℕ
skip_prefix (c ∷ e ∷ cs) = if c == b'0' && (e == b'x' || e == b'X') then cs else c ∷ e ∷ cs
skip_prefix cs = cs

-- `int` values are words of 32 bits. A conversion that does not fit is undefined.
abbrev pub to_int : Bool → ℕ → ℕ
to_int minus v = if minus then (2 ^ 32 - v) % 2 ^ 32 else v

unfoldable pub scan_dec : List ℕ → Option ℕ
unfolding skip_space scan_digits
scan_dec cs =
    let (minus, rest) = scan_sign (skip_space cs) in
    let v = scan_digits 10 0 rest in
    if leb v (if minus then 2 ^ 31 else 2 ^ 31 - 1) then some (to_int minus v) else none

unfoldable pub scan_hex : List ℕ → Option ℕ
unfolding skip_space scan_digits
scan_hex cs =
    let (minus, rest) = scan_sign (skip_space cs) in
    let v = scan_digits 16 0 (skip_prefix rest) in
    if ltb v (2 ^ 32) then some (to_int minus v) else none

-- `_getval`: without any digits the value stays 0.
unfoldable pub getval : List ℕ → Option ℕ
unfolding scan_dec scan_hex
getval str = if char_at str 0 == b'.' then scan_dec (tail str) else scan_hex str
