-- ===== src/Text.antt =====
-- The conversions of `printf` that the program uses, as lists of characters.
pub mod Registers
pub mod Dump
pub mod DumpRead
pub mod Help
pub mod Trace
mod Tests
use Prim.Native.Char.{code}
use Prim.Native.String.{String}
use c_vm.Prelude.{
  ℕ, zero, suc, ◌+◌, ◌-◌, ◌*◌, ◌/◌, ◌%◌, ◌^◌, Bool, ◌&&◌, List, [], ◌∷◌, ◌++◌, ltb, leb,
  if◌then◌else◌, length,
}

-- A string literal.
abbrev pub chars : String → List ℕ
chars String.[] = []
chars (String.◌∷◌ c s) = code c ∷ chars s

-- `puts("")`
abbrev pub newline : List ℕ
newline = b'\n' ∷ []

abbrev pub blanks : ℕ → List ℕ
blanks zero = []
blanks (suc n) = b' ' ∷ blanks n

-- The pieces of a text in their order.
abbrev pub join : List (List ℕ) → List ℕ
join [] = []
join (t ∷ ts) = t ++ join ts

-- `%ns`
abbrev pub pad : ℕ → List ℕ → List ℕ
pad n cs = blanks (n - length cs) ++ cs

-- The digit that `%x` prints, `%02x` of a byte and `%04x` of a word.
abbrev pub hex_digit : ℕ → ℕ
hex_digit n = if ltb n 10 then b'0' + n else b'a' + (n - 10)

abbrev pub hex2 : ℕ → List ℕ
hex2 v = hex_digit (v / 16) ∷ hex_digit (v % 16) ∷ []

abbrev pub hex4 : ℕ → List ℕ
hex4 v =
    hex_digit (v / 4096)
    ∷ hex_digit (v / 256 % 16)
    ∷ hex_digit (v / 16 % 16)
    ∷ hex_digit (v % 16)
    ∷ []

-- `%0wx` of an `int`, a word of 32 bits: at least `w` digits, and as many as it takes.
abbrev pub hex_exact : ℕ → ℕ → List ℕ
hex_exact zero v = []
hex_exact (suc n) v = hex_digit (v / 16 ^ n % 16) ∷ hex_exact n v

abbrev pub hex_width : ℕ → ℕ → ℕ → ℕ
hex_width zero w v = w
hex_width (suc n) w v = let more = hex_width n (w + 1) v in if ltb v (16 ^ w) then w else more

abbrev pub hex_int : ℕ → ℕ → List ℕ
hex_int w v = hex_exact (hex_width 8 w v) v

-- `%d` of a number of at most ten digits.
abbrev pub dec_digits : ℕ → ℕ → List ℕ → List ℕ
dec_digits zero v acc = acc
dec_digits (suc n) v acc =
    let more = dec_digits n (v / 10) ((b'0' + v % 10) ∷ acc) in
    if ltb v 10 then (b'0' + v % 10) ∷ acc else more

abbrev pub dec : ℕ → List ℕ
dec v = dec_digits 10 v []

-- `%+d` of a number of `w` bits in two's complement.
abbrev pub plus_dec : ℕ → ℕ → List ℕ
plus_dec w v = if ltb v (2 ^ (w - 1)) then b'+' ∷ dec v else b'-' ∷ dec (2 ^ w - v)

-- `isprint` and `isgraph` of the C locale.
abbrev pub is_print : ℕ → Bool
is_print c = leb 32 c && leb c 126

abbrev pub is_graph : ℕ → Bool
is_graph c = leb 33 c && leb c 126
