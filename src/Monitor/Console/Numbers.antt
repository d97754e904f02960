-- ===== src/Monitor/Console/Numbers.antt =====
-- `_getval` of vmmonitor.c on the numbers that the monitor prints.
use c_vm.Prelude.{
  ℕ, ◌+◌, ◌*◌, ◌/◌, ◌%◌, ◌^◌, ◌<◌, ◌≡◌, refl, ◌∙◌, false, List, [], ◌∷◌, some, ◌==◌, arith,
}
use c_vm.Text.{hex_digit, hex4}
use c_vm.Monitor.Console.{is_space, digit_value, skip_space, scan_digits, scan_hex, getval}

pub digit_value-hex : (n : ℕ) → n < 16 → digit_value (hex_digit n) ≡ n
digit_value-hex n h = ground arith

-- What no hexadecimal digit is.
plain_digit :
    (n : ℕ)
    → n < 16
    → (is_space (hex_digit n) ≡ false)
      × ((hex_digit n == b'-') ≡ false)
      × ((hex_digit n == b'+') ≡ false)
      × ((hex_digit n == b'.') ≡ false)
      × ((hex_digit n == b'x') ≡ false)
      × ((hex_digit n == b'X') ≡ false)
plain_digit n h =
    (ground arith, ground arith, ground arith, ground arith, ground arith, ground arith)

scan_step :
    (acc n : ℕ) (cs : List ℕ)
    → n < 16
    → scan_digits 16 acc (hex_digit n ∷ cs) ≡ scan_digits 16 (acc * 16 + n) cs
unfolding scan_digits
scan_step acc n cs h = rw (digit_value-hex n h) (ground arith)

-- Digits with nothing before them.
getval_digits :
    (c e v : ℕ) (cs : List ℕ)
    → is_space c ≡ false
    → (c == b'-') ≡ false
    → (c == b'+') ≡ false
    → (c == b'.') ≡ false
    → (e == b'x') ≡ false
    → (e == b'X') ≡ false
    → scan_digits 16 0 (c ∷ e ∷ cs) ≡ v
    → v < 2 ^ 32
    → getval (c ∷ e ∷ cs) ≡ some v
unfolding getval scan_hex skip_space
getval_digits c e v cs space minus plus dot x1 x2 scanned small =
    rw (dot, space, minus, plus, x1, x2) (ground (arith, scanned))

scan_four :
    (p q r s : ℕ)
    → p < 16
    → q < 16
    → r < 16
    → s < 16
    → scan_digits 16 0 (hex_digit p ∷ hex_digit q ∷ hex_digit r ∷ hex_digit s ∷ [])
      ≡ ((p * 16 + q) * 16 + r) * 16 + s
unfolding scan_digits
scan_four p q r s hp hq hr hs =
    scan_step 0 p (hex_digit q ∷ hex_digit r ∷ hex_digit s ∷ []) hp
    ∙ scan_step (0 * 16 + p) q (hex_digit r ∷ hex_digit s ∷ []) hq
    ∙ scan_step ((0 * 16 + p) * 16 + q) r (hex_digit s ∷ []) hr
    ∙ scan_step (((0 * 16 + p) * 16 + q) * 16 + r) s [] hs
    ∙ scan_end ((((0 * 16 + p) * 16 + q) * 16 + r) * 16 + s)
    ∙ omega arith
  where
    scan_end : (n : ℕ) → scan_digits 16 n [] ≡ n
    scan_end n = refl

-- An address that is typed as the monitor prints it is read back.
pub getval-hex4 : (v : ℕ) → v < 65536 → getval (hex4 v) ≡ some v
getval-hex4 v h =
    let first = plain_digit (v / 4096) (omega arith) in
    let second = plain_digit (v / 256 % 16) (omega arith) in
    getval_digits (hex_digit (v / 4096)) (hex_digit (v / 256 % 16)) v
      (hex_digit (v / 16 % 16) ∷ hex_digit (v % 16) ∷ []) first.0 first.1 first.2 first.3 second.4
      second.5
      (scan_four (v / 4096) (v / 256 % 16) (v / 16 % 16) (v % 16) (omega arith) (omega arith)
          (omega arith) (omega arith)
        ∙ omega arith)
      (omega arith)
