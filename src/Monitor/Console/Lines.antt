-- ===== src/Monitor/Console/Lines.antt =====
-- `_getline` of vmmonitor.c on a line of input.
use c_vm.Prelude.{
  ℕ, zero, suc, ◌-◌, ◌≤◌, ◌<◌, ◌≡◌, ◌≢◌, refl, ap, Bool, List, [], ◌∷◌, ◌++◌, Option, some, ltb,
  if◌then◌else◌, length, arith, Bool-cases, inl, inr, ◌∙◌,
}
use c_vm.Monitor.Console.{
  fgets, skip_line, c_string, last, drop_last, LineCode, input_ok, too_long, Line, finish_line,
  getline,
}

abbrev pub take : ℕ → List ℕ → List ℕ
take zero cs = []
take (suc n) [] = []
take (suc n) (c ∷ cs) = c ∷ take n cs

-- A line of text: no line feed, and no null.
abbrev pub IsText : List ℕ → Type 0
IsText [] = Unit {0}
IsText (c ∷ cs) = (c ≢ 10) × (c ≢ 0) × IsText cs

-- The first `n` characters, the line feed included if it is among them, and what is left.
fgets_fits :
    (n : ℕ) (line rest : List ℕ)
    → IsText line
    → length line < n
    → fgets n (line ++ 10 ∷ rest) ≡ (line ++ 10 ∷ [], rest)
unfolding fgets
fgets_fits zero line rest t h = absurd (omega arith)
fgets_fits (suc n) [] rest t h = refl
fgets_fits (suc n) (c ∷ line) rest t h = ground (arith, fgets_fits n line rest)

abbrev drop : ℕ → List ℕ → List ℕ
drop zero cs = cs
drop (suc n) [] = []
drop (suc n) (c ∷ cs) = drop n cs

fgets_full :
    (n : ℕ) (line rest : List ℕ)
    → IsText line
    → n ≤ length line
    → fgets n (line ++ 10 ∷ rest) ≡ (take n line, drop n line ++ 10 ∷ rest)
unfolding fgets
fgets_full zero line rest t h = refl
fgets_full (suc n) [] rest t h = absurd (omega arith)
fgets_full (suc n) (c ∷ line) rest t h = ground (arith, fgets_full n line rest)

skip_rest :
    (n : ℕ) (line rest : List ℕ)
    → IsText line
    → n ≤ length line
    → skip_line (drop n line ++ 10 ∷ rest) ≡ (ltb n (length line), rest)
unfolding skip_line
skip_rest zero [] rest t h = ground arith
skip_rest zero (c ∷ line) rest t h = ground (arith, skip_rest zero line rest)
skip_rest (suc n) [] rest t h = absurd (omega arith)
skip_rest (suc n) (c ∷ line) rest t h = ground (arith, skip_rest n line rest)

c_string-line : (line : List ℕ) → IsText line → c_string (line ++ 10 ∷ []) ≡ line ++ 10 ∷ []
unfolding c_string
c_string-line [] t = refl
c_string-line (c ∷ line) t = ground (arith, c_string-line line)

c_string-take : (n : ℕ) (line : List ℕ) → IsText line → c_string (take n line) ≡ take n line
unfolding c_string
c_string-take zero line t = refl
c_string-take (suc n) [] t = refl
c_string-take (suc n) (c ∷ line) t = ground (arith, c_string-take n line)

last-line : (c : ℕ) (line : List ℕ) → last (c ∷ (line ++ 10 ∷ [])) ≡ 10
unfolding last
last-line c [] = refl
last-line c (e ∷ line) = last-line e line

drop_last-line : (c : ℕ) (line : List ℕ) → drop_last (c ∷ (line ++ 10 ∷ [])) ≡ c ∷ line
unfolding drop_last
drop_last-line c [] = refl
drop_last-line c (e ∷ line) = ap (λ t. c ∷ t) (drop_last-line e line)

last-take : (n : ℕ) (c : ℕ) (line : List ℕ) → c ≢ 10 → IsText line → last (c ∷ take n line) ≢ 10
unfolding last
last-take zero c line h t = h
last-take (suc n) c [] h t = h
last-take (suc n) c (e ∷ line) h t = last-take n e line t.0 t.2

finish_fits :
    (line rest : List ℕ) → finish_line (line ++ 10 ∷ []) rest ≡ some (input_ok, line, rest)
unfolding last drop_last skip_line
finish_fits [] rest = refl
finish_fits (c ∷ line) rest =
    ground (arith, last-line c line, drop_last-line c line, last (c ∷ (line ++ 10 ∷ [])))

finish_full :
    (n : ℕ) (c : ℕ) (line left : List ℕ)
    → IsText (c ∷ line)
    → finish_line (c ∷ take n line) left
      ≡ some
          (if (skip_line left).0 then too_long else input_ok, c ∷ take n line, (skip_line left).1)
finish_full n c line left t = ground (arith, last-take n c line t.0 t.2)

take-all : (n : ℕ) (line : List ℕ) → length line ≤ n → take n line ≡ line
take-all zero [] h = refl
take-all (suc n) [] h = refl
take-all zero (c ∷ line) h = absurd (omega arith)
take-all (suc n) (c ∷ line) h = ap (λ t. c ∷ t) (take-all n line (omega arith))

length-take : (n : ℕ) (line : List ℕ) → length (take n line) ≤ n
length-take zero line = omega arith
length-take (suc n) [] = omega arith
length-take (suc n) (c ∷ line) = omega (arith, length-take n line)

abbrev after_fgets : ℕ → List ℕ → Option Line
after_fgets n input = let (line, rest) = fgets n input in finish_line (c_string line) rest

abbrev pub line_code : ℕ → List ℕ → LineCode
line_code n line = if ltb n (length line) then too_long else input_ok

line_cut :
    (n : ℕ) (line rest : List ℕ)
    → IsText line
    → suc n ≤ length line
    → after_fgets (suc n) (line ++ 10 ∷ rest)
      ≡ some (line_code (suc n) line, take (suc n) line, rest)
line_cut n [] rest t h = absurd (omega arith)
line_cut n (c ∷ line) rest t h =
    rw (fgets_full (suc n) (c ∷ line) rest t h, c_string-take (suc n) (c ∷ line) t)
      (finish_full n c line (drop n line ++ 10 ∷ rest) t
        ∙ ap
            (λ (r : Bool × List ℕ). some (if r.0 then too_long else input_ok, c ∷ take n line, r.1))
            (skip_rest (suc n) (c ∷ line) rest t h))

line_read :
    (n : ℕ) (line rest : List ℕ)
    → IsText line
    → after_fgets (suc n) (line ++ 10 ∷ rest)
      ≡ some (line_code (suc n) line, take (suc n) line, rest)
line_read n line rest t = elim (Bool-cases (ltb (length line) (suc n))) [
  | inl e ↦
      rw (fgets_fits (suc n) line rest t (ground arith), c_string-line line t)
        (finish_fits line rest ∙ ground (arith, take-all (suc n) line))
  | inr e ↦ line_cut n line rest t (ground arith)
]

getline_read :
    (sz : ℕ) (line rest : List ℕ)
    → getline sz (line ++ 10 ∷ rest) ≡ after_fgets (sz - 1) (line ++ 10 ∷ rest)
unfolding getline
getline_read sz [] rest = refl
getline_read sz (c ∷ line) rest = refl

-- `_getline` with a buffer of at least two characters, on a line of text with its line feed: the
-- buffer holds the line, cut to what fits with the null; the code tells whether it was cut; and the
-- whole line is consumed, so that the next call begins with the next line.
pub getline_lem :
    (sz : ℕ) (line rest : List ℕ)
    → 2 ≤ sz
    → IsText line
    → (getline sz (line ++ 10 ∷ rest) ≡ some (line_code (sz - 1) line, take (sz - 1) line, rest))
      × (length (take (sz - 1) line) < sz)
getline_lem sz line rest h t =
    let e : sz - 1 ≡ suc (sz - 2) = omega arith in
    (
      getline_read sz line rest ∙ rw e (line_read (sz - 2) line rest t),
      omega (arith, length-take (sz - 1) line),
    )
