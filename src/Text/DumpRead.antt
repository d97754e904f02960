-- ===== src/Text/DumpRead.antt =====
-- The dump of `mon_printmem` (vmmonitor.c) shows the bytes that it reads.
use mathlib.Core.List.{append-nil, append_assoc}
use c_vm.Prelude.{
  ℕ, zero, suc, ◌+◌, ◌-◌, ◌*◌, ◌/◌, ◌%◌, ◌<◌, ◌≤◌, ◌≡◌, refl, sym, ap, ap₂, ◌∙◌, true, List, [],
  ◌∷◌, ◌++◌, ◌==◌, some, inl, if◌then◌else◌, nonzero, arith, u16, length, length-append,
}
use c_vm.Machine.{Vm, print, and_then, ◌>>=◌, ◌>>◌}
use c_vm.Memory.{mem_rd8}
use c_vm.Memory.Laws.{mem_rd8_ram}
use c_vm.Monitor.Console.{digit_value}
use c_vm.Monitor.Console.Numbers.{digit_value-hex}
use c_vm.Monitor.Memory.{print_bytes, printmem}
use c_vm.Text.{chars, hex2, hex4}
use c_vm.Text.Dump.{dump_header, line_start, dump_cell, graphic, filling, dump_end}

abbrev pub drop : ℕ → List ℕ → List ℕ
drop zero cs = cs
drop (suc n) [] = []
drop (suc n) (c ∷ cs) = drop n cs

-- Two characters of the dump: a space for 0, or two digits.
abbrev pub read_cell : List ℕ → ℕ
read_cell (p ∷ q ∷ cs) = if p == b' ' then 0 else digit_value p * 16 + digit_value q
read_cell cs = 0

-- What stands before the byte with the index `ii`: spaces; at the start of a line the address, and
-- before that the end of the line before.
abbrev pub margin : ℕ → ℕ
margin ii =
    (if ii % 16 == 0 then (if nonzero ii then 23 else 4) else 0)
    + (if nonzero (ii % 4) then 1 else 2)

-- The bytes of a dump from the index `ii` on.
abbrev pub read_cells : ℕ → ℕ → List ℕ → List ℕ
read_cells zero ii text = []
read_cells (suc n) ii text =
    let here = drop (margin ii) text in read_cell here ∷ read_cells n (ii + 1) (drop 2 here)

-- `n` bytes of memory from the address of the index `ii` on.
abbrev pub bytes_at : ℕ → ℕ → (ℕ → ℕ) → List ℕ
bytes_at zero i memory = []
bytes_at (suc n) i memory = memory i ∷ bytes_at n (i + 1) memory

-- The characters that the loop prints, and those that it has not printed yet.
abbrev loop_text : ℕ → ℕ → ℕ → (ℕ → ℕ) → List ℕ → List ℕ × List ℕ
loop_text zero ii addr memory pchars = ([], pchars)
loop_text (suc n) ii addr memory pchars =
    let byte = memory (addr + ii) in
    let first = ii % 16 == 0 in
    let (text, last) =
      loop_text n (ii + 1) addr memory ((if first then [] else pchars) ++ graphic byte ∷ []) in
    ((if first then line_start addr ii pchars else []) ++ (dump_cell ii byte ++ text), last)

print_bytes_lem :
    (n ii addr : ℕ) (pchars : List ℕ) (vm : Vm)
    → addr + ii + n ≤ 0xff00
    → print_bytes n ii addr pchars vm ≡ (
        let (text, last) = loop_text n ii addr vm.memory pchars in
        some (last, record vm { printed = vm.printed ++ text }))
print_bytes_lem zero ii addr pchars vm h =
    ap (λ t. some (pchars, record vm { printed = t })) (sym (append-nil vm.printed))
print_bytes_lem (suc n) ii addr pchars vm h =
    let byte = vm.memory (addr + ii) in
    let first = ii % 16 == 0 in
    let start = if first then line_start addr ii pchars else [] in
    let kept = (if first then [] else pchars) ++ graphic byte ∷ [] in
    let (text, last) = loop_text n (ii + 1) addr vm.memory kept in
    let same : u16 (addr + ii) ≡ addr + ii = omega arith in
    ap
      (λ a.
        ((mem_rd8 a >>= λ byte'.
        print start
        >> (print (dump_cell ii byte')
            >> print_bytes n (ii + 1) addr ((if first then [] else pchars) ++ graphic byte' ∷ [])))
          vm))
      same
    ∙ ap
        (λ o. and_then o (λ byte'.
          print start
          >> (print (dump_cell ii byte')
              >> print_bytes n (ii + 1) addr
                  ((if first then [] else pchars) ++ graphic byte' ∷ []))))
        (mem_rd8_ram (addr + ii) vm (inl (omega arith)))
    ∙ print_bytes_lem n (ii + 1) addr kept
        (record vm { printed = (vm.printed ++ start) ++ dump_cell ii byte }) (omega arith)
    ∙ ap (λ t. some (last, record vm { printed = t }))
        (append_assoc (vm.printed ++ start) (dump_cell ii byte) text
          ∙ append_assoc vm.printed start (dump_cell ii byte ++ text))

drop-append : (k : ℕ) (xs ys : List ℕ) → k ≡ length xs → drop k (xs ++ ys) ≡ ys
drop-append zero [] ys h = refl
drop-append (suc k) [] ys h = absurd (omega arith)
drop-append zero (x ∷ xs) ys h = absurd (omega arith)
drop-append (suc k) (x ∷ xs) ys h = drop-append k xs ys (omega arith)

-- The two characters of a byte, and the spaces before them.
abbrev two_chars : ℕ → List ℕ
two_chars byte = if nonzero byte then hex2 byte else chars " ."

abbrev spaces : ℕ → List ℕ
spaces ii = if nonzero (ii % 4) then chars " " else chars "  "

read_cell_lem : (byte : ℕ) (rest : List ℕ) → byte < 256 → read_cell (two_chars byte ++ rest) ≡ byte
read_cell_lem byte rest h = ground (arith, digit_value-hex (byte / 16), digit_value-hex (byte % 16))

drop_two : (byte : ℕ) (rest : List ℕ) → drop 2 (two_chars byte ++ rest) ≡ rest
drop_two byte rest = ground arith

-- How many characters are kept for the end of the line before the index `ii`.
abbrev kept_length : ℕ → ℕ
kept_length zero = 0
kept_length (suc i) = i % 16 + 1

length-line_start :
    (i addr : ℕ) (pchars : List ℕ) → length (line_start addr (suc i) pchars) ≡ length pchars + 7
length-line_start i addr pchars =
    let shown : nonzero (suc i) ≡ true = ground arith in
    rw shown (
      omega (
        arith,
        length-append (b' ' ∷ b' ' ∷ (pchars ++ b'\n' ∷ [])) (hex4 (u16 (addr + suc i))),
        length-append pchars (b'\n' ∷ []),
      ))

margin_lem :
    (ii addr : ℕ) (pchars : List ℕ)
    → length pchars ≡ kept_length ii
    → margin ii ≡ length ((if ii % 16 == 0 then line_start addr ii pchars else []) ++ spaces ii)
margin_lem zero addr pchars h = ground arith
margin_lem (suc i) addr pchars h = ground (
  arith,
  length-append (line_start addr (suc i) pchars) (spaces (suc i)),
  length-line_start i addr pchars,
)

regroup :
    (start space two text rest : List ℕ)
    → (start ++ ((space ++ two) ++ text)) ++ rest ≡ (start ++ space) ++ (two ++ (text ++ rest))
regroup start space two text rest = simp append_assoc

-- One byte, and the text behind it.
read_step :
    (n ii byte : ℕ) (start text rest : List ℕ)
    → byte < 256
    → margin ii ≡ length (start ++ spaces ii)
    → read_cells (suc n) ii ((start ++ (dump_cell ii byte ++ text)) ++ rest)
      ≡ byte ∷ read_cells n (ii + 1) (text ++ rest)
read_step n ii byte start text rest hb hm =
    let two = two_chars byte in
    let here : drop (margin ii) ((start ++ (dump_cell ii byte ++ text)) ++ rest)
        ≡ two ++ (text ++ rest) =
      ap (drop (margin ii)) (regroup start (spaces ii) two text rest)
      ∙ drop-append (margin ii) (start ++ spaces ii) (two ++ (text ++ rest)) hm in
    ap (λ t. read_cell t ∷ read_cells n (ii + 1) (drop 2 t)) here
    ∙ ap₂ (λ v t. v ∷ read_cells n (ii + 1) t) (read_cell_lem byte (text ++ rest) hb)
        (drop_two byte (text ++ rest))

kept_length_step :
    (ii byte : ℕ) (pchars : List ℕ)
    → length pchars ≡ kept_length ii
    → length ((if ii % 16 == 0 then [] else pchars) ++ graphic byte ∷ []) ≡ kept_length (ii + 1)
kept_length_step zero byte pchars h = ground arith
kept_length_step (suc i) byte pchars h = ground (arith, length-append pchars (graphic byte ∷ []))

read_cells-loop_text :
    (n ii addr : ℕ) (memory : ℕ → ℕ) (pchars rest : List ℕ)
    → ((i : ℕ) → memory i < 256)
    → length pchars ≡ kept_length ii
    → read_cells n ii ((loop_text n ii addr memory pchars).0 ++ rest)
      ≡ bytes_at n (addr + ii) memory
read_cells-loop_text zero ii addr memory pchars rest hm h = refl
read_cells-loop_text (suc n) ii addr memory pchars rest hm h =
    let byte = memory (addr + ii) in
    let next : addr + (ii + 1) ≡ addr + ii + 1 = omega arith in
    read_step n ii byte (if ii % 16 == 0 then line_start addr ii pchars else [])
      (loop_text n (ii + 1) addr memory
        ((if ii % 16 == 0 then [] else pchars) ++ graphic byte ∷ [])).0
      rest (hm (addr + ii)) (margin_lem ii addr pchars h)
    ∙ ap (λ t. byte ∷ t)
        (read_cells-loop_text n (ii + 1) addr memory
            ((if ii % 16 == 0 then [] else pchars) ++ graphic byte ∷ []) rest hm
            (kept_length_step ii byte pchars h)
          ∙ ap (λ a. bytes_at n a memory) next)

-- The bytes of a dump of `cnt` bytes.
abbrev pub read_dump : ℕ → List ℕ → List ℕ
read_dump cnt text = read_cells cnt 0 (drop (length dump_header) text)

-- A dump below the UART changes nothing but what is printed, and whoever knows its length reads all
-- its bytes from it.
pub read_dump-printmem :
    (addr cnt : ℕ) (vm : Vm)
    → addr + cnt ≤ 0xff00
    → ((i : ℕ) → vm.memory i < 256)
    → (text : List ℕ) × (printmem addr cnt vm
        ≡ some (tt, record vm { printed = vm.printed ++ text }))
      × (read_dump cnt text ≡ bytes_at cnt addr vm.memory)
read_dump-printmem addr cnt vm h hm =
    let (text, last) = loop_text cnt 0 addr vm.memory [] in
    let fill = if nonzero (cnt % 16) then filling (16 - cnt % 16) (cnt % 16) else [] in
    let start = vm.printed ++ dump_header in
    let same : addr + 0 ≡ addr = omega arith in
    (
      dump_header ++ (text ++ (fill ++ dump_end last)),
      ap (λ o. and_then o (λ pchars. print fill >> print (dump_end pchars)))
            (print_bytes_lem cnt 0 addr [] (record vm { printed = start }) (omega arith))
          ∙ ap (λ t. some (tt, record vm { printed = t }))
              (flat vm.printed dump_header text fill (dump_end last)),
      read_cells-loop_text cnt 0 addr vm.memory [] (fill ++ dump_end last) hm refl
          ∙ ap (λ a. bytes_at cnt a vm.memory) same,
    )
  where
    flat : (p q r s t : List ℕ) → (((p ++ q) ++ r) ++ s) ++ t ≡ p ++ (q ++ (r ++ (s ++ t)))
    flat p q r s t = simp append_assoc
