-- ===== src/Text/Trace.antt =====
-- The line of `mon_printreg_short` (vmmonitor.c) shows all the registers, though it leaves out those
-- that have not changed: a reader who remembers the line before finds them all in it.
use mathlib.Core.List.{append-nil}
use c_vm.Prelude.{
  ℕ, zero, suc, ◌+◌, ◌*◌, ◌/◌, ◌%◌, ◌<◌, ◌≡◌, refl, ◌∙◌, Bool, true, false, List, [], ◌∷◌, ◌++◌,
  ◌==◌, if◌then◌else◌, arith, ==_iff, at_below, ap, Bool-cases, inl, inr, not, ◌||◌, length,
}
use c_vm.Machine.{Regs}
use c_vm.Machine.Keeps.{IsRegs}
use c_vm.Flags.{cc_e, cc_f, cc_h, cc_i, cc_n, cc_z, cc_v, cc_c}
use c_vm.Monitor.Console.{digit_value}
use c_vm.Monitor.Console.Numbers.{digit_value-hex}
use c_vm.Text.{chars, hex_digit, hex4}
use c_vm.Text.Registers.{
  field, byte_field, word_field, char_field, short_flags, memory_field, printreg_short_text,
  line_text, header_text,
}

no_point : (n : ℕ) → n < 16 → (hex_digit n == b'.') ≡ false
no_point n h = ground arith

-- A reader gives what it has read, and the rest of the line, to what reads on.
module _ {B : Type 0} where
  abbrev pub skip : ℕ → List ℕ → (List ℕ → B) → B
  skip zero cs k = k cs
  skip (suc n) [] k = k []
  skip (suc n) (c ∷ cs) k = skip n cs k

  abbrev pub read_byte : ℕ → List ℕ → (ℕ → List ℕ → B) → B
  read_byte before (p ∷ q ∷ cs) k =
      if p == b'.' then k before cs else k (digit_value p * 16 + digit_value q) cs
  read_byte before _ k = k before []

  abbrev pub read_word : ℕ → List ℕ → (ℕ → List ℕ → B) → B
  read_word before (p ∷ q ∷ r ∷ s ∷ cs) k =
      if p == b'.'
      then k before cs
      else k (((digit_value p * 16 + digit_value q) * 16 + digit_value r) * 16 + digit_value s) cs
  read_word before _ k = k before []

  read_byte_lem :
      (hdr : Bool) (now before : ℕ) (cs : List ℕ) (k : ℕ → List ℕ → B)
      → now < 256
      → read_byte before (byte_field hdr now before ++ cs) k ≡ k now cs
  read_byte_lem hdr now before cs k h =
      ground (arith, digit_value-hex (now / 16), digit_value-hex (now % 16), ==_iff now before)

  read_word_hex :
      (now before : ℕ) (cs : List ℕ) (k : ℕ → List ℕ → B)
      → now < 65536
      → read_word before (hex4 now ++ cs) k ≡ k now cs
  read_word_hex now before cs k h =
      rw
        (
          no_point (now / 4096) (omega arith),
          digit_value-hex (now / 4096) (omega arith),
          digit_value-hex (now / 256 % 16) (omega arith),
          digit_value-hex (now / 16 % 16) (omega arith),
          digit_value-hex (now % 16) (omega arith),
        )
        (ap (λ v. k v cs) (omega arith))

  read_word_lem :
      (hdr : Bool) (now before : ℕ) (cs : List ℕ) (k : ℕ → List ℕ → B)
      → now < 65536
      → read_word before (word_field hdr now before ++ cs) k ≡ k now cs
  read_word_lem hdr now before cs k h = elim (Bool-cases (not (now == before) || hdr)) [
    | inl e ↦ rw e (read_word_hex now before cs k h)
    | inr e ↦ rw e (ap (λ v. k v cs) (ground (arith, e)))
  ]

  skip_char :
      (hdr : Bool) (now before : ℕ) (cs : List ℕ) (k : List ℕ → B)
      → skip 3 (chars " " ++ (char_field hdr now before ++ (chars " " ++ cs))) k ≡ k cs
  skip_char hdr now before cs k = ground arith

  skip_memory :
      (pc : ℕ) (memory : ℕ → ℕ) (cs : List ℕ) (k : List ℕ → B)
      → skip 15 (chars "  " ++ (memory_field pc memory ++ (chars "  " ++ cs))) k ≡ k cs
  skip_memory pc memory cs k = refl

-- The flag that a letter stands for.
abbrev pub flag_of : ℕ → ℕ
flag_of c =
    if c == b'E'
    then cc_e
    else if c == b'F'
    then cc_f
    else if c == b'H'
    then cc_h
    else if c == b'I'
    then cc_i
    else if c == b'N'
    then cc_n
    else if c == b'Z'
    then cc_z
    else if c == b'V'
    then cc_v
    else if c == b'C'
    then cc_c
    else 0

abbrev pub sum_flags : List ℕ → ℕ
sum_flags [] = 0
sum_flags (c ∷ cs) = flag_of c + sum_flags cs

abbrev pub read_flags : ℕ → List ℕ → ℕ
read_flags before [] = before
read_flags before (c ∷ cs) = if c == b'.' then before else sum_flags (c ∷ cs)

-- The letters of the flags begin with no point.
abbrev pub plain : List ℕ → Bool
plain [] = false
plain (c ∷ cs) = not (c == b'.')

read_flags-plain :
    (before : ℕ) (cs : List ℕ) → plain cs ≡ true → read_flags before cs ≡ sum_flags cs
read_flags-plain before [] h = cc
read_flags-plain before (c ∷ cs) h = ground (arith, h)

plain-short_flags : (codes : ℕ) → codes < 256 → plain (short_flags codes) ≡ true
plain-short_flags codes h = at_below 256 (λ c. plain (short_flags c)) refl codes h

sum_flags-short_flags : (codes : ℕ) → codes < 256 → sum_flags (short_flags codes) ≡ codes
sum_flags-short_flags codes h =
    (==_iff (sum_flags (short_flags codes)) codes).0
      (at_below 256 (λ c. sum_flags (short_flags c) == c) refl codes h)

read_flags-short_flags :
    (codes before : ℕ) → codes < 256 → read_flags before (short_flags codes) ≡ codes
read_flags-short_flags codes before h =
    read_flags-plain before (short_flags codes) (plain-short_flags codes h)
    ∙ sum_flags-short_flags codes h

-- The registers in the line, for a reader who remembers those of the line before.
abbrev pub read_registers : Regs → List ℕ → Regs
read_registers prev line = skip 1 line λ t0. read_word prev.pc t0 λ pc t1. skip 15 t1 λ t2.
    read_byte prev.a t2 λ a t3. skip 3 t3 λ t4. read_byte prev.b t4 λ b t5. skip 3 t5 λ t6.
      read_byte prev.dp t6 λ dp t7. skip 1 t7 λ t8. read_word prev.s t8 λ s t9. skip 1 t9 λ t10.
        read_word prev.u t10 λ u t11. skip 1 t11 λ t12. read_word prev.x t12 λ x t13.
          skip 1 t13 λ t14. read_word prev.y t14 λ y t15. skip 1 t15 λ t16. record prev {
            pc = pc;
            a = a;
            b = b;
            dp = dp;
            s = s;
            u = u;
            x = x;
            y = y;
            cc = read_flags prev.cc t16;
          }

abbrev pub read_trace : Bool → Regs → List ℕ → Regs
read_trace hdr prev text =
    if hdr then skip (length header_text) text (read_registers prev) else read_registers prev text

read_flags_lem :
    (hdr : Bool) (now before : ℕ)
    → now < 256
    → read_flags before (field hdr now before (short_flags now) (chars ".       ") ++ []) ≡ now
read_flags_lem hdr now before h = elim (Bool-cases (not (now == before) || hdr)) [
  | inl e ↦ rw (e, append-nil) (read_flags-short_flags now before h)
  | inr e ↦ rw e (ground (arith, e))
]

read_registers_lem :
    (hdr : Bool) (prev r : Regs) (memory : ℕ → ℕ) (text : List ℕ)
    → IsRegs r
    → text ≡ line_text hdr prev r memory
    → read_registers prev text ≡ record r { irq = prev.irq; trap = prev.trap }
read_registers_lem hdr prev r memory text h e = rw (
  e, read_word_lem, skip_memory, read_byte_lem, skip_char, read_byte_lem, skip_char, read_byte_lem,
  read_word_lem, read_word_lem, read_word_lem, read_word_lem, read_flags_lem, h.pc, h.a, h.b, h.dp,
  h.s, h.u, h.x, h.y, h.cc,
)

-- Whoever remembers the registers that were printed last reads all registers from a line of the
-- trace, with or without a header, though it has only points for those that have not changed.
pub read_trace-printreg_short_text :
    (hdr : Bool) (prev r : Regs) (memory : ℕ → ℕ)
    → IsRegs r
    → read_trace hdr prev (printreg_short_text hdr prev r memory)
      ≡ record r { irq = prev.irq; trap = prev.trap }
unfolding printreg_short_text
read_trace-printreg_short_text true prev r memory h = read_registers_lem true prev r memory _ h refl
read_trace-printreg_short_text false prev r memory h =
    read_registers_lem false prev r memory _ h refl
