-- ===== src/Monitor/Prompt/Typed.antt =====
-- What the user types at the prompt of `mon_execmon` (vmmonitor.c), and what it does.
use c_vm.Prelude.{
  ℕ, zero, suc, ◌≤◌, ◌<◌, ◌≡◌, ◌≢◌, ◌/◌, ◌%◌, refl, ap, ◌∙◌, Bool, true, false, not, ◌&&◌, ◌||◌,
  List, [], ◌∷◌, ◌++◌, Option, some, ◌==◌, bit_and, nonzero, if◌then◌else◌, length, arith, u16,
}
use c_vm.Bits.{bit-bit_and}
use c_vm.Text.{chars, hex4, hex_digit}
use c_vm.Text.Registers.{setclr_text}
use c_vm.System.{System, Run, done, next, give}
use c_vm.System.Strings.{same_string}
use c_vm.Monitor.Breakpoint.{find_breakpoint, setclr_breakpoint, breakpoint_hit}
use c_vm.Monitor.Breakpoint.Shape.{IsTable}
use c_vm.Monitor.Breakpoint.Laws.{gives_way, breakpoint_hit_set}
use c_vm.Monitor.Console.{input_ok, getline}
use c_vm.Monitor.Console.Lines.{IsText, take, line_code, getline_lem}
use c_vm.Monitor.Console.Numbers.{getval-hex4}
use c_vm.Monitor.Files.{take_line, read_line}
use c_vm.Monitor.Commands.{execcmd_g, execcmd_b, pc_text, changed_text}
use c_vm.Monitor.Prompt.{execcmd, execline, prompt}
use c_vm.Monitor.Prompt.Traps.{trace_bits}

-- The state after the prompt `text` is printed and the input is read up to `rest`.
abbrev pub heard : List ℕ → List ℕ → System → System
heard text rest s = record s { vm = record (s.vm) { printed = s.vm.printed ++ text }; input = rest }

take_all : (n : ℕ) (line : List ℕ) → length line ≤ n → take n line ≡ line
take_all zero [] h = refl
take_all zero (c ∷ cs) h = absurd (omega arith)
take_all (suc n) [] h = refl
take_all (suc n) (c ∷ cs) h = ap (λ t. c ∷ t) (take_all n cs (omega arith))

line_code_fits : (n : ℕ) (line : List ℕ) → length line ≤ n → line_code n line ≡ input_ok
line_code_fits n line h = ground arith

pub getline_fits :
    (line rest : List ℕ)
    → IsText line
    → length line ≤ 80
    → getline 81 (line ++ 10 ∷ rest) ≡ some (input_ok, line, rest)
getline_fits line rest t h =
    (getline_lem 81 line rest (omega arith) t).0
    ∙ rw (line_code_fits 80 line h, take_all 80 line h) refl

hex_digit-text : (n : ℕ) → n < 16 → (hex_digit n ≢ 10) × (hex_digit n ≢ 0)
hex_digit-text n h = (ground arith, ground arith)

pub hex4-IsText : (v : ℕ) → v < 65536 → IsText (hex4 v)
hex4-IsText v h =
    let p = hex_digit-text (v / 4096) (omega arith) in
    let q = hex_digit-text (v / 256 % 16) (omega arith) in
    let r = hex_digit-text (v / 16 % 16) (omega arith) in
    let s = hex_digit-text (v % 16) (omega arith) in
    (p.0, p.1, (q.0, q.1, (r.0, r.1, (s.0, s.1, tt))))

-- The machine runs on from `v`, whether it was halted or stepped.
abbrev pub gone : ℕ → System → System
gone v s = record s {
  vm = record (s.vm) {
    regs = record (s.vm.regs) { pc = v; trap = bit_and s.vm.regs.trap 111 };
    printed = s.vm.printed ++ pc_text (chars "  Run:") v;
  };
  lines = 0;
}

no_trace : (t : ℕ) → bit_and t 48 ≡ 0 → (bit_and (bit_and t 111) 48 == 32) ≡ false
no_trace t h = ground (arith, trace_bits t, trace_bits (bit_and t 111), bit-bit_and 5 t 111)

pub hex_digit-nonzero : (n : ℕ) → nonzero (hex_digit n) ≡ true
hex_digit-nonzero n = ground arith

execcmd_g-hex4 :
    (v : ℕ) (s : System)
    → v < 65536
    → bit_and s.vm.regs.trap 48 ≡ 0
    → execcmd_g (hex4 v) s ≡ done true (gone v s)
unfolding execcmd_g
execcmd_g-hex4 v s h untraced =
    let word : u16 v ≡ v = omega arith in
    rw (hex_digit-nonzero (v / 4096), getval-hex4 v h, word, no_trace s.vm.regs.trap untraced) refl

-- A break point is set at `v`.
abbrev pub broken : ℕ → System → System
broken v s =
    let t = setclr_breakpoint v true s.table in
    record s {
      vm = record (s.vm) {
        printed = s.vm.printed ++ changed_text setclr_text v (find_breakpoint v t) t;
      };
      table = t;
    }

execcmd_b-hex4 :
    (v : ℕ) (s : System) → v < 65536 → execcmd_b (b'!' ∷ hex4 v) s ≡ done tt (broken v s)
unfolding execcmd_b
execcmd_b-hex4 v s h = let word : u16 v ≡ v = omega arith in rw (getval-hex4 v h, word) refl

module _ (files : List ℕ → Option (List ℕ)) where
  -- A line that fits in the buffer is executed; the loop goes on unless it says to leave.
  pub prompt-execcmd :
      (text : List ℕ) (n c : ℕ) (line rest : List ℕ) (s : System)
      → s.input ≡ (c ∷ line) ++ 10 ∷ rest
      → IsText (c ∷ line)
      → length line < 80
      → prompt files text (suc n) s
        ≡ next
            (execcmd files (c ∷ line) (heard text rest s))
            (λ leave. if leave then give tt else prompt files text n)
  unfolding prompt read_line
  prompt-execcmd text n c line rest s e t h =
      let entered_line : nonzero c ≡ true = ground (arith, t.1) in
      ap
        (λ o.
          next (take_line o (heard text s.input s))
            (λ answer s'. next (execline files answer s') after))
        (ap (getline 81) e ∙ getline_fits (c ∷ line) rest t (omega arith))
      ∙ rw entered_line refl
    where
      after : Bool → Run (Unit {0})
      after leave = if leave then give tt else prompt files text n

  -- `gXXXX`: the prompt is left.
  pub prompt_go :
      (text : List ℕ) (n v : ℕ) (rest : List ℕ) (s : System)
      → v < 65536
      → s.input ≡ (b'g' ∷ hex4 v) ++ 10 ∷ rest
      → bit_and s.vm.regs.trap 48 ≡ 0
      → prompt files text (suc n) s ≡ done tt (gone v (heard text rest s))
  unfolding execcmd same_string
  prompt_go text n v rest s h e untraced =
      prompt-execcmd text n b'g' (hex4 v) rest s e (omega arith, omega arith, hex4-IsText v h)
        (omega arith)
      ∙ ap (λ o. next o (λ leave. if leave then give tt else prompt files text n))
          (execcmd_g-hex4 v (heard text rest s) h untraced)

  -- `b!XXXX`: the prompt is shown again.
  pub prompt_break :
      (text : List ℕ) (n v : ℕ) (rest : List ℕ) (s : System)
      → v < 65536
      → s.input ≡ (b'b' ∷ b'!' ∷ hex4 v) ++ 10 ∷ rest
      → prompt files text (suc n) s ≡ prompt files text n (broken v (heard text rest s))
  unfolding execcmd same_string
  prompt_break text n v rest s h e =
      prompt-execcmd text n b'b' (b'!' ∷ hex4 v) rest s e
        (omega arith, omega arith, (omega arith, omega arith, hex4-IsText v h)) (omega arith)
      ∙ ap
          (λ o.
            next (next o (λ _. give false))
              (λ leave. if leave then give tt else prompt files text n))
          (execcmd_b-hex4 v (heard text rest s) h)

  -- A break point is typed, and then an address to run from: the prompt is left with the PC at that
  -- address, and the program will stop at the break point, and wherever it would have stopped
  -- before, but where the new break point has taken the last slot of another.
  pub prompt_break_go :
      (text : List ℕ) (n v w : ℕ) (rest : List ℕ) (s : System)
      → v < 65536
      → w < 65536
      → s.input ≡ (b'b' ∷ b'!' ∷ hex4 v) ++ 10 ∷ ((b'g' ∷ hex4 w) ++ 10 ∷ rest)
      → bit_and s.vm.regs.trap 48 ≡ 0
      → IsTable s.table
      → (s' : System) × (prompt files text (suc (suc n)) s ≡ done tt s')
        × (s'.vm.regs.pc ≡ w)
        × (s'.input ≡ rest)
        × ((c : ℕ)
            → breakpoint_hit c s'.table
              ≡ (v == c || breakpoint_hit c s.table && not (gives_way v s.table c)))
  prompt_break_go text n v w rest s hv hw e untraced table =
      let s1 = broken v (heard text ((b'g' ∷ hex4 w) ++ 10 ∷ rest) s) in
      (
        gone w (heard text rest s1),
        prompt_break text (suc n) v ((b'g' ∷ hex4 w) ++ 10 ∷ rest) s hv e
            ∙ prompt_go text n w rest s1 hw refl untraced,
        refl,
        refl,
        λ c. breakpoint_hit_set v c s.table table,
      )
