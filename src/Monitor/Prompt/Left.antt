-- ===== src/Monitor/Prompt/Left.antt =====
-- How the loop of `mon_execmon` (vmmonitor.c) is left, behind lines that are no commands.
use c_vm.Prelude.{
  ℕ, zero, suc, ◌<◌, ◌≡◌, refl, ap, ◌∙◌, Bool, false, ◌||◌, List, [], ◌∷◌, ◌++◌, Option, ◌==◌,
  bit_and, if◌then◌else◌, length, arith,
}
use c_vm.Text.{chars}
use c_vm.System.{System, done, bye, unfinished, next, give}
use c_vm.System.Strings.{same_string}
use c_vm.Monitor.Console.{getline}
use c_vm.Monitor.Console.Lines.{IsText}
use c_vm.Monitor.Files.{take_line, read_line}
use c_vm.Monitor.Commands.{execcmd_g}
use c_vm.Monitor.Prompt.{bye_word, execcmd, execline, prompt}
use c_vm.Monitor.Prompt.Typed.{heard, getline_fits, prompt-execcmd}

-- The letters that begin a command; "bye" begins with one of them.
abbrev pub is_letter : ℕ → Bool
is_letter c =
    c == b'g'
    || c == b'r'
    || c == b't'
    || c == b's'
    || c == b'?'
    || c == b'i'
    || c == b'm'
    || c == b'l'
    || c == b'b'

-- A line of text that fits in the buffer, and is empty or begins with another character.
abbrev pub IsNoise : List ℕ → Type 0
IsNoise [] = Unit {0}
IsNoise (c ∷ cs) = (is_letter c ≡ false) × IsText (c ∷ cs) × (length cs < 80)

abbrev pub AllNoise : List (List ℕ) → Type 0
AllNoise [] = Unit {0}
AllNoise (line ∷ lines) = IsNoise line × AllNoise lines

-- The lines, each with its line feed, and then what is typed behind them.
abbrev pub typed : List (List ℕ) → List ℕ → List ℕ
typed [] last = last
typed (line ∷ lines) last = line ++ 10 ∷ typed lines last

-- What a line that is no command makes of the text that is printed.
abbrev pub shown : List ℕ → List ℕ → List ℕ → List ℕ
shown text [] printed = printed ++ text
shown text (c ∷ cs) printed = (printed ++ text) ++ chars "  invalid command\n\n"

abbrev pub all_shown : List ℕ → List (List ℕ) → List ℕ → List ℕ
all_shown text [] printed = printed
all_shown text (line ∷ lines) printed = all_shown text lines (shown text line printed)

abbrev pub with_input : List ℕ → List ℕ → System → System
with_input input printed s = record s { vm = record (s.vm) { printed = printed }; input = input }

-- `g` alone: the machine runs on, halted or stepped no longer.
abbrev pub released : List ℕ → List ℕ → System → System
released rest printed s = record s {
  vm = record (s.vm) {
    regs = record (s.vm.regs) { trap = bit_and s.vm.regs.trap 111 };
    printed = printed;
  };
  input = rest;
}

module _ (files : List ℕ → Option (List ℕ)) (text : List ℕ) where
  prompt_empty :
      (n : ℕ) (rest printed : List ℕ) (s : System)
      → prompt files text (suc n) (with_input (10 ∷ rest) printed s)
        ≡ prompt files text n (with_input rest (printed ++ text) s)
  unfolding prompt read_line
  prompt_empty n rest printed s =
      ap
        (λ o. next (take_line o (with_input (10 ∷ rest) (printed ++ text) s)) (λ answer s'.
          next (execline files answer s')
            (λ leave. if leave then give tt else prompt files text n)))
        (getline_fits [] rest tt (omega arith))

  execcmd_other :
      (c : ℕ) (line : List ℕ) (s : System)
      → is_letter c ≡ false
      → execcmd files (c ∷ line) s
        ≡ done false (record s {
          vm = record (s.vm) { printed = s.vm.printed ++ chars "  invalid command\n\n" };
        })
  unfolding execcmd same_string
  execcmd_other c line s h =
      let g : (c == b'g') ≡ false = ground (arith, h) in
      let r : (c == b'r') ≡ false = ground (arith, h) in
      let t : (c == b't') ≡ false = ground (arith, h) in
      let step : (c == b's') ≡ false = ground (arith, h) in
      let help : (c == b'?') ≡ false = ground (arith, h) in
      let i : (c == b'i') ≡ false = ground (arith, h) in
      let m : (c == b'm') ≡ false = ground (arith, h) in
      let l : (c == b'l') ≡ false = ground (arith, h) in
      let b : (c == b'b') ≡ false = ground (arith, h) in rw (b, g, r, t, step, help, i, m, l) refl

  prompt_noise :
      (n : ℕ) (line rest printed : List ℕ) (s : System)
      → IsNoise line
      → prompt files text (suc n) (with_input (line ++ 10 ∷ rest) printed s)
        ≡ prompt files text n (with_input rest (shown text line printed) s)
  prompt_noise n [] rest printed s h = prompt_empty n rest printed s
  prompt_noise n (c ∷ line) rest printed s (other, t, fits) =
      prompt-execcmd files text n c line rest (with_input ((c ∷ line) ++ 10 ∷ rest) printed s) refl
        t fits
      ∙ ap (λ o. next o (λ leave. if leave then give tt else prompt files text n))
          (execcmd_other c line (heard text rest (with_input ((c ∷ line) ++ 10 ∷ rest) printed s))
            other)

  prompt_go_alone :
      (n : ℕ) (rest printed : List ℕ) (s : System)
      → prompt files text (suc n) (with_input (b'g' ∷ 10 ∷ rest) printed s)
        ≡ done tt (released rest (printed ++ text) s)
  unfolding execcmd same_string execcmd_g
  prompt_go_alone n rest printed s =
      prompt-execcmd files text n b'g' [] rest (with_input (b'g' ∷ 10 ∷ rest) printed s) refl
        (omega arith, omega arith, tt) (omega arith)

  prompt_bye :
      (n : ℕ) (rest printed : List ℕ) (s : System)
      → prompt files text (suc n) (with_input (bye_word ++ 10 ∷ rest) printed s) ≡ bye
  unfolding execcmd same_string
  prompt_bye n rest printed s =
      prompt-execcmd files text n b'b' (b'y' ∷ b'e' ∷ []) rest
        (with_input (bye_word ++ 10 ∷ rest) printed s) refl
        (omega arith, omega arith, (omega arith, omega arith, (omega arith, omega arith, tt)))
        (omega arith)

  -- At the end of the input, whatever the fuel.
  prompt_no_input :
      (n : ℕ) (printed : List ℕ) (s : System)
      → prompt files text n (with_input [] printed s) ≡ unfinished
  unfolding prompt read_line execline getline
  prompt_no_input zero printed s = refl
  prompt_no_input (suc n) printed s = prompt_no_input n (printed ++ text) s

  -- After any number of lines that are no commands, each answered and followed by the prompt again,
  -- the loop of the prompt ends in the next round, if it is given that round: `g` leaves it with the
  -- machine neither halted nor stepped, and with the input behind it still to be read, and `bye` ends
  -- the program. If the input ends there, it does not end in any number of rounds.
  pub prompt_left :
      (n : ℕ) (lines : List (List ℕ)) (rest printed : List ℕ) (s : System)
      → AllNoise lines
      → length lines < n
      → (prompt files text n (with_input (typed lines (b'g' ∷ 10 ∷ rest)) printed s)
          ≡ done tt (released rest (all_shown text lines printed ++ text) s))
        × (prompt files text n (with_input (typed lines (bye_word ++ 10 ∷ rest)) printed s) ≡ bye)
        × (prompt files text n (with_input (typed lines []) printed s) ≡ unfinished)
  prompt_left zero lines rest printed s h enough = absurd (omega arith)
  prompt_left (suc n) [] rest printed s h enough = (
    prompt_go_alone n rest printed s,
    prompt_bye n rest printed s,
    prompt_no_input (suc n) printed s,
  )
  prompt_left (suc n) (line ∷ lines) rest printed s (noise, more) enough =
      let again = prompt_left n lines rest (shown text line printed) s more (omega arith) in
      (
        prompt_noise n line (typed lines (b'g' ∷ 10 ∷ rest)) printed s noise ∙ again.0,
        prompt_noise n line (typed lines (bye_word ++ 10 ∷ rest)) printed s noise ∙ again.1,
        prompt_noise n line (typed lines []) printed s noise ∙ again.2,
      )
