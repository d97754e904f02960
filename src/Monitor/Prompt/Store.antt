-- ===== src/Monitor/Prompt/Store.antt =====
-- Memory changed from the prompt (vmmonitor.c): `_readoptval` and `m:`.
use c_vm.Prelude.{
  ℕ, suc, ◌+◌, ◌/◌, ◌<◌, ◌≡◌, refl, ap, ◌∙◌, false, List, ◌∷◌, ◌++◌, Option, none, some, ◌==◌,
  if◌then◌else◌, arith, u16,
}
use c_vm.Text.{chars, hex4, hex_digit}
use c_vm.Memory.{mem_wr16}
use c_vm.Memory.Laws.{word_at, update16, mem_rd16_lem, mem_wr16_lem}
use c_vm.System.{System, Run, on_vm, ◌>>◌, done, next, give, ◌>>=◌, expect}
use c_vm.System.Strings.{same_string}
use c_vm.Monitor.Console.{getline, getval}
use c_vm.Monitor.Console.Numbers.{getval-hex4}
use c_vm.Monitor.Files.{take_line, read_line}
use c_vm.Monitor.Trap.{entered, readoptval, if_value}
use c_vm.Monitor.Commands.{cell_text, add_address, execcmd_m}
use c_vm.Monitor.Prompt.{execcmd, prompt}
use c_vm.Monitor.Prompt.Typed.{heard, getline_fits, hex4-IsText, hex_digit-nonzero, prompt-execcmd}

readoptval-hex4 :
    (v : ℕ) (rest : List ℕ) (s : System)
    → v < 65536
    → s.input ≡ hex4 v ++ 10 ∷ rest
    → readoptval s ≡ done (some v) (heard (chars "?") rest s)
unfolding readoptval read_line
readoptval-hex4 v rest s h e =
    ap
      (λ o. next (take_line o (heard (chars "?") s.input s)) (λ answer.
        if entered answer then (expect (getval answer.1) >>= λ w. give (some w)) else give none))
      (ap (getline 81) e ∙ getline_fits (hex4 v) rest (hex4-IsText v h) (omega arith))
    ∙ rw (hex_digit-nonzero (v / 4096), getval-hex4 v h) refl

-- The word `v` is stored at `addr`, which has been shown with its old word.
abbrev pub stored : ℕ → ℕ → List ℕ → System → System
stored addr v rest s =
    let cell = cell_text (hex4 addr) (hex4 (word_at s.vm.memory addr)) in
    record s {
      vm = record (s.vm) {
        memory = update16 s.vm.memory addr v;
        printed = (s.vm.printed ++ cell) ++ chars "?";
      };
      monitor = record (s.monitor) { m_address = u16 (addr + 2) };
      input = rest;
    }

-- The old word is shown, and what follows the answer.
abbrev cell_shown : ℕ → System → System
cell_shown addr s =
    let cell = cell_text (hex4 addr) (hex4 (word_at s.vm.memory addr)) in
    record s {
      vm = record (s.vm) { printed = s.vm.printed ++ cell };
      monitor = record (s.monitor) { m_address = addr };
    }

abbrev answered : ℕ → Option ℕ → Run (Unit {0})
answered addr val = do if_value val (λ v. on_vm (mem_wr16 addr (u16 v))); add_address 2

no_option : (n : ℕ) → (hex_digit n == b'@') ≡ false
no_option n = ground arith

execcmd_m-hex4 :
    (addr v : ℕ) (rest : List ℕ) (s : System)
    → addr < 65535
    → v < 65536
    → s.vm.memory (addr + 1) < 256
    → s.input ≡ hex4 v ++ 10 ∷ rest
    → execcmd_m (b':' ∷ hex4 addr) s ≡ done tt (stored addr v rest s)
unfolding execcmd_m
execcmd_m-hex4 addr v rest s ha hv byte e =
    let word : u16 addr ≡ addr = omega arith in
    let value : u16 v ≡ v = omega arith in
    rw
      (
        no_option (addr / 4096),
        hex_digit-nonzero (addr / 4096),
        getval-hex4 addr (omega arith),
        word,
        mem_rd16_lem addr s.vm ha byte,
      )
      (ap (λ o. next o (answered addr)) (readoptval-hex4 v rest (cell_shown addr s) hv e)
        ∙ rw (value, mem_wr16_lem addr v (heard (chars "?") rest (cell_shown addr s)).vm ha) refl)

module _ (files : List ℕ → Option (List ℕ)) where
  -- `m:XXXX` and then a value: the word is stored at the address, whatever is there, its old value
  -- is shown before, and the prompt is shown again, with the address of the monitor behind the word.
  pub prompt_store :
      (text : List ℕ) (n addr v : ℕ) (rest : List ℕ) (s : System)
      → addr < 65535
      → v < 65536
      → s.vm.memory (addr + 1) < 256
      → s.input ≡ (b'm' ∷ b':' ∷ hex4 addr) ++ 10 ∷ (hex4 v ++ 10 ∷ rest)
      → prompt files text (suc n) s
        ≡ prompt files text n (stored addr v rest (heard text (hex4 v ++ 10 ∷ rest) s))
  unfolding execcmd same_string
  prompt_store text n addr v rest s ha hv byte e =
      prompt-execcmd files text n b'm' (b':' ∷ hex4 addr) (hex4 v ++ 10 ∷ rest) s e
        (omega arith, omega arith, (omega arith, omega arith, hex4-IsText addr (omega arith)))
        (omega arith)
      ∙ ap
          (λ o.
            next (next o (λ _. give false))
              (λ leave. if leave then give tt else prompt files text n))
          (execcmd_m-hex4 addr v rest (heard text (hex4 v ++ 10 ∷ rest) s) ha hv byte refl)
