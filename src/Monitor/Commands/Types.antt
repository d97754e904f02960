-- ===== src/Monitor/Commands/Types.antt =====
-- The commands of the monitor (vmmonitor.c) keep what the parts of the state keep.
use c_vm.Prelude.{
  ℕ, ◌+◌, ◌<◌, ◌^◌, ◌≡◌, refl, Bool, true, false, not, List, Option, none, some, ◌==◌, ltb, nonzero,
  u8, u16, bit_and, bit_or, if◌then◌else◌, arith,
}
use c_vm.Bits.{bit_and-le, bit_or-lt}
use c_vm.Transfer.{RegName, is_byte, get}
use c_vm.Transfer.Types.{put-IsRegs}
use c_vm.Execute.Parts.{from_byte, from_word}
use c_vm.System.{System, faulted, Run, change, ◌>>=◌, expect}
use c_vm.System.Holds.{
  Ends, Holds, Anything, Holds-give, Holds-faulted, Holds-if, Holds-expect, Holds-change,
  Holds-bind, Holds-seq, Holds-with,
}
use c_vm.System.Kept.{IsKept, Holds-say, Holds-change_regs}
use c_vm.Monitor.Console.{char_at, getval}
use c_vm.Monitor.Files.Types.{ask-Holds}
use c_vm.Monitor.Trap
use c_vm.Monitor.Commands
use c_vm.Text.{chars, newline, hex2, hex4}

module _ (I : System → Type 0) (k : IsKept I) where
  pub change_trap-Holds :
      (f : ℕ → ℕ) → ((t : ℕ) → t < 256 → f t < 256) → Holds I Anything (Trap.change_trap f)
  change_trap-Holds f keep =
      Holds-change_regs I k λ r h. let small = keep r.trap h.trap in omega arith

  change_lines-Holds :
      (n : ℕ) → n < 2 ^ 31 → Holds I Anything (change (λ s. record s { lines = n }))
  change_lines-Holds n small = Holds-change I _ (λ s h. k.kept_lines s n small h)

  print_registers-Holds : (hdr : Bool) → Holds I Anything (Trap.print_registers hdr)
  print_registers-Holds hdr =
      Holds-with I (λ s. s)
        λ s. Holds-seq I (Holds-say I k _) (Holds-change I _ (λ s' h. k.kept_prev s' s'.vm.regs h))

  mon_printreg_short-Holds : (hdr : Bool) → Holds I Anything (Trap.mon_printreg_short hdr)
  unfolding Trap.mon_printreg_short
  mon_printreg_short-Holds hdr = record { run = λ s h. ends _ s h }
    where
      ends :
          (b : Bool) (s : System)
          → I s
          → Ends I Anything (if b then Trap.print_registers hdr s else faulted)
      ends true s h = (print_registers-Holds hdr).run s h
      ends false s h = tt

  count_line :
      (n : ℕ) (b : Bool)
      → ltb n (2 ^ 31) ≡ b
      → Holds I Anything (if b then change (λ s. record s { lines = n }) else (λ _. faulted))
  count_line n true e = change_lines-Holds n (ground (arith, e))
  count_line n false e = Holds-faulted I Anything

  pub printreg_short-Holds : Holds I Anything Trap.printreg_short
  unfolding Trap.printreg_short
  printreg_short-Holds = Holds-with I Trap.is_print_hdr λ hdr.
      Holds-seq I (mon_printreg_short-Holds hdr) (
        Holds-with I (λ s. s)
          λ s.
            Holds-if I Anything (nonzero (bit_and s.vm.regs.trap 16))
              (change_lines-Holds 0 (omega arith)) (count_line (s.lines + 1) _ refl))

  pub readoptval-Holds : Holds I Anything Trap.readoptval
  unfolding Trap.readoptval
  readoptval-Holds = Holds-bind I (ask-Holds I k _ 81) λ answer _.
      Holds-if I Anything (Trap.entered answer)
        (Holds-bind I (Holds-expect I Anything (getval answer.1) (λ _. tt))
          (λ v _. Holds-give I Anything (some v) tt))
        (Holds-give I Anything none tt)

  pub if_value-Holds :
      (o : Option ℕ) (f : ℕ → Run (Unit {0}))
      → ((v : ℕ) → Holds I Anything (f v))
      → Holds I Anything (Trap.if_value o f)
  if_value-Holds none f hf = Holds-give I Anything tt tt
  if_value-Holds (some v) f hf = hf v

  pub answered-Holds :
      (f : ℕ → Run (Unit {0}))
      → ((v : ℕ) → Holds I Anything (f v))
      → Holds I Anything (Trap.readoptval >>= λ o. Trap.if_value o f)
  answered-Holds f hf = Holds-bind I readoptval-Holds (λ o _. if_value-Holds o f hf)

  pub value-Holds :
      {B : Type 0} {Q : B → Type 0} (str : List ℕ) {f : ℕ → Run B}
      → ((v : ℕ) → Holds I Q (f v))
      → Holds I Q (expect (getval str) >>= f)
  value-Holds str hf = Holds-bind I (Holds-expect I Anything (getval str) (λ _. tt)) (λ v _. hf v)

  put_pc-Holds : (word cmdline : List ℕ) → Holds I Anything (Commands.put_pc word cmdline)
  unfolding Commands.put_pc
  put_pc-Holds word cmdline = value-Holds cmdline λ v.
      Holds-seq I (Holds-change_regs I k (λ r h. omega arith)) (
        Holds-with I (λ s. s.vm.regs.pc)
          (λ pc.
            Holds-seq I (Holds-say I k (Commands.pc_text word pc))
              (change_lines-Holds 0 (omega arith))))

  cleared : (mask t : ℕ) → t < 256 → bit_and t mask < 256
  cleared mask t h = omega (arith, bit_and-le 8 t mask h)

  pub raised : (mask t : ℕ) → mask < 256 → t < 256 → bit_or t mask < 256
  raised mask t hm h = bit_or-lt 8 t mask h hm

  pub execcmd_g-Holds : (cmdline : List ℕ) → Holds I Anything (Commands.execcmd_g cmdline)
  unfolding Commands.execcmd_g
  execcmd_g-Holds cmdline = Holds-seq I (change_trap-Holds _ (cleared 111)) (
      Holds-if I Anything (nonzero (char_at cmdline 0))
        (Holds-seq I (put_pc-Holds (chars "  Run:") cmdline) (
          Holds-with I Trap.is_trace_only λ only.
            Holds-seq I
              (Holds-if I Anything only printreg_short-Holds (Holds-give I Anything tt tt))
              (Holds-give I Anything true tt)))
        (Holds-give I Anything true tt))

  pub execcmd_s-Holds : (cmdline : List ℕ) → Holds I Anything (Commands.execcmd_s cmdline)
  unfolding Commands.execcmd_s
  execcmd_s-Holds cmdline =
      Holds-seq I
        (change_trap-Holds _ (λ t h. raised 16 (bit_and t 127) (omega arith) (cleared 127 t h)))
        (Holds-if I Anything (nonzero (char_at cmdline 0))
          (Holds-seq I (put_pc-Holds (chars "  Step:") cmdline) (
            Holds-seq I printreg_short-Holds
              (Holds-seq I (Holds-say I k newline) (Holds-give I Anything false tt))))
          (Holds-give I Anything true tt))

  set_trace-Holds : (c : ℕ) → Holds I Anything (Commands.set_trace c)
  set_trace-Holds c =
      Holds-if I Anything (c == b'!') (change_trap-Holds _ (λ t h. raised 32 t (omega arith) h)) (
        Holds-if I Anything (c == b'.') (change_trap-Holds _ (cleared 223))
          (Holds-give I Anything tt tt))

  pub execcmd_t-Holds : (cmdline : List ℕ) → Holds I Anything (Commands.execcmd_t cmdline)
  unfolding Commands.execcmd_t
  execcmd_t-Holds cmdline =
      Holds-seq I (set_trace-Holds (char_at cmdline 0))
        (Holds-with I (λ s. s.vm.regs.trap) (λ trap. Holds-say I k _))

  ask8 :
      (c : ℕ) (name : RegName) (other : Option RegName)
      → is_byte name ≡ true
      → Holds I Anything (Commands.ask_register c (some name) other)
  unfolding Commands.ask_register
  ask8 c name other e =
      Holds-with I (λ s. get name s.vm.regs)
        λ old. Holds-seq I (Holds-say I k (Commands.register_text c (hex2 old))) (
          answered-Holds _ λ v.
            Holds-change_regs I k
              (λ r h. put-IsRegs name (u8 v) r (from_byte name (u8 v) e (omega arith)) h))

  ask16 :
      (c : ℕ) (name : RegName)
      → not (is_byte name) ≡ true
      → Holds I Anything (Commands.ask_register c none (some name))
  unfolding Commands.ask_register
  ask16 c name e =
      Holds-with I (λ s. get name s.vm.regs)
        λ old. Holds-seq I (Holds-say I k (Commands.register_text c (hex4 old))) (
          answered-Holds _ λ v.
            Holds-change_regs I k
              (λ r h. put-IsRegs name (u16 v) r (from_word name (u16 v) e (omega arith)) h))

  -- Registers of one byte, and of one word.
  Bytes : Option RegName → Type 0
  Bytes none = Unit {0}
  Bytes (some name) = is_byte name ≡ true

  Words : Option RegName → Type 0
  Words none = Unit {0}
  Words (some name) = not (is_byte name) ≡ true

  ask_register-Holds :
      (c : ℕ) (o p : Option RegName)
      → Bytes o
      → Words p
      → Holds I Anything (Commands.ask_register c o p)
  unfolding Commands.ask_register Bytes Words
  ask_register-Holds c (some name) p ho hp = ask8 c name p ho
  ask_register-Holds c none (some name) ho hp = ask16 c name hp
  ask_register-Holds c none none ho hp = Holds-say I k _

  pregfromc8-Bytes : (c : ℕ) → Bytes (Commands.pregfromc8 c)
  unfolding Bytes
  pregfromc8-Bytes c = ground arith

  pregfromc16-Words : (c : ℕ) → Words (Commands.pregfromc16 c)
  unfolding Words
  pregfromc16-Words c = ground arith

  pub execcmd_r-Holds : (cmdline : List ℕ) → Holds I Anything (Commands.execcmd_r cmdline)
  unfolding Commands.execcmd_r
  execcmd_r-Holds cmdline =
      let c = char_at cmdline 0 in
      Holds-if I Anything (c == 0) (Holds-seq I (mon_printreg_short-Holds true) (Holds-say I k _)) (
        Holds-if I Anything (c == b'?') (Holds-with I (λ s. s.vm.regs) (λ r. Holds-say I k _)) (
          ask_register-Holds c (Commands.pregfromc8 c) (Commands.pregfromc16 c) (pregfromc8-Bytes c)
            (pregfromc16-Words c)))
