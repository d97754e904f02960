-- ===== src/Startup/Boot.antt =====
-- `main` up to its loop: the state in which the loop starts.
use c_vm.Prelude.{
  ℕ, suc, ◌≡◌, refl, ap, ◌∙◌, fun_ext, true, false, List, [], ◌∷◌, ◌++◌, Option, none, some, ◌==◌,
  ltb, if◌then◌else◌, length, arith, min, Bool-cases, inl, inr, nonzero,
}
use c_vm.Machine.{ok, update}
use c_vm.Uart.{uart_zero, tio_init}
use c_vm.Signal.{cpu_reset}
use c_vm.Memory.{mem_init, mem_wr16}
use c_vm.Interrupt.{cpu_execirq}
use c_vm.System.{System, Outcome, aborted, done, Run, give, say, on_vm, change_regs, ◌>>=◌, ◌>>◌}
use c_vm.System.Strings.{os_sprintf, directory, current_path}
use c_vm.Monitor.Memory.{read_bytes}
use c_vm.Monitor.Memory.Image.{image, read_bytes_lem}
use c_vm.Monitor.Files.{read_text, not_found_text, cut_path, getexepath, setfile, read_bin, read}
use c_vm.Startup.{
  regs_zero, static_system, default_path, default_file, load_default_bin, startup, init_all,
  cpu_init6809, mon_init, welcome,
}

-- The path that is opened: the default file in the default path.
abbrev pub boot_file : List ℕ
boot_file = b'.' ∷ b'/' ∷ default_file

-- The bytes of the file from the start address on, zeros around them, and the start address in the
-- vector of the reset.
abbrev pub boot_image : List ℕ → ℕ → ℕ
boot_image content i =
    if i == 0xfffe then 0x40 else if i == 0xffff then 0 else image content 0x4000 (λ _. 0) i

abbrev pub ready : (ℕ → ℕ) → ℕ → List ℕ → List ℕ → System
ready memory pc printed input = record (static_system input) {
  vm = record {
    regs = record regs_zero { pc = pc; trap = 128 };
    status = ok;
    memory = memory;
    uart = record uart_zero { lsr = 64; wired = true };
    terminal = [];
    printed = printed;
  };
  monitor = record {
    m_address = 0;
    m_chunk = 64;
    l_start = 0x4000;
    l_file = boot_file;
    l_path = default_path;
    l_dftpath = default_path;
  };
}

-- What the loop starts with, given what is found in the default file.
abbrev pub booted : Option (List ℕ) → List ℕ → System
booted none input = ready (λ _. 0) 0 (welcome ++ not_found_text boot_file) input
booted (some []) input = ready (λ _. 0) 0 welcome input
booted (some (c ∷ cs)) input =
    ready (boot_image (c ∷ cs)) 0x4000
      (welcome ++ read_text (suc (min (length cs) 49151)) boot_file 0x4000) input

abbrev exe_text : Option (List ℕ) → List ℕ
exe_text none = current_path
exe_text (some path) = path

cut_path_done : (o : Option (List ℕ)) (s : System) → cut_path 80 o s ≡ done (exe_text o) s
unfolding os_sprintf
cut_path_done none s = refl
cut_path_done (some path) s = refl

getexepath_fits :
    (path : List ℕ) (s : System)
    → ltb (length path) 80 ≡ true
    → getexepath path 80 s ≡ done (exe_text (directory path)) s
unfolding getexepath os_sprintf
getexepath_fits path s h = rw h (cut_path_done (directory path) s)

getexepath_long :
    (path : List ℕ) (s : System) → ltb (length path) 80 ≡ false → getexepath path 80 s ≡ aborted
unfolding getexepath os_sprintf
getexepath_long path s h = rw h refl

-- `mon_read` once the file is read.
abbrev finish_read : ℕ → Run (Unit {0})
unfolding mem_wr16
finish_read n =
    if nonzero n
    then (do say (read_text n boot_file 0x4000); on_vm (mem_wr16 0xfffe 0x4000))
    else give tt

-- The load, the reset, and the start from the vector.
abbrev finish_boot : Option (List ℕ) → Run (Unit {0})
unfolding read_bin mem_wr16 cpu_reset cpu_execirq
finish_boot o =
    (read_bin boot_file o 0x4000 >>= λ n. finish_read n)
    >> (change_regs (cpu_reset true) >> on_vm cpu_execirq)

-- The rest of it once the file is read.
abbrev after_read : List ℕ → (ℕ → ℕ) × ℕ → Outcome (Unit {0})
unfolding mem_wr16 cpu_reset cpu_execirq
after_read input (memory, n) =
    ((finish_read n >> (change_regs (cpu_reset true) >> on_vm cpu_execirq))
      (ready memory 0 welcome input))

after_read_some :
    (memory : ℕ → ℕ) (n : ℕ) (input : List ℕ)
    → after_read input (memory, suc n)
      ≡ done tt (
          ready
            (update (update memory 0xfffe 0x40) 0xffff 0)
            0x4000
            (welcome ++ read_text (suc n) boot_file 0x4000)
            input)
unfolding mem_wr16 cpu_reset cpu_execirq
after_read_some memory n input =
    let some_read : nonzero (suc n) ≡ true = ground arith in rw some_read refl

vectors_image :
    (content : List ℕ)
    → update (update (image content 0x4000 (λ _. 0)) 0xfffe 0x40) 0xffff 0 ≡ boot_image content
vectors_image content = fun_ext (λ i. ground arith)

finish_boot_lem :
    (o : Option (List ℕ)) (input : List ℕ)
    → finish_boot o (ready (λ _. 0) 0 welcome input) ≡ done tt (booted o input)
unfolding read_bin read_bytes mem_wr16 cpu_reset cpu_execirq
finish_boot_lem none input = refl
finish_boot_lem (some []) input = refl
finish_boot_lem (some (c ∷ cs)) input =
    let count : min (suc (length cs)) 49152 ≡ suc (min (length cs) 49151) = omega arith in
    ap (after_read input) (
      read_bytes_lem (c ∷ cs) 0x4000 (λ _. 0) (omega arith)
      ∙ ap (λ n. (image (c ∷ cs) 0x4000 (λ _. 0), n)) count)
    ∙ after_read_some (image (c ∷ cs) 0x4000 (λ _. 0)) (min (length cs) 49151) input
    ∙ ap
        (λ m. done tt (
          ready m 0x4000 (welcome ++ read_text (suc (min (length cs) 49151)) boot_file 0x4000)
            input))
        (vectors_image (c ∷ cs))

module _ (files : List ℕ → Option (List ℕ)) where
  startup_fits :
      (from_path input : List ℕ)
      → ltb (length from_path) 80 ≡ true
      → startup files from_path (static_system input) ≡ done tt (booted (files boot_file) input)
  unfolding startup init_all cpu_init6809 mem_init mon_init tio_init load_default_bin os_sprintf
      setfile read
  startup_fits from_path input h =
      rw (getexepath_fits from_path _ h) (finish_boot_lem (files boot_file) input)

  startup_long :
      (from_path input : List ℕ)
      → ltb (length from_path) 80 ≡ false
      → startup files from_path (static_system input) ≡ aborted
  unfolding startup load_default_bin
  startup_long from_path input h = rw (getexepath_long from_path _ h) refl

  -- The start of the program, for every content of the file `./x6809.bin`. If the path of the
  -- program has 80 characters or more, an assertion ends it. Otherwise its loop starts with all
  -- registers zero but the PC, and with the machine halted. If the file is there and is not empty,
  -- memory holds its bytes from 0x4000 on, as far as memory goes, the vector of the reset holds
  -- 0x4000, and so does the PC; if not, memory and the PC are zero. The welcome is printed, and
  -- what has been read from where, or that the file could not be opened.
  pub startup_lem :
      (from_path input : List ℕ)
      → startup files from_path (static_system input)
        ≡ (if ltb (length from_path) 80 then done tt (booted (files boot_file) input) else aborted)
  startup_lem from_path input = elim (Bool-cases (ltb (length from_path) 80)) [
    | inl h ↦ rw h (startup_fits from_path input h)
    | inr h ↦ rw h (startup_long from_path input h)
  ]
