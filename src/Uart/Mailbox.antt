-- ===== src/Uart/Mailbox.antt =====
-- The UART as two mailboxes of one character, the one that it sends from and the one that it
-- receives into; the flags of LSR tell which are occupied.
use c_vm.Prelude.{
  ℕ, ◌*◌, ◌≡◌, ◌⊎◌, refl, ap, ap₂, Option, none, some, List, [], ◌∷◌, ◌++◌, nonzero, u8, bit_and,
  bit_or, if◌then◌else◌, ◌==◌, arith, inl, inr, ◌∙◌,
}
use c_vm.Bits.{bit, bit-bit_and, bit-bit_or, bit_and-pow, bit-le-one}
use c_vm.Machine.{Uart, Vm}
use c_vm.Uart.{
  rbr_full, thr_empty, tio_read_rbr, tio_write_thr, generate_interrupt, sendc, recvc, tio_exec,
}

-- The character that waits to be sent, and the one that waits to be read.
abbrev pub outgoing : Uart → Option ℕ
outgoing t = if nonzero (bit_and t.lsr thr_empty) then none else some t.thr

abbrev pub incoming : Uart → Option ℕ
incoming t = if nonzero (bit_and t.lsr rbr_full) then some t.rbr else none

-- What the terminal is given for the character: a line feed follows a carriage return.
abbrev pub printed : Option ℕ → List ℕ
printed none = []
printed (some c) = if c == b'\r' then c ∷ b'\n' ∷ [] else c ∷ []

-- The mailbox after a delivery: one that is occupied refuses.
abbrev pub deliver : Option ℕ → Option ℕ → Option ℕ
deliver none box = box
deliver (some c) none = some c
deliver (some c) (some waiting) = some waiting

flag6 : (lsr : ℕ) → bit_and lsr thr_empty ≡ bit 6 lsr * 64
flag6 lsr = bit_and-pow 6 lsr

flag7 : (lsr : ℕ) → bit_and lsr rbr_full ≡ bit 7 lsr * 128
flag7 lsr = bit_and-pow 7 lsr

-- How the four updates of LSR act on its two flags.
clear_6 : (lsr : ℕ) → (bit 6 (bit_and lsr 0xbf) ≡ 0) × (bit 7 (bit_and lsr 0xbf) ≡ bit 7 lsr)
clear_6 lsr =
    (omega (arith, bit-bit_and 6 lsr 0xbf), omega (arith, bit-bit_and 7 lsr 0xbf, bit-le-one 7 lsr))

clear_7 : (lsr : ℕ) → (bit 7 (bit_and lsr 0x7f) ≡ 0) × (bit 6 (bit_and lsr 0x7f) ≡ bit 6 lsr)
clear_7 lsr =
    (omega (arith, bit-bit_and 7 lsr 0x7f), omega (arith, bit-bit_and 6 lsr 0x7f, bit-le-one 6 lsr))

set_6 : (lsr : ℕ) → (bit 6 (bit_or lsr 64) ≡ 1) × (bit 7 (bit_or lsr 64) ≡ bit 7 lsr)
set_6 lsr =
    (omega (arith, bit-bit_or 6 lsr 64, bit-le-one 6 lsr), omega (arith, bit-bit_or 7 lsr 64))

set_7 : (lsr : ℕ) → (bit 7 (bit_or lsr 128) ≡ 1) × (bit 6 (bit_or lsr 128) ≡ bit 6 lsr)
set_7 lsr =
    (omega (arith, bit-bit_or 7 lsr 128, bit-le-one 7 lsr), omega (arith, bit-bit_or 6 lsr 128))

-- The CPU's accesses: a write to THR leaves its value waiting to be sent, over one that still
-- waited, and a read of RBR gives the waiting character, if there is one, and takes it out.
-- Neither touches the other mailbox.
pub mailbox_accesses :
    (v : ℕ) (t : Uart)
    → (outgoing (tio_write_thr v t) ≡ some v)
      × (incoming (tio_write_thr v t) ≡ incoming t)
      × ((incoming t ≡ none) ⊎ (incoming t ≡ some (tio_read_rbr t).0))
      × (incoming (tio_read_rbr t).1 ≡ none)
      × (outgoing (tio_read_rbr t).1 ≡ outgoing t)
unfolding tio_write_thr tio_read_rbr
mailbox_accesses v t = (
  ground (arith, flag6 (bit_and t.lsr 0xbf), clear_6 t.lsr),
  ground (arith, flag7 (bit_and t.lsr 0xbf), flag7 t.lsr, clear_6 t.lsr),
  ground arith,
  ground (arith, flag7 (bit_and t.lsr 0x7f), clear_7 t.lsr),
  ground (arith, flag6 (bit_and t.lsr 0x7f), flag6 t.lsr, clear_7 t.lsr),
)

interrupt_keeps :
    (flag : ℕ) (vm : Vm)
    → ((generate_interrupt flag vm).uart.lsr ≡ vm.uart.lsr)
      × ((generate_interrupt flag vm).uart.rbr ≡ vm.uart.rbr)
      × ((generate_interrupt flag vm).uart.thr ≡ vm.uart.thr)
      × ((generate_interrupt flag vm).terminal ≡ vm.terminal)
unfolding generate_interrupt
interrupt_keeps flag vm = (ground arith, ground arith, ground arith, ground arith)

bit_cases : (k x : ℕ) → (bit k x ≡ 0) ⊎ (bit k x ≡ 1)
bit_cases k x = ground (arith, bit-le-one k x)

append-nil : (xs : List ℕ) → xs ++ [] ≡ xs
append-nil [] = refl
append-nil (x ∷ xs) = ap (λ t. x ∷ t) (append-nil xs)

append_twice : (xs : List ℕ) (c e : ℕ) → (xs ++ (c ∷ [])) ++ (e ∷ []) ≡ xs ++ (c ∷ e ∷ [])
append_twice [] c e = refl
append_twice (x ∷ xs) c e = ap (λ t. x ∷ t) (append_twice xs c e)

-- What a round of the terminal interface did, told by the mailboxes.
pub record Transmits (vm vm' : Vm) : Type 0 where
  pub sent : outgoing vm'.uart ≡ none
  pub printed_on : vm'.terminal ≡ vm.terminal ++ printed (outgoing vm.uart)
  pub incoming_same : incoming vm'.uart ≡ incoming vm.uart
  pub memory_same : vm'.memory ≡ vm.memory

sendc_idle : (vm : Vm) → bit 6 vm.uart.lsr ≡ 1 → Transmits vm (sendc vm)
unfolding sendc
sendc_idle vm e =
    let same : sendc vm ≡ vm = ground (arith, flag6 vm.uart.lsr) in
    rw same record {
      sent = ground (arith, flag6 vm.uart.lsr);
      printed_on = ground (arith, flag6 vm.uart.lsr, append-nil vm.terminal);
      incoming_same = refl;
      memory_same = refl;
    }

sendc_busy : (vm : Vm) → bit 6 vm.uart.lsr ≡ 0 → Transmits vm (sendc vm)
unfolding sendc
sendc_busy vm e =
    let emptied : Vm = record vm {
      uart = record (vm.uart) { lsr = bit_or vm.uart.lsr thr_empty };
    } in
    let after : Vm = generate_interrupt thr_empty emptied in
    let keeps = interrupt_keeps thr_empty emptied in
    record {
      sent = ground (arith, flag6 vm.uart.lsr, flag6 after.uart.lsr, keeps, set_6 vm.uart.lsr);
      printed_on =
          ground (arith, flag6 vm.uart.lsr, keeps, append_twice vm.terminal vm.uart.thr 10);
      incoming_same = ground (
        arith,
        flag6 vm.uart.lsr,
        flag7 after.uart.lsr,
        flag7 vm.uart.lsr,
        keeps,
        set_6 vm.uart.lsr,
      );
      memory_same = ground (arith, flag6 vm.uart.lsr);
    }

sendc-Transmits : (vm : Vm) → Transmits vm (sendc vm)
sendc-Transmits vm = elim (bit_cases 6 vm.uart.lsr) [
  | inl e ↦ sendc_busy vm e
  | inr e ↦ sendc_idle vm e
]

module _ (upper : ℕ → ℕ) where
  -- What the terminal has ready, as the byte that reaches RBR.
  abbrev pub arrived : Option ℕ → Option ℕ
  arrived none = none
  arrived (some c) = some (u8 (upper c))

  pub record Receives (input : Option ℕ) (vm vm' : Vm) : Type 0 where
    pub delivered : incoming vm'.uart ≡ deliver (arrived input) (incoming vm.uart)
    pub outgoing_same : outgoing vm'.uart ≡ outgoing vm.uart
    pub terminal_same : vm'.terminal ≡ vm.terminal
    pub memory_same : vm'.memory ≡ vm.memory

  recvc_full :
      (c : ℕ) (vm : Vm) → bit 7 vm.uart.lsr ≡ 1 → Receives (some c) vm (recvc upper (some c) vm)
  unfolding recvc
  recvc_full c vm e =
      let same : recvc upper (some c) vm ≡ vm = ground (arith, flag7 vm.uart.lsr) in
      rw same record {
        delivered = ground (arith, flag7 vm.uart.lsr);
        outgoing_same = refl;
        terminal_same = refl;
        memory_same = refl;
      }

  recvc_empty :
      (c : ℕ) (vm : Vm) → bit 7 vm.uart.lsr ≡ 0 → Receives (some c) vm (recvc upper (some c) vm)
  unfolding recvc
  recvc_empty c vm e =
      let lsr = vm.uart.lsr in
      let filled : Vm = record vm {
        uart = record (vm.uart) { rbr = u8 (upper c); lsr = bit_or lsr rbr_full };
      } in
      let after : Vm = generate_interrupt rbr_full filled in
      let keeps = interrupt_keeps rbr_full filled in
      record {
        delivered = ground (arith, flag7 lsr, flag7 after.uart.lsr, keeps, set_7 lsr);
        outgoing_same =
            ground (arith, flag7 lsr, flag6 lsr, flag6 after.uart.lsr, keeps, set_7 lsr);
        terminal_same = ground (arith, flag7 lsr, keeps);
        memory_same = ground (arith, flag7 lsr);
      }

  recvc-Receives : (input : Option ℕ) (vm : Vm) → Receives input vm (recvc upper input vm)
  unfolding recvc
  recvc-Receives none vm = record {
    delivered = refl;
    outgoing_same = refl;
    terminal_same = refl;
    memory_same = refl;
  }
  recvc-Receives (some c) vm = elim (bit_cases 7 vm.uart.lsr) [
    | inl e ↦ recvc_empty c vm e
    | inr e ↦ recvc_full c vm e
  ]

  -- One round of the terminal interface: what was waiting to be sent, and only that, is appended
  -- to the terminal, a carriage return followed by a line feed, and nothing waits any more; what
  -- the terminal has ready is delivered if no character waits to be read, and is lost otherwise.
  -- Memory is not touched.
  pub tio_exec_lem :
      (input : Option ℕ) (vm : Vm)
      → (outgoing (tio_exec upper input vm).uart ≡ none)
        × ((tio_exec upper input vm).terminal ≡ vm.terminal ++ printed (outgoing vm.uart))
        × (incoming (tio_exec upper input vm).uart ≡ deliver (arrived input) (incoming vm.uart))
        × ((tio_exec upper input vm).memory ≡ vm.memory)
  unfolding tio_exec
  tio_exec_lem input vm =
      let mid = recvc upper input vm in
      let r = recvc-Receives input vm in
      let s = sendc-Transmits mid in
      (
        s.sent,
        s.printed_on ∙ ap₂ (λ t o. t ++ printed o) r.terminal_same r.outgoing_same,
        s.incoming_same ∙ r.delivered,
        s.memory_same ∙ r.memory_same,
      )
