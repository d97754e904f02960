-- ===== src/Monitor/Breakpoint/Laws.antt =====
-- Setting, clearing and toggling break points (vmmonitor.c), and where the program stops after it.
use c_vm.Prelude.{
  ℕ, ◌≡◌, refl, ◌∙◌, Bool, true, false, not, ◌&&◌, ◌||◌, Option, none, some, ◌==◌, if◌then◌else◌,
  set, length-set, arith,
}
use c_vm.Monitor.Breakpoint.{
  Breakpoint, Table, empty_table, find_index, has_address, is_enabled, armed, any_hit, arm, disarm,
  flip, change_slot, change_found, found_or_next, find_breakpoint, find_nextbest, setclr_breakpoint,
  toggle_breakpoint, breakpoint_hit,
}
use c_vm.Monitor.Breakpoint.Status.{
  armed-arm, armed-disarm, armed-flip, normal-arm, normal-disarm, normal-flip,
}
use c_vm.Monitor.Breakpoint.Slots
use c_vm.Monitor.Breakpoint.Shape.{
  IsTable, AllNormal-set, AllNormal-at, all_armed, armed-all, Picks, pick-Picks,
}

abbrev pub present : ℕ → Table → Bool
present addr t = elim (find_index (has_address addr) t.slots) [ none ↦ false | some i ↦ true ]

-- Where no slot has the address and every slot is armed, the one whose turn it is gives way.
abbrev pub gives_way : ℕ → Table → ℕ → Bool
gives_way addr t c =
    not (present addr t) && all_armed t.slots && has_address c (Slots.at t.slots t.last)

-- Where the program stops after a write to the slot that was found, or that was picked.
set_found :
    (addr c i : ℕ) (t : Table)
    → IsTable t
    → find_index (has_address addr) t.slots ≡ some i
    → any_hit c (set t.slots i (arm addr (Slots.at t.slots i)))
      ≡ (addr == c || any_hit c t.slots && not (gives_way addr t c))
set_found addr c i t h e =
    let b = Slots.at t.slots i in
    let found = Slots.find_index-some (has_address addr) t.slots i e in
    ground (
      arith,
      armed-arm addr b,
      Slots.any_hit-set_hit c t.slots i (arm addr b),
      Slots.any_hit-set_same c t.slots i (arm addr b),
    )

set_picked :
    (addr c i : ℕ) (t t' : Table)
    → IsTable t
    → find_index (has_address addr) t.slots ≡ none
    → Picks t i t'
    → any_hit c (set t.slots i (arm addr (Slots.at t.slots i)))
      ≡ (addr == c || any_hit c t.slots && not (gives_way addr t c))
set_picked addr c i t t' h e p =
    let b = Slots.at t.slots i in
    ground (
      arith,
      p.inside,
      p.free_or_turn,
      armed-arm addr b,
      Slots.any_hit-set_hit c t.slots i (arm addr b),
      Slots.any_hit-set_same c t.slots i (arm addr b),
      Slots.any_hit-set_evicted c t.slots i (arm addr b) h.first,
      armed-all t.slots i,
    )

module _ (addr : ℕ) (t : Table) (h : IsTable t) where
  set_hits :
      (c : ℕ) (o : Option ℕ)
      → find_index (has_address addr) t.slots ≡ o
      → let (i, t') = found_or_next o t in
        any_hit c (change_slot (arm addr) i t').slots
        ≡ (addr == c || any_hit c t.slots && not (gives_way addr t c))
  unfolding find_nextbest
  set_hits c (some i) e = set_found addr c i t h e
  set_hits c none e =
      let p = pick-Picks t _ _ h refl refl in rw p.slots_same (set_picked addr c _ t _ h e p)

  clear_hits :
      (c : ℕ) (o : Option ℕ)
      → find_index (has_address addr) t.slots ≡ o
      → any_hit c (change_found disarm o t).slots ≡ any_hit c t.slots && not (addr == c)
  clear_hits c none e = ground (arith, Slots.any_hit-absent addr t.slots)
  clear_hits c (some i) e =
      let b = Slots.at t.slots i in
      let found = Slots.find_index-some (has_address addr) t.slots i e in
      ground (
        arith,
        armed-disarm b,
        Slots.any_hit-set_found addr t.slots i (disarm b) h.first,
        Slots.any_hit-set_same c t.slots i (disarm b),
      )

  toggle_hits :
      (c : ℕ) (o : Option ℕ)
      → find_index (has_address addr) t.slots ≡ o
      → any_hit c (change_found flip o t).slots
        ≡ (if present addr t && addr == c then not (any_hit c t.slots) else any_hit c t.slots)
  toggle_hits c none e = ground arith
  toggle_hits c (some i) e =
      let b = Slots.at t.slots i in
      let found = Slots.find_index-some (has_address addr) t.slots i e in
      ground (
        arith,
        armed-flip b,
        AllNormal-at t.slots i h.normal,
        Slots.any_hit-found addr t.slots i h.first,
        Slots.any_hit-set_found addr t.slots i (flip b) h.first,
        Slots.any_hit-set_same c t.slots i (flip b),
      )

  changed-IsTable :
      (f : Breakpoint → Breakpoint) (o : Option ℕ)
      → find_index (has_address addr) t.slots ≡ o
      → ((b : Breakpoint) → (f b).address ≡ b.address)
      → ((b : Breakpoint) → is_enabled (f b) ≡ armed (f b))
      → IsTable (change_found f o t)
  changed-IsTable f none e same normal = h
  changed-IsTable f (some i) e same normal =
      let b = Slots.at t.slots i in
      let found = Slots.find_index-some (has_address addr) t.slots i e in
      record {
        four = length-set t.slots i (f b) ∙ h.four;
        first =
            Slots.OnlyFirst-set_found addr t.slots i (f b) h.first e
              (ground (arith, same b, found.1));
        normal = AllNormal-set t.slots i (f b) h.normal (normal b);
        turn = h.turn;
      }

  set-IsTable :
      (o : Option ℕ)
      → find_index (has_address addr) t.slots ≡ o
      → let (i, t') = found_or_next o t in IsTable (change_slot (arm addr) i t')
  unfolding find_nextbest
  set-IsTable (some i) e =
      let b = Slots.at t.slots i in
      record {
        four = length-set t.slots i (arm addr b) ∙ h.four;
        first = Slots.OnlyFirst-set_found addr t.slots i (arm addr b) h.first e refl;
        normal = AllNormal-set t.slots i (arm addr b) h.normal (normal-arm addr b);
        turn = h.turn;
      }
  set-IsTable none e =
      let i = (find_nextbest t).0 in
      let b = Slots.at t.slots i in
      let p = pick-Picks t _ _ h refl refl in
      let first = Slots.OnlyFirst-set_absent addr t.slots i (arm addr b) h.first e refl in
      let normal = AllNormal-set t.slots i (arm addr b) h.normal (normal-arm addr b) in
      rw p.slots_same record {
        four = length-set t.slots i (arm addr b) ∙ h.four;
        first = first;
        normal = normal;
        turn = p.turn;
      }

-- Where the program stops after a break point is set: at its address, and wherever it stopped
-- before, but for one case. If no slot has the address and all four slots are armed, the slot
-- whose turn it is gives way, and the program no longer stops at the address in it.
pub breakpoint_hit_set :
    (addr c : ℕ) (t : Table)
    → IsTable t
    → breakpoint_hit c (setclr_breakpoint addr true t)
      ≡ (addr == c || breakpoint_hit c t && not (gives_way addr t c))
unfolding find_breakpoint breakpoint_hit setclr_breakpoint
breakpoint_hit_set addr c t h = set_hits addr t h c (find_breakpoint addr t) refl

-- Where the program stops after a break point is cleared: wherever it stopped before but at its
-- address. After one is toggled: at its address exactly if it did not stop there before, as long
-- as some slot has the address, and elsewhere as before.
pub breakpoint_hit_changed :
    (addr c : ℕ) (t : Table)
    → IsTable t
    → (breakpoint_hit c (setclr_breakpoint addr false t) ≡ breakpoint_hit c t && not (addr == c))
      × (breakpoint_hit c (toggle_breakpoint addr t)
          ≡ (if present addr t && addr == c then not (breakpoint_hit c t) else breakpoint_hit c t))
unfolding find_breakpoint breakpoint_hit setclr_breakpoint toggle_breakpoint
breakpoint_hit_changed addr c t h = (
  clear_hits addr t h c (find_breakpoint addr t) refl,
  toggle_hits addr t h c (find_breakpoint addr t) refl,
)

-- Setting, clearing and toggling keep the table of four slots in which only the first slot with an
-- address is armed, what is enabled is set, and the turn is that of a slot.
pub table_ops-IsTable :
    (addr : ℕ) (t : Table)
    → IsTable t
    → IsTable (setclr_breakpoint addr true t)
      × IsTable (setclr_breakpoint addr false t)
      × IsTable (toggle_breakpoint addr t)
unfolding find_breakpoint setclr_breakpoint toggle_breakpoint
table_ops-IsTable addr t h = (
  set-IsTable addr t h (find_breakpoint addr t) refl,
  changed-IsTable addr t h disarm (find_breakpoint addr t) refl (λ b. refl) normal-disarm,
  changed-IsTable addr t h flip (find_breakpoint addr t) refl (λ b. refl) normal-flip,
)

pub empty_table-IsTable : IsTable empty_table
empty_table-IsTable = ground arith
