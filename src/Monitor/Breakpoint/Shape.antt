-- ===== src/Monitor/Breakpoint/Shape.antt =====
-- The shape of the table of break points (vmmonitor.c), and the slot that `_find_nextbest` picks.
use c_vm.Prelude.{
  zero, ℕ, suc, ◌<◌, ◌≡◌, ◌⊎◌, inl, inr, refl, Bool, true, false, not, ◌&&◌, Option, none, some,
  List, [], ◌∷◌, set, length, arith,
}
use c_vm.Monitor.Breakpoint.{Breakpoint, Table, find_index, is_set, is_enabled, armed, pick}
use c_vm.Monitor.Breakpoint.Status.{armed-set}
use c_vm.Monitor.Breakpoint.Slots

-- What is enabled is set.
abbrev pub AllNormal : List Breakpoint → Type 0
AllNormal [] = Unit {0}
AllNormal (b ∷ bs) = (is_enabled b ≡ armed b) × AllNormal bs

-- Four slots; of the slots with one address only the first is armed; what is enabled is set.
pub record IsTable (t : Table) : Type 0 where
  pub four : length t.slots ≡ 4
  pub first : Slots.OnlyFirst t.slots
  pub normal : AllNormal t.slots
  pub turn : t.last < 4

pub AllNormal-set :
    (bs : List Breakpoint) (i : ℕ) (b : Breakpoint)
    → AllNormal bs
    → is_enabled b ≡ armed b
    → AllNormal (set bs i b)
AllNormal-set [] i b h e = tt
AllNormal-set (x ∷ bs) zero b h e = (e, h.1)
AllNormal-set (x ∷ bs) (suc i) b h e = (h.0, AllNormal-set bs i b h.1 e)

pub AllNormal-at :
    (bs : List Breakpoint) (i : ℕ)
    → AllNormal bs
    → i < length bs
    → is_enabled (Slots.at bs i) ≡ armed (Slots.at bs i)
AllNormal-at [] i h l = absurd (omega arith)
AllNormal-at (x ∷ bs) zero h l = h.0
AllNormal-at (x ∷ bs) (suc i) h l = AllNormal-at bs i h.1 (omega arith)

abbrev pub all_armed : List Breakpoint → Bool
all_armed [] = true
all_armed (b ∷ bs) = armed b && all_armed bs

all_armed-at :
    (bs : List Breakpoint) (i : ℕ)
    → i < length bs
    → armed (Slots.at bs i) ≡ false
    → all_armed bs ≡ false
all_armed-at [] i h e = absurd (omega arith)
all_armed-at (x ∷ bs) zero h e = ground arith
all_armed-at (x ∷ bs) (suc i) h e = ground (arith, all_armed-at bs i)

pub armed-all :
    (bs : List Breakpoint) (i : ℕ)
    → i < length bs
    → all_armed bs ≡ true
    → armed (Slots.at bs i) ≡ true
armed-all [] i h e = absurd (omega arith)
armed-all (x ∷ bs) zero h e = ground arith
armed-all (x ∷ bs) (suc i) h e = ground (arith, armed-all bs i)

all_armed-none :
    (bs : List Breakpoint)
    → find_index (λ b. not (is_set b)) bs ≡ none
    → find_index (λ b. not (is_enabled b)) bs ≡ none
    → all_armed bs ≡ true
all_armed-none [] e f = refl
all_armed-none (x ∷ bs) e f = ground (arith, all_armed-none bs, armed-set x)

-- The slot that `_find_nextbest` picks: one that is not armed, or else the one whose turn it is.
pub record Picks (t : Table) (i : ℕ) (t' : Table) : Type 0 where
  pub inside : i < length t.slots
  pub slots_same : t'.slots ≡ t.slots
  pub turn : t'.last < 4
  pub free_or_turn :
      ((armed (Slots.at t.slots i) ≡ false) × (all_armed t.slots ≡ false))
      ⊎ ((i ≡ t.last) × (all_armed t.slots ≡ true))

pub pick-Picks :
    (t : Table) (free disabled : Option ℕ)
    → IsTable t
    → find_index (λ b. not (is_set b)) t.slots ≡ free
    → find_index (λ b. not (is_enabled b)) t.slots ≡ disabled
    → Picks t (pick free disabled t).0 (pick free disabled t).1
pick-Picks t (some i) disabled h e f =
    let found = Slots.find_index-some (λ b. not (is_set b)) t.slots i e in
    let free : armed (Slots.at t.slots i) ≡ false =
      ground (arith, armed-set (Slots.at t.slots i), found.1) in
    record {
      inside = found.0;
      slots_same = refl;
      turn = h.turn;
      free_or_turn = inl (free, all_armed-at t.slots i found.0 free);
    }
pick-Picks t none (some i) h e f =
    let found = Slots.find_index-some (λ b. not (is_enabled b)) t.slots i f in
    let free : armed (Slots.at t.slots i) ≡ false =
      ground (arith, armed-set (Slots.at t.slots i), found.1) in
    record {
      inside = found.0;
      slots_same = refl;
      turn = h.turn;
      free_or_turn = inl (free, all_armed-at t.slots i found.0 free);
    }
pick-Picks t none none h e f = record {
  inside = omega (arith, h.four, h.turn);
  slots_same = refl;
  turn = omega arith;
  free_or_turn = inr (refl, all_armed-none t.slots e f);
}
