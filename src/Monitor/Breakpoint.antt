-- ===== src/Monitor/Breakpoint.antt =====
-- The table of break points of vmmonitor.c. The loops over the table recur on the list of slots.
pub mod Status
pub mod Laws
pub mod Shape
pub mod Slots
mod Tests
use c_vm.Prelude.{
  ℕ, zero, suc, ◌+◌, ◌%◌, Bool, true, false, not, ◌&&◌, ◌||◌, bit_and, bit_or, bit_xor, Option,
  none, some, List, [], ◌∷◌, ◌==◌, nonzero, not8, u8, if◌then◌else◌, get_or, set,
}

-- `_breakpoint_struct`
pub record Breakpoint : Type 0 where
  pub address : ℕ
  pub status : ℕ

-- `breakpoint` and `_last_breakpoint`
pub record Table : Type 0 where
  pub slots : List Breakpoint
  pub last : ℕ

abbrev pub number_of_breakpoints : ℕ
number_of_breakpoints = 4

-- `_breakpoint_status`
abbrev pub bps_enabled : ℕ
bps_enabled = 128

abbrev pub bps_set : ℕ
bps_set = 64

abbrev pub empty_slot : Breakpoint
empty_slot = record { address = 0; status = 0 }

-- The static initial values.
abbrev pub empty_table : Table
empty_table = record { slots = empty_slot ∷ empty_slot ∷ empty_slot ∷ empty_slot ∷ []; last = 0 }

-- The index that a search loop returns, `none` where the loop falls through.
abbrev pub find_index : (Breakpoint → Bool) → List Breakpoint → Option ℕ
find_index test [] = none
find_index test (b ∷ bs) =
    if test b then some 0 else (elim (find_index test bs) [ none ↦ none | some i ↦ some (suc i) ])

abbrev pub is_set : Breakpoint → Bool
is_set b = nonzero (bit_and b.status bps_set)

abbrev pub is_enabled : Breakpoint → Bool
is_enabled b = nonzero (bit_and b.status bps_enabled)

abbrev pub has_address : ℕ → Breakpoint → Bool
has_address addr b = b.address == addr

-- `_find_breakpoint`; `none` is -1.
unfoldable pub find_breakpoint : ℕ → Table → Option ℕ
find_breakpoint addr t = find_index (has_address addr) t.slots

-- The first loop of `_find_nextbest`, the second, and the slots in turn.
abbrev pub pick : Option ℕ → Option ℕ → Table → ℕ × Table
pick (some i) disabled t = (i, t)
pick none (some i) t = (i, t)
pick none none t = (t.last, record t { last = u8 (t.last + 1) % number_of_breakpoints })

-- `_find_nextbest`
unfoldable pub find_nextbest : Table → ℕ × Table
find_nextbest t =
    pick (find_index (λ b. not (is_set b)) t.slots) (find_index (λ b. not (is_enabled b)) t.slots) t

-- The assignments to `breakpoint[bpindx]`.
abbrev pub arm : ℕ → Breakpoint → Breakpoint
arm addr b = record { address = addr; status = bit_or b.status (bit_or bps_set bps_enabled) }

abbrev pub disarm : Breakpoint → Breakpoint
disarm b = record b { status = bit_and b.status (not8 (bit_or bps_set bps_enabled)) }

abbrev pub flip : Breakpoint → Breakpoint
flip b = record b { status = bit_or (bit_xor b.status bps_enabled) bps_set }

abbrev pub change_slot : (Breakpoint → Breakpoint) → ℕ → Table → Table
change_slot f i t = record t { slots = set t.slots i (f (get_or t.slots i empty_slot)) }

-- `if (bpindx < 0) return`
abbrev pub change_found : (Breakpoint → Breakpoint) → Option ℕ → Table → Table
change_found f none t = t
change_found f (some i) t = change_slot f i t

-- `if (bpindx < 0) bpindx = _find_nextbest(addr)`
abbrev pub found_or_next : Option ℕ → Table → ℕ × Table
found_or_next none t = find_nextbest t
found_or_next (some i) t = (i, t)

-- `_setclr_breakpoint`
unfoldable pub setclr_breakpoint : ℕ → Bool → Table → Table
unfolding find_breakpoint find_nextbest
setclr_breakpoint addr true t =
    let (i, t') = found_or_next (find_breakpoint addr t) t in change_slot (arm addr) i t'
setclr_breakpoint addr false t = change_found disarm (find_breakpoint addr t) t

-- `_toggle_breakpoint`
unfoldable pub toggle_breakpoint : ℕ → Table → Table
unfolding find_breakpoint
toggle_breakpoint addr t = change_found flip (find_breakpoint addr t) t

-- The test of `_breakpoint_hit`, and its loop.
abbrev pub armed : Breakpoint → Bool
armed b = bit_and b.status (bit_or bps_enabled bps_set) == bit_or bps_enabled bps_set

abbrev pub any_hit : ℕ → List Breakpoint → Bool
any_hit addr [] = false
any_hit addr (b ∷ bs) = armed b && has_address addr b || any_hit addr bs

unfoldable pub breakpoint_hit : ℕ → Table → Bool
breakpoint_hit addr t = any_hit addr t.slots
