-- ===== src/Monitor/Breakpoint/Slots.antt =====
-- The loops of the break points of vmmonitor.c over a list of slots, and writes to one slot.
use c_vm.Prelude.{
  ℕ, zero, suc, ◌<◌, ◌≡◌, refl, Bool, true, false, ◌&&◌, none, some, List, [], ◌∷◌, get_or, set,
  length, arith,
}
use c_vm.Monitor.Breakpoint.{Breakpoint, empty_slot, find_index, has_address, armed, any_hit}

abbrev pub at : List Breakpoint → ℕ → Breakpoint
at bs i = get_or bs i empty_slot

-- What a search that ends at `i` found, and what a search that ends nowhere tells.
pub find_index-some :
    (test : Breakpoint → Bool) (bs : List Breakpoint) (i : ℕ)
    → find_index test bs ≡ some i
    → (i < length bs) × (test (at bs i) ≡ true)
find_index-some test [] i e = cc
find_index-some test (b ∷ bs) zero e = ground arith
find_index-some test (b ∷ bs) (suc i) e = ground (arith, find_index-some test bs i)

pub find_index-none :
    (test : Breakpoint → Bool) (bs : List Breakpoint) (i : ℕ)
    → find_index test bs ≡ none
    → i < length bs
    → test (at bs i) ≡ false
find_index-none test [] i e h = absurd (omega arith)
find_index-none test (b ∷ bs) zero e h = ground arith
find_index-none test (b ∷ bs) (suc i) e h = ground (arith, find_index-none test bs i)

-- A slot that stops the program at `c`.
abbrev pub stops : ℕ → Breakpoint → Bool
stops c b = armed b && has_address c b

pub any_hit-set_hit :
    (c : ℕ) (bs : List Breakpoint) (i : ℕ) (b : Breakpoint)
    → i < length bs
    → stops c b ≡ true
    → any_hit c (set bs i b) ≡ true
any_hit-set_hit c [] i b h e = absurd (omega arith)
any_hit-set_hit c (x ∷ bs) zero b h e = ground arith
any_hit-set_hit c (x ∷ bs) (suc i) b h e = ground (arith, any_hit-set_hit c bs i b)

pub any_hit-set_same :
    (c : ℕ) (bs : List Breakpoint) (i : ℕ) (b : Breakpoint)
    → stops c b ≡ false
    → stops c (at bs i) ≡ false
    → any_hit c (set bs i b) ≡ any_hit c bs
any_hit-set_same c [] i b e o = refl
any_hit-set_same c (x ∷ bs) zero b e o = ground arith
any_hit-set_same c (x ∷ bs) (suc i) b e o = ground (arith, any_hit-set_same c bs i b)

-- Behind the first slot with an address no other slot with that address is armed.
abbrev pub OnlyFirst : List Breakpoint → Type 0
OnlyFirst [] = Unit {0}
OnlyFirst (b ∷ bs) = (any_hit b.address bs ≡ false) × OnlyFirst bs

any_hit-at :
    (c : ℕ) (bs : List Breakpoint) (i : ℕ)
    → i < length bs
    → stops c (at bs i) ≡ true
    → any_hit c bs ≡ true
any_hit-at c [] i h e = absurd (omega arith)
any_hit-at c (x ∷ bs) zero h e = ground arith
any_hit-at c (x ∷ bs) (suc i) h e = ground (arith, any_hit-at c bs i)

-- Where the slot that stops at `c` is overwritten, nothing stops there any more.
pub any_hit-set_evicted :
    (c : ℕ) (bs : List Breakpoint) (i : ℕ) (b : Breakpoint)
    → OnlyFirst bs
    → i < length bs
    → stops c (at bs i) ≡ true
    → stops c b ≡ false
    → any_hit c (set bs i b) ≡ false
any_hit-set_evicted c [] i b u h e o = absurd (omega arith)
any_hit-set_evicted c (x ∷ bs) zero b u h e o = ground arith
any_hit-set_evicted c (x ∷ bs) (suc i) b u h e o =
    ground (arith, any_hit-set_evicted c bs i b, any_hit-at c bs i)

-- The first slot with an address decides whether the program stops there.
pub any_hit-absent :
    (c : ℕ) (bs : List Breakpoint) → find_index (has_address c) bs ≡ none → any_hit c bs ≡ false
any_hit-absent c [] e = refl
any_hit-absent c (x ∷ bs) e = ground (arith, any_hit-absent c bs)

pub any_hit-found :
    (c : ℕ) (bs : List Breakpoint) (i : ℕ)
    → OnlyFirst bs
    → find_index (has_address c) bs ≡ some i
    → any_hit c bs ≡ armed (at bs i)
any_hit-found c [] i u e = cc
any_hit-found c (x ∷ bs) zero u e = ground arith
any_hit-found c (x ∷ bs) (suc i) u e = ground (arith, any_hit-found c bs i)

pub any_hit-set_found :
    (c : ℕ) (bs : List Breakpoint) (i : ℕ) (b : Breakpoint)
    → OnlyFirst bs
    → find_index (has_address c) bs ≡ some i
    → b.address ≡ c
    → any_hit c (set bs i b) ≡ armed b
any_hit-set_found c [] i b u e a = cc
any_hit-set_found c (x ∷ bs) zero b u e a = ground arith
any_hit-set_found c (x ∷ bs) (suc i) b u e a = ground (arith, any_hit-set_found c bs i b)

any_hit-set_clear :
    (c : ℕ) (bs : List Breakpoint) (i : ℕ) (b : Breakpoint)
    → any_hit c bs ≡ false
    → stops c b ≡ false
    → any_hit c (set bs i b) ≡ false
any_hit-set_clear c [] i b e o = refl
any_hit-set_clear c (x ∷ bs) zero b e o = ground arith
any_hit-set_clear c (x ∷ bs) (suc i) b e o = ground (arith, any_hit-set_clear c bs i b)

pub OnlyFirst-set_found :
    (c : ℕ) (bs : List Breakpoint) (i : ℕ) (b : Breakpoint)
    → OnlyFirst bs
    → find_index (has_address c) bs ≡ some i
    → b.address ≡ c
    → OnlyFirst (set bs i b)
OnlyFirst-set_found c [] i b u e a = tt
OnlyFirst-set_found c (x ∷ bs) zero b u e a = ground arith
OnlyFirst-set_found c (x ∷ bs) (suc i) b u e a =
    ground (arith, OnlyFirst-set_found c bs i b, any_hit-set_clear x.address bs i b)

pub OnlyFirst-set_absent :
    (c : ℕ) (bs : List Breakpoint) (i : ℕ) (b : Breakpoint)
    → OnlyFirst bs
    → find_index (has_address c) bs ≡ none
    → b.address ≡ c
    → OnlyFirst (set bs i b)
OnlyFirst-set_absent c [] i b u e a = tt
OnlyFirst-set_absent c (x ∷ bs) zero b u e a = ground (arith, any_hit-absent c bs)
OnlyFirst-set_absent c (x ∷ bs) (suc i) b u e a =
    ground (arith, OnlyFirst-set_absent c bs i b, any_hit-set_clear x.address bs i b)
