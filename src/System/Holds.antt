-- ===== src/System/Holds.antt =====
-- Rules that carry a property of the state through commands, for any such property.
use c_vm.Prelude.{Bool, true, false, Option, none, some, if◌then◌else◌, ◌≡◌, subst}
use c_vm.System.{
  System, Outcome, done, bye, aborted, faulted, unfinished, Run, give, next, ◌>>=◌, ◌>>◌, gets,
  change, expect,
}

-- What holds of a result and its state, where the run gets that far.
abbrev pub Ends : {A : Type 0} → (System → Type 0) → (A → Type 0) → Outcome A → Type 0
Ends I P (done v s) = P v × I s
Ends I P bye = Unit {0}
Ends I P aborted = Unit {0}
Ends I P faulted = Unit {0}
Ends I P unfinished = Unit {0}

-- From a state with `I` the command leads to such a state, with a result in `P`.
pub record Holds {A : Type 0} (I : System → Type 0) (P : A → Type 0) (m : Run A) : Type 0 where
  pub run : (s : System) → I s → Ends I P (m s)

abbrev pub Anything : {A : Type 0} → A → Type 0
Anything v = Unit {0}

module _ (I : System → Type 0) where
  module _ {A : Type 0} (P : A → Type 0) where
    pub Holds-give : (v : A) → P v → Holds I P (give v)
    Holds-give v p = record { run = λ s h. (p, h) }

    pub Holds-gets : (f : System → A) → ((s : System) → I s → P (f s)) → Holds I P (gets f)
    Holds-gets f keep = record { run = λ s h. (keep s h, h) }

    pub Holds-faulted : Holds I P (λ _. faulted)
    Holds-faulted = record { run = λ s h. tt }

    pub Holds-bye : Holds I P (λ _. bye)
    Holds-bye = record { run = λ s h. tt }

    pub Holds-unfinished : Holds I P (λ _. unfinished)
    Holds-unfinished = record { run = λ s h. tt }

    pub Holds-if :
        (b : Bool) {m n : Run A} → Holds I P m → Holds I P n → Holds I P (if b then m else n)
    Holds-if true hm hn = hm
    Holds-if false hm hn = hn

    pub Holds-expect : (o : Option A) → ((v : A) → P v) → Holds I P (expect o)
    Holds-expect none p = record { run = λ s h. tt }
    Holds-expect (some v) p = record { run = λ s h. (p v, h) }

  pub Holds-change :
      (f : System → System) → ((s : System) → I s → I (f s)) → Holds I Anything (change f)
  Holds-change f keep = record { run = λ s h. (tt, keep s h) }

  module _ {A B : Type 0} {P : A → Type 0} {Q : B → Type 0} where
    Ends-next :
        (o : Outcome A) (f : A → Run B)
        → Ends I P o
        → ((v : A) → P v → Holds I Q (f v))
        → Ends I Q (next o f)
    Ends-next (done v s) f h keep = (keep v h.0).run s h.1
    Ends-next bye f h keep = tt
    Ends-next aborted f h keep = tt
    Ends-next faulted f h keep = tt
    Ends-next unfinished f h keep = tt

    pub Holds-bind :
        {m : Run A} {f : A → Run B}
        → Holds I P m
        → ((v : A) → P v → Holds I Q (f v))
        → Holds I Q (m >>= f)
    Holds-bind {m} {f} hm hf = record { run = λ s h. Ends-next (m s) f (hm.run s h) hf }

  pub Holds-seq :
      {B : Type 0} {Q : B → Type 0} {m : Run (Unit {0})} {n : Run B}
      → Holds I Anything m
      → Holds I Q n
      → Holds I Q (m >> n)
  Holds-seq hm hn = Holds-bind hm (λ _ _. hn)

  -- A value that is read from the state.
  pub Holds-with :
      {A B : Type 0} {Q : B → Type 0} (f : System → A) {g : A → Run B}
      → ((v : A) → Holds I Q (g v))
      → Holds I Q (gets f >>= g)
  Holds-with f hg = Holds-bind (Holds-gets Anything f (λ _ _. tt)) (λ v _. hg v)

  pub Ends-result :
      {A : Type 0} (P : A → Type 0) (o : Outcome A) (v : A) (s : System)
      → Ends I P o
      → o ≡ done v s
      → I s
  Ends-result P o v s h e = (subst (Ends I P) e h).1

  pub Holds-end :
      {A : Type 0} {P : A → Type 0} {m : Run A}
      → Holds I P m
      → (s : System) (v : A) (s' : System) → I s
      → m s ≡ done v s'
      → I s'
  Holds-end {P = P} {m = m} hm s v s' h e = Ends-result P (m s) v s' (hm.run s h) e
