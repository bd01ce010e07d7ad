-- ===== src/Common/Exec/Triple.antt =====
-- What a handler leaves when it returns, by its value, and when it throws.
use mathlib.Core.Path.{◌≡◌, refl}
use mathlib.Core.Bool.{Bool, true, false}
use mathlib.Core.Option.{Option, none, some}
use mesh_talk.Common.Tests.{if◌then◌else◌}
use mesh_talk.Common.Exec.{
  Result, ok, err, Exec, pure, throw, gets, modify, throw_if, continue, ◌>>=◌, with_some,
}
use mesh_talk.Common.Exec.Keeps.{Keeps}

module _ {S E : Type 0} (X : S → Type 0) where
  abbrev pub Outcome : {A : Type 0} → (A → S → Type 0) → Result E A → S → Type 0
  Outcome Q (ok a) s = Q a s
  Outcome Q (err x) s = X s

  -- From a state of `P`, a return leaves a state of `Q`, and a throw one of `X`.
  pub record Triple {A : Type 0} (P : S → Type 0) (m : Exec S E A) (Q : A → S → Type 0)
      : Type 0 where
    pub run : (s : S) → P s → Outcome Q (m s).0 (m s).1

  Outcome-of_keep :
      {A : Type 0} (P : S → Type 0) (r : Result E A) (s : S)
      → P s
      → (P s → X s)
      → Outcome (λ _. P) r s
  Outcome-of_keep P (ok a) s h k = h
  Outcome-of_keep P (err x) s h k = k h

  after_continue :
      {A B : Type 0} (R : A → S → Type 0) (Q : B → S → Type 0) (r : Result E A) (s : S)
      (f : A → Exec S E B)
      → Outcome R r s
      → ((a : A) → Triple (R a) (f a) Q)
      → Outcome Q (continue r s f).0 (continue r s f).1
  after_continue R Q (ok a) s f h k = (k a).run s h
  after_continue R Q (err x) s f h k = h

  Outcome-of_const :
      {A : Type 0} {B : Type 0} (r : Result E A) (s : S)
      → B
      → ((t : S) → X t)
      → Outcome (λ _ _. B) r s
  Outcome-of_const (ok a) s b k = b
  Outcome-of_const (err x) s b k = k s

  module _ {P : S → Type 0} where
    pub Triple-gets : {A : Type 0} (f : S → A) → Triple P (gets f) (λ a s. P s × (f s ≡ a))
    unfolding gets
    Triple-gets f = record { run = λ s h. (h, refl) }

    pub Triple-pure :
        {A : Type 0} {Q : A → S → Type 0} (a : A) → ((s : S) → P s → Q a s) → Triple P (pure a) Q
    unfolding pure
    Triple-pure a k = record { run = k }

    pub Triple-throw :
        {A : Type 0} {Q : A → S → Type 0} (x : E) → ((s : S) → P s → X s) → Triple P (throw x) Q
    unfolding throw
    Triple-throw x k = record { run = k }

    pub Triple-modify :
        {Q : S → Type 0} (f : S → S) → ((s : S) → P s → Q (f s)) → Triple P (modify f) (λ _. Q)
    unfolding modify
    Triple-modify f k = record { run = k }

    pub Triple-throw_if :
        (b : Bool) (x : E)
        → ((s : S) → P s → X s)
        → Triple P (throw_if b x) (λ _ s. P s × (b ≡ false))
    Triple-throw_if true x k = record { run = k }
    Triple-throw_if false x k = record { run = λ s h. (h, refl) }

    pub Triple-fact :
        {A B : Type 0} {Q : A → S → Type 0} (m : Exec S E A)
        → (B → Triple P m Q)
        → Triple (λ s. P s × B) m Q
    Triple-fact m k = record { run = λ s h. (k h.1).run s h.0 }

    pub Triple-const :
        {A : Type 0} {B : Type 0} (m : Exec S E A) → B → ((t : S) → X t) → Triple P m (λ _ _. B)
    Triple-const m b k = record { run = λ s h. Outcome-of_const (m s).0 (m s).1 b k }

    pub Triple-before :
        {A : Type 0} {Q : A → S → Type 0} (P' : S → Type 0) (m : Exec S E A)
        → ((s : S) → P s → P' s)
        → Triple P' m Q
        → Triple P m Q
    Triple-before P' m k t = record { run = λ s h. t.run s (k s h) }

    pub Triple-with_some :
        {A B : Type 0} {Q : B → S → Type 0} (o : Option A) (f : A → Exec S E B) (m : Exec S E B)
        → ((a : A) → o ≡ some a → Triple P (f a) Q)
        → (o ≡ none → Triple P m Q)
        → Triple P (with_some o f m) Q
    unfolding with_some
    Triple-with_some none f m there missing = missing refl
    Triple-with_some (some a) f m there missing = there a refl

    pub Triple-if :
        {A : Type 0} {Q : A → S → Type 0} (b : Bool) (m n : Exec S E A)
        → (b ≡ true → Triple P m Q)
        → (b ≡ false → Triple P n Q)
        → Triple P (if b then m else n) Q
    Triple-if true m n then' else' = then' refl
    Triple-if false m n then' else' = else' refl

    pub Triple-Keeps :
        {A : Type 0} (m : Exec S E A) → Keeps P m → ((s : S) → P s → X s) → Triple P m (λ _. P)
    Triple-Keeps m km k = record {
      run = λ s h. Outcome-of_keep P (m s).0 (m s).1 (km.at s h) (k (m s).1);
    }

    pub Triple-bind :
        {A B : Type 0} {R : A → S → Type 0} {Q : B → S → Type 0} (m : Exec S E A)
        (f : A → Exec S E B)
        → Triple P m R
        → ((a : A) → Triple (R a) (f a) Q)
        → Triple P (m >>= f) Q
    unfolding ◌>>=◌
    Triple-bind {R} {Q} m f first rest = record {
      run = λ s h. after_continue R Q (m s).0 (m s).1 f (first.run s h) rest;
    }

  pub of_Outcome : {A : Type 0} (r : Result E A) (s : S) → Outcome (λ _. X) r s → X s
  of_Outcome (ok a) s h = h
  of_Outcome (err x) s h = h

  -- A handler keeps what it leaves both when it returns and when it throws.
  pub Keeps-Triple : {A : Type 0} (m : Exec S E A) → Triple X m (λ _. X) → Keeps X m
  Keeps-Triple m t = record { at = λ s h. of_Outcome (m s).0 (m s).1 (t.run s h) }
