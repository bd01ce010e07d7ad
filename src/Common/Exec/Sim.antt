-- ===== src/Common/Exec/Sim.antt =====
-- Two handlers over different states, where the second state is a view of the first.
use mathlib.Core.Path.{◌≡◌, refl, ap, sym, subst, ◌∙◌}
use mathlib.Core.Bool.{Bool, true, false}
use mathlib.Core.List.{List, [], ◌∷◌}
use mathlib.Core.Option.{Option, none, some}
use mesh_talk.Common.Tests.{if◌then◌else◌}
use mesh_talk.Common.Exec.Keeps.{Keeps}
use mesh_talk.Common.Exec.{
  Result, ok, err, Exec, pure, throw, gets, modify, throw_if, continue, ◌>>=◌, for_each, with_some,
}

-- On the view of a state, `n` gives the result of `m`, and leaves the view of what `m` leaves.
pub record Sim {S T E A : Type 0} (view : S → T) (m : Exec S E A) (n : Exec T E A) : Type 0 where
  pub at : (s : S) → n (view s) ≡ ((m s).0, view (m s).1)

module _ {S T E : Type 0} {view : S → T} where
  module _ {A : Type 0} where
    pub Sim-pure : (a : A) → Sim {E = E} view (pure a) (pure a)
    unfolding pure
    Sim-pure a = record { at = λ s. refl }

    pub Sim-throw : (x : E) → Sim {A = A} view (throw x) (throw x)
    unfolding throw
    Sim-throw x = record { at = λ s. refl }

    pub Sim-if :
        (b : Bool) (m m' : Exec S E A) (n n' : Exec T E A)
        → Sim view m n
        → Sim view m' n'
        → Sim view (if b then m else m') (if b then n else n')
    Sim-if true m m' n n' a b = a
    Sim-if false m m' n n' a b = b

  pub Sim-modify :
      (f : S → S) (g : T → T)
      → ((s : S) → g (view s) ≡ view (f s))
      → Sim {E = E} view (modify f) (modify g)
  unfolding modify
  Sim-modify f g same = record { at = λ s. ap (λ t. (ok tt, t)) (same s) }

  pub Sim-throw_if : (b : Bool) (x : E) → Sim view (throw_if b x) (throw_if b x)
  Sim-throw_if true x = record { at = λ s. refl }
  Sim-throw_if false x = record { at = λ s. refl }

  module _ {A B : Type 0} where
    continue-Sim :
        (r : Result E A) (s : S) (f : A → Exec S E B) (g : A → Exec T E B)
        → ((a : A) → Sim view (f a) (g a))
        → continue r (view s) g ≡ ((continue r s f).0, view (continue r s f).1)
    continue-Sim (ok a) s f g h = (h a).at s
    continue-Sim (err x) s f g h = refl

    pub Sim-bind :
        (m : Exec S E A) (n : Exec T E A) (f : A → Exec S E B) (g : A → Exec T E B)
        → Sim view m n
        → ((a : A) → Sim view (f a) (g a))
        → Sim view (m >>= f) (n >>= g)
    unfolding ◌>>=◌
    Sim-bind m n f g first rest = record {
      at = λ s. ap (λ q. continue q.0 q.1 g) (first.at s) ∙ continue-Sim (m s).0 (m s).1 f g rest;
    }

    pub Sim-with_some :
        (o : Option A) (f : A → Exec S E B) (g : A → Exec T E B) (m : Exec S E B) (n : Exec T E B)
        → ((a : A) → Sim view (f a) (g a))
        → Sim view m n
        → Sim view (with_some o f m) (with_some o g n)
    unfolding with_some
    Sim-with_some none f g m n there missing = missing
    Sim-with_some (some a) f g m n there missing = there a

  -- What is read from the two states may differ: each goes on with its own.
  pub Sim-gets :
      {A A' B : Type 0} (f : S → A) (g : T → A') (k : A → Exec S E B) (l : A' → Exec T E B)
      → ((s : S) → Sim view (k (f s)) (l (g (view s))))
      → Sim view (gets f >>= k) (gets g >>= l)
  unfolding ◌>>=◌ gets
  Sim-gets f g k l h = record { at = λ s. (h s).at s }

  pub Sim-for_each :
      {A : Type 0} (xs : List A) (f : A → Exec S E (Unit {0})) (g : A → Exec T E (Unit {0}))
      → ((a : A) → Sim view (f a) (g a))
      → Sim view (for_each xs f) (for_each xs g)
  unfolding for_each
  Sim-for_each [] f g h = Sim-pure tt
  Sim-for_each (x ∷ xs) f g h = Sim-bind (f x) (g x) _ _ (h x) (λ _. Sim-for_each xs f g h)

pub ruleset sim_rules =
    (Sim-pure, Sim-throw, Sim-throw_if, Sim-if, Sim-gets, Sim-bind, Sim-with_some, Sim-for_each)

-- The same from the states of `P`.
pub record SimFrom {S T E A : Type 0} (view : S → T) (P : S → Type 0) (m : Exec S E A)
    (n : Exec T E A) : Type 0 where
  pub at : (s : S) → P s → n (view s) ≡ ((m s).0, view (m s).1)

module _ {S T E : Type 0} {view : S → T} {P : S → Type 0} where
  pub SimFrom-Sim :
      {A : Type 0} (m : Exec S E A) (n : Exec T E A) → Sim view m n → SimFrom view P m n
  SimFrom-Sim m n h = record { at = λ s p. h.at s }

  pub SimFrom-if :
      {A : Type 0} (b : Bool) (m m' : Exec S E A) (n n' : Exec T E A)
      → SimFrom view P m n
      → SimFrom view P m' n'
      → SimFrom view P (if b then m else m') (if b then n else n')
  SimFrom-if true m m' n n' a b = a
  SimFrom-if false m m' n n' a b = b

  module _ {A B : Type 0} where
    continue-SimFrom :
        (r : Result E A) (s : S) (f : A → Exec S E B) (g : A → Exec T E B)
        → P s
        → ((a : A) → SimFrom view P (f a) (g a))
        → continue r (view s) g ≡ ((continue r s f).0, view (continue r s f).1)
    continue-SimFrom (ok a) s f g p h = (h a).at s p
    continue-SimFrom (err x) s f g p h = refl

    pub SimFrom-bind :
        (m : Exec S E A) (n : Exec T E A) (f : A → Exec S E B) (g : A → Exec T E B)
        → SimFrom view P m n
        → Keeps P m
        → ((a : A) → SimFrom view P (f a) (g a))
        → SimFrom view P (m >>= f) (n >>= g)
    unfolding ◌>>=◌
    SimFrom-bind m n f g first keeps rest = record {
      at = λ s p.
          ap (λ q. continue q.0 q.1 g) (first.at s p)
          ∙ continue-SimFrom (m s).0 (m s).1 f g (keeps.at s p) rest;
    }

    pub SimFrom-with_some :
        (o : Option A) (f : A → Exec S E B) (g : A → Exec T E B) (m : Exec S E B) (n : Exec T E B)
        → ((a : A) → SimFrom view P (f a) (g a))
        → SimFrom view P m n
        → SimFrom view P (with_some o f m) (with_some o g n)
    unfolding with_some
    SimFrom-with_some none f g m n there missing = missing
    SimFrom-with_some (some a) f g m n there missing = there a

  pub SimFrom-gets :
      {A A' B : Type 0} (f : S → A) (g : T → A') (k : A → Exec S E B) (l : A' → Exec T E B)
      → ((s : S) → P s → SimFrom view P (k (f s)) (l (g (view s))))
      → SimFrom view P (gets f >>= k) (gets g >>= l)
  unfolding ◌>>=◌ gets
  SimFrom-gets f g k l h = record { at = λ s p. (h s p).at s p }

  pub SimFrom-same :
      {A B : Type 0} (f : S → A) (g : T → A) (k : A → Exec S E B) (l : A → Exec T E B)
      → ((s : S) → P s → g (view s) ≡ f s)
      → ((a : A) → SimFrom view P (k a) (l a))
      → SimFrom view P (gets f >>= k) (gets g >>= l)
  SimFrom-same f g k l same rest =
      SimFrom-gets f g k l
        (λ s p. subst (λ a. SimFrom view P (k (f s)) (l a)) (sym (same s p)) (rest (f s)))

  pub SimFrom-for_each :
      {A : Type 0} (xs : List A) (f : A → Exec S E (Unit {0})) (g : A → Exec T E (Unit {0}))
      → ((a : A) → SimFrom view P (f a) (g a))
      → ((a : A) → Keeps P (f a))
      → SimFrom view P (for_each xs f) (for_each xs g)
  unfolding for_each
  SimFrom-for_each [] f g h k = SimFrom-Sim (pure tt) (pure tt) (Sim-pure tt)
  SimFrom-for_each (x ∷ xs) f g h k =
      SimFrom-bind (f x) (g x) _ _ (h x) (k x) (λ _. SimFrom-for_each xs f g h k)
