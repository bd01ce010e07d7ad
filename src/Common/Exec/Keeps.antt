-- ===== src/Common/Exec/Keeps.antt =====
-- Invariants of handlers, one rule for each way to build a handler. A rule speaks of the state
-- that a handler leaves, whether it returns or throws.
use mathlib.Core.Bool.{Bool, true, false}
use mathlib.Core.List.{List, [], ◌∷◌}
use mathlib.Core.Option.{Option, none, some}
use mesh_talk.Common.Tests.{if◌then◌else◌}
use mesh_talk.Common.Exec.{
  Result, ok, err, Exec, pure, throw, gets, modify, throw_if, continue, try_catch, ◌>>=◌, for_each,
  with_some,
}

pub record Keeps {S E A : Type 0} (P : S → Type 0) (m : Exec S E A) : Type 0 where
  pub at : (s : S) → P s → P (m s).1

module _ {S E : Type 0} {P : S → Type 0} where
  module _ {A : Type 0} where
    pub Keeps-pure : (a : A) → Keeps {E = E} P (pure a)
    unfolding pure
    Keeps-pure a = record { at = λ s h. h }

    pub Keeps-throw : (x : E) → Keeps {A = A} P (throw x)
    unfolding throw
    Keeps-throw x = record { at = λ _ before. before }

    pub Keeps-gets : (f : S → A) → Keeps {E = E} P (gets f)
    unfolding gets
    Keeps-gets f = record { at = λ _ before. before }

    pub Keeps-if :
        (b : Bool) (m n : Exec S E A) → Keeps P m → Keeps P n → Keeps P (if b then m else n)
    Keeps-if true m n km kn = km
    Keeps-if false m n km kn = kn

    Keeps-handle :
        (r : Result E A) (s : S) (h : E → Exec S E A)
        → P s
        → ((x : E) → Keeps P (h x))
        → P (try_catch (λ _. (r, s)) h s).1
    unfolding try_catch
    Keeps-handle (ok a) s h p kh = p
    Keeps-handle (err x) s h p kh = (kh x).at s p

    pub Keeps-try :
        (m : Exec S E A) (h : E → Exec S E A)
        → Keeps P m
        → ((x : E) → Keeps P (h x))
        → Keeps P (try_catch m h)
    unfolding try_catch
    Keeps-try m h km kh = record { at = λ s p. Keeps-handle (m s).0 (m s).1 h (km.at s p) kh }

  pub Keeps-modify : (f : S → S) → ((s : S) → P s → P (f s)) → Keeps {E = E} P (modify f)
  unfolding modify
  Keeps-modify f k = record { at = k }

  pub Keeps-throw_if : (b : Bool) (x : E) → Keeps P (throw_if b x)
  Keeps-throw_if true x = record { at = λ s h. h }
  Keeps-throw_if false x = record { at = λ s h. h }

  module _ {A B : Type 0} where
    Keeps-continue :
        (r : Result E A) (s : S) (f : A → Exec S E B)
        → P s
        → ((a : A) → Keeps P (f a))
        → P (continue r s f).1
    Keeps-continue (ok a) s f p kf = (kf a).at s p
    Keeps-continue (err x) s f p kf = p

    pub Keeps-bind :
        (m : Exec S E A) (f : A → Exec S E B)
        → Keeps P m
        → ((a : A) → Keeps P (f a))
        → Keeps P (m >>= f)
    unfolding ◌>>=◌
    Keeps-bind m f first rest = record {
      at = λ s p. Keeps-continue (m s).0 (m s).1 f (first.at s p) rest;
    }

  pub Keeps-for_each :
      {A : Type 0} (xs : List A) (f : A → Exec S E (Unit {0}))
      → ((a : A) → Keeps P (f a))
      → Keeps P (for_each xs f)
  unfolding for_each
  Keeps-for_each [] f kf = Keeps-pure tt
  Keeps-for_each (x ∷ xs) f kf = Keeps-bind (f x) _ (kf x) (λ _. Keeps-for_each xs f kf)

  pub Keeps-with_some :
      {A B : Type 0} (o : Option A) (f : A → Exec S E B) (m : Exec S E B)
      → ((a : A) → Keeps P (f a))
      → Keeps P m
      → Keeps P (with_some o f m)
  unfolding with_some
  Keeps-with_some none f m kf km = km
  Keeps-with_some (some a) f m kf km = kf a

pub ruleset keeps_rules = (
  Keeps-pure, Keeps-throw, Keeps-gets, Keeps-throw_if, Keeps-if, Keeps-try, Keeps-bind,
  Keeps-for_each, Keeps-with_some,
)
