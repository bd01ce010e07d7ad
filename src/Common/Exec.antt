-- ===== src/Common/Exec.antt =====
-- Handlers that mutate an object and may throw. What was written before a throw stays written, so
-- the state comes back beside the error too.
pub mod Keeps
pub mod Triple
pub mod Sim
use mathlib.Core.Path.{◌≡◌, refl}
use mathlib.Core.Bool.{Bool, true, false}
use mathlib.Core.List.{List, [], ◌∷◌}
use mathlib.Core.Option.{Option, none, some}

pub data Result {ℓ κ} (E : Type ℓ) (A : Type κ) : Type (ℓ ⊔ κ) where
  ok : A → Result E A
  err : E → Result E A

abbrev pub Exec : Type 0 → Type 0 → Type 0 → Type 0
Exec S E A = S → Result E A × S

module _ {S E : Type 0} where
  module _ {A : Type 0} where
    unfoldable pub pure : A → Exec S E A
    pure a s = (ok a, s)

    unfoldable pub throw : E → Exec S E A
    throw x s = (err x, s)

    unfoldable pub gets : (S → A) → Exec S E A
    gets f s = (ok (f s), s)

    abbrev handle : Result E A → S → (E → Exec S E A) → Result E A × S
    handle (ok a) s h = (ok a, s)
    handle (err x) s h = h x s

    -- `try { m } catch (error) { h }`
    unfoldable pub try_catch : Exec S E A → (E → Exec S E A) → Exec S E A
    try_catch m h s = let (r, s') = m s in handle r s' h

  unfoldable pub modify : (S → S) → Exec S E (Unit {0})
  modify f s = (ok tt, f s)

  -- `if (b) throw new Error(x)`
  abbrev pub throw_if : Bool → E → Exec S E (Unit {0})
  throw_if true x s = (err x, s)
  throw_if false x s = (ok tt, s)

  module _ {A B : Type 0} where
    abbrev pub continue : Result E A → S → (A → Exec S E B) → Result E B × S
    continue (ok a) s f = f a s
    continue (err x) s f = (err x, s)

    infixl 10 ◌>>=◌ ◌>>◌
    unfoldable pub ◌>>=◌ : Exec S E A → (A → Exec S E B) → Exec S E B
    unfolding pure throw gets modify
    ◌>>=◌ m f s = let (r, s') = m s in continue r s' f

    abbrev pub ◌>>◌ : Exec S E A → Exec S E B → Exec S E B
    m >> n = m >>= λ _. n

  -- `for (const x of xs) f(x)`
  unfoldable pub for_each : {A : Type 0} → List A → (A → Exec S E (Unit {0})) → Exec S E (Unit {0})
  unfolding ◌>>=◌
  for_each [] f = pure tt
  for_each (x ∷ xs) f = f x >> for_each xs f

  -- `if (o) f(o) else m`, where `o` may be undefined
  unfoldable pub with_some : {A B : Type 0} → Option A → (A → Exec S E B) → Exec S E B → Exec S E B
  with_some none f m = m
  with_some (some a) f m = f a

  -- a step that returns, and one that throws
  pub bind-ok :
      {A B : Type 0} (m : Exec S E A) (f : A → Exec S E B) {s s' : S} {a : A}
      → m s ≡ (ok a, s')
      → (m >>= f) s ≡ f a s'
  unfolding ◌>>=◌
  bind-ok m f e = rw e

  pub bind-err :
      {A B : Type 0} (m : Exec S E A) (f : A → Exec S E B) {s s' : S} {x : E}
      → m s ≡ (err x, s')
      → (m >>= f) s ≡ (err x, s')
  unfolding ◌>>=◌
  bind-err m f e = rw e

  continue-ok :
      {A B : Type 0} (r : Result E A) (s : S) (f : A → Exec S E B) {s' : S} {b : B}
      → continue r s f ≡ (ok b, s')
      → (a : A) × (r ≡ ok a) × (f a s ≡ (ok b, s'))
  continue-ok (ok a) s f e = (a, refl, e)
  continue-ok (err x) s f e = cc

  -- Both steps of a run that returns have returned.
  pub bind-eq-ok :
      {A B : Type 0} (m : Exec S E A) (f : A → Exec S E B) {s s' : S} {b : B}
      → (m >>= f) s ≡ (ok b, s')
      → (a : A) × (t : S) × (m s ≡ (ok a, t)) × (f a t ≡ (ok b, s'))
  unfolding ◌>>=◌
  bind-eq-ok m f {s} e =
      let (a, p, q) = continue-ok (m s).0 (m s).1 f e in (a, (m s).1, rw (← p), q)

  pub for_each-cons :
      {A : Type 0} (x : A) (xs : List A) (f : A → Exec S E (Unit {0})) {s s' : S}
      → f x s ≡ (ok tt, s')
      → for_each (x ∷ xs) f s ≡ for_each xs f s'
  unfolding for_each
  for_each-cons x xs f e = bind-ok (f x) (λ _. for_each xs f) e
