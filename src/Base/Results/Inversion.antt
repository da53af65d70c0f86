-- ===== src/Base/Results/Inversion.antt =====
-- What a transaction body that did not throw has done: inversion of the monad's operations.
use mathlib.Core.Path.{◌≡◌, refl}
use mathlib.Core.Logic.{◌⊎◌, inl, inr}
use mathlib.Core.Bool.{Bool, true, false}
use mathlib.Core.Option.{Option, none, some}
use native.Mathlib.Omega.{arith}
use beba_sacco_backend.Base.Results.{Error, Result, ok, err, M, ◌>>=◌, or_throw, throw_if}

module _ {S A B : Type 0} where
  pub >>=-ok :
      (m : M S A) (f : A → M S B) {s s' : S} {b : B}
      → (m >>= f) s ≡ ok (b, s')
      → (a : A) × (t : S) × (m s ≡ ok (a, t)) × (f a t ≡ ok (b, s'))
  >>=-ok m f {s} {s'} {b} h = go (m s) refl h
    where
      go :
          (r : Result (A × S))
          → m s ≡ r
          → elim r [ ok (a, t) ↦ f a t | err e ↦ err e ] ≡ ok (b, s')
          → (a : A) × (t : S) × (m s ≡ ok (a, t)) × (f a t ≡ ok (b, s'))
      go (ok (a, t)) e k = (a, t, e, k)
      go (err x) e k = cc

module _ {S : Type 0} where
  pub or_throw-ok :
      {A : Type 0} (o : Option A) (x : Error) {a : A} {s s' : S}
      → or_throw o x s ≡ ok (a, s')
      → (o ≡ some a) × (s' ≡ s)
  or_throw-ok none x h = cc
  or_throw-ok (some a) x h = (ground arith, ground arith)

  pub throw_if-ok :
      (b : Bool) (x : Error) {u : Unit {0}} {s s' : S}
      → throw_if b x s ≡ ok (u, s')
      → (b ≡ false) × (s' ≡ s)
  throw_if-ok true x h = cc
  throw_if-ok false x h = (refl, ground arith)

pub Result-cases :
    {A : Type 0} (x : Result A) → ((a : A) × (x ≡ ok a)) ⊎ ((e : Error) × (x ≡ err e))
Result-cases (ok a) = inl (a, refl)
Result-cases (err e) = inr (e, refl)
