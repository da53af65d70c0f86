-- ===== src/Base/Results/Keeps.antt =====
-- What a transaction body keeps of the store, whenever it returns.
use mathlib.Core.Path.{◌≡◌}
use native.Mathlib.Omega.{arith}
use mathlib.Core.Bool.{Bool}
use mathlib.Core.Option.{Option}
use beba_sacco_backend.Base.Results.{Error, ok, M, ◌>>=◌, pure, gets, modify, or_throw, throw_if}
use beba_sacco_backend.Base.Results.Inversion.{>>=-ok, or_throw-ok, throw_if-ok}

module _ {S : Type 0} where
  abbrev pub Keeps : {A : Type 0} → (S → Type 0) → M S A → Type 0
  Keeps {A} P m = (s s' : S) (a : A) → P s → m s ≡ ok (a, s') → P s'

  abbrev pub Leads : {A : Type 0} → (S → Type 0) → (S → Type 0) → M S A → Type 0
  Leads {A} P Q m = (s s' : S) (a : A) → P s → m s ≡ ok (a, s') → Q s'

module _ {S : Type 0} (P Q R : S → Type 0) where
  pub >>=-Leads :
      {A B : Type 0} (m : M S A) (f : A → M S B)
      → Leads P Q m
      → ((a : A) → Leads Q R (f a))
      → Leads P R (m >>= f)
  >>=-Leads m f hm hf s s' b h e =
      let (a, t, e1, e2) = >>=-ok m f e in hf a t s' b (hm s t a h e1) e2

module _ {S : Type 0} (P : S → Type 0) where
  pub >>=-Keeps :
      {A B : Type 0} (m : M S A) (f : A → M S B)
      → Keeps P m
      → ((a : A) → Keeps P (f a))
      → Keeps P (m >>= f)
  >>=-Keeps m f hm hf s s' b h e =
      let (a, t, e1, e2) = >>=-ok m f e in hf a t s' b (hm s t a h e1) e2

  pub ok_state : {A : Type 0} (x a : A) (s s' : S) → pure x s ≡ ok (a, s') → s' ≡ s
  ok_state x a s s' e = ground arith

  pub pure-Keeps : {A : Type 0} (x : A) → Keeps P (pure x)
  pure-Keeps x s s' a h e = rw (ok_state x a s s' e) h

  pub gets-Keeps : {A : Type 0} (f : S → A) → Keeps P (gets f)
  gets-Keeps f s s' a h e = rw (ok_state (f s) a s s' e) h

  pub or_throw-Keeps : {A : Type 0} (o : Option A) (x : Error) → Keeps P (or_throw o x)
  or_throw-Keeps o x s s' a h e = let (_, same) = or_throw-ok o x e in rw same h

  pub throw_if-Keeps : (b : Bool) (x : Error) → Keeps P (throw_if b x)
  throw_if-Keeps b x s s' a h e = let (_, same) = throw_if-ok b x e in rw same h

  pub modify-Keeps : (f : S → S) → ((s : S) → P s → P (f s)) → Keeps P (modify f)
  modify-Keeps f k s s' a h e = rw (ok_state tt a (f s) s' e) (k s h)

  pub modify-Leads : (Q : S → Type 0) (f : S → S) → ((s : S) → P s → Q (f s)) → Leads P Q (modify f)
  modify-Leads Q f k s s' a h e = rw (ok_state tt a (f s) s' e) (k s h)
