-- ===== src/Base/Results/Runs.antt =====
-- Transaction bodies that return from each store of a kind.
use mathlib.Core.Path.{◌≡◌, refl}
use beba_sacco_backend.Base.Results.{ok, M, ◌>>=◌, pure, gets, modify}

module _ {S : Type 0} (P : S → Type 0) where
  -- The body returns from each such store, and leaves such a store.
  abbrev pub Runs : {A : Type 0} → M S A → Type 0
  Runs {A} m = (s : S) → P s → (a : A) × (t : S) × (m s ≡ ok (a, t)) × P t

  pub >>=-Runs :
      {A B : Type 0} (m : M S A) (f : A → M S B) → Runs m → ((a : A) → Runs (f a)) → Runs (m >>= f)
  >>=-Runs m f hm hf s h =
      let (a, t, e, k) = hm s h in let (b, u, e2, k2) = hf a t k in (b, u, rw (◌>>=◌, e) e2, k2)

  pub pure-Runs : {A : Type 0} (x : A) → Runs (pure x)
  pure-Runs x s h = (x, s, refl, h)

  pub gets-Runs : {A : Type 0} (f : S → A) → Runs (gets f)
  gets-Runs f s h = (f s, s, refl, h)

  pub modify-Runs : (f : S → S) → ((s : S) → P s → P (f s)) → Runs (modify f)
  modify-Runs f k s h = (tt, f s, refl, k s h)
