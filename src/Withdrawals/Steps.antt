-- ===== src/Withdrawals/Steps.antt =====
-- Code that runs several transactions, each committed by itself
-- (src/modules/mpesa/withdrawal-reconciliation.service.ts), and what such code keeps and ends in.
use beba_sacco_backend.Base.Results.Keeps.{Keeps}
use beba_sacco_backend.Base.{M, Result, ok, err, ◌≡◌, refl, arith}
use beba_sacco_backend.Store.{Db}

-- A step of the code outside its transactions: it may throw, and what was committed stays.
abbrev pub Step : Type 0 → Type 0
Step A = Db → Result A × Db

abbrev pub commit_result : {A : Type 0} → Db → Result (A × Db) → Result A × Db
commit_result db (ok (a, db')) = (ok a, db')
commit_result db (err e) = (err e, db)

abbrev pub committed : {A : Type 0} → M Db A → Step A
committed m db = commit_result db (m db)

abbrev pub pass_on : {A B : Type 0} → (A → Step B) → Result A → Step B
pass_on f (ok a) db = f a db
pass_on f (err e) db = (err e, db)

abbrev pub then_do : {A B : Type 0} → Step A → (A → Step B) → Step B
then_do m f db = pass_on f (m db).0 (m db).1

abbrev pub handle : {A : Type 0} → Step A → Result A → Step A
handle handler (ok a) db = (ok a, db)
handle handler (err e) db = handler db

abbrev pub or_catch : {A : Type 0} → Step A → Step A → Step A
or_catch m handler db = handle handler (m db).0 (m db).1

abbrev pub give : {A : Type 0} → A → Step A
give a db = (ok a, db)

-- The step keeps what holds of the store, also when it throws.
abbrev pub StepKeeps : {A : Type 0} → (Db → Type 0) → Step A → Type 0
StepKeeps P f = (s : Db) → P s → P (f s).1

module _ (P : Db → Type 0) where
  commit_result-kept :
      {A : Type 0} (s : Db) (r : Result (A × Db))
      → P s
      → ((a : A) (t : Db) → r ≡ ok (a, t) → P t)
      → P (commit_result s r).1
  commit_result-kept s (ok (a, t)) h k = k a t refl
  commit_result-kept s (err e) h k = h

  pub committed-StepKeeps : {A : Type 0} (m : M Db A) → Keeps P m → StepKeeps P (committed m)
  committed-StepKeeps m k s h = commit_result-kept s (m s) h (λ a t e. k s t a h e)

  pass_on-StepKeeps :
      {A B : Type 0} (f : A → Step B) (r : Result A)
      → ((a : A) → StepKeeps P (f a))
      → StepKeeps P (pass_on f r)
  pass_on-StepKeeps f (ok a) hf s h = hf a s h
  pass_on-StepKeeps f (err e) hf s h = h

  -- The step `m` keeps what holds of the store `s`, and what follows keeps it.
  pub then_do-kept :
      {A B : Type 0} (m : Step A) (f : A → Step B) (s : Db)
      → P (m s).1
      → ((a : A) → StepKeeps P (f a))
      → P (then_do m f s).1
  then_do-kept m f s h hf = pass_on-StepKeeps f (m s).0 hf (m s).1 h

  pub then_do-StepKeeps :
      {A B : Type 0} (m : Step A) (f : A → Step B)
      → StepKeeps P m
      → ((a : A) → StepKeeps P (f a))
      → StepKeeps P (then_do m f)
  then_do-StepKeeps m f hm hf s h = pass_on-StepKeeps f (m s).0 hf (m s).1 (hm s h)

  handle-StepKeeps :
      {A : Type 0} (handler : Step A) (r : Result A)
      → StepKeeps P handler
      → StepKeeps P (handle handler r)
  handle-StepKeeps handler (ok a) k s h = h
  handle-StepKeeps handler (err e) k s h = k s h

  pub or_catch-StepKeeps :
      {A : Type 0} (m handler : Step A)
      → StepKeeps P m
      → StepKeeps P handler
      → StepKeeps P (or_catch m handler)
  or_catch-StepKeeps m handler hm k s h = handle-StepKeeps handler (m s).0 k (m s).1 (hm s h)

-- Where the step returns, the store that it leaves is of the kind.
abbrev pub Ends : {A : Type 0} → (Db → Type 0) → Step A → Type 0
Ends {A} Q f = (s : Db) (a : A) → (f s).0 ≡ ok a → Q (f s).1

module _ (Q : Db → Type 0) where
  pass_on-Ends :
      {A B : Type 0} (f : A → Step B) (r : Result A)
      → ((a : A) → Ends Q (f a))
      → Ends Q (pass_on f r)
  pass_on-Ends f (ok a) k s b e = k a s b e
  pass_on-Ends f (err x) k s b e = absurd (ground arith)

  pub then_do-Ends :
      {A B : Type 0} (m : Step A) (f : A → Step B) → ((a : A) → Ends Q (f a)) → Ends Q (then_do m f)
  then_do-Ends m f k s b e = pass_on-Ends f (m s).0 k (m s).1 b e

  handle-Ends :
      {A : Type 0} (handler : Step A) (r : Result A) (s : Db) (a : A)
      → Ends Q handler
      → ((b : A) → r ≡ ok b → Q s)
      → (handle handler r s).0 ≡ ok a
      → Q (handle handler r s).1
  handle-Ends handler (ok b) s a k h e = h b refl
  handle-Ends handler (err x) s a k h e = k s a e

  pub or_catch-Ends :
      {A : Type 0} (m handler : Step A) → Ends Q m → Ends Q handler → Ends Q (or_catch m handler)
  or_catch-Ends m handler hm k s a e = handle-Ends handler (m s).0 (m s).1 a k (λ b e2. hm s b e2) e

  commit_result-Ends :
      {A B : Type 0} (b : B) (s : Db) (r : Result (A × Db)) (c : B)
      → ((a : A) (t : Db) → r ≡ ok (a, t) → Q t)
      → (pass_on (λ _. give b) (commit_result s r).0 (commit_result s r).1).0 ≡ ok c
      → Q (pass_on (λ _. give b) (commit_result s r).0 (commit_result s r).1).1
  commit_result-Ends b s (ok (a, t)) c h e = h a t refl
  commit_result-Ends b s (err x) c h e = absurd (ground arith)

  -- A transaction that is committed last
  pub last-Ends :
      {A B : Type 0} (m : M Db A) (b : B)
      → ((s t : Db) (a : A) → m s ≡ ok (a, t) → Q t)
      → Ends Q (then_do (committed m) (λ _. give b))
  last-Ends m b h s c e = commit_result-Ends b s (m s) c (λ a t e2. h s t a e2) e
