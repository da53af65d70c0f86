-- ===== src/Repayment/Process/Fresh.antt =====
-- Rows of the ledger with other references than a repayment's (src/modules/loans/loan-repayment.service.ts).
use Prim.Native.String.{count}
use beba_sacco_backend.Base.{
  ◌<◌, ℤ, Key, same, join, join-ne, Bool, true, false, none, [], ◌∷◌, ◌++◌, List, M, ok, arith, ◌≡◌,
  refl, find_first,
}
use beba_sacco_backend.Base.Results.Keeps.{Keeps, pure-Keeps}
use beba_sacco_backend.Store.{Db, Transaction, JournalEntry}
use beba_sacco_backend.Ledger.Gl.{
  Leg, penalty, interest, principal, post_loan_repayment_leg, post_gl_only_leg_entry,
  create_leg_entry,
}
use beba_sacco_backend.Ledger.Entry.{has_reference}
use beba_sacco_backend.Repayment.Legs.{label_of_leg, when}

-- No row of the ledger has the reference.
abbrev pub IsFresh : Key → Key → Db → Type 0
IsFresh tenant reference db = find_first (has_reference tenant reference) db.transactions ≡ none

pub append-none :
    {A : Type 0} (p : A → Bool) (xs : List A) (y : A)
    → p y ≡ false
    → find_first p xs ≡ none
    → find_first p (xs ++ y ∷ []) ≡ none
unfolding find_first
append-none p [] y h e = rw h refl
append-none p (x ∷ xs) y h e = ground (arith, append-none p xs y h)

pub leg-transactions :
    (id tenant reference : Key) (amount : ℤ) (transaction actor : Key) (leg : Leg) (db db' : Db)
    (r : JournalEntry × Bool)
    → post_loan_repayment_leg id tenant reference amount transaction actor leg db ≡ ok (r, db')
    → db'.transactions ≡ db.transactions
unfolding post_loan_repayment_leg post_gl_only_leg_entry create_leg_entry
leg-transactions id tenant reference amount transaction actor leg db db' r h = ground arith

pub other_reference :
    (tenant reference suffix : Key) (t : Transaction)
    → 0 < count suffix
    → t.reference ≡ join reference suffix
    → has_reference tenant reference t ≡ false
unfolding has_reference
other_reference tenant reference suffix t h e = rw (e, join-ne reference suffix h) (ground arith)

pub label_length : (leg : Leg) → 0 < count (label_of_leg leg)
label_length penalty = omega arith
label_length interest = omega arith
label_length principal = omega arith

module _ (tenant reference : Key) where
  pub when-Keeps :
      (b : Bool) (m : M Db (List Key))
      → Keeps (IsFresh tenant reference) m
      → Keeps (IsFresh tenant reference) (when b m)
  when-Keeps true m h = h
  when-Keeps false m h = pure-Keeps (IsFresh tenant reference) []

  pub same_rows-Keeps :
      {A : Type 0} (m : M Db A)
      → ((db db' : Db) (a : A) → m db ≡ ok (a, db') → db'.transactions ≡ db.transactions)
      → Keeps (IsFresh tenant reference) m
  same_rows-Keeps m same db db' a h e = rw (same db db' a e) h
