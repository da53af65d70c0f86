-- ===== src/Repayment/Process/Laws.antt =====
-- What a repayment leaves in the table of transactions.
use beba_sacco_backend.Repayment.Process.Fresh.{
  IsFresh, append-none, leg-transactions, other_reference, label_length, when-Keeps,
}
use Prim.Native.String.{count}
use beba_sacco_backend.Base.{
  not_finite, finite, pure, round4, invalid_amount, leb_ℤ, throw_if, finite, All, Amount, truthy,
  ◌<◌, ℤ, pos, Key, join, count-join, Option, none, some, [], ◌∷◌, ◌++◌, List, M, ok, arith, ◌≡◌,
  refl, find_first, Rounding, Decimal, exact, inl, inr, ℕ,
}
use beba_sacco_backend.Base.Results.Keeps.{Keeps, pure-Keeps, throw_if-Keeps}
use beba_sacco_backend.Base.Results.Inversion.{>>=-ok}
use beba_sacco_backend.Store.{Db, Transaction, Account, Loan}
use beba_sacco_backend.Ledger.Gl.{Leg, penalty, interest, principal, post_loan_repayment_leg}
use beba_sacco_backend.Ledger.Entry.{NewIds, EntryParams, has_reference, post_entry}
use beba_sacco_backend.Ledger.Entry.Laws.{post_entry-outcome}
use beba_sacco_backend.Repayment.Waterfall.{split, Waterfall}
use beba_sacco_backend.Repayment.Process.{
  repay_amount, pay_all, finish, legs, allocate_to, pay_schedule, write_loan, allocate, write_mpesa,
  repay_units, process_repayment,
}
use beba_sacco_backend.Repayment.Legs.{
  Repay, RepayIds, LegIds, Summary, label_of_leg, suffix_of_leg, leg_row, add_row, overpay_params,
  write_overpayment, write_leg, pay_leg, pay_overpayment, lock_target_loan, lock_fosa_account,
}

-- The repayment `p` keeps its own reference fresh.
module _ (p : Repay) where
  abbrev Fresh : Db → Type 0
  Fresh = IsFresh p.tenant p.reference

  add_row-IsFresh :
      (row : Transaction) (suffix : Key) (db : Db)
      → 0 < count suffix
      → row.reference ≡ join p.reference suffix
      → Fresh db
      → Fresh (add_row row db)
  add_row-IsFresh row suffix db n is h =
      append-none (has_reference p.tenant p.reference) db.transactions row
        (other_reference p.tenant p.reference suffix row n is) h

  write_leg-Keeps :
      (ids : LegIds) (account : Account) (loan : Key) (leg : Leg) (amount : ℤ)
      → Keeps Fresh (write_leg ids p account loan leg amount)
  unfolding write_leg
  write_leg-Keeps ids account loan leg amount db db' a h e =
      let row = leg_row ids p account loan leg amount in
      let part = join p.reference (suffix_of_leg leg) in
      let (r, db2, e2, k2) =
        >>=-ok
          (post_loan_repayment_leg ids.entry p.tenant part amount ids.transaction p.processed_by
            leg)
          (λ _. pure (ids.transaction ∷ [])) {s = add_row row db} e in
      pure-Keeps Fresh (ids.transaction ∷ []) db2 db' a
        (rw
          (leg-transactions ids.entry p.tenant part amount ids.transaction p.processed_by leg
            (add_row row db) db2 r e2)
          (add_row-IsFresh row (join (label_of_leg leg) ids.token) db
            (count-join (label_of_leg leg) ids.token (label_length leg)) refl h))
        k2

  pay_leg-Keeps :
      (ids : LegIds) (account : Account) (loan : Key) (leg : Leg) (amount : ℤ)
      → Keeps Fresh (pay_leg ids p account loan leg amount)
  unfolding pay_leg
  pay_leg-Keeps ids account loan leg amount =
      when-Keeps p.tenant p.reference _ _ (write_leg-Keeps ids account loan leg amount)

  post_entry-Keeps :
      (r : Rounding) (ids : NewIds) (q : EntryParams) (given : Decimal) (suffix : Key)
      → 0 < count suffix
      → q.reference ≡ join p.reference suffix
      → Keeps Fresh (post_entry r ids q given)
  post_entry-Keeps r ids q given suffix n is db db' posted h e =
      elim (post_entry-outcome r ids q given db db' posted e).1 [
        | inl (_, unchanged) ↦ rw unchanged h
        | inr wrote ↦
            rw (wrote.written, wrote.applied.written)
              (append-none (has_reference p.tenant p.reference) db.transactions _
                (other_reference p.tenant p.reference suffix _ n is) h)
      ]

  write_overpayment-Keeps :
      (r : Rounding) (ids : NewIds) (account : Account) (loan : Key) (amount : ℤ)
      → Keeps Fresh (write_overpayment r ids p account loan amount)
  unfolding write_overpayment
  write_overpayment-Keeps r ids account loan amount db db' a h e =
      let (posted, db1, e1, k1) =
        >>=-ok (post_entry r ids (overpay_params p account loan amount) (exact amount)) _ e in
      pure-Keeps Fresh (posted.transaction.id ∷ []) db1 db' a
        (post_entry-Keeps r ids (overpay_params p account loan amount) (exact amount) "-OVERPAY"
          (omega arith) refl db db1 posted h e1)
        k1

  pay_overpayment-Keeps :
      (r : Rounding) (ids : NewIds) (account : Account) (loan : Key) (amount : ℤ)
      → Keeps Fresh (pay_overpayment r ids p account loan amount)
  unfolding pay_overpayment
  pay_overpayment-Keeps r ids account loan amount =
      when-Keeps p.tenant p.reference _ _ (write_overpayment-Keeps r ids account loan amount)

  write_mpesa-transactions :
      (id : Option Key) (ids : List Key) (loan : Key) (receipt : Option Key) (db db' : Db)
      (u : Unit {0})
      → write_mpesa id ids loan receipt db ≡ ok (u, db')
      → db'.transactions ≡ db.transactions
  unfolding write_mpesa
  write_mpesa-transactions none ids loan receipt db db' u e = ground arith
  write_mpesa-transactions (some id) ids loan receipt db db' u e = ground arith

  lock_target_loan-same :
      (db db' : Db) (l : Loan)
      → lock_target_loan p db ≡ ok (l, db')
      → db'.transactions ≡ db.transactions
  unfolding lock_target_loan
  lock_target_loan-same db db' l e = ground arith

  lock_fosa_account-same :
      (member : Key) (db db' : Db) (a : Account)
      → lock_fosa_account p.tenant member db ≡ ok (a, db')
      → db'.transactions ≡ db.transactions
  unfolding lock_fosa_account
  lock_fosa_account-same member db db' a e = ground arith

  pay_all-Keeps : (ms : List (M Db (List Key))) → All (Keeps Fresh) ms → Keeps Fresh (pay_all ms)
  unfolding pay_all
  pay_all-Keeps [] h db db' a fr e = pure-Keeps Fresh [] db db' a fr e
  pay_all-Keeps (m ∷ ms) h db db' a fr e =
      let (first, db1, e1, k1) = >>=-ok m _ e in
      let (others, db2, e2, k2) = >>=-ok (pay_all ms) _ k1 in
      pure-Keeps Fresh (first ++ others) db2 db' a
        (pay_all-Keeps ms h.1 db1 db2 others (h.0 db db1 first fr e1) e2) k2

  finish-Keeps :
      (loan : Loan) (w : Waterfall) (rows : List Key) → Keeps Fresh (finish p loan w rows)
  unfolding finish
  finish-Keeps loan w rows db db' a h e =
      let (u, db1, e1, k1) = >>=-ok (write_mpesa (truthy p.mpesa) rows loan.id p.receipt) _ e in
      pure-Keeps Fresh _ db1 db' a
        (rw
          (write_mpesa-transactions (truthy p.mpesa) rows loan.id p.receipt (write_loan loan w db)
            db1 u e1)
          h)
        k1

  allocate_to-Keeps :
      (r : Rounding) (now : ℕ) (ids : RepayIds) (loan : Loan) (account : Account) (w : Waterfall)
      → Keeps Fresh (allocate_to r now ids p loan account w)
  unfolding allocate_to
  allocate_to-Keeps r now ids loan account w db db' a h e =
      let (rows, db1, e1, k1) =
        >>=-ok (pay_all (legs r ids p loan account w)) (finish p loan w) e in
      finish-Keeps loan w rows db1 db' a
        (pay_all-Keeps (legs r ids p loan account w)
          (
            pay_leg-Keeps ids.penalty account loan.id penalty w.to_penalty,
            (
              pay_leg-Keeps ids.interest account loan.id interest w.to_interest,
              (
                pay_leg-Keeps ids.principal account loan.id principal w.to_principal,
                (pay_overpayment-Keeps r ids.overpay account loan.id w.overpayment, tt),
              ),
            ),
          )
          (pay_schedule now p.tenant loan.id w db) db1 rows h e1)
        k1

  allocate-Keeps :
      (r : Rounding) (now : ℕ) (ids : RepayIds) (amount : ℤ)
      → Keeps Fresh (allocate r now ids p amount)
  unfolding allocate
  allocate-Keeps r now ids amount s0 s9 summary h e =
      let (loan, s1, e1, k1) = >>=-ok (lock_target_loan p) _ e in
      let (account, s2, e2, k2) = >>=-ok (lock_fosa_account p.tenant loan.member) _ k1 in
      allocate_to-Keeps r now ids loan account (split amount loan) s2 s9 summary
        (rw
          (lock_fosa_account-same loan.member s1 s2 account e2, lock_target_loan-same s0 s1 loan e1)
          h)
        k2

  repay_units-Keeps :
      (r : Rounding) (now : ℕ) (ids : RepayIds) (amount : ℤ) (db db' : Db) (s : Summary)
      → Fresh db
      → repay_units r now ids p amount db ≡ ok (s, db')
      → Fresh db'
  unfolding repay_units
  repay_units-Keeps r now ids amount db db' s h e =
      allocate-Keeps r now ids amount db db' s h (rw h at e)

  repay_amount-Keeps :
      (r : Rounding) (now : ℕ) (ids : RepayIds) (a : Amount)
      → Keeps Fresh (repay_amount r now ids p a)
  repay_amount-Keeps r now ids not_finite db db' s h e = absurd (ground arith)
  repay_amount-Keeps r now ids (finite d) db db' s h e =
      let (_, db1, e1, k1) = >>=-ok (throw_if (leb_ℤ d.numerator (pos 0)) invalid_amount) _ e in
      repay_units-Keeps r now ids (round4 r d) db1 db' s
        (throw_if-Keeps Fresh (leb_ℤ d.numerator (pos 0)) invalid_amount db db1 _ h e1) k1

  process_repayment-IsFresh :
      (r : Rounding) (now : ℕ) (ids : RepayIds) (db db' : Db) (s : Summary)
      → Fresh db
      → process_repayment r now ids p db ≡ ok (s, db')
      → Fresh db'
  unfolding process_repayment
  process_repayment-IsFresh r now ids db db' s h e =
      repay_amount-Keeps r now ids p.amount db db' s h e

  -- Under a reference that no row of the ledger has yet, a repayment that goes through writes no
  -- row under it either: the search for a duplicate does not find it, and the body of the same
  -- request, run once more with any amount, allocates to the loan once more.
  pub process_repayment-repeats :
      (r : Rounding) (now : ℕ) (ids : RepayIds) (db db' : Db) (s : Summary)
      → find_first (has_reference p.tenant p.reference) db.transactions ≡ none
      → process_repayment r now ids p db ≡ ok (s, db')
      → (later : ℕ) (others : RepayIds) (amount : ℤ)
      → repay_units r later others p amount db' ≡ allocate r later others p amount db'
  unfolding repay_units
  process_repayment-repeats r now ids db db' s h e later others amount =
      rw (process_repayment-IsFresh r now ids db db' s h e) refl
