-- ===== src/Withdrawals/Interrupted.antt =====
-- What is left of a withdrawal whose reconciliation stopped between `createAttempt` and the end of
-- the attempt (src/modules/mpesa/withdrawal-reconciliation.service.ts).
use beba_sacco_backend.Base.Results.Inversion.{>>=-ok}
use beba_sacco_backend.Base.{
  All, Option, ℕ, suc, Key, same, true, some, List, [], ◌∷◌, ◌++◌, ◌≡◌, refl, sym, ◌∙◌, subst,
  arith, ok, err, Error, find_first, some_row, update_many, Unique, inl, inr, Bool-cases,
}
use beba_sacco_backend.Base.Tables.Laws.{
  All-update_many, find_first-All, find_first_passes, find_first_only, Unique-update_many,
}
use beba_sacco_backend.Base.Tables.Selections.{All-weaken, some_row-append_last}
use beba_sacco_backend.Store.{Db, MpesaTransaction, TransactionStatus}
use beba_sacco_backend.Ledger.Entry.{NewIds}
use beba_sacco_backend.Withdrawals.{Site, is_withdrawal_id, update_withdrawals}
use beba_sacco_backend.Withdrawals.Manual.{
  Evidence, is_attempt, new_attempt, create_attempt, mark_completed, reverse_failed,
}
use beba_sacco_backend.Withdrawals.Reconcile.{is_claimable, locked, claimed_row, claim}
use beba_sacco_backend.Withdrawals.Run.{Run}
use beba_sacco_backend.Withdrawals.Stuck.{
  HasNextAttempt, IsStuck, claimed_row-ok, mark_completed-stuck, reverse_failed-stuck, after_runs,
  after_runs-IsStuck,
}

abbrev pub withdrawal_key : MpesaTransaction → Key
withdrawal_key m = m.id

-- A claim keeps what does not depend on the lock.
pub claim-All :
    (P : MpesaTransaction → Type 0) (site : Site) (id holder : Key) (now : ℕ) (db db1 : Db)
    (o : Option MpesaTransaction)
    → ((m : MpesaTransaction) → P m → P (locked now holder m))
    → claim site now id holder db ≡ ok (o, db1)
    → All P db.mpesa
    → All P db1.mpesa
unfolding claim update_withdrawals
claim-All P site id holder now db db1 o keep e h =
    let (n, t, e1, e2) =
      >>=-ok (update_withdrawals (is_claimable site now id) (locked now holder)) (claimed_row id)
        e in
    let stored : t ≡ record db {
      mpesa = update_many (is_claimable site now id) (locked now holder) db.mpesa;
    } =
      ground arith in
    let (is_t, row) = claimed_row-ok id TransactionStatus.pending n o t db1 e2 in
    rw (is_t, stored)
      (All-update_many P (is_claimable site now id) (locked now holder) (λ m k passes. keep m k)
        db.mpesa h)

pub claim-row :
    (site : Site) (id holder : Key) (now : ℕ) (db db1 : Db) (m : MpesaTransaction)
    → Unique withdrawal_key db.mpesa
    → claim site now id holder db ≡ ok (some m, db1)
    → Unique withdrawal_key db1.mpesa × (find_first (is_withdrawal_id id) db1.mpesa ≡ some m)
unfolding claim update_withdrawals
claim-row site id holder now db db1 m u e =
    let (n, t, e1, e2) =
      >>=-ok (update_withdrawals (is_claimable site now id) (locked now holder)) (claimed_row id)
        e in
    let stored : t ≡ record db {
      mpesa = update_many (is_claimable site now id) (locked now holder) db.mpesa;
    } =
      ground arith in
    let (is_t, row) = claimed_row-ok id TransactionStatus.pending n (some m) t db1 e2 in
    let unique : Unique withdrawal_key t.mpesa = rw stored (
      Unique-update_many withdrawal_key (is_claimable site now id) (locked now holder) (λ a. refl)
        db.mpesa u) in
    rw is_t (unique, elim row [ inl e ↦ absurd (ground arith) | inr (x, is_x, f) ↦ f ∙ sym is_x ])

attempted-IsStuck :
    (id attempt trigger : Key) (db db' : Db) (m : MpesaTransaction)
    → Unique withdrawal_key db.mpesa
    → find_first (is_withdrawal_id id) db.mpesa ≡ some m
    → create_attempt attempt m trigger db ≡ ok (tt, db')
    → IsStuck id m.status db'
unfolding create_attempt
attempted-IsStuck id attempt trigger db db' m u found e =
    let stored : db' ≡ record db { attempts = db.attempts ++ new_attempt attempt m trigger ∷ [] } =
      elim (Bool-cases (some_row (is_attempt m.id (suc m.attempt_count)) db.attempts)) [
        | inl taken ↦ absurd (ground arith)
        | inr free ↦ ground arith
      ] in
    let only =
      find_first_only withdrawal_key id (is_withdrawal_id id) (λ a passes. passes) db.mpesa u
        found in
    let named = find_first_passes (is_withdrawal_id id) db.mpesa found in
    let taken : some_row (is_attempt id (suc m.attempt_count))
          (db.attempts ++ new_attempt attempt m trigger ∷ [])
        ≡ true =
      some_row-append_last (is_attempt id (suc m.attempt_count)) db.attempts
        (new_attempt attempt m trigger) (ground arith) in
    rw stored (
      All-weaken (λ a. same a.id id ≡ true → a ≡ m) _
        (λ a is_m passes.
          subst (HasNextAttempt id m.status (db.attempts ++ new_attempt attempt m trigger ∷ []))
            (sym (is_m passes)) (refl, taken))
        db.mpesa only)

-- Where the rows have different ids: once a reconciliation has claimed a withdrawal and written the
-- row of its attempt, and stops there, no later run of the reconciliation changes the status of the
-- withdrawal, however many there are and whatever the provider answers; after them a completion or
-- a reversal by hand fails too.
pub claim-interrupted :
    (site : Site) (id holder attempt trigger : Key) (now : ℕ) (db db1 db2 : Db)
    (m n : MpesaTransaction) (runs : List Run)
    → Unique withdrawal_key db.mpesa
    → claim site now id holder db ≡ ok (some m, db1)
    → create_attempt attempt m trigger db1 ≡ ok (tt, db2)
    → find_first (is_withdrawal_id id) (after_runs id site runs db2).mpesa ≡ some n
    → (ids : NewIds) (attempt' tenant actor : Key) (later : ℕ) (evidence : Evidence)
    → (n.status ≡ m.status)
      × ((e : Error) × (mark_completed attempt' id tenant later evidence
              (after_runs id site runs db2)
            ≡ err e))
      × ((e : Error) × (reverse_failed ids attempt' id tenant actor later evidence
              (after_runs id site runs db2)
            ≡ err e))
claim-interrupted site id holder attempt trigger now db db1 db2 m n runs u claimed attempted still
      ids attempt' tenant actor later evidence =
    let (u1, found) = claim-row site id holder now db db1 m u claimed in
    let stuck =
      after_runs-IsStuck id m.status site runs db2
        (attempted-IsStuck id attempt trigger db1 db2 m u1 found attempted) in
    let passes =
      find_first_passes (is_withdrawal_id id) (after_runs id site runs db2).mpesa still in
    (
      (find_first-All _ (is_withdrawal_id id) (after_runs id site runs db2).mpesa stuck still
          passes).0,
      mark_completed-stuck id m.status attempt' tenant later evidence (after_runs id site runs db2)
          stuck,
      reverse_failed-stuck id m.status ids attempt' tenant actor later evidence
          (after_runs id site runs db2) stuck,
    )
