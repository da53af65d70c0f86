-- ===== src/Withdrawals/Stuck.antt =====
-- A reconciliation that stops between the row of its attempt and the end of the attempt
-- (src/modules/mpesa/withdrawal-reconciliation.service.ts).
use beba_sacco_backend.Base.Results.Inversion.{>>=-ok, Result-cases}
use beba_sacco_backend.Withdrawals.Run.{Run, reconcile, reconcile_claimed}
use beba_sacco_backend.Withdrawals.Reconcile.{claim}
use beba_sacco_backend.Base.{
  [], ◌∷◌, ◌∷◌, ℕ, zero, suc, Key, same, same→≡, true, Option, none, some, List, All, ◌≡◌, refl,
  arith, ok, err, Error, find_first, some_row, update_many, truthy, Bool-cases, Option-cases, inl,
  inr, ◌⊎◌, attempt_exists,
}
use beba_sacco_backend.Base.Tables.Laws.{All-update_many, find_first-All, find_first_passes}
use beba_sacco_backend.Store.{Db, MpesaTransaction, TransactionStatus, ReconAttempt}
use beba_sacco_backend.Ledger.Entry.{NewIds}
use beba_sacco_backend.Withdrawals.{Site, is_withdrawal_id, update_withdrawals}
use beba_sacco_backend.Withdrawals.Manual.{
  Evidence, lacks_evidence, is_required, require_withdrawal, is_attempt, create_attempt,
  complete_row, mark_completed, reverse_row, reverse_failed,
}
use beba_sacco_backend.Withdrawals.Reconcile.{claim, is_claimable, locked, claimed_row}

abbrev pub HasNextAttempt : Key → TransactionStatus → List ReconAttempt → MpesaTransaction → Type 0
HasNextAttempt id status attempts m =
    (m.status ≡ status) × (some_row (is_attempt id (suc m.attempt_count)) attempts ≡ true)

-- Each row of the withdrawal has the status, and the attempt after its last one has a row already.
abbrev pub IsStuck : Key → TransactionStatus → Db → Type 0
IsStuck id status db =
    All (λ m. same m.id id ≡ true → HasNextAttempt id status db.attempts m) db.mpesa

module _ (id : Key) where
  abbrev pub on : Run → Run
  on run = record run { withdrawal = id }

  -- The store after runs on the withdrawal, one after the other
  unfoldable pub after_runs : Site → List Run → Db → Db
  unfolding reconcile
  after_runs site [] db = db
  after_runs site (run ∷ runs) db = after_runs site runs (reconcile site (on run) db).1

module _ (id : Key) (status : TransactionStatus) where
  no_attempt :
      (attempt trigger : Key) (m : MpesaTransaction) (db : Db)
      → same m.id id ≡ true
      → HasNextAttempt id status db.attempts m
      → create_attempt attempt m trigger db ≡ err attempt_exists
  unfolding create_attempt
  no_attempt attempt trigger m db named (_, taken) = rw (same→≡ m.id id named, taken) refl

  pub mark_completed-stuck :
      (attempt tenant : Key) (now : ℕ) (evidence : Evidence) (db : Db)
      → IsStuck id status db
      → (e : Error) × (mark_completed attempt id tenant now evidence db ≡ err e)
  unfolding mark_completed require_withdrawal complete_row
  mark_completed-stuck attempt tenant now evidence db h =
      elim (Option-cases (find_first (is_required id tenant) db.mpesa)) [
        | inl missing ↦ (Error.not_found, ground arith)
        | inr (m, found) ↦ elim (Bool-cases (lacks_evidence evidence)) [
          | inl lacking ↦ (Error.no_evidence, ground arith)
          | inr given ↦
              let passes = find_first_passes (is_required id tenant) db.mpesa found in
              let named : same m.id id ≡ true = ground arith in
              let next = find_first-All _ (is_required id tenant) db.mpesa h found named in
              (
                attempt_exists,
                let none_free = no_attempt attempt "MANUAL_COMPLETE" m db named next in
                    ground arith,
              )
        ]
      ]

  pub reverse_failed-stuck :
      (ids : NewIds) (attempt tenant actor : Key) (now : ℕ) (evidence : Evidence) (db : Db)
      → IsStuck id status db
      → (e : Error) × (reverse_failed ids attempt id tenant actor now evidence db ≡ err e)
  unfolding reverse_failed require_withdrawal reverse_row
  reverse_failed-stuck ids attempt tenant actor now evidence db h =
      elim (Option-cases (find_first (is_required id tenant) db.mpesa)) [
        | inl missing ↦ (Error.not_found, ground arith)
        | inr (m, found) ↦ elim (Bool-cases (lacks_evidence evidence)) [
          | inl lacking ↦ (Error.no_evidence, ground arith)
          | inr given ↦ elim (Option-cases (truthy m.transaction)) [
            | inl missing ↦ (Error.no_ledger_debit, ground arith)
            | inr (original, link) ↦
                let passes = find_first_passes (is_required id tenant) db.mpesa found in
                let named : same m.id id ≡ true = ground arith in
                let next = find_first-All _ (is_required id tenant) db.mpesa h found named in
                (
                  attempt_exists,
                  let none_free = no_attempt attempt "MANUAL_REVERSE" m db named next in
                      ground arith,
                )
          ]
        ]
      ]

  pub claimed_row-ok :
      (n : ℕ) (o : Option MpesaTransaction) (s s' : Db)
      → claimed_row id n s ≡ ok (o, s')
      → (s' ≡ s)
        × ((o ≡ none)
            ⊎ ((m : MpesaTransaction) × (o ≡ some m)
                × (find_first (is_withdrawal_id id) s.mpesa ≡ some m)))
  claimed_row-ok zero o s s' e = (ground arith, inl (ground arith))
  claimed_row-ok (suc n) o s s' e = elim (Option-cases (find_first (is_withdrawal_id id) s.mpesa)) [
    | inl missing ↦ absurd (ground arith)
    | inr (m, found) ↦ (ground arith, inr (m, ground arith, found))
  ]

  locked-IsStuck :
      (site : Site) (now : ℕ) (holder : Key) (n : ℕ) (s s' : Db)
      → update_withdrawals (is_claimable site now id) (locked now holder) s ≡ ok (n, s')
      → IsStuck id status s
      → IsStuck id status s'
  unfolding update_withdrawals
  locked-IsStuck site now holder n s s' e h =
      let stored : s' ≡ record s {
        mpesa = update_many (is_claimable site now id) (locked now holder) s.mpesa;
      } =
        ground arith in
      rw stored (
        All-update_many (λ m. same m.id id ≡ true → HasNextAttempt id status s.attempts m)
          (is_claimable site now id) (locked now holder) (λ m k passes. k) s.mpesa h)

  claim-IsStuck :
      (site : Site) (now : ℕ) (holder : Key) (s s' : Db) (o : Option MpesaTransaction)
      → IsStuck id status s
      → claim site now id holder s ≡ ok (o, s')
      → IsStuck id status s'
        × ((o ≡ none)
            ⊎ ((m : MpesaTransaction) × (o ≡ some m)
                × (find_first (is_withdrawal_id id) s'.mpesa ≡ some m)))
  unfolding claim
  claim-IsStuck site now holder s s' o h e =
      let (n, t, e1, e2) =
        >>=-ok (update_withdrawals (is_claimable site now id) (locked now holder)) (claimed_row id)
          e in
      let (here, row) = claimed_row-ok n o t s' e2 in
      rw here (locked-IsStuck site now holder n s t e1 h, row)

  claimed-IsStuck :
      (site : Site) (run : Run) (o : Option MpesaTransaction) (s : Db)
      → IsStuck id status s
      → ((o ≡ none)
          ⊎ ((m : MpesaTransaction) × (o ≡ some m)
              × (find_first (is_withdrawal_id id) s.mpesa ≡ some m)))
      → IsStuck id status (reconcile_claimed site run o s).1
  unfolding reconcile_claimed
  claimed-IsStuck site run o s h (inl none_claimed) = rw none_claimed h
  claimed-IsStuck site run o s h (inr (m, is_m, found)) =
      let named = find_first_passes (is_withdrawal_id id) s.mpesa found in
      let next = find_first-All _ (is_withdrawal_id id) s.mpesa h found named in
      rw (is_m, no_attempt run.attempt run.trigger m s named next) h

  pub reconcile-IsStuck :
      (site : Site) (run : Run) (s : Db)
      → IsStuck id status s
      → IsStuck id status (reconcile site (on id run) s).1
  unfolding reconcile
  reconcile-IsStuck site run s h = elim (Result-cases (claim site run.now id run.holder s)) [
    | inl ((o, s'), e) ↦
        let (kept, row) = claim-IsStuck site run.now run.holder s s' o h e in
        rw e (claimed-IsStuck site (on id run) o s' kept row)
    | inr (x, e) ↦ rw e h
  ]

  pub after_runs-IsStuck :
      (site : Site) (runs : List Run) (s : Db)
      → IsStuck id status s
      → IsStuck id status (after_runs id site runs s)
  unfolding after_runs
  after_runs-IsStuck site [] s h = h
  after_runs-IsStuck site (run ∷ runs) s h =
      after_runs-IsStuck site runs (reconcile site (on id run) s).1 (reconcile-IsStuck site run s h)
