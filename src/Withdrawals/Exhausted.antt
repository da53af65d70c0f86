-- ===== src/Withdrawals/Exhausted.antt =====
-- The last automated attempt of a withdrawal
-- (src/modules/mpesa/withdrawal-reconciliation.service.ts).
use beba_sacco_backend.Withdrawals.Steps.{
  commit_result, committed, pass_on, then_do, give, Ends, last-Ends, then_do-Ends, or_catch-Ends,
}
use beba_sacco_backend.Withdrawals.Run.{reconcile_claimed}
use beba_sacco_backend.Withdrawals.Interrupted.{withdrawal_key, claim-All, claim-row}
use beba_sacco_backend.Base.{Unique, none, Option, ◌≢◌, Result}
use beba_sacco_backend.Base.Tables.Selections.{All-weaken}
use beba_sacco_backend.Base.Tables.Laws.{find_first-All, find_first_passes, find_first_only}
use beba_sacco_backend.Base.Results.Inversion.{Result-cases}
use beba_sacco_backend.Withdrawals.Run.{Done, reconcile, is_eligible, skipped}
use beba_sacco_backend.Withdrawals.Reconcile.{claim}
use beba_sacco_backend.Base.{Option, Unique, same→≡, ◌≢◌, subst}
use beba_sacco_backend.Base.Results.Inversion.{Result-cases}
use beba_sacco_backend.Base.Tables.Laws.{find_first-All, find_first_passes, find_first_only}
use beba_sacco_backend.Base.Tables.Selections.{All-weaken}
use beba_sacco_backend.Withdrawals.Settled.{closed_now}
use beba_sacco_backend.Base.{[], ◌∷◌}
use beba_sacco_backend.Base.{
  ℕ, suc, ◌≤◌, Key, same, Bool, true, false, some, List, All, ◌≡◌, refl, sym, ◌∙◌, arith, ok,
  Result, find_first, update_many, Bool-cases, Option-cases, inl, inr,
}
use beba_sacco_backend.Store.{Db, MpesaTransaction, TransactionStatus}
use beba_sacco_backend.Withdrawals.{Site, is_withdrawal_id, withdrawal_row, update_withdrawals}
use beba_sacco_backend.Withdrawals.Provider.{Refresh}
use beba_sacco_backend.Withdrawals.Manual.{create_attempt, close_attempt}
use beba_sacco_backend.Withdrawals.Reconcile.{
  was_contacted, should_review, Outcome, classify_open, classify_status, classify_outcome,
  review_of, scheduled, finish_attempt, mentions_mismatch,
}
use beba_sacco_backend.Withdrawals.Run.{
  Run, refresh_status, manual_review, refreshed_as, retry_scheduled, not_contacted, provider_failed,
  conclude, try_refresh, on_failure, reconcile_claimed,
}

abbrev pub IsReviewed : Key → Db → Type 0
IsReviewed id db = All (λ m. same m.id id ≡ true → m.review_required ≡ true) db.mpesa

module _ (site : Site) where
  scheduled-reviewed :
      (now : ℕ) (before : MpesaTransaction) (outcome : Outcome) (status : TransactionStatus)
      (rows : List MpesaTransaction)
      → review_of site now before outcome ≡ true
      → All
          (λ m. same m.id before.id ≡ true → m.review_required ≡ true)
          (update_many (is_withdrawal_id before.id) (scheduled site now before outcome status) rows)
  unfolding update_many
  scheduled-reviewed now before outcome status [] review = tt
  scheduled-reviewed now before outcome status (m ∷ rows) review =
      let rest = scheduled-reviewed now before outcome status rows review in
      elim (Bool-cases (same m.id before.id)) [
        | inl e ↦ rw e ((λ _. review), rest)
        | inr e ↦ rw e ((λ k. absurd (closed_now (sym e ∙ k))), rest)
      ]

  finish_attempt-IsReviewed :
      (now : ℕ) (attempt : Key) (before : MpesaTransaction) (outcome : Outcome)
      → review_of site now before outcome ≡ true
      → (s t : Db) (a : Unit {0}) → finish_attempt site now attempt before outcome s ≡ ok (a, t)
      → IsReviewed before.id t
  unfolding finish_attempt update_withdrawals close_attempt
  finish_attempt-IsReviewed now attempt before outcome review s t a e =
      elim (Option-cases (find_first (is_withdrawal_id before.id) s.mpesa)) [
        | inl missing ↦ absurd (ground arith)
        | inr (after, found) ↦
            let rows_are : t.mpesa
                ≡ update_many (is_withdrawal_id before.id)
                    (scheduled site now before outcome after.status) s.mpesa =
              ground arith in
            rw rows_are (scheduled-reviewed now before outcome after.status s.mpesa review)
      ]

  exhausted :
      (now : ℕ) (m : MpesaTransaction) (count : ℕ)
      → site.max_attempts ≤ count
      → should_review site now m count ≡ true
  unfolding should_review
  exhausted now m count h = ground arith

  classify_open-reviewed :
      (now : ℕ) (before after : MpesaTransaction) (refresh : Refresh)
      → site.max_attempts ≤ suc before.attempt_count
      → review_of site now before (classify_open site now after refresh (suc before.attempt_count))
        ≡ true
  unfolding classify_open review_of
  classify_open-reviewed now before after refresh h =
      let due = exhausted now after (suc before.attempt_count) h in
      elim (Bool-cases (mentions_mismatch after.failure_reason)) [
        | inl e ↦ rw e refl
        | inr e ↦ elim (Bool-cases refresh.refreshed) [
          | inl f ↦ rw (e, f) due
          | inr f ↦ rw (e, f) due
        ]
      ]

  classify_outcome-reviewed :
      (now : ℕ) (before after : MpesaTransaction) (refresh : Refresh) (status : TransactionStatus)
      → site.max_attempts ≤ suc before.attempt_count
      → review_of site now before
          (classify_status site now after refresh (suc before.attempt_count) status)
        ≡ true
  unfolding classify_status review_of
  classify_outcome-reviewed now before after refresh TransactionStatus.completed h =
      exhausted now before (suc before.attempt_count) h
  classify_outcome-reviewed now before after refresh TransactionStatus.failed h =
      exhausted now before (suc before.attempt_count) h
  classify_outcome-reviewed now before after refresh TransactionStatus.pending h =
      classify_open-reviewed now before after refresh h
  classify_outcome-reviewed now before after refresh TransactionStatus.reversed h =
      classify_open-reviewed now before after refresh h
  classify_outcome-reviewed now before after refresh TransactionStatus.recon_pending h =
      classify_open-reviewed now before after refresh h

module _ (site : Site) (run : Run) (m : MpesaTransaction)
    (last : site.max_attempts ≤ suc m.attempt_count) where
  finish-Ends :
      {A : Type 0} (outcome : Outcome) (b : A)
      → review_of site run.now m outcome ≡ true
      → Ends
          (IsReviewed m.id)
          (then_do (committed (finish_attempt site run.now run.attempt m outcome)) (λ _. give b))
  finish-Ends outcome b review =
      last-Ends (IsReviewed m.id) (finish_attempt site run.now run.attempt m outcome) b
        (finish_attempt-IsReviewed site run.now run.attempt m outcome review)

  conclude-Ends : (refresh : Refresh) → Ends (IsReviewed m.id) (conclude site run m refresh)
  unfolding conclude classify_outcome
  conclude-Ends refresh =
      then_do-Ends (IsReviewed m.id) (committed (withdrawal_row m.id)) _ (λ after.
        finish-Ends (classify_outcome site run.now after refresh (suc m.attempt_count))
          (refreshed_as after.status)
          (classify_outcome-reviewed site run.now m after refresh after.status last))

  try_refresh-Ends : (b : Bool) → Ends (IsReviewed m.id) (try_refresh site run m b)
  unfolding try_refresh review_of
  try_refresh-Ends false = finish-Ends (not_contacted site run.now m) manual_review refl
  try_refresh-Ends true =
      then_do-Ends (IsReviewed m.id) (refresh_status site run m.id) (conclude site run m)
        conclude-Ends

  on_failure-Ends : Ends (IsReviewed m.id) (on_failure site run m)
  unfolding on_failure review_of
  on_failure-Ends =
      finish-Ends (provider_failed site run.now m) (retry_scheduled m.status)
        (exhausted site run.now m (suc m.attempt_count) last)

  claimed-Ends : Ends (IsReviewed m.id) (reconcile_claimed site run (some m))
  unfolding reconcile_claimed
  claimed-Ends =
      then_do-Ends (IsReviewed m.id) (committed (create_attempt run.attempt m run.trigger)) _ (λ _.
        or_catch-Ends (IsReviewed m.id) (try_refresh site run m (was_contacted m))
          (on_failure site run m) (try_refresh-Ends (was_contacted m)) on_failure-Ends)

reviewed-ineligible :
    (site : Site) (later : ℕ) (n : MpesaTransaction)
    → n.review_required ≡ true
    → is_eligible site later n ≡ false
unfolding is_eligible
reviewed-ineligible site later n h = ground arith

claimed-IsReviewed :
    (site : Site) (run : Run) (o : Option MpesaTransaction) (s : Db) (done : Done)
    → ((m : MpesaTransaction)
        → o ≡ some m
        → (same m.id run.withdrawal ≡ true) × (site.max_attempts ≤ suc m.attempt_count))
    → (reconcile_claimed site run o s).0 ≡ ok done
    → done ≢ skipped
    → IsReviewed run.withdrawal (reconcile_claimed site run o s).1
unfolding reconcile_claimed
claimed-IsReviewed site run none s done row e acted = absurd (acted (ground arith))
claimed-IsReviewed site run (some m) s done row e acted =
    let (named, last) = row m refl in
    subst (λ k. IsReviewed k (reconcile_claimed site run (some m) s).1)
      (same→≡ m.id run.withdrawal named) (claimed-Ends site run m last s done e)

-- Where the rows have different ids: the run that makes the last of the attempts that are allowed
-- of a withdrawal, however it goes, leaves it in need of a manual review, unless it is skipped or
-- throws; the schedule never takes the withdrawal up again in that state.
pub reconcile-exhausted :
    (site : Site) (run : Run) (db : Db) (m n : MpesaTransaction) (done : Done) (later : ℕ)
    → Unique withdrawal_key db.mpesa
    → find_first (is_withdrawal_id run.withdrawal) db.mpesa ≡ some m
    → site.max_attempts ≤ suc m.attempt_count
    → (reconcile site run db).0 ≡ ok done
    → done ≢ skipped
    → find_first (is_withdrawal_id run.withdrawal) (reconcile site run db).1.mpesa ≡ some n
    → (n.review_required ≡ true) × (is_eligible site later n ≡ false)
unfolding reconcile
reconcile-exhausted site run db m n done later u found last e acted still =
    elim (Result-cases (claim site run.now run.withdrawal run.holder db)) [
      | inr (x, refused) ↦ absurd (ground arith)
      | inl ((o, db1), claimed) ↦
          let counted =
            All-weaken (λ a. same a.id run.withdrawal ≡ true → a ≡ m)
              (λ a. same a.id run.withdrawal ≡ true → site.max_attempts ≤ suc a.attempt_count)
              (λ a is_m passes.
                subst (λ b. site.max_attempts ≤ suc b.attempt_count) (sym (is_m passes)) last)
              db.mpesa
              (find_first_only withdrawal_key run.withdrawal (is_withdrawal_id run.withdrawal)
                (λ a passes. passes) db.mpesa u found) in
          let counted1 =
            claim-All
              (λ a. same a.id run.withdrawal ≡ true → site.max_attempts ≤ suc a.attempt_count) site
              run.withdrawal run.holder run.now db db1 o (λ a k. k) claimed counted in
          let row : (x : MpesaTransaction)
              → o ≡ some x
              → (same x.id run.withdrawal ≡ true) × (site.max_attempts ≤ suc x.attempt_count) =
            λ x is_x.
              let (u1, found1) = claim-row site run.withdrawal run.holder run.now db db1 x u (
                subst (λ y. claim site run.now run.withdrawal run.holder db ≡ ok (y, db1)) is_x
                  claimed) in
              let named = find_first_passes (is_withdrawal_id run.withdrawal) db1.mpesa found1 in
              (
                named,
                find_first-All _ (is_withdrawal_id run.withdrawal) db1.mpesa counted1 found1 named,
              ) in
          let after : Result (Option MpesaTransaction × Db) → Result Done × Db = λ r.
            pass_on (reconcile_claimed site run) (commit_result db r).0 (commit_result db r).1 in
          let reviewed =
            claimed-IsReviewed site run o db1 done row
              (subst (λ r. (after r).0 ≡ ok done) claimed e) acted in
          let still1 =
            subst (λ r. find_first (is_withdrawal_id run.withdrawal) (after r).1.mpesa ≡ some n)
              claimed still in
          let rows = (reconcile_claimed site run o db1).1.mpesa in
          let review =
            find_first-All _ (is_withdrawal_id run.withdrawal) rows reviewed still1
              (find_first_passes (is_withdrawal_id run.withdrawal) rows still1) in
          (review, reviewed-ineligible site later n review)
    ]
