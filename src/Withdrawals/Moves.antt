-- ===== src/Withdrawals/Moves.antt =====
-- A withdrawal that has been paid out stays so and is not refunded, whatever the administrators,
-- the provider and the schedule do later (src/modules/mpesa/withdrawal-reconciliation.service.ts,
-- src/modules/mpesa/mpesa.service.ts).
use beba_sacco_backend.Base.Results.Inversion.{>>=-ok}
use beba_sacco_backend.Base.Results.Keeps.{
  Keeps, >>=-Keeps, gets-Keeps, modify-Keeps, throw_if-Keeps,
}
use beba_sacco_backend.Base.{
  ℕ, suc, Key, same, same→≡, truthy, Bool, true, false, some, List, [], ◌∷◌, ◌++◌, All, ◌≡◌, refl,
  sym, subst, arith, ok, M, ◌>>=◌, ◌>>◌, gets, modify, throw_if, find_first, count_where, some_row,
  Bool-cases, Option-cases, inl, inr, conflict, attempt_exists, ◌==◌,
}
use beba_sacco_backend.Base.Tables.Laws.{find_first-All}
use beba_sacco_backend.Store.{Db, MpesaTransaction, TransactionStatus}
use beba_sacco_backend.Ledger.Entry.{NewIds}
use beba_sacco_backend.Ledger.Reversal.{reverse_transaction}
use beba_sacco_backend.Withdrawals.{is_open, update_withdrawals}
use beba_sacco_backend.Withdrawals.Settled.{
  closed_now, IsSettled, IsPaid, IsSettled-open, update-Keeps, reverse_transaction-Keeps,
}
use beba_sacco_backend.Withdrawals.Answers.{other_link}
use beba_sacco_backend.Withdrawals.Manual.{
  Evidence, lacks_evidence, is_required, require_withdrawal, is_attempt, new_attempt,
  create_attempt, is_undecided, completed_by_hand, completed_reason, failed_by_hand, failure_reason,
  close_attempt, complete_row, mark_completed, reverse_row, reverse_failed,
}

module _ (w tenant t : Key) where
  abbrev Paid : Db → Type 0
  Paid = IsPaid w tenant t

  pub create_attempt-Keeps :
      (id : Key) (m : MpesaTransaction) (trigger : Key) → Keeps Paid (create_attempt id m trigger)
  unfolding create_attempt
  create_attempt-Keeps id m trigger =
      let used : Db → Bool = λ db. some_row (is_attempt m.id (suc m.attempt_count)) db.attempts in
      let write : Db → Db =
        λ db. record db { attempts = db.attempts ++ new_attempt id m trigger ∷ [] } in
      >>=-Keeps Paid (gets used) (λ taken. throw_if taken attempt_exists >> modify write)
        (gets-Keeps Paid used)
        (λ taken.
          >>=-Keeps Paid (throw_if taken attempt_exists) (λ _. modify write)
            (throw_if-Keeps Paid taken attempt_exists) (λ _. modify-Keeps Paid write (λ db h. h)))

  pub close_attempt-Keeps :
      (id : Key) (now : ℕ) (status : TransactionStatus) (reason : Key)
      → Keeps Paid (close_attempt id now status reason)
  unfolding close_attempt
  close_attempt-Keeps id now status reason = modify-Keeps Paid _ (λ db h. h)

  undecided_open :
      (id of : Key) (m : MpesaTransaction) → is_undecided id of m ≡ true → is_open m.status ≡ true
  undecided_open id of m h = ground arith

  undecided_id :
      (id of : Key) (m : MpesaTransaction) → is_undecided id of m ≡ true → same m.id id ≡ true
  undecided_id id of m h = ground arith

  undecided_update-Keeps :
      (id of : Key) (change : MpesaTransaction → MpesaTransaction)
      → ((m : MpesaTransaction) → (change m).id ≡ m.id)
      → ((m : MpesaTransaction) → (change m).transaction ≡ m.transaction)
      → Keeps Paid (update_withdrawals (is_undecided id of) change)
  undecided_update-Keeps id of change ids links =
      update-Keeps w tenant t (is_undecided id of) change (λ m h passes.
        IsSettled-open w tenant t m (change m) (ids m) (links m) (undecided_open id of m passes) h)

  complete_row-Keeps :
      (attempt of : Key) (now : ℕ) (m : MpesaTransaction)
      → Keeps Paid (complete_row attempt of now m)
  unfolding complete_row
  complete_row-Keeps attempt of now m =
      >>=-Keeps Paid (create_attempt attempt m "MANUAL_COMPLETE")
        (λ created. update_withdrawals (is_undecided m.id of) (completed_by_hand now) >>= λ claim.
          throw_if (claim == 0) conflict
          >> close_attempt attempt now TransactionStatus.completed completed_reason)
        (create_attempt-Keeps attempt m "MANUAL_COMPLETE")
        (λ created.
          >>=-Keeps Paid (update_withdrawals (is_undecided m.id of) (completed_by_hand now))
            (λ claim.
              throw_if (claim == 0) conflict
              >> close_attempt attempt now TransactionStatus.completed completed_reason)
            (undecided_update-Keeps m.id of (completed_by_hand now) (λ m. refl) (λ m. refl))
            (λ claim.
              >>=-Keeps Paid (throw_if (claim == 0) conflict)
                (λ _. close_attempt attempt now TransactionStatus.completed completed_reason)
                (throw_if-Keeps Paid (claim == 0) conflict)
                (λ _.
                  close_attempt-Keeps attempt now TransactionStatus.completed completed_reason)))

  pub mark_completed-Keeps :
      (attempt id of : Key) (now : ℕ) (evidence : Evidence)
      → Keeps Paid (mark_completed attempt id of now evidence)
  unfolding mark_completed require_withdrawal
  mark_completed-Keeps attempt id of now evidence s s' a h e =
      elim (Option-cases (find_first (is_required id of) s.mpesa)) [
        | inl missing ↦ absurd (ground arith)
        | inr (m, found) ↦ elim (Bool-cases (lacks_evidence evidence)) [
          | inl lacking ↦ absurd (ground arith)
          | inr given ↦ complete_row-Keeps attempt of now m s s' a h (ground arith)
        ]
      ]

  -- No row of the withdrawal passes the test of the claim.
  none_undecided :
      (id of : Key) (rows : List MpesaTransaction)
      → same id w ≡ true
      → All (IsSettled w tenant t) rows
      → count_where (is_undecided id of) rows ≡ 0
  unfolding count_where
  none_undecided id of [] here h = refl
  none_undecided id of (m ∷ rows) here h = elim (Bool-cases (is_undecided id of m)) [
    | inl e ↦ absurd (
        closed_now (
          subst (λ k. is_open k ≡ true)
            (h.0.paid
              (subst (λ k. same k w ≡ true) (sym (same→≡ m.id id (undecided_id id of m e))) here))
            (undecided_open id of m e)))
    | inr e ↦ rw (e, none_undecided id of rows here h.1) refl
  ]

  abbrev after_claim : NewIds → Key → Key → Key → ℕ → Key → ℕ → M Db (Unit {0})
  after_claim ids attempt of actor now original claim =
      throw_if (claim == 0) conflict
      >> (reverse_transaction ids of actor original >>= λ reversal.
          close_attempt attempt now TransactionStatus.failed failure_reason)

  abbrev after_attempt : NewIds → Key → Key → Key → ℕ → MpesaTransaction → Key → M Db (Unit {0})
  after_attempt ids attempt of actor now m original =
      update_withdrawals (is_undecided m.id of) (failed_by_hand now)
      >>= after_claim ids attempt of actor now original

  reversal-Keeps :
      (ids : NewIds) (attempt of actor : Key) (now : ℕ) (m : MpesaTransaction) (original : Key)
      (claim : ℕ)
      → IsSettled w tenant t m
      → same m.id w ≡ false
      → truthy m.transaction ≡ some original
      → Keeps Paid (after_claim ids attempt of actor now original claim)
  reversal-Keeps ids attempt of actor now m original claim settled other link =
      let close = close_attempt attempt now TransactionStatus.failed failure_reason in
      >>=-Keeps Paid (throw_if (claim == 0) conflict)
        (λ _. reverse_transaction ids of actor original >>= λ reversal. close)
        (throw_if-Keeps Paid (claim == 0) conflict)
        (λ _.
          >>=-Keeps Paid (reverse_transaction ids of actor original) (λ reversal. close)
            (reverse_transaction-Keeps w tenant t ids of actor original
              (other_link w tenant t m original settled other link))
            (λ reversal. close_attempt-Keeps attempt now TransactionStatus.failed failure_reason))

  claim_lost :
      (ids : NewIds) (attempt of actor : Key) (now : ℕ) (m : MpesaTransaction) (original : Key)
      (s s' : Db) (a : Unit {0})
      → same m.id w ≡ true
      → Paid s
      → after_attempt ids attempt of actor now m original s ≡ ok (a, s')
      → ⊥
  unfolding update_withdrawals
  claim_lost ids attempt of actor now m original s s' a here h e =
      let none_left = none_undecided m.id of s.mpesa here h.0 in ground arith

  reverse_row-Keeps :
      (ids : NewIds) (attempt of actor : Key) (now : ℕ) (m : MpesaTransaction) (original : Key)
      → IsSettled w tenant t m
      → truthy m.transaction ≡ some original
      → Keeps Paid (reverse_row ids attempt of actor now m original)
  unfolding reverse_row
  reverse_row-Keeps ids attempt of actor now m original settled link =
      let rest = after_attempt ids attempt of actor now m original in
      elim (Bool-cases (same m.id w)) [
        | inl here ↦ λ s s' a h e.
            let (u, s1, e1, e2) =
              >>=-ok (create_attempt attempt m "MANUAL_REVERSE") (λ _. rest) e in
            absurd (
              claim_lost ids attempt of actor now m original s1 s' a here
                (create_attempt-Keeps attempt m "MANUAL_REVERSE" s s1 u h e1) e2)
        | inr other ↦
            >>=-Keeps Paid (create_attempt attempt m "MANUAL_REVERSE") (λ _. rest)
              (create_attempt-Keeps attempt m "MANUAL_REVERSE")
              (λ _.
                >>=-Keeps Paid (update_withdrawals (is_undecided m.id of) (failed_by_hand now))
                  (after_claim ids attempt of actor now original)
                  (undecided_update-Keeps m.id of (failed_by_hand now) (λ m. refl) (λ m. refl))
                  (λ claim.
                    reversal-Keeps ids attempt of actor now m original claim settled other link))
      ]

  pub reverse_failed-Keeps :
      (ids : NewIds) (attempt id of actor : Key) (now : ℕ) (evidence : Evidence)
      → Keeps Paid (reverse_failed ids attempt id of actor now evidence)
  unfolding reverse_failed require_withdrawal
  reverse_failed-Keeps ids attempt id of actor now evidence s s' a h e =
      elim (Option-cases (find_first (is_required id of) s.mpesa)) [
        | inl missing ↦ absurd (ground arith)
        | inr (m, found) ↦ elim (Bool-cases (lacks_evidence evidence)) [
          | inl lacking ↦ absurd (ground arith)
          | inr given ↦ elim (Option-cases (truthy m.transaction)) [
            | inl missing ↦ absurd (ground arith)
            | inr (original, link) ↦
                reverse_row-Keeps ids attempt of actor now m original
                  (find_first-All (IsSettled w tenant t) (is_required id of) s.mpesa h.0 found) link
                  s s' a h (ground arith)
          ]
        ]
      ]
