-- ===== src/Withdrawals/Claims.antt =====
-- The claim in front of the request to the provider, and the request
-- (`submitMwaloniMobilePayout` in src/modules/mpesa/mpesa.service.ts).
use beba_sacco_backend.Base.Tables.Selections.{All-weaken}
use beba_sacco_backend.Base.Results.Keeps.{>>=-Keeps, gets-Keeps, or_throw-Keeps}
use beba_sacco_backend.Base.{
  ℕ, zero, suc, ◌+◌, ◌≤◌, Key, same, same_opt, same→≡, Bool, true, false, Option, some, List, [],
  ◌∷◌, ◌++◌, All, ◌≡◌, refl, sym, ◌∙◌, subst, arith, gets, or_throw, not_found, find_first,
  some_row, count_where, update_many, Bool-cases, inl, inr, ◌⊎◌, if◌then◌else◌,
}
use beba_sacco_backend.Base.Tables.Laws.{find_first_passes, find_first_only, find_first-All}
use beba_sacco_backend.Store.{Db, MpesaTransaction}
use beba_sacco_backend.Withdrawals.{Site, is_withdrawal_id, withdrawal_row, update_withdrawals}
use beba_sacco_backend.Withdrawals.Settled.{closed_now}
use beba_sacco_backend.Withdrawals.Interrupted.{withdrawal_key}
use beba_sacco_backend.Withdrawals.Benign.{IsBenign}
use beba_sacco_backend.Withdrawals.Steps.{committed, give, committed-StepKeeps, then_do-StepKeeps}
use beba_sacco_backend.Withdrawals.Run.{Run}
use beba_sacco_backend.Withdrawals.Payout.{
  is_local, is_sendable, send_attempted, request_out, send_order, or_text, send_claimed, submit,
  sent_as,
}
use beba_sacco_backend.Withdrawals.Disburse.{reference_of, is_reference}
use beba_sacco_backend.Withdrawals.Run.{Answer, replied, unavailable, not_sent}
use beba_sacco_backend.Withdrawals.Answered.{await_answer-benign}
use beba_sacco_backend.Withdrawals.SentOnce.{
  sends_of, IsUsed, IsOrderly, Orderly, some_row-update_many, benign-IsOrderly, update-Orderly,
  reverse-Orderly,
}

sending : (now : ℕ) → IsBenign (send_attempted now)
unfolding same_opt same
sending now = record {
  id = λ m. refl;
  conversation = λ m. refl;
  reference = λ m. refl;
  local = λ m e. absurd (ground arith);
}

sent_not_local : (now : ℕ) (m : MpesaTransaction) → is_local (send_attempted now m) ≡ false
unfolding same_opt same
sent_not_local now m = refl

found_some :
    (p q : MpesaTransaction → Bool) (rows : List MpesaTransaction) (m : MpesaTransaction)
    → find_first q rows ≡ some m
    → p m ≡ true
    → some_row p rows ≡ true
unfolding find_first some_row
found_some p q [] m found h = absurd (ground arith)
found_some p q (x ∷ rows) m found h = elim (Bool-cases (q x)) [
  | inl e ↦ let is_m : x ≡ m = ground arith in rw (is_m, h) refl
  | inr e ↦ let rest = found_some p q rows m (ground arith) h in ground arith
]

-- A test that only one row could pass, and does not, passes none.
count_none :
    (p : MpesaTransaction → Bool) (m : MpesaTransaction) (rows : List MpesaTransaction)
    → p m ≡ false
    → All (λ a. p a ≡ true → a ≡ m) rows
    → count_where p rows ≡ 0
unfolding count_where
count_none p m [] fails h = refl
count_none p m (x ∷ rows) fails h = elim (Bool-cases (p x)) [
  | inl e ↦ absurd (closed_now (sym fails ∙ subst (λ a. p a ≡ true) (h.0 e) e))
  | inr e ↦ rw (e, count_none p m rows fails h.1) refl
]

sendable_id : (id : Key) (m : MpesaTransaction) → is_sendable id m ≡ true → same m.id id ≡ true
sendable_id id m h = ground arith

sendable_local : (id : Key) (m : MpesaTransaction) → is_sendable id m ≡ true → is_local m ≡ true
sendable_local id m h = ground arith

module _ (o : Key) where
  claimed_rows :
      (id i : Key) (now : ℕ) (m : MpesaTransaction) (rows : List MpesaTransaction)
      → is_sendable id m ≡ true
      → id ≡ i
      → All (λ a. same a.reference (reference_of o) ≡ true → same a.id i ≡ true) rows
      → All (λ a. is_withdrawal_id id a ≡ true → a ≡ m) rows
      → All
          (λ a. same a.reference (reference_of o) ≡ true → is_local a ≡ false)
          (update_many (is_sendable id) (send_attempted now) rows)
  unfolding update_many
  claimed_rows id i now m [] passes is_i owned only = tt
  claimed_rows id i now m (x ∷ rows) passes is_i owned only =
      let rest = claimed_rows id i now m rows passes is_i owned.1 only.1 in
      elim (Bool-cases (is_sendable id x)) [
        | inl e ↦ rw e ((λ k. sent_not_local now x), rest)
        | inr e ↦ rw e (
          (λ k. absurd (
              closed_now (
                sym e
                ∙ subst (λ a. is_sendable id a ≡ true)
                    (sym (only.0 (subst (λ j. same x.id j ≡ true) (sym is_i) (owned.0 k))))
                    passes))),
          rest,
        )
      ]

  -- The row `m` is that of the claim; if the order is `o` it is the row of `o`.
  abbrev pub IsRowOf : Key → Key → MpesaTransaction → List MpesaTransaction → Type 0
  IsRowOf id order m rows =
      (find_first (is_withdrawal_id id) rows ≡ some m)
      × (same order o ≡ true → same m.reference (reference_of o) ≡ true)

  claimed-IsUsed :
      (id order : Key) (now : ℕ) (m : MpesaTransaction) (rows : List MpesaTransaction)
      (sent : List Key)
      → IsOrderly o rows sent
      → IsRowOf id order m rows
      → 1 ≤ count_where (is_sendable id) rows
      → same order o ≡ true
      → (sends_of o sent ≡ 0) × IsUsed o (update_many (is_sendable id) (send_attempted now) rows)
  claimed-IsUsed id order now m rows sent (unique, built, (i, owned), state) (found, row)
        some_claimed is_o =
      let reference = row is_o in
      let named = find_first_passes (is_withdrawal_id id) rows found in
      let only =
        find_first_only withdrawal_key id (is_withdrawal_id id) (λ a e. e) rows unique found in
      let of_i : same m.id i ≡ true =
        find_first-All _ (is_withdrawal_id id) rows owned found reference in
      let is_i : id ≡ i = sym (same→≡ m.id id named) ∙ same→≡ m.id i of_i in
      let sendable : is_sendable id m ≡ true = elim (Bool-cases (is_sendable id m)) [
        | inl e ↦ e
        | inr fails ↦
            let nothing = count_none (is_sendable id) m rows fails (
              All-weaken (λ a. is_withdrawal_id id a ≡ true → a ≡ m)
                (λ a. is_sendable id a ≡ true → a ≡ m) (λ a is_m e. is_m (sendable_id id a e)) rows
                only) in
            absurd (omega (arith, nothing, some_claimed))
      ] in
      let used : IsUsed o (update_many (is_sendable id) (send_attempted now) rows) = (
        some_row-update_many (is_reference (reference_of o)) (is_sendable id) (send_attempted now)
              (λ a. refl) rows
            ∙ found_some (is_reference (reference_of o)) (is_withdrawal_id id) rows m found
                reference,
        claimed_rows id i now m rows sendable is_i owned only,
      ) in
      elim state [
        | inl fresh ↦ (fresh, used)
        | inr (once, (there, spent)) ↦ absurd (
            closed_now (
              sym (find_first-All _ (is_withdrawal_id id) rows spent found reference)
              ∙ sendable_local id m sendable))
      ]

  sends-append :
      (order : Key) (sent : List Key)
      → sends_of o (sent ++ order ∷ []) ≡ sends_of o sent + (if same order o then 1 else 0)
  unfolding count_where
  sends-append order [] = ground arith
  sends-append order (k ∷ sent) = rw (sends-append order sent) (ground arith)

  other_order :
      (order : Key) (sent : List Key)
      → same order o ≡ false
      → sends_of o (sent ++ order ∷ []) ≡ sends_of o sent
  other_order order sent e = let more = sends-append order sent in more ∙ rw e (omega arith)

  unsent :
      (order : Key) (rows : List MpesaTransaction) (sent : List Key)
      → same order o ≡ false
      → (sends_of o sent ≡ 0) ⊎ ((sends_of o sent ≡ 1) × IsUsed o rows)
      → (sends_of o (sent ++ order ∷ []) ≡ 0)
        ⊎ ((sends_of o (sent ++ order ∷ []) ≡ 1) × IsUsed o rows)
  unsent order rows sent e (inl fresh) = inl (omega (arith, other_order order sent e, fresh))
  unsent order rows sent e (inr (once, used)) =
      inr (omega (arith, other_order order sent e, once), used)

  request-IsOrderly :
      (order : Key) (rows : List MpesaTransaction) (sent : List Key)
      → IsOrderly o rows sent
      → (same order o ≡ true → (sends_of o sent ≡ 0) × IsUsed o rows)
      → IsOrderly o rows (sent ++ order ∷ [])
  request-IsOrderly order rows sent (unique, built, owned, state) ready =
      let more = sends-append order sent in
      elim (Bool-cases (same order o)) [
        | inl e ↦
            let (fresh, used) = ready e in
            (unique, built, owned, inr (more ∙ rw (e, fresh) refl, used))
        | inr e ↦ (unique, built, owned, unsent order rows sent e state)
      ]

  request_out-Orderly :
      (answer : Answer) (order : Key) (s : Db)
      → Orderly o s
      → (same order o ≡ true → (sends_of o s.sent ≡ 0) × IsUsed o s.mpesa)
      → Orderly o (request_out answer order s)
  request_out-Orderly not_sent order s h ready = h
  request_out-Orderly unavailable order s h ready = request-IsOrderly order s.mpesa s.sent h ready
  request_out-Orderly (replied reply) order s h ready =
      request-IsOrderly order s.mpesa s.sent h ready

  send_claimed-Orderly :
      (site : Site) (run : Run) (id order : Key) (n : ℕ) (s : Db)
      → Orderly o s
      → (1 ≤ n → same order o ≡ true → (sends_of o s.sent ≡ 0) × IsUsed o s.mpesa)
      → Orderly o (send_claimed site run id order n s).1
  unfolding send_claimed send_order
  send_claimed-Orderly site run id order zero s h ready =
      let existing : Db → Option MpesaTransaction =
        λ (db : Db). find_first (is_withdrawal_id id) db.mpesa in
      then_do-StepKeeps (Orderly o) (committed (withdrawal_row id))
        (λ m. give (sent_as (or_text m.conversation order) id))
        (committed-StepKeeps (Orderly o) (withdrawal_row id) (
          >>=-Keeps (Orderly o) (gets existing) (λ found. or_throw found not_found)
            (gets-Keeps (Orderly o) existing)
            (λ found. or_throw-Keeps (Orderly o) found not_found)))
        (λ m s h. h) s h
  send_claimed-Orderly site run id order (suc n) s h ready =
      await_answer-benign (Orderly o) (update-Orderly o) (reverse-Orderly o) site run id order
        (request_out run.answer order s)
        (request_out-Orderly run.answer order s h (ready (omega arith)))

  -- A submission keeps the order as it is, where the row is the one of the order that it sends.
  pub submit-Orderly :
      (site : Site) (run : Run) (id order : Key) (m : MpesaTransaction) (s : Db)
      → Orderly o s
      → IsRowOf id order m s.mpesa
      → Orderly o (submit site run id order s).1
  unfolding submit update_withdrawals
  submit-Orderly site run id order m s h row =
      send_claimed-Orderly site run id order (count_where (is_sendable id) s.mpesa)
        (record s { mpesa = update_many (is_sendable id) (send_attempted run.now) s.mpesa })
        (benign-IsOrderly o (is_sendable id) (send_attempted run.now) s.mpesa s.sent
          (sending run.now) h)
        (λ some_claimed is_o.
          claimed-IsUsed id order run.now m s.mpesa s.sent h row some_claimed is_o)
