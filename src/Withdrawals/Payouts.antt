-- ===== src/Withdrawals/Payouts.antt =====
-- What an execution of a payout keeps of one order: `executeB2cDisbursement` of
-- src/modules/mpesa/mpesa.service.ts.
use beba_sacco_backend.Base.{Error}
use beba_sacco_backend.Withdrawals.Created.{found_by_id, all_false, none_found, created-IsOrderly}
use beba_sacco_backend.Base.Results.Keeps.{gets-Keeps}
use beba_sacco_backend.Base.{
  Key, same, same_refl, same→≡, truthy, true, false, Option, none, some, List, [], ◌∷◌, ◌++◌, ◌≡◌,
  refl, sym, subst, arith, gets, find_first, some_row, if◌then◌else◌, Bool-cases, inl, inr,
}
use beba_sacco_backend.Base.Tables.Laws.{find_first_passes, find_first-All, find_first-append_new}
use beba_sacco_backend.Base.Tables.Selections.{All-weaken}
use beba_sacco_backend.Store.{Db, Account, MpesaTransaction}
use beba_sacco_backend.Withdrawals.{Site, is_open, is_withdrawal_id}
use beba_sacco_backend.Withdrawals.Provider.{mark_outcome_unknown}
use beba_sacco_backend.Withdrawals.Benign.{
  mark_outcome_unknown-benign, refresh_status-benign, if-benign,
}
use beba_sacco_backend.Withdrawals.Steps.{
  committed, then_do, give, StepKeeps, committed-StepKeeps, then_do-StepKeeps, then_do-kept,
}
use beba_sacco_backend.Withdrawals.Run.{refresh_status}
use beba_sacco_backend.Withdrawals.Payout.{Payout, sent_as, is_local, submit}
use beba_sacco_backend.Withdrawals.Disburse.{
  build_order, reference_of, is_reference, is_source, clashes, new_payout, create_payout, pay_known,
  pay_order, pay_mobile, is_ambiguous, settle_known, pay_enabled, pay_conversation, pay_found,
  pay_source, pay_account, execute, fail_with,
}
use beba_sacco_backend.Withdrawals.SentOnce.{IsBuilt, Orderly, update-Orderly, reverse-Orderly}
use beba_sacco_backend.Withdrawals.Claims.{IsRowOf, submit-Orderly}

truthy_lem : (text : Option Key) (a : Key) → truthy text ≡ some a → text ≡ some a
unfolding truthy
truthy_lem none a e = ground arith
truthy_lem (some t) a e = ground arith

module _ (o : Key) where
  submit_found :
      (site : Site) (p : Payout) (order : Key) (m : MpesaTransaction) (s : Db)
      → Orderly o s
      → find_first (is_withdrawal_id m.id) s.mpesa ≡ some m
      → (is_local m ≡ true → m.reference ≡ reference_of order)
      → is_local m ≡ true
      → Orderly o (submit site p.run m.id order s).1
  submit_found site p order m s h found built local = submit-Orderly o site p.run m.id order m s h (
    found,
    (λ is_o.
        subst (λ k. same m.reference (reference_of k) ≡ true) (same→≡ order o is_o)
          (subst (λ r. same m.reference r ≡ true) (built local) (same_refl m.reference))),
  )

  refresh-Orderly :
      (site : Site) (p : Payout) (id : Key) → StepKeeps (Orderly o) (refresh_status site p.run id)
  refresh-Orderly site p id =
      refresh_status-benign (Orderly o) (update-Orderly o) (reverse-Orderly o) site p.run id

  known-Orderly :
      (site : Site) (p : Payout) (order : Key) (m : MpesaTransaction) (s : Db)
      → Orderly o s
      → find_first (is_reference (reference_of order)) s.mpesa ≡ some m
      → Orderly o (pay_known site p order m s).1
  unfolding pay_known
  known-Orderly site p order m s h found = elim (Bool-cases (is_local m)) [
    | inl e ↦ rw e (
        submit_found site p order m s h
          (found_by_id (is_reference (reference_of order)) s.mpesa m h.0 found)
          (λ local.
            same→≡ m.reference (reference_of order)
              (find_first_passes (is_reference (reference_of order)) s.mpesa found))
          e)
    | inr e ↦ rw e (
        then_do-StepKeeps (Orderly o)
          (if is_open m.status
            then then_do (refresh_status site p.run m.id) (λ _. give tt)
            else give tt)
          (λ _. give (sent_as order m.id))
          (if-benign (Orderly o) (update-Orderly o) (reverse-Orderly o) (is_open m.status)
            (then_do (refresh_status site p.run m.id) (λ _. give tt)) (give tt)
            (then_do-StepKeeps (Orderly o) (refresh_status site p.run m.id) (λ _. give tt)
              (refresh-Orderly site p m.id) (λ _ t k. k))
            (λ t k. k))
          (λ _ t k. k) s h)
  ]

  new_row :
      (p : Payout) (source : Option Key) (order : Key) (rows : List MpesaTransaction)
      → some_row (clashes p.row source order) rows ≡ false
      → IsRowOf o p.row order (new_payout p source order) (rows ++ new_payout p source order ∷ [])
  new_row p source order rows free = (
    find_first-append_new (is_withdrawal_id p.row) rows (new_payout p source order)
        (none_found (is_withdrawal_id p.row) rows (
          All-weaken (λ a. clashes p.row source order a ≡ false) (λ a. same a.id p.row ≡ false)
            (λ a k. ground arith) rows (all_false (clashes p.row source order) rows free)))
        (same_refl p.row),
    (λ is_o.
        subst (λ k. same (reference_of k) (reference_of o) ≡ true) (sym (same→≡ order o is_o))
          (same_refl (reference_of o))),
  )

  new-Orderly :
      (site : Site) (p : Payout) (source : Option Key) (order : Key) (s : Db)
      → Orderly o s
      → Orderly o (pay_order site p source order none s).1
  unfolding pay_order create_payout
  new-Orderly site p source order s h =
      elim (Bool-cases (some_row (clashes p.row source order) s.mpesa)) [
        | inl e ↦ rw e h
        | inr e ↦
            let created : Db = record s { mpesa = s.mpesa ++ new_payout p source order ∷ [] } in
            rw e (
              then_do-kept (Orderly o) (submit site p.run p.row order)
                (λ _. give (sent_as order p.row)) created
                (submit-Orderly o site p.run p.row order (new_payout p source order) created
                  (created-IsOrderly o p source order s.mpesa s.sent e h)
                  (new_row p source order s.mpesa e))
                (λ _ t k. k))
      ]

  order-Orderly :
      (site : Site) (p : Payout) (source : Option Key) (order : Key)
      (found : Option MpesaTransaction) (s : Db)
      → Orderly o s
      → find_first (is_reference (reference_of order)) s.mpesa ≡ found
      → Orderly o (pay_order site p source order found s).1
  unfolding pay_order
  order-Orderly site p source order none s h found = new-Orderly site p source order s h
  order-Orderly site p source order (some m) s h found = known-Orderly site p order m s h found

  mobile-Orderly :
      (site : Site) (p : Payout) (source : Option Key)
      → StepKeeps (Orderly o) (pay_mobile site p source)
  unfolding pay_mobile
  mobile-Orderly site p source s h =
      let order = build_order p source in
      order-Orderly site p source order (find_first (is_reference (reference_of order)) s.mpesa) s h
        refl

  enabled-Orderly :
      (site : Site) (p : Payout) (source : Option Key)
      → StepKeeps (Orderly o) (pay_enabled site p source)
  unfolding pay_enabled
  enabled-Orderly site p source =
      if-benign (Orderly o) (update-Orderly o) (reverse-Orderly o) site.provider_enabled
        (pay_mobile site p source) (fail_with Error.provider_unavailable)
        (mobile-Orderly site p source) (λ s h. h)

  settle-Orderly :
      (site : Site) (p : Payout) (m : MpesaTransaction) (conversation : Key) (s : Db)
      → Orderly o s
      → find_first (is_withdrawal_id m.id) s.mpesa ≡ some m
      → (is_local m ≡ true → m.reference ≡ reference_of conversation)
      → Orderly o (settle_known site p m conversation s).1
  unfolding settle_known
  settle-Orderly site p m conversation s h found built = elim (Bool-cases (is_local m)) [
    | inl e ↦ rw e (elim (Bool-cases site.provider_enabled) [
      | inl on ↦ rw on (submit_found site p conversation m s h found built e)
      | inr off ↦ rw off h
    ])
    | inr e ↦ rw e (
        then_do-StepKeeps (Orderly o)
          (if is_ambiguous m then committed (mark_outcome_unknown m.id p.run.now) else give tt)
          (λ _. give (sent_as conversation m.id))
          (if-benign (Orderly o) (update-Orderly o) (reverse-Orderly o) (is_ambiguous m)
            (committed (mark_outcome_unknown m.id p.run.now)) (give tt)
            (committed-StepKeeps (Orderly o) (mark_outcome_unknown m.id p.run.now) (
              mark_outcome_unknown-benign (Orderly o) (update-Orderly o) (reverse-Orderly o) m.id
                p.run.now))
            (λ t k. k))
          (λ _ t k. k) s h)
  ]

  conversation-Orderly :
      (site : Site) (p : Payout) (m : MpesaTransaction) (conversation : Option Key) (s : Db)
      → Orderly o s
      → find_first (is_withdrawal_id m.id) s.mpesa ≡ some m
      → ((c : Key) → conversation ≡ some c → is_local m ≡ true → m.reference ≡ reference_of c)
      → Orderly o (pay_conversation site p m conversation s).1
  unfolding pay_conversation
  conversation-Orderly site p m none s h found built = h
  conversation-Orderly site p m (some c) s h found built =
      settle-Orderly site p m c s h found (built c refl)

  found-Orderly :
      (site : Site) (p : Payout) (source : Key) (found : Option MpesaTransaction) (s : Db)
      → Orderly o s
      → find_first (is_source source) s.mpesa ≡ found
      → Orderly o (pay_found site p (some source) found s).1
  unfolding pay_found
  found-Orderly site p source none s h e = enabled-Orderly site p (some source) s h
  found-Orderly site p source (some m) s (unique, built, owned, state) e =
      let of_m = find_first-All IsBuilt (is_source source) s.mpesa built e in
      conversation-Orderly site p m (truthy m.conversation) s (unique, built, owned, state)
        (found_by_id (is_source source) s.mpesa m unique e)
        (λ c conv local. of_m local c (truthy_lem m.conversation c conv))

  source-Orderly :
      (site : Site) (p : Payout) (source : Option Key)
      → StepKeeps (Orderly o) (pay_source site p source)
  unfolding pay_source
  source-Orderly site p none s h = enabled-Orderly site p none s h
  source-Orderly site p (some source) s h =
      found-Orderly site p source (find_first (is_source source) s.mpesa) s h refl

  account-Orderly :
      (site : Site) (p : Payout) (account : Option Account)
      → StepKeeps (Orderly o) (pay_account site p account)
  unfolding pay_account
  account-Orderly site p none s h = h
  account-Orderly site p (some account) s h = source-Orderly site p (truthy p.source) s h

  pub execute-Orderly : (site : Site) (p : Payout) → StepKeeps (Orderly o) (execute site p)
  unfolding execute
  execute-Orderly site p =
      let account : Db → Option Account =
        λ (db : Db). find_first (λ (a : Account). same a.id p.reference_id) db.accounts in
      if-benign (Orderly o) (update-Orderly o) (reverse-Orderly o) p.for_withdrawal
        (then_do (committed (gets account)) (pay_account site p))
        (fail_with Error.loan_payout_disabled)
        (then_do-StepKeeps (Orderly o) (committed (gets account)) (pay_account site p)
          (committed-StepKeeps (Orderly o) (gets account) (gets-Keeps (Orderly o) account))
          (account-Orderly site p))
        (λ s h. h)
