-- ===== src/GuarantorResponse/Answered.antt =====
-- An answered request stays answered while the loan's state is applied
-- (src/loans/guarantor-response.service.ts).
use beba_sacco_backend.Base.{
  ℕ, not, if◌then◌else◌, Bool, true, false, ◌&&◌, Bool-cases, Key, same, same_refl, some, List, [],
  ◌∷◌, M, ◌>>◌, pure, gets, or_throw, throw_if, inl, inr, find_first, rows_where, update_many, ◌≡◌,
  refl, ap, guarantor_not_active, kyc_not_verified,
}
use beba_sacco_backend.Base.Results.Keeps.{
  Keeps, >>=-Keeps, pure-Keeps, gets-Keeps, modify-Keeps, or_throw-Keeps, throw_if-Keeps,
}
use beba_sacco_backend.Base.Tables.Laws.{find_first-update_many}
use beba_sacco_backend.Store.{
  pending_approval, rejected_guarantor_decline, Db, Loan, LoanStatus, Guarantor, GuarantorStatus,
  AccountType,
}
use beba_sacco_backend.Guarantors.{resolve_account_type, place_guarantor_holds}
use beba_sacco_backend.Guarantors.Frames.{
  place_guarantor_holds-Keeps, release_guarantor_holds-Keeps,
}
use beba_sacco_backend.GuarantorResponse.{
  matches, Matcher, by_member, by_id_or_member, Standing, DecisionCall, is_pending, asked,
  accepted_of, apply_loan_state, settle, approve_loan, reject_loan, release_accepted, release_one,
  set_loan_status, mark_released, backs, waits, nominee_of, is_released, criteria_met, terminal,
}
use beba_sacco_backend.GuarantorResponse.Decision.{hold_if_accepted, answer, waiting_row}

first_true : (a b c : Bool) → ((a && b) && c) ≡ true → a ≡ true
first_true true b c h = refl
first_true false b c h = h

matches_released :
    (m : Matcher) (now : ℕ) (g : Guarantor) → matches m (mark_released now g) ≡ matches m g
matches_released (by_member k) now g = refl
matches_released (by_id_or_member k) now g = refl

matches-answer :
    (m : Matcher) (next : GuarantorStatus) (g : Guarantor) → matches m (answer next g) ≡ matches m g
matches-answer (by_member k) next g = refl
matches-answer (by_id_or_member k) next g = refl

module _ (c : DecisionCall) where
  -- The row that the call asks for has been answered.
  abbrev pub IsAnswered : Db → Type 0
  IsAnswered db =
      (g : Guarantor) × (find_first (asked c) db.guarantors ≡ some g)
      × (is_pending g.status ≡ false)

  asked_released : (now : ℕ) (g : Guarantor) → asked c (mark_released now g) ≡ asked c g
  asked_released now g = ap (λ b. backs c.tenant c.loan g && b) (matches_released c.matcher now g)

  pub asked-answer : (next : GuarantorStatus) (g : Guarantor) → asked c (answer next g) ≡ asked c g
  asked-answer next g = ap (λ b. backs c.tenant c.loan g && b) (matches-answer c.matcher next g)

  pub waiting :
      (g : Guarantor)
      → is_pending g.status ≡ true
      → asked c g ≡ true
      → waiting_row c.tenant g.id g ≡ true
  waiting g pending match =
      let tenant =
        first_true (same g.tenant c.tenant) (same g.loan c.loan) (matches c.matcher g) match in
      rw (same_refl g.id, tenant, pending) refl

  still :
      (now : ℕ) (g : Guarantor) (b : Bool)
      → is_pending g.status ≡ false
      → is_pending (if b then mark_released now g else g).status ≡ false
  still now g true h = h
  still now g false h = h

  abbrev pub Found : Guarantor → Db → Type 0
  Found x db = find_first (asked c) db.guarantors ≡ some x

  released_answer :
      (now : ℕ) (q : Guarantor → Bool) (db : Db)
      → IsAnswered db
      → IsAnswered (record db { guarantors = update_many q (mark_released now) db.guarantors })
  released_answer now q db (g, found, answered) = (
    if q g then mark_released now g else g,
    find_first-update_many (asked c) q (mark_released now) (asked_released now) db.guarantors found,
    still now g (q g) answered,
  )

  set_loan_status-Keeps :
      (tenant loan : Key) (status : LoanStatus)
      → Keeps IsAnswered (set_loan_status tenant loan status)
  unfolding set_loan_status
  set_loan_status-Keeps tenant loan status = modify-Keeps IsAnswered _ (λ s h. h)

  release_one-Keeps :
      (tenant : Key) (kind : AccountType) (now : ℕ) (g : Guarantor) (b : Bool)
      → Keeps IsAnswered (release_one tenant kind now g b)
  unfolding release_one
  release_one-Keeps tenant kind now g true = pure-Keeps IsAnswered tt
  release_one-Keeps tenant kind now g false =
      >>=-Keeps IsAnswered _ _
        (release_guarantor_holds-Keeps IsAnswered (λ db rows h. h) tenant (nominee_of g ∷ []) kind)
        (λ _. modify-Keeps IsAnswered _ (λ s h. released_answer now _ s h))

  release_accepted-Keeps :
      (tenant : Key) (kind : AccountType) (now : ℕ) (gs : List Guarantor)
      → Keeps IsAnswered (release_accepted tenant kind now gs)
  unfolding release_accepted
  release_accepted-Keeps tenant kind now [] = pure-Keeps IsAnswered tt
  release_accepted-Keeps tenant kind now (g ∷ more) =
      >>=-Keeps IsAnswered (release_one tenant kind now g (is_released g.hold_released_at))
        (λ _. release_accepted tenant kind now more)
        (release_one-Keeps tenant kind now g (is_released g.hold_released_at))
        (λ _. release_accepted-Keeps tenant kind now more)

  reject_loan-Keeps :
      (tenant : Key) (now : ℕ) (l : Loan) (gs : List Guarantor)
      → Keeps IsAnswered (reject_loan tenant now l gs)
  unfolding reject_loan
  reject_loan-Keeps tenant now l gs =
      let kind = resolve_account_type l.product.required_account_type in
      let last : Unit {0} → M Db LoanStatus = λ _.
        set_loan_status tenant l.id rejected_guarantor_decline >> pure rejected_guarantor_decline in
      >>=-Keeps IsAnswered (release_accepted tenant kind now (accepted_of gs)) last
        (release_accepted-Keeps tenant kind now (accepted_of gs))
        (λ _.
          >>=-Keeps IsAnswered (set_loan_status tenant l.id rejected_guarantor_decline)
            (λ _. pure rejected_guarantor_decline)
            (set_loan_status-Keeps tenant l.id rejected_guarantor_decline)
            (λ _. pure-Keeps IsAnswered rejected_guarantor_decline))

  pub hold_if_accepted-Keeps :
      (standing : Standing) (tenant : Key) (l : Loan) (g : Guarantor) (b : Bool) (x : Guarantor)
      → Keeps (Found x) (hold_if_accepted standing tenant l g b)
  unfolding hold_if_accepted
  hold_if_accepted-Keeps standing tenant l g false x = pure-Keeps (Found x) tt
  hold_if_accepted-Keeps standing tenant l g true x =
      let kind = resolve_account_type l.product.required_account_type in
      let hold : M Db (Unit {0}) = place_guarantor_holds tenant (nominee_of g ∷ []) kind in
      >>=-Keeps (Found x) (or_throw (standing g.member) guarantor_not_active)
        (λ approved. throw_if (not approved) kyc_not_verified >> hold)
        (or_throw-Keeps (Found x) (standing g.member) guarantor_not_active)
        (λ approved.
          >>=-Keeps (Found x) (throw_if (not approved) kyc_not_verified) (λ _. hold)
            (throw_if-Keeps (Found x) (not approved) kyc_not_verified)
            (λ _.
              place_guarantor_holds-Keeps (Found x) (λ db rows h. h) tenant (nominee_of g ∷ [])
                kind))

  settle-Keeps :
      (tenant : Key) (now : ℕ) (l : Loan) (latest : GuarantorStatus) (gs : List Guarantor)
      → Keeps IsAnswered (settle tenant now l latest gs)
  unfolding settle reject_loan approve_loan
  settle-Keeps tenant now l latest gs = elim (Bool-cases (criteria_met l gs)) [
    | inl met ↦ rw met (
        >>=-Keeps IsAnswered (set_loan_status tenant l.id pending_approval) _
          (set_loan_status-Keeps tenant l.id pending_approval)
          (λ _. pure-Keeps IsAnswered pending_approval))
    | inr unmet ↦ elim (Bool-cases (terminal l gs latest)) [
      | inl ends ↦ rw (unmet, ends) (reject_loan-Keeps tenant now l gs)
      | inr waiting ↦ rw (unmet, waiting) (pure-Keeps IsAnswered l.status)
    ]
  ]

  pub apply_loan_state-Keeps :
      (tenant : Key) (now : ℕ) (l : Loan) (latest : GuarantorStatus)
      → Keeps IsAnswered (apply_loan_state tenant now l latest)
  unfolding apply_loan_state
  apply_loan_state-Keeps tenant now l latest =
      >>=-Keeps IsAnswered (gets (λ (db : Db). rows_where (backs tenant l.id) db.guarantors))
        (λ gs. if waits l.status then settle tenant now l latest gs else pure l.status)
        (gets-Keeps IsAnswered (λ (db : Db). rows_where (backs tenant l.id) db.guarantors))
        (λ gs. if_waiting gs (waits l.status))
    where
      if_waiting :
          (gs : List Guarantor) (b : Bool)
          → Keeps IsAnswered (if b then settle tenant now l latest gs else pure l.status)
      if_waiting gs true = settle-Keeps tenant now l latest gs
      if_waiting gs false = pure-Keeps IsAnswered l.status
