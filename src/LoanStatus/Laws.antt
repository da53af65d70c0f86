-- ===== src/LoanStatus/Laws.antt =====
-- The lives that the table of transitions allows, and the guard in front of it.
use beba_sacco_backend.Base.{
  Bool-cases, Option-cases, same, some_row, Key, Bool, true, false, some, ◌≡◌, refl, ◌⊎◌, inl, inr,
  ok, arith, find_first, truthy,
}
use beba_sacco_backend.Store.{
  Db, Loan, LoanStatus, draft, pending_guarantors, pending_review, pending_approval, approved,
  disbursed, active, defaulted, rejected, rejected_guarantor_decline, fully_paid, written_off,
}
use beba_sacco_backend.LoanStatus.{
  loan_transitions, name_of, can_transition_to, can_transition, Request, mapped, by_id,
  check_target, can_activate,
}

-- A sequence of transitions.
pub data Life : LoanStatus → LoanStatus → Type 0 where
  here : {s : LoanStatus} → Life s s
  step : {s t u : LoanStatus} → can_transition s t ≡ true → Life t u → Life s u

-- The status stands somewhere in the life.
abbrev pub Visits : (v : LoanStatus) {s t : LoanStatus} → Life s t → Type 0
Visits v {s} here = s ≡ v
Visits v {s} (step _ rest) = (s ≡ v) ⊎ Visits v rest

abbrev pub is_terminal : LoanStatus → Bool
is_terminal rejected = true
is_terminal rejected_guarantor_decline = true
is_terminal fully_paid = true
is_terminal written_off = true
is_terminal _ = false

into_written_off : (s : LoanStatus) → can_transition s written_off ≡ true → s ≡ defaulted
unfolding can_transition can_transition_to loan_transitions name_of same some_row
into_written_off draft h = cc
into_written_off pending_guarantors h = cc
into_written_off pending_review h = cc
into_written_off pending_approval h = cc
into_written_off approved h = cc
into_written_off disbursed h = cc
into_written_off active h = cc
into_written_off defaulted h = refl
into_written_off rejected h = cc
into_written_off rejected_guarantor_decline h = cc
into_written_off fully_paid h = cc
into_written_off written_off h = cc

into_fully_paid : (s : LoanStatus) → can_transition s fully_paid ≡ true → s ≡ active
unfolding can_transition can_transition_to loan_transitions name_of same some_row
into_fully_paid draft h = cc
into_fully_paid pending_guarantors h = cc
into_fully_paid pending_review h = cc
into_fully_paid pending_approval h = cc
into_fully_paid approved h = cc
into_fully_paid disbursed h = cc
into_fully_paid active h = refl
into_fully_paid defaulted h = cc
into_fully_paid rejected h = cc
into_fully_paid rejected_guarantor_decline h = cc
into_fully_paid fully_paid h = cc
into_fully_paid written_off h = cc

-- A last status that one status alone leads to: a life that ends there has been in that status.
Visits-before :
    (last before : LoanStatus)
    → ((s : LoanStatus) → can_transition s last ≡ true → s ≡ before)
    → {s t : LoanStatus} (life : Life s t) → t ≡ last
    → (s ≡ last) ⊎ Visits before life
Visits-before last before only here e = inl e
Visits-before last before only (step {s} {t} h rest) e =
    inr (elim (Visits-before last before only rest e) [
      | inl at_end ↦ inl (only s (rw at_end at h))
      | inr later ↦ inr later
    ])

-- In the table of transitions: a path that ends in written off goes through default and one that
-- ends in fully paid goes through active, unless it starts in that last status. Code that writes a
-- status without asking the table is not bound by it.
pub Life-milestones :
    {s : LoanStatus}
    → ((life : Life s written_off) → (s ≡ written_off) ⊎ Visits defaulted life)
      × ((life : Life s fully_paid) → (s ≡ fully_paid) ⊎ Visits active life)
Life-milestones {s} = (
  λ life. Visits-before written_off defaulted into_written_off life refl,
  λ life. Visits-before fully_paid active into_fully_paid life refl,
)

no_way_out : (s t : LoanStatus) → is_terminal s ≡ true → can_transition s t ≡ false
unfolding can_transition can_transition_to loan_transitions name_of same some_row
no_way_out draft t h = cc
no_way_out pending_guarantors t h = cc
no_way_out pending_review t h = cc
no_way_out pending_approval t h = cc
no_way_out approved t h = cc
no_way_out disbursed t h = cc
no_way_out active t h = cc
no_way_out defaulted t h = cc
no_way_out rejected t h = refl
no_way_out rejected_guarantor_decline t h = refl
no_way_out fully_paid t h = refl
no_way_out written_off t h = refl

stays : {s t : LoanStatus} → is_terminal s ≡ true → Life s t → t ≡ s
stays h here = refl
stays {s} h (step {t = m} e rest) = absurd (ground (arith, no_way_out s m h))

-- A status is final when no transition of the table leaves it: a life that starts in one of the four final
-- statuses stays there, and from every status some life leads to one of them.
pub Life-ends :
    (s : LoanStatus)
    → ((t : LoanStatus) → is_terminal s ≡ true → Life s t → t ≡ s)
      × ((t : LoanStatus) × Life s t × (is_terminal t ≡ true))
unfolding can_transition can_transition_to loan_transitions name_of same some_row
Life-ends s = (λ t h life. stays h life, ends s)
  where
    ends : (s : LoanStatus) → (t : LoanStatus) × Life s t × (is_terminal t ≡ true)
    ends draft = (rejected, step refl here, refl)
    ends pending_guarantors = (rejected, step refl here, refl)
    ends pending_review = (rejected, step refl here, refl)
    ends pending_approval = (rejected, step refl here, refl)
    ends approved = (fully_paid, step {t = active} refl (step refl here), refl)
    ends disbursed = (fully_paid, step {t = active} refl (step refl here), refl)
    ends active = (fully_paid, step refl here, refl)
    ends defaulted = (written_off, step refl here, refl)
    ends rejected = (rejected, here, refl)
    ends rejected_guarantor_decline = (rejected_guarantor_decline, here, refl)
    ends fully_paid = (fully_paid, here, refl)
    ends written_off = (written_off, here, refl)

check_target-allowed :
    (id tenant target : Key) (db db' : Db) (answer : Bool)
    → check_target id tenant target db ≡ ok (answer, db')
    → (db' ≡ db)
      × ((l : Loan) × (find_first (by_id id tenant) db.loans ≡ some l)
          × (can_transition_to l.status target ≡ true))
unfolding check_target
check_target-allowed id tenant target db db' answer h =
    elim (Option-cases (find_first (by_id id tenant) db.loans)) [
      | inl e ↦ absurd (ground arith)
      | inr (l, e) ↦ elim (Bool-cases (can_transition_to l.status target)) [
        | inl passes ↦ (ground arith, (l, e, passes))
        | inr blocked ↦ absurd (ground arith)
      ]
    ]

-- When the guard lets a request that names a status through, the store is as it was, and the loan of
-- the request's tenant stands in a status from which the table allows the one asked for.
pub can_activate-allowed :
    (q : Request) (raw : Key) (db db' : Db) (answer : Bool)
    → truthy q.target ≡ some raw
    → can_activate q db ≡ ok (answer, db')
    → (db' ≡ db)
      × ((id tenant : Key) × (l : Loan) × (truthy q.loan ≡ some id)
          × (truthy q.tenant ≡ some tenant)
          × (find_first (by_id id tenant) db.loans ≡ some l)
          × (can_transition_to l.status (mapped q.target_map raw) ≡ true))
unfolding can_activate check_target
can_activate-allowed q raw db db' answer named h = elim (Option-cases (truthy q.loan)) [
  | inl none_given ↦ absurd (ground arith)
  | inr (id, e1) ↦ elim (Option-cases (truthy q.tenant)) [
    | inl none_given ↦ absurd (ground arith)
    | inr (tenant, e2) ↦
        let (same_db, (l, found, allowed)) =
          check_target-allowed id tenant (mapped q.target_map raw) db db' answer
            (rw (e1, e2, named) at h) in
        (same_db, (id, tenant, l, e1, e2, found, allowed))
  ]
]
