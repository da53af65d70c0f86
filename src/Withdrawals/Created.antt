-- ===== src/Withdrawals/Created.antt =====
-- The row that a payout creates (`executeMwaloniMobilePayout` in
-- src/modules/mpesa/mpesa.service.ts).
use beba_sacco_backend.Base.{
  Key, same, same_refl, same_sym, same→≡, Bool, true, false, Option, none, some, List, [], ◌∷◌,
  ◌++◌, All, Unique, ◌≡◌, refl, sym, ◌∙◌, subst, ap, arith, find_first, some_row, Bool-cases, inl,
  inr, ◌⊎◌,
}
use beba_sacco_backend.Base.Tables.Laws.{find_first-All, All-append}
use beba_sacco_backend.Base.Tables.Selections.{All-weaken}
use beba_sacco_backend.Store.{MpesaTransaction}
use beba_sacco_backend.Withdrawals.{is_withdrawal_id}
use beba_sacco_backend.Withdrawals.Settled.{closed_now}
use beba_sacco_backend.Withdrawals.Interrupted.{withdrawal_key}
use beba_sacco_backend.Withdrawals.Payout.{Payout, is_local}
use beba_sacco_backend.Withdrawals.Disburse.{reference_of, is_reference, clashes, new_payout}
use beba_sacco_backend.Withdrawals.SentOnce.{sends_of, IsBuilt, IsUsed, IsOrderly}

-- The row that a test finds is the one with its id.
pub found_by_id :
    (p : MpesaTransaction → Bool) (rows : List MpesaTransaction) (m : MpesaTransaction)
    → Unique withdrawal_key rows
    → find_first p rows ≡ some m
    → find_first (is_withdrawal_id m.id) rows ≡ some m
unfolding find_first
found_by_id p [] m u found = absurd (ground arith)
found_by_id p (x ∷ rows) m u found = elim (Bool-cases (p x)) [
  | inl e ↦ let is_m : x ≡ m = ground arith in rw (is_m, same_refl m.id) refl
  | inr e ↦
      let later : find_first p rows ≡ some m = ground arith in
      let apart : same m.id x.id ≡ false =
        find_first-All (λ y. same y.id x.id ≡ false) p rows u.0 later in
      rw (same_sym x.id m.id, apart) (found_by_id p rows m u.1 later)
]

pub all_false :
    (p : MpesaTransaction → Bool) (rows : List MpesaTransaction)
    → some_row p rows ≡ false
    → All (λ a. p a ≡ false) rows
unfolding some_row
all_false p [] h = tt
all_false p (x ∷ rows) h = (ground arith, all_false p rows (ground arith))

Unique-append :
    (rows : List MpesaTransaction) (y : MpesaTransaction)
    → All (λ a. same a.id y.id ≡ false) rows
    → Unique withdrawal_key rows
    → Unique withdrawal_key (rows ++ y ∷ [])
Unique-append [] y h u = (tt, tt)
Unique-append (x ∷ rows) y h u = (
  All-append (λ a. same a.id x.id ≡ false) rows y u.0 (same_sym y.id x.id ∙ h.0),
  Unique-append rows y h.1 u.1,
)

pub none_found :
    (p : MpesaTransaction → Bool) (rows : List MpesaTransaction)
    → All (λ a. p a ≡ false) rows
    → find_first p rows ≡ none
unfolding find_first
none_found p [] h = refl
none_found p (x ∷ rows) h = rw h.0 (none_found p rows h.1)

none_some :
    (p : MpesaTransaction → Bool) (rows : List MpesaTransaction)
    → All (λ a. p a ≡ false) rows
    → some_row p rows ≡ false
unfolding some_row
none_some p [] h = refl
none_some p (x ∷ rows) h = rw h.0 (none_some p rows h.1)

some_row-more :
    (p : MpesaTransaction → Bool) (rows : List MpesaTransaction) (y : MpesaTransaction)
    → some_row p rows ≡ true
    → some_row p (rows ++ y ∷ []) ≡ true
unfolding some_row
some_row-more p [] y h = absurd (ground arith)
some_row-more p (x ∷ rows) y h = ground (arith, some_row-more p rows y)

reference_eq : (a b : Key) → some a ≡ some b → reference_of a ≡ reference_of b
reference_eq a b h = let is_b : a ≡ b = ground arith in ap reference_of is_b

module _ (o : Key) where
  append-state :
      (rows : List MpesaTransaction) (sent : List Key) (y : MpesaTransaction)
      → same y.reference (reference_of o) ≡ false
      → (sends_of o sent ≡ 0) ⊎ ((sends_of o sent ≡ 1) × IsUsed o rows)
      → (sends_of o sent ≡ 0) ⊎ ((sends_of o sent ≡ 1) × IsUsed o (rows ++ y ∷ []))
  append-state rows sent y other (inl fresh) = inl fresh
  append-state rows sent y other (inr (once, (there, spent))) = inr (
    once,
    (
      some_row-more (is_reference (reference_of o)) rows y there,
      All-append (λ m. same m.reference (reference_of o) ≡ true → is_local m ≡ false) rows y spent
          (λ e. absurd (closed_now (sym other ∙ e))),
    ),
  )

  pub created-IsOrderly :
      (p : Payout) (source : Option Key) (order : Key) (rows : List MpesaTransaction)
      (sent : List Key)
      → some_row (clashes p.row source order) rows ≡ false
      → IsOrderly o rows sent
      → IsOrderly o (rows ++ new_payout p source order ∷ []) sent
  created-IsOrderly p source order rows sent free (unique, built, (i, owned), state) =
      let y = new_payout p source order in
      let apart = all_false (clashes p.row source order) rows free in
      let unique1 =
        Unique-append rows y
          (All-weaken (λ a. clashes p.row source order a ≡ false) (λ a. same a.id p.row ≡ false)
            (λ a e. ground arith) rows apart)
          unique in
      let built1 = All-append IsBuilt rows y built (λ local c conv. reference_eq order c conv) in
      elim (Bool-cases (same (reference_of order) (reference_of o))) [
        | inl e ↦
            let others : All (λ a. same a.reference (reference_of o) ≡ false) rows =
              All-weaken (λ a. clashes p.row source order a ≡ false)
                (λ a. same a.reference (reference_of o) ≡ false)
                (λ a k.
                  subst (λ r. same a.reference r ≡ false)
                    (same→≡ (reference_of order) (reference_of o) e) (ground arith))
                rows apart in
            (
              unique1,
              built1,
              (
                p.row,
                All-append (λ m. same m.reference (reference_of o) ≡ true → same m.id p.row ≡ true)
                    rows y
                    (All-weaken (λ a. same a.reference (reference_of o) ≡ false)
                      (λ m. same m.reference (reference_of o) ≡ true → same m.id p.row ≡ true)
                      (λ a k c. absurd (closed_now (sym k ∙ c))) rows others)
                    (λ c. same_refl p.row),
              ),
              fresh_state rows sent (rows ++ y ∷ []) others state,
            )
        | inr e ↦ (
          unique1,
          built1,
          (
            i,
            All-append (λ m. same m.reference (reference_of o) ≡ true → same m.id i ≡ true) rows y
                owned (λ c. absurd (closed_now (sym e ∙ c))),
          ),
          append-state rows sent y e state,
        )
      ]
    where
      fresh_state :
          (rows : List MpesaTransaction) (sent : List Key) (more : List MpesaTransaction)
          → All (λ a. same a.reference (reference_of o) ≡ false) rows
          → (sends_of o sent ≡ 0) ⊎ ((sends_of o sent ≡ 1) × IsUsed o rows)
          → (sends_of o sent ≡ 0) ⊎ ((sends_of o sent ≡ 1) × IsUsed o more)
      fresh_state rows sent more others (inl fresh) = inl fresh
      fresh_state rows sent more others (inr (once, (there, spent))) =
          absurd (closed_now (sym (none_some (is_reference (reference_of o)) rows others) ∙ there))
