-- ===== src/Arrears/Daily.antt =====
-- An installment is charged once a day (src/modules/financial/financial.service.ts).
use beba_sacco_backend.Base.{
  ◌+◌, ◌*◌, ℕ, ltb, subst, not, if◌then◌else◌, ℤ, Bool, true, false, ◌&&◌, Bool-cases, same,
  same_refl, List, [], ◌∷◌, ◌>>=◌, gets, modify, ok, inl, inr, All, rows_where, some_row,
  count_where, update_many, ◌≡◌, refl, sym, ◌∙◌, arith, Rounding, ◌==◌,
}
use beba_sacco_backend.Base.Results.Inversion.{>>=-ok}
use beba_sacco_backend.Base.Results.Keeps.{
  Leads, >>=-Leads, ok_state, pure-Keeps, gets-Keeps, modify-Leads,
}
use beba_sacco_backend.Base.Tables.Selections.{All-rows_where}
use beba_sacco_backend.Store.{Db, Installment}
use beba_sacco_backend.Arrears.Postings.{write_unless_lost-Keeps}
use beba_sacco_backend.Arrears.{
  ms_per_day, penalty_grace_days, is_paid, AccrualCall, is_eligible, penalty_where, add_penalty,
  write_unless_lost, charge, penalty_of, is_due, charge_if, charge_all, accrue_penalties, not_since,
}

true_is_not : true ≡ false → ⊥
true_is_not e = cc

last_false : (a b d e f g : Bool) → f ≡ false → ((a && (b && (d && (e && f)))) && g) ≡ false
last_false false b d e f g h = refl
last_false true false d e f g h = refl
last_false true true false e f g h = refl
last_false true true true false f g h = refl
last_false true true true true f g h = rw h refl

first_and_last :
    (a b d e f g : Bool) → ((a && (b && (d && (e && f)))) && g) ≡ true → (a ≡ true) × (f ≡ true)
first_and_last true true true true true g h = (refl, refl)
first_and_last true true true true false g h = absurd (true_is_not (sym h))
first_and_last true true true false f g h = absurd (true_is_not (sym h))
first_and_last true true false e f g h = absurd (true_is_not (sym h))
first_and_last true false d e f g h = absurd (true_is_not (sym h))
first_and_last false b d e f g h = absurd (true_is_not (sym h))

not_before : (n : ℕ) → ltb n n ≡ false
not_before n = ground arith

module _ (r : Rounding) (c : AccrualCall) where
  -- The row still waits for its penalty of the day.
  abbrev pub waits_for_penalty : Installment → Bool
  waits_for_penalty i = is_eligible c i && is_due r i

  abbrev listed : List Installment → Installment → Bool
  listed xs i = some_row (λ (x : Installment). same i.id x.id && is_due r x) xs

  -- Each waiting row is one of the list.
  abbrev Covered : List Installment → Db → Type 0
  Covered xs db = All (λ i. waits_for_penalty i ≡ true → listed xs i ≡ true) db.installments

  skipped :
      (xs : List Installment) (db : Db)
      → All (λ x. is_due r x ≡ false) xs
      → charge_all r c xs db ≡ ok (tt, db)
  unfolding charge_all charge_if
  skipped [] db h = refl
  skipped (x ∷ xs) db h = rw h.0 (skipped xs db h.1)

  charged_not : (amount : ℤ) (i : Installment) → waits_for_penalty (add_penalty c amount i) ≡ false
  charged_not amount i =
      last_false (same i.tenant c.tenant) (same i.loan c.loan)
        (not (is_paid (add_penalty c amount i).status))
        (ltb ((add_penalty c amount i).due_date + penalty_grace_days * ms_per_day) c.date)
        (ltb c.date c.date) (is_due r (add_penalty c amount i)) (not_before c.date)

  elsewhere :
      (x : Installment) (xs : List Installment) (i : Installment)
      → penalty_where c x.id i ≡ false
      → waits_for_penalty i ≡ true
      → listed (x ∷ xs) i ≡ true
      → listed xs i ≡ true
  unfolding some_row
  elsewhere x xs i other waiting on_list = elim (Bool-cases (same i.id x.id)) [
    | inl e ↦
        let (tenant, late) =
          first_and_last (same i.tenant c.tenant) (same i.loan c.loan) _ _
            (not_since c.date i.last_penalty_accrual) (is_due r i) waiting in
        absurd (ground arith)
    | inr e ↦ ground arith
  ]

  charged_row :
      (x : Installment) (xs : List Installment) (i : Installment)
      → (waits_for_penalty i ≡ true → listed (x ∷ xs) i ≡ true)
      → waits_for_penalty (if penalty_where c x.id i then add_penalty c (penalty_of r x) i else i)
        ≡ true
      → listed xs (if penalty_where c x.id i then add_penalty c (penalty_of r x) i else i) ≡ true
  unfolding some_row
  charged_row x xs i covered waits = elim (Bool-cases (penalty_where c x.id i)) [
    | inl charged ↦ absurd (
        true_is_not (
          sym (
            subst
              (λ b. waits_for_penalty (if b then add_penalty c (penalty_of r x) i else i) ≡ true)
              charged waits)
          ∙ charged_not (penalty_of r x) i))
    | inr other ↦
        let waiting : waits_for_penalty i ≡ true =
          subst (λ b. waits_for_penalty (if b then add_penalty c (penalty_of r x) i else i) ≡ true)
            other waits in
        subst (λ b. listed xs (if b then add_penalty c (penalty_of r x) i else i) ≡ true)
          (sym other) (elsewhere x xs i other waiting (covered waiting))
  ]

  Covered-charged :
      (x : Installment) (xs is : List Installment)
      → All (λ i. waits_for_penalty i ≡ true → listed (x ∷ xs) i ≡ true) is
      → All
          (λ i. waits_for_penalty i ≡ true → listed xs i ≡ true)
          (update_many (penalty_where c x.id) (add_penalty c (penalty_of r x)) is)
  unfolding update_many
  Covered-charged x xs [] h = tt
  Covered-charged x xs (i ∷ is) h = (charged_row x xs i h.0, Covered-charged x xs is h.1)

  Covered-passed :
      (x : Installment) (xs is : List Installment)
      → is_due r x ≡ false
      → All (λ i. waits_for_penalty i ≡ true → listed (x ∷ xs) i ≡ true) is
      → All (λ i. waits_for_penalty i ≡ true → listed xs i ≡ true) is
  unfolding some_row
  Covered-passed x xs [] none_due h = tt
  Covered-passed x xs (i ∷ is) none_due h =
      (λ waits. let on_list = h.0 waits in ground arith, Covered-passed x xs is none_due h.1)

  charge-Leads :
      (x : Installment) (xs : List Installment)
      → Leads (Covered (x ∷ xs)) (Covered xs) (charge c x (penalty_of r x))
  unfolding charge
  charge-Leads x xs =
      let count : Db → ℕ = λ db. count_where (penalty_where c x.id) db.installments in
      let update : Db → Db = λ db. record db {
        installments =
            update_many (penalty_where c x.id) (add_penalty c (penalty_of r x)) db.installments;
      } in
      >>=-Leads (Covered (x ∷ xs)) (Covered (x ∷ xs)) (Covered xs) (gets count)
        (λ updated. modify update >>= λ _. write_unless_lost c x (penalty_of r x) (updated == 0))
        (gets-Keeps (Covered (x ∷ xs)) count)
        (λ updated.
          >>=-Leads (Covered (x ∷ xs)) (Covered xs) (Covered xs) (modify update)
            (λ _. write_unless_lost c x (penalty_of r x) (updated == 0))
            (modify-Leads (Covered (x ∷ xs)) (Covered xs) update
              (λ db h. Covered-charged x xs db.installments h))
            (λ _.
              write_unless_lost-Keeps c (Covered xs) (λ db rows h. h) (λ db rows h. h) x
                (penalty_of r x) (updated == 0)))

  charge_if-Leads :
      (x : Installment) (xs : List Installment) (b : Bool)
      → is_due r x ≡ b
      → Leads (Covered (x ∷ xs)) (Covered xs) (charge_if r c x b)
  unfolding charge_if
  charge_if-Leads x xs true e = charge-Leads x xs
  charge_if-Leads x xs false e = λ s s' a h done.
      rw (ok_state (Covered xs) tt a s s' done) (Covered-passed x xs s.installments e h)

  charge_all-Leads : (xs : List Installment) → Leads (Covered xs) (Covered []) (charge_all r c xs)
  unfolding charge_all
  charge_all-Leads [] = pure-Keeps (Covered []) tt
  charge_all-Leads (x ∷ xs) =
      >>=-Leads (Covered (x ∷ xs)) (Covered xs) (Covered []) (charge_if r c x (is_due r x))
        (λ _. charge_all r c xs) (charge_if-Leads x xs (is_due r x) refl) (λ _. charge_all-Leads xs)

  Covered-more :
      (x : Installment) (xs is : List Installment)
      → All (λ i. waits_for_penalty i ≡ true → listed xs i ≡ true) is
      → All (λ i. waits_for_penalty i ≡ true → listed (x ∷ xs) i ≡ true) is
  unfolding some_row
  Covered-more x xs [] h = tt
  Covered-more x xs (i ∷ is) h =
      (λ waits. let on_list = h.0 waits in ground arith, Covered-more x xs is h.1)

  waits-selected :
      (x : Installment) (xs : List Installment)
      → waits_for_penalty x ≡ true
      → listed (rows_where (is_eligible c) (x ∷ xs)) x ≡ true
  unfolding some_row rows_where
  waits-selected x xs waits = elim (Bool-cases (is_eligible c x)) [
    | inl e ↦ rw (e, same_refl x.id) (ground arith)
    | inr e ↦ absurd (ground arith)
  ]

  Covered-selected :
      (is : List Installment)
      → All (λ i. waits_for_penalty i ≡ true → listed (rows_where (is_eligible c) is) i ≡ true) is
  unfolding rows_where
  Covered-selected [] = tt
  Covered-selected (x ∷ is) = (
    waits-selected x is,
    elim (Bool-cases (is_eligible c x)) [
      | inl e ↦
          let stays : rows_where (is_eligible c) (x ∷ is) ≡ x ∷ rows_where (is_eligible c) is =
            rw e refl in
          subst (λ l. All (λ i. waits_for_penalty i ≡ true → listed l i ≡ true) is) (sym stays)
            (Covered-more x (rows_where (is_eligible c) is) is (Covered-selected is))
      | inr e ↦
          let goes : rows_where (is_eligible c) (x ∷ is) ≡ rows_where (is_eligible c) is =
            rw e refl in
          subst (λ l. All (λ i. waits_for_penalty i ≡ true → listed l i ≡ true) is) (sym goes)
            (Covered-selected is)
    ],
  )

  none_due :
      (is : List Installment)
      → All (λ i. waits_for_penalty i ≡ true → listed [] i ≡ true) is
      → All (λ i. is_eligible c i ≡ true → is_due r i ≡ false) is
  unfolding some_row
  none_due [] h = tt
  none_due (i ∷ is) h = (
    (λ e. elim (Bool-cases (is_due r i)) [
      | inl due ↦ absurd (true_is_not (sym (h.0 (rw (e, due) refl))))
      | inr due ↦ due
    ]),
    none_due is h.1,
  )

  -- Once a run of a loan's penalties for a date has returned, running it again for that date
  -- returns with the same rows, whatever else it would write: each installment of the loan is
  -- charged at most once for the date.
  pub accrue_penalties-again :
      (db db' : Db)
      → accrue_penalties r c db ≡ ok (tt, db')
      → accrue_penalties r c db' ≡ ok (tt, db')
  unfolding accrue_penalties
  accrue_penalties-again db db' first =
      let selected : Db → List Installment =
        λ (db : Db). rows_where (is_eligible c) db.installments in
      let (xs, s, e1, e2) = >>=-ok (gets selected) (charge_all r c) first in
      let same_state : s ≡ db = ok_state (Covered []) (selected db) xs db s e1 in
      let same_rows : xs ≡ selected db = ground arith in
      let covered : Covered [] db' =
        charge_all-Leads (selected db) db db' tt (Covered-selected db.installments) (
          subst (λ l. charge_all r c l db ≡ ok (tt, db')) same_rows
            (subst (λ t. charge_all r c xs t ≡ ok (tt, db')) same_state e2)) in
      skipped (selected db') db' (
        All-rows_where (is_eligible c) (λ i. is_due r i ≡ false) db'.installments
          (none_due db'.installments covered))
