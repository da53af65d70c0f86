-- ===== src/Arrears/Returns.antt =====
-- A run of a loan's penalties returns (src/modules/financial/financial.service.ts).
use beba_sacco_backend.Base.Results.Runs.{Runs, >>=-Runs, pure-Runs, gets-Runs, modify-Runs}
use beba_sacco_backend.Base.{
  refl, ◌==◌, ok, join, amount_not_positive, ℤ, pos, leb_ℤ, Bool, true, false, Option, none, some,
  List, [], ◌∷◌, ◌++◌, ◌>>=◌, pure, gets, modify, throw_if, find_first, ◌≡◌, arith,
}
use beba_sacco_backend.Store.{
  Account, User, GlAccount, JournalType, Db, Installment, JournalEntry, Transaction,
}
use beba_sacco_backend.Ledger.Gl.{
  penalty_income_code, loan_receivable_code, penalty, find_gl_account_pair, leg_journal_entry,
  has_entry_number, post_penalty_receivable, post_gl_only_leg_entry, create_leg_entry, LegEntry,
  unless_found, resolve_system_actor, is_system_user,
}
use beba_sacco_backend.Arrears.{
  lacks_rows, Key, add_penalty, update_many, is_eligible, penalty_where, rows_where, count_where,
  penalty_of, is_due, ℕ, charge, accrue_penalties, charge_all, charge_if, Rounding,
  has_reference_in, penalty_reference, AccrualCall, write_penalty, write_unless_lost,
}
use beba_sacco_backend.Arrears.Postings.{
  account_found, with_penalty_row, write_row, write_checked, post_by, post_for, write_found,
}

module _ (r : Rounding) (c : AccrualCall) where
  -- The loans' receivable and the penalty income have active GL accounts, and the tenant has a
  -- SYSTEM user; the account and the loan of the run are there.
  abbrev HasPenaltyAccounts : Db → Type 0
  HasPenaltyAccounts db =
      ((pair : GlAccount × GlAccount) × (find_gl_account_pair c.tenant loan_receivable_code
            penalty_income_code db.gl_accounts
          ≡ some pair))
      × ((user : User) × (find_first (is_system_user c.tenant) db.users ≡ some user))
      × (lacks_rows c db ≡ false)

  abbrev entry_of : Installment → ℤ → Key → LegEntry
  entry_of i amount actor = record {
    tenant = c.tenant;
    reference = penalty_reference c i;
    leg = penalty;
    amount = amount;
    debit_code = loan_receivable_code;
    transaction = c.transaction_id i.id;
    actor = actor;
    kind = JournalType.loan_repayment;
  }

  create_entry-Runs :
      (i : Installment) (amount : ℤ) (actor : Key)
      → Runs HasPenaltyAccounts (create_leg_entry (c.entry_id i.id) (entry_of i amount actor))
  unfolding create_leg_entry
  create_entry-Runs i amount actor s (((d, k), found), user, there) =
      let entry = leg_journal_entry (c.entry_id i.id) (entry_of i amount actor) d k in
      (
        (entry, false),
        record s { entries = s.entries ++ entry ∷ [] },
        rw found refl,
        (((d, k), found), user, there),
      )

  unless_found-Runs :
      (i : Installment) (amount : ℤ) (actor : Key) (found : Option JournalEntry)
      → Runs HasPenaltyAccounts
          (unless_found found (create_leg_entry (c.entry_id i.id) (entry_of i amount actor)))
  unless_found-Runs i amount actor none = create_entry-Runs i amount actor
  unless_found-Runs i amount actor (some e) = pure-Runs HasPenaltyAccounts (e, true)

  post_entry_of-Runs :
      (i : Installment) (amount : ℤ) (actor : Key)
      → leb_ℤ amount (pos 0) ≡ false
      → Runs HasPenaltyAccounts (post_gl_only_leg_entry (c.entry_id i.id) (entry_of i amount actor))
  unfolding post_gl_only_leg_entry
  post_entry_of-Runs i amount actor positive =
      let number = join "JE-LEDGER-" (penalty_reference c i) in
      let existing : Db → Option JournalEntry =
        λ db. find_first (has_entry_number c.tenant number) db.entries in
      let create = create_leg_entry (c.entry_id i.id) (entry_of i amount actor) in
      >>=-Runs HasPenaltyAccounts (throw_if (leb_ℤ amount (pos 0)) amount_not_positive)
        (λ _. gets existing >>= λ found. unless_found found create)
        (λ s h. (tt, s, rw positive refl, h))
        (λ _.
          >>=-Runs HasPenaltyAccounts (gets existing) (λ found. unless_found found create)
            (gets-Runs HasPenaltyAccounts existing) (unless_found-Runs i amount actor))

  resolve-Runs : Runs HasPenaltyAccounts (resolve_system_actor c.tenant)
  unfolding resolve_system_actor
  resolve-Runs s (pair, (user, found), there) =
      (user.id, s, rw found refl, (pair, (user, found), there))

  post_for-Runs :
      (i : Installment) (amount : ℤ) (actor : Key)
      → leb_ℤ amount (pos 0) ≡ false
      → Runs HasPenaltyAccounts (post_for c i amount actor)
  unfolding post_penalty_receivable
  post_for-Runs i amount actor positive = post_entry_of-Runs i amount actor positive

  write_row-Runs :
      (i : Installment) (amount : ℤ) (found : Option Account)
      → leb_ℤ amount (pos 0) ≡ false
      → Runs HasPenaltyAccounts (write_row c i amount found)
  write_row-Runs i amount found positive =
      >>=-Runs HasPenaltyAccounts (modify (with_penalty_row c i amount found))
        (λ _. resolve_system_actor c.tenant >>= post_by c i amount)
        (modify-Runs HasPenaltyAccounts (with_penalty_row c i amount found) (λ db h. h))
        (λ _.
          >>=-Runs HasPenaltyAccounts (resolve_system_actor c.tenant) (post_by c i amount)
            resolve-Runs
            (λ actor.
              >>=-Runs HasPenaltyAccounts (post_for c i amount actor) (λ posted. pure tt)
                (post_for-Runs i amount actor positive) (λ _. pure-Runs HasPenaltyAccounts tt)))

  checked-Runs :
      (i : Installment) (amount : ℤ) (found : Option Account)
      → leb_ℤ amount (pos 0) ≡ false
      → Runs HasPenaltyAccounts (gets (lacks_rows c) >>= write_checked c i amount found)
  checked-Runs i amount found positive s (pair, user, there) =
      let (a, t, e, k) = write_row-Runs i amount found positive s (pair, user, there) in
      (a, t, rw there e, k)

  write_penalty-Runs :
      (i : Installment) (amount : ℤ) (found : Option Transaction)
      → leb_ℤ amount (pos 0) ≡ false
      → Runs HasPenaltyAccounts (write_penalty c i amount found)
  unfolding write_penalty
  write_penalty-Runs i amount (some earlier) positive = pure-Runs HasPenaltyAccounts tt
  write_penalty-Runs i amount none positive =
      >>=-Runs HasPenaltyAccounts (gets (account_found c)) (write_found c i amount)
        (gets-Runs HasPenaltyAccounts (account_found c))
        (λ found. checked-Runs i amount found positive)

  write_unless_lost-Runs :
      (i : Installment) (amount : ℤ) (b : Bool)
      → leb_ℤ amount (pos 0) ≡ false
      → Runs HasPenaltyAccounts (write_unless_lost c i amount b)
  unfolding write_unless_lost
  write_unless_lost-Runs i amount true positive = pure-Runs HasPenaltyAccounts tt
  write_unless_lost-Runs i amount false positive =
      let existing : Db → Option Transaction =
        λ db. find_first (has_reference_in c.tenant (penalty_reference c i)) db.transactions in
      >>=-Runs HasPenaltyAccounts (gets existing) (write_penalty c i amount)
        (gets-Runs HasPenaltyAccounts existing)
        (λ found. write_penalty-Runs i amount found positive)

  charge-Runs :
      (x : Installment) (amount : ℤ)
      → leb_ℤ amount (pos 0) ≡ false
      → Runs HasPenaltyAccounts (charge c x amount)
  unfolding charge
  charge-Runs x amount positive =
      let count : Db → ℕ = λ db. count_where (penalty_where c x.id) db.installments in
      let update : Db → Db = λ db. record db {
        installments = update_many (penalty_where c x.id) (add_penalty c amount) db.installments;
      } in
      >>=-Runs HasPenaltyAccounts (gets count)
        (λ updated. modify update >>= λ _. write_unless_lost c x amount (updated == 0))
        (gets-Runs HasPenaltyAccounts count)
        (λ updated.
          >>=-Runs HasPenaltyAccounts (modify update)
            (λ _. write_unless_lost c x amount (updated == 0))
            (modify-Runs HasPenaltyAccounts update (λ db h. h))
            (λ _. write_unless_lost-Runs x amount (updated == 0) positive))

  charge_if-Runs :
      (x : Installment) (b : Bool) → is_due r x ≡ b → Runs HasPenaltyAccounts (charge_if r c x b)
  unfolding charge_if is_due
  charge_if-Runs x true due = charge-Runs x (penalty_of r x) (ground arith)
  charge_if-Runs x false due = pure-Runs HasPenaltyAccounts tt

  charge_all-Runs : (xs : List Installment) → Runs HasPenaltyAccounts (charge_all r c xs)
  unfolding charge_all
  charge_all-Runs [] = pure-Runs HasPenaltyAccounts tt
  charge_all-Runs (x ∷ xs) =
      >>=-Runs HasPenaltyAccounts (charge_if r c x (is_due r x)) (λ _. charge_all r c xs)
        (charge_if-Runs x (is_due r x) refl) (λ _. charge_all-Runs xs)

  -- When the tenant has active GL accounts for the loans' receivable and for the penalty income and
  -- a SYSTEM user, and the account and the loan that the run is called with are there, the run of
  -- the loan's penalties ends without an error, whatever the other rows are: no penalty that the
  -- ledger would refuse reaches it.
  pub accrue_penalties-returns :
      (db : Db) (pair : GlAccount × GlAccount) (user : User)
      → find_gl_account_pair c.tenant loan_receivable_code penalty_income_code db.gl_accounts
        ≡ some pair
      → find_first (is_system_user c.tenant) db.users ≡ some user
      → lacks_rows c db ≡ false
      → (db' : Db) × (accrue_penalties r c db ≡ ok (tt, db'))
  unfolding accrue_penalties
  accrue_penalties-returns db pair user found system there =
      let selected : Db → List Installment =
        λ (db : Db). rows_where (is_eligible c) db.installments in
      let (done, db', e, kept) =
        charge_all-Runs (selected db) db ((pair, found), (user, system), there) in
      (db', e)
