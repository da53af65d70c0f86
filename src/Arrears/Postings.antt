-- ===== src/Arrears/Postings.antt =====
-- What writing an installment's penalty keeps: what neither transactions nor journal entries
-- decide (src/modules/financial/financial.service.ts).
use beba_sacco_backend.Base.{
  Error, join, subst, amount_not_positive, ℤ, pos, leb_ℤ, Bool, true, false, Option-cases, Key,
  same, Option, none, some, List, [], ◌∷◌, ◌++◌, M, ◌>>=◌, pure, gets, modify, throw_if, inl, inr,
  or_throw, not_found, find_first, ◌≡◌, sym, arith,
}
use beba_sacco_backend.Base.Results.Keeps.{
  Keeps, >>=-Keeps, pure-Keeps, gets-Keeps, modify-Keeps, throw_if-Keeps, or_throw-Keeps,
}
use beba_sacco_backend.Store.{User, JournalType, Db, Installment, JournalEntry, Transaction}
use beba_sacco_backend.Ledger.Gl.{
  loan_receivable_code, penalty, find_gl_account_pair, credit_code_of, leg_journal_entry,
  has_entry_number, post_penalty_receivable, post_gl_only_leg_entry, create_leg_entry, LegEntry,
  unless_found, resolve_system_actor, is_system_user,
}
use beba_sacco_backend.Arrears.{
  lacks_rows, balance_or_zero, penalty_row, Account, has_reference_in, penalty_reference,
  AccrualCall, write_penalty, write_unless_lost,
}

module _ (c : AccrualCall) where
  abbrev pub account_found : Db → Option Account
  account_found db = find_first (λ (a : Account). same a.id c.account) db.accounts

  abbrev pub with_penalty_row : Installment → ℤ → Option Account → Db → Db
  with_penalty_row i amount found db = record db {
    transactions = db.transactions ++ penalty_row c i amount (balance_or_zero found) ∷ [];
  }

  abbrev pub post_for : Installment → ℤ → Key → M Db (JournalEntry × Bool)
  post_for i amount actor =
      post_penalty_receivable (c.entry_id i.id) c.tenant (penalty_reference c i) amount
        (c.transaction_id i.id) actor

  abbrev pub post_by : Installment → ℤ → Key → M Db (Unit {0})
  post_by i amount actor = post_for i amount actor >>= λ posted. pure tt

  abbrev pub write_row : Installment → ℤ → Option Account → M Db (Unit {0})
  write_row i amount found = modify (with_penalty_row i amount found) >>= λ _.
      resolve_system_actor c.tenant >>= post_by i amount

  abbrev pub write_checked : Installment → ℤ → Option Account → Bool → M Db (Unit {0})
  write_checked i amount found broken =
      throw_if broken Error.foreign_key >>= λ _. write_row i amount found

  abbrev pub write_found : Installment → ℤ → Option Account → M Db (Unit {0})
  write_found i amount found = gets (lacks_rows c) >>= write_checked i amount found

  module _ (P : Db → Type 0)
      (frame_entries : (db : Db) (rows : List JournalEntry)
        → P db
        → P (record db { entries = rows }))
      (frame_rows : (db : Db) (rows : List Transaction)
        → P db
        → P (record db { transactions = rows })) where
    create_leg_entry-Keeps : (id : Key) (p : LegEntry) → Keeps P (create_leg_entry id p)
    unfolding create_leg_entry
    create_leg_entry-Keeps id p s s' a h e =
        elim (Option-cases
          (find_gl_account_pair p.tenant p.debit_code (credit_code_of p.leg) s.gl_accounts)) [
            | inl missing ↦ absurd (ground arith)
            | inr ((d, k), found) ↦
                let stored : s'
                    ≡ record s { entries = s.entries ++ leg_journal_entry id p d k ∷ [] } =
                  ground arith in
                subst P (sym stored) (frame_entries s _ h)
          ]

    unless_found-Keeps :
        (id : Key) (p : LegEntry) (found : Option JournalEntry)
        → Keeps P (unless_found found (create_leg_entry id p))
    unless_found-Keeps id p none = create_leg_entry-Keeps id p
    unless_found-Keeps id p (some e) = pure-Keeps P (e, true)

    post_gl_only-Keeps : (id : Key) (p : LegEntry) → Keeps P (post_gl_only_leg_entry id p)
    unfolding post_gl_only_leg_entry
    post_gl_only-Keeps id p =
        let number = join "JE-LEDGER-" p.reference in
        let existing : Db → Option JournalEntry =
          λ db. find_first (has_entry_number p.tenant number) db.entries in
        >>=-Keeps P (throw_if (leb_ℤ p.amount (pos 0)) amount_not_positive)
          (λ _. gets existing >>= λ found. unless_found found (create_leg_entry id p))
          (throw_if-Keeps P _ _)
          (λ _.
            >>=-Keeps P (gets existing) (λ found. unless_found found (create_leg_entry id p))
              (gets-Keeps P existing) (unless_found-Keeps id p))

    resolve-Keeps : Keeps P (resolve_system_actor c.tenant)
    unfolding resolve_system_actor
    resolve-Keeps =
        let existing : Db → Option User =
          λ (db : Db). find_first (is_system_user c.tenant) db.users in
        let name : User → M Db Key = λ user. pure user.id in
        >>=-Keeps P (gets existing) (λ found. or_throw found not_found >>= name)
          (gets-Keeps P existing)
          (λ found.
            >>=-Keeps P (or_throw found not_found) name (or_throw-Keeps P found not_found)
              (λ user. pure-Keeps P user.id))

    post_penalty-Keeps :
        (i : Installment) (amount : ℤ) (actor : Key) → Keeps P (post_for i amount actor)
    unfolding post_penalty_receivable
    post_penalty-Keeps i amount actor = post_gl_only-Keeps (c.entry_id i.id) (record {
      tenant = c.tenant;
      reference = penalty_reference c i;
      leg = penalty;
      amount = amount;
      debit_code = loan_receivable_code;
      transaction = c.transaction_id i.id;
      actor = actor;
      kind = JournalType.loan_repayment;
    })

    write_row-Keeps :
        (i : Installment) (amount : ℤ) (found : Option Account) → Keeps P (write_row i amount found)
    write_row-Keeps i amount found =
        >>=-Keeps P (modify (with_penalty_row i amount found))
          (λ _. resolve_system_actor c.tenant >>= post_by i amount)
          (modify-Keeps P (with_penalty_row i amount found) (λ db h. frame_rows db _ h))
          (λ _.
            >>=-Keeps P (resolve_system_actor c.tenant) (post_by i amount) resolve-Keeps (λ actor.
              >>=-Keeps P (post_for i amount actor) (λ posted. pure tt)
                (post_penalty-Keeps i amount actor) (λ _. pure-Keeps P tt)))

    write_penalty-Keeps :
        (i : Installment) (amount : ℤ) (found : Option Transaction)
        → Keeps P (write_penalty c i amount found)
    unfolding write_penalty
    write_penalty-Keeps i amount (some earlier) = pure-Keeps P tt
    write_penalty-Keeps i amount none =
        >>=-Keeps P (gets account_found) (write_found i amount) (gets-Keeps P account_found)
          (λ found.
            >>=-Keeps P (gets (lacks_rows c)) (write_checked i amount found)
              (gets-Keeps P (lacks_rows c))
              (λ broken.
                >>=-Keeps P (throw_if broken Error.foreign_key) (λ _. write_row i amount found)
                  (throw_if-Keeps P broken Error.foreign_key)
                  (λ _. write_row-Keeps i amount found)))

    pub write_unless_lost-Keeps :
        (i : Installment) (amount : ℤ) (b : Bool) → Keeps P (write_unless_lost c i amount b)
    unfolding write_unless_lost
    write_unless_lost-Keeps i amount true = pure-Keeps P tt
    write_unless_lost-Keeps i amount false =
        let existing : Db → Option Transaction =
          λ db. find_first (has_reference_in c.tenant (penalty_reference c i)) db.transactions in
        >>=-Keeps P (gets existing) (write_penalty c i amount) (gets-Keeps P existing)
          (write_penalty-Keeps i amount)
