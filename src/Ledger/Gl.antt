-- ===== src/Ledger/Gl.antt =====
-- The general ledger side of src/modules/accounting/ledger.service.ts: GL codes, the pair of GL
-- accounts that a posting hits, and the postings that touch no member account.
use beba_sacco_backend.Base.{
  not_found, List, ℕ, ℤ, pos, leb_ℤ, Key, same, join, Bool, true, false, ◌&&◌, ◌||◌, ◌==◌, Option,
  none, some, [], ◌∷◌, ◌++◌, Result, ok, err, M, ◌>>=◌, ◌>>◌, pure, gets, modify, or_throw,
  throw_if, no_counterparty, unsupported_journal, gl_not_configured, amount_not_positive,
  find_first, rows_where,
}
use beba_sacco_backend.Store.{
  User, Db, AccountType, fosa, bosa, JournalType, JournalEntry, GlAccount,
}
use beba_sacco_backend.Ledger.Balance.{Direction, debit, credit}

-- `GL_CODES`
abbrev pub cash_code : ℕ
cash_code = 1000

abbrev pub loan_receivable_code : ℕ
loan_receivable_code = 1300

abbrev pub fosa_deposits_code : ℕ
fosa_deposits_code = 2300

abbrev pub bosa_deposits_code : ℕ
bosa_deposits_code = 2400

abbrev pub interest_income_code : ℕ
interest_income_code = 4000

abbrev pub penalty_income_code : ℕ
penalty_income_code = 4200

abbrev pub fee_income_code : ℕ
fee_income_code = 4300

-- `memberDepositsCode`
abbrev pub member_deposits_code : AccountType → ℕ
member_deposits_code fosa = fosa_deposits_code
member_deposits_code bosa = bosa_deposits_code

pub record CodePair : Type 0 where
  pub debit_code : ℕ
  pub credit_code : ℕ

-- `resolveGlCodes`, the branch of a transfer.
unfoldable pub transfer_codes : ℕ → Direction → Option AccountType → Result CodePair
transfer_codes own direction none = err no_counterparty
transfer_codes own credit (some other) =
    ok (record { debit_code = member_deposits_code other; credit_code = own })
transfer_codes own debit (some other) =
    ok (record { debit_code = own; credit_code = member_deposits_code other })

-- `resolveGlCodes`
unfoldable pub resolve_gl_codes :
    AccountType → JournalType → Direction → Option AccountType → Result CodePair
unfolding transfer_codes
resolve_gl_codes t JournalType.transfer direction other =
    transfer_codes (member_deposits_code t) direction other
resolve_gl_codes t JournalType.deposit _ _ =
    ok (record { debit_code = cash_code; credit_code = member_deposits_code t })
resolve_gl_codes t JournalType.mpesa_deposit _ _ =
    ok (record { debit_code = cash_code; credit_code = member_deposits_code t })
resolve_gl_codes t JournalType.withdrawal _ _ =
    ok (record { debit_code = member_deposits_code t; credit_code = cash_code })
resolve_gl_codes t JournalType.loan_disbursement _ _ =
    ok (record { debit_code = loan_receivable_code; credit_code = member_deposits_code t })
resolve_gl_codes t JournalType.fee_charge _ _ =
    ok (record { debit_code = member_deposits_code t; credit_code = fee_income_code })
resolve_gl_codes t _ _ _ = err unsupported_journal

-- The query of `findGlAccountPair`: `{ tenantId, code: { in: [debitCode, creditCode] }, isActive }`.
unfoldable pub gl_where : Key → ℕ → ℕ → GlAccount → Bool
gl_where tenant d c g = same g.tenant tenant && ((g.code == d || g.code == c) && g.is_active)

abbrev pub has_code : ℕ → GlAccount → Bool
has_code c g = g.code == c

abbrev pub both_found : Option GlAccount → Option GlAccount → Option (GlAccount × GlAccount)
both_found (some d) (some c) = some (d, c)
both_found _ _ = none

-- `findGlAccountPair`; `none` is the throw.
unfoldable pub find_gl_account_pair : Key → ℕ → ℕ → List GlAccount → Option (GlAccount × GlAccount)
unfolding gl_where
find_gl_account_pair tenant d c rows =
    let found = rows_where (gl_where tenant d c) rows in
    both_found (find_first (has_code d) found) (find_first (has_code c) found)

pub data Leg : Type 0 where
  penalty interest principal : Leg

abbrev pub credit_code_of : Leg → ℕ
credit_code_of penalty = penalty_income_code
credit_code_of interest = interest_income_code
credit_code_of principal = loan_receivable_code

pub record LegEntry : Type 0 where
  pub tenant : Key
  pub reference : Key
  pub leg : Leg
  pub amount : ℤ
  pub debit_code : ℕ
  pub transaction : Key
  pub actor : Key
  pub kind : JournalType

-- The row that `postGlOnlyLegEntry` creates; the database assigns `id`.
unfoldable pub leg_journal_entry : Key → LegEntry → GlAccount → GlAccount → JournalEntry
leg_journal_entry id p d c = record {
  id = id;
  tenant = p.tenant;
  entry_number = join "JE-LEDGER-" p.reference;
  kind = p.kind;
  about_transaction = true;
  reference_id = p.transaction;
  total_amount = p.amount;
  created_by = p.actor;
  reversal_of = none;
  postings = record { debit_account = d.id; credit_account = c.id; amount = p.amount } ∷ [];
}

abbrev pub has_entry_number : Key → Key → JournalEntry → Bool
has_entry_number tenant number e = same e.tenant tenant && same e.entry_number number

-- The part after the check that the entry is new.
unfoldable pub create_leg_entry : Key → LegEntry → M Db (JournalEntry × Bool)
unfolding find_gl_account_pair leg_journal_entry
create_leg_entry id p = do
  pair ← gets (λ (db : Db).
      find_gl_account_pair p.tenant p.debit_code (credit_code_of p.leg) db.gl_accounts)
  (d, c) ← or_throw pair gl_not_configured
  let entry = leg_journal_entry id p d c
  modify (λ (db : Db). record db { entries = db.entries ++ entry ∷ [] })
  pure (entry, false)

abbrev pub unless_found :
    Option JournalEntry → M Db (JournalEntry × Bool) → M Db (JournalEntry × Bool)
unless_found (some e) create = pure (e, true)
unless_found none create = create

-- `postGlOnlyLegEntry`; the amount is at four places. The Boolean is `replayed`.
unfoldable pub post_gl_only_leg_entry : Key → LegEntry → M Db (JournalEntry × Bool)
unfolding create_leg_entry
post_gl_only_leg_entry id p = do
  throw_if (leb_ℤ p.amount (pos 0)) amount_not_positive
  existing ← gets (λ (db : Db).
      find_first (has_entry_number p.tenant (join "JE-LEDGER-" p.reference)) db.entries)
  unless_found existing (create_leg_entry id p)

-- The callers of `postGlOnlyLegEntry` differ in the leg, the debit code and the journal type.
module _ (id tenant reference : Key) (amount : ℤ) (transaction actor : Key) where
  -- `postLoanRepaymentLegEntry`
  unfoldable pub post_loan_repayment_leg : Leg → M Db (JournalEntry × Bool)
  unfolding post_gl_only_leg_entry
  post_loan_repayment_leg leg = post_gl_only_leg_entry id (record {
    tenant = tenant;
    reference = reference;
    leg = leg;
    amount = amount;
    debit_code = cash_code;
    transaction = transaction;
    actor = actor;
    kind = JournalType.loan_repayment;
  })

  -- `postAccountSourcedRepaymentLegEntry`
  unfoldable pub post_account_sourced_leg : AccountType → Leg → M Db (JournalEntry × Bool)
  unfolding post_gl_only_leg_entry
  post_account_sourced_leg t leg = post_gl_only_leg_entry id (record {
    tenant = tenant;
    reference = reference;
    leg = leg;
    amount = amount;
    debit_code = member_deposits_code t;
    transaction = transaction;
    actor = actor;
    kind = JournalType.loan_repayment;
  })

  -- `postGuarantorForfeitureEntry`
  unfoldable pub post_guarantor_forfeiture : AccountType → M Db (JournalEntry × Bool)
  unfolding post_account_sourced_leg
  post_guarantor_forfeiture t = post_account_sourced_leg t principal

  -- `postInterestAccrualEntry`
  unfoldable pub post_interest_accrual : AccountType → M Db (JournalEntry × Bool)
  unfolding post_gl_only_leg_entry
  post_interest_accrual t = post_gl_only_leg_entry id (record {
    tenant = tenant;
    reference = reference;
    leg = interest;
    amount = amount;
    debit_code = member_deposits_code t;
    transaction = transaction;
    actor = actor;
    kind = JournalType.interest_accrual;
  })

  -- `postPenaltyDeductionEntry`
  unfoldable pub post_penalty_deduction : AccountType → M Db (JournalEntry × Bool)
  unfolding post_account_sourced_leg
  post_penalty_deduction t = post_account_sourced_leg t penalty

  -- `postPenaltyReceivableEntry`
  unfoldable pub post_penalty_receivable : M Db (JournalEntry × Bool)
  unfolding post_gl_only_leg_entry
  post_penalty_receivable = post_gl_only_leg_entry id (record {
    tenant = tenant;
    reference = reference;
    leg = penalty;
    amount = amount;
    debit_code = loan_receivable_code;
    transaction = transaction;
    actor = actor;
    kind = JournalType.loan_repayment;
  })

abbrev pub is_system_user : Key → User → Bool
is_system_user tenant u = same u.tenant tenant && u.is_system

-- `resolveSystemActorId`, which a posting without an actor asks first; the id that the service
-- remembers of an earlier call is left out.
unfoldable pub resolve_system_actor : Key → M Db Key
resolve_system_actor tenant = do
  found ← gets (λ (db : Db). find_first (is_system_user tenant) db.users)
  user ← or_throw found not_found
  pure user.id
