-- ===== src/Ledger/Books.antt =====
-- The two books that the ledger service keeps in step: what the members' accounts hold, and what
-- the postings put on the GL accounts of the members' deposits. `liability` tells those GL accounts
-- from the others by their id.
pub mod Effects
pub mod Entry
pub mod Transfer
pub mod Reversal
use beba_sacco_backend.Base.{
  ℕ, ℤ, pos, ◌+ℤ◌, ◌-ℤ◌, ◌≡◌, Key, Bool, true, false, ◌||◌, ◌==◌, Option, none, some, List, total,
  All, if◌then◌else◌,
}
use beba_sacco_backend.Store.{Db, Account, JournalEntry, JournalType, GlAccount, Posting}
use beba_sacco_backend.Ledger.Balance.{Direction, debit, credit}
use beba_sacco_backend.Ledger.Balance.Laws.{balance_of}
use beba_sacco_backend.Ledger.Gl.{fosa_deposits_code, bosa_deposits_code}

abbrev pub is_deposits_code : ℕ → Bool
is_deposits_code c = c == fosa_deposits_code || c == bosa_deposits_code

-- The way that each kind of posting moves the member's account; `none` for the kinds that
-- `postEntry` does not post.
abbrev pub expected_direction : JournalType → Option Direction
expected_direction JournalType.deposit = some credit
expected_direction JournalType.mpesa_deposit = some credit
expected_direction JournalType.loan_disbursement = some credit
expected_direction JournalType.withdrawal = some debit
expected_direction JournalType.fee_charge = some debit
expected_direction _ = none

module _ (liability : Key → Bool) where
  -- What a posting adds to the members' deposits, a liability: its credits less its debits.
  unfoldable pub posting_effect : Posting → ℤ
  posting_effect q =
      (if liability q.credit_account then q.amount else pos 0)
      -ℤ (if liability q.debit_account then q.amount else pos 0)

  unfoldable pub entry_effect : JournalEntry → ℤ
  entry_effect e = total posting_effect e.postings

  unfoldable pub deposits : Db → ℤ
  unfolding entry_effect
  deposits db = total entry_effect db.entries

  -- `liability` is right about the GL accounts of the chart.
  abbrev pub IsChart : List GlAccount → Type 0
  IsChart rows = All (λ g. liability g.id ≡ is_deposits_code g.code) rows

unfoldable pub balances : Db → ℤ
balances db = total balance_of db.accounts

-- The members' deposits in the GL, less what their accounts hold.
unfoldable pub gap : (Key → Bool) → Db → ℤ
gap liability db = deposits liability db -ℤ balances db
