-- ===== src/Ledger/Balance.antt =====
-- `LedgerService.applyBalanceChange` (src/modules/accounting/ledger.service.ts): the one place where
-- a posting moves the balance of a member's account.
pub mod Laws
use beba_sacco_backend.Base.{
  ℤ, pos, ◌+ℤ◌, ◌-ℤ◌, max_ℤ, leb_ℤ, Key, same, ◌+◌, Bool, ◌&&◌, ◌==◌, M, ◌>>=◌, ◌>>◌, pure, gets,
  modify, or_throw, throw_if, not_found, insufficient_funds, find_first, count_where, update_many,
  if◌then◌else◌,
}
use beba_sacco_backend.Store.{Db, Account, AccountType}

pub data Direction : Type 0 where
  debit credit : Direction

pub record BalanceChange : Type 0 where
  pub balance_before : ℤ
  pub balance_after : ℤ
  pub account_type : AccountType

-- `{ id: accountId, tenantId, isActive: true }`
unfoldable pub is_active_account : Key → Key → Account → Bool
is_active_account tenant id a = same a.id id && (same a.tenant tenant && a.is_active)

-- What a debit of `amount` needs: the committed funds and, unless the account may go negative, the
-- minimum balance stay covered.
unfoldable pub debit_floor : Account → ℤ → ℤ
debit_floor a amount =
    max_ℤ (a.locked_balance +ℤ a.frozen_savings +ℤ amount)
      (if a.allows_negative then pos 0 else a.minimum_balance +ℤ amount)

-- The `where` of the conditional update; `account` is the row read before.
unfoldable pub change_where : Key → Key → Direction → Account → ℤ → Account → Bool
unfolding is_active_account debit_floor
change_where tenant id credit account amount a = is_active_account tenant id a
change_where tenant id debit account amount a =
    is_active_account tenant id a && leb_ℤ (debit_floor account amount) a.balance

abbrev pub signed : Direction → ℤ → ℤ
signed credit amount = amount
signed debit amount = pos 0 -ℤ amount

unfoldable pub move_balance : Direction → ℤ → Account → Account
move_balance credit amount a = record a { balance = a.balance +ℤ amount; version = a.version + 1 }
move_balance debit amount a = record a { balance = a.balance -ℤ amount; version = a.version + 1 }

-- The conditional update and its count.
unfoldable pub write_change : Key → Key → ℤ → Direction → Account → M Db BalanceChange
unfolding change_where move_balance
write_change tenant id amount direction account = do
  let test = change_where tenant id direction account amount
  updated ← gets (λ (db : Db). count_where test db.accounts)
  modify (λ (db : Db). record db {
    accounts = update_many test (move_balance direction amount) db.accounts;
  })
  throw_if (updated == 0) insufficient_funds
  pure (record {
    balance_before = account.balance;
    balance_after = account.balance +ℤ signed direction amount;
    account_type = account.account_type;
  })

unfoldable pub apply_balance_change : Key → Key → ℤ → Direction → M Db BalanceChange
unfolding is_active_account write_change
apply_balance_change tenant id amount direction = do
  found ← gets (λ (db : Db). find_first (is_active_account tenant id) db.accounts)
  account ← or_throw found not_found
  write_change tenant id amount direction account
