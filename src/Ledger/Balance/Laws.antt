-- ===== src/Ledger/Balance/Laws.antt =====
-- What a balance change that goes through has found and written.
use beba_sacco_backend.Base.{
  ◌⊎◌, int_laws, int_order, total, Unique, All, ◌≤◌, same, leb_ℤ→le, ℤ, pos, ◌+ℤ◌, ◌≤ℤ◌, Key, ◌≡◌,
  refl, ◌≢◌, Bool, true, some, ok, or_throw, not_found, arith, find_first, count_where, update_many,
  Bool-cases, inl, inr,
}
use beba_sacco_backend.Base.Tables.Laws.{
  All-update_found, Unique-update_many, count_where-Unique, total-update_many_one,
}
use beba_sacco_backend.Base.Results.Inversion.{>>=-ok, or_throw-ok}
use beba_sacco_backend.Store.{Db, Account}
use beba_sacco_backend.Ledger.Balance.{
  Direction, debit, credit, BalanceChange, is_active_account, change_where, signed, move_balance,
  debit_floor, apply_balance_change, write_change,
}

pub record Applied (tenant id : Key) (amount : ℤ) (direction : Direction) (db db' : Db)
    (change : BalanceChange) : Type 0 where
  pub account : Account
  pub found : find_first (is_active_account tenant id) db.accounts ≡ some account
  pub updated : count_where (change_where tenant id direction account amount) db.accounts ≢ 0
  pub before : change.balance_before ≡ account.balance
  pub after : change.balance_after ≡ account.balance +ℤ signed direction amount
  pub type_of : change.account_type ≡ account.account_type
  pub written : db' ≡ record db {
    accounts =
        update_many
          (change_where tenant id direction account amount)
          (move_balance direction amount)
          db.accounts;
  }

write_change-Applied :
    (tenant id : Key) (amount : ℤ) (direction : Direction) (account : Account) (db db' : Db)
    (change : BalanceChange)
    → find_first (is_active_account tenant id) db.accounts ≡ some account
    → write_change tenant id amount direction account db ≡ ok (change, db')
    → Applied tenant id amount direction db db' change
unfolding write_change
write_change-Applied tenant id amount direction account db db' change found h = record {
  account = account;
  found = found;
  updated = ground arith;
  before = ground arith;
  after = ground arith;
  type_of = ground arith;
  written = ground arith;
}

-- A change that goes through found an active account of the tenant, updated a row, and wrote
-- nothing but the accounts.
pub apply_balance_change-Applied :
    (tenant id : Key) (amount : ℤ) (direction : Direction) (db db' : Db) (change : BalanceChange)
    → apply_balance_change tenant id amount direction db ≡ ok (change, db')
    → Applied tenant id amount direction db db' change
unfolding apply_balance_change
apply_balance_change-Applied tenant id amount direction db db' change h =
    let (account, db1, e, k) =
      >>=-ok (or_throw (find_first (is_active_account tenant id) db.accounts) not_found)
        (write_change tenant id amount direction) h in
    let (found, same_db) = or_throw-ok _ _ e in
    write_change-Applied tenant id amount direction account db db' change found (rw same_db at k)

-- The committed funds are there, and the minimum balance is kept unless the account may go below.
pub record IsCovered (a : Account) : Type 0 where
  pub holds : a.locked_balance +ℤ a.frozen_savings ≤ℤ a.balance
  pub minimum : (a.allows_negative ≡ true) ⊎ (a.minimum_balance ≤ℤ a.balance)

abbrev pub account_key : Account → Key
account_key a = a.id

abbrev pub balance_of : Account → ℤ
balance_of a = a.balance

debit_floor-holds :
    (a : Account) (amount : ℤ)
    → a.locked_balance +ℤ a.frozen_savings +ℤ amount ≤ℤ debit_floor a amount
unfolding debit_floor
debit_floor-holds a amount = omega int_order

debit_floor-minimum :
    (a : Account) (amount : ℤ)
    → (a.allows_negative ≡ true) ⊎ (a.minimum_balance +ℤ amount ≤ℤ debit_floor a amount)
unfolding debit_floor
debit_floor-minimum a amount = elim (Bool-cases a.allows_negative) [
  | inl e ↦ inl e
  | inr e ↦ inr (rw e (omega int_order))
]

debit-passes :
    (tenant id : Key) (amount : ℤ) (a b : Account)
    → change_where tenant id debit a amount b ≡ true
    → debit_floor a amount ≤ℤ b.balance
unfolding change_where
debit-passes tenant id amount a b h = leb_ℤ→le (debit_floor a amount) b.balance (ground arith)

module _ (tenant id : Key) (amount : ℤ) (positive : pos 1 ≤ℤ amount) where
  credit-IsCovered : (a : Account) → IsCovered a → IsCovered (move_balance credit amount a)
  unfolding move_balance
  credit-IsCovered a h = grind int_laws

  debit-IsCovered :
      (a : Account)
      → change_where tenant id debit a amount a ≡ true
      → IsCovered (move_balance debit amount a)
  unfolding move_balance
  debit-IsCovered a h =
      let enough : debit_floor a amount ≤ℤ a.balance = debit-passes tenant id amount a a h in
      let holds_fit : _ = debit_floor-holds a amount in
      record {
        holds = omega int_laws;
        minimum = elim (debit_floor-minimum a amount) [
          | inl e ↦ inl e
          | inr e ↦ inr (omega int_laws)
        ];
      }

  move_balance-IsCovered :
      (direction : Direction) (a : Account)
      → IsCovered a
      → change_where tenant id direction a amount a ≡ true
      → IsCovered (move_balance direction amount a)
  move_balance-IsCovered credit a h _ = credit-IsCovered a h
  move_balance-IsCovered debit a _ passes = debit-IsCovered a passes

change_where_narrower :
    (tenant id : Key) (direction : Direction) (account : Account) (amount : ℤ) (a : Account)
    → change_where tenant id direction account amount a ≡ true
    → is_active_account tenant id a ≡ true
unfolding change_where
change_where_narrower tenant id credit account amount a h = h
change_where_narrower tenant id debit account amount a h = ground arith

is_active_account-key :
    (tenant id : Key) (a : Account) → is_active_account tenant id a ≡ true → same a.id id ≡ true
unfolding is_active_account
is_active_account-key tenant id a h = ground arith

move_balance-key :
    (direction : Direction) (amount : ℤ) (a : Account) → (move_balance direction amount a).id ≡ a.id
unfolding move_balance
move_balance-key credit amount a = refl
move_balance-key debit amount a = refl

move_balance-balance :
    (direction : Direction) (amount : ℤ) (a : Account)
    → (move_balance direction amount a).balance ≡ a.balance +ℤ signed direction amount
unfolding move_balance
move_balance-balance credit amount a = refl
move_balance-balance debit amount a = omega int_laws

module _ {tenant id : Key} {amount : ℤ} {direction : Direction} {db db' : Db}
    {change : BalanceChange} (applied : Applied tenant id amount direction db db' change) where
  abbrev test : Account → Bool
  test = change_where tenant id direction applied.account amount

  -- Every account stays covered.
  pub Applied-IsCovered :
      pos 1 ≤ℤ amount
      → Unique account_key db.accounts
      → All IsCovered db.accounts
      → All IsCovered db'.accounts
  Applied-IsCovered positive u h = rw applied.written (
      All-update_found IsCovered account_key id (is_active_account tenant id) test
        (move_balance direction amount) (is_active_account-key tenant id)
        (change_where_narrower tenant id direction applied.account amount) db.accounts applied.found
        (move_balance-IsCovered tenant id amount positive direction applied.account) u h)

  pub Applied-Unique : Unique account_key db.accounts → Unique account_key db'.accounts
  Applied-Unique u = rw applied.written (
      Unique-update_many account_key test (move_balance direction amount)
        (move_balance-key direction amount) db.accounts u)

  -- The sum of all balances moves by the signed amount.
  pub Applied-total :
      Unique account_key db.accounts
      → total balance_of db'.accounts ≡ total balance_of db.accounts +ℤ signed direction amount
  Applied-total u =
      let one : count_where test db.accounts ≤ 1 =
        count_where-Unique account_key id test
          (λ a e.
            is_active_account-key tenant id a
              (change_where_narrower tenant id direction applied.account amount a e))
          db.accounts u in
      rw applied.written (
        total-update_many_one balance_of test (move_balance direction amount)
          (signed direction amount) (λ a _. move_balance-balance direction amount a) db.accounts
          (omega (arith, applied.updated)))
