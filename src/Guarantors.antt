-- ===== src/Guarantors.antt =====
-- `GuarantorValidationService` (src/modules/loans/guarantor-validation.service.ts): the guarantors of
-- a loan and the part of their savings that is held for it.
pub mod Frames
pub mod Laws
use beba_sacco_backend.Base.{
  ◌^◌, ◌*◌, if◌then◌else◌, not, ℕ, ℤ, pos, ◌+ℤ◌, ◌-ℤ◌, min_ℤ, ltb_ℤ, leb_ℤ, eqb_ℤ, Key, same, Bool,
  true, false, ◌&&◌, Option, none, some, List, [], ◌∷◌, M, ◌>>=◌, ◌>>◌, pure, gets, modify,
  or_throw, throw_if, find_first, count_where, update_many, some_row, total, ◌==◌, ◌+◌, conflict,
  duplicate_guarantor, invalid_amount, account_not_found, insufficient_coverage, insufficient_funds,
  hold_release_failed, Rounding, quotient,
}
use beba_sacco_backend.Store.{Ratio, Db, Account, AccountType, fosa, bosa}

-- `GuarantorCoverageInput`, its amount at four places; none stands for NaN and the infinities.
pub record Nominee : Type 0 where
  pub member : Key
  pub given : Option ℤ

-- A guarantor that `normalizeGuarantors` has let through.
pub record Pledge : Type 0 where
  pub member : Key
  pub amount : ℤ

unfoldable pub pledge_amount : Option ℤ → Option ℤ
pledge_amount none = none
pledge_amount (some a) = if leb_ℤ a (pos 0) then none else some a

-- `normalizeGuarantors`; `seen` holds the members met before.
unfoldable pub normalize : List Key → List Nominee → M Db (List Pledge)
unfolding pledge_amount
normalize seen [] = pure []
normalize seen (g ∷ more) = do
  throw_if (some_row (λ (m : Key). same m g.member) seen) duplicate_guarantor
  amount ← or_throw (pledge_amount g.given) invalid_amount
  rest ← normalize (g.member ∷ seen) more
  pure (record { member = g.member; amount = amount } ∷ rest)

abbrev pub same_type : AccountType → AccountType → Bool
same_type fosa fosa = true
same_type bosa bosa = true
same_type _ _ = false

-- The `where` of `getActiveAccount`.
abbrev pub is_active_of : Key → AccountType → Key → Account → Bool
is_active_of tenant kind member a =
    same a.tenant tenant && (same a.member member && (same_type a.account_type kind && a.is_active))

abbrev pub available_balance : Account → ℤ
available_balance a = a.balance -ℤ a.locked_balance -ℤ a.frozen_savings

unfoldable pub get_active_account : Key → AccountType → Key → Db → Option Account
get_active_account tenant kind member db = find_first (is_active_of tenant kind member) db.accounts

-- `resolveAccountType`
unfoldable pub resolve_account_type : Option AccountType → AccountType
resolve_account_type none = fosa
resolve_account_type (some kind) = kind

-- The check of one guarantor's account, which both callers make.
unfoldable pub funded_account : Key → AccountType → Pledge → M Db Account
unfolding get_active_account
funded_account tenant kind g = do
  found ← gets (λ (db : Db). get_active_account tenant kind g.member db)
  account ← or_throw found account_not_found
  throw_if (ltb_ℤ (available_balance account) g.amount) insufficient_funds
  pure account

unfoldable pub check_accounts : Key → AccountType → List Pledge → M Db (Unit {0})
unfolding funded_account
check_accounts tenant kind [] = pure tt
check_accounts tenant kind (g ∷ more) = do
  account ← funded_account tenant kind g
  check_accounts tenant kind more

abbrev pub ratio_or_one : Option Ratio → Ratio
ratio_or_one none = record { numerator = 1; digits = 0 }
ratio_or_one (some q) = q

unfoldable pub required_coverage : Rounding → ℕ → Option Ratio → ℤ
unfolding quotient
required_coverage r loan_amount ratio =
    let q = ratio_or_one ratio in quotient r (pos (loan_amount * q.numerator)) (10 ^ q.digits)

-- `validateGuarantorCoverage`; it gives `totalGuaranteed` and `requiredCoverage`.
unfoldable pub validate_guarantor_coverage :
    Rounding → Key → ℕ → List Nominee → Option AccountType → Option Ratio → M Db (ℤ × ℤ)
unfolding normalize check_accounts resolve_account_type required_coverage
validate_guarantor_coverage r tenant loan_amount guarantors kind ratio = do
  pledges ← normalize [] guarantors
  let required = required_coverage r loan_amount ratio
  let guaranteed = total (λ (g : Pledge). g.amount) pledges
  throw_if (ltb_ℤ guaranteed required) insufficient_coverage
  checked ← check_accounts tenant (resolve_account_type kind) pledges
  pure (guaranteed, required)

-- The `where` of the conditional update that places a hold; `account` is the row read before.
abbrev pub hold_where : Key → Account → ℤ → Account → Bool
hold_where tenant account amount a =
    same a.id account.id
    && (same a.tenant tenant
        && (a.is_active
            && (eqb_ℤ a.frozen_savings account.frozen_savings
                && leb_ℤ (account.locked_balance +ℤ (account.frozen_savings +ℤ amount)) a.balance)))

abbrev pub freeze : ℤ → Account → Account
freeze amount a = record a { frozen_savings = a.frozen_savings +ℤ amount; version = a.version + 1 }

unfoldable pub place_hold : Key → AccountType → Pledge → M Db (Unit {0})
unfolding funded_account
place_hold tenant kind g = do
  account ← funded_account tenant kind g
  let test = hold_where tenant account g.amount
  updated ← gets (λ (db : Db). count_where test db.accounts)
  modify (λ (db : Db). record db { accounts = update_many test (freeze g.amount) db.accounts })
  throw_if (not (updated == 1)) conflict

unfoldable pub place_all : Key → AccountType → List Pledge → M Db (Unit {0})
unfolding place_hold
place_all tenant kind [] = pure tt
place_all tenant kind (g ∷ more) = do placed ← place_hold tenant kind g; place_all tenant kind more

-- `placeGuarantorHolds`
unfoldable pub place_guarantor_holds : Key → List Nominee → AccountType → M Db (Unit {0})
unfolding normalize place_all
place_guarantor_holds tenant guarantors kind = do
  pledges ← normalize [] guarantors
  place_all tenant kind pledges

abbrev pub release_where : Key → Account → Account → Bool
release_where tenant account a = same a.id account.id && (same a.tenant tenant && a.is_active)

abbrev pub unfreeze : ℤ → Account → Account
unfreeze amount a = record a {
  frozen_savings = a.frozen_savings -ℤ amount;
  version = a.version + 1;
}

unfoldable pub release_if : Bool → (Account → Bool) → ℤ → M Db (Unit {0})
release_if false test released = pure tt
release_if true test released = do
  updated ← gets (λ (db : Db). count_where test db.accounts)
  modify (λ (db : Db). record db { accounts = update_many test (unfreeze released) db.accounts })
  throw_if (not (updated == 1)) hold_release_failed

-- A guarantor without an account, and a hold of nothing, are passed over.
unfoldable pub release_from : Key → ℤ → Option Account → M Db (Unit {0})
unfolding release_if
release_from tenant amount none = pure tt
release_from tenant amount (some account) = do
  let released = min_ℤ account.frozen_savings amount
  let test = release_where tenant account
  release_if (not (eqb_ℤ released (pos 0))) test released

unfoldable pub release_all : Key → AccountType → List Pledge → M Db (Unit {0})
unfolding get_active_account release_from
release_all tenant kind [] = pure tt
release_all tenant kind (g ∷ more) = do
  found ← gets (λ (db : Db). get_active_account tenant kind g.member db)
  released ← release_from tenant g.amount found
  release_all tenant kind more

-- `releaseGuarantorHolds`
unfoldable pub release_guarantor_holds : Key → List Nominee → AccountType → M Db (Unit {0})
unfolding normalize release_all
release_guarantor_holds tenant guarantors kind = do
  pledges ← normalize [] guarantors
  release_all tenant kind pledges
