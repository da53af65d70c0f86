-- ===== src/Guarantors/Frames.antt =====
-- Holds and releases write accounts only.
use beba_sacco_backend.Base.{
  ◌>>=◌, pure, M, not, Bool, true, false, Key, Option, none, some, ℤ, List, [], ◌∷◌, ◌>>◌, gets,
  modify, throw_if, count_where, update_many, ◌==◌, hold_release_failed, account_not_found,
  insufficient_funds, conflict, ltb_ℤ, or_throw,
}
use beba_sacco_backend.Base.Results.Keeps.{
  Keeps, >>=-Keeps, pure-Keeps, gets-Keeps, modify-Keeps, throw_if-Keeps, or_throw-Keeps,
}
use beba_sacco_backend.Store.{Db, Account, AccountType}
use beba_sacco_backend.Guarantors.{
  Nominee, Pledge, normalize, place_all, place_hold, funded_account, available_balance, hold_where,
  freeze, place_guarantor_holds, release_if, release_from, release_all, release_guarantor_holds,
  get_active_account, unfreeze,
}
use beba_sacco_backend.Guarantors.Laws.{normalize-Keeps}

module _ (P : Db → Type 0)
    (frame : (db : Db) (rows : List Account) → P db → P (record db { accounts = rows })) where
  funded_account-Keeps :
      (tenant : Key) (kind : AccountType) (g : Pledge) → Keeps P (funded_account tenant kind g)
  unfolding funded_account
  funded_account-Keeps tenant kind g =
      >>=-Keeps P (gets (λ (db : Db). get_active_account tenant kind g.member db))
        (λ found. or_throw found account_not_found >>= if_funded)
        (gets-Keeps P (λ (db : Db). get_active_account tenant kind g.member db))
        (λ found.
          >>=-Keeps P (or_throw found account_not_found) if_funded
            (or_throw-Keeps P found account_not_found)
            (λ account.
              >>=-Keeps P (throw_if (short account) insufficient_funds) (λ _. pure account)
                (throw_if-Keeps P (short account) insufficient_funds) (λ _. pure-Keeps P account)))
    where
      short : Account → Bool
      short account = ltb_ℤ (available_balance account) g.amount

      if_funded : Account → M Db Account
      if_funded account = throw_if (short account) insufficient_funds >> pure account

  place_hold-Keeps :
      (tenant : Key) (kind : AccountType) (g : Pledge) → Keeps P (place_hold tenant kind g)
  unfolding place_hold
  place_hold-Keeps tenant kind g =
      >>=-Keeps P (funded_account tenant kind g) held (funded_account-Keeps tenant kind g)
        (λ account.
          >>=-Keeps P (gets (λ (db : Db). count_where (test account) db.accounts))
            (λ updated. modify (change account) >> throw_if (not (updated == 1)) conflict)
            (gets-Keeps P (λ (db : Db). count_where (test account) db.accounts))
            (λ updated.
              >>=-Keeps P (modify (change account)) (λ _. throw_if (not (updated == 1)) conflict)
                (modify-Keeps P (change account) (λ s h. frame s _ h))
                (λ _. throw_if-Keeps P (not (updated == 1)) conflict)))
    where
      test : Account → Account → Bool
      test account = hold_where tenant account g.amount

      change : Account → Db → Db
      change account db = record db {
        accounts = update_many (test account) (freeze g.amount) db.accounts;
      }

      held : Account → M Db (Unit {0})
      held account = gets (λ (db : Db). count_where (test account) db.accounts) >>= λ updated.
          (modify (change account) >> throw_if (not (updated == 1)) conflict)

  place_all-Keeps :
      (tenant : Key) (kind : AccountType) (gs : List Pledge) → Keeps P (place_all tenant kind gs)
  unfolding place_all
  place_all-Keeps tenant kind [] = pure-Keeps P tt
  place_all-Keeps tenant kind (g ∷ more) =
      >>=-Keeps P (place_hold tenant kind g) (λ _. place_all tenant kind more)
        (place_hold-Keeps tenant kind g) (λ _. place_all-Keeps tenant kind more)

  pub place_guarantor_holds-Keeps :
      (tenant : Key) (gs : List Nominee) (kind : AccountType)
      → Keeps P (place_guarantor_holds tenant gs kind)
  unfolding place_guarantor_holds
  place_guarantor_holds-Keeps tenant gs kind =
      >>=-Keeps P (normalize [] gs) (place_all tenant kind) (normalize-Keeps P [] gs)
        (place_all-Keeps tenant kind)

  release_if-Keeps :
      (b : Bool) (test : Account → Bool) (amount : ℤ) → Keeps P (release_if b test amount)
  unfolding release_if
  release_if-Keeps false test amount = pure-Keeps P tt
  release_if-Keeps true test amount =
      let change : Db → Db =
        λ db. record db { accounts = update_many test (unfreeze amount) db.accounts } in
      >>=-Keeps P (gets (λ (db : Db). count_where test db.accounts))
        (λ updated. modify change >> throw_if (not (updated == 1)) hold_release_failed)
        (gets-Keeps P (λ (db : Db). count_where test db.accounts))
        (λ updated.
          >>=-Keeps P (modify change) (λ _. throw_if (not (updated == 1)) hold_release_failed)
            (modify-Keeps P change (λ s h. frame s _ h))
            (λ _. throw_if-Keeps P (not (updated == 1)) hold_release_failed))

  release_from-Keeps :
      (tenant : Key) (amount : ℤ) (found : Option Account)
      → Keeps P (release_from tenant amount found)
  unfolding release_from
  release_from-Keeps tenant amount none = pure-Keeps P tt
  release_from-Keeps tenant amount (some account) = release_if-Keeps _ _ _

  release_all-Keeps :
      (tenant : Key) (kind : AccountType) (gs : List Pledge) → Keeps P (release_all tenant kind gs)
  unfolding release_all
  release_all-Keeps tenant kind [] = pure-Keeps P tt
  release_all-Keeps tenant kind (g ∷ more) =
      >>=-Keeps P (gets (λ (db : Db). get_active_account tenant kind g.member db))
        (λ found. release_from tenant g.amount found >> release_all tenant kind more)
        (gets-Keeps P (λ (db : Db). get_active_account tenant kind g.member db))
        (λ found.
          >>=-Keeps P (release_from tenant g.amount found) (λ _. release_all tenant kind more)
            (release_from-Keeps tenant g.amount found) (λ _. release_all-Keeps tenant kind more))

  pub release_guarantor_holds-Keeps :
      (tenant : Key) (gs : List Nominee) (kind : AccountType)
      → Keeps P (release_guarantor_holds tenant gs kind)
  unfolding release_guarantor_holds
  release_guarantor_holds-Keeps tenant gs kind =
      >>=-Keeps P (normalize [] gs) (release_all tenant kind) (normalize-Keeps P [] gs)
        (release_all-Keeps tenant kind)
