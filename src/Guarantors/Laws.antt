-- ===== src/Guarantors/Laws.antt =====
-- What the holds keep of the accounts.
use mathlib.Core.Path.{subst, ap}
use beba_sacco_backend.Base.{
  ℤ, ◌+ℤ◌, ◌≤ℤ◌, both_≤ℤ, int_laws, leb_ℤ→le, Key, same, same_sym, Bool, true, false, Option-cases,
  Bool-cases, List, [], ◌∷◌, ok, arith, ◌≡◌, refl, inl, inr, All, Unique, find_first, update_many,
  some_row, some, throw_if, or_throw, duplicate_guarantor, invalid_amount, ltb_ℤ, M, ◌>>=◌, pure,
}
use beba_sacco_backend.Base.Results.Keeps.{
  Keeps, >>=-Keeps, pure-Keeps, or_throw-Keeps, throw_if-Keeps,
}
use beba_sacco_backend.Base.Results.Inversion.{>>=-ok}
use beba_sacco_backend.Base.Tables.Laws.{Unique-update_many, find_first-All}
use beba_sacco_backend.Store.{Db, Account, AccountType}
use beba_sacco_backend.Guarantors.{
  Nominee, Pledge, pledge_amount, normalize, is_active_of, available_balance, get_active_account,
  funded_account, hold_where, freeze, place_hold, place_all, place_guarantor_holds,
}

-- The committed funds are there.
abbrev pub IsHeld : Account → Type 0
IsHeld a = a.locked_balance +ℤ a.frozen_savings ≤ℤ a.balance

abbrev pub id_of : Account → Key
id_of a = a.id

none_like :
    (k : Key) (b : Account) (xs : List Account)
    → All (λ y. same y.id k ≡ false) xs
    → All (λ a. same a.id k ≡ true → a ≡ b) xs
none_like k b [] h = tt
none_like k b (x ∷ xs) h = (λ e. absurd (ground arith), none_like k b xs h.1)

-- A row that a query finds is the only one with its id.
found_only :
    (p : Account → Bool) (xs : List Account) (b : Account)
    → Unique id_of xs
    → find_first p xs ≡ some b
    → All (λ a. same a.id b.id ≡ true → a ≡ b) xs
unfolding find_first
found_only p [] b u e = tt
found_only p (x ∷ xs) b u e = elim (Bool-cases (p x)) [
  | inl passes ↦
      let x_is : x ≡ b = ground arith in
      (
        λ _. x_is,
        none_like b.id b xs
            (subst (λ (c : Account). All (λ y. same y.id c.id ≡ false) xs) x_is u.0),
      )
  | inr fails ↦
      let rest : find_first p xs ≡ some b = ground arith in
      let other : same b.id x.id ≡ false =
        find_first-All (λ (y : Account). same y.id x.id ≡ false) p xs u.0 rest in
      (λ e2. absurd (ground (arith, same_sym b.id x.id)), found_only p xs b u.1 rest)
]

freeze-IsHeld :
    (tenant : Key) (account a : Account) (amount : ℤ)
    → (same a.id account.id ≡ true → a ≡ account)
    → hold_where tenant account amount a ≡ true
    → IsHeld (freeze amount a)
freeze-IsHeld tenant account a amount only h =
    let same_id : same a.id account.id ≡ true = ground arith in
    let a_is : a ≡ account = only same_id in
    let locked : _ = both_≤ℤ (ap (λ (x : Account). x.locked_balance) a_is) in
    let frozen : _ = both_≤ℤ (ap (λ (x : Account). x.frozen_savings) a_is) in
    let enough : _ =
      leb_ℤ→le (account.locked_balance +ℤ (account.frozen_savings +ℤ amount)) a.balance
        (ground arith) in
    omega int_laws

hold-IsHeld :
    (tenant : Key) (account : Account) (amount : ℤ) (xs : List Account)
    → All (λ a. same a.id account.id ≡ true → a ≡ account) xs
    → All IsHeld xs
    → All IsHeld (update_many (hold_where tenant account amount) (freeze amount) xs)
unfolding update_many
hold-IsHeld tenant account amount [] only h = tt
hold-IsHeld tenant account amount (x ∷ xs) only h =
    elim (Bool-cases (hold_where tenant account amount x)) [
      | inl e ↦ rw e (
        freeze-IsHeld tenant account x amount only.0 e,
        hold-IsHeld tenant account amount xs only.1 h.1,
      )
      | inr e ↦ rw e (h.0, hold-IsHeld tenant account amount xs only.1 h.1)
    ]

place_hold-ok :
    (tenant : Key) (kind : AccountType) (g : Pledge) (db db' : Db) (u : Unit {0})
    → place_hold tenant kind g db ≡ ok (u, db')
    → (account : Account) × (find_first (is_active_of tenant kind g.member) db.accounts
        ≡ some account)
      × (db'.accounts
          ≡ update_many (hold_where tenant account g.amount) (freeze g.amount) db.accounts)
unfolding place_hold funded_account get_active_account
place_hold-ok tenant kind g db db' u h =
    elim (Option-cases (find_first (is_active_of tenant kind g.member) db.accounts)) [
      | inl e ↦ absurd (ground arith)
      | inr (account, e) ↦ elim (Bool-cases (ltb_ℤ (available_balance account) g.amount)) [
        | inl short ↦ absurd (ground arith)
        | inr enough ↦ (account, e, ground arith)
      ]
    ]

place_all-IsHeld :
    (tenant : Key) (kind : AccountType) (gs : List Pledge) (db db' : Db) (u : Unit {0})
    → Unique id_of db.accounts
    → All IsHeld db.accounts
    → place_all tenant kind gs db ≡ ok (u, db')
    → Unique id_of db'.accounts × All IsHeld db'.accounts
unfolding place_all
place_all-IsHeld tenant kind [] db db' u ids held h =
    let same_db : db' ≡ db = ground arith in rw same_db (ids, held)
place_all-IsHeld tenant kind (g ∷ more) db db' u ids held h =
    let (v, db1, e1, k1) = >>=-ok (place_hold tenant kind g) (λ _. place_all tenant kind more) h in
    let (account, found, written) = place_hold-ok tenant kind g db db1 v e1 in
    place_all-IsHeld tenant kind more db1 db' u
      (rw written (Unique-update_many id_of _ _ (λ a. refl) db.accounts ids))
      (rw written (
        hold-IsHeld tenant account g.amount db.accounts (found_only _ db.accounts account ids found)
          held))
      k1

pub normalize-Keeps :
    (P : Db → Type 0) (seen : List Key) (gs : List Nominee) → Keeps P (normalize seen gs)
unfolding normalize
normalize-Keeps P seen [] s s' a h e = pure-Keeps P [] s s' a h e
normalize-Keeps P seen (g ∷ more) s s' a h e =
    let with_rest : ℤ → List Pledge → M Db (List Pledge) =
      λ amount rest. pure (record { member = g.member; amount = amount } ∷ rest) in
    let with_amount : ℤ → M Db (List Pledge) =
      λ amount. normalize (g.member ∷ seen) more >>= with_rest amount in
    >>=-Keeps P (throw_if (some_row (λ (m : Key). same m g.member) seen) duplicate_guarantor)
      (λ _. or_throw (pledge_amount g.given) invalid_amount >>= with_amount) (throw_if-Keeps P _ _)
      (λ _.
        >>=-Keeps P (or_throw (pledge_amount g.given) invalid_amount) with_amount
          (or_throw-Keeps P _ _)
          (λ amount.
            >>=-Keeps P (normalize (g.member ∷ seen) more) (with_rest amount)
              (normalize-Keeps P (g.member ∷ seen) more) (λ rest. pure-Keeps P _)))
      s s' a h e

-- Where the accounts have different ids and each has at least its locked balance and its frozen
-- savings together, placing the holds of a loan's guarantors, if it goes through, leaves all
-- that so, the new holds included.
pub place_guarantor_holds-IsHeld :
    (tenant : Key) (kind : AccountType) (gs : List Nominee) (db db' : Db) (u : Unit {0})
    → Unique id_of db.accounts
    → All IsHeld db.accounts
    → place_guarantor_holds tenant gs kind db ≡ ok (u, db')
    → Unique id_of db'.accounts × All IsHeld db'.accounts
unfolding place_guarantor_holds
place_guarantor_holds-IsHeld tenant kind gs db db' u ids held h =
    let (ps, db1, e1, k1) = >>=-ok (normalize [] gs) (place_all tenant kind) h in
    let (ids1, held1) =
      normalize-Keeps (λ (s : Db). Unique id_of s.accounts × All IsHeld s.accounts) [] gs db db1 ps
        (ids, held) e1 in
    place_all-IsHeld tenant kind ps db1 db' u ids1 held1 k1
