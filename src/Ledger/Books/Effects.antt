-- ===== src/Ledger/Books/Effects.antt =====
-- The effect of one posting on the members' deposits, from the codes that were resolved for it.
use beba_sacco_backend.Base.{
  inr, ◌∙◌, inl, ◌⊎◌, ℕ, ℤ, pos, ◌-ℤ◌, int_laws, ◌≡◌, Key, Bool, true, false, ◌==◌, Option, none,
  some, List, [], ◌∷◌, total, All, ok, arith, find_first, rows_where, Bool-cases,
}
use beba_sacco_backend.Base.Tables.Laws.{find_first-All, find_first_passes}
use beba_sacco_backend.Store.{AccountType, JournalType, GlAccount, Posting}
use beba_sacco_backend.Ledger.Balance.{Direction, debit, credit, signed}
use beba_sacco_backend.Ledger.Gl.{
  CodePair, resolve_gl_codes, find_gl_account_pair, both_found, gl_where, has_code,
}
use beba_sacco_backend.Ledger.Books.{is_deposits_code, expected_direction, posting_effect, IsChart}

rows_where-All :
    (P : GlAccount → Type 0) (p : GlAccount → Bool) (rows : List GlAccount)
    → All P rows
    → All P (rows_where p rows)
unfolding rows_where
rows_where-All P p [] h = tt
rows_where-All P p (g ∷ rows) h = elim (Bool-cases (p g)) [
  | inl e ↦ rw e (h.0, rows_where-All P p rows h.1)
  | inr e ↦ rw e (rows_where-All P p rows h.1)
]

both_found-some :
    (d c : Option GlAccount) {pair : GlAccount × GlAccount}
    → both_found d c ≡ some pair
    → (d ≡ some pair.0) × (c ≡ some pair.1)
both_found-some (some d) (some c) e = (ground arith, ground arith)
both_found-some (some d) none e = cc
both_found-some none (some c) e = cc
both_found-some none none e = cc

module _ (liability : Key → Bool) where
  code-liability :
      (code : ℕ) (rows : List GlAccount) {g : GlAccount}
      → IsChart liability rows
      → find_first (has_code code) rows ≡ some g
      → liability g.id ≡ is_deposits_code code
  code-liability code rows {g} chart e =
      let right : liability g.id ≡ is_deposits_code g.code =
        find_first-All (λ x. liability x.id ≡ is_deposits_code x.code) (has_code code) rows chart
          e in
      let code_is : (g.code == code) ≡ true = find_first_passes (has_code code) rows e in
      ground arith

  -- The pair of GL accounts that is found is of the kind that its codes say.
  pub pair-liability :
      (tenant : Key) (d c : ℕ) (rows : List GlAccount) {pair : GlAccount × GlAccount}
      → IsChart liability rows
      → find_gl_account_pair tenant d c rows ≡ some pair
      → (liability pair.0.id ≡ is_deposits_code d) × (liability pair.1.id ≡ is_deposits_code c)
  unfolding find_gl_account_pair
  pair-liability tenant d c rows {pair} chart e =
      let found : List GlAccount = rows_where (gl_where tenant d c) rows in
      let (d_found, c_found) =
        both_found-some (find_first (has_code d) found) (find_first (has_code c) found) e in
      let found_chart : IsChart liability found =
        rows_where-All (λ x. liability x.id ≡ is_deposits_code x.code) (gl_where tenant d c) rows
          chart in
      (code-liability d found found_chart d_found, code-liability c found found_chart c_found)

  pub posting_effect-debit :
      (q : Posting)
      → liability q.debit_account ≡ true
      → liability q.credit_account ≡ false
      → posting_effect liability q ≡ pos 0 -ℤ q.amount
  unfolding posting_effect
  posting_effect-debit q d c = rw (d, c)

  pub posting_effect-credit :
      (q : Posting)
      → liability q.debit_account ≡ false
      → liability q.credit_account ≡ true
      → posting_effect liability q ≡ q.amount
  unfolding posting_effect
  posting_effect-credit q d c = rw (d, c) (omega int_laws)

  pub posting_effect-none :
      (q : Posting)
      → liability q.debit_account ≡ liability q.credit_account
      → posting_effect liability q ≡ pos 0
  unfolding posting_effect
  posting_effect-none q e = rw e (omega int_laws)

  -- The codes of a posting that goes the expected way.
  resolve_gl_codes-deposits :
      (t : AccountType) (kind : JournalType) (direction : Direction) {codes : CodePair}
      → expected_direction kind ≡ some direction
      → resolve_gl_codes t kind direction none ≡ ok codes
      → ((direction ≡ credit)
          × (is_deposits_code codes.debit_code ≡ false)
          × (is_deposits_code codes.credit_code ≡ true))
        ⊎ ((direction ≡ debit)
            × (is_deposits_code codes.debit_code ≡ true)
            × (is_deposits_code codes.credit_code ≡ false))
  unfolding resolve_gl_codes
  resolve_gl_codes-deposits t kind direction e h = ground arith

  -- A posting that goes the expected way moves the deposits as it moves the account.
  pub posting_effect-signed :
      (t : AccountType) (kind : JournalType) (direction : Direction) (tenant : Key)
      (rows : List GlAccount) (codes : CodePair) (pair : GlAccount × GlAccount) (amount : ℤ)
      → IsChart liability rows
      → expected_direction kind ≡ some direction
      → resolve_gl_codes t kind direction none ≡ ok codes
      → find_gl_account_pair tenant codes.debit_code codes.credit_code rows ≡ some pair
      → posting_effect liability
          (record { debit_account = pair.0.id; credit_account = pair.1.id; amount = amount })
        ≡ signed direction amount
  posting_effect-signed t kind direction tenant rows codes pair amount chart e resolved found =
      let (d, c) = pair-liability tenant codes.debit_code codes.credit_code rows chart found in
      elim (resolve_gl_codes-deposits t kind direction e resolved) [
        | inl (way, dd, cc_) ↦ rw way (posting_effect-credit _ (d ∙ dd) (c ∙ cc_))
        | inr (way, dd, cc_) ↦ rw way (posting_effect-debit _ (d ∙ dd) (c ∙ cc_))
      ]

  pub entry_effect-single :
      (q : Posting) → total (posting_effect liability) (q ∷ []) ≡ posting_effect liability q
  unfolding total
  entry_effect-single q = omega int_laws
