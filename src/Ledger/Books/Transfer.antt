-- ===== src/Ledger/Books/Transfer.antt =====
-- `postInternalTransfer` moves money between two accounts and leaves both books' sums as they were.
use beba_sacco_backend.Base.{
  sym, ◌∙◌, ℤ, pos, int_laws, ◌≡◌, refl, inl, inr, Key, Bool, true, some, All, Unique, ok, arith,
  Rounding, Decimal,
}
use beba_sacco_backend.Store.{Db, AccountType, JournalType}
use beba_sacco_backend.Ledger.Balance.{debit}
use beba_sacco_backend.Ledger.Balance.Laws.{
  IsCovered, account_key, Applied-IsCovered, Applied-Unique, Applied-total,
}
use beba_sacco_backend.Ledger.Gl.{CodePair, resolve_gl_codes}
use beba_sacco_backend.Ledger.Transfer.{
  TransferIds, TransferParams, Transferred, transfer_entry, post_internal_transfer,
}
use beba_sacco_backend.Ledger.Transfer.Laws.{Moved, post_internal_transfer-outcome}
use beba_sacco_backend.Ledger.Books.{is_deposits_code, entry_effect, deposits, IsChart, balances}
use beba_sacco_backend.Ledger.Books.Effects.{
  pair-liability, posting_effect-none, entry_effect-single,
}
use beba_sacco_backend.Ledger.Books.Entry.{Applied-IsChart, Applied-deposits, deposits-append}

-- Both legs of a transfer are deposits of members.
transfer_codes-deposits :
    (s t : AccountType) {codes : CodePair}
    → resolve_gl_codes s JournalType.transfer debit (some t) ≡ ok codes
    → (is_deposits_code codes.debit_code ≡ true) × (is_deposits_code codes.credit_code ≡ true)
unfolding resolve_gl_codes
transfer_codes-deposits s t h = ground arith

module _ {ids : TransferIds} {p : TransferParams} {amount : ℤ} {db db' : Db}
    (moved : Moved ids p amount db db') where
  Moved-balances : Unique account_key db.accounts → balances db' ≡ balances db
  unfolding balances
  Moved-balances u =
      rw
        (
          moved.written,
          Applied-total moved.given (Applied-Unique moved.taken u),
          Applied-total moved.taken u,
        )
        (omega int_laws)

  Moved-deposits :
      (liability : Key → Bool)
      → IsChart liability db.gl_accounts
      → deposits liability db' ≡ deposits liability db
  unfolding deposits
  Moved-deposits liability chart =
      let there : IsChart liability moved.credited.gl_accounts =
        Applied-IsChart liability moved.given (Applied-IsChart liability moved.taken chart) in
      let (d, c) =
        pair-liability liability p.tenant moved.codes.debit_code moved.codes.credit_code
          moved.credited.gl_accounts there moved.pair_is in
      let (dd, cc_) =
        transfer_codes-deposits moved.from_change.account_type moved.to_change.account_type
          moved.codes_are in
      let nothing : entry_effect liability (transfer_entry ids p amount moved.pair.0 moved.pair.1)
          ≡ pos 0 =
        unfold entry_effect in
        (entry_effect-single liability _
          ∙ posting_effect-none liability _ ((d ∙ dd) ∙ sym (c ∙ cc_))) in
      rw (moved.written, deposits-append liability moved.credited, nothing)
        (rw (Applied-deposits liability moved.given, Applied-deposits liability moved.taken)
          (omega int_laws))

-- Where the accounts have different ids and are covered and `liability` is right about the
-- chart, an internal transfer that goes through changes neither the sum of the members' balances
-- nor their deposits in the GL, and every account stays covered.
pub post_internal_transfer-conserves :
    (liability : Key → Bool) (r : Rounding) (ids : TransferIds) (p : TransferParams)
    (given : Decimal) (db db' : Db) (done : Transferred)
    → Unique account_key db.accounts
    → IsChart liability db.gl_accounts
    → All IsCovered db.accounts
    → post_internal_transfer r ids p given db ≡ ok (done, db')
    → (balances db' ≡ balances db)
      × (deposits liability db' ≡ deposits liability db)
      × All IsCovered db'.accounts
post_internal_transfer-conserves liability r ids p given db db' done u chart covered h =
    let (positive, outcome) = post_internal_transfer-outcome r ids p given db db' done h in
    elim outcome [
      | inl (_, same_db) ↦ rw same_db (refl, refl, covered)
      | inr moved ↦ (
        Moved-balances moved u,
        Moved-deposits moved liability chart,
        rw moved.written (
            Applied-IsCovered moved.given positive (Applied-Unique moved.taken u)
              (Applied-IsCovered moved.taken positive u covered)),
      )
    ]
