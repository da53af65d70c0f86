-- ===== src/Scenarios/Books.antt =====
-- The ledger at work in the sample society.
use beba_sacco_backend.Ledger.Transfer.{
  TransferIds, TransferParams, Transferred, post_internal_transfer,
}
use beba_sacco_backend.Ledger.Reversal.{is_transaction, reverse_transaction}
use beba_sacco_backend.Ledger.Books.Transfer.{post_internal_transfer-conserves}
use beba_sacco_backend.Ledger.Books.Reversal.{
  reverse_transaction-takes_back, reverse_transaction-parts_books, reverse_transaction-once,
}
use beba_sacco_backend.Ledger.Replay.{post_entry-replays}
use beba_sacco_backend.Scenarios.{value_of, state_of}
use beba_sacco_backend.Base.{
  max_ℤ, same_opt, if◌then◌else◌, All, int_laws, Result, find_first, same, count_where, rows_where,
  update_many, ◌+ℤ◌, round4, quotient, ◌≤ℤ◌, ◌-ℤ◌, leb_ℤ, pos, true, false, none, some, [], ◌∷◌,
  refl, ◌≡◌, ok, err, inr, exact, Unique, already_reversed,
}
use beba_sacco_backend.Store.{Db, Transaction, TransactionType, JournalEntry, JournalType, Posting}
use beba_sacco_backend.Ledger.Balance.{credit}
use beba_sacco_backend.Ledger.Balance.Laws.{IsCovered, account_key}
use beba_sacco_backend.Ledger.Books.{gap, IsChart, balances, deposits, posting_effect}
use beba_sacco_backend.Ledger.Books.Entry.{post_entry-gap, post_entry-IsCovered}
use beba_sacco_backend.Ledger.Entry.{
  NewIds, EntryParams, is_entry_of, Posted, post_entry, new_transaction, new_entry,
}
use beba_sacco_backend.Scenarios.{fosa, society, account, gl, is_liability}
use beba_sacco_backend.Scenarios.Round.{rounding}

abbrev deposit_ids : NewIds
deposit_ids = record { transaction = "t1"; entry = "e1" }

abbrev deposit_call : EntryParams
deposit_call = record {
  tenant = "sacco";
  reference = "R1";
  kind = JournalType.deposit;
  account = "a";
  amount = pos 300;
  direction = credit;
  actor = "clerk";
  linked = none;
  loan = none;
}

abbrev deposit_row : Transaction
deposit_row =
    new_transaction deposit_ids deposit_call TransactionType.deposit
      (record { balance_before = pos 1000; balance_after = pos 1300; account_type = fosa })

abbrev deposit_entry : JournalEntry
deposit_entry = new_entry deposit_ids deposit_call (gl "cash" 1000) (gl "deposits" 2300)

abbrev after_deposit : Db
after_deposit = record society {
  accounts =
      record (account "a" "ann") { balance = pos 1300; version = 1 } ∷ account "b" "ben" ∷ [];
  transactions = deposit_row ∷ [];
  entries = deposit_entry ∷ [];
}

abbrev deposited : Posted
deposited = record { transaction = deposit_row; entry = deposit_entry; replayed = false }

deposit_done :
    post_entry rounding deposit_ids deposit_call (exact (pos 300)) society
    ≡ ok (deposited, after_deposit)
unfolding post_entry find_first same count_where rows_where ◌+ℤ◌ update_many
deposit_done = refl

accounts-Unique : Unique account_key society.accounts
unfolding same
accounts-Unique = ((refl, tt), (tt, tt))

a-IsCovered : IsCovered (account "a" "ann")
unfolding ◌+ℤ◌
a-IsCovered = record { holds = omega int_laws; minimum = inr (omega int_laws) }

b-IsCovered : IsCovered (account "b" "ben")
unfolding ◌+ℤ◌
b-IsCovered = record { holds = omega int_laws; minimum = inr (omega int_laws) }

accounts-IsCovered : All IsCovered society.accounts
accounts-IsCovered = (a-IsCovered, (b-IsCovered, tt))

chart : IsChart is_liability society.gl_accounts
unfolding same
chart = (refl, (refl, (refl, (refl, tt))))

post_entry-gap_example : gap is_liability after_deposit ≡ gap is_liability society
post_entry-gap_example =
    post_entry-gap is_liability rounding deposit_ids deposit_call (exact (pos 300)) society
      after_deposit deposited accounts-Unique chart refl deposit_done

post_entry-IsCovered_example :
    Unique account_key after_deposit.accounts × All IsCovered after_deposit.accounts
post_entry-IsCovered_example =
    post_entry-IsCovered rounding deposit_ids deposit_call (exact (pos 300)) society after_deposit
      deposited accounts-Unique accounts-IsCovered deposit_done

no_entry_yet : find_first (is_entry_of "sacco" "t1") society.entries ≡ none
unfolding find_first
no_entry_yet = refl

positive : pos 1 ≤ℤ round4 rounding (exact (pos 999))
unfolding round4 quotient
positive = omega int_laws

-- The second call asks for another amount under the same reference.
post_entry-replays_example :
    post_entry rounding
      (record { transaction = "t2"; entry = "e2" })
      deposit_call
      (exact (pos 999))
      after_deposit
    ≡ ok (record deposited { replayed = true }, after_deposit)
post_entry-replays_example =
    post_entry-replays rounding deposit_ids (record { transaction = "t2"; entry = "e2" })
      deposit_call deposit_call (exact (pos 300)) (exact (pos 999)) society after_deposit deposited
      no_entry_yet deposit_done refl refl refl positive

abbrev transfer_ids : TransferIds
transfer_ids = record { source = "t3"; destination = "t4"; entry = "e3" }

abbrev transfer_call : TransferParams
transfer_call = record {
  tenant = "sacco";
  from_account = "a";
  to_account = "b";
  reference = "R3";
  actor = "clerk";
}

abbrev transfer_run : Result (Transferred × Db)
transfer_run = post_internal_transfer rounding transfer_ids transfer_call (exact (pos 200)) society

abbrev no_transfer : Transferred
no_transfer = record {
  source = deposit_row;
  destination = deposit_row;
  entry = deposit_entry;
  replayed = true;
}

transfer_done : transfer_run ≡ ok (value_of no_transfer transfer_run, state_of society transfer_run)
unfolding post_internal_transfer find_first same count_where rows_where ◌+ℤ◌ update_many max_ℤ
transfer_done = refl

post_internal_transfer-conserves_example :
    (balances (state_of society transfer_run) ≡ balances society)
    × (deposits is_liability (state_of society transfer_run) ≡ deposits is_liability society)
    × All IsCovered (state_of society transfer_run).accounts
post_internal_transfer-conserves_example =
    post_internal_transfer-conserves is_liability rounding transfer_ids transfer_call
      (exact (pos 200)) society (state_of society transfer_run) (value_of no_transfer transfer_run)
      accounts-Unique chart accounts-IsCovered transfer_done

abbrev reversal_ids : NewIds
reversal_ids = record { transaction = "t5"; entry = "e5" }

abbrev reversal_run : Result ((Transaction × JournalEntry) × Db)
reversal_run = reverse_transaction reversal_ids "sacco" "boss" "t1" after_deposit

abbrev no_reversal : Transaction × JournalEntry
no_reversal = (deposit_row, deposit_entry)

reversal_done : reversal_run ≡ ok (value_of no_reversal reversal_run, state_of society reversal_run)
unfolding reverse_transaction find_first same same_opt count_where rows_where ◌+ℤ◌ update_many max_ℤ
reversal_done = refl

after-Unique : Unique account_key after_deposit.accounts
unfolding same
after-Unique = ((refl, tt), (tt, tt))

reverse_transaction-once_example :
    reverse_transaction deposit_ids "sacco" "clerk" "t1" (state_of society reversal_run)
    ≡ err already_reversed
reverse_transaction-once_example =
    reverse_transaction-once reversal_ids deposit_ids "sacco" "boss" "clerk" "t1" after_deposit
      (state_of society reversal_run) (value_of no_reversal reversal_run) reversal_done

reverse_transaction-takes_back_example :
    (t : Transaction) × (e : JournalEntry) × (q : Posting) × (find_first
        (is_transaction "sacco" "t1")
        after_deposit.transactions
      ≡ some t)
    × (find_first (is_entry_of "sacco" t.id) after_deposit.entries ≡ some e)
    × (e.postings ≡ q ∷ [])
    × (deposits is_liability (state_of society reversal_run)
        ≡ deposits is_liability after_deposit -ℤ posting_effect is_liability q)
    × (balances (state_of society reversal_run) ≡ (
        if leb_ℤ t.balance_before t.balance_after
        then balances after_deposit -ℤ t.amount
        else balances after_deposit +ℤ t.amount))
reverse_transaction-takes_back_example =
    reverse_transaction-takes_back is_liability reversal_ids "sacco" "boss" "t1" after_deposit
      (state_of society reversal_run) (value_of no_reversal reversal_run) after-Unique reversal_done

-- The row of a repayment's principal, as a repayment of 40 writes it.
abbrev leg_row : Transaction
leg_row = record deposit_row {
  kind = TransactionType.loan_repayment;
  amount = pos 40;
  balance_after = pos 1000;
}

abbrev leg_posting : Posting
leg_posting = record { debit_account = "cash"; credit_account = "receivable"; amount = pos 40 }

abbrev leg_entry : JournalEntry
leg_entry = record deposit_entry { postings = leg_posting ∷ [] }

abbrev after_leg : Db
after_leg = record society { transactions = leg_row ∷ []; entries = leg_entry ∷ [] }

abbrev leg_run : Result ((Transaction × JournalEntry) × Db)
leg_run = reverse_transaction reversal_ids "sacco" "boss" "t1" after_leg

leg_done : leg_run ≡ ok (value_of no_reversal leg_run, state_of society leg_run)
unfolding reverse_transaction find_first same same_opt count_where rows_where ◌+ℤ◌ update_many max_ℤ
leg_done = refl

row_found : find_first (is_transaction "sacco" "t1") after_leg.transactions ≡ some leg_row
unfolding find_first is_transaction same
row_found = refl

entry_found : find_first (is_entry_of "sacco" "t1") after_leg.entries ≡ some leg_entry
unfolding find_first is_entry_of same
entry_found = refl

no_effect : posting_effect is_liability leg_posting ≡ pos 0
unfolding posting_effect same ◌-ℤ◌
no_effect = refl

reverse_transaction-parts_books_example :
    (balances (state_of society leg_run) ≡ balances after_leg -ℤ pos 40)
    × (deposits is_liability (state_of society leg_run) ≡ deposits is_liability after_leg)
reverse_transaction-parts_books_example =
    reverse_transaction-parts_books is_liability reversal_ids "sacco" "boss" "t1" after_leg
      (state_of society leg_run) (value_of no_reversal leg_run) leg_row leg_entry leg_posting
      accounts-Unique row_found refl entry_found refl no_effect leg_done
