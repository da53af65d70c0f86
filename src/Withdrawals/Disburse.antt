-- ===== src/Withdrawals/Disburse.antt =====
-- The payout of a withdrawal up to the request: `executeB2cDisbursement` and
-- `executeMwaloniMobilePayout` of src/modules/mpesa/mpesa.service.ts.
use beba_sacco_backend.Withdrawals.Payout.{Payout, Sent, local_created, is_local, sent_as, submit}
use beba_sacco_backend.Base.{
  ◌+◌, Key, same, same_opt, join, Bool, true, false, ◌||◌, if◌then◌else◌, Option, none, some, [],
  ◌∷◌, ◌++◌, M, err, Error, ◌>>=◌, ◌>>◌, gets, modify, throw_if, find_first, some_row, truthy,
}
use beba_sacco_backend.Store.{Db, Account, MpesaTransaction, TransactionStatus}
use beba_sacco_backend.Withdrawals.{Site, is_open, fosa_withdrawal}
use beba_sacco_backend.Withdrawals.Provider.{mark_outcome_unknown}
use beba_sacco_backend.Withdrawals.Steps.{Step, committed, then_do, give}
use beba_sacco_backend.Withdrawals.Run.{refresh_status}

-- `buildMwaloniOrderNumber`
unfoldable pub build_order : Payout → Option Key → Key
unfolding join
build_order p none = join "MWD-" (join p.reference_id (join "-" p.time_text))
build_order p (some source) = join "MWD-" source

abbrev pub reference_of : Key → Key
reference_of order = join "B2C-" order

abbrev pub is_reference : Key → MpesaTransaction → Bool
is_reference reference m = same m.reference reference

abbrev pub is_source : Key → MpesaTransaction → Bool
is_source source m = same_opt m.transaction source

abbrev pub has_source : Option Key → MpesaTransaction → Bool
has_source none m = false
has_source (some source) m = is_source source m

-- The keys of a row: `id`, and the columns under `@unique`
abbrev pub clashes : Key → Option Key → Key → MpesaTransaction → Bool
clashes id source order m =
    same m.id id
    || (has_source source m
        || (same_opt m.conversation order || same m.reference (reference_of order)))

abbrev pub new_payout : Payout → Option Key → Key → MpesaTransaction
new_payout p source order = record {
  id = p.row;
  tenant = p.tenant;
  transaction = source;
  loan = none;
  status = TransactionStatus.pending;
  receipt = none;
  is_b2c = true;
  reference_type = some fosa_withdrawal;
  phone = p.phone;
  amount = p.amount;
  conversation = some order;
  reference = reference_of order;
  submission = some local_created;
  sent_at = none;
  checked_at = none;
  failure_reason = none;
  created_at = p.run.now;
  due_at = some (p.run.now + 1800000);
  attempt_count = 0;
  next_retry = none;
  locked_at = none;
  locked_by = none;
  review_required = false;
  review_reason = none;
  last_reason = none;
}

unfoldable pub create_payout : Payout → Option Key → Key → M Db (Unit {0})
unfolding some_row join
create_payout p source order = do
  taken ← gets (λ (db : Db). some_row (clashes p.row source order) db.mpesa)
  throw_if taken Error.duplicate_payout
  modify (λ (db : Db). record db { mpesa = db.mpesa ++ new_payout p source order ∷ [] })

unfoldable pub pay_known : Site → Payout → Key → MpesaTransaction → Step Sent
unfolding submit refresh_status
pay_known site p order m =
    if is_local m
    then submit site p.run m.id order
    else then_do (if is_open m.status then refresh_known else give tt)
        (λ _. give (sent_as order m.id))
  where
    refresh_known : Step (Unit {0})
    refresh_known = then_do (refresh_status site p.run m.id) (λ _. give tt)

unfoldable pub pay_order : Site → Payout → Option Key → Key → Option MpesaTransaction → Step Sent
unfolding pay_known create_payout submit
pay_order site p source order (some m) = pay_known site p order m
pay_order site p source order none =
    then_do (committed (create_payout p source order))
      (λ _. then_do (submit site p.run p.row order) (λ _. give (sent_as order p.row)))

-- `executeMwaloniMobilePayout`
unfoldable pub pay_mobile : Site → Payout → Option Key → Step Sent
unfolding pay_order build_order
pay_mobile site p source =
    then_do
      (committed (
        gets
          (λ (db : Db). find_first (is_reference (reference_of (build_order p source))) db.mpesa)))
      (pay_order site p source (build_order p source))

abbrev pub fail_with : {A : Type 0} → Error → Step A
fail_with e db = (err e, db)

abbrev pub is_ambiguous : MpesaTransaction → Bool
is_ambiguous m =
    same_opt m.submission "PROVIDER_SEND_ATTEMPTED"
    || same_opt m.submission "PROVIDER_OUTCOME_UNKNOWN"

unfoldable pub settle_known : Site → Payout → MpesaTransaction → Key → Step Sent
unfolding submit mark_outcome_unknown
settle_known site p m conversation =
    if is_local m
    then if site.provider_enabled
      then submit site p.run m.id conversation
      else fail_with Error.provider_unavailable
    else then_do
        (if is_ambiguous m then committed (mark_outcome_unknown m.id p.run.now) else give tt)
        (λ _. give (sent_as conversation m.id))

unfoldable pub pay_enabled : Site → Payout → Option Key → Step Sent
unfolding pay_mobile
pay_enabled site p source =
    if site.provider_enabled then pay_mobile site p source else fail_with Error.provider_unavailable

unfoldable pub pay_conversation : Site → Payout → MpesaTransaction → Option Key → Step Sent
unfolding settle_known
pay_conversation site p m none = fail_with Error.ambiguous_payout
pay_conversation site p m (some conversation) = settle_known site p m conversation

unfoldable pub pay_found : Site → Payout → Option Key → Option MpesaTransaction → Step Sent
unfolding pay_conversation pay_enabled truthy
pay_found site p source none = pay_enabled site p source
pay_found site p source (some m) = pay_conversation site p m (truthy m.conversation)

unfoldable pub pay_source : Site → Payout → Option Key → Step Sent
unfolding pay_found pay_enabled
pay_source site p none = pay_enabled site p none
pay_source site p (some source) =
    then_do (committed (gets (λ (db : Db). find_first (is_source source) db.mpesa)))
      (pay_found site p (some source))

unfoldable pub pay_account : Site → Payout → Option Account → Step Sent
unfolding pay_source
pay_account site p none = fail_with Error.not_found
pay_account site p (some account) = pay_source site p (truthy p.source)

-- `executeB2cDisbursement`
unfoldable pub execute : Site → Payout → Step Sent
unfolding pay_account
execute site p =
    if p.for_withdrawal
    then then_do
        (committed
          (gets (λ (db : Db). find_first (λ (a : Account). same a.id p.reference_id) db.accounts)))
        (pay_account site p)
    else fail_with Error.loan_payout_disabled
