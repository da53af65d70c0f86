-- ===== src/Base/Results.antt =====
-- A transaction body: it reads and writes the store and may throw. What was written is rolled back
-- by a throw, so a failure carries no store.
pub mod Inversion
pub mod Keeps
pub mod Runs
use mathlib.Core.Bool.{Bool, true, false}
use mathlib.Core.Option.{Option, none, some}

-- The exceptions that the program throws, by their reason.
pub data Error : Type 0 where
  not_found conflict insufficient_funds amount_not_positive no_type_mapping : Error
  unsupported_journal no_counterparty gl_not_configured same_account partial_transfer : Error
  no_linked_entry not_single_posting already_reversed : Error
  not_repayable invalid_amount : Error
  invalid_transition loan_id_required tenant_required : Error
  no_pending_slot already_signed : Error
  no_accepted_guarantors recovery_update_failed forfeiture_locked notice_too_early : Error
  duplicate_guarantor insufficient_coverage account_not_found hold_release_failed : Error
  no_savings too_few_guarantors no_phone too_many_guarantors above_limit gate_blocked : Error
  loan_payout_disabled ambiguous_payout duplicate_payout foreign_key : Error
  provider_unavailable no_evidence no_ledger_debit resend_blocked attempt_exists : Error
  no_action not_acknowledged guarantor_not_active kyc_not_verified : Error

pub data Result {ℓ} (A : Type ℓ) : Type ℓ where
  ok : A → Result A
  err : Error → Result A

abbrev pub M : Type 0 → Type 0 → Type 0
M S A = S → Result (A × S)

infixl 5 ◌>>=◌ ◌>>◌
abbrev pub ◌>>=◌ : {S A B : Type 0} → M S A → (A → M S B) → M S B
◌>>=◌ m f s = elim (m s) [ ok (a, s') ↦ f a s' | err e ↦ err e ]

abbrev pub ◌>>◌ : {S A B : Type 0} → M S A → M S B → M S B
m >> k = m >>= λ _. k

module _ {S : Type 0} where
  abbrev pub pure : {A : Type 0} → A → M S A
  pure a s = ok (a, s)

  abbrev pub throw : {A : Type 0} → Error → M S A
  throw e s = err e

  abbrev pub gets : {A : Type 0} → (S → A) → M S A
  gets f s = ok (f s, s)

  abbrev pub modify : (S → S) → M S (Unit {0})
  modify f s = ok (tt, f s)

  abbrev pub throw_if : Bool → Error → M S (Unit {0})
  throw_if true e s = err e
  throw_if false e s = ok (tt, s)

  abbrev pub or_throw : {A : Type 0} → Option A → Error → M S A
  or_throw none e s = err e
  or_throw (some a) e s = ok (a, s)
