-- ===== src/Recovery/Allocation.antt =====
-- `allocateRecovery` (src/modules/loans/loan-recovery.service.ts): how much each guarantor pays.
pub mod Laws
use beba_sacco_backend.Base.{
  if◌then◌else◌, ℤ, pos, ◌+ℤ◌, ◌-ℤ◌, min_ℤ, ltb_ℤ, leb_ℤ, eqb_ℤ, Key, same, Bool, true, false, ◌&&◌,
  ◌||◌, Option, none, some, List, [], ◌∷◌, total, or_else,
}
use beba_sacco_backend.Store.{Account, AccountType, Guarantor}
use beba_sacco_backend.Guarantors.{is_active_of}

-- The decimal library's chains of products and quotients, to four places: `scaled a b c` is
-- `a.times(b.div(c))`, and `share a b c` is `a.times(b).div(c)`.
pub record Division : Type 0 where
  pub scaled : ℤ → ℤ → ℤ → ℤ
  pub share : ℤ → ℤ → ℤ → ℤ

pub record Capacity : Type 0 where
  pub guarantor : Guarantor
  pub capacity : ℤ
  pub account : Option Account

-- `RecoveryAllocation`
pub record RecoveryItem : Type 0 where
  pub guarantor : Guarantor
  pub deduction : ℤ
  pub account : Option Account

-- A map made from rows keeps the last one of a key.
unfoldable pub find_last : (Account → Bool) → List Account → Option Account
find_last p [] = none
find_last p (a ∷ rest) = or_else (find_last p rest) (if p a then some a else none)

abbrev account_capacity : Option Account → ℤ
account_capacity none = pos 0
account_capacity (some a) = min_ℤ a.balance a.frozen_savings

module _ (division : Division) where
  -- What one guarantor can pay; `holds` is the sum of the guarantees.
  unfoldable pub capacity_of : Key → AccountType → ℤ → ℤ → List Account → Guarantor → Capacity
  unfolding find_last
  capacity_of tenant kind holds outstanding accounts g =
      let account = find_last (is_active_of tenant kind g.member) accounts in
      let open_guarantee = g.guaranteed_amount -ℤ g.recovered_amount in
      let guarantee =
        if ltb_ℤ (pos 0) holds && ltb_ℤ outstanding holds
        then division.scaled open_guarantee outstanding holds
        else open_guarantee in
      record {
        guarantor = g;
        capacity = min_ℤ guarantee (account_capacity account);
        account = account;
      }

  unfoldable pub capacities_of :
      Key → AccountType → ℤ → ℤ → List Account → List Guarantor → List Capacity
  unfolding capacity_of
  capacities_of tenant kind holds outstanding accounts [] = []
  capacities_of tenant kind holds outstanding accounts (g ∷ rest) =
      capacity_of tenant kind holds outstanding accounts g
      ∷ capacities_of tenant kind holds outstanding accounts rest

  abbrev pub is_skipped : ℤ → ℤ → Capacity → Bool
  is_skipped debt left item =
      eqb_ℤ debt (pos 0) || (eqb_ℤ left (pos 0) || leb_ℤ item.capacity (pos 0))

  -- The deduction of a guarantor who is not passed over.
  abbrev pub deduction_of : ℤ → ℤ → ℤ → ℤ
  deduction_of debt left capacity = min_ℤ capacity (min_ℤ (division.share debt capacity left) debt)

  -- The loop: `debt` is left to pay, and `left` is the capacity of the guarantors still to come.
  unfoldable pub spread : ℤ → ℤ → List Capacity → List RecoveryItem
  spread debt left [] = []
  spread debt left (item ∷ rest) = elim (is_skipped debt left item) [
    | true ↦
        record { guarantor = item.guarantor; deduction = pos 0; account = item.account }
        ∷ spread debt left rest
    | false ↦
        let deduction = deduction_of debt left item.capacity in
        record { guarantor = item.guarantor; deduction = deduction; account = item.account }
        ∷ spread (debt -ℤ deduction) (left -ℤ item.capacity) rest
  ]

  -- `allocateRecovery`
  unfoldable pub allocate_recovery :
      Key → List Guarantor → AccountType → ℤ → ℤ → List Account → List RecoveryItem
  unfolding capacities_of spread
  allocate_recovery tenant guarantors kind amount outstanding accounts =
      let holds = total (λ (g : Guarantor). g.guaranteed_amount) guarantors in
      let capacities = capacities_of tenant kind holds outstanding accounts guarantors in
      spread amount (total (λ (c : Capacity). c.capacity) capacities) capacities
