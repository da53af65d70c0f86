-- ===== src/ApprovalChain/Started.antt =====
-- A chain that was just set up (`initApprovalChain` in src/modules/fraud/approval-chain.service.ts).
use beba_sacco_backend.Base.{
  Key, true, false, Bool-cases, List, [], ◌∷◌, ◌++◌, ok, arith, ◌≡◌, refl, inl, inr, All,
  rows_where, count_where, length,
}
use beba_sacco_backend.ApprovalChain.{new_slot, Slot, Desk, is_of, init_approval_chain}

module _ (loan tenant : Key) where
  pub none_counted :
      (xs : List Slot)
      → count_where (is_of loan tenant) xs ≡ 0
      → All (λ c. is_of loan tenant c ≡ false) xs
  unfolding count_where
  none_counted [] h = tt
  none_counted (x ∷ xs) h = elim (Bool-cases (is_of loan tenant x)) [
    | inl e ↦ absurd (ground arith)
    | inr e ↦ (e, none_counted xs (ground arith))
  ]

  pub chain_of_two :
      (xs : List Slot) (a b : Slot)
      → All (λ c. is_of loan tenant c ≡ false) xs
      → is_of loan tenant a ≡ true
      → is_of loan tenant b ≡ true
      → length (rows_where (is_of loan tenant) (xs ++ a ∷ b ∷ [])) ≡ 2
  unfolding rows_where length
  chain_of_two [] a b n ha hb = rw (ha, hb) refl
  chain_of_two (x ∷ xs) a b n ha hb = rw n.0 (chain_of_two xs a b n.1 ha hb)

  pub init-slots :
      (first second : Key) (d d' : Desk) (u : Unit {0})
      → count_where (is_of loan tenant) d.slots ≡ 0
      → init_approval_chain first second loan tenant d ≡ ok (u, d')
      → d'.slots
        ≡ d.slots
          ++ new_slot first loan tenant "MANAGER" ∷ new_slot second loan tenant "TELLER" ∷ []
  unfolding init_approval_chain
  init-slots first second d d' u n h = ground (arith, n)
