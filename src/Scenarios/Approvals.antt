-- ===== src/Scenarios/Approvals.antt =====
-- Two people approve a large disbursement of the sample society.
use beba_sacco_backend.Base.{
  length, rows_where, same, find_first, some_row, update_many, all_rows, Bool, true, false, [],
  refl, ◌≡◌, ok, Unique, count_where, rows_where, length, same, Result,
}
use beba_sacco_backend.ApprovalChain.{Desk, is_of, init_approval_chain, sign_off, is_chain_approved}
use beba_sacco_backend.ApprovalChain.Laws.{slot_key, approver_of, done, sign, chain-four_eyes}
use beba_sacco_backend.Scenarios.{value_of, state_of}

abbrev no_chain : Desk
no_chain = record { slots = []; loans = [] }

abbrev with_chain : Desk
with_chain = state_of no_chain (init_approval_chain "s1" "s2" "loan" "sacco" no_chain)

abbrev manager_run : Result ((Bool × Bool) × Desk)
manager_run = sign_off "loan" "sacco" "mary" "MANAGER" true with_chain

abbrev teller_run : Result ((Bool × Bool) × Desk)
teller_run = sign_off "loan" "sacco" "tom" "TELLER" true (state_of no_chain manager_run)

chain_made : init_approval_chain "s1" "s2" "loan" "sacco" no_chain ≡ ok (tt, with_chain)
unfolding init_approval_chain count_where
chain_made = refl

manager_done : manager_run ≡ ok (value_of (false, false) manager_run, state_of no_chain manager_run)
unfolding sign_off init_approval_chain count_where length rows_where same find_first some_row
manager_done = refl

teller_done : teller_run ≡ ok (value_of (false, false) teller_run, state_of no_chain teller_run)
unfolding sign_off init_approval_chain count_where length rows_where same find_first some_row
    update_many
teller_done = refl

no_slot_yet : count_where (is_of "loan" "sacco") no_chain.slots ≡ 0
unfolding count_where
no_slot_yet = refl

slots-Unique : Unique slot_key with_chain.slots
unfolding init_approval_chain count_where same
slots-Unique = ((refl, tt), (tt, tt))

both_approved : is_chain_approved "loan" "sacco" (state_of no_chain teller_run) ≡ true
unfolding is_chain_approved sign_off init_approval_chain count_where length rows_where same
    find_first some_row update_many all_rows
both_approved = refl

chain-four_eyes_example :
    (length (rows_where (is_of "loan" "sacco") (state_of no_chain teller_run).slots) ≡ 2)
    × Unique approver_of (rows_where (is_of "loan" "sacco") (state_of no_chain teller_run).slots)
chain-four_eyes_example =
    chain-four_eyes "loan" "sacco" "s1" "s2" no_chain with_chain (state_of no_chain teller_run) tt
      no_slot_yet chain_made slots-Unique
      (sign "mary" "MANAGER" true (value_of (false, false) manager_run) manager_done
        (sign "tom" "TELLER" true (value_of (false, false) teller_run) teller_done done))
      both_approved
