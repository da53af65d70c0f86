-- ===== src/Idempotency/Repeats.antt =====
-- What a request is told that repeats an earlier one (src/common/services/idempotency.service.ts).
use beba_sacco_backend.Base.{
  ℕ, ◌+◌, ◌≤◌, ◌<◌, Bool, true, Key, truthy, none, some, ◌≡◌, ap, sym, arith, ◌∙◌, same,
}
use beba_sacco_backend.Cache.{Client, ClientLaws}
use beba_sacco_backend.Idempotency.{
  Saved, Codec, Answer, new, processing, completed, build_key, check_and_reserve, complete,
  answer_of, finished,
}
use beba_sacco_backend.Idempotency.Register.{reserve_free, reserve_held, set_up}

module _ {C R : Type 0} (client : Client C) (json : Codec R) (laws : ClientLaws client)
    (parse-print : (s : Saved R) → json.parse (json.print s) ≡ some s)
    (print_filled : (s : Saved R) → truthy (some (json.print s)) ≡ some (json.print s))
    (key tenant : Key) (ttl' : ℕ) (lives : 0 < ttl') where
  repeated :
      (now t ttl : ℕ) (c : C)
      → now ≤ t
      → t < now + ttl
      → (s : Saved R) (d : C) → client.answers d ≡ true
      → d ≡ client.setex (build_key key tenant) (json.print s) ttl now c
      → check_and_reserve client json key tenant ttl' t d ≡ (answer_of client json s, d)
  repeated now t ttl c after before s d still_up e =
      reserve_held client json laws parse-print print_filled key tenant ttl' t d still_up lives s (
        ap (client.read (build_key key tenant) t) e
        ∙ laws.read-setex (build_key key tenant) (json.print s) ttl now t c after before)

  -- A request whose key was reserved is told that the first one is being processed, within the
  -- lifetime of the reservation; and once the reserved request is completed, at any later time, a
  -- repetition is given the stored result, within the lifetime of the completion. Redis keeps its
  -- laws and answers each time, the JSON texts read back and are not empty, and the lifetime that the
  -- repeated request asks for is positive.
  pub check_and_reserve-repeats :
      (ttl now t : ℕ) (c : C)
      → client.answers c ≡ true
      → now ≤ t
      → t < now + ttl
      → (r : R) (d : C) (kept done t' : ℕ) → client.read (build_key key tenant) now c ≡ none
      → check_and_reserve client json key tenant ttl now c ≡ (new, d)
      → client.answers d ≡ true
      → now ≤ done
      → done ≤ t'
      → t' < done + kept
      → client.answers (complete client json key tenant r kept done d) ≡ true
      → (check_and_reserve client json key tenant ttl' t d ≡ (processing, d))
        × (check_and_reserve client json key tenant ttl' t'
              (complete client json key tenant r kept done d)
            ≡ (completed (some r), complete client json key tenant r kept done d))
  unfolding complete answer_of same
  check_and_reserve-repeats ttl now t c up after before r d kept done t' free run up' later since
        until up'' =
      (
        repeated now t ttl c after before (record { status = "PROCESSING"; result = none }) d up'
            (ap (λ (x : Answer R × C). x.1)
              (sym run
                ∙ reserve_free client json laws parse-print print_filled key tenant ttl now c up
                    (omega arith) free)),
        repeated done t' kept d since until (record { status = "COMPLETED"; result = some r })
            (complete client json key tenant r kept done d) up''
            (ap (λ (x : Bool × C). x.1)
              (set_up client json laws parse-print print_filled key tenant kept done d up'
                (omega (arith, since, until)) (finished client json r))),
      )
