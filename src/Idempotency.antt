-- ===== src/Idempotency.antt =====
-- `IdempotencyService` (src/common/services/idempotency.service.ts): a request with a key runs once,
-- and its repetitions are given its stored result.
pub mod Register
pub mod Repeats
use beba_sacco_backend.Base.{
  ℕ, if◌then◌else◌, Bool, true, false, Key, same, join, truthy, Option, none, some, ◌≡◌,
}
use beba_sacco_backend.Cache.{Client, get, set, set_if_absent, del}

-- The object that is kept as JSON: `{ status, result? }`.
pub record Saved (R : Type 0) : Type 0 where
  pub status : Key
  pub result : Option R

-- `JSON.stringify` and `JSON.parse`, which gives none where it throws.
pub record Codec (R : Type 0) : Type 0 where
  pub print : Saved R → Key
  pub parse : Key → Option (Saved R)

-- `IdempotencyResult`
pub data Answer (R : Type 0) : Type 0 where
  new : Answer R
  processing : Answer R
  completed : Option R → Answer R

-- `buildKey`
unfoldable pub build_key : Key → Key → Key
unfolding join
build_key key tenant = join "idempotency:" (join tenant (join ":" key))

module _ {C R : Type 0} (client : Client C) (json : Codec R) where
  abbrev pub reserved : Key
  reserved = json.print (record { status = "PROCESSING"; result = none })

  abbrev pub finished : R → Key
  finished r = json.print (record { status = "COMPLETED"; result = some r })

  unfoldable pub answer_of : Saved R → Answer R
  unfolding same
  answer_of s = if same s.status "COMPLETED" then completed s.result else processing

  -- A value that does not parse is written over.
  unfoldable pub answer_saved : Key → ℕ → ℕ → Option (Saved R) → C → Answer R × C
  unfolding answer_of
  answer_saved k ttl now none c = (new, (set client k reserved ttl now c).1)
  answer_saved k ttl now (some s) c = (answer_of s, c)

  unfoldable pub answer_raw : Key → ℕ → ℕ → Option Key → C → Answer R × C
  unfolding answer_saved
  answer_raw k ttl now none c = (new, c)
  answer_raw k ttl now (some raw) c = answer_saved k ttl now (json.parse raw) c

  unfoldable pub reserve_or_read : Key → ℕ → ℕ → Bool × C → Answer R × C
  unfolding answer_raw
  reserve_or_read k ttl now (true, c) = (new, c)
  reserve_or_read k ttl now (false, c) = answer_raw k ttl now (truthy (get client k now c)) c

  unfoldable pub check_and_reserve : Key → Key → ℕ → ℕ → C → Answer R × C
  unfolding reserve_or_read build_key
  check_and_reserve key tenant ttl now c =
      reserve_or_read (build_key key tenant) ttl now
        (set_if_absent client (build_key key tenant) reserved ttl now c)

  unfoldable pub acquire : Key → Key → ℕ → ℕ → C → Bool × C
  unfolding build_key
  acquire key tenant ttl now c = set_if_absent client (build_key key tenant) reserved ttl now c

  abbrev pub result_of : Option (Saved R) → Option R
  result_of none = none
  result_of (some s) = if same s.status "COMPLETED" then s.result else none

  abbrev pub stored_result : Option Key → Option R
  stored_result none = none
  stored_result (some raw) = result_of (json.parse raw)

  unfoldable pub get_result : Key → Key → ℕ → C → Option R
  unfolding build_key
  get_result key tenant now c = stored_result (truthy (get client (build_key key tenant) now c))

  -- `complete`, which `storeResult` calls
  unfoldable pub complete : Key → Key → R → ℕ → ℕ → C → C
  unfolding build_key
  complete key tenant r ttl now c = (set client (build_key key tenant) (finished r) ttl now c).1

  unfoldable pub release : Key → Key → C → C
  unfolding build_key
  release key tenant c = del client (build_key key tenant) c

  abbrev is_some : Option Key → Bool
  is_some none = false
  is_some (some raw) = true

  unfoldable pub exists : Key → Key → ℕ → C → Bool
  unfolding build_key
  exists key tenant now c = is_some (get client (build_key key tenant) now c)
