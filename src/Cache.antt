-- ===== src/Cache.antt =====
-- The wrapper of the Redis client (src/common/services/redis.service.ts): values with an expiry and
-- the locks made of them.
pub mod Locks
pub mod Lifetimes
use beba_sacco_backend.Base.{
  ℕ, ◌+◌, ◌≤◌, ◌<◌, if◌then◌else◌, Bool, true, false, Key, same, Option, none, some, ◌≡◌, ◌==◌,
}

-- What the code takes from Redis, with the answer to `SET key value EX seconds NX` and to the other
-- commands, `put` being `SET key value`; `answers` is false where a command throws. Times are in seconds.
pub record Client (C : Type 0) : Type 0 where
  pub answers : C → Bool
  pub read : Key → ℕ → C → Option Key
  pub setex : Key → Key → ℕ → ℕ → C → C
  pub set_nx : Key → Key → ℕ → ℕ → C → Bool × C
  pub put : Key → Key → C → C
  pub delete : Key → C → C

-- What Redis promises of these commands: the arguments of `setex` and `set_nx` are the key, the
-- value, the seconds and the time.
pub record ClientLaws {C : Type 0} (client : Client C) : Type 0 where
  pub read-setex :
      (k v : Key) (ttl now t : ℕ) (c : C)
      → now ≤ t
      → t < now + ttl
      → client.read k t (client.setex k v ttl now c) ≡ some v
  pub read-setex_expired :
      (k v : Key) (ttl now t : ℕ) (c : C)
      → now + ttl ≤ t
      → client.read k t (client.setex k v ttl now c) ≡ none
  pub read-setex_other :
      (j k v : Key) (ttl now t : ℕ) (c : C)
      → same j k ≡ false
      → client.read j t (client.setex k v ttl now c) ≡ client.read j t c
  pub read_earlier :
      (k v : Key) (now t : ℕ) (c : C)
      → now ≤ t
      → client.read k t c ≡ some v
      → client.read k now c ≡ some v
  pub set_nx_free :
      (k v : Key) (ttl now : ℕ) (c : C)
      → client.read k now c ≡ none
      → client.set_nx k v ttl now c ≡ (true, client.setex k v ttl now c)
  pub set_nx_held :
      (k v u : Key) (ttl now : ℕ) (c : C)
      → client.read k now c ≡ some u
      → client.set_nx k v ttl now c ≡ (false, c)
  pub read-delete : (k : Key) (t : ℕ) (c : C) → client.read k t (client.delete k c) ≡ none
  pub read-delete_other :
      (j k : Key) (t : ℕ) (c : C)
      → same j k ≡ false
      → client.read j t (client.delete k c) ≡ client.read j t c

pub data Consumption : Type 0 where
  consumed missing mismatch : Consumption

module _ {C : Type 0} (client : Client C) where
  unfoldable pub get : Key → ℕ → C → Option Key
  get k now c = if client.answers c then client.read k now c else none

  -- `set` with a lifetime, not zero, and without `nx`
  unfoldable pub set : Key → Key → ℕ → ℕ → C → Bool × C
  set k v ttl now c = if client.answers c then (true, client.setex k v ttl now c) else (false, c)

  -- `set` with `nx`, for a key that is given no lifetime of its own: with a lifetime of zero it is
  -- a plain `SET`, whoever holds the key.
  unfoldable pub set_if_absent : Key → Key → ℕ → ℕ → C → Bool × C
  set_if_absent k v ttl now c =
      if client.answers c
      then if ttl == 0 then (true, client.put k v c) else client.set_nx k v ttl now c
      else (false, c)

  unfoldable pub del : Key → C → C
  del k c = if client.answers c then client.delete k c else c

  -- The script of `consumeIfValue`, which runs as one command.
  abbrev consume_script : Key → Key → Option Key → C → Consumption × C
  consume_script k expected none c = (missing, c)
  consume_script k expected (some v) c =
      if same v expected then (consumed, client.delete k c) else (mismatch, c)

  unfoldable pub consume_if_value : Key → Key → ℕ → C → Consumption × C
  consume_if_value k expected now c =
      if client.answers c then consume_script k expected (client.read k now c) c else (missing, c)

  abbrev pub token_if : Key → Bool × C → Option Key × C
  token_if token (true, c) = (some token, c)
  token_if token (false, c) = (none, c)

  -- `acquireLock`; the token is random.
  unfoldable pub acquire_lock : Key → Key → ℕ → ℕ → C → Option Key × C
  unfolding set_if_absent
  acquire_lock k token ttl now c = token_if token (set_if_absent k token ttl now c)

  unfoldable pub release_lock : Key → Key → ℕ → C → C
  unfolding consume_if_value
  release_lock k token now c = (consume_if_value k token now c).1
