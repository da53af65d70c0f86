-- ===== src/Scenarios/Redis.antt =====
-- A Redis client: a list of keys with their values and the times at which they expire.
use beba_sacco_backend.Base.{
  same→≡, ap, subst, ℕ, ◌+◌, ◌≤◌, ltb, if◌then◌else◌, Bool-cases, Bool, true, false, Key, same,
  same_refl, Option, none, some, List, [], ◌∷◌, ◌≡◌, refl, inl, inr, arith,
}
use beba_sacco_backend.Cache.{Client, ClientLaws}

pub record Stored : Type 0 where
  pub key : Key
  pub value : Key
  pub expires : ℕ

abbrev live : ℕ → Stored → Option Key
live t s = if ltb t s.expires then some s.value else none

unfoldable pub read : Key → ℕ → List Stored → Option Key
read k t [] = none
read k t (s ∷ more) = let rest = read k t more in if same k s.key then live t s else rest

unfoldable pub delete : Key → List Stored → List Stored
delete k [] = []
delete k (s ∷ more) = let rest = delete k more in if same k s.key then rest else s ∷ rest

abbrev setex : Key → Key → ℕ → ℕ → List Stored → List Stored
setex k v ttl now c = record { key = k; value = v; expires = now + ttl } ∷ c

abbrev unless_held : Key → Key → ℕ → ℕ → List Stored → Option Key → Bool × List Stored
unless_held k v ttl now c none = (true, setex k v ttl now c)
unless_held k v ttl now c (some u) = (false, c)

abbrev set_nx : Key → Key → ℕ → ℕ → List Stored → Bool × List Stored
set_nx k v ttl now c = unless_held k v ttl now c (read k now c)

-- A key without a lifetime is kept for a very long time.
abbrev put : Key → Key → List Stored → List Stored
put k v c = record { key = k; value = v; expires = 1000000000000 } ∷ c

abbrev pub redis : Client (List Stored)
redis = record {
  answers = λ c. true;
  read = read;
  setex = setex;
  set_nx = set_nx;
  put = put;
  delete = delete;
}

read-delete : (k : Key) (t : ℕ) (c : List Stored) → read k t (delete k c) ≡ none
unfolding read delete
read-delete k t [] = refl
read-delete k t (s ∷ more) = elim (Bool-cases (same k s.key)) [
  | inl e ↦ rw e (read-delete k t more)
  | inr e ↦ rw (e, e) (read-delete k t more)
]

read-delete_other :
    (j k : Key) (t : ℕ) (c : List Stored) → same j k ≡ false → read j t (delete k c) ≡ read j t c
unfolding read delete
read-delete_other j k t [] d = refl
read-delete_other j k t (s ∷ more) d = elim (Bool-cases (same k s.key)) [
  | inl e ↦
      rw (e, subst (λ x. same j x ≡ false) (same→≡ k s.key e) d) (read-delete_other j k t more d)
  | inr e ↦ rw (e, read-delete_other j k t more d) refl
]

read_earlier :
    (k v : Key) (now t : ℕ) (c : List Stored)
    → now ≤ t
    → read k t c ≡ some v
    → read k now c ≡ some v
unfolding read
read_earlier k v now t [] later h = absurd (ground arith)
read_earlier k v now t (s ∷ more) later h = elim (Bool-cases (same k s.key)) [
  | inl e ↦ rw e (ground arith)
  | inr e ↦ rw e (read_earlier k v now t more later (ground arith))
]

pub redis_laws : ClientLaws redis
unfolding read
redis_laws = record {
  read-setex = λ k v ttl now t c after before. rw (same_refl k) (ground arith);
  read-setex_expired = λ k v ttl now t c after. rw (same_refl k) (ground arith);
  read-setex_other = λ j k v ttl now t c d. rw d refl;
  set_nx_free = λ k v ttl now c free. ap (unless_held k v ttl now c) free;
  set_nx_held = λ k v u ttl now c held. ap (unless_held k v ttl now c) held;
  read_earlier = read_earlier;
  read-delete = read-delete;
  read-delete_other = read-delete_other;
}
