-- ===== src/Cache/Locks.antt =====
-- A lock has one holder until it is released by its token or expires.
use beba_sacco_backend.Base.{
  arith, ℕ, ◌+◌, ◌≤◌, ◌<◌, if◌then◌else◌, Bool-cases, Option-cases, Bool, true, false, Key, same,
  same_refl, Option, none, some, ◌≡◌, refl, sym, ap, ◌∙◌, inl, inr,
}
use beba_sacco_backend.Cache.Lifetimes.{set_if_absent-lasting}
use beba_sacco_backend.Cache.{
  Client, ClientLaws, acquire_lock, release_lock, token_if, set_if_absent, consume_if_value,
}

true_is_not : true ≡ false → ⊥
true_is_not e = cc

none_is_not : {A : Type 0} {a : A} → ◌≡◌ {A = Option A} none (some a) → ⊥
none_is_not e = cc

module _ {C : Type 0} (client : Client C) (laws : ClientLaws client) where
  token_if-some :
      (token other : Key) (r : Bool × C) (d : C)
      → token_if client token r ≡ (some other, d)
      → r ≡ (true, d)
  token_if-some token other (true, c) d e = ap (λ x. (true, x)) (ap (λ x. x.1) e)
  token_if-some token other (false, c) d e = absurd (none_is_not (ap (λ x. x.0) e))

  token_if-refused :
      (token : Key) (r : Bool × C) (d : C) → r ≡ (false, d) → token_if client token r ≡ (none, d)
  token_if-refused token r d e = ap (token_if client token) e

  attempt :
      (k token : Key) (ttl now : ℕ) (c : C) (r : Bool × C)
      → 0 < ttl
      → client.answers c ≡ true
      → client.set_nx k token ttl now c ≡ r
      → set_if_absent client k token ttl now c ≡ r
  attempt k token ttl now c r lives up e =
      set_if_absent-lasting client k token ttl now c lives
      ∙ ap (λ b. if b then client.set_nx k token ttl now c else (false, c)) up
      ∙ e

  down_attempt :
      (k token : Key) (ttl now : ℕ) (c : C)
      → client.answers c ≡ false
      → set_if_absent client k token ttl now c ≡ (false, c)
  unfolding set_if_absent
  down_attempt k token ttl now c down = rw (set_if_absent, down) refl

  -- What a lock that was taken has done to the cache.
  taken :
      (k token other : Key) (ttl now : ℕ) (c d : C)
      → 0 < ttl
      → acquire_lock client k token ttl now c ≡ (some other, d)
      → d ≡ client.setex k token ttl now c
  unfolding acquire_lock
  taken k token other ttl now c d lives e =
      let won = token_if-some token other (set_if_absent client k token ttl now c) d e in
      elim (Bool-cases (client.answers c)) [
        | inl up ↦ elim (Option-cases (client.read k now c)) [
          | inl free ↦
              ap (λ x. x.1)
                (sym won
                  ∙ attempt k token ttl now c _ lives up (laws.set_nx_free k token ttl now c free))
          | inr (u, held) ↦ absurd (
              true_is_not (
                ap (λ x. x.0)
                  (sym won
                    ∙ attempt k token ttl now c _ lives up
                        (laws.set_nx_held k token u ttl now c held))))
        ]
        | inr down ↦
            absurd (true_is_not (ap (λ x. x.0) (sym won ∙ down_attempt k token ttl now c down)))
      ]

  refused :
      (k token other : Key) (ttl' t : ℕ) (d : C)
      → 0 < ttl'
      → client.read k t d ≡ some token
      → acquire_lock client k other ttl' t d ≡ (none, d)
  unfolding acquire_lock
  refused k token other ttl' t d lives held = elim (Bool-cases (client.answers d)) [
    | inl up ↦
        token_if-refused other _ d
          (attempt k other ttl' t d _ lives up (laws.set_nx_held k other token ttl' t d held))
    | inr down ↦ token_if-refused other _ d (down_attempt k other ttl' t d down)
  ]

  kept :
      (k token other : Key) (t : ℕ) (d : C)
      → client.read k t d ≡ some token
      → same token other ≡ false
      → release_lock client k other t d ≡ d
  unfolding release_lock consume_if_value
  kept k token other t d held differs = elim (Bool-cases (client.answers d)) [
    | inl up ↦ rw (release_lock, up, held, differs) refl
    | inr down ↦ rw (release_lock, down) refl
  ]

  freed :
      (k token : Key) (t : ℕ) (d : C)
      → client.answers d ≡ true
      → client.read k t d ≡ some token
      → client.read k t (release_lock client k token t d) ≡ none
  unfolding release_lock consume_if_value
  freed k token t d up held = rw (release_lock, up, held, same_refl token) (laws.read-delete k t d)

  -- While a lock that was taken for some seconds has not expired, another caller does not get it; a
  -- release with another token leaves it; and a release with its own token frees it. Redis keeps its
  -- laws and answers after the lock was taken, and the other caller asks for a lifetime that is not
  -- zero.
  pub acquire_lock-excludes :
      (k token other : Key) (ttl ttl' now t : ℕ) (c d : C)
      → acquire_lock client k token ttl now c ≡ (some token, d)
      → 0 < ttl'
      → now ≤ t
      → t < now + ttl
      → same token other ≡ false
      → client.answers d ≡ true
      → (acquire_lock client k other ttl' t d ≡ (none, d))
        × (release_lock client k other t d ≡ d)
        × (client.read k t (release_lock client k token t d) ≡ none)
  acquire_lock-excludes k token other ttl ttl' now t c d e lives after before differs up =
      let held : client.read k t d ≡ some token =
        ap (client.read k t) (taken k token token ttl now c d (omega (arith, after, before)) e)
        ∙ laws.read-setex k token ttl now t c after before in
      (
        refused k token other ttl' t d lives held,
        kept k token other t d held differs,
        freed k token t d up held,
      )
