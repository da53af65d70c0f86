-- ===== src/AuditChain/Laws.antt =====
-- A chain that only `persistEvent` has written verifies.
use Prim.Native.String.{count}
use beba_sacco_backend.Base.Tables.Laws.{
  find_first-append_new, find_first-update_many, find_first_passes,
}
use beba_sacco_backend.Base.Tables.Selections.{
  rows_where-append, rows_where-append_other, find_first-append_other, find_first-update_others,
  All-rows_where, some_row-find_first, some_row-find_none,
}
use beba_sacco_backend.Base.Sorting.{sort-last}
use beba_sacco_backend.AuditChain.Hashing.{
  Runtime, AuditPayload, AuditEvent, hashed_text, sign, verify_signature,
}
use beba_sacco_backend.Base.{
  or_throw, not_found, ◌>>=◌, ◌∙◌, same→≡, ℕ, Bool-cases, true, false, Key, same, same_refl, truthy,
  Option, none, some, List, [], ◌∷◌, ◌++◌, ◌≡◌, refl, ap, sym, inl, inr, arith, ok, All, find_first,
  rows_where, some_row, update_many, sort,
}
use beba_sacco_backend.AuditChain.{
  ChainHead, AuditDb, genesis_hash, or_genesis, valid, is_head_of, is_event_of, with_head,
  lock_chain_head, advance_head, has_hash, write_event, new_event, insert_event, time_of,
  persist_event, event_before, row_holds, check_rows, tenant_chain, verify_tenant_chain,
}

abbrev pub followed : Option ChainHead → Key
followed none = genesis_hash
followed (some h) = or_genesis (truthy (some h.last_hash))

-- The hash that the next event of a tenant follows.
abbrev pub head_hash : Key → List ChainHead → Key
head_hash tenant heads = followed (find_first (is_head_of tenant) heads)

unfoldable pub last_hash_of : Key → List AuditEvent → Key
last_hash_of previous [] = previous
last_hash_of previous (e ∷ more) = last_hash_of e.event_hash more

head_locked :
    (tenant : Key) (heads : List ChainHead)
    → (h : ChainHead) × (find_first (is_head_of tenant) (with_head tenant heads) ≡ some h)
      × (or_genesis (truthy (some h.last_hash)) ≡ head_hash tenant heads)
unfolding truthy same
head_locked tenant heads = elim (Bool-cases (some_row (is_head_of tenant) heads)) [
  | inl e ↦
      let (h, found) = some_row-find_first (is_head_of tenant) heads e in
      rw e (h, found, ap followed (sym found))
  | inr e ↦ rw e (
    record { tenant = tenant; last_hash = genesis_hash; sequence = 0 },
    find_first-append_new (is_head_of tenant) heads _
        (some_row-find_none (is_head_of tenant) heads e) (same_refl tenant),
    rw (some_row-find_none (is_head_of tenant) heads e) refl,
  )
]

other_key : (a b c : Key) → same a b ≡ true → same b c ≡ false → same a c ≡ false
other_key a b c h d = rw (same→≡ a b h) d

others_locked :
    (t tenant : Key) (heads : List ChainHead)
    → same tenant t ≡ false
    → find_first (is_head_of t) (with_head tenant heads) ≡ find_first (is_head_of t) heads
others_locked t tenant heads d = elim (Bool-cases (some_row (is_head_of tenant) heads)) [
  | inl e ↦ rw e refl
  | inr e ↦ rw e (find_first-append_other (is_head_of t) heads _ d)
]

module _ (js : Runtime) (hmac_secret : Option Key) where
  check_rows-last :
      (previous : Key) (xs : List AuditEvent) (e : AuditEvent)
      → check_rows js hmac_secret previous xs ≡ valid
      → row_holds js hmac_secret (last_hash_of previous xs) e ≡ true
      → check_rows js hmac_secret previous (xs ++ e ∷ []) ≡ valid
  unfolding check_rows last_hash_of
  check_rows-last previous [] e v h = rw h refl
  check_rows-last previous (x ∷ xs) e v h =
      elim (Bool-cases (row_holds js hmac_secret previous x)) [
        | inl f ↦ rw f (check_rows-last x.event_hash xs e (ground arith) h)
        | inr f ↦ absurd (ground arith)
      ]

  last_hash_of-last :
      (previous : Key) (xs : List AuditEvent) (e : AuditEvent)
      → last_hash_of previous (xs ++ e ∷ []) ≡ e.event_hash
  unfolding last_hash_of
  last_hash_of-last previous [] e = refl
  last_hash_of-last previous (x ∷ xs) e = last_hash_of-last x.event_hash xs e

  new_event_holds :
      (id : Key) (timestamp : ℕ) (p : AuditPayload) (previous : Key)
      → row_holds js hmac_secret previous (new_event js hmac_secret id timestamp p previous) ≡ true
  unfolding row_holds new_event verify_signature
  new_event_holds id timestamp p previous =
      rw
        (
          same_refl previous,
          same_refl (js.digest (hashed_text js hmac_secret previous p timestamp)),
          same_refl (
              js.hex_bytes (
                sign js hmac_secret p.tenant
                  (js.digest (hashed_text js hmac_secret previous p timestamp)))),
        )
        refl

  -- A tenant's chain verifies, and the tenant's next event will follow its last event.
  abbrev pub Intact : Key → AuditDb → Type 0
  Intact tenant db =
      (verify_tenant_chain js hmac_secret tenant db ≡ valid)
      × (last_hash_of genesis_hash (tenant_chain js hmac_secret tenant db)
          ≡ head_hash tenant db.heads)

  -- The event that `persistEvent` writes, and the tables after it.
  abbrev pub next_event : Key → ℕ → AuditPayload → AuditDb → AuditEvent
  next_event id timestamp p db =
      new_event js hmac_secret id timestamp p (head_hash p.tenant db.heads)

  abbrev pub advanced : Key → AuditEvent → ChainHead → List ChainHead → List ChainHead
  advanced tenant e head heads =
      update_many (is_head_of tenant) (advance_head head e.event_hash) (with_head tenant heads)

  pub persisted :
      (id : Key) (now : ℕ) (timestamp : Option ℕ) (p : AuditPayload) (db : AuditDb)
      → some_row
          (has_hash p.tenant (next_event id (time_of timestamp now) p db).event_hash)
          db.events
        ≡ false
      → (head : ChainHead) × (find_first (is_head_of p.tenant) (with_head p.tenant db.heads)
          ≡ some head)
        × (persist_event js hmac_secret id now timestamp p db
            ≡ ok (
              (next_event id (time_of timestamp now) p db).event_hash,
              record {
                heads =
                    advanced p.tenant (next_event id (time_of timestamp now) p db) head db.heads;
                events = db.events ++ next_event id (time_of timestamp now) p db ∷ [];
              },
            ))
  unfolding persist_event lock_chain_head insert_event
  persisted id now timestamp p db fresh =
      let (head, found, follows) = head_locked p.tenant db.heads in
      (
        head,
        found,
        ap
              (λ (o : Option ChainHead).
                (or_throw o not_found >>= λ h.
                write_event js hmac_secret id (time_of timestamp now) p h)
                  (record db { heads = with_head p.tenant db.heads }))
              found
            ∙ rw (follows, fresh) refl,
      )

  module _ (digest_length : (text : Key) → count (js.digest text) ≡ 64) where
    event_hash_kept : (text : Key) → or_genesis (truthy (some (js.digest text))) ≡ js.digest text
    unfolding truthy
    event_hash_kept text = elim (Bool-cases (same (js.digest text) "")) [
      | inl e ↦ absurd (omega (arith, digest_length text, ap count (same→≡ (js.digest text) "" e)))
      | inr e ↦ rw e refl
    ]

    module _ (id : Key) (t : ℕ) (p : AuditPayload) (db : AuditDb) (head : ChainHead)
        (found : find_first (is_head_of p.tenant) (with_head p.tenant db.heads) ≡ some head) where
      abbrev pub after : AuditDb
      after = record {
        heads = advanced p.tenant (next_event id t p db) head db.heads;
        events = db.events ++ next_event id t p db ∷ [];
      }

      own_head : head_hash p.tenant after.heads ≡ (next_event id t p db).event_hash
      unfolding new_event
      own_head =
          ap followed (
            find_first-update_many (is_head_of p.tenant) (is_head_of p.tenant)
              (advance_head head (next_event id t p db).event_hash) (λ h. refl)
              (with_head p.tenant db.heads) found)
          ∙ rw (find_first_passes (is_head_of p.tenant) (with_head p.tenant db.heads) found)
              (event_hash_kept (hashed_text js hmac_secret (head_hash p.tenant db.heads) p t))

      other_head :
          (tenant : Key)
          → same p.tenant tenant ≡ false
          → head_hash tenant after.heads ≡ head_hash tenant db.heads
      other_head tenant d = ap followed (
          find_first-update_others (is_head_of tenant) (is_head_of p.tenant)
            (advance_head head (next_event id t p db).event_hash)
            (λ h mine. (
              other_key h.tenant p.tenant tenant mine d,
              other_key h.tenant p.tenant tenant mine d,
            ))
            (with_head p.tenant db.heads)
          ∙ others_locked tenant p.tenant db.heads d)

      own_chain :
          All
            (λ e.
              is_event_of p.tenant e ≡ true
              → event_before js hmac_secret e (next_event id t p db) ≡ true)
            db.events
          → tenant_chain js hmac_secret p.tenant after
            ≡ tenant_chain js hmac_secret p.tenant db ++ next_event id t p db ∷ []
      unfolding tenant_chain new_event
      own_chain later =
          ap (sort (event_before js hmac_secret)) (
            rows_where-append (is_event_of p.tenant) db.events (next_event id t p db)
              (same_refl p.tenant))
          ∙ sort-last (event_before js hmac_secret) (next_event id t p db)
              (rows_where (is_event_of p.tenant) db.events)
              (All-rows_where (is_event_of p.tenant) _ db.events later)

      other_chain :
          (tenant : Key)
          → same p.tenant tenant ≡ false
          → tenant_chain js hmac_secret tenant after ≡ tenant_chain js hmac_secret tenant db
      unfolding tenant_chain new_event
      other_chain tenant d =
          ap (sort (event_before js hmac_secret))
            (rows_where-append_other (is_event_of tenant) db.events (next_event id t p db) d)

      pub own-Intact :
          Intact p.tenant db
          → All
              (λ e.
                is_event_of p.tenant e ≡ true
                → event_before js hmac_secret e (next_event id t p db) ≡ true)
              db.events
          → Intact p.tenant after
      unfolding verify_tenant_chain
      own-Intact h later = (
        ap (check_rows js hmac_secret genesis_hash) (own_chain later)
            ∙ check_rows-last genesis_hash (tenant_chain js hmac_secret p.tenant db)
                (next_event id t p db) h.0
                (ap (λ k. row_holds js hmac_secret k (next_event id t p db)) h.1
                  ∙ new_event_holds id t p (head_hash p.tenant db.heads)),
        ap (last_hash_of genesis_hash) (own_chain later)
            ∙ last_hash_of-last genesis_hash (tenant_chain js hmac_secret p.tenant db)
                (next_event id t p db)
            ∙ sym own_head,
      )

      pub other-Intact :
          (tenant : Key) → same p.tenant tenant ≡ false → Intact tenant db → Intact tenant after
      unfolding verify_tenant_chain
      other-Intact tenant d h = (
        ap (check_rows js hmac_secret genesis_hash) (other_chain tenant d) ∙ h.0,
        ap (last_hash_of genesis_hash) (other_chain tenant d) ∙ h.1 ∙ sym (other_head tenant d),
      )
