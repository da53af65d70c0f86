-- ===== src/AuditChain/Written.antt =====
-- A chain that only `persistEvent` has written verifies (src/modules/audit/audit.chain.service.ts).
use Prim.Native.String.{count}
use beba_sacco_backend.Base.{
  ◌∙◌, ℕ, Bool-cases, true, false, Key, same, same→≡, Option, [], ◌≡◌, refl, sym, subst, inl, inr,
  arith, ok, All, some_row, Result, sort, rows_where, find_first,
}
use beba_sacco_backend.AuditChain.Hashing.{Runtime, AuditPayload}
use beba_sacco_backend.AuditChain.{
  AuditDb, valid, is_event_of, has_hash, time_of, persist_event, event_before, verify_tenant_chain,
}
use beba_sacco_backend.AuditChain.Laws.{
  after, last_hash_of, Intact, next_event, persisted, own-Intact, other-Intact,
}

stored :
    {A S : Type 0} (a b : A) (s t : S) → ◌≡◌ {A = Result (A × S)} (ok (a, s)) (ok (b, t)) → s ≡ t
stored a b s t e = ground arith

module _ (js : Runtime) (hmac_secret : Option Key) where
  -- The tables after calls of `persistEvent`, for any tenants. Each event stands behind the
  -- earlier ones of its tenant in the order of verification, and its hash is a new one.
  pub data Written : AuditDb → Type 0 where
    empty : Written (record { heads = []; events = [] })
    persist :
        {db db' : AuditDb} (id : Key) (now : ℕ) (timestamp : Option ℕ) (p : AuditPayload)
        {hash : Key}
        → Written db
        → All
            (λ e.
              is_event_of p.tenant e ≡ true
              → event_before js hmac_secret e
                  (next_event js hmac_secret id (time_of timestamp now) p db)
                ≡ true)
            db.events
        → some_row
            (has_hash p.tenant
              (next_event js hmac_secret id (time_of timestamp now) p db).event_hash)
            db.events
          ≡ false
        → persist_event js hmac_secret id now timestamp p db ≡ ok (hash, db')
        → Written db'

  module _ (digest_length : (text : Key) → count (js.digest text) ≡ 64) where
    persist_event-Intact :
        (db : AuditDb) {db' : AuditDb} (id : Key) (now : ℕ) (timestamp : Option ℕ)
        (p : AuditPayload) {hash : Key}
        → All
            (λ e.
              is_event_of p.tenant e ≡ true
              → event_before js hmac_secret e
                  (next_event js hmac_secret id (time_of timestamp now) p db)
                ≡ true)
            db.events
        → some_row
            (has_hash p.tenant
              (next_event js hmac_secret id (time_of timestamp now) p db).event_hash)
            db.events
          ≡ false
        → persist_event js hmac_secret id now timestamp p db ≡ ok (hash, db')
        → (tenant : Key) → Intact js hmac_secret tenant db
        → Intact js hmac_secret tenant db'
    persist_event-Intact db {db'} id now timestamp p {hash} later fresh run tenant h =
        let (head, found, outcome) = persisted js hmac_secret id now timestamp p db fresh in
        let same_db = stored hash _ db' _ (sym run ∙ outcome) in
        rw same_db (elim (Bool-cases (same p.tenant tenant)) [
          | inl e ↦
              subst
                (λ t.
                  Intact js hmac_secret t db
                  → Intact js hmac_secret t (
                      after js hmac_secret digest_length id (time_of timestamp now) p db head
                        found))
                (same→≡ p.tenant tenant e)
                (λ i.
                  own-Intact js hmac_secret digest_length id (time_of timestamp now) p db head found
                    i later)
                h
          | inr e ↦
              other-Intact js hmac_secret digest_length id (time_of timestamp now) p db head found
                tenant e h
        ])

    Written-Intact : {db : AuditDb} → Written db → (tenant : Key) → Intact js hmac_secret tenant db
    unfolding verify_tenant_chain sort rows_where find_first last_hash_of
    Written-Intact empty tenant = (refl, refl)
    Written-Intact (persist {db} id now timestamp p w later fresh run) tenant =
        persist_event-Intact db id now timestamp p later fresh run tenant (Written-Intact w tenant)

    -- The chain of every tenant verifies after any calls of `persistEvent`, for any tenants, on
    -- empty tables, if the digests have 64 characters, each event stands behind the earlier events
    -- of its tenant in the order of timestamps and ids, and no earlier event of the tenant has its
    -- hash.
    pub Written-verify_tenant_chain :
        {db : AuditDb}
        → Written db
        → (tenant : Key) → verify_tenant_chain js hmac_secret tenant db ≡ valid
    Written-verify_tenant_chain w tenant = (Written-Intact w tenant).0
