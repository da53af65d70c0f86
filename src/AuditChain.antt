-- ===== src/AuditChain.antt =====
-- The chain of audit events of a tenant (src/modules/audit/audit.chain.service.ts). Each event is
-- hashed with the hash of the one before it, and a head row keeps the last hash.
pub mod Canonical
pub mod Hashing
pub mod Laws
pub mod Tampering
pub mod Written
use beba_sacco_backend.Base.{
  ℕ, suc, ltb, ◌==◌, if◌then◌else◌, not, Bool, true, false, ◌&&◌, ◌||◌, Key, same, join, truthy,
  Option, none, some, List, [], ◌∷◌, ◌++◌, M, ◌>>=◌, ◌>>◌, pure, gets, modify, or_throw, find_first,
  rows_where, some_row, update_many, sort, not_found,
}
use beba_sacco_backend.AuditChain.Hashing.{
  Runtime, AuditPayload, AuditEvent, hashed_text, sign, verify_signature,
}

-- A row of `AuditChainHead`
pub record ChainHead : Type 0 where
  pub tenant : Key
  pub last_hash : Key
  pub sequence : ℕ

pub record AuditDb : Type 0 where
  pub heads : List ChainHead
  pub events : List AuditEvent

abbrev pub genesis_hash : Key
genesis_hash = "GENESIS"

abbrev pub or_genesis : Option Key → Key
or_genesis none = genesis_hash
or_genesis (some hash) = hash

pub data Verdict : Type 0 where
  valid : Verdict
  failed_at : Key → Verdict

abbrev pub is_head_of : Key → ChainHead → Bool
is_head_of tenant h = same h.tenant tenant

abbrev pub is_event_of : Key → AuditEvent → Bool
is_event_of tenant e = same e.payload.tenant tenant

-- `INSERT INTO "AuditChainHead" ... ON CONFLICT ("tenantId") DO NOTHING`
abbrev pub with_head : Key → List ChainHead → List ChainHead
with_head tenant heads =
    if some_row (is_head_of tenant) heads
    then heads
    else heads ++ record { tenant = tenant; last_hash = genesis_hash; sequence = 0 } ∷ []

-- `lockChainHead`
unfoldable pub lock_chain_head : Key → M AuditDb ChainHead
lock_chain_head tenant = do
  modify (λ (db : AuditDb). record db { heads = with_head tenant db.heads })
  found ← gets (λ (db : AuditDb). find_first (is_head_of tenant) db.heads)
  or_throw found not_found

abbrev pub advance_head : ChainHead → Key → ChainHead → ChainHead
advance_head head hash h = record h { last_hash = hash; sequence = suc head.sequence }

abbrev pub has_hash : Key → Key → AuditEvent → Bool
has_hash tenant hash e = is_event_of tenant e && same e.event_hash hash

-- The insertion, which `ON CONFLICT ("tenantId", "eventHash") DO NOTHING` may skip.
unfoldable pub insert_event : AuditEvent → List AuditEvent → List AuditEvent
insert_event e events =
    if some_row (has_hash e.payload.tenant e.event_hash) events then events else events ++ e ∷ []

abbrev pub time_of : Option ℕ → ℕ → ℕ
time_of none now = now
time_of (some timestamp) now = timestamp

module _ (js : Runtime) (hmac_secret : Option Key) where
  unfoldable pub new_event : Key → ℕ → AuditPayload → Key → AuditEvent
  unfolding hashed_text sign
  new_event id timestamp p prev =
      let hash = js.digest (hashed_text js hmac_secret prev p timestamp) in
      record {
        id = id;
        timestamp = timestamp;
        payload = p;
        prev_hash = prev;
        event_hash = hash;
        signature = sign js hmac_secret p.tenant hash;
      }

  -- `persistEvent` once the head is locked: both writes.
  unfoldable pub write_event : Key → ℕ → AuditPayload → ChainHead → M AuditDb Key
  unfolding new_event insert_event
  write_event id timestamp p head = do
    let event = new_event id timestamp p (or_genesis (truthy (some head.last_hash)))
    modify (λ (db : AuditDb). record db {
      heads = update_many (is_head_of p.tenant) (advance_head head event.event_hash) db.heads;
      events = insert_event event db.events;
    })
    pure event.event_hash

  -- `persistEvent`: the id and the clock are given, the timestamp is the payload's if it has one.
  unfoldable pub persist_event : Key → ℕ → Option ℕ → AuditPayload → M AuditDb Key
  unfolding lock_chain_head write_event
  persist_event id now timestamp p = do
    head ← lock_chain_head p.tenant
    write_event id (time_of timestamp now) p head

  -- `ORDER BY timestamp ASC, id ASC`
  abbrev pub event_before : AuditEvent → AuditEvent → Bool
  event_before a b =
      ltb a.timestamp b.timestamp || (a.timestamp == b.timestamp && js.id_before a.id b.id)

  -- The tests of one row in the loop of `verifyTenantChain`
  unfoldable pub row_holds : Key → AuditEvent → Bool
  unfolding hashed_text verify_signature
  row_holds previous e =
      same e.prev_hash previous
      && (same (js.digest (hashed_text js hmac_secret e.prev_hash e.payload e.timestamp))
            e.event_hash
          && verify_signature js hmac_secret e.payload.tenant e.event_hash e.signature)

  unfoldable pub check_rows : Key → List AuditEvent → Verdict
  unfolding row_holds
  check_rows previous [] = valid
  check_rows previous (e ∷ more) =
      let rest = check_rows e.event_hash more in
      if row_holds previous e then rest else failed_at e.id

  unfoldable pub tenant_chain : Key → AuditDb → List AuditEvent
  tenant_chain tenant db = sort event_before (rows_where (is_event_of tenant) db.events)

  unfoldable pub verify_tenant_chain : Key → AuditDb → Verdict
  unfolding check_rows tenant_chain
  verify_tenant_chain tenant db = check_rows genesis_hash (tenant_chain tenant db)
