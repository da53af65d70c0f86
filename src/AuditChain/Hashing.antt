-- ===== src/AuditChain/Hashing.antt =====
-- What is hashed and signed of an audit event (src/modules/audit/audit.chain.service.ts).
use beba_sacco_backend.Base.{ℕ, Bool, true, false, Key, same, join, truthy, Option, none, some}
use beba_sacco_backend.AuditChain.Canonical.{
  Json, null, literal, object, closed, field, canonical_json,
}

-- What the code takes from Node: `createHash`, `createHmac` (secret, then text), the text of a
-- date, `JSON.stringify` of a text and of a number, the order of `sort` on texts, the bytes of a
-- hexadecimal text, and the order of the database on ids.
pub record Runtime : Type 0 where
  pub digest : Key → Key
  pub hmac : Key → Key → Key
  pub iso_string : ℕ → Key
  pub stringify : Key → Key
  pub print_number : ℕ → Key
  pub key_before : Key → Key → Bool
  pub hex_bytes : Key → Key
  pub id_before : Key → Key → Bool

-- `AuditPersistJobPayload`, less its timestamp; a state that is missing is `null`.
pub record AuditPayload : Type 0 where
  pub correlation_id : Key
  pub tenant : Key
  pub user : Option Key
  pub role : Option Key
  pub action : Key
  pub resource_type : Option Key
  pub resource_id : Option Key
  pub old_state : Json
  pub new_state : Json
  pub metadata : Json
  pub ip : Option Key
  pub user_agent : Option Key
  pub endpoint : Option Key
  pub method : Option Key
  pub status_code : ℕ
  pub success : Bool
  pub error_code : Option Key

-- A row of `AuditEvent`; times are in milliseconds.
pub record AuditEvent : Type 0 where
  pub id : Key
  pub timestamp : ℕ
  pub payload : AuditPayload
  pub prev_hash : Key
  pub event_hash : Key
  pub signature : Key

abbrev bool_json : Bool → Json
bool_json true = literal "true"
bool_json false = literal "false"

module _ (js : Runtime) (hmac_secret : Option Key) where
  abbrev text_or_null : Option Key → Json
  text_or_null none = null
  text_or_null (some text) = literal (js.stringify text)

  -- The object of an event's columns that both `persistEvent` and `verifyTenantChain` serialise.
  unfoldable pub payload_json : AuditPayload → Json
  payload_json p = object (
      field "correlationId" (literal (js.stringify p.correlation_id)) (
        field "tenantId" (literal (js.stringify p.tenant)) (
          field "userId" (text_or_null p.user) (
            field "role" (text_or_null p.role) (
              field "action" (literal (js.stringify p.action)) (
                field "resourceType" (text_or_null p.resource_type) (
                  field "resourceId" (text_or_null p.resource_id) (
                    field "oldState" p.old_state (
                      field "newState" p.new_state (
                        field "metadata" p.metadata (
                          field "ip" (text_or_null p.ip) (
                            field "userAgent" (text_or_null p.user_agent) (
                              field "endpoint" (text_or_null p.endpoint) (
                                field "method" (text_or_null p.method) (
                                  field "statusCode" (literal (js.print_number p.status_code)) (
                                    field "success" (bool_json p.success) (
                                      field "errorCode" (text_or_null p.error_code)
                                        closed)))))))))))))))))

  unfoldable pub serialized : AuditPayload → Key
  unfolding payload_json
  serialized p = canonical_json js.stringify js.key_before (payload_json p)

  -- `${prevHash}|${serializedPayload}|${timestamp.toISOString()}`
  unfoldable pub hashed_text : Key → AuditPayload → ℕ → Key
  unfolding join serialized
  hashed_text prev p timestamp =
      join prev (join "|" (join (serialized p) (join "|" (js.iso_string timestamp))))

  -- `getTenantSecret`
  unfoldable pub tenant_secret : Key → Key
  unfolding join
  tenant_secret tenant = elim (truthy hmac_secret) [
    | none ↦ tenant
    | some secret ↦ join tenant (join ":" secret)
  ]

  unfoldable pub sign : Key → Key → Key
  unfolding tenant_secret
  sign tenant hash = js.hmac (tenant_secret tenant) hash

  -- `timingSafeEqual` on the bytes, whose lengths are compared first
  unfoldable pub verify_signature : Key → Key → Key → Bool
  unfolding sign
  verify_signature tenant hash signature =
      same (js.hex_bytes (sign tenant hash)) (js.hex_bytes signature)
