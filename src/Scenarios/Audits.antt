-- ===== src/Scenarios/Audits.antt =====
-- Two audit events of the sample society, with a digest that tells the chain's first text from the others.
use Prim.Native.String.{count}
use text.Mathlib.Text.{starts_with}
use beba_sacco_backend.Scenarios.TextOrder.{
  text_before_antisymmetric, text_before_connex, text_before_transitive, text_before,
}
use beba_sacco_backend.Base.{
  same, truthy, update_many, rows_where, sort, find_first, some_row, inr, inl, Bool-cases, ℕ, List,
  true, Key, none, some, [], refl, ◌≡◌, ok, Result, ◌⊎◌, join, if◌then◌else◌,
}
use beba_sacco_backend.Scenarios.{value_of, state_of}
use beba_sacco_backend.AuditChain.Canonical.{null, literal, object, field, closed, canonical_json}
use beba_sacco_backend.AuditChain.Canonical.Laws.{in_object, swap, canonical_json-Reordered}
use beba_sacco_backend.AuditChain.Hashing.{AuditEvent, Runtime, AuditPayload}
use beba_sacco_backend.AuditChain.{
  check_rows, AuditDb, persist_event, verify_tenant_chain, valid, tenant_chain,
}
use beba_sacco_backend.AuditChain.Written.{Written, empty, persist, Written-verify_tenant_chain}
use beba_sacco_backend.AuditChain.Tampering.{check_rows-SameEvents, SameEvents, Collide}

abbrev digest : Key → Key
digest text =
    if starts_with text "GENESIS"
    then "1111111111111111111111111111111111111111111111111111111111111111"
    else "2222222222222222222222222222222222222222222222222222222222222222"

digest_length : (text : Key) → count (digest text) ≡ 64
digest_length text = elim (Bool-cases (starts_with text "GENESIS")) [
  | inl e ↦ rw e refl
  | inr e ↦ rw e refl
]

abbrev node : Runtime
node = record {
  digest = digest;
  hmac = λ secret text. join secret text;
  iso_string = λ t. "2026-01-01T00:00:00.000Z";
  stringify = λ text. join "'" (join text "'");
  print_number = λ n. "200";
  key_before = text_before;
  hex_bytes = λ text. text;
  id_before = text_before;
}

iso_length : (t : ℕ) → count (node.iso_string t) ≡ 24
iso_length t = refl

abbrev login : Key → AuditPayload
login id = record {
  correlation_id = id;
  tenant = "sacco";
  user = some "ann";
  role = none;
  action = "LOGIN";
  resource_type = none;
  resource_id = none;
  old_state = null;
  new_state = object (field "b" (literal "1") (field "a" (literal "2") closed));
  metadata = null;
  ip = none;
  user_agent = none;
  endpoint = none;
  method = none;
  status_code = 200;
  success = true;
  error_code = none;
}

abbrev nothing : AuditDb
nothing = record { heads = []; events = [] }

abbrev first_run : Result (Key × AuditDb)
first_run = persist_event node (some "s") "e1" 10 none (login "c1") nothing

abbrev second_run : Result (Key × AuditDb)
second_run =
    persist_event node (some "s") "e2" 0 (some 20) (login "c2") (state_of nothing first_run)

first_done : first_run ≡ ok (value_of "" first_run, state_of nothing first_run)
unfolding persist_event find_first some_row same
first_done = refl

second_done : second_run ≡ ok (value_of "" second_run, state_of nothing second_run)
unfolding persist_event find_first some_row same update_many
second_done = refl

two-Written : Written node (some "s") (state_of nothing second_run)
unfolding some_row persist_event find_first same truthy canonical_json update_many text_before
two-Written =
    persist "e2" 0 (some 20) (login "c2")
      (persist "e1" 10 none (login "c1") empty tt refl first_done) ((λ e. refl), tt) refl
      second_done

Written-verify_tenant_chain_example :
    verify_tenant_chain node (some "s") "sacco" (state_of nothing second_run) ≡ valid
Written-verify_tenant_chain_example =
    Written-verify_tenant_chain node (some "s") digest_length two-Written "sacco"

abbrev kept_rows : List AuditEvent
kept_rows = tenant_chain node (some "s") "sacco" (state_of nothing second_run)

rows_verify : check_rows node (some "s") "GENESIS" kept_rows ≡ valid
unfolding check_rows tenant_chain sort rows_where persist_event find_first some_row same update_many
    truthy canonical_json text_before
rows_verify = refl

check_rows-SameEvents_example :
    SameEvents node (some "s") kept_rows kept_rows ⊎ Collide node (some "s") kept_rows kept_rows
check_rows-SameEvents_example =
    check_rows-SameEvents node (some "s") digest_length iso_length kept_rows kept_rows rows_verify
      rows_verify refl refl

canonical_json-Reordered_example :
    canonical_json node.stringify node.key_before
      (object (field "b" (literal "1") (field "a" (literal "2") closed)))
    ≡ canonical_json node.stringify node.key_before
        (object (field "a" (literal "2") (field "b" (literal "1") closed)))
unfolding same
canonical_json-Reordered_example =
    canonical_json-Reordered node.stringify node.key_before text_before_antisymmetric
      text_before_connex text_before_transitive (in_object (swap refl))
