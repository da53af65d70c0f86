-- ===== src/Pin.antt =====
-- One-time PINs (src/modules/pin/pin.service.ts): the live record of a PIN is in the cache, its
-- history in the table.
pub mod Attempts
pub mod Code
pub mod Issue
pub mod Live
pub mod Renewal
use beba_sacco_backend.Base.{
  ℕ, ◌+◌, suc, leb, not, if◌then◌else◌, Bool, true, false, ◌&&◌, Key, same, join, truthy, or_else,
  Option, none, some, List, [], ◌∷◌, ◌++◌, update_many, find_first, some_row, Result, ok, err,
  not_found, no_phone,
}
use beba_sacco_backend.Cache.{Client, get, set, del}

pub data PinPurpose : Type 0 where
  first_login password_reset : PinPurpose

-- `PinRedisRecord`
pub record LivePin : Type 0 where
  pub code_hash : Key
  pub attempts : ℕ

-- A row of `PinVerification`; `closed` is a `consumedAt` or `revokedAt` that is not null, by which.
pub data Closing : Type 0 where
  consumed revoked : Closing

pub record PinRow : Type 0 where
  pub id : Key
  pub tenant : Key
  pub user : Key
  pub purpose : PinPurpose
  pub code_hash : Key
  pub attempts : ℕ
  pub expires_at : ℕ
  pub closed : Option Closing

pub record User : Type 0 where
  pub id : Key
  pub phone : Option Key
  pub phone_number : Option Key
  pub phone_verified : Bool

pub record PinDesk (C : Type 0) : Type 0 where
  pub cache : C
  pub rows : List PinRow
  pub users : List User
  pub texts : List (Key × Key)

-- What the code takes from Node: SHA-256, `trim`, and the JSON text of a live record.
pub record Runtime : Type 0 where
  pub hash : Key → Key
  pub trim : Key → Key
  pub print : LivePin → Key
  pub parse : Key → Option LivePin

-- Seconds; one for both purposes
abbrev pub pin_ttl_seconds : PinPurpose → ℕ
pin_ttl_seconds first_login = 1200
pin_ttl_seconds password_reset = 1200

abbrev pub max_attempts : ℕ
max_attempts = 5

abbrev purpose_text : PinPurpose → Key
purpose_text first_login = "FIRST_LOGIN"
purpose_text password_reset = "PASSWORD_RESET"

abbrev pub same_purpose : PinPurpose → PinPurpose → Bool
same_purpose first_login first_login = true
same_purpose password_reset password_reset = true
same_purpose _ _ = false

-- `buildKey`
unfoldable pub build_key : Key → Key → PinPurpose → Key
unfolding join
build_key tenant user purpose =
    join "pin:" (join tenant (join ":" (join user (join ":" (purpose_text purpose)))))

abbrev pub is_open : PinRow → Bool
is_open r = elim r.closed [ none ↦ true | some _ ↦ false ]

abbrev pub is_user : Key → User → Bool
is_user user u = same u.id user

-- The `where` of `invalidateActivePins`
abbrev pub is_active : Key → PinPurpose → PinRow → Bool
is_active user purpose r = same r.user user && (same_purpose r.purpose purpose && is_open r)

-- The `where` of `markConsumed` and `recordAttempts`
abbrev pub is_active_in : Key → Key → PinPurpose → PinRow → Bool
is_active_in tenant user purpose r = same r.tenant tenant && is_active user purpose r

abbrev pub close : Closing → PinRow → PinRow
close how r = record r { closed = some how }

unfoldable pub invalidate_active_pins : Key → PinPurpose → List PinRow → List PinRow
invalidate_active_pins user purpose rows = update_many (is_active user purpose) (close revoked) rows

module _ {C : Type 0} (client : Client C) (js : Runtime) where
  -- `getJson` of `RedisService`
  abbrev pub parsed : Option Key → Option LivePin
  parsed none = none
  parsed (some raw) = js.parse raw

  unfoldable pub live_pin : Key → ℕ → C → Option LivePin
  live_pin key now c = parsed (truthy (get client key now c))

  unfoldable pub keep_pin : Key → LivePin → ℕ → ℕ → C → C
  keep_pin key pin ttl now c = (set client key (js.print pin) ttl now c).1

  -- `generateAndIssuePin` for a user with a phone; the id of the row and the PIN are given.
  unfoldable pub issue_to : Key → Key → PinPurpose → Key → Key → ℕ → Key → PinDesk C → PinDesk C
  unfolding invalidate_active_pins keep_pin
  issue_to user tenant purpose id pin now phone d = record {
    cache =
        keep_pin (build_key tenant user purpose) (record { code_hash = js.hash pin; attempts = 0 })
          (pin_ttl_seconds purpose) now d.cache;
    rows =
        invalidate_active_pins user purpose d.rows
        ++ record {
          id = id;
          tenant = tenant;
          user = user;
          purpose = purpose;
          code_hash = js.hash pin;
          attempts = 0;
          expires_at = now + pin_ttl_seconds purpose;
          closed = none;
        }
          ∷ [];
    users = d.users;
    texts = d.texts ++ (phone, pin) ∷ [];
  }

  abbrev phone_of : User → Option Key
  phone_of u = truthy (or_else u.phone u.phone_number)

  abbrev issue_at :
      Key → Key → PinPurpose → Key → Key → ℕ → PinDesk C → Option Key → Result (Key × PinDesk C)
  issue_at user tenant purpose id pin now d none = err no_phone
  issue_at user tenant purpose id pin now d (some phone) =
      ok (pin, issue_to user tenant purpose id pin now phone d)

  abbrev issue_found :
      Key → Key → PinPurpose → Key → Key → ℕ → PinDesk C → Option User → Result (Key × PinDesk C)
  issue_found user tenant purpose id pin now d none = err not_found
  issue_found user tenant purpose id pin now d (some u) =
      issue_at user tenant purpose id pin now d (phone_of u)

  unfoldable pub generate_and_issue_pin :
      Key → Key → PinPurpose → Key → Key → ℕ → PinDesk C → Result (Key × PinDesk C)
  unfolding issue_to
  generate_and_issue_pin user tenant purpose id pin now d =
      issue_found user tenant purpose id pin now d (find_first (is_user user) d.users)

  -- `markConsumed`; the update of the user throws where there is none, and the transaction then
  -- leaves both tables.
  unfoldable pub mark_consumed : Key → Key → PinPurpose → PinDesk C → Result Bool × PinDesk C
  mark_consumed user tenant purpose d =
      if some_row (is_user user) d.users
      then (
        ok true,
        record d {
          rows = update_many (is_active_in tenant user purpose) (close consumed) d.rows;
          users =
              update_many (is_user user) (λ (u : User). record u { phone_verified = true }) d.users;
        },
      )
      else (err not_found, d)

  unfoldable pub record_attempts : Key → Key → PinPurpose → ℕ → PinDesk C → PinDesk C
  record_attempts user tenant purpose n d = record d {
    rows =
        update_many (is_active_in tenant user purpose) (λ (r : PinRow). record r { attempts = n })
          d.rows;
  }

  -- The cache after a PIN that does not match; `next` is `nextAttempts`.
  unfoldable pub count_attempt : Key → PinPurpose → ℕ → ℕ → LivePin → C → C
  unfolding keep_pin
  count_attempt key purpose now next live c =
      if leb max_attempts next
      then del client key c
      else keep_pin key (record live { attempts = next }) (pin_ttl_seconds purpose) now c

  unfoldable pub compare_pin :
      Key → Key → PinPurpose → Key → ℕ → PinDesk C → Option LivePin → Result Bool × PinDesk C
  unfolding mark_consumed record_attempts count_attempt
  compare_pin user tenant purpose plain now d none = (ok false, d)
  compare_pin user tenant purpose plain now d (some live) =
      let key = build_key tenant user purpose in
      let next = suc live.attempts in
      let counted = record_attempts user tenant purpose next d in
      if same (js.hash (js.trim plain)) live.code_hash
      then mark_consumed user tenant purpose (record d { cache = del client key d.cache })
      else (ok false, record counted { cache = count_attempt key purpose now next live d.cache })

  unfoldable pub validate_pin :
      Key → Key → PinPurpose → Key → ℕ → PinDesk C → Result Bool × PinDesk C
  unfolding compare_pin live_pin
  validate_pin user tenant purpose plain now d =
      compare_pin user tenant purpose plain now d
        (live_pin (build_key tenant user purpose) now d.cache)
