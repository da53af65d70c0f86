-- ===== src/Pin/Issue.antt =====
-- What an accepted, a repeated and a replaced PIN are worth (src/modules/pin/pin.service.ts).
use beba_sacco_backend.Base.{
  Error, ℕ, ◌+◌, ◌≤◌, ◌<◌, if◌then◌else◌, Bool, true, false, Key, truthy, same, some, List, [], ◌∷◌,
  Result, ok, err, ◌≡◌, refl, sym, ap, ◌∙◌, arith, Bool-cases, Option-cases, inl, inr, All,
  some_row, update_many,
}
use beba_sacco_backend.Base.Tables.Laws.{All-append}
use beba_sacco_backend.Cache.{Client, ClientLaws, del}
use beba_sacco_backend.Pin.{
  revoked, LivePin, Runtime, PinDesk, PinRow, PinPurpose, pin_ttl_seconds, build_key, live_pin,
  compare_pin, validate_pin, mark_consumed, issue_to, is_active, is_user, invalidate_active_pins,
  close,
}
use beba_sacco_backend.Pin.Live.{live_pin-keep_pin, live_pin-del}

ok_is_not : {A : Type 0} {a : A} (e : Error) → ◌≡◌ {A = Result A} (err e) (ok a) → ⊥
ok_is_not e h = cc

false_is_not : ◌≡◌ {A = Result Bool} (ok false) (ok true) → ⊥
false_is_not h = cc

module _ {C : Type 0} (client : Client C) (js : Runtime) (user tenant : Key)
    (purpose : PinPurpose) where
  abbrev key : Key
  key = build_key tenant user purpose

  marked :
      (d e : PinDesk C)
      → mark_consumed client js user tenant purpose d ≡ (ok true, e)
      → e.cache ≡ d.cache
  unfolding mark_consumed
  marked d e h = elim (Bool-cases (some_row (is_user user) d.users)) [
    | inl f ↦ ground arith
    | inr f ↦ absurd (ground arith)
  ]

  accepted :
      (plain : Key) (now : ℕ) (d e : PinDesk C) (live : LivePin)
      → compare_pin client js user tenant purpose plain now d (some live) ≡ (ok true, e)
      → (same (js.hash (js.trim plain)) live.code_hash ≡ true) × (e.cache ≡ del client key d.cache)
  unfolding compare_pin
  accepted plain now d e live h =
      elim (Bool-cases (same (js.hash (js.trim plain)) live.code_hash)) [
        | inl f ↦ (f, marked (record d { cache = del client key d.cache }) e (ground arith))
        | inr f ↦ absurd (ground arith)
      ]

  closed_row :
      (r : PinRow)
      → is_active user purpose (if is_active user purpose r then close revoked r else r) ≡ false
  closed_row r = elim (Bool-cases (is_active user purpose r)) [
    | inl e ↦ rw e (ground arith)
    | inr e ↦ rw e e
  ]

  only_new :
      (h : Key) (rows : List PinRow)
      → All
          (λ r. is_active user purpose r ≡ true → r.code_hash ≡ h)
          (invalidate_active_pins user purpose rows)
  unfolding invalidate_active_pins update_many
  only_new h [] = tt
  only_new h (r ∷ rows) = ((λ active. absurd (cc (active, closed_row r))), only_new h rows)

  module _ (laws : ClientLaws client) (up : (c : C) → client.answers c ≡ true)
      (parse-print : (p : LivePin) → js.parse (js.print p) ≡ some p)
      (print_filled : (p : LivePin) → truthy (some (js.print p)) ≡ some (js.print p)) where
    refused_after :
        (again : Key) (t : ℕ) (c : C) (e : PinDesk C)
        → e.cache ≡ del client key c
        → (validate_pin client js user tenant purpose again t e).0 ≡ ok false
    unfolding validate_pin compare_pin
    refused_after again t c e deleted =
        ap (λ o. (compare_pin client js user tenant purpose again t e o).0)
          (ap (live_pin client js key t) deleted
            ∙ live_pin-del client js laws up parse-print print_filled key t c)

    -- A PIN is accepted once: after an acceptance no PIN of the user and purpose is accepted at any
    -- time, until another is issued. Redis keeps its laws and answers, and the JSON texts of the
    -- records read back and are not empty.
    pub validate_pin-single_use :
        (plain again : Key) (now t : ℕ) (d e : PinDesk C)
        → validate_pin client js user tenant purpose plain now d ≡ (ok true, e)
        → (validate_pin client js user tenant purpose again t e).0 ≡ ok false
    unfolding validate_pin compare_pin
    validate_pin-single_use plain again now t d e h =
        elim (Option-cases (live_pin client js key now d.cache)) [
          | inl gone ↦ absurd (
              false_is_not (
                ap (λ (x : Result Bool × PinDesk C). x.0)
                  (sym (ap (compare_pin client js user tenant purpose plain now d) gone) ∙ h)))
          | inr (live, found) ↦
              refused_after again t d.cache e
                (accepted plain now d e live
                  (sym (ap (compare_pin client js user tenant purpose plain now d) found) ∙ h)).1
        ]

    -- A new PIN replaces the earlier ones: of the rows of the user and purpose only those with the
    -- new hash are neither consumed nor revoked, and a PIN with another hash is not accepted within
    -- the lifetime. Redis keeps its laws and answers, and the JSON texts of the records read back and
    -- are not empty.
    pub issue_to-supersedes :
        (id pin phone old : Key) (now t : ℕ) (d : PinDesk C)
        → same (js.hash (js.trim old)) (js.hash pin) ≡ false
        → now ≤ t
        → t < now + pin_ttl_seconds purpose
        → All
            (λ r. is_active user purpose r ≡ true → r.code_hash ≡ js.hash pin)
            (issue_to client js user tenant purpose id pin now phone d).rows
          × ((validate_pin client js user tenant purpose old t
                (issue_to client js user tenant purpose id pin now phone d)).0
              ≡ ok false)
    unfolding issue_to validate_pin compare_pin
    issue_to-supersedes id pin phone old now t d differs after before = (
      All-append (λ r. is_active user purpose r ≡ true → r.code_hash ≡ js.hash pin)
          (invalidate_active_pins user purpose d.rows) _ (only_new (js.hash pin) d.rows)
          (λ active. refl),
      ap
            (λ o.
              (compare_pin client js user tenant purpose old t
                (issue_to client js user tenant purpose id pin now phone d) o).0)
            (live_pin-keep_pin client js laws up parse-print print_filled key
              (record { code_hash = js.hash pin; attempts = 0 }) (pin_ttl_seconds purpose) now t
              d.cache after before)
          ∙ rw differs refl,
    )
