-- ===== src/Pin/Renewal.antt =====
-- How long a PIN lives that was entered wrongly once (src/modules/pin/pin.service.ts).
use beba_sacco_backend.Base.{
  ℕ, ◌+◌, ◌≤◌, ◌<◌, true, false, Key, truthy, same, some, ok, ◌≡◌, refl, ap, ◌∙◌, some_row,
}
use beba_sacco_backend.Cache.{Client, ClientLaws}
use beba_sacco_backend.Pin.{
  LivePin, Runtime, PinDesk, PinPurpose, pin_ttl_seconds, build_key, live_pin, compare_pin,
  validate_pin, mark_consumed, count_attempt, issue_to, is_user,
}
use beba_sacco_backend.Pin.Live.{live_pin-keep_pin}
use beba_sacco_backend.Pin.Attempts.{wrong_cache}

module _ {C : Type 0} (client : Client C) (js : Runtime) (user tenant : Key) (purpose : PinPurpose)
    (laws : ClientLaws client) (up : (c : C) → client.answers c ≡ true)
    (parse-print : (p : LivePin) → js.parse (js.print p) ≡ some p)
    (print_filled : (p : LivePin) → truthy (some (js.print p)) ≡ some (js.print p)) where
  abbrev issued : Key → Key → Key → ℕ → PinDesk C → PinDesk C
  issued id pin phone now d = issue_to client js user tenant purpose id pin now phone d

  accepts :
      (plain : Key) (t : ℕ) (d : PinDesk C) (live : LivePin)
      → live_pin client js (build_key tenant user purpose) t d.cache ≡ some live
      → same (js.hash (js.trim plain)) live.code_hash ≡ true
      → some_row (is_user user) d.users ≡ true
      → (validate_pin client js user tenant purpose plain t d).0 ≡ ok true
  unfolding validate_pin
  accepts plain t d live found right known =
      ap (λ o. (compare_pin client js user tenant purpose plain t d o).0) found
      ∙ rw (compare_pin, right) (rw (mark_consumed, known) refl)

  users_kept :
      (plain : Key) (t : ℕ) (d : PinDesk C) (live : LivePin)
      → live_pin client js (build_key tenant user purpose) t d.cache ≡ some live
      → same (js.hash (js.trim plain)) live.code_hash ≡ false
      → (validate_pin client js user tenant purpose plain t d).1.users ≡ d.users
  unfolding validate_pin
  users_kept plain t d live found wrong =
      ap (λ o. (compare_pin client js user tenant purpose plain t d o).1.users) found
      ∙ rw (compare_pin, wrong) refl

  -- A wrong PIN within the lifetime starts the lifetime anew: the right PIN of a user in the table is
  -- then accepted for the whole lifetime after the wrong attempt, also when its own has run out.
  -- Redis keeps its laws and answers, and the JSON texts of the records read back and are not empty.
  pub validate_pin-renews :
      (id pin phone plain : Key) (now t1 t2 : ℕ) (d : PinDesk C)
      → now ≤ t1
      → t1 < now + pin_ttl_seconds purpose
      → t1 ≤ t2
      → t2 < t1 + pin_ttl_seconds purpose
      → same (js.hash (js.trim plain)) (js.hash pin) ≡ false
      → same (js.hash (js.trim pin)) (js.hash pin) ≡ true
      → some_row (is_user user) d.users ≡ true
      → (validate_pin client js user tenant purpose pin t2
          (validate_pin client js user tenant purpose plain t1 (issued id pin phone now d)).1).0
        ≡ ok true
  unfolding issue_to count_attempt
  validate_pin-renews id pin phone plain now t1 t2 d a b c e wrong right known =
      let start = issued id pin phone now d in
      let fresh : LivePin = record { code_hash = js.hash pin; attempts = 0 } in
      let tried : LivePin = record { code_hash = js.hash pin; attempts = 1 } in
      let first : live_pin client js (build_key tenant user purpose) t1 start.cache ≡ some fresh =
        live_pin-keep_pin client js laws up parse-print print_filled (build_key tenant user purpose)
          fresh (pin_ttl_seconds purpose) now t1 d.cache a b in
      accepts pin t2 (validate_pin client js user tenant purpose plain t1 start).1 tried
        (ap (live_pin client js (build_key tenant user purpose) t2) (
            wrong_cache client js user tenant purpose laws up parse-print print_filled t1 plain
              start fresh first wrong)
          ∙ live_pin-keep_pin client js laws up parse-print print_filled
              (build_key tenant user purpose) tried (pin_ttl_seconds purpose) t1 t2 start.cache c e)
        right (ap (some_row (is_user user)) (users_kept plain t1 start fresh first wrong) ∙ known)
