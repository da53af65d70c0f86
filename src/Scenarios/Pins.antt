-- ===== src/Scenarios/Pins.antt =====
-- A PIN of a member of the sample society.
use beba_sacco_backend.Base.{
  truthy, ℕ, ◌-◌, Bool, true, false, none, some, List, [], ◌∷◌, ◌≡◌, ◌≤◌, ◌<◌, refl, arith, All, ok,
  Result, same, length, count_where, some_row,
}
use beba_sacco_backend.Scenarios.Redis.{read, redis, redis_laws, Stored}
use beba_sacco_backend.Cache.{get, set}
use beba_sacco_backend.Scenarios.PinText.{stars, read_back, node, parse-print, print_filled}
use beba_sacco_backend.Pin.{build_key, PinDesk, first_login, issue_to, validate_pin, is_active}
use beba_sacco_backend.Pin.Attempts.{AreWrong, last_time, Guesses, submit, issue_to-bounds_attempts}
use beba_sacco_backend.Pin.Issue.{validate_pin-single_use, issue_to-supersedes}
use beba_sacco_backend.Pin.Renewal.{validate_pin-renews}
use beba_sacco_backend.Pin.Code.{code_upper, code_lower, code_digits, code_symbols, code_chars}
use beba_sacco_backend.Pin.Code.Classes.{is_in, code_chars_classes}

abbrev desk : PinDesk (List Stored)
desk = record {
  cache = [];
  rows = [];
  users =
      record { id = "u"; phone = some "0700"; phone_number = none; phone_verified = false } ∷ [];
  texts = [];
}

abbrev issued : PinDesk (List Stored)
issued = issue_to redis node "u" "sacco" first_login "p1" "Aa2@" 100 "0700" desk

abbrev five_guesses : Guesses
five_guesses = (110, "1") ∷ (120, "2") ∷ (130, "3") ∷ (140, "4") ∷ (150, "5") ∷ []

guesses-AreWrong : AreWrong redis node "u" "sacco" first_login "Aa2@" 100 five_guesses
unfolding same
guesses-AreWrong = (
  ground arith,
  refl,
  (ground arith, refl, (ground arith, refl, (ground arith, refl, (ground arith, refl, tt)))),
)

five : 5 ≤ length five_guesses
unfolding length
five = ground arith

last : last_time redis node "u" "sacco" first_login 100 five_guesses ≤ 160
unfolding last_time
last = ground arith

other_pin : same "Bb3#" "Aa2@" ≡ false
unfolding same
other_pin = refl

issue_to-bounds_attempts_example :
    (validate_pin redis node "u" "sacco" first_login "Aa2@" 160
      (submit redis node "u" "sacco" first_login five_guesses issued)).0
    ≡ ok false
issue_to-bounds_attempts_example =
    issue_to-bounds_attempts redis node "u" "sacco" first_login redis_laws (λ c. refl) parse-print
      print_filled "p1" "Aa2@" "0700" "Aa2@" 100 160 five_guesses desk guesses-AreWrong five last

abbrev entered : Result Bool × PinDesk (List Stored)
entered = validate_pin redis node "u" "sacco" first_login "Aa2@" 200 issued

entered_right : entered ≡ (ok true, entered.1)
unfolding validate_pin truthy get read issue_to set build_key stars read_back some_row
entered_right = refl

validate_pin-single_use_example :
    (validate_pin redis node "u" "sacco" first_login "Aa2@" 210 entered.1).0 ≡ ok false
validate_pin-single_use_example =
    validate_pin-single_use redis node "u" "sacco" first_login redis_laws (λ c. refl) parse-print
      print_filled "Aa2@" "Aa2@" 200 210 issued entered.1 entered_right

differs : same "Aa2@" "Bb3#" ≡ false
unfolding same
differs = refl

same_pin : same "Aa2@" "Aa2@" ≡ true
unfolding same
same_pin = refl

issue_to-supersedes_example :
    All
      (λ r. is_active "u" first_login r ≡ true → r.code_hash ≡ "Bb3#")
      (issue_to redis node "u" "sacco" first_login "p2" "Bb3#" 300 "0700" issued).rows
    × ((validate_pin redis node "u" "sacco" first_login "Aa2@" 310
          (issue_to redis node "u" "sacco" first_login "p2" "Bb3#" 300 "0700" issued)).0
        ≡ ok false)
issue_to-supersedes_example =
    issue_to-supersedes redis node "u" "sacco" first_login redis_laws (λ c. refl) parse-print
      print_filled "p2" "Bb3#" "0700" "Aa2@" 300 310 issued differs (ground arith) (ground arith)

known_user : some_row (λ u. same u.id "u") desk.users ≡ true
unfolding some_row same
known_user = refl

validate_pin-renews_example :
    (validate_pin redis node "u" "sacco" first_login "Aa2@" 2400
      (validate_pin redis node "u" "sacco" first_login "Bb3#" 1299 issued).1).0
    ≡ ok true
validate_pin-renews_example =
    validate_pin-renews redis node "u" "sacco" first_login redis_laws (λ c. refl) parse-print
      print_filled "p1" "Aa2@" "0700" "Bb3#" 100 1299 2400 desk (ground arith) (ground arith)
      (ground arith) (ground arith) other_pin same_pin known_user

abbrev draw : ℕ → ℕ → ℕ
draw k n = n - 1

draws : (k n : ℕ) → 0 < n → draw k n < n
draws k n h = omega arith

code_chars_classes_example :
    (length (code_chars draw 8) ≡ 8)
    × (0 < count_where (is_in code_upper) (code_chars draw 8))
    × (0 < count_where (is_in code_lower) (code_chars draw 8))
    × (0 < count_where (is_in code_digits) (code_chars draw 8))
    × (0 < count_where (is_in code_symbols) (code_chars draw 8))
code_chars_classes_example = code_chars_classes draw draws 8 (ground arith)
