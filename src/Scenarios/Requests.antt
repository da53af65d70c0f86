-- ===== src/Scenarios/Requests.antt =====
-- Locks and repeated requests of the sample society.
use beba_sacco_backend.Base.{
  Key, Option, same, none, some, List, [], ◌∷◌, ◌≡◌, ap, sym, refl, arith,
}
use beba_sacco_backend.Scenarios.Redis.{redis, redis_laws, Stored, read}
use beba_sacco_backend.Cache.{set_if_absent, acquire_lock, release_lock}
use beba_sacco_backend.Cache.Locks.{acquire_lock-excludes}
use beba_sacco_backend.Idempotency.{
  new, processing, completed, check_and_reserve, complete, build_key,
}
use beba_sacco_backend.Scenarios.SavedText.{json, parse-print, print_filled}
use beba_sacco_backend.Idempotency.Register.{IsClean, finish, Kept, serve-Kept}
use beba_sacco_backend.Idempotency.Repeats.{check_and_reserve-repeats}

abbrev locked : List Stored
locked = record { key = "lock"; value = "t1"; expires = 40 } ∷ []

lock_taken : acquire_lock redis "lock" "t1" 30 10 [] ≡ (some "t1", locked)
unfolding acquire_lock read
lock_taken = refl

acquire_lock-excludes_example :
    (acquire_lock redis "lock" "t2" 60 20 locked ≡ (none, locked))
    × (release_lock redis "lock" "t2" 20 locked ≡ locked)
    × (read "lock" 20 (release_lock redis "lock" "t1" 20 locked) ≡ none)
unfolding same
acquire_lock-excludes_example =
    acquire_lock-excludes redis redis_laws "lock" "t1" "t2" 30 60 10 20 [] locked lock_taken
      (ground arith) (ground arith) (ground arith) refl refl

abbrev reserved_key : List Stored
reserved_key =
    record {
      key = build_key "k" "sacco";
      value = json.print (record { status = "PROCESSING"; result = none });
      expires = 3610;
    }
    ∷ []

abbrev text_or : Option Key → Key
text_or none = ""
text_or (some raw) = raw

reserved_key-IsClean : IsClean redis json "k" "sacco" 20 reserved_key
unfolding read same build_key
reserved_key-IsClean raw held =
    (record { status = "PROCESSING"; result = none }, sym (ap text_or held))

serve-Kept_example : Kept redis json "k" "sacco" 3600 20 reserved_key (finish tt)
serve-Kept_example =
    serve-Kept redis json redis_laws parse-print print_filled "k" "sacco" 3600 20 reserved_key refl
      (ground arith) (finish tt) reserved_key-IsClean

reserved_first : check_and_reserve redis json "k" "sacco" 3600 10 [] ≡ (new, reserved_key)
unfolding check_and_reserve set_if_absent read
reserved_first = refl

check_and_reserve-repeats_example :
    (check_and_reserve redis json "k" "sacco" 60 20 reserved_key ≡ (processing, reserved_key))
    × (check_and_reserve redis json "k" "sacco" 60 40
          (complete redis json "k" "sacco" tt 600 30 reserved_key)
        ≡ (completed (some tt), complete redis json "k" "sacco" tt 600 30 reserved_key))
unfolding read
check_and_reserve-repeats_example =
    check_and_reserve-repeats redis json redis_laws parse-print print_filled "k" "sacco" 60
      (ground arith) 3600 10 20 [] refl (ground arith) (ground arith) tt reserved_key 600 30 40 refl
      reserved_first refl (ground arith) (ground arith) (ground arith) refl
