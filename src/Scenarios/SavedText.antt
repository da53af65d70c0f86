-- ===== src/Scenarios/SavedText.antt =====
-- Texts of the saved results that carry nothing: a mark for the result, and the status.
use Prim.Native.Char.{Char, code}
use Prim.Native.String.compare
use Prim.Native.String.{[], ◌∷◌}
use text.Mathlib.Text.{is_eq}
use beba_sacco_backend.Base.{
  if◌then◌else◌, ◌==◌, same, truthy, Key, Option, none, some, ◌≡◌, refl, ap,
}
use beba_sacco_backend.Idempotency.{Saved, Codec}

abbrev result_of_mark : Char → Option (Unit {0})
result_of_mark c = if code c == 43 then some tt else none

abbrev marked : Option (Unit {0}) → Key → Key
marked none status = "-" ∷ status
marked (some u) status = "+" ∷ status

abbrev print : Saved (Unit {0}) → Key
print s = marked s.result s.status

abbrev read_back : Key → Option (Saved (Unit {0}))
read_back [] = none
read_back (c ∷ status) = some (record { status = status; result = result_of_mark c })

abbrev pub json : Codec (Unit {0})
json = record { print = print; parse = read_back }

read_back-marked :
    (r : Option (Unit {0})) (status : Key)
    → read_back (marked r status) ≡ some (record { status = status; result = r })
read_back-marked none status = refl
read_back-marked (some u) status = refl

pub parse-print : (s : Saved (Unit {0})) → json.parse (json.print s) ≡ some s
parse-print s = read_back-marked s.result s.status

pub print_filled : (s : Saved (Unit {0})) → truthy (some (json.print s)) ≡ some (json.print s)
unfolding truthy same
print_filled s = go s.result
  where
    go : (r : Option (Unit {0})) → truthy (some (marked r s.status)) ≡ some (marked r s.status)
    go none =
        ap (λ o. if is_eq o then none else some ("-" ∷ s.status)) (compare.cons-nil "-" s.status)
    go (some u) =
        ap (λ o. if is_eq o then none else some ("+" ∷ s.status)) (compare.cons-nil "+" s.status)
