-- ===== src/Scenarios/PinText.antt =====
-- Texts of the live records of PINs: a star for each attempt, a point, and the hash.
use Prim.Native.Char.{code}
use Prim.Native.String.compare
use Prim.Native.String.{[], ◌∷◌}
use text.Mathlib.Text.{is_eq}
use beba_sacco_backend.Base.{
  ℕ, zero, suc, if◌then◌else◌, ◌==◌, same, truthy, Key, Option, none, some, ◌≡◌, refl, ap,
}
use beba_sacco_backend.Pin.{LivePin, Runtime}

unfoldable pub stars : ℕ → Key → Key
stars zero h = "." ∷ h
stars (suc n) h = "*" ∷ stars n h

abbrev bump : Option LivePin → Option LivePin
bump none = none
bump (some p) = some (record p { attempts = suc p.attempts })

unfoldable pub read_back : Key → Option LivePin
read_back [] = none
read_back (c ∷ rest) =
    let more = read_back rest in
    if code c == 42 then bump more else some (record { code_hash = rest; attempts = 0 })

abbrev pub node : Runtime
node = record {
  hash = λ text. text;
  trim = λ text. text;
  print = λ p. stars p.attempts p.code_hash;
  parse = read_back;
}

read_back-stars :
    (n : ℕ) (h : Key) → read_back (stars n h) ≡ some (record { code_hash = h; attempts = n })
unfolding read_back stars
read_back-stars zero h = refl
read_back-stars (suc n) h = ap bump (read_back-stars n h)

pub parse-print : (p : LivePin) → node.parse (node.print p) ≡ some p
parse-print p = read_back-stars p.attempts p.code_hash

stars_filled : (n : ℕ) (h : Key) → truthy (some (stars n h)) ≡ some (stars n h)
unfolding truthy same stars
stars_filled zero h = ap (λ o. if is_eq o then none else some ("." ∷ h)) (compare.cons-nil "." h)
stars_filled (suc n) h =
    ap (λ o. if is_eq o then none else some ("*" ∷ stars n h)) (compare.cons-nil "*" (stars n h))

pub print_filled : (p : LivePin) → truthy (some (node.print p)) ≡ some (node.print p)
print_filled p = stars_filled p.attempts p.code_hash
