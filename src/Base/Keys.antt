-- ===== src/Base/Keys.antt =====
-- Keys of rows, reference numbers and other texts that the program only compares and joins.
use Prim.Native.String.{compare}
use text.Mathlib.Text.{is_eq}
use mathlib.Core.Path.{ap}
use mathlib.Core.Logic.{inl, inr}
use native.Mathlib.Omega.{arith}
use Prim.Native.String.{String, ◌++◌}
use mathlib.Core.Path.{◌≡◌, refl}
use mathlib.Core.Bool.{Bool, true, false}
use mathlib.Core.Option.{Option, none, some}
use Prim.Native.Nat.{◌<◌}
use Prim.Native.String.{slice, len, count}
use text.Mathlib.TextLemmas.{length-append}
use beba_sacco_backend.Base.Tests.{if◌then◌else◌, Bool-cases}
use text.Mathlib.Text.{starts_with, ◌==◌}
use text.Mathlib.TextEquality.{eq_iff}

abbrev pub Key : Type 0
Key = String

unfoldable pub same : Key → Key → Bool
same a b = a == b

-- `a${suffix}`
unfoldable pub join : Key → Key → Key
join a b = a ++ b

pub same→≡ : (a b : Key) → same a b ≡ true → a ≡ b
unfolding same
same→≡ a b h = (eq_iff a b).0 h

pub same_refl : (a : Key) → same a a ≡ true
unfolding same
same_refl a = (eq_iff a a).1 refl

-- `a === b` where `a` may be null and `b` is not
unfoldable pub same_opt : Option Key → Key → Bool
unfolding same
same_opt none b = false
same_opt (some a) b = same a b

-- `s.replace(/^prefix/, '')`
unfoldable pub strip_prefix : Key → Key → Key
strip_prefix p s = if starts_with s p then slice s (len p) (len s) else s

-- `s` where a test takes it for true: neither null nor the empty text.
unfoldable pub truthy : Option Key → Option Key
unfolding same
truthy none = none
truthy (some s) = if same s "" then none else some s

-- `a ?? b`
abbrev pub or_else : {A : Type 0} → Option A → Option A → Option A
or_else none b = b
or_else (some a) b = some a

-- A text with something joined to it is another text.
pub join-ne : (a b : Key) → 0 < count b → same (join a b) a ≡ false
unfolding same join
join-ne a b h = elim (Bool-cases (is_eq (compare (a ++ b) a))) [
  | inl e ↦
      absurd
        (omega (arith, ap (λ (s : String). count s) ((eq_iff (a ++ b) a).0 e), length-append a b))
  | inr e ↦ e
]

pub count-join : (a b : Key) → 0 < count a → 0 < count (join a b)
unfolding join
count-join a b h = omega (arith, length-append a b)

pub same_sym : (a b : Key) → same a b ≡ same b a
same_sym a b = elim (Bool-cases (same a b)) [
  | inl e ↦ rw (same→≡ a b e) refl
  | inr e ↦ elim (Bool-cases (same b a)) [
    | inl f ↦ absurd (ground (arith, same→≡ b a f, same_refl a))
    | inr f ↦ rw (e, f) refl
  ]
]
