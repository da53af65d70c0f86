-- ===== src/Scenarios/TextOrder.antt =====
-- A total order on texts, by their characters' codes.
use Prim.Native.Char.{code}
use Prim.Native.String.{String, [], ◌∷◌}
use text.Mathlib.TextEquality.{Char-path}
use beba_sacco_backend.Base.{ltb, ◌==◌, if◌then◌else◌, Bool, true, false, ◌≡◌, refl, arith}

unfoldable pub text_before : String → String → Bool
text_before [] t = true
text_before (c ∷ s) [] = false
text_before (c ∷ s) (d ∷ t) =
    let rest = text_before s t in
    if ltb (code c) (code d) then true else if code c == code d then rest else false

pub text_before_antisymmetric :
    (a b : String) → text_before a b ≡ true → text_before b a ≡ true → a ≡ b
unfolding text_before
text_before_antisymmetric [] [] h k = refl
text_before_antisymmetric [] (d ∷ t) h k = absurd (ground arith)
text_before_antisymmetric (c ∷ s) [] h k = absurd (ground arith)
text_before_antisymmetric (c ∷ s) (d ∷ t) h k =
    let one_code : code c ≡ code d = ground arith in
    let rest : s ≡ t = text_before_antisymmetric s t (ground arith) (ground arith) in
    λ i. Char-path c d one_code i ∷ rest i

pub text_before_connex : (a b : String) → text_before a b ≡ false → text_before b a ≡ true
unfolding text_before
text_before_connex [] t h = absurd (ground arith)
text_before_connex (c ∷ s) [] h = refl
text_before_connex (c ∷ s) (d ∷ t) h = ground (arith, text_before_connex s t)

pub text_before_transitive :
    (a b c : String) → text_before a b ≡ true → text_before b c ≡ true → text_before a c ≡ true
unfolding text_before
text_before_transitive [] t u h k = refl
text_before_transitive (c ∷ s) [] u h k = absurd (ground arith)
text_before_transitive (c ∷ s) (d ∷ t) [] h k = absurd (ground arith)
text_before_transitive (c ∷ s) (d ∷ t) (e ∷ u) h k = ground (arith, text_before_transitive s t u)
