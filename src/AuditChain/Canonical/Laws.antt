-- ===== src/AuditChain/Canonical/Laws.antt =====
-- The canonical text does not depend on the order in which an object's keys are stored.
use beba_sacco_backend.Base.{
  Bool, true, false, Key, same, same_refl, Bool-cases, inl, inr, ◌≡◌, refl, sym, ◌∙◌, List, ◌∷◌,
  sort,
}
use beba_sacco_backend.Base.Sorting.{insert-swap}
use beba_sacco_backend.AuditChain.Canonical.{
  Json, Items, Fields, array, object, end, item, closed, field, by_key, canonical_json, item_texts,
  field_texts,
}

-- The second value is the first one with the fields of its objects, at any depth, in another order.
mutual
  pub data Reordered : Json → Json → Type 0 where
    unchanged : (j : Json) → Reordered j j
    in_array : {xs ys : Items} → ReorderedItems xs ys → Reordered (array xs) (array ys)
    in_object : {xs ys : Fields} → ReorderedFields xs ys → Reordered (object xs) (object ys)

  pub data ReorderedItems : Items → Items → Type 0 where
    at_end : ReorderedItems end end
    at_item :
        {a b : Json} {xs ys : Items}
        → Reordered a b
        → ReorderedItems xs ys
        → ReorderedItems (item a xs) (item b ys)

  pub data ReorderedFields : Fields → Fields → Type 0 where
    at_closed : ReorderedFields closed closed
    at_field :
        {k : Key} {a b : Json} {xs ys : Fields}
        → Reordered a b
        → ReorderedFields xs ys
        → ReorderedFields (field k a xs) (field k b ys)
    swap :
        {j k : Key} {a b : Json} {xs : Fields}
        → same j k ≡ false
        → ReorderedFields (field j a (field k b xs)) (field k b (field j a xs))
    then :
        {xs ys zs : Fields} → ReorderedFields xs ys → ReorderedFields ys zs → ReorderedFields xs zs

module _ (stringify : Key → Key) (before : Key → Key → Bool)
    (antisymmetric : (a b : Key) → before a b ≡ true → before b a ≡ true → a ≡ b)
    (connex : (a b : Key) → before a b ≡ false → before b a ≡ true)
    (transitive : (a b c : Key) → before a b ≡ true → before b c ≡ true → before a c ≡ true) where
  apart : (a b : Key) → same a b ≡ false → before a b ≡ true → before b a ≡ false
  apart a b d h = elim (Bool-cases (before b a)) [
    | inl e ↦ absurd (cc (same_refl a, antisymmetric a b h e, d))
    | inr e ↦ e
  ]

  sort-swap :
      (x y : Key × Key) (l : List (Key × Key))
      → same x.0 y.0 ≡ false
      → sort (by_key before) (x ∷ y ∷ l) ≡ sort (by_key before) (y ∷ x ∷ l)
  unfolding sort
  sort-swap x y l d = elim (Bool-cases (before x.0 y.0)) [
    | inl e ↦
        insert-swap (by_key before) (λ a b. connex a.0 b.0) (λ a b c. transitive a.0 b.0 c.0) x y e
          (apart x.0 y.0 d e) (sort (by_key before) l)
    | inr e ↦ sym (
        insert-swap (by_key before) (λ a b. connex a.0 b.0) (λ a b c. transitive a.0 b.0 c.0) y x
          (connex x.0 y.0 e) e (sort (by_key before) l))
  ]

  mutual
    unfolding canonical_json

    json-Reordered :
        {a b : Json}
        → Reordered a b
        → canonical_json stringify before a ≡ canonical_json stringify before b
    json-Reordered (unchanged j) = refl
    json-Reordered (in_array r) = rw (items-Reordered r) refl
    json-Reordered (in_object r) = rw (fields-Reordered r) refl

    items-Reordered :
        {xs ys : Items}
        → ReorderedItems xs ys
        → item_texts stringify before xs ≡ item_texts stringify before ys
    items-Reordered at_end = refl
    items-Reordered (at_item r rs) = rw (json-Reordered r, items-Reordered rs) refl

    fields-Reordered :
        {xs ys : Fields}
        → ReorderedFields xs ys
        → sort (by_key before) (field_texts stringify before xs)
          ≡ sort (by_key before) (field_texts stringify before ys)
    fields-Reordered at_closed = refl
    fields-Reordered (at_field r rs) = rw (json-Reordered r, fields-Reordered rs) refl
    fields-Reordered (swap {j} {k} {a} {b} {xs} d) =
        sort-swap (j, canonical_json stringify before a) (k, canonical_json stringify before b)
          (field_texts stringify before xs) d
    fields-Reordered (then r s) = fields-Reordered r ∙ fields-Reordered s

  -- Two values that differ in the order of their objects' fields only, at any depth, have one
  -- canonical text, for every total order on the keys.
  pub canonical_json-Reordered :
      {a b : Json}
      → Reordered a b
      → canonical_json stringify before a ≡ canonical_json stringify before b
  canonical_json-Reordered r = json-Reordered r
