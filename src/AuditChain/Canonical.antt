-- ===== src/AuditChain/Canonical.antt =====
-- `canonicalJson` of src/modules/audit/audit.chain.service.ts: the text of a JSON value that is
-- hashed. Its objects are read back from a `jsonb` column, which does not keep the order of keys.
pub mod Laws
use beba_sacco_backend.Base.{Bool, Key, join, List, [], ◌∷◌, map, sort}

-- What the code takes from its runtime: `JSON.stringify` of a text and the order of `sort`.
-- A `literal` is a text, a number or a Boolean, by what `JSON.stringify` makes of it.
mutual
  pub data Json : Type 0 where
    null : Json
    literal : Key → Json
    array : Items → Json
    object : Fields → Json

  pub data Items : Type 0 where
    end : Items
    item : Json → Items → Items

  pub data Fields : Type 0 where
    closed : Fields
    field : Key → Json → Fields → Fields

-- `xs.join(separator)`
unfoldable pub join_with : Key → List Key → Key
unfolding join
join_with separator [] = ""
join_with separator (x ∷ []) = x
join_with separator (x ∷ y ∷ more) = join x (join separator (join_with separator (y ∷ more)))

abbrev pub by_key : (Key → Key → Bool) → Key × Key → Key × Key → Bool
by_key before a b = before a.0 b.0

module _ (stringify : Key → Key) (before : Key → Key → Bool) where
  -- `${JSON.stringify(key)}:${...}`
  unfoldable pub field_text : Key × Key → Key
  unfolding join
  field_text (key, text) = join (stringify key) (join ":" text)

  unfoldable mutual
    unfolding join join_with sort field_text

    pub canonical_json : Json → Key
    canonical_json null = "null"
    canonical_json (literal text) = text
    canonical_json (array items) = join "[" (join (join_with "," (item_texts items)) "]")
    canonical_json (object fields) =
        join "{"
          (join (join_with "," (map field_text (sort (by_key before) (field_texts fields)))) "}")

    pub item_texts : Items → List Key
    item_texts end = []
    item_texts (item value more) = canonical_json value ∷ item_texts more

    pub field_texts : Fields → List (Key × Key)
    field_texts closed = []
    field_texts (field key value more) = (key, canonical_json value) ∷ field_texts more
