-- ===== src/AuditChain/Tampering.antt =====
-- What a change of the audit rows needs to stay unseen
-- (src/modules/audit/audit.chain.service.ts).
use Prim.Native.String.{count}
use text.Mathlib.TextLemmas.{append_inj, length-append}
use beba_sacco_backend.Base.{
  ℕ, Bool-cases, Bool, true, false, Key, same, same→≡, join, List, [], ◌∷◌, ◌≡◌, refl, sym, ap, ◌∙◌,
  ◌⊎◌, inl, inr, arith, length, ◌&&◌, Option,
}
use beba_sacco_backend.AuditChain.Hashing.{
  Runtime, AuditEvent, hashed_text, serialized, verify_signature,
}
use beba_sacco_backend.AuditChain.{valid, row_holds, check_rows, genesis_hash}
use beba_sacco_backend.AuditChain.Laws.{last_hash_of}

join_inj : {a b c d : Key} → join a b ≡ join c d → count a ≡ count c → (a ≡ c) × (b ≡ d)
unfolding join
join_inj e h = append_inj e h

join_inj_right : {a b c d : Key} → join a b ≡ join c d → count b ≡ count d → (a ≡ c) × (b ≡ d)
unfolding join
join_inj_right {a} {b} {c} {d} e h =
    append_inj e (omega (arith, ap count e, length-append a b, length-append c d))

join_length : (a b : Key) → count a ≡ 24 → count b ≡ 24 → count (join "|" a) ≡ count (join "|" b)
unfolding join
join_length a b h k = omega (arith, length-append "|" a, length-append "|" b)

both_true : (a b c : Bool) → (a && (b && c)) ≡ true → (a ≡ true) × (b ≡ true)
both_true true true c h = (refl, refl)
both_true true false c h = absurd (ground arith)
both_true false b c h = absurd (ground arith)

module _ (js : Runtime) (hmac_secret : Option Key) where
  abbrev text_of : AuditEvent → Key
  text_of e = hashed_text js hmac_secret e.prev_hash e.payload e.timestamp

  -- At some place the rows were hashed from two texts that have one digest.
  abbrev pub Collide : List AuditEvent → List AuditEvent → Type 0
  Collide [] ys = ⊥
  Collide (x ∷ xs) [] = ⊥
  Collide (x ∷ xs) (y ∷ ys) =
      ((js.digest (text_of x) ≡ js.digest (text_of y)) × (same (text_of x) (text_of y) ≡ false))
      ⊎ Collide xs ys

  -- The rows hold the same events: texts of the payloads, timestamps and hashes agree.
  abbrev pub SameEvents : List AuditEvent → List AuditEvent → Type 0
  SameEvents [] [] = Unit
  SameEvents [] (y ∷ ys) = ⊥
  SameEvents (x ∷ xs) [] = ⊥
  SameEvents (x ∷ xs) (y ∷ ys) =
      (x.event_hash ≡ y.event_hash)
      × (x.prev_hash ≡ y.prev_hash)
      × (serialized js hmac_secret x.payload ≡ serialized js hmac_secret y.payload)
      × (js.iso_string x.timestamp ≡ js.iso_string y.timestamp)
      × SameEvents xs ys

  row_parts :
      (previous : Key) (e : AuditEvent)
      → row_holds js hmac_secret previous e ≡ true
      → (e.prev_hash ≡ previous) × (js.digest (text_of e) ≡ e.event_hash)
  unfolding row_holds
  row_parts previous e h =
      let (linked, hashed) =
        both_true (same e.prev_hash previous) (same (js.digest (text_of e)) e.event_hash)
          (verify_signature js hmac_secret e.payload.tenant e.event_hash e.signature) h in
      (same→≡ e.prev_hash previous linked, same→≡ (js.digest (text_of e)) e.event_hash hashed)

  held :
      (previous : Key) (e : AuditEvent) (more : List AuditEvent)
      → check_rows js hmac_secret previous (e ∷ more) ≡ valid
      → (e.prev_hash ≡ previous)
        × (js.digest (text_of e) ≡ e.event_hash)
        × (check_rows js hmac_secret e.event_hash more ≡ valid)
  unfolding check_rows
  held previous e more h = elim (Bool-cases (row_holds js hmac_secret previous e)) [
    | inl f ↦ let (linked, hashed) = row_parts previous e f in (linked, hashed, ground arith)
    | inr f ↦ absurd (ground arith)
  ]

  module _ (digest_length : (text : Key) → count (js.digest text) ≡ 64)
      (iso_length : (t : ℕ) → count (js.iso_string t) ≡ 24) where
    same_text :
        (x y : AuditEvent)
        → count x.prev_hash ≡ count y.prev_hash
        → text_of x ≡ text_of y
        → (x.prev_hash ≡ y.prev_hash)
          × (serialized js hmac_secret x.payload ≡ serialized js hmac_secret y.payload)
          × (js.iso_string x.timestamp ≡ js.iso_string y.timestamp)
    unfolding hashed_text
    same_text x y c e =
        let (prev, rest) = join_inj e c in
        let (_, rest) = join_inj rest refl in
        let (payload, rest) = join_inj_right rest (
          join_length (js.iso_string x.timestamp) (js.iso_string y.timestamp)
            (iso_length x.timestamp) (iso_length y.timestamp)) in
        let (_, iso) = join_inj rest refl in (prev, payload, iso)

    rows_agree :
        (p q : Key) (xs ys : List AuditEvent)
        → count p ≡ count q
        → check_rows js hmac_secret p xs ≡ valid
        → check_rows js hmac_secret q ys ≡ valid
        → length xs ≡ length ys
        → last_hash_of p xs ≡ last_hash_of q ys
        → ((p ≡ q) × SameEvents xs ys) ⊎ Collide xs ys
    unfolding length last_hash_of
    rows_agree p q [] [] c v w l e = inl (e, tt)
    rows_agree p q [] (y ∷ ys) c v w l e = absurd (omega arith)
    rows_agree p q (x ∷ xs) [] c v w l e = absurd (omega arith)
    rows_agree p q (x ∷ xs) (y ∷ ys) c v w l e =
        let (xp, xh, xv) = held p x xs v in
        let (yp, yh, yv) = held q y ys w in
        let lengths = ap count xp ∙ c ∙ sym (ap count yp) in
        let hashes =
          ap count (sym xh)
          ∙ digest_length (text_of x)
          ∙ sym (digest_length (text_of y))
          ∙ ap count yh in
        elim (rows_agree x.event_hash y.event_hash xs ys hashes xv yv (omega arith) e) [
          | inr found ↦ inr (inr found)
          | inl (one_hash, more) ↦ elim (Bool-cases (same (text_of x) (text_of y))) [
            | inr d ↦ inr (inl (xh ∙ one_hash ∙ sym yh, d))
            | inl d ↦
                let (prev, payload, iso) =
                  same_text x y lengths (same→≡ (text_of x) (text_of y) d) in
                inl (sym xp ∙ prev ∙ yp, (one_hash, prev, payload, iso, more))
          ]
        ]

    -- Two lists of rows of one length that both verify from the genesis hash and end in one event
    -- hash hold the same events (serialised payloads, times, links and hashes), or the two rows at
    -- some place were hashed from different texts that have one digest; the digests have 64
    -- characters and the texts of times 24.
    pub check_rows-SameEvents :
        (xs ys : List AuditEvent)
        → check_rows js hmac_secret genesis_hash xs ≡ valid
        → check_rows js hmac_secret genesis_hash ys ≡ valid
        → length xs ≡ length ys
        → last_hash_of genesis_hash xs ≡ last_hash_of genesis_hash ys
        → SameEvents xs ys ⊎ Collide xs ys
    check_rows-SameEvents xs ys v w l e =
        elim (rows_agree genesis_hash genesis_hash xs ys refl v w l e) [
          | inl (_, agree) ↦ inl agree
          | inr found ↦ inr found
        ]
