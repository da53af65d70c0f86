-- ===== src/Pin/Live.antt =====
-- What the cache holds of a PIN after it is written, counted down or deleted.
use beba_sacco_backend.Base.{
  Bool, false, sym, ℕ, ◌+◌, ◌≤◌, ◌<◌, if◌then◌else◌, true, Key, truthy, Option, none, some, ◌≡◌,
  refl, ap, ◌∙◌, Option-cases, inl, inr,
}
use beba_sacco_backend.Cache.{Client, ClientLaws, get, set, del}
use beba_sacco_backend.Pin.{LivePin, Runtime, parsed, live_pin, keep_pin}

module _ {C : Type 0} (client : Client C) (js : Runtime) (laws : ClientLaws client)
    (up : (c : C) → client.answers c ≡ true)
    (parse-print : (p : LivePin) → js.parse (js.print p) ≡ some p)
    (print_filled : (p : LivePin) → truthy (some (js.print p)) ≡ some (js.print p)) where
  get_read : (k : Key) (t : ℕ) (c : C) → get client k t c ≡ client.read k t c
  unfolding get
  get_read k t c = rw (get, up c) refl

  kept_by :
      (k : Key) (p : LivePin) (ttl now : ℕ) (c : C)
      → keep_pin client js k p ttl now c ≡ client.setex k (js.print p) ttl now c
  unfolding keep_pin set
  kept_by k p ttl now c =
      ap (λ (r : Bool × C). r.1)
        (ap (λ b. if b then (true, client.setex k (js.print p) ttl now c) else (false, c)) (up c))

  live_as :
      (k : Key) (t : ℕ) (c : C) (o : Option Key)
      → client.read k t c ≡ o
      → live_pin client js k t c ≡ parsed client js (truthy o)
  unfolding live_pin
  live_as k t c o h = ap (λ x. parsed client js (truthy x)) (get_read k t c ∙ h)

  pub live_pin-keep_pin :
      (k : Key) (p : LivePin) (ttl now t : ℕ) (c : C)
      → now ≤ t
      → t < now + ttl
      → live_pin client js k t (keep_pin client js k p ttl now c) ≡ some p
  live_pin-keep_pin k p ttl now t c after before =
      ap (live_pin client js k t) (kept_by k p ttl now c)
      ∙ live_as k t (client.setex k (js.print p) ttl now c) (some (js.print p))
          (laws.read-setex k (js.print p) ttl now t c after before)
      ∙ ap (parsed client js) (print_filled p)
      ∙ parse-print p

  pub live_pin-keep_pin_expired :
      (k : Key) (p : LivePin) (ttl now t : ℕ) (c : C)
      → now + ttl ≤ t
      → live_pin client js k t (keep_pin client js k p ttl now c) ≡ none
  unfolding truthy
  live_pin-keep_pin_expired k p ttl now t c after =
      ap (live_pin client js k t) (kept_by k p ttl now c)
      ∙ live_as k t (client.setex k (js.print p) ttl now c) none
          (laws.read-setex_expired k (js.print p) ttl now t c after)

  pub live_pin-del : (k : Key) (t : ℕ) (c : C) → live_pin client js k t (del client k c) ≡ none
  unfolding truthy del
  live_pin-del k t c =
      ap (λ b. live_pin client js k t (if b then client.delete k c else c)) (up c)
      ∙ live_as k t (client.delete k c) none (laws.read-delete k t c)

  -- A record that is live later is live now.
  pub live_pin_earlier :
      (k : Key) (now t : ℕ) (c : C) (p : LivePin)
      → now ≤ t
      → live_pin client js k t c ≡ some p
      → live_pin client js k now c ≡ some p
  unfolding truthy
  live_pin_earlier k now t c p later h = elim (Option-cases (client.read k t c)) [
    | inl gone ↦ absurd (cc (h, live_as k t c none gone))
    | inr (raw, found) ↦
        live_as k now c (some raw) (laws.read_earlier k raw now t c later found)
        ∙ sym (live_as k t c (some raw) found)
        ∙ h
  ]
