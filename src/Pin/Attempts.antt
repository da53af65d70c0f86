-- ===== src/Pin/Attempts.antt =====
-- How often a PIN can be guessed, and for how long it lives (src/modules/pin/pin.service.ts).
use beba_sacco_backend.Base.{
  subst, ℕ, ◌+◌, ◌≤◌, ◌<◌, suc, leb, ltb, if◌then◌else◌, Bool, true, false, Key, truthy, same,
  Option, none, some, List, [], ◌∷◌, length, ok, ◌≡◌, refl, sym, ap, ◌∙◌, arith, Bool-cases,
  Option-cases, inl, inr,
}
use beba_sacco_backend.Cache.{Client, ClientLaws, del}
use beba_sacco_backend.Pin.{
  LivePin, Runtime, PinDesk, PinPurpose, pin_ttl_seconds, build_key, live_pin, keep_pin,
  count_attempt, compare_pin, validate_pin, issue_to,
}
use beba_sacco_backend.Pin.Live.{
  live_pin-keep_pin, live_pin-keep_pin_expired, live_pin-del, live_pin_earlier,
}

none_is_not : {A : Type 0} {a : A} → ◌≡◌ {A = Option A} none (some a) → ⊥
none_is_not e = cc

some_inj : {A : Type 0} {a b : A} → ◌≡◌ {A = Option A} (some a) (some b) → a ≡ b
some_inj e = ground (arith, e)

-- Submitted PINs with the times of their submission, in order.
abbrev pub Guesses : Type 0
Guesses = List (ℕ × Key)

module _ {C : Type 0} (client : Client C) (js : Runtime) (user tenant : Key)
    (purpose : PinPurpose) where
  unfoldable pub submit : Guesses → PinDesk C → PinDesk C
  submit [] d = d
  submit ((t, plain) ∷ more) d =
      submit more (validate_pin client js user tenant purpose plain t d).1

  -- The times rise from `start`, and no guess has the hash `h`.
  abbrev pub AreWrong : Key → ℕ → Guesses → Type 0
  AreWrong h start [] = Unit
  AreWrong h start ((t, plain) ∷ more) =
      (start ≤ t) × (same (js.hash (js.trim plain)) h ≡ false) × AreWrong h t more

  unfoldable pub last_time : ℕ → Guesses → ℕ
  last_time start [] = start
  last_time start ((t, plain) ∷ more) = last_time t more

  -- From `start` on, a live record has the hash `h` and has counted at least `n` attempts.
  abbrev IsGuarded : Key → ℕ → ℕ → C → Type 0
  IsGuarded h n start c =
      (t : ℕ) (r : LivePin)
      → start ≤ t
      → live_pin client js (build_key tenant user purpose) t c ≡ some r
      → (r.code_hash ≡ h) × (n ≤ r.attempts) × (r.attempts < 5)

  module _ (laws : ClientLaws client) (up : (c : C) → client.answers c ≡ true)
      (parse-print : (p : LivePin) → js.parse (js.print p) ≡ some p)
      (print_filled : (p : LivePin) → truthy (some (js.print p)) ≡ some (js.print p)) where
    kept-IsGuarded :
        (p : LivePin) (n ttl now : ℕ) (c : C)
        → n ≤ p.attempts
        → p.attempts < 5
        → IsGuarded p.code_hash n now
            (keep_pin client js (build_key tenant user purpose) p ttl now c)
    kept-IsGuarded p n ttl now c least most t r after h = elim (Bool-cases (ltb t (now + ttl))) [
      | inl e ↦
          let one : p ≡ r = some_inj (
            sym (
              live_pin-keep_pin client js laws up parse-print print_filled
                (build_key tenant user purpose) p ttl now t c after (ground arith))
            ∙ h) in
          (
            ap (λ (x : LivePin). x.code_hash) (sym one),
            subst (λ (x : LivePin). n ≤ x.attempts) one least,
            subst (λ (x : LivePin). x.attempts < 5) one most,
          )
      | inr e ↦ absurd (
          none_is_not (
            sym (
              live_pin-keep_pin_expired client js laws up parse-print print_filled
                (build_key tenant user purpose) p ttl now t c (ground arith))
            ∙ h))
    ]

    pub wrong_cache :
        (now : ℕ) (plain : Key) (d : PinDesk C) (live : LivePin)
        → live_pin client js (build_key tenant user purpose) now d.cache ≡ some live
        → same (js.hash (js.trim plain)) live.code_hash ≡ false
        → (validate_pin client js user tenant purpose plain now d).1.cache
          ≡ count_attempt client js
              (build_key tenant user purpose)
              purpose
              now
              (suc live.attempts)
              live
              d.cache
    unfolding validate_pin
    wrong_cache now plain d live found wrong =
        ap (λ o. (compare_pin client js user tenant purpose plain now d o).1.cache) found
        ∙ rw (compare_pin, wrong) refl

    counted-IsGuarded :
        (n now : ℕ) (c : C) (live : LivePin)
        → n ≤ live.attempts
        → IsGuarded live.code_hash (suc n) now (
            count_attempt client js
              (build_key tenant user purpose)
              purpose
              now
              (suc live.attempts)
              live
              c)
    unfolding count_attempt
    counted-IsGuarded n now c live least t r after h =
        elim (Bool-cases (leb 5 (suc live.attempts))) [
          | inl e ↦ absurd (
              none_is_not (
                sym (
                  live_pin-del client js laws up parse-print print_filled
                    (build_key tenant user purpose) t c)
                ∙ sym (ap (λ b. live_pin client js (build_key tenant user purpose) t (branch b)) e)
                ∙ h))
          | inr e ↦
              kept-IsGuarded (record live { attempts = suc live.attempts }) (suc n)
                (pin_ttl_seconds purpose) now c (omega arith) (ground arith) t r after
                (sym (ap (λ b. live_pin client js (build_key tenant user purpose) t (branch b)) e)
                  ∙ h)
        ]
      where
        branch : Bool → C
        branch b =
            if b
            then del client (build_key tenant user purpose) c
            else keep_pin client js (build_key tenant user purpose)
                (record live { attempts = suc live.attempts }) (pin_ttl_seconds purpose) now c

    wrong-IsGuarded :
        (h : Key) (n start now : ℕ) (plain : Key) (d : PinDesk C)
        → IsGuarded h n start d.cache
        → start ≤ now
        → same (js.hash (js.trim plain)) h ≡ false
        → IsGuarded h (suc n) now (validate_pin client js user tenant purpose plain now d).1.cache
    unfolding validate_pin compare_pin
    wrong-IsGuarded h n start now plain d guarded later wrong =
        elim (Option-cases (live_pin client js (build_key tenant user purpose) now d.cache)) [
          | inl gone ↦
              let unchanged =
                ap (λ o. (compare_pin client js user tenant purpose plain now d o).1.cache) gone in
              subst (IsGuarded h (suc n) now) (sym unchanged) (λ t r after alive. absurd (
                none_is_not (
                  sym gone
                  ∙ live_pin_earlier client js laws up parse-print print_filled
                      (build_key tenant user purpose) now t d.cache r after alive)))
          | inr (live, found) ↦
              let (hashed, least, most) = guarded now live later found in
              let differs = ap (same (js.hash (js.trim plain))) hashed ∙ wrong in
              subst (IsGuarded h (suc n) now) (sym (wrong_cache now plain d live found differs)) (
                subst
                  (λ k. IsGuarded k (suc n) now (
                    count_attempt client js (build_key tenant user purpose) purpose now
                      (suc live.attempts) live d.cache))
                  hashed (counted-IsGuarded n now d.cache live least))
        ]

    submit-IsGuarded :
        (h : Key) (n m start : ℕ) (gs : Guesses) (d : PinDesk C)
        → m ≡ n + length gs
        → IsGuarded h n start d.cache
        → AreWrong h start gs
        → IsGuarded h m (last_time start gs) (submit gs d).cache
    unfolding submit last_time length
    submit-IsGuarded h n m start [] d e guarded w =
        let whole : n ≡ m = omega arith in subst (λ k. IsGuarded h k start d.cache) whole guarded
    submit-IsGuarded h n m start ((t, plain) ∷ more) d e guarded (later, wrong, w) =
        submit-IsGuarded h (suc n) m t more (validate_pin client js user tenant purpose plain t d).1
          (omega arith) (wrong-IsGuarded h n start t plain d guarded later wrong) w

    spent :
        (h : Key) (n start t : ℕ) (plain : Key) (d : PinDesk C)
        → IsGuarded h n start d.cache
        → 5 ≤ n
        → start ≤ t
        → (validate_pin client js user tenant purpose plain t d).0 ≡ ok false
    unfolding validate_pin compare_pin
    spent h n start t plain d guarded five later =
        elim (Option-cases (live_pin client js (build_key tenant user purpose) t d.cache)) [
          | inl gone ↦ ap (λ o. (compare_pin client js user tenant purpose plain t d o).0) gone
          | inr (live, found) ↦
              let (hashed, least, most) = guarded t live later found in absurd (omega arith)
        ]

    -- After a PIN is issued and at least five wrong PINs are submitted in any times that rise, no PIN
    -- is accepted any more, the right one included. Redis keeps its laws and answers, and the JSON
    -- texts of the records read back and are not empty.
    pub issue_to-bounds_attempts :
        (id pin phone plain : Key) (now t : ℕ) (gs : Guesses) (d : PinDesk C)
        → AreWrong (js.hash pin) now gs
        → 5 ≤ length gs
        → last_time now gs ≤ t
        → (validate_pin client js user tenant purpose plain t
            (submit gs (issue_to client js user tenant purpose id pin now phone d))).0
          ≡ ok false
    unfolding issue_to length submit last_time
    issue_to-bounds_attempts id pin phone plain now t gs d wrong five later =
        spent (js.hash pin) (length gs) (last_time now gs) t plain
          (submit gs (issue_to client js user tenant purpose id pin now phone d))
          (submit-IsGuarded (js.hash pin) 0 (length gs) now gs
            (issue_to client js user tenant purpose id pin now phone d) (omega arith)
            (kept-IsGuarded (record { code_hash = js.hash pin; attempts = 0 }) 0
              (pin_ttl_seconds purpose) now d.cache (omega arith) (omega arith))
            wrong)
          five later
