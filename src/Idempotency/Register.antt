-- ===== src/Idempotency/Register.antt =====
-- A key is a register that is free, busy or done.
use beba_sacco_backend.Base.{
  ℕ, ◌<◌, if◌then◌else◌, Bool-cases, Option-cases, Bool, true, false, Key, same, truthy, Option,
  none, some, ◌≡◌, refl, sym, ap, ◌∙◌, inl, inr, arith,
}
use beba_sacco_backend.Cache.Lifetimes.{set_if_absent-lasting}
use beba_sacco_backend.Cache.{Client, ClientLaws, get, set, del}
use beba_sacco_backend.Idempotency.{
  Saved, Codec, Answer, new, processing, completed, build_key, reserved, finished,
  check_and_reserve, get_result, complete, release, answer_of, answer_raw, answer_saved,
  reserve_or_read, stored_result, result_of,
}

-- What the service promises of one key.
pub data Register (R : Type 0) : Type 0 where
  free : Register R
  busy : Register R
  done : Option R → Register R

pub data Request (R : Type 0) : Type 0 where
  reserve : Request R
  finish : R → Request R
  give_up : Request R

module _ {R : Type 0} where
  abbrev pub promised : Request R → Register R → Register R
  promised reserve free = busy
  promised reserve register = register
  promised (finish r) register = done (some r)
  promised give_up register = free

  abbrev pub told : Register R → Answer R
  told free = new
  told busy = processing
  told (done r) = completed r

  abbrev pub replay : Register R → Option R
  replay (done r) = r
  replay _ = none

module _ {C R : Type 0} (client : Client C) (json : Codec R) where
  abbrev register_of : Option (Saved R) → Register R
  register_of none = free
  register_of (some s) = if same s.status "COMPLETED" then done s.result else busy

  abbrev register_at : Option Key → Register R
  register_at none = free
  register_at (some raw) = register_of (json.parse raw)

  -- The register that the cache holds for a key.
  unfoldable pub view : Key → Key → ℕ → C → Register R
  view key tenant now c = register_at (client.read (build_key key tenant) now c)

  abbrev pub carry_out : Key → Key → ℕ → ℕ → Request R → C → C
  carry_out key tenant ttl now reserve c = (check_and_reserve client json key tenant ttl now c).1
  carry_out key tenant ttl now (finish r) c = complete client json key tenant r ttl now c
  carry_out key tenant ttl now give_up c = release client json key tenant c

  -- The value under the key is one that the service wrote.
  abbrev pub IsClean : Key → Key → ℕ → C → Type 0
  IsClean key tenant now c =
      (raw : Key)
      → client.read (build_key key tenant) now c ≡ some raw
      → (s : Saved R) × (raw ≡ json.print s)

  -- The service keeps its promise of a key.
  abbrev pub Kept : Key → Key → ℕ → ℕ → C → Request R → Type 0
  Kept key tenant ttl now c request =
      (view key tenant now (carry_out key tenant ttl now request c)
        ≡ promised request (view key tenant now c))
      × ((check_and_reserve client json key tenant ttl now c).0 ≡ told (view key tenant now c))
      × (get_result client json key tenant now c ≡ replay (view key tenant now c))

  module _ (laws : ClientLaws client)
      (parse-print : (s : Saved R) → json.parse (json.print s) ≡ some s)
      (print_filled : (s : Saved R) → truthy (some (json.print s)) ≡ some (json.print s)) where
    module _ (key tenant : Key) (ttl now : ℕ) (c : C) (up : client.answers c ≡ true)
        (lives : 0 < ttl) where
      written :
          (s : Saved R)
          → register_at (
              client.read
                (build_key key tenant)
                now
                (client.setex (build_key key tenant) (json.print s) ttl now c))
            ≡ register_of (some s)
      written s =
          ap register_at (
            laws.read-setex (build_key key tenant) (json.print s) ttl now now c (omega arith)
              (omega arith))
          ∙ ap register_of (parse-print s)

      pub set_up :
          (v : Key)
          → set client (build_key key tenant) v ttl now c
            ≡ (true, client.setex (build_key key tenant) v ttl now c)
      unfolding set
      set_up v = rw (set, up) refl

      get_up : get client (build_key key tenant) now c ≡ client.read (build_key key tenant) now c
      unfolding get
      get_up = rw (get, up) refl

      pub reserve_free :
          client.read (build_key key tenant) now c ≡ none
          → check_and_reserve client json key tenant ttl now c
            ≡ (new, client.setex (build_key key tenant) (reserved client json) ttl now c)
      unfolding check_and_reserve
      reserve_free h =
          ap (reserve_or_read client json (build_key key tenant) ttl now) (
            set_if_absent-lasting client (build_key key tenant) (reserved client json) ttl now c
              lives)
          ∙ ap
              (λ b. reserve_or_read client json (build_key key tenant) ttl now (
                if b
                then client.set_nx (build_key key tenant) (reserved client json) ttl now c
                else (false, c)))
              up
          ∙ ap (reserve_or_read client json (build_key key tenant) ttl now)
              (laws.set_nx_free (build_key key tenant) (reserved client json) ttl now c h)

      pub reserve_held :
          (s : Saved R)
          → client.read (build_key key tenant) now c ≡ some (json.print s)
          → check_and_reserve client json key tenant ttl now c ≡ (answer_of client json s, c)
      unfolding check_and_reserve reserve_or_read answer_raw
      reserve_held s h =
          ap (reserve_or_read client json (build_key key tenant) ttl now) (
            set_if_absent-lasting client (build_key key tenant) (reserved client json) ttl now c
              lives)
          ∙ ap
              (λ b. reserve_or_read client json (build_key key tenant) ttl now (
                if b
                then client.set_nx (build_key key tenant) (reserved client json) ttl now c
                else (false, c)))
              up
          ∙ ap (reserve_or_read client json (build_key key tenant) ttl now) (
              laws.set_nx_held (build_key key tenant) (reserved client json) (json.print s) ttl now
                c h)
          ∙ ap (λ o. answer_raw client json (build_key key tenant) ttl now (truthy o) c)
              (get_up ∙ h)
          ∙ ap (λ o. answer_raw client json (build_key key tenant) ttl now o c) (print_filled s)
          ∙ ap (λ o. answer_saved client json (build_key key tenant) ttl now o c) (parse-print s)

      view_free : client.read (build_key key tenant) now c ≡ none → view key tenant now c ≡ free
      unfolding view
      view_free h = ap register_at h

      view_held :
          (s : Saved R)
          → client.read (build_key key tenant) now c ≡ some (json.print s)
          → view key tenant now c ≡ register_of (some s)
      unfolding view
      view_held s h = ap register_at h ∙ ap register_of (parse-print s)

      view-complete :
          (r : R)
          → view key tenant now (complete client json key tenant r ttl now c) ≡ done (some r)
      unfolding view complete same
      view-complete r =
          ap (λ (x : Bool × C). register_at (client.read (build_key key tenant) now x.1))
            (set_up (finished client json r))
          ∙ written (record { status = "COMPLETED"; result = some r })

      view-release : view key tenant now (release client json key tenant c) ≡ free
      unfolding view release del
      view-release =
          ap
            (λ b. register_at (
              client.read (build_key key tenant) now
                (if b then client.delete (build_key key tenant) c else c)))
            up
          ∙ ap register_at (laws.read-delete (build_key key tenant) now c)

      get_result-stored :
          get_result client json key tenant now c
          ≡ stored_result client json (truthy (client.read (build_key key tenant) now c))
      unfolding get_result
      get_result-stored = ap (λ o. stored_result client json (truthy o)) get_up

      from_free :
          client.read (build_key key tenant) now c ≡ none
          → (view key tenant now (check_and_reserve client json key tenant ttl now c).1 ≡ busy)
            × ((check_and_reserve client json key tenant ttl now c).0 ≡ new)
            × (get_result client json key tenant now c ≡ none)
      unfolding view same truthy
      from_free h = (
        ap (λ (x : Answer R × C). register_at (client.read (build_key key tenant) now x.1))
              (reserve_free h)
            ∙ written (record { status = "PROCESSING"; result = none }),
        ap (λ (x : Answer R × C). x.0) (reserve_free h),
        get_result-stored ∙ ap (λ o. stored_result client json (truthy o)) h,
      )

      from_held :
          (s : Saved R)
          → client.read (build_key key tenant) now c ≡ some (json.print s)
          → (view key tenant now (check_and_reserve client json key tenant ttl now c).1
              ≡ register_of (some s))
            × ((check_and_reserve client json key tenant ttl now c).0 ≡ answer_of client json s)
            × (get_result client json key tenant now c ≡ result_of client json (some s))
      from_held s h = (
        ap (λ (x : Answer R × C). view key tenant now x.1) (reserve_held s h) ∙ view_held s h,
        ap (λ (x : Answer R × C). x.0) (reserve_held s h),
        get_result-stored
            ∙ ap (λ o. stored_result client json (truthy o)) h
            ∙ ap (stored_result client json) (print_filled s)
            ∙ ap (result_of client json) (parse-print s),
      )

      held_register :
          (s : Saved R)
          → (promised reserve (register_of (some s)) ≡ register_of (some s))
            × (told (register_of (some s)) ≡ answer_of client json s)
            × (replay (register_of (some s)) ≡ result_of client json (some s))
      unfolding answer_of
      held_register s = elim (Bool-cases (same s.status "COMPLETED")) [
        | inl e ↦ rw e (refl, refl, refl)
        | inr e ↦ rw e (refl, refl, refl)
      ]

      -- Of a key whose value the service wrote, each request does to the register of the key what
      -- is promised: it reserves a free key, finishes with a result or gives the key up; a
      -- reservation is told the register's state and its result is replayed. Redis keeps its laws and
      -- answers, the JSON texts read back and are not empty, and the lifetime is positive.
      pub serve-Kept :
          (request : Request R) → IsClean key tenant now c → Kept key tenant ttl now c request
      serve-Kept request clean = elim (Option-cases (client.read (build_key key tenant) now c)) [
        | inl h ↦
            let (after, answer, stored) = from_free h in
            (
              moves request (after ∙ sym (ap (promised reserve) (view_free h))),
              answer ∙ sym (ap told (view_free h)),
              stored ∙ sym (ap replay (view_free h)),
            )
        | inr (raw, found) ↦
            let (s, printed) = clean raw found in
            let h = found ∙ ap (λ v. some v) printed in
            let (after, answer, stored) = from_held s h in
            let (stays, tells, replays) = held_register s in
            (
              moves request (after ∙ sym (ap (promised reserve) (view_held s h) ∙ stays)),
              answer ∙ sym (ap told (view_held s h) ∙ tells),
              stored ∙ sym (ap replay (view_held s h) ∙ replays),
            )
      ]
        where
          moves :
              (request : Request R)
              → view key tenant now (carry_out key tenant ttl now reserve c)
                ≡ promised reserve (view key tenant now c)
              → view key tenant now (carry_out key tenant ttl now request c)
                ≡ promised request (view key tenant now c)
          moves reserve h = h
          moves (finish r) h = view-complete r
          moves give_up h = view-release
