-- ===== src/ApprovalChain/Laws.antt =====
-- Two signatures of one chain come from two people.
use mathlib.Core.Path.{subst}
use beba_sacco_backend.Base.{
  same_refl, not, same→≡, Key, same, same_sym, Bool, true, false, ◌&&◌, Option-cases, Bool-cases,
  List, [], ◌∷◌, ◌++◌, ok, arith, ◌≡◌, refl, inl, inr, All, Unique, find_first, rows_where,
  count_where, all_rows, some_row, update_many, length, ◌==◌, if◌then◌else◌,
}
use beba_sacco_backend.Base.Tables.Laws.{Unique-update_many}
use beba_sacco_backend.ApprovalChain.Started.{none_counted, chain_of_two, init-slots}
use beba_sacco_backend.ApprovalChain.{
  new_slot, Slot, Desk, is_pending, is_approved, is_of, decide, waits_for, signed_by, conclude,
  sign_off, init_approval_chain, is_chain_approved,
}

abbrev pub slot_key : Slot → Key
slot_key c = c.id

abbrev pub approver_of : Slot → Key
approver_of c = c.approver

decided :
    (approver : Key) (approve : Bool) (c : Slot)
    → is_pending (decide approver approve c).status ≡ false
decided approver true c = refl
decided approver false c = refl

module _ (loan tenant : Key) where
  abbrev signed : Slot → Bool
  signed c = is_of loan tenant c && not (is_pending c.status)

  -- Two signed slots of the chain with one approver.
  abbrev clash : Slot → Slot → Bool
  clash x y = signed x && (signed y && same y.approver x.approver)

  abbrev Apart : List Slot → Type 0
  Apart [] = Unit
  Apart (x ∷ xs) = All (λ y. clash x y ≡ false) xs × Apart xs

  abbrev signed_too : Key → Slot → Bool
  signed_too approver y = signed y && same y.approver approver

  none_signed :
      (approver : Key) (xs : List Slot)
      → some_row (signed_by approver) (rows_where (is_of loan tenant) xs) ≡ false
      → All (λ y. signed_too approver y ≡ false) xs
  unfolding rows_where some_row
  none_signed approver [] h = tt
  none_signed approver (x ∷ xs) h = elim (Bool-cases (is_of loan tenant x)) [
    | inl e ↦ ((ground arith), none_signed approver xs (ground arith))
    | inr e ↦ ((ground arith), none_signed approver xs (ground arith))
  ]

  module _ (approver k : Key) (approve : Bool) where
    abbrev after : Slot → Slot
    after c = if same c.id k then decide approver approve c else c

    clash_after :
        (x y : Slot) → signed_too approver x ≡ false → clash x y ≡ false → clash x (after y) ≡ false
    clash_after x y h e = elim (Bool-cases (same y.id k)) [
      | inl f ↦ rw f (rw (same_sym approver x.approver) (ground arith))
      | inr f ↦ rw f e
    ]

    clash_first :
        (x y : Slot)
        → same y.id k ≡ false
        → signed_too approver y ≡ false
        → clash (decide approver approve x) (after y) ≡ false
    clash_first x y f h = rw f (ground arith)

    others :
        (x : Slot) (ys : List Slot)
        → signed_too approver x ≡ false
        → All (λ y. clash x y ≡ false) ys
        → All (λ y. clash x y ≡ false) (update_many (λ c. same c.id k) (decide approver approve) ys)
    unfolding update_many
    others x [] h a = tt
    others x (y ∷ ys) h a = (clash_after x y h a.0, others x ys h a.1)

    others_first :
        (x : Slot) (ys : List Slot)
        → All (λ y. same y.id k ≡ false) ys
        → All (λ y. signed_too approver y ≡ false) ys
        → All
            (λ y. clash (decide approver approve x) y ≡ false)
            (update_many (λ c. same c.id k) (decide approver approve) ys)
    unfolding update_many
    others_first x [] a b = tt
    others_first x (y ∷ ys) a b = (clash_first x y a.0 b.0, others_first x ys a.1 b.1)

    update-Apart :
        (xs : List Slot)
        → Unique slot_key xs
        → All (λ y. signed_too approver y ≡ false) xs
        → Apart xs
        → Apart (update_many (λ c. same c.id k) (decide approver approve) xs)
    unfolding update_many
    update-Apart [] u n a = tt
    update-Apart (x ∷ xs) u n a = elim (Bool-cases (same x.id k)) [
      | inl e ↦ rw e (
        others_first x xs
            (subst (λ i. All (λ (y : Slot). same y.id i ≡ false) xs) (same→≡ x.id k e) u.0) n.1,
        update-Apart xs u.1 n.1 a.1,
      )
      | inr e ↦ rw e (others x xs n.0 a.0, update-Apart xs u.1 n.1 a.1)
    ]

    update-length :
        (xs : List Slot)
        → length (
            rows_where
              (is_of loan tenant)
              (update_many (λ c. same c.id k) (decide approver approve) xs))
          ≡ length (rows_where (is_of loan tenant) xs)
    unfolding update_many rows_where length
    update-length [] = refl
    update-length (x ∷ xs) =
        let rest : _ = update-length xs in
        elim (Bool-cases (is_of loan tenant x)) [
          | inl e ↦ elim (Bool-cases (same x.id k)) [
            | inl f ↦ rw (f, e, rest) refl
            | inr f ↦ rw (f, e, rest) refl
          ]
          | inr e ↦ elim (Bool-cases (same x.id k)) [
            | inl f ↦ rw (f, e, rest) refl
            | inr f ↦ rw (f, e, rest) refl
          ]
        ]

  -- What a call of `signOff` that does not throw has found and written.
  sign_off-ok :
      (approver role : Key) (approve : Bool) (d d' : Desk) (r : Bool × Bool)
      → sign_off loan tenant approver role approve d ≡ ok (r, d')
      → (slot : Slot) × (d'.slots
          ≡ update_many (λ c. same c.id slot.id) (decide approver approve) d.slots)
        × (some_row (signed_by approver) (rows_where (is_of loan tenant) d.slots) ≡ false)
  unfolding sign_off conclude
  sign_off-ok approver role approve d d' r h =
      elim (Bool-cases (length (rows_where (is_of loan tenant) d.slots) == 0)) [
        | inl empty ↦ absurd (ground arith)
        | inr full ↦
            elim (Option-cases
              (find_first (waits_for role) (rows_where (is_of loan tenant) d.slots))) [
                | inl none_waits ↦ absurd (ground arith)
                | inr (slot, found) ↦
                    elim (Bool-cases
                      (some_row (signed_by approver) (rows_where (is_of loan tenant) d.slots))) [
                        | inl before ↦ absurd (ground arith)
                        | inr first_time ↦ (slot, (ground arith), first_time)
                      ]
              ]
      ]

  record IsDesk (d : Desk) : Type 0 where
    ids : Unique slot_key d.slots
    apart : Apart d.slots
    both : length (rows_where (is_of loan tenant) d.slots) ≡ 2

  sign_off-IsDesk :
      (approver role : Key) (approve : Bool) (d d' : Desk) (r : Bool × Bool)
      → sign_off loan tenant approver role approve d ≡ ok (r, d')
      → IsDesk d
      → IsDesk d'
  sign_off-IsDesk approver role approve d d' r h desk =
      let (slot, written, first_time) = sign_off-ok approver role approve d d' r h in
      record {
        ids = rw written (Unique-update_many slot_key _ _ (λ c. refl) d.slots desk.ids);
        apart = rw written (
            update-Apart approver slot.id approve d.slots desk.ids
              (none_signed approver d.slots first_time) desk.apart);
        both = rw written (rw (update-length approver slot.id approve d.slots) desk.both);
      }

  -- Calls of `signOff` on this loan, by whomever, that went through.
  pub data Signings : Desk → Desk → Type 0 where
    done : {d : Desk} → Signings d d
    sign :
        {d d' d'' : Desk} (approver role : Key) (approve : Bool) (r : Bool × Bool)
        → sign_off loan tenant approver role approve d ≡ ok (r, d')
        → Signings d' d''
        → Signings d d''

  Signings-IsDesk : {d d' : Desk} → Signings d d' → IsDesk d → IsDesk d'
  Signings-IsDesk done desk = desk
  Signings-IsDesk (sign {d} {d'} approver role approve r h rest) desk =
      Signings-IsDesk rest (sign_off-IsDesk approver role approve d d' r h desk)

  no_clash : (x : Slot) (xs : List Slot) → signed x ≡ false → All (λ y. clash x y ≡ false) xs
  no_clash x [] h = tt
  no_clash x (y ∷ ys) h = (rw h refl, no_clash x ys h)

  unsigned-Apart :
      (xs : List Slot) (a b : Slot)
      → All (λ c. is_of loan tenant c ≡ false) xs
      → is_pending a.status ≡ true
      → is_pending b.status ≡ true
      → Apart (xs ++ a ∷ b ∷ [])
  unsigned-Apart [] a b n ha hb = (no_clash a (b ∷ []) (ground arith), (tt, tt))
  unsigned-Apart (x ∷ xs) a b n ha hb =
      (no_clash x _ (ground arith), unsigned-Apart xs a b n.1 ha hb)

  approved_clash :
      (x y : Slot)
      → clash x y ≡ false
      → signed x ≡ true
      → is_of loan tenant y ≡ true
      → is_approved y.status ≡ true
      → same (approver_of y) (approver_of x) ≡ false
  approved_clash x y c s e h = ground arith

  others_differ :
      (x : Slot) (ys : List Slot)
      → All (λ y. clash x y ≡ false) ys
      → signed x ≡ true
      → all_rows (λ c. is_approved c.status) (rows_where (is_of loan tenant) ys) ≡ true
      → All (λ y. same (approver_of y) (approver_of x) ≡ false) (rows_where (is_of loan tenant) ys)
  unfolding rows_where all_rows
  others_differ x [] a s h = tt
  others_differ x (y ∷ ys) a s h = elim (Bool-cases (is_of loan tenant y)) [
    | inl e ↦
        rw e ((approved_clash x y a.0 s e (ground arith)), others_differ x ys a.1 s (ground arith))
    | inr e ↦ rw e (others_differ x ys a.1 s (ground arith))
  ]

  approved-Unique :
      (xs : List Slot)
      → Apart xs
      → all_rows (λ c. is_approved c.status) (rows_where (is_of loan tenant) xs) ≡ true
      → Unique approver_of (rows_where (is_of loan tenant) xs)
  unfolding rows_where all_rows
  approved-Unique [] a h = tt
  approved-Unique (x ∷ xs) a h = elim (Bool-cases (is_of loan tenant x)) [
    | inl e ↦ rw e (
      others_differ x xs a.0 (ground arith) (ground arith),
      approved-Unique xs a.1 (ground arith),
    )
    | inr e ↦ rw e (approved-Unique xs a.1 (ground arith))
  ]

  -- A chain is set up for a loan that has none, and any number of sign-offs on that loan go
  -- through. If the chain then counts as approved, it has two slots, and two different people have
  -- approved them. The database gives the slots different ids.
  pub chain-four_eyes :
      (first second : Key) (d d1 d2 : Desk) (u : Unit {0})
      → count_where (is_of loan tenant) d.slots ≡ 0
      → init_approval_chain first second loan tenant d ≡ ok (u, d1)
      → Unique slot_key d1.slots
      → Signings d1 d2
      → is_chain_approved loan tenant d2 ≡ true
      → (length (rows_where (is_of loan tenant) d2.slots) ≡ 2)
        × Unique approver_of (rows_where (is_of loan tenant) d2.slots)
  unfolding is_chain_approved
  chain-four_eyes first second d d1 d2 u none_yet started ids signings approved =
      let slots : _ = init-slots loan tenant first second d d1 u none_yet started in
      let none_of : _ = none_counted loan tenant d.slots none_yet in
      let mine : is_of loan tenant (new_slot first loan tenant "MANAGER") ≡ true =
        rw (same_refl loan, same_refl tenant) refl in
      let desk : IsDesk d1 = record {
        ids = ids;
        apart = rw slots (unsigned-Apart d.slots _ _ none_of refl refl);
        both = rw slots (chain_of_two loan tenant d.slots _ _ none_of mine mine);
      } in
      let after_all : IsDesk d2 = Signings-IsDesk signings desk in
      (after_all.both, approved-Unique d2.slots after_all.apart (rw after_all.both at approved))
