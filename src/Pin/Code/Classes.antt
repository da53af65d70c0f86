-- ===== src/Pin/Code/Classes.antt =====
-- A shuffle keeps the characters, and a code has every class of them.
use beba_sacco_backend.Base.{
  ℕ, zero, suc, ◌+◌, ◌-◌, ◌≤◌, ◌<◌, ◌≡◌, refl, ap, ◌∙◌, arith, Key, same, same_refl, Bool, true,
  if◌then◌else◌, List, [], ◌∷◌, ◌++◌, length, count_where, some_row,
}
use beba_sacco_backend.Pin.Code.{
  code_upper, code_lower, code_digits, code_symbols, code_all, at, put, swap, pick_char, fill,
  shuffle, first_chars, code_chars,
}

abbrev one_if : Bool → ℕ
one_if b = if b then 1 else 0

-- The character is one of the alphabet.
abbrev pub is_in : List Key → Key → Bool
is_in alphabet c = some_row (λ (x : Key). same x c) alphabet

length-put : (n : ℕ) (x : Key) (xs : List Key) → length (put n x xs) ≡ length xs
unfolding length put
length-put n x [] = refl
length-put zero x (y ∷ ys) = refl
length-put (suc n) x (y ∷ ys) = ap suc (length-put n x ys)

module _ (p : Key → Bool) where
  count_where-put :
      (n : ℕ) (x : Key) (xs : List Key)
      → n < length xs
      → count_where p (put n x xs) + one_if (p (at n xs)) ≡ count_where p xs + one_if (p x)
  unfolding length put at count_where
  count_where-put n x [] h = absurd (omega arith)
  count_where-put zero x (y ∷ ys) h = omega arith
  count_where-put (suc n) x (y ∷ ys) h = omega (arith, count_where-put n x ys (omega arith))

  at-put :
      (n m : ℕ) (xs : List Key)
      → n < length xs
      → m < length xs
      → at m (put n (at m xs) xs) ≡ at m xs
  unfolding length put at
  at-put n m [] h k = refl
  at-put zero zero (y ∷ ys) h k = refl
  at-put zero (suc m) (y ∷ ys) h k = refl
  at-put (suc n) zero (y ∷ ys) h k = refl
  at-put (suc n) (suc m) (y ∷ ys) h k = at-put n m ys (omega arith) (omega arith)

  count_where-swap :
      (i j : ℕ) (xs : List Key)
      → i < length xs
      → j < length xs
      → count_where p (swap i j xs) ≡ count_where p xs
  unfolding swap
  count_where-swap i j xs h k = omega (
    arith,
    count_where-put i (at j xs) xs h,
    count_where-put j (at i xs) (put i (at j xs) xs) (rw (length-put i (at j xs) xs) k),
    ap (λ c. one_if (p c)) (at-put i j xs h k),
  )

length-swap : (i j : ℕ) (xs : List Key) → length (swap i j xs) ≡ length xs
unfolding swap
length-swap i j xs = length-put j (at i xs) (put i (at j xs) xs) ∙ length-put i (at j xs) xs

at-is_in : (n : ℕ) (xs : List Key) → n < length xs → is_in xs (at n xs) ≡ true
unfolding length at some_row
at-is_in n [] h = absurd (omega arith)
at-is_in zero (x ∷ xs) h = rw (same_refl x) refl
at-is_in (suc n) (x ∷ xs) h = ground (arith, at-is_in n xs)

filled : (x : Key) (xs : List Key) → 0 < length (x ∷ xs)
unfolding length
filled x xs = omega arith

length-snoc : (xs : List Key) (y : Key) → length (xs ++ y ∷ []) ≡ suc (length xs)
unfolding length
length-snoc [] y = refl
length-snoc (x ∷ xs) y = ap suc (length-snoc xs y)

module _ (draw : ℕ → ℕ → ℕ) (draws : (k n : ℕ) → 0 < n → draw k n < n) where
  length-fill : (n k : ℕ) (xs : List Key) → length (fill draw n k xs) ≡ length xs + n
  unfolding fill
  length-fill zero k xs = omega arith
  length-fill (suc n) k xs = omega (
    arith,
    length-fill n (suc k) (xs ++ pick_char draw k code_all ∷ []),
    length-snoc xs (pick_char draw k code_all),
  )

  four : length (first_chars draw) ≡ 4
  unfolding first_chars length
  four = refl

  length-shuffle : (i k : ℕ) (xs : List Key) → length (shuffle draw i k xs) ≡ length xs
  unfolding shuffle
  length-shuffle zero k xs = refl
  length-shuffle (suc i) k xs =
      length-shuffle i (suc k) (swap (suc i) (draw k (suc (suc i))) xs)
      ∙ length-swap (suc i) (draw k (suc (suc i))) xs

  module _ (p : Key → Bool) where
    count_where-snoc : (xs : List Key) (y : Key) → count_where p xs ≤ count_where p (xs ++ y ∷ [])
    unfolding count_where
    count_where-snoc [] y = omega arith
    count_where-snoc (x ∷ xs) y = omega (arith, count_where-snoc xs y)

    count_where-fill :
        (n k : ℕ) (xs : List Key) → count_where p xs ≤ count_where p (fill draw n k xs)
    unfolding fill
    count_where-fill zero k xs = omega arith
    count_where-fill (suc n) k xs = omega (
      arith,
      count_where-fill n (suc k) (xs ++ pick_char draw k code_all ∷ []),
      count_where-snoc xs (pick_char draw k code_all),
    )

    count_where-shuffle :
        (i k : ℕ) (xs : List Key)
        → i < length xs
        → count_where p (shuffle draw i k xs) ≡ count_where p xs
    unfolding shuffle
    count_where-shuffle zero k xs h = refl
    count_where-shuffle (suc i) k xs h =
        let drawn = draws k (suc (suc i)) (omega arith) in
        let same_length = length-swap (suc i) (draw k (suc (suc i))) xs in
        count_where-shuffle i (suc k) (swap (suc i) (draw k (suc (suc i))) xs) (omega arith)
        ∙ count_where-swap p (suc i) (draw k (suc (suc i))) xs h (omega arith)

    count_first :
        (a b c d : Key)
        → count_where p (a ∷ b ∷ c ∷ d ∷ [])
          ≡ one_if (p a) + (one_if (p b) + (one_if (p c) + one_if (p d)))
    unfolding count_where
    count_first a b c d = omega arith

    kept_by_code :
        (size : ℕ) → count_where p (first_chars draw) ≤ count_where p (code_chars draw size)
    unfolding code_chars
    kept_by_code size =
        let chars = fill draw (size - 4) 4 (first_chars draw) in
        let long = length-fill (size - 4) 4 (first_chars draw) in
        omega (
          arith,
          count_where-fill (size - 4) 4 (first_chars draw),
          count_where-shuffle (length chars - 1) (4 + (size - 4)) chars (omega (arith, long, four)),
        )

  picked :
      (k : ℕ) (alphabet : List Key)
      → 0 < length alphabet
      → one_if (is_in alphabet (pick_char draw k alphabet)) ≡ 1
  unfolding pick_char
  picked k alphabet h =
      ap one_if (at-is_in (draw k (length alphabet)) alphabet (draws k (length alphabet) h))

  -- How many of the first four characters an alphabet has.
  among :
      (alphabet : List Key)
      → count_where (is_in alphabet) (first_chars draw)
        ≡ one_if (is_in alphabet (pick_char draw 0 code_upper))
          + (one_if (is_in alphabet (pick_char draw 1 code_lower))
              + (one_if (is_in alphabet (pick_char draw 2 code_digits))
                  + one_if (is_in alphabet (pick_char draw 3 code_symbols))))
  unfolding first_chars
  among alphabet = count_first (is_in alphabet) _ _ _ _

  long : (size : ℕ) → 4 ≤ size → length (code_chars draw size) ≡ size
  unfolding code_chars
  long size h =
      let chars = fill draw (size - 4) 4 (first_chars draw) in
      omega (
        arith,
        length-shuffle (length chars - 1) (4 + (size - 4)) chars,
        length-fill (size - 4) 4 (first_chars draw),
        four,
      )

  -- A code of at least four characters has the length asked for and, wherever the random numbers are
  -- below their bounds, a capital, a small letter, a digit and a symbol of the alphabets.
  pub code_chars_classes :
      (size : ℕ)
      → 4 ≤ size
      → (length (code_chars draw size) ≡ size)
        × (0 < count_where (is_in code_upper) (code_chars draw size))
        × (0 < count_where (is_in code_lower) (code_chars draw size))
        × (0 < count_where (is_in code_digits) (code_chars draw size))
        × (0 < count_where (is_in code_symbols) (code_chars draw size))
  code_chars_classes size h = (
    long size h,
    omega (
      arith,
      kept_by_code (is_in code_upper) size,
      among code_upper,
      picked 0 code_upper (filled _ _),
    ),
    omega (
      arith,
      kept_by_code (is_in code_lower) size,
      among code_lower,
      picked 1 code_lower (filled _ _),
    ),
    omega (
      arith,
      kept_by_code (is_in code_digits) size,
      among code_digits,
      picked 2 code_digits (filled _ _),
    ),
    omega (
      arith,
      kept_by_code (is_in code_symbols) size,
      among code_symbols,
      picked 3 code_symbols (filled _ _),
    ),
  )
