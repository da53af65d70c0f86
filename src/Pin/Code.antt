-- ===== src/Pin/Code.antt =====
-- `generateCode` of src/modules/pin/pin.service.ts: a code with every class of characters, shuffled.
pub mod Classes
use beba_sacco_backend.Base.{ℕ, zero, suc, ◌+◌, ◌-◌, Key, join, List, [], ◌∷◌, ◌++◌, length}

-- The constants `CODE_UPPER` and so on, as the lists of their characters.
abbrev pub code_upper : List Key
code_upper =
    "A" ∷ "B" ∷ "C" ∷ "D" ∷ "E" ∷ "F" ∷ "G" ∷ "H" ∷ "J" ∷ "K" ∷ "M" ∷ "N" ∷ "P" ∷ "Q" ∷ "R" ∷ "S"
    ∷ "T" ∷ "U" ∷ "V" ∷ "W" ∷ "X" ∷ "Y" ∷ "Z" ∷ []

abbrev pub code_lower : List Key
code_lower =
    "a" ∷ "b" ∷ "c" ∷ "d" ∷ "e" ∷ "f" ∷ "g" ∷ "h" ∷ "j" ∷ "k" ∷ "m" ∷ "n" ∷ "p" ∷ "q" ∷ "r" ∷ "s"
    ∷ "t" ∷ "u" ∷ "v" ∷ "w" ∷ "x" ∷ "y" ∷ "z" ∷ []

abbrev pub code_digits : List Key
code_digits = "2" ∷ "3" ∷ "4" ∷ "5" ∷ "6" ∷ "7" ∷ "8" ∷ "9" ∷ []

abbrev pub code_symbols : List Key
code_symbols = "@" ∷ "#" ∷ "$" ∷ "!" ∷ []

abbrev pub code_all : List Key
code_all = code_upper ++ code_lower ++ code_digits ++ code_symbols

-- `xs[n]`, which is undefined, here the empty text, out of range
unfoldable pub at : ℕ → List Key → Key
at n [] = ""
at zero (x ∷ xs) = x
at (suc n) (x ∷ xs) = at n xs

-- `xs[n] = x` for an index in range
unfoldable pub put : ℕ → Key → List Key → List Key
put n x [] = []
put zero x (y ∷ ys) = x ∷ ys
put (suc n) x (y ∷ ys) = y ∷ put n x ys

-- `[chars[i], chars[j]] = [chars[j], chars[i]]`
unfoldable pub swap : ℕ → ℕ → List Key → List Key
unfolding at put
swap i j xs = put j (at i xs) (put i (at j xs) xs)

-- `draw k n` is what the `k`-th call of `randomInt(n)` gives.
module _ (draw : ℕ → ℕ → ℕ) where
  unfoldable pub pick_char : ℕ → List Key → Key
  unfolding at length
  pick_char k chars = at (draw k (length chars)) chars

  -- The loop that appends `n` characters of any class
  unfoldable pub fill : ℕ → ℕ → List Key → List Key
  unfolding pick_char
  fill zero k chars = chars
  fill (suc n) k chars = fill n (suc k) (chars ++ pick_char k code_all ∷ [])

  -- The loop over `i`, from the last index down to 1
  unfoldable pub shuffle : ℕ → ℕ → List Key → List Key
  unfolding swap
  shuffle zero k chars = chars
  shuffle (suc i) k chars = shuffle i (suc k) (swap (suc i) (draw k (suc (suc i))) chars)

  unfoldable pub first_chars : List Key
  unfolding pick_char
  first_chars =
      pick_char 0 code_upper
      ∷ pick_char 1 code_lower
      ∷ pick_char 2 code_digits
      ∷ pick_char 3 code_symbols
      ∷ []

  unfoldable pub code_chars : ℕ → List Key
  unfolding first_chars fill shuffle length
  code_chars size =
      let chars = fill (size - 4) 4 first_chars in shuffle (length chars - 1) (4 + (size - 4)) chars

unfoldable pub concat : List Key → Key
unfolding join
concat [] = ""
concat (x ∷ xs) = join x (concat xs)

-- `generateCode`
unfoldable pub generate_code : (ℕ → ℕ → ℕ) → ℕ → Key
unfolding code_chars concat
generate_code draw size = concat (code_chars draw size)
