-- ===== src/Wire/RoundTrip.antt =====
-- Arrays of src/wire read back, up to the reader's limit on their elements.
use xfo_lws.Base.{
  ℕ, ◌+◌, ◌<◌, ◌≤◌, ◌≡◌, refl, Option, none, some, List, [], ◌∷◌, ◌++◌, arith, length, All, leb,
  Bool-cases, inl, inr,
}
use xfo_lws.Base.Strings.{String}
use xfo_lws.Wire.{
  text, read_string, u32_limit, u64_limit, Value, IsPlain, PlainItems, read_items, read_array,
  write_items, write_array,
}

module _ {ℓ} {A : Type ℓ} (read : Value → Option A) (write : A → Value) (max : ℕ) where
  -- An element that the reader takes back as it was written.
  abbrev pub ReadsBack : A → Type ℓ
  ReadsBack a = read (write a) ≡ some a

  read_items-write_items :
      (xs : List A) (count : ℕ)
      → All ReadsBack xs
      → count + length xs ≤ max
      → read_items read max count (write_items write xs) ≡ some xs
  unfolding read_items write_items
  read_items-write_items [] count h n = refl
  read_items-write_items (x ∷ xs) count h n =
      ground (arith, h.0, read_items-write_items xs (count + 1) h.1)

  read_items_too_many :
      (xs : List A) (count : ℕ)
      → count ≤ max
      → max < count + length xs
      → read_items read max count (write_items write xs) ≡ none
  unfolding read_items write_items
  read_items_too_many [] count c n = absurd (omega arith)
  read_items_too_many (x ∷ xs) count c n = elim (Bool-cases (leb max count)) [
    | inl full ↦ ground arith
    | inr room ↦ ground (arith, read_items_too_many xs (count + 1))
  ]

  pub read_array-write_array :
      (xs : List A)
      → All ReadsBack xs
      → length xs ≤ max
      → read_array read max (write_array write xs) ≡ some xs
  unfolding read_array write_array
  read_array-write_array xs h n = read_items-write_items xs 0 h (omega arith)

  pub read_array_too_many :
      (xs : List A) → max < length xs → read_array read max (write_array write xs) ≡ none
  unfolding read_array write_array
  read_array_too_many xs n = read_items_too_many xs 0 (omega arith) (omega arith)

pub PlainItems-write_items {ℓ} :
    {A : Type ℓ} (write : A → Value) (xs : List A)
    → All (λ x. IsPlain (write x)) xs
    → PlainItems (write_items write xs)
unfolding write_items
PlainItems-write_items write [] h = tt
PlainItems-write_items write (x ∷ xs) h = (h.0, PlainItems-write_items write xs h.1)

-- An element that the reader does not take spoils the array.
module _ {ℓ} {A : Type ℓ} (read : Value → Option A) (write : A → Value) (max : ℕ) (x : A)
    (ys : List A) (refused : read (write x) ≡ none) where
  read_items_refused :
      (xs : List A) (count : ℕ)
      → read_items read max count (write_items write (xs ++ x ∷ ys)) ≡ none
  unfolding read_items write_items
  read_items_refused [] count = ground (arith, refused)
  read_items_refused (y ∷ xs) count = ground (arith, read_items_refused xs (count + 1))

  pub read_array_refused :
      (xs : List A) → read_array read max (write_array write (xs ++ x ∷ ys)) ≡ none
  unfolding read_array write_array
  read_array_refused xs = read_items_refused xs 0

-- Texts, and the ranges of the unsigned integers.
pub All-text : (ps : List String) → All (λ p. read_string (text p) ≡ some p) ps
All-text [] = tt
All-text (p ∷ ps) = (refl, All-text ps)

pub PlainItems-text : (ps : List String) → All (λ p. IsPlain (text p)) ps
PlainItems-text [] = tt
PlainItems-text (p ∷ ps) = (tt, PlainItems-text ps)

pub u32-u64 : {n : ℕ} → n < u32_limit → n < u64_limit
u32-u64 h = omega arith
