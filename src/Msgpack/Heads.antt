-- ===== src/Msgpack/Heads.antt =====
-- One round of msgpack_reader::skip_value (src/wire/msgpack/read.cpp) on the head of an array or an object.
use xfo_lws.Base.{
  ℕ, ◌+◌, ◌-◌, ◌*◌, ◌/◌, ◌%◌, ◌^◌, ◌<◌, ◌≤◌, ◌≡◌, refl, ap, ◌∙◌, false, true, some, List, [], ◌∷◌,
  ◌++◌, ltb, leb, ◌==◌, length-append, All, Bool-cases, inl, inr, arith,
}
use xfo_lws.Base.Results.{Holds, Holds-then}
use xfo_lws.Base.Table.{Table, lookup}
use xfo_lws.Msgpack.{ftag_array, ftag_object, string_types, array_types, object_types}
use xfo_lws.Msgpack.Write.{big_endian, write_endian, match_size, write_count, write_fixed_count}
use xfo_lws.Msgpack.Read.{
  reading, not_array, not_object, done, Action, ◌>>=◌, return, bind-done, max_size, read_count,
  start_array, start_object, enter_array, enter_object, check_array, check_object, get_tag,
  increment_depth,
}
use xfo_lws.Msgpack.Skip.{has_type, skip_tag}
use xfo_lws.Msgpack.Counts.{
  match_size-All, Announced, Counted, endian-Counted, array_types-AllAnnounced,
  object_types-AllAnnounced,
}
use xfo_lws.Msgpack.Rounds.{taken, Entered, has_type-small}

abbrev skip_array : Action Unit
skip_array = do n ← start_array 0; return tt

abbrev skip_object : Action Unit
skip_object = do n ← start_object; return tt

deeper :
    (t e : ℕ) (rest : List ℕ)
    → e + 1 < 100
    → increment_depth (reading rest t e) ≡ done tt (reading rest t (e + 1))
unfolding increment_depth
deeper t e rest h = let deep : (e + 1 == 100) ≡ false = ground arith in rw deep refl

array_checked :
    (n t e : ℕ) (rest : List ℕ)
    → t + n ≤ max_size
    → check_array 0 n (reading rest t e) ≡ done tt (reading rest t e)
array_checked n t e rest h = let room : ltb (max_size - t) n ≡ false = ground arith in rw room refl

object_checked :
    (n t e : ℕ) (rest : List ℕ)
    → t + n * 2 ≤ max_size
    → check_object n (reading rest t e) ≡ done tt (reading rest t e)
object_checked n t e rest h =
    let half : ltb (max_size / 2) n ≡ false = ground arith in
    let room : ltb (max_size - t) (n * 2) ≡ false = ground arith in rw (half, room) refl

enter_array-done :
    (n t e : ℕ) (rest : List ℕ)
    → t + n ≤ max_size
    → e + 1 < 100
    → enter_array 0 n (reading rest t e) ≡ done n (reading rest (t + n) (e + 1))
unfolding enter_array
enter_array-done n t e rest fits shallow =
    bind-done (check_array 0 n) _ _ _ _ (array_checked n t e rest fits)
    ∙ bind-done increment_depth (λ c. return n) (reading rest (t + n) e)
        (reading rest (t + n) (e + 1)) tt (deeper (t + n) e rest shallow)

enter_object-done :
    (n t e : ℕ) (rest : List ℕ)
    → t + n * 2 ≤ max_size
    → e + 1 < 100
    → enter_object n (reading rest t e) ≡ done n (reading rest (t + n * 2) (e + 1))
unfolding enter_object
enter_object-done n t e rest fits shallow =
    bind-done (check_object n) _ _ _ _ (object_checked n t e rest fits)
    ∙ bind-done increment_depth (λ c. return n) (reading rest (t + n * 2) e)
        (reading rest (t + n * 2) (e + 1)) tt (deeper (t + n * 2) e rest shallow)

-- A tag that the switch takes for the head of an array, at the front of a count.
array-Entered :
    (b n : ℕ) (bs : List ℕ)
    → skip_tag b ≡ skip_array
    → Counted ftag_array array_types not_array n (b ∷ bs)
    → Entered n (b ∷ bs)
unfolding start_array
array-Entered b n bs array counted t e rest one fits shallow =
    let r = reading (b ∷ (bs ++ rest)) t e in
    let body : skip_tag b r ≡ done tt (reading rest (t + n) (e + 1)) =
      ap (λ (a : Action Unit). a r) array
      ∙ bind-done (start_array 0) (λ k. return tt) r (reading rest (t + n) (e + 1)) n
          (bind-done (read_count ftag_array array_types not_array) (enter_array 0) r
              (reading rest t e) n (counted t e rest)
            ∙ enter_array-done n t e rest fits shallow) in
    taken b t e (t + n) (e + 1) (bs ++ rest) rest body (omega (arith, length-append bs rest))
      (omega arith)

object-Entered :
    (b n : ℕ) (bs : List ℕ)
    → skip_tag b ≡ skip_object
    → Counted ftag_object object_types not_object n (b ∷ bs)
    → Entered (n * 2) (b ∷ bs)
unfolding start_object
object-Entered b n bs object counted t e rest one fits shallow =
    let r = reading (b ∷ (bs ++ rest)) t e in
    let body : skip_tag b r ≡ done tt (reading rest (t + n * 2) (e + 1)) =
      ap (λ (a : Action Unit). a r) object
      ∙ bind-done start_object (λ k. return tt) r (reading rest (t + n * 2) (e + 1)) n
          (bind-done (read_count ftag_object object_types not_object) enter_object r
              (reading rest t e) n (counted t e rest)
            ∙ enter_object-done n t e rest fits shallow) in
    taken b t e (t + n * 2) (e + 1) (bs ++ rest) rest body (omega (arith, length-append bs rest))
      (omega arith)

skip_tag-array : (n : ℕ) → n < 16 → skip_tag (0x90 + n) ≡ skip_array
unfolding skip_tag
skip_tag-array n h =
    let string : ((0x90 + n) / 32 == 5) ≡ false = ground arith in
    let array : ((0x90 + n) / 16 == 9) ≡ true = ground arith in
    rw (string, array, has_type-small 160 (0x90 + n) string_types (omega arith) refl) refl

skip_tag-object : (n : ℕ) → n < 16 → skip_tag (0x80 + n) ≡ skip_object
unfolding skip_tag
skip_tag-object n h =
    let string : ((0x80 + n) / 32 == 5) ≡ false = ground arith in
    let array : ((0x80 + n) / 16 == 9) ≡ false = ground arith in
    let object : ((0x80 + n) / 16 == 8) ≡ true = ground arith in
    rw
      (
        string,
        array,
        object,
        has_type-small 160 (0x80 + n) string_types (omega arith) refl,
        has_type-small 160 (0x80 + n) array_types (omega arith) refl,
      )
      refl

fixed_array-Counted :
    (n : ℕ) → n < 16 → Counted ftag_array array_types not_array n ((0x90 + n) ∷ [])
unfolding read_count get_tag
fixed_array-Counted n h t e rest =
    let array : ((0x90 + n) / 16 == 9) ≡ true = ground arith in
    let size : (0x90 + n) % 16 ≡ n = omega arith in rw (array, size) refl

fixed_object-Counted :
    (n : ℕ) → n < 16 → Counted ftag_object object_types not_object n ((0x80 + n) ∷ [])
unfolding read_count get_tag
fixed_object-Counted n h t e rest =
    let object : ((0x80 + n) / 16 == 8) ≡ true = ground arith in
    let size : (0x80 + n) % 16 ≡ n = omega arith in rw (object, size) refl

abbrev IsArray : ℕ × ℕ → Type 0
IsArray t = skip_tag t.0 ≡ skip_array

abbrev IsObject : ℕ × ℕ → Type 0
IsObject t = skip_tag t.0 ≡ skip_object

array_types-IsArray : All IsArray array_types
unfolding skip_tag has_type lookup
array_types-IsArray = (refl, (refl, tt))

object_types-IsObject : All IsObject object_types
unfolding skip_tag has_type lookup
object_types-IsObject = (refl, (refl, tt))

-- A tag of two properties.
match_size-both :
    (P Q : ℕ × ℕ → Type 0) (types : Table ℕ) (items : ℕ)
    → All P types
    → All Q types
    → Holds (λ t. (items < 256 ^ t.1) × (P t × Q t)) (match_size types items)
match_size-both P Q types items p q = match_size-All (λ t. P t × Q t) types items (both types p q)
  where
    both : (types : Table ℕ) → All P types → All Q types → All (λ t. P t × Q t) types
    both [] p q = tt
    both (t ∷ types) p q = ((p.0, q.0), both types p.1 q.1)

pub start_array-Entered : (n : ℕ) → Holds (Entered n) (write_fixed_count ftag_array array_types n)
unfolding write_fixed_count write_count
start_array-Entered n = elim (Bool-cases (leb n 15)) [
  | inl e ↦ rw e (
      array-Entered (0x90 + n) n [] (skip_tag-array n (ground (arith, e)))
        (fixed_array-Counted n (ground (arith, e))))
  | inr e ↦ rw e (
      Holds-then (λ t. (n < 256 ^ t.1) × (IsArray t × Announced array_types ftag_array t))
        (Entered n) (match_size array_types n) (λ t. some (write_endian t n))
        (match_size-both IsArray (Announced array_types ftag_array) array_types n
          array_types-IsArray array_types-AllAnnounced)
        (λ (tag, width) (small, (array, announced)).
          array-Entered tag n (big_endian width n) array
            (endian-Counted ftag_array array_types not_array n tag width small announced)))
]

pub start_object-Entered :
    (n : ℕ) → Holds (Entered (n * 2)) (write_fixed_count ftag_object object_types n)
unfolding write_fixed_count write_count
start_object-Entered n = elim (Bool-cases (leb n 15)) [
  | inl e ↦ rw e (
      object-Entered (0x80 + n) n [] (skip_tag-object n (ground (arith, e)))
        (fixed_object-Counted n (ground (arith, e))))
  | inr e ↦ rw e (
      Holds-then (λ t. (n < 256 ^ t.1) × (IsObject t × Announced object_types ftag_object t))
        (Entered (n * 2)) (match_size object_types n) (λ t. some (write_endian t n))
        (match_size-both IsObject (Announced object_types ftag_object) object_types n
          object_types-IsObject object_types-AllAnnounced)
        (λ (tag, width) (small, (object, announced)).
          object-Entered tag n (big_endian width n) object
            (endian-Counted ftag_object object_types not_object n tag width small announced)))
]
