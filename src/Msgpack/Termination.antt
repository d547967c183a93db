-- ===== src/Msgpack/Termination.antt =====
-- Every round of msgpack_reader::skip_value (src/wire/msgpack/read.cpp) takes a byte, so that its loop ends.
use xfo_lws.Base.{
  ℕ, zero, suc, ◌<◌, ◌≤◌, ◌≡◌, Bool, true, false, not, ◌&&◌, ◌||◌, Option, none, some, List, [],
  ◌∷◌, leb, ◌==◌, if◌then◌else◌, length, Bool-cases, inl, inr, arith,
}
use xfo_lws.Base.Slices.{length-drop}
use xfo_lws.Base.Table.{lookup}
use xfo_lws.Msgpack.{
  matches, ftag_string, ftag_array, ftag_object, ftag_unsigned, ftag_signed, string_types,
  binary_types, array_types, object_types, extension_types,
}
use xfo_lws.Msgpack.Read.{
  Reader, invalid, not_string, Outcome, done, thrown, Action, ◌>>=◌, return, max_size,
  update_tags_remaining, remove_prefix, peek_tag, read_sized, read_string, read_binary, start_array,
  start_object,
}
use xfo_lws.Msgpack.Skip.{
  fixed_sizes, has_type, skip_tag, skip_fixed, skip_round, skip_loop, skip_value,
}
use xfo_lws.Msgpack.Progress.{
  IsDeclared, Ends, Proceeds, bind-Proceeds, if-Proceeds, return-Proceeds, remove_prefix-Proceeds,
  update_tags_remaining-Proceeds, read_sized-Proceeds, read_string-Proceeds, start_array-Proceeds,
  start_object-Proceeds,
}

sized-Proceeds :
    (o : Option ℕ)
    → Proceeds {A = Unit} (elim o [ none ↦ return tt | some size ↦ remove_prefix size ])
sized-Proceeds none = return-Proceeds tt
sized-Proceeds (some size) = remove_prefix-Proceeds size

skip_tag-Proceeds : (next : ℕ) → Proceeds (skip_tag next)
unfolding skip_tag read_binary
skip_tag-Proceeds next =
    if-Proceeds (matches ftag_string next || has_type string_types next) _ _
      (bind-Proceeds (remove_prefix 1) _ (remove_prefix-Proceeds 1) (λ u.
        bind-Proceeds (read_string next) (λ s. return tt) (read_string-Proceeds next)
          (λ s. return-Proceeds tt)))
      (if-Proceeds (matches ftag_array next || has_type array_types next) _ _
        (bind-Proceeds (start_array 0) (λ s. return tt) (start_array-Proceeds 0)
          (λ s. return-Proceeds tt))
        (if-Proceeds (matches ftag_object next || has_type object_types next) _ _
          (bind-Proceeds start_object (λ s. return tt) start_object-Proceeds
            (λ s. return-Proceeds tt))
          (if-Proceeds (has_type binary_types next) _ _
            (bind-Proceeds (remove_prefix 1) _ (remove_prefix-Proceeds 1) (λ u.
              bind-Proceeds (read_binary next) (λ s. return tt)
                (read_sized-Proceeds binary_types not_string next tt) (λ s. return-Proceeds tt)))
            (if-Proceeds (has_type extension_types next) _ _
              (bind-Proceeds (remove_prefix 1) _ (remove_prefix-Proceeds 1) (λ u.
                bind-Proceeds (read_sized extension_types not_string next) (λ s. remove_prefix 1)
                  (read_sized-Proceeds extension_types not_string next tt)
                  (λ s. remove_prefix-Proceeds 1)))
              (sized-Proceeds (lookup next fixed_sizes))))))

-- A tag that took nothing loses its byte here.
skip_fixed-Ends :
    (n next : ℕ) (r : Reader) → length r.remaining ≤ suc n → Ends n (skip_fixed (suc n) next r)
unfolding skip_fixed remove_prefix
skip_fixed-Ends n next r h = elim (Bool-cases (suc n == length r.remaining)) [
  | inl e ↦ rw e (
      left (not (matches ftag_unsigned next) && not (matches ftag_signed next)) (ground (arith, e)))
  | inr e ↦ rw e (ground (arith, e, h))
]
  where
    left :
        (b : Bool)
        → suc n ≡ length r.remaining
        → Ends n (if b then thrown invalid else remove_prefix 1 r)
    left true e = tt
    left false e = omega (arith, length-drop 1 r.remaining, e)

-- What follows on an action.
Ends-bind :
    {A B : Type 0} (n : ℕ) (o : Outcome A) (f : A → Action B)
    → Ends n o
    → ((a : A) (r : Reader) → length r.remaining ≤ n → Ends n (f a r))
    → Ends n (elim o [ done a r ↦ f a r | thrown e ↦ thrown e ])
Ends-bind n (done a r) f h hf = hf a r h
Ends-bind n (thrown e) f h hf = h

Ends-bind_less :
    {A B : Type 0} (n : ℕ) (o : Outcome A) (f : A → Action B)
    → Ends (suc n) o
    → ((a : A) (r : Reader) → length r.remaining ≤ suc n → Ends n (f a r))
    → Ends n (elim o [ done a r ↦ f a r | thrown e ↦ thrown e ])
Ends-bind_less n (done a r) f h hf = hf a r h
Ends-bind_less n (thrown e) f h hf = h

Ends-larger : {A : Type 0} (n m : ℕ) (o : Outcome A) → n ≤ m → Ends n o → Ends m o
Ends-larger n m (done a r) h x = omega (arith, h, x)
Ends-larger n m (thrown e) h x = x

-- The same with fewer bytes.
abbrev Shortens : {A : Type 0} → ℕ → Outcome A → Type 0
Shortens n o = elim o [ done a r ↦ length r.remaining < n | thrown e ↦ IsDeclared e ]

Ends-Shortens : {A : Type 0} (n m : ℕ) (o : Outcome A) → n < m → Ends n o → Shortens m o
Ends-Shortens n m (done a r) h x = omega (arith, h, x)
Ends-Shortens n m (thrown e) h x = x

-- A round takes a byte at least.
skip_round-Shortens : (r : Reader) → Shortens (length r.remaining) (skip_round r)
unfolding skip_round peek_tag
skip_round-Shortens r = by_bytes r.remaining r.tags r.depth
  where
    by_bytes :
        (bs : List ℕ) (t e : ℕ)
        → Shortens (length bs) (skip_round (record { remaining = bs; tags = t; depth = e }))
    by_bytes [] t e = tt
    by_bytes (b ∷ bs) t e =
        let r₁ : Reader = record { remaining = b ∷ bs; tags = t; depth = e } in
        let rest : Action Unit = (do x ← skip_fixed (suc (length bs)) b; update_tags_remaining) in
        Ends-Shortens (length bs) (suc (length bs)) _ (omega arith) (
          Ends-bind_less (length bs) (skip_tag b r₁) (λ a. rest) (skip_tag-Proceeds b r₁)
            (λ a r₂ h.
              Ends-bind (length bs) (skip_fixed (suc (length bs)) b r₂) (λ x. update_tags_remaining)
                (skip_fixed-Ends (length bs) b r₂ h)
                (λ x r₃ h₃.
                  Ends-larger (length r₃.remaining) (length bs) _ h₃
                    (update_tags_remaining-Proceeds r₃))))

skip_loop-Ends :
    (fuel initial : ℕ) (r : Reader)
    → length r.remaining < fuel
    → Ends (length r.remaining) (skip_loop fuel initial r)
unfolding skip_loop
skip_loop-Ends zero initial r h = absurd (omega arith)
skip_loop-Ends (suc fuel) initial r h =
    continued (skip_round r) (skip_round-Shortens r)
      (λ s x. skip_loop-Ends fuel initial s (omega (arith, x, h)))
  where
    continued :
        (o : Outcome Unit)
        → Shortens (length r.remaining) o
        → ((s : Reader)
            → length s.remaining < length r.remaining
            → Ends (length s.remaining) (skip_loop fuel initial s))
        → Ends (length r.remaining) (elim o [
          | thrown e ↦ thrown e
          | done u r' ↦
              let more = skip_loop fuel initial r' in
              if leb initial r'.tags then more else done tt r'
        ])
    continued (thrown e) x again = x
    continued (done u s) x again = elim (Bool-cases (leb initial s.tags)) [
      | inl e ↦ rw e (Ends-larger _ _ (skip_loop fuel initial s) (omega (arith, x)) (again s x))
      | inr e ↦ rw e (omega (arith, x))
    ]

-- Whatever the bytes, the tags to come and the depth, the loop of skip_value ends within its fuel: with as
-- many bytes or fewer, or with an error of the program.
pub skip_value-Ends : (r : Reader) → Ends (length r.remaining) (skip_value r)
unfolding skip_value
skip_value-Ends r = elim (Bool-cases (r.tags == max_size)) [
  | inl e ↦ rw e tt
  | inr e ↦ rw e (skip_loop-Ends (suc (length r.remaining)) r.tags r (omega arith))
]
