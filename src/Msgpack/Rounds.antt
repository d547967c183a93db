-- ===== src/Msgpack/Rounds.antt =====
-- One round of msgpack_reader::skip_value (src/wire/msgpack/read.cpp) on the bytes of one value.
use xfo_lws.Base.{
  ℕ, suc, ◌+◌, ◌-◌, ◌/◌, ◌<◌, ◌≤◌, ◌≡◌, refl, ap, ◌∙◌, subst, false, true, none, some, List, [],
  ◌∷◌, ◌++◌, leb, ◌==◌, length, length-append, All, all, arith,
}
use xfo_lws.Base.Slices.{drop, drop-append}
use xfo_lws.Base.Table.{Table, lookup}
use xfo_lws.Msgpack.{
  signed_types, unsigned_types, string_types, binary_types, extension_types, array_types,
  object_types,
}
use xfo_lws.Msgpack.Read.{
  reading, done, Action, return, bind-done, max_size, update_tags_remaining, remove_prefix,
  peek_tag,
}
use xfo_lws.Msgpack.Skip.{fixed_sizes, has_type, skip_tag, skip_fixed, skip_round}

ne_larger : (m n : ℕ) → n ≤ m → (suc m == n) ≡ false
ne_larger m n h = ground arith

ne_zero : (n : ℕ) → 1 ≤ n → (n == 0) ≡ false
ne_zero n h = ground arith

pub counted_down :
    (t e : ℕ) (rest : List ℕ)
    → 1 ≤ t
    → update_tags_remaining (reading rest t e) ≡ done tt (reading rest (t - 1) e)
unfolding update_tags_remaining
counted_down t e rest h = rw (ne_zero t h) refl

fixed_passed :
    (b n t e : ℕ) (rest : List ℕ)
    → length rest ≤ n
    → skip_fixed (suc n) b (reading rest t e) ≡ done tt (reading rest t e)
unfolding skip_fixed
fixed_passed b n t e rest h = rw (ne_larger n (length rest) h) refl

-- A round whose switch takes some bytes.
pub taken :
    (b t e t' e' : ℕ) (bs rest : List ℕ)
    → skip_tag b (reading (b ∷ bs) t e) ≡ done tt (reading rest t' e')
    → length rest ≤ length bs
    → 1 ≤ t'
    → skip_round (reading (b ∷ bs) t e) ≡ done tt (reading rest (t' - 1) e')
unfolding skip_round peek_tag
taken b t e t' e' bs rest h shorter counted =
    bind-done (skip_tag b) _ _ _ _ h
    ∙ bind-done (skip_fixed (suc (length bs)) b) _ _ _ _
        (fixed_passed b (length bs) t' e' rest shorter)
    ∙ counted_down t' e' rest counted

-- The bytes of a value, and those of the head of an array or an object with so many values to come.
abbrev pub Skipped : List ℕ → Type 0
Skipped bs =
    (t e : ℕ) (rest : List ℕ)
    → 1 ≤ t
    → skip_round (reading (bs ++ rest) t e) ≡ done tt (reading rest (t - 1) e)

abbrev pub Entered : ℕ → List ℕ → Type 0
Entered n bs =
    (t e : ℕ) (rest : List ℕ)
    → 1 ≤ t
    → t + n ≤ max_size
    → e + 1 < 100
    → skip_round (reading (bs ++ rest) t e) ≡ done tt (reading rest (t + n - 1) (e + 1))

-- Tags whose values have a fixed size.
abbrev pub Fixed : ℕ × ℕ → Type 0
Fixed t = skip_tag t.0 ≡ remove_prefix (suc t.1)

pub unsigned_types-Fixed : All Fixed unsigned_types
unfolding skip_tag has_type lookup
unsigned_types-Fixed = (refl, (refl, (refl, (refl, tt))))

pub signed_types-Fixed : All Fixed signed_types
unfolding skip_tag has_type lookup
signed_types-Fixed = (refl, (refl, (refl, (refl, tt))))

pub Fixed-Skipped :
    (tag width : ℕ) (bs : List ℕ) → Fixed (tag, width) → length bs ≡ width → Skipped (tag ∷ bs)
unfolding remove_prefix drop
Fixed-Skipped tag width bs f h t e rest counted =
    let dropped : drop width (bs ++ rest) ≡ rest =
      subst (λ w. drop w (bs ++ rest) ≡ rest) h (drop-append bs rest) in
    let body : skip_tag tag (reading (tag ∷ (bs ++ rest)) t e) ≡ done tt (reading rest t e) =
      ap (λ (a : Action Unit). a (reading (tag ∷ (bs ++ rest)) t e)) f
      ∙ ap (λ l. done tt (reading l t e)) dropped in
    taken tag t e t e (bs ++ rest) rest body (omega (arith, length-append bs rest)) counted

-- No type has a tag below a bound.
abbrev pub AllFrom : ℕ → Table ℕ → Type 0
AllFrom bound types = all (λ t. leb bound t.0) types ≡ true

pub lookup-small :
    (bound b : ℕ) (types : Table ℕ) → b < bound → AllFrom bound types → lookup b types ≡ none
unfolding lookup
lookup-small bound b [] h larger = refl
lookup-small bound b ((k, w) ∷ types) h larger =
    let other : (k == b) ≡ false = ground (arith, larger, h) in
    rw other (lookup-small bound b types h (ground (arith, larger)))

pub has_type-small :
    (bound b : ℕ) (types : Table ℕ) → b < bound → AllFrom bound types → has_type types b ≡ false
unfolding has_type
has_type-small bound b types h larger =
    ap (λ o. elim o [ none ↦ false | some width ↦ true ]) (lookup-small bound b types h larger)

skip_tag-small : (b : ℕ) → b < 128 → skip_tag b ≡ return tt
unfolding skip_tag
skip_tag-small b h =
    let string : (b / 32 == 5) ≡ false = ground arith in
    let array : (b / 16 == 9) ≡ false = ground arith in
    let object : (b / 16 == 8) ≡ false = ground arith in
    rw
      (
        string,
        array,
        object,
        has_type-small 128 b string_types h refl,
        has_type-small 128 b array_types h refl,
        has_type-small 128 b object_types h refl,
        has_type-small 128 b binary_types h refl,
        has_type-small 128 b extension_types h refl,
        lookup-small 128 b fixed_sizes h refl,
      )
      refl

fixed_removed :
    (b t e : ℕ) (rest : List ℕ)
    → b < 128
    → skip_fixed (suc (length rest)) b (reading (b ∷ rest) t e) ≡ done tt (reading rest t e)
unfolding skip_fixed remove_prefix drop
fixed_removed b t e rest h =
    let same : (suc (length rest) == suc (length rest)) ≡ true = ground arith in
    let small : (b / 128 == 0) ≡ true = ground arith in rw (same, small) refl

-- A fixed integer.
pub fixed-Skipped : (b : ℕ) → b < 128 → Skipped (b ∷ [])
unfolding skip_round peek_tag
fixed-Skipped b h t e rest counted =
    bind-done (skip_tag b) _ _ _ _
      (ap (λ (a : Action Unit). a (reading (b ∷ rest) t e)) (skip_tag-small b h))
    ∙ bind-done (skip_fixed (suc (length rest)) b) (λ u. update_tags_remaining)
        (reading (b ∷ rest) t e) (reading rest t e) tt (fixed_removed b t e rest h)
    ∙ counted_down t e rest counted
