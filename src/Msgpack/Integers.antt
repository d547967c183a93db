-- ===== src/Msgpack/Integers.antt =====
-- What write_integer of msgpack_writer writes, integer of msgpack_reader reads (src/wire/msgpack).
use xfo_lws.Base.{
  ℕ, ◌+◌, ◌-◌, ◌*◌, ◌/◌, ◌^◌, ◌<◌, ◌≤◌, ◌≡◌, refl, ap, ◌∙◌, false, true, Option, none, some, List,
  [], ◌∷◌, ◌++◌, ltb, leb, All, Bool-cases, inl, inr, arith,
}
use xfo_lws.Base.Int.{ℤ, pos, negsuc}
use xfo_lws.Base.Results.{Holds, Holds-then, Finds, IsSome-Finds}
use xfo_lws.Base.Table.{lookup}
use xfo_lws.Msgpack.{matches, ftag_signed, signed_types, unsigned_types}
use xfo_lws.Msgpack.Write.{
  Writer, put, write_integer, write_string, write_binary, big_endian, write_endian, match_size,
  match_signed, write_count, write_fixed_count, with_count, unsigned_bytes, integer_bytes,
}
use xfo_lws.Msgpack.Write
use xfo_lws.Msgpack.Read.{
  Reader, reading, done, Action, return, bind-done, update_tags_remaining, get_tag, read_endian,
  read_any_integer, read_signed, read_positive, signed_value, cast_signed, do_integer, integer,
  not_integer, throw,
}
use xfo_lws.Msgpack.Endian.{pow_pos, read_endian-big_endian}
use xfo_lws.Msgpack.Counts.{match_size-All}
use xfo_lws.Msgpack.Rounds.{counted_down}
use xfo_lws.Msgpack.Scalars.{match_signed-All}
use xfo_lws.Msgpack.Documents.{IsSmall}
use xfo_lws.Msgpack.Whole.{integer_bytes-IsSome}

-- The bytes are read as a value, whatever follows them.
abbrev pub ReadsAs : {A : Type 0} → Action A → A → List ℕ → Type 0
ReadsAs m a bs =
    (t e : ℕ) (rest : List ℕ)
    → 1 ≤ t
    → m (reading (bs ++ rest) t e) ≡ done a (reading rest (t - 1) e)

-- A tag that announces an integer of so many bytes.
abbrev UnsignedTag : ℕ × ℕ → Type 0
UnsignedTag t =
    (matches ftag_signed t.0 ≡ false)
    × (lookup t.0 signed_types ≡ none)
    × (lookup t.0 unsigned_types ≡ some t.1)
    × (leb t.0 127 ≡ false)

unsigned_types-UnsignedTag : All UnsignedTag unsigned_types
unfolding lookup
unsigned_types-UnsignedTag = (
  (refl, refl, refl, refl),
  ((refl, refl, refl, refl), ((refl, refl, refl, refl), ((refl, refl, refl, refl), tt))),
)

abbrev SignedTag : ℕ × ℕ → Type 0
SignedTag t =
    (matches ftag_signed t.0 ≡ false)
    × (lookup t.0 signed_types ≡ some t.1)
    × (256 ^ t.1 ≡ 2 * (256 ^ t.1 / 2))
    × (leb t.0 127 ≡ false)

signed_types-SignedTag : All SignedTag signed_types
unfolding lookup
signed_types-SignedTag = (
  (refl, refl, refl, refl),
  ((refl, refl, refl, refl), ((refl, refl, refl, refl), ((refl, refl, refl, refl), tt))),
)

-- The choices of read_any_integer.
abbrev by_unsigned : Option ℕ → Action ℤ
by_unsigned o = elim o [ some width ↦ read_positive width | none ↦ throw not_integer ]

abbrev by_signed : Option ℕ → Action ℤ → Action ℤ
by_signed o m = elim o [ some width ↦ read_signed width | none ↦ m ]

read_any_integer-Unsigned :
    (tag width : ℕ) → UnsignedTag (tag, width) → read_any_integer tag ≡ read_positive width
unfolding read_any_integer
read_any_integer-Unsigned tag width (a, b, c, d) =
    ap (λ o. by_signed o (by_unsigned (lookup tag unsigned_types))) b ∙ ap by_unsigned c

read_any_integer-Signed :
    (tag width : ℕ) → SignedTag (tag, width) → read_any_integer tag ≡ read_signed width
unfolding read_any_integer
read_any_integer-Signed tag width (a, b, c, d) =
    ap (λ o. by_signed o (by_unsigned (lookup tag unsigned_types))) b

read_any_integer-unsigned :
    (tag width n t e : ℕ) (rest : List ℕ)
    → UnsignedTag (tag, width)
    → n < 256 ^ width
    → read_any_integer tag (reading (big_endian width n ++ rest) t e)
      ≡ done (pos n) (reading rest t e)
unfolding read_positive
read_any_integer-unsigned tag width n t e rest u small =
    ap (λ (m : Action ℤ). m (reading (big_endian width n ++ rest) t e))
      (read_any_integer-Unsigned tag width u)
    ∙ bind-done (read_endian width) (λ k. return (pos k)) _ _ _
        (read_endian-big_endian width n t e rest small)

signed_value-negative :
    (width n : ℕ)
    → 256 ^ width ≡ 2 * (256 ^ width / 2)
    → n < 256 ^ width / 2
    → signed_value width (256 ^ width - (n + 1)) ≡ negsuc n
unfolding signed_value
signed_value-negative width n even h =
    let negative : ltb (256 ^ width - (n + 1)) (256 ^ width / 2) ≡ false =
      ground (arith, even, h) in
    let same : 256 ^ width - 1 - (256 ^ width - (n + 1)) ≡ n = omega (arith, even, h) in
    rw (negative, same) refl

read_any_integer-signed :
    (tag width n t e : ℕ) (rest : List ℕ)
    → SignedTag (tag, width)
    → n < 256 ^ width / 2
    → read_any_integer tag (reading (big_endian width (256 ^ width - (n + 1)) ++ rest) t e)
      ≡ done (negsuc n) (reading rest t e)
unfolding read_signed
read_any_integer-signed tag width n t e rest s small =
    ap (λ (m : Action ℤ). m (reading (big_endian width (256 ^ width - (n + 1)) ++ rest) t e))
      (read_any_integer-Signed tag width s)
    ∙ bind-done (read_endian width) (λ k. return (signed_value width k)) _ _ _
        (read_endian-big_endian width (256 ^ width - (n + 1)) t e rest
          (omega (arith, pow_pos width)))
    ∙ ap (λ z. done z (reading rest t e)) (signed_value-negative width n s.2 small)

-- A value of 64 bits, signed.
abbrev pub InRange : ℤ → Type 0
InRange (pos n) = n < 2 ^ 63
InRange (negsuc n) = n < 2 ^ 63

cast_signed-InRange : (z : ℤ) (r : Reader) → InRange z → cast_signed z r ≡ done z r
unfolding cast_signed
cast_signed-InRange (pos n) r h =
    let small : ltb n (2 ^ 63) ≡ true = ground (arith, h) in rw small refl
cast_signed-InRange (negsuc n) r h =
    let small : ltb n (2 ^ 63) ≡ true = ground (arith, h) in rw small refl

integer-tagged :
    (tag : ℕ) (z : ℤ) (bs : List ℕ)
    → InRange z
    → leb tag 127 ≡ false
    → matches ftag_signed tag ≡ false
    → ((t e : ℕ) (rest : List ℕ)
        → read_any_integer tag (reading (bs ++ rest) t e) ≡ done z (reading rest t e))
    → ReadsAs integer z (tag ∷ bs)
unfolding integer do_integer get_tag
integer-tagged tag z bs range large other reads t e rest h =
    bind-done update_tags_remaining _ _ _ _ (counted_down t e (tag ∷ (bs ++ rest)) h)
    ∙ rw (large, other)
        (bind-done (read_any_integer tag) cast_signed (reading (bs ++ rest) (t - 1) e)
            (reading rest (t - 1) e) z (reads (t - 1) e rest)
          ∙ cast_signed-InRange z (reading rest (t - 1) e) range)

integer-small : (n : ℕ) → leb n 127 ≡ true → ReadsAs integer (pos n) (n ∷ [])
unfolding integer get_tag
integer-small n small t e rest h =
    bind-done update_tags_remaining _ _ _ _ (counted_down t e (n ∷ rest) h) ∙ rw small refl

unsigned_bytes-ReadsAs : (n : ℕ) → n < 2 ^ 63 → Holds (ReadsAs integer (pos n)) (unsigned_bytes n)
unfolding unsigned_bytes write_count
unsigned_bytes-ReadsAs n h = elim (Bool-cases (leb n 127)) [
  | inl small ↦ rw small (integer-small n small)
  | inr large ↦ rw large (
      Holds-then (λ t. (n < 256 ^ t.1) × UnsignedTag t) (ReadsAs integer (pos n))
        (match_size unsigned_types n) (λ t. some (write_endian t n))
        (match_size-All UnsignedTag unsigned_types n unsigned_types-UnsignedTag)
        (λ (tag, width) (fits, u).
          integer-tagged tag (pos n) (big_endian width n) h u.3 u.0
            (λ t e rest. read_any_integer-unsigned tag width n t e rest u fits)))
]

do_integer-ReadsAs : (n : ℕ) → n < 2 ^ 63 → Holds (ReadsAs integer (negsuc n)) (Write.do_integer n)
unfolding Write.do_integer
do_integer-ReadsAs n h =
    Holds-then (λ t. (n < 256 ^ t.1 / 2) × SignedTag t) (ReadsAs integer (negsuc n))
      (match_signed signed_types n)
      (λ (tag, width). some (tag ∷ big_endian width (256 ^ width - (n + 1))))
      (match_signed-All SignedTag signed_types n signed_types-SignedTag)
      (λ (tag, width) (fits, s).
        integer-tagged tag (negsuc n) (big_endian width (256 ^ width - (n + 1))) h s.3 s.0
          (λ t e rest. read_any_integer-signed tag width n t e rest s fits))

-- A signed integer of 64 bits.
pub integer_bytes-ReadsAs : (z : ℤ) → InRange z → Finds (ReadsAs integer z) (integer_bytes z)
unfolding integer_bytes
integer_bytes-ReadsAs z range =
    IsSome-Finds (ReadsAs integer z) (integer_bytes z)
      (integer_bytes-IsSome z (IsSmall-InRange z range)) (reads z range)
  where
    IsSmall-InRange : (z : ℤ) → InRange z → IsSmall z
    IsSmall-InRange (pos n) h = omega (arith, h)
    IsSmall-InRange (negsuc n) h = h

    reads : (z : ℤ) → InRange z → Holds (ReadsAs integer z) (integer_bytes z)
    reads (pos n) h = unsigned_bytes-ReadsAs n h
    reads (negsuc n) h = do_integer-ReadsAs n h
