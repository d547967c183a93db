-- ===== src/Msgpack/Scalars.antt =====
-- One round of msgpack_reader::skip_value (src/wire/msgpack/read.cpp) on a number, a text or a blob that
-- msgpack_writer wrote.
use xfo_lws.Base.{
  ℕ, ◌+◌, ◌-◌, ◌/◌, ◌%◌, ◌^◌, ◌<◌, ◌≡◌, refl, ap, ◌∙◌, true, Option, none, some, List, [], ◌∷◌,
  ◌++◌, ltb, leb, ◌==◌, length, length-append, All, Bool-cases, inl, inr, arith,
}
use mathlib.Core.List.{append_assoc}
use xfo_lws.Base.Int.{ℤ, pos, negsuc}
use xfo_lws.Base.Results.{Holds, Holds-then}
use xfo_lws.Base.Slices.{drop}
use xfo_lws.Base.Table.{Table, lookup}
use xfo_lws.Msgpack.{ftag_string, signed_types, unsigned_types, string_types, binary_types}
use xfo_lws.Msgpack.Write.{
  big_endian, write_endian, match_size, write_count, write_fixed_count, match_signed, do_integer,
  unsigned_bytes, integer_bytes, with_count,
}
use xfo_lws.Msgpack.Read.{
  reading, done, Action, ◌>>=◌, return, bind-done, remove_prefix, read_raw, read_counted,
  read_sized, read_string, read_binary,
}
use xfo_lws.Msgpack.Skip.{has_type, skip_tag}
use xfo_lws.Msgpack.Endian.{length-big_endian, read_raw-append, read_counted-big_endian}
use xfo_lws.Msgpack.Counts.{match_size-All}
use xfo_lws.Msgpack.Rounds.{
  taken, Skipped, Fixed, unsigned_types-Fixed, signed_types-Fixed, Fixed-Skipped, fixed-Skipped,
}

-- Bytes after a count that a tag announces.
abbrev Sized : ℕ × ℕ → Type 0
Sized t = skip_tag t.0 ≡ (do u ← remove_prefix 1; s ← read_counted t.1; return tt)

string_types-Sized : All Sized string_types
unfolding skip_tag has_type lookup read_string read_sized
string_types-Sized = (refl, (refl, (refl, tt)))

binary_types-Sized : All Sized binary_types
unfolding skip_tag has_type lookup read_binary read_sized
binary_types-Sized = (refl, (refl, (refl, tt)))

Sized-Skipped :
    (tag width : ℕ) (source : List ℕ)
    → Sized (tag, width)
    → length source < 256 ^ width
    → Skipped (tag ∷ (big_endian width (length source) ++ source))
unfolding remove_prefix drop
Sized-Skipped tag width source sized small t e rest counted =
    let bs = (big_endian width (length source) ++ source) ++ rest in
    let body : skip_tag tag (reading (tag ∷ bs) t e) ≡ done tt (reading rest t e) =
      ap (λ (a : Action Unit). a (reading (tag ∷ bs) t e)) sized
      ∙ bind-done (read_counted width) (λ s. return tt) (reading bs t e) (reading rest t e) source
          (ap (λ l. read_counted width (reading l t e))
              (append_assoc (big_endian width (length source)) source rest)
            ∙ read_counted-big_endian width t e source rest small) in
    taken tag t e t e bs rest body
      (omega (arith, length-append (big_endian width (length source) ++ source) rest)) counted

write_count-Skipped :
    (types : Table ℕ) (source : List ℕ)
    → All Sized types
    → Holds Skipped (with_count (write_count types (length source)) source)
unfolding write_count
write_count-Skipped types source h =
    counted (match_size types (length source)) (match_size-All Sized types (length source) h)
  where
    counted :
        (o : Option (ℕ × ℕ))
        → Holds (λ t. (length source < 256 ^ t.1) × Sized t) o
        → Holds Skipped (
            with_count
              (elim o [ none ↦ none | some t ↦ some (write_endian t (length source)) ])
              source)
    counted none k = tt
    counted (some (tag, width)) (small, sized) = Sized-Skipped tag width source sized small

-- A text of at most 31 bytes.
skip_tag-string :
    (n : ℕ) → n < 32 → skip_tag (0xa0 + n) ≡ (do u ← remove_prefix 1; s ← read_raw n; return tt)
unfolding skip_tag read_string
skip_tag-string n h =
    let string : ((0xa0 + n) / 32 == 5) ≡ true = ground arith in
    let size : (0xa0 + n) % 32 ≡ n = omega arith in rw (string, size) refl

short_string-Skipped :
    (source : List ℕ) → length source < 32 → Skipped ((0xa0 + length source) ∷ source)
unfolding remove_prefix drop
short_string-Skipped source h t e rest counted =
    let tag = 0xa0 + length source in
    let body : skip_tag tag (reading (tag ∷ (source ++ rest)) t e) ≡ done tt (reading rest t e) =
      ap (λ (a : Action Unit). a (reading (tag ∷ (source ++ rest)) t e))
        (skip_tag-string (length source) h)
      ∙ bind-done (read_raw (length source)) (λ s. return tt) (reading (source ++ rest) t e)
          (reading rest t e) source (read_raw-append t e source rest) in
    taken tag t e t e (source ++ rest) rest body (omega (arith, length-append source rest)) counted

pub string-Skipped :
    (source : List ℕ)
    → Holds Skipped (with_count (write_fixed_count ftag_string string_types (length source)) source)
unfolding write_fixed_count
string-Skipped source = elim (Bool-cases (leb (length source) 31)) [
  | inl e ↦ rw e (short_string-Skipped source (ground (arith, e)))
  | inr e ↦ rw e (write_count-Skipped string_types source string_types-Sized)
]

pub binary-Skipped :
    (source : List ℕ) → Holds Skipped (with_count (write_count binary_types (length source)) source)
binary-Skipped source = write_count-Skipped binary_types source binary_types-Sized

-- Integers.
pub unsigned_bytes-Skipped : (n : ℕ) → Holds Skipped (unsigned_bytes n)
unfolding unsigned_bytes write_count
unsigned_bytes-Skipped n = elim (Bool-cases (leb n 127)) [
  | inl e ↦ rw e (fixed-Skipped n (ground (arith, e)))
  | inr e ↦ rw e (
      Holds-then (λ t. (n < 256 ^ t.1) × Fixed t) Skipped (match_size unsigned_types n)
        (λ t. some (write_endian t n)) (match_size-All Fixed unsigned_types n unsigned_types-Fixed)
        (λ (tag, width) (small, f).
          Fixed-Skipped tag width (big_endian width n) f (length-big_endian width n)))
]

pub match_signed-All :
    (P : ℕ × ℕ → Type 0) (types : Table ℕ) (n : ℕ)
    → All P types
    → Holds (λ t. (n < 256 ^ t.1 / 2) × P t) (match_signed types n)
unfolding match_signed
match_signed-All P [] n h = tt
match_signed-All P ((k, w) ∷ types) n h = elim (Bool-cases (ltb n (256 ^ w / 2))) [
  | inl f ↦ rw f (ground (arith, f), h.0)
  | inr f ↦ rw f (match_signed-All P types n h.1)
]

pub integer_bytes-Skipped : (z : ℤ) → Holds Skipped (integer_bytes z)
unfolding integer_bytes do_integer
integer_bytes-Skipped (pos n) = unsigned_bytes-Skipped n
integer_bytes-Skipped (negsuc n) =
    Holds-then (λ t. (n < 256 ^ t.1 / 2) × Fixed t) Skipped (match_signed signed_types n)
      (λ (tag, width). some (tag ∷ big_endian width (256 ^ width - (n + 1))))
      (match_signed-All Fixed signed_types n signed_types-Fixed)
      (λ (tag, width) (small, f).
        Fixed-Skipped tag width (big_endian width (256 ^ width - (n + 1))) f
          (length-big_endian width (256 ^ width - (n + 1))))

pub true-Skipped : Skipped (0xc3 ∷ [])
unfolding skip_tag has_type lookup
true-Skipped = Fixed-Skipped 0xc3 0 [] refl refl

pub false-Skipped : Skipped (0xc2 ∷ [])
unfolding skip_tag has_type lookup
false-Skipped = Fixed-Skipped 0xc2 0 [] refl refl

pub real-Skipped : (source : List ℕ) → length source ≡ 8 → Skipped (0xcb ∷ source)
unfolding skip_tag has_type lookup
real-Skipped source h = Fixed-Skipped 0xcb 8 source refl h
