-- ===== src/Msgpack/Texts.antt =====
-- What write_string and write_binary of msgpack_writer write, string and binary of msgpack_reader read
-- (src/wire/msgpack).
use xfo_lws.Base.{
  ℕ, ◌+◌, ◌-◌, ◌/◌, ◌%◌, ◌^◌, ◌<◌, ◌≡◌, refl, ap, ◌∙◌, true, Option, none, some, List, ◌∷◌, ◌++◌,
  leb, ◌==◌, length, All, Bool-cases, inl, inr, arith,
}
use mathlib.Core.List.{append_assoc}
use xfo_lws.Base.Results.{Holds, Finds, IsSome-Finds}
use xfo_lws.Base.Table.{Table, lookup}
use xfo_lws.Msgpack.{ftag_string, string_types, binary_types}
use xfo_lws.Msgpack.Write.{
  big_endian, write_endian, match_size, write_count, write_fixed_count, with_count,
}
use xfo_lws.Msgpack.Read.{
  reading, done, Action, ◌>>=◌, bind-done, update_tags_remaining, get_tag, read_counted, read_sized,
  read_string, read_binary, string, binary,
}
use xfo_lws.Msgpack.Endian.{read_raw-append, read_counted-big_endian}
use xfo_lws.Msgpack.Counts.{match_size-All}
use xfo_lws.Msgpack.Rounds.{counted_down}
use xfo_lws.Msgpack.Integers.{ReadsAs}
use xfo_lws.Msgpack.Whole.{
  write_count-IsSome, write_fixed_count-IsSome, IsSome-with_count, string_types-IsWide,
  binary_types-IsWide,
}

-- A tag that announces a count of bytes, for a text or for a binary.
abbrev CountTag : (ℕ → Action (List ℕ)) → ℕ × ℕ → Type 0
CountTag read t = read t.0 ≡ read_counted t.1

string_types-CountTag : All (CountTag read_string) string_types
unfolding read_string read_sized lookup
string_types-CountTag = (refl, (refl, (refl, tt)))

binary_types-CountTag : All (CountTag read_binary) binary_types
unfolding read_binary read_sized lookup
binary_types-CountTag = (refl, (refl, (refl, tt)))

-- A tag, then what `read` does after it.
abbrev tagged : (ℕ → Action (List ℕ)) → Action (List ℕ)
tagged read = do u ← update_tags_remaining; next ← get_tag; read next

tagged-ReadsAs :
    (read : ℕ → Action (List ℕ)) (tag : ℕ) (source bs : List ℕ)
    → ((t e : ℕ) (rest : List ℕ)
        → read tag (reading (bs ++ rest) t e) ≡ done source (reading rest t e))
    → ReadsAs (tagged read) source (tag ∷ bs)
unfolding get_tag
tagged-ReadsAs read tag source bs reads t e rest h =
    bind-done update_tags_remaining _ _ _ _ (counted_down t e (tag ∷ (bs ++ rest)) h)
    ∙ reads (t - 1) e rest

write_count-ReadsAs :
    (read : ℕ → Action (List ℕ)) (types : Table ℕ) (source : List ℕ)
    → All (CountTag read) types
    → Holds (ReadsAs (tagged read) source) (with_count (write_count types (length source)) source)
unfolding write_count
write_count-ReadsAs read types source h =
    counted (match_size types (length source))
      (match_size-All (CountTag read) types (length source) h)
  where
    counted :
        (o : Option (ℕ × ℕ))
        → Holds (λ t. (length source < 256 ^ t.1) × CountTag read t) o
        → Holds (ReadsAs (tagged read) source) (
            with_count
              (elim o [ none ↦ none | some t ↦ some (write_endian t (length source)) ])
              source)
    counted none k = tt
    counted (some (tag, width)) (small, count) =
        tagged-ReadsAs read tag source (big_endian width (length source) ++ source) (λ t e rest.
          ap
            (λ (m : Action (List ℕ)).
              m (reading ((big_endian width (length source) ++ source) ++ rest) t e))
            count
          ∙ ap (λ l. read_counted width (reading l t e))
              (append_assoc (big_endian width (length source)) source rest)
          ∙ read_counted-big_endian width t e source rest small)

short_string-ReadsAs :
    (source : List ℕ)
    → length source < 32
    → ReadsAs (tagged read_string) source ((0xa0 + length source) ∷ source)
unfolding read_string
short_string-ReadsAs source h =
    tagged-ReadsAs read_string (0xa0 + length source) source source (λ t e rest.
      let string : ((0xa0 + length source) / 32 == 5) ≡ true = ground (arith, h) in
      let size : (0xa0 + length source) % 32 ≡ length source = omega (arith, h) in
      rw (string, size) (read_raw-append t e source rest))

-- A text, and a binary.
pub string-ReadsAs :
    (source : List ℕ)
    → length source < 2 ^ 32
    → Finds
        (ReadsAs string source)
        (with_count (write_fixed_count ftag_string string_types (length source)) source)
unfolding write_fixed_count string
string-ReadsAs source h =
    IsSome-Finds (ReadsAs string source) _
      (IsSome-with_count _ source (
        write_fixed_count-IsSome ftag_string string_types (length source)
          (string_types-IsWide (length source) h)))
      (elim (Bool-cases (leb (length source) 31)) [
        | inl e ↦ rw e (short_string-ReadsAs source (ground (arith, e)))
        | inr e ↦ rw e (write_count-ReadsAs read_string string_types source string_types-CountTag)
      ])

pub binary-ReadsAs :
    (source : List ℕ)
    → length source < 2 ^ 32
    → Finds (ReadsAs binary source) (with_count (write_count binary_types (length source)) source)
unfolding binary
binary-ReadsAs source h =
    IsSome-Finds (ReadsAs binary source) _
      (IsSome-with_count _ source
        (write_count-IsSome binary_types (length source) (binary_types-IsWide (length source) h)))
      (write_count-ReadsAs read_binary binary_types source binary_types-CountTag)
