-- ===== src/Msgpack/Counts.antt =====
-- The tags that write_count and write_endian choose, and what they announce to a reader (src/wire/msgpack).
use xfo_lws.Base.{
  ℕ, ◌-◌, ◌^◌, ◌<◌, ◌≡◌, refl, false, some, List, [], ◌∷◌, ◌++◌, ltb, All, Bool-cases, inl, inr,
  arith,
}
use xfo_lws.Base.Results.{Holds, Holds-then}
use xfo_lws.Base.Table.{Table, lookup}
use xfo_lws.Msgpack.{FixedTag, matches, ftag_array, ftag_object, array_types, object_types}
use xfo_lws.Msgpack.Write.{write_endian, match_size, write_count}
use xfo_lws.Msgpack.Read.{reading, done, ReadError, get_tag, read_count}
use xfo_lws.Msgpack.Endian.{pow_pos, read_endian-big_endian}

-- A type that is chosen holds the value, and has what all types of the list have.
pub match_size-All :
    (P : ℕ × ℕ → Type 0) (types : Table ℕ) (items : ℕ)
    → All P types
    → Holds (λ t. (items < 256 ^ t.1) × P t) (match_size types items)
unfolding match_size
match_size-All P [] items h = tt
match_size-All P ((k, w) ∷ types) items h = elim (Bool-cases (ltb (256 ^ w - 1) items)) [
  | inl f ↦ rw f (match_size-All P types items h.1)
  | inr f ↦ rw f (ground (arith, f, pow_pos w), h.0)
]

-- What a reader needs of a type: its tag is found in the list, and is not one of the fixed tags.
abbrev pub Announced : Table ℕ → FixedTag → ℕ × ℕ → Type 0
Announced types fixed t = (lookup t.0 types ≡ some t.1) × (matches fixed t.0 ≡ false)

abbrev pub AllAnnounced : Table ℕ → FixedTag → Type 0
AllAnnounced types fixed = All (Announced types fixed) types

pub array_types-AllAnnounced : AllAnnounced array_types ftag_array
unfolding lookup
array_types-AllAnnounced = ((refl, refl), ((refl, refl), tt))

pub object_types-AllAnnounced : AllAnnounced object_types ftag_object
unfolding lookup
object_types-AllAnnounced = ((refl, refl), ((refl, refl), tt))

-- A count is read back by read_count.
abbrev pub Counted : FixedTag → Table ℕ → ReadError → ℕ → List ℕ → Type 0
Counted fixed types error items bs =
    (t e : ℕ) (rest : List ℕ)
    → read_count fixed types error (reading (bs ++ rest) t e) ≡ done items (reading rest t e)

pub endian-Counted :
    (fixed : FixedTag) (types : Table ℕ) (error : ReadError) (items tag width : ℕ)
    → items < 256 ^ width
    → Announced types fixed (tag, width)
    → Counted fixed types error items (write_endian (tag, width) items)
unfolding read_count get_tag
endian-Counted fixed types error items tag width small (found, other) t e rest =
    rw (other, found) (read_endian-big_endian width items t e rest small)

pub write_count-Counted :
    (fixed : FixedTag) (types : Table ℕ) (error : ReadError) (items : ℕ)
    → AllAnnounced types fixed
    → Holds (Counted fixed types error items) (write_count types items)
unfolding write_count
write_count-Counted fixed types error items h =
    Holds-then (λ t. (items < 256 ^ t.1) × Announced types fixed t)
      (Counted fixed types error items) (match_size types items) (λ t. some (write_endian t items))
      (match_size-All (Announced types fixed) types items h)
      (λ (tag, width) (small, announced).
        endian-Counted fixed types error items tag width small announced)
