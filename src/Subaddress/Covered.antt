-- ===== src/Subaddress/Covered.antt =====
-- Index ranges as the sets of their indexes, for the merge in do_upsert (src/db/storage.cpp).
use xfo_lws.Base.{
  ℕ, ◌+◌, ◌-◌, ◌≤◌, ◌≡◌, inl, inr, refl, sym, ◌∙◌, Bool, false, ◌&&◌, ◌||◌, some, [], ◌∷◌, ◌++◌,
  leb, arith, Option-cases, All,
}
use xfo_lws.Subaddress.Ranges.{
  IndexRange, IndexRanges, check_max_range, check_max_ranges, overlaps, position, Merged, overhang,
  grown,
}

-- The ranges contain an index.
abbrev pub covers : ℕ → IndexRanges → Bool
covers i [] = false
covers i (r ∷ rs) = (leb r.first i && leb i r.last) || covers i rs

abbrev pub Proper : IndexRange → Type 0
Proper r = r.first ≤ r.last

-- How many indexes the ranges hold, counted range by range.
abbrev pub total : IndexRanges → ℕ
total [] = 0
total (r ∷ rs) = (r.last - r.first + 1) + total rs

-- What the merge promises, index by index: it holds the old and the new ones, and those reported make
-- the difference. The count grows by the size of what is reported and stays within the limit.
pub record IsUnion (limit count : ℕ) (old new : IndexRanges) (m : Merged) : Type 0 where
  pub every : (i : ℕ) → covers i m.dict ≡ (covers i old || covers i new)
  pub reported : (i : ℕ) → covers i m.dict ≡ (covers i old || covers i m.out)
  pub proper : All Proper m.dict
  pub counted : m.count ≡ count + total m.out
  pub bounded : m.count ≤ limit

pub total-append : (xs ys : IndexRanges) → total (xs ++ ys) ≡ total xs + total ys
total-append [] ys = omega arith
total-append (x ∷ xs) ys = omega (arith, total-append xs ys)

pub check_max_range-some :
    (limit count : ℕ) (r : IndexRange) (c : ℕ)
    → check_max_range limit count r ≡ some c
    → count ≤ limit
    → (c ≡ count + total (r ∷ [])) × (c ≤ limit)
unfolding check_max_range
check_max_range-some limit count r c e h = ground arith

pub check_max_ranges-some :
    (limit count : ℕ) (rs : IndexRanges) (c : ℕ)
    → check_max_ranges limit count rs ≡ some c
    → count ≤ limit
    → (c ≡ count + total rs) × (c ≤ limit)
unfolding check_max_ranges
check_max_ranges-some limit count [] c e h = ground arith
check_max_ranges-some limit count (r ∷ rs) c e h =
    elim (Option-cases (check_max_range limit count r)) [
      | inl full ↦ absurd (ground (arith, full))
      | inr (c', fits) ↦
          let first : (c' ≡ count + total (r ∷ [])) × (c' ≤ limit) =
            check_max_range-some limit count r c' fits h in
          let rest : (c ≡ c' + total rs) × (c ≤ limit) =
            check_max_ranges-some limit c' rs c (sym (rw (fits, check_max_ranges) refl) ∙ e)
              first.1 in
          (omega (arith, first.0, rest.0), rest.1)
    ]

pub covers-append :
    (i : ℕ) (xs ys : IndexRanges) → covers i (xs ++ ys) ≡ (covers i xs || covers i ys)
covers-append i [] ys = refl
covers-append i (x ∷ xs) ys = ground (arith, covers-append i xs ys)

pub covers-grown :
    (i : ℕ) (n o : IndexRange)
    → Proper n
    → Proper o
    → position n o ≡ overlaps
    → covers i (grown n o ∷ []) ≡ (covers i (o ∷ []) || covers i (n ∷ []))
unfolding position grown
covers-grown i n o pn po e = ground arith

pub covers-overhang :
    (i : ℕ) (n o : IndexRange)
    → Proper n
    → Proper o
    → position n o ≡ overlaps
    → covers i (grown n o ∷ []) ≡ (covers i (o ∷ []) || covers i (overhang n o))
unfolding position grown overhang
covers-overhang i n o pn po e = ground arith
