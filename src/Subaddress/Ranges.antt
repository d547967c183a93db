-- ===== src/Subaddress/Ranges.antt =====
-- Ranges of minor indexes, and how do_upsert of src/db/storage.cpp merges new ranges with old ones.
use xfo_lws.Base.{
  ℕ, ◌+◌, ◌-◌, Bool, true, ◌&&◌, not, Option, none, some, List, [], ◌∷◌, ◌++◌, if◌then◌else◌, ltb,
  leb,
}
use xfo_lws.Wire.{◌>>=◌}

-- index_range
pub record IndexRange : Type 0 where
  pub first : ℕ
  pub last : ℕ

abbrev pub IndexRanges : Type 0
IndexRanges = List IndexRange

-- The loop of check_subaddress_dict: `last` is where the range before ends.
unfoldable pub check_after : ℕ → IndexRanges → Bool
check_after last [] = true
check_after last (r ∷ rs) =
    not (ltb r.last r.first) && (not (leb r.first (last + 1)) && check_after r.last rs)

unfoldable pub check_subaddress_dict : IndexRanges → Bool
unfolding check_after
check_subaddress_dict [] = true
check_subaddress_dict (r ∷ rs) = not (ltb r.last r.first) && check_after r.last rs

-- The lambda check_max_range: `count` is subaddr_count, never above `limit`, and the answer is the new
-- count.
unfoldable pub check_max_range : ℕ → ℕ → IndexRange → Option ℕ
check_max_range limit count r =
    if leb (limit - count) (r.last - r.first) then none else some (count + (r.last - r.first + 1))

unfoldable pub check_max_ranges : ℕ → ℕ → IndexRanges → Option ℕ
unfolding check_max_range
check_max_ranges limit count [] = some count
check_max_ranges limit count (r ∷ rs) = do
  count' ← check_max_range limit count r
  check_max_ranges limit count' rs

-- How a new range lies to an old one, in the order of the tests.
pub data Position : Type 0 where
  before after within overlaps : Position

unfoldable pub position : IndexRange → IndexRange → Position
position new old =
    if ltb (new.last + 1) old.first
    then before
    else if ltb (old.last + 1) new.first
    then after
    else if leb old.first new.first && leb new.last old.last
    then within
    else overlaps

-- new_dict, what add_out was given, and subaddr_count.
pub record Merged : Type 0 where
  pub dict : IndexRanges
  pub out : IndexRanges
  pub count : ℕ

-- The parts of an overlapping new range that are below and above the old one.
unfoldable pub overhang : IndexRange → IndexRange → IndexRanges
overhang new old =
    (if ltb new.first old.first
      then record { first = new.first; last = old.first - 1 } ∷ []
      else [])
    ++ (if ltb old.last new.last then record { first = old.last + 1; last = new.last } ∷ [] else [])

-- The old range, grown by an overlapping new one.
unfoldable pub grown : IndexRange → IndexRange → IndexRange
grown new old = record {
  first = if ltb new.first old.first then new.first else old.first;
  last = if ltb old.last new.last then new.last else old.last;
}

abbrev pub put_out : IndexRanges → Merged → Merged
put_out added m = record m { out = added ++ m.out }

abbrev pub put_dict : IndexRange → Merged → Merged
put_dict r m = record m { dict = r ∷ m.dict }

-- `merge new minor index ranges with old`; `none` is error::max_subaddresses.
unfoldable pub merge : ℕ → ℕ → IndexRanges → IndexRanges → Option Merged
unfolding check_max_range check_max_ranges position overhang grown
merge limit count old [] = some (record { dict = old; out = []; count = count })
merge limit count [] (n ∷ new) = do
  count' ← check_max_range limit count n
  m ← merge limit count' [] new
  some (put_dict n (put_out (n ∷ []) m))
merge limit count (o ∷ old) (n ∷ new) = elim (position n o) [
  | before ↦ (do
    count' ← check_max_range limit count n
    m ← merge limit count' (o ∷ old) new
    some (put_dict n (put_out (n ∷ []) m)))
  | after ↦ (do m ← merge limit count old (n ∷ new); some (put_dict o m))
  | within ↦ merge limit count (o ∷ old) new
  | overlaps ↦ (do
    count' ← check_max_ranges limit count (overhang n o)
    m ← merge limit count' (grown n o ∷ old) new
    some (put_out (overhang n o) m))
]
