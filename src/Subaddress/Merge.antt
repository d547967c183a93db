-- ===== src/Subaddress/Merge.antt =====
-- The merge of index ranges in do_upsert (src/db/storage.cpp), compared with the union of sets.
use xfo_lws.Base.{
  ℕ, ◌+◌, ◌≤◌, ◌≡◌, ◌⊎◌, inl, inr, refl, false, Option, none, some, [], ◌∷◌, arith, All,
}
use xfo_lws.Base.Results.{Holds, Holds-found, Holds-map}
use xfo_lws.Wire.{◌>>=◌}
use xfo_lws.Subaddress.Ranges.{
  IndexRange, IndexRanges, check_after, check_subaddress_dict, check_max_range, check_max_ranges,
  Position, before, after, within, overlaps, position, Merged, overhang, grown, put_out, put_dict,
  merge,
}
use xfo_lws.Subaddress.Covered.{
  Proper, total, IsUnion, total-append, check_max_range-some, check_max_ranges-some, covers-append,
  covers-grown, covers-overhang,
}

-- One step of the merge: a count, the rest, and a change of the rest.
Holds-step :
    {A C : Type 0} (P Q : A → Type 0) (x : Option C) (f : C → Option A) (g : A → A)
    → ((c : C) → x ≡ some c → Holds P (f c))
    → ((a : A) → P a → Q (g a))
    → Holds Q (do c ← x; a ← f c; some (g a))
Holds-step P Q none f g hf hg = tt
Holds-step P Q (some c) f g hf hg = rest (f c) (hf c refl)
  where
    rest : (o : Option _) → Holds P o → Holds Q (do a ← o; some (g a))
    rest none h = tt
    rest (some a) h = hg a h

Holds-last :
    {A : Type 0} (P Q : A → Type 0) (x : Option A) (g : A → A)
    → Holds P x
    → ((a : A) → P a → Q (g a))
    → Holds Q (do a ← x; some (g a))
Holds-last P Q none g h hg = tt
Holds-last P Q (some a) g h hg = hg a h

Proper-grown : (n o : IndexRange) → Proper n → Proper o → Proper (grown n o)
unfolding grown
Proper-grown n o pn po = ground arith

position-cases : (p : Position) → (p ≡ before) ⊎ ((p ≡ after) ⊎ ((p ≡ within) ⊎ (p ≡ overlaps)))
position-cases before = inl refl
position-cases after = inr (inl refl)
position-cases within = inr (inr (inl refl))
position-cases overlaps = inr (inr (inr refl))

-- The rest of a merge, from a count that one range was added to.
abbrev Added : ℕ → ℕ → IndexRanges → IndexRanges → IndexRange → Merged → Type 0
Added limit count old new n m =
    (c : ℕ) × ((c ≡ count + total (n ∷ [])) × (c ≤ limit)) × IsUnion limit c old new m

abbrev Grown : ℕ → ℕ → IndexRanges → IndexRanges → IndexRange → IndexRange → Merged → Type 0
Grown limit count old new n o m =
    (c : ℕ) × ((c ≡ count + total (overhang n o)) × (c ≤ limit))
    × IsUnion limit c (grown n o ∷ old) new m

-- A new range that touches no old one so far.
placed :
    (limit count : ℕ) (old new : IndexRanges) (n : IndexRange) (m : Merged)
    → Proper n
    → Added limit count old new n m
    → IsUnion limit count old (n ∷ new) (put_dict n (put_out (n ∷ []) m))
placed limit count old new n m p (c, (grows, fits), u) = record {
  every = λ i. ground (arith, u.every i);
  reported = λ i. ground (arith, u.reported i);
  proper = (p, u.proper);
  counted = omega (arith, u.counted, grows);
  bounded = u.bounded;
}

-- A new range within an old one.
skipped :
    (limit count : ℕ) (old new : IndexRanges) (n o : IndexRange) (m : Merged)
    → position n o ≡ within
    → IsUnion limit count (o ∷ old) new m
    → IsUnion limit count (o ∷ old) (n ∷ new) m
unfolding position
skipped limit count old new n o m e u = record {
  every = λ i. ground (arith, u.every i);
  reported = u.reported;
  proper = u.proper;
  counted = u.counted;
  bounded = u.bounded;
}

-- A new range that overlaps or touches an old one.
merged :
    (limit count : ℕ) (old new : IndexRanges) (n o : IndexRange) (m : Merged)
    → Proper n
    → Proper o
    → position n o ≡ overlaps
    → Grown limit count old new n o m
    → IsUnion limit count (o ∷ old) (n ∷ new) (put_out (overhang n o) m)
merged limit count old new n o m pn po e (c, (grows, fits), u) = record {
  every = λ i. ground (arith, u.every i, covers-grown i n o pn po e);
  reported = λ i.
      ground
        (arith, u.reported i, covers-overhang i n o pn po e, covers-append i (overhang n o) m.out);
  proper = u.proper;
  counted = omega (arith, u.counted, grows, total-append (overhang n o) m.out);
  bounded = u.bounded;
}

-- An old range that no new one touches.
kept :
    (limit count : ℕ) (old new : IndexRanges) (o : IndexRange) (m : Merged)
    → Proper o
    → IsUnion limit count old new m
    → IsUnion limit count (o ∷ old) new (put_dict o m)
kept limit count old new o m p u = record {
  every = λ i. ground (arith, u.every i);
  reported = λ i. ground (arith, u.reported i);
  proper = (p, u.proper);
  counted = u.counted;
  bounded = u.bounded;
}

-- The branch of a new range that touches no old one.
placed-Holds :
    (limit count : ℕ) (old new : IndexRanges) (n : IndexRange)
    → count ≤ limit
    → Proper n
    → ((c : ℕ) → c ≤ limit → Holds (IsUnion limit c old new) (merge limit c old new))
    → Holds (IsUnion limit count old (n ∷ new)) (do
      c ← check_max_range limit count n
      m ← merge limit c old new
      some (put_dict n (put_out (n ∷ []) m)))
placed-Holds limit count old new n h p rest =
    Holds-step _ (IsUnion limit count old (n ∷ new)) (check_max_range limit count n)
      (λ c. merge limit c old new) _
      (λ c e.
        let fits = check_max_range-some limit count n c e h in
        Holds-map _ (Added limit count old new n) _ (rest c fits.1) (λ m u. (c, fits, u)))
      (λ m u. placed limit count old new n m p u)

-- The branch of a new range that an old one grows by.
merged-Holds :
    (limit count : ℕ) (old new : IndexRanges) (n o : IndexRange)
    → count ≤ limit
    → Proper n
    → Proper o
    → position n o ≡ overlaps
    → ((c : ℕ)
        → c ≤ limit
        → Holds (IsUnion limit c (grown n o ∷ old) new) (merge limit c (grown n o ∷ old) new))
    → Holds (IsUnion limit count (o ∷ old) (n ∷ new)) (do
      c ← check_max_ranges limit count (overhang n o)
      m ← merge limit c (grown n o ∷ old) new
      some (put_out (overhang n o) m))
merged-Holds limit count old new n o h pn po e rest =
    Holds-step _ (IsUnion limit count (o ∷ old) (n ∷ new))
      (check_max_ranges limit count (overhang n o)) (λ c. merge limit c (grown n o ∷ old) new) _
      (λ c e'.
        let fits = check_max_ranges-some limit count (overhang n o) c e' h in
        Holds-map _ (Grown limit count old new n o) _ (rest c fits.1) (λ m u. (c, fits, u)))
      (λ m u. merged limit count old new n o m pn po e u)

pub merge-Holds :
    (limit count : ℕ) (old new : IndexRanges)
    → count ≤ limit
    → All Proper old
    → All Proper new
    → Holds (IsUnion limit count old new) (merge limit count old new)
unfolding merge
merge-Holds limit count old [] h po pn = record {
  every = λ i. ground arith;
  reported = λ i. ground arith;
  proper = po;
  counted = omega arith;
  bounded = h;
}
merge-Holds limit count [] (n ∷ new) h po pn =
    placed-Holds limit count [] new n h pn.0 (λ c fits. merge-Holds limit c [] new fits po pn.1)
merge-Holds limit count (o ∷ old) (n ∷ new) h po pn = elim (position-cases (position n o)) [
  | inl e ↦
      rw (e, merge)
        (placed-Holds limit count (o ∷ old) new n h pn.0
          (λ c fits. merge-Holds limit c (o ∷ old) new fits po pn.1))
  | inr (inl e) ↦
      rw (e, merge)
        (Holds-last _ (IsUnion limit count (o ∷ old) (n ∷ new)) (merge limit count old (n ∷ new)) _
          (merge-Holds limit count old (n ∷ new) h po.1 pn)
          (λ m u. kept limit count old (n ∷ new) o m po.0 u))
  | inr (inr (inl e)) ↦
      rw (e, merge)
        (Holds-map _ (IsUnion limit count (o ∷ old) (n ∷ new)) _
          (merge-Holds limit count (o ∷ old) new h po pn.1)
          (λ m u. skipped limit count old new n o m e u))
  | inr (inr (inr e)) ↦
      rw (e, merge)
        (merged-Holds limit count old new n o h pn.0 po.0 e (λ c fits.
          merge-Holds limit c (grown n o ∷ old) new fits (Proper-grown n o pn.0 po.0, po.1) pn.1))
]

-- A merge that succeeds holds the indexes of the old and the new ranges and no others, reports
-- ranges that make just the difference, counts as many indexes as it reports, and stays within the
-- limit.
pub merge-IsUnion :
    (limit count : ℕ) (old new : IndexRanges) (m : Merged)
    → count ≤ limit
    → All Proper old
    → All Proper new
    → merge limit count old new ≡ some m
    → IsUnion limit count old new m
merge-IsUnion limit count old new m h po pn e =
    Holds-found (IsUnion limit count old new) _ m e (merge-Holds limit count old new h po pn)

-- A new range that begins in or next to one old range and reaches into the next one leaves ranges that
-- overlap, which check_subaddress_dict refuses.
pub merge-overlapping :
    (limit count : ℕ) (first second n : IndexRange) (m : Merged)
    → position n first ≡ overlaps
    → second.first ≤ n.last
    → merge limit count (first ∷ second ∷ []) (n ∷ []) ≡ some m
    → check_subaddress_dict m.dict ≡ false
unfolding merge check_subaddress_dict check_after grown
merge-overlapping limit count first second n m e reach r = Holds-found Refused _ m r (
    rw (e, merge)
      (Holds-step Refused Refused (check_max_ranges limit count (overhang n first))
        (λ c. merge limit c (grown n first ∷ second ∷ []) []) (put_out (overhang n first))
        (λ c e'. ground (arith, reach)) (λ a h. h)))
  where
    Refused : Merged → Type 0
    Refused a = check_subaddress_dict a.dict ≡ false
