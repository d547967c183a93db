-- ===== src/Subaddress/Complete.antt =====
-- The tables of subaddresses as sets, and what store_dict of do_upsert (src/db/storage.cpp) does to them.
use xfo_lws.Base.{
  ℕ, zero, suc, ◌+◌, ◌-◌, ◌<◌, ◌≤◌, ◌≡◌, inl, inr, refl, ap, ◌∙◌, subst, Bool, true, false, ◌&&◌,
  ◌||◌, not, Option, none, some, List, [], ◌∷◌, ◌++◌, if◌then◌else◌, leb, ◌==◌, arith, Bool-cases,
  Option-cases, All,
}
use xfo_lws.Base.Table.{Table, lookup, lookup-assign}
use xfo_lws.Subaddress.Ranges.{IndexRanges, check_after, check_subaddress_dict}
use xfo_lws.Subaddress.Covered.{covers, Proper}
use xfo_lws.Subaddress.Upsert.{Subaddresses, put_index, put_minors, put_ranges, store_dict}

abbrev pub ranges_of : Option IndexRanges → IndexRanges
ranges_of none = []
ranges_of (some rs) = rs

-- The tables, or the request, hold a subaddress.
abbrev pub contains_index : ℕ → ℕ → Subaddresses → Bool
contains_index major i s = covers i (ranges_of (lookup major s.ranges))

abbrev pub requests_index : ℕ → ℕ → List (ℕ × IndexRanges) → Bool
requests_index major i [] = false
requests_index major i ((k, rs) ∷ subaddrs) =
    ((k == major) && covers i rs) || requests_index major i subaddrs

abbrev has_key : Option (ℕ × ℕ) → Bool
has_key none = false
has_key (some index) = true

check_after-Proper : (last : ℕ) (rs : IndexRanges) → check_after last rs ≡ true → All Proper rs
unfolding check_after
check_after-Proper last [] h = tt
check_after-Proper last (r ∷ rs) h = (ground arith, check_after-Proper r.last rs (ground arith))

pub check_subaddress_dict-Proper :
    (rs : IndexRanges) → check_subaddress_dict rs ≡ true → All Proper rs
unfolding check_subaddress_dict
check_subaddress_dict-Proper [] h = tt
check_subaddress_dict-Proper (r ∷ rs) h =
    (ground arith, check_after-Proper r.last rs (ground arith))

lookup-append :
    (k : ℕ) (xs ys : Table (ℕ × ℕ))
    → has_key (lookup k (xs ++ ys)) ≡ (has_key (lookup k xs) || has_key (lookup k ys))
unfolding lookup
lookup-append k [] ys = refl
lookup-append k ((j, v) ∷ xs) ys = ground (arith, lookup-append k xs ys)

module _ (get_spend_public : ℕ → ℕ → ℕ) where
  -- The table of indexes has the public key of a subaddress.
  abbrev has_index : ℕ → ℕ → Table (ℕ × ℕ) → Bool
  has_index major minor indexes = has_key (lookup (get_spend_public major minor) indexes)

  put_index_self :
      (major minor : ℕ) (t : Table (ℕ × ℕ))
      → has_index major minor (put_index get_spend_public major minor t) ≡ true
  unfolding put_index
  put_index_self major minor t = elim (Option-cases (lookup (get_spend_public major minor) t)) [
    | inl e ↦
        rw (e, put_index) (lookup-append (get_spend_public major minor) t _ ∙ ground (arith, e))
    | inr (x, e) ↦ rw (e, put_index) (rw e refl)
  ]

  put_index-old :
      (k : ℕ) (major minor : ℕ) (t : Table (ℕ × ℕ))
      → has_key (lookup k t) ≡ true
      → has_key (lookup k (put_index get_spend_public major minor t)) ≡ true
  unfolding put_index
  put_index-old k major minor t h = elim (Option-cases (lookup (get_spend_public major minor) t)) [
    | inl e ↦ rw (e, put_index) (lookup-append k t _ ∙ rw h refl)
    | inr (x, e) ↦ rw (e, put_index) h
  ]

  put_minors-old :
      (k : ℕ) (major minor n : ℕ) (t : Table (ℕ × ℕ))
      → has_key (lookup k t) ≡ true
      → has_key (lookup k (put_minors get_spend_public major minor n t)) ≡ true
  unfolding put_minors
  put_minors-old k major minor zero t h = h
  put_minors-old k major minor (suc n) t h =
      put_minors-old k major (minor + 1) n _ (put_index-old k major minor t h)

  put_minors_self :
      (major minor n i : ℕ) (t : Table (ℕ × ℕ))
      → minor ≤ i
      → i < minor + n
      → has_index major i (put_minors get_spend_public major minor n t) ≡ true
  unfolding put_minors
  put_minors_self major minor zero i t l h = absurd (omega arith)
  put_minors_self major minor (suc n) i t l h = elim (Bool-cases (minor == i)) [
    | inl e ↦
        let same : minor ≡ i = ground arith in
        put_minors-old (get_spend_public major i) major (minor + 1) n _ (
          subst (λ j. has_index major j (put_index get_spend_public major minor t) ≡ true) same
            (put_index_self major minor t))
    | inr e ↦ put_minors_self major (minor + 1) n i _ (ground arith) (omega arith)
  ]

  put_ranges-old :
      (k : ℕ) (major : ℕ) (rs : IndexRanges) (t : Table (ℕ × ℕ))
      → has_key (lookup k t) ≡ true
      → has_key (lookup k (put_ranges get_spend_public major rs t)) ≡ true
  unfolding put_ranges
  put_ranges-old k major [] t h = h
  put_ranges-old k major (r ∷ rs) t h =
      put_ranges-old k major rs _ (put_minors-old k major r.first (r.last + 1 - r.first) t h)

  put_ranges_self :
      (major : ℕ) (rs : IndexRanges) (i : ℕ) (t : Table (ℕ × ℕ))
      → covers i rs ≡ true
      → has_index major i (put_ranges get_spend_public major rs t) ≡ true
  unfolding put_ranges
  put_ranges_self major [] i t h = absurd (cc (h))
  put_ranges_self major (r ∷ rs) i t h = elim (Bool-cases (leb r.first i && leb i r.last)) [
    | inl e ↦
        put_ranges-old (get_spend_public major i) major rs _
          (put_minors_self major r.first (r.last + 1 - r.first) i t (ground arith) (ground arith))
    | inr e ↦ put_ranges_self major rs i _ (ground arith)
  ]

  -- Ranges are proper, and each of their subaddresses is in the table of indexes.
  pub record IsComplete (s : Subaddresses) : Type 0 where
    pub proper : (major : ℕ) → All Proper (ranges_of (lookup major s.ranges))
    pub complete :
        (major i : ℕ) → (not (contains_index major i s) || has_index major i s.indexes) ≡ true

  lookup-store_dict :
      (major k : ℕ) (dict : IndexRanges) (s : Subaddresses)
      → ranges_of (lookup k (store_dict get_spend_public major dict s).ranges)
        ≡ (if major == k then dict else ranges_of (lookup k s.ranges))
  unfolding store_dict
  lookup-store_dict major k dict s = elim (Bool-cases (major == k)) [
    | inl e ↦ rw (lookup-assign major k dict s.ranges) (rw e refl)
    | inr e ↦ rw (lookup-assign major k dict s.ranges) (rw e refl)
  ]

  -- What is stored for a major index holds the old and the new indexes.
  abbrev pub Extends : ℕ → IndexRanges → IndexRanges → Subaddresses → Type 0
  Extends major new dict s =
      All Proper dict × ((i : ℕ) → covers i dict ≡ (contains_index major i s || covers i new))

  pub contains_index-store_dict :
      (major : ℕ) (new dict : IndexRanges) (s : Subaddresses)
      → Extends major new dict s
      → (k i : ℕ)
      → contains_index k i (store_dict get_spend_public major dict s)
        ≡ (contains_index k i s || ((major == k) && covers i new))
  contains_index-store_dict major new dict s x k i = elim (Bool-cases (major == k)) [
    | inl e ↦
        let same : major ≡ k = ground arith in
        rw (lookup-store_dict major k dict s)
          (rw e (x.1 i ∙ ap (λ j. contains_index j i s || covers i new) same))
    | inr e ↦ rw (lookup-store_dict major k dict s) (rw e (ground arith))
  ]

  has_index-store_dict :
      (major : ℕ) (dict : IndexRanges) (s : Subaddresses) (i : ℕ)
      → covers i dict ≡ true
      → has_index major i (store_dict get_spend_public major dict s).indexes ≡ true
  unfolding store_dict
  has_index-store_dict major dict s i h = put_ranges_self major dict i s.indexes h

  has_index-store_dict_old :
      (major k : ℕ) (dict : IndexRanges) (s : Subaddresses) (i : ℕ)
      → has_index k i s.indexes ≡ true
      → has_index k i (store_dict get_spend_public major dict s).indexes ≡ true
  unfolding store_dict
  has_index-store_dict_old major k dict s i h =
      put_ranges-old (get_spend_public k i) major dict s.indexes h

  pub store_dict-IsComplete :
      (major : ℕ) (dict : IndexRanges) (s : Subaddresses)
      → All Proper dict
      → IsComplete s
      → IsComplete (store_dict get_spend_public major dict s)
  store_dict-IsComplete major dict s p v = record {
    proper = λ k. elim (Bool-cases (major == k)) [
      | inl e ↦ rw (lookup-store_dict major k dict s) (rw e p)
      | inr e ↦ rw (lookup-store_dict major k dict s) (rw e (v.proper k))
    ];
    complete = λ k i. elim (Bool-cases (major == k)) [
      | inl e ↦
          let same : major ≡ k = ground arith in
          subst
            (λ j.
              (not (contains_index j i (store_dict get_spend_public major dict s))
                || has_index j i (store_dict get_spend_public major dict s).indexes)
              ≡ true)
            same
            (rw (lookup-store_dict major major dict s) (elim (Bool-cases (covers i dict)) [
              | inl c ↦ ground (arith, c, has_index-store_dict major dict s i c)
              | inr c ↦ ground (arith, c)
            ]))
      | inr e ↦ rw (lookup-store_dict major k dict s) (
          rw e (elim (Bool-cases (has_index k i s.indexes)) [
            | inl c ↦ ground (arith, has_index-store_dict_old major k dict s i c)
            | inr c ↦ ground (arith, v.complete k i)
          ]))
    ];
  }
