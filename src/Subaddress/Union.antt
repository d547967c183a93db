-- ===== src/Subaddress/Union.antt =====
-- What do_upsert (src/db/storage.cpp) leaves in the tables of an account.
use xfo_lws.Base.{
  ℕ, ◌≤◌, ◌≡◌, inl, inr, refl, ◌∙◌, subst, ◌||◌, List, [], ◌∷◌, ltb, length, arith, Bool-cases,
  Option-cases, All,
}
use xfo_lws.Base.Table.{lookup}
use xfo_lws.Subaddress.Ranges.{IndexRanges, check_subaddress_dict, check_max_ranges, merge}
use xfo_lws.Base.Results.{Holds, Holds-found}
use xfo_lws.Subaddress.Merge.{merge-IsUnion}
use xfo_lws.Subaddress.Covered.{Proper, IsUnion, check_max_ranges-some}
use xfo_lws.Subaddress.Upsert.{
  Subaddresses, Upserted, done, refused, store_dict, upsert_major, upsert_all, do_upsert,
}
use xfo_lws.Subaddress.Complete.{
  ranges_of, contains_index, requests_index, check_subaddress_dict-Proper, IsComplete, Extends,
  contains_index-store_dict, store_dict-IsComplete,
}

module _ (get_spend_public : ℕ → ℕ → ℕ) where
  -- What one round, and the whole loop, leave.
  pub record Upsets (s s' : Subaddresses) (subaddrs : List (ℕ × IndexRanges)) : Type 0 where
    pub sane : IsComplete get_spend_public s'
    pub union :
        (major i : ℕ)
        → contains_index major i s' ≡ (contains_index major i s || requests_index major i subaddrs)

  abbrev Round :
      ℕ → Subaddresses → ℕ → IndexRanges → (ℕ × List (ℕ × IndexRanges) × Subaddresses) → Type 0
  Round limit s major new r = (r.0 ≤ limit) × Upsets s r.2 ((major, new) ∷ [])

  stored :
      (major : ℕ) (new dict : IndexRanges) (s : Subaddresses)
      → IsComplete get_spend_public s
      → Extends get_spend_public major new dict s
      → Upsets s (store_dict get_spend_public major dict s) ((major, new) ∷ [])
  stored major new dict s v x = record {
    sane = store_dict-IsComplete get_spend_public major dict s x.0 v;
    union = λ k i. contains_index-store_dict get_spend_public major new dict s x k i ∙ ground arith;
  }

  upsert_major-Round :
      (limit count major : ℕ) (new : IndexRanges) (out : List (ℕ × IndexRanges)) (s : Subaddresses)
      → count ≤ limit
      → All Proper new
      → IsComplete get_spend_public s
      → Holds (Round limit s major new) (upsert_major get_spend_public limit count major new out s)
  unfolding upsert_major
  upsert_major-Round limit count major new out s h p v =
      elim (Option-cases (lookup major s.ranges)) [
        | inl e ↦
            rw (e, upsert_major)
              (elim (Option-cases (check_max_ranges limit count new)) [
                | inl full ↦ rw full tt
                | inr (c, fits) ↦ rw fits (
                  (check_max_ranges-some limit count new c fits h).1,
                  stored major new new s v (p, λ i. rw e refl),
                )
              ])
        | inr (old, e) ↦
            rw (e, upsert_major)
              (elim (Option-cases (merge limit count old new)) [
                | inl full ↦ rw full tt
                | inr (m, ok) ↦
                    let u : IsUnion limit count old new m =
                      merge-IsUnion limit count old new m h
                        (subst (λ o. All Proper (ranges_of o)) e (v.proper major)) p ok in
                    rw ok (u.bounded, stored major new m.dict s v (u.proper, λ i. rw e (u.every i)))
              ])
      ]

  abbrev Leaves :
      Subaddresses
      → List (ℕ × IndexRanges)
      → Upserted (List (ℕ × IndexRanges) × Subaddresses)
      → Type 0
  Leaves s subaddrs (done r) = Upsets s r.1 subaddrs
  Leaves s subaddrs (refused e) = Unit

  Leaves-trans :
      (s t : Subaddresses) (e : ℕ × IndexRanges) (es : List (ℕ × IndexRanges))
      (r : Upserted (List (ℕ × IndexRanges) × Subaddresses))
      → Upsets s t (e ∷ [])
      → Leaves t es r
      → Leaves s (e ∷ es) r
  Leaves-trans s t e es (done r) first rest = record {
    sane = rest.sane;
    union = λ k i. ground (arith, rest.union k i, first.union k i);
  }
  Leaves-trans s t e es (refused x) first rest = tt

  upsert_all-Leaves :
      (limit count : ℕ) (subaddrs out : List (ℕ × IndexRanges)) (s : Subaddresses)
      → count ≤ limit
      → IsComplete get_spend_public s
      → Leaves s subaddrs (upsert_all get_spend_public limit count subaddrs out s)
  unfolding upsert_all
  upsert_all-Leaves limit count [] out s h v = record { sane = v; union = λ k i. ground arith }
  upsert_all-Leaves limit count ((major, new) ∷ subaddrs) out s h v =
      elim (Bool-cases (check_subaddress_dict new)) [
        | inr bad ↦ rw (bad, upsert_all) tt
        | inl good ↦
            elim (Option-cases (upsert_major get_spend_public limit count major new out s)) [
              | inl full ↦ rw (good, upsert_all) (rw full tt)
              | inr ((c, o, t), ok) ↦
                  let round : Round limit s major new (c, o, t) =
                    Holds-found (Round limit s major new) _ (c, o, t) ok
                      (upsert_major-Round limit count major new out s h
                        (check_subaddress_dict-Proper new good) v) in
                  rw (good, upsert_all)
                    (rw ok (
                      Leaves-trans s t (major, new) subaddrs _ round.1
                        (upsert_all-Leaves limit c subaddrs o t round.0 round.1.sane)))
            ]
      ]

  -- When do_upsert succeeds on complete tables, they stay complete, with a public key for each
  -- subaddress of their ranges, and the subaddresses are those that there were and those requested.
  pub do_upsert-Upsets :
      (limit : ℕ) (subaddrs out : List (ℕ × IndexRanges)) (s s' : Subaddresses)
      → IsComplete get_spend_public s
      → do_upsert get_spend_public limit subaddrs s ≡ done (out, s')
      → Upsets s s' subaddrs
  unfolding do_upsert
  do_upsert-Upsets limit subaddrs out s s' v e = subst (Leaves s subaddrs) e leaves
    where
      leaves : Leaves s subaddrs (do_upsert get_spend_public limit subaddrs s)
      leaves = elim (Bool-cases (ltb limit (length s.indexes))) [
        | inl full ↦ rw full tt
        | inr room ↦
            rw room (upsert_all-Leaves limit (length s.indexes) subaddrs [] s (ground arith) v)
      ]
