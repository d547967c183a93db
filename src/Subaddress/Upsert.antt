-- ===== src/Subaddress/Upsert.antt =====
-- do_upsert of src/db/storage.cpp, for the tables of one account. The transaction is dropped when it
-- fails, so a refusal keeps no change.
use xfo_lws.Base.{
  ℕ, zero, suc, ◌+◌, ◌-◌, true, false, Option, none, some, List, [], ◌∷◌, ◌++◌, if◌then◌else◌, ltb,
  ◌==◌, length,
}
use xfo_lws.Base.Table.{Table, lookup, assign}
use xfo_lws.Subaddress.Ranges.{
  IndexRange, IndexRanges, check_subaddress_dict, check_max_ranges, merge,
}

-- subaddress_ranges by major index, and subaddress_indexes with a spend public key for each entry.
pub record Subaddresses : Type 0 where
  pub ranges : Table IndexRanges
  pub indexes : Table (ℕ × ℕ)

pub data UpsertError : Type 0 where
  schema_array max_subaddresses : UpsertError

pub data Upserted {ℓ} (A : Type ℓ) : Type ℓ where
  done : A → Upserted A
  refused : UpsertError → Upserted A

-- The lambda add_out.
unfoldable pub add_out : ℕ → IndexRange → List (ℕ × IndexRanges) → List (ℕ × IndexRanges)
add_out major minor [] = (major, minor ∷ []) ∷ []
add_out major minor ((k, rs) ∷ []) =
    if k == major then (k, rs ++ minor ∷ []) ∷ [] else (k, rs) ∷ (major, minor ∷ []) ∷ []
add_out major minor (e ∷ e' ∷ es) = e ∷ add_out major minor (e' ∷ es)

unfoldable pub add_outs : ℕ → IndexRanges → List (ℕ × IndexRanges) → List (ℕ × IndexRanges)
unfolding add_out
add_outs major [] out = out
add_outs major (r ∷ rs) out = add_outs major rs (add_out major r out)

-- address_index::get_spend_public for the account, a public key as a number. A key that is there
-- already (MDB_KEYEXIST) stays.
module _ (get_spend_public : ℕ → ℕ → ℕ) where
  unfoldable pub put_index : ℕ → ℕ → Table (ℕ × ℕ) → Table (ℕ × ℕ)
  unfolding lookup
  put_index major minor indexes = elim (lookup (get_spend_public major minor) indexes) [
    | none ↦ indexes ++ (get_spend_public major minor, (major, minor)) ∷ []
    | some there ↦ indexes
  ]

  -- The loop over the minor indexes of one range, with `n` of them left.
  unfoldable pub put_minors : ℕ → ℕ → ℕ → Table (ℕ × ℕ) → Table (ℕ × ℕ)
  unfolding put_index
  put_minors major minor zero indexes = indexes
  put_minors major minor (suc n) indexes =
      put_minors major (minor + 1) n (put_index major minor indexes)

  unfoldable pub put_ranges : ℕ → IndexRanges → Table (ℕ × ℕ) → Table (ℕ × ℕ)
  unfolding put_minors
  put_ranges major [] indexes = indexes
  put_ranges major (r ∷ rs) indexes =
      put_ranges major rs (put_minors major r.first (r.last + 1 - r.first) indexes)

  -- What is stored for a major index.
  unfoldable pub store_dict : ℕ → IndexRanges → Subaddresses → Subaddresses
  unfolding put_ranges assign
  store_dict major dict s = record {
    ranges = assign major dict s.ranges;
    indexes = put_ranges major dict s.indexes;
  }

  -- One round of the loop over the given ranges: the new range, what was reported, and the count.
  unfoldable pub upsert_major :
      ℕ
      → ℕ
      → ℕ
      → IndexRanges
      → List (ℕ × IndexRanges)
      → Subaddresses
      → Option (ℕ × List (ℕ × IndexRanges) × Subaddresses)
  unfolding lookup merge check_max_ranges add_outs store_dict
  upsert_major limit count major new out s = elim (lookup major s.ranges) [
    | none ↦ elim (check_max_ranges limit count new) [
      | none ↦ none
      | some count' ↦ some (count', out ++ (major, new) ∷ [], store_dict major new s)
    ]
    | some old ↦ elim (merge limit count old new) [
      | none ↦ none
      | some m ↦ some (m.count, add_outs major m.out out, store_dict major m.dict s)
    ]
  ]

  unfoldable pub upsert_all :
      ℕ
      → ℕ
      → List (ℕ × IndexRanges)
      → List (ℕ × IndexRanges)
      → Subaddresses
      → Upserted (List (ℕ × IndexRanges) × Subaddresses)
  unfolding check_subaddress_dict upsert_major
  upsert_all limit count [] out s = done (out, s)
  upsert_all limit count ((major, new) ∷ subaddrs) out s = elim (check_subaddress_dict new) [
    | false ↦ refused schema_array
    | true ↦ elim (upsert_major limit count major new out s) [
      | none ↦ refused max_subaddresses
      | some (count', out', s') ↦ upsert_all limit count' subaddrs out' s'
    ]
  ]

  unfoldable pub do_upsert :
      ℕ → List (ℕ × IndexRanges) → Subaddresses → Upserted (List (ℕ × IndexRanges) × Subaddresses)
  unfolding upsert_all
  do_upsert limit subaddrs s =
      if ltb limit (length s.indexes)
      then refused max_subaddresses
      else upsert_all limit (length s.indexes) subaddrs [] s
