-- ===== src/Subaddress/Runs.antt =====
-- The subaddress ranges of Subaddress on concrete requests.
use xfo_lws.Base.{ℕ, ◌+◌, ◌*◌, ◌≡◌, ◌≢◌, refl, true, some, [], ◌∷◌, arith}
use xfo_lws.Base.Table.{lookup, assign}
use xfo_lws.Subaddress.Ranges.{
  IndexRange, IndexRanges, check_after, check_subaddress_dict, check_max_range, check_max_ranges,
  position, overlaps, Merged, overhang, grown, merge,
}
use xfo_lws.Subaddress.Upsert.{
  Subaddresses, done, put_index, put_minors, put_ranges, store_dict, upsert_major, upsert_all,
  do_upsert,
}
use xfo_lws.Subaddress.Complete.{IsComplete}
use xfo_lws.Subaddress.Union.{Upsets, do_upsert-Upsets}
use xfo_lws.Subaddress.Lookahead.{
  AddressIndex, is_zero, finished, running, add_and_clamp, resize, raise_at, note_recipient,
  scan_outputs, fill_gaps, do_lookahead,
}
use xfo_lws.Subaddress.Loop.{scan_outputs-ne-running, do_lookahead-running}

abbrev range : ℕ → ℕ → IndexRange
range a b = record { first = a; last = b }

abbrev two_ranges : IndexRanges
two_ranges = range 0 5 ∷ range 10 15 ∷ []

abbrev bridged : Merged
bridged = record { dict = range 0 20 ∷ range 10 15 ∷ []; out = range 6 20 ∷ []; count = 27 }

merge_bridge : merge 100 12 two_ranges (range 3 20 ∷ []) ≡ some bridged
unfolding merge position overhang grown check_max_range check_max_ranges
merge_bridge = refl

bridge_overlaps : position (range 3 20) (range 0 5) ≡ overlaps
unfolding position
bridge_overlaps = refl

-- Public keys that tell all subaddresses apart.
abbrev key : ℕ → ℕ → ℕ
key major minor = major * 1000 + minor

abbrev no_subaddresses : Subaddresses
no_subaddresses = record { ranges = []; indexes = [] }

abbrev one_range : Subaddresses
one_range = record { ranges = (0, range 1 2 ∷ []) ∷ []; indexes = (1, (0, 1)) ∷ (2, (0, 2)) ∷ [] }

no_subaddresses-IsComplete : IsComplete key no_subaddresses
unfolding lookup
no_subaddresses-IsComplete = record { proper = λ k. tt; complete = λ k i. refl }

upsert_one :
    do_upsert key 5 ((0, range 1 2 ∷ []) ∷ []) no_subaddresses
    ≡ done ((0, range 1 2 ∷ []) ∷ [], one_range)
unfolding do_upsert upsert_all upsert_major store_dict put_ranges put_minors put_index lookup assign
    check_subaddress_dict check_after check_max_ranges check_max_range
upsert_one = refl

do_upsert-Upsets_example : Upsets key no_subaddresses one_range ((0, range 1 2 ∷ []) ∷ [])
do_upsert-Upsets_example =
    do_upsert-Upsets key 5 ((0, range 1 2 ∷ []) ∷ []) ((0, range 1 2 ∷ []) ∷ []) no_subaddresses
      one_range no_subaddresses-IsComplete upsert_one

abbrev index : ℕ → ℕ → AddressIndex
index a b = record { maj_i = a; min_i = b }

scan_outputs-ne-running_example :
    scan_outputs 3 100 (index 1 2) (index 0 4 ∷ index 1 1 ∷ []) ([] ∷ []) ≢ running
unfolding is_zero
scan_outputs-ne-running_example =
    scan_outputs-ne-running 100 (index 1 2) 3 (index 0 4 ∷ index 1 1 ∷ []) ([] ∷ [])
      (refl, (refl, tt)) (omega arith)

abbrev after_lookahead : Subaddresses
after_lookahead = record {
  ranges = (0, range 0 2 ∷ []) ∷ [];
  indexes = (0, (0, 0)) ∷ (1, (0, 1)) ∷ (2, (0, 2)) ∷ [];
}

lookahead_done :
    do_lookahead key 9 100 (index 1 2) (index 0 1 ∷ []) no_subaddresses ≡ finished after_lookahead
unfolding do_lookahead scan_outputs is_zero note_recipient add_and_clamp resize raise_at fill_gaps
    do_upsert upsert_all upsert_major store_dict put_ranges put_minors put_index lookup assign
    check_subaddress_dict check_after check_max_ranges check_max_range
lookahead_done = refl

zero_index : is_zero (index 0 0) ≡ true
unfolding is_zero
zero_index = refl

do_lookahead-running_example :
    do_lookahead key 500 100 (index 1 2) (index 0 1 ∷ index 0 0 ∷ index 0 3 ∷ []) no_subaddresses
    ≡ running
do_lookahead-running_example =
    do_lookahead-running key 9 100 (index 1 2) (index 0 0) (index 0 1 ∷ []) (index 0 3 ∷ [])
      no_subaddresses after_lookahead refl lookahead_done zero_index 500
