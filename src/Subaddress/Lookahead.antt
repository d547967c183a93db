-- ===== src/Subaddress/Lookahead.antt =====
-- do_lookahead of src/db/storage.cpp: which subaddresses an account gets ahead of those that received
-- something. The recipients of the account's outputs are a list, in the table's order.
-- The loop over the outputs may not end, so it runs on fuel: `running` is a loop that goes on.
use xfo_lws.Base.{
  ℕ, zero, suc, ◌+◌, ◌-◌, ◌*◌, ◌/◌, ◌%◌, ◌^◌, Bool, true, false, ◌&&◌, ◌||◌, Option, none, some,
  List, [], ◌∷◌, if◌then◌else◌, ltb, ◌==◌, max, min,
}
use xfo_lws.Subaddress.Ranges.{IndexRanges}
use xfo_lws.Subaddress.Upsert.{Subaddresses, done, refused, do_upsert}

-- address_index
pub record AddressIndex : Type 0 where
  pub maj_i : ℕ
  pub min_i : ℕ

unfoldable pub is_zero : AddressIndex → Bool
is_zero a = (a.maj_i == 0) && (a.min_i == 0)

abbrev pub u32_max : ℕ
u32_max = 4294967295

-- add_and_clamp of two 32-bit numbers
unfoldable pub add_and_clamp : ℕ → ℕ → ℕ
add_and_clamp a b = min (a + b) u32_max

-- What a loop has come to: `thrown` is the exception of vector::at.
pub data Progress {ℓ} (A : Type ℓ) : Type ℓ where
  running : Progress A
  thrown : Progress A
  failed : Progress A
  finished : A → Progress A

-- vector::resize, which does not shrink here
unfoldable pub resize : ℕ → List IndexRanges → List IndexRanges
resize zero xs = xs
resize (suc n) [] = [] ∷ resize n []
resize (suc n) (x ∷ xs) = x ∷ resize n xs

-- The update of `initial.at(index)`: the last index of its first range grows, or it gets a range.
unfoldable pub raise_at : ℕ → ℕ → List IndexRanges → Option (List IndexRanges)
raise_at index this_minor [] = none
raise_at zero this_minor ([] ∷ xs) = some ((record { first = 0; last = this_minor } ∷ []) ∷ xs)
raise_at zero this_minor ((r ∷ rs) ∷ xs) =
    some ((record r { last = max r.last this_minor } ∷ rs) ∷ xs)
raise_at (suc index) this_minor (x ∷ xs) = elim (raise_at index this_minor xs) [
  | none ↦ none
  | some ys ↦ some (x ∷ ys)
]

-- The body for an output to a subaddress.
unfoldable pub note_recipient :
    ℕ → AddressIndex → AddressIndex → List IndexRanges → Progress (List IndexRanges)
unfolding add_and_clamp resize raise_at
note_recipient limit lookahead recipient initial =
    let needed = add_and_clamp recipient.maj_i lookahead.maj_i in
    let this_minor = add_and_clamp (lookahead.min_i - 1) recipient.min_i in
    if ltb u32_max (needed / lookahead.min_i)
    then failed
    else if ltb limit ((needed * lookahead.min_i) % 2 ^ 32)
    then failed
    else elim (raise_at recipient.maj_i this_minor (resize needed initial)) [
      | none ↦ thrown
      | some initial' ↦ finished initial'
    ]

-- The loop over the outputs. The cursor moves only past an output to a subaddress.
unfoldable pub scan_outputs :
    ℕ → ℕ → AddressIndex → List AddressIndex → List IndexRanges → Progress (List IndexRanges)
unfolding is_zero note_recipient
scan_outputs zero limit lookahead outputs initial = running
scan_outputs (suc fuel) limit lookahead [] initial = finished initial
scan_outputs (suc fuel) limit lookahead (recipient ∷ outputs) initial = elim (is_zero recipient) [
  | true ↦ scan_outputs fuel limit lookahead (recipient ∷ outputs) initial
  | false ↦ elim (note_recipient limit lookahead recipient initial) [
    | running ↦ running
    | thrown ↦ thrown
    | failed ↦ failed
    | finished initial' ↦ scan_outputs fuel limit lookahead outputs initial'
  ]
]

-- `fill in every gap with a default`, from major index `i` on; `none` is error::max_subaddresses.
unfoldable pub fill_gaps : ℕ → ℕ → ℕ → ℕ → List IndexRanges → Option (List (ℕ × IndexRanges))
fill_gaps limit minor i total [] = some []
fill_gaps limit minor i total (elem ∷ initial) =
    let ranges : IndexRanges = elim elem [
      | [] ↦ record { first = 0; last = minor - 1 } ∷ []
      | r ∷ rs ↦ r ∷ rs
    ] in
    let this_minor : ℕ = elim elem [ [] ↦ minor | r ∷ rs ↦ r.last ] in
    if ltb (limit - total) this_minor
    then none
    else elim (fill_gaps limit minor (i + 1) (total + this_minor) initial) [
      | none ↦ none
      | some rest ↦ some ((i, ranges) ∷ rest)
    ]

-- do_lookahead
unfoldable pub do_lookahead :
    (ℕ → ℕ → ℕ) → ℕ → ℕ → AddressIndex → List AddressIndex → Subaddresses → Progress Subaddresses
unfolding scan_outputs resize fill_gaps do_upsert
do_lookahead get_spend_public fuel limit lookahead outputs s =
    let major = lookahead.maj_i in
    let minor = lookahead.min_i in
    if (major == 0) || (minor == 0)
    then finished s
    else if ltb u32_max (major / minor)
    then failed
    else if ltb limit ((major * minor) % 2 ^ 32)
    then failed
    else elim (scan_outputs fuel limit lookahead outputs (resize major [])) [
      | running ↦ running
      | thrown ↦ thrown
      | failed ↦ failed
      | finished initial ↦ elim (fill_gaps limit minor 0 0 initial) [
        | none ↦ failed
        | some subaddrs ↦ elim (do_upsert get_spend_public limit subaddrs s) [
          | refused e ↦ failed
          | done (out, s') ↦ finished s'
        ]
      ]
    ]
