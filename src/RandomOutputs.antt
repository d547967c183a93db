-- ===== src/RandomOutputs.antt =====
-- The selection of random outputs for ring signatures in src/util/random_outputs.cpp. The random source
-- is a state: `gamma` is a call of gamma_picker, and `triangular` the index that one draw gives for a
-- total count; both compute with floating point numbers. `fetch` asks the daemon, once in each try.
use xfo_lws.Base.{
  ℕ, zero, suc, ◌+◌, ◌-◌, Bool, true, false, ◌&&◌, not, Option, none, some, List, [], ◌∷◌, ◌++◌,
  map, ◌⊎◌, inl, inr, ltb, leb, ◌==◌, if◌then◌else◌, length, keep,
}
use xfo_lws.Account.{sort}
pub mod Sizes
pub mod Checked
pub mod Rings
pub mod Runs

pub record OutputKeys : Type 0 where
  pub key : ℕ
  pub unlocked : Bool

pub record RandomOutput : Type 0 where
  pub keys : OutputKeys
  pub index : ℕ

pub record RandomRing : Type 0 where
  pub ring : List RandomOutput
  pub amount : ℕ

pub record Histogram : Type 0 where
  pub amount : ℕ
  pub total_count : ℕ
  pub unlocked_count : ℕ

pub record OutputRef : Type 0 where
  pub amount : ℕ
  pub index : ℕ

-- `unfinished` is no answer of the program: a draw was rejected more often than the fuel allows.
pub data PickError : Type 0 where
  not_enough_mixin : PickError
  bad_daemon_response : PickError
  precondition : PickError
  fetch_error : PickError
  unfinished : PickError

pub data Picked (R : Type 0) : Type 0 where
  picked : List ℕ → R → Picked R
  refused : PickError → Picked R

-- The indexes of pick_all, from `index` on.
unfoldable pub pick_all : ℕ → ℕ → List ℕ
pick_all zero index = []
pick_all (suc n) index = index ∷ pick_all n (index + 1)

-- std::lower_bound in the sorted histograms, and the test of what it finds.
unfoldable pub match_histogram : ℕ → List Histogram → Option Histogram
match_histogram amount [] = none
match_histogram amount (h ∷ hs) =
    if ltb h.amount amount
    then match_histogram amount hs
    else if h.amount == amount
    then some h
    else none

-- std::unique with same_index
unfoldable pub unique : List ℕ → List ℕ
unique [] = []
unique (i ∷ []) = i ∷ []
unique (i ∷ (j ∷ is)) = let rest = unique (j ∷ is) in if i == j then rest else i ∷ rest

-- std::lower_bound in the outputs of a ring, sorted by index, and the test of what it finds.
unfoldable pub ring_has_index : ℕ → List RandomOutput → Bool
ring_has_index index [] = false
ring_has_index index (o ∷ os) =
    if ltb o.index index then ring_has_index index os else o.index == index

abbrev pub by_index : RandomOutput → RandomOutput → Bool
by_index a b = ltb a.index b.index

abbrev pub by_amount : Histogram → Histogram → Bool
by_amount a b = ltb a.amount b.amount

abbrev pub new_output : ℕ → RandomOutput
new_output index = record { keys = record { key = 0; unlocked = false }; index = index }

-- A ring with the outputs of a selection that are not in it, and those.
unfoldable pub add_new : RandomRing → List ℕ → RandomRing × List ℕ
unfolding unique ring_has_index sort
add_new ring latest =
    let current = sort by_index ring.ring in
    let new = keep (λ i. not (ring_has_index i current)) (unique (sort ltb latest)) in
    (record { ring = current ++ map new_output new; amount = ring.amount }, new)

module _ {R : Type 0} (gamma : R → ℕ × R) (triangular : ℕ → R → ℕ × R) (ready : Bool)
    (spendable : ℕ) where
  -- The do loop of triangular_pick for one entry.
  unfoldable pub draw : ℕ → Histogram → R → Option (ℕ × R)
  draw zero hist r = none
  draw (suc fuel) hist r =
      let (index, r') = triangular hist.total_count r in
      let again = draw fuel hist r' in
      if ltb hist.unlocked_count index then again else some (index, r')

  unfoldable pub draw_each : ℕ → ℕ → Histogram → R → Picked R
  unfolding draw
  draw_each fuel zero hist r = picked [] r
  draw_each fuel (suc n) hist r = elim (draw fuel hist r) [
    | none ↦ refused unfinished
    | some (index, r') ↦ elim (draw_each fuel n hist r') [
      | refused e ↦ refused e
      | picked is r2 ↦ picked (index ∷ is) r2
    ]
  ]

  -- For `n` entries.
  unfoldable pub triangular_pick : ℕ → ℕ → Histogram → R → Picked R
  unfolding draw_each pick_all
  triangular_pick fuel n hist r =
      if not (leb hist.unlocked_count hist.total_count)
      then refused precondition
      else if ltb hist.unlocked_count n
      then refused not_enough_mixin
      else if hist.unlocked_count == n
      then picked (pick_all n 0) r
      else draw_each fuel n hist r

  unfoldable pub gamma_each : ℕ → R → List ℕ × R
  gamma_each zero r = ([], r)
  gamma_each (suc n) r =
      let (index, r') = gamma r in let (is, r2) = gamma_each n r' in (index ∷ is, r2)

  unfoldable pub gamma_pick : ℕ → R → Picked R
  unfolding gamma_each pick_all
  gamma_pick n r =
      if not ready
      then refused not_enough_mixin
      else if ltb spendable n
      then refused not_enough_mixin
      else if spendable == n
      then picked (pick_all n 0) r
      else let (is, r') = gamma_each n r in picked is r'

  unfoldable pub pick : ℕ → ℕ → ℕ → List Histogram → R → Picked R
  unfolding triangular_pick gamma_pick match_histogram
  pick fuel amount n histograms r =
      if amount == 0 then gamma_pick n r else elim (match_histogram amount histograms) [
        | none ↦ refused precondition
        | some hist ↦ triangular_pick fuel n hist r
      ]

  pub record Selected : Type 0 where
    pub rings : List RandomRing
    pub proposed : List OutputRef
    pub random : R

  abbrev refs : ℕ → List ℕ → List OutputRef
  refs amount is = map (λ i. record { amount = amount; index = i }) is

  abbrev pub with_selection : RandomRing → List ℕ → PickError ⊎ Selected → PickError ⊎ Selected
  with_selection ring latest (inl e) = inl e
  with_selection ring latest (inr s) =
      let (ring', new) = add_new ring latest in
      inr (record {
        rings = ring' ∷ s.rings;
        proposed = refs ring.amount new ++ s.proposed;
        random = s.random;
      })

  abbrev pub with_full_ring : RandomRing → PickError ⊎ Selected → PickError ⊎ Selected
  with_full_ring ring (inl e) = inl e
  with_full_ring ring (inr s) =
      inr (record { rings = ring ∷ s.rings; proposed = s.proposed; random = s.random })

  -- What is done with a selection for a ring, with the loop over the rings after it; a ring for whose
  -- amount there is not enough is removed.
  abbrev pub after_pick :
      RandomRing → (R → PickError ⊎ Selected) → R → Picked R → PickError ⊎ Selected
  after_pick ring others r (picked latest r') = with_selection ring latest (others r')
  after_pick ring others r (refused not_enough_mixin) = others r
  after_pick ring others r (refused bad_daemon_response) = inl bad_daemon_response
  after_pick ring others r (refused precondition) = inl precondition
  after_pick ring others r (refused fetch_error) = inl fetch_error
  after_pick ring others r (refused unfinished) = inl unfinished

  -- The loop over the rings.
  unfoldable pub select_rings : ℕ → ℕ → List Histogram → List RandomRing → R → PickError ⊎ Selected
  unfolding pick add_new
  select_rings fuel mixin histograms [] r = inr (record { rings = []; proposed = []; random = r })
  select_rings fuel mixin histograms (ring ∷ rings) r =
      let others = select_rings fuel mixin histograms rings in
      if ltb (length ring.ring) mixin
      then after_pick ring others r (pick fuel ring.amount (mixin - length ring.ring) histograms r)
      else with_full_ring ring (others r)

-- The loop over the entries of one ring, with the keys that are left of the answer: the entries that
-- stay, the keys after them, and whether none was removed. `none` is an answer that is too short.
pub record CheckedEntries : Type 0 where
  pub entries : List RandomOutput
  pub left : List OutputKeys
  pub complete : Bool

abbrev pub stays : RandomOutput → Option CheckedEntries → Option CheckedEntries
stays o none = none
stays o (some c) = some (record { entries = o ∷ c.entries; left = c.left; complete = c.complete })

abbrev pub leaves : Option CheckedEntries → Option CheckedEntries
leaves none = none
leaves (some c) = some (record { entries = c.entries; left = c.left; complete = false })

unfoldable pub check_entries : List RandomOutput → List OutputKeys → Option CheckedEntries
check_entries [] result = some (record { entries = []; left = result; complete = true })
check_entries (o ∷ os) [] = if o.keys.unlocked then stays o (check_entries os []) else none
check_entries (o ∷ os) (k ∷ ks) =
    let old = stays o (check_entries os (k ∷ ks)) in
    let taken = stays (record { keys = k; index = o.index }) (check_entries os ks) in
    let dropped = leaves (check_entries os ks) in
    if o.keys.unlocked then old else if k.unlocked then taken else dropped

-- The loop over the rings after a fetch: the rings, and `done`.
unfoldable pub check_rings : ℕ → List RandomRing → List OutputKeys → Option (List RandomRing × Bool)
unfolding check_entries
check_rings mixin [] result = some ([], true)
check_rings mixin (ring ∷ rings) result = elim (check_entries ring.ring result) [
  | none ↦ none
  | some c ↦ elim (check_rings mixin rings c.left) [
    | none ↦ none
    | some (rings', done) ↦ some (
      record { ring = c.entries; amount = ring.amount } ∷ rings',
      leb mixin (length ring.ring) && (c.complete && done),
    )
  ]
]

module _ {R : Type 0} (gamma : R → ℕ × R) (triangular : ℕ → R → ℕ × R) (ready : Bool)
    (spendable : ℕ) (fetch : ℕ → List OutputRef → Option (List OutputKeys)) where
  abbrev pub no_rings : List RandomRing → Bool
  no_rings [] = true
  no_rings (r ∷ rs) = false

  abbrev pub after_check :
      (List RandomRing → PickError ⊎ List RandomRing)
      → Option (List RandomRing × Bool)
      → PickError ⊎ List RandomRing
  after_check retry none = inl bad_daemon_response
  after_check retry (some (rings, true)) = inr rings
  after_check retry (some (rings, false)) = retry rings

  abbrev pub after_fetch :
      ℕ
      → Selected gamma triangular ready spendable
      → (List RandomRing → PickError ⊎ List RandomRing)
      → Option (List OutputKeys)
      → PickError ⊎ List RandomRing
  after_fetch mixin s retry none = inl fetch_error
  after_fetch mixin s retry (some result) =
      if not (length s.proposed == length result)
      then inl bad_daemon_response
      else after_check retry (check_rings mixin s.rings result)

  abbrev pub after_select :
      ℕ
      → ℕ
      → (List RandomRing → R → PickError ⊎ List RandomRing)
      → PickError ⊎ Selected gamma triangular ready spendable
      → PickError ⊎ List RandomRing
  after_select mixin tries retry (inl e) = inl e
  after_select mixin tries retry (inr s) =
      if no_rings s.rings
      then inr []
      else after_fetch mixin s (λ rings. retry rings s.random) (fetch tries s.proposed)

  -- The loop of pick_random_outputs with so many tries left.
  unfoldable pub pick_tries :
      ℕ → ℕ → ℕ → List Histogram → List RandomRing → R → PickError ⊎ List RandomRing
  unfolding select_rings check_rings
  pick_tries zero fuel mixin histograms rings r = inl not_enough_mixin
  pick_tries (suc tries) fuel mixin histograms rings r =
      after_select mixin tries (pick_tries tries fuel mixin histograms)
        (select_rings gamma triangular ready spendable fuel mixin histograms rings r)

  -- pick_random_outputs; its second precondition, on the product of the two sizes, holds on lists that
  -- fit into memory.
  unfoldable pub pick_random_outputs :
      ℕ → ℕ → List ℕ → List Histogram → R → PickError ⊎ List RandomRing
  unfolding sort pick_tries
  pick_random_outputs fuel mixin amounts histograms r =
      let rings : List RandomRing = map (λ amount. record { ring = []; amount = amount }) amounts in
      let tried = pick_tries 64 fuel mixin (sort by_amount histograms) rings r in
      if mixin == 0 then inr (map (λ a. record { ring = []; amount = 0 }) amounts) else tried
