-- ===== src/RandomOutputs/Rings.antt =====
-- pick_random_outputs (src/util/random_outputs.cpp) returns full rings of unlocked outputs.
use xfo_lws.Base.{
  ℕ, zero, suc, ◌+◌, ◌-◌, ◌≤◌, ◌≡◌, refl, subst, Bool, true, false, not, Option, none, some, List,
  [], ◌∷◌, map, ◌⊎◌, inl, inr, ltb, ◌==◌, length, arith,
}
use xfo_lws.Base.Results.{Holds}
use xfo_lws.Account.{sort}
use xfo_lws.RandomOutputs.{
  OutputKeys, RandomRing, Histogram, OutputRef, PickError, not_enough_mixin, bad_daemon_response,
  precondition, fetch_error, unfinished, Picked, picked, refused, by_amount, pick, Selected,
  with_selection, with_full_ring, after_pick, select_rings, check_rings, no_rings, after_check,
  after_fetch, after_select, pick_tries, pick_random_outputs,
}
use xfo_lws.RandomOutputs.Sizes.{Sized, OnRight, add_new-le, pick-Sized}
use xfo_lws.RandomOutputs.Checked.{if-either, Bounded, Full, RingsKept, check_rings-RingsKept}

module _ {R : Type 0} (gamma : R → ℕ × R) (triangular : ℕ → R → ℕ × R) (ready : Bool)
    (spendable : ℕ) where
  abbrev Fits : ℕ → PickError ⊎ Selected gamma triangular ready spendable → Type 0
  Fits mixin = OnRight (λ s. Bounded mixin s.rings)

  with_selection-Fits :
      (mixin : ℕ) (ring : RandomRing) (latest : List ℕ)
      (s : PickError ⊎ Selected gamma triangular ready spendable)
      → length ring.ring + length latest ≤ mixin
      → Fits mixin s
      → Fits mixin (with_selection gamma triangular ready spendable ring latest s)
  with_selection-Fits mixin ring latest (inl e) le h = tt
  with_selection-Fits mixin ring latest (inr s) le h = (omega (arith, add_new-le ring latest), h)

  with_full_ring-Fits :
      (mixin : ℕ) (ring : RandomRing) (s : PickError ⊎ Selected gamma triangular ready spendable)
      → length ring.ring ≤ mixin
      → Fits mixin s
      → Fits mixin (with_full_ring gamma triangular ready spendable ring s)
  with_full_ring-Fits mixin ring (inl e) le h = tt
  with_full_ring-Fits mixin ring (inr s) le h = (le, h)

  after_pick-Fits :
      (mixin : ℕ) (ring : RandomRing)
      (others : R → PickError ⊎ Selected gamma triangular ready spendable) (r : R) (p : Picked R)
      → length ring.ring ≤ mixin
      → Sized (mixin - length ring.ring) p
      → ((r : R) → Fits mixin (others r))
      → Fits mixin (after_pick gamma triangular ready spendable ring others r p)
  after_pick-Fits mixin ring others r (picked latest r') le e h =
      with_selection-Fits mixin ring latest (others r') (omega (arith, e)) (h r')
  after_pick-Fits mixin ring others r (refused not_enough_mixin) le e h = h r
  after_pick-Fits mixin ring others r (refused bad_daemon_response) le e h = tt
  after_pick-Fits mixin ring others r (refused precondition) le e h = tt
  after_pick-Fits mixin ring others r (refused fetch_error) le e h = tt
  after_pick-Fits mixin ring others r (refused unfinished) le e h = tt

  select_rings-Fits :
      (fuel mixin : ℕ) (histograms : List Histogram) (rings : List RandomRing) (r : R)
      → Bounded mixin rings
      → Fits mixin (select_rings gamma triangular ready spendable fuel mixin histograms rings r)
  unfolding select_rings
  select_rings-Fits fuel mixin histograms [] r b = tt
  select_rings-Fits fuel mixin histograms (ring ∷ rings) r b =
      let others = select_rings gamma triangular ready spendable fuel mixin histograms rings in
      let h : (r : R) → Fits mixin (others r) =
        λ r. select_rings-Fits fuel mixin histograms rings r b.1 in
      let n = mixin - length ring.ring in
      let p = pick gamma triangular ready spendable fuel ring.amount n histograms r in
      if-either (Fits mixin) (ltb (length ring.ring) mixin)
        (after_pick gamma triangular ready spendable ring others r p)
        (with_full_ring gamma triangular ready spendable ring (others r))
        (λ e.
          after_pick-Fits mixin ring others r p b.0
            (pick-Sized gamma triangular ready spendable fuel ring.amount n histograms r) h)
        (λ e. with_full_ring-Fits mixin ring (others r) b.0 (h r))

module _ {R : Type 0} (gamma : R → ℕ × R) (triangular : ℕ → R → ℕ × R) (ready : Bool)
    (spendable : ℕ) (fetch : ℕ → List OutputRef → Option (List OutputKeys)) where
  after_check-Full :
      (mixin : ℕ) (retry : List RandomRing → PickError ⊎ List RandomRing)
      (o : Option (List RandomRing × Bool))
      → ((rings : List RandomRing) → Bounded mixin rings → OnRight (Full mixin) (retry rings))
      → Holds (RingsKept mixin) o
      → OnRight (Full mixin) (after_check gamma triangular ready spendable fetch retry o)
  after_check-Full mixin retry none h k = tt
  after_check-Full mixin retry (some (rings, true)) h k = k.full refl
  after_check-Full mixin retry (some (rings, false)) h k = h rings k.bounded

  after_fetch-Full :
      (mixin : ℕ) (s : Selected gamma triangular ready spendable)
      (retry : List RandomRing → PickError ⊎ List RandomRing) (o : Option (List OutputKeys))
      → ((rings : List RandomRing) → Bounded mixin rings → OnRight (Full mixin) (retry rings))
      → Bounded mixin s.rings
      → OnRight (Full mixin) (after_fetch gamma triangular ready spendable fetch mixin s retry o)
  after_fetch-Full mixin s retry none h b = tt
  after_fetch-Full mixin s retry (some result) h b =
      if-either (OnRight (Full mixin)) (not (length s.proposed == length result))
        (inl bad_daemon_response)
        (after_check gamma triangular ready spendable fetch retry
          (check_rings mixin s.rings result))
        (λ e. tt)
        (λ e.
          after_check-Full mixin retry (check_rings mixin s.rings result) h
            (check_rings-RingsKept mixin s.rings result b))

  after_select-Full :
      (mixin tries : ℕ) (retry : List RandomRing → R → PickError ⊎ List RandomRing)
      (o : PickError ⊎ Selected gamma triangular ready spendable)
      → ((rings : List RandomRing) (r : R)
          → Bounded mixin rings
          → OnRight (Full mixin) (retry rings r))
      → OnRight (λ s. Bounded mixin s.rings) o
      → OnRight
          (Full mixin)
          (after_select gamma triangular ready spendable fetch mixin tries retry o)
  after_select-Full mixin tries retry (inl e) h b = tt
  after_select-Full mixin tries retry (inr s) h b =
      let next = λ (rings : List RandomRing). retry rings s.random in
      if-either (OnRight (Full mixin)) (no_rings gamma triangular ready spendable fetch s.rings)
        (inr [])
        (after_fetch gamma triangular ready spendable fetch mixin s next (fetch tries s.proposed))
        (λ e. tt)
        (λ e. after_fetch-Full mixin s next (fetch tries s.proposed) (λ rings. h rings s.random) b)

  pick_tries-Full :
      (tries fuel mixin : ℕ) (histograms : List Histogram) (rings : List RandomRing) (r : R)
      → Bounded mixin rings
      → OnRight
          (Full mixin)
          (pick_tries gamma triangular ready spendable fetch tries fuel mixin histograms rings r)
  unfolding pick_tries
  pick_tries-Full zero fuel mixin histograms rings r b = tt
  pick_tries-Full (suc tries) fuel mixin histograms rings r b =
      after_select-Full mixin tries
        (pick_tries gamma triangular ready spendable fetch tries fuel mixin histograms) _
        (pick_tries-Full tries fuel mixin histograms)
        (select_rings-Fits gamma triangular ready spendable fuel mixin histograms rings r b)

  Bounded-empty :
      (mixin : ℕ) (amounts : List ℕ)
      → Bounded mixin (map (λ amount. record { ring = []; amount = amount }) amounts)
  Bounded-empty mixin [] = tt
  Bounded-empty mixin (a ∷ amounts) = (omega arith, Bounded-empty mixin amounts)

  Full-empty : (amounts : List ℕ) → Full 0 (map (λ a. record { ring = []; amount = 0 }) amounts)
  Full-empty [] = tt
  Full-empty (a ∷ amounts) = ((refl, tt), Full-empty amounts)

  -- Whatever the random source and the daemon give, every ring that pick_random_outputs returns has
  -- exactly as many outputs as were asked for, and all of them are unlocked.
  pub pick_random_outputs-Full :
      (fuel mixin : ℕ) (amounts : List ℕ) (histograms : List Histogram) (r : R)
      (rings : List RandomRing)
      → pick_random_outputs gamma triangular ready spendable fetch fuel mixin amounts histograms r
        ≡ inr rings
      → Full mixin rings
  unfolding pick_random_outputs
  pick_random_outputs-Full fuel mixin amounts histograms r rings e =
      subst (OnRight (Full mixin)) e (
        if-either (OnRight (Full mixin)) (mixin == 0) _ _
          (λ z.
            subst (λ m. Full m (map (λ a. record { ring = []; amount = 0 }) amounts))
              (ground (arith, z)) (Full-empty amounts))
          (λ z.
            pick_tries-Full 64 fuel mixin (sort by_amount histograms)
              (map (λ amount. record { ring = []; amount = amount }) amounts) r
              (Bounded-empty mixin amounts)))
