-- ===== src/RandomOutputs/Sizes.antt =====
-- The rings that pick_random_outputs (src/util/random_outputs.cpp) returns.
use xfo_lws.Base.{
  ℕ, zero, suc, ◌+◌, ◌≤◌, ◌≡◌, refl, ap, ◌∙◌, Bool, not, Option, none, some, List, [], ◌∷◌, map,
  ◌⊎◌, inl, inr, ltb, leb, ◌==◌, length, keep, arith, Bool-cases, length-append, length-keep-le,
  length-map,
}
use xfo_lws.Account.{sort, insert_at_lower_bound}
use xfo_lws.RandomOutputs.{
  RandomRing, Histogram, PickError, precondition, unfinished, Picked, picked, refused, pick_all,
  match_histogram, unique, ring_has_index, by_index, new_output, draw, draw_each, triangular_pick,
  gamma_each, gamma_pick, pick, add_new,
}

length-insert_at_lower_bound :
    {A : Type 0} (before : A → A → Bool) (x : A) (xs : List A)
    → length (insert_at_lower_bound before x xs) ≡ suc (length xs)
unfolding insert_at_lower_bound
length-insert_at_lower_bound before x [] = refl
length-insert_at_lower_bound before x (y ∷ ys) = elim (Bool-cases (before y x)) [
  | inl e ↦ rw e (ap suc (length-insert_at_lower_bound before x ys))
  | inr e ↦ rw e refl
]

pub length-sort :
    {A : Type 0} (before : A → A → Bool) (xs : List A) → length (sort before xs) ≡ length xs
unfolding sort
length-sort before [] = refl
length-sort before (x ∷ xs) =
    length-insert_at_lower_bound before x (sort before xs) ∙ ap suc (length-sort before xs)

length-unique-le : (is : List ℕ) → length (unique is) ≤ length is
unfolding unique
length-unique-le [] = omega arith
length-unique-le (i ∷ []) = omega arith
length-unique-le (i ∷ (j ∷ is)) = elim (Bool-cases (i == j)) [
  | inl e ↦ rw e (omega (arith, length-unique-le (j ∷ is)))
  | inr e ↦ rw e (omega (arith, length-unique-le (j ∷ is)))
]

length-pick_all : (n index : ℕ) → length (pick_all n index) ≡ n
unfolding pick_all
length-pick_all zero index = refl
length-pick_all (suc n) index = ap suc (length-pick_all n (index + 1))

-- A selection has as many indexes as it was asked for.
abbrev pub Sized : {R : Type 0} → ℕ → Picked R → Type 0
Sized n (picked is r) = length is ≡ n
Sized n (refused e) = Unit

abbrev pub OnRight : {A : Type 0} → (A → Type 0) → PickError ⊎ A → Type 0
OnRight P (inl e) = Unit
OnRight P (inr a) = P a

pub add_new-le :
    (ring : RandomRing) (latest : List ℕ)
    → length (add_new ring latest).0.ring ≤ length ring.ring + length latest
unfolding add_new
add_new-le ring latest =
    let current = sort by_index ring.ring in
    let new = keep (λ i. not (ring_has_index i current)) (unique (sort ltb latest)) in
    omega (
      arith,
      length-append current (map new_output new),
      length-map new new_output,
      length-sort by_index ring.ring,
      length-keep-le (λ i. not (ring_has_index i current)) (unique (sort ltb latest)),
      length-unique-le (sort ltb latest),
      length-sort ltb latest,
    )

Sized-suc :
    {R : Type 0} (n index : ℕ) (p : Picked R)
    → Sized n p
    → Sized (suc n) (elim p [ refused e ↦ refused e | picked is r ↦ picked (index ∷ is) r ])
Sized-suc n index (picked is r) h = ap suc h
Sized-suc n index (refused e) h = tt

-- One more draw before those of `f`.
draw-more :
    {R : Type 0} (n : ℕ) (f : R → Picked R) (o : Option (ℕ × R))
    → ((r : R) → Sized n (f r))
    → Sized (suc n) (elim o [
      | none ↦ refused unfinished
      | some (index, r) ↦ elim (f r) [
        | refused e ↦ refused e
        | picked is r2 ↦ picked (index ∷ is) r2
      ]
    ])
draw-more n f none h = tt
draw-more n f (some (index, r)) h = Sized-suc n index (f r) (h r)

module _ {R : Type 0} (gamma : R → ℕ × R) (triangular : ℕ → R → ℕ × R) (ready : Bool)
    (spendable : ℕ) where
  length-gamma_each :
      (n : ℕ) (r : R) → length (gamma_each gamma triangular ready spendable n r).0 ≡ n
  unfolding gamma_each
  length-gamma_each zero r = refl
  length-gamma_each (suc n) r = ap suc (length-gamma_each n (gamma r).1)

  gamma_pick-Sized : (n : ℕ) (r : R) → Sized n (gamma_pick gamma triangular ready spendable n r)
  unfolding gamma_pick
  gamma_pick-Sized n r = elim (Bool-cases ready) [
    | inr e ↦ rw e tt
    | inl e ↦ elim (Bool-cases (ltb spendable n)) [
      | inl f ↦ rw (e, f) tt
      | inr f ↦ elim (Bool-cases (spendable == n)) [
        | inl g ↦ rw (e, f, g) (length-pick_all n 0)
        | inr g ↦ rw (e, f, g) (length-gamma_each n r)
      ]
    ]
  ]

  draw_each-Sized :
      (fuel n : ℕ) (hist : Histogram) (r : R)
      → Sized n (draw_each gamma triangular ready spendable fuel n hist r)
  unfolding draw_each
  draw_each-Sized fuel zero hist r = refl
  draw_each-Sized fuel (suc n) hist r =
      draw-more n (draw_each gamma triangular ready spendable fuel n hist)
        (draw gamma triangular ready spendable fuel hist r) (λ r'. draw_each-Sized fuel n hist r')

  triangular_pick-Sized :
      (fuel n : ℕ) (hist : Histogram) (r : R)
      → Sized n (triangular_pick gamma triangular ready spendable fuel n hist r)
  unfolding triangular_pick
  triangular_pick-Sized fuel n hist r =
      elim (Bool-cases (leb hist.unlocked_count hist.total_count)) [
        | inr e ↦ rw e tt
        | inl e ↦ elim (Bool-cases (ltb hist.unlocked_count n)) [
          | inl f ↦ rw (e, f) tt
          | inr f ↦ elim (Bool-cases (hist.unlocked_count == n)) [
            | inl g ↦ rw (e, f, g) (length-pick_all n 0)
            | inr g ↦ rw (e, f, g) (draw_each-Sized fuel n hist r)
          ]
        ]
      ]

  histogram-Sized :
      (fuel n : ℕ) (o : Option Histogram) (r : R)
      → Sized n (elim o [
        | none ↦ refused precondition
        | some hist ↦ triangular_pick gamma triangular ready spendable fuel n hist r
      ])
  histogram-Sized fuel n none r = tt
  histogram-Sized fuel n (some hist) r = triangular_pick-Sized fuel n hist r

  pub pick-Sized :
      (fuel amount n : ℕ) (histograms : List Histogram) (r : R)
      → Sized n (pick gamma triangular ready spendable fuel amount n histograms r)
  unfolding pick
  pick-Sized fuel amount n histograms r = elim (Bool-cases (amount == 0)) [
    | inl e ↦ rw e (gamma_pick-Sized n r)
    | inr e ↦ rw e (histogram-Sized fuel n (match_histogram amount histograms) r)
  ]
