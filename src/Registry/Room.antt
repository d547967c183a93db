-- ===== src/Registry/Room.antt =====
-- The eviction loop of src/rest_server.cpp makes room, and spares what is not evictable.
use xfo_lws.Base.{
  ℕ, zero, suc, ◌<◌, ◌≤◌, ◌≡◌, ◌≢◌, ◌∙◌, Bool, true, false, ◌&&◌, Option, none, some, [], ◌∷◌,
  if◌then◌else◌, ltb, leb, arith, inl, inr, ◌⊎◌, Bool-cases, Option-cases,
}
use xfo_lws.Base.Strings.{String, =?_iff}
use xfo_lws.Base.Dict.{
  Dict, find, erase, size, IsUnique, AllEntries, AllEntries-erase, erase-IsUnique, size-erase,
  size-erase-le, find-erase_ne,
}
use xfo_lws.Registry.{max_entries, precedes, oldest_from, evict}

module _ {V : Type 0} (evictable : V → Bool) (updated_at : V → ℕ) where
  -- The record that the inner loop finds is the one that it began with, or an evictable one of the
  -- registry.
  oldest_from-find :
      (best : Option (String × V)) (m : Dict V) (k : String) (v : V)
      → IsUnique m
      → oldest_from evictable updated_at best m ≡ some (k, v)
      → (best ≡ some (k, v)) ⊎ ((find k m ≡ some v) × (evictable v ≡ true))
  unfolding oldest_from find
  oldest_from-find best [] k v u e = inl e
  oldest_from-find best ((j, w) ∷ m) k v u e =
      elim (oldest_from-find
        (if evictable w && precedes updated_at w best then some (j, w) else best) m k v u.1 e) [
          | inl e' ↦ elim (Bool-cases (evictable w && precedes updated_at w best)) [
            | inl chosen ↦ inr (ground (arith, =?_iff j k), ground arith)
            | inr passed ↦ inl (ground arith)
          ]
          | inr (f, ev) ↦ inr (ground (arith, =?_iff j k, u.0), ev)
        ]

  oldest_from-none :
      (best : Option (String × V)) (m : Dict V)
      → oldest_from evictable updated_at best m ≡ none
      → (best ≡ none) × AllEntries (λ k v. evictable v ≡ false) m
  unfolding oldest_from
  oldest_from-none best [] e = (e, tt)
  oldest_from-none best ((j, w) ∷ m) e =
      let (b, rest) =
        oldest_from-none (if evictable w && precedes updated_at w best then some (j, w) else best) m
          e in
      (ground arith, ground arith)

  abbrev NoLater : V → Option (String × V) → Type 0
  NoLater v none = Unit
  NoLater v (some (k, w)) = updated_at v ≤ updated_at w

  oldest_from-NoLater :
      (best : Option (String × V)) (m : Dict V) (k : String) (v : V)
      → oldest_from evictable updated_at best m ≡ some (k, v)
      → NoLater v best × AllEntries (λ _ w. evictable w ≡ true → updated_at v ≤ updated_at w) m
  unfolding oldest_from
  oldest_from-NoLater none [] k v e = (tt, tt)
  oldest_from-NoLater (some (j, w)) [] k v e = (ground arith, tt)
  oldest_from-NoLater none ((i, x) ∷ m) k v e = elim (Bool-cases (evictable x)) [
    | inl yes_x ↦
        let (b, rest) = oldest_from-NoLater (some (i, x)) m k v (rw yes_x at e) in
        (tt, (λ _. b, rest))
    | inr no_x ↦
        let (b, rest) = oldest_from-NoLater none m k v (rw no_x at e) in
        (tt, (λ h. absurd (cc), rest))
  ]
  oldest_from-NoLater (some (j, w)) ((i, x) ∷ m) k v e =
      elim (Bool-cases (evictable x && ltb (updated_at x) (updated_at w))) [
        | inl yes_x ↦
            let (b, rest) = oldest_from-NoLater (some (i, x)) m k v (rw yes_x at e) in
            (ground arith, (λ _. b, rest))
        | inr no_x ↦
            let (b, rest) = oldest_from-NoLater (some (j, w)) m k v (rw no_x at e) in
            (b, (λ h. ground arith, rest))
      ]

  -- One round of the outer loop, as a rule.
  evict_step {κ} :
      (P : Dict V → Type κ) (fuel : ℕ) (m : Dict V)
      → (size m < max_entries → P m)
      → (AllEntries (λ _ v. evictable v ≡ false) m → P m)
      → ((k : String) (v : V)
          → oldest_from evictable updated_at none m ≡ some (k, v)
          → P (evict evictable updated_at fuel (erase k m)))
      → P (evict evictable updated_at (suc fuel) m)
  unfolding evict
  evict_step P fuel m room stuck next = elim (Bool-cases (leb max_entries (size m))) [
    | inl full ↦ elim (Option-cases (oldest_from evictable updated_at none m)) [
      | inl e ↦ rw (full, evict) (rw e (stuck (oldest_from-none none m e).1))
      | inr ((k, v), e) ↦ rw (full, evict) (rw e (next k v e))
    ]
    | inr free ↦ rw (free, evict) (room (ground arith))
  ]

  pub evict-IsUnique :
      (fuel : ℕ) (m : Dict V) → IsUnique m → IsUnique (evict evictable updated_at fuel m)
  unfolding evict
  evict-IsUnique zero m u = u
  evict-IsUnique (suc fuel) m u =
      evict_step IsUnique fuel m (λ _. u) (λ _. u)
        (λ k v _. evict-IsUnique fuel (erase k m) (erase-IsUnique k m u))

  pub evict-AllEntries {κ} :
      (P : String → V → Type κ) (fuel : ℕ) (m : Dict V)
      → AllEntries P m
      → AllEntries P (evict evictable updated_at fuel m)
  unfolding evict
  evict-AllEntries P zero m h = h
  evict-AllEntries P (suc fuel) m h =
      evict_step (AllEntries P) fuel m (λ _. h) (λ _. h)
        (λ k v _. evict-AllEntries P fuel (erase k m) (AllEntries-erase P k m h))

  pub size-evict-le : (fuel : ℕ) (m : Dict V) → size (evict evictable updated_at fuel m) ≤ size m
  unfolding evict
  size-evict-le zero m = omega arith
  size-evict-le (suc fuel) m =
      evict_step (λ r. size r ≤ size m) fuel m (λ _. omega arith) (λ _. omega arith)
        (λ k v _. omega (arith, size-evict-le fuel (erase k m), size-erase-le k m))

  -- With fuel for every record the loop ends with room for one more, or with nothing evictable.
  pub evict_room :
      (fuel : ℕ) (m : Dict V)
      → IsUnique m
      → size m ≤ fuel
      → (size (evict evictable updated_at fuel m) < max_entries)
        ⊎ AllEntries (λ _ v. evictable v ≡ false) (evict evictable updated_at fuel m)
  unfolding evict
  evict_room zero m u h = inl (omega arith)
  evict_room (suc fuel) m u h =
      evict_step (λ r. (size r < max_entries) ⊎ AllEntries (λ _ v. evictable v ≡ false) r) fuel m
        (λ r. inl r) (λ n. inr n)
        (λ k v e. evict_room fuel (erase k m) (erase-IsUnique k m u) (shrinks k v e))
    where
      shrinks :
          (k : String) (v : V)
          → oldest_from evictable updated_at none m ≡ some (k, v)
          → size (erase k m) ≤ fuel
      shrinks k v e = elim (oldest_from-find none m k v u e) [
        | inl n ↦ absurd (cc)
        | inr (f, _) ↦ omega (arith, size-erase k m {w = v} f)
      ]

  -- What is not evictable stays.
  pub evict_spares :
      (fuel : ℕ) (m : Dict V) (j : String) (w : V)
      → IsUnique m
      → evictable w ≡ false
      → find j m ≡ some w
      → find j (evict evictable updated_at fuel m) ≡ some w
  unfolding evict
  evict_spares zero m j w u n f = f
  evict_spares (suc fuel) m j w u n f =
      evict_step (λ r. find j r ≡ some w) fuel m (λ _. f) (λ _. f)
        (λ k v e.
          evict_spares fuel (erase k m) j w (erase-IsUnique k m u) n
            (find-erase_ne k j m (other k v e) ∙ f))
    where
      other : (k : String) (v : V) → oldest_from evictable updated_at none m ≡ some (k, v) → k ≢ j
      other k v e same = elim (oldest_from-find none m k v u e) [
        | inl no_best ↦ cc
        | inr (g, ev) ↦ cc
      ]
