-- ===== src/Base/Dict.antt =====
-- std::map and std::unordered_map with string keys as association lists. The order of the list
-- stands for the container's order of iteration, which no theorem depends on.
use Prim.Native.Nat.{ℕ, ◌+◌, ◌≤◌}
use mathlib.Core.Path.{◌≡◌, refl, sym, subst}
use mathlib.Core.Logic.{◌≢◌, inl, inr}
use mathlib.Core.Bool.{Bool}
use mathlib.Core.List.{List, [], ◌∷◌}
use mathlib.Core.Option.{Option, none, some}
use native.Mathlib.Omega.{arith}
use text.Mathlib.TextEquality.{eq_iff}
use xfo_lws.Base.Strings.{String, ◌=?◌}
use xfo_lws.Base.Tests.{if◌then◌else◌, Bool-cases}
use xfo_lws.Base.Lists.{length}

abbrev pub Dict {ℓ} : Type ℓ → Type ℓ
Dict V = List (String × V)

module _ {ℓ} {V : Type ℓ} where
  abbrev pub size : Dict V → ℕ
  size = length

  unfoldable pub find : String → Dict V → Option V
  find k [] = none
  find k ((j, v) ∷ m) = if j =? k then some v else find k m

  -- `m[k] = v`: replaces the value of a key that is there, and adds the key otherwise.
  unfoldable pub put : String → V → Dict V → Dict V
  put k v [] = (k, v) ∷ []
  put k v ((j, w) ∷ m) = if j =? k then (j, v) ∷ m else (j, w) ∷ put k v m

  -- `m.erase(k)`
  unfoldable pub erase : String → Dict V → Dict V
  erase k [] = []
  erase k ((j, w) ∷ m) = if j =? k then m else (j, w) ∷ erase k m

  -- The loop that erases every entry whose value fails the test.
  unfoldable pub retain : (V → Bool) → Dict V → Dict V
  retain p [] = []
  retain p ((j, w) ∷ m) = if p w then (j, w) ∷ retain p m else retain p m

  -- A container's keys are distinct.
  abbrev pub IsUnique : Dict V → Type ℓ
  IsUnique [] = Unit {ℓ}
  IsUnique ((k, v) ∷ m) = (find k m ≡ none) × IsUnique m

  pub find-put :
      (k j : String) (v : V) (m : Dict V)
      → find j (put k v m) ≡ (if k =? j then some v else find j m)
  unfolding find put
  find-put k j v [] = refl
  find-put k j v ((i, w) ∷ m) = ground (arith, eq_iff k j, eq_iff i k, eq_iff i j, find-put k j v m)

  pub find-put_self : (k : String) (v : V) (m : Dict V) → find k (put k v m) ≡ some v
  find-put_self k v m = ground (arith, find-put k k v m, eq_iff k k)

  pub find-put_ne : (k j : String) (v : V) (m : Dict V) → k ≢ j → find j (put k v m) ≡ find j m
  find-put_ne k j v m h = ground (arith, find-put k j v m, eq_iff k j)

  pub put-IsUnique : (k : String) (v : V) (m : Dict V) → IsUnique m → IsUnique (put k v m)
  unfolding put
  put-IsUnique k v [] h = (unfold find in refl, tt)
  put-IsUnique k v ((i, w) ∷ m) h =
      ground (arith, eq_iff i k, eq_iff k i, find-put k i v m, put-IsUnique k v m h.1)

  pub size-put_new :
      (k : String) (v : V) (m : Dict V) → find k m ≡ none → size (put k v m) ≡ size m + 1
  unfolding find put
  size-put_new k v [] h = omega arith
  size-put_new k v ((i, w) ∷ m) h = ground (arith, size-put_new k v m)

  pub size-put_old :
      (k : String) (v : V) (m : Dict V) {w : V} → find k m ≡ some w → size (put k v m) ≡ size m
  unfolding find put
  size-put_old k v [] h = cc
  size-put_old k v ((i, u) ∷ m) {w} h = ground (arith, size-put_old k v m {w = w})

  pub find-erase_ne : (k j : String) (m : Dict V) → k ≢ j → find j (erase k m) ≡ find j m
  unfolding find erase
  find-erase_ne k j [] h = refl
  find-erase_ne k j ((i, w) ∷ m) h = ground (arith, eq_iff i k, eq_iff i j, find-erase_ne k j m h)

  pub find-erase_self : (k : String) (m : Dict V) → IsUnique m → find k (erase k m) ≡ none
  unfolding find erase
  find-erase_self k [] h = refl
  find-erase_self k ((i, w) ∷ m) h = ground (arith, eq_iff i k, find-erase_self k m h.1)

  pub erase-IsUnique : (k : String) (m : Dict V) → IsUnique m → IsUnique (erase k m)
  unfolding erase
  erase-IsUnique k [] h = tt
  erase-IsUnique k ((i, w) ∷ m) h =
      ground (arith, eq_iff i k, eq_iff k i, find-erase_ne k i m, erase-IsUnique k m h.1)

  pub size-erase :
      (k : String) (m : Dict V) {w : V} → find k m ≡ some w → size (erase k m) + 1 ≡ size m
  unfolding find erase
  size-erase k [] h = cc
  size-erase k ((i, u) ∷ m) {w} h = ground (arith, size-erase k m {w = w})

  pub size-erase-le : (k : String) (m : Dict V) → size (erase k m) ≤ size m
  unfolding erase
  size-erase-le k [] = omega arith
  size-erase-le k ((i, u) ∷ m) = ground (arith, size-erase-le k m)

  pub find-retain-none :
      (p : V → Bool) (k : String) (m : Dict V) → find k m ≡ none → find k (retain p m) ≡ none
  unfolding find retain
  find-retain-none p k [] h = refl
  find-retain-none p k ((i, w) ∷ m) h = ground (arith, find-retain-none p k m)

  -- What a lookup answers after a sweep: the old value, if it passed the test.
  abbrev pub passing : (V → Bool) → Option V → Option V
  passing p none = none
  passing p (some v) = if p v then some v else none

  pub find-retain :
      (p : V → Bool) (k : String) (m : Dict V)
      → IsUnique m
      → find k (retain p m) ≡ passing p (find k m)
  unfolding find retain
  find-retain p k [] h = refl
  find-retain p k ((i, w) ∷ m) h =
      ground (arith, eq_iff i k, find-retain p k m h.1, find-retain-none p k m)

  pub retain-IsUnique : (p : V → Bool) (m : Dict V) → IsUnique m → IsUnique (retain p m)
  unfolding retain
  retain-IsUnique p [] h = tt
  retain-IsUnique p ((i, w) ∷ m) h =
      ground (arith, find-retain-none p i m h.0, retain-IsUnique p m h.1)

  pub size-retain-le : (p : V → Bool) (m : Dict V) → size (retain p m) ≤ size m
  unfolding retain
  size-retain-le p [] = omega arith
  size-retain-le p ((i, w) ∷ m) = ground (arith, size-retain-le p m)

module _ {ℓ κ} {V : Type ℓ} (P : String → V → Type κ) where
  -- A predicate on every key with its value.
  abbrev pub AllEntries : Dict V → Type κ
  AllEntries [] = Unit {κ}
  AllEntries ((k, v) ∷ m) = P k v × AllEntries m

  pub AllEntries-find : (k : String) (m : Dict V) {v : V} → AllEntries m → find k m ≡ some v → P k v
  unfolding find
  AllEntries-find k [] h e = absurd (cc)
  AllEntries-find k ((j, w) ∷ m) {v} h e = elim (Bool-cases (j =? k)) [
    | inl same ↦
        let held : w ≡ v = ground arith in
        subst (λ i. P i v) ((eq_iff j k).0 same) (subst (P j) held h.0)
    | inr other ↦ AllEntries-find k m h.1 (rw other at e)
  ]

  pub AllEntries-put :
      (k : String) (v : V) (m : Dict V) → AllEntries m → P k v → AllEntries (put k v m)
  unfolding put
  AllEntries-put k v [] h p = (p, tt)
  AllEntries-put k v ((j, w) ∷ m) h p = elim (Bool-cases (j =? k)) [
    | inl same ↦ rw same (subst (λ i. P i v) (sym ((eq_iff j k).0 same)) p, h.1)
    | inr other ↦ rw other (h.0, AllEntries-put k v m h.1 p)
  ]

  pub AllEntries-erase : (k : String) (m : Dict V) → AllEntries m → AllEntries (erase k m)
  unfolding erase
  AllEntries-erase k [] h = tt
  AllEntries-erase k ((j, w) ∷ m) h = elim (Bool-cases (j =? k)) [
    | inl same ↦ rw same h.1
    | inr other ↦ rw other (h.0, AllEntries-erase k m h.1)
  ]

  pub AllEntries-retain : (p : V → Bool) (m : Dict V) → AllEntries m → AllEntries (retain p m)
  unfolding retain
  AllEntries-retain p [] h = tt
  AllEntries-retain p ((j, w) ∷ m) h = elim (Bool-cases (p w)) [
    | inl good ↦ rw good (h.0, AllEntries-retain p m h.1)
    | inr bad ↦ rw bad (AllEntries-retain p m h.1)
  ]
