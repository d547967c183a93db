-- ===== src/Base/Table.antt =====
-- Tables with numbers for keys, as association lists.
use Prim.Native.Nat.{ℕ}
use mathlib.Core.Path.{◌≡◌, refl}
use mathlib.Core.Option.{Option, none, some}
use mathlib.Core.List.{List, [], ◌∷◌}
use native.Mathlib.Omega.{arith}
use xfo_lws.Base.Tests.{if◌then◌else◌, ◌==◌}

abbrev pub Table {ℓ} : Type ℓ → Type ℓ
Table V = List (ℕ × V)

module _ {ℓ} {V : Type ℓ} where
  unfoldable pub lookup : ℕ → Table V → Option V
  lookup k [] = none
  lookup k ((j, v) ∷ t) = if j == k then some v else lookup k t

  -- The value at a key is replaced, or comes last.
  unfoldable pub assign : ℕ → V → Table V → Table V
  assign k v [] = (k, v) ∷ []
  assign k v ((j, w) ∷ t) = if j == k then (k, v) ∷ t else (j, w) ∷ assign k v t

  pub lookup-assign :
      (k j : ℕ) (v : V) (t : Table V)
      → lookup j (assign k v t) ≡ (if k == j then some v else lookup j t)
  unfolding lookup assign
  lookup-assign k j v [] = refl
  lookup-assign k j v ((i, w) ∷ t) = ground (arith, lookup-assign k j v t)
