-- ===== src/Base/Rows.antt =====
-- Tables whose rows have a key and a number that sorts the rows of a key, with no two rows alike (LMDB's
-- MDB_DUPSORT). The order of the rows is not seen.
use Prim.Native.Nat.{ℕ}
use mathlib.Core.Path.{◌≡◌, refl}
use mathlib.Core.Bool.{◌&&◌}
use mathlib.Core.Option.{Option, none, some}
use mathlib.Core.List.{List, [], ◌∷◌}
use native.Mathlib.Omega.{arith}
use xfo_lws.Base.Tests.{if◌then◌else◌, ◌==◌}

abbrev pub Rows {ℓ} : Type ℓ → Type ℓ
Rows V = List ((ℕ × ℕ) × V)

module _ {ℓ} {V : Type ℓ} where
  -- MDB_GET_BOTH
  unfoldable pub find_row : ℕ → ℕ → Rows V → Option V
  find_row k i [] = none
  find_row k i (((j, n), v) ∷ rows) = if (j == k) && (n == i) then some v else find_row k i rows

  -- A row in place of the one that is there, or a new one.
  unfoldable pub put_row : ℕ → ℕ → V → Rows V → Rows V
  put_row k i v [] = ((k, i), v) ∷ []
  put_row k i v (((j, n), w) ∷ rows) =
      if (j == k) && (n == i) then ((k, i), v) ∷ rows else ((j, n), w) ∷ put_row k i v rows

  -- The row is deleted.
  unfoldable pub erase_row : ℕ → ℕ → Rows V → Rows V
  erase_row k i [] = []
  erase_row k i (((j, n), w) ∷ rows) =
      if (j == k) && (n == i) then erase_row k i rows else ((j, n), w) ∷ erase_row k i rows

  pub find_row-put_row :
      (k i l m : ℕ) (v : V) (rows : Rows V)
      → find_row l m (put_row k i v rows)
        ≡ (if (k == l) && (i == m) then some v else find_row l m rows)
  unfolding find_row put_row
  find_row-put_row k i l m v [] = refl
  find_row-put_row k i l m v (((j, n), w) ∷ rows) = ground (arith, find_row-put_row k i l m v rows)

  pub find_row-erase_row :
      (k i l m : ℕ) (rows : Rows V)
      → find_row l m (erase_row k i rows)
        ≡ (if (k == l) && (i == m) then none else find_row l m rows)
  unfolding find_row erase_row
  find_row-erase_row k i l m [] = ground arith
  find_row-erase_row k i l m (((j, n), w) ∷ rows) = ground (arith, find_row-erase_row k i l m rows)
