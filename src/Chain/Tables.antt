-- ===== src/Chain/Tables.antt =====
-- The rows of src/db/data.h that a rollback touches, and the moves of a cursor over sorted rows.
use xfo_lws.Base.{ℕ, Option, none, some, List, [], ◌∷◌, ltb, ◌==◌, if◌then◌else◌}
use xfo_lws.Base.Table.{Table}

-- block_info
pub record Block : Type 0 where
  pub id : ℕ
  pub hash : ℕ

-- block_pow
pub record BlockPow : Type 0 where
  pub id : ℕ
  pub timestamp : ℕ
  pub cumulative_diff : ℕ

-- output: its link.height and its spend_meta.id
pub record Output : Type 0 where
  pub height : ℕ
  pub id : ℕ

-- spend: its link.height, the output it spends, the key image
pub record Spend : Type 0 where
  pub height : ℕ
  pub source : ℕ
  pub image : ℕ

-- account: with the status that it is stored under
pub record Account : Type 0 where
  pub status : ℕ
  pub id : ℕ
  pub scan_height : ℕ
  pub start_height : ℕ

pub record AccountLookup : Type 0 where
  pub id : ℕ
  pub status : ℕ

-- webhook_event: its account and link.tx.height
pub record WebhookEvent : Type 0 where
  pub account : ℕ
  pub height : ℕ

-- tables_: an account's outputs and spends, and an output's key images, are under its number.
pub record Tables : Type 0 where
  pub blocks : List Block
  pub pows : List BlockPow
  pub accounts : List Account
  pub accounts_by_height : Table AccountLookup
  pub outputs : Table (List Output)
  pub spends : Table (List Spend)
  pub images : Table (List ℕ)
  pub events : List WebhookEvent

module _ {A : Type 0} where
  -- The rows before the first one at `height` or above, and those from it on (MDB_SET_RANGE,
  -- MDB_GET_BOTH_RANGE), in rows sorted by the height that `f` reads.
  unfoldable pub rows_before : (A → ℕ) → ℕ → List A → List A
  rows_before f height [] = []
  rows_before f height (r ∷ rs) = if ltb (f r) height then r ∷ rows_before f height rs else []

  unfoldable pub rows_from : (A → ℕ) → ℕ → List A → List A
  rows_from f height [] = []
  rows_from f height (r ∷ rs) = if ltb (f r) height then rows_from f height rs else r ∷ rs

  -- The rows before the one at `height` exactly, and those from it on (MDB_GET_BOTH); `none` is MDB_NOTFOUND.
  unfoldable pub seek : (A → ℕ) → ℕ → List A → Option (List A × List A)
  seek f height [] = none
  seek f height (r ∷ rs) =
      if f r == height
      then some ([], r ∷ rs)
      else elim (seek f height rs) [ none ↦ none | some (before, after) ↦ some (r ∷ before, after) ]

  -- A row of a table that is put under its number, in order, in place of one that is there.
  unfoldable pub put_row : (A → ℕ) → A → List A → List A
  put_row f a [] = a ∷ []
  put_row f a (r ∷ rs) =
      if f r == f a then a ∷ rs else if ltb (f a) (f r) then a ∷ (r ∷ rs) else r ∷ put_row f a rs
