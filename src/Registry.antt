-- ===== src/Registry.antt =====
-- What the two in-memory registries of src/rest_server.cpp share: the loop at the end of
-- prune_lws_multisig_kex_locked and of prune_lws_unstake_txsets_locked, which erases the record that
-- was updated longest ago until there is room for one more.
pub mod Room
use xfo_lws.Base.{
  ℕ, zero, suc, ◌<◌, ◌≡◌, Bool, true, false, ◌&&◌, ◌||◌, not, Option, none, some, List, [], ◌∷◌,
  if◌then◌else◌, ltb, leb,
}
use xfo_lws.Base.Strings.{String}
use xfo_lws.Base.Dict.{Dict, find, erase, size}

-- Both registries hold at most 128 records, and count a record as idle after an hour.
abbrev pub max_entries : ℕ
max_entries = 128

abbrev pub ttl_seconds : ℕ
ttl_seconds = 3600

-- `oldest == end() || it->second.updated_at < oldest->second.updated_at`
abbrev pub precedes : {V : Type 0} → (V → ℕ) → V → Option (String × V) → Bool
precedes updated_at v none = true
precedes updated_at v (some (k, w)) = ltb (updated_at v) (updated_at w)

module _ {V : Type 0} (evictable : V → Bool) (updated_at : V → ℕ) where
  -- The inner loop, with the oldest record so far. A record that is not evictable is passed over.
  unfoldable pub oldest_from : Option (String × V) → Dict V → Option (String × V)
  oldest_from best [] = best
  oldest_from best ((k, v) ∷ m) =
      oldest_from (if evictable v && precedes updated_at v best then some (k, v) else best) m

  -- The outer loop, which ends when there is room or nothing evictable. Each round erases a record,
  -- so the registry's size is fuel enough.
  unfoldable pub evict : ℕ → Dict V → Dict V
  unfolding oldest_from
  evict zero m = m
  evict (suc fuel) m = elim (leb max_entries (size m)) [
    | true ↦ elim (oldest_from none m) [ none ↦ m | some (k, v) ↦ evict fuel (erase k m) ]
    | false ↦ m
  ]
