-- ===== src/Chain/Pow.antt =====
-- append_pow and storage::sync_pow of src/db/storage.cpp.
use xfo_lws.Base.{
  ℕ, zero, suc, ◌+◌, ◌-◌, Bool, true, false, ◌&&◌, not, Option, none, some, List, [], ◌∷◌, ◌++◌,
  ltb, leb, ◌==◌, if◌then◌else◌, length,
}
use xfo_lws.Chain.Tables.{Block, BlockPow, Tables, seek}
use xfo_lws.Chain.Sync.{
  block_id, Stopped, pass, Synced, synced, failed, bad_blockchain, lmdb_error, finish_sync,
}

-- pow_sync
pub record PowSync : Type 0 where
  pub timestamp : ℕ
  pub cumulative_diff : ℕ

-- bulk_insert into pows, where a row that is there (MDB_KEYEXIST) stays.
unfoldable pub keep_pow : BlockPow → List BlockPow → List BlockPow
keep_pow p [] = p ∷ []
keep_pow p (r ∷ rs) =
    if r.id == p.id then r ∷ rs else if ltb p.id r.id then p ∷ (r ∷ rs) else r ∷ keep_pow p rs

unfoldable pub keep_pows : List BlockPow → List BlockPow → List BlockPow
unfolding keep_pow
keep_pows [] rows = rows
keep_pows (p ∷ ps) rows = keep_pows ps (keep_pow p rows)

abbrev pub pow_capacity : ℕ
pow_capacity = 31

-- The loop of append_pow: `pows` is written out whenever it is full.
unfoldable pub append_pow : ℕ → List PowSync → List BlockPow → List BlockPow → List BlockPow
unfolding keep_pows
append_pow height [] pows rows = keep_pows pows rows
append_pow height (c ∷ chain) pows rows =
    let pow : BlockPow = record {
      id = height;
      timestamp = c.timestamp;
      cumulative_diff = c.cumulative_diff;
    } in
    let more = append_pow (height + 1) chain (pows ++ pow ∷ []) rows in
    let emptied = append_pow (height + 1) chain (pow ∷ []) (keep_pows pows rows) in
    if length pows == pow_capacity then emptied else more

unfoldable pub later_pows : ℕ → List PowSync → List PowSync
later_pows zero pows = pows
later_pows (suc n) [] = []
later_pows (suc n) (p ∷ pows) = later_pows n pows

-- The checkpoints (get_points()) are a function from heights, with the last height (get_max_height()).
module _ (checkpoint : ℕ → Option ℕ) (max_checkpoint : ℕ) where
  unfoldable pub misses : ℕ → ℕ → Bool
  misses current hash = elim (checkpoint current) [ none ↦ false | some p ↦ not (p == hash) ]

  -- The loop over the blocks after the cursor; `none` is bad_blockchain.
  unfoldable pub compare_pow : ℕ → List Block → List ℕ → Option Stopped
  unfolding misses
  compare_pow current blocks [] =
      some (record { current = current; chain = []; fork = false; passed = blocks })
  compare_pow current [] (h ∷ chain) =
      if misses current h
      then none
      else some (record { current = current; chain = h ∷ chain; fork = false; passed = [] })
  compare_pow current (b ∷ blocks) (h ∷ chain) =
      let rest = pass b (compare_pow (current + 1) blocks chain) in
      if misses current h
      then none
      else if not (b.id == current)
      then some (record { current = current; chain = h ∷ chain; fork = false; passed = b ∷ blocks })
      else if b.hash == h
      then rest
      else if leb current max_checkpoint
      then none
      else some (record { current = current; chain = h ∷ chain; fork = true; passed = [] })

  -- The scan of the hashes that are left.
  unfoldable pub scan_checkpoints : ℕ → List ℕ → Bool
  unfolding misses
  scan_checkpoints current [] = true
  scan_checkpoints current (h ∷ chain) =
      not (misses current h) && scan_checkpoints (current + 1) chain

  unfoldable pub finish_pow : List Block → Stopped → List PowSync → Tables → Synced
  unfolding finish_sync append_pow
  finish_pow before s pows t = elim (finish_sync before s t) [
    | failed e ↦ failed e
    | synced t' ↦ synced (record {
      blocks = t'.blocks;
      pows = append_pow s.current pows [] t'.pows;
      accounts = t'.accounts;
      accounts_by_height = t'.accounts_by_height;
      outputs = t'.outputs;
      spends = t'.spends;
      images = t'.images;
      events = t'.events;
    })
  ]

  -- sync_pow; `pows` has an element for each hash, the first included.
  unfoldable pub sync_pow : ℕ → ℕ → List ℕ → List PowSync → Tables → Synced
  unfolding seek compare_pow scan_checkpoints finish_pow later_pows
  sync_pow height first chain pows t = elim (seek block_id height t.blocks) [
    | none ↦ failed lmdb_error
    | some (before, []) ↦ failed lmdb_error
    | some (before, b ∷ after) ↦
        if not (b.hash == first)
        then failed bad_blockchain
        else elim (compare_pow (height + 1) after chain) [
          | none ↦ failed bad_blockchain
          | some s ↦
              if not (scan_checkpoints s.current s.chain)
              then failed bad_blockchain
              else finish_pow (before ++ b ∷ []) s
                  (later_pows (suc (length chain) - length s.chain) pows) t
        ]
  ]
