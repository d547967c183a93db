-- ===== src/Chain/Sync.antt =====
-- storage::rollback, append_block_hashes and storage::sync_chain of src/db/storage.cpp.
use xfo_lws.Base.{
  ℕ, ◌+◌, Bool, true, false, ◌&&◌, not, Option, none, some, List, [], ◌∷◌, ◌++◌, leb, ◌==◌,
  if◌then◌else◌, length,
}
use xfo_lws.Chain.Tables.{Block, Tables, seek, put_row}
use xfo_lws.Chain.Rollback.{rollback_chain}

abbrev pub block_id : Block → ℕ
block_id b = b.id

-- lmdb_error stands for the errors of LMDB, which are an access to a row that is not there.
pub data ChainError : Type 0 where
  bad_blockchain : ChainError
  lmdb_error : ChainError

pub data Synced : Type 0 where
  synced : Tables → Synced
  failed : ChainError → Synced

abbrev or_lmdb_error : Option Tables → Synced
or_lmdb_error none = failed lmdb_error
or_lmdb_error (some t) = synced t

unfoldable pub rollback : ℕ → Tables → Synced
unfolding seek rollback_chain
rollback height t = elim (seek block_id height t.blocks) [
  | none ↦ synced t
  | some (before, after) ↦ or_lmdb_error (rollback_chain before height t)
]

-- bulk_insert into blocks, which overwrites.
unfoldable pub put_blocks : List Block → List Block → List Block
unfolding put_row
put_blocks [] blocks = blocks
put_blocks (b ∷ bs) blocks = put_blocks bs (put_row block_id b blocks)

abbrev pub capacity : ℕ
capacity = 25

-- The loop of append_block_hashes: `hashes` is written out whenever it is full.
unfoldable pub append_block_hashes : ℕ → List ℕ → List Block → List Block → List Block
unfolding put_blocks
append_block_hashes height [] hashes blocks = put_blocks hashes blocks
append_block_hashes height (h ∷ chain) hashes blocks =
    let block : Block = record { id = height; hash = h } in
    let more = append_block_hashes (height + 1) chain (hashes ++ block ∷ []) blocks in
    let emptied = append_block_hashes (height + 1) chain (block ∷ []) (put_blocks hashes blocks) in
    if length hashes == capacity then emptied else more

-- Where the loop of sync_chain stops: the height, the hashes left, whether rollback_chain is called
-- there, and the blocks that the cursor has passed.
pub record Stopped : Type 0 where
  pub current : ℕ
  pub chain : List ℕ
  pub fork : Bool
  pub passed : List Block

abbrev pub pass : Block → Option Stopped → Option Stopped
pass b none = none
pass b (some s) =
    some (record { current = s.current; chain = s.chain; fork = s.fork; passed = b ∷ s.passed })

-- The loop, with the blocks after the cursor; `none` is bad_blockchain.
unfoldable pub compare_chain : Bool → ℕ → ℕ → List Block → List ℕ → Option Stopped
compare_chain regtest max_checkpoint current blocks [] =
    some (record { current = current; chain = []; fork = false; passed = blocks })
compare_chain regtest max_checkpoint current [] (h ∷ chain) =
    some (record { current = current; chain = h ∷ chain; fork = false; passed = [] })
compare_chain regtest max_checkpoint current (b ∷ blocks) (h ∷ chain) =
    if b.hash == h
    then pass b (compare_chain regtest max_checkpoint (current + 1) blocks chain)
    else if not regtest && leb current max_checkpoint
    then none
    else some (record { current = current; chain = h ∷ chain; fork = true; passed = [] })

abbrev pub with_blocks : List Block → Tables → Tables
with_blocks blocks t = record {
  blocks = blocks;
  pows = t.pows;
  accounts = t.accounts;
  accounts_by_height = t.accounts_by_height;
  outputs = t.outputs;
  spends = t.spends;
  images = t.images;
  events = t.events;
}

abbrev pub append_to : Stopped → Option Tables → Synced
append_to s none = failed lmdb_error
append_to s (some t) = synced (with_blocks (append_block_hashes s.current s.chain [] t.blocks) t)

-- After the loop, with the blocks before those that it was at.
unfoldable pub finish_sync : List Block → Stopped → Tables → Synced
unfolding rollback_chain append_block_hashes
finish_sync before s t =
    append_to s (if s.fork then rollback_chain (before ++ s.passed) s.current t else some t)

-- sync_chain, with the height of the last checkpoint; the hashes are not empty.
unfoldable pub sync_chain : Bool → ℕ → ℕ → ℕ → List ℕ → Tables → Synced
unfolding seek compare_chain finish_sync
sync_chain regtest max_checkpoint height first chain t = elim (seek block_id height t.blocks) [
  | none ↦ failed lmdb_error
  | some (before, []) ↦ failed lmdb_error
  | some (before, b ∷ after) ↦
      if not (b.hash == first)
      then failed bad_blockchain
      else elim (compare_chain regtest max_checkpoint (height + 1) after chain) [
        | none ↦ failed bad_blockchain
        | some s ↦ finish_sync (before ++ b ∷ []) s t
      ]
]
