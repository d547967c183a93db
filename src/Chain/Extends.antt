-- ===== src/Chain/Extends.antt =====
-- sync_chain of src/db/storage.cpp takes every chain that goes on from the blocks that are there.
use xfo_lws.Base.{
  ℕ, ◌+◌, ◌≡◌, refl, sym, ap, ◌∙◌, Bool, true, false, some, List, [], ◌∷◌, ◌++◌, ◌==◌, length,
  arith,
}
use mathlib.Core.List.{append_assoc}
use xfo_lws.Chain.Tables.{Block, Tables, seek}
use xfo_lws.Chain.Sync.{
  block_id, append_block_hashes, Stopped, compare_chain, finish_sync, sync_chain, synced,
  with_blocks,
}
use xfo_lws.Chain.Blocks.{numbered, Below, Below-last, seek-numbered}
use xfo_lws.Chain.Compare.{compare_chain-same}
use xfo_lws.Chain.Follows.{appended}

abbrev at_end : ℕ → List ℕ → List ℕ → Stopped
at_end height xs more = record {
  current = height + length xs;
  chain = more;
  fork = false;
  passed = numbered height xs;
}

compare_chain-at_end :
    (regtest : Bool) (max_checkpoint height : ℕ) (xs more : List ℕ)
    → compare_chain regtest max_checkpoint height (numbered height xs) (xs ++ more)
      ≡ some (at_end height xs more)
unfolding compare_chain
compare_chain-at_end r m height [] [] =
    ap (λ n. some (record { current = n; chain = []; fork = false; passed = [] })) (omega arith)
compare_chain-at_end r m height [] (y ∷ ys) =
    ap (λ n. some (record { current = n; chain = y ∷ ys; fork = false; passed = [] })) (omega arith)
compare_chain-at_end r m height (x ∷ xs) more =
    let same : (x == x) ≡ true = ground arith in
    let passed = numbered height (x ∷ xs) in
    compare_chain-same r m height x x xs (xs ++ more) same
    ∙ rw (compare_chain-at_end r m (height + 1) xs more) (
        ap (λ n. some (record { current = n; chain = more; fork = false; passed = passed }))
          (omega arith))

-- When the blocks from a height on stand at consecutive heights, with all others below, then
-- sync_chain at that height succeeds on their hashes with any others after them, for regtest or not
-- and whatever the last checkpoint is. The new blocks come last, and nothing else changes.
pub sync_chain-extends :
    (regtest : Bool) (max_checkpoint height x : ℕ) (xs more : List ℕ) (before : List Block)
    (t : Tables)
    → Below height before
    → t.blocks ≡ before ++ numbered height (x ∷ xs)
    → sync_chain regtest max_checkpoint height x (xs ++ more) t
      ≡ synced (with_blocks (before ++ numbered height (x ∷ (xs ++ more))) t)
unfolding sync_chain finish_sync
sync_chain-extends regtest max_checkpoint height x xs more before t below held =
    let block : Block = record { id = height; hash = x } in
    let same : (x == x) ≡ true = ground arith in
    let sought : seek block_id height t.blocks ≡ some (before, numbered height (x ∷ xs)) =
      ap (seek block_id height) held ∙ seek-numbered height x xs before below in
    let blocks : append_block_hashes (height + 1 + length xs) more [] t.blocks
        ≡ before ++ numbered height (x ∷ (xs ++ more)) =
      ap (append_block_hashes (height + 1 + length xs) more [])
        (held ∙ sym (append_assoc before (block ∷ []) (numbered (height + 1) xs)))
      ∙ appended (at_end (height + 1) xs more) (height + 1) (before ++ block ∷ []) xs
          (Below-last block height before below (omega arith)) refl
      ∙ append_assoc before (block ∷ []) (numbered (height + 1) (xs ++ more)) in
    rw (sought, sync_chain)
      (rw (same, compare_chain-at_end regtest max_checkpoint (height + 1) xs more)
        (ap (λ b. synced (with_blocks b t)) blocks))
