-- ===== src/Chain/Follows.antt =====
-- sync_chain of src/db/storage.cpp leaves the blocks of the daemon, and those below the last checkpoint
-- as they were.
use xfo_lws.Base.{
  ℕ, ◌+◌, ◌<◌, ◌≤◌, ◌≡◌, sym, ap, ◌∙◌, subst, Bool, true, false, Option, none, some, List, [], ◌∷◌,
  ◌++◌, ◌==◌, length, All-append, arith, inl, inr, Bool-cases,
}
use xfo_lws.Base.Results.{Holds, Holds-map}
use mathlib.Core.List.{append_assoc}
use xfo_lws.Chain.Tables.{Block, Tables, seek}
use xfo_lws.Chain.Rollback.{rollback_chain}
use xfo_lws.Chain.Sync.{
  block_id, put_blocks, append_block_hashes, Stopped, compare_chain, finish_sync, append_to,
  bad_blockchain, sync_chain, Synced, synced, failed,
}
use xfo_lws.Chain.Compare.{
  reorganized, nth, Compared, reorganized-same, Compared-pass, compare_chain-Compared,
  reorganized-nth,
}
use xfo_lws.Chain.KeptBlocks.{rollback_chain-blocks, OnSynced}
use xfo_lws.Chain.Blocks.{
  numbered-append, Below-le, numbered-Below, numbered, Below, append_block_hashes-put_blocks,
  put_blocks_last, seek-numbered, Below-last,
}

-- The blocks of a chain that has followed the daemon's from `height` on.
pub record Follows (regtest : Bool) (max_checkpoint height : ℕ) (before : List Block)
    (xs hashes : List ℕ) (t : Tables) : Type 0 where
  pub blocks : t.blocks ≡ before ++ numbered height (reorganized xs hashes)
  pub followed : (i h : ℕ) → nth i hashes ≡ some h → nth i (reorganized xs hashes) ≡ some h
  pub guarded :
      (i x : ℕ)
      → regtest ≡ false
      → height + i ≤ max_checkpoint
      → nth i xs ≡ some x
      → nth i (reorganized xs hashes) ≡ some x

pub appended :
    (s : Stopped) (height : ℕ) (before : List Block) (kept : List ℕ)
    → Below height before
    → numbered s.current s.chain ≡ numbered (height + length kept) s.chain
    → append_block_hashes s.current s.chain [] (before ++ numbered height kept)
      ≡ before ++ numbered height (kept ++ s.chain)
appended s height before kept h e =
    append_block_hashes-put_blocks s.current s.chain [] (before ++ numbered height kept)
    ∙ ap (λ l. put_blocks l (before ++ numbered height kept)) e
    ∙ put_blocks_last (height + length kept) s.chain (before ++ numbered height kept) (
        All-append (λ b. b.id < height + length kept) before (numbered height kept)
          (Below-le height (height + length kept) before (omega arith) h)
          (numbered-Below height kept))
    ∙ append_assoc before (numbered height kept) (numbered (height + length kept) s.chain)
    ∙ ap (λ l. before ++ l) (sym (numbered-append height kept s.chain))

append_to-blocks :
    (s : Stopped) (height : ℕ) (before : List Block) (kept : List ℕ) (o : Option Tables)
    → Below height before
    → numbered s.current s.chain ≡ numbered (height + length kept) s.chain
    → Holds (λ t. t.blocks ≡ before ++ numbered height kept) o
    → OnSynced (λ t. t.blocks ≡ before ++ numbered height (kept ++ s.chain)) (append_to s o)
append_to-blocks s height before kept none h e b = tt
append_to-blocks s height before kept (some t) h e b =
    ap (append_block_hashes s.current s.chain []) b ∙ appended s height before kept h e

finish_sync-blocks :
    (r : Bool) (m height : ℕ) (before : List Block) (xs chain : List ℕ) (s : Stopped) (t : Tables)
    → Below height before
    → t.blocks ≡ before ++ numbered height xs
    → Compared r m height xs chain s
    → OnSynced
        (λ t'. t'.blocks ≡ before ++ numbered height (reorganized xs chain))
        (finish_sync before s t)
unfolding finish_sync
finish_sync-blocks r m height before xs chain s t h e c =
    subst (λ ys. OnSynced (λ t'. t'.blocks ≡ before ++ numbered height ys) (finish_sync before s t))
      c.joined
      (append_to-blocks s height before c.kept _ h c.next (elim (Bool-cases s.fork) [
        | inl f ↦ rw f (
            Holds-map (λ t'. t'.blocks ≡ before ++ s.passed)
              (λ t'. t'.blocks ≡ before ++ numbered height c.kept)
              (rollback_chain (before ++ s.passed) s.current t)
              (rollback_chain-blocks (before ++ s.passed) s.current t)
              (λ t' b. b ∙ ap (λ l. before ++ l) c.passed))
        | inr f ↦ rw f (e ∙ ap (λ l. before ++ numbered height l) (sym (c.whole f)))
      ]))

OnSynced-map :
    (P Q : Tables → Type 0) (y : Synced) → OnSynced P y → ((t : Tables) → P t → Q t) → OnSynced Q y
OnSynced-map P Q (synced t) h f = f t h
OnSynced-map P Q (failed e) h f = tt

module _ (regtest : Bool) (max_checkpoint height first x : ℕ) (chain xs : List ℕ)
    (before : List Block) (t : Tables) (below : Below height before)
    (held : t.blocks ≡ before ++ numbered height (x ∷ xs)) where
  abbrev block : Block
  block = record { id = height; hash = x }

  abbrev Followed : Tables → Type 0
  Followed = Follows regtest max_checkpoint height before (x ∷ xs) (first ∷ chain)

  Compared-Follows :
      (s : Stopped) (t' : Tables)
      → (x == first) ≡ true
      → Compared regtest max_checkpoint (height + 1) xs chain s
      → t'.blocks ≡ (before ++ block ∷ []) ++ numbered (height + 1) (reorganized xs chain)
      → Followed t'
  Compared-Follows s t' e c b =
      let same = reorganized-same x first xs chain e in
      record {
        blocks =
            b
            ∙ append_assoc before (block ∷ []) (numbered (height + 1) (reorganized xs chain))
            ∙ ap (λ l. before ++ numbered height l) (sym same);
        followed = λ i h at. reorganized-nth i h (x ∷ xs) (first ∷ chain) at;
        guarded = (Compared-pass regtest max_checkpoint height x first xs chain s e c).guarded;
      }

  after_compare :
      (o : Option Stopped)
      → (x == first) ≡ true
      → Holds (Compared regtest max_checkpoint (height + 1) xs chain) o
      → OnSynced Followed (elim o [
        | none ↦ failed bad_blockchain
        | some s ↦ finish_sync (before ++ block ∷ []) s t
      ])
  after_compare none e c = tt
  after_compare (some s) e c =
      OnSynced-map
        (λ t'. t'.blocks ≡ (before ++ block ∷ []) ++ numbered (height + 1) (reorganized xs chain))
        Followed (finish_sync (before ++ block ∷ []) s t)
        (finish_sync-blocks regtest max_checkpoint (height + 1) (before ++ block ∷ []) xs chain s t
          (Below-last block height before below (omega arith))
          (held ∙ sym (append_assoc before (block ∷ []) (numbered (height + 1) xs))) c)
        (λ t'. Compared-Follows s t' e c)

  sync_chain-OnSynced : OnSynced Followed (sync_chain regtest max_checkpoint height first chain t)
  unfolding sync_chain
  sync_chain-OnSynced =
      let sought : seek block_id height t.blocks ≡ some (before, numbered height (x ∷ xs)) =
        ap (seek block_id height) held ∙ seek-numbered height x xs before below in
      rw (sought, sync_chain)
        (elim (Bool-cases (x == first)) [
          | inl e ↦ rw e (
              after_compare
                (compare_chain regtest max_checkpoint (height + 1) (numbered (height + 1) xs) chain)
                e (compare_chain-Compared regtest max_checkpoint (height + 1) xs chain))
          | inr e ↦ rw e tt
        ])

  -- When the blocks from a height on stand at consecutive heights, with all others below, and
  -- sync_chain succeeds at that height, then they are those of the daemon: its hashes from there on,
  -- with the blocks past them kept only where nothing differed. No block at or below the last
  -- checkpoint has changed, unless for regtest, and none below the height.
  pub sync_chain-Follows :
      (t' : Tables)
      → sync_chain regtest max_checkpoint height first chain t ≡ synced t'
      → Follows regtest max_checkpoint height before (x ∷ xs) (first ∷ chain) t'
  sync_chain-Follows t' e = subst (OnSynced Followed) e sync_chain-OnSynced
