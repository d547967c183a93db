-- ===== src/Chain/Checkpoints.antt =====
-- sync_pow of src/db/storage.cpp takes no hash that a checkpoint contradicts.
use xfo_lws.Base.{
  ℕ, suc, ◌+◌, ◌-◌, ◌≡◌, subst, true, false, not, Option, none, some, List, [], ◌∷◌, ◌++◌, leb,
  ◌==◌, if◌then◌else◌, length, arith, inl, inr, Bool-cases,
}
use xfo_lws.Base.Results.{Holds, Holds-then}
use xfo_lws.Chain.Tables.{Block, Tables, seek}
use xfo_lws.Chain.Sync.{block_id, Stopped, Synced, synced, failed, bad_blockchain, lmdb_error}
use xfo_lws.Chain.KeptBlocks.{OnSynced}
use xfo_lws.Chain.Pow.{
  PowSync, misses, compare_pow, scan_checkpoints, finish_pow, later_pows, sync_pow,
}

on_any : {P : Type 0} (y : Synced) → P → OnSynced (λ t. P) y
on_any (synced t) p = p
on_any (failed e) p = tt

module _ (checkpoint : ℕ → Option ℕ) (max_checkpoint : ℕ) where
  -- The hashes from a height on are those of the checkpoints among them.
  abbrev pub Checked : ℕ → List ℕ → Type 0
  Checked current [] = Unit
  Checked current (h ∷ chain) =
      ((p : ℕ) → checkpoint current ≡ some p → h ≡ p) × Checked (current + 1) chain

  hit :
      (current h : ℕ)
      → misses checkpoint max_checkpoint current h ≡ false
      → (p : ℕ) → checkpoint current ≡ some p
      → h ≡ p
  unfolding misses
  hit current h e p at = let e' : not (p == h) ≡ false = rw (at, misses) at e in ground (arith, e')

  scan_checkpoints-Checked :
      (current : ℕ) (chain : List ℕ)
      → scan_checkpoints checkpoint max_checkpoint current chain ≡ true
      → Checked current chain
  unfolding scan_checkpoints
  scan_checkpoints-Checked current [] e = tt
  scan_checkpoints-Checked current (h ∷ chain) e = (
    hit current h (ground (arith, e)),
    scan_checkpoints-Checked (current + 1) chain (ground (arith, e)),
  )

  abbrev Enough : ℕ → List ℕ → Stopped → Type 0
  Enough current chain s = Checked s.current s.chain → Checked current chain

  compare_pow-Checked :
      (current : ℕ) (blocks : List Block) (chain : List ℕ)
      → Holds (Enough current chain) (compare_pow checkpoint max_checkpoint current blocks chain)
  unfolding compare_pow
  compare_pow-Checked current blocks [] = λ c. c
  compare_pow-Checked current [] (h ∷ chain) =
      elim (Bool-cases (misses checkpoint max_checkpoint current h)) [
        | inl e ↦ rw e tt
        | inr e ↦ rw e (λ c. c)
      ]
  compare_pow-Checked current (b ∷ blocks) (h ∷ chain) =
      elim (Bool-cases (misses checkpoint max_checkpoint current h)) [
        | inl e ↦ rw e tt
        | inr e ↦ elim (Bool-cases (b.id == current)) [
          | inr f ↦ rw (e, f) (λ c. c)
          | inl f ↦ elim (Bool-cases (b.hash == h)) [
            | inl g ↦
                rw (e, f, g)
                  (Holds-then (Enough (current + 1) chain) (Enough current (h ∷ chain))
                    (compare_pow checkpoint max_checkpoint (current + 1) blocks chain) _
                    (compare_pow-Checked (current + 1) blocks chain)
                    (λ s k c. (hit current h e, k c)))
            | inr g ↦ elim (Bool-cases (leb current max_checkpoint)) [
              | inl l ↦ rw (e, f, g, l) tt
              | inr l ↦ rw (e, f, g, l) (λ c. c)
            ]
          ]
        ]
      ]

  -- What follows the loop.
  scanned :
      (o : Option Stopped) (height : ℕ) (first : ℕ) (chain : List ℕ) (before : List Block)
      (pows : List PowSync) (t : Tables)
      → Holds (Enough height chain) o
      → OnSynced
          (λ t'. Checked height chain)
          (elim o [
            | none ↦ failed bad_blockchain
            | some s ↦
                if not (scan_checkpoints checkpoint max_checkpoint s.current s.chain)
                then failed bad_blockchain
                else finish_pow checkpoint max_checkpoint before s
                    (later_pows (suc (length chain) - length s.chain) pows)
                    t
          ])
  scanned none height first chain before pows t h = tt
  scanned (some s) height first chain before pows t h =
      elim (Bool-cases (scan_checkpoints checkpoint max_checkpoint s.current s.chain)) [
        | inl e ↦ rw e (on_any _ (h (scan_checkpoints-Checked s.current s.chain e)))
        | inr e ↦ rw e tt
      ]

  checked :
      (o : Option (List Block × List Block)) (height first : ℕ) (chain : List ℕ)
      (pows : List PowSync) (t : Tables)
      → OnSynced
          (λ t'. Checked (height + 1) chain)
          (elim o [
            | none ↦ failed lmdb_error
            | some (before, []) ↦ failed lmdb_error
            | some (before, b ∷ after) ↦
                if not (b.hash == first)
                then failed bad_blockchain
                else elim (compare_pow checkpoint max_checkpoint (height + 1) after chain) [
                  | none ↦ failed bad_blockchain
                  | some s ↦
                      if not (scan_checkpoints checkpoint max_checkpoint s.current s.chain)
                      then failed bad_blockchain
                      else finish_pow checkpoint max_checkpoint
                          (before ++ b ∷ [])
                          s
                          (later_pows (suc (length chain) - length s.chain) pows)
                          t
                ]
          ])
  checked none height first chain pows t = tt
  checked (some (before, [])) height first chain pows t = tt
  checked (some (before, b ∷ after)) height first chain pows t =
      elim (Bool-cases (b.hash == first)) [
        | inl e ↦ rw e (
            scanned (compare_pow checkpoint max_checkpoint (height + 1) after chain) (height + 1)
              first chain (before ++ b ∷ []) pows t (compare_pow-Checked (height + 1) after chain))
        | inr e ↦ rw e tt
      ]

  -- When sync_pow succeeds, every hash that it was given after the first is that of the checkpoint at
  -- its height, if there is one.
  pub sync_pow-Checked :
      (height first : ℕ) (chain : List ℕ) (pows : List PowSync) (t t' : Tables)
      → sync_pow checkpoint max_checkpoint height first chain pows t ≡ synced t'
      → Checked (height + 1) chain
  unfolding sync_pow
  sync_pow-Checked height first chain pows t t' e =
      subst (OnSynced (λ t'. Checked (height + 1) chain)) e
        (checked (seek block_id height t.blocks) height first chain pows t)
