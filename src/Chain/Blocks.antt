-- ===== src/Chain/Blocks.antt =====
-- The blocks after a sync of src/db/storage.cpp are those of the daemon, and those below the last
-- checkpoint do not change.
use xfo_lws.Base.{
  suc, ℕ, ◌+◌, ◌<◌, ◌≤◌, ◌≡◌, refl, sym, ap, ◌∙◌, true, false, some, List, [], ◌∷◌, ◌++◌, ltb, ◌==◌,
  length, All, arith, inl, inr, Bool-cases,
}
use mathlib.Core.List.{append-nil, append_assoc}
use xfo_lws.Chain.Tables.{Block, seek, put_row}
use xfo_lws.Chain.Sync.{block_id, put_blocks, capacity, append_block_hashes}

-- Blocks at consecutive heights.
abbrev pub numbered : ℕ → List ℕ → List Block
numbered height [] = []
numbered height (h ∷ hs) = record { id = height; hash = h } ∷ numbered (height + 1) hs

abbrev pub Below : ℕ → List Block → Type 0
Below height = All (λ b. b.id < height)

put_blocks-append :
    (bs cs blocks : List Block)
    → put_blocks (bs ++ cs) blocks ≡ put_blocks cs (put_blocks bs blocks)
unfolding put_blocks
put_blocks-append [] cs blocks = refl
put_blocks-append (b ∷ bs) cs blocks = put_blocks-append bs cs (put_row block_id b blocks)

-- append_block_hashes writes every block of the chain, in order, whatever its buffer holds.
pub append_block_hashes-put_blocks :
    (height : ℕ) (chain : List ℕ) (hashes blocks : List Block)
    → append_block_hashes height chain hashes blocks
      ≡ put_blocks (hashes ++ numbered height chain) blocks
unfolding append_block_hashes put_blocks
append_block_hashes-put_blocks height [] hashes blocks =
    ap (λ l. put_blocks l blocks) (sym (append-nil hashes))
append_block_hashes-put_blocks height (h ∷ chain) hashes blocks =
    let block : Block = record { id = height; hash = h } in
    elim (Bool-cases (length hashes == capacity)) [
      | inl e ↦ rw e (
          append_block_hashes-put_blocks (height + 1) chain (block ∷ []) (put_blocks hashes blocks)
          ∙ sym (put_blocks-append hashes (block ∷ numbered (height + 1) chain) blocks))
      | inr e ↦ rw e (
          append_block_hashes-put_blocks (height + 1) chain (hashes ++ block ∷ []) blocks
          ∙ ap (λ l. put_blocks l blocks)
              (append_assoc hashes (block ∷ []) (numbered (height + 1) chain)))
    ]

put_row_last :
    (b : Block) (blocks : List Block)
    → Below b.id blocks
    → put_row block_id b blocks ≡ blocks ++ b ∷ []
unfolding put_row
put_row_last b [] h = refl
put_row_last b (r ∷ rs) h =
    let other : (r.id == b.id) ≡ false = ground (arith, h.0) in
    let later : ltb b.id r.id ≡ false = ground (arith, h.0) in
    rw (other, later) (ap (λ l. r ∷ l) (put_row_last b rs h.1))

pub Below-last :
    (b : Block) (height : ℕ) (blocks : List Block)
    → Below height blocks
    → b.id ≤ height
    → Below (height + 1) (blocks ++ b ∷ [])
Below-last b height [] h le = (omega arith, tt)
Below-last b height (r ∷ rs) h le = (omega (arith, h.0), Below-last b height rs h.1 le)

pub put_blocks_last :
    (height : ℕ) (hs : List ℕ) (blocks : List Block)
    → Below height blocks
    → put_blocks (numbered height hs) blocks ≡ blocks ++ numbered height hs
unfolding put_blocks
put_blocks_last height [] blocks h = sym (append-nil blocks)
put_blocks_last height (x ∷ hs) blocks h =
    let block : Block = record { id = height; hash = x } in
    ap (put_blocks (numbered (height + 1) hs)) (put_row_last block blocks h)
    ∙ put_blocks_last (height + 1) hs (blocks ++ block ∷ [])
        (Below-last block height blocks h (omega arith))
    ∙ append_assoc blocks (block ∷ []) (numbered (height + 1) hs)

pub seek-numbered :
    (height x : ℕ) (xs : List ℕ) (before : List Block)
    → Below height before
    → seek block_id height (before ++ numbered height (x ∷ xs))
      ≡ some (before, numbered height (x ∷ xs))
unfolding seek
seek-numbered height x xs [] h = let here : (height == height) ≡ true = ground arith in rw here refl
seek-numbered height x xs (b ∷ before) h =
    let other : (b.id == height) ≡ false = ground (arith, h.0) in
    rw (other, seek-numbered height x xs before h.1) refl

pub numbered-append :
    (height : ℕ) (xs ys : List ℕ)
    → numbered height (xs ++ ys) ≡ numbered height xs ++ numbered (height + length xs) ys
numbered-append height [] ys = ap (λ n. numbered n ys) (omega arith)
numbered-append height (x ∷ xs) ys =
    ap (λ l. record { id = height; hash = x } ∷ l)
      (numbered-append (height + 1) xs ys
        ∙ ap (λ n. numbered (height + 1) xs ++ numbered n ys) (omega arith))

pub Below-le : (n m : ℕ) (bs : List Block) → n ≤ m → Below n bs → Below m bs
Below-le n m [] le h = tt
Below-le n m (b ∷ bs) le h = (omega (arith, h.0), Below-le n m bs le h.1)

pub numbered-Below : (height : ℕ) (xs : List ℕ) → Below (height + length xs) (numbered height xs)
numbered-Below height [] = tt
numbered-Below height (x ∷ xs) = (
  omega arith,
  Below-le (height + 1 + length xs) (height + suc (length xs)) (numbered (height + 1) xs)
      (omega arith) (numbered-Below (height + 1) xs),
)
