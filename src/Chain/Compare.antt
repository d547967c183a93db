-- ===== src/Chain/Compare.antt =====
-- The loop of sync_chain (src/db/storage.cpp) compared with a replacement of hashes.
use xfo_lws.Base.{
  ℕ, zero, suc, ◌+◌, ◌≤◌, ◌≡◌, refl, sym, ap, ◌∙◌, subst, Bool, true, false, ◌&&◌, not, Option,
  none, some, List, [], ◌∷◌, ◌++◌, leb, ◌==◌, if◌then◌else◌, length, arith, inl, inr, Bool-cases,
}
use xfo_lws.Base.Results.{Holds, Holds-then}
use mathlib.Core.List.{append-nil}
use xfo_lws.Chain.Sync.{Stopped, compare_chain}
use xfo_lws.Chain.Blocks.{numbered}

-- The hashes of a chain after those of the daemon have come: as many as are the same stay, and at the
-- first that is not, the daemon's replace all others.
abbrev pub reorganized : List ℕ → List ℕ → List ℕ
reorganized xs [] = xs
reorganized [] (h ∷ hs) = h ∷ hs
reorganized (x ∷ xs) (h ∷ hs) = if x == h then x ∷ reorganized xs hs else h ∷ hs

abbrev pub nth : ℕ → List ℕ → Option ℕ
nth n [] = none
nth zero (x ∷ xs) = some x
nth (suc n) (x ∷ xs) = nth n xs

-- What the loop of sync_chain leaves of the hashes `xs` from `height` on.
pub record Compared (regtest : Bool) (max_checkpoint height : ℕ) (xs chain : List ℕ) (s : Stopped)
    : Type 0 where
  pub kept : List ℕ
  pub passed : s.passed ≡ numbered height kept
  pub joined : kept ++ s.chain ≡ reorganized xs chain
  pub next : numbered s.current s.chain ≡ numbered (height + length kept) s.chain
  pub whole : s.fork ≡ false → kept ≡ xs
  pub guarded :
      (i x : ℕ)
      → regtest ≡ false
      → height + i ≤ max_checkpoint
      → nth i xs ≡ some x
      → nth i (reorganized xs chain) ≡ some x

nth-nil : (i : ℕ) → nth i [] ≡ none
nth-nil zero = refl
nth-nil (suc i) = refl

pub reorganized-same :
    (x h : ℕ) (xs chain : List ℕ)
    → (x == h) ≡ true
    → reorganized (x ∷ xs) (h ∷ chain) ≡ x ∷ reorganized xs chain
reorganized-same x h xs chain e = rw e refl

reorganized-other :
    (x h : ℕ) (xs chain : List ℕ) → (x == h) ≡ false → reorganized (x ∷ xs) (h ∷ chain) ≡ h ∷ chain
reorganized-other x h xs chain e = rw e refl

-- One block that is the same.
pub Compared-pass :
    (r : Bool) (m height x h : ℕ) (xs chain : List ℕ) (s : Stopped)
    → (x == h) ≡ true
    → Compared r m (height + 1) xs chain s
    → Compared r m height (x ∷ xs) (h ∷ chain) (record {
      current = s.current;
      chain = s.chain;
      fork = s.fork;
      passed = record { id = height; hash = x } ∷ s.passed;
    })
Compared-pass r m height x h xs chain s e c =
    let same = reorganized-same x h xs chain e in
    record {
      kept = x ∷ c.kept;
      passed = ap (λ l. record { id = height; hash = x } ∷ l) c.passed;
      joined = ap (λ l. x ∷ l) c.joined ∙ sym same;
      next = c.next ∙ ap (λ n. numbered n s.chain) (omega arith);
      whole = λ f. ap (λ l. x ∷ l) (c.whole f);
      guarded = λ i y f le at. subst (λ l. nth i l ≡ some y) (sym same) (shifted i y f le at);
    }
  where
    shifted :
        (i y : ℕ)
        → r ≡ false
        → height + i ≤ m
        → nth i (x ∷ xs) ≡ some y
        → nth i (x ∷ reorganized xs chain) ≡ some y
    shifted zero y f le at = at
    shifted (suc i) y f le at = c.guarded i y f (omega arith) at

-- The first block that is not, above the last checkpoint.
Compared-fork :
    (r : Bool) (m height x h : ℕ) (xs chain : List ℕ)
    → (x == h) ≡ false
    → (not r && leb height m) ≡ false
    → Compared r m height
        (x ∷ xs)
        (h ∷ chain)
        (record { current = height; chain = h ∷ chain; fork = true; passed = [] })
Compared-fork r m height x h xs chain e g = record {
  kept = [];
  passed = refl;
  joined = sym (reorganized-other x h xs chain e);
  next = ap (λ n. numbered n (h ∷ chain)) (omega arith);
  whole = λ f. ground (arith, f);
  guarded = λ i y f le at. ground (arith, f, le, g);
}

-- The branches of the loop.
module _ (r : Bool) (m height x h : ℕ) (xs chain : List ℕ) where
  abbrev rest : Option Stopped
  rest = compare_chain r m height (numbered height (x ∷ xs)) (h ∷ chain)

  pub compare_chain-same :
      (x == h) ≡ true
      → rest ≡ elim (compare_chain r m (height + 1) (numbered (height + 1) xs) chain) [
        | none ↦ none
        | some s ↦ some (record {
          current = s.current;
          chain = s.chain;
          fork = s.fork;
          passed = record { id = height; hash = x } ∷ s.passed;
        })
      ]
  unfolding compare_chain
  compare_chain-same e = rw e refl

  compare_chain-refused : (x == h) ≡ false → (not r && leb height m) ≡ true → rest ≡ none
  unfolding compare_chain
  compare_chain-refused e g = rw (e, g) refl

  compare_chain-fork :
      (x == h) ≡ false
      → (not r && leb height m) ≡ false
      → rest ≡ some (record { current = height; chain = h ∷ chain; fork = true; passed = [] })
  unfolding compare_chain
  compare_chain-fork e g = rw (e, g) refl

pub compare_chain-Compared :
    (regtest : Bool) (max_checkpoint height : ℕ) (xs chain : List ℕ)
    → Holds
        (Compared regtest max_checkpoint height xs chain)
        (compare_chain regtest max_checkpoint height (numbered height xs) chain)
unfolding compare_chain
compare_chain-Compared r m height xs [] = record {
  kept = xs;
  passed = refl;
  joined = append-nil xs;
  next = refl;
  whole = λ e. refl;
  guarded = λ i x e le at. at;
}
compare_chain-Compared r m height [] (h ∷ chain) = record {
  kept = [];
  passed = refl;
  joined = refl;
  next = ap (λ n. numbered n (h ∷ chain)) (omega arith);
  whole = λ e. refl;
  guarded = λ i x e le at. ground (arith, sym (nth-nil i) ∙ at);
}
compare_chain-Compared r m height (x ∷ xs) (h ∷ chain) = elim (Bool-cases (x == h)) [
  | inl e ↦
      subst (Holds (Compared r m height (x ∷ xs) (h ∷ chain)))
        (sym (compare_chain-same r m height x h xs chain e))
        (Holds-then (Compared r m (height + 1) xs chain) (Compared r m height (x ∷ xs) (h ∷ chain))
          (compare_chain r m (height + 1) (numbered (height + 1) xs) chain)
          (λ s. some (record {
            current = s.current;
            chain = s.chain;
            fork = s.fork;
            passed = record { id = height; hash = x } ∷ s.passed;
          }))
          (compare_chain-Compared r m (height + 1) xs chain)
          (λ s c. Compared-pass r m height x h xs chain s e c))
  | inr e ↦ elim (Bool-cases (not r && leb height m)) [
    | inl g ↦
        subst (Holds (Compared r m height (x ∷ xs) (h ∷ chain)))
          (sym (compare_chain-refused r m height x h xs chain e g)) tt
    | inr g ↦
        subst (Holds (Compared r m height (x ∷ xs) (h ∷ chain)))
          (sym (compare_chain-fork r m height x h xs chain e g))
          (Compared-fork r m height x h xs chain e g)
  ]
]

pub reorganized-nth :
    (i y : ℕ) (xs hs : List ℕ) → nth i hs ≡ some y → nth i (reorganized xs hs) ≡ some y
reorganized-nth i y xs [] at = ground (arith, sym (nth-nil i) ∙ at)
reorganized-nth i y [] (h ∷ hs) at = at
reorganized-nth zero y (x ∷ xs) (h ∷ hs) at = ground (arith, at)
reorganized-nth (suc i) y (x ∷ xs) (h ∷ hs) at = elim (Bool-cases (x == h)) [
  | inl e ↦ rw e (reorganized-nth i y xs hs at)
  | inr e ↦ rw e at
]
