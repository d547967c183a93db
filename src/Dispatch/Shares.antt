-- ===== src/Dispatch/Shares.antt =====
-- How client::replace_accounts and client::push_accounts (src/rpc/scanner/client.cpp) spread accounts.
use xfo_lws.Base.{
  ℕ, zero, suc, ◌+◌, ◌-◌, ◌*◌, ◌/◌, ◌<◌, ◌≤◌, ◌≡◌, refl, ap, ◌∙◌, List, [], ◌∷◌, ◌++◌, arith,
  length, All, ◌==◌, Bool-cases, inl, inr,
}
use native.Mathlib.Nat.{mul-add, add-mul, div-one, le-div_iff_mul-le, div-lt_iff_lt-mul}
use xfo_lws.Base.Slices.{take, drop, take-append-drop}
use xfo_lws.Dispatch.Client.{shares}

module _ {ℓ} {A : Type ℓ} where
  -- The shares put together again, the last one first.
  abbrev pub gathered : List (List A) → List A
  gathered [] = []
  gathered (s ∷ ss) = gathered ss ++ s

  -- Every share has q or q + 1 accounts.
  abbrev pub Level : ℕ → List (List A) → Type 0
  Level q = All (λ s. (q ≤ length s) × (length s ≤ q + 1))

-- A share of `t` accounts among n + 1 threads, where each is to have q or q + 1.
pub share_level :
    (q n t : ℕ)
    → q * (n + 1) ≤ t
    → t ≤ (q + 1) * (n + 1)
    → (q ≤ t / (n + 1)) × (t / (n + 1) ≤ q + 1)
share_level q n t l h = (
  (le-div_iff_mul-le {k = n + 1} {x = q} {y = t} (omega arith)).1 l,
  omega (
    arith,
    l,
    h,
    (div-lt_iff_lt-mul {k = n + 1} {x = t} {y = q + 2} (omega arith)).1 (omega (arith, h)),
  ),
)

pub rest_level :
    (q n t : ℕ)
    → q * (n + 1) ≤ t
    → t ≤ (q + 1) * (n + 1)
    → (q * n ≤ t - t / (n + 1)) × (t - t / (n + 1) ≤ (q + 1) * n)
rest_level q n t l h =
    let level : (q ≤ t / (n + 1)) × (t / (n + 1) ≤ q + 1) = share_level q n t l h in
    let low : (t / (n + 1) ≡ q) → t < (q + 1) * (n + 1) =
      λ e. (div-lt_iff_lt-mul {k = n + 1} {x = t} {y = q + 1} (omega arith)).0 (omega (arith, e)) in
    let high : (t / (n + 1) ≡ q + 1) → (q + 1) * (n + 1) ≤ t =
      λ e. (le-div_iff_mul-le {k = n + 1} {x = q + 1} {y = t} (omega arith)).0 (omega (arith, e)) in
    elim (Bool-cases (t / (n + 1) == q)) [
      | inl e ↦
          let s : t / (n + 1) ≡ q = ground arith in
          omega (arith, low s, s, l, h, mul-add q n 1, mul-add (q + 1) n 1, add-mul q 1 n)
      | inr e ↦
          let s : t / (n + 1) ≡ q + 1 = ground (arith, level.0, level.1) in
          omega (arith, high s, s, l, h, mul-add q n 1, mul-add (q + 1) n 1, add-mul q 1 n)
    ]

module _ {A : Type 0} (scan_height : A → ℕ) where
  abbrev rest_of : ℕ → List A → ℕ
  rest_of n users = length users - length users / (n + 1)

  shares-suc :
      (n : ℕ) (users : List A)
      → shares scan_height (suc n) users
        ≡ drop (rest_of n users) users ∷ shares scan_height n (take (rest_of n users) users)
  unfolding shares
  shares-suc n users = refl

  -- client::replace_accounts gives all accounts out, each to one thread, if there is a thread: the
  -- threads' shares, the last one first, are the accounts in their order.
  pub gathered-shares :
      (n : ℕ) (users : List A) → gathered (shares scan_height (suc n) users) ≡ users
  unfolding drop take shares
  gathered-shares zero users =
      let all' : rest_of zero users ≡ 0 = omega (arith, div-one (length users)) in
      ap (λ k. drop k users) all'
  gathered-shares (suc n) users =
      ap gathered (shares-suc (suc n) users)
      ∙ ap (λ l. l ++ drop (rest_of (suc n) users) users)
          (gathered-shares n (take (rest_of (suc n) users) users))
      ∙ take-append-drop (rest_of (suc n) users) users

  -- Shares that are fair to the users: put together again they are all of them, each once and in
  -- order, and their lengths differ by one at most.
  pub record Fair (users : List A) (ss : List (List A)) : Type 0 where
    pub complete : gathered ss ≡ users
    pub even : Level (length users / length ss) ss
    pub threads : 0 < length ss
