-- ===== src/Dispatch/Balance.antt =====
-- Which thread check_users (src/rpc/scanner/server.cpp) gives a new account, and what the round robin
-- sends to a remote client.
use xfo_lws.Base.{
  ℕ, zero, suc, ◌+◌, ◌-◌, ◌%◌, min, ◌<◌, ◌≤◌, ◌≡◌, refl, sym, ap, ◌∙◌, true, false, Option, none,
  some, List, [], ◌∷◌, leb, ltb, ◌==◌, ◌||◌, ◌&&◌, arith, length, All, ◌⊎◌, inl, inr, Bool-cases,
}
use native.Mathlib.Nat.{mod_self}
use xfo_lws.Queue.{Queue}
use xfo_lws.Base.Slices.{take, drop}
use xfo_lws.Dispatch.Server.{
  Best, consider, search_threads, best_thread, to_remote, round_robin, robin_round, move_last,
  erase_at, find_remote, nth_threads,
}

-- A thread at height `h` with `n` users is no worse for an account at `a` than one at `h'` with `n'`:
-- not above the account and the higher of two that are not, or both above it and it is the lower;
-- the one with fewer users where the heights are the same.
abbrev pub NoWorse : ℕ → ℕ → ℕ → ℕ → ℕ → Type 0
NoWorse a h n h' n' =
    ((h ≤ a) × ((a < h') ⊎ ((h' < h) ⊎ ((h' ≡ h) × (n ≤ n')))))
    ⊎ ((a < h) × ((a < h') × ((h < h') ⊎ ((h' ≡ h) × (n ≤ n')))))

NoWorse-trans :
    (a h n h' n' h2 n2 : ℕ) → NoWorse a h n h' n' → NoWorse a h' n' h2 n2 → NoWorse a h n h2 n2
NoWorse-trans a h n h' n' h2 n2 p q = ground arith

abbrev best : ℕ → ℕ → ℕ → ℕ → Best
best a t h n = record { thread = t; height = h; count = some n; found = leb h a }

consider-best :
    (a i h n t bh bn : ℕ)
    → ((consider a i h n (best a t bh bn) ≡ best a t bh bn) × NoWorse a bh bn h n)
      ⊎ ((consider a i h n (best a t bh bn) ≡ best a i h n) × NoWorse a h n bh bn)
unfolding consider
consider-best a i h n t bh bn = elim (Bool-cases (leb h a)) [
  | inl e ↦ elim (Bool-cases (leb bh a)) [
    | inl e' ↦ elim (Bool-cases (ltb bh h || ((h == bh) && ltb n bn))) [
      | inl x ↦ inr (simp (e, e', x), ground arith)
      | inr x ↦ inl (simp (e, e', x), ground arith)
    ]
    | inr e' ↦ inr (simp (e, e'), ground arith)
  ]
  | inr e ↦ elim (Bool-cases (leb bh a)) [
    | inl e' ↦ inl (simp (e, e'), ground arith)
    | inr e' ↦ elim (Bool-cases ((bh == 0) || (ltb h bh || ((h == bh) && ltb n bn)))) [
      | inl x ↦ inr (simp (e, e', x), ground arith)
      | inr x ↦ inl (simp (e, e', x), ground arith)
    ]
  ]
]

module _ {A : Type 0} where
  abbrev pub nth : ℕ → List (Queue A) → Option (Queue A)
  nth n [] = none
  nth zero (q ∷ qs) = some q
  nth (suc n) (q ∷ qs) = nth n qs

  abbrev pub Preferred : ℕ → Queue A → Queue A → Type 0
  Preferred a q q' = NoWorse a q.current_min_height q.user_count q'.current_min_height q'.user_count

  abbrev best_of : ℕ → ℕ → Queue A → Best
  best_of a t q = best a t q.current_min_height q.user_count

  -- The search over `qs` from thread `i`, with thread `t` of queue `p` the best so far, ends with a
  -- queue no worse than `p` and all of `qs`, which is `p` or one of them.
  abbrev Ends : ℕ → ℕ → ℕ → Queue A → List (Queue A) → Type 0
  Ends a i t p qs =
      (t' : ℕ) × (p' : Queue A) × (search_threads a i qs (best_of a t p) ≡ best_of a t' p')
      × Preferred a p' p
      × All (Preferred a p') qs
      × (((t' ≡ t) × (p' ≡ p)) ⊎ (j : ℕ) × (t' ≡ i + j) × (nth j qs ≡ some p'))

  search-Ends : (a i t : ℕ) (p : Queue A) (qs : List (Queue A)) → Ends a i t p qs
  unfolding search_threads
  search-Ends a i t p [] = (t, p, refl, ground arith, tt, inl (refl, refl))
  search-Ends a i t p (q ∷ qs) =
      elim (consider-best a i q.current_min_height q.user_count t p.current_min_height
        p.user_count) [
          | inl (e, w) ↦
              let (t', p', r, v, vs, from) = search-Ends a (i + 1) t p qs in
              (
                t',
                p',
                ap (search_threads a (i + 1) qs) e ∙ r,
                v,
                (NoWorse-trans a _ _ _ _ _ _ v w, vs),
                elim from [ inl same ↦ inl same | inr (j, k, n) ↦ inr (suc j, omega arith, n) ],
              )
          | inr (e, w) ↦
              let (t', p', r, v, vs, from) = search-Ends a (i + 1) i q qs in
              (
                t',
                p',
                ap (search_threads a (i + 1) qs) e ∙ r,
                NoWorse-trans a _ _ _ _ _ _ v w,
                (v, vs),
                elim from [
                  | inl (k, n) ↦ inr (0, omega arith, ap some (sym n))
                  | inr (j, k, n) ↦ inr (suc j, omega arith, n)
                ],
              )
        ]

  first_thread :
      (a : ℕ) (q : Queue A)
      → consider a 0 q.current_min_height q.user_count
          (record { thread = 0; height = 0; count = none; found = false })
        ≡ best_of a 0 q
  unfolding consider
  first_thread a q = elim (Bool-cases (leb q.current_min_height a)) [
    | inl e ↦ simp (e)
    | inr e ↦ simp (e)
  ]

  -- With a local thread at least, the thread that a new account is given is one of them, and no other
  -- is better: the highest that is not above the account, or the lowest where all are above it, and of
  -- those at the same height the one with the fewest users.
  pub best_thread-Preferred :
      (account_height : ℕ) (q : Queue A) (qs : List (Queue A))
      → (p : Queue A) × (nth (best_thread account_height (q ∷ qs)).thread (q ∷ qs) ≡ some p)
        × All (Preferred account_height p) (q ∷ qs)
  unfolding best_thread search_threads
  best_thread-Preferred account_height q qs =
      let (t', p, r, v, vs, from) = search-Ends account_height 1 0 q qs in
      let e : (best_thread account_height (q ∷ qs)).thread ≡ t' =
        ap (λ b. (search_threads account_height 1 qs b).thread) (first_thread account_height q)
        ∙ ap (λ (b : Best). b.thread) r in
      (
        p,
        elim from [
          | inl (k, n) ↦ ap (λ t. nth t (q ∷ qs)) (e ∙ k) ∙ ap some (sym n)
          | inr (j, k, n) ↦
              let next : 1 + j ≡ suc j = omega arith in ap (λ t. nth t (q ∷ qs)) (e ∙ k ∙ next) ∙ n
        ],
        (v, vs),
      )

  robin_round-remote :
      (threads t next_thread : ℕ) (accounts rest : List (Option A))
      → next_thread ≡ 0
      → min (length accounts) threads ≡ t
      → erase_at (length accounts - t) (move_last t accounts).1 ≡ some rest
      → robin_round 0 (threads ∷ []) next_thread accounts
        ≡ some ((to_remote 0, (move_last t accounts).0), rest, next_thread + threads)
  unfolding robin_round find_remote nth_threads
  robin_round-remote threads t next_thread accounts rest e m r =
      let before : ltb next_thread 0 ≡ false = ground arith in
      let here : leb next_thread 0 ≡ true = ground arith in
      rw (before, here, robin_round) (rw (m, r) (rw (here, m) refl))

  -- Two new accounts and a single remote client of two threads or more: the first round sends both
  -- accounts, and the second sends an account that was moved from.
  pub round_robin-resent :
      (threads : ℕ) (a b : A)
      → 2 ≤ threads
      → round_robin 2 0 (threads ∷ []) threads 0 (some a ∷ (some b ∷ []))
        ≡ some ((to_remote 0, some a ∷ (some b ∷ [])) ∷ ((to_remote 0, none ∷ []) ∷ []))
  unfolding round_robin move_last erase_at take drop
  round_robin-resent threads a b h =
      let again : (0 + threads) % threads ≡ 0 =
        ap (λ n. n % threads) (omega arith) ∙ mod_self threads in
      let first =
        robin_round-remote threads 2 0 (some a ∷ (some b ∷ [])) (none ∷ []) refl (omega arith)
          refl in
      let second =
        robin_round-remote threads 1 ((0 + threads) % threads) (none ∷ []) [] again (omega arith)
          refl in
      rw (first, round_robin) (rw (second, round_robin) refl)
