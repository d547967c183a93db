-- ===== src/Queue/Heights.antt =====
-- The lowest scan height that src/rpc/scanner/queue.cpp keeps for a scanner thread.
use xfo_lws.Base.{
  ℕ, ◌<◌, ◌≤◌, ◌≡◌, ◌⊎◌, inl, inr, refl, subst, true, false, ◌||◌, List, [], ◌∷◌, ◌++◌,
  if◌then◌else◌, ltb, ◌==◌, arith, Bool-cases, All, All-append,
}
use mathlib.Core.List.{append-nil, append_assoc}
use xfo_lws.Queue.{Queue, min_element, oldest_height, replace_accounts, lower_height, push_accounts}

module _ {A : Type 0} (scan_height : A → ℕ) where
  -- The account is one of the list.
  abbrev pub Reached : ℕ → List A → Type 0
  Reached h [] = ⊥
  Reached h (a ∷ as') = (scan_height a ≡ h) ⊎ Reached h as'

  -- The height is the lowest of the accounts, which is above 0, or 0 with no account.
  pub data Lowest (h : ℕ) (users : List A) : Type 0 where
    idle : h ≡ 0 → users ≡ [] → Lowest h users
    lowest : 0 < h → All (λ a. h ≤ scan_height a) users → Reached h users → Lowest h users

  Reached-append_left : (h : ℕ) (xs ys : List A) → Reached h xs → Reached h (xs ++ ys)
  Reached-append_left h [] ys r = elim r [ ]
  Reached-append_left h (x ∷ xs) ys (inl e) = inl e
  Reached-append_left h (x ∷ xs) ys (inr r) = inr (Reached-append_left h xs ys r)

  Reached-append_right : (h : ℕ) (xs ys : List A) → Reached h ys → Reached h (xs ++ ys)
  Reached-append_right h [] ys r = r
  Reached-append_right h (x ∷ xs) ys r = inr (Reached-append_right h xs ys r)

  All-lower :
      (h h' : ℕ) (users : List A)
      → h' ≤ h
      → All (λ a. h ≤ scan_height a) users
      → All (λ a. h' ≤ scan_height a) users
  All-lower h h' [] l t = tt
  All-lower h h' (a ∷ users) l t = (omega (arith, t.0, l), All-lower h h' users l t.1)

  Lowest-one :
      (h : ℕ) (users : List A) (a : A)
      → Lowest h users
      → 0 < scan_height a
      → Lowest (if (h == 0) || ltb (scan_height a) h then scan_height a else h) (users ++ a ∷ [])
  Lowest-one h users a (idle z e) pos = rw (z, e) (lowest pos (omega arith, tt) (inl refl))
  Lowest-one h users a (lowest p all' r) pos = elim (Bool-cases (ltb (scan_height a) h)) [
    | inl less ↦
        let taken : ((h == 0) || ltb (scan_height a) h) ≡ true = ground arith in
        rw taken (
          lowest pos
            (All-append (λ b. scan_height a ≤ scan_height b) users (a ∷ [])
              (All-lower h (scan_height a) users (ground arith) all') (omega arith, tt))
            (Reached-append_right (scan_height a) users (a ∷ []) (inl refl)))
    | inr more ↦
        let kept : ((h == 0) || ltb (scan_height a) h) ≡ false = ground arith in
        rw kept (
          lowest p (All-append (λ b. h ≤ scan_height b) users (a ∷ []) all' (ground arith, tt))
            (Reached-append_left h users (a ∷ []) r))
  ]

  lower_height-Lowest :
      (h : ℕ) (done users : List A)
      → Lowest h done
      → All (λ a. 0 < scan_height a) users
      → Lowest (lower_height scan_height h users) (done ++ users)
  unfolding lower_height
  lower_height-Lowest h done [] v pos = rw (append-nil done) v
  lower_height-Lowest h done (a ∷ users) v pos =
      subst (Lowest (lower_height scan_height h (a ∷ users))) (append_assoc done (a ∷ []) users) (
        lower_height-Lowest (if (h == 0) || ltb (scan_height a) h then scan_height a else h)
          (done ++ a ∷ []) users (Lowest-one h done a v pos.0) pos.1)

  min_element-lower_height :
      (h : ℕ) (users : List A)
      → 0 < h
      → All (λ a. 0 < scan_height a) users
      → min_element scan_height h users ≡ lower_height scan_height h users
  unfolding min_element lower_height
  min_element-lower_height h [] p pos = refl
  min_element-lower_height h (a ∷ users) p pos =
      let nonzero : (h == 0) ≡ false = ground arith in
      rw nonzero (elim (Bool-cases (ltb (scan_height a) h)) [
        | inl less ↦ rw less (min_element-lower_height (scan_height a) users pos.0 pos.1)
        | inr more ↦ rw more (min_element-lower_height h users p pos.1)
      ])

  -- After a replacement by accounts with heights above 0, the height is the lowest of theirs.
  pub replace_accounts-Lowest :
      (q : Queue A) (users : List A)
      → All (λ a. 0 < scan_height a) users
      → Lowest (replace_accounts scan_height users q).current_min_height users
  unfolding replace_accounts oldest_height lower_height
  replace_accounts-Lowest q [] pos = idle refl refl
  replace_accounts-Lowest q (a ∷ users) pos =
      rw (min_element-lower_height (scan_height a) users pos.0 pos.1)
        (lower_height-Lowest 0 [] (a ∷ users) (idle refl refl) pos)

  -- If the height is the lowest of the accounts the thread was given, it stays so when accounts are
  -- pushed whose heights are above 0.
  pub push_accounts-Lowest :
      (q : Queue A) (done users : List A)
      → Lowest q.current_min_height done
      → All (λ a. 0 < scan_height a) users
      → Lowest (push_accounts scan_height users q).current_min_height (done ++ users)
  unfolding push_accounts
  push_accounts-Lowest q done users v pos =
      lower_height-Lowest q.current_min_height done users v pos

  -- An account at height 0 does not count: the height after it is pushed is the next one's, which
  -- may be any.
  pub push_accounts-genesis :
      (q : Queue A) (a b : A)
      → scan_height a ≡ 0
      → (push_accounts scan_height (a ∷ b ∷ []) q).current_min_height ≡ scan_height b
  unfolding push_accounts lower_height
  push_accounts-genesis q a b e =
      let first : ((q.current_min_height == 0) || ltb (scan_height a) q.current_min_height) ≡ true =
        ground arith in
      rw first (rw e refl)
