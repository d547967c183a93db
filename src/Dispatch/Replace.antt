-- ===== src/Dispatch/Replace.antt =====
-- Which users do_replace_users (src/rpc/scanner/server.cpp) gives to a thread, and which to none.
use xfo_lws.Base.{
  ℕ, zero, suc, ◌+◌, ◌-◌, ◌*◌, ◌/◌, ◌%◌, ◌<◌, ◌≤◌, ◌≡◌, refl, sym, ap, ◌∙◌, subst, Bool, true,
  false, ◌&&◌, not, List, [], ◌∷◌, ◌++◌, if◌then◌else◌, ltb, ◌==◌, arith, length, max, min,
}
use native.Mathlib.Nat.{div-one, mod-eq-sub-div-mul, le-div_iff_mul-le}
use mathlib.Core.List.{append_assoc}
use xfo_lws.Base.Slices.{take, drop, take-append-drop, length-drop}
use xfo_lws.Dispatch.Server.{share_locals, share_remotes, sum, remote_threshold, do_replace_users}

same_threads : (c : Bool) (n : ℕ) → (if c then n else n + 0) ≡ n
same_threads true n = refl
same_threads false n = omega arith

-- With as many users as threads, a remote client has users for each of its threads.
whole_share :
    (threads n : ℕ)
    → 0 < threads
    → threads ≤ n
    → max 1 (n / max 1 (0 + (threads + 0) - 0)) ≡ n / threads
whole_share threads n p h =
    let e : max 1 (0 + (threads + 0) - 0) ≡ threads = omega arith in
    let q : 1 ≤ n / threads = (le-div_iff_mul-le {k = threads} {x = 1} {y = n} p).1 (omega arith) in
    ap (λ t. max 1 (n / t)) e ∙ omega (arith, q)

module _ {A : Type 0} where
  abbrev pub flatten : List (List A) → List A
  flatten [] = []
  flatten (s ∷ ss) = s ++ flatten ss

  drop-all : (n : ℕ) (xs : List A) → length xs ≤ n → drop n xs ≡ []
  unfolding drop
  drop-all zero [] h = refl
  drop-all zero (x ∷ xs) h = absurd (omega arith)
  drop-all (suc n) [] h = refl
  drop-all (suc n) (x ∷ xs) h = drop-all n xs (omega arith)

  joined :
      (n : ℕ) (users given left : List A)
      → given ++ left ≡ drop n users
      → (take n users ++ given) ++ left ≡ users
  joined n users given left e =
      append_assoc (take n users) given left
      ∙ ap (λ l. take n users ++ l) e
      ∙ take-append-drop n users

  share_locals-all :
      (locals remaining : ℕ) (users : List A)
      → flatten (share_locals locals remaining users).0 ++ (share_locals locals remaining users).1
        ≡ users
  unfolding share_locals
  share_locals-all zero remaining users = refl
  share_locals-all (suc locals) remaining users =
      joined (length users / remaining) users _ _
        (share_locals-all locals (remaining - 1) (drop (length users / remaining) users))

  share_remotes-all :
      (remotes : List ℕ) (remaining : ℕ) (users : List A)
      → flatten (share_remotes remotes remaining users).0
          ++ (share_remotes remotes remaining users).1
        ≡ users
  unfolding share_remotes
  share_remotes-all [] remaining users = refl
  share_remotes-all (t ∷ remotes) remaining users =
      joined (max 1 (length users / max 1 remaining) * t) users _ _ (
        share_remotes-all remotes (remaining - min remaining t)
          (drop (max 1 (length users / max 1 remaining) * t) users))

  -- The shares of the local threads and of the remote clients, and the users that get no thread, are
  -- together the users, each once and in order.
  pub do_replace_users-all :
      (locals : ℕ) (remotes : List ℕ) (users : List A)
      → let (to_locals, to_remotes, dropped) = do_replace_users locals remotes users in
        flatten to_locals ++ (flatten to_remotes ++ dropped) ≡ users
  unfolding do_replace_users
  do_replace_users-all locals remotes users =
      let remaining =
        if not (locals == 0) && ltb (length users / locals) remote_threshold
        then locals
        else locals + sum remotes in
      ap (λ l. flatten (share_locals locals remaining users).0 ++ l)
        (share_remotes-all remotes (remaining - locals) (share_locals locals remaining users).1)
      ∙ share_locals-all locals remaining users

  -- The last of the local threads takes all users that are left.
  share_locals-none :
      (locals remaining : ℕ) (users : List A)
      → remaining ≡ suc locals
      → (share_locals (suc locals) remaining users).1 ≡ []
  unfolding share_locals
  share_locals-none zero remaining users e =
      drop-all (length users / remaining) users (
        subst (λ r. length users ≤ length users / r) (sym e)
          (omega (arith, div-one (length users))))
  share_locals-none (suc locals) remaining users e =
      share_locals-none locals (remaining - 1) (drop (length users / remaining) users) (omega arith)

  -- With local threads only, no user is left without one.
  pub do_replace_users-locals :
      (locals : ℕ) (users : List A) → (do_replace_users (suc locals) [] users).2 ≡ []
  unfolding do_replace_users share_remotes
  do_replace_users-locals locals users = share_locals-none locals _ users (
      same_threads (not (suc locals == 0) && ltb (length users / suc locals) remote_threshold)
        (suc locals))

  -- A single remote client with several threads gets a number of users that its threads divide, and
  -- the users left over get no thread at all.
  pub do_replace_users-dropped :
      (threads : ℕ) (users : List A)
      → 0 < threads
      → threads ≤ length users
      → length (do_replace_users 0 (threads ∷ []) users).2 ≡ length users % threads
  unfolding do_replace_users share_locals share_remotes
  do_replace_users-dropped threads users p h =
      length-drop (max 1 (length users / max 1 (0 + (threads + 0) - 0)) * threads) users
      ∙ ap (λ q. length users - q * threads) (whole_share threads (length users) p h)
      ∙ sym (mod-eq-sub-div-mul (length users) threads)
