-- ===== src/Dispatch/Spread.antt =====
-- How evenly do_replace_users (src/rpc/scanner/server.cpp) spreads users over threads.
use xfo_lws.Base.{
  ℕ, zero, suc, ◌+◌, ◌-◌, ◌*◌, ◌/◌, ◌<◌, ◌≤◌, ◌≡◌, refl, sym, ap, ◌∙◌, subst, Bool, true, false,
  ◌&&◌, not, List, [], ◌∷◌, ◌++◌, if◌then◌else◌, ltb, ◌==◌, arith, length, max, min, All,
}
use native.Mathlib.Nat.{mul-add, le-div_iff_mul-le, div-mul-le_self, div-le_self, lt-mul-div-succ}
use native.Mathlib.Nat.{mul-le-mul_right}
use xfo_lws.Base.Slices.{take, drop, length-take, length-drop}
use xfo_lws.Dispatch.Server.{share_locals, share_remotes, sum, remote_threshold, do_replace_users}
use xfo_lws.Dispatch.Shares.{Level, share_level, rest_level}
use xfo_lws.Dispatch.Replace.{flatten, do_replace_users-all}

-- One local thread's share of `t` users, with `r` more threads after it.
local_share :
    (q r t remaining : ℕ)
    → remaining ≡ r + 1
    → q * remaining ≤ t
    → t ≤ (q + 1) * remaining
    → (q ≤ t / remaining)
      × (t / remaining ≤ q + 1)
      × (q * r ≤ t - t / remaining)
      × (t - t / remaining ≤ (q + 1) * r)
      × (t / remaining ≤ t)
local_share q r t remaining e =
    subst
      (λ k.
        q * k ≤ t
        → t ≤ (q + 1) * k
        → (q ≤ t / k)
          × (t / k ≤ q + 1)
          × (q * r ≤ t - t / k)
          × (t - t / k ≤ (q + 1) * r)
          × (t / k ≤ t))
      (sym e)
      (λ l h.
        let level = share_level q r t l h in
        let rest = rest_level q r t l h in
        (level.0, level.1, rest.0, rest.1, div-le_self t (r + 1)))

-- One remote client with a thread at least, with threads for `r` users more after it.
remote_share :
    (q t r remaining n : ℕ)
    → 1 ≤ q
    → 0 < t
    → remaining ≡ t + r
    → q * remaining ≤ n
    → (q ≤ max 1 (n / max 1 remaining))
      × (max 1 (n / max 1 remaining) * t ≤ n)
      × (q * r ≤ n - max 1 (n / max 1 remaining) * t)
remote_share q t r remaining n some_user p e l =
    let threads : max 1 remaining ≡ remaining = omega (arith, e, p) in
    let floor : q ≤ n / remaining =
      (le-div_iff_mul-le {k = remaining} {x = q} {y = n} (omega (arith, e, p))).1 l in
    let same : max 1 (n / max 1 remaining) ≡ n / remaining =
      ap (λ k. max 1 (n / k)) threads ∙ omega (arith, floor, some_user) in
    let whole : n / remaining * (t + r) ≤ n =
      subst (λ k. n / remaining * k ≤ n) e (div-mul-le_self n remaining) in
    let more : q * r ≤ n / remaining * r = mul-le-mul_right r floor in
    subst (λ k. (q ≤ k) × (k * t ≤ n) × (q * r ≤ n - k * t)) (sym same)
      (
        floor,
        omega (arith, whole, mul-add (n / remaining) t r),
        omega (arith, whole, more, mul-add (n / remaining) t r),
      )

few_threads :
    (locals others n : ℕ)
    → 0 < locals + others
    → 0
      < (if not (locals == 0) && ltb (n / locals) remote_threshold then locals else locals + others)
few_threads locals others n h = ground (arith, h)

module _ {A : Type 0} where
  share_locals-Level :
      (q locals extra remaining : ℕ) (users : List A)
      → remaining ≡ locals + extra
      → q * remaining ≤ length users
      → length users ≤ (q + 1) * remaining
      → Level q (share_locals locals remaining users).0
        × (length (share_locals locals remaining users).0 ≡ locals)
        × (q * extra ≤ length (share_locals locals remaining users).1)
        × (length (share_locals locals remaining users).1 ≤ (q + 1) * extra)
  unfolding share_locals
  share_locals-Level q zero extra remaining users e l h =
      let same : remaining ≡ extra = omega (arith, e) in
      (
        tt,
        refl,
        subst (λ k. q * k ≤ length users) same l,
        subst (λ k. length users ≤ (q + 1) * k) same h,
      )
  share_locals-Level q (suc locals) extra remaining users e l h =
      let n = length users in
      let one = local_share q (locals + extra) n remaining (omega (arith, e)) l h in
      let given : length (take (n / remaining) users) ≡ n / remaining =
        length-take (n / remaining) users one.4 in
      let left : length (drop (n / remaining) users) ≡ n - n / remaining =
        length-drop (n / remaining) users in
      let fewer : remaining - 1 ≡ locals + extra = omega (arith, e) in
      let rest =
        share_locals-Level q locals extra (remaining - 1) (drop (n / remaining) users) fewer
          (subst (λ k. q * k ≤ length (drop (n / remaining) users)) (sym fewer)
            (omega (arith, left, one.2)))
          (subst (λ k. length (drop (n / remaining) users) ≤ (q + 1) * k) (sym fewer)
            (omega (arith, left, one.3))) in
      (
        ((omega (arith, given, one.0), omega (arith, given, one.1)), rest.0),
        omega (arith, rest.1),
        rest.2,
        rest.3,
      )

  -- Each remote client with `t` threads gets k users for each of them, where k is q at least.
  abbrev pub Floored : ℕ → List ℕ → List (List A) → Type 0
  Floored q [] [] = Unit
  Floored q (t ∷ ts) (s ∷ ss) = ((k : ℕ) × (q ≤ k) × (length s ≡ k * t)) × Floored q ts ss
  Floored q [] (s ∷ ss) = ⊥
  Floored q (t ∷ ts) [] = ⊥

  share_remotes-Floored :
      (q : ℕ) (remotes : List ℕ) (remaining : ℕ) (users : List A)
      → 1 ≤ q
      → remaining ≡ sum remotes
      → q * remaining ≤ length users
      → Floored q remotes (share_remotes remotes remaining users).0
  unfolding share_remotes
  share_remotes-Floored q [] remaining users some_user e l = tt
  share_remotes-Floored q (zero ∷ remotes) remaining users some_user e l =
      let fewer : remaining - min remaining zero ≡ sum remotes = omega (arith, e) in
      let same : remaining - min remaining zero ≡ remaining = omega arith in
      let nothing : max 1 (length users / max 1 remaining) * zero ≡ 0 = omega arith in
      (
        (q, omega arith, ap (λ c. length (take c users)) nothing ∙ omega arith),
        share_remotes-Floored q remotes (remaining - min remaining zero) _ some_user fewer (
            subst (λ k. q * k ≤ length (drop (max 1 (length users / max 1 remaining) * zero) users))
              (sym same) (subst (λ c. q * remaining ≤ length (drop c users)) (sym nothing) l)),
      )
  share_remotes-Floored q (suc t ∷ remotes) remaining users some_user e l =
      let n = length users in
      let k = max 1 (n / max 1 remaining) in
      let one = remote_share q (suc t) (sum remotes) remaining n some_user (omega arith) e l in
      let fewer : remaining - min remaining (suc t) ≡ sum remotes = omega (arith, e) in
      (
        (k, one.0, length-take (k * suc t) users one.1),
        share_remotes-Floored q remotes (remaining - min remaining (suc t)) _ some_user fewer (
            subst (λ r. q * r ≤ length (drop (k * suc t) users)) (sym fewer)
              (omega (arith, one.2, length-drop (k * suc t) users))),
      )

  length-take-empty : (n : ℕ) (xs : List A) → length xs ≡ 0 → length (take n xs) ≡ 0
  unfolding take
  length-take-empty zero xs e = refl
  length-take-empty (suc n) [] e = refl
  length-take-empty (suc n) (x ∷ xs) e = absurd (omega (arith, e))

  share_remotes-none :
      (remotes : List ℕ) (remaining : ℕ) (users : List A)
      → length users ≡ 0
      → All (λ s. length s ≡ 0) (share_remotes remotes remaining users).0
        × (length (share_remotes remotes remaining users).0 ≡ length remotes)
        × (length (share_remotes remotes remaining users).1 ≡ 0)
  unfolding share_remotes
  share_remotes-none [] remaining users e = (tt, refl, e)
  share_remotes-none (t ∷ remotes) remaining users e =
      let count = max 1 (length users / max 1 remaining) * t in
      let rest =
        share_remotes-none remotes (remaining - min remaining t) (drop count users)
          (omega (arith, length-drop count users, e)) in
      ((length-take-empty count users e, rest.0), omega (arith, rest.1), rest.2)

  -- Shares that are fair: together the users, each once and in order. With few users, by whether they are
  -- few, the local threads alone have them, and otherwise all threads.
  abbrev pub Spread : Bool → ℕ → List ℕ → List A → List (List A) × List (List A) × List A → Type 0
  Spread true locals remotes users (to_locals, to_remotes, dropped) =
      (flatten to_locals ++ (flatten to_remotes ++ dropped) ≡ users)
      × (length to_locals ≡ locals)
      × Level (length users / locals) to_locals
      × (length to_remotes ≡ length remotes)
      × All (λ s. length s ≡ 0) to_remotes
      × (length dropped ≡ 0)
  Spread false locals remotes users (to_locals, to_remotes, dropped) =
      (flatten to_locals ++ (flatten to_remotes ++ dropped) ≡ users)
      × (length to_locals ≡ locals)
      × Level (length users / (locals + sum remotes)) to_locals
      × Floored (length users / (locals + sum remotes)) remotes to_remotes

  -- do_replace_users, by whether the users are few.
  abbrev shared : Bool → ℕ → List ℕ → List A → List (List A) × List (List A) × List A
  shared few locals remotes users =
      let remaining = if few then locals else locals + sum remotes in
      let (to_locals, left) = share_locals locals remaining users in
      let (to_remotes, dropped) = share_remotes remotes (remaining - locals) left in
      (to_locals, to_remotes, dropped)

  shared-Spread :
      (few : Bool) (locals : ℕ) (remotes : List ℕ) (users : List A)
      → 0 < (if few then locals else locals + sum remotes)
      → locals + sum remotes ≤ length users
      → (flatten (shared few locals remotes users).0
            ++ (flatten (shared few locals remotes users).1 ++ (shared few locals remotes users).2)
          ≡ users)
      → Spread few locals remotes users (shared few locals remotes users)
  shared-Spread true locals remotes users some_thread enough all' =
      let n = length users in
      let own =
        share_locals-Level (n / locals) locals 0 locals users (omega arith)
          (div-mul-le_self n locals) (omega (arith, lt-mul-div-succ n {b = locals} some_thread)) in
      let rest =
        share_remotes-none remotes (locals - locals) (share_locals locals locals users).1
          (omega (arith, own.3)) in
      (all', own.1, own.0, rest.1, rest.0, rest.2)
  shared-Spread false locals remotes users some_thread enough all' =
      let n = length users in
      let threads = locals + sum remotes in
      let q = n / threads in
      let own =
        share_locals-Level q locals (sum remotes) threads users refl (div-mul-le_self n threads)
          (omega (arith, lt-mul-div-succ n {b = threads} some_thread)) in
      let some_user : 1 ≤ q =
        (le-div_iff_mul-le {k = threads} {x = 1} {y = n} some_thread).1 (omega (arith, enough)) in
      let others : threads - locals ≡ sum remotes = omega arith in
      (
        all',
        own.1,
        own.0,
        share_remotes-Floored q remotes (threads - locals) (share_locals locals threads users).1
            some_user others
            (subst (λ k. q * k ≤ length (share_locals locals threads users).1) (sym others) own.2),
      )

  -- With as many users as threads, and a thread at least, do_replace_users gives each user to one thread
  -- or to none, in order. If there are local threads with fewer than 100 users for each, these share all
  -- users evenly, and the remote clients get none. Otherwise each local thread gets its part of the users,
  -- rounded down, or one more, and each remote client that part or more for each of its threads, as many
  -- for one as for another.
  pub do_replace_users-Spread :
      (locals : ℕ) (remotes : List ℕ) (users : List A)
      → 0 < locals + sum remotes
      → locals + sum remotes ≤ length users
      → Spread
          (not (locals == 0) && ltb (length users / locals) remote_threshold)
          locals
          remotes
          users
          (do_replace_users locals remotes users)
  unfolding do_replace_users
  do_replace_users-Spread locals remotes users some_thread enough =
      shared-Spread (not (locals == 0) && ltb (length users / locals) remote_threshold) locals
        remotes users (few_threads locals (sum remotes) (length users) some_thread) enough
        (do_replace_users-all locals remotes users)
