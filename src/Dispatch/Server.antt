-- ===== src/Dispatch/Server.antt =====
-- The choice of threads in check_users and do_replace_users of src/rpc/scanner/server.cpp.
-- A remote client is given by its number of threads. Users come in the order of their vectors; both
-- functions take them from the back.
use xfo_lws.Base.{
  ℕ, zero, suc, ◌+◌, ◌-◌, ◌*◌, ◌/◌, ◌%◌, Bool, true, false, ◌&&◌, ◌||◌, not, Option, none, some,
  List, [], ◌∷◌, ◌++◌, if◌then◌else◌, ltb, leb, ◌==◌, length, map, max, min,
}
use xfo_lws.Queue.{Queue, push_accounts}
use xfo_lws.Base.Slices.{take, drop}
use xfo_lws.Dispatch.Client.{change_at}

-- The variables of the search for a thread: best_thread, best_height, best_count (`none` is the largest
-- size_t, which no count reaches), found_below_or_equal.
pub record Best : Type 0 where
  pub thread : ℕ
  pub height : ℕ
  pub count : Option ℕ
  pub found : Bool

abbrev pub fewer : ℕ → Option ℕ → Bool
fewer count none = true
fewer count (some best_count) = ltb count best_count

-- The body for thread `i`, with its height and number of users.
unfoldable pub consider : ℕ → ℕ → ℕ → ℕ → Best → Best
consider account_height i height count b =
    if leb height account_height
    then (if not b.found || (ltb b.height height || ((height == b.height) && fewer count b.count))
        then record { thread = i; height = height; count = some count; found = true }
        else b)
    else if not b.found
        && ((b.height == 0)
            || (ltb height b.height || ((height == b.height) && fewer count b.count)))
    then record { thread = i; height = height; count = some count; found = b.found }
    else b

module _ {A : Type 0} where
  unfoldable pub search_threads : ℕ → ℕ → List (Queue A) → Best → Best
  unfolding consider
  search_threads account_height i [] b = b
  search_threads account_height i (q ∷ qs) b =
      search_threads account_height (i + 1) qs
        (consider account_height i q.current_min_height q.user_count b)

  unfoldable pub best_thread : ℕ → List (Queue A) → Best
  unfolding search_threads
  best_thread account_height qs =
      search_threads account_height 0 qs
        (record { thread = 0; height = 0; count = none; found = false })

  -- The loop of the balancing branch, over the new accounts from the last to the first.
  unfoldable pub balance : (A → ℕ) → List A → List (Queue A) → Option (List (Queue A))
  unfolding best_thread change_at push_accounts
  balance scan_height [] qs = some qs
  balance scan_height (a ∷ accounts) qs =
      elim (change_at (best_thread (scan_height a) qs).thread (push_accounts scan_height (a ∷ []))
        qs) [ none ↦ none | some qs' ↦ balance scan_height accounts qs' ]

-- Where one piece of work goes: a local thread or a remote client, by number.
pub data Target : Type 0 where
  to_local : ℕ → Target
  to_remote : ℕ → Target

-- The search for the remote client at `next_thread`; past the last one, the index is their number.
unfoldable pub find_remote : ℕ → ℕ → List ℕ → ℕ
find_remote next_thread offset [] = 0
find_remote next_thread offset (threads ∷ remotes) =
    if leb next_thread offset then 0 else suc (find_remote next_thread (offset + threads) remotes)

unfoldable pub nth_threads : ℕ → List ℕ → Option ℕ
nth_threads n [] = none
nth_threads zero (threads ∷ remotes) = some threads
nth_threads (suc n) (threads ∷ remotes) = nth_threads n remotes

module _ {A : Type 0} where
  -- The last `n` accounts, moved out: what is left in their places is moved from.
  unfoldable pub move_last : ℕ → List (Option A) → List (Option A) × List (Option A)
  unfolding take drop
  move_last n accounts =
      let kept = length accounts - n in
      (drop kept accounts, take kept accounts ++ map (λ (a : Option A). none) (drop kept accounts))

  -- vector::erase of one element; `none` is an iterator that is not to an element.
  unfoldable pub erase_at : ℕ → List (Option A) → Option (List (Option A))
  erase_at n [] = none
  erase_at zero (x ∷ xs) = some xs
  erase_at (suc n) (x ∷ xs) = elim (erase_at n xs) [ none ↦ none | some ys ↦ some (x ∷ ys) ]

  -- One round of the round-robin loop at `next_thread`, for `locals` local threads: what is sent, the
  -- accounts after it, and the next thread before it is taken modulo the total.
  unfoldable pub robin_round :
      ℕ → List ℕ → ℕ → List (Option A) → Option ((Target × List (Option A)) × List (Option A) × ℕ)
  unfolding move_last erase_at find_remote nth_threads
  robin_round locals remotes next_thread accounts =
      if ltb next_thread locals
      then (let (sent, left) = move_last 1 accounts in
          elim (erase_at (length accounts - 1) left) [
            | none ↦ none
            | some rest ↦ some ((to_local next_thread, sent), rest, next_thread + 1)
          ])
      else let j = find_remote next_thread locals remotes in
        elim (nth_threads j remotes) [
          | none ↦ none
          | some threads ↦
              let user_count = min (length accounts) threads in
              let (sent, left) = move_last user_count accounts in
              elim (erase_at (length accounts - user_count) left) [
                | none ↦ none
                | some rest ↦ some ((to_remote j, sent), rest, next_thread + threads)
              ]
        ]

  -- The loop; each round erases one element, so that `fuel` rounds are enough for as many accounts.
  unfoldable pub round_robin :
      ℕ → ℕ → List ℕ → ℕ → ℕ → List (Option A) → Option (List (Target × List (Option A)))
  unfolding robin_round
  round_robin fuel locals remotes total next_thread [] = some []
  round_robin zero locals remotes total next_thread (a ∷ accounts) = none
  round_robin (suc fuel) locals remotes total next_thread (a ∷ accounts) =
      elim (robin_round locals remotes next_thread (a ∷ accounts)) [
        | none ↦ none
        | some (sent, rest, next) ↦
            elim (round_robin fuel locals remotes total (next % total) rest) [
              | none ↦ none
              | some others ↦ some (sent ∷ others)
            ]
      ]

abbrev pub remote_threshold : ℕ
remote_threshold = 100

abbrev pub sum : List ℕ → ℕ
sum [] = 0
sum (n ∷ ns) = n + sum ns

-- do_replace_users: users are taken from the back one by one, so they are given here in that order.
module _ {A : Type 0} where
  -- What each local thread gets, with `remaining` threads left, and the users left over.
  unfoldable pub share_locals : ℕ → ℕ → List A → List (List A) × List A
  unfolding take drop
  share_locals zero remaining users = ([], users)
  share_locals (suc locals) remaining users =
      let user_count = length users / remaining in
      let (nexts, left) = share_locals locals (remaining - 1) (drop user_count users) in
      (take user_count users ∷ nexts, left)

  unfoldable pub share_remotes : List ℕ → ℕ → List A → List (List A) × List A
  unfolding take drop
  share_remotes [] remaining users = ([], users)
  share_remotes (threads ∷ remotes) remaining users =
      let user_count = max 1 (length users / max 1 remaining) * threads in
      let (nexts, left) =
        share_remotes remotes (remaining - min remaining threads) (drop user_count users) in
      (take user_count users ∷ nexts, left)

  -- With a thread at least: the shares of the local threads, those of the remote clients, and the users that get none.
  unfoldable pub do_replace_users : ℕ → List ℕ → List A → List (List A) × List (List A) × List A
  unfolding share_locals share_remotes
  do_replace_users locals remotes users =
      let remaining =
        if not (locals == 0) && ltb (length users / locals) remote_threshold
        then locals
        else locals + sum remotes in
      let (to_locals, left) = share_locals locals remaining users in
      let (to_remotes, dropped) = share_remotes remotes (remaining - locals) left in
      (to_locals, to_remotes, dropped)
