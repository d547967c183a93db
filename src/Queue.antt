-- ===== src/Queue.antt =====
-- src/rpc/scanner/queue.h and src/rpc/scanner/queue.cpp: how the accounts reach one scanner thread, and
-- what the thread (src/scanner.cpp) does with them.
-- Every method holds the mutex for all that it does, so it is one step; a wait that would block answers
-- `none`. An account is a parameter, of which the queue reads the scan height.
pub mod Refinement
pub mod Heights
pub mod Runs
use xfo_lws.Base.{
  ℕ, ◌+◌, ◌%◌, ◌^◌, Bool, true, false, ◌&&◌, ◌||◌, not, Option, none, some, List, [], ◌∷◌, ◌++◌,
  if◌then◌else◌, ltb, ◌==◌, max, length, is_empty,
}

pub record Queue (A : Type 0) : Type 0 where
  pub replace : Option (List A)
  pub push : List A
  pub user_count : ℕ
  pub current_min_height : ℕ
  pub stop : Bool

pub record Status (A : Type 0) : Type 0 where
  pub replace : Option (List A)
  pub push : List A
  pub user_count : ℕ

-- The constructor.
abbrev pub new_queue : {A : Type 0} → Queue A
new_queue = record {
  replace = none;
  push = [];
  user_count = 0;
  current_min_height = 0;
  stop = false;
}

module _ {A : Type 0} where
  unfoldable pub stop_queue : Queue A → Queue A
  stop_queue q = record q { stop = true }

  unfoldable pub update_min_height : ℕ → Queue A → Queue A
  update_min_height height q = record q { current_min_height = max height q.current_min_height }

  -- do_get_accounts and get_accounts
  unfoldable pub get_accounts : Queue A → Queue A × Status A
  get_accounts q = (
    record q { replace = none; push = [] },
    record { replace = q.replace; push = q.push; user_count = q.user_count },
  )

  abbrev pub is_some : Option (List A) → Bool
  is_some none = false
  is_some (some a) = true

  -- `none` if the call blocks.
  unfoldable pub wait_for_accounts : Queue A → Option (Queue A × Status A)
  unfolding get_accounts
  wait_for_accounts q =
      if is_some q.replace || (not (is_empty q.push) || q.stop) then some (get_accounts q) else none

  -- The height of the first account that no other is below (std::min_element).
  unfoldable pub min_element : (A → ℕ) → ℕ → List A → ℕ
  min_element scan_height least [] = least
  min_element scan_height least (a ∷ as') =
      min_element scan_height (if ltb (scan_height a) least then scan_height a else least) as'

  unfoldable pub oldest_height : (A → ℕ) → List A → ℕ
  unfolding min_element
  oldest_height scan_height [] = 0
  oldest_height scan_height (a ∷ as') = min_element scan_height (scan_height a) as'

  unfoldable pub replace_accounts : (A → ℕ) → List A → Queue A → Queue A
  unfolding oldest_height
  replace_accounts scan_height users q = record q {
    replace = some users;
    push = [];
    user_count = length users % 2 ^ 64;
    current_min_height = oldest_height scan_height users;
  }

  -- The loop of push_accounts.
  unfoldable pub lower_height : (A → ℕ) → ℕ → List A → ℕ
  lower_height scan_height current [] = current
  lower_height scan_height current (a ∷ as') =
      lower_height scan_height
        (if (current == 0) || ltb (scan_height a) current then scan_height a else current) as'

  unfoldable pub push_accounts : (A → ℕ) → List A → Queue A → Queue A
  unfolding lower_height
  push_accounts scan_height users q = record q {
    user_count = (q.user_count + length users) % 2 ^ 64;
    current_min_height = lower_height scan_height q.current_min_height users;
    push = q.push ++ users;
  }

  -- What a scanner thread with the accounts `users` has after it took a status.
  unfoldable pub take_status : Status A → List A → List A
  take_status s users = elim s.replace [ none ↦ users ++ s.push | some all' ↦ all' ++ s.push ]
