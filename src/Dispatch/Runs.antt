-- ===== src/Dispatch/Runs.antt =====
-- Concrete runs of the spreading of accounts, which are their scan heights.
use xfo_lws.Base.{true, arith, ℕ, ◌≡◌, some, List, [], ◌∷◌, All}
use xfo_lws.Queue.{Queue, new_queue, push_accounts}
use xfo_lws.Dispatch.Server.{best_thread, do_replace_users}
use xfo_lws.Dispatch.Spread.{Spread, do_replace_users-Spread}
use xfo_lws.Dispatch.Balance.{nth, Preferred, best_thread-Preferred}

abbrev height : ℕ → ℕ
height n = n

abbrev users : List ℕ
users = 1 ∷ (2 ∷ (3 ∷ (4 ∷ (5 ∷ []))))

do_replace_users-Spread_example : Spread true 2 (3 ∷ []) users (do_replace_users 2 (3 ∷ []) users)
do_replace_users-Spread_example =
    do_replace_users-Spread 2 (3 ∷ []) users (omega arith) (omega arith)

abbrev busy : ℕ → Queue ℕ
busy n = push_accounts height (n ∷ []) new_queue

best_thread-Preferred_example :
    (p : Queue ℕ) × (nth
        (best_thread 7 (busy 9 ∷ (busy 5 ∷ (busy 6 ∷ [])))).thread
        (busy 9 ∷ (busy 5 ∷ (busy 6 ∷ [])))
      ≡ some p)
    × All (Preferred 7 p) (busy 9 ∷ (busy 5 ∷ (busy 6 ∷ [])))
best_thread-Preferred_example = best_thread-Preferred 7 (busy 9) (busy 5 ∷ (busy 6 ∷ []))
