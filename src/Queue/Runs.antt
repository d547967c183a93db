-- ===== src/Queue/Runs.antt =====
-- The queue of Queue on concrete accounts, which are their scan heights.
use xfo_lws.Base.{ℕ, ◌≡◌, refl, none, List, [], ◌∷◌}
use xfo_lws.Queue.{new_queue, get_accounts, take_status, wait_for_accounts}
use xfo_lws.Queue.Refinement.{
  Event, replaces, pushes, raises, stops, takes, System, Counted, run, view, deliver_all,
  run-deliver_all,
}

abbrev height : ℕ → ℕ
height n = n

abbrev history : List (Event ℕ)
history =
    pushes (9 ∷ [])
    ∷ replaces (5 ∷ 7 ∷ [])
    ∷ pushes (6 ∷ [])
    ∷ takes
    ∷ raises 8
    ∷ pushes (4 ∷ [])
    ∷ stops
    ∷ []

abbrev fresh : System height
fresh = (new_queue, [])

run-deliver_all_example :
    view height (run height fresh history) ≡ deliver_all height (view height fresh) history
run-deliver_all_example = run-deliver_all height fresh history

fresh-Counted : Counted height fresh
unfolding take_status get_accounts
fresh-Counted = refl

fresh_blocks : wait_for_accounts fresh.0 ≡ none
unfolding wait_for_accounts
fresh_blocks = refl
