-- ===== src/Queue/Refinement.antt =====
-- The queue of src/rpc/scanner/queue.cpp hands over what a direct delivery would.
use xfo_lws.Base.{
  ℕ, ◌+◌, ◌%◌, ◌^◌, ◌≡◌, refl, sym, ap, ◌∙◌, true, false, Option, none, some, List, [], ◌∷◌, ◌++◌,
  arith, length, is_empty, length-append,
}
use mathlib.Core.List.{append-nil, append_assoc}
use xfo_lws.Queue.{
  Queue, stop_queue, update_min_height, get_accounts, wait_for_accounts, replace_accounts,
  push_accounts, take_status, is_some,
}

-- What happens between the threads, in order.
pub data Event (A : Type 0) : Type 0 where
  replaces : List A → Event A
  pushes : List A → Event A
  raises : ℕ → Event A
  stops : Event A
  takes : Event A

module _ {A : Type 0} (scan_height : A → ℕ) where
  -- The queue, and the accounts that the scanner thread holds.
  abbrev pub System : Type 0
  System = Queue A × List A

  pub step : System → Event A → System
  unfolding replace_accounts push_accounts update_min_height stop_queue get_accounts take_status
  step (q, users) (replaces new) = (replace_accounts scan_height new q, users)
  step (q, users) (pushes new) = (push_accounts scan_height new q, users)
  step (q, users) (raises height) = (update_min_height height q, users)
  step (q, users) stops = (stop_queue q, users)
  step (q, users) takes = ((get_accounts q).0, take_status (get_accounts q).1 users)

  pub run : System → List (Event A) → System
  unfolding step
  run s [] = s
  run s (e ∷ es) = run (step s e) es

  -- What the thread would hold if it took the accounts now.
  abbrev pub view : System → List A
  view (q, users) = take_status (get_accounts q).1 users

  -- Accounts that are delivered at once, with no queue.
  abbrev pub deliver : List A → Event A → List A
  deliver users (replaces new) = new
  deliver users (pushes new) = users ++ new
  deliver users (raises height) = users
  deliver users stops = users
  deliver users takes = users

  abbrev pub deliver_all : List A → List (Event A) → List A
  deliver_all users [] = users
  deliver_all users (e ∷ es) = deliver_all (deliver users e) es

  take_status-append :
      (all' : Option (List A)) (old new users : List A) (n n' : ℕ)
      → take_status (record { replace = all'; push = old ++ new; user_count = n }) users
        ≡ take_status (record { replace = all'; push = old; user_count = n' }) users ++ new
  unfolding take_status
  take_status-append none old new users n n' = sym (append_assoc users old new)
  take_status-append (some all') old new users n n' = sym (append_assoc all' old new)

  view-step : (s : System) (e : Event A) → view (step s e) ≡ deliver (view s) e
  unfolding step
  view-step (q, users) (replaces new) = append-nil new
  view-step (q, users) (pushes new) =
      take_status-append q.replace q.push new users ((q.user_count + length new) % 2 ^ 64)
        q.user_count
  view-step (q, users) (raises height) = refl
  view-step (q, users) stops = refl
  view-step (q, users) takes = append-nil (view (q, users))

  -- The scanner thread gets what direct delivery would have given it, whenever it takes accounts:
  -- the queue loses, repeats and reorders none, and a replacement drops what was pushed before it.
  pub run-deliver_all :
      (s : System) (es : List (Event A)) → view (run s es) ≡ deliver_all (view s) es
  unfolding run
  run-deliver_all s [] = refl
  run-deliver_all s (e ∷ es) =
      run-deliver_all (step s e) es ∙ ap (λ users. deliver_all users es) (view-step s e)

  -- user_count is the number of accounts that the thread holds or is about to, modulo 2^64.
  abbrev pub Counted : System → Type 0
  Counted s = s.0.user_count ≡ length (view s) % 2 ^ 64

  step-Counted : (s : System) (e : Event A) → Counted s → Counted (step s e)
  unfolding step
  step-Counted (q, users) (replaces new) h =
      ap (λ l. length l % 2 ^ 64) (sym (view-step (q, users) (replaces new)))
  step-Counted (q, users) (pushes new) h =
      omega (
        arith,
        h,
        length-append (view (q, users)) new,
        ap length (view-step (q, users) (pushes new)),
      )
  step-Counted (q, users) (raises height) h = h
  step-Counted (q, users) stops h = h
  step-Counted (q, users) takes h =
      h ∙ ap (λ l. length l % 2 ^ 64) (sym (view-step (q, users) takes))

  -- After any history of replacements, pushes, takes, stops and height updates, user_count is the
  -- number of the accounts that direct delivery would have given the thread, modulo 2^64.
  pub run-user_count :
      (s : System) (es : List (Event A))
      → Counted s
      → (run s es).0.user_count ≡ length (deliver_all (view s) es) % 2 ^ 64
  unfolding run
  run-user_count s [] h = h
  run-user_count s (e ∷ es) h =
      run-user_count (step s e) es (step-Counted s e h)
      ∙ ap (λ users. length (deliver_all users es) % 2 ^ 64) (view-step s e)

  idle :
      (all' : Option (List A)) (old users : List A) (n : ℕ)
      → is_some all' ≡ false
      → is_empty old ≡ true
      → take_status (record { replace = all'; push = old; user_count = n }) users ≡ users
  unfolding take_status
  idle none [] users n h e = append-nil users
  idle none (x ∷ old) users n h e = absurd (cc (e))
  idle (some all') old users n h e = absurd (cc (h))

  -- A call of wait_for_accounts that blocks leaves the thread with all the accounts it was given,
  -- and none blocks after stop.
  pub wait_for_accounts-blocks :
      (s : System) → wait_for_accounts s.0 ≡ none → (view s ≡ s.1) × (s.0.stop ≡ false)
  unfolding wait_for_accounts
  wait_for_accounts-blocks (q, users) h =
      (idle q.replace q.push users q.user_count (ground arith) (ground arith), ground arith)
