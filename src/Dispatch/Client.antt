-- ===== src/Dispatch/Client.antt =====
-- client::push_accounts and client::replace_accounts of src/rpc/scanner/client.cpp.
use xfo_lws.Base.{ℕ, zero, suc, ◌+◌, ◌-◌, ◌/◌, ◌%◌, Option, none, some, List, [], ◌∷◌, length}
use xfo_lws.Base.Slices.{take, drop}
use xfo_lws.Queue.{Queue, push_accounts, replace_accounts}

module _ {ℓ} {A : Type ℓ} where
  -- A change of one element; `none` is an index past the end.
  unfoldable pub change_at : ℕ → (A → A) → List A → Option (List A)
  change_at n f [] = none
  change_at zero f (x ∷ xs) = some (f x ∷ xs)
  change_at (suc n) f (x ∷ xs) = elim (change_at n f xs) [ none ↦ none | some ys ↦ some (x ∷ ys) ]

-- local_ and next_push_
pub record Client (A : Type 0) : Type 0 where
  pub local : List (Queue A)
  pub next_push : ℕ

module _ {A : Type 0} (scan_height : A → ℕ) where
  -- The loop of client::push_accounts; `none` is an access past the end of local_.
  unfoldable pub push_each : List A → Client A → Option (Client A)
  unfolding change_at push_accounts
  push_each [] c = some c
  push_each (u ∷ users) c =
      elim (change_at c.next_push (push_accounts scan_height (u ∷ [])) c.local) [
        | none ↦ none
        | some local ↦
            push_each users (record { local = local; next_push = (c.next_push + 1) % length local })
      ]

  -- What the loop of client::replace_accounts gives each of `n` threads, the next one first: the last
  -- users.size() / n accounts.
  unfoldable pub shares : ℕ → List A → List (List A)
  unfolding take drop
  shares zero users = []
  shares (suc n) users =
      let rest = length users - length users / (n + 1) in
      drop rest users ∷ shares n (take rest users)

  unfoldable pub replace_each : List (List A) → List (Queue A) → List (Queue A)
  unfolding replace_accounts
  replace_each [] qs = []
  replace_each (next ∷ nexts) [] = []
  replace_each (next ∷ nexts) (q ∷ qs) = replace_accounts scan_height next q ∷ replace_each nexts qs

  unfoldable pub client_replace : List A → Client A → Client A
  unfolding shares replace_each
  client_replace users c = record {
    local = replace_each (shares (length c.local) users) c.local;
    next_push = 0;
  }
