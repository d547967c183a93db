-- ===== src/Dispatch/Push.antt =====
-- client::push_accounts (src/rpc/scanner/client.cpp) gives every account to a thread.
use xfo_lws.Base.{
  ℕ, zero, suc, ◌+◌, ◌%◌, ◌<◌, ◌≡◌, refl, ap, ◌∙◌, Bool, some, List, [], ◌∷◌, ◌++◌, arith, length,
  length-append, keep, Bool-cases, inl, inr,
}
use native.Mathlib.Nat.{mod-lt}
use xfo_lws.Queue.{Queue, push_accounts}
use xfo_lws.Dispatch.Client.{change_at, Client, push_each}

module _ {A : Type 0} (scan_height : A → ℕ) where
  -- How many of the accounts that wait in the queues pass a test.
  abbrev pub pending : (A → Bool) → List (Queue A) → ℕ
  pending p [] = 0
  pending p (q ∷ qs) = length (keep p q.push) + pending p qs

  keep-append : (p : A → Bool) (xs ys : List A) → keep p (xs ++ ys) ≡ keep p xs ++ keep p ys
  keep-append p [] ys = refl
  keep-append p (x ∷ xs) ys = elim (Bool-cases (p x)) [
    | inl e ↦ rw e (ap (λ l. x ∷ l) (keep-append p xs ys))
    | inr e ↦ rw e (keep-append p xs ys)
  ]

  pushed-one :
      (p : A → Bool) (u : A) (q : Queue A)
      → length (keep p (push_accounts scan_height (u ∷ []) q).push)
        ≡ length (keep p q.push) + length (keep p (u ∷ []))
  unfolding push_accounts
  pushed-one p u q =
      ap length (keep-append p q.push (u ∷ [])) ∙ length-append (keep p q.push) (keep p (u ∷ []))

  -- What one push to the thread at `n` does.
  pub record Pushed (u : A) (qs qs' : List (Queue A)) : Type 0 where
    pub size : length qs' ≡ length qs
    pub grows : (p : A → Bool) → pending p qs' ≡ pending p qs + length (keep p (u ∷ []))

  change_at-Pushed :
      (n : ℕ) (u : A) (qs : List (Queue A))
      → n < length qs
      → (qs' : List (Queue A)) × (change_at n (push_accounts scan_height (u ∷ [])) qs ≡ some qs')
        × Pushed u qs qs'
  unfolding change_at
  change_at-Pushed n u [] h = absurd (omega arith)
  change_at-Pushed zero u (q ∷ qs) h =
      (_, refl, record { size = refl; grows = λ p. omega (arith, pushed-one p u q) })
  change_at-Pushed (suc n) u (q ∷ qs) h =
      let (qs', e, r) = change_at-Pushed n u qs (omega arith) in
      (
        q ∷ qs',
        rw e refl,
        record { size = omega (arith, r.size); grows = λ p. omega (arith, r.grows p) },
      )

  -- client::push_accounts never leaves local_ when next_push_ is inside it, which it keeps so, and
  -- each account then waits in one more place than before, whatever test picks it out.
  pub record Spread (users : List A) (c c' : Client A) : Type 0 where
    pub inside : c'.next_push < length c'.local
    pub same_threads : length c'.local ≡ length c.local
    pub all_pushed : (p : A → Bool) → pending p c'.local ≡ pending p c.local + length (keep p users)

  pub push_each-Spread :
      (users : List A) (c : Client A)
      → c.next_push < length c.local
      → (c' : Client A) × (push_each scan_height users c ≡ some c') × Spread users c c'
  unfolding push_each
  push_each-Spread [] c h =
      (c, refl, record { inside = h; same_threads = refl; all_pushed = λ p. omega arith })
  push_each-Spread (u ∷ users) c h =
      let (qs', e, r) = change_at-Pushed c.next_push u c.local h in
      let next : Client A = record { local = qs'; next_push = (c.next_push + 1) % length qs' } in
      let (c', e', r') =
        push_each-Spread users next
          (mod-lt (c.next_push + 1) {m = length qs'} (omega (arith, r.size))) in
      (
        c',
        rw (e, push_each) e',
        record {
          inside = r'.inside;
          same_threads = omega (arith, r'.same_threads, r.size);
          all_pushed = λ p. ground (arith, r'.all_pushed p, r.grows p);
        },
      )
