-- ===== src/Chain/Accounts.antt =====
-- What rollback_accounts of src/db/storage.cpp leaves of the accounts scanned past a height.
use xfo_lws.Base.{
  ℕ, ◌-◌, ◌<◌, ◌≤◌, ◌≡◌, refl, max, ◌&&◌, ◌||◌, Option, none, some, [], ◌∷◌, ltb, ◌==◌, All, arith,
  inl, inr, Bool-cases,
}
use xfo_lws.Base.Table.{Table}
use xfo_lws.Base.Results.{Holds, Holds-found, Holds-then}
use xfo_lws.Chain.Tables.{AccountLookup, Tables, rows_before, rows_from}
use xfo_lws.Chain.Rollback.{
  rollback_account, rollback_each, insert_lookup, insert_lookups, entry_height, with_lookups,
  rollback_accounts,
}
use xfo_lws.Chain.Lowering.{All-rows_before, RolledBack, rollback_account-RolledBack}

rollback_each-keeps :
    (height n : ℕ) (ls : Table AccountLookup) (k : AccountLookup) (t : Tables)
    → RolledBack height n k t
    → Holds (RolledBack height n k) (rollback_each height n ls t)
unfolding rollback_each
rollback_each-keeps height n [] k t r = r
rollback_each-keeps height n ((h, l) ∷ ls) k t r =
    Holds-then (RolledBack height n k) (RolledBack height n k) (rollback_account height n l t)
      (rollback_each height n ls) (rollback_account-RolledBack height n l k t (inr r))
      (rollback_each-keeps height n ls k)

abbrev AllRolledBack : ℕ → ℕ → Table AccountLookup → Tables → Type 0
AllRolledBack height n ls t = All (λ e. RolledBack height n e.1 t) ls

relisted :
    (height n : ℕ) (ls new : Table AccountLookup) (t : Tables)
    → AllRolledBack height n ls t
    → AllRolledBack height n ls (with_lookups new t)
relisted height n [] new t h = tt
relisted height n (e ∷ ls) new t h = (
  record { outputs = h.0.outputs; spends = h.0.spends; account = h.0.account },
  relisted height n ls new t h.1,
)

Holds-both :
    {A : Type 0} (P Q : A → Type 0) (o : Option A)
    → Holds P o
    → Holds Q o
    → Holds (λ a. P a × Q a) o
Holds-both P Q none hp hq = tt
Holds-both P Q (some a) hp hq = (hp, hq)

rollback_each-AllRolledBack :
    (height n : ℕ) (ls : Table AccountLookup) (t : Tables)
    → Holds (AllRolledBack height n ls) (rollback_each height n ls t)
unfolding rollback_each
rollback_each-AllRolledBack height n [] t = tt
rollback_each-AllRolledBack height n ((h, l) ∷ ls) t =
    Holds-then (RolledBack height n l) (AllRolledBack height n ((h, l) ∷ ls))
      (rollback_account height n l t) (rollback_each height n ls)
      (rollback_account-RolledBack height n l l t (inl refl))
      (λ t' r.
        Holds-both (RolledBack height n l) (AllRolledBack height n ls)
          (rollback_each height n ls t') (rollback_each-keeps height n ls l t' r)
          (rollback_each-AllRolledBack height n ls t'))

abbrev AtMost : ℕ → Table AccountLookup → Type 0
AtMost n = All (λ e. e.0 ≤ n)

insert_lookup-AtMost :
    (n : ℕ) (l : AccountLookup) (rs : Table AccountLookup)
    → AtMost n rs
    → AtMost n (insert_lookup n l rs)
unfolding insert_lookup
insert_lookup-AtMost n l [] h = (omega arith, tt)
insert_lookup-AtMost n l ((k, r) ∷ rs) h = elim (Bool-cases ((k == n) && (r.id == l.id))) [
  | inl e ↦ rw e h
  | inr e ↦ elim (Bool-cases (ltb n k || ((k == n) && ltb l.id r.id))) [
    | inl e' ↦ rw (e, e') (omega arith, h)
    | inr e' ↦ rw (e, e') (h.0, insert_lookup-AtMost n l rs h.1)
  ]
]

insert_lookups-AtMost :
    (n : ℕ) (ls rs : Table AccountLookup) → AtMost n rs → AtMost n (insert_lookups n ls rs)
unfolding insert_lookups
insert_lookups-AtMost n [] rs h = h
insert_lookups-AtMost n ((k, l) ∷ ls) rs h =
    insert_lookups-AtMost n ls (insert_lookup n l rs) (insert_lookup-AtMost n l rs h)

Below-AtMost :
    (height : ℕ) (rs : Table AccountLookup)
    → All (λ e. e.0 < height) rs
    → AtMost (max height 1 - 1) rs
Below-AtMost height [] h = tt
Below-AtMost height (e ∷ rs) h = (omega (arith, h.0), Below-AtMost height rs h.1)

-- What a rollback to `height` leaves of `t`.
pub record Restarted (height : ℕ) (t t' : Tables) : Type 0 where
  pub rolled_back :
      AllRolledBack height
        (max height 1 - 1)
        (rows_from entry_height height t.accounts_by_height)
        t'
  pub heights : AtMost (max height 1 - 1) t'.accounts_by_height

-- After a successful rollback_accounts, no account is listed at the height or above. Every account
-- that was from the first such row on has no output and no spend at the height or above, and is to be
-- scanned from the block before it.
pub rollback_accounts-Restarted :
    (height : ℕ) (t t' : Tables) → rollback_accounts height t ≡ some t' → Restarted height t t'
unfolding rollback_accounts
rollback_accounts-Restarted height t t' e =
    let n = max height 1 - 1 in
    let moved = rows_from entry_height height t.accounts_by_height in
    let before = rows_before entry_height height t.accounts_by_height in
    Holds-found (Restarted height t) (rollback_accounts height t) t' e (
      Holds-then (AllRolledBack height n moved) (Restarted height t)
        (rollback_each height n moved t)
        (λ t1. some (with_lookups (insert_lookups n moved before) t1))
        (rollback_each-AllRolledBack height n moved t)
        (λ t1 r. record {
          rolled_back = relisted height n moved (insert_lookups n moved before) t1 r;
          heights = insert_lookups-AtMost n moved before (
              Below-AtMost height before
                (All-rows_before entry_height height t.accounts_by_height));
        }))
