-- ===== src/Chain/Lowering.antt =====
-- The rollback of one account in rollback_accounts of src/db/storage.cpp.
use xfo_lws.Base.{
  ℕ, ◌<◌, ◌≤◌, ◌≡◌, refl, sym, ap, subst, min, Bool, ◌&&◌, Option, none, some, List, [], ◌∷◌, ltb,
  ◌==◌, if◌then◌else◌, All, arith, ◌⊎◌, inl, inr, Bool-cases,
}
use xfo_lws.Base.Table.{Table, lookup, assign, lookup-assign}
use xfo_lws.Base.Results.{Holds, Holds-then, Holds-any}
use xfo_lws.Chain.Tables.{Spend, Account, AccountLookup, Tables, rows_before, rows_from}
use xfo_lws.Chain.Rollback.{
  rows, spend_height, output_height, erase_images, rollback_spends, rollback_outputs, lower_account,
  rollback_account,
}

abbrev pub same : Account → AccountLookup → Bool
same a l = (a.status == l.status) && (a.id == l.id)

abbrev find_account : AccountLookup → List Account → Option Account
find_account l [] = none
find_account l (a ∷ accounts) = if same a l then some a else find_account l accounts

-- The account of a lookup is to be scanned from `new_height` again.
abbrev Lowered : ℕ → AccountLookup → List Account → Type 0
Lowered new_height l accounts =
    (a : Account) × (find_account l accounts ≡ some a)
    × (a.scan_height ≡ new_height)
    × (a.start_height ≤ new_height)

abbrev pub lowered : ℕ → Account → Account
lowered n a = record {
  status = a.status;
  id = a.id;
  scan_height = n;
  start_height = min n a.start_height;
}

lower_account-Lowered :
    (n : ℕ) (l : AccountLookup) (accounts : List Account)
    → Holds (Lowered n l) (lower_account n l accounts)
unfolding lower_account
lower_account-Lowered n l [] = tt
lower_account-Lowered n l (a ∷ accounts) = elim (Bool-cases (same a l)) [
  | inl e ↦ rw e (lowered n a, rw e refl, refl, omega arith)
  | inr e ↦ rw e (
      Holds-then (Lowered n l) (Lowered n l) (lower_account n l accounts) (λ rest. some (a ∷ rest))
        (lower_account-Lowered n l accounts) (λ rest (b, f, s, u). (b, rw e f, s, u)))
]

lower_account-keeps :
    (n : ℕ) (l k : AccountLookup) (accounts : List Account)
    → Lowered n k accounts
    → Holds (Lowered n k) (lower_account n l accounts)
unfolding lower_account
lower_account-keeps n l k [] h = tt
lower_account-keeps n l k (a ∷ accounts) (b, f, s, u) = elim (Bool-cases (same a l)) [
  | inl e ↦ elim (Bool-cases (same a k)) [
    | inl e' ↦ rw e (lowered n a, rw e' refl, refl, omega arith)
    | inr e' ↦ rw e (b, rw e' (rw e' at f), s, u)
  ]
  | inr e ↦ elim (Bool-cases (same a k)) [
    | inl e' ↦ rw e (
        Holds-then (λ rest. Unit) (Lowered n k) (lower_account n l accounts)
          (λ rest. some (a ∷ rest)) (Holds-any (lower_account n l accounts))
          (λ rest v. (b, rw e' (rw e' at f), s, u)))
    | inr e' ↦ rw e (
        Holds-then (Lowered n k) (Lowered n k) (lower_account n l accounts)
          (λ rest. some (a ∷ rest)) (lower_account-keeps n l k accounts (b, rw e' at f, s, u))
          (λ rest (c, g, v, w). (c, rw e' g, v, w)))
  ]
]

pub All-rows_before :
    {A : Type 0} (f : A → ℕ) (height : ℕ) (rs : List A)
    → All (λ r. f r < height) (rows_before f height rs)
unfolding rows_before
All-rows_before f height [] = tt
All-rows_before f height (r ∷ rs) = elim (Bool-cases (ltb (f r) height)) [
  | inl e ↦ rw e (ground (arith, e), All-rows_before f height rs)
  | inr e ↦ rw e tt
]

-- The rows under one number after those under another were cut.
cut-rows :
    {A : Type 0} (f : A → ℕ) (height j k : ℕ) (t : Table (List A))
    → (j ≡ k) ⊎ All (λ r. f r < height) (rows (lookup k t))
    → All
        (λ r. f r < height)
        (rows (lookup k (assign j (rows_before f height (rows (lookup j t))) t)))
cut-rows f height j k t h =
    rw (lookup-assign j k (rows_before f height (rows (lookup j t))) t)
      (elim (Bool-cases (j == k)) [
        | inl e ↦ rw e (All-rows_before f height (rows (lookup j t)))
        | inr e ↦ rw e (elim h [ inl same_key ↦ absurd (ground (arith, e, same_key)) | inr a ↦ a ])
      ])

-- Nothing of an account reaches `height`, and it is to be scanned from `new_height` again.
pub record RolledBack (height new_height : ℕ) (l : AccountLookup) (t : Tables) : Type 0 where
  pub outputs : All (λ o. o.height < height) (rows (lookup l.id t.outputs))
  pub spends : All (λ s. s.height < height) (rows (lookup l.id t.spends))
  pub account : Lowered new_height l t.accounts

rollback_spends-cut :
    (user height : ℕ) (spends : Table (List Spend)) (images : Table (List ℕ))
    → Holds
        (λ p.
          p.0 ≡ assign user (rows_before spend_height height (rows (lookup user spends))) spends)
        (rollback_spends user height spends images)
unfolding rollback_spends
rollback_spends-cut user height spends images =
    Holds-then (λ i. Unit)
      (λ p. p.0 ≡ assign user (rows_before spend_height height (rows (lookup user spends))) spends)
      (erase_images (rows_from spend_height height (rows (lookup user spends))) images) _
      (Holds-any (erase_images (rows_from spend_height height (rows (lookup user spends))) images))
      (λ i u. refl)

-- One account is rolled back, and those that were stay so.
pub rollback_account-RolledBack :
    (height n : ℕ) (l k : AccountLookup) (t : Tables)
    → (l ≡ k) ⊎ RolledBack height n k t
    → Holds (RolledBack height n k) (rollback_account height n l t)
unfolding rollback_account rollback_outputs
rollback_account-RolledBack height n l k t h =
    Holds-then (Lowered n k) (RolledBack height n k) (lower_account n l t.accounts) _
      (elim h [
        | inl e ↦
            subst (λ k. Holds (Lowered n k) (lower_account n l t.accounts)) e
              (lower_account-Lowered n l t.accounts)
        | inr r ↦ lower_account-keeps n l k t.accounts r.account
      ])
      (λ accounts a.
        Holds-then
          (λ p.
            p.0
            ≡ assign l.id (rows_before spend_height height (rows (lookup l.id t.spends))) t.spends)
          (RolledBack height n k) (rollback_spends l.id height t.spends t.images) _
          (rollback_spends-cut l.id height t.spends t.images)
          (λ p e. record {
            outputs =
                cut-rows output_height height l.id k.id t.outputs
                  (elim h [ inl same ↦ inl (ap (λ m. m.id) same) | inr r ↦ inr r.outputs ]);
            spends =
                subst (λ s. All (λ s. s.height < height) (rows (lookup k.id s))) (sym e)
                  (cut-rows spend_height height l.id k.id t.spends
                    (elim h [ inl same ↦ inl (ap (λ m. m.id) same) | inr r ↦ inr r.spends ]));
            account = a;
          }))
