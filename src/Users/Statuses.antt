-- ===== src/Users/Statuses.antt =====
-- change_status of src/db/storage.cpp on tables that agree.
use xfo_lws.Base.{
  ℕ, refl, sym, ap, subst, Option, none, some, List, [], ◌∷◌, Option-cases, inl, inr,
}
use xfo_lws.Base.Table.{lookup}
use xfo_lws.Users.{Address, ByAddress, Tables, Expect, success, failed, ◌>>=◌}
use xfo_lws.Users.Accounts.{set_status, change_status}
use xfo_lws.Users.Consistent.{IsConsistent}
use xfo_lws.Users.Changes.{Succeeds, HasStatus, set_status-HasStatus}
use xfo_lws.Users.Restated.{Restated, Restated-first, Restated-unlisted}

Succeeds-bind :
    {A B : Type 0} (P : A → Type 0) (Q : B → Type 0) (m : Expect A) (f : A → Expect B)
    → Succeeds P m
    → ((a : A) → P a → Succeeds Q (f a))
    → Succeeds Q (m >>= f)
Succeeds-bind P Q (success a) f h hf = hf a h
Succeeds-bind P Q (failed e) f h hf = h

-- The body of the loop.
abbrev rest_of : ℕ → Address → List Address → Tables → Expect (List Address × Tables)
rest_of status a addresses t' = do
  (changed, t'') ← change_status status addresses t'
  success (a ∷ changed, t'')

abbrev stepped :
    ℕ → Address → List Address → Tables → Option ByAddress → Expect (List Address × Tables)
stepped status a addresses t o = elim o [
  | none ↦ change_status status addresses t
  | some b ↦ set_status status b t >>= rest_of status a addresses
]

-- On tables that agree, change_status succeeds. The tables agree afterwards, the addresses that it answers
-- are those of the list that are in the table, and exactly the accounts of these have the status then.
pub change_status-Restated :
    (status : ℕ) (addresses : List Address) (t : Tables)
    → IsConsistent t
    → Succeeds (Restated status addresses t) (change_status status addresses t)
unfolding change_status
change_status-Restated status [] t c = (c, refl, (λ v. refl))
change_status-Restated status (a ∷ addresses) t c =
    elim (Option-cases (lookup a.view_public t.by_address)) [
      | inl h ↦
          subst (Succeeds (Restated status (a ∷ addresses) t))
            (ap (stepped status a addresses t) (sym h))
            (mapped (change_status status addresses t) (change_status-Restated status addresses t c)
              (λ r. Restated-unlisted status a addresses t r h))
      | inr (b, h) ↦
          subst (Succeeds (Restated status (a ∷ addresses) t))
            (ap (stepped status a addresses t) (sym h))
            (Succeeds-bind (HasStatus status b t) (Restated status (a ∷ addresses) t)
              (set_status status b t) (rest_of status a addresses)
              (set_status-HasStatus status a.view_public b t c h)
              (λ t' x.
                Succeeds-bind (Restated status addresses t') (Restated status (a ∷ addresses) t)
                  (change_status status addresses t') (λ r. success (a ∷ r.0, r.1))
                  (change_status-Restated status addresses t' x.0)
                  (λ (changed, t'') y.
                    Restated-first status a addresses b t t' t'' h (c.entries a.view_public b h).0 x
                      changed y)))
    ]
  where
    mapped :
        (m : Expect (List Address × Tables))
        → Succeeds (Restated status addresses t) m
        → ((r : List Address × Tables)
            → Restated status addresses t r
            → Restated status (a ∷ addresses) t r)
        → Succeeds (Restated status (a ∷ addresses) t) m
    mapped (success r) h f = f r h
    mapped (failed e) h f = h
