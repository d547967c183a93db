-- ===== src/Users/Restated.antt =====
-- What change_status of src/db/storage.cpp leaves in the tables.
use xfo_lws.Base.{
  ℕ, ◌≡◌, refl, sym, ap, ◌∙◌, Bool, true, false, ◌||◌, Option, none, some, List, [], ◌∷◌, ◌==◌,
  if◌then◌else◌, Bool-cases, inl, inr, arith,
}
use xfo_lws.Base.Table.{lookup}
use xfo_lws.Users.{Address, ByAddress, Tables}
use xfo_lws.Users.Accounts.{with_status}
use xfo_lws.Users.Consistent.{IsConsistent}
use xfo_lws.Users.Changes.{HasStatus}

-- Whether an address with the view key is among some.
abbrev names_view : ℕ → List Address → Bool
names_view v [] = false
names_view v (a ∷ addresses) = (a.view_public == v) || names_view v addresses

abbrev restated : ℕ → Option ByAddress → Option ByAddress
restated status none = none
restated status (some b) = some (with_status status b)

-- The addresses that are in the table.
abbrev listed_among : List Address → Tables → List Address
listed_among [] t = []
listed_among (a ∷ addresses) t =
    let rest = listed_among addresses t in
    elim (lookup a.view_public t.by_address) [ none ↦ rest | some b ↦ a ∷ rest ]

abbrev pub Restated : ℕ → List Address → Tables → List Address × Tables → Type 0
Restated status addresses t r =
    IsConsistent (r.1)
    × (r.0 ≡ listed_among addresses t)
    × ((v : ℕ)
        → lookup v (r.1).by_address ≡ (
            if names_view v addresses
            then restated status (lookup v t.by_address)
            else lookup v t.by_address))

abbrev is_listed : Option ByAddress → Bool
is_listed o = elim o [ none ↦ false | some b ↦ true ]

abbrev Listed : Tables → Tables → Type 0
Listed t t' = (v : ℕ) → is_listed (lookup v t'.by_address) ≡ is_listed (lookup v t.by_address)

listed_among-Listed :
    (addresses : List Address) (t t' : Tables)
    → Listed t t'
    → listed_among addresses t' ≡ listed_among addresses t
listed_among-Listed [] t t' h = refl
listed_among-Listed (a ∷ addresses) t t' h =
    same (lookup a.view_public t'.by_address) (lookup a.view_public t.by_address) (h a.view_public)
      (listed_among-Listed addresses t t' h)
  where
    same :
        (o o' : Option ByAddress)
        → is_listed o ≡ is_listed o'
        → listed_among addresses t' ≡ listed_among addresses t
        → (elim o [ none ↦ listed_among addresses t' | some b ↦ a ∷ listed_among addresses t' ])
          ≡ (elim o' [ none ↦ listed_among addresses t | some b ↦ a ∷ listed_among addresses t ])
    same none none e r = r
    same none (some b) e r = absurd (cc (e))
    same (some b) none e r = absurd (cc (e))
    same (some b) (some b') e r = ap (λ l. a ∷ l) r

restated_twice :
    (status : ℕ) (o : Option ByAddress) → restated status (restated status o) ≡ restated status o
restated_twice status none = refl
restated_twice status (some b) = refl

-- Two loops over the same row.
restated_both :
    (status : ℕ) (first later : Bool) (o : Option ByAddress)
    → (if later
        then restated status (if first then restated status o else o)
        else (if first then restated status o else o))
      ≡ (if first || later then restated status o else o)
restated_both status true true o = restated_twice status o
restated_both status true false o = refl
restated_both status false true o = refl
restated_both status false false o = refl

-- Every row after the status of one account has changed.
lookup-restated :
    (status : ℕ) (a : Address) (b : ByAddress) (t t' : Tables)
    → lookup a.view_public t.by_address ≡ some b
    → b.address.view_public ≡ a.view_public
    → HasStatus status b t t'
    → (v : ℕ)
    → lookup v t'.by_address ≡ (
        if a.view_public == v
        then restated status (lookup v t.by_address)
        else lookup v t.by_address)
lookup-restated status a b t t' h view (c, x) v = elim (Bool-cases (a.view_public == v)) [
  | inl e ↦
      let same : a.view_public ≡ v = ground (arith, e) in
      let itself : (b.address.view_public == v) ≡ true = ground (arith, e, view) in
      rw e (
        x v
        ∙ rw itself
            (ap (restated status) (sym h) ∙ ap (λ w. restated status (lookup w t.by_address)) same))
  | inr e ↦
      let other : (b.address.view_public == v) ≡ false = ground (arith, e, view) in
      rw e (x v ∙ rw other refl)
]

is_listed-restated :
    (status : ℕ) (test : Bool) (o : Option ByAddress)
    → is_listed (if test then restated status o else o) ≡ is_listed o
is_listed-restated status true none = refl
is_listed-restated status true (some z) = refl
is_listed-restated status false o = refl

-- The first address of a list, with those after it.
pub Restated-first :
    (status : ℕ) (a : Address) (addresses : List Address) (b : ByAddress) (t t' t'' : Tables)
    → lookup a.view_public t.by_address ≡ some b
    → b.address.view_public ≡ a.view_public
    → HasStatus status b t t'
    → (changed : List Address) → Restated status addresses t' (changed, t'')
    → Restated status (a ∷ addresses) t (a ∷ changed, t'')
Restated-first status a addresses b t t' t'' h view s changed (c', l, y) = (
  c',
  ap (λ r. a ∷ r) (l ∙ listed_among-Listed addresses t t' listed)
      ∙ ap (λ o. elim o [ none ↦ listed_among addresses t | some z ↦ a ∷ listed_among addresses t ])
          (sym h),
  λ v.
      y v
      ∙ ap (λ o. if names_view v addresses then restated status o else o)
          (lookup-restated status a b t t' h view s v)
      ∙ restated_both status (a.view_public == v) (names_view v addresses) (lookup v t.by_address),
)
  where
    listed : Listed t t'
    listed v =
        ap is_listed (lookup-restated status a b t t' h view s v)
        ∙ is_listed-restated status (a.view_public == v) (lookup v t.by_address)

-- An address that is not in the table.
pub Restated-unlisted :
    (status : ℕ) (a : Address) (addresses : List Address) (t : Tables) (r : List Address × Tables)
    → lookup a.view_public t.by_address ≡ none
    → Restated status addresses t r
    → Restated status (a ∷ addresses) t r
Restated-unlisted status a addresses t r h (c, l, y) = (
  c,
  l
      ∙ ap (λ o. elim o [ none ↦ listed_among addresses t | some z ↦ a ∷ listed_among addresses t ])
          (sym h),
  rows,
)
  where
    rows :
        (v : ℕ)
        → lookup v (r.1).by_address ≡ (
            if names_view v (a ∷ addresses)
            then restated status (lookup v t.by_address)
            else lookup v t.by_address)
    rows v = elim (Bool-cases (a.view_public == v)) [
      | inl e ↦
          let same : a.view_public ≡ v = ground (arith, e) in
          let missing : lookup v t.by_address ≡ none =
            ap (λ w. lookup w t.by_address) (sym same) ∙ h in
          y v ∙ rw (e, missing) (either (names_view v addresses))
      | inr e ↦ y v ∙ rw e refl
    ]
      where
        either : (test : Bool) → (if test then none else none) ≡ restated status none
        either true = refl
        either false = refl
