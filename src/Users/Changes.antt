-- ===== src/Users/Changes.antt =====
-- do_add_account, set_status of change_status, change_height and the updates of a field, of src/db/storage.cpp,
-- on tables that agree: they succeed, and change the rows of one account.
use xfo_lws.Base.{
  ℕ, ◌≡◌, refl, sym, ap, ◌∙◌, subst, true, false, none, some, ◌==◌, if◌then◌else◌, Bool-cases, inl,
  inr, arith,
}
use xfo_lws.Base.Rows.{Rows, find_row, put_row, erase_row, find_row-put_row, find_row-erase_row}
use xfo_lws.Base.Table.{lookup, assign, lookup-assign}
use xfo_lws.Users.{User, ByAddress, Tables, key_exists, Expect, success, failed}
use xfo_lws.Users.Accounts.{insert_row, with_status, set_status}
use xfo_lws.Users.Consistent.{Present, IsConsistent, Changed, Changed-IsConsistent, some_injective}

-- A result with a property.
abbrev pub Succeeds : {A : Type 0} → (A → Type 0) → Expect A → Type 0
Succeeds P (success a) = P a
Succeeds P (failed e) = ⊥

-- A row of a table that is there, or is new.
pub insert_row-fresh :
    {V : Type 0} (k i : ℕ) (v : V) (rows : Rows V)
    → find_row k i rows ≡ none
    → insert_row k i v rows ≡ success (put_row k i v rows)
unfolding insert_row
insert_row-fresh k i v rows h =
    ap (λ o. elim o [ none ↦ success (put_row k i v rows) | some w ↦ failed key_exists ]) h

-- The rows of an account after change_status moved it.
abbrev moved : ℕ → ByAddress → User → Tables → Tables
moved status b user t = record t {
  accounts = put_row status user.id user (erase_row b.lookup.status b.lookup.id t.accounts);
  by_address = assign b.address.view_public (with_status status b) t.by_address;
  by_height = put_row user.scan_height user.id (with_status status b).lookup t.by_height;
}

set_status-moved :
    (status : ℕ) (b : ByAddress) (u : User) (t : Tables)
    → Present t b u
    → (b.lookup.status == status) ≡ false
    → set_status status b t ≡ success (moved status b u t)
unfolding set_status
set_status-moved status b u t p other =
    let self : (b.lookup.status == b.lookup.status) ≡ true = ground arith in
    let there : find_row b.lookup.status b.lookup.id t.accounts ≡ some u =
      p.stored b.lookup.status ∙ rw self refl in
    let fresh : find_row status u.id (erase_row b.lookup.status b.lookup.id t.accounts) ≡ none =
      ground (
        arith,
        find_row-erase_row b.lookup.status b.lookup.id status u.id t.accounts,
        p.stored status,
        p.number,
        other,
      ) in
    let height : find_row u.scan_height u.id t.by_height ≡ some b.lookup =
      ground (arith, p.indexed u.scan_height, p.number) in
    rw
      (
        other,
        there,
        insert_row-fresh status u.id u (erase_row b.lookup.status b.lookup.id t.accounts) fresh,
        height,
      )
      refl

moved-Changed :
    (status : ℕ) (b : ByAddress) (u : User) (t : Tables)
    → Present t b u
    → Changed (with_status status b) u t (moved status b u t)
moved-Changed status b u t p = record {
  listed = λ v. lookup-assign b.address.view_public v (with_status status b) t.by_address;
  stored = λ s i. ground (
    arith,
    find_row-put_row status u.id s i u (erase_row b.lookup.status b.lookup.id t.accounts),
    find_row-erase_row b.lookup.status b.lookup.id s i t.accounts,
    p.stored s,
    p.number,
  );
  indexed = λ h i. ground (
    arith,
    find_row-put_row u.scan_height u.id h i (with_status status b).lookup t.by_height,
    p.indexed h,
    p.number,
  );
  owner = p.owner;
  number = p.number;
}

-- The account that a listed view key names.
pub named :
    (v : ℕ) (b : ByAddress) (t : Tables)
    → IsConsistent t
    → lookup v t.by_address ≡ some b
    → (u : User) × Present t b u
named v b t c h = (c.entries v b h).1

-- The tables agree, and the address of `b` has the status.
abbrev pub HasStatus : ℕ → ByAddress → Tables → Tables → Type 0
HasStatus status b t t' =
    IsConsistent t'
    × ((v : ℕ)
        → lookup v t'.by_address ≡ (
            if b.address.view_public == v
            then some (with_status status b)
            else lookup v t.by_address))

same_status :
    (status : ℕ) (b : ByAddress) → (b.lookup.status == status) ≡ true → with_status status b ≡ b
same_status status b e =
    let s : status ≡ b.lookup.status = ground (arith, e) in ap (λ z. with_status z b) s

kept_status :
    (status v : ℕ) (b : ByAddress) (t : Tables)
    → lookup v t.by_address ≡ some b
    → b.address.view_public ≡ v
    → (b.lookup.status == status) ≡ true
    → (w : ℕ)
    → lookup w t.by_address
      ≡ (if b.address.view_public == w then some (with_status status b) else lookup w t.by_address)
kept_status status v b t h view e w = elim (Bool-cases (b.address.view_public == w)) [
  | inl f ↦
      let there : v ≡ w = sym view ∙ ground (arith, f) in
      rw f
        (ap (λ z. lookup z t.by_address) (sym there) ∙ h ∙ ap some (sym (same_status status b e)))
  | inr f ↦ rw f refl
]

pub set_status-HasStatus :
    (status v : ℕ) (b : ByAddress) (t : Tables)
    → IsConsistent t
    → lookup v t.by_address ≡ some b
    → Succeeds (HasStatus status b t) (set_status status b t)
unfolding set_status
set_status-HasStatus status v b t c h =
    let view : b.address.view_public ≡ v = (c.entries v b h).0 in
    elim (Bool-cases (b.lookup.status == status)) [
      | inl e ↦ rw e (c, kept_status status v b t h view e)
      | inr e ↦
          let (u, p) = named v b t c h in
          let x = moved-Changed status b u t p in
          subst (Succeeds (HasStatus status b t)) (sym (set_status-moved status b u t p e)) (
            Changed-IsConsistent (with_status status b) u t (moved status b u t) x c
                (λ w b' h' ids. c.distinct w v b' b h' h ids ∙ sym view)
                (λ b' h'.
                  ap (λ z. z.lookup.id)
                    (some_injective b' b (sym h' ∙ ap (λ w. lookup w t.by_address) view ∙ h))),
            x.listed,
          )
    ]
