-- ===== src/Users/Additions.antt =====
-- add_account and get_account of src/db/storage.cpp on tables that agree.
use xfo_lws.Base.{
  ℕ, ◌+◌, ◌^◌, ◌<◌, ◌≤◌, ◌≡◌, refl, sym, ap, ◌∙◌, subst, true, ◌&&◌, Option, none, some, [], ◌∷◌,
  ◌==◌, if◌then◌else◌, Bool-cases, inl, inr, arith,
}
use xfo_lws.Base.Rows.{Rows, find_row, put_row, find_row-put_row}
use xfo_lws.Base.Table.{lookup, assign, lookup-assign}
use xfo_lws.Users.{
  Address, User, ByAddress, Tables, account_exists, bad_view_key, Expect, success, failed,
}
use xfo_lws.Users.Accounts.{
  find_last_id, new_status, insert_rows, insert_account, do_add_account, new_user, add_account,
  get_account,
}
use xfo_lws.Users.Consistent.{Absent, IsConsistent, Changed, Changed-IsConsistent}
use xfo_lws.Users.Changes.{Succeeds, insert_row-fresh}

find_last_id-largest :
    (s i : ℕ) (rows : Rows User) (u : User) → find_row s i rows ≡ some u → i ≤ find_last_id rows
unfolding find_row find_last_id
find_last_id-largest s i [] u h = absurd (cc (h))
find_last_id-largest s i (((j, n), w) ∷ rows) u h = elim (Bool-cases ((j == s) && (n == i))) [
  | inl e ↦ ground (arith, e)
  | inr e ↦ let below = find_last_id-largest s i rows u (rw e at h) in omega (arith, below)
]

-- No row has a number above the last.
pub new_id-Absent : (i : ℕ) (t : Tables) → IsConsistent t → find_last_id t.accounts < i → Absent t i
new_id-Absent i t c h = c.others i (λ v b h' e.
    let (u, p) = (c.entries v b h').1 in
    let self : (b.lookup.status == b.lookup.status) ≡ true = ground arith in
    let below =
      find_last_id-largest b.lookup.status b.lookup.id t.accounts u
        (p.stored b.lookup.status ∙ rw self refl) in
    omega (arith, below, e, h))

abbrev entry_of : User → ByAddress
entry_of user = record {
  address = user.address;
  lookup = record { id = user.id; status = new_status user };
}

abbrev pub inserted : User → Tables → Tables
inserted user t = record t {
  accounts = put_row (new_status user) user.id user t.accounts;
  by_address = assign user.address.view_public (entry_of user) t.by_address;
  by_height = put_row user.scan_height user.id (entry_of user).lookup t.by_height;
}

inserted-Changed :
    (user : User) (t : Tables) → Absent t user.id → Changed (entry_of user) user t (inserted user t)
inserted-Changed user t a = record {
  listed = λ v. lookup-assign user.address.view_public v (entry_of user) t.by_address;
  stored = λ s i.
      ground (arith, find_row-put_row (new_status user) user.id s i user t.accounts, a.stored s);
  indexed = λ h i. ground (
    arith,
    find_row-put_row user.scan_height user.id h i (entry_of user).lookup t.by_height,
    a.indexed h,
  );
  owner = refl;
  number = refl;
}

insert_rows-inserted :
    (user : User) (t : Tables) → Absent t user.id → insert_rows user t ≡ success (inserted user t)
unfolding insert_rows
insert_rows-inserted user t a =
    rw
      (
        insert_row-fresh user.scan_height user.id (entry_of user).lookup t.by_height
            (a.indexed user.scan_height),
        insert_row-fresh (new_status user) user.id user t.accounts (a.stored (new_status user)),
      )
      refl

pub insert_account-inserted :
    (user : User) (t : Tables)
    → Absent t user.id
    → lookup user.address.view_public t.by_address ≡ none
    → insert_account user t ≡ success (inserted user t)
unfolding insert_account
insert_account-inserted user t a h =
    ap (λ o. elim o [ some b ↦ failed account_exists | none ↦ insert_rows user t ]) h
    ∙ insert_rows-inserted user t a

pub inserted-IsConsistent :
    (user : User) (t : Tables)
    → IsConsistent t
    → find_last_id t.accounts < user.id
    → lookup user.address.view_public t.by_address ≡ none
    → IsConsistent (inserted user t)
inserted-IsConsistent user t c larger h =
    Changed-IsConsistent (entry_of user) user t (inserted user t)
      (inserted-Changed user t (new_id-Absent user.id t c larger)) c
      (λ v b listed e.
        let (u, p) = (c.entries v b listed).1 in
        let self : (b.lookup.status == b.lookup.status) ≡ true = ground arith in
        let below =
          find_last_id-largest b.lookup.status b.lookup.id t.accounts u
            (p.stored b.lookup.status ∙ rw self refl) in
        absurd (omega (arith, below, e, larger)))
      (λ b listed. absurd (cc (h, listed)))

-- The new account is found by its address.
get_account-Present :
    (b : ByAddress) (u : User) (t : Tables)
    → lookup b.address.view_public t.by_address ≡ some b
    → find_row b.lookup.status b.lookup.id t.accounts ≡ some u
    → get_account b.address t ≡ success (b.lookup.status, u)
unfolding get_account
get_account-Present b u t h k =
    let self : (b.address.spend_public == b.address.spend_public) ≡ true = ground arith in
    rw (h, self, k) refl

-- The test of do_add_account.
abbrev verified : User → Tables → Option ℕ → Expect Tables
verified user t o = elim o [
  | none ↦ failed bad_view_key
  | some verify ↦
      if verify == user.address.view_public then insert_account user t else failed bad_view_key
]

-- On tables that agree, an account whose view key fits its address, which is not in the table, and whose
-- number does not wrap around, is added: the tables agree afterwards, and get_account finds the new account,
-- hidden for an administrator and active otherwise.
pub add_account-get_account :
    (public_of : ℕ → Option ℕ) (address : Address) (key flags current_time : ℕ) (t : Tables)
    → IsConsistent t
    → find_last_id t.accounts + 1 < 2 ^ 32
    → lookup address.view_public t.by_address ≡ none
    → public_of key ≡ some address.view_public
    → Succeeds
        (λ t'.
          IsConsistent t'
          × (get_account address t'
              ≡ success (
                new_status (new_user address key flags current_time t),
                new_user address key flags current_time t,
              )))
        (add_account public_of address key flags current_time t)
unfolding add_account do_add_account new_user
add_account-get_account public_of address key flags current_time t c room h fits =
    let user = new_user address key flags current_time t in
    let self : (address.view_public == address.view_public) ≡ true = ground arith in
    let larger : find_last_id t.accounts < user.id = omega (arith, room) in
    let x = inserted-Changed user t (new_id-Absent user.id t c larger) in
    let added : do_add_account public_of user t ≡ success (inserted user t) =
      ap (verified user t) fits
      ∙ rw self (insert_account-inserted user t (new_id-Absent user.id t c larger) h) in
    subst
      (Succeeds
        (λ t'. IsConsistent t' × (get_account address t' ≡ success (new_status user, user))))
      (sym added)
      (
        inserted-IsConsistent user t c larger h,
        get_account-Present (entry_of user) user (inserted user t)
            (x.listed address.view_public ∙ rw self refl)
            (ground (arith, x.stored (new_status user) user.id)),
      )
