-- ===== src/Users/Steps.antt =====
-- The writes on accounts of src/db/storage.cpp, one after another: whichever comes, and whether it succeeds
-- or fails, the tables agree.
use xfo_lws.Base.{
  Option-cases, ℕ, ◌+◌, ◌^◌, ◌<◌, ◌≡◌, refl, sym, ap, ◌∙◌, subst, Bool, true, false, ◌||◌, not,
  Option, none, some, List, ltb, ◌==◌, if◌then◌else◌, Bool-cases, inl, inr, arith,
}
use xfo_lws.Base.Rows.{find_row, put_row, find_row-put_row}
use xfo_lws.Base.Table.{lookup}
use xfo_lws.Subaddress.Lookahead.{AddressIndex}
use xfo_lws.Users.{
  Address, User, ByAddress, Tables, account_not_found, account_exists, bad_view_key,
  max_subaddresses, not_found, Expect, success, failed, ◌>>=◌, found,
}
use xfo_lws.Users.Accounts.{
  set_accounts, find_last_id, new_user, insert_account, insert_rows, do_add_account, add_account,
  update_user, update_access_time, shrunk, shrink_lookahead, change_status,
}
use xfo_lws.Users.Consistent.{Present, IsConsistent, Changed, Changed-IsConsistent, some_injective}
use xfo_lws.Users.Changes.{Succeeds}
use xfo_lws.Users.Restated.{Restated}
use xfo_lws.Users.Statuses.{change_status-Restated}
use xfo_lws.Users.Additions.{inserted-IsConsistent, insert_account-inserted, new_id-Absent}

-- What a write leaves in the database.
abbrev pub committed : Tables → Expect Tables → Tables
committed t (success t') = t'
committed t (failed e) = t

abbrev tables_of : Tables → Expect (List Address × Tables) → Tables
tables_of t (success r) = r.1
tables_of t (failed e) = t

-- A write, with its arguments.
pub data Write : Type 0 where
  add : Address → ℕ → ℕ → ℕ → Write
  access : ℕ → Address → Write
  status : ℕ → List Address → Write
  shrink : AddressIndex → Address → Write

unfoldable pub write : (ℕ → Option ℕ) → Write → Tables → Tables
unfolding add_account update_access_time change_status shrink_lookahead
write public_of (add address key flags time) t =
    committed t (add_account public_of address key flags time t)
write public_of (access time address) t = committed t (update_access_time time address t)
write public_of (status s addresses) t = tables_of t (change_status s addresses t)
write public_of (shrink lookahead address) t = committed t (shrink_lookahead lookahead address t)

-- The tables agree after a write that succeeds.
abbrev Agreed : Expect Tables → Type 0
Agreed (success t) = IsConsistent t
Agreed (failed e) = Unit

committed-Agreed :
    (t : Tables) (o : Expect Tables) → IsConsistent t → Agreed o → IsConsistent (committed t o)
committed-Agreed t (success t') c h = h
committed-Agreed t (failed e) c h = c

if-Agreed :
    (b : Bool) (o : Expect Tables) → Agreed o → Agreed (if b then o else failed bad_view_key)
if-Agreed true o h = h
if-Agreed false o h = tt

insert_account-Agreed :
    (user : User) (t : Tables)
    → IsConsistent t
    → find_last_id t.accounts < user.id
    → Agreed (insert_account user t)
unfolding insert_account
insert_account-Agreed user t c larger =
    elim (Option-cases (lookup user.address.view_public t.by_address)) [
      | inl h ↦
          subst Agreed (sym (insert_account-inserted user t (new_id-Absent user.id t c larger) h))
            (inserted-IsConsistent user t c larger h)
      | inr (b, h) ↦
          subst Agreed
            (ap (λ o. elim o [ some z ↦ failed account_exists | none ↦ insert_rows user t ])
              (sym h))
            tt
    ]

do_add_account-Agreed :
    (public_of : ℕ → Option ℕ) (user : User) (t : Tables)
    → IsConsistent t
    → find_last_id t.accounts < user.id
    → Agreed (do_add_account public_of user t)
unfolding do_add_account
do_add_account-Agreed public_of user t c larger = verified-Agreed (public_of user.key)
  where
    verified-Agreed :
        (o : Option ℕ)
        → Agreed (elim o [
          | none ↦ failed bad_view_key
          | some verify ↦
              if verify == user.address.view_public
              then insert_account user t
              else failed bad_view_key
        ])
    verified-Agreed none = tt
    verified-Agreed (some verify) =
        if-Agreed (verify == user.address.view_public) (insert_account user t)
          (insert_account-Agreed user t c larger)

-- A change of an account that keeps its number, address and scan height.
abbrev Keeps : User → Expect User → Type 0
Keeps u (success u') = (u'.id ≡ u.id) × (u'.address ≡ u.address) × (u'.scan_height ≡ u.scan_height)
Keeps u (failed e) = Unit

put-Changed :
    (b : ByAddress) (u u' : User) (t : Tables)
    → Present t b u
    → lookup b.address.view_public t.by_address ≡ some b
    → Keeps u (success u')
    → Changed b u' t (set_accounts (put_row b.lookup.status b.lookup.id u' t.accounts) t)
put-Changed b u u' t p h (same_id, same_address, same_height) = record {
  listed = λ v. elim (Bool-cases (b.address.view_public == v)) [
    | inl e ↦
        let same : b.address.view_public ≡ v = ground (arith, e) in
        rw e (ap (λ w. lookup w t.by_address) (sym same) ∙ h)
    | inr e ↦ rw e refl
  ];
  stored = λ s i.
      ground (arith, find_row-put_row b.lookup.status b.lookup.id s i u' t.accounts, p.stored s);
  indexed = λ k i. ground (arith, p.indexed k, same_height);
  owner = same_address ∙ p.owner;
  number = same_id ∙ p.number;
}

update_user-Agreed :
    (f : User → Expect User) (address : Address) (t : Tables)
    → ((u : User) → Keeps u (f u))
    → IsConsistent t
    → Agreed (update_user f address t)
unfolding update_user
update_user-Agreed f address t keeps c =
    elim (Option-cases (lookup address.view_public t.by_address)) [
      | inl h ↦ subst Agreed (ap by_entry (sym h)) tt
      | inr (b, h) ↦
          subst Agreed (ap by_entry (sym h)) (changed b h (c.entries address.view_public b h))
    ]
  where
    by_user : ByAddress → Option User → Expect Tables
    by_user b o = do
      user ← found not_found o
      user' ← f user
      success (set_accounts (put_row b.lookup.status b.lookup.id user' t.accounts) t)

    by_entry : Option ByAddress → Expect Tables
    by_entry o = do
      b ← found account_not_found o
      by_user b (find_row b.lookup.status b.lookup.id t.accounts)

    kept :
        (b : ByAddress) (u : User) (o : Expect User)
        → Keeps u o
        → Present t b u
        → lookup b.address.view_public t.by_address ≡ some b
        → Agreed (
            o >>= (λ u'.
              success (set_accounts (put_row b.lookup.status b.lookup.id u' t.accounts) t)))
    kept b u (failed e) k p h = tt
    kept b u (success u') k p h =
        Changed-IsConsistent b u' t
          (set_accounts (put_row b.lookup.status b.lookup.id u' t.accounts) t)
          (put-Changed b u u' t p h k) c
          (λ v b' listed ids. c.distinct v b.address.view_public b' b listed h ids)
          (λ b' listed. ap (λ z. z.lookup.id) (some_injective b' b (sym listed ∙ h)))

    changed :
        (b : ByAddress)
        → lookup address.view_public t.by_address ≡ some b
        → (b.address.view_public ≡ address.view_public) × ((u : User) × Present t b u)
        → Agreed (by_user b (find_row b.lookup.status b.lookup.id t.accounts))
    changed b h (view, (u, p)) =
        let self : (b.lookup.status == b.lookup.status) ≡ true = ground arith in
        let there : find_row b.lookup.status b.lookup.id t.accounts ≡ some u =
          p.stored b.lookup.status ∙ rw self refl in
        subst Agreed (ap (by_user b) (sym there))
          (kept b u (f u) (keeps u) p (ap (λ w. lookup w t.by_address) view ∙ h))

shrunk-Keeps : (lookahead : AddressIndex) (u : User) → Keeps u (shrunk lookahead u)
unfolding shrunk
shrunk-Keeps lookahead u = by_test (
    not (u.lookahead_fail == 0)
    || (ltb u.lookahead.maj_i lookahead.maj_i || ltb u.lookahead.min_i lookahead.min_i))
  where
    by_test :
        (b : Bool)
        → Keeps u
            (if b then failed max_subaddresses else success (record u { lookahead = lookahead }))
    by_test true = tt
    by_test false = (refl, refl, refl)

tables_of-IsConsistent :
    (s : ℕ) (addresses : List Address) (t : Tables) (o : Expect (List Address × Tables))
    → Succeeds (Restated s addresses t) o
    → IsConsistent (tables_of t o)
tables_of-IsConsistent s addresses t (success r) h = h.0
tables_of-IsConsistent s addresses t (failed e) h = absurd h

-- While the numbers of accounts do not wrap around, each of add_account, update_access_time, change_status
-- and shrink_lookahead, with any arguments, leaves tables that agree where they agreed before, whether it
-- succeeds or fails.
pub write-IsConsistent :
    (public_of : ℕ → Option ℕ) (w : Write) (t : Tables)
    → IsConsistent t
    → find_last_id t.accounts + 1 < 2 ^ 32
    → IsConsistent (write public_of w t)
unfolding write add_account new_user update_access_time shrink_lookahead
write-IsConsistent public_of (add address key flags time) t c room =
    let user = new_user address key flags time t in
    committed-Agreed t (do_add_account public_of user t) c
      (do_add_account-Agreed public_of user t c (omega (arith, room)))
write-IsConsistent public_of (access time address) t c room =
    committed-Agreed t (update_access_time time address t) c (
      update_user-Agreed (λ u. success (record u { access = time })) address t
        (λ u. (refl, refl, refl)) c)
write-IsConsistent public_of (status s addresses) t c room =
    tables_of-IsConsistent s addresses t (change_status s addresses t)
      (change_status-Restated s addresses t c)
write-IsConsistent public_of (shrink lookahead address) t c room =
    committed-Agreed t (shrink_lookahead lookahead address t) c
      (update_user-Agreed (shrunk lookahead) address t (shrunk-Keeps lookahead) c)
