-- ===== src/Users/Accounts.antt =====
-- get_account, find_last_id, do_add_account, add_account, update_access_time, change_status and
-- shrink_lookahead of src/db/storage.cpp, given the time that get_account_time reads. `public_of` is
-- secret_key_to_public_key.
use xfo_lws.Base.{
  ℕ, ◌+◌, ◌%◌, ◌^◌, ◌||◌, not, Option, none, some, List, [], ◌∷◌, ltb, ◌==◌, if◌then◌else◌, max,
}
use xfo_lws.Base.Rows.{Rows, find_row, put_row, erase_row}
use xfo_lws.Base.Table.{lookup, assign}
use xfo_lws.Chain.Tables.{AccountLookup}
use xfo_lws.Subaddress.Lookahead.{AddressIndex}
use xfo_lws.Users.{
  Address, User, ByAddress, Tables, account_not_found, account_exists, bad_view_key,
  max_subaddresses, not_found, key_exists, Expect, success, failed, ◌>>=◌, found, active, hidden,
  admin_account,
}

abbrev pub set_accounts : Rows User → Tables → Tables
set_accounts accounts t = record t { accounts = accounts }

-- get_account by its address: the row has the view key, and must have the spend key too.
unfoldable pub get_account : Address → Tables → Expect (ℕ × User)
unfolding find_row lookup
get_account address t = do
  b ← found account_not_found (lookup address.view_public t.by_address)
  if b.address.spend_public == address.spend_public
      then (do
        user ← found account_not_found (find_row b.lookup.status b.lookup.id t.accounts)
        success (b.lookup.status, user))
      else failed account_not_found

-- find_last_id: the largest of the numbers that end the statuses, which is the largest of all.
unfoldable pub find_last_id : Rows User → ℕ
find_last_id [] = 0
find_last_id (((status, id), user) ∷ rows) = max id (find_last_id rows)

abbrev pub new_status : User → ℕ
new_status user = if user.flags == admin_account then hidden else active

-- A row that must not be there.
unfoldable pub insert_row : {V : Type 0} → ℕ → ℕ → V → Rows V → Expect (Rows V)
unfolding find_row put_row
insert_row key id v rows = elim (find_row key id rows) [
  | none ↦ success (put_row key id v rows)
  | some w ↦ failed key_exists
]

-- The rows of a new account.
unfoldable pub insert_rows : User → Tables → Expect Tables
unfolding assign insert_row
insert_rows user t =
    let entry : AccountLookup = record { id = user.id; status = new_status user } in
    (do
      heights ← insert_row user.scan_height user.id entry t.by_height
      accounts ← insert_row (new_status user) user.id user t.accounts
      success (record t {
        accounts = accounts;
        by_address =
            assign user.address.view_public (record { address = user.address; lookup = entry })
              t.by_address;
        by_height = heights;
      }))

unfoldable pub insert_account : User → Tables → Expect Tables
unfolding lookup insert_rows
insert_account user t = elim (lookup user.address.view_public t.by_address) [
  | some b ↦ failed account_exists
  | none ↦ insert_rows user t
]

unfoldable pub do_add_account : (ℕ → Option ℕ) → User → Tables → Expect Tables
unfolding insert_account
do_add_account public_of user t = elim (public_of user.key) [
  | none ↦ failed bad_view_key
  | some verify ↦
      if verify == user.address.view_public then insert_account user t else failed bad_view_key
]

-- The account that add_account makes; its number has 32 bits.
unfoldable pub new_user : Address → ℕ → ℕ → ℕ → Tables → User
unfolding find_last_id
new_user address key flags current_time t = record {
  id = (find_last_id t.accounts + 1) % 2 ^ 32;
  access = current_time;
  address = address;
  key = key;
  scan_height = t.height;
  start_height = t.height;
  creation = current_time;
  flags = flags;
  lookahead = record { maj_i = 0; min_i = 0 };
  lookahead_fail = 0;
}

unfoldable pub add_account : (ℕ → Option ℕ) → Address → ℕ → ℕ → ℕ → Tables → Expect Tables
unfolding do_add_account new_user
add_account public_of address key flags current_time t =
    do_add_account public_of (new_user address key flags current_time t) t

-- An account that is looked up by its view key, changed by `f`, and written back in its place.
unfoldable pub update_user : (User → Expect User) → Address → Tables → Expect Tables
unfolding find_row put_row lookup
update_user f address t = do
  b ← found account_not_found (lookup address.view_public t.by_address)
  user ← found not_found (find_row b.lookup.status b.lookup.id t.accounts)
  user' ← f user
  success (set_accounts (put_row b.lookup.status b.lookup.id user' t.accounts) t)

unfoldable pub update_access_time : ℕ → Address → Tables → Expect Tables
unfolding update_user
update_access_time current_time =
    update_user (λ user. success (record user { access = current_time }))

-- The test and the change of shrink_lookahead.
unfoldable pub shrunk : AddressIndex → User → Expect User
shrunk lookahead user =
    if not (user.lookahead_fail == 0)
      || (ltb user.lookahead.maj_i lookahead.maj_i || ltb user.lookahead.min_i lookahead.min_i)
    then failed max_subaddresses
    else success (record user { lookahead = lookahead })

unfoldable pub shrink_lookahead : AddressIndex → Address → Tables → Expect Tables
unfolding update_user shrunk
shrink_lookahead lookahead = update_user (shrunk lookahead)

abbrev pub with_status : ℕ → ByAddress → ByAddress
with_status status b = record {
  address = b.address;
  lookup = record { id = b.lookup.id; status = status };
}

-- The change of one account in change_status. The row of its height must be there and is replaced.
unfoldable pub set_status : ℕ → ByAddress → Tables → Expect Tables
unfolding find_row put_row erase_row insert_row assign
set_status status b t = if b.lookup.status == status then success t else (do
  user ← found not_found (find_row b.lookup.status b.lookup.id t.accounts)
  accounts ← insert_row status user.id user (erase_row b.lookup.status b.lookup.id t.accounts)
  row ← found not_found (find_row user.scan_height user.id t.by_height)
  success (record t {
    accounts = accounts;
    by_address = assign b.address.view_public (with_status status b) t.by_address;
    by_height = put_row user.scan_height user.id (with_status status b).lookup t.by_height;
  }))

unfoldable pub change_status : ℕ → List Address → Tables → Expect (List Address × Tables)
unfolding lookup set_status
change_status status [] t = success ([], t)
change_status status (address ∷ addresses) t = elim (lookup address.view_public t.by_address) [
  | none ↦ change_status status addresses t
  | some b ↦ do
    t' ← set_status status b t
    (changed, t'') ← change_status status addresses t'
    success (address ∷ changed, t'')
]
