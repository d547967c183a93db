-- ===== src/Users/Rescans.antt =====
-- change_height without lookahead, as rescan calls it, and rescan of src/db/storage.cpp.
use xfo_lws.Base.{ℕ, List, [], ◌∷◌, ltb, leb, if◌then◌else◌, min}
use xfo_lws.Base.Rows.{Rows, find_row, put_row, erase_row}
use xfo_lws.Base.Table.{lookup}
use xfo_lws.Chain.Tables.{AccountLookup}
use xfo_lws.Chain.Rollback.{rollback_outputs, rollback_spends}
use xfo_lws.Users.{
  Address, User, Tables, account_not_found, bad_height, not_found, Expect, success, failed, ◌>>=◌,
  found,
}
use xfo_lws.Users.Accounts.{insert_row}

-- The heights of an account that is scanned again from `height`.
abbrev pub lowered : ℕ → User → User
lowered height user = record {
  id = user.id;
  access = user.access;
  address = user.address;
  key = user.key;
  scan_height = min height user.scan_height;
  start_height = min height user.start_height;
  creation = user.creation;
  flags = user.flags;
  lookahead = user.lookahead;
  lookahead_fail = if leb height user.lookahead_fail then 0 else user.lookahead_fail;
}

-- The row of an account moves from one height to another.
unfoldable pub move_height :
    ℕ → ℕ → AccountLookup → Rows AccountLookup → Expect (Rows AccountLookup)
unfolding find_row erase_row insert_row
move_height from_height height entry rows = do
  row ← found not_found (find_row from_height entry.id rows)
  insert_row height entry.id entry (erase_row from_height entry.id rows)

unfoldable pub change_height : ℕ → Address → Tables → Expect Tables
unfolding lookup find_row put_row rollback_outputs rollback_spends move_height
change_height height address t = do
  b ← found account_not_found (lookup address.view_public t.by_address)
  user ← found not_found (find_row b.lookup.status b.lookup.id t.accounts)
  (spends, images) ← found not_found (rollback_spends user.id height t.spends t.images)
  heights ← move_height user.scan_height height b.lookup t.by_height
  success (record t {
    accounts = put_row b.lookup.status b.lookup.id (lowered height user) t.accounts;
    by_height = heights;
    outputs = rollback_outputs user.id height t.outputs;
    spends = spends;
    images = images;
  })

-- The loop of rescan: an account that is not there is left out.
unfoldable pub rescan_each : ℕ → List Address → Tables → Expect (List Address × Tables)
unfolding change_height
rescan_each height [] t = success ([], t)
rescan_each height (address ∷ addresses) t = elim (change_height height address t) [
  | success t' ↦ do
    (updated, t'') ← rescan_each height addresses t'
    success (address ∷ updated, t'')
  | failed account_not_found ↦ rescan_each height addresses t
  | failed e ↦ failed e
]

unfoldable pub rescan : ℕ → List Address → Tables → Expect (List Address × Tables)
unfolding rescan_each
rescan height addresses t =
    if ltb t.height height then failed bad_height else rescan_each height addresses t
