-- ===== src/Chain/Rollback.antt =====
-- rollback_chain of src/db/storage.cpp and the functions it calls.
use xfo_lws.Base.{
  ℕ, ◌-◌, max, min, ◌&&◌, ◌||◌, Option, none, some, List, [], ◌∷◌, ltb, ◌==◌, if◌then◌else◌,
}
use xfo_lws.Base.Table.{Table, lookup, assign}
use xfo_lws.Chain.Tables.{
  Block, BlockPow, Output, Spend, Account, AccountLookup, WebhookEvent, Tables, rows_before,
  rows_from, seek,
}

-- The deletion of one key image; `none` is one that is not there.
unfoldable pub erase_image : ℕ → List ℕ → Option (List ℕ)
erase_image image [] = none
erase_image image (i ∷ is) =
    if i == image
    then some is
    else elim (erase_image image is) [ none ↦ none | some rest ↦ some (i ∷ rest) ]

abbrev pub rows : {A : Type 0} → Option (List A) → List A
rows none = []
rows (some rs) = rs

-- The key images of the spends that are removed.
unfoldable pub erase_images : List Spend → Table (List ℕ) → Option (Table (List ℕ))
unfolding erase_image lookup assign
erase_images [] images = some images
erase_images (s ∷ spends) images = elim (erase_image s.image (rows (lookup s.source images))) [
  | none ↦ none
  | some rest ↦ erase_images spends (assign s.source rest images)
]

abbrev pub spend_height : Spend → ℕ
spend_height s = s.height

abbrev pub output_height : Output → ℕ
output_height o = o.height

-- rollback_spends: the spends and the key images after it.
unfoldable pub rollback_spends :
    ℕ → ℕ → Table (List Spend) → Table (List ℕ) → Option (Table (List Spend) × Table (List ℕ))
unfolding erase_images rows_before rows_from lookup assign
rollback_spends user height spends images =
    elim (erase_images (rows_from spend_height height (rows (lookup user spends))) images) [
      | none ↦ none
      | some images' ↦ some (
        assign user (rows_before spend_height height (rows (lookup user spends))) spends,
        images',
      )
    ]

unfoldable pub rollback_outputs : ℕ → ℕ → Table (List Output) → Table (List Output)
unfolding rows_before lookup assign
rollback_outputs user height outputs =
    assign user (rows_before output_height height (rows (lookup user outputs))) outputs

-- The account is read, changed and written back in its place.
unfoldable pub lower_account : ℕ → AccountLookup → List Account → Option (List Account)
lower_account new_height l [] = none
lower_account new_height l (a ∷ accounts) =
    if (a.status == l.status) && (a.id == l.id)
    then some (
        record {
          status = a.status;
          id = a.id;
          scan_height = new_height;
          start_height = min new_height a.start_height;
        }
        ∷ accounts)
    else elim (lower_account new_height l accounts) [
      | none ↦ none
      | some accounts' ↦ some (a ∷ accounts')
    ]

-- The body of the loop of rollback_accounts.
unfoldable pub rollback_account : ℕ → ℕ → AccountLookup → Tables → Option Tables
unfolding lower_account rollback_outputs rollback_spends
rollback_account height new_height l t = elim (lower_account new_height l t.accounts) [
  | none ↦ none
  | some accounts ↦ elim (rollback_spends l.id height t.spends t.images) [
    | none ↦ none
    | some (spends, images) ↦ some (record {
      blocks = t.blocks;
      pows = t.pows;
      accounts = accounts;
      accounts_by_height = t.accounts_by_height;
      outputs = rollback_outputs l.id height t.outputs;
      spends = spends;
      images = images;
      events = t.events;
    })
  ]
]

unfoldable pub rollback_each : ℕ → ℕ → Table AccountLookup → Tables → Option Tables
unfolding rollback_account
rollback_each height new_height [] t = some t
rollback_each height new_height ((h, l) ∷ ls) t = elim (rollback_account height new_height l t) [
  | none ↦ none
  | some t' ↦ rollback_each height new_height ls t'
]

-- bulk_insert of one row into accounts_by_height: sorted by height, then by account, and a row that is
-- there already (MDB_KEYEXIST) stays.
unfoldable pub insert_lookup : ℕ → AccountLookup → Table AccountLookup → Table AccountLookup
insert_lookup height l [] = (height, l) ∷ []
insert_lookup height l ((h, r) ∷ rs) =
    if (h == height) && (r.id == l.id)
    then (h, r) ∷ rs
    else if ltb height h || ((h == height) && ltb l.id r.id)
    then (height, l) ∷ ((h, r) ∷ rs)
    else (h, r) ∷ insert_lookup height l rs

unfoldable pub insert_lookups : ℕ → Table AccountLookup → Table AccountLookup → Table AccountLookup
unfolding insert_lookup
insert_lookups height [] rs = rs
insert_lookups height ((h, l) ∷ ls) rs = insert_lookups height ls (insert_lookup height l rs)

abbrev pub entry_height : ℕ × AccountLookup → ℕ
entry_height e = e.0

abbrev pub with_lookups : Table AccountLookup → Tables → Tables
with_lookups ls t = record {
  blocks = t.blocks;
  pows = t.pows;
  accounts = t.accounts;
  accounts_by_height = ls;
  outputs = t.outputs;
  spends = t.spends;
  images = t.images;
  events = t.events;
}

unfoldable pub rollback_accounts : ℕ → Tables → Option Tables
unfolding rows_before rows_from rollback_each insert_lookups
rollback_accounts height t =
    let new_height = max height 1 - 1 in
    let moved = rows_from entry_height height t.accounts_by_height in
    elim (rollback_each height new_height moved t) [
      | none ↦ none
      | some t' ↦ some (
          with_lookups
            (insert_lookups new_height moved (rows_before entry_height height t.accounts_by_height))
            t')
    ]

-- rollback_events, over the rows from the last to the first. With `some account`, MDB_PREV_NODUP passes
-- the rows of that account.
unfoldable pub rollback_events : ℕ → Option ℕ → List WebhookEvent → List WebhookEvent
rollback_events height passed [] = []
rollback_events height none (e ∷ events) =
    let deleted = rollback_events height none events in
    let kept = rollback_events height (some e.account) events in
    if ltb e.height height then e ∷ kept else deleted
rollback_events height (some account) (e ∷ events) =
    let deleted = rollback_events height none events in
    let passed = rollback_events height (some account) events in
    let kept = rollback_events height (some e.account) events in
    if e.account == account then e ∷ passed else if ltb e.height height then e ∷ kept else deleted

abbrev pub pow_id : BlockPow → ℕ
pow_id p = p.id

unfoldable pub rollback_pows : ℕ → List BlockPow → List BlockPow
unfolding seek
rollback_pows height pows = elim (seek pow_id height pows) [
  | none ↦ pows
  | some (before, after) ↦ before
]

-- rollback_chain with the cursor past the blocks `kept`; its rows of events come from the last.
unfoldable pub rollback_chain : List Block → ℕ → Tables → Option Tables
unfolding rollback_pows rollback_accounts rollback_events
rollback_chain kept height t = rollback_accounts height (record {
  blocks = kept;
  pows = rollback_pows height t.pows;
  accounts = t.accounts;
  accounts_by_height = t.accounts_by_height;
  outputs = t.outputs;
  spends = t.spends;
  images = t.images;
  events = rollback_events height none t.events;
})
