-- ===== src/Users/Requests.antt =====
-- creation_request, import_request and reject_requests of src/db/storage.cpp. The hooks that
-- creation_request returns are left out.
use xfo_lws.Base.{ℕ, suc, none, some, List, [], ◌∷◌, leb, ◌==◌, if◌then◌else◌}
use xfo_lws.Base.Rows.{Rows, find_row, put_row, erase_row}
use xfo_lws.Base.Table.{lookup}
use xfo_lws.Subaddress.Lookahead.{AddressIndex}
use xfo_lws.Users.{
  Address, RequestInfo, Tables, account_not_found, account_exists, create_queue_max,
  duplicate_request, Expect, success, failed, create, import_scan,
}

-- mdb_cursor_count of a kind of requests
unfoldable pub count_rows : {V : Type 0} → ℕ → Rows V → ℕ
count_rows key [] = 0
count_rows key (((j, i), v) ∷ rows) =
    if j == key then suc (count_rows key rows) else count_rows key rows

-- A request that is new.
unfoldable pub put_request : ℕ → RequestInfo → Tables → Expect Tables
unfolding find_row put_row
put_request req info t = elim (find_row req info.address.spend_public t.requests) [
  | some old ↦ failed duplicate_request
  | none ↦ success (record t { requests = put_row req info.address.spend_public info t.requests })
]

abbrev pub create_info : Address → ℕ → ℕ → AddressIndex → ℕ → Tables → RequestInfo
create_info address key flags lookahead current_time t = record {
  address = address;
  key = key;
  start_height = t.height;
  creation = current_time;
  creation_flags = flags;
  lookahead = lookahead;
}

unfoldable pub creation_request : ℕ → Address → ℕ → ℕ → AddressIndex → ℕ → Tables → Expect Tables
unfolding lookup count_rows put_request
creation_request queue_max address key flags lookahead current_time t =
    if queue_max == 0
    then failed create_queue_max
    else elim (lookup address.view_public t.by_address) [
      | some b ↦ failed account_exists
      | none ↦
          if leb queue_max (count_rows create t.requests)
          then failed create_queue_max
          else put_request create (create_info address key flags lookahead current_time t) t
    ]

unfoldable pub import_request : Address → ℕ → AddressIndex → Tables → Expect Tables
unfolding lookup put_request
import_request address height lookahead t = elim (lookup address.view_public t.by_address) [
  | none ↦ failed account_not_found
  | some b ↦
      put_request import_scan
        (record {
          address = address;
          key = 0;
          start_height = height;
          creation = 0;
          creation_flags = 0;
          lookahead = lookahead;
        })
        t
]

-- reject_requests; it has no error of its own.
unfoldable pub reject_requests : ℕ → List Address → Tables → List Address × Tables
unfolding find_row erase_row
reject_requests req [] t = ([], t)
reject_requests req (address ∷ addresses) t = elim (find_row req address.spend_public t.requests) [
  | none ↦ reject_requests req addresses t
  | some info ↦
      let (rejected, t') =
        reject_requests req addresses
          (record t { requests = erase_row req address.spend_public t.requests }) in
      (address ∷ rejected, t')
]
