-- ===== src/Users.antt =====
-- The administration of accounts in src/db/storage.cpp: the tables of accounts and of requests, with the
-- records of src/db/data.h. A key, a time and a height are numbers. A write that fails leaves the
-- database as it was.
use xfo_lws.Base.{ℕ, Option, none, some, List}
use xfo_lws.Base.Rows.{Rows}
use xfo_lws.Base.Table.{Table}
use xfo_lws.Chain.Tables.{AccountLookup, Output, Spend}
use xfo_lws.Subaddress.Lookahead.{AddressIndex}
pub mod Accounts
pub mod Rescans
pub mod Requests
pub mod Consistent
pub mod Changes
pub mod Restated
pub mod Statuses
pub mod Additions
pub mod Moves
pub mod Queued
pub mod Steps
pub mod Runs

-- account_address
pub record Address : Type 0 where
  pub view_public : ℕ
  pub spend_public : ℕ

-- account
pub record User : Type 0 where
  pub id : ℕ
  pub access : ℕ
  pub address : Address
  pub key : ℕ
  pub scan_height : ℕ
  pub start_height : ℕ
  pub creation : ℕ
  pub flags : ℕ
  pub lookahead : AddressIndex
  pub lookahead_fail : ℕ

-- account_by_address
pub record ByAddress : Type 0 where
  pub address : Address
  pub lookup : AccountLookup

-- request_info
pub record RequestInfo : Type 0 where
  pub address : Address
  pub key : ℕ
  pub start_height : ℕ
  pub creation : ℕ
  pub creation_flags : ℕ
  pub lookahead : AddressIndex

-- accounts under their status, by_height under their scan height, and both by the number of the account;
-- by_address by the view key; requests under their kind, by the spend key. `height` is that of the last
-- block, and outputs, spends and images are as in Chain.Tables.
pub record Tables : Type 0 where
  pub accounts : Rows User
  pub by_address : Table ByAddress
  pub by_height : Rows AccountLookup
  pub requests : Rows RequestInfo
  pub height : ℕ
  pub outputs : Table (List Output)
  pub spends : Table (List Spend)
  pub images : Table (List ℕ)

-- The errors of src/error.h; not_found and key_exists are LMDB's.
pub data UserError : Type 0 where
  account_not_found : UserError
  account_exists : UserError
  account_max : UserError
  bad_view_key : UserError
  bad_height : UserError
  max_subaddresses : UserError
  create_queue_max : UserError
  duplicate_request : UserError
  not_found : UserError
  key_exists : UserError

pub data Expect (A : Type 0) : Type 0 where
  success : A → Expect A
  failed : UserError → Expect A

infixl 1 ◌>>=◌
abbrev pub ◌>>=◌ : {A B : Type 0} → Expect A → (A → Expect B) → Expect B
m >>= f = elim m [ success a ↦ f a | failed e ↦ failed e ]

-- A row that must be there.
abbrev pub found : {A : Type 0} → UserError → Option A → Expect A
found e none = failed e
found e (some a) = success a

-- account_status
abbrev pub active : ℕ
active = 0

abbrev pub inactive : ℕ
inactive = 1

abbrev pub hidden : ℕ
hidden = 2

-- account_flags::admin_account
abbrev pub admin_account : ℕ
admin_account = 1

-- request
abbrev pub create : ℕ
create = 0

abbrev pub import_scan : ℕ
import_scan = 1
