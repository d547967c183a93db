-- ===== src/MultisigStore.antt =====
-- src/db/multisig_store.h and src/db/multisig_store.cpp: what each multisig address has locked, and
-- the registered multisig wallets, kept in one JSON file.
-- Every method holds the mutex from its first look at the data to its end, so it is one step here.
pub mod Records
pub mod Json
pub mod Cases
pub mod Totals
pub mod Effects
pub mod Repeat
pub mod Wallets
pub mod JsonLaws
pub mod Plain
pub mod Restart
pub mod Runs
use xfo_lws.Base.{
  ℕ, ◌+◌, ◌-◌, ◌%◌, ◌≡◌, Bool, true, false, ◌&&◌, ◌||◌, Option, none, some, List, [], ◌∷◌, ◌++◌,
  map, if◌then◌else◌, ltb, ◌==◌, any,
}
use xfo_lws.Base.Strings.{String, ◌=?◌, blank}
use xfo_lws.Base.Dict.{Dict, find, put}
use xfo_lws.Wire.{Value, Rapidjson, u64_limit}
use Records.{MultisigTxRecord, MultisigWalletRecord, MultisigAddressData, MultisigSnapshot}
use Json.{read_snapshot_v1, read_snapshot_v2, write_snapshot_v2}

-- `addresses` is data_, and `file` what stands at storage_path_: `none` if it cannot be opened.
pub record MultisigStore : Type 0 where
  pub addresses : Dict MultisigAddressData
  pub wallets : List MultisigWalletRecord
  pub file : Option String

pub data RegisterTxResult : Type 0 where
  inserted updated duplicate invalid_input overflow io_error : RegisterTxResult

-- What the file system does with one save. The file is truncated when it is opened, so a write that
-- fails leaves some other text.
pub data DiskOutcome : Type 0 where
  written : DiskOutcome
  no_directory : DiskOutcome
  not_opened : DiskOutcome
  torn : String → DiskOutcome

-- A JSON text is read through wire::json::from_bytes.
unfoldable pub from_bytes {ℓ} : {A : Type ℓ} → Rapidjson → (Value → Option A) → String → Option A
from_bytes json read s = elim (json.parse s) [ none ↦ none | some v ↦ read v ]

pub values : Dict MultisigAddressData → List MultisigAddressData
values [] = []
values ((k, d) ∷ m) = d ∷ values m

pub snapshot : MultisigStore → MultisigSnapshot
snapshot s = record { addresses = values s.addresses; wallets = s.wallets }

-- The result says whether save_locked returned, and did not throw.
unfoldable pub save_locked : Rapidjson → DiskOutcome → MultisigStore → MultisigStore × Bool
unfolding snapshot values
save_locked json written s =
    (record s { file = some (json.print (write_snapshot_v2 (snapshot s))) }, true)
save_locked json no_directory s = (s, false)
save_locked json not_opened s = (s, false)
save_locked json (torn left) s = (record s { file = some left }, false)

-- data.emplace(addr.address, addr) for each: the first entry of an address stays.
pub emplace_all : List MultisigAddressData → Dict MultisigAddressData → Dict MultisigAddressData
unfolding find put
emplace_all [] m = m
emplace_all (d ∷ ds) m =
    emplace_all ds (elim (find d.address m) [ none ↦ put d.address d m | some _ ↦ m ])

pub load_text : Rapidjson → String → MultisigStore → Option MultisigStore
unfolding emplace_all from_bytes
load_text json content s = elim (from_bytes json read_snapshot_v2 content) [
  | some snap ↦
      some (record s { addresses = emplace_all snap.addresses []; wallets = snap.wallets })
  | none ↦ elim (from_bytes json read_snapshot_v1 content) [
    | some addrs ↦ some (record s { addresses = emplace_all addrs []; wallets = [] })
    | none ↦ none
  ]
]

-- load_locked; `none` is the exception for a file that neither format fits.
pub load_locked : Rapidjson → MultisigStore → Option MultisigStore
unfolding load_text
load_locked json s = elim s.file [
  | none ↦ some s
  | some content ↦ if blank content then some s else load_text json content s
]

-- The constructor, at the file that it finds.
pub open_store : Rapidjson → Option String → Option MultisigStore
unfolding load_locked
open_store json file = load_locked json (record { addresses = []; wallets = []; file = file })

abbrev pub empty_slot : String → MultisigAddressData
empty_slot a = record { address = a; transactions = []; total_locked = 0; primary_context = "" }

-- `data_[address]`, and its address filled in.
unfoldable pub slot_of : String → MultisigStore → MultisigAddressData
unfolding find
slot_of a s = elim (find a s.addresses) [
  | none ↦ empty_slot a
  | some d ↦ if blank d.address then record d { address = a } else d
]

unfoldable pub find_tx : String → List MultisigTxRecord → Option MultisigTxRecord
find_tx h [] = none
find_tx h (t ∷ ts) = if t.tx_hash =? h then some t else find_tx h ts

-- `tx.amount = amount`, and its context if it has none, at the first record of the hash.
pub backfill : String → ℕ → String → List MultisigTxRecord → List MultisigTxRecord
backfill h amount context [] = []
backfill h amount context (t ∷ ts) =
    if t.tx_hash =? h
    then record t { amount = amount; context = if blank t.context then context else t.context } ∷ ts
    else t ∷ backfill h amount context ts

-- The slot after `total_locked += amount`, with its context if it had none.
abbrev pub credit : List MultisigTxRecord → ℕ → String → MultisigAddressData → MultisigAddressData
credit txs amount context d = record d {
  transactions = txs;
  total_locked = (d.total_locked + amount) % u64_limit;
  primary_context = if blank d.primary_context then context else d.primary_context;
}

abbrev pub with_slot : String → MultisigAddressData → MultisigStore → MultisigStore
with_slot a d s = record s { addresses = put a d s.addresses }

-- save_locked within its try block.
unfoldable pub persist :
    Rapidjson → DiskOutcome → RegisterTxResult → MultisigStore → MultisigStore × RegisterTxResult
unfolding save_locked
persist json disk r s =
    let (s', saved) = save_locked json disk s in (s', if saved then r else io_error)

-- The part of register_tx_ex after `slot` is known; `d` is the slot.
unfoldable pub register_in_slot :
    Rapidjson
    → DiskOutcome
    → ℕ
    → String
    → String
    → ℕ
    → String
    → MultisigStore
    → MultisigAddressData
    → MultisigStore × RegisterTxResult
unfolding persist find_tx backfill put
register_in_slot json disk now a h amount context s d = elim (find_tx h d.transactions) [
  | some tx ↦
      if tx.amount == 0 && ltb 0 amount
      then (if ltb (u64_limit - 1 - d.total_locked) amount
          then (with_slot a d s, overflow)
          else persist json disk updated
              (with_slot a (credit (backfill h amount context d.transactions) amount context d) s))
      else (with_slot a d s, duplicate)
  | none ↦
      if ltb (u64_limit - 1 - d.total_locked) amount
      then (with_slot a d s, overflow)
      else persist json disk inserted (
          with_slot a
            (credit
              (d.transactions
                ++ (record { tx_hash = h; amount = amount; timestamp = now; context = context }
                    ∷ []))
              amount context d)
            s)
]

-- `now` is the clock's answer.
unfoldable pub register_tx_ex :
    Rapidjson
    → DiskOutcome
    → ℕ
    → String
    → String
    → ℕ
    → String
    → MultisigStore
    → MultisigStore × RegisterTxResult
unfolding register_in_slot slot_of
register_tx_ex json disk now a h amount context s =
    if blank a || blank h
    then (s, invalid_input)
    else register_in_slot json disk now a h amount context s (slot_of a s)

abbrev pub is_inserted : RegisterTxResult → Bool
is_inserted inserted = true
is_inserted _ = false

pub register_tx :
    Rapidjson
    → DiskOutcome
    → ℕ
    → String
    → String
    → ℕ
    → String
    → MultisigStore
    → MultisigStore × Bool
unfolding register_tx_ex
register_tx json disk now a h amount context s =
    let (s', r) = register_tx_ex json disk now a h amount context s in (s', is_inserted r)

-- The loop over wallets_: the first record of the id is replaced, or the wallet is appended.
pub replace_wallet : MultisigWalletRecord → List MultisigWalletRecord → List MultisigWalletRecord
replace_wallet w [] = w ∷ []
replace_wallet w (x ∷ xs) = if x.wallet_id =? w.wallet_id then w ∷ xs else x ∷ replace_wallet w xs

unfoldable pub register_wallet :
    Rapidjson → DiskOutcome → MultisigWalletRecord → MultisigStore → MultisigStore × Bool
unfolding save_locked replace_wallet
register_wallet json disk w s =
    if blank w.wallet_id || blank w.address
    then (s, false)
    else save_locked json disk (record s { wallets = replace_wallet w s.wallets })

unfoldable pub list_wallets : MultisigStore → List MultisigWalletRecord
list_wallets s = s.wallets

unfoldable pub get_balance : String → MultisigStore → MultisigAddressData
unfolding find
get_balance a s = elim (find a s.addresses) [ none ↦ empty_slot a | some d ↦ d ]

unfoldable pub get_transactions : String → MultisigStore → List MultisigTxRecord
unfolding find
get_transactions a s = elim (find a s.addresses) [ none ↦ [] | some d ↦ d.transactions ]
