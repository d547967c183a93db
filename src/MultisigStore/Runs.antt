-- ===== src/MultisigStore/Runs.antt =====
-- The store of MultisigStore on concrete registrations and files.
use xfo_lws.Base.{
  ℕ, zero, suc, ◌<◌, ◌≡◌, ◌≢◌, refl, none, some, List, [], ◌∷◌, if◌then◌else◌, arith, length, All,
}
use xfo_lws.Base.Strings.{String, ◌=?◌, =?_iff}
use xfo_lws.Base.Dict.{Dict, find}
use xfo_lws.Wire.{Value, Rapidjson, ReadsBack}
use xfo_lws.MultisigStore.Records.{MultisigWalletRecord, MultisigAddressData}
use xfo_lws.MultisigStore.{
  MultisigStore, inserted, duplicate, invalid_input, overflow, written, not_opened, values,
  save_locked, open_store, register_tx_ex, register_in_slot, slot_of, find_tx, persist,
  register_wallet, list_wallets, get_balance,
}
use xfo_lws.MultisigStore.Json.{max_multisig_addresses}
use xfo_lws.MultisigStore.JsonLaws.{DataInRange, WalletInRange}
use xfo_lws.MultisigStore.Totals.{IsSound, IsValid, register_tx_ex-IsValid}
use xfo_lws.MultisigStore.Effects.{Credits, register_tx_ex-Credits}
use xfo_lws.MultisigStore.Repeat.{register_tx_ex_twice}
use xfo_lws.MultisigStore.Wallets.{find_wallet, UniqueIds, register_wallet-list_wallets}
use xfo_lws.MultisigStore.Restart.{
  InRange, AddressesFit, WalletsFit, document, open_store-save_locked,
}

-- A reader and writer of one document.
abbrev json_of : Value → Rapidjson
json_of v = record { print = λ w. "{\"version\":2}"; parse = λ s. if s =? "" then none else some v }

json_of-ReadsBack : (v : Value) → ReadsBack (json_of v) v
json_of-ReadsBack v = record { parse-print = λ p. refl; parse-empty = refl }

abbrev slot : String → MultisigAddressData
slot a = record {
  address = a;
  transactions = record { tx_hash = "aa"; amount = 5; timestamp = 100; context = "stake" } ∷ [];
  total_locked = 5;
  primary_context = "stake";
}

abbrev wallet : MultisigWalletRecord
wallet = record {
  wallet_id = "w1";
  address = "5multi";
  context = "stake";
  threshold = 2;
  total = 3;
  participants = "user" ∷ "oracle" ∷ [];
  status = "active";
  created_at = 90;
}

abbrev store : MultisigStore
store = record { addresses = ("5multi", slot "5multi") ∷ []; wallets = wallet ∷ []; file = none }

abbrev json : Rapidjson
json = json_of (document store)

slot-IsSound : (a : String) → IsSound a (slot a)
unfolding find_tx
slot-IsSound a = record {
  own_address = refl;
  unique = (refl, tt);
  total = refl;
  bounded = omega arith;
}

store-IsValid : IsValid store
unfolding find
store-IsValid = record { keys = (refl, tt); slots = (slot-IsSound "5multi", tt) }

register_tx_ex-IsValid_example :
    IsValid (register_tx_ex json not_opened 200 "5multi" "bb" 7 "" store).0
register_tx_ex-IsValid_example =
    register_tx_ex-IsValid json not_opened 200 "5multi" "bb" 7 "" store store-IsValid

register_tx_ex-Credits_example :
    Credits json written 200 "5multi" "bb" 7 "" store
      (register_tx_ex json written 200 "5multi" "bb" 7 "" store)
register_tx_ex-Credits_example =
    register_tx_ex-Credits json written 200 "5multi" "bb" 7 "" store store-IsValid

other_address : ◌≢◌ {A = String} "5multi" "5other"
other_address e = cc ((=?_iff "5multi" "5other").1 e)

first_answer : (register_tx_ex json written 200 "5multi" "bb" 7 "" store).1 ≡ inserted
unfolding register_tx_ex register_in_slot slot_of find find_tx persist save_locked
first_answer = refl

first_answer-valid : (register_tx_ex json written 200 "5multi" "bb" 7 "" store).1 ≢ invalid_input
first_answer-valid e = cc (first_answer, e)

first_answer-fits : (register_tx_ex json written 200 "5multi" "bb" 7 "" store).1 ≢ overflow
first_answer-fits e = cc (first_answer, e)

register_tx_ex_twice_example :
    let first = (register_tx_ex json written 200 "5multi" "bb" 7 "" store).0 in
    let again = register_tx_ex json not_opened 300 "5multi" "bb" 8 "" first in
    (again.1 ≡ duplicate)
    × (again.0.file ≡ first.file)
    × ((get_balance "5multi" again.0).total_locked ≡ (get_balance "5multi" first).total_locked)
register_tx_ex_twice_example =
    register_tx_ex_twice json written not_opened 200 300 "5multi" "bb" 7 8 "" "" store store-IsValid
      (omega arith) first_answer-valid first_answer-fits

register_wallet-list_wallets_example :
    ((i : String)
      → find_wallet i (list_wallets (register_wallet json not_opened wallet store).0)
        ≡ (if "w1" =? i then some wallet else find_wallet i (list_wallets store)))
    × UniqueIds (list_wallets (register_wallet json not_opened wallet store).0)
unfolding list_wallets
register_wallet-list_wallets_example =
    register_wallet-list_wallets json not_opened wallet store refl refl (refl, tt)

slot-DataInRange : (a : String) → DataInRange (slot a)
slot-DataInRange a = record {
  transactions = (record { amount = omega arith; timestamp = omega arith }, tt);
  total_locked = omega arith;
}

wallet-WalletInRange : WalletInRange wallet
wallet-WalletInRange = record {
  threshold = omega arith;
  total = omega arith;
  created_at = omega arith;
}

-- A list with one wallet many times.
abbrev copies : ℕ → List MultisigWalletRecord
copies zero = []
copies (suc n) = wallet ∷ copies n

copies-WalletInRange : (n : ℕ) → All WalletInRange (copies n)
copies-WalletInRange zero = tt
copies-WalletInRange (suc n) = (wallet-WalletInRange, copies-WalletInRange n)

abbrev many_wallets : MultisigStore
many_wallets = record store { wallets = copies 65 }

abbrev slots : ℕ → Dict MultisigAddressData
slots zero = []
slots (suc n) = ("5multi", slot "5multi") ∷ slots n

slots-DataInRange : (n : ℕ) → All DataInRange (values (slots n))
unfolding values
slots-DataInRange zero = tt
slots-DataInRange (suc n) = (slot-DataInRange "5multi", slots-DataInRange n)

abbrev many_addresses : MultisigStore
many_addresses = record { addresses = slots 17; wallets = []; file = none }

slots-many : max_multisig_addresses < length (values (slots 17))
unfolding values
slots-many = omega arith

store-InRange : InRange store
unfolding values
store-InRange = record {
  addresses = (slot-DataInRange "5multi", tt);
  wallets = (wallet-WalletInRange, tt);
}

many_wallets-InRange : InRange many_wallets
unfolding values
many_wallets-InRange = record {
  addresses = (slot-DataInRange "5multi", tt);
  wallets = copies-WalletInRange 65;
}

many_addresses-InRange : InRange many_addresses
many_addresses-InRange = record { addresses = slots-DataInRange 17; wallets = tt }

store-AddressesFit : AddressesFit store
unfolding values
store-AddressesFit = record {
  each = (record { in_range = slot-DataInRange "5multi"; few_txs = omega arith }, tt);
  few = omega arith;
}

store-WalletsFit : WalletsFit store
store-WalletsFit = record {
  each = (record { in_range = wallet-WalletInRange; few_participants = omega arith }, tt);
  few = omega arith;
}

open_store-save_locked_example :
    open_store json (save_locked json written store).0.file
    ≡ some (save_locked json written store).0
open_store-save_locked_example =
    open_store-save_locked json store (json_of-ReadsBack (document store)) store-InRange
      store-IsValid store-AddressesFit store-WalletsFit

many_wallets-IsValid : IsValid many_wallets
many_wallets-IsValid = record { keys = store-IsValid.keys; slots = store-IsValid.slots }
