-- ===== src/MultisigApi/Runs.antt =====
-- The handlers of MultisigApi on concrete requests.
use xfo_lws.Base.{◌+◌, ◌≡◌, refl, true, false, none, some, [], ◌∷◌, if◌then◌else◌, ◌==◌, arith}
use xfo_lws.Base.Strings.{◌=?◌}
use xfo_lws.Base.Dict.{find}
use xfo_lws.Login.{Monero, value, parse_address}
use xfo_lws.Wire.{Rapidjson}
use xfo_lws.MultisigStore.Records.{MultisigAddressData}
use xfo_lws.MultisigStore.{
  MultisigStore, written, register_tx_ex, register_in_slot, slot_of, find_tx, persist, save_locked,
  get_balance, get_transactions,
}
use xfo_lws.MultisigStore.Totals.{IsValid}
use xfo_lws.MultisigApi.{
  Decoder, RegisterTxRequest, decode_request, multisig_register, TransactionsResponse, multisig_txs,
}

abbrev monero : Monero
monero = record {
  secret_key_to_public_key = λ k. some (k + 1);
  get_account_address_as_str = λ a. "4main";
  get_account_address_from_str = λ s. some (record {
    address = record { view_public = 3; spend_public = 4 };
    is_subaddress = false;
    has_payment_id = false;
  });
  fast_hash_hex = λ s. s;
}

abbrev dec : Decoder
dec = record {
  hex_to_pod = λ s. if s =? "bb" then some 187 else if s =? "0c" then some 12 else none;
  pod_to_hex = λ n. if n == 187 then "bb" else "00";
  decode_amount = λ a h k. some 7;
}

abbrev json : Rapidjson
json = record { print = λ v. "{}"; parse = λ s. none }

abbrev slot : MultisigAddressData
slot = record {
  address = "5multi";
  transactions = record { tx_hash = "aa"; amount = 5; timestamp = 100; context = "stake" } ∷ [];
  total_locked = 5;
  primary_context = "stake";
}

abbrev store : MultisigStore
store = record { addresses = ("5multi", slot) ∷ []; wallets = []; file = none }

store-IsValid : IsValid store
unfolding find find_tx
store-IsValid = record {
  keys = (refl, tt);
  slots =
      (record { own_address = refl; unique = (refl, tt); total = refl; bounded = omega arith }, tt);
}

abbrev register_bb : RegisterTxRequest
register_bb = record {
  multisig_address = "5multi";
  tx_hash = "bb";
  tx_key = "0c";
  context = "stake";
}

register_bb-success :
    (multisig_register monero dec json written 200 register_bb store).1.success ≡ true
unfolding multisig_register decode_request parse_address register_tx_ex register_in_slot slot_of
    find find_tx persist save_locked
register_bb-success = refl

abbrev txs_answer : TransactionsResponse
txs_answer = record {
  multisig_address = "5multi";
  transactions = slot.transactions;
  total_locked = 5;
}

txs_answered : multisig_txs monero "5multi" store ≡ value txs_answer
unfolding multisig_txs parse_address get_transactions get_balance find
txs_answered = refl
