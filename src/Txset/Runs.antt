-- ===== src/Txset/Runs.antt =====
-- The handlers of Txset on concrete requests.
use xfo_lws.Base.{ℕ, ◌+◌, ◌≡◌, ◌⊎◌, refl, true, false, none, some, List, [], ◌∷◌, arith}
use xfo_lws.Base.Strings.{String}
use xfo_lws.Base.Dict.{find, put, retain}
use xfo_lws.Login.{
  Monero, AccountAddress, Accounts, active, value, open_account, key_check, is_hidden,
  parse_address,
}
use xfo_lws.Registry.{evict}
use xfo_lws.Txset.{
  TxsetRecord, Txsets, all_xdigit, is_hex_string, stable_txset_id, txset_content_hash,
  txset_is_expired, prune,
}
use xfo_lws.Txset.Registering.{
  RegisterRequest, check_register, registered, store_txset, txset_register,
}
use xfo_lws.Txset.Signing.{
  SignatureRequest, SignatureResponse, check_signature, sign_record, sign_txset, txset_signature,
}
use xfo_lws.Txset.Submitting.{SubmitRequest, refuse_submit, txset_submit}
use xfo_lws.Txset.Invariant.{Inv, Inv-nil}
use xfo_lws.Txset.History.{
  Call, registers, signs, step, run, run-Inv, waiting, txset_submit_waits, txset_register_accepted,
}
use xfo_lws.Txset.Signature.{Signed, txset_signature-Signed}

abbrev monero : Monero
monero = record {
  secret_key_to_public_key = λ k. some (k + 1);
  get_account_address_as_str = λ a. "4main";
  get_account_address_from_str = λ s. some (record {
    address = record { view_public = 3; spend_public = 4 };
    is_subaddress = false;
    has_payment_id = false;
  });
  fast_hash_hex = λ s. "00ff";
}

abbrev accounts : Accounts
accounts = record { start_read = value tt; get_account = λ a. value (active, 7) }

abbrev miner : AccountAddress
miner = record { view_public = 12; spend_public = 4 }

abbrev hex_txset : String
hex_txset = "0123456789abcdef0123456789abcdef0123456789abcdef0123456789abcdef01"

abbrev register_req : RegisterRequest
register_req = record {
  address = miner;
  key = 11;
  wallet_id = "w1";
  multisig_address = "5multi";
  tx_data_hex = hex_txset;
  miner_address = "4main";
  purpose = "miner_unstake";
}

abbrev signature_req : SignatureRequest
signature_req = record {
  address = miner;
  key = 11;
  wallet_id = "w1";
  txset_id = "w1:5multi:00ff";
  multisig_address = "5multi";
  signer_address = "4main";
  signer_role = "miner";
  signed_tx_data_hex = hex_txset;
}

abbrev submit_req : SubmitRequest
submit_req = record {
  address = miner;
  key = 11;
  wallet_id = "w1";
  txset_id = "w1:5multi:00ff";
  multisig_address = "5multi";
}

abbrev history : List Call
history = registers accounts 9000 register_req ∷ signs accounts 9001 9002 signature_req ∷ []

login : open_account monero accounts (record { address = miner; key = 11 }) ≡ value 7
unfolding open_account key_check is_hidden
login = refl

register_req_passes : check_register monero register_req ≡ none
unfolding check_register parse_address is_hex_string all_xdigit
register_req_passes = refl

run-Inv_example : Inv (run monero [] history)
run-Inv_example = run-Inv monero [] history Inv-nil

txset_register_accepted_example :
    let id = stable_txset_id monero "w1" "5multi" hex_txset in
    (r : TxsetRecord) × (find id (txset_register monero accounts 9000 register_req []).0 ≡ some r)
    × (r.updated_at ≡ 9000)
    × ((txset_register monero accounts 9000 register_req []).1
        ≡ value (record { success = true; txset_id = id; state = r.state; message = "" }))
txset_register_accepted_example =
    txset_register_accepted monero accounts 9000 register_req [] 7 Inv-nil (omega arith) login
      register_req_passes

txset_submit_waits_example :
    let answer = (txset_submit monero accounts 9003 submit_req (run monero [] history)).1 in
    (answer ≡ value waiting) ⊎ ((message : String) × (answer ≡ value (refuse_submit message)))
txset_submit_waits_example = txset_submit_waits monero accounts 9003 history submit_req 7 login

abbrev signed_record : TxsetRecord
signed_record = record {
  owner_address = "4main";
  wallet_id = "w1";
  multisig_address = "5multi";
  txset_id = "w1:5multi:00ff";
  tx_data_hash = "00ff";
  miner_address = "4main";
  state = "needs_more_signatures";
  collected_signatures = 1;
  required_signatures = 2;
  signed_tx_data_hash = "00ff";
  submitted_tx_hash = "";
  created_at = 9000;
  updated_at = 9002;
}

abbrev registered_record : TxsetRecord
registered_record = record signed_record {
  state = "registered";
  collected_signatures = 0;
  signed_tx_data_hash = "";
  updated_at = 9000;
}

signed_found : find "w1:5multi:00ff" (prune 9003 (run monero [] history)) ≡ some signed_record
unfolding find run step txset_register txset_signature check_register check_signature parse_address
    is_hex_string all_xdigit open_account key_check is_hidden store_txset registered stable_txset_id
    txset_content_hash sign_txset sign_record prune txset_is_expired retain evict put
signed_found = refl

abbrev signature_answer : SignatureResponse
signature_answer = record {
  success = true;
  txset_id = "w1:5multi:00ff";
  state = "needs_more_signatures";
  collected_signatures = 1;
  required_signatures = 2;
  submitted_tx_hash = "";
  message = "";
}

abbrev one_txset : Txsets
one_txset = ("w1:5multi:00ff", registered_record) ∷ []

signature_answered :
    (txset_signature monero accounts 9001 9002 signature_req one_txset).1 ≡ value signature_answer
unfolding find txset_signature check_signature is_hex_string all_xdigit open_account key_check
    is_hidden txset_content_hash sign_txset sign_record prune txset_is_expired retain evict put
signature_answered = refl

txset_signature-Signed_example :
    ((user : ℕ) × (open_account monero accounts (record { address = miner; key = 11 })
        ≡ value user))
    × Signed monero 9002 signature_req
        (prune 9001 one_txset)
        (txset_signature monero accounts 9001 9002 signature_req one_txset).0
        signature_answer
txset_signature-Signed_example =
    txset_signature-Signed monero accounts 9001 9002 signature_req one_txset signature_answer
      signature_answered refl
