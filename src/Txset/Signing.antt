-- ===== src/Txset/Signing.antt =====
-- The handler multisig_txset_signature of src/rest_server.cpp.
use Prim.Native.String.{len}
use xfo_lws.Base.{ℕ, Bool, true, false, ◌||◌, not, Option, none, some, if◌then◌else◌, leb, max}
use xfo_lws.Base.Strings.{String, ◌=?◌, blank}
use xfo_lws.Base.Dict.{find, put}
use xfo_lws.Login.{Monero, Accounts, AccountAddress, Expect, value, error, open_account}
use xfo_lws.Txset.{TxsetRecord, Txsets, is_hex_string, txset_content_hash, prune}

pub record SignatureRequest : Type 0 where
  pub address : AccountAddress
  pub key : ℕ
  pub wallet_id : String
  pub txset_id : String
  pub multisig_address : String
  pub signer_address : String
  pub signer_role : String
  pub signed_tx_data_hex : String

pub record SignatureResponse : Type 0 where
  pub success : Bool
  pub txset_id : String
  pub state : String
  pub collected_signatures : ℕ
  pub required_signatures : ℕ
  pub submitted_tx_hash : String
  pub message : String

abbrev pub refuse_signature : SignatureRequest → ℕ → ℕ → String → SignatureResponse
refuse_signature req collected required message = record {
  success = false;
  txset_id = req.txset_id;
  state = "failed";
  collected_signatures = collected;
  required_signatures = required;
  submitted_tx_hash = "";
  message = message;
}

unfoldable pub check_signature : Monero → SignatureRequest → Option SignatureResponse
unfolding is_hex_string
check_signature monero req =
    if blank req.wallet_id || blank req.multisig_address
    then some (refuse_signature req 0 2 "wallet_id and multisig_address are required")
    else if not (req.signer_role =? "miner")
    then some (refuse_signature req 0 2 "Only miner signatures are accepted from browser wallet")
    else if not (is_hex_string req.signed_tx_data_hex) || leb (len req.signed_tx_data_hex) 64
    then some (refuse_signature req 0 2 "signed_tx_data_hex must be a real hex txset")
    else if not (req.signer_address =? monero.get_account_address_as_str req.address)
    then some (refuse_signature req 0 2 "signer_address must match authenticated wallet address")
    else none

unfoldable pub sign_record : Monero → ℕ → SignatureRequest → TxsetRecord → TxsetRecord
unfolding txset_content_hash
sign_record monero later req r = record r {
  signed_tx_data_hash = txset_content_hash monero req.signed_tx_data_hex;
  collected_signatures = max r.collected_signatures 1;
  state = "needs_more_signatures";
  updated_at = later;
}

-- From the lock on, on the pruned registry. `later` is the clock's second answer.
unfoldable pub sign_txset : Monero → ℕ → SignatureRequest → Txsets → Txsets × SignatureResponse
unfolding sign_record
sign_txset monero later req m = elim (find req.txset_id m) [
  | none ↦ (m, refuse_signature req 0 2 "txset_id is not registered")
  | some r ↦
      if not (r.wallet_id =? req.wallet_id) || not (r.multisig_address =? req.multisig_address)
      then (
        m,
        refuse_signature req r.collected_signatures r.required_signatures "txset metadata mismatch",
      )
      else if not (r.owner_address =? monero.get_account_address_as_str req.address)
          || not (r.miner_address =? req.signer_address)
      then (
        m,
        refuse_signature req r.collected_signatures r.required_signatures
            "signer does not match registered miner wallet",
      )
      else let r' = sign_record monero later req r in
        (
          put req.txset_id r' m,
          record {
            success = true;
            txset_id = r'.txset_id;
            state = r'.state;
            collected_signatures = r'.collected_signatures;
            required_signatures = r'.required_signatures;
            submitted_tx_hash = r'.submitted_tx_hash;
            message = "";
          },
        )
]

-- multisig_txset_signature::handle
unfoldable pub txset_signature :
    Monero → Accounts → ℕ → ℕ → SignatureRequest → Txsets → Txsets × Expect SignatureResponse
unfolding prune check_signature sign_txset
txset_signature monero accounts now later req m =
    elim (open_account monero accounts (record { address = req.address; key = req.key })) [
      | error e ↦ (m, error e)
      | value user ↦ elim (check_signature monero req) [
        | some refusal ↦ (m, value refusal)
        | none ↦ let (m', r) = sign_txset monero later req (prune now m) in (m', value r)
      ]
    ]
