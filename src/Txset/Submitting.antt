-- ===== src/Txset/Submitting.antt =====
-- The handler multisig_txset_submit of src/rest_server.cpp.
use xfo_lws.Base.{ℕ, Bool, true, false, ◌||◌, not, none, some, if◌then◌else◌, ltb}
use xfo_lws.Base.Strings.{String, ◌=?◌, blank}
use xfo_lws.Base.Dict.{find}
use xfo_lws.Login.{Monero, Accounts, AccountAddress, Expect, value, error, open_account}
use xfo_lws.Txset.{Txsets, prune}

pub record SubmitRequest : Type 0 where
  pub address : AccountAddress
  pub key : ℕ
  pub wallet_id : String
  pub txset_id : String
  pub multisig_address : String

pub record SubmitResponse : Type 0 where
  pub success : Bool
  pub tx_hash : String
  pub state : String
  pub message : String

abbrev pub refuse_submit : String → SubmitResponse
refuse_submit message = record {
  success = false;
  tx_hash = "";
  state = "failed";
  message = message;
}

-- From the lock on, on the pruned registry.
unfoldable pub submit_txset : Monero → SubmitRequest → Txsets → SubmitResponse
submit_txset monero req m = elim (find req.txset_id m) [
  | none ↦ refuse_submit "txset_id is not registered"
  | some r ↦
      if not (r.wallet_id =? req.wallet_id) || not (r.multisig_address =? req.multisig_address)
      then refuse_submit "txset metadata mismatch"
      else if not (r.owner_address =? monero.get_account_address_as_str req.address)
      then refuse_submit "authenticated wallet does not own this txset"
      else if ltb r.collected_signatures r.required_signatures
      then record {
        success = true;
        tx_hash = "";
        state = "needs_more_signatures";
        message = "More multisig signatures are required before submit";
      }
      else if blank r.submitted_tx_hash
      then refuse_submit "LWS does not yet have a fully signed raw tx submitter for multisig txsets"
      else record {
        success = true;
        tx_hash = r.submitted_tx_hash;
        state = "submitted";
        message = "";
      }
]

-- multisig_txset_submit::handle
unfoldable pub txset_submit :
    Monero → Accounts → ℕ → SubmitRequest → Txsets → Txsets × Expect SubmitResponse
unfolding prune submit_txset
txset_submit monero accounts now req m =
    elim (open_account monero accounts (record { address = req.address; key = req.key })) [
      | error e ↦ (m, error e)
      | value user ↦ (prune now m, value (submit_txset monero req (prune now m)))
    ]
