-- ===== src/Txset/Registering.antt =====
-- The handler multisig_txset_register of src/rest_server.cpp.
use Prim.Native.String.{len}
use xfo_lws.Base.{ℕ, Bool, true, false, ◌||◌, not, Option, none, some, if◌then◌else◌, leb}
use xfo_lws.Base.Strings.{String, ◌=?◌, blank}
use xfo_lws.Base.Dict.{find, put, size}
use xfo_lws.Login.{
  Monero, Accounts, AccountAddress, Expect, value, error, open_account, parse_address,
}
use xfo_lws.Registry.{max_entries}
use text.Mathlib.Text.{starts_with}
use xfo_lws.Txset.{
  TxsetRecord, empty_record, Txsets, is_hex_string, stable_txset_id, txset_content_hash, prune,
}

pub record RegisterRequest : Type 0 where
  pub address : AccountAddress
  pub key : ℕ
  pub wallet_id : String
  pub multisig_address : String
  pub tx_data_hex : String
  pub miner_address : String
  pub purpose : String

pub record RegisterResponse : Type 0 where
  pub success : Bool
  pub txset_id : String
  pub state : String
  pub message : String

abbrev pub refuse : String → RegisterResponse
refuse message = record { success = false; txset_id = ""; state = "failed"; message = message }

-- The checks of multisig_txset_register that come before the lock: the refusal, if there is one.
unfoldable pub check_register : Monero → RegisterRequest → Option RegisterResponse
unfolding is_hex_string
check_register monero req = elim (parse_address monero req.multisig_address) [
  | error e ↦ some (refuse "Invalid multisig_address")
  | value parsed ↦
      if blank req.wallet_id
      then some (refuse "wallet_id is required")
      else if not (req.purpose =? "miner_unstake")
      then some (refuse "Only miner_unstake txsets are supported")
      else if not (is_hex_string req.tx_data_hex) || leb (len req.tx_data_hex) 64
      then some (refuse "tx_data_hex must be a non-empty hex txset, not a tx hash or placeholder")
      else if starts_with req.tx_data_hex "unsigned_emergency_unstake_"
          || starts_with req.tx_data_hex "mock_"
      then some (refuse "mock or placeholder unstake txset is rejected")
      else if not (req.miner_address =? monero.get_account_address_as_str req.address)
      then some (refuse "miner_address must match authenticated wallet address")
      else none
]

-- The record after a registration: a new key gets all fields, and every one a new time.
unfoldable pub registered : Monero → ℕ → RegisterRequest → String → TxsetRecord → TxsetRecord
unfolding txset_content_hash
registered monero now req txset_id r = record filled { updated_at = now }
  where
    filled : TxsetRecord
    filled =
        if blank r.txset_id
        then record r {
          owner_address = monero.get_account_address_as_str req.address;
          wallet_id = req.wallet_id;
          multisig_address = req.multisig_address;
          txset_id = txset_id;
          tx_data_hash = txset_content_hash monero req.tx_data_hex;
          miner_address = req.miner_address;
          state = "registered";
          collected_signatures = 0;
          required_signatures = 2;
          created_at = now;
        }
        else r

-- From the lock on, on the pruned registry.
unfoldable pub store_txset : Monero → ℕ → RegisterRequest → Txsets → Txsets × RegisterResponse
unfolding stable_txset_id registered
store_txset monero now req m =
    let txset_id = stable_txset_id monero req.wallet_id req.multisig_address req.tx_data_hex in
    elim (find txset_id m) [
      | none ↦
          if leb max_entries (size m)
          then (m, refuse "LWS unstake txset registry capacity reached")
          else accepted txset_id (registered monero now req txset_id empty_record)
      | some r ↦ accepted txset_id (registered monero now req txset_id r)
    ]
  where
    accepted : String → TxsetRecord → Txsets × RegisterResponse
    accepted txset_id r = (
      put txset_id r m,
      record { success = true; txset_id = txset_id; state = r.state; message = "" },
    )

-- multisig_txset_register::handle
unfoldable pub txset_register :
    Monero → Accounts → ℕ → RegisterRequest → Txsets → Txsets × Expect RegisterResponse
unfolding prune check_register store_txset
txset_register monero accounts now req m =
    elim (open_account monero accounts (record { address = req.address; key = req.key })) [
      | error e ↦ (m, error e)
      | value user ↦ elim (check_register monero req) [
        | some refusal ↦ (m, value refusal)
        | none ↦ let (m', r) = store_txset monero now req (prune now m) in (m', value r)
      ]
    ]
