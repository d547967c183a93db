-- ===== src/MultisigApi.antt =====
-- The handlers of src/rest_server.cpp over the multisig store: multisig_balance, multisig_register,
-- multisig_txs, multisig_list_wallets and multisig_register_wallet_handler (requests and responses:
-- src/rpc/multisig.h).
-- decode_registered_multisig_amount asks the daemon for the transaction and decodes it with the Monero
-- library, and hex_to_pod and pod_to_hex are of its epee: all three are parameters (`Decoder`).
pub mod Answers
pub mod Runs
use xfo_lws.Base.{
  ℕ, ◌%◌, ◌^◌, Bool, true, false, ◌||◌, Option, none, some, List, [], ◌∷◌, map, if◌then◌else◌, ◌==◌,
  length,
}
use xfo_lws.Base.Strings.{String, blank}
use xfo_lws.Login.{Monero, AccountAddress, Expect, value, error, bad_address, parse_address}
use xfo_lws.Wire.{Rapidjson}
use xfo_lws.MultisigStore.Records.{MultisigTxRecord, MultisigWalletRecord, MultisigAddressData}
use xfo_lws.MultisigStore.{
  MultisigStore, RegisterTxResult, inserted, updated, duplicate, invalid_input, overflow, io_error,
  DiskOutcome, register_tx_ex, register_wallet, list_wallets, get_balance, get_transactions,
}

-- Hashes and keys are the numbers that their bytes encode.
pub record Decoder : Type 0 where
  -- epee::string_tools::hex_to_pod, of 32 bytes
  pub hex_to_pod : String → Option ℕ
  -- epee::string_tools::pod_to_hex
  pub pod_to_hex : ℕ → String
  -- decode_registered_multisig_amount: the address, the transaction's hash and its secret key
  pub decode_amount : AccountAddress → ℕ → ℕ → Option ℕ

pub record BalanceResponse : Type 0 where
  pub multisig_address : String
  pub locked_balance : ℕ
  pub tx_count : ℕ
  pub context : String

-- multisig_balance::handle
pub multisig_balance : Monero → String → MultisigStore → Expect BalanceResponse
unfolding get_balance
multisig_balance monero address s = elim (parse_address monero address) [
  | error e ↦ error bad_address
  | value parsed ↦
      let balance = get_balance address s in
      value (record {
        multisig_address = balance.address;
        locked_balance = balance.total_locked;
        tx_count = length balance.transactions % 2 ^ 32;
        context = balance.primary_context;
      })
]

pub record RegisterTxRequest : Type 0 where
  pub multisig_address : String
  pub tx_hash : String
  pub tx_key : String
  pub context : String

pub record RegisterTxResponse : Type 0 where
  pub success : Bool
  pub message : String
  pub decoded_amount : ℕ

abbrev pub refuse_tx : String → RegisterTxResponse
refuse_tx message = record { success = false; message = message; decoded_amount = 0 }

abbrev pub answer_tx : ℕ → RegisterTxResult → RegisterTxResponse
answer_tx amount inserted = record {
  success = true;
  message = "Transaction registered successfully";
  decoded_amount = amount;
}
answer_tx amount updated = record {
  success = true;
  message = "Transaction amount backfilled successfully";
  decoded_amount = amount;
}
answer_tx amount duplicate = record {
  success = true;
  message = "Transaction already registered";
  decoded_amount = amount;
}
answer_tx amount invalid_input = refuse_tx "Failed to register transaction"
answer_tx amount overflow = refuse_tx "Failed to register transaction"
answer_tx amount io_error = refuse_tx "Failed to register transaction"

-- The part of multisig_register::handle before the store: a refusal, or the transaction's hash and
-- amount.
pub data Decoded : Type 0 where
  refused : String → Decoded
  decoded : ℕ → ℕ → Decoded

pub decode_request : Monero → Decoder → RegisterTxRequest → Decoded
decode_request monero dec req = elim (parse_address monero req.multisig_address) [
  | error e ↦ refused "Invalid multisig address"
  | value parsed ↦ elim (dec.hex_to_pod req.tx_hash) [
    | none ↦ refused "Invalid tx_hash format"
    | some tx_hash ↦ elim (dec.hex_to_pod req.tx_key) [
      | none ↦ refused "Invalid tx_key format"
      | some tx_key ↦ elim (dec.decode_amount parsed tx_hash tx_key) [
        | none ↦ refused "Failed to decode registered amount"
        | some amount ↦
            if amount == 0
            then refused "Decoded amount is zero for target multisig address"
            else decoded tx_hash amount
      ]
    ]
  ]
]

-- multisig_register::handle
pub multisig_register :
    Monero
    → Decoder
    → Rapidjson
    → DiskOutcome
    → ℕ
    → RegisterTxRequest
    → MultisigStore
    → MultisigStore × RegisterTxResponse
unfolding decode_request register_tx_ex
multisig_register monero dec json disk now req s = elim (decode_request monero dec req) [
  | refused message ↦ (s, refuse_tx message)
  | decoded tx_hash amount ↦
      let (s', result) =
        register_tx_ex json disk now req.multisig_address (dec.pod_to_hex tx_hash) amount
          req.context s in
      (s', answer_tx amount result)
]

pub record TransactionsResponse : Type 0 where
  pub multisig_address : String
  pub transactions : List MultisigTxRecord
  pub total_locked : ℕ

-- multisig_txs::handle; its entries have the fields of the store's records. The store is locked twice,
-- and is given here as with no other handler between.
pub multisig_txs : Monero → String → MultisigStore → Expect TransactionsResponse
unfolding get_transactions get_balance
multisig_txs monero address s = elim (parse_address monero address) [
  | error e ↦ error bad_address
  | value parsed ↦ value (record {
    multisig_address = address;
    transactions = get_transactions address s;
    total_locked = (get_balance address s).total_locked;
  })
]

pub record WalletEntry : Type 0 where
  pub wallet_id : String
  pub address : String
  pub context : String
  pub threshold : ℕ
  pub total : ℕ
  pub participants : List String
  pub status : String
  pub locked_balance : ℕ
  pub tx_count : ℕ
  pub created_at : ℕ

pub wallet_entry : MultisigStore → MultisigWalletRecord → WalletEntry
unfolding get_balance
wallet_entry s w =
    let balance = get_balance w.address s in
    record {
      wallet_id = w.wallet_id;
      address = w.address;
      context = w.context;
      threshold = w.threshold;
      total = w.total;
      participants = w.participants;
      status = w.status;
      locked_balance = balance.total_locked;
      tx_count = length balance.transactions % 2 ^ 32;
      created_at = w.created_at;
    }

-- multisig_list_wallets::handle
pub multisig_list_wallets : MultisigStore → List WalletEntry
unfolding list_wallets wallet_entry
multisig_list_wallets s = map (wallet_entry s) (list_wallets s)

pub record RegisterWalletResponse : Type 0 where
  pub success : Bool
  pub message : String

-- multisig_register_wallet_handler::handle; the request has the fields of the store's record.
pub multisig_register_wallet :
    Rapidjson
    → DiskOutcome
    → MultisigWalletRecord
    → MultisigStore
    → MultisigStore × RegisterWalletResponse
unfolding register_wallet
multisig_register_wallet json disk req s =
    if blank req.wallet_id || blank req.address
    then (s, record { success = false; message = "wallet_id and address are required" })
    else let (s', registered) = register_wallet json disk req s in
      (
        s',
        if registered
            then record { success = true; message = "Wallet registered successfully" }
            else record { success = false; message = "Failed to register wallet" },
      )
