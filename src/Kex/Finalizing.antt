-- ===== src/Kex/Finalizing.antt =====
-- The handler multisig_kex_finalize of src/rest_server.cpp. It takes the mutex twice, and is given here as it
-- runs with no other handler between.
use xfo_lws.Base.{ℕ, Bool, true, false, ◌||◌, not, none, some, if◌then◌else◌}
use xfo_lws.Base.Strings.{String, blank}
use xfo_lws.Base.Dict.{find, put}
use xfo_lws.Login.{Monero, value, error, parse_address}
use xfo_lws.Wire.{Rapidjson}
use xfo_lws.MultisigStore.{MultisigStore, DiskOutcome, register_wallet}
use xfo_lws.MultisigStore.Records.{MultisigWalletRecord}
use xfo_lws.Kex.{KexRecord, KexRecords}

pub record KexFinalizeRequest : Type 0 where
  pub wallet_id : String
  pub address : String
  pub context : String
  pub status : String

pub record KexFinalizeResponse : Type 0 where
  pub success : Bool
  pub message : String

abbrev pub status_of : KexFinalizeRequest → String
status_of req = if blank req.status then "active" else req.status

unfoldable pub finalize_record : ℕ → KexFinalizeRequest → KexRecord → KexRecord
finalize_record now req r = record r {
  address = req.address;
  state = status_of req;
  updated_at = now;
}

-- The wallet that multisig_kex_finalize registers.
unfoldable pub wallet_record : KexFinalizeRequest → KexRecord → MultisigWalletRecord
wallet_record req r = record {
  wallet_id = r.wallet_id;
  address = req.address;
  context = if blank req.context then r.context else req.context;
  threshold = r.threshold;
  total = r.total;
  participants = r.participants;
  status = status_of req;
  created_at = r.created_at;
}

-- multisig_kex_finalize::handle, with the multisig store; `saved` is the answer of the registry's
-- first save, and `disk` what happens to the store's file.
unfoldable pub kex_finalize :
    Monero
    → Rapidjson
    → Bool
    → DiskOutcome
    → ℕ
    → KexFinalizeRequest
    → KexRecords
    → MultisigStore
    → KexRecords × MultisigStore × KexFinalizeResponse
unfolding find put finalize_record wallet_record
kex_finalize monero json saved disk now req m store =
    if blank req.wallet_id || blank req.address
    then (m, store, record { success = false; message = "wallet_id and address are required" })
    else elim (parse_address monero req.address) [
      | error e ↦ (m, store, record { success = false; message = "Invalid multisig address" })
      | value parsed ↦ elim (find req.wallet_id m) [
        | none ↦ (
          m,
          store,
          record { success = false; message = "wallet_id is not registered in LWS KEX registry" },
        )
        | some previous ↦
            let snapshot = finalize_record now req previous in
            let m' = put req.wallet_id snapshot m in
            let (store', registered) =
              register_wallet json disk (wallet_record req snapshot) store in
            if not saved
            then (
              put req.wallet_id previous m',
              store,
              record {
                success = false;
                message = "Failed to persist finalized KEX registry state";
              },
            )
            else if registered
            then (
              m',
              store',
              record {
                success = true;
                message = "KEX wallet finalized and registered successfully";
              },
            )
            else (
              put req.wallet_id previous m',
              store',
              record { success = false; message = "Failed to register finalized KEX wallet" },
            )
      ]
    ]
