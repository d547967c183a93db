-- ===== src/Kex/Reporting.antt =====
-- The handler multisig_kex_status of src/rest_server.cpp.
use xfo_lws.Base.{ℕ, Bool, true, false, ◌&&◌, not, none, some, List, [], if◌then◌else◌}
use xfo_lws.Base.Strings.{String, ◌=?◌, blank}
use xfo_lws.Base.Dict.{find}
use xfo_lws.Kex.{KexRecords, prune, submitted_participants, missing_participants, max_round}

pub record KexStatusRequest : Type 0 where
  pub wallet_id : String
  pub context : String

pub record KexStatusResponse : Type 0 where
  pub success : Bool
  pub wallet_id : String
  pub context : String
  pub state : String
  pub threshold : ℕ
  pub total : ℕ
  pub participants : List String
  pub submitted_participants : List String
  pub missing_participants : List String
  pub round : ℕ
  pub address : String
  pub message : String
  pub created_at : ℕ
  pub updated_at : ℕ

abbrev pub no_status : KexStatusRequest → String → String → KexStatusResponse
no_status req state message = record {
  success = false;
  wallet_id = req.wallet_id;
  context = req.context;
  state = state;
  threshold = 0;
  total = 0;
  participants = [];
  submitted_participants = [];
  missing_participants = [];
  round = 0;
  address = "";
  message = message;
  created_at = 0;
  updated_at = 0;
}

-- multisig_kex_status::handle
unfoldable pub kex_status : ℕ → KexStatusRequest → KexRecords → KexRecords × KexStatusResponse
unfolding prune find submitted_participants missing_participants max_round
kex_status now req m =
    if blank req.wallet_id
    then (m, no_status req "failed" "wallet_id is required")
    else elim (find req.wallet_id (prune now m)) [
      | none ↦
          (prune now m, no_status req "not_found" "wallet_id is not registered in LWS KEX registry")
      | some r ↦
          if not (blank req.context) && not (r.context =? req.context)
          then (
            prune now m,
            record {
              success = false;
              wallet_id = req.wallet_id;
              context = req.context;
              state = "failed";
              threshold = r.threshold;
              total = r.total;
              participants = r.participants;
              submitted_participants = [];
              missing_participants = [];
              round = max_round r.peers;
              address = r.address;
              message = "wallet_id exists with a different context";
              created_at = r.created_at;
              updated_at = r.updated_at;
            },
          )
          else (
            prune now m,
            record {
              success = true;
              wallet_id = r.wallet_id;
              context = r.context;
              state = r.state;
              threshold = r.threshold;
              total = r.total;
              participants = r.participants;
              submitted_participants = submitted_participants r.peers;
              missing_participants = missing_participants r.peers r.participants;
              round = max_round r.peers;
              address = r.address;
              message = "LWS KEX status loaded";
              created_at = r.created_at;
              updated_at = r.updated_at;
            },
          )
    ]
