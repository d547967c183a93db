-- ===== src/Kex/Submitting.antt =====
-- The handler multisig_kex_submit of src/rest_server.cpp.
use Prim.Native.String
use Prim.Native.String.{compare}
use xfo_lws.Base.{
  ℕ, ◌-◌, ◌*◌, ◌%◌, ◌^◌, Bool, true, false, ◌||◌, not, Option, none, some, List, [], ◌∷◌, ◌++◌,
  if◌then◌else◌, ltb, leb, ◌==◌, length,
}
use xfo_lws.Base.Strings.{String, ◌=?◌, blank, contains}
use xfo_lws.Base.Dict.{find, put, erase, size}
use xfo_lws.Wire.{Rapidjson}
use xfo_lws.Registry.{max_entries}
use xfo_lws.Kex.File.{save_registry}
use xfo_lws.Kex.{
  KexRecord, empty_record, KexRecords, Environment, has_valid_kex_participant_auth, prune,
  participants_for_kex, peer_infos_for_round,
}

pub record KexSubmitRequest : Type 0 where
  pub wallet_id : String
  pub context : String
  pub participant : String
  pub multisig_info : String
  pub round : ℕ
  pub threshold : ℕ
  pub total : ℕ
  pub created_at : ℕ
  pub auth_token : String

-- What the saves of the handler work with: rapidjson, whether the file system lets the save of the prune
-- and that of the handler, and the registry's file.
pub record Saving : Type 0 where
  pub json : Rapidjson
  pub pruned : Bool
  pub saved : Bool
  pub file : Option String

pub record KexResponse : Type 0 where
  pub success : Bool
  pub wallet_id : String
  pub state : String
  pub threshold : ℕ
  pub total : ℕ
  pub participants : List String
  pub peer_multisig_info : List String
  pub message : String
  pub created_at : ℕ

abbrev pub refuse_submit : KexSubmitRequest → String → String → KexResponse
refuse_submit req wallet_id message = record {
  success = false;
  wallet_id = wallet_id;
  state = "failed";
  threshold = req.threshold;
  total = req.total;
  participants = [];
  peer_multisig_info = [];
  message = message;
  created_at = req.created_at;
}

-- The checks before the lock.
unfoldable pub check_submit : Environment → KexSubmitRequest → Option KexResponse
unfolding has_valid_kex_participant_auth
check_submit env req =
    if blank req.context || (blank req.participant || blank req.multisig_info)
    then some
        (refuse_submit req req.wallet_id "context, participant and multisig_info are required")
    else if (req.threshold == 0)
        || ((req.total == 0) || (ltb req.total req.threshold || ltb 8 req.total))
    then some (refuse_submit req req.wallet_id "invalid multisig threshold/total")
    else if not (has_valid_kex_participant_auth env req.participant req.auth_token)
    then some (refuse_submit req req.wallet_id "unauthorized KEX participant submit")
    else none

abbrev pub wallet_id_of : KexSubmitRequest → String
wallet_id_of req =
    if blank req.wallet_id
    then String.◌++◌ req.context (String.◌++◌ ":" req.participant)
    else req.wallet_id

abbrev pub round_of : KexSubmitRequest → ℕ
round_of req = if req.round == 0 then 1 else req.round

-- A record that is new (its wallet_id is empty) gets its first fields.
unfoldable pub begin_record : ℕ → KexSubmitRequest → String → KexRecord → KexRecord
unfolding participants_for_kex
begin_record now req wallet_id r =
    if blank r.wallet_id
    then record r {
      wallet_id = wallet_id;
      context = req.context;
      threshold = req.threshold;
      total = req.total;
      participants = participants_for_kex req.context req.participant;
      state = "pending_peers";
      created_at = if req.created_at == 0 then (now * 1000) % 2 ^ 64 else req.created_at;
    }
    else r

-- The record with the caller's peer info in it, before its state is settled.
unfoldable pub add_peer : ℕ → KexSubmitRequest → KexRecord → KexRecord
unfolding contains put
add_peer now req r = record r {
  threshold = req.threshold;
  total = req.total;
  updated_at = now;
  participants =
      if contains req.participant r.participants
      then r.participants
      else r.participants ++ req.participant ∷ [];
  peers =
      put req.participant
        (record {
          participant = req.participant;
          multisig_info = req.multisig_info;
          round = round_of req;
          updated_at = now;
        })
        r.peers;
}

abbrev pub required_peer_count : KexRecord → ℕ
required_peer_count r = if leb r.total 1 then 0 else r.total - 1

unfoldable pub settle : KexSubmitRequest → KexRecord → KexRecord
unfolding peer_infos_for_round
settle req r = if r.state =? "active" then r else record r {
  state =
      if leb (required_peer_count r)
        (length (peer_infos_for_round req.participant (round_of req) r.peers))
      then "ready_to_make"
      else "pending_peers";
}

abbrev pub submit_message : String → String
submit_message state =
    if state =? "ready_to_make"
    then "LWS KEX peer info is ready for local WASM multisig make/exchange"
    else "LWS KEX peer info stored; waiting for remaining participants"

-- The handler from `record` on: `previous` is what stood at the wallet's id, and `r` the record, whose
-- reference `operator[]` has put into the map.
unfoldable pub submit_record :
    Saving
    → ℕ
    → KexSubmitRequest
    → String
    → Option KexRecord
    → KexRecord
    → KexRecords
    → KexRecords × KexResponse × Option String
unfolding add_peer settle put erase save_registry
submit_record d now req wallet_id previous r m =
    let r' = settle req (add_peer now req r) in
    let file = save_registry d.json d.saved (put wallet_id r' m) d.file in
    if not (r.context =? req.context)
    then (
      put wallet_id r m,
      record {
        success = false;
        wallet_id = wallet_id;
        state = "failed";
        threshold = r.threshold;
        total = r.total;
        participants = r.participants;
        peer_multisig_info = [];
        message = "wallet_id already exists with a different context";
        created_at = r.created_at;
      },
      d.file,
    )
    else if d.saved
    then (
      put wallet_id r' m,
      record {
        success = true;
        wallet_id = wallet_id;
        state = r'.state;
        threshold = r'.threshold;
        total = r'.total;
        participants = r'.participants;
        peer_multisig_info = peer_infos_for_round req.participant (round_of req) r'.peers;
        message = submit_message r'.state;
        created_at = r'.created_at;
      },
      file,
    )
    else (
      elim previous [
        | some old ↦ put wallet_id old (put wallet_id r' m)
        | none ↦ erase wallet_id (put wallet_id r' m)
      ],
      record {
        success = false;
        wallet_id = wallet_id;
        state = "failed";
        threshold = r'.threshold;
        total = r'.total;
        participants = r'.participants;
        peer_multisig_info = [];
        message = "failed to persist LWS multisig KEX registry";
        created_at = r'.created_at;
      },
      file,
    )

-- From the lock on, on the pruned registry.
unfoldable pub submit_locked :
    Saving → ℕ → KexSubmitRequest → KexRecords → KexRecords × KexResponse × Option String
unfolding submit_record begin_record find
submit_locked d now req m =
    let wallet_id = wallet_id_of req in
    elim (find wallet_id m) [
      | none ↦
          if leb max_entries (size m)
          then (m, refuse_submit req wallet_id "LWS multisig KEX registry capacity reached", d.file)
          else submit_record d now req wallet_id none (begin_record now req wallet_id empty_record)
              m
      | some old ↦
          submit_record d now req wallet_id (some old) (begin_record now req wallet_id old) m
    ]

-- The prune of the registry, which saves it if a record was erased: the file afterwards.
unfoldable pub after_prune : Saving → ℕ → KexRecords → Saving
unfolding prune save_registry
after_prune d now m = record d {
  file =
      if size (prune now m) == size m
      then d.file
      else save_registry d.json d.pruned (prune now m) d.file;
}

-- multisig_kex_submit::handle: the registry afterwards, the answer, and the file.
unfoldable pub kex_submit :
    Environment
    → Saving
    → ℕ
    → KexSubmitRequest
    → KexRecords
    → KexRecords × KexResponse × Option String
unfolding check_submit submit_locked prune after_prune
kex_submit env d now req m = elim (check_submit env req) [
  | some refusal ↦ (m, refusal, d.file)
  | none ↦ submit_locked (after_prune d now m) now req (prune now m)
]
