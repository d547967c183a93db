-- ===== src/Kex.antt =====
-- The multisig key exchange registry of src/rest_server.cpp: lws_multisig_kex_records with
-- prune_lws_multisig_kex_locked, and the handlers multisig_kex_submit, multisig_kex_status and
-- multisig_kex_finalize (requests and responses: src/rpc/multisig.h).
-- A handler's work under the mutex is one step. What a handler sees of
-- save_lws_multisig_kex_registry_locked is its answer, which is an argument; the file is in Kex/File.
pub mod Submitting
pub mod Reporting
pub mod Finalizing
pub mod Sound
pub mod File
pub mod FileLaws
pub mod Reload
pub mod Invariant
pub mod Kept
pub mod Submit
pub mod Stored
pub mod Finalize
pub mod History
pub mod Runs
use Prim.Native.String
use Prim.Native.String.{compare}
use Prim.Native.Nat.{Ordering}
use xfo_lws.Base.{
  ℕ, zero, suc, ◌+◌, ◌-◌, ◌*◌, ◌/◌, ◌%◌, ◌^◌, Bool, true, false, ◌&&◌, ◌||◌, not, Option, none,
  some, List, [], ◌∷◌, ◌++◌, if◌then◌else◌, ltb, leb, ◌==◌, max, length,
}
use xfo_lws.Base.Strings.{String, ◌=?◌, blank, contains}
use xfo_lws.Base.Dict.{Dict, find, put, erase, retain, size}
use xfo_lws.Login.{Monero, value, error, parse_address}
use xfo_lws.Registry.{max_entries, ttl_seconds, evict}
use xfo_lws.Wire.{Rapidjson}
use xfo_lws.MultisigStore.{MultisigStore, DiskOutcome, register_wallet}
use xfo_lws.MultisigStore.Records.{MultisigWalletRecord}

pub record KexPeer : Type 0 where
  pub participant : String
  pub multisig_info : String
  pub round : ℕ
  pub updated_at : ℕ

pub record KexRecord : Type 0 where
  pub wallet_id : String
  pub context : String
  pub threshold : ℕ
  pub total : ℕ
  pub participants : List String
  pub peers : Dict KexPeer
  pub address : String
  pub state : String
  pub created_at : ℕ
  pub updated_at : ℕ

abbrev pub empty_record : KexRecord
empty_record = record {
  wallet_id = "";
  context = "";
  threshold = 0;
  total = 0;
  participants = [];
  peers = [];
  address = "";
  state = "";
  created_at = 0;
  updated_at = 0;
}

abbrev pub KexRecords : Type 0
KexRecords = Dict KexRecord

-- std::getenv, with an empty text for a name that is not set (env_or_empty).
abbrev pub Environment : Type 0
Environment = String → String

pub is_internal_kex_participant : String → Bool
is_internal_kex_participant p = (p =? "oracle") || ((p =? "dao") || (p =? "pool"))

pub expected_kex_token_for_participant : Environment → String → String
expected_kex_token_for_participant env p =
    if p =? "oracle"
    then env "XFO_LWS_ORACLE_KEX_TOKEN"
    else if p =? "dao"
    then env "XFO_LWS_DAO_KEX_TOKEN"
    else if p =? "pool"
    then env "XFO_LWS_POOL_KEX_TOKEN"
    else ""

pub has_valid_kex_participant_auth : Environment → String → String → Bool
unfolding is_internal_kex_participant expected_kex_token_for_participant
has_valid_kex_participant_auth env p token =
    if not (is_internal_kex_participant p)
    then true
    else not (blank (expected_kex_token_for_participant env p))
      && (token =? expected_kex_token_for_participant env p)

-- Times in milliseconds are brought to seconds.
pub kex_unix_seconds : ℕ → ℕ
kex_unix_seconds t = if ltb 100_000_000_000 t then t / 1000 else t

-- The states that the prune spares.
abbrev pub is_final : String → Bool
is_final state = (state =? "active") || (state =? "finalized")

pub multisig_kex_is_expired : ℕ → KexRecord → Bool
unfolding kex_unix_seconds
multisig_kex_is_expired now r =
    let last_seen = max (kex_unix_seconds r.created_at) (kex_unix_seconds r.updated_at) in
    if is_final r.state
    then false
    else last_seen == 0 || ltb ((last_seen + ttl_seconds) % 2 ^ 64) now

abbrev pub may_evict : KexRecord → Bool
may_evict r = not (is_final r.state)

abbrev pub last_update : KexRecord → ℕ
last_update r = r.updated_at

-- prune_lws_multisig_kex_locked; whether its save succeeds is ignored.
pub prune : ℕ → KexRecords → KexRecords
unfolding multisig_kex_is_expired
prune now m =
    let live = retain (λ r. not (multisig_kex_is_expired now r)) m in
    if ltb ttl_seconds now then evict may_evict last_update (size live) live else live

pub participants_for_kex : String → String → List String
participants_for_kex context participant =
    if context =? "task_payment"
    then participant ∷ "oracle" ∷ "pool" ∷ []
    else participant ∷ "oracle" ∷ "dao" ∷ []

-- peer_infos_for_round, over the record's peers.
pub peer_infos_for_round : String → ℕ → Dict KexPeer → List String
peer_infos_for_round participant round [] = []
peer_infos_for_round participant round ((k, p) ∷ peers) =
    if (k =? participant) || (not (p.round == round) || blank p.multisig_info)
    then peer_infos_for_round participant round peers
    else p.multisig_info ∷ peer_infos_for_round participant round peers

-- std::sort of texts by `<`.
abbrev pub text_less : String → String → Bool
text_less a b = elim (compare a b) [ Ordering.lt ↦ true | _ ↦ false ]

pub insert_sorted : String → List String → List String
insert_sorted s [] = s ∷ []
insert_sorted s (x ∷ xs) = if text_less x s then x ∷ insert_sorted s xs else s ∷ x ∷ xs

pub submitted_participants : Dict KexPeer → List String
unfolding insert_sorted
submitted_participants [] = []
submitted_participants ((k, p) ∷ peers) =
    if blank p.multisig_info
    then submitted_participants peers
    else insert_sorted k (submitted_participants peers)

-- missing_participants_for_kex, over the record's participants.
pub missing_participants : Dict KexPeer → List String → List String
unfolding find
missing_participants peers [] = []
missing_participants peers (p ∷ ps) = elim (find p peers) [
  | none ↦ p ∷ missing_participants peers ps
  | some q ↦
      if blank q.multisig_info
      then p ∷ missing_participants peers ps
      else missing_participants peers ps
]

pub max_round : Dict KexPeer → ℕ
max_round [] = 0
max_round ((k, p) ∷ peers) = max (max_round peers) p.round
