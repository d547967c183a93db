-- ===== src/Kex/File.antt =====
-- The file of the key exchange registry in src/rest_server.cpp: the JSON form of its records,
-- save_lws_multisig_kex_registry_locked and load_lws_multisig_kex_registry. A save writes another file
-- and renames it, so that one that fails leaves the file as it was.
use xfo_lws.Base.{ℕ, Bool, Option, none, some, List, [], ◌∷◌, if◌then◌else◌}
use xfo_lws.Base.Strings.{String, blank}
use xfo_lws.Base.Dict.{Dict, put}
use xfo_lws.Wire.{
  Value, text, unsigned, object, end, field, ◌>>=◌, read_string, read_unsigned, u32_limit,
  u64_limit, read_array, open_object, required, defaulted, array_field, Rapidjson,
}
use xfo_lws.MultisigStore.{from_bytes}
use xfo_lws.Kex.{KexPeer, KexRecord, KexRecords}

-- max_lws_multisig_kex_records, max_lws_multisig_kex_participants and max_lws_multisig_kex_peers
abbrev pub max_records : ℕ
max_records = 256

abbrev pub max_participants : ℕ
max_participants = 8

abbrev pub max_peers : ℕ
max_peers = 8

-- lws_multisig_kex_record_snapshot; a lws_multisig_kex_peer_snapshot has the fields of a peer.
pub record RecordSnapshot : Type 0 where
  pub wallet_id : String
  pub context : String
  pub threshold : ℕ
  pub total : ℕ
  pub participants : List String
  pub peers : List KexPeer
  pub address : String
  pub state : String
  pub created_at : ℕ
  pub updated_at : ℕ

unfoldable pub read_peer : Value → Option KexPeer
unfolding open_object required
read_peer v = do
  seen ← open_object ("participant" ∷ "multisig_info" ∷ "round" ∷ "updated_at" ∷ []) v
  participant ← required "participant" read_string seen
  multisig_info ← required "multisig_info" read_string seen
  round ← required "round" (read_unsigned u32_limit) seen
  updated_at ← required "updated_at" (read_unsigned u64_limit) seen
  some (record {
    participant = participant;
    multisig_info = multisig_info;
    round = round;
    updated_at = updated_at;
  })

unfoldable pub write_peer : KexPeer → Value
write_peer p = object (
    field "participant" (text p.participant) (
      field "multisig_info" (text p.multisig_info)
        (field "round" (unsigned p.round) (field "updated_at" (unsigned p.updated_at) end))))

unfoldable pub read_record : Value → Option RecordSnapshot
unfolding open_object required defaulted read_peer
read_record v = do
  seen ←
      open_object
        ("wallet_id" ∷ "context" ∷ "threshold" ∷ "total" ∷ "participants" ∷ "peers" ∷ "address"
          ∷ "state" ∷ "created_at" ∷ "updated_at" ∷ [])
        v
  wallet_id ← required "wallet_id" read_string seen
  context ← required "context" read_string seen
  threshold ← required "threshold" (read_unsigned u32_limit) seen
  total ← required "total" (read_unsigned u32_limit) seen
  participants ← defaulted "participants" (read_array read_string max_participants) [] seen
  peers ← defaulted "peers" (read_array read_peer max_peers) [] seen
  address ← defaulted "address" read_string "" seen
  state ← required "state" read_string seen
  created_at ← required "created_at" (read_unsigned u64_limit) seen
  updated_at ← required "updated_at" (read_unsigned u64_limit) seen
  some (record {
    wallet_id = wallet_id;
    context = context;
    threshold = threshold;
    total = total;
    participants = participants;
    peers = peers;
    address = address;
    state = state;
    created_at = created_at;
    updated_at = updated_at;
  })

unfoldable pub write_record : RecordSnapshot → Value
unfolding array_field write_peer
write_record r = object (
    field "wallet_id" (text r.wallet_id) (
      field "context" (text r.context) (
        field "threshold" (unsigned r.threshold) (
          field "total" (unsigned r.total) (
            array_field "participants" text r.participants (
              array_field "peers" write_peer r.peers (
                field "address" (text r.address) (
                  field "state" (text r.state) (
                    field "created_at" (unsigned r.created_at)
                      (field "updated_at" (unsigned r.updated_at) end))))))))))

-- read_bytes and write_bytes of lws_multisig_kex_registry_snapshot
unfoldable pub read_registry : Value → Option (List RecordSnapshot)
unfolding open_object defaulted read_record
read_registry v = do
  seen ← open_object ("records" ∷ []) v
  defaulted "records" (read_array read_record max_records) [] seen

unfoldable pub write_registry : List RecordSnapshot → Value
unfolding array_field write_record
write_registry rs = object (array_field "records" write_record rs end)

abbrev pub entries : {V : Type 0} → Dict V → List V
entries [] = []
entries ((k, v) ∷ m) = v ∷ entries m

abbrev pub record_snapshot : KexRecord → RecordSnapshot
record_snapshot r = record {
  wallet_id = r.wallet_id;
  context = r.context;
  threshold = r.threshold;
  total = r.total;
  participants = r.participants;
  peers = entries r.peers;
  address = r.address;
  state = r.state;
  created_at = r.created_at;
  updated_at = r.updated_at;
}

-- snapshot_lws_multisig_kex_locked
abbrev pub snapshot_registry : KexRecords → List RecordSnapshot
snapshot_registry [] = []
snapshot_registry ((k, r) ∷ m) = record_snapshot r ∷ snapshot_registry m

-- save_lws_multisig_kex_registry_locked, where the file system lets it or not: the file afterwards.
unfoldable pub save_registry : Rapidjson → Bool → KexRecords → Option String → Option String
unfolding write_registry
save_registry json saved m file =
    if saved then some (json.print (write_registry (snapshot_registry m))) else file

-- `record.peers[key] = peer` for each that has a name.
unfoldable pub load_peers : List KexPeer → Dict KexPeer → Dict KexPeer
unfolding put
load_peers [] m = m
load_peers (p ∷ ps) m = load_peers ps (if blank p.participant then m else put p.participant p m)

unfoldable pub load_record : RecordSnapshot → KexRecord
unfolding load_peers
load_record item = record {
  wallet_id = item.wallet_id;
  context = item.context;
  threshold = item.threshold;
  total = item.total;
  participants = item.participants;
  peers = load_peers item.peers [];
  address = item.address;
  state = item.state;
  created_at = item.created_at;
  updated_at = item.updated_at;
}

unfoldable pub load_records : List RecordSnapshot → KexRecords → KexRecords
unfolding put load_record
load_records [] m = m
load_records (item ∷ items) m =
    load_records items (if blank item.wallet_id then m else put item.wallet_id (load_record item) m)

-- load_lws_multisig_kex_registry, with the file that it finds and the registry of before.
unfoldable pub load_registry : Rapidjson → Option String → KexRecords → KexRecords
unfolding from_bytes read_registry load_records
load_registry json none m = m
load_registry json (some content) m =
    if blank content then m else elim (from_bytes json read_registry content) [
      | none ↦ m
      | some items ↦ load_records items []
    ]
