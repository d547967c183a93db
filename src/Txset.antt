-- ===== src/Txset.antt =====
-- The unstake transaction sets of src/rest_server.cpp: lws_unstake_txsets with
-- prune_lws_unstake_txsets_locked, and the handlers multisig_txset_register,
-- multisig_txset_signature and multisig_txset_submit (requests and responses: src/rpc/multisig.h).
-- A handler holds the mutex from its prune on, and looks at no shared data before, so it is one step.
pub mod Registering
pub mod Signing
pub mod Submitting
pub mod Sound
pub mod Invariant
pub mod History
pub mod Signature
pub mod Runs
use Prim.Native.Char.{code}
use Prim.Native.String.{len}
use Prim.Native.String
use xfo_lws.Base.{
  ℕ, ◌+◌, ◌*◌, ◌%◌, ◌^◌, ◌≡◌, Bool, true, false, ◌&&◌, ◌||◌, not, Option, none, some, List, [], ◌∷◌,
  if◌then◌else◌, ltb, leb, ◌==◌, max,
}
use xfo_lws.Base.Strings.{String, ◌=?◌, blank}
use xfo_lws.Base.Dict.{Dict, find, put, erase, retain, size}
use xfo_lws.Login.{
  Monero, Accounts, AccountAddress, AccountCredentials, Expect, value, error, ◌>>=◌, open_account,
  parse_address,
}
use xfo_lws.Registry.{max_entries, ttl_seconds, evict}
use text.Mathlib.Text.{starts_with}

pub record TxsetRecord : Type 0 where
  pub owner_address : String
  pub wallet_id : String
  pub multisig_address : String
  pub txset_id : String
  pub tx_data_hash : String
  pub miner_address : String
  pub state : String
  pub collected_signatures : ℕ
  pub required_signatures : ℕ
  pub signed_tx_data_hash : String
  pub submitted_tx_hash : String
  pub created_at : ℕ
  pub updated_at : ℕ

-- What `operator[]` puts at a new key.
abbrev pub empty_record : TxsetRecord
empty_record = record {
  owner_address = "";
  wallet_id = "";
  multisig_address = "";
  txset_id = "";
  tx_data_hash = "";
  miner_address = "";
  state = "";
  collected_signatures = 0;
  required_signatures = 0;
  signed_tx_data_hash = "";
  submitted_tx_hash = "";
  created_at = 0;
  updated_at = 0;
}

abbrev pub Txsets : Type 0
Txsets = Dict TxsetRecord

-- std::isxdigit
abbrev pub is_xdigit : ℕ → Bool
is_xdigit c =
    (leb b'0' c && leb c b'9') || ((leb b'a' c && leb c b'f') || (leb b'A' c && leb c b'F'))

pub all_xdigit : String → Bool
all_xdigit String.[] = true
all_xdigit (String.◌∷◌ c s) = is_xdigit (code c) && all_xdigit s

pub is_hex_string : String → Bool
unfolding all_xdigit
is_hex_string s = not (blank s) && all_xdigit s

pub stable_txset_id : Monero → String → String → String → String
stable_txset_id monero wallet_id multisig_address tx_data_hex = String.◌++◌ wallet_id (
    String.◌++◌ ":"
      (String.◌++◌ multisig_address (String.◌++◌ ":" (monero.fast_hash_hex tx_data_hex))))

pub txset_content_hash : Monero → String → String
txset_content_hash monero tx_data_hex = monero.fast_hash_hex tx_data_hex

-- Times are uint64_t, and so is the sum.
pub txset_is_expired : ℕ → TxsetRecord → Bool
txset_is_expired now r =
    let last_seen = max r.created_at r.updated_at in
    last_seen == 0 || ltb ((last_seen + ttl_seconds) % 2 ^ 64) now

-- Every record may be evicted.
abbrev pub any_record : TxsetRecord → Bool
any_record r = true

abbrev pub last_update : TxsetRecord → ℕ
last_update r = r.updated_at

pub prune : ℕ → Txsets → Txsets
unfolding txset_is_expired
prune now m =
    let live = retain (λ r. not (txset_is_expired now r)) m in
    if ltb ttl_seconds now then evict any_record last_update (size live) live else live
