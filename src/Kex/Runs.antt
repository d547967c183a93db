-- ===== src/Kex/Runs.antt =====
-- The handlers of Kex on concrete requests.
use xfo_lws.Base.{
  Bool, ◌+◌, ◌≡◌, refl, true, false, none, some, List, [], ◌∷◌, if◌then◌else◌, arith, All,
}
use xfo_lws.Base.Strings.{String, ◌=?◌, blank, contains}
use xfo_lws.Base.Dict.{find, retain}
use xfo_lws.Login.{Monero, value, parse_address}
use xfo_lws.Wire.{Value, Rapidjson, ReadsBack}
use xfo_lws.Kex.File.{record_snapshot, save_registry, load_registry}
use xfo_lws.Kex.FileLaws.{PeerInRange, SnapshotInRange}
use xfo_lws.Kex.Reload.{document, load_registry-save_registry, load_registry_many_participants}
use xfo_lws.MultisigStore.{MultisigStore, written, not_opened, register_wallet, save_locked}
use xfo_lws.Registry.{evict}
use xfo_lws.Kex.{
  KexPeer, KexRecord, KexRecords, Environment, is_internal_kex_participant,
  expected_kex_token_for_participant, has_valid_kex_participant_auth, multisig_kex_is_expired,
  prune, kex_unix_seconds,
}
use xfo_lws.Kex.Submitting.{
  Saving, after_prune, KexSubmitRequest, check_submit, begin_record, add_peer, settle,
  submit_record, submit_locked, kex_submit,
}
use xfo_lws.Kex.Finalizing.{KexFinalizeRequest, finalize_record, wallet_record, kex_finalize}
use xfo_lws.Kex.Sound.{Inv}
use xfo_lws.Kex.Submit.{kex_submit-failed_save, kex_submit-authorized}
use xfo_lws.Kex.Kept.{found_or_empty}
use xfo_lws.Kex.Stored.{Holds, StateSays, kex_submit-stores, kex_submit-state}
use xfo_lws.Kex.Finalize.{kex_finalize-undone}
use xfo_lws.Kex.History.{Call, submits, asks, finalizes, run_kex, run_kex-Inv}

abbrev env : Environment
env name = if name =? "XFO_LWS_ORACLE_KEX_TOKEN" then "secret" else ""

-- A disk that takes the saves of a handler, or not.
abbrev saving : Bool → Saving
saving b = record {
  json = record { print = λ w. "{}"; parse = λ s. none };
  pruned = true;
  saved = b;
  file = none;
}

abbrev submit_oracle : KexSubmitRequest
submit_oracle = record {
  wallet_id = "w1";
  context = "task_payment";
  participant = "oracle";
  multisig_info = "infoO";
  round = 1;
  threshold = 2;
  total = 2;
  created_at = 5000;
  auth_token = "secret";
}

abbrev user_peer : KexPeer
user_peer = record { participant = "user"; multisig_info = "infoU"; round = 1; updated_at = 4990 }

abbrev started : KexRecord
started = record {
  wallet_id = "w1";
  context = "task_payment";
  threshold = 2;
  total = 2;
  participants = "user" ∷ "oracle" ∷ "pool" ∷ [];
  peers = ("user", user_peer) ∷ [];
  address = "";
  state = "pending_peers";
  created_at = 4980;
  updated_at = 4990;
}

abbrev active_record : KexRecord
active_record = record started { address = "5multi"; state = "active"; updated_at = 1 }

abbrev registry : KexRecords
registry = ("w1", started) ∷ ("w0", record active_record { wallet_id = "w0" }) ∷ []

registry-Inv : Inv registry
unfolding find contains
registry-Inv = record {
  keys = (refl, (refl, tt));
  records = (
    record {
      own_id = refl;
      named = refl;
      unique = (refl, tt);
      peers = (record { own_name = refl; named = refl; sent = refl; listed = refl }, tt);
      some_threshold = omega arith;
      reachable = omega arith;
      few = omega arith;
    },
    (
      record {
        own_id = refl;
        named = refl;
        unique = (refl, tt);
        peers = (record { own_name = refl; named = refl; sent = refl; listed = refl }, tt);
        some_threshold = omega arith;
        reachable = omega arith;
        few = omega arith;
      },
      tt,
    ),
  );
  bounded = omega arith;
}

submit_oracle-success : (kex_submit env (saving true) 5000 submit_oracle registry).1.success ≡ true
unfolding kex_submit after_prune check_submit has_valid_kex_participant_auth submit_locked
    submit_record prune multisig_kex_is_expired kex_unix_seconds retain evict find begin_record
    add_peer settle
submit_oracle-success = refl

checked : check_submit env submit_oracle ≡ none
unfolding check_submit has_valid_kex_participant_auth
checked = refl

w0_found : find "w0" registry ≡ some (record active_record { wallet_id = "w0" })
unfolding find
w0_found = refl

kex_submit-failed_save_example :
    let after = kex_submit env (saving false) 5000 submit_oracle registry in
    ((j : String) → find j after.0 ≡ find j (prune 5000 registry)) × (after.1.success ≡ false)
kex_submit-failed_save_example =
    kex_submit-failed_save env (saving false) 5000 submit_oracle registry registry-Inv refl checked

kex_submit-authorized_example :
    (submit_oracle.auth_token ≡ expected_kex_token_for_participant env submit_oracle.participant)
    × (blank submit_oracle.auth_token ≡ false)
unfolding is_internal_kex_participant
kex_submit-authorized_example =
    kex_submit-authorized env (saving true) 5000 submit_oracle registry submit_oracle-success refl

kex_submit-stores_example :
    ((kex_submit env (saving true) 5000 submit_oracle registry).2 ≡ some "{}")
    × ((r : KexRecord) × (find "w1" (kex_submit env (saving true) 5000 submit_oracle registry).0
          ≡ some r)
        × Holds 5000 submit_oracle (found_or_empty (find "w1" (prune 5000 registry))) r)
kex_submit-stores_example =
    kex_submit-stores env (saving true) 5000 submit_oracle registry submit_oracle-success

kex_submit-state_example :
    StateSays submit_oracle
      (find "w1" (prune 5000 registry))
      (kex_submit env (saving true) 5000 submit_oracle registry).0
      (kex_submit env (saving true) 5000 submit_oracle registry).1
kex_submit-state_example =
    kex_submit-state env (saving true) 5000 submit_oracle registry submit_oracle-success
      registry-Inv

abbrev monero : Monero
monero = record {
  secret_key_to_public_key = λ k. some (k + 1);
  get_account_address_as_str = λ a. "4main";
  get_account_address_from_str = λ s.
      if s =? "5multi"
      then some (record {
        address = record { view_public = 3; spend_public = 4 };
        is_subaddress = false;
        has_payment_id = false;
      })
      else none;
  fast_hash_hex = λ s. s;
}

abbrev json : Rapidjson
json = record { print = λ v. "{}"; parse = λ s. none }

abbrev empty_store : MultisigStore
empty_store = record { addresses = []; wallets = []; file = none }

abbrev finalize_w1 : KexFinalizeRequest
finalize_w1 = record { wallet_id = "w1"; address = "5multi"; context = ""; status = "" }

w1_found : find "w1" registry ≡ some started
unfolding find
w1_found = refl

multi_parsed : parse_address monero "5multi" ≡ value (record { view_public = 3; spend_public = 4 })
unfolding parse_address
multi_parsed = refl

finalize_success :
    (kex_finalize monero json true written 5000 finalize_w1 registry empty_store).2.success ≡ true
unfolding kex_finalize find parse_address register_wallet save_locked wallet_record finalize_record
finalize_success = refl

finalize_failure :
    (kex_finalize monero json true not_opened 5000 finalize_w1 registry empty_store).2.success
    ≡ false
unfolding kex_finalize find parse_address register_wallet save_locked wallet_record finalize_record
finalize_failure = refl

kex_finalize-undone_example :
    find "w1" (kex_finalize monero json true not_opened 5000 finalize_w1 registry empty_store).0
    ≡ find "w1" registry
kex_finalize-undone_example =
    kex_finalize-undone monero json true not_opened 5000 finalize_w1 registry empty_store
      finalize_failure "w1"

abbrev history : List Call
history =
    submits env (saving true) 5000 submit_oracle
    ∷ asks 5010 (record { wallet_id = "w1"; context = "" })
    ∷ finalizes true written 5020 finalize_w1
    ∷ []

run_kex-Inv_example : Inv (run_kex monero json (registry, empty_store) history).0
run_kex-Inv_example = run_kex-Inv monero json (registry, empty_store) history registry-Inv

-- A parser that knows one document.
abbrev json_of : Value → Rapidjson
json_of v = record { print = λ w. "{}"; parse = λ s. if s =? "" then none else some v }

json_of-ReadsBack : (v : Value) → ReadsBack (json_of v) v
json_of-ReadsBack v = record { parse-print = λ p. refl; parse-empty = refl }

abbrev crowded : KexRecords
crowded =
    (
      "w1",
      record started {
        participants = "user" ∷ "oracle" ∷ "pool" ∷ "dao" ∷ "a" ∷ "b" ∷ "c" ∷ "d" ∷ "e" ∷ [];
      },
    )
    ∷ []

load_registry-save_registry_example :
    load_registry
      (json_of (document registry))
      (save_registry (json_of (document registry)) true registry none)
      []
    ≡ registry
load_registry-save_registry_example =
    load_registry-save_registry (json_of (document registry)) registry []
      (json_of-ReadsBack (document registry)) registry-Inv
      (
        record { in_range = in_range; few_participants = omega arith; few_peers = omega arith },
        (
          record { in_range = in_range'; few_participants = omega arith; few_peers = omega arith },
          tt,
        ),
      )
  where
    peers : All PeerInRange (user_peer ∷ [])
    peers = (record { round = omega arith; updated_at = omega arith }, tt)

    in_range : SnapshotInRange (record_snapshot started)
    in_range = record {
      threshold = omega arith;
      total = omega arith;
      peers = peers;
      created_at = omega arith;
      updated_at = omega arith;
    }

    in_range' : SnapshotInRange (record_snapshot (record active_record { wallet_id = "w0" }))
    in_range' = record {
      threshold = omega arith;
      total = omega arith;
      peers = peers;
      created_at = omega arith;
      updated_at = omega arith;
    }

-- Nine participants.
load_registry_many_participants_example :
    load_registry
      (json_of (document crowded))
      (save_registry (json_of (document crowded)) true crowded none)
      []
    ≡ []
load_registry_many_participants_example =
    load_registry_many_participants (json_of (document crowded)) crowded [] [] []
      (record_snapshot (record started {
        participants = "user" ∷ "oracle" ∷ "pool" ∷ "dao" ∷ "a" ∷ "b" ∷ "c" ∷ "d" ∷ "e" ∷ [];
      }))
      (json_of-ReadsBack (document crowded))
      (
        record {
          threshold = omega arith;
          total = omega arith;
          peers = (record { round = omega arith; updated_at = omega arith }, tt);
          created_at = omega arith;
          updated_at = omega arith;
        },
        tt,
      )
      refl (omega arith)
