-- ===== src/Kex/Sound.antt =====
-- Records of the key exchange registry of src/rest_server.cpp that are well formed.
use Prim.Native.String
use xfo_lws.Base.{
  ℕ, ◌<◌, ◌≤◌, ◌≡◌, ◌≢◌, inl, inr, refl, sym, ◌∙◌, true, false, not, none, List, [], ◌∷◌, ◌++◌,
  if◌then◌else◌, ltb, arith, Bool-cases,
}
use xfo_lws.Base.Strings.{String, ◌=?◌, =?_iff, =?_refl, blank, contains}
use xfo_lws.Base.Dict.{
  Dict, retain, size, IsUnique, AllEntries, AllEntries-put, AllEntries-retain, put-IsUnique,
  retain-IsUnique, size-retain-le,
}
use xfo_lws.Registry.{max_entries, ttl_seconds}
use xfo_lws.Registry.Room.{evict-IsUnique, evict-AllEntries, size-evict-le}
use text.Mathlib.TextLemmas.{append-ne-nil_of_right_ne-nil, cons-ne-nil, cons-append}
use xfo_lws.Kex.{
  KexPeer, KexRecord, empty_record, KexRecords, Environment, multisig_kex_is_expired, may_evict,
  last_update, prune,
}
use xfo_lws.Kex.Submitting.{
  KexSubmitRequest, check_submit, wallet_id_of, begin_record, add_peer, settle,
}

-- A peer that the record lists has sent its info, and is one of the participants.
pub record PeerSound (participants : List String) (k : String) (p : KexPeer) : Type 0 where
  pub own_name : p.participant ≡ k
  pub named : blank k ≡ false
  pub sent : blank p.multisig_info ≡ false
  pub listed : contains k participants ≡ true

pub record IsSound (k : String) (r : KexRecord) : Type 0 where
  pub own_id : r.wallet_id ≡ k
  pub named : blank k ≡ false
  pub unique : IsUnique r.peers
  pub peers : AllEntries (PeerSound r.participants) r.peers
  pub some_threshold : 0 < r.threshold
  pub reachable : r.threshold ≤ r.total
  pub few : r.total ≤ 8

pub record Inv (m : KexRecords) : Type 0 where
  pub keys : IsUnique m
  pub records : AllEntries IsSound m
  pub bounded : size m ≤ max_entries

pub prune-Inv : (now : ℕ) (m : KexRecords) → Inv m → Inv (prune now m)
unfolding prune
prune-Inv now m v = elim (Bool-cases (ltb ttl_seconds now)) [
  | inl late ↦ rw late (record {
    keys = evict-IsUnique may_evict last_update (size live) live keys';
    records = evict-AllEntries may_evict last_update IsSound (size live) live records';
    bounded =
        omega (arith, v.bounded, size-evict-le may_evict last_update (size live) live, smaller);
  })
  | inr early ↦
      rw early
        (record { keys = keys'; records = records'; bounded = omega (arith, smaller, v.bounded) })
]
  where
    live : KexRecords
    live = retain (λ r. not (multisig_kex_is_expired now r)) m

    keys' : IsUnique live
    keys' = retain-IsUnique (λ r. not (multisig_kex_is_expired now r)) m v.keys

    records' : AllEntries IsSound live
    records' = AllEntries-retain IsSound (λ r. not (multisig_kex_is_expired now r)) m v.records

    smaller : size live ≤ size m
    smaller = size-retain-le (λ r. not (multisig_kex_is_expired now r)) m

contains-append_left :
    (s : String) (xs ys : List String) → contains s xs ≡ true → contains s (xs ++ ys) ≡ true
unfolding contains
contains-append_left s [] ys h = absurd (cc)
contains-append_left s (x ∷ xs) ys h = ground (arith, contains-append_left s xs ys)

contains-append_self : (s : String) (xs : List String) → contains s (xs ++ s ∷ []) ≡ true
unfolding contains
contains-append_self s [] = ground (arith, =?_refl s)
contains-append_self s (x ∷ xs) = ground (arith, contains-append_self s xs)

-- The participants after add_peer.
abbrev pub joined : String → List String → List String
joined p ps = if contains p ps then ps else ps ++ p ∷ []

pub contains-joined_self : (p : String) (ps : List String) → contains p (joined p ps) ≡ true
contains-joined_self p ps = elim (Bool-cases (contains p ps)) [
  | inl h ↦ rw h h
  | inr h ↦ rw h (contains-append_self p ps)
]

contains-joined_old :
    (p s : String) (ps : List String) → contains s ps ≡ true → contains s (joined p ps) ≡ true
contains-joined_old p s ps e = elim (Bool-cases (contains p ps)) [
  | inl h ↦ rw h e
  | inr h ↦ rw h (contains-append_left s ps (p ∷ []) e)
]

PeerSound-joined :
    (p : String) (ps : List String) (peers : Dict KexPeer)
    → AllEntries (PeerSound ps) peers
    → AllEntries (PeerSound (joined p ps)) peers
PeerSound-joined p ps [] h = tt
PeerSound-joined p ps ((k, q) ∷ peers) h = (
  record {
    own_name = h.0.own_name;
    named = h.0.named;
    sent = h.0.sent;
    listed = contains-joined_old p k ps h.0.listed;
  },
  PeerSound-joined p ps peers h.1,
)

-- What the checks of multisig_kex_submit establish.
pub record Checked (req : KexSubmitRequest) : Type 0 where
  pub context : blank req.context ≡ false
  pub participant : blank req.participant ≡ false
  pub info : blank req.multisig_info ≡ false
  pub some_threshold : 0 < req.threshold
  pub reachable : req.threshold ≤ req.total
  pub few : req.total ≤ 8

pub check_submit-Checked :
    (env : Environment) (req : KexSubmitRequest) → check_submit env req ≡ none → Checked req
unfolding check_submit
check_submit-Checked env req e = record {
  context = ground arith;
  participant = ground arith;
  info = ground arith;
  some_threshold = ground arith;
  reachable = ground arith;
  few = ground arith;
}

-- A record before its fields are set: sound, or just made.
pub record IsStarted (k : String) (r : KexRecord) : Type 0 where
  pub own_id : r.wallet_id ≡ k
  pub named : blank k ≡ false
  pub unique : IsUnique r.peers
  pub peers : AllEntries (PeerSound r.participants) r.peers

pub settled-IsSound :
    (now : ℕ) (req : KexSubmitRequest) (k : String) (r : KexRecord)
    → Checked req
    → IsStarted k r
    → IsSound k (settle req (add_peer now req r))
unfolding settle add_peer
settled-IsSound now req k r c v = elim (Bool-cases (r.state =? "active")) [
  | inl act ↦ rw act sound
  | inr other ↦ rw other (record {
    own_id = sound.own_id;
    named = sound.named;
    unique = sound.unique;
    peers = sound.peers;
    some_threshold = sound.some_threshold;
    reachable = sound.reachable;
    few = sound.few;
  })
]
  where
    sound : IsSound k (add_peer now req r)
    sound = record {
      own_id = v.own_id;
      named = v.named;
      unique = put-IsUnique req.participant _ r.peers v.unique;
      peers =
          AllEntries-put (PeerSound (joined req.participant r.participants)) req.participant _
            r.peers (PeerSound-joined req.participant r.participants r.peers v.peers)
            (record {
              own_name = refl;
              named = c.participant;
              sent = c.info;
              listed = contains-joined_self req.participant r.participants;
            });
      some_threshold = c.some_threshold;
      reachable = c.reachable;
      few = c.few;
    }

pub begin_record-new :
    (now : ℕ) (req : KexSubmitRequest) (k : String)
    → blank k ≡ false
    → IsStarted k (begin_record now req k empty_record)
unfolding begin_record
begin_record-new now req k named = record { own_id = refl; named = named; unique = tt; peers = tt }

pub begin_record-old :
    (now : ℕ) (req : KexSubmitRequest) (k : String) (r : KexRecord)
    → IsSound k r
    → begin_record now req k r ≡ r
unfolding begin_record
begin_record-old now req k r v =
    let kept : blank r.wallet_id ≡ false = ground (arith, v.own_id, v.named) in rw kept

pub colon-ne-nil : (s : String) → String.◌++◌ ":" s ≢ ""
colon-ne-nil s p = cons-ne-nil _ _ (sym (cons-append _ "" s) ∙ p)

pub wallet_id_of-named : (req : KexSubmitRequest) → blank (wallet_id_of req) ≡ false
wallet_id_of-named req = elim (Bool-cases (blank req.wallet_id)) [
  | inl e ↦
      rw e (elim (Bool-cases (blank (String.◌++◌ req.context (String.◌++◌ ":" req.participant)))) [
        | inl e' ↦ absurd (
            append-ne-nil_of_right_ne-nil req.context (colon-ne-nil req.participant)
              ((=?_iff (String.◌++◌ req.context (String.◌++◌ ":" req.participant)) "").0 e'))
        | inr e' ↦ e'
      ])
  | inr e ↦ rw e e
]
