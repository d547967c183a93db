-- ===== src/Kex/Stored.antt =====
-- What multisig_kex_submit of src/rest_server.cpp has stored when it tells a success.
use xfo_lws.Base.{
  ℕ, ◌-◌, ◌≡◌, inl, inr, refl, sym, ap, ◌∙◌, subst, Bool, true, false, ◌&&◌, not, Option, none,
  some, List, [], ◌∷◌, if◌then◌else◌, leb, ◌==◌, arith, Bool-cases, Option-cases, length,
}
use xfo_lws.Base.Strings.{String, ◌=?◌, =?_iff, blank, contains}
use xfo_lws.Base.Dict.{
  Dict, find, retain, size, AllEntries, AllEntries-find, find-put_self, find-put_ne,
}
use xfo_lws.Kex.{KexPeer, KexRecord, KexRecords, Environment, prune, peer_infos_for_round}
use xfo_lws.Kex.File.{save_registry}
use xfo_lws.Kex.Reload.{document}
use xfo_lws.Kex.Submitting.{
  Saving, KexSubmitRequest, KexResponse, wallet_id_of, round_of, begin_record, add_peer,
  required_peer_count, settle, kex_submit,
}
use xfo_lws.Kex.Sound.{Inv, IsSound, PeerSound, prune-Inv, begin_record-old, contains-joined_self}
use xfo_lws.Kex.Kept.{found_or_empty, kex_submit-Kept}
use xfo_lws.Kex.Invariant.{kex_submit-Inv}

-- The record that a kept submit leaves for its wallet, over `old` or the empty record.
pub record Holds (now : ℕ) (req : KexSubmitRequest) (old r : KexRecord) : Type 0 where
  pub context : r.context ≡ req.context
  pub threshold : r.threshold ≡ req.threshold
  pub total : r.total ≡ req.total
  pub listed : contains req.participant r.participants ≡ true
  pub peer :
      find req.participant r.peers
      ≡ some (record {
        participant = req.participant;
        multisig_info = req.multisig_info;
        round = round_of req;
        updated_at = now;
      })
  pub others : (j : String) → (req.participant =? j) ≡ false → find j r.peers ≡ find j old.peers

begin_record-peers :
    (now : ℕ) (req : KexSubmitRequest) (k : String) (r : KexRecord)
    → (begin_record now req k r).peers ≡ r.peers
unfolding begin_record
begin_record-peers now req k r = elim (Bool-cases (blank r.wallet_id)) [
  | inl e ↦ rw e refl
  | inr e ↦ rw e refl
]

settled-Holds :
    (now : ℕ) (req : KexSubmitRequest) (old r : KexRecord)
    → r.context ≡ req.context
    → r.peers ≡ old.peers
    → Holds now req old (settle req (add_peer now req r))
unfolding settle add_peer
settled-Holds now req old r c same = elim (Bool-cases (r.state =? "active")) [
  | inl act ↦ rw act holds
  | inr other ↦ rw other (record {
    context = holds.context;
    threshold = holds.threshold;
    total = holds.total;
    listed = holds.listed;
    peer = holds.peer;
    others = holds.others;
  })
]
  where
    holds : Holds now req old (add_peer now req r)
    holds = record {
      context = c;
      threshold = refl;
      total = refl;
      listed = contains-joined_self req.participant r.participants;
      peer = find-put_self req.participant _ r.peers;
      others = λ j ne.
          find-put_ne req.participant j _ r.peers (ground (arith, =?_iff req.participant j, ne))
          ∙ ap (find j) same;
    }

-- A peer that is another participant, with an info of the round.
abbrev pub sent_by_other : String → ℕ → KexPeer → Bool
sent_by_other me round p =
    not (p.participant =? me) && ((p.round == round) && not (blank p.multisig_info))

abbrev pub others_of_round : KexSubmitRequest → KexRecord → Dict KexPeer
others_of_round req r = retain (sent_by_other req.participant (round_of req)) r.peers

abbrev pub infos_of : Dict KexPeer → List String
infos_of [] = []
infos_of ((k, p) ∷ peers) = p.multisig_info ∷ infos_of peers

length-infos_of : (peers : Dict KexPeer) → length (infos_of peers) ≡ size peers
length-infos_of [] = refl
length-infos_of ((k, p) ∷ peers) = ground (arith, length-infos_of peers)

peer_infos_for_round-sent_by_other :
    (me : String) (round : ℕ) (names : List String) (peers : Dict KexPeer)
    → AllEntries (PeerSound names) peers
    → peer_infos_for_round me round peers ≡ infos_of (retain (sent_by_other me round) peers)
unfolding peer_infos_for_round retain
peer_infos_for_round-sent_by_other me round names [] h = refl
peer_infos_for_round-sent_by_other me round names ((k, p) ∷ peers) h =
    let rest = peer_infos_for_round-sent_by_other me round names peers h.1 in
    let own : (p.participant =? me) ≡ (k =? me) = ap (λ i. i =? me) h.0.own_name in
    elim (Bool-cases (k =? me)) [
      | inl e ↦ rw e (rw (own ∙ e) rest)
      | inr e ↦ rw e (
          rw (own ∙ e) (elim (Bool-cases (p.round == round)) [
            | inr other ↦ rw other rest
            | inl same ↦ rw same (elim (Bool-cases (blank p.multisig_info)) [
              | inl none_sent ↦ rw none_sent rest
              | inr given ↦ rw given (ap (λ infos. p.multisig_info ∷ infos) rest)
            ])
          ]))
    ]

-- Whether the record that was there is active.
abbrev pub is_active : Option KexRecord → Bool
is_active none = false
is_active (some r) = r.state =? "active"

-- The state that a record has after a submit, from what was there and from the infos of the others.
abbrev pub state_after : KexSubmitRequest → Option KexRecord → ℕ → String
state_after req previous sent =
    if is_active previous
    then "active"
    else if leb (req.total - 1) sent
    then "ready_to_make"
    else "pending_peers"

settle-peers : (req : KexSubmitRequest) (r : KexRecord) → (settle req r).peers ≡ r.peers
unfolding settle
settle-peers req r = elim (Bool-cases (r.state =? "active")) [
  | inl act ↦ rw act refl
  | inr other ↦ rw other refl
]

settle-state :
    (req : KexSubmitRequest) (r : KexRecord) (names : List String)
    → AllEntries (PeerSound names) r.peers
    → r.total ≡ req.total
    → (settle req r).state ≡ (
        if r.state =? "active"
        then "active"
        else if leb (req.total - 1) (size (others_of_round req r))
        then "ready_to_make"
        else "pending_peers")
unfolding settle
settle-state req r names sound total = elim (Bool-cases (r.state =? "active")) [
  | inl act ↦ rw act ((=?_iff r.state "active").0 act)
  | inr other ↦
      let infos = peer_infos_for_round req.participant (round_of req) r.peers in
      let count : length infos ≡ size (others_of_round req r) =
        ap (λ l. length l)
          (peer_infos_for_round-sent_by_other req.participant (round_of req) names r.peers sound)
        ∙ length-infos_of (others_of_round req r) in
      let same : leb (required_peer_count r) (length infos)
          ≡ leb (req.total - 1) (size (others_of_round req r)) =
        ground (arith, count, total) in
      rw other (ap (λ (b : Bool). if b then "ready_to_make" else "pending_peers") same)
]

-- What the answer to a submit says of the record that it leaves.
pub record StateSays (req : KexSubmitRequest) (previous : Option KexRecord) (m' : KexRecords)
    (answer : KexResponse) : Type 0 where
  pub left : KexRecord
  pub found : find (wallet_id_of req) m' ≡ some left
  pub answered : answer.state ≡ left.state
  pub infos : answer.peer_multisig_info ≡ infos_of (others_of_round req left)
  pub state : left.state ≡ state_after req previous (size (others_of_round req left))

begun-active :
    (now : ℕ) (req : KexSubmitRequest) (p : KexRecords)
    → Inv p
    → ((begin_record now req (wallet_id_of req) (found_or_empty (find (wallet_id_of req) p))).state
        =? "active")
      ≡ is_active (find (wallet_id_of req) p)
unfolding begin_record
begun-active now req p v = elim (Option-cases (find (wallet_id_of req) p)) [
  | inl e ↦ rw e refl
  | inr (old, e) ↦ rw e (
      rw
        (begin_record-old now req (wallet_id_of req) old
          (AllEntries-find IsSound (wallet_id_of req) p v.records e))
        refl)
]

module _ (env : Environment) (d : Saving) (now : ℕ) (req : KexSubmitRequest) (m : KexRecords)
    (h : (kex_submit env d now req m).1.success ≡ true) where
  -- A submit that is told a success has written the whole registry, as it is afterwards, to the file.
  -- The wallet's record has the caller's context and thresholds, lists the caller, and holds what the
  -- caller sent, with the infos of the other participants as they were.
  pub kex_submit-stores :
      ((kex_submit env d now req m).2
        ≡ some (d.json.print (document (kex_submit env d now req m).0)))
      × ((r : KexRecord) × (find (wallet_id_of req) (kex_submit env d now req m).0 ≡ some r)
          × Holds now req (found_or_empty (find (wallet_id_of req) (prune now m))) r)
  unfolding save_registry
  kex_submit-stores =
      let (start, kept) = kex_submit-Kept env d now req m h in
      let r : KexRecord = settle req (add_peer now req start) in
      let old = found_or_empty (find (wallet_id_of req) (prune now m)) in
      (
        ap (λ (x : KexRecords × KexResponse × Option String). x.2) kept.result
            ∙ ap
                (λ (x : KexRecords × KexResponse × Option String).
                  some (d.json.print (document x.0)))
                (sym kept.result),
        (
          r,
          ap (λ (x : KexRecords × KexResponse × Option String). find (wallet_id_of req) x.0)
                kept.result
              ∙ find-put_self (wallet_id_of req) r (prune now m),
          settled-Holds now req old start kept.same_context (
              ap (λ (x : KexRecord). x.peers) kept.begun
              ∙ begin_record-peers now req (wallet_id_of req) old),
        ),
      )

  -- In a well-formed registry, a submit that is told a success answers with the state of the wallet's
  -- record and with the infos that the other participants have sent for its round. The state is
  -- `active` if the record was, and otherwise `ready_to_make` when these are total - 1 at least and
  -- `pending_peers` when they are fewer.
  pub kex_submit-state :
      Inv m
      → StateSays req
          (find (wallet_id_of req) (prune now m))
          (kex_submit env d now req m).0
          (kex_submit env d now req m).1
  unfolding add_peer
  kex_submit-state v =
      let (start, kept) = kex_submit-Kept env d now req m h in
      let k = wallet_id_of req in
      let after = kex_submit env d now req m in
      let begun : KexRecord = add_peer now req start in
      let r : KexRecord = settle req begun in
      let found : find k after.0 ≡ some r =
        ap (λ (x : KexRecords × KexResponse × Option String). find k x.0) kept.result
        ∙ find-put_self k r (prune now m) in
      let sound : IsSound k r =
        AllEntries-find IsSound k after.0 (kex_submit-Inv env d now req m v).records found in
      let peers : AllEntries (PeerSound r.participants) begun.peers =
        subst (AllEntries (PeerSound r.participants)) (settle-peers req begun) sound.peers in
      let active : (start.state =? "active") ≡ is_active (find k (prune now m)) =
        ap (λ (x : KexRecord). x.state =? "active") kept.begun
        ∙ begun-active now req (prune now m) (prune-Inv now m v) in
      record {
        left = r;
        found = found;
        answered = ap (λ (x : KexRecords × KexResponse × Option String). x.1.state) kept.result;
        infos =
            ap (λ (x : KexRecords × KexResponse × Option String). x.1.peer_multisig_info)
              kept.result
            ∙ peer_infos_for_round-sent_by_other req.participant (round_of req) r.participants
                r.peers sound.peers;
        state =
            settle-state req begun r.participants peers refl
            ∙ ap
                (λ (b : Bool).
                  if b
                  then "active"
                  else if leb (req.total - 1) (size (others_of_round req begun))
                  then "ready_to_make"
                  else "pending_peers")
                active
            ∙ ap
                (λ ps.
                  state_after req (find k (prune now m))
                    (size (retain (sent_by_other req.participant (round_of req)) ps)))
                (sym (settle-peers req begun));
      }
