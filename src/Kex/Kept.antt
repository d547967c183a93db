-- ===== src/Kex/Kept.antt =====
-- What a multisig_kex_submit of src/rest_server.cpp that is told a success has done.
use xfo_lws.Base.{
  ℕ, ◌≡◌, inl, inr, refl, sym, ap, ◌∙◌, true, false, Option, none, some, leb, arith, Bool-cases,
  Option-cases,
}
use xfo_lws.Base.Strings.{String, ◌=?◌, =?_iff}
use xfo_lws.Base.Dict.{find, put, size}
use xfo_lws.Registry.{max_entries}
use xfo_lws.Kex.{KexRecord, empty_record, KexRecords, Environment, prune, peer_infos_for_round}
use xfo_lws.Kex.File.{save_registry}
use xfo_lws.Kex.Submitting.{
  Saving, after_prune, KexSubmitRequest, KexResponse, check_submit, wallet_id_of, round_of,
  begin_record, add_peer, settle, submit_message, submit_record, submit_locked, kex_submit,
}

-- The answer to a submit that is kept.
abbrev pub kept_answer : KexSubmitRequest → String → KexRecord → KexResponse
kept_answer req k r = record {
  success = true;
  wallet_id = k;
  state = r.state;
  threshold = r.threshold;
  total = r.total;
  participants = r.participants;
  peer_multisig_info = peer_infos_for_round req.participant (round_of req) r.peers;
  message = submit_message r.state;
  created_at = r.created_at;
}

-- What stood under the wallet's id, or the empty record of `operator[]`.
abbrev pub found_or_empty : Option KexRecord → KexRecord
found_or_empty none = empty_record
found_or_empty (some old) = old

-- The record that a kept submit leaves, from the one that was there or was begun.
abbrev kept_record : ℕ → KexSubmitRequest → KexRecord → KexRecord
kept_record now req start = settle req (add_peer now req start)

abbrev kept_result :
    Saving
    → ℕ
    → KexSubmitRequest
    → KexRecords
    → KexRecord
    → KexRecords × KexResponse × Option String
kept_result d now req m start =
    let m' = put (wallet_id_of req) (kept_record now req start) m in
    (
      m',
      kept_answer req (wallet_id_of req) (kept_record now req start),
      save_registry d.json true m' none,
    )

-- What a submit that is told a success has done, to a record `start` that was there or was begun.
pub record Kept (env : Environment) (d : Saving) (now : ℕ) (req : KexSubmitRequest) (m : KexRecords)
    (start : KexRecord) : Type 0 where
  pub checked : check_submit env req ≡ none
  pub on_disk : d.saved ≡ true
  pub begun :
      start
      ≡ begin_record now req
          (wallet_id_of req)
          (found_or_empty (find (wallet_id_of req) (prune now m)))
  pub same_context : start.context ≡ req.context
  pub result : kex_submit env d now req m ≡ kept_result d now req (prune now m) start

submit_record-success :
    (d : Saving) (now : ℕ) (req : KexSubmitRequest) (previous : Option KexRecord) (r : KexRecord)
    (m : KexRecords)
    → (submit_record d now req (wallet_id_of req) previous r m).1.success ≡ true
    → (d.saved ≡ true)
      × (r.context ≡ req.context)
      × (submit_record d now req (wallet_id_of req) previous r m ≡ kept_result d now req m r)
unfolding submit_record save_registry
submit_record-success d now req previous r m h = elim (Bool-cases (r.context =? req.context)) [
  | inl same ↦ elim (Bool-cases d.saved) [
    | inl ok ↦ (ok, (=?_iff r.context req.context).0 same, rw (same, submit_record) (rw ok refl))
    | inr failed ↦ absurd (ground arith)
  ]
  | inr other ↦ absurd (ground arith)
]

check_submit-refuses :
    (env : Environment) (req : KexSubmitRequest) (refusal : KexResponse)
    → check_submit env req ≡ some refusal
    → refusal.success ≡ false
unfolding check_submit
check_submit-refuses env req refusal e = ground arith

submit_locked-success :
    (d : Saving) (now : ℕ) (req : KexSubmitRequest) (m : KexRecords)
    → (submit_locked d now req m).1.success ≡ true
    → let start =
        begin_record now req (wallet_id_of req) (found_or_empty (find (wallet_id_of req) m)) in
      (d.saved ≡ true)
      × (start.context ≡ req.context)
      × (submit_locked d now req m ≡ kept_result d now req m start)
unfolding submit_locked
submit_locked-success d now req m h = elim (Option-cases (find (wallet_id_of req) m)) [
  | inl e ↦ elim (Bool-cases (leb max_entries (size m))) [
    | inl full ↦ absurd (ground arith)
    | inr room ↦ rw e (found none empty_record (rw (e, submit_locked) (rw room refl)))
  ]
  | inr (old, e) ↦ rw e (found (some old) old (rw (e, submit_locked) refl))
]
  where
    k : String
    k = wallet_id_of req

    found :
        (previous : Option KexRecord) (old : KexRecord)
        → submit_locked d now req m
          ≡ submit_record d now req k previous (begin_record now req k old) m
        → (d.saved ≡ true)
          × ((begin_record now req k old).context ≡ req.context)
          × (submit_locked d now req m ≡ kept_result d now req m (begin_record now req k old))
    found previous old same =
        let (ok, c, e) =
          submit_record-success d now req previous (begin_record now req k old) m
            (sym (ap (λ (x : KexRecords × KexResponse × Option String). x.1.success) same) ∙ h) in
        (ok, c, same ∙ e)

-- A submit that is told a success was kept.
pub kex_submit-Kept :
    (env : Environment) (d : Saving) (now : ℕ) (req : KexSubmitRequest) (m : KexRecords)
    → (kex_submit env d now req m).1.success ≡ true
    → (start : KexRecord) × Kept env d now req m start
unfolding kex_submit after_prune
kex_submit-Kept env d now req m h = elim (Option-cases (check_submit env req)) [
  | inl c ↦
      let same : kex_submit env d now req m
          ≡ submit_locked (after_prune d now m) now req (prune now m) =
        rw (c, kex_submit) refl in
      let (ok, context, e) =
        submit_locked-success (after_prune d now m) now req (prune now m)
          (sym (ap (λ (x : KexRecords × KexResponse × Option String). x.1.success) same) ∙ h) in
      (
        _,
        record {
          checked = c;
          on_disk = ok;
          begun = refl;
          same_context = context;
          result = same ∙ e;
        },
      )
  | inr (refusal, c) ↦ absurd (ground (arith, check_submit-refuses env req refusal c))
]
