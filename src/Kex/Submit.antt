-- ===== src/Kex/Submit.antt =====
-- What multisig_kex_submit of src/rest_server.cpp leaves in the registry, and what it tells the caller.
use xfo_lws.Base.{
  ℕ, ◌≡◌, inl, inr, refl, sym, subst, ◌∙◌, true, false, not, none, some, ltb, leb, arith,
  Bool-cases, Option-cases,
}
use xfo_lws.Base.Strings.{String, ◌=?◌, =?_iff, =?_refl, blank}
use xfo_lws.Base.Dict.{
  find, put, erase, retain, size, IsUnique, find-put, find-put_ne, find-erase_ne, find-erase_self,
  put-IsUnique, retain-IsUnique, AllEntries-find, find-retain,
}
use xfo_lws.Registry.{max_entries, ttl_seconds}
use xfo_lws.Registry.Room.{evict_spares}
use xfo_lws.Kex.{
  KexRecord, empty_record, KexRecords, Environment, is_internal_kex_participant,
  expected_kex_token_for_participant, has_valid_kex_participant_auth, is_final,
  multisig_kex_is_expired, may_evict, last_update, prune,
}
use xfo_lws.Kex.Submitting.{
  Saving, after_prune, KexSubmitRequest, check_submit, wallet_id_of, begin_record, add_peer, settle,
  submit_record, submit_locked, kex_submit,
}
use xfo_lws.Kex.Sound.{Inv, IsSound, prune-Inv}
use xfo_lws.Kex.Kept.{kex_submit-Kept}

-- The prune keeps a record whose exchange is finished: it neither expires nor gives way to others.
pub prune-final :
    (now : ℕ) (m : KexRecords) (j : String) (r : KexRecord)
    → IsUnique m
    → is_final r.state ≡ true
    → find j m ≡ some r
    → find j (prune now m) ≡ some r
unfolding prune multisig_kex_is_expired
prune-final now m j r u final f = elim (Bool-cases (ltb ttl_seconds now)) [
  | inl late ↦ rw late (
      evict_spares may_evict last_update (size live) live j r
        (retain-IsUnique (λ q. not (multisig_kex_is_expired now q)) m u) (ground arith) kept)
  | inr early ↦ rw early kept
]
  where
    live : KexRecords
    live = retain (λ q. not (multisig_kex_is_expired now q)) m

    fresh : multisig_kex_is_expired now r ≡ false
    fresh = rw final refl

    kept : find j live ≡ some r
    kept = find-retain (λ q. not (multisig_kex_is_expired now q)) j m u ∙ rw f (rw fresh refl)

-- A value that is put over a key and then put back leaves every lookup as it was.
pub put_back :
    (k : String) (old new : KexRecord) (m : KexRecords) (j : String)
    → find k m ≡ some old
    → find j (put k old (put k new m)) ≡ find j m
put_back k old new m j e =
    ground (arith, find-put k j old (put k new m), find-put k j new m, =?_iff k j)

-- A new key that is erased again leaves every lookup as it was.
erase_back :
    (k : String) (new : KexRecord) (m : KexRecords) (j : String)
    → IsUnique m
    → find k m ≡ none
    → find j (erase k (put k new m)) ≡ find j m
erase_back k new m j u e = elim (Bool-cases (k =? j)) [
  | inl same ↦
      subst (λ i. find i (erase k (put k new m)) ≡ find i m) ((=?_iff k j).0 same)
        (find-erase_self k (put k new m) (put-IsUnique k new m u) ∙ sym e)
  | inr other ↦
      find-erase_ne k j (put k new m) (ground (arith, =?_iff k j))
      ∙ find-put_ne k j new m (ground (arith, =?_iff k j))
]

submit_record-unsaved :
    (d : Saving) (now : ℕ) (req : KexSubmitRequest) (k : String) (m : KexRecords) (old : KexRecord)
    (j : String)
    → d.saved ≡ false
    → find k m ≡ some old
    → (find j (submit_record d now req k (some old) old m).0 ≡ find j m)
      × ((submit_record d now req k (some old) old m).1.success ≡ false)
unfolding submit_record
submit_record-unsaved d now req k m old j f e = elim (Bool-cases (old.context =? req.context)) [
  | inl same ↦ rw same (rw f (put_back k old (settle req (add_peer now req old)) m j e, refl))
  | inr other ↦ rw other (ground (arith, find-put k j old m, =?_iff k j), refl)
]

-- After a submit whose save failed, every lookup in the registry answers as it did once the registry
-- was pruned, and the caller is told that it failed: no part of the submit stays.
pub kex_submit-failed_save :
    (env : Environment) (d : Saving) (now : ℕ) (req : KexSubmitRequest) (m : KexRecords)
    → Inv m
    → d.saved ≡ false
    → check_submit env req ≡ none
    → let after = kex_submit env d now req m in
      ((j : String) → find j after.0 ≡ find j (prune now m)) × (after.1.success ≡ false)
unfolding kex_submit after_prune submit_locked begin_record submit_record
kex_submit-failed_save env d now req m v f c =
    rw (c, kex_submit)
      (elim (Option-cases (find k p)) [
        | inl e ↦
            rw (e, submit_locked)
              (elim (Bool-cases (leb max_entries (size p))) [
                | inl full ↦ rw full (λ j. refl, refl)
                | inr room ↦ rw room (
                    rw (=?_refl req.context) (
                      rw f (
                        λ j.
                            erase_back k
                              (settle req (add_peer now req (begin_record now req k empty_record)))
                              p j (prune-Inv now m v).keys e,
                        refl,
                      )))
              ])
        | inr (old, e) ↦
            let named : blank old.wallet_id ≡ false =
              started k old (AllEntries-find IsSound k p (prune-Inv now m v).records e) in
            rw (e, submit_locked)
              (rw named (
                λ j. (submit_record-unsaved (after_prune d now m) now req k p old j f e).0,
                (submit_record-unsaved (after_prune d now m) now req k p old k f e).1,
              ))
      ])
  where
    k : String
    k = wallet_id_of req

    p : KexRecords
    p = prune now m

    started : (i : String) (r : KexRecord) → IsSound i r → blank r.wallet_id ≡ false
    started i r x = ground (arith, x.own_id, x.named)

authorized_lem :
    (env : Environment) (req : KexSubmitRequest)
    → check_submit env req ≡ none
    → is_internal_kex_participant req.participant ≡ true
    → (req.auth_token ≡ expected_kex_token_for_participant env req.participant)
      × (blank req.auth_token ≡ false)
unfolding check_submit has_valid_kex_participant_auth
authorized_lem env req c i =
    let same : req.auth_token ≡ expected_kex_token_for_participant env req.participant =
      ground
        (arith, =?_iff req.auth_token (expected_kex_token_for_participant env req.participant)) in
    (same, ground (arith, same))

module _ (env : Environment) (d : Saving) (now : ℕ) (req : KexSubmitRequest) (m : KexRecords)
    (h : (kex_submit env d now req m).1.success ≡ true) where
  -- Only a caller with the token that the environment sets for oracle, dao or pool can submit as one
  -- of them; an empty token is none.
  pub kex_submit-authorized :
      is_internal_kex_participant req.participant ≡ true
      → (req.auth_token ≡ expected_kex_token_for_participant env req.participant)
        × (blank req.auth_token ≡ false)
  kex_submit-authorized internal =
      authorized_lem env req (kex_submit-Kept env d now req m h).1.checked internal
