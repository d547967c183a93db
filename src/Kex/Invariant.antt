-- ===== src/Kex/Invariant.antt =====
-- The key exchange registry of src/rest_server.cpp stays well formed and bounded.
use xfo_lws.Base.{ℕ, ◌<◌, ◌≤◌, ◌≡◌, inl, inr, none, some, leb, arith, Bool-cases, Option-cases}
use xfo_lws.Base.Strings.{String, ◌=?◌, =?_refl}
use xfo_lws.Base.Dict.{
  find, put, erase, size, AllEntries-find, AllEntries-put, AllEntries-erase, erase-IsUnique,
  size-erase-le, put-IsUnique, size-put_new, size-put_old, find-put_self,
}
use xfo_lws.Registry.{max_entries}
use xfo_lws.Kex.{KexRecord, empty_record, KexRecords, Environment, prune}
use xfo_lws.Kex.Submitting.{
  Saving, after_prune, KexSubmitRequest, check_submit, wallet_id_of, begin_record, add_peer, settle,
  submit_record, submit_locked, kex_submit,
}
use xfo_lws.Kex.Sound.{
  IsSound, Inv, prune-Inv, Checked, check_submit-Checked, settled-IsSound, begin_record-new,
  begin_record-old, wallet_id_of-named,
}

pub put-Inv :
    (k : String) (r : KexRecord) (m : KexRecords)
    → Inv m
    → size (put k r m) ≤ max_entries
    → IsSound k r
    → Inv (put k r m)
put-Inv k r m v b s = record {
  keys = put-IsUnique k r m v.keys;
  records = AllEntries-put IsSound k r m v.records s;
  bounded = b;
}

erase-Inv : (k : String) (m : KexRecords) → Inv m → Inv (erase k m)
erase-Inv k m v = record {
  keys = erase-IsUnique k m v.keys;
  records = AllEntries-erase IsSound k m v.records;
  bounded = omega (arith, v.bounded, size-erase-le k m);
}

submit_new-Inv :
    (d : Saving) (now : ℕ) (req : KexSubmitRequest) (m : KexRecords)
    → Checked req
    → Inv m
    → find (wallet_id_of req) m ≡ none
    → size m < max_entries
    → Inv
        (submit_record d now req
          (wallet_id_of req)
          none
          (begin_record now req (wallet_id_of req) empty_record)
          m).0
unfolding submit_record begin_record
submit_new-Inv d now req m c v e room = rw (=?_refl req.context) (elim (Bool-cases d.saved) [
  | inl ok ↦ rw ok stored
  | inr failed ↦ rw failed (erase-Inv k (put k after m) stored)
])
  where
    k : String
    k = wallet_id_of req

    after : KexRecord
    after = settle req (add_peer now req (begin_record now req k empty_record))

    stored : Inv (put k after m)
    stored = put-Inv k after m v (omega (arith, size-put_new k after m e, room)) (
        settled-IsSound now req k (begin_record now req k empty_record) c
          (begin_record-new now req k (wallet_id_of-named req)))

submit_old-Inv :
    (d : Saving) (now : ℕ) (req : KexSubmitRequest) (m : KexRecords) (old : KexRecord)
    → Checked req
    → Inv m
    → find (wallet_id_of req) m ≡ some old
    → Inv (submit_record d now req (wallet_id_of req) (some old) old m).0
unfolding submit_record
submit_old-Inv d now req m old c v e = elim (Bool-cases (old.context =? req.context)) [
  | inl same ↦
      rw same
        (elim (Bool-cases d.saved) [ inl ok ↦ rw ok stored | inr failed ↦ rw failed restored ])
  | inr other ↦ rw other (at_key old was)
]
  where
    k : String
    k = wallet_id_of req

    was : IsSound k old
    was = AllEntries-find IsSound k m v.records e

    after : KexRecord
    after = settle req (add_peer now req old)

    at_key : (r : KexRecord) → IsSound k r → Inv (put k r m)
    at_key r = put-Inv k r m v (omega (arith, size-put_old k r m e, v.bounded))

    stored : Inv (put k after m)
    stored = at_key after (
        settled-IsSound now req k old c (record {
          own_id = was.own_id;
          named = was.named;
          unique = was.unique;
          peers = was.peers;
        }))

    restored : Inv (put k old (put k after m))
    restored =
        put-Inv k old (put k after m) stored
          (omega
            (arith, stored.bounded, size-put_old k old (put k after m) (find-put_self k after m)))
          was

submit_locked-Inv :
    (d : Saving) (now : ℕ) (req : KexSubmitRequest) (m : KexRecords)
    → Checked req
    → Inv m
    → Inv (submit_locked d now req m).0
unfolding submit_locked
submit_locked-Inv d now req m c v = elim (Option-cases (find (wallet_id_of req) m)) [
  | inl e ↦
      rw (e, submit_locked)
        (elim (Bool-cases (leb max_entries (size m))) [
          | inl full ↦ rw full v
          | inr room ↦ rw room (submit_new-Inv d now req m c v e (ground arith))
        ])
  | inr (old, e) ↦
      rw (e, submit_locked)
        (rw
          (begin_record-old now req (wallet_id_of req) old
            (AllEntries-find IsSound (wallet_id_of req) m v.records e))
          (submit_old-Inv d now req m old c v e))
]

pub kex_submit-Inv :
    (env : Environment) (d : Saving) (now : ℕ) (req : KexSubmitRequest) (m : KexRecords)
    → Inv m
    → Inv (kex_submit env d now req m).0
unfolding kex_submit
kex_submit-Inv env d now req m v = elim (Option-cases (check_submit env req)) [
  | inl e ↦
      rw (e, kex_submit)
        (submit_locked-Inv (after_prune d now m) now req (prune now m)
          (check_submit-Checked env req e) (prune-Inv now m v))
  | inr (refusal, e) ↦ rw (e, kex_submit) v
]
