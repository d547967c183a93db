-- ===== src/Kex/History.antt =====
-- Any history of calls of the key exchange handlers (src/rest_server.cpp).
use xfo_lws.Base.{
  ℕ, ◌≡◌, inl, inr, Bool, ◌&&◌, ◌||◌, not, some, List, [], ◌∷◌, arith, Bool-cases, Option-cases,
}
use xfo_lws.Base.Strings.{String, ◌=?◌, blank}
use xfo_lws.Base.Dict.{find, put, AllEntries-find, size-put_old, find-put_self}
use xfo_lws.Login.{Monero, parse_address, Expect-cases}
use xfo_lws.Wire.{Rapidjson}
use xfo_lws.MultisigStore.{MultisigStore, DiskOutcome, register_wallet}
use xfo_lws.Kex.{KexRecord, KexRecords, Environment, prune}
use xfo_lws.Kex.Submitting.{Saving, KexSubmitRequest, kex_submit}
use xfo_lws.Kex.Reporting.{KexStatusRequest, kex_status}
use xfo_lws.Kex.Finalizing.{KexFinalizeRequest, finalize_record, wallet_record, kex_finalize}
use xfo_lws.Kex.Invariant.{put-Inv, kex_submit-Inv}
use xfo_lws.Kex.Sound.{Inv, IsSound, prune-Inv}

kex_status-Inv :
    (now : ℕ) (req : KexStatusRequest) (m : KexRecords) → Inv m → Inv (kex_status now req m).0
unfolding kex_status
kex_status-Inv now req m v = elim (Bool-cases (blank req.wallet_id)) [
  | inl missing ↦ rw (missing, kex_status) v
  | inr given ↦ elim (Option-cases (find req.wallet_id (prune now m))) [
    | inl absent ↦ rw (given, kex_status) (rw absent (prune-Inv now m v))
    | inr (r, found) ↦
        elim (Bool-cases (not (blank req.context) && not (r.context =? req.context))) [
          | inl other ↦ rw (given, kex_status) (rw found (rw other (prune-Inv now m v)))
          | inr same ↦ rw (given, kex_status) (rw found (rw same (prune-Inv now m v)))
        ]
  ]
]

module _ (monero : Monero) (json : Rapidjson) (saved : Bool) (disk : DiskOutcome) (now : ℕ)
    (req : KexFinalizeRequest) (m : KexRecords) (store : MultisigStore) where
  finalize_record-IsSound :
      (k : String) (r : KexRecord) → IsSound k r → IsSound k (finalize_record now req r)
  unfolding finalize_record
  finalize_record-IsSound k r v = record {
    own_id = v.own_id;
    named = v.named;
    unique = v.unique;
    peers = v.peers;
    some_threshold = v.some_threshold;
    reachable = v.reachable;
    few = v.few;
  }

  kex_finalize-Inv : Inv m → Inv (kex_finalize monero json saved disk now req m store).0
  unfolding kex_finalize
  kex_finalize-Inv v = elim (Bool-cases (blank req.wallet_id || blank req.address)) [
    | inl missing ↦ rw (missing, kex_finalize) v
    | inr given ↦ elim (Expect-cases (parse_address monero req.address)) [
      | inr (e, bad) ↦ rw (given, kex_finalize) (rw bad v)
      | inl (a, ok) ↦ elim (Option-cases (find req.wallet_id m)) [
        | inl absent ↦ rw (given, kex_finalize) (rw ok (rw absent v))
        | inr (r, found) ↦ elim (Bool-cases saved) [
          | inr unsaved ↦
              rw (given, kex_finalize) (rw ok (rw found (rw unsaved (restored r found))))
          | inl kept ↦
              elim (Bool-cases
                (register_wallet json disk (wallet_record req (finalize_record now req r))
                  store).1) [
                    | inl registered ↦
                        rw (given, kex_finalize)
                          (rw ok (rw found (rw kept (rw registered (stored r found)))))
                    | inr refused ↦
                        rw (given, kex_finalize)
                          (rw ok (rw found (rw kept (rw refused (restored r found)))))
                  ]
        ]
      ]
    ]
  ]
    where
      stored :
          (r : KexRecord)
          → find req.wallet_id m ≡ some r
          → Inv (put req.wallet_id (finalize_record now req r) m)
      stored r found =
          put-Inv req.wallet_id (finalize_record now req r) m v
            (omega
              (arith, v.bounded, size-put_old req.wallet_id (finalize_record now req r) m found))
            (finalize_record-IsSound req.wallet_id r
              (AllEntries-find IsSound req.wallet_id m v.records found))

      restored :
          (r : KexRecord)
          → find req.wallet_id m ≡ some r
          → Inv (put req.wallet_id r (put req.wallet_id (finalize_record now req r) m))
      restored r found =
          put-Inv req.wallet_id r (put req.wallet_id (finalize_record now req r) m) (stored r found)
            (omega (
              arith,
              (stored r found).bounded,
              size-put_old req.wallet_id r (put req.wallet_id (finalize_record now req r) m)
                  (find-put_self req.wallet_id (finalize_record now req r) m),
            ))
            (AllEntries-find IsSound req.wallet_id m v.records found)

-- One call, with the clock, the file, and the answers of the disk and of the environment at its time.
pub data Call : Type 0 where
  submits : Environment → Saving → ℕ → KexSubmitRequest → Call
  asks : ℕ → KexStatusRequest → Call
  finalizes : Bool → DiskOutcome → ℕ → KexFinalizeRequest → Call

pub step : Monero → Rapidjson → KexRecords × MultisigStore → Call → KexRecords × MultisigStore
unfolding kex_submit kex_status kex_finalize
step monero json (m, store) (submits env d now req) = ((kex_submit env d now req m).0, store)
step monero json (m, store) (asks now req) = ((kex_status now req m).0, store)
step monero json (m, store) (finalizes saved disk now req) =
    let (m', store', answer) = kex_finalize monero json saved disk now req m store in (m', store')

pub run_kex :
    Monero → Rapidjson → KexRecords × MultisigStore → List Call → KexRecords × MultisigStore
unfolding step
run_kex monero json s [] = s
run_kex monero json s (c ∷ cs) = run_kex monero json (step monero json s c) cs

step-Inv :
    (monero : Monero) (json : Rapidjson) (m : KexRecords) (store : MultisigStore) (c : Call)
    → Inv m
    → Inv (step monero json (m, store) c).0
unfolding step
step-Inv monero json m store (submits env d now req) v = kex_submit-Inv env d now req m v
step-Inv monero json m store (asks now req) v = kex_status-Inv now req m v
step-Inv monero json m store (finalizes saved disk now req) v =
    kex_finalize-Inv monero json saved disk now req m store v

-- After any history of calls, by any callers, at any times and whatever saves fail, the registry holds
-- 128 records at most, under distinct ids that are their own and not empty; each has thresholds
-- 1 <= threshold <= total <= 8, and each peer it holds is a listed participant, under its own name
-- and no other's, with an info that is not empty.
pub run_kex-Inv :
    (monero : Monero) (json : Rapidjson) (s : KexRecords × MultisigStore) (cs : List Call)
    → Inv s.0
    → Inv (run_kex monero json s cs).0
unfolding run_kex
run_kex-Inv monero json s [] v = v
run_kex-Inv monero json s (c ∷ cs) v =
    run_kex-Inv monero json (step monero json s c) cs (step-Inv monero json s.0 s.1 c v)
