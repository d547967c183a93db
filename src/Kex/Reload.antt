-- ===== src/Kex/Reload.antt =====
-- The key exchange registry of src/rest_server.cpp at the next start, from the file that was saved.
use xfo_lws.Base.{
  suc, ◌<◌, ◌≡◌, refl, sym, ap, ◌∙◌, subst, true, false, Option, none, some, List, [], ◌∷◌, ◌++◌,
  if◌then◌else◌, Bool-cases, inl, inr, length, All, arith,
}
use mathlib.Core.List.{append-nil, append_assoc}
use xfo_lws.Base.Strings.{String, =?_iff, blank}
use xfo_lws.Base.Dict.{Dict, put, size, IsUnique, AllEntries}
use xfo_lws.Base.Rebuilt.{put-fresh, Apart, Apart-grow, Apart-nil}
use xfo_lws.Wire.{Value, Rapidjson, ReadsBack}
use xfo_lws.MultisigStore.{from_bytes}
use xfo_lws.Kex.{KexPeer, KexRecord, KexRecords}
use xfo_lws.Kex.File.{
  max_participants, RecordSnapshot, read_registry, write_registry, entries, record_snapshot,
  snapshot_registry, save_registry, load_peers, load_record, load_records, load_registry,
}
use xfo_lws.Kex.FileLaws.{
  SnapshotInRange, SnapshotFits, read_registry-write_registry, read_registry_many_participants,
  IsPlain-write_registry,
}
use xfo_lws.Kex.Sound.{PeerSound, IsSound, Inv}

load_peers-entries :
    (names : List String) (m done : Dict KexPeer)
    → IsUnique m
    → AllEntries (PeerSound names) m
    → Apart done m
    → load_peers (entries m) done ≡ done ++ m
unfolding load_peers
load_peers-entries names [] done u s h = sym (append-nil done)
load_peers-entries names ((k, p) ∷ m) done u s h =
    let named : blank p.participant ≡ false =
      subst (λ n. blank n ≡ false) (sym s.0.own_name) s.0.named in
    let placed : put p.participant p done ≡ done ++ (k, p) ∷ [] =
      ap (λ n. put n p done) s.0.own_name ∙ put-fresh k p done h.0 in
    ap (λ b. load_peers (entries m) (if b then done else put p.participant p done)) named
    ∙ ap (load_peers (entries m)) placed
    ∙ load_peers-entries names m (done ++ (k, p) ∷ []) u.1 s.1 (Apart-grow k p done m u.0 h.1)
    ∙ append_assoc done ((k, p) ∷ []) m

load_record-record_snapshot :
    (k : String) (r : KexRecord) → IsSound k r → load_record (record_snapshot r) ≡ r
unfolding load_record
load_record-record_snapshot k r s =
    ap (λ ps. record r { peers = ps })
      (load_peers-entries r.participants r.peers [] s.unique s.peers (Apart-nil r.peers))

load_records-snapshot_registry :
    (m done : KexRecords)
    → IsUnique m
    → AllEntries IsSound m
    → Apart done m
    → load_records (snapshot_registry m) done ≡ done ++ m
unfolding load_records
load_records-snapshot_registry [] done u s h = sym (append-nil done)
load_records-snapshot_registry ((k, r) ∷ m) done u s h =
    let named : blank r.wallet_id ≡ false =
      subst (λ n. blank n ≡ false) (sym s.0.own_id) s.0.named in
    let placed : put r.wallet_id (load_record (record_snapshot r)) done ≡ done ++ (k, r) ∷ [] =
      ap (λ z. put r.wallet_id z done) (load_record-record_snapshot k r s.0)
      ∙ ap (λ n. put n r done) s.0.own_id
      ∙ put-fresh k r done h.0 in
    ap
      (λ b.
        load_records (snapshot_registry m)
          (if b then done else put r.wallet_id (load_record (record_snapshot r)) done))
      named
    ∙ ap (load_records (snapshot_registry m)) placed
    ∙ load_records-snapshot_registry m (done ++ (k, r) ∷ []) u.1 s.1 (Apart-grow k r done m u.0 h.1)
    ∙ append_assoc done ((k, r) ∷ []) m

length-snapshot_registry : (m : KexRecords) → length (snapshot_registry m) ≡ size m
length-snapshot_registry [] = refl
length-snapshot_registry ((k, r) ∷ m) = ap suc (length-snapshot_registry m)

abbrev pub document : KexRecords → Value
document m = write_registry (snapshot_registry m)

-- The text of a saved registry is read as its document.
from_bytes-document :
    (json : Rapidjson) (m : KexRecords)
    → ReadsBack json (document m)
    → All SnapshotInRange (snapshot_registry m)
    → (blank (json.print (document m)) ≡ false)
      × (from_bytes json read_registry (json.print (document m)) ≡ read_registry (document m))
unfolding from_bytes
from_bytes-document json m back range =
    let parsed = back.parse-print (IsPlain-write_registry (snapshot_registry m) range) in
    (
      elim (Bool-cases (blank (json.print (document m)))) [
        | inl e ↦ absurd (
            cc
              (parsed, back.parse-empty, ap json.parse ((=?_iff (json.print (document m)) "").0 e)))
        | inr e ↦ e
      ],
      ap (λ o. elim o [ none ↦ none | some v ↦ read_registry v ]) parsed,
    )

load_saved :
    (json : Rapidjson) (m before : KexRecords) (o : Option (List RecordSnapshot))
    → ReadsBack json (document m)
    → All SnapshotInRange (snapshot_registry m)
    → read_registry (document m) ≡ o
    → load_registry json (save_registry json true m none) before
      ≡ (elim o [ none ↦ before | some items ↦ load_records items [] ])
unfolding load_registry save_registry
load_saved json m before o back range read =
    let (not_blank, parsed) = from_bytes-document json m back range in
    rw (not_blank, parsed, read) refl

-- A registry that has a record with more than 8 participants is saved, and the next start loads nothing of
-- it: the registry stays as it was before the load.
pub load_registry_many_participants :
    (json : Rapidjson) (m before : KexRecords) (rs qs : List RecordSnapshot) (r : RecordSnapshot)
    → ReadsBack json (document m)
    → All SnapshotInRange (snapshot_registry m)
    → snapshot_registry m ≡ rs ++ r ∷ qs
    → max_participants < length r.participants
    → load_registry json (save_registry json true m none) before ≡ before
load_registry_many_participants json m before rs qs r back range has many =
    load_saved json m before none back range (
      ap (λ z. read_registry (write_registry z)) has ∙ read_registry_many_participants rs qs r many)

-- A registry that is well formed and within the ranges and the limits of the reader is loaded at the next
-- start as it was saved.
pub load_registry-save_registry :
    (json : Rapidjson) (m before : KexRecords)
    → ReadsBack json (document m)
    → Inv m
    → All SnapshotFits (snapshot_registry m)
    → load_registry json (save_registry json true m none) before ≡ m
load_registry-save_registry json m before back v fits =
    load_saved json m before (some (snapshot_registry m)) back (ranges (snapshot_registry m) fits) (
      read_registry-write_registry (snapshot_registry m) fits
        (omega (arith, length-snapshot_registry m, v.bounded)))
    ∙ load_records-snapshot_registry m [] v.keys v.records (Apart-nil m)
  where
    ranges : (rs : List RecordSnapshot) → All SnapshotFits rs → All SnapshotInRange rs
    ranges [] h = tt
    ranges (r ∷ rs) h = (h.0.in_range, ranges rs h.1)
