-- ===== src/Kex/FileLaws.antt =====
-- The key exchange registry of src/rest_server.cpp, loaded again from the file that it saved.
use xfo_lws.Base.{◌<◌, ◌≤◌, ◌≡◌, refl, none, some, List, [], ◌∷◌, ◌++◌, length, All, arith}
use xfo_lws.Base.Strings.{String}
use xfo_lws.Wire.{
  Value, text, u32_limit, u64_limit, read_string, write_array, array_field, Fields, IsPlain,
  PlainFields,
}
use xfo_lws.Wire.RoundTrip.{
  PlainItems-text, All-text, u32-u64, read_array-write_array, read_array_too_many,
  read_array_refused, PlainItems-write_items,
}
use xfo_lws.Kex.{KexPeer}
use xfo_lws.Kex.File.{
  max_records, max_participants, max_peers, RecordSnapshot, read_peer, write_peer, read_record,
  write_record, read_registry, write_registry,
}

-- The ranges of the C++ types.
pub record PeerInRange (p : KexPeer) : Type 0 where
  pub round : p.round < u32_limit
  pub updated_at : p.updated_at < u64_limit

pub record SnapshotInRange (r : RecordSnapshot) : Type 0 where
  pub threshold : r.threshold < u32_limit
  pub total : r.total < u32_limit
  pub peers : All PeerInRange r.peers
  pub created_at : r.created_at < u64_limit
  pub updated_at : r.updated_at < u64_limit

-- What the reader accepts of one record.
pub record SnapshotFits (r : RecordSnapshot) : Type 0 where
  pub in_range : SnapshotInRange r
  pub few_participants : length r.participants ≤ max_participants
  pub few_peers : length r.peers ≤ max_peers

All-read_peer :
    (ps : List KexPeer) → All PeerInRange ps → All (λ p. read_peer (write_peer p) ≡ some p) ps
unfolding read_peer write_peer
All-read_peer [] h = tt
All-read_peer (p ∷ ps) h = (ground (arith, h.0.round, h.0.updated_at), All-read_peer ps h.1)

read_record-write_record :
    (r : RecordSnapshot) (names : List String) (peers : List KexPeer)
    → r.participants ≡ names
    → r.peers ≡ peers
    → SnapshotInRange r
    → All PeerInRange peers
    → length names ≤ max_participants
    → length peers ≤ max_peers
    → read_record (write_record r) ≡ some r
unfolding read_record write_record
read_record-write_record r [] [] e f h hp n k =
    rw (e, f) (ground (arith, h.threshold, h.total, h.created_at, h.updated_at))
read_record-write_record r (s ∷ ss) [] e f h hp n k =
    rw (e, f)
      (rw (read_array-write_array read_string text max_participants (s ∷ ss) (All-text (s ∷ ss)) n)
        (ground (arith, h.threshold, h.total, h.created_at, h.updated_at)))
read_record-write_record r [] (p ∷ ps) e f h hp n k =
    rw (e, f)
      (rw
        (read_array-write_array read_peer write_peer max_peers (p ∷ ps) (All-read_peer (p ∷ ps) hp)
          k)
        (ground (arith, h.threshold, h.total, h.created_at, h.updated_at)))
read_record-write_record r (s ∷ ss) (p ∷ ps) e f h hp n k =
    rw (e, f)
      (rw (read_array-write_array read_string text max_participants (s ∷ ss) (All-text (s ∷ ss)) n)
        (rw
          (read_array-write_array read_peer write_peer max_peers (p ∷ ps)
            (All-read_peer (p ∷ ps) hp) k)
          (ground (arith, h.threshold, h.total, h.created_at, h.updated_at))))

All-read_record :
    (rs : List RecordSnapshot)
    → All SnapshotFits rs
    → All (λ r. read_record (write_record r) ≡ some r) rs
All-read_record [] h = tt
All-read_record (r ∷ rs) h = (
  read_record-write_record r r.participants r.peers refl refl h.0.in_range h.0.in_range.peers
      h.0.few_participants h.0.few_peers,
  All-read_record rs h.1,
)

pub read_registry-write_registry :
    (rs : List RecordSnapshot)
    → All SnapshotFits rs
    → length rs ≤ max_records
    → read_registry (write_registry rs) ≡ some rs
unfolding read_registry write_registry
read_registry-write_registry [] h n = refl
read_registry-write_registry (r ∷ rs) h n = rw (
    read_array-write_array read_record write_record max_records (r ∷ rs)
      (All-read_record (r ∷ rs) h) n)

-- A record with too many participants is not read.
read_record_many_participants :
    (r : RecordSnapshot) (names : List String) (peers : List KexPeer)
    → r.participants ≡ names
    → r.peers ≡ peers
    → max_participants < length names
    → read_record (write_record r) ≡ none
unfolding read_record write_record
read_record_many_participants r [] peers e f n = absurd (omega arith)
read_record_many_participants r (s ∷ ss) [] e f n =
    rw (e, f) (rw (read_array_too_many read_string text max_participants (s ∷ ss) n) (ground arith))
read_record_many_participants r (s ∷ ss) (p ∷ ps) e f n =
    rw (e, f) (rw (read_array_too_many read_string text max_participants (s ∷ ss) n) (ground arith))

pub read_registry_many_participants :
    (rs qs : List RecordSnapshot) (r : RecordSnapshot)
    → max_participants < length r.participants
    → read_registry (write_registry (rs ++ r ∷ qs)) ≡ none
unfolding read_registry write_registry
read_registry_many_participants [] qs r n =
    rw
      (read_array_refused read_record write_record max_records r qs
        (read_record_many_participants r r.participants r.peers refl refl n) [])
      refl
read_registry_many_participants (q ∷ rs) qs r n =
    rw
      (read_array_refused read_record write_record max_records r qs
        (read_record_many_participants r r.participants r.peers refl refl n) (q ∷ rs))
      refl

-- What is written is a document of 64-bit integers.
IsPlain-write_peer : (ps : List KexPeer) → All PeerInRange ps → All (λ p. IsPlain (write_peer p)) ps
unfolding write_peer
IsPlain-write_peer [] h = tt
IsPlain-write_peer (p ∷ ps) h =
    ((tt, (tt, (u32-u64 h.0.round, (h.0.updated_at, tt)))), IsPlain-write_peer ps h.1)

-- A field with an array, and what follows it.
PlainFields-array_field :
    {A : Type 0} (name : String) (write : A → Value) (xs : List A) (rest : Fields)
    → All (λ x. IsPlain (write x)) xs
    → PlainFields rest
    → PlainFields (array_field name write xs rest)
unfolding array_field write_array
PlainFields-array_field name write [] rest h k = k
PlainFields-array_field name write (x ∷ xs) rest h k = (PlainItems-write_items write (x ∷ xs) h, k)

IsPlain-write_record : (r : RecordSnapshot) → SnapshotInRange r → IsPlain (write_record r)
unfolding write_record
IsPlain-write_record r h = (
  tt,
  (
    tt,
    (
      u32-u64 h.threshold,
      (
        u32-u64 h.total,
        PlainFields-array_field "participants" text r.participants _
            (PlainItems-text r.participants)
            (PlainFields-array_field "peers" write_peer r.peers _
              (IsPlain-write_peer r.peers h.peers) (tt, (tt, (h.created_at, (h.updated_at, tt))))),
      ),
    ),
  ),
)

All-IsPlain :
    (rs : List RecordSnapshot) → All SnapshotInRange rs → All (λ r. IsPlain (write_record r)) rs
All-IsPlain [] h = tt
All-IsPlain (r ∷ rs) h = (IsPlain-write_record r h.0, All-IsPlain rs h.1)

pub IsPlain-write_registry :
    (rs : List RecordSnapshot) → All SnapshotInRange rs → IsPlain (write_registry rs)
unfolding write_registry
IsPlain-write_registry rs h =
    PlainFields-array_field "records" write_record rs _ (All-IsPlain rs h) tt
