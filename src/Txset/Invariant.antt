-- ===== src/Txset/Invariant.antt =====
-- The registry of unstake transaction sets (src/rest_server.cpp) stays well formed and bounded.
use xfo_lws.Base.{
  ℕ, ◌<◌, ◌≤◌, ◌≡◌, inl, inr, refl, true, false, ◌||◌, not, none, some, [], ◌∷◌, ltb, leb, arith,
  Bool-cases, Option-cases,
}
use xfo_lws.Base.Strings.{String, ◌=?◌, blank}
use xfo_lws.Base.Dict.{
  find, put, retain, size, IsUnique, AllEntries, AllEntries-find, AllEntries-put, AllEntries-retain,
  put-IsUnique, retain-IsUnique, size-put_new, size-put_old, size-retain-le,
}
use xfo_lws.Login.{Monero, Accounts, Expect-cases, open_account}
use xfo_lws.Registry.{max_entries, ttl_seconds}
use xfo_lws.Registry.Room.{evict-IsUnique, evict-AllEntries, size-evict-le, evict_room}
use xfo_lws.Txset.{
  TxsetRecord, Txsets, stable_txset_id, txset_is_expired, any_record, last_update, prune,
}
use xfo_lws.Txset.Registering.{RegisterRequest, check_register, store_txset, txset_register}
use xfo_lws.Txset.Signing.{
  SignatureRequest, check_signature, sign_record, sign_txset, txset_signature,
}
use xfo_lws.Txset.Submitting.{SubmitRequest, txset_submit}
use xfo_lws.Txset.Sound.{
  IsSound, stable_txset_id-named, registered-IsSound, registered-new_IsSound, check_register-miner,
}

pub record Inv (m : Txsets) : Type 0 where
  pub keys : IsUnique m
  pub records : AllEntries IsSound m
  pub bounded : size m ≤ max_entries

pub Inv-nil : Inv []
Inv-nil = record { keys = tt; records = tt; bounded = omega arith }

no_room_left : (m : Txsets) → AllEntries (λ _ r. any_record r ≡ false) m → size m ≡ 0
no_room_left [] h = refl
no_room_left ((k, r) ∷ m) h = absurd (cc (h.0))

pub prune-Inv : (now : ℕ) (m : Txsets) → Inv m → Inv (prune now m)
unfolding prune
prune-Inv now m v = elim (Bool-cases (ltb ttl_seconds now)) [
  | inl late ↦ rw late (record {
    keys = evict-IsUnique any_record last_update (size live) live keys';
    records = evict-AllEntries any_record last_update IsSound (size live) live records';
    bounded =
        omega (arith, v.bounded, size-evict-le any_record last_update (size live) live, smaller);
  })
  | inr early ↦
      rw early
        (record { keys = keys'; records = records'; bounded = omega (arith, smaller, v.bounded) })
]
  where
    live : Txsets
    live = retain (λ r. not (txset_is_expired now r)) m

    keys' : IsUnique live
    keys' = retain-IsUnique (λ r. not (txset_is_expired now r)) m v.keys

    records' : AllEntries IsSound live
    records' = AllEntries-retain IsSound (λ r. not (txset_is_expired now r)) m v.records

    smaller : size live ≤ size m
    smaller = size-retain-le (λ r. not (txset_is_expired now r)) m

-- An hour after the epoch there is room for one more record after each prune.
pub prune_room :
    (now : ℕ) (m : Txsets) → ttl_seconds < now → IsUnique m → size (prune now m) < max_entries
unfolding prune
prune_room now m late u =
    rw (lt_true) (elim (evict_room any_record last_update (size live) live keys' (omega arith)) [
      | inl room ↦ room
      | inr stuck ↦ omega (arith, no_room_left _ stuck)
    ])
  where
    lt_true : ltb ttl_seconds now ≡ true
    lt_true = ground arith

    live : Txsets
    live = retain (λ r. not (txset_is_expired now r)) m

    keys' : IsUnique live
    keys' = retain-IsUnique (λ r. not (txset_is_expired now r)) m u

put_old-Inv :
    (k : String) (r : TxsetRecord) (m : Txsets) {old : TxsetRecord}
    → Inv m
    → find k m ≡ some old
    → IsSound k r
    → Inv (put k r m)
put_old-Inv k r m {old} v e s = record {
  keys = put-IsUnique k r m v.keys;
  records = AllEntries-put IsSound k r m v.records s;
  bounded = omega (arith, v.bounded, size-put_old k r m {w = old} e);
}

put_new-Inv :
    (k : String) (r : TxsetRecord) (m : Txsets)
    → Inv m
    → find k m ≡ none
    → size m < max_entries
    → IsSound k r
    → Inv (put k r m)
put_new-Inv k r m v e room s = record {
  keys = put-IsUnique k r m v.keys;
  records = AllEntries-put IsSound k r m v.records s;
  bounded = omega (arith, size-put_new k r m e);
}

store_txset-Inv :
    (monero : Monero) (now : ℕ) (req : RegisterRequest) (m : Txsets)
    → req.miner_address ≡ monero.get_account_address_as_str req.address
    → Inv m
    → Inv (store_txset monero now req m).0
unfolding store_txset
store_txset-Inv monero now req m miner v = elim (Option-cases (find k m)) [
  | inl e ↦ elim (Bool-cases (leb max_entries (size m))) [
    | inl full ↦ rw (e, store_txset) (rw full v)
    | inr room ↦
        rw (e, store_txset)
          (rw room (
            put_new-Inv k _ m v e (ground arith)
              (registered-new_IsSound monero now req k named miner)))
  ]
  | inr (r, e) ↦
      rw (e, store_txset)
        (put_old-Inv k _ m {old = r} v e
          (registered-IsSound monero now req k r (AllEntries-find IsSound k m v.records e)))
]
  where
    k : String
    k = stable_txset_id monero req.wallet_id req.multisig_address req.tx_data_hex

    named : blank k ≡ false
    named = stable_txset_id-named monero req.wallet_id req.multisig_address req.tx_data_hex

sign_record-IsSound :
    (monero : Monero) (later : ℕ) (req : SignatureRequest) (k : String) (r : TxsetRecord)
    → IsSound k r
    → IsSound k (sign_record monero later req r)
unfolding sign_record
sign_record-IsSound monero later req k r v = record {
  own_id = v.own_id;
  named = v.named;
  required = v.required;
  unsubmitted = v.unsubmitted;
  owner = v.owner;
  progress = inr (refl, ground (arith, v.progress));
}

sign_txset-Inv :
    (monero : Monero) (later : ℕ) (req : SignatureRequest) (m : Txsets)
    → Inv m
    → Inv (sign_txset monero later req m).0
unfolding sign_txset
sign_txset-Inv monero later req m v = elim (Option-cases (find req.txset_id m)) [
  | inl e ↦ rw (e, sign_txset) v
  | inr (r, e) ↦
      let signed = put_old-Inv req.txset_id (sign_record monero later req r) m {old = r} v e (
        sign_record-IsSound monero later req req.txset_id r
          (AllEntries-find IsSound req.txset_id m v.records e)) in
      rw (e, sign_txset)
        (elim (Bool-cases (
          not (r.wallet_id =? req.wallet_id) || not (r.multisig_address =? req.multisig_address))) [
            | inl other ↦ rw other v
            | inr same ↦
                rw same
                  (elim (Bool-cases (
                    not (r.owner_address =? monero.get_account_address_as_str req.address)
                    || not (r.miner_address =? req.signer_address))) [
                      | inl stranger ↦ rw stranger v
                      | inr owner ↦ rw owner signed
                    ])
          ])
]

module _ (monero : Monero) (accounts : Accounts) (now : ℕ) (m : Txsets) where
  pub txset_register-Inv :
      (req : RegisterRequest) → Inv m → Inv (txset_register monero accounts now req m).0
  unfolding txset_register
  txset_register-Inv req v =
      elim (Expect-cases
        (open_account monero accounts (record { address = req.address; key = req.key }))) [
          | inl (u, e) ↦ elim (Option-cases (check_register monero req)) [
            | inl passed ↦
                rw (e, txset_register)
                  (rw passed (
                    store_txset-Inv monero now req (prune now m)
                      (check_register-miner monero req passed) (prune-Inv now m v)))
            | inr (refusal, failed) ↦ rw (e, txset_register) (rw failed v)
          ]
          | inr (x, e) ↦ rw (e, txset_register) v
        ]

  pub txset_signature-Inv :
      (later : ℕ) (req : SignatureRequest)
      → Inv m
      → Inv (txset_signature monero accounts now later req m).0
  unfolding txset_signature
  txset_signature-Inv later req v =
      elim (Expect-cases
        (open_account monero accounts (record { address = req.address; key = req.key }))) [
          | inl (u, e) ↦ elim (Option-cases (check_signature monero req)) [
            | inl passed ↦
                rw (e, txset_signature)
                  (rw passed (sign_txset-Inv monero later req (prune now m) (prune-Inv now m v)))
            | inr (refusal, failed) ↦ rw (e, txset_signature) (rw failed v)
          ]
          | inr (x, e) ↦ rw (e, txset_signature) v
        ]

  pub txset_submit-Inv :
      (req : SubmitRequest) → Inv m → Inv (txset_submit monero accounts now req m).0
  unfolding txset_submit
  txset_submit-Inv req v =
      elim (Expect-cases
        (open_account monero accounts (record { address = req.address; key = req.key }))) [
          | inl (u, e) ↦ rw (e, txset_submit) (prune-Inv now m v)
          | inr (x, e) ↦ rw (e, txset_submit) v
        ]
