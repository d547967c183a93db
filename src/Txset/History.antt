-- ===== src/Txset/History.antt =====
-- Any history of calls of the txset handlers (src/rest_server.cpp), and what each call guarantees.
use xfo_lws.Base.{
  ℕ, ◌<◌, ◌≡◌, ◌⊎◌, inl, inr, refl, ap, ◌∙◌, true, false, ◌||◌, not, none, some, List, [], ◌∷◌, ltb,
  leb, arith, Bool-cases, Option-cases,
}
use xfo_lws.Base.Strings.{String, ◌=?◌, =?_iff}
use xfo_lws.Base.Dict.{find, put, size, AllEntries-find, find-put_self}
use xfo_lws.Login.{Monero, Accounts, Expect, value, open_account}
use xfo_lws.Registry.{max_entries, ttl_seconds}
use xfo_lws.Txset.Invariant.{
  Inv, Inv-nil, prune-Inv, prune_room, txset_register-Inv, txset_signature-Inv, txset_submit-Inv,
}
use xfo_lws.Txset.Sound.{IsSound}
use xfo_lws.Txset.{TxsetRecord, empty_record, Txsets, stable_txset_id, prune}
use xfo_lws.Txset.Registering.{
  RegisterRequest, RegisterResponse, check_register, registered, store_txset, txset_register,
}
use xfo_lws.Txset.Signing.{SignatureRequest, txset_signature}
use xfo_lws.Txset.Submitting.{
  SubmitRequest, SubmitResponse, submit_txset, txset_submit, refuse_submit,
}

-- One call, with what the account tables and the clock answer at its time.
pub data Call : Type 0 where
  registers : Accounts → ℕ → RegisterRequest → Call
  signs : Accounts → ℕ → ℕ → SignatureRequest → Call
  submits : Accounts → ℕ → SubmitRequest → Call

unfoldable pub step : Monero → Txsets → Call → Txsets
unfolding txset_register txset_signature txset_submit
step monero m (registers accounts now req) = (txset_register monero accounts now req m).0
step monero m (signs accounts now later req) = (txset_signature monero accounts now later req m).0
step monero m (submits accounts now req) = (txset_submit monero accounts now req m).0

unfoldable pub run : Monero → Txsets → List Call → Txsets
unfolding step
run monero m [] = m
run monero m (c ∷ cs) = run monero (step monero m c) cs

step-Inv : (monero : Monero) (m : Txsets) (c : Call) → Inv m → Inv (step monero m c)
unfolding step
step-Inv monero m (registers accounts now req) v = txset_register-Inv monero accounts now m req v
step-Inv monero m (signs accounts now later req) v =
    txset_signature-Inv monero accounts now m later req v
step-Inv monero m (submits accounts now req) v = txset_submit-Inv monero accounts now m req v

-- After any history of calls, by any callers and at any times, the registry holds 128 records at
-- most, under distinct ids that are their own, and each waits for two signatures, of which it has
-- collected none (`registered`) or one (`needs_more_signatures`), is not submitted, and belongs to
-- its miner.
pub run-Inv : (monero : Monero) (m : Txsets) (cs : List Call) → Inv m → Inv (run monero m cs)
unfolding run
run-Inv monero m [] v = v
run-Inv monero m (c ∷ cs) v = run-Inv monero (step monero m c) cs (step-Inv monero m c v)

abbrev pub waiting : SubmitResponse
waiting = record {
  success = true;
  tx_hash = "";
  state = "needs_more_signatures";
  message = "More multisig signatures are required before submit";
}

-- The request names the record's wallet and address, and is its owner's.
pub record Matches (monero : Monero) (req : SubmitRequest) (r : TxsetRecord) : Type 0 where
  pub wallet_id : r.wallet_id ≡ req.wallet_id
  pub multisig_address : r.multisig_address ≡ req.multisig_address
  pub owner : r.owner_address ≡ monero.get_account_address_as_str req.address

module _ (monero : Monero) (req : SubmitRequest) (m : Txsets) (v : Inv m) where
  submit_txset_answer :
      (submit_txset monero req m ≡ waiting)
      ⊎ ((message : String) × (submit_txset monero req m ≡ refuse_submit message))
  unfolding submit_txset
  submit_txset_answer = elim (Option-cases (find req.txset_id m)) [
    | inl e ↦ inr ("txset_id is not registered", rw (e, submit_txset))
    | inr (r, e) ↦
        elim (Bool-cases (
          not (r.wallet_id =? req.wallet_id) || not (r.multisig_address =? req.multisig_address))) [
            | inl other ↦ inr ("txset metadata mismatch", rw (e, submit_txset) (rw other))
            | inr same ↦
                elim (Bool-cases
                  (not (r.owner_address =? monero.get_account_address_as_str req.address))) [
                    | inl stranger ↦ inr (
                      "authenticated wallet does not own this txset",
                      rw (e, submit_txset) (rw same (rw stranger)),
                    )
                    | inr owner ↦
                        let sound = AllEntries-find IsSound req.txset_id m v.records e in
                        let few : ltb r.collected_signatures r.required_signatures ≡ true =
                          ground (arith, sound.required, sound.progress) in
                        inl (rw (e, submit_txset) (rw same (rw owner (rw few))))
                  ]
          ]
  ]

  submit_txset_match :
      (r : TxsetRecord)
      → find req.txset_id m ≡ some r
      → Matches monero req r
      → submit_txset monero req m ≡ waiting
  unfolding submit_txset
  submit_txset_match r e h =
      let sound = AllEntries-find IsSound req.txset_id m v.records e in
      let few : ltb r.collected_signatures r.required_signatures ≡ true =
        ground (arith, sound.required, sound.progress) in
      let same : (r.wallet_id =? req.wallet_id) ≡ true =
        (=?_iff r.wallet_id req.wallet_id).1 h.wallet_id in
      let same' : (r.multisig_address =? req.multisig_address) ≡ true =
        (=?_iff r.multisig_address req.multisig_address).1 h.multisig_address in
      let owner : (r.owner_address =? monero.get_account_address_as_str req.address) ≡ true =
        (=?_iff r.owner_address _).1 h.owner in
      rw (e, submit_txset) (rw (same, same', owner, few))

module _ (monero : Monero) (accounts : Accounts) (now : ℕ) (cs : List Call) (req : SubmitRequest)
    (user : ℕ) where
  logged_in :
      (m : Txsets)
      → open_account monero accounts (record { address = req.address; key = req.key }) ≡ value user
      → txset_submit monero accounts now req m
        ≡ (prune now m, value (submit_txset monero req (prune now m)))
  unfolding txset_submit
  logged_in m login = rw (login, txset_submit)

  pruned-Inv : Inv (prune now (run monero [] cs))
  pruned-Inv = prune-Inv now (run monero [] cs) (run-Inv monero [] cs Inv-nil)

  -- After any history of calls on an empty registry, a logged-in caller's submit answers that more
  -- signatures are required or is refused, so no transaction hash is ever answered.
  pub txset_submit_waits :
      open_account monero accounts (record { address = req.address; key = req.key }) ≡ value user
      → let answer = (txset_submit monero accounts now req (run monero [] cs)).1 in
        (answer ≡ value waiting) ⊎ ((message : String) × (answer ≡ value (refuse_submit message)))
  txset_submit_waits login =
      elim (submit_txset_answer monero req (prune now (run monero [] cs)) pruned-Inv) [
        | inl w ↦
            inl (ap (λ (p : Txsets × Expect SubmitResponse). p.1) (logged_in _ login) ∙ ap value w)
        | inr (message, refused) ↦ inr (
          message,
          ap (λ (p : Txsets × Expect SubmitResponse). p.1) (logged_in _ login) ∙ ap value refused,
        )
      ]

  -- After any history of calls on an empty registry, a logged-in owner's submit of a live record,
  -- with the record's wallet and address, answers that more signatures are required.
  pub txset_submit-Matches :
      (r : TxsetRecord)
      → open_account monero accounts (record { address = req.address; key = req.key }) ≡ value user
      → find req.txset_id (prune now (run monero [] cs)) ≡ some r
      → Matches monero req r
      → (txset_submit monero accounts now req (run monero [] cs)).1 ≡ value waiting
  txset_submit-Matches r login e h =
      ap (λ (p : Txsets × Expect SubmitResponse). p.1) (logged_in _ login)
      ∙ ap value (submit_txset_match monero req (prune now (run monero [] cs)) pruned-Inv r e h)

abbrev accepted : String → TxsetRecord → RegisterResponse
accepted id r = record { success = true; txset_id = id; state = r.state; message = "" }

-- With room for a record, the registry takes one under the request's id.
store_txset_accepts :
    (monero : Monero) (now : ℕ) (req : RegisterRequest) (m : Txsets)
    → size m < max_entries
    → let id = stable_txset_id monero req.wallet_id req.multisig_address req.tx_data_hex in
      (r : TxsetRecord) × (r.updated_at ≡ now)
      × (store_txset monero now req m ≡ (put id r m, accepted id r))
unfolding store_txset
store_txset_accepts monero now req m room = elim (Option-cases (find id m)) [
  | inl e ↦ (
    registered monero now req id empty_record,
    unfold registered in refl,
    rw (e, store_txset) (rw free refl),
  )
  | inr (r, e) ↦ (registered monero now req id r, unfold registered in refl, rw (e, store_txset))
]
  where
    id : String
    id = stable_txset_id monero req.wallet_id req.multisig_address req.tx_data_hex

    free : leb max_entries (size m) ≡ false
    free = ground arith

module _ (monero : Monero) (accounts : Accounts) (now : ℕ) (req : RegisterRequest) (m : Txsets)
    (user : ℕ) where
  -- A registration by a logged-in caller that passes the checks is accepted, also when the registry
  -- is full, since an hour after the epoch the prune makes room; its record is found under the
  -- answered id, updated now.
  pub txset_register_accepted :
      Inv m
      → ttl_seconds < now
      → open_account monero accounts (record { address = req.address; key = req.key }) ≡ value user
      → check_register monero req ≡ none
      → let id = stable_txset_id monero req.wallet_id req.multisig_address req.tx_data_hex in
        (r : TxsetRecord) × (find id (txset_register monero accounts now req m).0 ≡ some r)
        × (r.updated_at ≡ now)
        × ((txset_register monero accounts now req m).1
            ≡ value (record { success = true; txset_id = id; state = r.state; message = "" }))
  unfolding txset_register
  txset_register_accepted v late login passed =
      let (r, time, stored) =
        store_txset_accepts monero now req (prune now m) (prune_room now m late v.keys) in
      (
        r,
        rw (login, txset_register) (rw passed (rw stored (find-put_self _ r (prune now m)))),
        time,
        rw (login, txset_register) (rw passed (rw stored)),
      )
