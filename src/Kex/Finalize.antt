-- ===== src/Kex/Finalize.antt =====
-- multisig_kex_finalize of src/rest_server.cpp: the key exchange registry and the multisig store.
use xfo_lws.Base.{
  ℕ, ◌≡◌, inl, inr, refl, ap, ◌∙◌, Bool, true, false, ◌||◌, some, arith, Bool-cases, Option-cases,
}
use xfo_lws.Base.Strings.{String, =?_refl, blank}
use xfo_lws.Base.Dict.{find, put, find-put_self}
use xfo_lws.Login.{Monero, AccountAddress, value, parse_address, Expect-cases}
use xfo_lws.Wire.{Rapidjson}
use xfo_lws.MultisigStore.{MultisigStore, DiskOutcome, register_wallet, list_wallets}
use xfo_lws.MultisigStore.Wallets.{
  find_wallet, UniqueIds, register_wallet-list_wallets, register_wallet-named,
}
use xfo_lws.Kex.{KexRecord, KexRecords}
use xfo_lws.Kex.Finalizing.{
  KexFinalizeRequest, KexFinalizeResponse, finalize_record, wallet_record, kex_finalize,
}
use xfo_lws.Kex.Submit.{put_back}

module _ (monero : Monero) (json : Rapidjson) (saved : Bool) (disk : DiskOutcome) (now : ℕ)
    (req : KexFinalizeRequest) (m : KexRecords) (store : MultisigStore) where
  abbrev after : KexRecords × MultisigStore × KexFinalizeResponse
  after = kex_finalize monero json saved disk now req m store

  abbrev registering : KexRecord → MultisigStore × Bool
  registering r = register_wallet json disk (wallet_record req (finalize_record now req r)) store

  -- The call, once its checks have passed and both saves went well.
  kex_finalize-done :
      (r : KexRecord) (a : AccountAddress)
      → (blank req.wallet_id || blank req.address) ≡ false
      → parse_address monero req.address ≡ value a
      → find req.wallet_id m ≡ some r
      → saved ≡ true
      → (registering r).1 ≡ true
      → after ≡ (
        put req.wallet_id (finalize_record now req r) m,
        (registering r).0,
        record { success = true; message = "KEX wallet finalized and registered successfully" },
      )
  unfolding kex_finalize
  kex_finalize-done r a given ok found kept registered =
      rw (given, kex_finalize) (rw ok (rw found (rw kept (rw registered refl))))

  -- The call, when the store refuses the wallet or cannot save it.
  kex_finalize-refused :
      (r : KexRecord) (a : AccountAddress)
      → (blank req.wallet_id || blank req.address) ≡ false
      → parse_address monero req.address ≡ value a
      → find req.wallet_id m ≡ some r
      → saved ≡ true
      → (registering r).1 ≡ false
      → after ≡ (
        put req.wallet_id r (put req.wallet_id (finalize_record now req r) m),
        (registering r).0,
        record { success = false; message = "Failed to register finalized KEX wallet" },
      )
  unfolding kex_finalize
  kex_finalize-refused r a given ok found kept refused =
      rw (given, kex_finalize) (rw ok (rw found (rw kept (rw refused refl))))

  -- A call that fails, for whatever reason, leaves every lookup in the registry as it was.
  pub kex_finalize-undone : after.2.success ≡ false → (j : String) → find j after.0 ≡ find j m
  unfolding kex_finalize
  kex_finalize-undone h j = elim (Bool-cases (blank req.wallet_id || blank req.address)) [
    | inl missing ↦ rw (missing, kex_finalize) refl
    | inr given ↦ elim (Expect-cases (parse_address monero req.address)) [
      | inr (e, bad) ↦ rw (given, kex_finalize) (rw bad refl)
      | inl (a, ok) ↦ elim (Option-cases (find req.wallet_id m)) [
        | inl absent ↦ rw (given, kex_finalize) (rw ok (rw absent refl))
        | inr (r, found) ↦ elim (Bool-cases saved) [
          | inr unsaved ↦
              rw (given, kex_finalize)
                (rw ok (
                  rw found
                    (rw unsaved (put_back req.wallet_id r (finalize_record now req r) m j found))))
          | inl kept ↦ elim (Bool-cases (registering r).1) [
            | inl registered ↦ absurd (
                cc (
                  ap (λ (x : KexRecords × MultisigStore × KexFinalizeResponse). x.2.success)
                      (kex_finalize-done r a given ok found kept registered),
                  h,
                ))
            | inr refused ↦
                ap (λ (x : KexRecords × MultisigStore × KexFinalizeResponse). find j x.0)
                  (kex_finalize-refused r a given ok found kept refused)
                ∙ put_back req.wallet_id r (finalize_record now req r) m j found
          ]
        ]
      ]
    ]
  ]

  -- What a call that succeeds has done: the record has the address and the status of the request, and
  -- the store lists the wallet of the record under its id.
  pub record Finalized (r : KexRecord) : Type 0 where
    pub was : find req.wallet_id m ≡ some r
    pub on_disk : saved ≡ true
    pub registry : find req.wallet_id after.0 ≡ some (finalize_record now req r)
    pub listed :
        find_wallet r.wallet_id (list_wallets after.1)
        ≡ some (wallet_record req (finalize_record now req r))

  listed_as :
      (r : KexRecord)
      → UniqueIds (list_wallets store)
      → blank r.wallet_id ≡ false
      → blank req.address ≡ false
      → find_wallet r.wallet_id (list_wallets (registering r).0)
        ≡ some (wallet_record req (finalize_record now req r))
  unfolding wallet_record finalize_record
  listed_as r u named given =
      (register_wallet-list_wallets json disk (wallet_record req (finalize_record now req r)) store
          named given u).0
        r.wallet_id
      ∙ rw (=?_refl r.wallet_id) refl

  finalized :
      (r : KexRecord) (a : AccountAddress)
      → UniqueIds (list_wallets store)
      → (blank req.wallet_id || blank req.address) ≡ false
      → parse_address monero req.address ≡ value a
      → find req.wallet_id m ≡ some r
      → saved ≡ true
      → (registering r).1 ≡ true
      → Finalized r
  unfolding wallet_record finalize_record
  finalized r a u given ok found kept registered =
      let e = kex_finalize-done r a given ok found kept registered in
      let named =
        register_wallet-named json disk (wallet_record req (finalize_record now req r)) store
          registered in
      record {
        was = found;
        on_disk = kept;
        registry =
            ap (λ (x : KexRecords × MultisigStore × KexFinalizeResponse). find req.wallet_id x.0) e
            ∙ find-put_self req.wallet_id (finalize_record now req r) m;
        listed =
            ap
              (λ (x : KexRecords × MultisigStore × KexFinalizeResponse).
                find_wallet r.wallet_id (list_wallets x.1))
              e
            ∙ listed_as r u named.0 named.1;
      }

  -- Once the registry is saved, the store in memory lists the wallet even if the call then fails and
  -- the registry is put back.
  pub kex_finalize-list_wallets :
      (r : KexRecord) (a : AccountAddress)
      → UniqueIds (list_wallets store)
      → (blank req.wallet_id || blank req.address) ≡ false
      → parse_address monero req.address ≡ value a
      → find req.wallet_id m ≡ some r
      → blank r.wallet_id ≡ false
      → saved ≡ true
      → find_wallet r.wallet_id (list_wallets after.1)
        ≡ some (wallet_record req (finalize_record now req r))
  kex_finalize-list_wallets r a u given ok found named kept =
      let given' : blank req.address ≡ false = ground arith in
      elim (Bool-cases (registering r).1) [
        | inl registered ↦
            ap
              (λ (x : KexRecords × MultisigStore × KexFinalizeResponse).
                find_wallet r.wallet_id (list_wallets x.1))
              (kex_finalize-done r a given ok found kept registered)
            ∙ listed_as r u named given'
        | inr refused ↦
            ap
              (λ (x : KexRecords × MultisigStore × KexFinalizeResponse).
                find_wallet r.wallet_id (list_wallets x.1))
              (kex_finalize-refused r a given ok found kept refused)
            ∙ listed_as r u named given'
      ]

  -- A call that succeeds has saved the registry, given the record the address and the status of the
  -- request, and listed the record's wallet in the store.
  pub kex_finalize-Finalized :
      UniqueIds (list_wallets store) → after.2.success ≡ true → (r : KexRecord) × Finalized r
  unfolding kex_finalize
  kex_finalize-Finalized u h = elim (Bool-cases (blank req.wallet_id || blank req.address)) [
    | inl missing ↦ absurd (cc (h, fails (rw (missing, kex_finalize) refl)))
    | inr given ↦ elim (Expect-cases (parse_address monero req.address)) [
      | inr (e, bad) ↦ absurd (cc (h, fails (rw (given, kex_finalize) (rw bad refl))))
      | inl (a, ok) ↦ elim (Option-cases (find req.wallet_id m)) [
        | inl absent ↦ absurd (cc (h, fails (rw (given, kex_finalize) (rw ok (rw absent refl)))))
        | inr (r, found) ↦ elim (Bool-cases saved) [
          | inr unsaved ↦
              absurd (cc (h, fails (rw (given, kex_finalize) (rw ok (rw found (rw unsaved refl))))))
          | inl kept ↦ elim (Bool-cases (registering r).1) [
            | inl registered ↦ (r, finalized r a u given ok found kept registered)
            | inr refused ↦ absurd (
                cc (
                  h,
                  fails (
                      ap (λ (x : KexRecords × MultisigStore × KexFinalizeResponse). x.2.success)
                        (kex_finalize-refused r a given ok found kept refused)),
                ))
          ]
        ]
      ]
    ]
  ]
    where
      fails : after.2.success ≡ false → after.2.success ≡ false
      fails e = e
