-- ===== src/MultisigStore/Restart.antt =====
-- A multisig store (src/db/multisig_store.cpp) that is opened again from the file that it saved.
use xfo_lws.Base.{
  ◌<◌, ◌≤◌, ◌≡◌, refl, sym, subst, ap, ◌∙◌, true, false, Option, none, some, List, [], ◌∷◌, ◌++◌,
  inl, inr, Bool-cases, length, All,
}
use xfo_lws.Base.Strings.{String, =?_iff, blank}
use xfo_lws.Base.Dict.{Dict, find, IsUnique, AllEntries}
use xfo_lws.Base.Rebuilt.{put-fresh, Apart, Apart-grow, Apart-nil}
use xfo_lws.Wire.{Value, Rapidjson, ReadsBack}
use mathlib.Core.List.{append-nil, append_assoc}
use xfo_lws.MultisigStore.Records.{MultisigAddressData}
use xfo_lws.MultisigStore.Json.{
  max_multisig_addresses, max_multisig_wallets, read_snapshot_v1, read_snapshot_v2,
  write_snapshot_v2,
}
use xfo_lws.MultisigStore.JsonLaws.{
  DataInRange, WalletInRange, DataFits, WalletFits, snap, read_snapshot_v2_lem,
  read_snapshot_v2_many_wallets, read_snapshot_v1_lem, read_snapshot_many_addresses,
}
use xfo_lws.MultisigStore.Plain.{IsPlain-write_snapshot_v2}
use xfo_lws.MultisigStore.Totals.{IsSound, IsValid}
use xfo_lws.MultisigStore.{
  MultisigStore, written, from_bytes, values, save_locked, emplace_all, load_text, open_store,
}

emplace_all-fresh :
    (k : String) (d : MultisigAddressData) (ds : List MultisigAddressData)
    (done : Dict MultisigAddressData)
    → d.address ≡ k
    → find k done ≡ none
    → emplace_all (d ∷ ds) done ≡ emplace_all ds (done ++ (k, d) ∷ [])
unfolding emplace_all
emplace_all-fresh k d ds done own =
    subst
      (λ i. find i done ≡ none → emplace_all (d ∷ ds) done ≡ emplace_all ds (done ++ (i, d) ∷ []))
      own (λ e. rw e (rw (put-fresh d.address d done e)))

emplace_all-values :
    (m done : Dict MultisigAddressData)
    → IsUnique m
    → AllEntries IsSound m
    → Apart done m
    → emplace_all (values m) done ≡ done ++ m
unfolding emplace_all values
emplace_all-values [] done u s h = sym (append-nil done)
emplace_all-values ((k, d) ∷ m) done u s h =
    emplace_all-fresh k d (values m) done s.0.own_address h.0
    ∙ emplace_all-values m (done ++ (k, d) ∷ []) u.1 s.1 (Apart-grow k d done m u.0 h.1)
    ∙ append_assoc done ((k, d) ∷ []) m

-- The contents of a store are of their C++ types.
pub record InRange (s : MultisigStore) : Type 0 where
  pub addresses : All DataInRange (values s.addresses)
  pub wallets : All WalletInRange s.wallets

-- What the readers' limits leave room for: 16 addresses with 32 transactions each, and 64 wallets
-- with 8 participants each.
pub record AddressesFit (s : MultisigStore) : Type 0 where
  pub each : All DataFits (values s.addresses)
  pub few : length (values s.addresses) ≤ max_multisig_addresses

pub record WalletsFit (s : MultisigStore) : Type 0 where
  pub each : All WalletFits s.wallets
  pub few : length s.wallets ≤ max_multisig_wallets

-- The document that save_locked writes.
abbrev pub document : MultisigStore → Value
document s = write_snapshot_v2 (snap (values s.addresses) s.wallets)

module _ (json : Rapidjson) (s : MultisigStore) (back : ReadsBack json (document s))
    (r : InRange s) where
  abbrev doc : Value
  doc = document s

  parse-saved : json.parse (json.print doc) ≡ some doc
  parse-saved = back.parse-print (IsPlain-write_snapshot_v2 _ _ r.addresses r.wallets)

  saved-not-blank : blank (json.print doc) ≡ false
  saved-not-blank = elim (Bool-cases (blank (json.print doc))) [
    | inl e ↦
        absurd
          (cc (parse-saved, back.parse-empty, ap json.parse ((=?_iff (json.print doc) "").0 e)))
    | inr e ↦ e
  ]

  from_bytes-saved {ℓ} :
      {A : Type ℓ} (read : Value → Option A) → from_bytes json read (json.print doc) ≡ read doc
  unfolding from_bytes
  from_bytes-saved read = rw (parse-saved, from_bytes)

  emplaced : IsValid s → emplace_all (values s.addresses) [] ≡ s.addresses
  emplaced v = emplace_all-values s.addresses [] v.keys v.slots (Apart-nil s.addresses)

  -- The store that the next start loads from a saved file is the store that was saved, if it keeps
  -- to the readers' limits.
  pub open_store-save_locked :
      IsValid s
      → AddressesFit s
      → WalletsFit s
      → open_store json (save_locked json written s).0.file ≡ some (save_locked json written s).0
  unfolding open_store save_locked
  open_store-save_locked v fa fw = rw saved-not-blank (
      rw
        (
          from_bytes-saved read_snapshot_v2
              ∙ read_snapshot_v2_lem _ _ fa.each fa.few fw.each fw.few,
          load_text,
        )
        (rw (emplaced v)))

  -- A store with more than 64 wallets is saved without an error, and the next start loads it with
  -- no wallet at all: the reader of the older format, which skips the wallets, takes the file.
  pub open_store_many_wallets :
      IsValid s
      → AddressesFit s
      → max_multisig_wallets < length s.wallets
      → let saved = save_locked json written s in
        (saved.1 ≡ true) × (open_store json saved.0.file ≡ some (record saved.0 { wallets = [] }))
  unfolding open_store save_locked
  open_store_many_wallets v fa n = (
    refl,
    rw saved-not-blank (
        rw
          (
            from_bytes-saved read_snapshot_v2
                ∙ read_snapshot_v2_many_wallets (values s.addresses) s.wallets n,
            load_text,
          )
          (rw (from_bytes-saved read_snapshot_v1 ∙ read_snapshot_v1_lem _ s.wallets fa.each fa.few)
            (rw (emplaced v)))),
  )

  -- A store with more than 16 addresses is saved without an error, and the next start fails.
  pub open_store_many_addresses :
      max_multisig_addresses < length (values s.addresses)
      → let saved = save_locked json written s in
        (saved.1 ≡ true) × (open_store json saved.0.file ≡ none)
  unfolding open_store save_locked
  open_store_many_addresses n = (
    refl,
    rw saved-not-blank (
        rw
          (
            from_bytes-saved read_snapshot_v2
                ∙ (read_snapshot_many_addresses (values s.addresses) s.wallets n).0,
            load_text,
          )
          (rw (
            from_bytes-saved read_snapshot_v1
            ∙ (read_snapshot_many_addresses (values s.addresses) s.wallets n).1))),
  )
