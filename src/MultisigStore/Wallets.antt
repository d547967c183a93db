-- ===== src/MultisigStore/Wallets.antt =====
-- The registered wallets of src/db/multisig_store.cpp.
use xfo_lws.Base.{
  ◌≡◌, refl, true, false, Option, none, some, List, [], ◌∷◌, arith, inl, inr, Bool-cases,
  if◌then◌else◌,
}
use xfo_lws.Base.Strings.{String, ◌=?◌, =?_iff, =?_comm, blank}
use xfo_lws.Wire.{Rapidjson}
use xfo_lws.MultisigStore.Records.{MultisigWalletRecord}
use xfo_lws.MultisigStore.{
  MultisigStore, DiskOutcome, written, no_directory, not_opened, torn, save_locked, replace_wallet,
  register_wallet, list_wallets,
}

-- The listed wallet of an id, as a client would look it up.
abbrev pub find_wallet : String → List MultisigWalletRecord → Option MultisigWalletRecord
find_wallet i [] = none
find_wallet i (w ∷ ws) = if w.wallet_id =? i then some w else find_wallet i ws

-- No id is listed twice.
abbrev pub UniqueIds : List MultisigWalletRecord → Type 0
UniqueIds [] = Unit
UniqueIds (w ∷ ws) = (find_wallet w.wallet_id ws ≡ none) × UniqueIds ws

find_wallet-replace_wallet :
    (w : MultisigWalletRecord) (i : String) (ws : List MultisigWalletRecord)
    → find_wallet i (replace_wallet w ws) ≡ (if w.wallet_id =? i then some w else find_wallet i ws)
unfolding replace_wallet
find_wallet-replace_wallet w i [] = refl
find_wallet-replace_wallet w i (x ∷ ws) = elim (Bool-cases (x.wallet_id =? w.wallet_id)) [
  | inl same ↦
      let e : x.wallet_id ≡ w.wallet_id = (=?_iff x.wallet_id w.wallet_id).0 same in
      rw same (ground (arith, e))
  | inr other ↦ rw other (elim (Bool-cases (x.wallet_id =? i)) [
    | inl hit ↦
        let e : x.wallet_id ≡ i = (=?_iff x.wallet_id i).0 hit in
        let miss : (w.wallet_id =? i) ≡ false =
          ground (arith, =?_comm x.wallet_id w.wallet_id, e, other) in
        rw (hit, miss)
    | inr miss ↦ rw miss (find_wallet-replace_wallet w i ws)
  ])
]

replace_wallet-UniqueIds :
    (w : MultisigWalletRecord) (ws : List MultisigWalletRecord)
    → UniqueIds ws
    → UniqueIds (replace_wallet w ws)
unfolding replace_wallet
replace_wallet-UniqueIds w [] u = (refl, tt)
replace_wallet-UniqueIds w (x ∷ ws) u = elim (Bool-cases (x.wallet_id =? w.wallet_id)) [
  | inl same ↦
      let e : x.wallet_id ≡ w.wallet_id = (=?_iff x.wallet_id w.wallet_id).0 same in
      rw same (ground (arith, e, u.0), u.1)
  | inr other ↦ rw other (
    ground (
      arith,
      find_wallet-replace_wallet w x.wallet_id ws,
      =?_comm x.wallet_id w.wallet_id,
      other,
      u.0,
    ),
    replace_wallet-UniqueIds w ws u.1,
  )
]

save_locked-wallets :
    (json : Rapidjson) (disk : DiskOutcome) (s : MultisigStore)
    → (save_locked json disk s).0.wallets ≡ s.wallets
unfolding save_locked
save_locked-wallets json written s = refl
save_locked-wallets json no_directory s = refl
save_locked-wallets json not_opened s = refl
save_locked-wallets json (torn left) s = refl

module _ (json : Rapidjson) (disk : DiskOutcome) (w : MultisigWalletRecord)
    (s : MultisigStore) where
  -- register_wallet, for a wallet with an id and an address, lists the wallet under its id in place
  -- of one that had the id, leaves the other ids as they were and no id twice, also if the save fails.
  pub register_wallet-list_wallets :
      blank w.wallet_id ≡ false
      → blank w.address ≡ false
      → UniqueIds (list_wallets s)
      → ((i : String)
          → find_wallet i (list_wallets (register_wallet json disk w s).0)
            ≡ (if w.wallet_id =? i then some w else find_wallet i (list_wallets s)))
        × UniqueIds (list_wallets (register_wallet json disk w s).0)
  unfolding register_wallet list_wallets
  register_wallet-list_wallets hi ha u =
      rw (hi, ha)
        (rw (save_locked-wallets json disk (record s { wallets = replace_wallet w s.wallets }))
          (λ i. find_wallet-replace_wallet w i s.wallets, replace_wallet-UniqueIds w s.wallets u))

-- register_wallet saves only a wallet with an id and an address.
pub register_wallet-named :
    (json : Rapidjson) (disk : DiskOutcome) (w : MultisigWalletRecord) (s : MultisigStore)
    → (register_wallet json disk w s).1 ≡ true
    → (blank w.wallet_id ≡ false) × (blank w.address ≡ false)
unfolding register_wallet
register_wallet-named json disk w s h = (ground arith, ground arith)
