-- ===== src/MultisigStore/JsonLaws.antt =====
-- The JSON form of the multisig store (src/db/multisig_store.cpp), read back: within the reader's
-- limits every record returns as it was written, and beyond them none does.
use xfo_lws.Base.{◌<◌, ◌≤◌, ◌≡◌, refl, none, some, List, [], ◌∷◌, arith, length, All}
use xfo_lws.Base.Strings.{String}
use xfo_lws.Wire.{text, u32_limit, u64_limit, read_string}
use xfo_lws.Wire.RoundTrip.{All-text, read_array-write_array, read_array_too_many}
use xfo_lws.MultisigStore.Records.{
  MultisigTxRecord, MultisigWalletRecord, MultisigAddressData, MultisigSnapshot,
}
use xfo_lws.MultisigStore.Json.{
  max_multisig_txs, max_multisig_addresses, max_multisig_wallets, max_participants, read_tx,
  write_tx, read_wallet, write_wallet, read_address_data, write_address_data, read_snapshot_v1,
  read_snapshot_v2, write_snapshot_v2,
}

-- The ranges of the C++ types.
pub record TxInRange (t : MultisigTxRecord) : Type 0 where
  pub amount : t.amount < u64_limit
  pub timestamp : t.timestamp < u64_limit

pub record WalletInRange (w : MultisigWalletRecord) : Type 0 where
  pub threshold : w.threshold < u32_limit
  pub total : w.total < u32_limit
  pub created_at : w.created_at < u64_limit

pub record DataInRange (d : MultisigAddressData) : Type 0 where
  pub transactions : All TxInRange d.transactions
  pub total_locked : d.total_locked < u64_limit

read_tx-write_tx : (t : MultisigTxRecord) → TxInRange t → read_tx (write_tx t) ≡ some t
unfolding read_tx write_tx
read_tx-write_tx t h = ground (arith, h.amount, h.timestamp)

All-read_tx :
    (ts : List MultisigTxRecord) → All TxInRange ts → All (λ t. read_tx (write_tx t) ≡ some t) ts
All-read_tx [] h = tt
All-read_tx (t ∷ ts) h = (read_tx-write_tx t h.0, All-read_tx ts h.1)

read_wallet-write_wallet :
    (w : MultisigWalletRecord) (ps : List String)
    → w.participants ≡ ps
    → WalletInRange w
    → length ps ≤ max_participants
    → read_wallet (write_wallet w) ≡ some w
unfolding read_wallet write_wallet
read_wallet-write_wallet w [] e h n = rw e (ground (arith, h.threshold, h.total, h.created_at))
read_wallet-write_wallet w (p ∷ ps) e h n = rw e (
    rw (read_array-write_array read_string text max_participants (p ∷ ps) (All-text (p ∷ ps)) n)
      (ground (arith, h.threshold, h.total, h.created_at)))

read_address_data-write_address_data :
    (d : MultisigAddressData) (ts : List MultisigTxRecord)
    → d.transactions ≡ ts
    → All TxInRange ts
    → d.total_locked < u64_limit
    → length ts ≤ max_multisig_txs
    → read_address_data (write_address_data d) ≡ some d
unfolding read_address_data write_address_data
read_address_data-write_address_data d [] e h u n = rw e (ground arith)
read_address_data-write_address_data d (t ∷ ts) e h u n = rw e (
    rw
      (read_array-write_array read_tx write_tx max_multisig_txs (t ∷ ts) (All-read_tx (t ∷ ts) h) n)
      (ground arith))

-- What the reader accepts of one address and of one wallet.
pub record DataFits (d : MultisigAddressData) : Type 0 where
  pub in_range : DataInRange d
  pub few_txs : length d.transactions ≤ max_multisig_txs

pub record WalletFits (w : MultisigWalletRecord) : Type 0 where
  pub in_range : WalletInRange w
  pub few_participants : length w.participants ≤ max_participants

pub All-read_address_data :
    (ds : List MultisigAddressData)
    → All DataFits ds
    → All (λ d. read_address_data (write_address_data d) ≡ some d) ds
All-read_address_data [] h = tt
All-read_address_data (d ∷ ds) h = (
  read_address_data-write_address_data d d.transactions refl h.0.in_range.transactions
      h.0.in_range.total_locked h.0.few_txs,
  All-read_address_data ds h.1,
)

pub All-read_wallet :
    (ws : List MultisigWalletRecord)
    → All WalletFits ws
    → All (λ w. read_wallet (write_wallet w) ≡ some w) ws
All-read_wallet [] h = tt
All-read_wallet (w ∷ ws) h = (
  read_wallet-write_wallet w w.participants refl h.0.in_range h.0.few_participants,
  All-read_wallet ws h.1,
)

module _ (ds : List MultisigAddressData) (ws : List MultisigWalletRecord) where
  abbrev pub snap : MultisigSnapshot
  snap = record { addresses = ds; wallets = ws }

-- Both readers on a written snapshot, by whether the arrays are there.
pub read_snapshot_v2_lem :
    (ds : List MultisigAddressData) (ws : List MultisigWalletRecord)
    → All DataFits ds
    → length ds ≤ max_multisig_addresses
    → All WalletFits ws
    → length ws ≤ max_multisig_wallets
    → read_snapshot_v2 (write_snapshot_v2 (snap ds ws)) ≡ some (snap ds ws)
unfolding read_snapshot_v2 write_snapshot_v2
read_snapshot_v2_lem [] [] fd nd fw nw = refl
read_snapshot_v2_lem [] (w ∷ ws) fd nd fw nw = rw (
    read_array-write_array read_wallet write_wallet max_multisig_wallets (w ∷ ws)
      (All-read_wallet (w ∷ ws) fw) nw)
read_snapshot_v2_lem (d ∷ ds) [] fd nd fw nw = rw (
    read_array-write_array read_address_data write_address_data max_multisig_addresses (d ∷ ds)
      (All-read_address_data (d ∷ ds) fd) nd)
read_snapshot_v2_lem (d ∷ ds) (w ∷ ws) fd nd fw nw =
    rw
      (read_array-write_array read_address_data write_address_data max_multisig_addresses (d ∷ ds)
        (All-read_address_data (d ∷ ds) fd) nd)
      (rw (
        read_array-write_array read_wallet write_wallet max_multisig_wallets (w ∷ ws)
          (All-read_wallet (w ∷ ws) fw) nw))

pub read_snapshot_v2_many_wallets :
    (ds : List MultisigAddressData) (ws : List MultisigWalletRecord)
    → max_multisig_wallets < length ws
    → read_snapshot_v2 (write_snapshot_v2 (snap ds ws)) ≡ none
unfolding read_snapshot_v2 write_snapshot_v2
read_snapshot_v2_many_wallets ds [] n = absurd (omega arith)
read_snapshot_v2_many_wallets [] (w ∷ ws) n =
    rw (read_array_too_many read_wallet write_wallet max_multisig_wallets (w ∷ ws) n)
read_snapshot_v2_many_wallets (d ∷ ds) (w ∷ ws) n =
    rw (read_array_too_many read_wallet write_wallet max_multisig_wallets (w ∷ ws) n) (ground arith)

pub read_snapshot_v1_lem :
    (ds : List MultisigAddressData) (ws : List MultisigWalletRecord)
    → All DataFits ds
    → length ds ≤ max_multisig_addresses
    → read_snapshot_v1 (write_snapshot_v2 (snap ds ws)) ≡ some ds
unfolding read_snapshot_v1 write_snapshot_v2
read_snapshot_v1_lem [] [] fd nd = refl
read_snapshot_v1_lem [] (w ∷ ws) fd nd = refl
read_snapshot_v1_lem (d ∷ ds) [] fd nd = rw (
    read_array-write_array read_address_data write_address_data max_multisig_addresses (d ∷ ds)
      (All-read_address_data (d ∷ ds) fd) nd)
read_snapshot_v1_lem (d ∷ ds) (w ∷ ws) fd nd = rw (
    read_array-write_array read_address_data write_address_data max_multisig_addresses (d ∷ ds)
      (All-read_address_data (d ∷ ds) fd) nd)

pub read_snapshot_many_addresses :
    (ds : List MultisigAddressData) (ws : List MultisigWalletRecord)
    → max_multisig_addresses < length ds
    → (read_snapshot_v2 (write_snapshot_v2 (snap ds ws)) ≡ none)
      × (read_snapshot_v1 (write_snapshot_v2 (snap ds ws)) ≡ none)
unfolding read_snapshot_v1 read_snapshot_v2 write_snapshot_v2
read_snapshot_many_addresses [] ws n = absurd (omega arith)
read_snapshot_many_addresses (d ∷ ds) [] n =
    rw (read_array_too_many read_address_data write_address_data max_multisig_addresses (d ∷ ds) n)
      (refl, refl)
read_snapshot_many_addresses (d ∷ ds) (w ∷ ws) n =
    rw (read_array_too_many read_address_data write_address_data max_multisig_addresses (d ∷ ds) n)
      (refl, refl)
