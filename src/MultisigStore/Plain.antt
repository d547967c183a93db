-- ===== src/MultisigStore/Plain.antt =====
-- The documents that the multisig store (src/db/multisig_store.cpp) prints hold integers of 64 bits.
use xfo_lws.MultisigStore.JsonLaws.{TxInRange, WalletInRange, DataInRange}
use xfo_lws.Base.{◌<◌, ◌≡◌, refl, List, [], ◌∷◌, All}
use xfo_lws.Base.Strings.{String}
use xfo_lws.Wire.{text, u64_limit, write_array, IsPlain}
use xfo_lws.Wire.RoundTrip.{PlainItems-text, u32-u64, PlainItems-write_items}
use xfo_lws.MultisigStore.Records.{MultisigTxRecord, MultisigWalletRecord, MultisigAddressData}
use xfo_lws.MultisigStore.Json.{write_tx, write_wallet, write_address_data, write_snapshot_v2}

-- What is written is a document of 64-bit integers.
IsPlain-write_tx :
    (ts : List MultisigTxRecord) → All TxInRange ts → All (λ t. IsPlain (write_tx t)) ts
unfolding write_tx
IsPlain-write_tx [] h = tt
IsPlain-write_tx (t ∷ ts) h =
    ((tt, (h.0.amount, (h.0.timestamp, (tt, tt)))), IsPlain-write_tx ts h.1)

IsPlain-write_wallet :
    (w : MultisigWalletRecord) (ps : List String)
    → w.participants ≡ ps
    → WalletInRange w
    → IsPlain (write_wallet w)
unfolding write_wallet
IsPlain-write_wallet w [] e h =
    rw e (tt, (tt, (tt, (u32-u64 h.threshold, (u32-u64 h.total, (tt, (h.created_at, tt)))))))
IsPlain-write_wallet w (p ∷ ps) e h = rw e (
  tt,
  (
    tt,
    (
      tt,
      (
        u32-u64 h.threshold,
        (
          u32-u64 h.total,
          (
            unfold write_array in PlainItems-write_items text (p ∷ ps) (PlainItems-text (p ∷ ps)),
            (tt, (h.created_at, tt)),
          ),
        ),
      ),
    ),
  ),
)

IsPlain-write_address_data :
    (d : MultisigAddressData) (ts : List MultisigTxRecord)
    → d.transactions ≡ ts
    → All TxInRange ts
    → d.total_locked < u64_limit
    → IsPlain (write_address_data d)
unfolding write_address_data
IsPlain-write_address_data d [] e h u = rw e (tt, (u, (tt, tt)))
IsPlain-write_address_data d (t ∷ ts) e h u = rw e (
  tt,
  (
    unfold write_array in PlainItems-write_items write_tx (t ∷ ts) (IsPlain-write_tx (t ∷ ts) h),
    (u, (tt, tt)),
  ),
)

All-IsPlain_data :
    (ds : List MultisigAddressData)
    → All DataInRange ds
    → All (λ d. IsPlain (write_address_data d)) ds
All-IsPlain_data [] h = tt
All-IsPlain_data (d ∷ ds) h = (
  IsPlain-write_address_data d d.transactions refl h.0.transactions h.0.total_locked,
  All-IsPlain_data ds h.1,
)

All-IsPlain_wallet :
    (ws : List MultisigWalletRecord) → All WalletInRange ws → All (λ w. IsPlain (write_wallet w)) ws
All-IsPlain_wallet [] h = tt
All-IsPlain_wallet (w ∷ ws) h =
    (IsPlain-write_wallet w w.participants refl h.0, All-IsPlain_wallet ws h.1)

pub IsPlain-write_snapshot_v2 :
    (ds : List MultisigAddressData) (ws : List MultisigWalletRecord)
    → All DataInRange ds
    → All WalletInRange ws
    → IsPlain (write_snapshot_v2 (record { addresses = ds; wallets = ws }))
unfolding write_snapshot_v2
IsPlain-write_snapshot_v2 [] [] hd hw = tt
IsPlain-write_snapshot_v2 [] (w ∷ ws) hd hw = (
  unfold write_array in
      PlainItems-write_items write_wallet (w ∷ ws) (All-IsPlain_wallet (w ∷ ws) hw),
  tt,
)
IsPlain-write_snapshot_v2 (d ∷ ds) [] hd hw = (
  unfold write_array in
      PlainItems-write_items write_address_data (d ∷ ds) (All-IsPlain_data (d ∷ ds) hd),
  tt,
)
IsPlain-write_snapshot_v2 (d ∷ ds) (w ∷ ws) hd hw = (
  unfold write_array in
      PlainItems-write_items write_address_data (d ∷ ds) (All-IsPlain_data (d ∷ ds) hd),
  (
    unfold write_array in
        PlainItems-write_items write_wallet (w ∷ ws) (All-IsPlain_wallet (w ∷ ws) hw),
    tt,
  ),
)
