-- ===== src/MultisigStore/Json.antt =====
-- The JSON form of the multisig store: read_bytes and write_bytes of src/db/multisig_store.cpp.
use xfo_lws.Base.{ℕ, Option, some, List, [], ◌∷◌}
use xfo_lws.Wire.{
  Value, text, unsigned, object, end, field, ◌>>=◌, read_string, read_unsigned, u32_limit,
  u64_limit, read_array, open_object, required, defaulted, array_field,
}
use xfo_lws.MultisigStore.Records.{
  MultisigTxRecord, MultisigWalletRecord, MultisigAddressData, MultisigSnapshot,
}

-- max_multisig_txs, max_multisig_addresses, max_multisig_wallets and max_participants
abbrev pub max_multisig_txs : ℕ
max_multisig_txs = 32

abbrev pub max_multisig_addresses : ℕ
max_multisig_addresses = 16

abbrev pub max_multisig_wallets : ℕ
max_multisig_wallets = 64

abbrev pub max_participants : ℕ
max_participants = 8

unfoldable pub read_tx : Value → Option MultisigTxRecord
unfolding open_object required
read_tx v = do
  seen ← open_object ("tx_hash" ∷ "amount" ∷ "timestamp" ∷ "context" ∷ []) v
  tx_hash ← required "tx_hash" read_string seen
  amount ← required "amount" (read_unsigned u64_limit) seen
  timestamp ← required "timestamp" (read_unsigned u64_limit) seen
  context ← required "context" read_string seen
  some (record { tx_hash = tx_hash; amount = amount; timestamp = timestamp; context = context })

unfoldable pub write_tx : MultisigTxRecord → Value
write_tx t = object (
    field "tx_hash" (text t.tx_hash) (
      field "amount" (unsigned t.amount)
        (field "timestamp" (unsigned t.timestamp) (field "context" (text t.context) end))))

unfoldable pub read_wallet : Value → Option MultisigWalletRecord
unfolding open_object required defaulted
read_wallet v = do
  seen ←
      open_object
        ("wallet_id" ∷ "address" ∷ "context" ∷ "threshold" ∷ "total" ∷ "participants" ∷ "status"
          ∷ "created_at" ∷ [])
        v
  wallet_id ← required "wallet_id" read_string seen
  address ← required "address" read_string seen
  context ← required "context" read_string seen
  threshold ← required "threshold" (read_unsigned u32_limit) seen
  total ← required "total" (read_unsigned u32_limit) seen
  participants ← defaulted "participants" (read_array read_string max_participants) [] seen
  status ← required "status" read_string seen
  created_at ← required "created_at" (read_unsigned u64_limit) seen
  some (record {
    wallet_id = wallet_id;
    address = address;
    context = context;
    threshold = threshold;
    total = total;
    participants = participants;
    status = status;
    created_at = created_at;
  })

unfoldable pub write_wallet : MultisigWalletRecord → Value
unfolding array_field
write_wallet w = object (
    field "wallet_id" (text w.wallet_id) (
      field "address" (text w.address) (
        field "context" (text w.context) (
          field "threshold" (unsigned w.threshold) (
            field "total" (unsigned w.total) (
              array_field "participants" text w.participants (
                field "status" (text w.status)
                  (field "created_at" (unsigned w.created_at) end))))))))

unfoldable pub read_address_data : Value → Option MultisigAddressData
unfolding open_object required defaulted
read_address_data v = do
  seen ← open_object ("address" ∷ "transactions" ∷ "total_locked" ∷ "primary_context" ∷ []) v
  address ← required "address" read_string seen
  transactions ← defaulted "transactions" (read_array read_tx max_multisig_txs) [] seen
  total_locked ← required "total_locked" (read_unsigned u64_limit) seen
  primary_context ← required "primary_context" read_string seen
  some (record {
    address = address;
    transactions = transactions;
    total_locked = total_locked;
    primary_context = primary_context;
  })

unfoldable pub write_address_data : MultisigAddressData → Value
unfolding array_field
write_address_data d = object (
    field "address" (text d.address) (
      array_field "transactions" write_tx d.transactions (
        field "total_locked" (unsigned d.total_locked)
          (field "primary_context" (text d.primary_context) end))))

-- read_bytes(wire::json_reader&, multisig_snapshot&)
unfoldable pub read_snapshot_v1 : Value → Option (List MultisigAddressData)
unfolding open_object defaulted
read_snapshot_v1 v = do
  seen ← open_object ("addresses" ∷ []) v
  defaulted "addresses" (read_array read_address_data max_multisig_addresses) [] seen

-- read_bytes(wire::json_reader&, multisig_snapshot_v2&)
unfoldable pub read_snapshot_v2 : Value → Option MultisigSnapshot
unfolding open_object defaulted
read_snapshot_v2 v = do
  seen ← open_object ("addresses" ∷ "wallets" ∷ []) v
  addresses ← defaulted "addresses" (read_array read_address_data max_multisig_addresses) [] seen
  wallets ← defaulted "wallets" (read_array read_wallet max_multisig_wallets) [] seen
  some (record { addresses = addresses; wallets = wallets })

unfoldable pub write_snapshot_v2 : MultisigSnapshot → Value
unfolding array_field
write_snapshot_v2 s = object (
    array_field "addresses" write_address_data s.addresses
      (array_field "wallets" write_wallet s.wallets end))
