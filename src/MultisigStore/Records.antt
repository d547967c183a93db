-- ===== src/MultisigStore/Records.antt =====
-- The records of src/db/multisig_store.h.
use xfo_lws.Base.{ℕ, List}
use xfo_lws.Base.Strings.{String}

pub record MultisigTxRecord : Type 0 where
  pub tx_hash : String
  pub amount : ℕ
  pub timestamp : ℕ
  pub context : String

pub record MultisigWalletRecord : Type 0 where
  pub wallet_id : String
  pub address : String
  pub context : String
  pub threshold : ℕ
  pub total : ℕ
  pub participants : List String
  pub status : String
  pub created_at : ℕ

pub record MultisigAddressData : Type 0 where
  pub address : String
  pub transactions : List MultisigTxRecord
  pub total_locked : ℕ
  pub primary_context : String

-- multisig_snapshot_v2; the first version has the addresses alone.
pub record MultisigSnapshot : Type 0 where
  pub addresses : List MultisigAddressData
  pub wallets : List MultisigWalletRecord
