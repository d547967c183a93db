-- ===== src/MultisigStore/Cases.antt =====
-- The ways in which register_tx_ex of src/db/multisig_store.cpp ends, as one rule.
use xfo_lws.Base.{
  ℕ, ◌+◌, ◌-◌, ◌<◌, ◌≤◌, ◌≡◌, false, ◌&&◌, ◌||◌, none, some, ◌∷◌, [], ◌++◌, arith, inl, inr,
  Bool-cases, Option-cases, ltb, ◌==◌, ◌⊎◌,
}
use xfo_lws.Base.Strings.{String, blank}
use xfo_lws.Wire.{Rapidjson, u64_limit}
use xfo_lws.MultisigStore.Records.{MultisigTxRecord, MultisigAddressData}
use xfo_lws.MultisigStore.{
  MultisigStore, RegisterTxResult, DiskOutcome, inserted, updated, duplicate, invalid_input,
  overflow, slot_of, find_tx, backfill, credit, with_slot, persist, register_in_slot,
  register_tx_ex,
}

module _ (json : Rapidjson) (disk : DiskOutcome) (now : ℕ) (a h : String) (amount : ℕ)
    (context : String) (s : MultisigStore) where
  abbrev pub new_tx : MultisigTxRecord
  new_tx = record { tx_hash = h; amount = amount; timestamp = now; context = context }

  -- The outcome at a slot is `P` if it is so on each of the five ways out.
  pub register_in_slot_cases {ℓ} :
      (P : MultisigStore × RegisterTxResult → Type ℓ) (d : MultisigAddressData)
      → d.total_locked < u64_limit
      → ((tx : MultisigTxRecord)
          → find_tx h d.transactions ≡ some tx
          → tx.amount ≡ 0
          → 0 < amount
          → d.total_locked + amount < u64_limit
          → P (
              persist json disk updated (
                with_slot a
                  (credit (backfill h amount context d.transactions) amount context d)
                  s)))
      → ((tx : MultisigTxRecord)
          → find_tx h d.transactions ≡ some tx
          → tx.amount ≡ 0
          → u64_limit ≤ d.total_locked + amount
          → P (with_slot a d s, overflow))
      → ((tx : MultisigTxRecord)
          → find_tx h d.transactions ≡ some tx
          → (0 < tx.amount) ⊎ (amount ≡ 0)
          → P (with_slot a d s, duplicate))
      → (find_tx h d.transactions ≡ none
          → u64_limit ≤ d.total_locked + amount
          → P (with_slot a d s, overflow))
      → (find_tx h d.transactions ≡ none
          → d.total_locked + amount < u64_limit
          → P (
              persist json disk inserted
                (with_slot a (credit (d.transactions ++ new_tx ∷ []) amount context d) s)))
      → P (register_in_slot json disk now a h amount context s d)
  unfolding register_in_slot
  register_in_slot_cases P d bounded filled full known full' added =
      elim (Option-cases (find_tx h d.transactions)) [
        | inl e ↦ elim (Bool-cases (ltb (u64_limit - 1 - d.total_locked) amount)) [
          | inl over ↦ rw (e, register_in_slot) (rw over (full' e (ground arith)))
          | inr fits ↦ rw (e, register_in_slot) (rw fits (added e (ground arith)))
        ]
        | inr (tx, e) ↦ elim (Bool-cases (tx.amount == 0 && ltb 0 amount)) [
          | inl zero_amount ↦ elim (Bool-cases (ltb (u64_limit - 1 - d.total_locked) amount)) [
            | inl over ↦
                rw (e, register_in_slot)
                  (rw zero_amount (rw over (full tx e (ground arith) (ground arith))))
            | inr fits ↦
                rw (e, register_in_slot)
                  (rw zero_amount
                    (rw fits (filled tx e (ground arith) (ground arith) (ground arith))))
          ]
          | inr nonzero ↦ rw (e, register_in_slot) (rw nonzero (known tx e (ground arith)))
        ]
      ]

  -- So for register_tx_ex itself, at the slot that it finds or makes.
  pub register_tx_ex_cases {ℓ} :
      (P : MultisigStore × RegisterTxResult → Type ℓ)
      → P (s, invalid_input)
      → (blank a ≡ false
          → blank h ≡ false
          → P (register_in_slot json disk now a h amount context s (slot_of a s)))
      → P (register_tx_ex json disk now a h amount context s)
  unfolding register_tx_ex
  register_tx_ex_cases P refused entered = elim (Bool-cases (blank a || blank h)) [
    | inl e ↦ rw e refused
    | inr e ↦ rw e (entered (ground arith) (ground arith))
  ]
