-- ===== src/MultisigStore/Repeat.antt =====
-- Registering one transaction twice with register_tx_ex of src/db/multisig_store.cpp.
use xfo_lws.Base.{
  ℕ, ◌<◌, ◌≡◌, ◌≢◌, refl, ap, ◌∙◌, false, none, some, List, [], ◌∷◌, ◌++◌, arith, inl, inr,
  Bool-cases, ◌⊎◌, if◌then◌else◌,
}
use xfo_lws.Base.Strings.{String, ◌=?◌, =?_refl, blank}
use xfo_lws.Wire.{Rapidjson}
use xfo_lws.MultisigStore.Records.{MultisigTxRecord, MultisigAddressData}
use xfo_lws.MultisigStore.Cases.{new_tx, register_in_slot_cases, register_tx_ex_cases}
use xfo_lws.MultisigStore.Totals.{
  IsValid, slot_of-IsSound, persist-addresses, register_tx_ex-IsValid,
}
use xfo_lws.MultisigStore.Effects.{
  get_balance_same, get_balance-with_slot_self, register_tx_ex-Credits, credited,
}
use xfo_lws.MultisigStore.{
  MultisigStore, RegisterTxResult, DiskOutcome, slot_of, find_tx, backfill, with_slot, persist,
  register_in_slot, register_tx_ex, inserted, updated, duplicate, invalid_input, overflow,
  get_balance,
}

find_tx-append_self :
    (ts : List MultisigTxRecord) (t : MultisigTxRecord)
    → find_tx t.tx_hash ts ≡ none
    → find_tx t.tx_hash (ts ++ t ∷ []) ≡ some t
unfolding find_tx
find_tx-append_self [] t e = ground (arith, =?_refl t.tx_hash)
find_tx-append_self (x ∷ ts) t e = ground (arith, find_tx-append_self ts t)

find_tx-backfill_self :
    (h : String) (amount : ℕ) (context : String) (ts : List MultisigTxRecord)
    (tx : MultisigTxRecord)
    → find_tx h ts ≡ some tx
    → (t : MultisigTxRecord) × (find_tx h (backfill h amount context ts) ≡ some t)
      × (t.amount ≡ amount)
unfolding find_tx backfill
find_tx-backfill_self h amount context [] tx e = absurd (cc)
find_tx-backfill_self h amount context (x ∷ ts) tx e = elim (Bool-cases (x.tx_hash =? h)) [
  | inl same ↦ (
    record x { amount = amount; context = if blank x.context then context else x.context },
    ground arith,
    refl,
  )
  | inr other ↦
      let (t, f, same) = find_tx-backfill_self h amount context ts tx (ground arith) in
      (t, ground arith, same)
]

slot_of-transactions :
    (a : String) (s : MultisigStore) → (slot_of a s).transactions ≡ (get_balance a s).transactions
unfolding slot_of get_balance
slot_of-transactions a s = ground arith

-- The address knows the transaction, and its amount.
abbrev Knows : String → String → MultisigStore → Type 0
Knows a h s =
    (tx : MultisigTxRecord) × (find_tx h (get_balance a s).transactions ≡ some tx) × (0 < tx.amount)

Knows-with_slot :
    (a h : String) (d : MultisigAddressData) (s : MultisigStore) (tx : MultisigTxRecord)
    → find_tx h d.transactions ≡ some tx
    → 0 < tx.amount
    → Knows a h (with_slot a d s)
Knows-with_slot a h d s tx e p = (tx, rw (get_balance-with_slot_self a d s) e, p)

module _ (json : Rapidjson) (disk : DiskOutcome) (now : ℕ) (a h : String) (amount : ℕ)
    (context : String) (s : MultisigStore) where
  -- A transaction that the address knows with its amount is a duplicate, and nothing is written.
  register_known :
      IsValid s
      → blank a ≡ false
      → blank h ≡ false
      → Knows a h s
      → register_tx_ex json disk now a h amount context s ≡ (with_slot a (slot_of a s) s, duplicate)
  unfolding register_tx_ex register_in_slot
  register_known v ha hh (tx, e, p) =
      let found : find_tx h (slot_of a s).transactions ≡ some tx =
        ap (find_tx h) (slot_of-transactions a s) ∙ e in
      rw (ha, hh) (rw (found, register_in_slot) (ground arith))

  Knows-persist :
      (r : RegisterTxResult) (d : MultisigAddressData) (tx : MultisigTxRecord)
      → find_tx h d.transactions ≡ some tx
      → 0 < tx.amount
      → Knows a h (persist json disk r (with_slot a d s)).0
  Knows-persist r d tx e p = (
    tx,
    rw
        (get_balance_same a (with_slot a d s) (persist json disk r (with_slot a d s)).0
            (persist-addresses json disk r (with_slot a d s))
          ∙ get_balance-with_slot_self a d s)
        e,
    p,
  )

  abbrev Ends : MultisigStore × RegisterTxResult → Type 0
  Ends (s', r) =
      (r ≡ invalid_input)
      ⊎ ((r ≡ overflow) ⊎ ((blank a ≡ false) × (blank h ≡ false) × Knows a h s'))

  register_tx_ex-Knows :
      IsValid s → 0 < amount → Ends (register_tx_ex json disk now a h amount context s)
  register_tx_ex-Knows v pos =
      register_tx_ex_cases json disk now a h amount context s Ends (inl refl) λ ha hh.
        register_in_slot_cases json disk now a h amount context s Ends (slot_of a s)
          (slot_of-IsSound a s v).bounded
          (λ tx e _ _ _.
            let (t, f, same) =
              find_tx-backfill_self h amount context (slot_of a s).transactions tx e in
            inr (inr (ha, hh, Knows-persist updated _ t f (omega arith))))
          (λ _ _ _ _. inr (inl refl))
          (λ tx e k. inr (inr (ha, hh, Knows-with_slot a h (slot_of a s) s tx e (omega arith))))
          (λ _ _. inr (inl refl))
          (λ e _. inr (
            inr (
              ha,
              hh,
              Knows-persist inserted _ (new_tx json disk now a h amount context s)
                  (find_tx-append_self (slot_of a s).transactions
                    (new_tx json disk now a h amount context s) e)
                  pos,
            )))

-- In a valid store, a transaction that was registered with an amount above 0, by an answer other than
-- `invalid_input` and `overflow`, so also one whose save failed (`io_error`), is a
-- duplicate from then on, with any amount and context: the address locks no more, and the storage
-- file is not written again.
pub register_tx_ex_twice :
    (json : Rapidjson) (disk disk' : DiskOutcome) (now now' : ℕ) (a h : String) (amount amount' : ℕ)
    (context context' : String) (s : MultisigStore)
    → IsValid s
    → 0 < amount
    → (register_tx_ex json disk now a h amount context s).1 ≢ invalid_input
    → (register_tx_ex json disk now a h amount context s).1 ≢ overflow
    → let first = (register_tx_ex json disk now a h amount context s).0 in
      let again = register_tx_ex json disk' now' a h amount' context' first in
      (again.1 ≡ duplicate)
      × (again.0.file ≡ first.file)
      × ((get_balance a again.0).total_locked ≡ (get_balance a first).total_locked)
register_tx_ex_twice json disk disk' now now' a h amount amount' context context' s v pos n₁ n₂ =
    elim (register_tx_ex-Knows json disk now a h amount context s v pos) [
      | inl e ↦ absurd (n₁ e)
      | inr (inl e) ↦ absurd (n₂ e)
      | inr (inr (ha, hh, k)) ↦
          let first = (register_tx_ex json disk now a h amount context s).0 in
          let valid = register_tx_ex-IsValid json disk now a h amount context s v in
          let same = register_known json disk' now' a h amount' context' first valid ha hh k in
          (
            ap (λ (r : MultisigStore × RegisterTxResult). r.1) same,
            ap (λ (r : MultisigStore × RegisterTxResult). r.0.file) same,
            omega (
              arith,
              register_tx_ex-Credits json disk' now' a h amount' context' first valid,
              ap (λ (r : MultisigStore × RegisterTxResult). credited amount' r.1) same,
            ),
          )
    ]
