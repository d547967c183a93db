-- ===== src/MultisigStore/Totals.antt =====
-- The invariant of the multisig store (src/db/multisig_store.cpp): each address locks the sum of its
-- transactions, and no transaction counts twice.
use xfo_lws.Base.{
  ℕ, ◌+◌, ◌<◌, ◌≡◌, refl, sym, subst, false, none, some, List, [], ◌∷◌, ◌++◌, arith, inl, inr,
  Bool-cases, Option-cases, if◌then◌else◌,
}
use xfo_lws.Base.Strings.{String, ◌=?◌, =?_comm, blank}
use xfo_lws.Base.Dict.{find, IsUnique, AllEntries, AllEntries-find, AllEntries-put, put-IsUnique}
use xfo_lws.Wire.{Rapidjson, u64_limit}
use xfo_lws.MultisigStore.Records.{MultisigTxRecord, MultisigAddressData}
use xfo_lws.MultisigStore.Cases.{register_in_slot_cases, register_tx_ex_cases}
use xfo_lws.MultisigStore.{
  inserted, updated, MultisigStore, RegisterTxResult, DiskOutcome, written, no_directory,
  not_opened, torn, slot_of, find_tx, backfill, credit, with_slot, save_locked, persist,
  register_in_slot, register_tx_ex,
}

abbrev pub sum_amounts : List MultisigTxRecord → ℕ
sum_amounts [] = 0
sum_amounts (t ∷ ts) = t.amount + sum_amounts ts

-- No transaction hash stands twice.
abbrev pub UniqueHashes : List MultisigTxRecord → Type 0
UniqueHashes [] = Unit
UniqueHashes (t ∷ ts) = (find_tx t.tx_hash ts ≡ none) × UniqueHashes ts

pub record IsSound (a : String) (d : MultisigAddressData) : Type 0 where
  pub own_address : d.address ≡ a
  pub unique : UniqueHashes d.transactions
  pub total : d.total_locked ≡ sum_amounts d.transactions
  pub bounded : d.total_locked < u64_limit

pub record IsValid (s : MultisigStore) : Type 0 where
  pub keys : IsUnique s.addresses
  pub slots : AllEntries IsSound s.addresses

filled-IsSound :
    (a : String) (d : MultisigAddressData)
    → IsSound a d
    → IsSound a (if blank d.address then record d { address = a } else d)
filled-IsSound a d h = elim (Bool-cases (blank d.address)) [
  | inl e ↦
      rw e (record { own_address = refl; unique = h.unique; total = h.total; bounded = h.bounded })
  | inr e ↦ rw e h
]

pub slot_of-IsSound : (a : String) (s : MultisigStore) → IsValid s → IsSound a (slot_of a s)
unfolding slot_of
slot_of-IsSound a s v = elim (Option-cases (find a s.addresses)) [
  | inl e ↦
      rw (e, slot_of)
        (record { own_address = refl; unique = tt; total = refl; bounded = omega arith })
  | inr (d, e) ↦
      rw (e, slot_of) (filled-IsSound a d (AllEntries-find IsSound a s.addresses v.slots e))
]

sum_amounts-append :
    (xs ys : List MultisigTxRecord) → sum_amounts (xs ++ ys) ≡ sum_amounts xs + sum_amounts ys
sum_amounts-append [] ys = omega arith
sum_amounts-append (x ∷ xs) ys = omega (arith, sum_amounts-append xs ys)

find_tx-append :
    (h : String) (xs : List MultisigTxRecord) (t : MultisigTxRecord)
    → find_tx h xs ≡ none
    → (t.tx_hash =? h) ≡ false
    → find_tx h (xs ++ t ∷ []) ≡ none
unfolding find_tx
find_tx-append h [] t e n = ground arith
find_tx-append h (x ∷ xs) t e n = ground (arith, find_tx-append h xs t)

append-UniqueHashes :
    (xs : List MultisigTxRecord) (t : MultisigTxRecord)
    → UniqueHashes xs
    → find_tx t.tx_hash xs ≡ none
    → UniqueHashes (xs ++ t ∷ [])
unfolding find_tx
append-UniqueHashes [] t u e = (refl, tt)
append-UniqueHashes (x ∷ xs) t u e =
    let apart : (t.tx_hash =? x.tx_hash) ≡ false = ground (arith, =?_comm t.tx_hash x.tx_hash) in
    (find_tx-append x.tx_hash xs t u.0 apart, append-UniqueHashes xs t u.1 (ground arith))

find_tx-backfill-none :
    (h j : String) (amount : ℕ) (context : String) (ts : List MultisigTxRecord)
    → find_tx j ts ≡ none
    → find_tx j (backfill h amount context ts) ≡ none
unfolding find_tx backfill
find_tx-backfill-none h j amount context [] e = refl
find_tx-backfill-none h j amount context (t ∷ ts) e =
    ground (arith, find_tx-backfill-none h j amount context ts)

backfill-UniqueHashes :
    (h : String) (amount : ℕ) (context : String) (ts : List MultisigTxRecord)
    → UniqueHashes ts
    → UniqueHashes (backfill h amount context ts)
unfolding backfill
backfill-UniqueHashes h amount context [] u = tt
backfill-UniqueHashes h amount context (t ∷ ts) u = ground (
  arith,
  find_tx-backfill-none h t.tx_hash amount context ts u.0,
  backfill-UniqueHashes h amount context ts u.1,
)

sum_amounts-backfill :
    (h : String) (amount : ℕ) (context : String) (ts : List MultisigTxRecord)
    {tx : MultisigTxRecord}
    → find_tx h ts ≡ some tx
    → tx.amount ≡ 0
    → sum_amounts (backfill h amount context ts) ≡ sum_amounts ts + amount
unfolding find_tx backfill
sum_amounts-backfill h amount context [] e z = cc
sum_amounts-backfill h amount context (t ∷ ts) {tx} e z =
    ground (arith, sum_amounts-backfill h amount context ts {tx = tx})

pub persist-addresses :
    (json : Rapidjson) (disk : DiskOutcome) (r : RegisterTxResult) (s : MultisigStore)
    → (persist json disk r s).0.addresses ≡ s.addresses
unfolding persist save_locked
persist-addresses json written r s = refl
persist-addresses json no_directory r s = refl
persist-addresses json not_opened r s = refl
persist-addresses json (torn left) r s = refl

IsValid-same : {s t : MultisigStore} → t.addresses ≡ s.addresses → IsValid s → IsValid t
IsValid-same e v = record {
  keys = subst IsUnique (sym e) v.keys;
  slots = subst (AllEntries IsSound) (sym e) v.slots;
}

with_slot-IsValid :
    (a : String) (d : MultisigAddressData) (s : MultisigStore)
    → IsValid s
    → IsSound a d
    → IsValid (with_slot a d s)
with_slot-IsValid a d s v h = record {
  keys = put-IsUnique a d s.addresses v.keys;
  slots = AllEntries-put IsSound a d s.addresses v.slots h;
}

pub persist-IsValid :
    (json : Rapidjson) (disk : DiskOutcome) (r : RegisterTxResult) (s : MultisigStore)
    → IsValid s
    → IsValid (persist json disk r s).0
persist-IsValid json disk r s v = IsValid-same (persist-addresses json disk r s) v

module _ (json : Rapidjson) (disk : DiskOutcome) (now : ℕ) (a h : String) (amount : ℕ)
    (context : String) (s : MultisigStore) where
  backfilled-IsSound :
      (d : MultisigAddressData) (tx : MultisigTxRecord)
      → IsSound a d
      → find_tx h d.transactions ≡ some tx
      → tx.amount ≡ 0
      → d.total_locked + amount < u64_limit
      → IsSound a (credit (backfill h amount context d.transactions) amount context d)
  backfilled-IsSound d tx v e z fits = record {
    own_address = v.own_address;
    unique = backfill-UniqueHashes h amount context d.transactions v.unique;
    total =
        omega (arith, v.total, sum_amounts-backfill h amount context d.transactions {tx = tx} e z);
    bounded = omega arith;
  }

  appended-IsSound :
      (d : MultisigAddressData)
      → IsSound a d
      → find_tx h d.transactions ≡ none
      → d.total_locked + amount < u64_limit
      → IsSound a (
          credit
            (d.transactions
              ++ record { tx_hash = h; amount = amount; timestamp = now; context = context } ∷ [])
            amount
            context
            d)
  appended-IsSound d v e fits = record {
    own_address = v.own_address;
    unique = append-UniqueHashes d.transactions _ v.unique e;
    total = omega (arith, v.total, sum_amounts-append d.transactions (new ∷ []));
    bounded = omega arith;
  }
    where
      new : MultisigTxRecord
      new = record { tx_hash = h; amount = amount; timestamp = now; context = context }

  register_in_slot-IsValid :
      (d : MultisigAddressData)
      → IsValid s
      → IsSound a d
      → IsValid (register_in_slot json disk now a h amount context s d).0
  register_in_slot-IsValid d v w =
      register_in_slot_cases json disk now a h amount context s (λ r. IsValid r.0) d w.bounded
        (λ tx e z _ fits.
          persist-IsValid json disk updated _
            (with_slot-IsValid a _ s v (backfilled-IsSound d tx w e z fits)))
        (λ _ _ _ _. with_slot-IsValid a d s v w) (λ _ _ _. with_slot-IsValid a d s v w)
        (λ _ _. with_slot-IsValid a d s v w)
        (λ e fits.
          persist-IsValid json disk inserted _
            (with_slot-IsValid a _ s v (appended-IsSound d w e fits)))

  -- register_tx_ex keeps the invariant, whatever it answers and whatever the disk does: addresses
  -- are distinct keys, every slot holds its own address, no transaction hash stands twice in a slot,
  -- and `total_locked` is the sum of the slot's amounts, below 2 ^ 64.
  pub register_tx_ex-IsValid :
      IsValid s → IsValid (register_tx_ex json disk now a h amount context s).0
  register_tx_ex-IsValid v =
      register_tx_ex_cases json disk now a h amount context s (λ r. IsValid r.0) v
        (λ _ _. register_in_slot-IsValid (slot_of a s) v (slot_of-IsSound a s v))
