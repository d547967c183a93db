-- ===== src/MultisigStore/Effects.antt =====
-- What a registration changes in src/db/multisig_store.cpp, and what a second one does.
use xfo_lws.Base.{ℕ, ◌+◌, ◌≡◌, ◌≢◌, refl, ap, ◌∙◌, arith, inl, inr, ◌⊎◌}
use xfo_lws.Base.Strings.{String}
use xfo_lws.Base.Dict.{find-put_self, find-put_ne}
use xfo_lws.Wire.{Rapidjson}
use xfo_lws.MultisigStore.Records.{MultisigAddressData}
use xfo_lws.MultisigStore.Cases.{register_in_slot_cases, register_tx_ex_cases}
use xfo_lws.MultisigStore.Totals.{IsValid, slot_of-IsSound, persist-addresses}
use xfo_lws.MultisigStore.{
  MultisigStore, RegisterTxResult, DiskOutcome, written, no_directory, not_opened, torn, slot_of,
  with_slot, save_locked, persist, register_tx_ex, inserted, updated, duplicate, invalid_input,
  overflow, io_error, get_balance,
}

-- The amount that a registration adds to its address, by its answer. A registration that could not
-- be saved (`io_error`) has been counted too.
abbrev pub credited : ℕ → RegisterTxResult → ℕ
credited amount inserted = amount
credited amount updated = amount
credited amount io_error = amount
credited amount duplicate = 0
credited amount invalid_input = 0
credited amount overflow = 0

pub persist-result :
    (json : Rapidjson) (disk : DiskOutcome) (r : RegisterTxResult) (s : MultisigStore)
    → ((persist json disk r s).1 ≡ r) ⊎ ((persist json disk r s).1 ≡ io_error)
unfolding persist save_locked
persist-result json written r s = inl refl
persist-result json no_directory r s = inr refl
persist-result json not_opened r s = inr refl
persist-result json (torn left) r s = inr refl

pub get_balance_same :
    (b : String) (s t : MultisigStore)
    → t.addresses ≡ s.addresses
    → get_balance b t ≡ get_balance b s
unfolding get_balance
get_balance_same b s t e = rw (e, get_balance)

pub get_balance-with_slot_self :
    (a : String) (d : MultisigAddressData) (s : MultisigStore) → get_balance a (with_slot a d s) ≡ d
unfolding get_balance
get_balance-with_slot_self a d s = rw (find-put_self a d s.addresses, get_balance)

get_balance-with_slot_ne :
    (a b : String) (d : MultisigAddressData) (s : MultisigStore)
    → a ≢ b
    → get_balance b (with_slot a d s) ≡ get_balance b s
unfolding get_balance
get_balance-with_slot_ne a b d s n = rw (find-put_ne a b d s.addresses n, get_balance)

-- The slot has the totals that the address had before.
slot_of-total :
    (a : String) (s : MultisigStore) → (slot_of a s).total_locked ≡ (get_balance a s).total_locked
unfolding slot_of get_balance
slot_of-total a s = ground arith

module _ (json : Rapidjson) (disk : DiskOutcome) (now : ℕ) (a h : String) (amount : ℕ)
    (context : String) (s : MultisigStore) where
  -- A registration leaves every other address as it was.
  pub register_tx_ex-other :
      (b : String)
      → IsValid s
      → a ≢ b
      → get_balance b (register_tx_ex json disk now a h amount context s).0 ≡ get_balance b s
  register_tx_ex-other b v n =
      register_tx_ex_cases json disk now a h amount context s
        (λ r. get_balance b r.0 ≡ get_balance b s) refl
        λ _ _.
          register_in_slot_cases json disk now a h amount context s
            (λ r. get_balance b r.0 ≡ get_balance b s) (slot_of a s) (slot_of-IsSound a s v).bounded
            (λ _ _ _ _ _. saved updated _) (λ _ _ _ _. kept _) (λ _ _ _. kept _) (λ _ _. kept _)
            (λ _ _. saved inserted _)
    where
      kept : (d : MultisigAddressData) → get_balance b (with_slot a d s) ≡ get_balance b s
      kept d = get_balance-with_slot_ne a b d s n

      saved :
          (r : RegisterTxResult) (d : MultisigAddressData)
          → get_balance b (persist json disk r (with_slot a d s)).0 ≡ get_balance b s
      saved r d = get_balance_same b _ _ (persist-addresses json disk r (with_slot a d s)) ∙ kept d

  abbrev pub Credits : MultisigStore × RegisterTxResult → Type 0
  Credits after =
      (get_balance a after.0).total_locked
      ≡ (get_balance a s).total_locked + credited amount after.1

  unchanged-Credits :
      (r : RegisterTxResult) → credited amount r ≡ 0 → Credits (with_slot a (slot_of a s) s, r)
  unchanged-Credits r z =
      rw (get_balance-with_slot_self a (slot_of a s) s) (omega (arith, slot_of-total a s))

  persisted-Credits :
      (r : RegisterTxResult) (d : MultisigAddressData)
      → credited amount r ≡ amount
      → d.total_locked ≡ (slot_of a s).total_locked + amount
      → Credits (persist json disk r (with_slot a d s))
  persisted-Credits r d c t =
      let balance : (get_balance a (persist json disk r (with_slot a d s)).0).total_locked
          ≡ d.total_locked =
        ap (λ (x : MultisigAddressData). x.total_locked)
          (get_balance_same a _ _ (persist-addresses json disk r (with_slot a d s))
            ∙ get_balance-with_slot_self a d s) in
      elim (persist-result json disk r (with_slot a d s)) [
        | inl e ↦ omega (arith, balance, t, slot_of-total a s, c, ap (credited amount) e)
        | inr e ↦ omega (arith, balance, t, slot_of-total a s, ap (credited amount) e)
      ]

  -- In a valid store, the address locks more by the amount if the answer is `inserted`, `updated` or
  -- `io_error`, and as much as before otherwise.
  pub register_tx_ex-Credits :
      IsValid s → Credits (register_tx_ex json disk now a h amount context s)
  register_tx_ex-Credits v =
      register_tx_ex_cases json disk now a h amount context s Credits (omega arith) λ _ _.
        register_in_slot_cases json disk now a h amount context s Credits (slot_of a s)
          (slot_of-IsSound a s v).bounded
          (λ _ _ _ _ fits. persisted-Credits updated _ refl (omega arith))
          (λ _ _ _ _. unchanged-Credits overflow refl) (λ _ _ _. unchanged-Credits duplicate refl)
          (λ _ _. unchanged-Credits overflow refl)
          (λ _ fits. persisted-Credits inserted _ refl (omega arith))
