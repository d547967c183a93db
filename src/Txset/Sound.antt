-- ===== src/Txset/Sound.antt =====
-- The records of unstake transaction sets (src/rest_server.cpp) that are well formed.
use Prim.Native.String
use xfo_lws.Base.{ℕ, ◌≡◌, ◌≢◌, ◌⊎◌, inl, inr, refl, sym, ◌∙◌, false, none, arith, Bool-cases}
use xfo_lws.Base.Strings.{String, =?_iff, blank}
use xfo_lws.Login.{Monero}
use text.Mathlib.TextLemmas.{append-ne-nil_of_right_ne-nil, cons-ne-nil, cons-append}
use xfo_lws.Txset.{TxsetRecord, empty_record, stable_txset_id}
use xfo_lws.Txset.Registering.{RegisterRequest, check_register, registered}

-- A txset waits for two signatures, and the registry collects one at most. Its miner is its owner.
pub record IsSound (k : String) (r : TxsetRecord) : Type 0 where
  pub own_id : r.txset_id ≡ k
  pub named : blank k ≡ false
  pub required : r.required_signatures ≡ 2
  pub unsubmitted : r.submitted_tx_hash ≡ ""
  pub owner : r.miner_address ≡ r.owner_address
  pub progress :
      ((r.state ≡ "registered") × (r.collected_signatures ≡ 0))
      ⊎ ((r.state ≡ "needs_more_signatures") × (r.collected_signatures ≡ 1))

pub colon-ne-nil : (s : String) → String.◌++◌ ":" s ≢ ""
colon-ne-nil s p = cons-ne-nil _ _ (sym (cons-append _ "" s) ∙ p)

pub stable_txset_id-named :
    (monero : Monero) (a b c : String) → blank (stable_txset_id monero a b c) ≡ false
unfolding stable_txset_id
stable_txset_id-named monero a b c = elim (Bool-cases (blank (stable_txset_id monero a b c))) [
  | inl e ↦ absurd (
      append-ne-nil_of_right_ne-nil a (colon-ne-nil _)
        ((=?_iff (stable_txset_id monero a b c) "").0 e))
  | inr e ↦ e
]

pub registered-IsSound :
    (monero : Monero) (now : ℕ) (req : RegisterRequest) (k : String) (r : TxsetRecord)
    → IsSound k r
    → IsSound k (registered monero now req k r)
unfolding registered
registered-IsSound monero now req k r v =
    let kept : blank r.txset_id ≡ false = ground (arith, v.own_id, v.named) in
    rw kept (record {
      own_id = v.own_id;
      named = v.named;
      required = v.required;
      unsubmitted = v.unsubmitted;
      owner = v.owner;
      progress = v.progress;
    })

-- A new record is sound if the checks before it have compared the miner with the owner.
pub registered-new_IsSound :
    (monero : Monero) (now : ℕ) (req : RegisterRequest) (k : String)
    → blank k ≡ false
    → req.miner_address ≡ monero.get_account_address_as_str req.address
    → IsSound k (registered monero now req k empty_record)
unfolding registered
registered-new_IsSound monero now req k named miner = record {
  own_id = refl;
  named = named;
  required = refl;
  unsubmitted = refl;
  owner = miner;
  progress = inl (refl, refl);
}

pub check_register-miner :
    (monero : Monero) (req : RegisterRequest)
    → check_register monero req ≡ none
    → req.miner_address ≡ monero.get_account_address_as_str req.address
unfolding check_register
check_register-miner monero req e =
    ground (arith, =?_iff req.miner_address (monero.get_account_address_as_str req.address))
