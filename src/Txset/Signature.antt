-- ===== src/Txset/Signature.antt =====
-- Who may sign an unstake transaction set: multisig_txset_signature of src/rest_server.cpp.
use xfo_lws.Base.{
  ℕ, ◌≡◌, refl, false, if◌then◌else◌, ◌==◌, inl, inr, sym, ap, subst, ◌∙◌, true, false, ◌||◌, not,
  some, arith, Bool-cases, Option-cases,
}
use xfo_lws.Base.Strings.{String, ◌=?◌, =?_iff}
use xfo_lws.Base.Dict.{find, find-put_self, find-put_ne}
use xfo_lws.Login.{Monero, Accounts, Expect, value, error, Expect-cases, open_account}
use xfo_lws.Txset.{TxsetRecord, Txsets, txset_content_hash, prune}
use xfo_lws.Txset.Signing.{
  SignatureRequest, SignatureResponse, check_signature, sign_record, sign_txset, txset_signature,
}

check_signature-success :
    (monero : Monero) (req : SignatureRequest) (refusal : SignatureResponse)
    → check_signature monero req ≡ some refusal
    → refusal.success ≡ false
unfolding check_signature
check_signature-success monero req refusal e = ground arith

-- A signature that is counted on the record `old` in `m`: the record has it in `m'`, the answer tells the
-- count, and no other record changes.
pub record Signed (monero : Monero) (later : ℕ) (req : SignatureRequest) (m m' : Txsets)
    (answer : SignatureResponse) : Type 0 where
  pub old : TxsetRecord
  pub found : find req.txset_id m ≡ some old
  pub wallet_id : old.wallet_id ≡ req.wallet_id
  pub multisig_address : old.multisig_address ≡ req.multisig_address
  pub owner : old.owner_address ≡ monero.get_account_address_as_str req.address
  pub signer : old.miner_address ≡ req.signer_address
  pub signed : TxsetRecord
  pub left : find req.txset_id m' ≡ some signed
  pub counted :
      signed.collected_signatures
      ≡ (if old.collected_signatures == 0 then 1 else old.collected_signatures)
  pub state : signed.state ≡ "needs_more_signatures"
  pub hash : signed.signed_tx_data_hash ≡ txset_content_hash monero req.signed_tx_data_hex
  pub updated : signed.updated_at ≡ later
  pub same_owner : signed.owner_address ≡ old.owner_address
  pub same_required : signed.required_signatures ≡ old.required_signatures
  pub told : answer.collected_signatures ≡ signed.collected_signatures
  pub others : (j : String) → (req.txset_id =? j) ≡ false → find j m' ≡ find j m

module _ (monero : Monero) (later : ℕ) (req : SignatureRequest) (m : Txsets) where
  sign_txset-Signed :
      (sign_txset monero later req m).1.success ≡ true
      → Signed monero later req m
          (sign_txset monero later req m).0
          (sign_txset monero later req m).1
  unfolding sign_txset sign_record
  sign_txset-Signed ok = elim (Option-cases (find req.txset_id m)) [
    | inl e ↦ absurd (ground (arith, e))
    | inr (r, e) ↦
        elim (Bool-cases (
          not (r.wallet_id =? req.wallet_id) || not (r.multisig_address =? req.multisig_address))) [
            | inl other ↦ absurd (ground (arith, e, other))
            | inr same ↦
                elim (Bool-cases (
                  not (r.owner_address =? monero.get_account_address_as_str req.address)
                  || not (r.miner_address =? req.signer_address))) [
                    | inl stranger ↦ absurd (ground (arith, e, same, stranger))
                    | inr owner ↦ record {
                      old = r;
                      found = e;
                      wallet_id = (=?_iff r.wallet_id req.wallet_id).0 (ground arith);
                      multisig_address =
                          (=?_iff r.multisig_address req.multisig_address).0 (ground arith);
                      owner = (=?_iff r.owner_address _).0 (ground arith);
                      signer = (=?_iff r.miner_address req.signer_address).0 (ground arith);
                      signed = sign_record monero later req r;
                      left =
                          rw (e, sign_txset) (rw same (rw owner (find-put_self req.txset_id _ m)));
                      counted = ground arith;
                      state = refl;
                      hash = refl;
                      updated = refl;
                      same_owner = refl;
                      same_required = refl;
                      told = rw (e, sign_txset) (rw same (rw owner refl));
                      others = λ j ne.
                          rw (e, sign_txset)
                            (rw same (
                              rw owner (
                                find-put_ne req.txset_id j _ m
                                  (ground (arith, =?_iff req.txset_id j, ne)))));
                    }
                  ]
          ]
  ]

abbrev answer_or : SignatureResponse → Expect SignatureResponse → SignatureResponse
answer_or other (value answer) = answer
answer_or other (error e) = other

module _ (monero : Monero) (accounts : Accounts) (now later : ℕ) (req : SignatureRequest)
    (m : Txsets) where
  -- Only the owner signs: a signature that is answered with success comes with the owner's
  -- credentials, for a live record with the request's wallet and address, whose miner is the signer. The
  -- record has collected a signature afterwards, one more than none and no more than before otherwise, as
  -- the answer tells, with the hash of what was signed, and waits for more; every other record is as the
  -- prune left it.
  pub txset_signature-Signed :
      (answer : SignatureResponse)
      → (txset_signature monero accounts now later req m).1 ≡ value answer
      → answer.success ≡ true
      → ((user : ℕ) × (open_account monero accounts
              (record { address = req.address; key = req.key })
            ≡ value user))
        × Signed monero later req
            (prune now m)
            (txset_signature monero accounts now later req m).0
            answer
  unfolding txset_signature
  txset_signature-Signed answer e ok =
      elim (Expect-cases
        (open_account monero accounts (record { address = req.address; key = req.key }))) [
          | inl (u, login) ↦ elim (Option-cases (check_signature monero req)) [
            | inl passed ↦
                let answered : value answer ≡ value (sign_txset monero later req (prune now m)).1 =
                  sym e ∙ rw (login, txset_signature) (rw passed) in
                let success : (sign_txset monero later req (prune now m)).1.success ≡ true =
                  ground (arith, answered, ok) in
                (
                  (u, login),
                  rw (login, txset_signature)
                      (rw passed (
                        subst
                          (Signed monero later req (prune now m)
                            (sign_txset monero later req (prune now m)).0)
                          (sym (ap (answer_or answer) answered))
                          (sign_txset-Signed monero later req (prune now m) success))),
                )
            | inr (refusal, failed) ↦
                let answered : value answer ≡ value refusal =
                  sym e ∙ rw (login, txset_signature) (rw failed) in
                absurd
                  (ground (arith, check_signature-success monero req refusal failed, answered, ok))
          ]
          | inr (x, login) ↦
              let answered : value answer ≡ error x = sym e ∙ rw (login, txset_signature) in
              absurd (cc)
        ]
