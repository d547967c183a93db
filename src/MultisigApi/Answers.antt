-- ===== src/MultisigApi/Answers.antt =====
-- What the handlers of MultisigApi answer, and how their answers agree (src/rest_server.cpp).
use xfo_lws.Base.{
  ℕ, ◌+◌, ◌<◌, ◌≡◌, ◌⊎◌, inl, inr, refl, sym, ap, subst, ◌∙◌, true, arith, Bool-cases, Option-cases,
  ◌==◌,
}
use xfo_lws.Base.Strings.{String}
use xfo_lws.Base.Dict.{find, AllEntries-find}
use xfo_lws.Login.{Monero, Expect, value, error, parse_address, Expect-cases}
use xfo_lws.Wire.{Rapidjson}
use xfo_lws.MultisigStore.{
  MultisigStore, RegisterTxResult, inserted, updated, duplicate, invalid_input, overflow, io_error,
  DiskOutcome, register_tx_ex, get_balance, get_transactions,
}
use xfo_lws.MultisigStore.Totals.{IsSound, IsValid, sum_amounts}
use xfo_lws.MultisigStore.Effects.{credited, register_tx_ex-Credits}
use xfo_lws.MultisigApi.{
  Decoder, RegisterTxRequest, RegisterTxResponse, answer_tx, refuse_tx, Decoded, refused, decoded,
  decode_request, multisig_register, TransactionsResponse, multisig_txs,
}

-- The total is the sum of the amounts.
abbrev Sums : Expect TransactionsResponse → Type 0
Sums (value answer) = answer.total_locked ≡ sum_amounts answer.transactions
Sums (error e) = Unit

module _ (monero : Monero) (address : String) (s : MultisigStore) where
  balance-sum_amounts :
      IsValid s → (get_balance address s).total_locked ≡ sum_amounts (get_transactions address s)
  unfolding get_balance get_transactions
  balance-sum_amounts v = elim (Option-cases (find address s.addresses)) [
    | inl e ↦ rw (e, get_balance, get_transactions) refl
    | inr (d, e) ↦
        rw (e, get_balance, get_transactions)
          (AllEntries-find IsSound address s.addresses v.slots e).total
  ]

  multisig_txs-Sums : IsValid s → Sums (multisig_txs monero address s)
  unfolding multisig_txs
  multisig_txs-Sums v = elim (Expect-cases (parse_address monero address)) [
    | inl (a, ok) ↦ rw (ok, multisig_txs) (balance-sum_amounts v)
    | inr (e, bad) ↦ rw (bad, multisig_txs) tt
  ]

  -- On a valid store, the total that multisig_txs answers is the sum of the amounts of the transactions
  -- it answers.
  pub multisig_txs-sum_amounts :
      (answer : TransactionsResponse)
      → IsValid s
      → multisig_txs monero address s ≡ value answer
      → answer.total_locked ≡ sum_amounts answer.transactions
  multisig_txs-sum_amounts answer v e = subst Sums e (multisig_txs-Sums v)

-- The decoded amount is above 0.
abbrev Positive : Decoded → Type 0
Positive (refused message) = Unit
Positive (decoded h amount) = 0 < amount

decode_request-Positive :
    (monero : Monero) (dec : Decoder) (req : RegisterTxRequest)
    → Positive (decode_request monero dec req)
unfolding decode_request
decode_request-Positive monero dec req =
    elim (Expect-cases (parse_address monero req.multisig_address)) [
      | inr (e, bad) ↦ rw (bad, decode_request) tt
      | inl (a, ok) ↦ elim (Option-cases (dec.hex_to_pod req.tx_hash)) [
        | inl no_hash ↦ rw (ok, decode_request) (rw no_hash tt)
        | inr (h, hash) ↦ elim (Option-cases (dec.hex_to_pod req.tx_key)) [
          | inl no_key ↦ rw (ok, decode_request) (rw hash (rw no_key tt))
          | inr (k, key) ↦ elim (Option-cases (dec.decode_amount a h k)) [
            | inl not_decoded ↦ rw (ok, decode_request) (rw hash (rw key (rw not_decoded tt)))
            | inr (amount, found) ↦ elim (Bool-cases (amount == 0)) [
              | inl z ↦ rw (ok, decode_request) (rw hash (rw key (rw found (rw z tt))))
              | inr p ↦ rw (ok, decode_request) (rw hash (rw key (rw found (rw p (ground arith)))))
            ]
          ]
        ]
      ]
    ]

decode_request-positive :
    (monero : Monero) (dec : Decoder) (req : RegisterTxRequest) (h amount : ℕ)
    → decode_request monero dec req ≡ decoded h amount
    → 0 < amount
decode_request-positive monero dec req h amount e =
    subst Positive e (decode_request-Positive monero dec req)

-- What an answer with success says, where the address locked `before` and locks `total` now: it locks
-- more by an amount above 0, or the transaction was there.
abbrev pub Locks : ℕ → ℕ → RegisterTxResponse → Type 0
Locks before total answer =
    (0 < answer.decoded_amount)
    × ((total ≡ before + answer.decoded_amount)
        ⊎ ((answer.message ≡ "Transaction already registered") × (total ≡ before)))

answer_tx-Locks :
    (amount before total : ℕ) (r : RegisterTxResult)
    → 0 < amount
    → total ≡ before + credited amount r
    → (answer_tx amount r).success ≡ true
    → Locks before total (answer_tx amount r)
answer_tx-Locks amount before total inserted p c h = (p, inl c)
answer_tx-Locks amount before total updated p c h = (p, inl c)
answer_tx-Locks amount before total duplicate p c h = (p, inr (refl, omega (arith, c)))
answer_tx-Locks amount before total invalid_input p c h = absurd (cc (h))
answer_tx-Locks amount before total overflow p c h = absurd (cc (h))
answer_tx-Locks amount before total io_error p c h = absurd (cc (h))

decode_request-cases :
    (d : Decoded)
    → ((message : String) × (d ≡ refused message))
      ⊎ ((h : ℕ) × (amount : ℕ) × (d ≡ decoded h amount))
decode_request-cases (refused message) = inl (message, refl)
decode_request-cases (decoded h amount) = inr (h, amount, refl)

module _ (monero : Monero) (dec : Decoder) (json : Rapidjson) (disk : DiskOutcome) (now : ℕ)
    (req : RegisterTxRequest) (s : MultisigStore) where
  abbrev after : MultisigStore × RegisterTxResponse
  after = multisig_register monero dec json disk now req s

  -- On a valid store, a registration that is answered with success has an amount above 0, which is
  -- what the address locks more, or the transaction was there and the address locks what it did.
  pub multisig_register-Locks :
      IsValid s
      → after.1.success ≡ true
      → Locks
          (get_balance req.multisig_address s).total_locked
          (get_balance req.multisig_address after.0).total_locked
          after.1
  unfolding multisig_register
  multisig_register-Locks v h = elim (decode_request-cases (decode_request monero dec req)) [
    | inl (message, e) ↦ absurd (
        cc (h, ap (λ (x : MultisigStore × RegisterTxResponse). x.1.success) (refused_as message e)))
    | inr (tx_hash, amount, e) ↦
        let result : MultisigStore × RegisterTxResult =
          register_tx_ex json disk now req.multisig_address (dec.pod_to_hex tx_hash) amount
            req.context s in
        let same : after ≡ (result.0, answer_tx amount result.1) = rw (e, multisig_register) refl in
        subst
          (λ (x : MultisigStore × RegisterTxResponse).
            Locks (get_balance req.multisig_address s).total_locked
              (get_balance req.multisig_address x.0).total_locked x.1)
          (sym same)
          (answer_tx-Locks amount _ _ result.1
            (decode_request-positive monero dec req tx_hash amount e)
            (register_tx_ex-Credits json disk now req.multisig_address (dec.pod_to_hex tx_hash)
              amount req.context s v)
            (sym (ap (λ (x : MultisigStore × RegisterTxResponse). x.1.success) same) ∙ h))
  ]
    where
      refused_as :
          (message : String)
          → decode_request monero dec req ≡ refused message
          → after ≡ (s, refuse_tx message)
      refused_as message e = rw (e, multisig_register) refl
