-- ===== src/Users/Queued.antt =====
-- creation_request and reject_requests of src/db/storage.cpp: the bound on the requests that wait.
use xfo_lws.Base.{
  ℕ, suc, ◌<◌, ◌≤◌, ◌≡◌, ap, ◌∙◌, ◌&&◌, none, some, [], ◌∷◌, leb, ◌==◌, Bool-cases, Option-cases,
  refl, ◌⊎◌, inl, inr, arith,
}
use xfo_lws.Base.Rows.{Rows, find_row, put_row, erase_row, find_row-put_row, find_row-erase_row}
use xfo_lws.Base.Table.{lookup}
use xfo_lws.Subaddress.Lookahead.{AddressIndex}
use xfo_lws.Users.{
  Address, ByAddress, RequestInfo, Tables, account_exists, create_queue_max, duplicate_request,
  Expect, success, failed, create,
}
use xfo_lws.Users.Requests.{count_rows, put_request, create_info, creation_request, reject_requests}

count_rows-put_row :
    {V : Type 0} (k i : ℕ) (v : V) (rows : Rows V)
    → find_row k i rows ≡ none
    → count_rows k (put_row k i v rows) ≡ suc (count_rows k rows)
unfolding find_row put_row count_rows
count_rows-put_row k i v [] h = ground arith
count_rows-put_row k i v (((j, n), w) ∷ rows) h = elim (Bool-cases ((j == k) && (n == i))) [
  | inl e ↦ absurd (cc (rw e at h))
  | inr e ↦ ground (arith, e, count_rows-put_row k i v rows (rw e at h))
]

-- A request that is queued: it is one of no more than `queue_max`, and to reject it takes it away again.
abbrev pub Queued : ℕ → Address → Tables → Tables → Type 0
Queued queue_max address t t' =
    (count_rows create t'.requests ≡ suc (count_rows create t.requests))
    × (count_rows create t'.requests ≤ queue_max)
    × ((reject_requests create (address ∷ []) t').0 ≡ address ∷ [])
    × ((k i : ℕ)
        → find_row k i (reject_requests create (address ∷ []) t').1.requests
          ≡ find_row k i t.requests)

abbrev with_requests : Rows RequestInfo → Tables → Tables
with_requests rows t = record t { requests = rows }

rejected_one :
    (address : Address) (info : RequestInfo) (t : Tables)
    → find_row create address.spend_public t.requests ≡ some info
    → reject_requests create (address ∷ []) t
      ≡ (address ∷ [], with_requests (erase_row create address.spend_public t.requests) t)
unfolding reject_requests
rejected_one address info t h =
    ap
      (λ o. elim o [
        | none ↦ ([], t)
        | some old ↦
            (address ∷ [], with_requests (erase_row create address.spend_public t.requests) t)
      ])
      h

put_request-fresh :
    (info : RequestInfo) (t : Tables)
    → find_row create info.address.spend_public t.requests ≡ none
    → put_request create info t
      ≡ success (with_requests (put_row create info.address.spend_public info t.requests) t)
unfolding put_request
put_request-fresh info t h =
    ap
      (λ o. elim o [
        | some old ↦ failed duplicate_request
        | none ↦
            success (with_requests (put_row create info.address.spend_public info t.requests) t)
      ])
      h

put-Queued :
    (queue_max : ℕ) (address : Address) (info : RequestInfo) (t : Tables)
    → count_rows create t.requests < queue_max
    → find_row create address.spend_public t.requests ≡ none
    → Queued queue_max address t
        (with_requests (put_row create address.spend_public info t.requests) t)
put-Queued queue_max address info t room fresh =
    let i = address.spend_public in
    let t' = with_requests (put_row create i info t.requests) t in
    let counted = count_rows-put_row create i info t.requests fresh in
    let there : find_row create i t'.requests ≡ some info =
      ground (arith, find_row-put_row create i create i info t.requests) in
    let rejected = rejected_one address info t' there in
    (
      counted,
      omega (arith, counted, room),
      ap (λ z. z.0) rejected,
      (λ k j.
          ap (λ z. find_row k j (z.1).requests) rejected
          ∙ ground (
            arith,
            find_row-erase_row create i k j t'.requests,
            find_row-put_row create i k j info t.requests,
            fresh,
          )),
    )

-- What creation_request answers: each error has its reason, and without any of them a request is queued.
abbrev pub Answered : ℕ → Address → Tables → Expect Tables → Type 0
Answered queue_max address t (success t') =
    Queued queue_max address t t'
    × (lookup address.view_public t.by_address ≡ none)
    × (find_row create address.spend_public t.requests ≡ none)
Answered queue_max address t (failed e) =
    ((e ≡ create_queue_max) × (queue_max ≤ count_rows create t.requests))
    ⊎ (((e ≡ account_exists)
          × ((b : ByAddress) × (lookup address.view_public t.by_address ≡ some b)))
        ⊎ ((e ≡ duplicate_request)
            × ((info : RequestInfo) × (find_row create address.spend_public t.requests
                  ≡ some info))))

put_request-again :
    (info old : RequestInfo) (t : Tables)
    → find_row create info.address.spend_public t.requests ≡ some old
    → put_request create info t ≡ failed duplicate_request
unfolding put_request
put_request-again info old t h =
    ap
      (λ o. elim o [
        | some old ↦ failed duplicate_request
        | none ↦
            success (with_requests (put_row create info.address.spend_public info t.requests) t)
      ])
      h

-- creation_request fails when as many requests wait as the limit allows, when the address has an account,
-- or when it has a request, and with the error for it. Otherwise one request more waits, no more than the
-- limit, and to reject it leaves the requests of before.
pub creation_request-Queued :
    (queue_max : ℕ) (address : Address) (key flags : ℕ) (lookahead : AddressIndex)
    (current_time : ℕ) (t : Tables)
    → Answered queue_max address t
        (creation_request queue_max address key flags lookahead current_time t)
unfolding creation_request
creation_request-Queued queue_max address key flags lookahead current_time t =
    elim (Bool-cases (queue_max == 0)) [
      | inl nothing ↦ rw nothing (inl (refl, ground (arith, nothing)))
      | inr some_room ↦ elim (Option-cases (lookup address.view_public t.by_address)) [
        | inr (b, there) ↦ rw (some_room, there) (inr (inl (refl, (b, there))))
        | inl h ↦ elim (Bool-cases (leb queue_max (count_rows create t.requests))) [
          | inl full ↦ rw (some_room, h, full) (inl (refl, ground (arith, full)))
          | inr free ↦ elim (Option-cases (find_row create address.spend_public t.requests)) [
            | inr (old, there) ↦
                rw (some_room, h, free, put_request-again info old t there)
                  (inr (inr (refl, (old, there))))
            | inl fresh ↦
                rw (some_room, h, free, put_request-fresh info t fresh)
                  (put-Queued queue_max address info t (ground (arith, free)) fresh, h, fresh)
          ]
        ]
      ]
    ]
  where
    info : RequestInfo
    info = create_info address key flags lookahead current_time t
