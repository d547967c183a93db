-- ===== src/Account/Outputs.antt =====
-- What lws::account (src/db/account.cpp) answers about its outputs, compared with linear searches.
use xfo_lws.Base.{
  ℕ, ◌<◌, ◌≡◌, refl, sym, ◌∙◌, subst, Bool, true, false, ◌||◌, Option, none, some, List, [], ◌∷◌,
  ◌++◌, ltb, ◌==◌, if◌then◌else◌, All, arith, ◌⊎◌, inl, inr, Bool-cases, any,
}
use xfo_lws.Account.{
  Spendable, Output, Spend, Account, before_spendable, lower_bound, insert_at_lower_bound, is_first,
  recipient_at, new_account, clone, updated, get_spendable, add_out, add_spend,
}
use xfo_lws.Account.Sorted.{
  IsSorted, sort-IsSorted, insert_at_lower_bound-IsSorted, ltb-IsOrder, before_spendable-IsOrder,
  any-insert_at_lower_bound,
}

pub record IsValid (a : Account) : Type 0 where
  pub spendable : IsSorted before_spendable a.spendable
  pub pubs : IsSorted ltb a.pubs

-- A search from the front.
abbrev pub find_spendable : ℕ → List Spendable → Option ℕ
find_spendable id [] = none
find_spendable id (s ∷ ss) = if s.id == id then some s.recipient else find_spendable id ss

find_spendable-none :
    (id : ℕ) (s : Spendable) (ss : List Spendable)
    → id < s.id
    → All (λ r. before_spendable r s ≡ false) ss
    → find_spendable id ss ≡ none
find_spendable-none id s [] lt h = refl
find_spendable-none id s (r ∷ rs) lt h =
    let other : (r.id == id) ≡ false = ground (arith, h.0, lt) in
    rw other (find_spendable-none id s rs lt h.1)

lower_bound-find :
    (id : ℕ) (ss : List Spendable)
    → IsSorted before_spendable ss
    → recipient_at id (lower_bound before_spendable (record { id = id; recipient = 0 }) ss)
      ≡ find_spendable id ss
unfolding lower_bound
lower_bound-find id [] h = refl
lower_bound-find id (s ∷ ss) h = elim (Bool-cases (ltb s.id id)) [
  | inl e ↦
      let earlier : before_spendable s (record { id = id; recipient = 0 }) ≡ true =
        ground (arith, e) in
      let other : (s.id == id) ≡ false = ground (arith, e) in
      rw (earlier, other) (lower_bound-find id ss h.1)
  | inr e ↦
      let later : before_spendable s (record { id = id; recipient = 0 }) ≡ false =
        ground (arith, e) in
      elim (Bool-cases (s.id == id)) [
        | inl f ↦ rw (later, f) refl
        | inr f ↦ rw (later, f) (sym (find_spendable-none id s ss (ground (arith, e, f)) h.0))
      ]
]

-- In a valid account, get_spendable finds what a search through all spendable outputs finds.
pub get_spendable-find_spendable :
    (id : ℕ) (a : Account) → IsValid a → get_spendable id a ≡ find_spendable id a.spendable
unfolding get_spendable
get_spendable-find_spendable id a v = lower_bound-find id a.spendable v.spendable

any-later :
    (key k : ℕ) (ks : List ℕ)
    → key < k
    → All (λ j. ltb j k ≡ false) ks
    → any (λ j. j == key) ks ≡ false
any-later key k [] lt h = refl
any-later key k (j ∷ js) lt h =
    let other : (j == key) ≡ false = ground (arith, h.0, lt) in rw other (any-later key k js lt h.1)

is_first-any :
    (key : ℕ) (ks : List ℕ)
    → IsSorted ltb ks
    → is_first key (lower_bound ltb key ks) ≡ any (λ k. k == key) ks
unfolding lower_bound
is_first-any key [] h = refl
is_first-any key (k ∷ ks) h = elim (Bool-cases (ltb k key)) [
  | inl e ↦
      let other : (k == key) ≡ false = ground (arith, e) in rw (e, other) (is_first-any key ks h.1)
  | inr e ↦ elim (Bool-cases (k == key)) [
    | inl f ↦ rw (e, f) refl
    | inr f ↦ rw (e, f) (sym (any-later key k ks (ground (arith, e, f)) h.0))
  ]
]

find-insert_other :
    (id : ℕ) (x : Spendable) (ss : List Spendable)
    → (x.id == id) ≡ false
    → find_spendable id (insert_at_lower_bound before_spendable x ss) ≡ find_spendable id ss
unfolding insert_at_lower_bound
find-insert_other id x [] h = rw h refl
find-insert_other id x (s ∷ ss) h = elim (Bool-cases (before_spendable s x)) [
  | inl e ↦ rw (e, find-insert_other id x ss h) refl
  | inr e ↦ rw (e, h) refl
]

find-insert_new :
    (x : Spendable) (ss : List Spendable)
    → find_spendable x.id ss ≡ none
    → find_spendable x.id (insert_at_lower_bound before_spendable x ss) ≡ some x.recipient
unfolding insert_at_lower_bound
find-insert_new x [] h = let same : (x.id == x.id) ≡ true = ground arith in rw same refl
find-insert_new x (s ∷ ss) h =
    let same : (x.id == x.id) ≡ true = ground arith in
    elim (Bool-cases (before_spendable s x)) [
      | inl e ↦ elim (Bool-cases (s.id == x.id)) [
        | inl f ↦ absurd (ground (arith, f, h))
        | inr f ↦ rw (e, f) (find-insert_new x ss (rw f at h))
      ]
      | inr e ↦ rw (e, same) refl
    ]

-- What an accepted output changes.
pub record Accepted (out : Output) (a a' : Account) : Type 0 where
  pub valid : IsValid a'
  pub keys :
      (key : ℕ) → any (λ k. k == key) a'.pubs ≡ ((out.pub_key == key) || any (λ k. k == key) a.pubs)
  pub outputs : a'.outputs ≡ a.outputs ++ out ∷ []
  pub spendable : get_spendable out.id a ≡ none → get_spendable out.id a' ≡ some out.recipient
  pub others : (id : ℕ) → (out.id == id) ≡ false → get_spendable id a' ≡ get_spendable id a

abbrev pub Added : Output → Account → Bool × Account → Type 0
Added out a r =
    ((any (λ k. k == out.pub_key) a.pubs ≡ true) × (r ≡ (false, a)))
    ⊎ ((any (λ k. k == out.pub_key) a.pubs ≡ false) × ((r.0 ≡ true) × Accepted out a r.1))

abbrev with_output : Output → Account → Account
with_output out a = record {
  id = a.id;
  spendable =
      insert_at_lower_bound before_spendable (record { id = out.id; recipient = out.recipient })
        a.spendable;
  pubs = insert_at_lower_bound ltb out.pub_key a.pubs;
  spends = a.spends;
  outputs = a.outputs ++ out ∷ [];
  height = a.height;
}

with_output-Accepted : (out : Output) (a : Account) → IsValid a → Accepted out a (with_output out a)
with_output-Accepted out a v =
    let new : Spendable = record { id = out.id; recipient = out.recipient } in
    let valid : IsValid (with_output out a) = record {
      spendable =
          insert_at_lower_bound-IsSorted before_spendable new a.spendable before_spendable-IsOrder
            v.spendable;
      pubs = insert_at_lower_bound-IsSorted ltb out.pub_key a.pubs ltb-IsOrder v.pubs;
    } in
    let after : (id : ℕ)
        → get_spendable id (with_output out a) ≡ find_spendable id (with_output out a).spendable =
      λ id. get_spendable-find_spendable id (with_output out a) valid in
    let before : (id : ℕ) → get_spendable id a ≡ find_spendable id a.spendable =
      λ id. get_spendable-find_spendable id a v in
    record {
      valid = valid;
      keys = λ key. any-insert_at_lower_bound ltb (λ k. k == key) out.pub_key a.pubs;
      outputs = refl;
      spendable = λ e. after out.id ∙ find-insert_new new a.spendable (sym (before out.id) ∙ e);
      others = λ id e. after id ∙ find-insert_other id new a.spendable e ∙ sym (before id);
    }

-- add_out refuses an output just when its public key is held already, and then changes nothing. An
-- output that it takes is listed, its key is held with those before, and get_spendable finds its
-- recipient if the output had none; it answers as before on all others.
pub add_out-Added : (out : Output) (a : Account) → IsValid a → Added out a (add_out out a)
unfolding add_out
add_out-Added out a v =
    let held = is_first-any out.pub_key a.pubs v.pubs in
    elim (Bool-cases (any (λ k. k == out.pub_key) a.pubs)) [
      | inl e ↦ rw (held ∙ e, add_out) (inl (e, refl))
      | inr e ↦ rw (held ∙ e, add_out) (inr (e, (refl, with_output-Accepted out a v)))
    ]

-- A call of a method that changes an account.
pub data Call : Type 0 where
  adds_out : Output → Call
  adds_spend : Spend → Call
  updates : ℕ → Call
  clones : Call

abbrev pub step : Call → Account → Account
step (adds_out out) a = (add_out out a).1
step (adds_spend spend) a = add_spend spend a
step (updates height) a = updated height a
step clones a = clone a

abbrev pub run : List Call → Account → Account
run [] a = a
run (c ∷ calls) a = run calls (step c a)

step-IsValid : (c : Call) (a : Account) → IsValid a → IsValid (step c a)
unfolding add_spend updated clone
step-IsValid (adds_out out) a v = elim (add_out-Added out a v) [
  | inl (held, e) ↦ subst (λ r. IsValid r.1) (sym e) v
  | inr (new, took) ↦ took.1.valid
]
step-IsValid (adds_spend spend) a v = record { spendable = v.spendable; pubs = v.pubs }
step-IsValid (updates height) a v = record { spendable = v.spendable; pubs = v.pubs }
step-IsValid clones a v = record { spendable = v.spendable; pubs = v.pubs }

run-IsValid : (calls : List Call) (a : Account) → IsValid a → IsValid (run calls a)
run-IsValid [] a v = v
run-IsValid (c ∷ calls) a v = run-IsValid calls (step c a) (step-IsValid c a v)

-- After the constructor and any calls, get_spendable by std::lower_bound finds what a search from the
-- front through all spendable outputs finds.
pub run-get_spendable :
    (calls : List Call) (account_id scan_height : ℕ) (spendable : List Spendable) (pubs : List ℕ)
    (id : ℕ)
    → get_spendable id (run calls (new_account account_id scan_height spendable pubs))
      ≡ find_spendable id (run calls (new_account account_id scan_height spendable pubs)).spendable
unfolding new_account
run-get_spendable calls account_id scan_height spendable pubs id =
    get_spendable-find_spendable id _ (
      run-IsValid calls _ (record {
        spendable = sort-IsSorted before_spendable spendable before_spendable-IsOrder;
        pubs = sort-IsSorted ltb pubs ltb-IsOrder;
      }))
