-- ===== src/Subaddress/Loop.antt =====
-- When the loop over the outputs in do_lookahead (src/db/storage.cpp) ends.
use xfo_lws.Base.{
  ℕ, zero, suc, ◌*◌, ◌/◌, ◌%◌, ◌^◌, ◌||◌, ◌++◌, sym, ltb, ◌==◌, ◌<◌, ◌≡◌, ◌≢◌, ◌⊎◌, refl, subst,
  true, false, Option, none, some, List, [], ◌∷◌, arith, All, Bool-cases, inl, inr, length,
}
use xfo_lws.Subaddress.Ranges.{IndexRanges}
use xfo_lws.Subaddress.Upsert.{Subaddresses}
use xfo_lws.Subaddress.Lookahead.{
  AddressIndex, is_zero, Progress, running, thrown, failed, finished, note_recipient, scan_outputs,
  do_lookahead, u32_max, add_and_clamp, resize, raise_at,
}

Progress-cases :
    {A : Type 0} (x : Progress A)
    → (x ≡ running) ⊎ ((x ≡ thrown) ⊎ ((x ≡ failed) ⊎ ((a : A) × (x ≡ finished a))))
Progress-cases running = inl refl
Progress-cases thrown = inr (inl refl)
Progress-cases failed = inr (inr (inl refl))
Progress-cases (finished a) = inr (inr (inr (a, refl)))

abbrev Ends : {A : Type 0} → Progress A → Type 0
Ends running = ⊥
Ends thrown = Unit
Ends failed = Unit
Ends (finished a) = Unit

-- If the loop came to its end, every output was to a subaddress.
abbrev Passed : {A : Type 0} → List AddressIndex → Progress A → Type 0
Passed outputs running = Unit
Passed outputs thrown = Unit
Passed outputs failed = Unit
Passed outputs (finished a) = All (λ a. is_zero a ≡ false) outputs

Passed-cons :
    {A : Type 0} (a : AddressIndex) (outputs : List AddressIndex) (r : Progress A)
    → is_zero a ≡ false
    → Passed outputs r
    → Passed (a ∷ outputs) r
Passed-cons a outputs running h p = tt
Passed-cons a outputs thrown h p = tt
Passed-cons a outputs failed h p = tt
Passed-cons a outputs (finished x) h p = (h, p)

note_recipient-Ends :
    (limit : ℕ) (lookahead recipient : AddressIndex) (initial : List IndexRanges)
    → note_recipient limit lookahead recipient initial ≢ running
unfolding note_recipient
note_recipient-Ends limit lookahead recipient initial e =
    subst Ends e (elim (Bool-cases (ltb u32_max (needed / lookahead.min_i))) [
      | inl big ↦ rw big tt
      | inr fits ↦ rw fits (elim (Bool-cases (ltb limit ((needed * lookahead.min_i) % 2 ^ 32))) [
        | inl big ↦ rw big tt
        | inr fits' ↦ rw fits' (ends (raise_at recipient.maj_i _ (resize needed initial)))
      ])
    ])
  where
    needed : ℕ
    needed = add_and_clamp recipient.maj_i lookahead.maj_i

    ends : (x : Option (List IndexRanges)) → Ends (elim x [ none ↦ thrown | some i ↦ finished i ])
    ends none = tt
    ends (some i) = tt

module _ (limit : ℕ) (lookahead : AddressIndex) where
  scan_outputs-Ends :
      (fuel : ℕ) (outputs : List AddressIndex) (initial : List IndexRanges)
      → All (λ a. is_zero a ≡ false) outputs
      → length outputs < fuel
      → Ends (scan_outputs fuel limit lookahead outputs initial)
  unfolding scan_outputs
  scan_outputs-Ends zero outputs initial h l = absurd (omega arith)
  scan_outputs-Ends (suc fuel) [] initial h l = tt
  scan_outputs-Ends (suc fuel) (a ∷ outputs) initial h l =
      elim (Progress-cases (note_recipient limit lookahead a initial)) [
        | inl e ↦ absurd (note_recipient-Ends limit lookahead a initial e)
        | inr (inl e) ↦ rw (h.0, scan_outputs) (rw e tt)
        | inr (inr (inl e)) ↦ rw (h.0, scan_outputs) (rw e tt)
        | inr (inr (inr (initial', e))) ↦
            rw (h.0, scan_outputs)
              (rw e (scan_outputs-Ends fuel outputs initial' h.1 (omega arith)))
      ]

  scan_outputs-Passed :
      (fuel : ℕ) (outputs : List AddressIndex) (initial : List IndexRanges)
      → Passed outputs (scan_outputs fuel limit lookahead outputs initial)
  unfolding scan_outputs
  scan_outputs-Passed zero outputs initial = tt
  scan_outputs-Passed (suc fuel) [] initial = tt
  scan_outputs-Passed (suc fuel) (a ∷ outputs) initial = elim (Bool-cases (is_zero a)) [
    | inl z ↦ rw (z, scan_outputs) (scan_outputs-Passed fuel (a ∷ outputs) initial)
    | inr n ↦ elim (Progress-cases (note_recipient limit lookahead a initial)) [
      | inl e ↦ rw (n, scan_outputs) (rw e tt)
      | inr (inl e) ↦ rw (n, scan_outputs) (rw e tt)
      | inr (inr (inl e)) ↦ rw (n, scan_outputs) (rw e tt)
      | inr (inr (inr (initial', e))) ↦
          rw (n, scan_outputs)
            (rw e (Passed-cons a outputs _ n (scan_outputs-Passed fuel outputs initial')))
    ]
  ]

  -- With a round for each output and one more, the loop over outputs that are all to subaddresses has
  -- ended.
  pub scan_outputs-ne-running :
      (fuel : ℕ) (outputs : List AddressIndex) (initial : List IndexRanges)
      → All (λ a. is_zero a ≡ false) outputs
      → length outputs < fuel
      → scan_outputs fuel limit lookahead outputs initial ≢ running
  scan_outputs-ne-running fuel outputs initial h l e =
      subst Ends e (scan_outputs-Ends fuel outputs initial h l)

  -- The loop comes to its end only if no output is to the primary address: at such an output it goes
  -- round for ever.
  pub scan_outputs-finished :
      (fuel : ℕ) (outputs : List AddressIndex) (initial initial' : List IndexRanges)
      → scan_outputs fuel limit lookahead outputs initial ≡ finished initial'
      → All (λ a. is_zero a ≡ false) outputs
  scan_outputs-finished fuel outputs initial initial' e =
      subst (Passed outputs) e (scan_outputs-Passed fuel outputs initial)

Passed-any :
    {B : Type 0} (outputs : List AddressIndex) (y : Progress B)
    → All (λ a. is_zero a ≡ false) outputs
    → Passed outputs y
Passed-any outputs running p = tt
Passed-any outputs thrown p = tt
Passed-any outputs failed p = tt
Passed-any outputs (finished b) p = p

Passed-refined :
    {A B : Type 0} (outputs : List AddressIndex) (x : Progress A) (f : A → Progress B)
    → Passed outputs x
    → Passed outputs
        (elim x [ running ↦ running | thrown ↦ thrown | failed ↦ failed | finished a ↦ f a ])
Passed-refined outputs running f p = tt
Passed-refined outputs thrown f p = tt
Passed-refined outputs failed f p = tt
Passed-refined outputs (finished a) f p = Passed-any outputs (f a) p

-- With a lookahead that is not 0, do_lookahead comes to its end only for an account that has no output
-- to its primary address.
do_lookahead-finished :
    (get_spend_public : ℕ → ℕ → ℕ) (fuel limit : ℕ) (lookahead : AddressIndex)
    (outputs : List AddressIndex) (s s' : Subaddresses)
    → ((lookahead.maj_i == 0) || (lookahead.min_i == 0)) ≡ false
    → do_lookahead get_spend_public fuel limit lookahead outputs s ≡ finished s'
    → All (λ a. is_zero a ≡ false) outputs
unfolding do_lookahead
do_lookahead-finished get_spend_public fuel limit lookahead outputs s s' nonzero e =
    subst (Passed outputs) e (
      rw nonzero (elim (Bool-cases (ltb u32_max (lookahead.maj_i / lookahead.min_i))) [
        | inl big ↦ rw big tt
        | inr fits ↦
            rw fits (elim (Bool-cases (ltb limit ((lookahead.maj_i * lookahead.min_i) % 2 ^ 32))) [
              | inl big ↦ rw big tt
              | inr fits' ↦ rw fits' (
                  Passed-refined outputs
                    (scan_outputs fuel limit lookahead outputs (resize lookahead.maj_i [])) _
                    (scan_outputs-Passed limit lookahead fuel outputs (resize lookahead.maj_i [])))
            ])
      ]))

abbrev Finished : {A : Type 0} → Progress A → Type 0
Finished running = ⊥
Finished thrown = ⊥
Finished failed = ⊥
Finished (finished a) = Unit

module _ (limit : ℕ) (lookahead recipient : AddressIndex) (after : List AddressIndex)
    (primary : is_zero recipient ≡ true) where
  -- At an output to the primary address the loop goes round, whatever the fuel.
  scan_outputs-stays :
      (fuel : ℕ) (initial : List IndexRanges)
      → scan_outputs fuel limit lookahead (recipient ∷ after) initial ≡ running
  unfolding scan_outputs
  scan_outputs-stays zero initial = refl
  scan_outputs-stays (suc fuel) initial =
      rw (primary, scan_outputs) (scan_outputs-stays fuel initial)

  -- It comes to that output if it passes all before it.
  scan_outputs-running :
      (enough fuel : ℕ) (before : List AddressIndex) (initial initial' : List IndexRanges)
      → scan_outputs enough limit lookahead before initial ≡ finished initial'
      → scan_outputs fuel limit lookahead (before ++ recipient ∷ after) initial ≡ running
  unfolding scan_outputs
  scan_outputs-running enough fuel [] initial initial' e = scan_outputs-stays fuel initial
  scan_outputs-running enough zero (a ∷ before) initial initial' e = refl
  scan_outputs-running zero (suc fuel) (a ∷ before) initial initial' e =
      absurd (subst Finished (sym e) tt)
  scan_outputs-running (suc enough) (suc fuel) (a ∷ before) initial initial' e =
      let own =
        (scan_outputs-finished limit lookahead (suc enough) (a ∷ before) initial initial' e).0 in
      elim (Progress-cases (note_recipient limit lookahead a initial)) [
        | inl x ↦ absurd (subst Finished (sym (rw (own, scan_outputs, x) at e)) tt)
        | inr (inl x) ↦ absurd (subst Finished (sym (rw (own, scan_outputs, x) at e)) tt)
        | inr (inr (inl x)) ↦ absurd (subst Finished (sym (rw (own, scan_outputs, x) at e)) tt)
        | inr (inr (inr (next, x))) ↦
            rw (own, scan_outputs)
              (rw x (
                scan_outputs-running enough fuel before next initial'
                  (rw (own, scan_outputs, x) at e)))
      ]

-- The loop of a do_lookahead that came to its end.
do_lookahead-scanned :
    (get_spend_public : ℕ → ℕ → ℕ) (fuel limit : ℕ) (lookahead : AddressIndex)
    (outputs : List AddressIndex) (s s' : Subaddresses)
    → ((lookahead.maj_i == 0) || (lookahead.min_i == 0)) ≡ false
    → do_lookahead get_spend_public fuel limit lookahead outputs s ≡ finished s'
    → (ltb u32_max (lookahead.maj_i / lookahead.min_i) ≡ false)
      × (ltb limit ((lookahead.maj_i * lookahead.min_i) % 2 ^ 32) ≡ false)
      × ((initial : List IndexRanges) × (scan_outputs fuel limit lookahead outputs
              (resize lookahead.maj_i [])
            ≡ finished initial))
unfolding do_lookahead
do_lookahead-scanned get_spend_public fuel limit lookahead outputs s s' nonzero e =
    elim (Bool-cases (ltb u32_max (lookahead.maj_i / lookahead.min_i))) [
      | inl big ↦ absurd (subst Finished (sym (rw (nonzero, big) at e)) tt)
      | inr fits ↦ elim (Bool-cases (ltb limit ((lookahead.maj_i * lookahead.min_i) % 2 ^ 32))) [
        | inl big ↦ absurd (subst Finished (sym (rw (nonzero, fits, big) at e)) tt)
        | inr fits' ↦
            elim (Progress-cases
              (scan_outputs fuel limit lookahead outputs (resize lookahead.maj_i []))) [
                | inl x ↦ absurd (subst Finished (sym (rw (nonzero, fits, fits', x) at e)) tt)
                | inr (inl x) ↦ absurd (subst Finished (sym (rw (nonzero, fits, fits', x) at e)) tt)
                | inr (inr (inl x)) ↦
                    absurd (subst Finished (sym (rw (nonzero, fits, fits', x) at e)) tt)
                | inr (inr (inr (initial, x))) ↦ (fits, fits', (initial, x))
              ]
      ]
    ]

-- Once do_lookahead, with a lookahead that is not 0, has come to its end for an account, it goes on
-- without end, whatever the fuel, when an output to the primary address follows the account's outputs.
pub do_lookahead-running :
    (get_spend_public : ℕ → ℕ → ℕ) (enough limit : ℕ) (lookahead primary : AddressIndex)
    (before after : List AddressIndex) (s s' : Subaddresses)
    → ((lookahead.maj_i == 0) || (lookahead.min_i == 0)) ≡ false
    → do_lookahead get_spend_public enough limit lookahead before s ≡ finished s'
    → is_zero primary ≡ true
    → (fuel : ℕ)
    → do_lookahead get_spend_public fuel limit lookahead (before ++ primary ∷ after) s ≡ running
unfolding do_lookahead
do_lookahead-running get_spend_public enough limit lookahead primary before after s s' nonzero e p
      fuel =
    let (fits, fits', (initial, scanned)) =
      do_lookahead-scanned get_spend_public enough limit lookahead before s s' nonzero e in
    rw nonzero (
      rw fits (
        rw fits' (
          rw
            (scan_outputs-running limit lookahead primary after p enough fuel before
              (resize lookahead.maj_i []) initial scanned)
            refl)))
