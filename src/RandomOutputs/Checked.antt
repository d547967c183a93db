-- ===== src/RandomOutputs/Checked.antt =====
-- What the loops over the fetched outputs (src/util/random_outputs.cpp) keep of the rings.
use xfo_lws.Base.{
  ℕ, suc, ◌≤◌, ◌≡◌, refl, ap, Bool, true, false, Option, none, some, List, [], ◌∷◌, if◌then◌else◌,
  length, All, arith,
}
use xfo_lws.Base.Results.{Holds, Holds-then}
use xfo_lws.RandomOutputs.{
  OutputKeys, RandomOutput, RandomRing, CheckedEntries, stays, leaves, check_entries, check_rings,
}

pub if-either :
    {A : Type 0} (P : A → Type 0) (c : Bool) (x y : A)
    → (c ≡ true → P x)
    → (c ≡ false → P y)
    → P (if c then x else y)
if-either P true x y hx hy = hx refl
if-either P false x y hx hy = hy refl

-- No ring has more outputs than are asked for.
abbrev pub Bounded : ℕ → List RandomRing → Type 0
Bounded mixin = All (λ r. length r.ring ≤ mixin)

abbrev Unlocked : List RandomOutput → Type 0
Unlocked = All (λ o. o.keys.unlocked ≡ true)

-- Rings of the size asked for, of unlocked outputs.
abbrev pub Full : ℕ → List RandomRing → Type 0
Full mixin = All (λ r. (length r.ring ≡ mixin) × All (λ o. o.keys.unlocked ≡ true) r.ring)

pub record Kept (os : List RandomOutput) (c : CheckedEntries) : Type 0 where
  no_more : length c.entries ≤ length os
  pub same : c.complete ≡ true → length c.entries ≡ length os
  pub unlocked : Unlocked c.entries

stays-Kept :
    (o o' : RandomOutput) (os : List RandomOutput) (m : Option CheckedEntries)
    → o'.keys.unlocked ≡ true
    → Holds (Kept os) m
    → Holds (Kept (o ∷ os)) (stays o' m)
stays-Kept o o' os none e h = tt
stays-Kept o o' os (some c) e h = record {
  no_more = omega (arith, h.no_more);
  same = λ f. ap suc (h.same f);
  unlocked = (e, h.unlocked);
}

leaves-Kept :
    (o : RandomOutput) (os : List RandomOutput) (m : Option CheckedEntries)
    → Holds (Kept os) m
    → Holds (Kept (o ∷ os)) (leaves m)
leaves-Kept o os none h = tt
leaves-Kept o os (some c) h = record {
  no_more = omega (arith, h.no_more);
  same = λ f. ground (arith, f);
  unlocked = h.unlocked;
}

check_entries-Kept :
    (os : List RandomOutput) (result : List OutputKeys) → Holds (Kept os) (check_entries os result)
unfolding check_entries
check_entries-Kept [] result = record { no_more = omega arith; same = λ f. refl; unlocked = tt }
check_entries-Kept (o ∷ os) [] =
    if-either (Holds (Kept (o ∷ os))) o.keys.unlocked (stays o (check_entries os [])) none
      (λ e. stays-Kept o o os (check_entries os []) e (check_entries-Kept os [])) (λ e. tt)
check_entries-Kept (o ∷ os) (k ∷ ks) =
    let taken = stays (record { keys = k; index = o.index }) (check_entries os ks) in
    let dropped = leaves (check_entries os ks) in
    if-either (Holds (Kept (o ∷ os))) o.keys.unlocked (stays o (check_entries os (k ∷ ks)))
      (if k.unlocked then taken else dropped)
      (λ e. stays-Kept o o os (check_entries os (k ∷ ks)) e (check_entries-Kept os (k ∷ ks)))
      (λ e.
        if-either (Holds (Kept (o ∷ os))) k.unlocked taken dropped
          (λ f.
            stays-Kept o (record { keys = k; index = o.index }) os (check_entries os ks) f
              (check_entries-Kept os ks))
          (λ f. leaves-Kept o os (check_entries os ks) (check_entries-Kept os ks)))

pub record RingsKept (mixin : ℕ) (p : List RandomRing × Bool) : Type 0 where
  pub bounded : Bounded mixin p.0
  pub full : p.1 ≡ true → Full mixin p.0

pub check_rings-RingsKept :
    (mixin : ℕ) (rings : List RandomRing) (result : List OutputKeys)
    → Bounded mixin rings
    → Holds (RingsKept mixin) (check_rings mixin rings result)
unfolding check_rings
check_rings-RingsKept mixin [] result b = record { bounded = tt; full = λ f. tt }
check_rings-RingsKept mixin (ring ∷ rings) result b =
    Holds-then (Kept ring.ring) (RingsKept mixin) (check_entries ring.ring result) _
      (check_entries-Kept ring.ring result)
      (λ c k.
        Holds-then (RingsKept mixin) (RingsKept mixin) (check_rings mixin rings c.left) _
          (check_rings-RingsKept mixin rings c.left b.1)
          (λ p h. record {
            bounded = (omega (arith, k.no_more, b.0), h.bounded);
            full = λ f.
                let whole : c.complete ≡ true = ground (arith, f) in
                let done : p.1 ≡ true = ground (arith, f) in
                let enough : mixin ≤ length ring.ring = ground (arith, f) in
                ((omega (arith, k.same whole, enough, b.0), k.unlocked), h.full done);
          }))
