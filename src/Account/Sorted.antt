-- ===== src/Account/Sorted.antt =====
-- Vectors that std::lower_bound and insert keep sorted (src/db/account.cpp).
use xfo_lws.Base.{
  ◌≡◌, refl, Bool, true, false, ◌||◌, List, [], ◌∷◌, ltb, All, arith, inl, inr, Bool-cases, any,
}
use xfo_lws.Account.{before_spendable, insert_at_lower_bound, sort}

module _ {A : Type 0} (before : A → A → Bool) where
  -- No element is before one that stands ahead of it.
  abbrev pub IsSorted : List A → Type 0
  IsSorted [] = Unit
  IsSorted (x ∷ xs) = All (λ y. before y x ≡ false) xs × IsSorted xs

  -- A test that a strict weak order passes.
  pub record IsOrder : Type 0 where
    pub asym : (x y : A) → before x y ≡ true → before y x ≡ false
    pub trans : (x y z : A) → before y x ≡ false → before z y ≡ false → before z x ≡ false

  All-insert_at_lower_bound :
      (P : A → Type 0) (x : A) (xs : List A)
      → P x
      → All P xs
      → All P (insert_at_lower_bound before x xs)
  unfolding insert_at_lower_bound
  All-insert_at_lower_bound P x [] p h = (p, tt)
  All-insert_at_lower_bound P x (y ∷ ys) p h = elim (Bool-cases (before y x)) [
    | inl e ↦ rw e (h.0, All-insert_at_lower_bound P x ys p h.1)
    | inr e ↦ rw e (p, h)
  ]

  All-trans :
      (x y : A) (zs : List A)
      → IsOrder
      → before y x ≡ false
      → All (λ z. before z y ≡ false) zs
      → All (λ z. before z x ≡ false) zs
  All-trans x y [] o e h = tt
  All-trans x y (z ∷ zs) o e h = (o.trans x y z e h.0, All-trans x y zs o e h.1)

  pub insert_at_lower_bound-IsSorted :
      (x : A) (xs : List A) → IsOrder → IsSorted xs → IsSorted (insert_at_lower_bound before x xs)
  unfolding insert_at_lower_bound
  insert_at_lower_bound-IsSorted x [] o h = (tt, tt)
  insert_at_lower_bound-IsSorted x (y ∷ ys) o h = elim (Bool-cases (before y x)) [
    | inl e ↦ rw e (
      All-insert_at_lower_bound (λ z. before z y ≡ false) x ys (o.asym y x e) h.0,
      insert_at_lower_bound-IsSorted x ys o h.1,
    )
    | inr e ↦ rw e ((e, All-trans x y ys o e h.0), h)
  ]

  pub sort-IsSorted : (xs : List A) → IsOrder → IsSorted (sort before xs)
  unfolding sort
  sort-IsSorted [] o = tt
  sort-IsSorted (x ∷ xs) o =
      insert_at_lower_bound-IsSorted x (sort before xs) o (sort-IsSorted xs o)

pub ltb-IsOrder : IsOrder ltb
ltb-IsOrder = record {
  asym = λ x y e. ground (arith, e);
  trans = λ x y z e f. ground (arith, e, f);
}

pub before_spendable-IsOrder : IsOrder before_spendable
before_spendable-IsOrder = record {
  asym = λ x y e. ground (arith, e);
  trans = λ x y z e f. ground (arith, e, f);
}

-- How often a test is passed, after an insertion.
pub any-insert_at_lower_bound :
    {A : Type 0} (before : A → A → Bool) (p : A → Bool) (x : A) (xs : List A)
    → any p (insert_at_lower_bound before x xs) ≡ (p x || any p xs)
unfolding insert_at_lower_bound
any-insert_at_lower_bound before p x [] = refl
any-insert_at_lower_bound before p x (y ∷ ys) = elim (Bool-cases (before y x)) [
  | inl e ↦ rw (e, any-insert_at_lower_bound before p x ys) (ground arith)
  | inr e ↦ rw e refl
]
