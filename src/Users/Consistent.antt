-- ===== src/Users/Consistent.antt =====
-- The three tables of accounts of src/db/storage.cpp agree, and stay so when the rows of one account change.
use xfo_lws.Base.{
  ℕ, ◌≡◌, ◌≢◌, refl, sym, ap, ◌∙◌, subst, true, false, none, some, ◌==◌, if◌then◌else◌, Bool-cases,
  ◌⊎◌, inl, inr, arith,
}
use xfo_lws.Base.Rows.{find_row}
use xfo_lws.Base.Table.{lookup}
use xfo_lws.Users.{User, ByAddress, Tables}

-- The rows of one account: one under its status, one at its scan height, one at its address.
pub record Present (t : Tables) (b : ByAddress) (u : User) : Type 0 where
  pub stored :
      (s : ℕ) → find_row s b.lookup.id t.accounts ≡ (if b.lookup.status == s then some u else none)
  pub indexed :
      (h : ℕ)
      → find_row h b.lookup.id t.by_height ≡ (if u.scan_height == h then some b.lookup else none)
  pub owner : u.address ≡ b.address
  pub number : u.id ≡ b.lookup.id

-- No row of an account.
pub record Absent (t : Tables) (i : ℕ) : Type 0 where
  pub stored : (s : ℕ) → find_row s i t.accounts ≡ none
  pub indexed : (h : ℕ) → find_row h i t.by_height ≡ none

pub record IsConsistent (t : Tables) : Type 0 where
  pub entries :
      (v : ℕ) (b : ByAddress)
      → lookup v t.by_address ≡ some b
      → (b.address.view_public ≡ v) × ((u : User) × Present t b u)
  pub distinct :
      (v v' : ℕ) (b b' : ByAddress)
      → lookup v t.by_address ≡ some b
      → lookup v' t.by_address ≡ some b'
      → b.lookup.id ≡ b'.lookup.id
      → v ≡ v'
  pub others :
      (i : ℕ)
      → ((v : ℕ) (b : ByAddress) → lookup v t.by_address ≡ some b → b.lookup.id ≢ i)
      → Absent t i

-- After a change the rows of one account are those of `b` and `u`, and all other rows are as before.
pub record Changed (b : ByAddress) (u : User) (t t' : Tables) : Type 0 where
  pub listed :
      (v : ℕ)
      → lookup v t'.by_address
        ≡ (if b.address.view_public == v then some b else lookup v t.by_address)
  pub stored :
      (s i : ℕ)
      → find_row s i t'.accounts ≡ (
          if b.lookup.id == i
          then (if b.lookup.status == s then some u else none)
          else find_row s i t.accounts)
  pub indexed :
      (h i : ℕ)
      → find_row h i t'.by_height ≡ (
          if b.lookup.id == i
          then (if u.scan_height == h then some b.lookup else none)
          else find_row h i t.by_height)
  pub owner : u.address ≡ b.address
  pub number : u.id ≡ b.lookup.id

pub some_injective : {A : Type 0} (a b : A) → some a ≡ some b → a ≡ b
some_injective a b h = cc

module _ (b : ByAddress) (u : User) (t t' : Tables) (x : Changed b u t t') (c : IsConsistent t)
    (alone : (v : ℕ) (b' : ByAddress)
      → lookup v t.by_address ≡ some b'
      → b'.lookup.id ≡ b.lookup.id
      → v ≡ b.address.view_public)
    (same : (b' : ByAddress)
      → lookup b.address.view_public t.by_address ≡ some b'
      → b'.lookup.id ≡ b.lookup.id) where
  own : Present t' b u
  own = record {
    stored = λ s. ground (arith, x.stored s b.lookup.id);
    indexed = λ h. ground (arith, x.indexed h b.lookup.id);
    owner = x.owner;
    number = x.number;
  }

  -- The row of an address is the new one, or one of before with another account.
  listed_before :
      (v : ℕ) (b' : ByAddress)
      → lookup v t'.by_address ≡ some b'
      → ((b ≡ b') × (b.address.view_public ≡ v))
        ⊎ ((lookup v t.by_address ≡ some b') × ((b.lookup.id == b'.lookup.id) ≡ false))
  listed_before v b' h = elim (Bool-cases (b.address.view_public == v)) [
    | inl e ↦ inl (some_injective b b' (rw e at (sym (x.listed v) ∙ h)), ground (arith, e))
    | inr e ↦
        let before : lookup v t.by_address ≡ some b' = rw e at (sym (x.listed v) ∙ h) in
        let other = alone v b' before in inr (before, ground (arith, e, other))
  ]

  kept :
      (b' : ByAddress) (u' : User)
      → (b.lookup.id == b'.lookup.id) ≡ false
      → Present t b' u'
      → Present t' b' u'
  kept b' u' other p = record {
    stored = λ s. ground (arith, x.stored s b'.lookup.id, p.stored s, other);
    indexed = λ h. ground (arith, x.indexed h b'.lookup.id, p.indexed h, other);
    owner = p.owner;
    number = p.number;
  }

  still_listed :
      (v : ℕ) (b' : ByAddress)
      → lookup v t.by_address ≡ some b'
      → (b'.lookup.id ≡ b.lookup.id) ⊎ (lookup v t'.by_address ≡ some b')
  still_listed v b' h = elim (Bool-cases (b.address.view_public == v)) [
    | inl e ↦
        let same_view : b.address.view_public ≡ v = ground (arith, e) in
        inl (same b' (ap (λ w. lookup w t.by_address) same_view ∙ h))
    | inr e ↦ inr (x.listed v ∙ rw e h)
  ]

  b_listed : lookup b.address.view_public t'.by_address ≡ some b
  b_listed =
      let itself : (b.address.view_public == b.address.view_public) ≡ true = ground arith in
      x.listed b.address.view_public ∙ rw itself refl

  pub Changed-IsConsistent : IsConsistent t'
  Changed-IsConsistent = record {
    entries = λ v b' h. elim (listed_before v b' h) [
      | inl (e, ev) ↦
          (ap (λ z. z.address.view_public) (sym e) ∙ ev, (u, subst (λ z. Present t' z u) e own))
      | inr (before, other) ↦
          let (view, (u', p)) = c.entries v b' before in (view, (u', kept b' u' other p))
    ];
    distinct = λ v v' b₁ b₂ h₁ h₂ e. elim (listed_before v b₁ h₁) [
      | inl (e₁, ev₁) ↦ elim (listed_before v' b₂ h₂) [
        | inl (e₂, ev₂) ↦ sym ev₁ ∙ ev₂
        | inr (before₂, other₂) ↦
            let ids : b.lookup.id ≡ b₂.lookup.id = ap (λ z. z.lookup.id) e₁ ∙ e in
            absurd (ground (arith, other₂, ids))
      ]
      | inr (before₁, other₁) ↦ elim (listed_before v' b₂ h₂) [
        | inl (e₂, ev₂) ↦
            let ids : b.lookup.id ≡ b₁.lookup.id = ap (λ z. z.lookup.id) e₂ ∙ sym e in
            absurd (ground (arith, other₁, ids))
        | inr (before₂, other₂) ↦ c.distinct v v' b₁ b₂ before₁ before₂ e
      ]
    ];
    others = λ i h.
        let differs : b.lookup.id ≢ i = h b.address.view_public b b_listed in
        let a : Absent t i = c.others i (λ v b' h' e. elim (still_listed v b' h') [
          | inl e' ↦ differs (sym e' ∙ e)
          | inr h'' ↦ h v b' h'' e
        ]) in
        let other : (b.lookup.id == i) ≡ false = ground (arith, differs) in
        record {
          stored = λ s. x.stored s i ∙ rw other (a.stored s);
          indexed = λ k. x.indexed k i ∙ rw other (a.indexed k);
        };
  }
