-- ===== src/Users/Moves.antt =====
-- change_height of src/db/storage.cpp on tables that agree: the row of the new height, and the scan height.
use xfo_lws.Base.{
  ℕ, ◌<◌, ◌≤◌, ◌≡◌, refl, sym, ap, ◌∙◌, subst, true, none, some, List, leb, ◌==◌, if◌then◌else◌,
  Bool-cases, ◌⊎◌, inl, inr, min, arith,
}
use xfo_lws.Base.Rows.{Rows, find_row, put_row, erase_row, find_row-put_row, find_row-erase_row}
use xfo_lws.Base.Table.{Table, lookup}
use xfo_lws.Chain.Tables.{AccountLookup, Spend}
use xfo_lws.Chain.Rollback.{rollback_outputs, rollback_spends}
use xfo_lws.Users.{Address, User, ByAddress, Tables, not_found, success, failed}
use xfo_lws.Users.Accounts.{set_status}
use xfo_lws.Users.Rescans.{lowered, move_height, change_height}
use xfo_lws.Users.Consistent.{Present, IsConsistent, Changed, Changed-IsConsistent, some_injective}
use xfo_lws.Users.Changes.{Succeeds, insert_row-fresh}

abbrev moved_row : ℕ → ℕ → AccountLookup → Rows AccountLookup → Rows AccountLookup
moved_row from_height height entry rows =
    put_row height entry.id entry (erase_row from_height entry.id rows)

move_height-moved :
    (height : ℕ) (b : ByAddress) (u : User) (t : Tables)
    → Present t b u
    → move_height u.scan_height height b.lookup t.by_height
      ≡ success (moved_row u.scan_height height b.lookup t.by_height)
unfolding move_height
move_height-moved height b u t p =
    let there : find_row u.scan_height b.lookup.id t.by_height ≡ some b.lookup =
      ground (arith, p.indexed u.scan_height) in
    let fresh : find_row height b.lookup.id (erase_row u.scan_height b.lookup.id t.by_height)
        ≡ none =
      ground (
        arith,
        find_row-erase_row u.scan_height b.lookup.id height b.lookup.id t.by_height,
        p.indexed height,
      ) in
    rw
      (
        there,
        insert_row-fresh height b.lookup.id b.lookup
            (erase_row u.scan_height b.lookup.id t.by_height) fresh,
      )
      refl

abbrev rescanned : ℕ → ByAddress → User → Table (List Spend) × Table (List ℕ) → Tables → Tables
rescanned height b u r t = record t {
  accounts = put_row b.lookup.status b.lookup.id (lowered height u) t.accounts;
  by_height = moved_row u.scan_height height b.lookup t.by_height;
  outputs = rollback_outputs u.id height t.outputs;
  spends = r.0;
  images = r.1;
}

change_height-rescanned :
    (height : ℕ) (address : Address) (b : ByAddress) (u : User)
    (r : Table (List Spend) × Table (List ℕ)) (t : Tables)
    → lookup address.view_public t.by_address ≡ some b
    → Present t b u
    → rollback_spends u.id height t.spends t.images ≡ some r
    → change_height height address t ≡ success (rescanned height b u r t)
unfolding change_height
change_height-rescanned height address b u r t h p rolled =
    let self : (b.lookup.status == b.lookup.status) ≡ true = ground arith in
    let there : find_row b.lookup.status b.lookup.id t.accounts ≡ some u =
      p.stored b.lookup.status ∙ rw self refl in
    rw (h, there, rolled, move_height-moved height b u t p) refl

rescanned-Changed :
    (height : ℕ) (b : ByAddress) (u : User) (r : Table (List Spend) × Table (List ℕ)) (t : Tables)
    → Present t b u
    → lookup b.address.view_public t.by_address ≡ some b
    → height ≤ u.scan_height
    → Changed b (lowered height u) t (rescanned height b u r t)
rescanned-Changed height b u r t p h below = record {
  listed = λ v. elim (Bool-cases (b.address.view_public == v)) [
    | inl e ↦
        let same : b.address.view_public ≡ v = ground (arith, e) in
        rw e (ap (λ w. lookup w t.by_address) (sym same) ∙ h)
    | inr e ↦ rw e refl
  ];
  stored = λ s i. ground (
    arith,
    find_row-put_row b.lookup.status b.lookup.id s i (lowered height u) t.accounts,
    p.stored s,
  );
  indexed = λ k i.
      let first : min height u.scan_height ≡ height = omega (arith, below) in
      ground (
        arith,
        find_row-put_row height b.lookup.id k i b.lookup
            (erase_row u.scan_height b.lookup.id t.by_height),
        find_row-erase_row u.scan_height b.lookup.id k i t.by_height,
        p.indexed k,
        first,
      );
  owner = p.owner;
  number = p.number;
}

-- Where the row went above the scan height, change_status does not find it.
lost :
    (height status : ℕ) (b : ByAddress) (u : User) (r : Table (List Spend) × Table (List ℕ))
    (t : Tables)
    → Present t b u
    → u.scan_height < height
    → set_status status b (rescanned height b u r t)
      ≡ (if b.lookup.status == status then success (rescanned height b u r t) else failed not_found)
unfolding set_status
lost height status b u r t p above = elim (Bool-cases (b.lookup.status == status)) [
  | inl e ↦ rw e refl
  | inr e ↦
      let t' = rescanned height b u r t in
      let there : find_row b.lookup.status b.lookup.id t'.accounts ≡ some (lowered height u) =
        ground (
          arith,
          find_row-put_row b.lookup.status b.lookup.id b.lookup.status b.lookup.id
              (lowered height u) t.accounts,
        ) in
      let fresh : find_row status u.id (erase_row b.lookup.status b.lookup.id t'.accounts) ≡ none =
        ground (
          arith,
          find_row-erase_row b.lookup.status b.lookup.id status u.id t'.accounts,
          find_row-put_row b.lookup.status b.lookup.id status u.id (lowered height u) t.accounts,
          p.stored status,
          p.number,
          e,
        ) in
      let first : min height u.scan_height ≡ u.scan_height = omega (arith, above) in
      let gone : find_row (min height u.scan_height) u.id t'.by_height ≡ none = ground (
        arith,
        find_row-put_row height b.lookup.id u.scan_height u.id b.lookup
            (erase_row u.scan_height b.lookup.id t.by_height),
        find_row-erase_row u.scan_height b.lookup.id u.scan_height u.id t.by_height,
        p.number,
        first,
        above,
      ) in
      rw
        (
          e,
          there,
          insert_row-fresh status u.id (lowered height u)
              (erase_row b.lookup.status b.lookup.id t'.accounts) fresh,
          gone,
        )
        refl
]

-- On tables that agree, for an address that is in the table and spends that can be rolled back,
-- change_height succeeds. At the scan height of the account or below, the tables agree afterwards. Above
-- it they do not: change_status of the account to another status fails from then on.
pub change_height-IsConsistent :
    (height : ℕ) (address : Address) (b : ByAddress) (u : User)
    (r : Table (List Spend) × Table (List ℕ)) (t : Tables)
    → IsConsistent t
    → lookup address.view_public t.by_address ≡ some b
    → find_row b.lookup.status b.lookup.id t.accounts ≡ some u
    → rollback_spends u.id height t.spends t.images ≡ some r
    → Succeeds
        (λ t'.
          ((height ≤ u.scan_height) × IsConsistent t')
          ⊎ ((u.scan_height < height)
              × ((status : ℕ)
                  → set_status status b t'
                    ≡ (if b.lookup.status == status then success t' else failed not_found))))
        (change_height height address t)
change_height-IsConsistent height address b u r t c h there rolled =
    let view : b.address.view_public ≡ address.view_public =
      (c.entries address.view_public b h).0 in
    let h' : lookup b.address.view_public t.by_address ≡ some b =
      ap (λ w. lookup w t.by_address) view ∙ h in
    let (u₀, p₀) = (c.entries address.view_public b h).1 in
    let self : (b.lookup.status == b.lookup.status) ≡ true = ground arith in
    let same : u₀ ≡ u =
      some_injective u₀ u (sym (p₀.stored b.lookup.status ∙ rw self refl) ∙ there) in
    let p : Present t b u = subst (λ z. Present t b z) same p₀ in
    subst
      (Succeeds (λ t'.
        ((height ≤ u.scan_height) × IsConsistent t')
        ⊎ ((u.scan_height < height)
            × ((status : ℕ)
                → set_status status b t'
                  ≡ (if b.lookup.status == status then success t' else failed not_found)))))
      (sym (change_height-rescanned height address b u r t h p rolled))
      (elim (Bool-cases (leb height u.scan_height)) [
        | inl e ↦
            let below : height ≤ u.scan_height = ground (arith, e) in
            inl (
              below,
              Changed-IsConsistent b (lowered height u) t (rescanned height b u r t)
                  (rescanned-Changed height b u r t p h' below) c
                  (λ v b' listed ids. c.distinct v b.address.view_public b' b listed h' ids)
                  (λ b' listed. ap (λ z. z.lookup.id) (some_injective b' b (sym listed ∙ h'))),
            )
        | inr e ↦
            inr (ground (arith, e), (λ status. lost height status b u r t p (ground (arith, e))))
      ])
