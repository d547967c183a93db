-- ===== src/Chain/KeptBlocks.antt =====
-- rollback_chain of src/db/storage.cpp keeps the blocks before the cursor.
use xfo_lws.Base.{ℕ, ◌-◌, max, ◌≡◌, refl, ◌∙◌, some, List, [], ◌∷◌}
use xfo_lws.Base.Results.{Holds, Holds-map, Holds-then, Holds-any}
use xfo_lws.Chain.Tables.{Block, Tables, AccountLookup, rows_before, rows_from}
use xfo_lws.Chain.Rollback.{
  rollback_chain, rollback_accounts, rollback_each, rollback_account, lower_account,
  rollback_spends, entry_height, with_lookups, insert_lookups,
}
use xfo_lws.Chain.Sync.{Synced, synced, failed}

rollback_account-blocks :
    (height new_height : ℕ) (l : AccountLookup) (t : Tables)
    → Holds (λ t'. t'.blocks ≡ t.blocks) (rollback_account height new_height l t)
unfolding rollback_account
rollback_account-blocks height new_height l t =
    Holds-then (λ a. Unit) (λ t'. t'.blocks ≡ t.blocks) (lower_account new_height l t.accounts) _
      (Holds-any (lower_account new_height l t.accounts))
      (λ a u.
        Holds-then (λ p. Unit) (λ t'. t'.blocks ≡ t.blocks)
          (rollback_spends l.id height t.spends t.images) _
          (Holds-any (rollback_spends l.id height t.spends t.images)) (λ p v. refl))

rollback_each-blocks :
    (height new_height : ℕ) (ls : List (ℕ × AccountLookup)) (t : Tables)
    → Holds (λ t'. t'.blocks ≡ t.blocks) (rollback_each height new_height ls t)
unfolding rollback_each
rollback_each-blocks height new_height [] t = refl
rollback_each-blocks height new_height ((h, l) ∷ ls) t =
    Holds-then (λ t'. t'.blocks ≡ t.blocks) (λ t'. t'.blocks ≡ t.blocks)
      (rollback_account height new_height l t) (rollback_each height new_height ls)
      (rollback_account-blocks height new_height l t)
      (λ t1 e.
        Holds-map (λ t'. t'.blocks ≡ t1.blocks) (λ t'. t'.blocks ≡ t.blocks)
          (rollback_each height new_height ls t1) (rollback_each-blocks height new_height ls t1)
          (λ t' e'. e' ∙ e))

rollback_accounts-blocks :
    (height : ℕ) (t : Tables) → Holds (λ t'. t'.blocks ≡ t.blocks) (rollback_accounts height t)
unfolding rollback_accounts
rollback_accounts-blocks height t =
    let new_height = max height 1 - 1 in
    let moved = rows_from entry_height height t.accounts_by_height in
    Holds-then (λ t'. t'.blocks ≡ t.blocks) (λ t'. t'.blocks ≡ t.blocks)
      (rollback_each height new_height moved t)
      (λ t'. some (
        with_lookups
          (insert_lookups new_height moved (rows_before entry_height height t.accounts_by_height))
          t'))
      (rollback_each-blocks height new_height moved t) (λ t' e. e)

pub rollback_chain-blocks :
    (kept : List Block) (height : ℕ) (t : Tables)
    → Holds (λ t'. t'.blocks ≡ kept) (rollback_chain kept height t)
unfolding rollback_chain
rollback_chain-blocks kept height t = rollback_accounts-blocks height _

abbrev pub OnSynced : (Tables → Type 0) → Synced → Type 0
OnSynced P (synced t) = P t
OnSynced P (failed e) = Unit
