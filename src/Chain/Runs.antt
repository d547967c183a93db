-- ===== src/Chain/Runs.antt =====
-- A chain of four blocks with one account scanned to its end, on which a fork comes in.
use xfo_lws.Base.{
  ◌++◌, ℕ, Option, none, ◌*◌, ◌==◌, if◌then◌else◌, ◌≡◌, refl, false, some, List, [], ◌∷◌, arith,
}
use xfo_lws.Base.Table.{lookup, assign}
use xfo_lws.Chain.Tables.{Block, Tables, rows_before, rows_from, seek, put_row}
use xfo_lws.Chain.Rollback.{
  erase_image, erase_images, rollback_spends, rollback_outputs, lower_account, rollback_account,
  rollback_each, insert_lookup, insert_lookups, rollback_accounts, rollback_events, rollback_pows,
  rollback_chain,
}
use xfo_lws.Chain.Sync.{
  put_blocks, append_block_hashes, compare_chain, finish_sync, sync_chain, synced,
}
use xfo_lws.Chain.Pow.{
  PowSync, misses, compare_pow, scan_checkpoints, finish_pow, later_pows, append_pow, keep_pows,
  keep_pow, sync_pow,
}
use xfo_lws.Chain.Checkpoints.{Checked, sync_pow-Checked}
use xfo_lws.Chain.Blocks.{numbered}
use xfo_lws.Chain.Follows.{Follows, sync_chain-Follows}
use xfo_lws.Chain.Sync.{with_blocks}
use xfo_lws.Chain.Extends.{sync_chain-extends}
use xfo_lws.Chain.Accounts.{Restarted, rollback_accounts-Restarted}

abbrev genesis : List Block
genesis = numbered 0 (100 ∷ [])

abbrev four_blocks : Tables
four_blocks = record {
  blocks = numbered 0 (100 ∷ (101 ∷ (102 ∷ (103 ∷ []))));
  pows = [];
  accounts = record { status = 0; id = 7; scan_height = 3; start_height = 1 } ∷ [];
  accounts_by_height = (3, record { id = 7; status = 0 }) ∷ [];
  outputs = (7, record { height = 1; id = 11 } ∷ (record { height = 3; id = 12 } ∷ [])) ∷ [];
  spends = (7, record { height = 3; source = 11; image = 50 } ∷ []) ∷ [];
  images = (11, 50 ∷ []) ∷ [];
  events = record { account = 7; height = 3 } ∷ (record { account = 7; height = 1 } ∷ []);
}

abbrev restarted : Tables
restarted = record {
  blocks = numbered 0 (100 ∷ (101 ∷ (102 ∷ (103 ∷ []))));
  pows = [];
  accounts = record { status = 0; id = 7; scan_height = 1; start_height = 1 } ∷ [];
  accounts_by_height = (1, record { id = 7; status = 0 }) ∷ [];
  outputs = (7, record { height = 1; id = 11 } ∷ []) ∷ [];
  spends = (7, []) ∷ [];
  images = (11, []) ∷ [];
  events = record { account = 7; height = 3 } ∷ (record { account = 7; height = 1 } ∷ []);
}

rollback_four : rollback_accounts 2 four_blocks ≡ some restarted
unfolding rollback_accounts rollback_each rollback_account lower_account rollback_outputs
    rollback_spends erase_images erase_image lookup assign rows_before rows_from insert_lookups
    insert_lookup
rollback_four = refl

rollback_accounts-Restarted_example : Restarted 2 four_blocks restarted
rollback_accounts-Restarted_example =
    rollback_accounts-Restarted 2 four_blocks restarted rollback_four

abbrev forked : Tables
forked = record {
  blocks = numbered 0 (100 ∷ (101 ∷ (202 ∷ (203 ∷ (204 ∷ [])))));
  pows = [];
  accounts = record { status = 0; id = 7; scan_height = 1; start_height = 1 } ∷ [];
  accounts_by_height = (1, record { id = 7; status = 0 }) ∷ [];
  outputs = (7, record { height = 1; id = 11 } ∷ []) ∷ [];
  spends = (7, []) ∷ [];
  images = (11, []) ∷ [];
  events = record { account = 7; height = 1 } ∷ [];
}

sync_fork : sync_chain false 1 1 101 (202 ∷ (203 ∷ (204 ∷ []))) four_blocks ≡ synced forked
unfolding sync_chain compare_chain finish_sync append_block_hashes put_blocks put_row seek
    rollback_chain rollback_pows rollback_events rollback_accounts rollback_each rollback_account
    lower_account rollback_outputs rollback_spends erase_images erase_image lookup assign
    rows_before rows_from insert_lookups insert_lookup
sync_fork = refl

sync_chain-Follows_example :
    Follows false 1 1 genesis (101 ∷ (102 ∷ (103 ∷ []))) (101 ∷ (202 ∷ (203 ∷ (204 ∷ [])))) forked
sync_chain-Follows_example =
    sync_chain-Follows false 1 1 101 101 (202 ∷ (203 ∷ (204 ∷ []))) (102 ∷ (103 ∷ [])) genesis
      four_blocks (omega arith, tt) refl forked sync_fork

abbrev checkpoint : ℕ → Option ℕ
checkpoint height = if height == 2 then some 102 else none

abbrev work : ℕ → PowSync
work n = record { timestamp = n; cumulative_diff = n * 10 }

abbrev extended : Tables
extended = record {
  blocks = numbered 0 (100 ∷ (101 ∷ (102 ∷ (103 ∷ (104 ∷ [])))));
  pows = record { id = 4; timestamp = 9; cumulative_diff = 90 } ∷ [];
  accounts = four_blocks.accounts;
  accounts_by_height = four_blocks.accounts_by_height;
  outputs = four_blocks.outputs;
  spends = four_blocks.spends;
  images = four_blocks.images;
  events = four_blocks.events;
}

sync_extended :
    sync_pow checkpoint 2 1 101
      (102 ∷ (103 ∷ (104 ∷ [])))
      (work 6 ∷ (work 7 ∷ (work 8 ∷ (work 9 ∷ []))))
      four_blocks
    ≡ synced extended
unfolding sync_pow compare_pow misses scan_checkpoints finish_pow later_pows append_pow keep_pows
    keep_pow seek finish_sync append_block_hashes put_blocks put_row
sync_extended = refl

sync_pow-Checked_example : Checked checkpoint 2 2 (102 ∷ (103 ∷ (104 ∷ [])))
sync_pow-Checked_example =
    sync_pow-Checked checkpoint 2 1 101 (102 ∷ (103 ∷ (104 ∷ [])))
      (work 6 ∷ (work 7 ∷ (work 8 ∷ (work 9 ∷ [])))) four_blocks extended sync_extended

sync_chain-extends_example :
    sync_chain false 9 1 101 ((102 ∷ (103 ∷ [])) ++ 104 ∷ (105 ∷ [])) four_blocks
    ≡ synced (
        with_blocks
          (genesis ++ numbered 1 (101 ∷ ((102 ∷ (103 ∷ [])) ++ 104 ∷ (105 ∷ []))))
          four_blocks)
sync_chain-extends_example =
    sync_chain-extends false 9 1 101 (102 ∷ (103 ∷ [])) (104 ∷ (105 ∷ [])) genesis four_blocks
      (omega arith, tt) refl
