-- ===== src/Users/Runs.antt =====
-- The claims on the administration of accounts at concrete tables.
use xfo_lws.Base.{
  ℕ, ◌+◌, ◌<◌, ◌≤◌, ◌≡◌, refl, Option, some, [], ◌∷◌, ◌==◌, if◌then◌else◌, ◌⊎◌, arith,
}
use xfo_lws.Base.Rows.{find_row, put_row}
use xfo_lws.Base.Table.{lookup, assign}
use xfo_lws.Chain.Rollback.{rollback_spends, erase_images}
use xfo_lws.Users.{Address, User, ByAddress, Tables, not_found, success, failed, active, hidden}
use xfo_lws.Users.Accounts.{
  add_account, do_add_account, insert_account, insert_rows, insert_row, find_last_id, new_user,
  new_status, get_account, change_status, set_status,
}
use xfo_lws.Users.Rescans.{change_height}
use xfo_lws.Users.Requests.{creation_request}
use xfo_lws.Users.Consistent.{IsConsistent}
use xfo_lws.Users.Changes.{Succeeds}
use xfo_lws.Users.Restated.{Restated}
use xfo_lws.Users.Statuses.{change_status-Restated}
use xfo_lws.Users.Additions.{add_account-get_account}
use xfo_lws.Users.Moves.{change_height-IsConsistent}
use xfo_lws.Users.Steps.{write, add, write-IsConsistent}
use xfo_lws.Users.Queued.{Answered, creation_request-Queued}

abbrev public_of : ℕ → Option ℕ
public_of key = some (key + 1000)

-- At block 50.
abbrev no_users : Tables
no_users = record {
  accounts = [];
  by_address = [];
  by_height = [];
  requests = [];
  height = 50;
  outputs = [];
  spends = [];
  images = [];
}

no_users-IsConsistent : IsConsistent no_users
unfolding lookup find_row
no_users-IsConsistent = record {
  entries = λ v b h. absurd (cc (h));
  distinct = λ v v' b b' h h' e. absurd (cc (h));
  others = λ i h. record { stored = λ s. refl; indexed = λ k. refl };
}

abbrev alice : Address
alice = record { view_public = 1005; spend_public = 77 }

abbrev alice_user : User
alice_user = record {
  id = 1;
  access = 9;
  address = alice;
  key = 5;
  scan_height = 50;
  start_height = 50;
  creation = 9;
  flags = 0;
  lookahead = record { maj_i = 0; min_i = 0 };
  lookahead_fail = 0;
}

abbrev alice_entry : ByAddress
alice_entry = record { address = alice; lookup = record { id = 1; status = active } }

abbrev one_user : Tables
one_user = record {
  accounts = ((active, 1), alice_user) ∷ [];
  by_address = (1005, alice_entry) ∷ [];
  by_height = ((50, 1), record { id = 1; status = active }) ∷ [];
  requests = [];
  height = 50;
  outputs = [];
  spends = [];
  images = [];
}

add_account-get_account_example :
    Succeeds
      (λ t'.
        IsConsistent t'
        × (get_account alice t'
            ≡ success (new_status (new_user alice 5 0 9 no_users), new_user alice 5 0 9 no_users)))
      (add_account public_of alice 5 0 9 no_users)
unfolding find_last_id lookup
add_account-get_account_example =
    add_account-get_account public_of alice 5 0 9 no_users no_users-IsConsistent (omega arith) refl
      refl

one_user-IsConsistent : IsConsistent one_user
unfolding add_account do_add_account insert_account insert_rows insert_row find_last_id new_user
    lookup assign find_row put_row
one_user-IsConsistent =
    (add_account-get_account public_of alice 5 0 9 no_users no_users-IsConsistent (omega arith) refl
      refl).0

change_status-Restated_example :
    Succeeds (Restated hidden (alice ∷ []) one_user) (change_status hidden (alice ∷ []) one_user)
change_status-Restated_example =
    change_status-Restated hidden (alice ∷ []) one_user one_user-IsConsistent

-- A rescan from a height above that of the account.
change_height-IsConsistent_example :
    Succeeds
      (λ t'.
        ((80 ≤ 50) × IsConsistent t')
        ⊎ ((50 < 80)
            × ((status : ℕ)
                → set_status status alice_entry t'
                  ≡ (if active == status then success t' else failed not_found))))
      (change_height 80 alice one_user)
unfolding lookup find_row rollback_spends erase_images assign
change_height-IsConsistent_example =
    change_height-IsConsistent 80 alice alice_entry alice_user ((1, []) ∷ [], []) one_user
      one_user-IsConsistent refl refl refl

creation_request-Queued_example :
    Answered 2 alice no_users
      (creation_request 2 alice 5 0 (record { maj_i = 0; min_i = 0 }) 9 no_users)
creation_request-Queued_example =
    creation_request-Queued 2 alice 5 0 (record { maj_i = 0; min_i = 0 }) 9 no_users

-- A second account beside the first.
write-IsConsistent_example :
    IsConsistent
      (write public_of (add (record { view_public = 1006; spend_public = 78 }) 6 1 9) one_user)
unfolding find_last_id
write-IsConsistent_example =
    write-IsConsistent public_of (add (record { view_public = 1006; spend_public = 78 }) 6 1 9)
      one_user one_user-IsConsistent (omega arith)
