-- ===== src/Account/Runs.antt =====
-- An account with two outputs, and a third that comes in.
use xfo_lws.Base.{◌≡◌, refl, List, [], ◌∷◌}
use xfo_lws.Account.{Spendable, Output, Account, new_account, get_spendable, add_out}
use xfo_lws.Account.Outputs.{
  IsValid, Added, find_spendable, Call, adds_out, updates, clones, run, add_out-Added,
  run-get_spendable,
}

abbrev stored : List Spendable
stored = record { id = 9; recipient = 0 } ∷ (record { id = 4; recipient = 2 } ∷ [])

abbrev received : Output
received = record { pub_key = 30; id = 6; recipient = 1 }

abbrev two_outputs : Account
two_outputs = record {
  id = 1;
  spendable = record { id = 4; recipient = 2 } ∷ (record { id = 9; recipient = 0 } ∷ []);
  pubs = 10 ∷ (20 ∷ []);
  spends = [];
  outputs = [];
  height = 5;
}

two_outputs-IsValid : IsValid two_outputs
two_outputs-IsValid = record { spendable = ((refl, tt), (tt, tt)); pubs = ((refl, tt), (tt, tt)) }

add_out-Added_example : Added received two_outputs (add_out received two_outputs)
add_out-Added_example = add_out-Added received two_outputs two_outputs-IsValid

abbrev calls : List Call
calls = adds_out received ∷ (adds_out received ∷ (updates 8 ∷ (clones ∷ [])))

run-get_spendable_example :
    get_spendable 6 (run calls (new_account 1 5 stored (20 ∷ (10 ∷ []))))
    ≡ find_spendable 6 (run calls (new_account 1 5 stored (20 ∷ (10 ∷ [])))).spendable
run-get_spendable_example = run-get_spendable calls 1 5 stored (20 ∷ (10 ∷ [])) 6
