-- ===== src/RandomOutputs/Runs.antt =====
-- A selection of two outputs out of ten, with a random source that counts and a daemon that has them all.
use xfo_lws.Base.{ℕ, ◌+◌, ◌≡◌, refl, true, Option, some, List, [], ◌∷◌, map, inr}
use xfo_lws.Account.{sort, insert_at_lower_bound}
use xfo_lws.RandomOutputs.{
  OutputKeys, RandomRing, OutputRef, unique, ring_has_index, pick, gamma_pick, gamma_each, add_new,
  select_rings, check_entries, check_rings, pick_tries, pick_random_outputs,
}
use xfo_lws.RandomOutputs.Rings.{pick_random_outputs-Full}
use xfo_lws.RandomOutputs.Checked.{Full}

abbrev count : ℕ → ℕ × ℕ
count r = (r, r + 1)

abbrev count_total : ℕ → ℕ → ℕ × ℕ
count_total total r = (r, r + 1)

abbrev all_unlocked : ℕ → List OutputRef → Option (List OutputKeys)
all_unlocked try refs = some (map (λ ref. record { key = ref.index + 100; unlocked = true }) refs)

abbrev one_ring : List RandomRing
one_ring =
    record {
      ring =
          record { keys = record { key = 103; unlocked = true }; index = 3 }
          ∷ (record { keys = record { key = 104; unlocked = true }; index = 4 } ∷ []);
      amount = 0;
    }
    ∷ []

picked_two :
    pick_random_outputs count count_total true 10 all_unlocked 5 2 (0 ∷ []) [] 3 ≡ inr one_ring
unfolding pick_random_outputs pick_tries select_rings pick gamma_pick gamma_each add_new unique
    ring_has_index sort insert_at_lower_bound check_rings check_entries
picked_two = refl

pick_random_outputs-Full_example : Full 2 one_ring
pick_random_outputs-Full_example =
    pick_random_outputs-Full count count_total true 10 all_unlocked 5 2 (0 ∷ []) [] 3 one_ring
      picked_two
