-- ===== src/Account.antt =====
-- lws::account of src/db/account.cpp: what one account has received and spent during a scan. An
-- output's number, an address and a public key are natural numbers, in the order that they are compared
-- in; the keys of the account, which no operation changes, are its number alone.
use xfo_lws.Base.{
  ℕ, zero, suc, ◌+◌, max, Bool, true, false, ◌&&◌, ◌||◌, Option, none, some, List, [], ◌∷◌, ◌++◌,
  ltb, ◌==◌, if◌then◌else◌,
}
pub mod Sorted
pub mod Outputs
pub mod Runs

-- std::pair<db::output_id, db::address_index>: the number of the output, the index of the address
pub record Spendable : Type 0 where
  pub id : ℕ
  pub recipient : ℕ

-- db::output: the fields that add_out reads
pub record Output : Type 0 where
  pub pub_key : ℕ
  pub id : ℕ
  pub recipient : ℕ

pub record Spend : Type 0 where
  pub source : ℕ
  pub image : ℕ

pub record Account : Type 0 where
  pub id : ℕ
  pub spendable : List Spendable
  pub pubs : List ℕ
  pub spends : List Spend
  pub outputs : List Output
  pub height : ℕ

-- The order of std::pair.
abbrev pub before_spendable : Spendable → Spendable → Bool
before_spendable a b = ltb a.id b.id || ((a.id == b.id) && ltb a.recipient b.recipient)

module _ {A : Type 0} (before : A → A → Bool) where
  -- What std::lower_bound finds in a sorted vector: the elements from the first that is not before `x`.
  unfoldable pub lower_bound : A → List A → List A
  lower_bound x [] = []
  lower_bound x (y ∷ ys) = if before y x then lower_bound x ys else y ∷ ys

  -- vector::insert there.
  unfoldable pub insert_at_lower_bound : A → List A → List A
  insert_at_lower_bound x [] = x ∷ []
  insert_at_lower_bound x (y ∷ ys) =
      if before y x then y ∷ insert_at_lower_bound x ys else x ∷ (y ∷ ys)

  -- std::sort
  unfoldable pub sort : List A → List A
  unfolding insert_at_lower_bound
  sort [] = []
  sort (x ∷ xs) = insert_at_lower_bound x (sort xs)

-- The constructor from a db::account, with its number and scan height.
unfoldable pub new_account : ℕ → ℕ → List Spendable → List ℕ → Account
unfolding sort
new_account id scan_height spendable pubs = record {
  id = id;
  spendable = sort before_spendable spendable;
  pubs = sort ltb pubs;
  spends = [];
  outputs = [];
  height = scan_height;
}

unfoldable pub clone : Account → Account
clone a = record {
  id = a.id;
  spendable = a.spendable;
  pubs = a.pubs;
  spends = a.spends;
  outputs = a.outputs;
  height = a.height;
}

unfoldable pub updated : ℕ → Account → Account
updated new_height a = record {
  id = a.id;
  spendable = a.spendable;
  pubs = a.pubs;
  spends = [];
  outputs = [];
  height = max a.height new_height;
}

-- What get_spendable reads where std::lower_bound points to.
abbrev pub recipient_at : ℕ → List Spendable → Option ℕ
recipient_at id [] = none
recipient_at id (s ∷ rest) = if s.id == id then some s.recipient else none

unfoldable pub get_spendable : ℕ → Account → Option ℕ
unfolding lower_bound
get_spendable id a =
    recipient_at id (lower_bound before_spendable (record { id = id; recipient = 0 }) a.spendable)

abbrev pub is_first : ℕ → List ℕ → Bool
is_first key [] = false
is_first key (k ∷ ks) = k == key

unfoldable pub add_out : Output → Account → Bool × Account
unfolding lower_bound insert_at_lower_bound
add_out out a = if is_first out.pub_key (lower_bound ltb out.pub_key a.pubs) then (false, a) else (
  true,
  record {
    id = a.id;
    spendable =
        insert_at_lower_bound before_spendable (record { id = out.id; recipient = out.recipient })
          a.spendable;
    pubs = insert_at_lower_bound ltb out.pub_key a.pubs;
    spends = a.spends;
    outputs = a.outputs ++ out ∷ [];
    height = a.height;
  },
)

unfoldable pub add_spend : Spend → Account → Account
add_spend spend a = record {
  id = a.id;
  spendable = a.spendable;
  pubs = a.pubs;
  spends = a.spends ++ spend ∷ [];
  outputs = a.outputs;
  height = a.height;
}
