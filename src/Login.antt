-- ===== src/Login.antt =====
-- Accounts and addresses as the handlers of src/rest_server.cpp see them: key_check, is_hidden,
-- open_account, and db::address_string (src/db/string.cpp).
-- The Monero library is a parameter (`Monero`), and so is what the account tables answer.
use xfo_lws.Base.{
  ℕ, Bool, true, false, ◌||◌, Option, none, some, if◌then◌else◌, ◌==◌, ◌≡◌, ◌⊎◌, inl, inr, refl,
}
use xfo_lws.Base.Strings.{String}

-- Keys are the numbers that their 32 bytes encode.
pub record AccountAddress : Type 0 where
  pub view_public : ℕ
  pub spend_public : ℕ

-- cryptonote::address_parse_info
pub record AddressParseInfo : Type 0 where
  pub address : AccountAddress
  pub is_subaddress : Bool
  pub has_payment_id : Bool

pub record Monero : Type 0 where
  -- crypto::secret_key_to_public_key
  pub secret_key_to_public_key : ℕ → Option ℕ
  -- cryptonote::get_account_address_as_str, for the configured network
  pub get_account_address_as_str : AccountAddress → String
  -- cryptonote::get_account_address_from_str
  pub get_account_address_from_str : String → Option AddressParseInfo
  -- cn_fast_hash of a text, as hexadecimal digits
  pub fast_hash_hex : String → String

pub data AccountStatus : Type 0 where
  active inactive hidden : AccountStatus

pub data LoginError : Type 0 where
  bad_view_key account_not_found bad_address lmdb_error : LoginError

pub data Expect {ℓ} (A : Type ℓ) : Type ℓ where
  value : A → Expect A
  error : LoginError → Expect A

infixl 5 ◌>>=◌
abbrev pub ◌>>=◌ {ℓ κ} : {A : Type ℓ} {B : Type κ} → Expect A → (A → Expect B) → Expect B
value a >>= f = f a
error e >>= f = error e

-- The account tables at one moment: whether a read transaction starts, and whose account an address
-- is (storage_reader::get_account); accounts go by their numbers.
pub record Accounts : Type 0 where
  pub start_read : Expect (Unit {0})
  pub get_account : AccountAddress → Expect (AccountStatus × ℕ)

pub record AccountCredentials : Type 0 where
  pub address : AccountAddress
  pub key : ℕ

unfoldable pub is_hidden : AccountStatus → Bool
is_hidden active = false
is_hidden inactive = false
is_hidden hidden = true

unfoldable pub key_check : Monero → AccountCredentials → Bool
key_check monero creds = elim (monero.secret_key_to_public_key creds.key) [
  | none ↦ false
  | some verify ↦ verify == creds.address.view_public
]

unfoldable pub open_account : Monero → Accounts → AccountCredentials → Expect ℕ
unfolding is_hidden key_check
open_account monero accounts creds =
    if key_check monero creds
    then (do
      ready ← accounts.start_read
      (status, user) ← accounts.get_account creds.address
      if is_hidden status then error account_not_found else value user)
    else error bad_view_key

-- address_string of a text: an address that is no subaddress and carries no payment id.
unfoldable pub parse_address : Monero → String → Expect AccountAddress
parse_address monero s = elim (monero.get_account_address_from_str s) [
  | none ↦ error bad_address
  | some info ↦
      if info.is_subaddress || info.has_payment_id then error bad_address else value info.address
]

pub Expect-cases {ℓ} :
    {A : Type ℓ} (x : Expect A) → ((a : A) × (x ≡ value a)) ⊎ ((e : LoginError) × (x ≡ error e))
Expect-cases (value a) = inl (a, refl)
Expect-cases (error e) = inr (e, refl)
