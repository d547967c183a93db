-- ===== src/Wire.antt =====
-- src/wire: the format-independent reader and writer, over JSON documents as rapidjson hands them
-- over token by token (src/wire/json/read.cpp, src/wire/json/write.cpp).
-- Texts become documents and back through rapidjson, which is a parameter (`Rapidjson`).
-- A refused document is `none`: no caller here looks at the error's code.
pub mod RoundTrip
pub mod Runs
use xfo_lws.Base.{
  ℕ, suc, ◌+◌, ◌<◌, ◌^◌, ◌≡◌, Bool, true, false, ◌||◌, Option, none, some, List, [], ◌∷◌,
  if◌then◌else◌, leb, ltb, is_empty,
}
use xfo_lws.Base.Strings.{String, ◌=?◌, contains}
use xfo_lws.Base.Dict.{Dict, find, put}

mutual
  -- What a JSON text denotes. `negative n` is the integer -(n + 1), and `real` a number that the
  -- parser reports as a double, by its text.
  pub data Value : Type 0 where
    null : Value
    boolean : Bool → Value
    unsigned : ℕ → Value
    negative : ℕ → Value
    real : String → Value
    text : String → Value
    array : Items → Value
    object : Fields → Value

  pub data Items : Type 0 where
    nil : Items
    cons : Value → Items → Items

  pub data Fields : Type 0 where
    end : Fields
    field : String → Value → Fields → Fields

infixl 5 ◌>>=◌
abbrev pub ◌>>=◌ {ℓ κ} : {A : Type ℓ} {B : Type κ} → Option A → (A → Option B) → Option B
none >>= f = none
some a >>= f = f a

-- read_bytes(json_reader&, std::string&)
abbrev pub read_string : Value → Option String
read_string (text s) = some s
read_string _ = none

-- unsigned_integer() and integer::cast_unsigned<T>, T an unsigned integer below `limit`.
abbrev pub read_unsigned : ℕ → Value → Option ℕ
read_unsigned limit (unsigned n) = if ltb n limit then some n else none
read_unsigned limit _ = none

abbrev pub u32_limit : ℕ
u32_limit = 2 ^ 32

abbrev pub u64_limit : ℕ
u64_limit = 2 ^ 64

module _ {ℓ} {A : Type ℓ} where
  -- The loop of array_unchecked, with `count` elements in `dest`.
  pub read_items : (Value → Option A) → ℕ → ℕ → Items → Option (List A)
  read_items read max count nil = some []
  read_items read max count (cons v rest) =
      let more = read_items read max (count + 1) rest in
      if leb max count then none else (do a ← read v; as' ← more; some (a ∷ as'))

  -- read_bytes(R&, array_<T, max_element_count<N>>&)
  unfoldable pub read_array : (Value → Option A) → ℕ → Value → Option (List A)
  unfolding read_items
  read_array read max (array items) = read_items read max 0 items
  read_array read max _ = none

  pub write_items : (A → Value) → List A → Items
  write_items write [] = nil
  write_items write (a ∷ as') = cons (write a) (write_items write as')

  -- wire_write::array
  unfoldable pub write_array : (A → Value) → List A → Value
  unfolding write_items
  write_array write as' = array (write_items write as')

-- json_reader::key over all keys of an object, and tracker::try_read: a key that no field has is
-- skipped, and a field's second key is an error. The value of each field is kept to be read.
unfoldable pub scan_fields : List String → Fields → Dict Value → Option (Dict Value)
unfolding contains find put
scan_fields known end seen = some seen
scan_fields known (field k v rest) seen = elim (contains k known) [
  | true ↦ elim (find k seen) [ none ↦ scan_fields known rest (put k v seen) | some _ ↦ none ]
  | false ↦ scan_fields known rest seen
]

-- start_object() and the loop of wire_read::object.
unfoldable pub open_object : List String → Value → Option (Dict Value)
unfolding scan_fields
open_object known (object fields) = scan_fields known fields []
open_object known _ = none

-- A field of wire_read::object that must be there (`missing_key` otherwise).
unfoldable pub required {ℓ} : {A : Type ℓ} → String → (Value → Option A) → Dict Value → Option A
unfolding find
required name read seen = find name seen >>= read

-- An optional field, which reset_omitted gives its value when it is not there.
unfoldable pub defaulted {ℓ} :
    {A : Type ℓ} → String → (Value → Option A) → A → Dict Value → Option A
unfolding find
defaulted name read other seen = elim (find name seen) [ none ↦ some other | some v ↦ read v ]

-- wire_write::field: an array is written only if it is not empty (wire::available).
unfoldable pub array_field {ℓ} : {A : Type ℓ} → String → (A → Value) → List A → Fields → Fields
array_field name write [] rest = rest
array_field name write (a ∷ as') rest = field name (write_array write (a ∷ as')) rest

-- A text field of `WIRE_FIELD_DEFAULTED(name, "")` is written only if it is not empty.
unfoldable pub defaulted_field : String → String → Fields → Fields
defaulted_field name s rest = if s =? "" then rest else field name (text s) rest

-- The documents that rapidjson prints and reads back unchanged: integers of 64 bits, and no doubles.
abbrev mutual
  pub IsPlain : Value → Type 0
  IsPlain null = Unit
  IsPlain (boolean b) = Unit
  IsPlain (unsigned n) = n < u64_limit
  IsPlain (negative n) = n < 2 ^ 63
  IsPlain (real s) = ⊥
  IsPlain (text s) = Unit
  IsPlain (array items) = PlainItems items
  IsPlain (object fields) = PlainFields fields

  pub PlainItems : Items → Type 0
  PlainItems nil = Unit
  PlainItems (cons v rest) = IsPlain v × PlainItems rest

  pub PlainFields : Fields → Type 0
  PlainFields end = Unit
  PlainFields (field k v rest) = IsPlain v × PlainFields rest

-- rapidjson's Writer and Reader.
pub record Rapidjson : Type 0 where
  pub print : Value → String
  pub parse : String → Option Value

-- What rapidjson documents, at one document: it reads back what it printed, and takes an empty text
-- for no document (kParseErrorDocumentEmpty).
pub record ReadsBack (json : Rapidjson) (v : Value) : Type 0 where
  pub parse-print : IsPlain v → json.parse (json.print v) ≡ some v
  pub parse-empty : json.parse "" ≡ none
