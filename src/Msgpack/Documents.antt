-- ===== src/Msgpack/Documents.antt =====
-- Whole values, written by the operations of msgpack_writer (src/wire/msgpack/write.cpp) in the order in
-- which the serialisers of src/wire/write.h call them.
use xfo_lws.Base.{ℕ, suc, ◌+◌, ◌*◌, ◌^◌, ◌<◌, ◌≡◌, Bool, Option, none, some, List, length}
use xfo_lws.Base.Int.{ℤ, pos, negsuc}
use xfo_lws.Msgpack.Write.{
  Writer, write_boolean, write_integer, write_real, write_string, write_binary, write_start_array,
  write_start_object, write_end, write_key,
}

mutual
  -- A value; `real` has the 8 bytes of the number.
  pub data Doc : Type 0 where
    boolean : Bool → Doc
    integer : ℤ → Doc
    real : List ℕ → Doc
    text : List ℕ → Doc
    blob : List ℕ → Doc
    array : Docs → Doc
    object : Fields → Doc

  pub data Docs : Type 0 where
    nil : Docs
    item : Doc → Docs → Docs

  -- The fields of an object, each with its id and its name.
  pub data Fields : Type 0 where
    empty : Fields
    field : ℕ → List ℕ → Doc → Fields → Fields

unfoldable pub docs_size : Docs → ℕ
docs_size nil = 0
docs_size (item d ds) = suc (docs_size ds)

unfoldable pub fields_size : Fields → ℕ
fields_size empty = 0
fields_size (field id name d fs) = suc (fields_size fs)

unfoldable mutual
  -- The values and the keys inside a value.
  pub nested : Doc → ℕ
  nested (boolean b) = 0
  nested (integer z) = 0
  nested (real bytes) = 0
  nested (text bytes) = 0
  nested (blob bytes) = 0
  nested (array ds) = docs_size ds + nested_docs ds
  nested (object fs) = fields_size fs * 2 + nested_fields fs

  pub nested_docs : Docs → ℕ
  nested_docs nil = 0
  nested_docs (item d ds) = nested d + nested_docs ds

  pub nested_fields : Fields → ℕ
  nested_fields empty = 0
  nested_fields (field id name d fs) = nested d + nested_fields fs

unfoldable mutual
  -- The arrays and objects of a value, itself included.
  pub containers : Doc → ℕ
  containers (boolean b) = 0
  containers (integer z) = 0
  containers (real bytes) = 0
  containers (text bytes) = 0
  containers (blob bytes) = 0
  containers (array ds) = suc (containers_docs ds)
  containers (object fs) = suc (containers_fields fs)

  pub containers_docs : Docs → ℕ
  containers_docs nil = 0
  containers_docs (item d ds) = containers d + containers_docs ds

  pub containers_fields : Fields → ℕ
  containers_fields empty = 0
  containers_fields (field id name d fs) = containers d + containers_fields fs

-- One writer after another.
abbrev pub chain : (Writer → Option Writer) → (Writer → Option Writer) → Writer → Option Writer
chain f g w = elim (f w) [ none ↦ none | some w' ↦ g w' ]

unfoldable mutual
  pub write_doc : Bool → Doc → Writer → Option Writer
  write_doc keys (boolean b) = write_boolean b
  write_doc keys (integer z) = write_integer z
  write_doc keys (real bytes) = write_real bytes
  write_doc keys (text bytes) = write_string bytes
  write_doc keys (blob bytes) = write_binary bytes
  write_doc keys (array ds) =
      chain (write_start_array (docs_size ds)) (chain (write_docs keys ds) write_end)
  write_doc keys (object fs) =
      chain (write_start_object (fields_size fs)) (chain (write_fields keys fs) write_end)

  pub write_docs : Bool → Docs → Writer → Option Writer
  write_docs keys nil = some
  write_docs keys (item d ds) = chain (write_doc keys d) (write_docs keys ds)

  pub write_fields : Bool → Fields → Writer → Option Writer
  write_fields keys empty = some
  write_fields keys (field id name d fs) =
      chain (write_key keys id name) (chain (write_doc keys d) (write_fields keys fs))

-- What the format can hold: an integer of 64 bits, lengths of 32 bits and the 8 bytes of a number.
abbrev pub IsSmall : ℤ → Type 0
IsSmall (pos n) = n < 2 ^ 64
IsSmall (negsuc n) = n < 2 ^ 63

abbrev mutual
  pub IsFitting : Doc → Type 0
  IsFitting (boolean b) = Unit
  IsFitting (integer z) = IsSmall z
  IsFitting (real bytes) = length bytes ≡ 8
  IsFitting (text bytes) = length bytes < 2 ^ 32
  IsFitting (blob bytes) = length bytes < 2 ^ 32
  IsFitting (array ds) = (docs_size ds < 2 ^ 32) × AreFitting ds
  IsFitting (object fs) = (fields_size fs < 2 ^ 32) × FieldsFitting fs

  pub AreFitting : Docs → Type 0
  AreFitting nil = Unit
  AreFitting (item d ds) = IsFitting d × AreFitting ds

  -- An id has 32 bits.
  pub FieldsFitting : Fields → Type 0
  FieldsFitting empty = Unit
  FieldsFitting (field id name d fs) =
      ((id < 2 ^ 32) × (length name < 2 ^ 32)) × (IsFitting d × FieldsFitting fs)
