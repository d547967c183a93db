-- ===== src/Msgpack/Write.antt =====
-- msgpack_writer of src/wire/msgpack/write.h and src/wire/msgpack/write.cpp. `none` is the exception
-- integer_encoding.
use xfo_lws.Base.{
  ℕ, zero, suc, ◌+◌, ◌-◌, ◌*◌, ◌/◌, ◌%◌, ◌^◌, Bool, Option, none, some, List, [], ◌∷◌, ◌++◌, ltb,
  leb, ◌==◌, if◌then◌else◌, length,
}
use xfo_lws.Base.Int.{ℤ, pos, negsuc, less}
use xfo_lws.Base.Table.{Table}
use xfo_lws.Msgpack.{
  FixedTag, ftag_unsigned, ftag_string, ftag_array, ftag_object, signed_types, unsigned_types,
  string_types, binary_types, array_types, object_types, false_tag, true_tag, float64_tag,
}

-- bytes_ and expected_
pub record Writer : Type 0 where
  pub bytes : List ℕ
  pub expected : ℕ

abbrev pub new_writer : Writer
new_writer = record { bytes = []; expected = 1 }

-- `width` bytes, the highest first
unfoldable pub big_endian : ℕ → ℕ → List ℕ
big_endian zero value = []
big_endian (suc width) value = big_endian width (value / 256) ++ (value % 256) ∷ []

abbrev pub write_endian : ℕ × ℕ → ℕ → List ℕ
write_endian (tag, width) value = tag ∷ big_endian width value

-- The first type whose largest value is not below `items`.
unfoldable pub match_size : Table ℕ → ℕ → Option (ℕ × ℕ)
match_size [] items = none
match_size ((tag, width) ∷ types) items =
    if ltb (256 ^ width - 1) items then match_size types items else some (tag, width)

unfoldable pub write_count : Table ℕ → ℕ → Option (List ℕ)
unfolding match_size
write_count types items = elim (match_size types items) [
  | none ↦ none
  | some t ↦ some (write_endian t items)
]

unfoldable pub write_fixed_count : FixedTag → Table ℕ → ℕ → Option (List ℕ)
unfolding write_count
write_fixed_count fixed types items =
    if leb items fixed.max then some ((fixed.tag + items) ∷ []) else write_count types items

-- A value was written: its bytes, and the change of expected_, which has 64 bits and wraps around.
abbrev pub put : Option (List ℕ) → ℕ → ℕ → Writer → Option Writer
put none more done w = none
put (some bytes) more done w =
    some
      (record { bytes = w.bytes ++ bytes; expected = (w.expected + more + 2 ^ 64 - done) % 2 ^ 64 })

-- The first signed type whose smallest value is not above -(n + 1).
unfoldable pub match_signed : Table ℕ → ℕ → Option (ℕ × ℕ)
match_signed [] n = none
match_signed ((tag, width) ∷ types) n =
    if ltb n (256 ^ width / 2) then some (tag, width) else match_signed types n

-- do_integer of -(n + 1), in two's complement
unfoldable pub do_integer : ℕ → Option (List ℕ)
unfolding match_signed big_endian
do_integer n =
    if less (pos 0xe0) (negsuc n)
    then some ((255 - n % 256) ∷ [])
    else elim (match_signed signed_types n) [
      | none ↦ none
      | some (tag, width) ↦ some (tag ∷ big_endian width (256 ^ width - (n + 1)))
    ]

-- do_unsigned_integer, and the test before it
unfoldable pub unsigned_bytes : ℕ → Option (List ℕ)
unfolding write_count
unsigned_bytes value =
    if leb value ftag_unsigned.max then some (value ∷ []) else write_count unsigned_types value

-- integer_t
unfoldable pub integer_bytes : ℤ → Option (List ℕ)
unfolding unsigned_bytes do_integer
integer_bytes (pos n) = unsigned_bytes n
integer_bytes (negsuc n) = do_integer n

unfoldable pub write_boolean : Bool → Writer → Option Writer
write_boolean b = put (some ((if b then true_tag else false_tag) ∷ [])) 0 1

unfoldable pub write_integer : ℤ → Writer → Option Writer
unfolding integer_bytes
write_integer z = put (integer_bytes z) 0 1

unfoldable pub write_unsigned : ℕ → Writer → Option Writer
unfolding unsigned_bytes
write_unsigned n = put (unsigned_bytes n) 0 1

-- real, given the 8 bytes of the number
unfoldable pub write_real : List ℕ → Writer → Option Writer
write_real source = put (some (float64_tag ∷ source)) 0 1

abbrev pub with_count : Option (List ℕ) → List ℕ → Option (List ℕ)
with_count none source = none
with_count (some count) source = some (count ++ source)

unfoldable pub write_string : List ℕ → Writer → Option Writer
unfolding write_fixed_count
write_string source =
    put (with_count (write_fixed_count ftag_string string_types (length source)) source) 0 1

unfoldable pub write_binary : List ℕ → Writer → Option Writer
unfolding write_count
write_binary source = put (with_count (write_count binary_types (length source)) source) 0 1

unfoldable pub write_start_array : ℕ → Writer → Option Writer
unfolding write_fixed_count
write_start_array items = put (write_fixed_count ftag_array array_types items) items 0

unfoldable pub write_start_object : ℕ → Writer → Option Writer
unfolding write_fixed_count
write_start_object items = put (write_fixed_count ftag_object object_types items) (items * 2) 0

-- end_array and end_object
unfoldable pub write_end : Writer → Option Writer
write_end = put (some []) 0 1

-- key, with integer_keys_
unfoldable pub write_key : Bool → ℕ → List ℕ → Writer → Option Writer
unfolding write_unsigned write_string
write_key integer_keys id name = if integer_keys then write_unsigned id else write_string name

-- take_msgpack; `none` is the exception of a tree that is not complete.
unfoldable pub take_msgpack : Writer → Option (List ℕ)
take_msgpack w = if w.expected == 0 then some w.bytes else none
