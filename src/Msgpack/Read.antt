-- ===== src/Msgpack/Read.antt =====
-- msgpack_reader of src/wire/msgpack/read.h and src/wire/msgpack/read.cpp but for skip_value and key.
-- std::size_t has 64 bits.
use xfo_lws.Base.{
  ℕ, ◌≡◌, ap, ◌+◌, ◌-◌, ◌*◌, ◌/◌, ◌^◌, Bool, true, false, ◌||◌, not, none, some, List, [], ◌∷◌, ltb,
  leb, ◌==◌, if◌then◌else◌, length,
}
use xfo_lws.Base.Int.{ℤ, pos, negsuc}
use xfo_lws.Base.Table.{Table, lookup}
use xfo_lws.Base.Slices.{take, drop}
use xfo_lws.Msgpack.{
  FixedTag, matches, extract, ftag_unsigned, ftag_signed, ftag_string, ftag_array, ftag_object,
  signed_types, unsigned_types, string_types, binary_types, array_types, object_types, false_tag,
  true_tag, float32_tag, float64_tag,
}

-- remaining_, tags_remaining_ and depth_
pub record Reader : Type 0 where
  pub remaining : List ℕ
  pub tags : ℕ
  pub depth : ℕ

abbrev pub new_reader : List ℕ → Reader
new_reader source = record { remaining = source; tags = 1; depth = 0 }

abbrev pub reading : List ℕ → ℕ → ℕ → Reader
reading remaining tags depth = record { remaining = remaining; tags = tags; depth = depth }

-- error::msgpack and error::schema; `stuck` is no error of the program: a loop ran out of fuel.
pub data ReadError : Type 0 where
  not_enough_bytes : ReadError
  underflow_tree : ReadError
  max_tree_size : ReadError
  invalid : ReadError
  incomplete : ReadError
  maximum_depth : ReadError
  smaller_integer : ReadError
  larger_integer : ReadError
  not_integer : ReadError
  not_string : ReadError
  not_boolean : ReadError
  not_number : ReadError
  not_array : ReadError
  not_object : ReadError
  not_fixed_binary : ReadError
  invalid_key : ReadError
  stuck : ReadError

pub data Outcome (A : Type 0) : Type 0 where
  done : A → Reader → Outcome A
  thrown : ReadError → Outcome A

abbrev pub Action : Type 0 → Type 0
Action A = Reader → Outcome A

infixl 1 ◌>>=◌
abbrev pub ◌>>=◌ : {A B : Type 0} → Action A → (A → Action B) → Action B
(m >>= f) r = elim (m r) [ done a r' ↦ f a r' | thrown e ↦ thrown e ]

pub bind-done :
    {A B : Type 0} (m : Action A) (f : A → Action B) (r r' : Reader) (a : A)
    → m r ≡ done a r'
    → (m >>= f) r ≡ f a r'
bind-done m f r r' a e = ap (λ o. elim o [ done b s ↦ f b s | thrown x ↦ thrown x ]) e

abbrev pub return : {A : Type 0} → A → Action A
return a r = done a r

abbrev pub throw : {A : Type 0} → ReadError → Action A
throw e r = thrown e

abbrev pub max_size : ℕ
max_size = 2 ^ 64 - 1

abbrev pub max_read_depth : ℕ
max_read_depth = 100

unfoldable pub update_tags_remaining : Action Unit
update_tags_remaining r =
    if r.tags == 0
    then thrown underflow_tree
    else done tt (record { remaining = r.remaining; tags = r.tags - 1; depth = r.depth })

unfoldable pub increment_depth : Action Unit
increment_depth r =
    if r.depth + 1 == max_read_depth
    then thrown maximum_depth
    else done tt (record { remaining = r.remaining; tags = r.tags; depth = r.depth + 1 })

-- remove_prefix of remaining_: so many bytes, or all
unfoldable pub remove_prefix : ℕ → Action Unit
unfolding drop
remove_prefix n r =
    done tt (record { remaining = drop n r.remaining; tags = r.tags; depth = r.depth })

unfoldable pub peek_tag : Action ℕ
peek_tag r = elim r.remaining [ [] ↦ thrown not_enough_bytes | b ∷ bs ↦ done b r ]

unfoldable pub get_tag : Action ℕ
get_tag r = elim r.remaining [
  | [] ↦ thrown not_enough_bytes
  | b ∷ bs ↦ done b (record { remaining = bs; tags = r.tags; depth = r.depth })
]

unfoldable pub read_raw : ℕ → Action (List ℕ)
unfolding take drop
read_raw n r =
    if ltb (length r.remaining) n
    then thrown not_enough_bytes
    else done (take n r.remaining)
        (record { remaining = drop n r.remaining; tags = r.tags; depth = r.depth })

-- The number of bytes, the highest first.
unfoldable pub big_endian_value : ℕ → List ℕ → ℕ
big_endian_value acc [] = acc
big_endian_value acc (b ∷ bs) = big_endian_value (acc * 256 + b) bs

-- read_endian of an unsigned type
unfoldable pub read_endian : ℕ → Action ℕ
unfolding read_raw big_endian_value
read_endian width = do bs ← read_raw width; return (big_endian_value 0 bs)

-- The value of a two's complement number.
unfoldable pub signed_value : ℕ → ℕ → ℤ
signed_value width n = if ltb n (256 ^ width / 2) then pos n else negsuc (256 ^ width - 1 - n)

unfoldable pub read_signed : ℕ → Action ℤ
unfolding read_endian signed_value
read_signed width = do n ← read_endian width; return (signed_value width n)

unfoldable pub read_positive : ℕ → Action ℤ
unfolding read_endian
read_positive width = do n ← read_endian width; return (pos n)

-- The value that `next` announces, of any size; read_integer before numeric_cast.
unfoldable pub read_any_integer : ℕ → Action ℤ
unfolding read_signed read_positive lookup
read_any_integer next = elim (lookup next signed_types) [
  | some width ↦ read_signed width
  | none ↦ elim (lookup next unsigned_types) [
    | some width ↦ read_positive width
    | none ↦ throw not_integer
  ]
]

-- boost::numeric_cast to a signed type of 64 bits, and to an unsigned type with a largest value
unfoldable pub cast_signed : ℤ → Action ℤ
cast_signed (pos n) = if ltb n (2 ^ 63) then return (pos n) else throw smaller_integer
cast_signed (negsuc n) = if ltb n (2 ^ 63) then return (negsuc n) else throw larger_integer

unfoldable pub cast_unsigned : ℕ → ℤ → Action ℕ
cast_unsigned largest (pos n) = if leb n largest then return n else throw smaller_integer
cast_unsigned largest (negsuc n) = throw larger_integer

unfoldable pub do_integer : ℕ → Action ℤ
unfolding read_any_integer cast_signed signed_value
do_integer next =
    if matches ftag_signed next
    then return (signed_value 1 next)
    else do z ← read_any_integer next; cast_signed z

unfoldable pub do_unsigned_integer : ℕ → ℕ → Action ℕ
unfolding read_any_integer cast_unsigned
do_unsigned_integer largest next = do z ← read_any_integer next; cast_unsigned largest z

unfoldable pub integer : Action ℤ
unfolding update_tags_remaining get_tag do_integer
integer = do
  u ← update_tags_remaining
  next ← get_tag
  if leb next ftag_unsigned.max then return (pos next) else do_integer next

unfoldable pub unsigned_integer : Action ℕ
unfolding update_tags_remaining get_tag do_unsigned_integer
unsigned_integer = do
  u ← update_tags_remaining
  next ← get_tag
  if leb next ftag_unsigned.max then return next else do_unsigned_integer (2 ^ 64 - 1) next

-- read_raw<T>
unfoldable pub read_counted : ℕ → Action (List ℕ)
unfolding read_endian read_raw
read_counted width = do n ← read_endian width; read_raw n

unfoldable pub read_sized : Table ℕ → ReadError → ℕ → Action (List ℕ)
unfolding lookup read_counted
read_sized types error next = elim (lookup next types) [
  | none ↦ throw error
  | some width ↦ read_counted width
]

unfoldable pub read_string : ℕ → Action (List ℕ)
unfolding read_raw read_sized
read_string next =
    if matches ftag_string next
    then read_raw (extract ftag_string next)
    else read_sized string_types not_string next

unfoldable pub read_binary : ℕ → Action (List ℕ)
unfolding read_sized
read_binary = read_sized binary_types not_string

unfoldable pub read_count : FixedTag → Table ℕ → ReadError → Action ℕ
unfolding get_tag lookup read_endian
read_count fixed types error = do
  next ← get_tag
  if matches fixed next
      then return (extract fixed next)
      else elim (lookup next types) [ none ↦ throw error | some width ↦ read_endian width ]

-- check_complete
unfoldable pub check_complete : Action Unit
check_complete r = if r.tags == 0 then done tt r else thrown incomplete

unfoldable pub boolean : Action Bool
unfolding update_tags_remaining get_tag
boolean = do
  u ← update_tags_remaining
  next ← get_tag
  if next == true_tag
      then return true
      else if next == false_tag
      then return false
      else throw not_boolean

-- real: the bytes of a number of single or double precision
unfoldable pub real : Action (List ℕ)
unfolding update_tags_remaining get_tag read_raw
real = do
  u ← update_tags_remaining
  next ← get_tag
  if next == float32_tag
      then read_raw 4
      else if next == float64_tag
      then read_raw 8
      else throw not_number

unfoldable pub string : Action (List ℕ)
unfolding update_tags_remaining get_tag read_string
string = do u ← update_tags_remaining; next ← get_tag; read_string next

unfoldable pub binary : Action (List ℕ)
unfolding update_tags_remaining get_tag read_binary
binary = do u ← update_tags_remaining; next ← get_tag; read_binary next

-- binary into a span of `size` bytes
unfoldable pub fixed_binary : ℕ → Action (List ℕ)
unfolding binary
fixed_binary size = do
  bytes ← binary
  if length bytes == size then return bytes else throw not_fixed_binary

abbrev pub add_tags : ℕ → Action Unit
add_tags n r = done tt (record { remaining = r.remaining; tags = r.tags + n; depth = r.depth })

abbrev pub fits_remaining : ℕ → ℕ → Reader → Bool
fits_remaining min_element_size upcoming r =
    (min_element_size == 0) || not (ltb (length r.remaining / min_element_size) upcoming)

abbrev pub check_array : ℕ → ℕ → Action Unit
check_array min_element_size upcoming r =
    if ltb (max_size - r.tags) upcoming
    then thrown max_tree_size
    else if not (fits_remaining min_element_size upcoming r)
    then thrown not_array
    else done tt r

-- start_array after the count
unfoldable pub enter_array : ℕ → ℕ → Action ℕ
unfolding increment_depth
enter_array min_element_size upcoming = do
  a ← check_array min_element_size upcoming
  b ← add_tags upcoming
  c ← increment_depth
  return upcoming

unfoldable pub start_array : ℕ → Action ℕ
unfolding read_count enter_array
start_array min_element_size = do
  upcoming ← read_count ftag_array array_types not_array
  enter_array min_element_size upcoming

unfoldable pub is_array_end : ℕ → Action Bool
unfolding update_tags_remaining
is_array_end count =
    if count == 0 then (do u ← update_tags_remaining; return true) else return false

abbrev pub check_object : ℕ → Action Unit
check_object upcoming r =
    if ltb (max_size / 2) upcoming
    then thrown max_tree_size
    else if ltb (max_size - r.tags) (upcoming * 2)
    then thrown max_tree_size
    else done tt r

-- start_object after the count
unfoldable pub enter_object : ℕ → Action ℕ
unfolding increment_depth
enter_object upcoming = do
  a ← check_object upcoming
  b ← add_tags (upcoming * 2)
  c ← increment_depth
  return upcoming

unfoldable pub start_object : Action ℕ
unfolding read_count enter_object
start_object = do upcoming ← read_count ftag_object object_types not_object; enter_object upcoming
