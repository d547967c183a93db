-- ===== src/Msgpack/Skip.antt =====
-- msgpack_reader::skip_value and msgpack_reader::key of src/wire/msgpack/read.cpp.
use xfo_lws.Base.{
  ℕ, zero, suc, ◌-◌, ◌^◌, Bool, true, false, ◌||◌, ◌&&◌, not, Option, none, some, List, [], ◌∷◌,
  leb, ◌==◌, if◌then◌else◌, length,
}
use xfo_lws.Base.Table.{Table, lookup}
use xfo_lws.Msgpack.{
  matches, ftag_unsigned, ftag_signed, ftag_string, ftag_array, ftag_object, unsigned_types,
  string_types, binary_types, extension_types, array_types, object_types,
}
use xfo_lws.Msgpack.Read.{
  invalid, max_tree_size, not_string, invalid_key, stuck, done, thrown, Action, ◌>>=◌, return,
  throw, max_size, update_tags_remaining, remove_prefix, peek_tag, get_tag, read_sized, read_string,
  read_binary, do_unsigned_integer, start_array, start_object,
}

-- The bytes of a value, with its tag, where the tag tells them.
abbrev pub fixed_sizes : Table ℕ
fixed_sizes =
    (0xc0, 1)
    ∷ ((0xc1, 1)
        ∷ ((0xc2, 1)
            ∷ ((0xc3, 1)
                ∷ ((0xd0, 2)
                    ∷ ((0xcc, 2)
                        ∷ ((0xd1, 3)
                            ∷ ((0xcd, 3)
                                ∷ ((0xd4, 3)
                                    ∷ ((0xd2, 5)
                                        ∷ ((0xce, 5)
                                            ∷ ((0xca, 5)
                                                ∷ ((0xd3, 9)
                                                    ∷ ((0xcf, 9)
                                                        ∷ ((0xcb, 9)
                                                            ∷ ((0xd5, 4)
                                                            ∷ ((0xd6, 6)
                                                            ∷ ((0xd7, 10)
                                                            ∷ ((0xd8, 18) ∷ []))))))))))))))))))

unfoldable pub has_type : Table ℕ → ℕ → Bool
unfolding lookup
has_type types tag = elim (lookup tag types) [ none ↦ false | some width ↦ true ]

-- The switch on the tag at the front; a fixed integer is left there.
unfoldable pub skip_tag : ℕ → Action Unit
unfolding has_type remove_prefix read_string read_binary read_sized start_array start_object lookup
skip_tag next =
    if matches ftag_string next || has_type string_types next
    then (do u ← remove_prefix 1; s ← read_string next; return tt)
    else if matches ftag_array next || has_type array_types next
    then (do n ← start_array 0; return tt)
    else if matches ftag_object next || has_type object_types next
    then (do n ← start_object; return tt)
    else if has_type binary_types next
    then (do u ← remove_prefix 1; s ← read_binary next; return tt)
    else if has_type extension_types next
    then (do u ← remove_prefix 1; s ← read_sized extension_types not_string next; remove_prefix 1)
    else elim (lookup next fixed_sizes) [ none ↦ return tt | some size ↦ remove_prefix size ]

-- What follows the switch, with the size before it: a tag that took nothing is a fixed integer.
unfoldable pub skip_fixed : ℕ → ℕ → Action Unit
unfolding remove_prefix
skip_fixed size next r =
    if size == length r.remaining
    then (if not (matches ftag_unsigned next) && not (matches ftag_signed next)
        then thrown invalid
        else remove_prefix 1 r)
    else done tt r

-- One round of the loop.
unfoldable pub skip_round : Action Unit
unfolding peek_tag skip_tag skip_fixed update_tags_remaining
skip_round r =
    (do
      next ← peek_tag
      a ← skip_tag next
      b ← skip_fixed (length r.remaining) next
      update_tags_remaining)
      r

unfoldable pub skip_loop : ℕ → ℕ → Action Unit
unfolding skip_round
skip_loop zero initial r = thrown stuck
skip_loop (suc fuel) initial r = elim (skip_round r) [
  | thrown e ↦ thrown e
  | done u r' ↦
      let more = skip_loop fuel initial r' in if leb initial r'.tags then more else done tt r'
]

-- Each round takes a byte, and one that finds none ends the loop.
unfoldable pub skip_value : Action Unit
unfolding skip_loop
skip_value r =
    if r.tags == max_size
    then thrown max_tree_size
    else skip_loop (suc (length r.remaining)) r.tags r

-- reader::key_map
pub record KeyMap : Type 0 where
  pub name : List ℕ
  pub id : ℕ

unfoldable pub same_bytes : List ℕ → List ℕ → Bool
same_bytes [] [] = true
same_bytes [] (b ∷ bs) = false
same_bytes (a ∷ as') [] = false
same_bytes (a ∷ as') (b ∷ bs) = (a == b) && same_bytes as' bs

-- The first element of the map that has the key, as an index.
unfoldable pub find_key : (KeyMap → Bool) → List KeyMap → Option ℕ
find_key p [] = none
find_key p (k ∷ map) =
    if p k then some 0 else elim (find_key p map) [ none ↦ none | some index ↦ some (suc index) ]

-- The index of the key that begins with `next`, in the map.
unfoldable pub key_index : List KeyMap → ℕ → Action (Option ℕ)
unfolding has_type do_unsigned_integer read_string find_key same_bytes
key_index map next =
    if matches ftag_unsigned next
    then return (find_key (λ k. k.id == next) map)
    else if has_type unsigned_types next
    then (do key ← do_unsigned_integer (2 ^ 32 - 1) next; return (find_key (λ k. k.id == key) map))
    else if matches ftag_string next || has_type string_types next
    then (do name ← read_string next; return (find_key (λ k. same_bytes name k.name) map))
    else throw invalid_key

-- key: the index of a key of the map with the state after it, or `none` at the end of the object.
unfoldable pub key : List KeyMap → ℕ → Action (Option (ℕ × ℕ))
unfolding update_tags_remaining get_tag key_index skip_value
key map zero = do u ← update_tags_remaining; return none
key map (suc state) = do
  u ← update_tags_remaining
  next ← get_tag
  found ← key_index map next
  elim found [ some index ↦ return (some (index, state)) | none ↦ do a ← skip_value; key map state ]
