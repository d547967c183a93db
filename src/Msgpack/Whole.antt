-- ===== src/Msgpack/Whole.antt =====
-- Whole values through msgpack_writer and msgpack_reader::skip_value (src/wire/msgpack): they can be written,
-- and are skipped.
use xfo_lws.Base.{
  ℕ, suc, ◌+◌, ◌-◌, ◌*◌, ◌^◌, ◌<◌, ◌≤◌, ◌≡◌, refl, sym, subst, Bool, false, true, Option, none,
  some, List, ◌∷◌, ◌++◌, leb, ◌==◌, length, length-append, Bool-cases, inl, inr, arith,
}
use xfo_lws.Base.Int.{ℤ, pos, negsuc}
use xfo_lws.Base.Results.{Holds-map, Finds, IsSome, IsSome-Finds, IsSome-then}
use xfo_lws.Base.Table.{Table}
use xfo_lws.Msgpack.{
  FixedTag, ftag_string, ftag_array, ftag_object, string_types, binary_types, array_types,
  object_types, unsigned_types, signed_types,
}
use xfo_lws.Msgpack.Write.{
  Writer, new_writer, put, write_boolean, write_integer, write_real, write_string, write_binary,
  write_start_array, write_start_object, write_end, write_key, write_unsigned, with_count,
  write_fixed_count, write_count, integer_bytes, unsigned_bytes, do_integer, take_msgpack,
  match_size, write_endian, match_signed, big_endian,
}
use xfo_lws.Msgpack.Read.{reading, done, max_size}
use xfo_lws.Msgpack.Skip.{skip_loop, skip_value}
use xfo_lws.Msgpack.Skipping.{after, Consumed}
use xfo_lws.Msgpack.Written.{Wrote, write_doc-Wrote}
use xfo_lws.Msgpack.Documents.{
  Doc, boolean, integer, real, text, blob, array, object, Docs, nil, item, Fields, empty, field,
  docs_size, fields_size, nested, containers, chain, write_doc, write_docs, write_fields, IsFitting,
  AreFitting, FieldsFitting, IsSmall,
}

-- Counts of 32 bits, and integers of 64, have a type.
abbrev pub IsWide : Table ℕ → Type 0
IsWide types = (n : ℕ) → n < 2 ^ 32 → IsSome (match_size types n)

pub string_types-IsWide : IsWide string_types
unfolding match_size
string_types-IsWide n h = ground arith

pub binary_types-IsWide : IsWide binary_types
unfolding match_size
binary_types-IsWide n h = ground arith

array_types-IsWide : IsWide array_types
unfolding match_size
array_types-IsWide n h = ground arith

object_types-IsWide : IsWide object_types
unfolding match_size
object_types-IsWide n h = ground arith

unsigned_types-found : (n : ℕ) → n < 2 ^ 64 → IsSome (match_size unsigned_types n)
unfolding match_size
unsigned_types-found n h = ground arith

signed_types-found : (n : ℕ) → n < 2 ^ 63 → IsSome (match_signed signed_types n)
unfolding match_signed
signed_types-found n h = ground arith

IsSome-put :
    (o : Option (List ℕ)) (more less : ℕ) (w : Writer) → IsSome o → IsSome (put o more less w)
IsSome-put none more less w h = h
IsSome-put (some bytes) more less w h = tt

pub IsSome-with_count :
    (o : Option (List ℕ)) (source : List ℕ) → IsSome o → IsSome (with_count o source)
IsSome-with_count none source h = h
IsSome-with_count (some count) source h = tt

pub write_count-IsSome :
    (types : Table ℕ) (n : ℕ) → IsSome (match_size types n) → IsSome (write_count types n)
unfolding write_count
write_count-IsSome types n h =
    IsSome-then (match_size types n) (λ t. some (write_endian t n)) h (λ t. tt)

pub write_fixed_count-IsSome :
    (fixed : FixedTag) (types : Table ℕ) (n : ℕ)
    → IsSome (match_size types n)
    → IsSome (write_fixed_count fixed types n)
unfolding write_fixed_count
write_fixed_count-IsSome fixed types n h = elim (Bool-cases (leb n fixed.max)) [
  | inl e ↦ rw e tt
  | inr e ↦ rw e (write_count-IsSome types n h)
]

pub unsigned_bytes-IsSome : (n : ℕ) → n < 2 ^ 64 → IsSome (unsigned_bytes n)
unfolding unsigned_bytes
unsigned_bytes-IsSome n h = elim (Bool-cases (leb n 127)) [
  | inl e ↦ rw e tt
  | inr e ↦ rw e (write_count-IsSome unsigned_types n (unsigned_types-found n h))
]

pub integer_bytes-IsSome : (z : ℤ) → IsSmall z → IsSome (integer_bytes z)
unfolding integer_bytes do_integer
integer_bytes-IsSome (pos n) h = unsigned_bytes-IsSome n h
integer_bytes-IsSome (negsuc n) h =
    IsSome-then (match_signed signed_types n)
      (λ (tag, width). some (tag ∷ big_endian width (256 ^ width - (n + 1))))
      (signed_types-found n h) (λ t. tt)

write_key-IsSome :
    (keys : Bool) (id : ℕ) (name : List ℕ) (w : Writer)
    → id < 2 ^ 32
    → length name < 2 ^ 32
    → IsSome (write_key keys id name w)
unfolding write_key write_unsigned write_string
write_key-IsSome true id name w h h' =
    IsSome-put (unsigned_bytes id) 0 1 w (unsigned_bytes-IsSome id (omega arith))
write_key-IsSome false id name w h h' = IsSome-put _ 0 1 w (
    IsSome-with_count _ name (
      write_fixed_count-IsSome ftag_string string_types (length name)
        (string_types-IsWide (length name) h')))

IsSome-chain :
    (f g : Writer → Option Writer) (w : Writer)
    → IsSome (f w)
    → ((w' : Writer) → IsSome (g w'))
    → IsSome (chain f g w)
IsSome-chain f g w h h' = IsSome-then (f w) g h h'

mutual
  unfolding write_doc write_docs write_fields write_boolean write_integer write_real write_string
      write_binary write_start_array write_start_object write_end

  -- Fitting values are written.
  write_doc-IsSome :
      (keys : Bool) (d : Doc) (w : Writer) → IsFitting d → IsSome (write_doc keys d w)
  write_doc-IsSome keys (boolean b) w fits = tt
  write_doc-IsSome keys (integer z) w fits = IsSome-put _ 0 1 w (integer_bytes-IsSome z fits)
  write_doc-IsSome keys (real bytes) w fits = tt
  write_doc-IsSome keys (text bytes) w fits = IsSome-put _ 0 1 w (
      IsSome-with_count _ bytes (
        write_fixed_count-IsSome ftag_string string_types (length bytes)
          (string_types-IsWide (length bytes) fits)))
  write_doc-IsSome keys (blob bytes) w fits = IsSome-put _ 0 1 w (
      IsSome-with_count _ bytes
        (write_count-IsSome binary_types (length bytes) (binary_types-IsWide (length bytes) fits)))
  write_doc-IsSome keys (array ds) w fits =
      IsSome-chain (write_start_array (docs_size ds)) (chain (write_docs keys ds) write_end) w
        (IsSome-put _ (docs_size ds) 0 w (
          write_fixed_count-IsSome ftag_array array_types (docs_size ds)
            (array_types-IsWide (docs_size ds) fits.0)))
        (λ w'.
          IsSome-chain (write_docs keys ds) write_end w' (write_docs-IsSome keys ds w' fits.1)
            (λ w''. tt))
  write_doc-IsSome keys (object fs) w fits =
      IsSome-chain (write_start_object (fields_size fs)) (chain (write_fields keys fs) write_end) w
        (IsSome-put _ (fields_size fs * 2) 0 w (
          write_fixed_count-IsSome ftag_object object_types (fields_size fs)
            (object_types-IsWide (fields_size fs) fits.0)))
        (λ w'.
          IsSome-chain (write_fields keys fs) write_end w' (write_fields-IsSome keys fs w' fits.1)
            (λ w''. tt))

  write_docs-IsSome :
      (keys : Bool) (ds : Docs) (w : Writer) → AreFitting ds → IsSome (write_docs keys ds w)
  write_docs-IsSome keys nil w fits = tt
  write_docs-IsSome keys (item d ds) w fits =
      IsSome-chain (write_doc keys d) (write_docs keys ds) w (write_doc-IsSome keys d w fits.0)
        (λ w'. write_docs-IsSome keys ds w' fits.1)

  write_fields-IsSome :
      (keys : Bool) (fs : Fields) (w : Writer) → FieldsFitting fs → IsSome (write_fields keys fs w)
  write_fields-IsSome keys empty w fits = tt
  write_fields-IsSome keys (field id name d fs) w fits =
      IsSome-chain (write_key keys id name) (chain (write_doc keys d) (write_fields keys fs)) w
        (write_key-IsSome keys id name w fits.0.0 fits.0.1)
        (λ w'.
          IsSome-chain (write_doc keys d) (write_fields keys fs) w'
            (write_doc-IsSome keys d w' fits.1.0) (λ w''. write_fields-IsSome keys fs w'' fits.1.1))

-- The loop stops after one value.
skip_value-Consumed :
    (n c : ℕ) (bs rest : List ℕ) (t e : ℕ)
    → Consumed 1 n c bs
    → 1 ≤ t
    → t + n < max_size
    → e + c < 100
    → skip_value (reading (bs ++ rest) t e) ≡ done tt (reading rest (t - 1) (e + c))
unfolding skip_value after
skip_value-Consumed n c bs rest t e x one fits shallow =
    let size = length (bs ++ rest) in
    let fuel : 1 + n + (suc size - (1 + n)) ≡ suc size =
      omega (arith, x.rounds, length-append bs rest) in
    let first : leb t t ≡ true = ground arith in
    let last : leb t (t - 1) ≡ false = ground arith in
    let room : (t == max_size) ≡ false = ground arith in
    let loop = x.skips (suc size - (1 + n)) t t e rest one (omega arith) (omega arith) shallow in
    rw room (
      subst (λ f. skip_loop f t (reading (bs ++ rest) t e) ≡ done tt (reading rest (t - 1) (e + c)))
        fuel (rw (first, last) at loop))

-- A writer that expects nothing has a whole tree.
take_msgpack_complete : (w : Writer) → w.expected + 1 ≡ 1 → take_msgpack w ≡ some w.bytes
unfolding take_msgpack
take_msgpack_complete w h =
    let none_left : (w.expected == 0) ≡ true = ground (arith, h) in rw none_left refl

-- For a value that the format can hold, the writer ends with a whole tree, and skip_value takes the bytes of
-- the tree from the front of what remains and one from the tags to come, where those of the value still
-- fit in 64 bits. The depth is larger by the containers of the value afterwards, and is below 100.
pub skip_value-write_doc :
    (keys : Bool) (d : Doc) (rest : List ℕ) (t e : ℕ)
    → IsFitting d
    → 1 ≤ t
    → t + nested d < max_size
    → e + containers d < 100
    → Finds
        (λ w.
          (take_msgpack w ≡ some w.bytes)
          × (skip_value (reading (w.bytes ++ rest) t e)
              ≡ done tt (reading rest (t - 1) (e + containers d))))
        (write_doc keys d new_writer)
skip_value-write_doc keys d rest t e fits one room shallow =
    IsSome-Finds Skips (write_doc keys d new_writer) (write_doc-IsSome keys d new_writer fits) (
      Holds-map (Wrote 1 (nested d) (containers d) new_writer) Skips (write_doc keys d new_writer)
        (write_doc-Wrote keys d new_writer fits (omega arith) (omega arith))
        (λ w x. (
          take_msgpack_complete w x.counted,
          subst
              (λ bs.
                skip_value (reading (bs ++ rest) t e)
                ≡ done tt (reading rest (t - 1) (e + containers d)))
              (sym x.appended)
              (skip_value-Consumed (nested d) (containers d) x.more rest t e x.consumed one room
                shallow),
        )))
  where
    Skips : Writer → Type 0
    Skips w =
        (take_msgpack w ≡ some w.bytes)
        × (skip_value (reading (w.bytes ++ rest) t e)
            ≡ done tt (reading rest (t - 1) (e + containers d)))
