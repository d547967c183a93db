-- ===== src/Msgpack/Runs.antt =====
-- The claims on src/wire/msgpack at concrete values.
use xfo_lws.Base.{ℕ, ◌+◌, ◌-◌, ◌≡◌, ◌++◌, refl, true, false, some, List, [], ◌∷◌, arith}
use xfo_lws.Base.Int.{negsuc}
use xfo_lws.Base.Results.{Finds}
use xfo_lws.Msgpack.Write.{
  new_writer, write_integer, write_string, write_binary, take_msgpack, write_boolean,
  write_start_array, write_start_object, write_end, write_key,
}
use xfo_lws.Msgpack.Read.{
  Reader, reading, new_reader, done, thrown, maximum_depth, string, binary, not_integer,
}
use xfo_lws.Msgpack.Skip.{skip_value}
use xfo_lws.Msgpack.Progress.{Ends}
use xfo_lws.Msgpack.Termination.{skip_value-Ends}
use xfo_lws.Msgpack.RoundTrips.{WritesAs, integer-write_integer, string-write_string}
use xfo_lws.Msgpack.Documents.{
  Doc, boolean, integer, text, array, object, nil, item, empty, field, nested, containers,
  write_doc, docs_size, fields_size,
}
use xfo_lws.Msgpack.Whole.{skip_value-write_doc}
use xfo_lws.Msgpack.Read

-- {"ab": [true, -1000], "c": "x"}
abbrev sample : Doc
sample = object (
    field 0 (0x61 ∷ 0x62 ∷ []) (array (item (boolean true) (item (integer (negsuc 999)) nil)))
      (field 1 (0x63 ∷ []) (text (0x78 ∷ [])) empty))

-- The bytes of the sample.
abbrev sample_bytes : List ℕ
sample_bytes =
    0x82 ∷ 0xa2 ∷ 0x61 ∷ 0x62 ∷ 0x92 ∷ 0xc3 ∷ 0xd1 ∷ 0xfc ∷ 0x18 ∷ 0xa1 ∷ 0x63 ∷ 0xa1 ∷ 0x78 ∷ []

write_doc-sample :
    write_doc false sample new_writer ≡ some (record { bytes = sample_bytes; expected = 0 })
unfolding write_doc write_start_object fields_size write_key write_start_array docs_size
    write_boolean write_integer write_end write_string
write_doc-sample = refl

skip_value-write_doc_example :
    Finds
      (λ w.
        (take_msgpack w ≡ some w.bytes)
        × (skip_value (reading (w.bytes ++ 7 ∷ []) 1 0)
            ≡ done tt (reading (7 ∷ []) (1 - 1) (0 + containers sample))))
      (write_doc false sample new_writer)
unfolding nested containers docs_size fields_size
skip_value-write_doc_example =
    skip_value-write_doc false sample (7 ∷ []) 1 0
      (
        omega arith,
        (
          (omega arith, omega arith),
          ((omega arith, (tt, (omega arith, tt))), ((omega arith, omega arith), (omega arith, tt))),
        ),
      )
      (omega arith) (omega arith) (omega arith)

skip_value-Ends_example : Ends 3 (skip_value (reading (0x93 ∷ 0xc1 ∷ 0x05 ∷ []) 1 0))
skip_value-Ends_example = skip_value-Ends (reading (0x93 ∷ 0xc1 ∷ 0x05 ∷ []) 1 0)

integer-write_integer_example :
    WritesAs Read.integer (negsuc 999) new_writer (write_integer (negsuc 999) new_writer)
integer-write_integer_example = integer-write_integer (negsuc 999) new_writer (omega arith)

string-write_string_example :
    WritesAs string (0x61 ∷ []) new_writer (write_string (0x61 ∷ []) new_writer)
    × WritesAs binary (0x61 ∷ []) new_writer (write_binary (0x61 ∷ []) new_writer)
string-write_string_example = string-write_string (0x61 ∷ []) new_writer (omega arith)
