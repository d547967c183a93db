-- ===== src/Msgpack/RoundTrips.antt =====
-- What an operation of msgpack_writer writes, that of msgpack_reader reads back (src/wire/msgpack).
use xfo_lws.Base.{ℕ, ◌^◌, ◌<◌, ◌≡◌, refl, Option, none, some, List, ◌++◌, length}
use xfo_lws.Base.Int.{ℤ}
use xfo_lws.Base.Results.{Finds}
use xfo_lws.Msgpack.Write.{Writer, put, write_integer, write_string, write_binary, integer_bytes}
use xfo_lws.Msgpack.Read.{Action, integer, string, binary}
use xfo_lws.Msgpack.Texts.{string-ReadsAs, binary-ReadsAs}
use xfo_lws.Msgpack.Integers.{ReadsAs, InRange, integer_bytes-ReadsAs}

-- A writer appends bytes that are read as a value.
abbrev pub WritesAs : {A : Type 0} → Action A → A → Writer → Option Writer → Type 0
WritesAs m a w o = Finds (λ w'. (bs : List ℕ) × ((w'.bytes ≡ w.bytes ++ bs) × ReadsAs m a bs)) o

put-WritesAs :
    {A : Type 0} (m : Action A) (a : A) (o : Option (List ℕ)) (w : Writer)
    → Finds (ReadsAs m a) o
    → WritesAs m a w (put o 0 1 w)
put-WritesAs m a none w h = h
put-WritesAs m a (some bs) w h = (bs, (refl, h))

-- An integer of 64 bits that write_integer appends is the one that integer reads.
pub integer-write_integer :
    (z : ℤ) (w : Writer) → InRange z → WritesAs integer z w (write_integer z w)
unfolding write_integer
integer-write_integer z w h = put-WritesAs integer z (integer_bytes z) w (integer_bytes-ReadsAs z h)

-- Bytes that write_string or write_binary append are those that string and binary read.
pub string-write_string :
    (source : List ℕ) (w : Writer)
    → length source < 2 ^ 32
    → WritesAs string source w (write_string source w)
      × WritesAs binary source w (write_binary source w)
unfolding write_string write_binary
string-write_string source w h = (
  put-WritesAs string source _ w (string-ReadsAs source h),
  put-WritesAs binary source _ w (binary-ReadsAs source h),
)
