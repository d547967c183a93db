-- ===== src/Msgpack.antt =====
-- The MessagePack format of src/wire/msgpack: base.h here, write.h and write.cpp in Write, read.h and
-- read.cpp in Read and Skip. A byte is a number below 256, a text is its bytes, and a floating point
-- number is the 4 or 8 bytes that represent it.
use xfo_lws.Base.{ℕ, ◌+◌, ◌/◌, ◌%◌, ◌^◌, Bool, List, [], ◌∷◌, ◌==◌}
use xfo_lws.Base.Table.{Table}
pub mod Write
pub mod Read
pub mod Skip
pub mod Endian
pub mod Counts
pub mod Rounds
pub mod Progress
pub mod Termination
pub mod Scalars
pub mod Heads
pub mod Documents
pub mod Skipping
pub mod Written
pub mod Whole
pub mod Texts
pub mod Integers
pub mod RoundTrips
pub mod Runs

-- fixed_tag: the tag, the number of values that its mask leaves, and the largest that is written.
pub record FixedTag : Type 0 where
  pub tag : ℕ
  pub span : ℕ
  pub max : ℕ

-- fixed_tag::matches and fixed_tag::extract
abbrev pub matches : FixedTag → ℕ → Bool
matches t value = value / t.span == t.tag / t.span

abbrev pub extract : FixedTag → ℕ → ℕ
extract t value = value % t.span

abbrev pub ftag_unsigned : FixedTag
ftag_unsigned = record { tag = 0x00; span = 128; max = 0x7f }

abbrev pub ftag_signed : FixedTag
ftag_signed = record { tag = 0xe0; span = 32; max = 0 }

abbrev pub ftag_string : FixedTag
ftag_string = record { tag = 0xa0; span = 32; max = 31 }

abbrev pub ftag_array : FixedTag
ftag_array = record { tag = 0x90; span = 16; max = 15 }

abbrev pub ftag_object : FixedTag
ftag_object = record { tag = 0x80; span = 16; max = 15 }

-- The tags, with the bytes of the integer after each.
abbrev pub signed_types : Table ℕ
signed_types = (0xd0, 1) ∷ ((0xd1, 2) ∷ ((0xd2, 4) ∷ ((0xd3, 8) ∷ [])))

abbrev pub unsigned_types : Table ℕ
unsigned_types = (0xcc, 1) ∷ ((0xcd, 2) ∷ ((0xce, 4) ∷ ((0xcf, 8) ∷ [])))

abbrev pub string_types : Table ℕ
string_types = (0xd9, 1) ∷ ((0xda, 2) ∷ ((0xdb, 4) ∷ []))

abbrev pub binary_types : Table ℕ
binary_types = (0xc4, 1) ∷ ((0xc5, 2) ∷ ((0xc6, 4) ∷ []))

abbrev pub extension_types : Table ℕ
extension_types = (0xc7, 1) ∷ ((0xc8, 2) ∷ ((0xc9, 4) ∷ []))

abbrev pub array_types : Table ℕ
array_types = (0xdc, 2) ∷ ((0xdd, 4) ∷ [])

abbrev pub object_types : Table ℕ
object_types = (0xde, 2) ∷ ((0xdf, 4) ∷ [])

-- tag::nil, tag::unused, tag::False, tag::True, tag::float32, tag::float64
abbrev pub nil_tag : ℕ
nil_tag = 0xc0

abbrev pub unused_tag : ℕ
unused_tag = 0xc1

abbrev pub false_tag : ℕ
false_tag = 0xc2

abbrev pub true_tag : ℕ
true_tag = 0xc3

abbrev pub float32_tag : ℕ
float32_tag = 0xca

abbrev pub float64_tag : ℕ
float64_tag = 0xcb
