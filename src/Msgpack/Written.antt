-- ===== src/Msgpack/Written.antt =====
-- What msgpack_writer writes for a value, msgpack_reader::skip_value skips (src/wire/msgpack).
use xfo_lws.Base.{
  ℕ, suc, ◌+◌, ◌-◌, ◌*◌, ◌%◌, ◌^◌, ◌<◌, ◌≤◌, ◌≡◌, refl, sym, ap, ◌∙◌, subst, Bool, false, true,
  Option, none, some, List, [], ◌∷◌, ◌++◌, leb, if◌then◌else◌, length, Bool-cases, inl, inr, arith,
}
use mathlib.Core.List.{append_assoc, append-nil}
use xfo_lws.Base.Results.{Holds, Holds-then, Holds-map, Holds-any}
use xfo_lws.Base.Table.{Table}
use xfo_lws.Msgpack.{
  FixedTag, ftag_string, string_types, binary_types, ftag_array, ftag_object, array_types,
  object_types,
}
use xfo_lws.Msgpack.Write.{
  Writer, put, write_boolean, write_integer, write_real, write_string, write_binary,
  write_start_array, write_start_object, write_end, write_key, write_unsigned, with_count,
  write_fixed_count, write_count, integer_bytes, unsigned_bytes, match_size, write_endian,
}
use xfo_lws.Msgpack.Rounds.{Skipped, Entered}
use xfo_lws.Msgpack.Scalars.{
  string-Skipped, binary-Skipped, unsigned_bytes-Skipped, integer_bytes-Skipped, true-Skipped,
  false-Skipped, real-Skipped,
}
use xfo_lws.Msgpack.Heads.{start_array-Entered, start_object-Entered}
use xfo_lws.Msgpack.Skipping.{
  Consumed, Consumed-none, Consumed-append, Skipped-Consumed, Entered-Consumed,
}
use xfo_lws.Msgpack.Documents.{
  Doc, boolean, integer, real, text, blob, array, object, Docs, nil, item, Fields, empty, field,
  docs_size, fields_size, nested, nested_docs, nested_fields, containers, containers_docs,
  containers_fields, chain, write_doc, write_docs, write_fields, IsFitting, AreFitting,
  FieldsFitting,
}

-- A writer has `k` values more, with `n` values and `c` containers in them.
pub record Wrote (k n c : ℕ) (w w' : Writer) : Type 0 where
  pub more : List ℕ
  pub appended : w'.bytes ≡ w.bytes ++ more
  pub counted : w'.expected + k ≡ w.expected
  pub consumed : Consumed k n c more

Holds-both :
    {A : Type 0} (P Q : A → Type 0) (o : Option A)
    → Holds P o
    → Holds Q o
    → Holds (λ a. P a × Q a) o
Holds-both P Q none p q = tt
Holds-both P Q (some a) p q = (p, q)

-- One value without values in it.
leaf-Wrote :
    (o : Option (List ℕ)) (w : Writer)
    → 1 ≤ w.expected
    → w.expected < 2 ^ 64
    → Holds Skipped o
    → Holds (Wrote 1 0 0 w) (put o 0 1 w)
leaf-Wrote none w h b skipped = tt
leaf-Wrote (some bs) w h b skipped = record {
  more = bs;
  appended = refl;
  counted = omega arith;
  consumed = Skipped-Consumed bs skipped;
}

none-Wrote : (w : Writer) → Wrote 0 0 0 w w
none-Wrote w = record {
  more = [];
  appended = sym (append-nil w.bytes);
  counted = omega arith;
  consumed = Consumed-none;
}

Wrote-same :
    (k k' n n' c c' : ℕ) (w : Writer) (o : Option Writer)
    → k ≡ k'
    → n ≡ n'
    → c ≡ c'
    → Holds (Wrote k n c w) o
    → Holds (Wrote k' n' c' w) o
Wrote-same k k' n n' c c' w o pk pn pc h =
    subst (λ m. Holds (Wrote m n' c' w) o) pk
      (subst (λ m. Holds (Wrote k m c' w) o) pn (subst (λ m. Holds (Wrote k n m w) o) pc h))

chain-Wrote :
    (k n c k' n' c' : ℕ) (f g : Writer → Option Writer) (w : Writer)
    → Holds (Wrote k n c w) (f w)
    → ((w' : Writer) → w'.expected + k ≡ w.expected → Holds (Wrote k' n' c' w') (g w'))
    → Holds (Wrote (k + k') (n + n') (c + c') w) (chain f g w)
chain-Wrote k n c k' n' c' f g w hf hg =
    Holds-then (Wrote k n c w) (Wrote (k + k') (n + n') (c + c') w) (f w) g hf (λ w' x.
      Holds-map (Wrote k' n' c' w') (Wrote (k + k') (n + n') (c + c') w) (g w') (hg w' x.counted)
        (λ w'' y. record {
          more = x.more ++ y.more;
          appended =
              y.appended ∙ ap (λ bs. bs ++ y.more) x.appended ∙ append_assoc w.bytes x.more y.more;
          counted = omega (arith, x.counted, y.counted);
          consumed = Consumed-append k n c k' n' c' x.more y.more x.consumed y.consumed;
        }))

-- A container: its head announces `k` values, which follow, and it ends.
module _ (k n c : ℕ) (head : Option (List ℕ)) (body : Writer → Option Writer)
    (entered : Holds (λ bs. Entered k bs × (1 ≤ length bs)) head)
    (inside : (w : Writer)
      → k ≤ w.expected
      → w.expected + n < 2 ^ 64
      → Holds (Wrote k n c w) (body w)) where
  container-Wrote :
      (w : Writer)
      → 1 ≤ w.expected
      → w.expected + (k + n) < 2 ^ 64
      → Holds (Wrote 1 (k + n) (suc c) w) (chain (put head k 0) (chain body write_end) w)
  unfolding write_end
  container-Wrote w h b = started head entered
    where
      ended :
          (bs : List ℕ) (w' : Writer)
          → Entered k bs
          → 1 ≤ length bs
          → Wrote k n c
              (record { bytes = w.bytes ++ bs; expected = (w.expected + k + 2 ^ 64 - 0) % 2 ^ 64 })
              w'
          → Holds (Wrote 1 (k + n) (suc c) w) (write_end w')
      ended bs w' enters nonempty x = record {
        more = bs ++ x.more;
        appended = append-nil w'.bytes ∙ x.appended ∙ append_assoc w.bytes bs x.more;
        counted = omega (arith, x.counted, h, b);
        consumed = Entered-Consumed k n c bs x.more nonempty enters x.consumed;
      }

      started :
          (o : Option (List ℕ))
          → Holds (λ bs. Entered k bs × (1 ≤ length bs)) o
          → Holds (Wrote 1 (k + n) (suc c) w) (chain (put o k 0) (chain body write_end) w)
      started none x = tt
      started (some bs) (enters, nonempty) =
          let w₁ : Writer = record {
            bytes = w.bytes ++ bs;
            expected = (w.expected + k + 2 ^ 64 - 0) % 2 ^ 64;
          } in
          Holds-then (Wrote k n c w₁) (Wrote 1 (k + n) (suc c) w) (body w₁) write_end
            (inside w₁ (omega (arith, b)) (omega (arith, b)))
            (λ w' x. ended bs w' enters nonempty x)

write_count-nonempty : (types : Table ℕ) (n : ℕ) → Holds (λ bs. 1 ≤ length bs) (write_count types n)
unfolding write_count
write_count-nonempty types n =
    Holds-then (λ t. Unit) (λ bs. 1 ≤ length bs) (match_size types n) (λ t. some (write_endian t n))
      (Holds-any (match_size types n)) (λ t u. omega arith)

write_fixed_count-nonempty :
    (fixed : FixedTag) (types : Table ℕ) (n : ℕ)
    → Holds (λ bs. 1 ≤ length bs) (write_fixed_count fixed types n)
unfolding write_fixed_count
write_fixed_count-nonempty fixed types n = elim (Bool-cases (leb n fixed.max)) [
  | inl e ↦ rw e (omega arith)
  | inr e ↦ rw e (write_count-nonempty types n)
]

boolean-Skipped : (b : Bool) → Skipped ((if b then 0xc3 else 0xc2) ∷ [])
boolean-Skipped true = true-Skipped
boolean-Skipped false = false-Skipped

write_key-Wrote :
    (keys : Bool) (id : ℕ) (name : List ℕ) (w : Writer)
    → 1 ≤ w.expected
    → w.expected < 2 ^ 64
    → Holds (Wrote 1 0 0 w) (write_key keys id name w)
unfolding write_key write_unsigned write_string
write_key-Wrote true id name w h b =
    leaf-Wrote (unsigned_bytes id) w h b (unsigned_bytes-Skipped id)
write_key-Wrote false id name w h b =
    leaf-Wrote (with_count (write_fixed_count ftag_string string_types (length name)) name) w h b
      (string-Skipped name)

mutual
  unfolding write_doc write_docs write_fields nested nested_docs nested_fields containers
      containers_docs containers_fields docs_size fields_size write_boolean write_integer write_real
      write_string write_binary write_start_array write_start_object

  -- The values and containers of a value, on any writer that expects it.
  pub write_doc-Wrote :
      (keys : Bool) (d : Doc) (w : Writer)
      → IsFitting d
      → 1 ≤ w.expected
      → w.expected + nested d < 2 ^ 64
      → Holds (Wrote 1 (nested d) (containers d) w) (write_doc keys d w)
  write_doc-Wrote keys (boolean b) w fits h m =
      leaf-Wrote (some ((if b then 0xc3 else 0xc2) ∷ [])) w h (omega (arith, m)) (boolean-Skipped b)
  write_doc-Wrote keys (integer z) w fits h m =
      leaf-Wrote (integer_bytes z) w h (omega (arith, m)) (integer_bytes-Skipped z)
  write_doc-Wrote keys (real bytes) w fits h m =
      leaf-Wrote (some (0xcb ∷ bytes)) w h (omega (arith, m)) (real-Skipped bytes fits)
  write_doc-Wrote keys (text bytes) w fits h m =
      leaf-Wrote (with_count (write_fixed_count ftag_string string_types (length bytes)) bytes) w h
        (omega (arith, m)) (string-Skipped bytes)
  write_doc-Wrote keys (blob bytes) w fits h m =
      leaf-Wrote (with_count (write_count binary_types (length bytes)) bytes) w h (omega (arith, m))
        (binary-Skipped bytes)
  write_doc-Wrote keys (array ds) w fits h m =
      container-Wrote (docs_size ds) (nested_docs ds) (containers_docs ds)
        (write_fixed_count ftag_array array_types (docs_size ds)) (write_docs keys ds)
        (Holds-both (Entered (docs_size ds)) (λ bs. 1 ≤ length bs) _
          (start_array-Entered (docs_size ds))
          (write_fixed_count-nonempty ftag_array array_types (docs_size ds)))
        (λ w' h' m'. write_docs-Wrote keys ds w' fits.1 h' m') w h m
  write_doc-Wrote keys (object fs) w fits h m =
      container-Wrote (fields_size fs * 2) (nested_fields fs) (containers_fields fs)
        (write_fixed_count ftag_object object_types (fields_size fs)) (write_fields keys fs)
        (Holds-both (Entered (fields_size fs * 2)) (λ bs. 1 ≤ length bs) _
          (start_object-Entered (fields_size fs))
          (write_fixed_count-nonempty ftag_object object_types (fields_size fs)))
        (λ w' h' m'. write_fields-Wrote keys fs w' fits.1 h' m') w h m

  write_docs-Wrote :
      (keys : Bool) (ds : Docs) (w : Writer)
      → AreFitting ds
      → docs_size ds ≤ w.expected
      → w.expected + nested_docs ds < 2 ^ 64
      → Holds (Wrote (docs_size ds) (nested_docs ds) (containers_docs ds) w) (write_docs keys ds w)
  write_docs-Wrote keys nil w fits h m = none-Wrote w
  write_docs-Wrote keys (item d ds) w fits h m =
      Wrote-same (1 + docs_size ds) _ _ _ _ _ w _ (omega arith) refl refl (
        chain-Wrote 1 (nested d) (containers d) (docs_size ds) (nested_docs ds) (containers_docs ds)
          (write_doc keys d) (write_docs keys ds) w
          (write_doc-Wrote keys d w fits.0 (omega (arith, h)) (omega (arith, m)))
          (λ w' e.
            write_docs-Wrote keys ds w' fits.1 (omega (arith, e, h)) (omega (arith, e, m, h))))

  write_fields-Wrote :
      (keys : Bool) (fs : Fields) (w : Writer)
      → FieldsFitting fs
      → fields_size fs * 2 ≤ w.expected
      → w.expected + nested_fields fs < 2 ^ 64
      → Holds
          (Wrote (fields_size fs * 2) (nested_fields fs) (containers_fields fs) w)
          (write_fields keys fs w)
  write_fields-Wrote keys empty w fits h m = none-Wrote w
  write_fields-Wrote keys (field id name d fs) w fits h m =
      Wrote-same (1 + (1 + fields_size fs * 2)) _ (0 + (nested d + nested_fields fs)) _
        (0 + (containers d + containers_fields fs)) _ w _ (omega arith) (omega arith) (omega arith)
        (chain-Wrote 1 0 0 (1 + fields_size fs * 2) (nested d + nested_fields fs)
          (containers d + containers_fields fs) (write_key keys id name)
          (chain (write_doc keys d) (write_fields keys fs)) w
          (write_key-Wrote keys id name w (omega (arith, h)) (omega (arith, m)))
          (λ w' e.
            chain-Wrote 1 (nested d) (containers d) (fields_size fs * 2) (nested_fields fs)
              (containers_fields fs) (write_doc keys d) (write_fields keys fs) w'
              (write_doc-Wrote keys d w' fits.1.0 (omega (arith, h, e)) (omega (arith, m, e)))
              (λ w'' e'.
                write_fields-Wrote keys fs w'' fits.1.1 (omega (arith, h, e, e'))
                  (omega (arith, m, e, e')))))
