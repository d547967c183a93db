-- ===== src/Msgpack/Progress.antt =====
-- Every operation of msgpack_reader (src/wire/msgpack/read.cpp) that skip_value calls keeps or shortens what
-- remains, and throws an error of the program only.
use xfo_lws.Base.{
  ℕ, ◌+◌, ◌-◌, ◌*◌, ◌/◌, ◌≤◌, ◌≡◌, refl, ap, Bool, true, false, not, Option, none, some, List, [],
  ◌∷◌, ltb, ◌==◌, if◌then◌else◌, length, Bool-cases, inl, inr, arith,
}
use xfo_lws.Base.Slices.{take, drop, length-drop}
use xfo_lws.Base.Table.{Table, lookup}
use xfo_lws.Msgpack.{
  FixedTag, matches, extract, ftag_string, ftag_array, ftag_object, string_types, array_types,
  object_types,
}
use xfo_lws.Msgpack.Read.{
  Reader, ReadError, not_enough_bytes, underflow_tree, max_tree_size, maximum_depth, not_string,
  not_array, not_object, stuck, Outcome, done, thrown, Action, ◌>>=◌, return, throw, max_size,
  update_tags_remaining, increment_depth, remove_prefix, get_tag, read_raw, big_endian_value,
  read_endian, read_counted, read_sized, read_string, read_count, add_tags, fits_remaining,
  check_array, enter_array, start_array, check_object, enter_object, start_object,
}

-- An error of the program.
abbrev pub IsDeclared : ReadError → Type 0
IsDeclared stuck = ⊥
IsDeclared _ = Unit

-- An action ends with one of the program's errors, or with as many bytes or fewer.
abbrev pub Ends : {A : Type 0} → ℕ → Outcome A → Type 0
Ends n o = elim o [ done a r ↦ length r.remaining ≤ n | thrown e ↦ IsDeclared e ]

abbrev pub Proceeds : {A : Type 0} → Action A → Type 0
Proceeds m = (r : Reader) → Ends (length r.remaining) (m r)

pub bind-Proceeds :
    {A B : Type 0} (m : Action A) (f : A → Action B)
    → Proceeds m
    → ((a : A) → Proceeds (f a))
    → Proceeds (m >>= f)
bind-Proceeds {A = A} {B = B} m f hm hf r = continued (m r) (hm r)
  where
    shorter : (k n : ℕ) (o : Outcome B) → k ≤ n → Ends k o → Ends n o
    shorter k n (done b s) h x = omega (arith, h, x)
    shorter k n (thrown e) h x = x

    continued :
        (o : Outcome A)
        → Ends (length r.remaining) o
        → Ends (length r.remaining) (elim o [ done a r' ↦ f a r' | thrown e ↦ thrown e ])
    continued (done a s) h = shorter (length s.remaining) (length r.remaining) (f a s) h (hf a s)
    continued (thrown e) h = h

-- A test that an action makes first.
pub test-Proceeds :
    {A : Type 0} (b : Reader → Bool) (m m' : Action A)
    → Proceeds m
    → Proceeds m'
    → Proceeds (λ r. if b r then m r else m' r)
test-Proceeds b m m' h h' r = elim (Bool-cases (b r)) [ inl e ↦ rw e (h r) | inr e ↦ rw e (h' r) ]

pub if-Proceeds :
    {A : Type 0} (b : Bool) (m m' : Action A)
    → Proceeds m
    → Proceeds m'
    → Proceeds (if b then m else m')
if-Proceeds true m m' h h' = h
if-Proceeds false m m' h h' = h'

pub return-Proceeds : {A : Type 0} (a : A) → Proceeds (return a)
return-Proceeds a r = omega arith

pub throw-Proceeds : (A : Type 0) (e : ReadError) → IsDeclared e → Proceeds (throw {A = A} e)
throw-Proceeds A e h r = h

pub remove_prefix-Proceeds : (n : ℕ) → Proceeds (remove_prefix n)
unfolding remove_prefix
remove_prefix-Proceeds n r = omega (arith, length-drop n r.remaining)

get_tag-Proceeds : Proceeds get_tag
unfolding get_tag
get_tag-Proceeds r = split r.remaining refl
  where
    split :
        (bs : List ℕ)
        → bs ≡ r.remaining
        → Ends (length r.remaining) (elim bs [
          | [] ↦ thrown not_enough_bytes
          | b ∷ bs ↦ done b (record { remaining = bs; tags = r.tags; depth = r.depth })
        ])
    split [] e = tt
    split (b ∷ bs) e = omega (arith, ap length e)

pub update_tags_remaining-Proceeds : Proceeds update_tags_remaining
unfolding update_tags_remaining
update_tags_remaining-Proceeds =
    test-Proceeds (λ r. r.tags == 0) (throw underflow_tree)
      (λ r. done tt (record { remaining = r.remaining; tags = r.tags - 1; depth = r.depth }))
      (λ r. tt) (λ r. omega arith)

increment_depth-Proceeds : Proceeds increment_depth
unfolding increment_depth
increment_depth-Proceeds =
    test-Proceeds (λ r. r.depth + 1 == 100) (throw maximum_depth)
      (λ r. done tt (record { remaining = r.remaining; tags = r.tags; depth = r.depth + 1 }))
      (λ r. tt) (λ r. omega arith)

read_raw-Proceeds : (n : ℕ) → Proceeds (read_raw n)
unfolding read_raw
read_raw-Proceeds n =
    test-Proceeds (λ r. ltb (length r.remaining) n) (throw not_enough_bytes)
      (λ r.
        done (take n r.remaining)
          (record { remaining = drop n r.remaining; tags = r.tags; depth = r.depth }))
      (λ r. tt) (λ r. omega (arith, length-drop n r.remaining))

read_endian-Proceeds : (width : ℕ) → Proceeds (read_endian width)
unfolding read_endian
read_endian-Proceeds width =
    bind-Proceeds (read_raw width) _ (read_raw-Proceeds width)
      (λ bs. return-Proceeds (big_endian_value 0 bs))

read_counted-Proceeds : (width : ℕ) → Proceeds (read_counted width)
unfolding read_counted
read_counted-Proceeds width =
    bind-Proceeds (read_endian width) _ (read_endian-Proceeds width) (λ n. read_raw-Proceeds n)

-- A type that is looked up.
looked_up-Proceeds :
    {A : Type 0} (o : Option ℕ) (error : ReadError) (f : ℕ → Action A)
    → IsDeclared error
    → ((width : ℕ) → Proceeds (f width))
    → Proceeds {A = A} (elim o [ none ↦ throw error | some width ↦ f width ])
looked_up-Proceeds {A = A} none error f h hf = throw-Proceeds A error h
looked_up-Proceeds (some width) error f h hf = hf width

pub read_sized-Proceeds :
    (types : Table ℕ) (error : ReadError) (next : ℕ)
    → IsDeclared error
    → Proceeds (read_sized types error next)
unfolding read_sized
read_sized-Proceeds types error next h =
    looked_up-Proceeds (lookup next types) error read_counted h read_counted-Proceeds

pub read_string-Proceeds : (next : ℕ) → Proceeds (read_string next)
unfolding read_string
read_string-Proceeds next =
    if-Proceeds (matches ftag_string next) _ _ (read_raw-Proceeds (extract ftag_string next))
      (read_sized-Proceeds string_types not_string next tt)

read_count-Proceeds :
    (fixed : FixedTag) (types : Table ℕ) (error : ReadError)
    → IsDeclared error
    → Proceeds (read_count fixed types error)
unfolding read_count
read_count-Proceeds fixed types error h = bind-Proceeds get_tag _ get_tag-Proceeds (λ next.
    if-Proceeds (matches fixed next) _ _ (return-Proceeds (extract fixed next))
      (looked_up-Proceeds (lookup next types) error read_endian h read_endian-Proceeds))

check_array-Proceeds : (m n : ℕ) → Proceeds (check_array m n)
check_array-Proceeds m n =
    test-Proceeds (λ r. ltb (max_size - r.tags) n) (throw max_tree_size) _ (λ r. tt)
      (test-Proceeds (λ r. not (fits_remaining m n r)) (throw not_array) (return tt) (λ r. tt)
        (return-Proceeds tt))

check_object-Proceeds : (n : ℕ) → Proceeds (check_object n)
check_object-Proceeds n =
    test-Proceeds (λ r. ltb (max_size / 2) n) (throw max_tree_size) _ (λ r. tt)
      (test-Proceeds (λ r. ltb (max_size - r.tags) (n * 2)) (throw max_tree_size) (return tt)
        (λ r. tt) (return-Proceeds tt))

add_tags-Proceeds : (n : ℕ) → Proceeds (add_tags n)
add_tags-Proceeds n r = omega arith

pub start_array-Proceeds : (m : ℕ) → Proceeds (start_array m)
unfolding start_array enter_array
start_array-Proceeds m =
    bind-Proceeds (read_count ftag_array array_types not_array) _
      (read_count-Proceeds ftag_array array_types not_array tt)
      (λ n. bind-Proceeds (check_array m n) _ (check_array-Proceeds m n) (λ a.
        bind-Proceeds (add_tags n) _ (add_tags-Proceeds n) (λ b.
          bind-Proceeds increment_depth (λ c. return n) increment_depth-Proceeds
            (λ c. return-Proceeds n))))

pub start_object-Proceeds : Proceeds start_object
unfolding start_object enter_object
start_object-Proceeds =
    bind-Proceeds (read_count ftag_object object_types not_object) _
      (read_count-Proceeds ftag_object object_types not_object tt)
      (λ n. bind-Proceeds (check_object n) _ (check_object-Proceeds n) (λ a.
        bind-Proceeds (add_tags (n * 2)) _ (add_tags-Proceeds (n * 2)) (λ b.
          bind-Proceeds increment_depth (λ c. return n) increment_depth-Proceeds
            (λ c. return-Proceeds n))))
