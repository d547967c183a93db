-- ===== src/Msgpack/Endian.antt =====
-- What write_endian writes, read_endian reads (src/wire/msgpack).
use xfo_lws.Base.{
  ℕ, zero, suc, ◌+◌, ◌*◌, ◌/◌, ◌%◌, ◌^◌, ◌<◌, ◌≡◌, refl, ap, ◌∙◌, subst, false, List, [], ◌∷◌, ◌++◌,
  ltb, length, length-append, arith,
}
use native.Mathlib.Nat.{pow-succ'}
use xfo_lws.Base.Slices.{take-append, drop-append}
use xfo_lws.Msgpack.Write.{big_endian}
use xfo_lws.Msgpack.Read.{
  reading, done, bind-done, read_raw, big_endian_value, read_endian, read_counted,
}

pub length-big_endian : (width value : ℕ) → length (big_endian width value) ≡ width
unfolding big_endian
length-big_endian zero value = refl
length-big_endian (suc width) value = omega (
  arith,
  length-append (big_endian width (value / 256)) ((value % 256) ∷ []),
  length-big_endian width (value / 256),
)

big_endian_value-append :
    (acc b : ℕ) (bs : List ℕ)
    → big_endian_value acc (bs ++ b ∷ []) ≡ big_endian_value acc bs * 256 + b
unfolding big_endian_value
big_endian_value-append acc b [] = refl
big_endian_value-append acc b (c ∷ bs) = big_endian_value-append (acc * 256 + c) b bs

pow_suc : (width : ℕ) → 256 ^ suc width ≡ 256 * 256 ^ width
pow_suc width = pow-succ' 256 width

pub pow_pos : (width : ℕ) → 0 < 256 ^ width
pow_pos zero = omega arith
pow_pos (suc width) = omega (arith, pow_pos width, pow_suc width)

big_endian_value-big_endian :
    (width value : ℕ) → value < 256 ^ width → big_endian_value 0 (big_endian width value) ≡ value
unfolding big_endian_value big_endian
big_endian_value-big_endian zero value h = omega arith
big_endian_value-big_endian (suc width) value h =
    let small : value / 256 < 256 ^ width = omega (arith, pow_suc width) in
    big_endian_value-append 0 (value % 256) (big_endian width (value / 256))
    ∙ omega (arith, big_endian_value-big_endian width (value / 256) small)

-- The front of what remains is read.
pub read_raw-append :
    (t e : ℕ) (bs rest : List ℕ)
    → read_raw (length bs) (reading (bs ++ rest) t e) ≡ done bs (reading rest t e)
unfolding read_raw
read_raw-append t e bs rest =
    let enough : ltb (length (bs ++ rest)) (length bs) ≡ false =
      ground (arith, length-append bs rest) in
    rw (enough, take-append bs rest, drop-append bs rest) refl

pub read_endian-big_endian :
    (width value t e : ℕ) (rest : List ℕ)
    → value < 256 ^ width
    → read_endian width (reading (big_endian width value ++ rest) t e)
      ≡ done value (reading rest t e)
unfolding read_endian
read_endian-big_endian width value t e rest h =
    let raw =
      subst
        (λ n.
          read_raw n (reading (big_endian width value ++ rest) t e)
          ≡ done (big_endian width value) (reading rest t e))
        (length-big_endian width value) (read_raw-append t e (big_endian width value) rest) in
    bind-done (read_raw width) _ _ _ _ raw
    ∙ ap (λ v. done v (reading rest t e)) (big_endian_value-big_endian width value h)

pub read_counted-big_endian :
    (width t e : ℕ) (source rest : List ℕ)
    → length source < 256 ^ width
    → read_counted width (reading (big_endian width (length source) ++ (source ++ rest)) t e)
      ≡ done source (reading rest t e)
unfolding read_counted
read_counted-big_endian width t e source rest small =
    bind-done (read_endian width) _ _ _ _
      (read_endian-big_endian width (length source) t e (source ++ rest) small)
    ∙ read_raw-append t e source rest
