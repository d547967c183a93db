-- ===== src/Base/Rebuilt.antt =====
-- A dictionary that is built again from its entries.
use mathlib.Core.Path.{◌≡◌, refl}
use mathlib.Core.Logic.{inl, inr}
use mathlib.Core.List.{[], ◌∷◌, ◌++◌}
use mathlib.Core.Option.{none}
use native.Mathlib.Omega.{arith}
use xfo_lws.Base.Strings.{String, ◌=?◌, =?_iff}
use xfo_lws.Base.Tests.{Bool-cases}
use xfo_lws.Base.Dict.{Dict, find, put}

module _ {ℓ} {V : Type ℓ} where
  -- A key that a dictionary lacks goes to its end.
  pub put-fresh : (k : String) (d : V) (m : Dict V) → find k m ≡ none → put k d m ≡ m ++ (k, d) ∷ []
  unfolding put find
  put-fresh k d [] e = refl
  put-fresh k d ((j, w) ∷ m) e = ground (arith, put-fresh k d m)

  find-append_none : (k : String) (m n : Dict V) → find k m ≡ none → find k (m ++ n) ≡ find k n
  unfolding find
  find-append_none k [] n e = refl
  find-append_none k ((j, w) ∷ m) n e = ground (arith, find-append_none k m n)

  -- No key of the second dictionary is in the first.
  abbrev pub Apart : Dict V → Dict V → Type ℓ
  Apart done [] = Unit {ℓ}
  Apart done ((k, d) ∷ m) = (find k done ≡ none) × Apart done m

  pub Apart-grow :
      (k : String) (d : V) (done m : Dict V)
      → find k m ≡ none
      → Apart done m
      → Apart (done ++ (k, d) ∷ []) m
  unfolding find
  Apart-grow k d done [] e h = tt
  Apart-grow k d done ((j, w) ∷ m) e h = elim (Bool-cases (j =? k)) [
    | inl same ↦ absurd (ground arith)
    | inr other ↦ (
      ground (arith, find-append_none j done ((k, d) ∷ []), =?_iff k j, =?_iff j k),
      Apart-grow k d done m (ground arith) h.1,
    )
  ]

  pub Apart-nil : (m : Dict V) → Apart [] m
  unfolding find
  Apart-nil [] = tt
  Apart-nil ((k, d) ∷ m) = (refl, Apart-nil m)
