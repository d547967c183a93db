-- ===== src/Base/Results.antt =====
-- Predicates on a result that may be missing.
use mathlib.Core.Path.{◌≡◌, subst}
use mathlib.Core.Option.{Option, none, some}

-- A result satisfies a predicate, if there is one.
abbrev pub Holds {ℓ} : {A : Type ℓ} → (A → Type 0) → Option A → Type 0
Holds P none = Unit
Holds P (some a) = P a

pub Holds-found :
    {A : Type 0} (P : A → Type 0) (o : Option A) (a : A) → o ≡ some a → Holds P o → P a
Holds-found P o a e h = subst (Holds P) e h

pub Holds-map :
    {A : Type 0} (P Q : A → Type 0) (x : Option A) → Holds P x → ((a : A) → P a → Q a) → Holds Q x
Holds-map P Q none h hg = tt
Holds-map P Q (some a) h hg = hg a h

-- What is computed from a result.
pub Holds-then :
    {A B : Type 0} (P : A → Type 0) (Q : B → Type 0) (o : Option A) (f : A → Option B)
    → Holds P o
    → ((a : A) → P a → Holds Q (f a))
    → Holds Q (elim o [ none ↦ none | some a ↦ f a ])
Holds-then P Q none f h hf = tt
Holds-then P Q (some a) f h hf = hf a h

pub Holds-any : {A : Type 0} (o : Option A) → Holds (λ a. Unit) o
Holds-any none = tt
Holds-any (some a) = tt

-- There is a result, and it satisfies a predicate.
abbrev pub Finds {ℓ} : {A : Type ℓ} → (A → Type 0) → Option A → Type 0
Finds P none = ⊥
Finds P (some a) = P a

abbrev pub IsSome {ℓ} : {A : Type ℓ} → Option A → Type 0
IsSome o = Finds (λ a. Unit) o

pub IsSome-Finds : {A : Type 0} (P : A → Type 0) (o : Option A) → IsSome o → Holds P o → Finds P o
IsSome-Finds P none found h = found
IsSome-Finds P (some a) found h = h

pub IsSome-then :
    {A B : Type 0} (o : Option A) (f : A → Option B)
    → IsSome o
    → ((a : A) → IsSome (f a))
    → IsSome (elim o [ none ↦ none | some a ↦ f a ])
IsSome-then none f found h = found
IsSome-then (some a) f found h = h a
