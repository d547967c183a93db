-- ===== src/Msgpack/Skipping.antt =====
-- msgpack_reader::skip_value on what msgpack_writer wrote (src/wire/msgpack).
use xfo_lws.Base.{
  ℕ, suc, ◌+◌, ◌-◌, ◌<◌, ◌≤◌, ◌≡◌, refl, sym, ap, ◌∙◌, subst, true, List, [], ◌∷◌, ◌++◌, leb,
  if◌then◌else◌, length, length-append, arith,
}
use mathlib.Core.List.{append_assoc}
use xfo_lws.Msgpack.Read.{Reader, reading, Outcome, done, thrown, Action, max_size}
use xfo_lws.Msgpack.Skip.{skip_round, skip_loop}
use xfo_lws.Msgpack.Rounds.{Skipped, Entered}

-- The loop, after a round.
unfoldable pub after : ℕ → ℕ → Action Unit
unfolding skip_loop
after fuel initial r = if leb initial r.tags then skip_loop fuel initial r else done tt r

after-round :
    (fuel initial t e t' e' : ℕ) (bs rest : List ℕ)
    → initial ≤ t
    → skip_round (reading bs t e) ≡ done tt (reading rest t' e')
    → after (suc fuel) initial (reading bs t e) ≡ after fuel initial (reading rest t' e')
unfolding after skip_loop
after-round fuel initial t e t' e' bs rest h round =
    let more : leb initial t ≡ true = ground arith in rw (more, round) refl

-- Bytes of `k` values, with `n` values and `c` containers in them: the loop skips them in `k + n` rounds.
pub record Consumed (k n c : ℕ) (bs : List ℕ) : Type 0 where
  pub rounds : k + n ≤ length bs
  pub skips :
      (fuel initial t e : ℕ) (rest : List ℕ)
      → 1 ≤ initial
      → initial + k ≤ t + 1
      → t + n ≤ max_size
      → e + c < 100
      → after (k + n + fuel) initial (reading (bs ++ rest) t e)
        ≡ after fuel initial (reading rest (t - k) (e + c))

renumbered :
    (f f' g initial t t' e e' : ℕ) (r : Reader) (rest : List ℕ)
    → f ≡ f'
    → t ≡ t'
    → e ≡ e'
    → after f initial r ≡ after g initial (reading rest t e)
    → after f' initial r ≡ after g initial (reading rest t' e')
renumbered f f' g initial t t' e e' r rest pf pt pe h =
    ap (λ m. after m initial r) (sym pf)
    ∙ h
    ∙ ap (λ m. after g initial (reading rest m e)) pt
    ∙ ap (λ m. after g initial (reading rest t' m)) pe

pub Consumed-none : Consumed 0 0 0 []
Consumed-none = record {
  rounds = omega arith;
  skips = λ fuel initial t e rest h1 h2 h3 h4.
      renumbered fuel (0 + 0 + fuel) fuel initial t (t - 0) e (e + 0) (reading rest t e) rest
        (omega arith) (omega arith) (omega arith) refl;
}

pub Consumed-append :
    (k n c k' n' c' : ℕ) (bs bs' : List ℕ)
    → Consumed k n c bs
    → Consumed k' n' c' bs'
    → Consumed (k + k') (n + n') (c + c') (bs ++ bs')
Consumed-append k n c k' n' c' bs bs' x y = record {
  rounds = omega (arith, x.rounds, y.rounds, length-append bs bs');
  skips = λ fuel initial t e rest h1 h2 h3 h4.
      renumbered (k + n + (k' + n' + fuel)) (k + k' + (n + n') + fuel) fuel initial (t - k - k')
        (t - (k + k')) (e + c + c') (e + (c + c')) (reading ((bs ++ bs') ++ rest) t e) rest
        (omega arith) (omega arith) (omega arith)
        (ap (λ l. after (k + n + (k' + n' + fuel)) initial (reading l t e))
            (append_assoc bs bs' rest)
          ∙ x.skips (k' + n' + fuel) initial t e (bs' ++ rest) h1 (omega arith) (omega arith)
              (omega arith)
          ∙ y.skips fuel initial (t - k) (e + c) rest h1 (omega arith) (omega arith) (omega arith));
}

-- No round succeeds where no byte remains.
abbrev Succeeded : Outcome Unit → Type 0
Succeeded o = elim o [ done u r ↦ Unit | thrown e ↦ ⊥ ]

round_nonempty :
    (bs : List ℕ) (t e t' e' : ℕ)
    → skip_round (reading (bs ++ []) t e) ≡ done tt (reading [] t' e')
    → 1 ≤ length bs
unfolding skip_round
round_nonempty [] t e t' e' h = absurd (subst Succeeded (sym h) tt)
round_nonempty (b ∷ bs) t e t' e' h = omega arith

pub Skipped-Consumed : (bs : List ℕ) → Skipped bs → Consumed 1 0 0 bs
Skipped-Consumed bs skipped = record {
  rounds = omega (arith, round_nonempty bs 1 0 0 0 (skipped 1 0 [] (omega arith)));
  skips = λ fuel initial t e rest h1 h2 h3 h4.
      renumbered (suc fuel) (1 + 0 + fuel) fuel initial (t - 1) (t - 1) e (e + 0)
        (reading (bs ++ rest) t e) rest (omega arith) refl (omega arith)
        (after-round fuel initial t e (t - 1) e (bs ++ rest) rest (omega arith)
          (skipped t e rest (omega arith)));
}

-- A head, and as many values as it announces.
pub Entered-Consumed :
    (k n c : ℕ) (bs bs' : List ℕ)
    → 1 ≤ length bs
    → Entered k bs
    → Consumed k n c bs'
    → Consumed 1 (k + n) (suc c) (bs ++ bs')
Entered-Consumed k n c bs bs' nonempty entered x = record {
  rounds = omega (arith, x.rounds, length-append bs bs', nonempty);
  skips = λ fuel initial t e rest h1 h2 h3 h4.
      renumbered (suc (k + n + fuel)) (1 + (k + n) + fuel) fuel initial (t + k - 1 - k) (t - 1)
        (e + 1 + c) (e + suc c) (reading ((bs ++ bs') ++ rest) t e) rest (omega arith) (omega arith)
        (omega arith)
        (ap (λ l. after (suc (k + n + fuel)) initial (reading l t e)) (append_assoc bs bs' rest)
          ∙ after-round (k + n + fuel) initial t e (t + k - 1) (e + 1) (bs ++ (bs' ++ rest))
              (bs' ++ rest) (omega arith)
              (entered t e (bs' ++ rest) (omega arith) (omega arith) (omega arith))
          ∙ x.skips fuel initial (t + k - 1) (e + 1) rest h1 (omega arith) (omega arith)
              (omega arith));
}
