-- ===== src/Bench/Calls.antt =====
-- The calls that code of the client makes, whatever it is answered: rules for each way to build it.
use mathlib.Core.List.{append_assoc}
use manta.Prelude.{
  ℕ, ◌≡◌, refl, sym, ◌∙◌, ap, Bool, true, false, List, [], ◌∷◌, ◌++◌, Option, none, some,
}
use manta.Bench.{
  HttpRequest, Http, Failure, Outcome, Session, M, pure, raise, continue, ◌>>=◌, catch, check,
  decoded, do_json, clock,
}

pub record Makes {S A : Type 0} (cs : List HttpRequest) (m : M S A) : Type 0 where
  pub at : (s : Session S) → (m s).1.calls ≡ cs ++ s.calls

module _ {S : Type 0} where
  pub Makes-pure : {A : Type 0} (a : A) → Makes [] (pure {S = S} a)
  Makes-pure a = record { at = λ s. refl }

  pub Makes-raise : {A : Type 0} (e : Failure) → Makes [] (raise {S = S} {A = A} e)
  Makes-raise e = record { at = λ s. refl }

  pub Makes-check : (b : Bool) (e : Failure) → Makes [] (check {S = S} b e)
  Makes-check true e = record { at = λ s. refl }
  Makes-check false e = record { at = λ s. refl }

  pub Makes-decoded : {A : Type 0} (o : Option A) → Makes [] (decoded {S = S} o)
  Makes-decoded none = record { at = λ s. refl }
  Makes-decoded (some a) = record { at = λ s. refl }

  -- The calls are those of the first step, or of the second.
  pub Makes-then :
      {A B : Type 0} {cs : List HttpRequest} (m : M S A) (k : A → M S B)
      → Makes cs m
      → ((a : A) → Makes [] (k a))
      → Makes cs (m >>= k)
  Makes-then {A} {B} {cs} m k hm hk = record { at = λ s. next (m s).0 (m s).1 s (hm.at s) }
    where
      next :
          (r : Outcome A) (s' s : Session S)
          → s'.calls ≡ cs ++ s.calls
          → (continue r k s').1.calls ≡ cs ++ s.calls
      next (Outcome.done a) s' s h = (hk a).at s' ∙ h
      next (Outcome.failed e) s' s h = h

  pub Makes-catch :
      {A : Type 0} {cs : List HttpRequest} (m : M S A) → Makes cs m → Makes cs (catch m)
  Makes-catch m h = record { at = h.at }

  -- After code that does not fail.
  pub Makes-catch_bind :
      {A B : Type 0} {cs ds : List HttpRequest} (m : M S A) (k : Outcome A → M S B)
      → Makes cs m
      → ((r : Outcome A) → Makes ds (k r))
      → Makes (ds ++ cs) (catch m >>= k)
  Makes-catch_bind {cs = cs} {ds} m k hm hk = record {
    at = λ s.
        (hk (m s).0).at (m s).1 ∙ (ap (λ l. ds ++ l) (hm.at s) ∙ sym (append_assoc ds cs s.calls));
  }

  module _ (http : Http S) where
    pub Makes-json : (c : HttpRequest) → Makes (c ∷ []) (do_json http c)
    unfolding do_json
    Makes-json c = record { at = λ s. refl }

    pub Makes-clock : Makes [] (clock http)
    Makes-clock = record { at = λ s. refl }

    pub Makes-after :
        {B : Type 0} {cs : List HttpRequest} (k : ℕ → M S B)
        → ((now : ℕ) → Makes cs (k now))
        → Makes cs (clock http >>= k)
    Makes-after k h = record { at = λ s. (h (http.now s.peer)).at s }

-- What code does to the state of what answers it, whatever it is answered.
pub record Moves {S A : Type 0} (f : S → S) (m : M S A) : Type 0 where
  pub at : (s : Session S) → (m s).1.peer ≡ f s.peer

module _ {S : Type 0} where
  pub Moves-pure : {A : Type 0} (a : A) → Moves (λ p. p) (pure {S = S} a)
  Moves-pure a = record { at = λ s. refl }

  pub Moves-raise : {A : Type 0} (e : Failure) → Moves (λ p. p) (raise {S = S} {A = A} e)
  Moves-raise e = record { at = λ s. refl }

  pub Moves-check : (b : Bool) (e : Failure) → Moves (λ p. p) (check {S = S} b e)
  Moves-check true e = record { at = λ s. refl }
  Moves-check false e = record { at = λ s. refl }

  pub Moves-decoded : {A : Type 0} (o : Option A) → Moves (λ p. p) (decoded {S = S} o)
  Moves-decoded none = record { at = λ s. refl }
  Moves-decoded (some a) = record { at = λ s. refl }

  pub Moves-then :
      {A B : Type 0} {f : S → S} (m : M S A) (k : A → M S B)
      → Moves f m
      → ((a : A) → Moves (λ p. p) (k a))
      → Moves f (m >>= k)
  Moves-then {A} {B} {f} m k hm hk = record { at = λ s. next (m s).0 (m s).1 s (hm.at s) }
    where
      next :
          (r : Outcome A) (s' s : Session S)
          → s'.peer ≡ f s.peer
          → (continue r k s').1.peer ≡ f s.peer
      next (Outcome.done a) s' s h = (hk a).at s' ∙ h
      next (Outcome.failed e) s' s h = h

  pub Moves-catch : {A : Type 0} {f : S → S} (m : M S A) → Moves f m → Moves f (catch m)
  Moves-catch m h = record { at = h.at }

  pub Moves-catch_bind :
      {A B : Type 0} {f g : S → S} (m : M S A) (k : Outcome A → M S B)
      → Moves f m
      → ((r : Outcome A) → Moves g (k r))
      → Moves (λ p. g (f p)) (catch m >>= k)
  Moves-catch_bind {g = g} m k hm hk = record { at = λ s. (hk (m s).0).at (m s).1 ∙ ap g (hm.at s) }

  module _ (http : Http S) where
    pub Moves-json : (c : HttpRequest) → Moves (λ p. (http.send c p).1) (do_json http c)
    unfolding do_json
    Moves-json c = record { at = λ s. refl }

    pub Moves-after :
        {B : Type 0} {f : S → S} (k : ℕ → M S B)
        → ((now : ℕ) → Moves f (k now))
        → Moves f (clock http >>= k)
    Moves-after k h = record { at = λ s. (h (http.now s.peer)).at s }

pub ruleset moves_rules =
    (Moves-pure, Moves-raise, Moves-check, Moves-decoded, Moves-then, Moves-catch)

pub ruleset makes_rules =
    (Makes-pure, Makes-raise, Makes-check, Makes-decoded, Makes-then, Makes-catch)
