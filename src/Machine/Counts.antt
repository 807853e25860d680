-- ===== src/Machine/Counts.antt =====
-- How often an action makes a call of some kind, by its result: rules for each way to build one.
use manta.Prelude.{ℕ, ◌+◌, ◌≡◌, ◌∙◌, Bool, true, false, arith, if◌then◌else◌}
use manta.Machine.{
  Op, Env, Error, Result, ok, err, World, M, pure, raise, check, try, need, ignore, on_error,
  finally, continue, clean_up, ◌>>=◌,
}
use manta.Machine.Trace.{count}

-- `n` calls if the action succeeds, `f e` if it fails with `e`.
abbrev pub cost {ℓ} : {A : Type ℓ} → (Error → ℕ) → ℕ → Result A → ℕ
cost f n (ok a) = n
cost f n (err e) = f e

pub record Counts {A : Type 0} (p : Op → Bool → Bool) (f : Error → ℕ) (n : ℕ) (m : M A)
    : Type 0 where
  pub at : (w : World) → count p (m w).1.trace ≡ count p w.trace + cost f n (m w).0

-- No call, whatever the result.
pub record Silent {A : Type 0} (p : Op → Bool → Bool) (m : M A) : Type 0 where
  pub at : (w : World) → count p (m w).1.trace ≡ count p w.trace

-- A call that `p` does not pick, whether it succeeds or not.
abbrev pub Other : (Op → Bool → Bool) → Op → Type 0
Other p op = (p op true ≡ false) × (p op false ≡ false)

pub Silent-zero : {p : Op → Bool → Bool} {A : Type 0} (m : M A) → Counts p (λ _. 0) 0 m → Silent p m
Silent-zero {p} {A} m cm = record { at = λ w. zero_cost (m w).0 w (m w).1 (cm.at w) }
  where
    zero_cost :
        (r : Result A) (w w' : World)
        → count p w'.trace ≡ count p w.trace + cost (λ _. 0) 0 r
        → count p w'.trace ≡ count p w.trace
    zero_cost (ok a) w w' h = omega arith
    zero_cost (err e) w w' h = omega arith

module _ {p : Op → Bool → Bool} {f : Error → ℕ} where
  pub Counts-pure : {A : Type 0} (a : A) → Counts p f 0 (pure a)
  Counts-pure a = record { at = λ w. omega arith }

  pub Counts-raise : {A : Type 0} (n : ℕ) (e : Error) → f e ≡ 0 → Counts {A = A} p f n (raise e)
  Counts-raise n e h = record { at = λ w. omega arith }

  pub Counts-bind :
      {A B : Type 0} (n : ℕ) (m : M A) (k : A → M B)
      → Counts p f 0 m
      → ((a : A) → Counts p f n (k a))
      → Counts p f n (m >>= k)
  Counts-bind {A} {B} n m k cm ck = record { at = λ w. next (m w).0 (m w).1 w (cm.at w) }
    where
      next :
          (r : Result A) (w' w : World)
          → count p w'.trace ≡ count p w.trace + cost f 0 r
          → count p (continue r k w').1.trace ≡ count p w.trace + cost f n (continue r k w').0
      next (ok a) w' w h = omega (arith, (ck a).at w')
      next (err e) w' w h = h

  pub Counts-check : (b : Bool) (e : Error) → f e ≡ 0 → Counts p f 0 (check b e)
  Counts-check true e h = record { at = λ w. omega arith }
  Counts-check false e h = record { at = λ w. omega arith }

  pub Counts-if :
      {A : Type 0} (n : ℕ) (b : Bool) (m k : M A)
      → Counts p f n m
      → Counts p f n k
      → Counts p f n (if b then m else k)
  Counts-if n true m k cm ck = cm
  Counts-if n false m k cm ck = ck

  pub Counts-finally :
      {A : Type 0} (n : ℕ) (c : M (Unit {0})) (m : M A)
      → Silent p c
      → Counts p f n m
      → Counts p f n (finally c m)
  Counts-finally n c m sc cm = record { at = λ w. sc.at (m w).1 ∙ cm.at w }

  pub Counts-on_error :
      {A : Type 0} (n : ℕ) (c : M (Unit {0})) (m : M A)
      → Silent p c
      → Counts p f n m
      → Counts p f n (on_error c m)
  Counts-on_error {A} n c m sc cm = record { at = λ w. cleaned (m w).0 (m w).1 w (cm.at w) }
    where
      cleaned :
          (r : Result A) (w' w : World)
          → count p w'.trace ≡ count p w.trace + cost f n r
          → count p (clean_up r c w').1.trace ≡ count p w.trace + cost f n (clean_up r c w').0
      cleaned (ok a) w' w h = h
      cleaned (err e) w' w h = sc.at w' ∙ h

module _ (env : Env) {p : Op → Bool → Bool} {f : Error → ℕ} where
  pub Counts-try : (op : Op) → Other p op → Counts p f 0 (try env op)
  unfolding count
  Counts-try op h = record { at = λ w. ground arith }

  pub Counts-need : (op : Op) (e : Error) → Other p op → f e ≡ 0 → Counts p f 0 (need env op e)
  unfolding count
  Counts-need op e h z = record { at = λ w. ground arith }

  pub Counts-ignore : (op : Op) → Other p op → Counts p f 0 (ignore env op)
  unfolding count
  Counts-ignore op h = record { at = λ w. ground arith }

pub ruleset counts_rules = (
  Counts-pure, Counts-raise, Counts-bind, Counts-check, Counts-if, Silent-zero, Counts-finally,
  Counts-on_error, Counts-try, Counts-need, Counts-ignore,
)
