-- ===== src/Machine/Debt.antt =====
-- Resources that an action takes by one kind of call and gives back by another: how many are out
-- when it succeeds, and that none is when it fails. Rules for each way to build an action.
use manta.Prelude.{ℕ, ◌+◌, ◌≡◌, Bool, arith}
use manta.Machine.{
  Op, Result, ok, err, World, Trace, M, pure, on_error, observe, continue, clean_up, ◌>>=◌,
}
use manta.Machine.Trace.{count}
use manta.Machine.Counts.{Silent}

-- The calls that take, and the calls that give back.
pub record Kind : Type 0 where
  pub takes : Op → Bool → Bool
  pub gives : Op → Bool → Bool

-- Between two traces, `a` were out and `b` are.
abbrev pub Owes : Kind → ℕ → ℕ → Trace → Trace → Type 0
Owes k a b tr tr' =
    count k.takes tr' + count k.gives tr + a ≡ count k.gives tr' + count k.takes tr + b

abbrev pub left {ℓ} : {A : Type ℓ} → ℕ → Result A → ℕ
left b (ok x) = b
left b (err e) = 0

-- With `a` out at the start, `b` are out after a success and none after a failure.
pub record Debt {A : Type 0} (k : Kind) (a b : ℕ) (m : M A) : Type 0 where
  pub at : (w : World) → Owes k a (left b (m w).0) w.trace (m w).1.trace

-- Gives back the one that is out, whatever the result.
pub record Settles {A : Type 0} (k : Kind) (m : M A) : Type 0 where
  pub at : (w : World) → Owes k 1 0 w.trace (m w).1.trace

-- Neither takes nor gives back.
pub record Neutral {A : Type 0} (k : Kind) (m : M A) : Type 0 where
  pub no_takes : Silent k.takes m
  pub no_gives : Silent k.gives m

module _ {k : Kind} where
  pub Debt-pure : {A : Type 0} (a : ℕ) (x : A) → Debt k a a (pure x)
  Debt-pure a x = record { at = λ w. omega arith }

  pub Debt-observe : {A : Type 0} (a : ℕ) (f : Trace → A) → Debt k a a (observe f)
  Debt-observe a f = record { at = λ w. omega arith }

  pub Debt-Neutral : {A : Type 0} (m : M A) → Neutral k m → Debt k 0 0 m
  Debt-Neutral {A} m n = record {
    at = λ w. same (m w).0 w (m w).1 (n.no_takes.at w) (n.no_gives.at w);
  }
    where
      same :
          (r : Result A) (w w' : World)
          → count k.takes w'.trace ≡ count k.takes w.trace
          → count k.gives w'.trace ≡ count k.gives w.trace
          → Owes k 0 (left 0 r) w.trace w'.trace
      same (ok x) w w' t g = omega arith
      same (err e) w w' t g = omega arith

  -- Code that does not fail keeps what is out.
  pub Debt-total :
      {A : Type 0} (a : ℕ) (m : M A)
      → Neutral k m
      → ((w : World) → (x : A) × ((m w).0 ≡ ok x))
      → Debt k a a m
  Debt-total {A} a m n total = record {
    at =
        λ w. let (x, e) = total w in same (m w).0 x w (m w).1 e (n.no_takes.at w) (n.no_gives.at w);
  }
    where
      same :
          (r : Result A) (x : A) (w w' : World)
          → r ≡ ok x
          → count k.takes w'.trace ≡ count k.takes w.trace
          → count k.gives w'.trace ≡ count k.gives w.trace
          → Owes k a (left a r) w.trace w'.trace
      same (ok y) x w w' e t g = omega arith
      same (err d) x w w' e t g = cc

  pub Debt-bind :
      {A B : Type 0} {a : ℕ} (b : ℕ) {c : ℕ} (m : M A) (f : A → M B)
      → Debt k a b m
      → ((x : A) → Debt k b c (f x))
      → Debt k a c (m >>= f)
  Debt-bind {A} {B} {a} b {c} m f dm df = record { at = λ w. next (m w).0 (m w).1 w (dm.at w) }
    where
      next :
          (r : Result A) (w' w : World)
          → Owes k a (left b r) w.trace w'.trace
          → Owes k a (left c (continue r f w').0) w.trace (continue r f w').1.trace
      next (ok x) w' w h = omega (arith, (df x).at w')
      next (err e) w' w h = h

  -- The same before, at and after the step that takes the resource.
  pub Debt-before :
      {A B : Type 0} {c : ℕ} (m : M A) (f : A → M B)
      → Debt k 0 0 m
      → ((x : A) → Debt k 0 c (f x))
      → Debt k 0 c (m >>= f)
  Debt-before m f dm df = Debt-bind 0 m f dm df

  pub Debt-take :
      {A B : Type 0} {c : ℕ} (m : M A) (f : A → M B)
      → Debt k 0 1 m
      → ((x : A) → Debt k 1 c (f x))
      → Debt k 0 c (m >>= f)
  Debt-take m f dm df = Debt-bind 1 m f dm df

  pub Debt-after :
      {A B : Type 0} {c : ℕ} (m : M A) (f : A → M B)
      → Debt k 1 1 m
      → ((x : A) → Debt k 1 c (f x))
      → Debt k 1 c (m >>= f)
  Debt-after m f dm df = Debt-bind 1 m f dm df

  -- A failure of `m` gives back what is out.
  pub Debt-guarded :
      {A : Type 0} (c : M (Unit {0})) (m : M A)
      → Settles k c
      → Neutral k m
      → Debt k 1 1 (on_error c m)
  Debt-guarded {A} c m sc n = record {
    at = λ w. guarded (m w).0 w (m w).1 (n.no_takes.at w) (n.no_gives.at w);
  }
    where
      guarded :
          (r : Result A) (w w' : World)
          → count k.takes w'.trace ≡ count k.takes w.trace
          → count k.gives w'.trace ≡ count k.gives w.trace
          → Owes k 1 (left 1 (clean_up r c w').0) w.trace (clean_up r c w').1.trace
      guarded (ok x) w w' t g = omega arith
      guarded (err e) w w' t g = omega (arith, sc.at w')

  -- A cleanup that has nothing to do with the resource.
  pub Debt-on_error :
      {A : Type 0} {a b : ℕ} (c : M (Unit {0})) (m : M A)
      → Neutral k c
      → Debt k a b m
      → Debt k a b (on_error c m)
  Debt-on_error {A} {a} {b} c m n dm = record { at = λ w. cleaned (m w).0 w (m w).1 (dm.at w) }
    where
      cleaned :
          (r : Result A) (w w' : World)
          → Owes k a (left b r) w.trace w'.trace
          → Owes k a (left b (clean_up r c w').0) w.trace (clean_up r c w').1.trace
      cleaned (ok x) w w' h = h
      cleaned (err e) w w' h = omega (arith, n.no_takes.at w', n.no_gives.at w')

pub ruleset debt_rules =
    (Debt-before, Debt-take, Debt-after, Debt-pure, Debt-observe, Debt-guarded, Debt-on_error)
