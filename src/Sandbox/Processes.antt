-- ===== src/Sandbox/Processes.antt =====
-- The processes that building a sandbox starts and kills.
use manta.Prelude.{ℕ, ◌≡◌, refl, Bool, true, false, some, ◌∷◌, arith, ◌==◌, ==_iff}
use manta.Text.{Str}
use manta.Machine.{
  Op, Env, Result, ok, err, World, M, start, kill_group, Error, need, ignore, continue, ◌>>◌,
}
use manta.Machine.Trace.{count}
use manta.Machine.Counts.{Silent}
use manta.Machine.Silence.{IsOnProcesses, is_process}
use manta.Machine.Debt.{Kind, Owes, Debt, Settles, Neutral}
use manta.Process.{kill_process_group}

-- A process that has been started, and the kill of a process group.
abbrev pub is_started : Op → Bool → Bool
is_started (start ns dir config) done = done
is_started _ done = false

abbrev pub is_killed : Op → Bool → Bool
is_killed (kill_group p) done = true
is_killed _ done = false

abbrev pub processes : Kind
processes = record { takes = is_started; gives = is_killed }

pub started-IsOn : IsOnProcesses is_started
started-IsOn = record { spares = λ op done h. spared op done h }
  where
    spared : (op : Op) (done : Bool) → is_process op ≡ false → is_started op done ≡ false
    spared (start ns dir config) done h = cc
    spared _ done h = refl

pub killed-IsOn : IsOnProcesses is_killed
killed-IsOn = record { spares = λ op done h. spared op done h }
  where
    spared : (op : Op) (done : Bool) → is_process op ≡ false → is_killed op done ≡ false
    spared (kill_group p) done h = cc
    spared _ done h = refl

-- An action that makes no call on processes.
pub Silent-Neutral :
    {A : Type 0} (m : M A)
    → ((p : Op → Bool → Bool) → IsOnProcesses p → Silent p m)
    → Neutral processes m
Silent-Neutral m h = record { no_takes = h _ started-IsOn; no_gives = h _ killed-IsOn }

-- The kill of one process's group.
abbrev pub is_kill_of : ℕ → Op → Bool → Bool
is_kill_of n (kill_group p) done = p == n
is_kill_of n _ done = false

abbrev pub process : ℕ → Kind
process n = record { takes = is_started; gives = is_kill_of n }

kill_of-IsOn : (n : ℕ) → IsOnProcesses (is_kill_of n)
kill_of-IsOn n = record { spares = λ op done h. spared op done h }
  where
    spared : (op : Op) (done : Bool) → is_process op ≡ false → is_kill_of n op done ≡ false
    spared (kill_group p) done h = cc
    spared _ done h = refl

pub Silent-process-Neutral :
    {A : Type 0} (n : ℕ) (m : M A)
    → ((p : Op → Bool → Bool) → IsOnProcesses p → Silent p m)
    → Neutral (process n) m
Silent-process-Neutral n m h = record {
  no_takes = h _ started-IsOn;
  no_gives = h _ (kill_of-IsOn n);
}

pub kill_process-Settles :
    (env : Env) (pid : ℕ) → Settles (process pid) (kill_process_group env (some pid))
unfolding kill_process_group count
kill_process-Settles env pid = record {
  at = λ w. let same : (pid == pid) ≡ true = (==_iff pid pid).1 refl in ground arith;
}

module _ (env : Env) where
  -- A start that fails has started nothing.
  pub start-Debt :
      (ns dir : Str) (config : Bool) (e : Error)
      → Debt processes 0 1 (need env (start ns dir config) e)
  unfolding count
  start-Debt ns dir config e = record { at = λ w. ground arith }

  pub kill-Settles : (pid : ℕ) → Settles processes (kill_process_group env (some pid))
  unfolding kill_process_group count
  kill-Settles pid = record { at = λ w. ground arith }

  pub Settles-then :
      (m rest : M (Unit {0}))
      → Settles processes m
      → Neutral processes rest
      → Settles processes (m >> rest)
  Settles-then m rest s n = record { at = λ w. next (m w).0 w (m w).1 (s.at w) }
    where
      next :
          (r : Result (Unit {0})) (w w' : World)
          → Owes processes 1 0 w.trace w'.trace
          → Owes processes 1 0 w.trace (continue r (λ _. rest) w').1.trace
      next (ok x) w w' h = omega (arith, n.no_takes.at w', n.no_gives.at w')
      next (err e) w w' h = h

  pub Settles-ignore :
      (op : Op) (rest : M (Unit {0}))
      → is_process op ≡ false
      → Settles processes rest
      → Settles processes (ignore env op >> rest)
  unfolding count
  Settles-ignore op rest h s = record {
    at = λ w.
        let d = env.succeeds w.trace op in
        omega (
          arith,
          s.at (record w { trace = record { op = op; done = d } ∷ w.trace }),
          picked is_started started-IsOn d w,
          picked is_killed killed-IsOn d w,
        );
  }
    where
      picked :
          (p : Op → Bool → Bool)
          → IsOnProcesses p
          → (d : Bool) (w : World)
          → count p (record { op = op; done = d } ∷ w.trace) ≡ count p w.trace
      picked p on d w = ground (arith, on.spares op d h)
