-- ===== src/Bench/OnServer/Restores.antt =====
-- The benchmarks against the server: a sandbox that is opened and removed again.
use manta.Prelude.{ℕ, ◌+◌, ◌^◌, ◌<◌, ◌≤◌, ◌≡◌, refl, ◌∙◌, ap, false, arith}
use manta.Text.{Str, is_empty}
use manta.Text.Trim.{trim_space}
use manta.Machine.{Env, World}
use manta.Lifecycle.Drain.{Rounds}
use manta.Server.Registry.{delete, map_values}
use manta.Server.Keeps.{view, views}
use manta.Server.Invariant.Command.{views-IsWellFormed}
use manta.Server.Invariant.{IsWellFormed}
use manta.Bench.{Failure, Outcome, Session, M, continue, catch, ◌>>=◌}
use manta.Bench.OnServer.{Json, Network, boxes, created_and_gone}
use manta.Bench.OnServer.Restoring.{Stays, Removes}
use manta.Bench.OnServer.Opening.{Opened, Opens}

abbrev counter : World → ℕ
counter w = w.server.next_sandbox_id

module _ (json : Json) (env : Env) (r : Rounds) (net : Network) where
  -- `n` creations at most, and the map of sandboxes as it was.
  abbrev pub Restored : ℕ → World → World → Type 0
  Restored n w w' =
      (boxes json env r net w' ≡ boxes json env r net w)
      × IsWellFormed w'.server
      × (counter w' ≤ counter w + n)

  pub record Restores {A : Type 0} (n : ℕ) (m : M World A) : Type 0 where
    pub at :
        (s : Session World)
        → IsWellFormed s.peer.server
        → counter s.peer + n < 2 ^ 64
        → Restored n s.peer (m s).1.peer

  pub Restores-none : {A : Type 0} (a : A) → Restores 0 (manta.Bench.pure {S = World} a)
  Restores-none a = record { at = λ s wf room. (refl, wf, omega arith) }

  pub Restores-catch : {A : Type 0} (n : ℕ) (m : M World A) → Restores n m → Restores n (catch m)
  Restores-catch n m h = record { at = h.at }

  pub Restores-bind :
      {A B : Type 0} (n k t : ℕ) (m : M World A) (f : A → M World B)
      → n + k ≡ t
      → Restores n m
      → ((a : A) → Restores k (f a))
      → Restores t (m >>= f)
  Restores-bind {A} {B} n k t m f e hm hf = record {
    at = λ s wf room. next (m s).0 (m s).1 s room (hm.at s wf (omega arith));
  }
    where
      next :
          (o : Outcome A) (s' s : Session World)
          → counter s.peer + t < 2 ^ 64
          → Restored n s.peer s'.peer
          → Restored t s.peer (continue o f s').1.peer
      next (Outcome.failed x) s' s room (same, good, small) = (same, good, omega arith)
      next (Outcome.done a) s' s room (same, good, small) =
          let (same', good', small') = (hf a).at s' good (omega arith) in
          (same' ∙ same, good', omega arith)

  closed :
      (id : Str) (w w1 w2 : World)
      → Opened w (Outcome.done id) w1
      → (w1.server.next_sandbox_id ≤ w.server.next_sandbox_id + 1)
      → (views w2.server ≡ (delete id (boxes json env r net w1), w1.server.next_sandbox_id))
      → IsWellFormed w2.server
      → Restored 1 w w2
  closed id w w1 w2 ((sb, grown), fresh, visible) small gone good = (
    ap (λ v. v.0) gone ∙ created_and_gone json env r net id sb w w1 grown fresh,
    good,
    omega (arith, small, ap (λ v. v.1) gone),
  )

  -- What is opened is removed, whatever happens in between.
  pub bracket_caught :
      {A : Type 0} (m : M World Str) (k : Outcome Str → M World A)
      → Opens json env r net m
      → ((id : Str)
          → is_empty (trim_space id) ≡ false
          → Removes json env r net id (k (Outcome.done id)))
      → ((e : Failure) → Stays (k (Outcome.failed e)))
      → Restores 1 (catch m >>= k)
  bracket_caught {A} m k om rk fk = record {
    at = λ s wf room. next (m s).0 (m s).1 s (om.at s wf room);
  }
    where
      next :
          (o : Outcome Str) (s' s : Session World)
          → Opened s.peer o s'.peer
            × IsWellFormed s'.peer.server
            × (s'.peer.server.next_sandbox_id ≤ s.peer.server.next_sandbox_id + 1)
          → Restored 1 s.peer (k o s').1.peer
      next (Outcome.failed e) s' s (same, good, small) =
          let still = (fk e).at s' in
          (
            ap (λ v. v.0) still ∙ ap (map_values view) same,
            views-IsWellFormed s'.peer.server (k (Outcome.failed e) s').1.peer.server still good,
            omega (arith, small, ap (λ v. v.1) still),
          )
      next (Outcome.done id) s' s (opened, good, small) =
          let (gone, good') = (rk id opened.2).at s' good in
          closed id s.peer s'.peer (k (Outcome.done id) s').1.peer opened small gone good'

  pub bracket :
      {A : Type 0} (m : M World Str) (k : Str → M World A)
      → Opens json env r net m
      → ((id : Str) → is_empty (trim_space id) ≡ false → Removes json env r net id (k id))
      → Restores 1 (m >>= k)
  bracket m k om rk = bracket_caught m (λ o. continue o k) om rk (λ e. record { at = λ s. refl })
