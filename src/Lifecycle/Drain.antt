-- ===== src/Lifecycle/Drain.antt =====
-- The loop of `waitForExecDrain`, against whatever the other calls do to the counter meanwhile.
use native.Mathlib.Decide.{dec_lt}
use native.Mathlib.Nat.{le_refl}
use manta.Prelude.{
  ℕ, zero, suc, ◌+◌, ◌-◌, ◌*◌, ◌/◌, ◌≤◌, ◌<◌, ◌≡◌, ◌≢◌, refl, inl, inr, Bool, true, false, Option,
  none, some, arith, ltb, ltb→lt, ◌==◌, ==_iff, if◌then◌else◌, Bool-cases,
}

-- 10 * time.Millisecond and destroyExecDrainTimeout, in nanoseconds.
abbrev pub poll_interval : ℕ
poll_interval = 10000000

abbrev pub drain_timeout : ℕ
drain_timeout = 2000000000

-- What the k-th round reads: `inFlightExec`, and `time.Now()` where it is compared.
pub record Rounds : Type 0 where
  pub begins : ℕ
  pub in_flight : ℕ → ℕ
  pub now : ℕ → ℕ

-- Time does not go back, and `time.Sleep` lasts as long as it is asked to.
pub record IsTimed (r : Rounds) : Type 0 where
  pub first : r.begins ≤ r.now 0
  pub sleeps : (k : ℕ) → r.now k + poll_interval ≤ r.now (suc k)

-- From the k-th round on; none means that the fuel ran out.
drain_loop : Rounds → ℕ → ℕ → ℕ → Option Bool
drain_loop r deadline zero k = none
drain_loop r deadline (suc fuel) k =
    let rest = drain_loop r deadline fuel (suc k) in
    if r.in_flight k == 0 then some true else if ltb deadline (r.now k) then some false else rest

-- Each round that goes on takes `poll_interval`, so the rounds that fit into the timeout suffice.
pub wait_for_exec_drain : Rounds → ℕ → Option Bool
unfolding drain_loop
wait_for_exec_drain r timeout = drain_loop r (r.begins + timeout) (timeout / poll_interval + 2) 0

abbrev pub Explained : Rounds → ℕ → Option Bool → Type 0
Explained r deadline none = ⊥
Explained r deadline (some true) = (k : ℕ) × (r.in_flight k ≡ 0)
Explained r deadline (some false) =
    (k : ℕ) × (deadline < r.now k) × ((j : ℕ) → j ≤ k → r.in_flight j ≢ 0)

module _ (r : Rounds) (timed : IsTimed r) where
  elapsed : (k : ℕ) → r.begins + k * poll_interval ≤ r.now k
  elapsed zero = omega (arith, timed.first)
  elapsed (suc k) = omega (arith, elapsed k, timed.sleeps k)

  -- No command has ended by the k-th round, nor the time run out before it.
  abbrev Waiting : ℕ → ℕ → Type 0
  Waiting deadline k = (j : ℕ) → j < k → (r.in_flight j ≢ 0) × (r.now j ≤ deadline)

  Waiting-suc :
      (deadline k : ℕ)
      → r.in_flight k ≢ 0
      → r.now k ≤ deadline
      → Waiting deadline k
      → Waiting deadline (suc k)
  Waiting-suc deadline k busy early before j h = elim (dec_lt j k) [
    | yes lt ↦ before j lt
    | no ge ↦ let e : j ≡ k = omega arith in rw e (busy, early)
  ]

  drain_loop-Explained :
      (deadline fuel k : ℕ)
      → deadline + poll_interval < r.begins + (fuel + k) * poll_interval
      → r.begins ≤ deadline
      → Waiting deadline k
      → Explained r deadline (drain_loop r deadline fuel k)
  unfolding drain_loop
  drain_loop-Explained deadline zero zero enough room before = absurd (omega arith)
  drain_loop-Explained deadline zero (suc k) enough room before =
      let late = elapsed k in let early = (before k (omega arith)).1 in absurd (omega arith)
  drain_loop-Explained deadline (suc fuel) k enough room before =
      elim (Bool-cases (r.in_flight k == 0)) [
        | inl z ↦ rw z (k, (==_iff _ _).0 z)
        | inr busy ↦
            let busy' : r.in_flight k ≢ 0 = ground arith in
            elim (Bool-cases (ltb deadline (r.now k))) [
              | inl late ↦ rw (busy, late) (k, ltb→lt _ _ late, λ j h. (Waiting-le j h busy'))
              | inr early ↦
                  rw (busy, early)
                    (drain_loop-Explained deadline fuel (suc k) (omega arith) room
                      (Waiting-suc deadline k busy' (ground arith) before))
            ]
      ]
    where
      Waiting-le : (j : ℕ) → j ≤ k → r.in_flight k ≢ 0 → r.in_flight j ≢ 0
      Waiting-le j h busy = elim (dec_lt j k) [
        | yes lt ↦ (before j lt).0
        | no ge ↦ let e : j ≡ k = omega arith in rw e busy
      ]

  -- The loop ends: with true only after a round that read a zero counter, and with false only
  -- after the deadline, when every round read a counter that was not zero.
  pub wait_for_exec_drain-Explained :
      (timeout : ℕ) → Explained r (r.begins + timeout) (wait_for_exec_drain r timeout)
  unfolding wait_for_exec_drain
  wait_for_exec_drain-Explained timeout =
      drain_loop-Explained (r.begins + timeout) _ 0 (omega arith) (omega arith) (λ j h. elim h [ ])

  now_monotone : (k n m : ℕ) → n + k ≡ m → r.now k ≤ r.now m
  now_monotone k zero m e = let same : k ≡ m = omega arith in rw same (le_refl _)
  now_monotone k (suc n) m e =
      let last : m ≡ suc (n + k) = omega arith in
      rw last (omega (arith, now_monotone k n (n + k) refl, timed.sleeps (n + k)))

  -- Where some round that still is within the timeout reads a zero counter, the drain completes.
  wait_for_exec_drain_completes :
      (timeout m : ℕ)
      → r.in_flight m ≡ 0
      → r.now m ≤ r.begins + timeout
      → wait_for_exec_drain r timeout ≡ some true
  wait_for_exec_drain_completes timeout m idle early =
      completes (wait_for_exec_drain r timeout) (wait_for_exec_drain-Explained timeout)
    where
      completes : (o : Option Bool) → Explained r (r.begins + timeout) o → o ≡ some true
      completes none h = absurd h
      completes (some true) h = refl
      completes (some false) (k, late, busy) = elim (dec_lt k m) [
        | no le ↦ absurd (busy m (omega arith) idle)
        | yes lt ↦
            let later : r.now k ≤ r.now m = now_monotone k (m - k) m (omega arith) in
            absurd (omega arith)
      ]
