-- ===== src/Lifecycle/Safety.antt =====
-- What holds in every reachable state of the calls on one sandbox.
use manta.Prelude.{
  ℕ, ◌+◌, ◌≤◌, ◌<◌, ◌≡◌, refl, ap, ◌↔◌, true, false, List, [], ◌∷◌, none, arith, replace, total,
  total-replace, total-nil, total-cons,
}
use manta.Types.{Sandbox, SandboxState, running, closing, closed}
use manta.Lifecycle.{
  try_start_exec, finish_exec, begin_destroy, current_in_flight_exec, finish_destroy,
}
use manta.Lifecycle.Interleaving.{
  ExecCall, executing, answered, DestroyCall, draining, cleaning, ended, System, Step, exec_arrives,
  destroy_arrives, exec_starts, exec_refused, exec_finishes, destroy_begins, destroy_refused,
  drain_ends, drain_times_out, destroy_finishes, init, Reach, start, later,
}

-- A command that is running.
abbrev pub runs : ExecCall → ℕ
runs executing = 1
runs _ = 0

-- A destruction that has begun; one whose drain was complete; one that is over.
abbrev pub begun : DestroyCall → ℕ
begun DestroyCall.arrived = 0
begun DestroyCall.refused = 0
begun _ = 1

abbrev pub drained : DestroyCall → ℕ
drained (cleaning true) = 1
drained (ended true) = 1
drained _ = 0

abbrev pub over : DestroyCall → ℕ
over (ended d) = 1
over _ = 0

abbrev pub has_begun : SandboxState → ℕ
has_begun running = 0
has_begun closing = 1
has_begun closed = 1

abbrev pub is_over : SandboxState → ℕ
is_over running = 0
is_over closing = 0
is_over closed = 1

pub record Inv (s : System) : Type 0 where
  pub counted : s.sandbox.in_flight_exec ≡ total runs s.execs
  pub once : total begun s.destroys ≡ has_begun s.sandbox.state
  pub ends : total over s.destroys ≡ is_over s.sandbox.state
  pub idle : 0 < total drained s.destroys → s.sandbox.in_flight_exec ≡ 0

-- The sums before and after one call changes.
module _ {A : Type 0} (w : A → ℕ) {xs : List A} (before after : List A) (x y : A) where
  total_change :
      xs ≡ replace before x after → total w (replace before y after) + w x ≡ total w xs + w y
  total_change e =
      omega (arith, ap (total w) e, total-replace w before x after, total-replace w before y after)

total_mono :
    (v w : DestroyCall → ℕ)
    → ((d : DestroyCall) → v d ≤ w d)
    → (ds : List DestroyCall) → total v ds ≤ total w ds
unfolding total
total_mono v w le [] = omega arith
total_mono v w le (d ∷ ds) = omega (arith, le d, total_mono v w le ds)

drained_one : (d : DestroyCall) → drained d ≤ begun d
drained_one (cleaning true) = omega arith
drained_one (ended true) = omega arith
drained_one _ = omega arith

over_one : (d : DestroyCall) → over d ≤ begun d
over_one (ended d) = omega arith
over_one _ = omega arith

drained-le-begun : (ds : List DestroyCall) → total drained ds ≤ total begun ds
drained-le-begun = total_mono drained begun drained_one

Inv-init : (sb : Sandbox) → Inv (init sb)
Inv-init sb = record {
  counted = rw total-nil;
  once = total-nil begun;
  ends = total-nil over;
  idle = λ h. refl;
}

-- What a step of one destruction, from `x` to `y`, does to the three sums.
record Changes (ds before after : List DestroyCall) (x y : DestroyCall) : Type 0 where
  begun_by : total begun (replace before y after) + begun x ≡ total begun ds + begun y
  over_by : total over (replace before y after) + over x ≡ total over ds + over y
  drained_by : total drained (replace before y after) + drained x ≡ total drained ds + drained y
  present : total over ds + begun x ≤ total begun ds + over x

changes :
    {ds : List DestroyCall} (before after : List DestroyCall) (x y : DestroyCall)
    → ds ≡ replace before x after
    → Changes ds before after x y
changes before after x y e = record {
  begun_by = total_change begun before after x y e;
  over_by = total_change over before after x y e;
  drained_by = total_change drained before after x y e;
  present = omega (
    arith,
    ap (total over) e,
    ap (total begun) e,
    total-replace over before x after,
    total-replace begun before x after,
    total_mono over begun over_one before,
    total_mono over begun over_one after,
  );
}

-- Every step of a call keeps the invariant.
pub Step-Inv : {s t : System} → Step s t → Inv s → Inv t
unfolding try_start_exec finish_exec begin_destroy current_in_flight_exec finish_destroy
Step-Inv (exec_arrives s) v = ground (arith, total-cons runs ExecCall.arrived s.execs)
Step-Inv (destroy_arrives s) v = ground (
  arith,
  total-cons begun DestroyCall.arrived s.destroys,
  total-cons over DestroyCall.arrived s.destroys,
  total-cons drained DestroyCall.arrived s.destroys,
)
Step-Inv (exec_starts s before after sb e h) v = ground (
  arith,
  total_change runs before after ExecCall.arrived executing e,
  drained-le-begun s.destroys,
)
Step-Inv (exec_refused s before after e h) v =
    ground (arith, total_change runs before after ExecCall.arrived ExecCall.refused e)
Step-Inv (exec_finishes s before after e) v =
    ground (arith, total_change runs before after executing answered e)
Step-Inv (destroy_begins s before after sb e h) v =
    ground (arith, changes before after DestroyCall.arrived draining e, drained-le-begun s.destroys)
Step-Inv (destroy_refused s before after sb e h) v =
    ground (arith, changes before after DestroyCall.arrived DestroyCall.refused e)
Step-Inv (drain_ends s before after e h) v =
    ground (arith, changes before after draining (cleaning true) e)
Step-Inv (drain_times_out s before after e) v =
    ground (arith, changes before after draining (cleaning false) e)
Step-Inv (destroy_finishes s before after true e) v =
    ground (arith, changes before after (cleaning true) (ended true) e)
Step-Inv (destroy_finishes s before after false e) v =
    ground (arith, changes before after (cleaning false) (ended false) e)

pub Reach-Inv : {sb : Sandbox} {s : System} → Reach sb s → Inv s
Reach-Inv {sb} start = Inv-init sb
Reach-Inv (later r st) = Step-Inv st (Reach-Inv r)

-- In every reachable state the counter is the number of the commands that run.
pub in_flight-counts :
    {sb : Sandbox} {s : System} → Reach sb s → s.sandbox.in_flight_exec ≡ total runs s.execs
in_flight-counts r = (Reach-Inv r).counted

-- Of all destructions of a sandbox at most one ever begins, and it has begun exactly when the
-- sandbox no longer counts as running.
pub destroy_at_most_once :
    {sb : Sandbox} {s : System}
    → Reach sb s
    → (total begun s.destroys ≤ 1) × ((total begun s.destroys ≡ 0) ↔ (s.sandbox.state ≡ running))
destroy_at_most_once {s = s} r = ground (arith, Reach-Inv r)

-- Once a destruction has seen the drain complete, no command runs, in that state and later on:
-- nothing that the destruction takes away is in use.
pub no_exec_after_drain :
    {sb : Sandbox} {s : System}
    → Reach sb s
    → 0 < total drained s.destroys
    → (total runs s.execs ≡ 0) × (try_start_exec s.sandbox ≡ none)
unfolding try_start_exec
no_exec_after_drain {s = s} r h = ground (arith, Reach-Inv r, drained-le-begun s.destroys)
