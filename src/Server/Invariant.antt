-- ===== src/Server/Invariant.antt =====
-- The invariant of the map of sandboxes, and what the handlers do to the map.
pub mod Removal
pub mod Command
use manta.Prelude.{
  ℕ, ◌+◌, ◌%◌, ◌^◌, ◌≤◌, ◌<◌, ◌≡◌, ◌≢◌, refl, ◌∙◌, ap, sym, subst, ◌⊎◌, inl, inr, Bool, true, false,
  List, [], ◌∷◌, drop, Option, none, some, arith, if◌then◌else◌, Bool-cases,
}
use manta.Text.{Str, lit, is_empty, str_eq}
use manta.Text.Trim.{trim_space}
use manta.Text.Decimal.{dec, dec-injective}
use manta.Types.{Config, Server, Sandbox, running, NetnsConfig}
use manta.Machine.{Env, Error, Result, ok, err, World, M}
use manta.Machine.Keeps.{Keeps, keeps_rules}
use manta.Machine.Yields.{Returned, Yields, yields_rules}
use manta.Sandbox.Create.{build, create_fresh}
use manta.Sandbox.Create.Keeps.{create-Keeps}
use manta.Sandbox.Restore.{run_restored, assemble, restore_sandbox}
use manta.Snapshot.{create_from_snapshot}
use manta.Snapshot.Keeps.{from_snapshot-Keeps}
use manta.Server.{
  Reply, created, failed, sandbox_id, create_sandbox, create_reply, handle_create, set_sandboxes,
}
use manta.Server.Registry.{
  Table, lookup, delete, Every, IsDistinct, lookup-Every, delete_absent, Every-weaken, Every-delete,
  delete-IsDistinct,
}

-- `sb-k` for a k that the counter has passed, and the sandbox knows its own key.
abbrev pub IsEntry : ℕ → Str → Sandbox → Type 0
IsEntry n key sb = (sb.id ≡ key) × (sb.state ≡ running) × ((k : ℕ) × (k ≤ n) × (key ≡ sandbox_id k))

pub record IsWellFormed (s : Server) : Type 0 where
  pub entries : Every (IsEntry s.next_sandbox_id) s.sandboxes
  pub distinct : IsDistinct s.sandboxes

sandbox_id-injective : (m n : ℕ) → sandbox_id m ≡ sandbox_id n → m ≡ n
unfolding sandbox_id drop
sandbox_id-injective m n e = dec-injective m n (ap (drop 3) e)

-- What a new sandbox is.
abbrev pub IsNew : Str → Sandbox → Type 0
IsNew id sb = (sb.id ≡ id) × (sb.state ≡ running) × (sb.in_flight_exec ≡ 0)

module _ (env : Env) where
  build-Yields : (cfg : Config) (id dir : Str) → Yields (IsNew id) (build env cfg id dir)
  unfolding build
  build-Yields cfg id dir = search yields_rules depth 20

  fresh-Yields : (cfg : Config) (id : Str) → Yields (IsNew id) (create_fresh env cfg id)
  unfolding create_fresh
  fresh-Yields cfg id = search (yields_rules, build-Yields) depth 10

  run-Yields :
      (cfg : Config) (id dir state mem : Str) (nc : NetnsConfig)
      → Yields (IsNew id) (run_restored env cfg id dir state mem nc)
  unfolding run_restored
  run-Yields cfg id dir state mem nc = search yields_rules depth 20

  pub restore-Yields :
      (cfg : Config) (id disk state mem : Str) (keep : Bool)
      → Yields (IsNew id) (restore_sandbox env cfg id disk state mem keep)
  unfolding restore_sandbox assemble
  restore-Yields cfg id disk state mem keep = search (yields_rules, run-Yields) depth 12

  from_snapshot-Yields :
      (cfg : Config) (id : Str) → Yields (IsNew id) (create_from_snapshot env cfg id)
  unfolding create_from_snapshot
  from_snapshot-Yields cfg id = search (yields_rules, restore-Yields) depth 8

  create-Yields : (cfg : Config) (id : Str) → Yields (IsNew id) (create_sandbox env cfg id)
  unfolding create_sandbox
  create-Yields cfg id = search (yields_rules, from_snapshot-Yields, fresh-Yields) depth 8

  sandbox-Keeps : (cfg : Config) (id : Str) → Keeps (create_sandbox env cfg id)
  unfolding create_sandbox
  sandbox-Keeps cfg id = search (keeps_rules, from_snapshot-Keeps env, create-Keeps env) depth 8

later :
    (s s' : Server)
    → IsWellFormed s
    → s'.next_sandbox_id ≡ s.next_sandbox_id + 1
    → Every (IsEntry s'.next_sandbox_id) s.sandboxes
later s s' wf next = Every-weaken (IsEntry s.next_sandbox_id) _ s.sandboxes passed wf.entries
  where
    passed :
        (key : Str) (sb : Sandbox)
        → IsEntry s.next_sandbox_id key sb
        → IsEntry s'.next_sandbox_id key sb
    passed key sb (same, state, (k, le, e)) = (same, state, (k, omega (arith, next), e))

-- The reply and the map that a creation leaves: the new sandbox under an id that was not there, or
-- an error and the map as it was. The counter goes up in both cases.
abbrev pub CreateOutcome : Server → Server → Result Reply → Type 0
CreateOutcome s s' (ok (created id)) =
    (id ≡ sandbox_id s'.next_sandbox_id)
    × (lookup id s.sandboxes ≡ none)
    × ((sb : Sandbox) × (IsNew id sb) × (s'.sandboxes ≡ (id, sb) ∷ s.sandboxes))
CreateOutcome s s' (ok (failed e)) = s'.sandboxes ≡ s.sandboxes
CreateOutcome s s' _ = ⊥

pub sandbox_id_absent :
    (s : Server) → IsWellFormed s → lookup (sandbox_id (s.next_sandbox_id + 1)) s.sandboxes ≡ none
sandbox_id_absent s wf =
    lookup-Every _ (sandbox_id (s.next_sandbox_id + 1)) s.sandboxes (λ sb e. used sb e) wf.entries
  where
    used : (sb : Sandbox) → IsEntry s.next_sandbox_id (sandbox_id (s.next_sandbox_id + 1)) sb → ⊥
    used sb (same, state, (k, le, e)) =
        let eq = sandbox_id-injective _ k e in absurd (omega (arith, eq))

pub create_reply-Outcome :
    (env : Env) (s : Server) (id : Str) (n : ℕ) (r : Result Sandbox) (w : World)
    → Returned (IsNew id) r
    → lookup id s.sandboxes ≡ none
    → id ≡ sandbox_id n
    → (w.server.sandboxes ≡ s.sandboxes)
    → (w.server.next_sandbox_id ≡ n)
    → CreateOutcome s (create_reply env r w).1.server (create_reply env r w).0
      × ((create_reply env r w).1.server.next_sandbox_id ≡ n)
create_reply-Outcome env s id n (err e) w new fresh named same next = (same, next)
create_reply-Outcome env s id n (ok sb) w (key, state, idle) fresh named same next = (
  (
    key ∙ (named ∙ ap sandbox_id (sym next)),
    ap (λ i. lookup i s.sandboxes) key ∙ fresh,
    (
      sb,
      (refl, state, idle),
      ap (λ l. (sb.id, sb) ∷ delete sb.id l) same
          ∙ ap (λ l. (sb.id, sb) ∷ l)
              (delete_absent sb.id s.sandboxes (ap (λ i. lookup i s.sandboxes) key ∙ fresh)),
    ),
  ),
  next,
)

-- In a well-formed server whose counter has not reached its end, a creation answers with an id that
-- was not in the map and adds exactly that sandbox, running and idle, or it answers with an error
-- and leaves the map as it was. The counter goes up by one.
pub handle_create-Outcome :
    (env : Env) (w : World)
    → IsWellFormed w.server
    → w.server.next_sandbox_id + 1 < 2 ^ 64
    → CreateOutcome w.server (handle_create env w).1.server (handle_create env w).0
      × ((handle_create env w).1.server.next_sandbox_id ≡ w.server.next_sandbox_id + 1)
unfolding handle_create
handle_create-Outcome env w wf room =
    let n = w.server.next_sandbox_id + 1 in
    let exact : n % 2 ^ 64 ≡ n = omega (arith, room) in
    let w1 = record w { server = record w.server { next_sandbox_id = n } } in
    let made = create_sandbox env w.server.cfg (sandbox_id n) in
    let kept = (sandbox-Keeps env w.server.cfg (sandbox_id n)).at w1 in
    rw exact (
      create_reply-Outcome env w.server (sandbox_id n) n (made w1).0 (made w1).1
        ((create-Yields env w.server.cfg (sandbox_id n)).at w1) (sandbox_id_absent w.server wf) refl
        (ap (λ r. r.0) kept) (ap (λ r. r.1) kept))

pub Outcome-IsWellFormed :
    (s s' : Server) (r : Result Reply)
    → IsWellFormed s
    → s'.next_sandbox_id ≡ s.next_sandbox_id + 1
    → CreateOutcome s s' r
    → IsWellFormed s'
Outcome-IsWellFormed s s' (ok (created id)) wf next
      (named, fresh, (sb, (key, state, idle), grown)) =
    record {
      entries =
          subst (Every (IsEntry s'.next_sandbox_id)) (sym grown)
            ((key, state, (s'.next_sandbox_id, omega arith, named)), later s s' wf next);
      distinct = subst IsDistinct (sym grown) (fresh, wf.distinct);
    }
Outcome-IsWellFormed s s' (ok (failed e)) wf next same = record {
  entries = subst (Every (IsEntry s'.next_sandbox_id)) (sym same) (later s s' wf next);
  distinct = subst IsDistinct (sym same) wf.distinct;
}
Outcome-IsWellFormed s s' (ok (Reply.executed _ _ _)) wf next same = elim same [ ]
Outcome-IsWellFormed s s' (ok Reply.destroyed) wf next same = elim same [ ]
Outcome-IsWellFormed s s' (ok (Reply.snapshotted _)) wf next same = elim same [ ]
Outcome-IsWellFormed s s' (ok Reply.snapshot_deleted) wf next same = elim same [ ]
Outcome-IsWellFormed s s' (ok (Reply.listed _)) wf next same = elim same [ ]
Outcome-IsWellFormed s s' (ok (Reply.bad_request _)) wf next same = elim same [ ]
Outcome-IsWellFormed s s' (ok (Reply.not_found _)) wf next same = elim same [ ]
Outcome-IsWellFormed s s' (ok (Reply.conflict _)) wf next same = elim same [ ]
Outcome-IsWellFormed s s' (ok (Reply.cleanup_failed _)) wf next same = elim same [ ]
Outcome-IsWellFormed s s' (ok Reply.panicked) wf next same = elim same [ ]
Outcome-IsWellFormed s s' (err _) wf next same = elim same [ ]

-- A creation keeps the map well formed.
pub handle_create-IsWellFormed :
    (env : Env) (w : World)
    → IsWellFormed w.server
    → w.server.next_sandbox_id + 1 < 2 ^ 64
    → IsWellFormed (handle_create env w).1.server
handle_create-IsWellFormed env w wf room =
    let (outcome, next) = handle_create-Outcome env w wf room in
    Outcome-IsWellFormed w.server (handle_create env w).1.server (handle_create env w).0 wf next
      outcome
