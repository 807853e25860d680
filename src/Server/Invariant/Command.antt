-- ===== src/Server/Invariant/Command.antt =====
-- A command keeps the map of sandboxes well formed, and so does any sequence of requests.
use manta.Prelude.{ℕ, ◌+◌, ◌^◌, ◌<◌, ◌≡◌, ap, sym, subst, List, [], ◌∷◌, Option, arith}
use manta.Text.{Str}
use manta.Types.{Sandbox, Server}
use manta.Machine.{Env, World}
use manta.Lifecycle.Drain.{Rounds}
use manta.Server.{handle_create, handle_destroy}
use manta.Server.Registry.{
  Table, Every, IsDistinct, map_values, lookup-map_values_hidden, lookup-map_values_absent,
}
use manta.Server.Exec.{ExecBody, handle_exec}
use manta.Server.Keeps.{view, views, handle_exec_restores}
use manta.Server.Invariant.{
  IsEntry, IsWellFormed, handle_create-Outcome, handle_create-IsWellFormed,
}
use manta.Server.Invariant.Removal.{
  handle_destroy-IsWellFormed, handle_destroy_counter, registry-IsWellFormed,
}
use manta.Server.UserSnapshot.{
  handle_snapshot_create, handle_snapshot_restore, handle_snapshot_delete,
}
use manta.Server.UserSnapshot.Keeps.{
  snapshot_create-Preserves, snapshot_restore-Grown, snapshot_delete-Keeps,
}

Every-view :
    (n : ℕ) (l : Table Sandbox) → Every (IsEntry n) l → Every (IsEntry n) (map_values view l)
unfolding map_values
Every-view n [] h = tt
Every-view n ((j, sb) ∷ l) (p, h) = (p, Every-view n l h)

Every_without_view :
    (n : ℕ) (l : Table Sandbox) → Every (IsEntry n) (map_values view l) → Every (IsEntry n) l
unfolding map_values
Every_without_view n [] h = tt
Every_without_view n ((j, sb) ∷ l) (p, h) = (p, Every_without_view n l h)

IsDistinct-view : (l : Table Sandbox) → IsDistinct l → IsDistinct (map_values view l)
unfolding map_values
IsDistinct-view [] h = tt
IsDistinct-view ((j, sb) ∷ l) (p, h) = (lookup-map_values_absent view j l p, IsDistinct-view l h)

view-keys : (l : Table Sandbox) → IsDistinct (map_values view l) → IsDistinct l
unfolding map_values
view-keys [] h = tt
view-keys ((j, sb) ∷ l) (p, h) = (lookup-map_values_hidden view j l p, view-keys l h)

pub views-IsWellFormed : (s s' : Server) → views s' ≡ views s → IsWellFormed s → IsWellFormed s'
views-IsWellFormed s s' same wf = record {
  entries = Every_without_view s'.next_sandbox_id s'.sandboxes (
      subst (λ v. Every (IsEntry v.1) v.0) (sym same)
        (Every-view s.next_sandbox_id s.sandboxes wf.entries));
  distinct =
      view-keys s'.sandboxes
        (subst (λ v. IsDistinct v.0) (sym same) (IsDistinct-view s.sandboxes wf.distinct));
}

pub handle_exec-IsWellFormed :
    (env : Env) (body : Option ExecBody) (w : World)
    → IsWellFormed w.server
    → IsWellFormed (handle_exec env body w).1.server
handle_exec-IsWellFormed env body w wf =
    views-IsWellFormed w.server _ (handle_exec_restores env body w) wf

-- A request to one of the handlers that change something.
pub data Call : Type 0 where
  creates : Call
  execs : Option ExecBody → Call
  destroys : Rounds → Option Str → Call
  snapshots : Option (Str × Str) → Call
  restores deletes : Option Str → Call

unfoldable pub serve : Env → Call → World → World
serve env creates w = (handle_create env w).1
serve env (execs body) w = (handle_exec env body w).1
serve env (destroys r id) w = (handle_destroy env r id w).1
serve env (snapshots req) w = (handle_snapshot_create env req w).1
serve env (restores raw) w = (handle_snapshot_restore env raw w).1
serve env (deletes raw) w = (handle_snapshot_delete env raw w).1

unfoldable pub serve_all : Env → List Call → World → World
serve_all env [] w = w
serve_all env (c ∷ cs) w = serve_all env cs (serve env c w)

-- The creations among the calls, by restorations too.
unfoldable pub creations : List Call → ℕ
creations [] = 0
creations (creates ∷ cs) = creations cs + 1
creations (execs body ∷ cs) = creations cs
creations (destroys r id ∷ cs) = creations cs
creations (snapshots req ∷ cs) = creations cs
creations (restores raw ∷ cs) = creations cs + 1
creations (deletes raw ∷ cs) = creations cs

-- Any sequence of requests (creations, commands, destructions and those on user snapshots), from a well-formed server whose counter
-- does not reach 2^64 in it, ends in a well-formed one: every key is the id of its sandbox and was
-- given out by the counter, every sandbox of the map is running, and no key stands twice.
pub serve_all-IsWellFormed :
    (env : Env) (cs : List Call) (w : World)
    → IsWellFormed w.server
    → w.server.next_sandbox_id + creations cs < 2 ^ 64
    → IsWellFormed (serve_all env cs w).server
unfolding serve serve_all creations
serve_all-IsWellFormed env [] w wf room = wf
serve_all-IsWellFormed env (creates ∷ cs) w wf room =
    serve_all-IsWellFormed env cs (handle_create env w).1
      (handle_create-IsWellFormed env w wf (omega (arith, room)))
      (omega (arith, room, (handle_create-Outcome env w wf (omega (arith, room))).1))
serve_all-IsWellFormed env (execs body ∷ cs) w wf room =
    serve_all-IsWellFormed env cs (handle_exec env body w).1
      (handle_exec-IsWellFormed env body w wf)
      (omega (arith, room, ap (λ v. v.1) (handle_exec_restores env body w)))
serve_all-IsWellFormed env (destroys r id ∷ cs) w wf room =
    serve_all-IsWellFormed env cs (handle_destroy env r id w).1
      (handle_destroy-IsWellFormed env r id w wf)
      (omega (arith, room, handle_destroy_counter env r id w))
serve_all-IsWellFormed env (snapshots req ∷ cs) w wf room =
    let same = (snapshot_create-Preserves env req).at w in
    serve_all-IsWellFormed env cs (handle_snapshot_create env req w).1
      (views-IsWellFormed w.server _ same wf) (omega (arith, room, ap (λ v. v.1) same))
serve_all-IsWellFormed env (restores raw ∷ cs) w wf room =
    let (good, small) = snapshot_restore-Grown env raw w wf (omega (arith, room)) in
    serve_all-IsWellFormed env cs (handle_snapshot_restore env raw w).1 good
      (omega (arith, room, small))
serve_all-IsWellFormed env (deletes raw ∷ cs) w wf room =
    let same = (snapshot_delete-Keeps env raw).at w in
    serve_all-IsWellFormed env cs (handle_snapshot_delete env raw w).1
      (registry-IsWellFormed w.server _ same wf) (omega (arith, room, ap (λ g. g.1) same))
