-- ===== src/Server/Invariant/Removal.antt =====
-- What `handleDestroy` and `destroyAll` do to the map of sandboxes.
use manta.Prelude.{
  ◌≡◌, refl, ◌∙◌, ap, sym, subst, ◌⊎◌, inl, inr, Bool, true, false, Option, none, some, Bool-cases,
}
use manta.Text.{Str, is_empty, str_eq}
use manta.Text.Trim.{trim_space}
use manta.Types.{Sandbox, Server}
use manta.Machine.{Env, World, ok}
use manta.Machine.Keeps.{Keeps, registry, keeps_rules}
use manta.Lifecycle.Drain.{Rounds, wait_for_exec_drain, drain_timeout}
use manta.Sandbox.Cleanup.Keeps.{cleanup-Keeps}
use manta.Server.{
  not_found, drain, drained, destroy_begun, destroy_found, handle_destroy, set_sandboxes,
}
use manta.Server.Registry.{
  Every, IsDistinct, lookup, delete, lookup-delete, lookup-delete_other, Every-delete,
  delete-IsDistinct,
}
use manta.Server.Exec.{ExecBody, handle_exec, exec_found}
use manta.Server.Invariant.{IsEntry, IsWellFormed}

drained-Keeps : (o : Option Bool) → Keeps (drained o)
drained-Keeps none = search keeps_rules
drained-Keeps (some b) = search keeps_rules

drain-Keeps : (r : Rounds) → Keeps (drain r)
unfolding drain
drain-Keeps r = drained-Keeps (wait_for_exec_drain r drain_timeout)

module _ (env : Env) where
  begun-Keeps : (r : Rounds) (b : Sandbox × Bool) → Keeps (destroy_begun env r b)
  begun-Keeps r (sb, false) = search keeps_rules
  begun-Keeps r (sb, true) = search (keeps_rules, drain-Keeps, cleanup-Keeps env) depth 10

  found-Keeps : (r : Rounds) (o : Option Sandbox) → Keeps (destroy_found env r o)
  found-Keeps r none = search keeps_rules
  found-Keeps r (some sb) = search (keeps_rules, begun-Keeps) depth 8

  -- The map without the id.
  pub removed :
      (r : Rounds) (id : Str) (w : World)
      → is_empty (trim_space id) ≡ false
      → registry (handle_destroy env r (some id) w).1.server
        ≡ (delete id w.server.sandboxes, w.server.next_sandbox_id)
  unfolding handle_destroy
  removed r id w h = rw h ((found-Keeps r (lookup id w.server.sandboxes)).at _)

  -- Where the id is not in the map, both handlers answer 404.
  destroy_absent :
      (r : Rounds) (id : Str) (w : World)
      → is_empty (trim_space id) ≡ false
      → lookup id w.server.sandboxes ≡ none
      → (handle_destroy env r (some id) w).0 ≡ ok (not_found "sandbox not found")
  unfolding handle_destroy
  destroy_absent r id w h absent = rw h (ap (λ o. (destroy_found env r o (deleted w)).0) absent)
    where
      deleted : World → World
      deleted w = record w { server = set_sandboxes (delete id) w.server }

  exec_absent :
      (body : ExecBody) (w : World)
      → is_empty (trim_space body.sandbox_id) ≡ false
      → lookup body.sandbox_id w.server.sandboxes ≡ none
      → (handle_exec env (some body) w).0 ≡ ok (not_found "sandbox not found")
  unfolding handle_exec
  exec_absent body w h absent = rw h (ap (λ o. (exec_found env body o w).0) absent)

-- A destruction of an id that is not blank takes it out of the map, whatever fails in it, and keeps
-- the other sandboxes; the next destruction of that id and the next command for it answer 404.
pub handle_destroy_removes :
    (env : Env) (r : Rounds) (id : Str) (w : World)
    → is_empty (trim_space id) ≡ false
    → let w' = (handle_destroy env r (some id) w).1 in
      ((other : Str)
        → str_eq other id ≡ false
        → lookup other w'.server.sandboxes ≡ lookup other w.server.sandboxes)
      × ((handle_destroy env r (some id) w').0 ≡ ok (not_found "sandbox not found"))
      × ((body : ExecBody)
          → body.sandbox_id ≡ id
          → (handle_exec env (some body) w').0 ≡ ok (not_found "sandbox not found"))
handle_destroy_removes env r id w h =
    let gone =
      ap (λ g. lookup id g.0) (removed env r id w h) ∙ lookup-delete id w.server.sandboxes in
    (
      λ other apart.
          ap (λ g. lookup other g.0) (removed env r id w h)
          ∙ lookup-delete_other id other w.server.sandboxes apart,
      destroy_absent env r id _ h gone,
      λ body e.
          exec_absent env body _ (ap (λ i. is_empty (trim_space i)) e ∙ h)
            (ap (λ i. lookup i (handle_destroy env r (some id) w).1.server.sandboxes) e ∙ gone),
    )

pub registry-IsWellFormed :
    (s s' : Server) → registry s' ≡ registry s → IsWellFormed s → IsWellFormed s'
registry-IsWellFormed s s' same wf = record {
  entries = subst (λ g. Every (IsEntry g.1) g.0) (sym same) wf.entries;
  distinct = subst (λ g. IsDistinct g.0) (sym same) wf.distinct;
}

deleted-IsWellFormed :
    (k : Str) (s : Server) → IsWellFormed s → IsWellFormed (set_sandboxes (delete k) s)
deleted-IsWellFormed k s wf = record {
  entries = Every-delete (IsEntry s.next_sandbox_id) k s.sandboxes wf.entries;
  distinct = delete-IsDistinct k s.sandboxes wf.distinct;
}

outcome :
    (env : Env) (r : Rounds) (id : Option Str) (w : World)
    → (registry (handle_destroy env r id w).1.server ≡ registry w.server)
      ⊎ ((k : Str) × (registry (handle_destroy env r id w).1.server
            ≡ registry (set_sandboxes (delete k) w.server)))
unfolding handle_destroy
outcome env r none w = inl refl
outcome env r (some id) w = elim (Bool-cases (is_empty (trim_space id))) [
  | inl e ↦ inl (rw e refl)
  | inr e ↦ inr (id, removed env r id w e)
]

-- A destruction keeps the map well formed.
pub handle_destroy-IsWellFormed :
    (env : Env) (r : Rounds) (id : Option Str) (w : World)
    → IsWellFormed w.server
    → IsWellFormed (handle_destroy env r id w).1.server
handle_destroy-IsWellFormed env r id w wf = elim (outcome env r id w) [
  | inl same ↦ registry-IsWellFormed _ _ same wf
  | inr (k, gone) ↦
      registry-IsWellFormed (set_sandboxes (delete k) w.server) _ gone
        (deleted-IsWellFormed k w.server wf)
]

pub handle_destroy_counter :
    (env : Env) (r : Rounds) (id : Option Str) (w : World)
    → (handle_destroy env r id w).1.server.next_sandbox_id ≡ w.server.next_sandbox_id
handle_destroy_counter env r id w = elim (outcome env r id w) [
  | inl same ↦ ap (λ g. g.1) same
  | inr (k, gone) ↦ ap (λ g. g.1) gone
]
