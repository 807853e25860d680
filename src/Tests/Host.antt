-- ===== src/Tests/Host.antt =====
-- Runs of the theorems on the server's code.
use native.Mathlib.Nat.{le_refl}
use manta.Prelude.{
  ℕ, ◌+◌, ◌^◌, ◌<◌, ◌≡◌, refl, true, false, List, [], ◌∷◌, none, some, arith, ◌≢◌, ◌≤◌, inr, All,
  length,
}
use manta.Prelude.Int.{ℤ, pos}
use manta.Text.{Str, lit, has_prefix, str_eq, is_empty}
use manta.Text.Trim.{trim_space}
use manta.Machine.{Error, ok, Op, Trace, dial_unix}
use manta.Machine.Debt.{Owes, left}
use manta.Lifecycle.Drain.{
  IsTimed, Explained, wait_for_exec_drain, wait_for_exec_drain-Explained, drain_timeout,
}
use manta.Agent.{wait_for_agent_ready}
use manta.Agent.Clock.{IsClock}
use manta.Agent.Haste.{IsPrompt}
use manta.Agent.Answer.{IsUp, Connects, wait_for_agent_ready-Connects, is_talk}
use manta.Agent.Ready.{Returns, wait_for_agent_ready-Returns}
use manta.Sandbox.Processes.{processes, is_started, is_kill_of}
use manta.Sandbox.Create.{create_fresh}
use manta.Sandbox.Create.Failure.{create_fresh_leaves_no_process}
use manta.Sandbox.Restore.{restore_sandbox, wait_for_unix_socket, load_snapshot_with_retry}
use manta.Process.{remove_cgroup_dir}
use manta.Server.Waits.{waits_end}
use manta.Sandbox.Restore.Failure.{restore_leaves_no_process}
use manta.Server.{
  Reply, created, executed, failed, not_found, bad_request, sandbox_id, handle_create,
  handle_destroy, status,
}
use manta.Server.Registry.{lookup}
use manta.Server.Exec.{ExecBody, handle_exec, wait_for_exec_ssh}
use manta.Server.Exec.Mode.{select_mode}
use manta.Server.Keeps.{views, handle_exec_restores}
use manta.Server.Invariant.{IsWellFormed, CreateOutcome, handle_create-Outcome}
use manta.Server.Invariant.Removal.{handle_destroy_removes}
use manta.Server.Invariant.Command.{
  Call, creates, execs, destroys, snapshots, restores, deletes, serve_all, serve_all-IsWellFormed,
  creations,
}
use manta.Server.UserSnapshot.{create_user_snapshot}
use manta.Server.UserSnapshot.Ids.{
  normalize_snapshot_id, normalize_snapshot_id_lem, matches_id, all_id_bytes,
}
use manta.Server.UserSnapshot.Resume.{is_resumed, reaches, create_user_snapshot_resumes}
use manta.Machine.Trace.{count}
use manta.Machine.Counts.{cost}
use manta.Server.Destroy.{handle_destroy_kills}
use manta.Tests.Fixtures.{
  host, slept, always, no_socket, no_send, cfg, box, empty, one_box, two_rounds, late_socket,
}

abbrev hi : ExecBody
hi = record {
  sandbox_id = lit "sb-1";
  cmd = lit " echo hi ";
  argv = [];
  use_shell = none;
  timeout_ms = pos 1500;
}

two_rounds-IsTimed : IsTimed two_rounds
two_rounds-IsTimed = record { first = le_refl _; sleeps = λ k. le_refl _ }

host-IsClock : IsClock (host no_socket)
host-IsClock = record { forward = λ tr e. omega arith; sleeps = λ tr d done. le_refl _ }

late-IsClock : IsClock (host late_socket)
late-IsClock = record { forward = λ tr e. omega arith; sleeps = λ tr d done. le_refl _ }

late-IsPrompt : IsPrompt (host late_socket) 0
late-IsPrompt = record { within = λ tr e. omega arith }

late-IsUp : IsUp (host late_socket) 25000000
unfolding has_prefix
late-IsUp = record { listens = takes; greets = λ tr h. refl; replies = λ tr h. refl }
  where
    takes :
        (tr : Trace) (op : Op) → is_talk op ≡ true → 25000000 ≤ slept tr → late_socket tr op ≡ true
    takes tr (dial_unix path) t h = ground arith
    takes tr op t h = refl

empty-IsWellFormed : IsWellFormed empty.server
empty-IsWellFormed = record { entries = tt; distinct = tt }

-- A command runs, and a broken connection is dialled again in vain.
exec_runs : (handle_exec (host always) (some hi) one_box).0 ≡ ok (executed (lit "hi") [] (pos 0))
unfolding handle_exec trim_space lookup str_eq manta.Lifecycle.try_start_exec
    manta.Server.modify_sandbox manta.Server.Exec.exec_command select_mode
    manta.Server.Exec.dispatch manta.Server.Exec.exec_agent manta.Agent.call
exec_runs = refl

exec_fails : (handle_exec (host no_send) (some hi) one_box).0 ≡ ok (failed Error.agent_write)
unfolding handle_exec trim_space lookup str_eq manta.Lifecycle.try_start_exec
    manta.Server.modify_sandbox manta.Server.Exec.exec_command select_mode
    manta.Server.Exec.dispatch manta.Server.Exec.exec_agent manta.Agent.call
    manta.Server.Exec.redial manta.Agent.dial_agent manta.Text.has_prefix
exec_fails = refl

not_blank : is_empty (trim_space (lit "sb-1")) ≡ false
unfolding trim_space
not_blank = refl

found_box : lookup (lit "sb-1") one_box.server.sandboxes ≡ some box
unfolding lookup str_eq
found_box = refl

handle_exec_restores_example :
    views (handle_exec (host no_send) (some hi) one_box).1.server ≡ views one_box.server
handle_exec_restores_example = handle_exec_restores (host no_send) (some hi) one_box

abbrev requests : List Call
requests =
    creates
    ∷ execs (some hi)
    ∷ snapshots (some (lit "sb-1", lit "n"))
    ∷ restores (some (lit "us-1"))
    ∷ deletes (some (lit "us-1"))
    ∷ destroys two_rounds (some (lit "sb-1"))
    ∷ creates
    ∷ []

few_creations : empty.server.next_sandbox_id + creations requests < 2 ^ 64
unfolding creations
few_creations = omega arith

serve_all-IsWellFormed_example : IsWellFormed (serve_all (host always) requests empty).server
serve_all-IsWellFormed_example =
    serve_all-IsWellFormed (host always) requests empty empty-IsWellFormed few_creations

handle_create-Outcome_example :
    CreateOutcome empty.server
      (handle_create (host always) empty).1.server
      (handle_create (host always) empty).0
    × ((handle_create (host always) empty).1.server.next_sandbox_id ≡ 1)
handle_create-Outcome_example =
    handle_create-Outcome (host always) empty empty-IsWellFormed (omega arith)

handle_destroy_kills_example :
    let w' = (handle_destroy (host always) two_rounds (some (lit "sb-1")) one_box).1 in
    (count is_started w'.trace ≡ count is_started one_box.trace)
    × (count (is_kill_of 4242) w'.trace ≡ count (is_kill_of 4242) one_box.trace + 1)
handle_destroy_kills_example =
    handle_destroy_kills (host always) two_rounds (lit "sb-1") box 4242 one_box two_rounds-IsTimed
      not_blank found_box refl refl

handle_destroy_removes_example :
    let w' = (handle_destroy (host always) two_rounds (some (lit "sb-1")) one_box).1 in
    ((other : Str)
      → str_eq other (lit "sb-1") ≡ false
      → lookup other w'.server.sandboxes ≡ lookup other one_box.server.sandboxes)
    × ((handle_destroy (host always) two_rounds (some (lit "sb-1")) w').0
        ≡ ok (not_found "sandbox not found"))
    × ((body : ExecBody)
        → body.sandbox_id ≡ lit "sb-1"
        → (handle_exec (host always) (some body) w').0 ≡ ok (not_found "sandbox not found"))
handle_destroy_removes_example =
    handle_destroy_removes (host always) two_rounds (lit "sb-1") one_box not_blank

create_fresh_leaves_no_process_example :
    Owes processes 0
      (left 1 (create_fresh (host no_socket) cfg (lit "sb-1") empty).0)
      empty.trace
      (create_fresh (host no_socket) cfg (lit "sb-1") empty).1.trace
create_fresh_leaves_no_process_example =
    create_fresh_leaves_no_process (host no_socket) cfg (lit "sb-1") empty

restore_leaves_no_process_example :
    Owes processes 0
      (left 1
        (restore_sandbox
          (host no_send)
          cfg
          (lit "sb-1")
          (lit "/d")
          (lit "/s")
          (lit "/m")
          false
          empty).0)
      empty.trace
      (restore_sandbox
        (host no_send)
        cfg
        (lit "sb-1")
        (lit "/d")
        (lit "/s")
        (lit "/m")
        false
        empty).1.trace
restore_leaves_no_process_example =
    restore_leaves_no_process (host no_send) cfg (lit "sb-1") (lit "/d") (lit "/s") (lit "/m") false
      empty

wait_for_agent_ready-Returns_example :
    Returns
      (wait_for_agent_ready
        (host no_socket)
        (lit "/v")
        (pos 7777)
        (pos 30000000)
        (pos 1000000)
        empty).0
wait_for_agent_ready-Returns_example =
    wait_for_agent_ready-Returns host-IsClock (lit "/v") (pos 7777) (pos 30000000) (pos 1000000)
      empty

wait_for_agent_ready-Connects_example : Connects late-IsClock late-IsUp late-IsPrompt 35000000 (
    wait_for_agent_ready
      (host late_socket)
      (lit "/v")
      (pos 7777)
      (pos 60000000)
      (pos 1000000)
      empty)
unfolding trim_space
wait_for_agent_ready-Connects_example =
    wait_for_agent_ready-Connects late-IsClock late-IsUp late-IsPrompt (lit "/v") (pos 7777)
      (pos 1000000) refl refl 35000000 60000000 empty (omega arith) (omega arith) (omega arith)

wait_for_exec_drain-Explained_example :
    Explained two_rounds (5 + drain_timeout) (wait_for_exec_drain two_rounds drain_timeout)
wait_for_exec_drain-Explained_example =
    wait_for_exec_drain-Explained two_rounds two_rounds-IsTimed drain_timeout

names_directory : normalize_snapshot_id (lit " us-1 ") ≡ inr (lit "us-1")
unfolding normalize_snapshot_id trim_space matches_id all_id_bytes
names_directory = refl

normalize_snapshot_id_lem_example :
    All (λ c. c ≢ 47) (lit "us-1")
    × (lit "us-1" ≢ lit ".")
    × (lit "us-1" ≢ lit "..")
    × (length (lit "us-1") ≤ 128)
    × (lit "us-1" ≢ [])
normalize_snapshot_id_lem_example =
    normalize_snapshot_id_lem (lit " us-1 ") (lit "us-1") names_directory

create_user_snapshot_resumes_example :
    count is_resumed one_box.trace
      + cost reaches 1
          (create_user_snapshot (host always) cfg (lit "sb-1") box (lit "us-1") (lit "n") one_box).0
    ≤ count is_resumed
        (create_user_snapshot
          (host always)
          cfg
          (lit "sb-1")
          box
          (lit "us-1")
          (lit "n")
          one_box).1.trace
create_user_snapshot_resumes_example =
    create_user_snapshot_resumes (host always) cfg (lit "sb-1") box (lit "us-1") (lit "n") one_box

waits_end_example :
    ((path : Str) → Returns (wait_for_unix_socket (host no_socket) path empty).0)
    × ((socket state mem : Str)
        → Returns (load_snapshot_with_retry (host no_socket) socket state mem empty).0)
    × ((path : Str) (timeout : ℕ)
        → Returns (remove_cgroup_dir (host no_socket) path timeout empty).0)
    × ((ip : Str) (timeout : ℤ) → Returns (wait_for_exec_ssh (host no_socket) ip timeout empty).0)
waits_end_example = waits_end host-IsClock empty
