-- ===== src/Tests/Interleavings.antt =====
-- Runs of the theorems on a sandbox that several calls use.
use manta.Prelude.{◌≤◌, ◌<◌, ◌≡◌, refl, ◌↔◌, true, [], ◌∷◌, none, some, total, arith}
use manta.Types.{Sandbox, running, closing}
use manta.Lifecycle.{try_start_exec, finish_exec, begin_destroy, current_in_flight_exec}
use manta.Lifecycle.Interleaving.{
  System, Reach, init, start, later, exec_arrives, exec_starts, exec_finishes, destroy_arrives,
  destroy_begins, drain_ends, ExecCall, DestroyCall, executing, answered, draining, cleaning,
}
use manta.Lifecycle.Safety.{
  runs, begun, drained, in_flight-counts, destroy_at_most_once, no_exec_after_drain,
}
use manta.Tests.Fixtures.{box}

abbrev busy_box : Sandbox
busy_box = record box { in_flight_exec = 1 }

abbrev closing_box : Sandbox
closing_box = record box { state = closing }

abbrev closing_busy : Sandbox
closing_busy = record box { state = closing; in_flight_exec = 1 }

abbrev running_exec : System
running_exec = record { sandbox = busy_box; execs = executing ∷ []; destroys = [] }

abbrev waiting : System
waiting = record { sandbox = closing_busy; execs = executing ∷ []; destroys = draining ∷ [] }

abbrev waited : System
waited = record { sandbox = closing_box; execs = answered ∷ []; destroys = draining ∷ [] }

abbrev cleaned : System
cleaned = record { sandbox = closing_box; execs = answered ∷ []; destroys = cleaning true ∷ [] }

running_exec-Reach : Reach box running_exec
unfolding try_start_exec
running_exec-Reach = later (later start (exec_arrives (init box))) (
    exec_starts (record { sandbox = box; execs = ExecCall.arrived ∷ []; destroys = [] }) [] []
      busy_box refl refl)

waiting-Reach : Reach box waiting
unfolding begin_destroy
waiting-Reach = later (later running_exec-Reach (destroy_arrives running_exec)) (
    destroy_begins
      (record { sandbox = busy_box; execs = executing ∷ []; destroys = DestroyCall.arrived ∷ [] })
      [] [] closing_busy refl refl)

cleaned-Reach : Reach box cleaned
unfolding finish_exec current_in_flight_exec
cleaned-Reach =
    later (later waiting-Reach (exec_finishes waiting [] [] refl))
      (drain_ends waited [] [] refl refl)

one_drained : 0 < total drained cleaned.destroys
unfolding total
one_drained = omega arith

no_exec_after_drain_example : (total runs cleaned.execs ≡ 0) × (try_start_exec closing_box ≡ none)
no_exec_after_drain_example = no_exec_after_drain cleaned-Reach one_drained

destroy_at_most_once_example :
    (total begun waiting.destroys ≤ 1)
    × ((total begun waiting.destroys ≡ 0) ↔ (closing_busy.state ≡ running))
destroy_at_most_once_example = destroy_at_most_once waiting-Reach

in_flight-counts_example : busy_box.in_flight_exec ≡ total runs running_exec.execs
in_flight-counts_example = in_flight-counts running_exec-Reach

starts : try_start_exec box ≡ some busy_box
unfolding try_start_exec
starts = refl
