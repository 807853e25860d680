-- ===== src/Lifecycle.antt =====
-- cmd/server/sandbox_lifecycle.go: the state of a sandbox and its count of running commands. Each
-- function is one critical section of `lifecycleMu`.
pub mod Interleaving
pub mod Safety
pub mod Drain
use manta.Prelude.{
  ℕ, ◌+◌, ◌-◌, ◌≡◌, refl, Bool, true, false, Option, none, some, arith, ltb, if◌then◌else◌,
}
use manta.Types.{Sandbox, SandboxState, running, closing, closed}

abbrev pub is_running : SandboxState → Bool
is_running running = true
is_running closing = false
is_running closed = false

-- none is the error "sandbox is closing"; the sandbox is then as it was.
unfoldable pub try_start_exec : Sandbox → Option Sandbox
try_start_exec sb =
    if is_running sb.state
    then some (record sb { in_flight_exec = sb.in_flight_exec + 1 })
    else none

unfoldable pub finish_exec : Sandbox → Sandbox
finish_exec sb =
    if ltb 0 sb.in_flight_exec then record sb { in_flight_exec = sb.in_flight_exec - 1 } else sb

unfoldable pub begin_destroy : Sandbox → Sandbox × Bool
begin_destroy sb =
    if is_running sb.state then (record sb { state = closing }, true) else (sb, false)

unfoldable pub current_in_flight_exec : Sandbox → ℕ
current_in_flight_exec sb = sb.in_flight_exec

unfoldable pub finish_destroy : Sandbox → Sandbox
finish_destroy sb = record sb { state = closed }

-- A command that starts and finishes leaves the sandbox as it was.
pub finish_exec-try_start_exec :
    (sb sb' : Sandbox) → try_start_exec sb ≡ some sb' → finish_exec sb' ≡ sb
unfolding try_start_exec finish_exec
finish_exec-try_start_exec sb sb' e = ground arith

-- Once a sandbox is to be destroyed, no command starts and no second destruction begins.
pub begin_destroy_once :
    (sb sb' : Sandbox)
    → begin_destroy sb ≡ (sb', true)
    → (try_start_exec sb' ≡ none)
      × (begin_destroy sb' ≡ (sb', false))
      × (sb'.in_flight_exec ≡ sb.in_flight_exec)
unfolding begin_destroy try_start_exec
begin_destroy_once sb sb' e = ground arith
