-- ===== src/Lifecycle/Interleaving.antt =====
-- Any number of `handleExec` and `handleDestroy` calls on one sandbox, interleaved. A call moves
-- from one critical section of `lifecycleMu` to the next.
use manta.Prelude.{◌≡◌, Bool, true, false, List, [], ◌∷◌, none, some, replace}
use manta.Types.{Sandbox, running}
use manta.Lifecycle.{
  try_start_exec, finish_exec, begin_destroy, current_in_flight_exec, finish_destroy,
}

-- A call of `handleExec`: before `tryStartExec`, refused by it, between it and `finishExec`, after.
pub data ExecCall : Type 0 where
  arrived refused executing answered : ExecCall

-- A call of `handleDestroy`. `cleaning` and `ended` say whether the drain was complete.
pub data DestroyCall : Type 0 where
  arrived refused draining : DestroyCall
  cleaning ended : Bool → DestroyCall

pub record System : Type 0 where
  pub sandbox : Sandbox
  pub execs : List ExecCall
  pub destroys : List DestroyCall

pub data Step : System → System → Type 0 where
  exec_arrives : (s : System) → Step s (record s { execs = ExecCall.arrived ∷ s.execs })
  destroy_arrives : (s : System) → Step s (record s { destroys = DestroyCall.arrived ∷ s.destroys })
  exec_starts :
      (s : System) (before after : List ExecCall) (sb : Sandbox)
      → s.execs ≡ replace before ExecCall.arrived after
      → try_start_exec s.sandbox ≡ some sb
      → Step s (record s { sandbox = sb; execs = replace before executing after })
  exec_refused :
      (s : System) (before after : List ExecCall)
      → s.execs ≡ replace before ExecCall.arrived after
      → try_start_exec s.sandbox ≡ none
      → Step s (record s { execs = replace before ExecCall.refused after })
  exec_finishes :
      (s : System) (before after : List ExecCall)
      → s.execs ≡ replace before executing after
      → Step s (record s { sandbox = finish_exec s.sandbox; execs = replace before answered after })
  destroy_begins :
      (s : System) (before after : List DestroyCall) (sb : Sandbox)
      → s.destroys ≡ replace before DestroyCall.arrived after
      → begin_destroy s.sandbox ≡ (sb, true)
      → Step s (record s { sandbox = sb; destroys = replace before draining after })
  destroy_refused :
      (s : System) (before after : List DestroyCall) (sb : Sandbox)
      → s.destroys ≡ replace before DestroyCall.arrived after
      → begin_destroy s.sandbox ≡ (sb, false)
      → Step s (record s { sandbox = sb; destroys = replace before DestroyCall.refused after })
  drain_ends :
      (s : System) (before after : List DestroyCall)
      → s.destroys ≡ replace before draining after
      → current_in_flight_exec s.sandbox ≡ 0
      → Step s (record s { destroys = replace before (cleaning true) after })
  drain_times_out :
      (s : System) (before after : List DestroyCall)
      → s.destroys ≡ replace before draining after
      → Step s (record s { destroys = replace before (cleaning false) after })
  destroy_finishes :
      (s : System) (before after : List DestroyCall) (drained : Bool)
      → s.destroys ≡ replace before (cleaning drained) after
      → Step s (record s {
        sandbox = finish_destroy s.sandbox;
        destroys = replace before (ended drained) after;
      })

abbrev pub init : Sandbox → System
init sb = record {
  sandbox = record sb { state = running; in_flight_exec = 0 };
  execs = [];
  destroys = [];
}

pub data Reach (sb : Sandbox) : System → Type 0 where
  start : Reach sb (init sb)
  later : {s t : System} → Reach sb s → Step s t → Reach sb t
