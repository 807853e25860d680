-- ===== src/Server/Keeps.antt =====
-- What a command leaves of the sandboxes: all but their connection to the agent.
use manta.Prelude.{
  ℕ, zero, suc, ◌≡◌, refl, ◌∙◌, ap, sym, inl, inr, Bool, true, false, Option, none, some, arith,
  if◌then◌else◌, Bool-cases,
}
use manta.Text.{Str, is_empty}
use manta.Text.Trim.{trim_space}
use manta.Rpc.{Request, Response}
use manta.Types.{Config, Server, Sandbox}
use manta.Machine.{Env, Result, ok, err, World, M, catch, continue, ignore, ◌>>=◌, ◌>>◌, sleep}
use manta.Machine.Keeps.{Keeps, Keeps-raise, keeps_rules}
use manta.Agent.Keeps.{dial-Keeps, call-Keeps}
use manta.Lifecycle.{try_start_exec, finish_exec, finish_exec-try_start_exec}
use manta.Server.{Reply, modify_sandbox}
use manta.Server.Registry.{
  Table, lookup, update, map_values, map_values-update, map_values-update_hidden, update_back,
  lookup-map_values,
}
use manta.Server.Exec.{
  ExecBody, set_agent, ssh_round, ssh_retry, ssh_loop, wait_for_exec_ssh, ssh_reply, exec_ssh,
  redial, connection, call_again, exec_agent, replied, over_ssh, dispatch, exec_chosen,
  exec_command, exec_started, exec_found, handle_exec,
}
use manta.Server.Exec.Mode.{Choice, refuse, run}

-- A sandbox without its connection to the agent.
abbrev pub view : Sandbox → Sandbox
view sb = record sb { agent = none }

abbrev pub views : Server → Table Sandbox × ℕ
views s = (map_values view s.sandboxes, s.next_sandbox_id)

pub record Preserves {A : Type 0} (m : M A) : Type 0 where
  pub at : (w : World) → views (m w).1.server ≡ views w.server

pub Keeps-Preserves : {A : Type 0} (m : M A) → Keeps m → Preserves m
Keeps-Preserves m k = record { at = λ w. ap (λ r. (map_values view r.0, r.1)) (k.at w) }

pub Preserves-bind :
    {A B : Type 0} (m : M A) (k : A → M B)
    → Preserves m
    → ((a : A) → Preserves (k a))
    → Preserves (m >>= k)
Preserves-bind {A} {B} m k sm sk = record { at = λ w. next (m w).0 (m w).1 w (sm.at w) }
  where
    next :
        (r : Result A) (w' w : World)
        → views w'.server ≡ views w.server
        → views (continue r k w').1.server ≡ views w.server
    next (ok a) w' w h = (sk a).at w' ∙ h
    next (err e) w' w h = h

pub Preserves-if :
    {A : Type 0} (b : Bool) (m k : M A) → Preserves m → Preserves k → Preserves (if b then m else k)
Preserves-if true m k sm sk = sm
Preserves-if false m k sm sk = sk

pub Preserves-catch : {A : Type 0} (m : M A) → Preserves m → Preserves (catch m)
Preserves-catch m sm = record { at = sm.at }

pub ruleset preserves_rules = (Preserves-bind, Preserves-if, Preserves-catch, Keeps-Preserves)

pub set_agent-Preserves : (id : Str) (c : Option ℕ) → Preserves (modify_sandbox id (set_agent c))
unfolding modify_sandbox
set_agent-Preserves id c = record {
  at = λ w.
      ap (λ l. (l, w.server.next_sandbox_id))
        (map_values-update_hidden view id (set_agent c) w.server.sandboxes (λ sb. refl));
}

module _ (env : Env) where
  ssh_round-Keeps :
      (ip : Str) (until : ℕ) (again : M (Unit {0}))
      → Keeps again
      → Keeps (ssh_round env ip until again)
  ssh_round-Keeps ip until again h = search keeps_rules depth 12

  ssh_pause-Keeps :
      (rest : M (Unit {0})) → Keeps rest → Keeps (ignore env (sleep ssh_retry) >> rest)
  ssh_pause-Keeps rest h = search keeps_rules depth 10

  ssh_loop-Keeps : (ip : Str) (until fuel : ℕ) → Keeps (ssh_loop env ip until fuel)
  unfolding ssh_loop
  ssh_loop-Keeps ip until zero = ssh_round-Keeps ip until _ (Keeps-raise _)
  ssh_loop-Keeps ip until (suc fuel) =
      ssh_round-Keeps ip until (ignore env (sleep ssh_retry) >> ssh_loop env ip until fuel)
        (ssh_pause-Keeps (ssh_loop env ip until fuel) (ssh_loop-Keeps ip until fuel))

  reply-Keeps : (out : Str × Str × ℕ) → Keeps (ssh_reply env out)
  reply-Keeps (out, errors, code) = search keeps_rules

  ssh-Keeps : (cfg : Config) (ip cmd : Str) → Keeps (exec_ssh env cfg ip cmd)
  unfolding exec_ssh wait_for_exec_ssh
  ssh-Keeps cfg ip cmd = search (keeps_rules, ssh_loop-Keeps, reply-Keeps) depth 15

  redial-Preserves : (cfg : Config) (id : Str) (sb : Sandbox) → Preserves (redial env cfg id sb)
  unfolding redial
  redial-Preserves cfg id sb =
      search (preserves_rules, keeps_rules, dial-Keeps env, set_agent-Preserves) depth 12

  connection-Preserves :
      (cfg : Config) (id : Str) (sb : Sandbox) (c : Option ℕ)
      → Preserves (connection env cfg id sb c)
  connection-Preserves cfg id sb none = redial-Preserves cfg id sb
  connection-Preserves cfg id sb (some c) = search (preserves_rules, keeps_rules)

  again-Preserves :
      (cfg : Config) (id : Str) (sb : Sandbox) (req : Request) (c : ℕ) (r : Result Response)
      → Preserves (call_again env cfg id sb req c r)
  again-Preserves cfg id sb req c (ok resp) = search (preserves_rules, keeps_rules)
  again-Preserves cfg id sb req c (err e) =
      search (preserves_rules, keeps_rules, set_agent-Preserves, redial-Preserves, call-Keeps env)
        depth 12

  agent-Preserves :
      (cfg : Config) (id : Str) (sb : Sandbox) (req : Request)
      → Preserves (exec_agent env cfg id sb req)
  unfolding exec_agent
  agent-Preserves cfg id sb req =
      search (preserves_rules, keeps_rules, connection-Preserves, again-Preserves, call-Keeps env)
        depth 12

  replied-Keeps : (r : Result Reply) → Keeps (replied env r)
  replied-Keeps (ok reply) = search keeps_rules
  replied-Keeps (err e) = search keeps_rules

  over_ssh-Keeps :
      (cfg : Config) (body : ExecBody) (sb : Sandbox) (mode : Bool)
      → Keeps (over_ssh env cfg body sb mode)
  over_ssh-Keeps cfg body sb true = search (keeps_rules, ssh-Keeps, replied-Keeps) depth 10
  over_ssh-Keeps cfg body sb false = search keeps_rules

  dispatch-Preserves :
      (cfg : Config) (body : ExecBody) (sb : Sandbox) (mode : Bool)
      → Preserves (dispatch env cfg body sb mode)
  unfolding dispatch
  dispatch-Preserves cfg body sb mode =
      search (preserves_rules, keeps_rules, over_ssh-Keeps, agent-Preserves, replied-Keeps) depth 15

  chosen-Preserves :
      (cfg : Config) (body : ExecBody) (sb : Sandbox) (c : Choice)
      → Preserves (exec_chosen env cfg body sb c)
  chosen-Preserves cfg body sb (refuse text) = search (preserves_rules, keeps_rules)
  chosen-Preserves cfg body sb (run mode) = dispatch-Preserves cfg body sb mode

  command-Preserves : (body : ExecBody) (sb : Sandbox) → Preserves (exec_command env body sb)
  unfolding exec_command
  command-Preserves body sb = search (preserves_rules, keeps_rules, chosen-Preserves) depth 10

view-finish_exec : (sb : Sandbox) → view (finish_exec sb) ≡ finish_exec (view sb)
unfolding finish_exec
view-finish_exec sb = ground arith

-- The count of a sandbox goes up by a command's start and down again by its end.
restored :
    (l : Table Sandbox) (id : Str) (sb sb' : Sandbox)
    → lookup id l ≡ some sb
    → try_start_exec sb ≡ some sb'
    → update id finish_exec (map_values view (update id (λ _. sb') l)) ≡ map_values view l
restored l id sb sb' found started =
    ap (update id finish_exec) (map_values-update view id (λ _. sb') (λ _. view sb') l (λ _. refl))
    ∙ update_back id (λ _. view sb') finish_exec (view sb) (map_values view l)
        (lookup-map_values view id sb l found)
        (sym (view-finish_exec sb') ∙ ap view (finish_exec-try_start_exec sb sb' started))

module _ (env : Env) where
  started-Preserves :
      (body : ExecBody) (sb : Sandbox) (o : Option Sandbox) (w : World)
      → lookup body.sandbox_id w.server.sandboxes ≡ some sb
      → try_start_exec sb ≡ o
      → views (exec_started env body o w).1.server ≡ views w.server
  unfolding modify_sandbox
  started-Preserves body sb none w found started = refl
  started-Preserves body sb (some sb') w found started =
      let w1 = (modify_sandbox body.sandbox_id (λ _. sb') w).1 in
      let w2 = (exec_command env body sb' w1).1 in
      let same : views w2.server ≡ views w1.server = (command-Preserves env body sb').at w1 in
      ap (λ l. (l, w2.server.next_sandbox_id))
        (map_values-update view body.sandbox_id finish_exec finish_exec w2.server.sandboxes
          view-finish_exec)
      ∙ (ap (λ v. (update body.sandbox_id finish_exec v.0, v.1)) same
          ∙ ap (λ l. (l, w.server.next_sandbox_id))
              (restored w.server.sandboxes body.sandbox_id sb sb' found started))

  found-Preserves :
      (body : ExecBody) (o : Option Sandbox) (w : World)
      → lookup body.sandbox_id w.server.sandboxes ≡ o
      → views (exec_found env body o w).1.server ≡ views w.server
  found-Preserves body none w found = refl
  found-Preserves body (some sb) w found =
      started-Preserves body sb (try_start_exec sb) w found refl

-- Whatever a command meets (a refusal, a transport that fails, a broken connection that is dialled
-- again, a panic), at its end every sandbox is as it was but for its connection to the agent: the
-- same map, the same states, and the counts of running commands as before.
pub handle_exec_restores :
    (env : Env) (body : Option ExecBody) (w : World)
    → views (handle_exec env body w).1.server ≡ views w.server
unfolding handle_exec
handle_exec_restores env none w = refl
handle_exec_restores env (some body) w = elim (Bool-cases (is_empty (trim_space body.sandbox_id))) [
  | inl e ↦ rw e refl
  | inr e ↦ rw e (found-Preserves env body _ w refl)
]
