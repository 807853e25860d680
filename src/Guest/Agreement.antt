-- ===== src/Guest/Agreement.antt =====
-- What the host's `handleExec` and the agent's `handle` take for granted of each other.
use manta.Prelude.{
  ℕ, ◌*◌, ◌%◌, ◌<◌, ◌≤◌, arith, ltb, sym, ◌≡◌, ◌≢◌, refl, ap, ◌∙◌, ◌⊎◌, inr, Bool, true, false,
  List, [], ◌∷◌, Option, none, some,
}
use manta.Prelude.Int.{ℤ, pos}
use manta.Text.{Str, lit, str_eq, is_empty}
use manta.Text.Trim.{trim_space, trim_space-trim_space}
use manta.Rpc.{ExecRequest}
use manta.Types.{Config}
use manta.Machine.{Env}
use manta.Guest.{Guest, handle}
use manta.Guest.Exec.{normalize_argv, command_timeout}
use manta.Guest.Network.{Interface}
use manta.Server.{panicked}
use manta.Server.Exec.{ExecBody, agent_request, agent_reply}
use manta.Server.Exec.Timeout.{exec_timeout, milliseconds, exec_timeout-milliseconds}
use manta.Server.Exec.Mode.{run, select_mode, Asks, shell, direct, select_mode-Asks}

-- The command line that the agent runs for a body: a shell with the trimmed command, or the
-- arguments as they are.
abbrev pub command_line : ExecBody → Bool → List Str
command_line body true = lit "/bin/sh" ∷ lit "-lc" ∷ trim_space body.cmd ∷ []
command_line body false = body.argv

-- The agent's reading of a request's payload.
abbrev pub read_by_agent : Option ExecRequest → Option (Str ⊎ List Str)
read_by_agent none = none
read_by_agent (some req) = some (normalize_argv req)

nonempty : (s : Str) → s ≢ [] → is_empty s ≡ false
nonempty [] h = absurd (h refl)
nonempty (c ∷ s) h = refl

asked_line :
    (env : Env) (cfg : Config) (body : ExecBody) (cmd : Str) (argv : List Str)
    (use_shell : Option Bool) (mode : Bool)
    → trim_space body.cmd ≡ cmd
    → body.argv ≡ argv
    → Asks cmd argv use_shell mode
    → read_by_agent (agent_request env cfg body mode).exec ≡ some (inr (command_line body mode))
unfolding normalize_argv
asked_line env cfg body cmd argv us mode c a (shell _ _ given allowed) =
    let trimmed = trim_space-trim_space body.cmd in
    let there : is_empty (trim_space body.cmd) ≡ false = ap is_empty c ∙ nonempty cmd given in
    rw (trimmed, there) refl
asked_line env cfg body cmd argv us mode c a (direct x xs _ allowed) = rw a refl

-- A body that the host accepts in a mode reaches the agent as a request that it accepts too, and the
-- command line that it runs is the shell with the trimmed command or the arguments of the body.
pub select_mode-normalize_argv :
    (env : Env) (cfg : Config) (body : ExecBody) (mode : Bool)
    → select_mode (trim_space body.cmd) body.argv body.use_shell ≡ run mode
    → read_by_agent (agent_request env cfg body mode).exec ≡ some (inr (command_line body mode))
select_mode-normalize_argv env cfg body mode e =
    asked_line env cfg body (trim_space body.cmd) body.argv body.use_shell mode refl refl
      ((select_mode-Asks (trim_space body.cmd) body.argv body.use_shell mode).0 e)

-- The agent answers the host's request with a payload, so the host's reply to an answer that is not
-- an error is never the panic on a missing one.
pub handle-agent_reply :
    (env : Env) (cfg : Config) (body : ExecBody) (mode : Bool) (g : Guest) (i : Interface)
    → agent_reply env (handle g (agent_request env cfg body mode) i).0.exec ≢ panicked
unfolding handle str_eq
handle-agent_reply env cfg body mode g i e = cc

-- A timeout of 1 to 9223372036854 ms in a body stands in the request that the host makes of it for
-- the agent, and the agent gives the command that many milliseconds, in nanoseconds.
pub agent_request-command_timeout :
    (env : Env) (cfg : Config) (body : ExecBody) (mode : Bool) (ms : ℕ) (req : ExecRequest)
    → body.timeout_ms ≡ pos ms
    → 0 < ms
    → ms ≤ 9223372036854
    → (agent_request env cfg body mode).exec ≡ some req
    → (req.timeout_ms ≡ pos ms) × (command_timeout req.timeout_ms ≡ pos (ms * 1000000))
agent_request-command_timeout env cfg body mode ms req asked some_time fits sent =
    let made : milliseconds (exec_timeout cfg.exec_timeout body.timeout_ms) ≡ req.timeout_ms =
      ap timeout_in sent in
    let same : req.timeout_ms ≡ pos ms =
      sym made
      ∙ ap (λ t. milliseconds (exec_timeout cfg.exec_timeout t)) asked
      ∙ exec_timeout-milliseconds cfg.exec_timeout ms some_time fits in
    (same, ap command_timeout same ∙ command_timeout-pos ms some_time fits)
  where
    timeout_in : Option ExecRequest → ℤ
    timeout_in none = pos 0
    timeout_in (some r) = r.timeout_ms

    command_timeout-pos :
        (ms : ℕ) → 0 < ms → ms ≤ 9223372036854 → command_timeout (pos ms) ≡ pos (ms * 1000000)
    command_timeout-pos ms some_time fits =
        let exact : (ms * 1000000) % 18446744073709551616 ≡ ms * 1000000 = omega arith in
        let small : ltb (ms * 1000000) 9223372036854775808 ≡ true = ground arith in
        let positive : ltb 0 (ms * 1000000) ≡ true = ground arith in
        rw (exact, small, positive) refl
