-- ===== src/Lib.antt =====
-- Verification library of Manta, an orchestrator of Firecracker sandboxes.
--
-- The program has a host, `cmd/server`, and an agent in each guest, `cmd/agent`; they exchange the
-- messages of `internal/agentrpc`. Two clients, `cmd/bench` and `cmd/bench_restore`, measure it.
-- The host's HTTP handlers create, use and destroy sandboxes; a sandbox has a directory, a network
-- from the pool or on demand, a cgroup, a Firecracker process and a connection to the agent. The
-- model follows the files of the program:
--
--   Types          cmd/server/types.go: the structs of the server, field by field.
--   Machine        The world that the host's code runs in. `World` is the server's state and the trace
--                  of the calls to the operating system, the processes and the guests; an `Env` answers
--                  each call, which may depend on the whole trace; `M` is code that changes the world
--                  and may return an error, with Go's `defer` as `finally` and `on_error`. Its children
--                  are rules on such code: Counts and Silence count calls, Debt follows what is taken
--                  and given back, Keeps and Yields are on the map of sandboxes and on results.
--   Lifecycle      cmd/server/sandbox_lifecycle.go; Interleaving and Safety run any number of handlers
--                  on one sandbox in any order, Drain is the loop of waitForExecDrain.
--   Netns          cmd/server/netns.go, netns_util.go, netns_pool.go and netns_alloc.go.
--   Agent          cmd/server/agent.go: dialAgent, Call and waitForAgentReady. Clock and Haste have what
--                  its loop relies on of time, Answer what it relies on of a guest that is up.
--   Process        cmd/server/procutil.go and cgroup.go.
--   Sandbox        cmd/server/sandbox.go (Create, Cleanup) and restore.go (Restore).
--   Snapshot       cmd/server/snapshot.go: ensureSnapshot and what it calls. Current says when a
--                  snapshot fits the configuration; Golden and Boots follow the golden machine.
--   Server         cmd/server/handlers.go: handleCreate, handleExec (Exec) and handleDestroy, with
--                  destroyAll and the shutdown of main.go; Registry is the map of sandboxes,
--                  Invariant what the handlers keep of it, Creation the processes that a
--                  creation leaves, UserSnapshot cmd/server/user_snapshot.go.
--   Rpc            internal/agentrpc/agentrpc.go: the structs, and in Frame the framing of messages.
--   Guest          cmd/agent/main.go: handle, runExec, normalizeArgv and configureNetwork, and in Serve
--                  the loop serveConn on a connection.
--   Firecracker    cmd/server/firecracker_api.go and vm_config.go: what is sent to Firecracker.
--   Startup        The startup of cmd/server/main.go: Load is config.go, Preflight has preflight.go,
--                  iptables.go, diagnostics.go and the startup part of cgroup.go.
--   Bench          cmd/bench (Exec) and cmd/bench_restore (Restore) with their HTTP client, Percentile
--                  their summaries; OnServer has the clients answered by the handlers of Server.
--   Prelude, Text  Shared names and lists; Go strings as bytes, TrimSpace and the decimal formats.
--   Tests          Concrete worlds and runs on them.
--
-- Numbers are natural numbers where the source's are never negative, and ℤ elsewhere; a counter keeps
-- its wrap-around (`% 2 ^ 64` and `% 2 ^ 32`), and durations are int64 nanoseconds where the source
-- multiplies them. A loop that waits for a deadline runs on fuel, the rounds of its pause that fit
-- into the timeout and one more; it is enough on a clock that does not go back and in which a sleep
-- lasts as long as it is asked to. The loop on a connection has the length of its stream as fuel.
--
-- A handler runs here to its end without another one between, except in Lifecycle, where the calls on
-- one sandbox interleave at the critical sections of its lock; `handle_destroy` takes what the drain
-- reads of the counter as an argument. The two goroutines of a creation run one after the other.
--
-- Not modelled: the content of the metadata files that are written; the HTTP server, its routing and
-- the signals; logging, timings and what the benchmarks print; the texts of errors beyond their kind;
-- the deadlines of connections, which are among the world's answers; the agent's listener; the
-- encoding of bodies. JSON is a parameter of Rpc/Frame and of Bench/OnServer with what is read back as
-- the law that they rely on, in Rpc/Frame of messages whose texts are all UTF-8 (Text/Utf8, Rpc/Utf8).
-- How each exchange of a benchmark with the server goes is a parameter of Bench/OnServer: a request
-- may not reach the server, and a reply may not reach the client. filepath.Abs, time.ParseDuration and strings.ToLower beyond ASCII are
-- answers of the world in Startup/Load.
pub mod Prelude
pub mod Text
pub mod Rpc
pub mod Types
pub mod Machine
pub mod Lifecycle
pub mod Netns
pub mod Agent
pub mod Process
pub mod Sandbox
pub mod Snapshot
pub mod Server
pub mod Guest
pub mod Firecracker
pub mod Startup
pub mod Bench
pub mod Tests
