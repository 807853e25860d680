-- ===== src/Startup.antt =====
-- The startup of cmd/server/main.go: the configuration, the preflight, and the server that is made
-- of them. An error is what `log.Fatalf` ends the program with.
pub mod Load
pub mod Preflight
pub mod Served
pub mod Masquerade
use manta.Prelude.{ℕ, Bool, true, false, [], none, some, if◌then◌else◌}
use manta.Prelude.Int.{ℤ, pos, negsuc, is_pos}
use manta.Types.{Config, Server}
use manta.Machine.{Env, Error, M, pure, check, modify, ◌>>=◌, ◌>>◌}
use manta.Netns.Pool.{new_netns_pool, set_pool, init_pool}
use Load.{load_config}
use Preflight.{ensure_preflight, ensure_global_masquerade, log_startup_diagnostics}

-- `&server{…}`, with Go's zero values.
unfoldable pub new_server : Config → Server
new_server cfg = record {
  cfg = cfg;
  next_sandbox_id = 0;
  next_snapshot_id = 0;
  next_subnet = 0;
  sandboxes = [];
  netns_pool = none;
}

module _ (env : Env) where
  abbrev pub make_pool : ℕ → M (Unit {0})
  make_pool size = do modify (set_pool (new_netns_pool size)); init_pool env size

  -- The pool is made where its size is positive.
  abbrev pub init_netns_pool : ℤ → M (Unit {0})
  init_netns_pool (pos n) = if is_pos (pos n) then make_pool n else pure tt
  init_netns_pool (negsuc n) = pure tt

  unfoldable pub start_server : M (Unit {0})
  start_server = do
    check env.is_root Error.not_root
    cfg ← load_config env
    ensure_preflight env cfg
    log_startup_diagnostics env cfg
    modify (λ _. new_server cfg)
    ensure_global_masquerade env cfg.host_nat_iface
    init_netns_pool cfg.netns_pool_size
