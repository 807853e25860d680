-- ===== src/Tests/Starting.antt =====
-- Runs of the theorems on the startup and on what is sent to Firecracker.
use manta.Prelude.{
  ◌^◌, ◌<◌, ◌≤◌, ◌≡◌, ◌≢◌, refl, Bool, true, false, List, [], ◌∷◌, some, arith, ltb, if◌then◌else◌,
}
use manta.Text.{Str, lit, str_eq, is_empty}
use manta.Text.Trim.{trim_space}
use manta.Types.{Config}
use manta.Machine.{Env, Trace, Op, ok, run}
use manta.Machine.Trace.{count}
use manta.Server.Invariant.{IsWellFormed}
use manta.Server.Invariant.Command.{creates, serve_all, creations}
use manta.Startup.{start_server}
use manta.Startup.Load.{load_config, config_from_env}
use manta.Startup.Load.Valid.{IsGo, IsLoaded, load_config-IsLoaded}
use manta.Startup.Served.{start_server-IsWellFormed}
use manta.Startup.Masquerade.{IsIptables, rules, ensure_global_masquerade_once}
use manta.Startup.Preflight.{masquerade, ensure_global_masquerade}
use manta.Firecracker.{vm_config, macs, vm_config-macs}
use manta.Firecracker.Mac.{guest_mac}
use manta.Tests.Fixtures.{host, always, empty, cfg}

-- Two networks in the pool and no snapshots; the rest is left to the defaults.
abbrev settings : Str → Str
settings name =
    if str_eq name (lit "MANTA_NETNS_POOL_SIZE")
    then lit " 2 "
    else if str_eq name (lit "MANTA_ENABLE_SNAPSHOTS")
    then lit "0"
    else []

abbrev starting : Env
starting = record (host always) { getenv = settings; absolute = λ p. some (47 ∷ p) }

starting-IsGo : IsGo starting
unfolding trim_space
starting-IsGo = record { absolute = λ p q e. (p, slash p q e); sha256 = λ tr. not_blank }
  where
    slash : (p q : Str) → some (47 ∷ p) ≡ some q → q ≡ 47 ∷ p
    slash p q e = cc

    not_blank : is_empty (trim_space (lit "l1")) ≡ false
    not_blank = refl

-- The same with snapshots, which are on by default.
abbrev hashing : Env
hashing = record starting { getenv = λ name. [] }

hashing-IsGo : IsGo hashing
hashing-IsGo = record { absolute = starting-IsGo.absolute; sha256 = starting-IsGo.sha256 }

abbrev loaded : Config
loaded = record (config_from_env hashing) {
  kernel_path = lit "/./guest-artifacts/vmlinux";
  base_rootfs_path = lit "/./guest-artifacts/rootfs.ext4";
  ssh_private_key = lit "/./guest-artifacts/sandbox_key";
  work_dir = lit "/.manta-work";
  base_rootfs_lineage_id = lit "l1";
  host_nat_iface = lit "eth0";
}

loads : (load_config hashing empty).0 ≡ ok loaded
unfolding load_config manta.Startup.Load.resolve_paths manta.Startup.Load.with_lineage
    manta.Startup.Load.compute_file_sha256 config_from_env manta.Startup.Load.int_or trim_space
    str_eq manta.Startup.Load.atoi manta.Startup.Load.digits manta.Startup.Load.to_lower
    manta.Startup.Load.env_or manta.Startup.Load.with_interface
    manta.Startup.Load.detect_default_interface
loads = refl

load_config-IsLoaded_example : IsLoaded hashing (config_from_env hashing) loaded
load_config-IsLoaded_example = load_config-IsLoaded hashing hashing-IsGo empty loaded loads

starts : (start_server starting empty).0 ≡ ok tt
unfolding start_server load_config manta.Startup.Load.resolve_paths manta.Startup.Load.with_lineage
    config_from_env manta.Startup.Load.int_or trim_space str_eq manta.Startup.Load.atoi
    manta.Startup.Load.digits manta.Startup.Load.to_lower manta.Startup.Load.env_or
    manta.Startup.Load.with_interface manta.Startup.Load.detect_default_interface
    manta.Startup.new_server manta.Startup.Preflight.ensure_preflight
    manta.Startup.Preflight.ensure_global_masquerade manta.Startup.Preflight.ensure_cgroup_root
    manta.Startup.Preflight.scavenge_cgroups manta.Startup.Preflight.scavenge_each
    manta.Startup.Preflight.log_startup_diagnostics manta.Startup.Preflight.probe_reflink_support
    manta.Netns.Pool.init_pool manta.Netns.Pool.init_from manta.Netns.Pool.init_entry
    manta.Netns.Pool.send manta.Netns.Pool.release manta.Netns.Pool.new_netns_pool
    manta.Netns.Setup.setup_netns manta.Netns.Setup.make_netns manta.Netns.Setup.need_or_delete
    manta.Netns.Setup.check_or_delete manta.Netns.Setup.after_veth manta.Netns.Setup.with_netns
    manta.Netns.Setup.add_guest_route manta.Netns.Setup.inside manta.Netns.Setup.configure_veth_ns
    manta.Netns.Setup.configure_tap manta.Netns.Setup.configure_root manta.Netns.Setup.remove_veth
    manta.Netns.Cleanup.cleanup_netns manta.Netns.Cleanup.remove_links
starts = refl

two_creations : creations (creates ∷ creates ∷ []) < 2 ^ 64
unfolding creations
two_creations = omega arith

start_server-IsWellFormed_example :
    IsWellFormed
      (serve_all starting (creates ∷ creates ∷ []) (start_server starting empty).1).server
start_server-IsWellFormed_example =
    start_server-IsWellFormed starting empty (creates ∷ creates ∷ []) starts two_creations

vm_config-macs_example :
    macs (vm_config cfg (lit "tap0") (lit "/r1") 1 (lit "/v1") 3)
    ≢ macs (vm_config cfg (lit "tap0") (lit "/r2") 256 (lit "/v2") 4)
vm_config-macs_example =
    vm_config-macs cfg cfg (lit "tap0") (lit "tap0") (lit "/r1") (lit "/r2") (lit "/v1") (lit "/v2")
      1 256 3 4 (omega arith) (omega arith) (λ e. cc)

mac_runs : guest_mac 6827 ≡ lit "06:00:AC:10:1A:AB"
unfolding guest_mac
mac_runs = refl

-- A table of rules that starts empty.
abbrev is_check : List Str → Bool
is_check (a ∷ b ∷ c ∷ flag ∷ args) = str_eq flag (lit "-C")
is_check _ = false

abbrev with_table : Trace → Op → Bool
with_table tr (run args) = if is_check args then ltb 0 (rules 0 (lit "eth0") tr) else true
with_table tr _ = true

table-IsIptables : IsIptables (host with_table) 0 (lit "eth0")
unfolding str_eq
table-IsIptables = record { finds = λ tr. refl }

no_rule : rules 0 (lit "eth0") empty.trace ≤ 1
unfolding count
no_rule = omega arith

ensure_global_masquerade_once_example :
    let w' = (ensure_global_masquerade (host with_table) (lit "eth0") empty).1 in
    (rules 0 (lit "eth0") w'.trace ≤ 1)
    × ((ensure_global_masquerade (host with_table) (lit "eth0") empty).0 ≡ ok tt
        → rules 0 (lit "eth0") w'.trace ≡ 1)
ensure_global_masquerade_once_example =
    ensure_global_masquerade_once (host with_table) 0 (lit "eth0") table-IsIptables empty no_rule
