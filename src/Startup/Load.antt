-- ===== src/Startup/Load.antt =====
-- cmd/server/config.go, with `computeFileSHA256` of snapshot.go: the configuration from the
-- environment.
pub mod Valid
use manta.Prelude.{
  ℕ, zero, suc, ◌+◌, ◌-◌, ◌*◌, ◌^◌, Bool, true, false, ◌&&◌, ◌||◌, not, List, [], ◌∷◌, Option, none,
  some, String, map, leb, ltb, ◌==◌, if◌then◌else◌,
}
use manta.Prelude.Int.{ℤ, pos, negsuc}
use manta.Text.{Str, lit, is_empty, str_eq}
use manta.Text.Trim.{trim_space}
use manta.Rpc.{default_port}
use manta.Types.{Config}
use manta.Machine.{
  Env, Error, M, pure, raise, need, observe, ◌>>=◌, ◌>>◌, open_file, copy_to_hash, run,
}

-- The decimal digits of a number after those that make up `acc`; none where another byte stands.
unfoldable pub digits : ℕ → Str → Option ℕ
digits acc [] = some acc
digits acc (c ∷ s) = if leb 48 c && leb c 57 then digits (acc * 10 + (c - 48)) s else none

abbrev pub unsigned : Str → Option ℕ
unsigned [] = none
unsigned (c ∷ s) = digits 0 (c ∷ s)

-- Within int64, or an error.
abbrev pub positive : Option ℕ → Option ℤ
positive none = none
positive (some n) = if ltb n (2 ^ 63) then some (pos n) else none

abbrev pub negative : Option ℕ → Option ℤ
negative none = none
negative (some zero) = some (pos 0)
negative (some (suc n)) = if ltb n (2 ^ 63) then some (negsuc n) else none

-- strconv.Atoi; none is an error.
unfoldable pub atoi : Str → Option ℤ
atoi [] = none
atoi (c ∷ s) =
    if c == 45
    then negative (unsigned s)
    else if c == 43
    then positive (unsigned s)
    else positive (unsigned (c ∷ s))

abbrev pub is_ascii : Str → Bool
is_ascii [] = true
is_ascii (c ∷ s) = ltb c 128 && is_ascii s

abbrev pub lower_byte : ℕ → ℕ
lower_byte c = if leb 65 c && leb c 90 then c + 32 else c

abbrev pub or_else : Option ℤ → ℤ → ℤ
or_else none fallback = fallback
or_else (some n) fallback = n

abbrev pub is_nonzero : ℤ → Bool
is_nonzero (pos n) = not (n == 0)
is_nonzero (negsuc n) = true

-- The two modes that the switch of `loadConfig` accepts.
abbrev pub is_clone_mode : Str → Bool
is_clone_mode mode = str_eq mode (lit "auto") || str_eq mode (lit "reflink-required")

module _ (env : Env) where
  -- strings.ToLower
  unfoldable pub to_lower : Str → Str
  to_lower s = if is_ascii s then map lower_byte s else env.lower s

  abbrev pub var : String → Str
  var name = trim_space (env.getenv (lit name))

  unfoldable pub env_or : String → String → Str
  env_or name fallback = if is_empty (var name) then lit fallback else var name

  unfoldable pub int_or : String → ℤ → ℤ
  int_or name fallback =
      if is_empty (var name) then fallback else or_else (atoi (var name)) fallback

  unfoldable pub duration_or : String → ℤ → ℤ
  duration_or name fallback =
      if is_empty (var name) then fallback else or_else (env.parse_duration (var name)) fallback

  -- The literal at the start of `loadConfig`. A duration is in nanoseconds.
  unfoldable pub config_from_env : Config
  config_from_env = record {
    listen_addr = env_or "MANTA_LISTEN_ADDR" ":8080";
    kernel_path = env_or "MANTA_KERNEL_PATH" "./guest-artifacts/vmlinux";
    base_rootfs_path = env_or "MANTA_ROOTFS_PATH" "./guest-artifacts/rootfs.ext4";
    base_rootfs_lineage_id = [];
    rootfs_clone_mode = to_lower (trim_space (env_or "MANTA_ROOTFS_CLONE_MODE" "auto"));
    ssh_private_key = env_or "MANTA_SSH_KEY_PATH" "./guest-artifacts/sandbox_key";
    firecracker_bin = env_or "MANTA_FIRECRACKER_BIN" "firecracker";
    host_nat_iface = [];
    work_dir = env_or "MANTA_WORK_DIR" ".manta-work";
    cgroup_root = env_or "MANTA_CGROUP_ROOT" "/sys/fs/cgroup/manta";
    enable_cgroups = is_nonzero (int_or "MANTA_ENABLE_CGROUPS" (pos 1));
    netns_pool_size = int_or "MANTA_NETNS_POOL_SIZE" (pos 64);
    enable_snapshots = is_nonzero (int_or "MANTA_ENABLE_SNAPSHOTS" (pos 1));
    keep_failed_sandboxes = is_nonzero (int_or "MANTA_DEBUG_KEEP_FAILED_SANDBOX" (pos 0));
    enable_stage_timing_logs = is_nonzero (int_or "MANTA_ENABLE_STAGE_TIMINGS" (pos 0));
    exec_transport = to_lower (trim_space (env_or "MANTA_EXEC_TRANSPORT" "agent"));
    agent_port = int_or "MANTA_AGENT_PORT" (pos default_port);
    agent_wait_timeout = duration_or "MANTA_AGENT_WAIT_TIMEOUT" (pos 30000000000);
    agent_dial_timeout = duration_or "MANTA_AGENT_DIAL_TIMEOUT" (pos 250000000);
    agent_call_timeout = duration_or "MANTA_AGENT_CALL_TIMEOUT" (pos 20000000000);
    agent_max_output_b = int_or "MANTA_AGENT_MAX_OUTPUT_BYTES" (pos 1048576);
    ssh_wait_timeout = duration_or "MANTA_SSH_WAIT_TIMEOUT" (pos 30000000000);
    ssh_dial_timeout = duration_or "MANTA_SSH_DIAL_TIMEOUT" (pos 2000000000);
    ssh_exec_wait = duration_or "MANTA_SSH_EXEC_WAIT_TIMEOUT" (pos 20000000000);
    exec_timeout = duration_or "MANTA_EXEC_TIMEOUT" (pos 20000000000);
    boot_args =
        env_or "MANTA_BOOT_ARGS"
          "console=ttyS0 reboot=k panic=1 pci=off root=/dev/vda rw init=/sbin/init";
    default_mem_mib = int_or "MANTA_VM_MEM_MIB" (pos 512);
    default_vcpu = int_or "MANTA_VM_VCPU" (pos 1);
  }

  abbrev pub resolved : Option Str → M Str
  resolved none = raise Error.resolve_path
  resolved (some p) = pure p

  abbrev pub resolve : Str → M Str
  resolve p = resolved (env.absolute p)

  -- The loop over the four paths.
  unfoldable pub resolve_paths : Config → M Config
  resolve_paths cfg = do
    kernel ← resolve cfg.kernel_path
    base ← resolve cfg.base_rootfs_path
    key ← resolve cfg.ssh_private_key
    dir ← resolve cfg.work_dir
    pure (record cfg {
      kernel_path = kernel;
      base_rootfs_path = base;
      ssh_private_key = key;
      work_dir = dir;
    })

  unfoldable pub compute_file_sha256 : Str → M Str
  compute_file_sha256 path = do
    need env (open_file path) Error.open_for_sha256
    need env (copy_to_hash path) Error.hash_file
    observe env.sha256

  abbrev pub set_lineage : Config → M Config
  set_lineage cfg = do
    lineage ← compute_file_sha256 cfg.base_rootfs_path
    pure (record cfg { base_rootfs_lineage_id = lineage })

  unfoldable pub with_lineage : Config → M Config
  with_lineage cfg = if cfg.enable_snapshots then set_lineage cfg else pure cfg

  abbrev pub route_interface : Str → M Str
  route_interface iface = if is_empty iface then raise Error.no_default_route else pure iface

  unfoldable pub detect_default_interface : M Str
  detect_default_interface = do
    need env (run (lit "sh" ∷ lit "-c" ∷ lit "ip route show default | awk '{print $5; exit}'" ∷ []))
        Error.detect_interface
    out ← observe env.stdout
    route_interface (trim_space out)

  abbrev pub host_interface : Str → M Str
  host_interface iface = if is_empty iface then detect_default_interface else pure iface

  -- What follows the switch on the clone mode.
  unfoldable pub with_interface : Config → M Config
  with_interface cfg = do
    iface ← host_interface (var "MANTA_HOST_IFACE")
    pure (record cfg { host_nat_iface = iface })

  abbrev pub with_mode : Config → M Config
  with_mode cfg =
      if is_clone_mode cfg.rootfs_clone_mode
      then with_interface cfg
      else raise Error.invalid_clone_mode

  unfoldable pub load_config : M Config
  load_config = do
    absolute ← resolve_paths config_from_env
    cfg ← with_lineage absolute
    with_mode cfg
