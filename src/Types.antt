-- ===== src/Types.antt =====
-- cmd/server/types.go, and the structs of netns.go, netns_pool.go and sandbox_lifecycle.go.
use manta.Prelude.{ℕ, Bool, List, Option}
use manta.Prelude.Int.{ℤ}
use manta.Text.{Str}

-- A duration is in nanoseconds.
pub record Config : Type 0 where
  pub listen_addr : Str
  pub kernel_path : Str
  pub base_rootfs_path : Str
  pub base_rootfs_lineage_id : Str
  pub rootfs_clone_mode : Str
  pub ssh_private_key : Str
  pub firecracker_bin : Str
  pub host_nat_iface : Str
  pub work_dir : Str
  pub cgroup_root : Str
  pub enable_cgroups : Bool
  pub netns_pool_size : ℤ
  pub enable_snapshots : Bool
  pub keep_failed_sandboxes : Bool
  pub enable_stage_timing_logs : Bool
  pub exec_transport : Str
  pub agent_port : ℤ
  pub agent_wait_timeout : ℤ
  pub agent_dial_timeout : ℤ
  pub agent_call_timeout : ℤ
  pub agent_max_output_b : ℤ
  pub ssh_wait_timeout : ℤ
  pub ssh_dial_timeout : ℤ
  pub ssh_exec_wait : ℤ
  pub exec_timeout : ℤ
  pub boot_args : Str
  pub default_mem_mib : ℤ
  pub default_vcpu : ℤ

pub record NetnsConfig : Type 0 where
  pub netns_name : Str
  pub subnet : ℕ
  pub pooled : Bool
  pub veth_host : Str
  pub veth_ns : Str
  pub veth_cidr : Str
  pub veth_host_ip : Str
  pub veth_ns_ip : Str
  pub tap_name : Str
  pub subnet_cidr : Str
  pub host_ip : Str
  pub guest_ip : Str

-- `ch` is what the buffered channel holds, its next entry first, and `size` its capacity.
pub record NetnsPool : Type 0 where
  pub size : ℕ
  pub ch : List NetnsConfig
  pub all : List NetnsConfig

pub data SandboxState : Type 0 where
  running closing closed : SandboxState

-- `process` is the pid of the Firecracker process, `agent` the connection to the agent.
pub record Sandbox : Type 0 where
  pub id : Str
  pub subnet : ℕ
  pub tap_device : Str
  pub host_ip : Str
  pub guest_ip : Str
  pub guest_cid : ℕ
  pub netns : Option NetnsConfig
  pub dir : Str
  pub socket_path : Str
  pub vsock_path : Str
  pub config_path : Str
  pub rootfs_path : Str
  pub log_path : Str
  pub cgroup_path : Str
  pub process : Option ℕ
  pub agent : Option ℕ
  pub state : SandboxState
  pub in_flight_exec : ℕ

-- The map of sandboxes is an association list, the newest entry first.
pub record Server : Type 0 where
  pub cfg : Config
  pub next_sandbox_id : ℕ
  pub next_snapshot_id : ℕ
  pub next_subnet : ℕ
  pub sandboxes : List (Str × Sandbox)
  pub netns_pool : Option NetnsPool

-- `snapshotMeta` of snapshot.go.
pub record SnapshotMeta : Type 0 where
  pub version : ℤ
  pub lineage_id : Str
  pub base_rootfs_path : Str
  pub created_at : Str

-- `userSnapshotMeta` of user_snapshot.go.
pub record UserSnapshotMeta : Type 0 where
  pub snapshot_id : Str
  pub name : Str
  pub created_at : Str
  pub state_file : Str
  pub mem_file : Str
  pub disk_file : Str
  pub lineage_id : Str
  pub source_sandbox_id : Str
  pub source_rootfs_path : Str
