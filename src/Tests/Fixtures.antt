-- ===== src/Tests/Fixtures.antt =====
-- Concrete worlds: a host on which every call succeeds, one on which a guest never answers, a
-- server with one sandbox, and a guest.
use manta.Prelude.{
  ℕ, zero, suc, ◌+◌, Bool, true, false, List, [], ◌∷◌, ◌++◌, Option, none, some, leb,
}
use manta.Prelude.Int.{pos}
use manta.Text.{Str, lit}
use manta.Rpc.{Response}
use manta.Types.{Config, NetnsConfig, NetnsPool, Sandbox, Server, running}
use manta.Machine.{Op, Trace, Env, World, dial_unix, send}
use manta.Agent.Haste.{asked}
use manta.Lifecycle.Drain.{Rounds, poll_interval}

-- A clock that only sleeping moves.
abbrev pub slept : Trace → ℕ
slept [] = 0
slept (e ∷ tr) = slept tr + asked e.op

abbrev pub always : Trace → Op → Bool
always tr op = true

abbrev pub no_socket : Trace → Op → Bool
no_socket tr (dial_unix path) = false
no_socket tr _ = true

-- A guest that listens from 25 ms on.
abbrev pub late_socket : Trace → Op → Bool
late_socket tr (dial_unix path) = leb 25000000 (slept tr)
late_socket tr _ = true

abbrev pub no_send : Trace → Op → Bool
no_send tr (send c req) = false
no_send tr _ = true

abbrev pub answer : Response
answer = record {
  ok = true;
  error = [];
  ping = none;
  exec = some (record { exit_code = pos 0; stdout = lit "hi"; stderr = []; timed_out = false });
  net = none;
}

abbrev pub host : (Trace → Op → Bool) → Env
host succeeds = record {
  succeeds = succeeds;
  parses = λ s. true;
  now = slept;
  pid = λ tr. 4242;
  conn = λ tr. 7;
  line = λ tr. some (lit "OK 1024");
  response = λ tr. some answer;
  busy = λ tr. false;
  snapshot_meta = λ tr. none;
  user_snapshot_meta = λ tr. none;
  timestamp = λ tr. lit "t";
  ssh_output = λ tr. (lit "hi", [], 0);
  entries = λ tr. [];
  missing = λ tr. true;
  stdout = λ tr. lit "eth0";
  getenv = λ name. [];
  is_root = true;
  absolute = λ p. some (lit "/srv/" ++ p);
  parse_duration = λ s. none;
  lower = λ s. s;
  sha256 = λ tr. lit "l1";
}

abbrev pub cfg : Config
cfg = record {
  listen_addr = lit ":8080";
  kernel_path = lit "/k";
  base_rootfs_path = lit "/r";
  base_rootfs_lineage_id = lit "l1";
  rootfs_clone_mode = lit "auto";
  ssh_private_key = lit "/s";
  firecracker_bin = lit "/f";
  host_nat_iface = lit "e0";
  work_dir = lit "/w";
  cgroup_root = lit "/c";
  enable_cgroups = true;
  netns_pool_size = pos 2;
  enable_snapshots = false;
  keep_failed_sandboxes = false;
  enable_stage_timing_logs = false;
  exec_transport = lit "agent";
  agent_port = pos 7777;
  agent_wait_timeout = pos 30000000;
  agent_dial_timeout = pos 1000000;
  agent_call_timeout = pos 1000000;
  agent_max_output_b = pos 64;
  ssh_wait_timeout = pos 30000000;
  ssh_dial_timeout = pos 1000000;
  ssh_exec_wait = pos 1000000;
  exec_timeout = pos 20000000000;
  boot_args = lit "b";
  default_mem_mib = pos 512;
  default_vcpu = pos 1;
}

abbrev pub box : Sandbox
box = record {
  id = lit "sb-1";
  subnet = 1;
  tap_device = lit "tap0";
  host_ip = lit "172.16.1.1";
  guest_ip = lit "172.16.1.2";
  guest_cid = 1001;
  netns = none;
  dir = lit "/w/sb-1";
  socket_path = lit "/w/sb-1/a";
  vsock_path = lit "/w/sb-1/v";
  config_path = lit "/w/sb-1/c";
  rootfs_path = lit "/w/sb-1/r";
  log_path = lit "/w/sb-1/l";
  cgroup_path = [];
  process = some 4242;
  agent = some 7;
  state = running;
  in_flight_exec = 0;
}

abbrev pub server : List (Str × Sandbox) → ℕ → Option NetnsPool → Server
server boxes n pool = record {
  cfg = cfg;
  next_sandbox_id = n;
  next_snapshot_id = 0;
  next_subnet = 0;
  sandboxes = boxes;
  netns_pool = pool;
}

-- A server without sandboxes, and one with `box`.
abbrev pub empty : World
empty = record { server = server [] 0 none; trace = [] }

abbrev pub one_box : World
one_box = record { server = server ((lit "sb-1", box) ∷ []) 1 none; trace = [] }

-- A command ends after two rounds of the drain.
abbrev pub counter : ℕ → ℕ
counter zero = 1
counter (suc zero) = 1
counter (suc (suc k)) = 0

abbrev pub times : ℕ → ℕ
times zero = 5
times (suc k) = times k + poll_interval

abbrev pub two_rounds : Rounds
two_rounds = record { begins = 5; in_flight = counter; now = times }

abbrev pub net : Str → ℕ → NetnsConfig
net name n = record {
  netns_name = name;
  subnet = n;
  pooled = true;
  veth_host = lit "veth";
  veth_ns = lit "veth0";
  veth_cidr = [];
  veth_host_ip = [];
  veth_ns_ip = [];
  tap_name = lit "tap0";
  subnet_cidr = [];
  host_ip = [];
  guest_ip = [];
}
