-- ===== src/Machine.antt =====
-- The world that the server's code runs in: its own state, and the calls that it has made.
pub mod Trace
pub mod Counts
pub mod Debt
pub mod Silence
pub mod Keeps
pub mod Yields
use manta.Prelude.{ℕ, Bool, true, false, List, ◌∷◌, Option}
use manta.Prelude.Int.{ℤ}
use manta.Text.{Str}
use manta.Rpc.{Request, Response}
use manta.Types.{Server, SnapshotMeta, UserSnapshotMeta}

-- A call to the operating system, a child process or the guest.
pub data Op : Type 0 where
  mkdir_all mkdir remove remove_all stat read_file write_file open_log : Str → Op
  rename : Str → Str → Op
  clone : Bool → Str → Str → Op
  start : Str → Str → Bool → Op
  kill_group kill_process wait_exit : ℕ → Op
  sleep : ℕ → Op
  dial_unix : Str → Op
  send_connect : ℕ → Op
  send : ℕ → Request → Op
  receive_line receive close_conn : ℕ → Op
  pause_vm resume_vm : Str → Op
  create_snapshot load_snapshot : Str → Str → Str → Op
  get_ns set_ns new_handle enter_ns leave_ns : Op
  new_ns delete_ns : Str → Op
  link_add_veth link_set_ns : Str → Str → Op
  link_by_name link_set_up link_del link_add_tap : Str → Op
  addr_add : Str → Str → Op
  route_replace : Str → Str → Op
  route_del : Str → Op
  ssh_dial : Str → Op
  ssh_session ssh_close : Op
  ssh_run : Str → Op
  read_dir look_path open_file copy_to_hash : Str → Op
  run : List Str → Op

pub record Event : Type 0 where
  pub op : Op
  pub done : Bool

-- The newest event first.
abbrev pub Trace : Type 0
Trace = List Event

-- What the world answers, which may depend on everything that was done before.
pub record Env : Type 0 where
  -- whether the call returns a nil error; of an address that is assigned also whether it was
  -- there already
  pub succeeds : Trace → Op → Bool
  -- whether netlink.ParseAddr, net.ParseCIDR or net.ParseIP accepts the text
  pub parses : Str → Bool
  -- time.Now(), in nanoseconds
  pub now : Trace → ℕ
  -- the pid of the process that has just been started
  pub pid : Trace → ℕ
  -- the connection that has just been dialled
  pub conn : Trace → ℕ
  -- a line that a connection delivers; none is a read error
  pub line : Trace → Option Str
  -- a message that a connection delivers; none is a read or decode error
  pub response : Trace → Option Response
  -- whether the call that has just failed did so in a way that may pass: with EBUSY or ENOTEMPTY,
  -- with a transient error of a socket, or at the timeout of a wait for a process
  pub busy : Trace → Bool
  -- the metadata that the file just read holds; none is a decode error
  pub snapshot_meta : Trace → Option SnapshotMeta
  -- the same of a user snapshot
  pub user_snapshot_meta : Trace → Option UserSnapshotMeta
  -- the text of the time in RFC 3339
  pub timestamp : Trace → Str
  -- the standard output, the standard error and the exit status of a command over ssh
  pub ssh_output : Trace → Str × Str × ℕ
  -- the entries of the directory just read, by name, with whether they are directories; and
  -- whether the call that has just failed did so because there is no such directory
  pub entries : Trace → List (Str × Bool)
  pub missing : Trace → Bool
  -- the standard output of the command that has just run
  pub stdout : Trace → Str
  -- os.Getenv, and os.Geteuid() == 0
  pub getenv : Str → Str
  pub is_root : Bool
  -- filepath.Abs and time.ParseDuration, none is an error; strings.ToLower beyond ASCII
  pub absolute : Str → Option Str
  pub parse_duration : Str → Option ℤ
  pub lower : Str → Str
  -- the SHA-256 in hexadecimal of the file that has just been read
  pub sha256 : Trace → Str

pub data Error : Type 0 where
  create_sandbox_dir clone_rootfs write_vm_config open_log_file start_firecracker : Error
  api_socket_not_ready load_snapshot_failed agent_not_ready agent_network_config : Error
  uds_path_empty invalid_agent_port agent_dial agent_write agent_read connect_refused : Error
  agent_said : Str → Error
  agent_not_ok : Error
  pool_timeout : Error
  get_current_netns create_netns restore_netns root_handle create_veth lookup_peer move_peer : Error
  lookup_veth_host parse_veth_host_ip assign_veth_host_ip set_veth_host_up enter_netns
        netns_handle :
      Error
  lookup_veth_ns parse_veth_ns_ip assign_veth_ns_ip set_veth_ns_up enable_ip_forward
        ns_default_route :
      Error
  invalid_gateway create_tap lookup_tap parse_tap_ip assign_tap_ip set_tap_up : Error
  parse_guest_subnet invalid_veth_ns_ip guest_route delete_netns : Error
  cgroup_kill_missing write_cgroup_kill cgroup_procs_missing write_cgroup_procs : Error
  remove_cgroup exit_timeout wait_firecracker remove_sandbox_dir : Error
  create_snapshot_dir copy_base_disk setup_snapshot_netns write_snapshot_vm_config : Error
  open_snapshot_log start_snapshot_vm snapshot_agent_not_ready pause_snapshot_vm : Error
  create_snapshot_failed write_snapshot_meta_failed persist_snapshot_meta : Error
  read_snapshot_meta decode_snapshot_meta bad_meta_version missing_lineage : Error
  lineage_mismatch remove_snapshot_dir recreate_snapshot_dir artifact_missing : Error
  create_user_snapshot_dir pause_vm_failed create_user_snapshot_failed persist_snapshot_disk : Error
  write_user_meta persist_user_meta resume_vm_failed read_user_meta decode_user_meta : Error
  user_artifact_missing remove_user_snapshot : Error
  ssh_dial_failed ssh_session_failed ssh_exec_failed : Error
  invalid_snapshot_id read_snapshots_dir : Error
  resolve_path open_for_sha256 hash_file invalid_clone_mode detect_interface : Error
  no_default_route : Error
  firecracker_missing required_file_missing kvm_unavailable create_work_dir : Error
  enable_ip_forwarding host_iface_empty add_masquerade no_cgroup_v2 create_cgroup_root : Error
  create_probe_dir write_probe not_root : Error
  -- the model's own: a loop ran out of fuel; a nil pointer was read
  -- a send on a full channel never returns
  out_of_fuel nil_dereference blocked : Error

pub data Result {ℓ} (A : Type ℓ) : Type ℓ where
  ok : A → Result A
  err : Error → Result A

pub record World : Type 0 where
  pub server : Server
  pub trace : Trace

-- Code that reads and changes the world and may return an error.
abbrev pub M : Type 0 → Type 0
M A = World → Result A × World

abbrev pub pure : {A : Type 0} → A → M A
pure a w = (ok a, w)

abbrev pub raise : {A : Type 0} → Error → M A
raise e w = (err e, w)

abbrev pub continue : {A B : Type 0} → Result A → (A → M B) → M B
continue (ok a) f w = f a w
continue (err e) f w = (err e, w)

infixl 5 ◌>>=◌ ◌>>◌
abbrev pub ◌>>=◌ : {A B : Type 0} → M A → (A → M B) → M B
◌>>=◌ m f w = let (r, w') = m w in continue r f w'

abbrev pub ◌>>◌ : {B : Type 0} → M (Unit {0}) → M B → M B
m >> k = m >>= λ _. k

-- `defer`red code that a success switches off: it runs when `m` fails.
abbrev pub clean_up : {A : Type 0} → Result A → M (Unit {0}) → World → Result A × World
clean_up (ok a) c w = (ok a, w)
clean_up (err e) c w = (err e, (c w).1)

abbrev pub on_error : {A : Type 0} → M (Unit {0}) → M A → M A
on_error c m w = let (r, w') = m w in clean_up r c w'

-- `defer`red code that always runs.
abbrev pub finally : {A : Type 0} → M (Unit {0}) → M A → M A
finally c m w = let (r, w') = m w in (r, (c w').1)

-- The error as a value, as `if err := …; err != nil` looks at it.
abbrev caught : {A : Type 0} → Result A → Result (Result A)
caught r = ok r

abbrev pub catch : {A : Type 0} → M A → M (Result A)
catch m w = let (r, w') = m w in (caught r, w')

abbrev pub gets : {A : Type 0} → (Server → A) → M A
gets f w = (ok (f w.server), w)

abbrev pub modify : (Server → Server) → M (Unit {0})
modify f w = (ok tt, record w { server = f w.server })

abbrev pub check : Bool → Error → M (Unit {0})
check true e = pure tt
check false e = raise e

-- What the world shows at this point.
abbrev pub observe : {A : Type 0} → (Trace → A) → M A
observe f w = (ok (f w.trace), w)

module _ (env : Env) where
  -- Makes a call and returns whether it succeeded.
  abbrev pub try : Op → M Bool
  try op w =
      let d = env.succeeds w.trace op in
      (ok d, record w { trace = record { op = op; done = d } ∷ w.trace })

  abbrev pub need : Op → Error → M (Unit {0})
  need op e = do done ← try op; check done e

  -- `_ = f()`
  abbrev pub ignore : Op → M (Unit {0})
  ignore op = do _ ← try op; pure tt
