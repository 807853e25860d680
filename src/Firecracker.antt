-- ===== src/Firecracker.antt =====
-- cmd/server/firecracker_api.go and vm_config.go: what is sent to Firecracker's API over its socket,
-- and the configuration file of a virtual machine. The JSON text of both is left to encoding/json.
pub mod Mac
use manta.Prelude.{
  ℕ, ◌+◌, ◌/◌, ◌%◌, ◌<◌, ◌≡◌, ◌≢◌, refl, ap, map, Bool, true, false, not, ◌||◌, List, [], ◌∷◌, ◌++◌,
  Option, none, some, ltb, if◌then◌else◌,
}
use manta.Prelude.Int.{ℤ}
use manta.Text.{Str, lit, is_empty}
use manta.Text.Trim.{trim_space}
use manta.Types.{Config}
use Mac.{guest_mac, guest_mac-injective}

-- The bodies of the requests.
pub data Payload : Type 0 where
  vm_state : Str → Payload
  snapshot_create : (snapshot_type snapshot_path mem_file_path : Str) → Payload
  snapshot_load : (snapshot_path backend_type backend_path : Str) (resume_vm : Bool) → Payload

pub record ApiRequest : Type 0 where
  pub method : Str
  pub path : Str
  pub payload : Payload

abbrev pub pause_request : ApiRequest
pause_request = record { method = lit "PATCH"; path = lit "/vm"; payload = vm_state (lit "Paused") }

abbrev pub resume_request : ApiRequest
resume_request = record {
  method = lit "PATCH";
  path = lit "/vm";
  payload = vm_state (lit "Resumed");
}

unfoldable pub create_full_snapshot : Str → Str → ApiRequest
create_full_snapshot state mem = record {
  method = lit "PUT";
  path = lit "/snapshot/create";
  payload = snapshot_create (lit "Full") state mem;
}

unfoldable pub load_snapshot_request : Str → Str → Bool → ApiRequest
load_snapshot_request state mem resume = record {
  method = lit "PUT";
  path = lit "/snapshot/load";
  payload = snapshot_load state (lit "File") mem resume;
}

-- What `doJSON` returns: nil, the error of the exchange, or the status with the text of the body.
pub data ApiResult : Type 0 where
  accepted unreachable : ApiResult
  refused : ℕ → Option Str → ApiResult

abbrev pub body_text : Str → Option Str
body_text raw = if is_empty (trim_space raw) then none else some (trim_space raw)

-- From the response, none where the exchange fails; a body that cannot be read counts as far as it
-- was.
unfoldable pub do_json : Option (ℕ × Str) → ApiResult
do_json none = unreachable
do_json (some (status, raw)) =
    if ltb status 200 || not (ltb status 300) then refused status (body_text raw) else accepted

pub record BootSource : Type 0 where
  pub kernel_image_path : Str
  pub boot_args : Str

pub record Drive : Type 0 where
  pub drive_id : Str
  pub path_on_host : Str
  pub is_root_device : Bool
  pub is_read_only : Bool

pub record NetIf : Type 0 where
  pub iface_id : Str
  pub guest_mac : Str
  pub host_dev_name : Str

pub record MachineConfig : Type 0 where
  pub vcpu_count : ℤ
  pub mem_size_mib : ℤ

pub record VsockConfig : Type 0 where
  pub guest_cid : ℕ
  pub uds_path : Str

pub record VmConfig : Type 0 where
  pub boot_source : BootSource
  pub drives : List Drive
  pub network_interfaces : List NetIf
  pub machine_config : MachineConfig
  pub vsock : VsockConfig

-- What `writeVMConfig` writes.
unfoldable pub vm_config : Config → Str → Str → ℕ → Str → ℕ → VmConfig
vm_config cfg tap_device rootfs_path subnet vsock_path cid = record {
  boot_source = record { kernel_image_path = cfg.kernel_path; boot_args = cfg.boot_args };
  drives =
      record {
        drive_id = lit "rootfs";
        path_on_host = rootfs_path;
        is_root_device = true;
        is_read_only = false;
      }
      ∷ [];
  network_interfaces =
      record { iface_id = lit "eth0"; guest_mac = guest_mac subnet; host_dev_name = tap_device }
      ∷ [];
  machine_config = record { vcpu_count = cfg.default_vcpu; mem_size_mib = cfg.default_mem_mib };
  vsock = record { guest_cid = cid; uds_path = vsock_path };
}

abbrev pub macs : VmConfig → List Str
macs c = map (λ i. i.guest_mac) c.network_interfaces

-- The configuration files that are written for machines of different subnets below 65536 give their
-- guests different MAC addresses, whatever else they say.
pub vm_config-macs :
    (cfg cfg' : Config) (tap tap' rootfs rootfs' vsock vsock' : Str) (m n cid cid' : ℕ)
    → m < 65536
    → n < 65536
    → m ≢ n
    → macs (vm_config cfg tap rootfs m vsock cid) ≢ macs (vm_config cfg' tap' rootfs' n vsock' cid')
unfolding vm_config
vm_config-macs cfg cfg' tap tap' rootfs rootfs' vsock vsock' m n cid cid' hm hn apart same =
    apart (guest_mac-injective m n hm hn (ap first_mac same))
  where
    first_mac : List Str → Str
    first_mac [] = []
    first_mac (a ∷ l) = a
