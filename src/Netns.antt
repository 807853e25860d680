-- ===== src/Netns.antt =====
-- cmd/server/netns.go: the network of a sandbox. Here are the names and addresses; `Setup` has the
-- calls that build and remove it.
pub mod Names
pub mod Setup
pub mod Cleanup
pub mod Pool
pub mod Silence
pub mod Keeps
use manta.Prelude.{ℕ, ◌++◌, false, String, length, take, ltb, if◌then◌else◌}
use manta.Text.{Str, lit, is_empty}
use manta.Text.Trim.{trim_space}
use manta.Text.Decimal.{dec, dec3}
use manta.Types.{NetnsConfig}

unfoldable pub netns_name_for_sandbox : Str → Str
netns_name_for_sandbox raw =
    let id = trim_space raw in
    let name = lit "manta-" ++ id in
    if is_empty id then lit "manta-unknown" else if ltb 63 (length name) then take 63 name else name

unfoldable pub veth_host_name : ℕ → Str
veth_host_name subnet = lit "veth" ++ dec3 subnet

-- 10.200.<subnet>.<last>
unfoldable pub link_ip : ℕ → String → Str
link_ip subnet last = lit "10.200." ++ (dec subnet ++ lit last)

-- 172.16.<subnet>.<last>
unfoldable pub guest_net_ip : ℕ → String → Str
guest_net_ip subnet last = lit "172.16." ++ (dec subnet ++ lit last)

-- The strings at the top of `setupSandboxNetnsAndRouting`, and the value that it returns.
unfoldable pub config_for : Str → ℕ → NetnsConfig
config_for id subnet = record {
  netns_name = netns_name_for_sandbox id;
  subnet = subnet;
  pooled = false;
  veth_host = veth_host_name subnet;
  veth_ns = lit "veth0";
  veth_cidr = link_ip subnet ".0/30";
  veth_host_ip = link_ip subnet ".1";
  veth_ns_ip = link_ip subnet ".2";
  tap_name = lit "tap0";
  subnet_cidr = guest_net_ip subnet ".0/30";
  host_ip = guest_net_ip subnet ".1";
  guest_ip = guest_net_ip subnet ".2";
}
