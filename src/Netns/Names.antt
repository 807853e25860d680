-- ===== src/Netns/Names.antt =====
-- The names and addresses that cmd/server/netns.go makes from an id and a subnet's number.
use manta.Prelude.{ℕ, ◌≡◌, ◌≢◌, ap, String, drop}
use mathlib.Core.List.{append_cancel_right}
use manta.Text.{Str, lit}
use manta.Text.Decimal.{dec-injective, dec3-injective}
use manta.Netns.{veth_host_name, link_ip, guest_net_ip, config_for}

link_ip-injective : (m n : ℕ) (last : String) → link_ip m last ≡ link_ip n last → m ≡ n
unfolding link_ip
link_ip-injective m n last e =
    dec-injective m n (append_cancel_right _ _ (lit last) (ap (drop 7) e))

guest_net_ip-injective :
    (m n : ℕ) (last : String) → guest_net_ip m last ≡ guest_net_ip n last → m ≡ n
unfolding guest_net_ip
guest_net_ip-injective m n last e =
    dec-injective m n (append_cancel_right _ _ (lit last) (ap (drop 7) e))

veth_host_name-injective : (m n : ℕ) → veth_host_name m ≡ veth_host_name n → m ≡ n
unfolding veth_host_name
veth_host_name-injective m n e = dec3-injective m n (ap (drop 4) e)

-- Networks of different subnets have different veth devices, different addresses on their links, and
-- different guest networks and addresses.
pub config_for_distinct :
    (id other : Str) (m n : ℕ)
    → m ≢ n
    → let a = config_for id m in
      let b = config_for other n in
      (a.veth_host ≢ b.veth_host)
      × (a.veth_host_ip ≢ b.veth_host_ip)
      × (a.veth_ns_ip ≢ b.veth_ns_ip)
      × (a.veth_cidr ≢ b.veth_cidr)
      × (a.subnet_cidr ≢ b.subnet_cidr)
      × (a.guest_ip ≢ b.guest_ip)
unfolding config_for
config_for_distinct id other m n apart = (
  λ e. apart (veth_host_name-injective m n e),
  λ e. apart (link_ip-injective m n ".1" e),
  λ e. apart (link_ip-injective m n ".2" e),
  λ e. apart (link_ip-injective m n ".0/30" e),
  λ e. apart (guest_net_ip-injective m n ".0/30" e),
  λ e. apart (guest_net_ip-injective m n ".2" e),
)
