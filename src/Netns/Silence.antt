-- ===== src/Netns/Silence.antt =====
-- Building, pooling and removing networks starts and kills no process.
use manta.Prelude.{ℕ, Bool, Option, none, some}
use manta.Text.{Str}
use manta.Types.{NetnsConfig, NetnsPool}
use manta.Machine.{Op, Env}
use manta.Machine.Counts.{Silent}
use manta.Machine.Silence.{IsOnProcesses, silent_rules}
use manta.Netns.Setup.{
  need_or_delete, check_or_delete, make_netns, configure_root, configure_veth_ns, configure_tap,
  with_netns, add_guest_route, remove_veth, inside, after_veth, setup_netns,
}
use manta.Netns.Cleanup.{remove_links, cleanup_netns}
use manta.Netns.Pool.{
  sent, send_to, send, on_demand, taken, from_pool, acquire, acquire_netns, is_pooled,
  release_netns, release,
}

module _ (env : Env) {p : Op → Bool → Bool} (on : IsOnProcesses p) where
  inside-Silent : (c : NetnsConfig) → Silent p (inside env c)
  unfolding inside configure_veth_ns configure_tap
  inside-Silent c = search (silent_rules, on) depth 30

  root-Silent : (c : NetnsConfig) → Silent p (configure_root env c)
  unfolding configure_root need_or_delete check_or_delete
  root-Silent c = search (silent_rules, on) depth 30

  remove_veth-Silent : (name : Str) → Silent p (remove_veth env name)
  unfolding remove_veth
  remove_veth-Silent name = search (silent_rules, on) depth 10

  pub setup-Silent : (id : Str) (subnet : ℕ) → Silent p (setup_netns env id subnet)
  unfolding setup_netns make_netns need_or_delete after_veth with_netns add_guest_route
  setup-Silent id subnet =
      search (silent_rules, on, inside-Silent, root-Silent, remove_veth-Silent) depth 30

  pub cleanup-Silent : (nc : NetnsConfig) → Silent p (cleanup_netns env nc)
  unfolding cleanup_netns remove_links
  cleanup-Silent nc = search (silent_rules, on, remove_veth-Silent) depth 15

  sent-Silent : (q : Option NetnsPool) → Silent p (sent q)
  sent-Silent none = search silent_rules
  sent-Silent (some q) = search silent_rules

  send_to-Silent : (q : Option NetnsPool) (nc : NetnsConfig) → Silent p (send_to q nc)
  send_to-Silent none nc = search silent_rules
  send_to-Silent (some q) nc = sent-Silent (release q nc)

  send-Silent : (nc : NetnsConfig) → Silent p (send nc)
  unfolding send
  send-Silent nc = search (silent_rules, send_to-Silent)

  on_demand-Silent : (id : Str) → Silent p (on_demand env id)
  unfolding on_demand
  on_demand-Silent id = search (silent_rules, setup-Silent) depth 10

  taken-Silent : (id : Str) (o : Option (NetnsConfig × NetnsPool)) → Silent p (taken env id o)
  taken-Silent id none = on_demand-Silent id
  taken-Silent id (some (nc, q)) = search silent_rules

  from_pool-Silent : (id : Str) (o : Option NetnsPool) → Silent p (from_pool env id o)
  from_pool-Silent id none = on_demand-Silent id
  from_pool-Silent id (some q) = taken-Silent id (acquire q)

  pub acquire-Silent : (id : Str) → Silent p (acquire_netns env id)
  unfolding acquire_netns
  acquire-Silent id = search (silent_rules, from_pool-Silent)

  is_pooled-Silent : (nc : NetnsConfig) (o : Option NetnsPool) → Silent p (is_pooled env nc o)
  is_pooled-Silent nc none = search (silent_rules, cleanup-Silent) depth 10
  is_pooled-Silent nc (some q) = search (silent_rules, cleanup-Silent, send-Silent) depth 10

  pub release-Silent : (nc : Option NetnsConfig) → Silent p (release_netns env nc)
  unfolding release_netns
  release-Silent none = search silent_rules
  release-Silent (some nc) = search (silent_rules, is_pooled-Silent)
