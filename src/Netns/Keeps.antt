-- ===== src/Netns/Keeps.antt =====
-- Building, pooling and removing networks changes the pool and the counter of subnets only.
use manta.Prelude.{ℕ, zero, suc, ◌+◌, refl, Option, none, some}
use manta.Text.{Str}
use manta.Types.{NetnsConfig, NetnsPool}
use manta.Machine.{Env, modify}
use manta.Machine.Keeps.{Keeps, Keeps-bind, keeps_rules}
use manta.Netns.Setup.{
  need_or_delete, check_or_delete, make_netns, configure_root, configure_veth_ns, configure_tap,
  with_netns, add_guest_route, remove_veth, inside, after_veth, setup_netns,
}
use manta.Netns.Cleanup.{remove_links, cleanup_netns}
use manta.Netns.Pool.{
  sent, send_to, send, on_demand, taken, from_pool, acquire, acquire_netns, is_pooled,
  release_netns, release, record_in, init_entry, init_from, init_pool,
}

module _ (env : Env) where
  inside-Keeps : (c : NetnsConfig) → Keeps (inside env c)
  unfolding inside configure_veth_ns configure_tap
  inside-Keeps c = search keeps_rules depth 30

  root-Keeps : (c : NetnsConfig) → Keeps (configure_root env c)
  unfolding configure_root need_or_delete check_or_delete
  root-Keeps c = search keeps_rules depth 30

  remove_veth-Keeps : (name : Str) → Keeps (remove_veth env name)
  unfolding remove_veth
  remove_veth-Keeps name = search keeps_rules depth 10

  pub setup-Keeps : (id : Str) (subnet : ℕ) → Keeps (setup_netns env id subnet)
  unfolding setup_netns make_netns need_or_delete after_veth with_netns add_guest_route
  setup-Keeps id subnet = search (keeps_rules, inside-Keeps, root-Keeps, remove_veth-Keeps) depth 30

  pub cleanup-Keeps : (nc : NetnsConfig) → Keeps (cleanup_netns env nc)
  unfolding cleanup_netns remove_links
  cleanup-Keeps nc = search (keeps_rules, remove_veth-Keeps) depth 15

  sent-Keeps : (q : Option NetnsPool) → Keeps (sent q)
  sent-Keeps none = search keeps_rules
  sent-Keeps (some q) = search keeps_rules

  send_to-Keeps : (q : Option NetnsPool) (nc : NetnsConfig) → Keeps (send_to q nc)
  send_to-Keeps none nc = search keeps_rules
  send_to-Keeps (some q) nc = sent-Keeps (release q nc)

  send-Keeps : (nc : NetnsConfig) → Keeps (send nc)
  unfolding send
  send-Keeps nc = search (keeps_rules, send_to-Keeps)

  on_demand-Keeps : (id : Str) → Keeps (on_demand env id)
  unfolding on_demand
  on_demand-Keeps id = search (keeps_rules, setup-Keeps) depth 10

  taken-Keeps : (id : Str) (o : Option (NetnsConfig × NetnsPool)) → Keeps (taken env id o)
  taken-Keeps id none = on_demand-Keeps id
  taken-Keeps id (some (nc, q)) = search keeps_rules

  from_pool-Keeps : (id : Str) (o : Option NetnsPool) → Keeps (from_pool env id o)
  from_pool-Keeps id none = on_demand-Keeps id
  from_pool-Keeps id (some q) = taken-Keeps id (acquire q)

  pub acquire-Keeps : (id : Str) → Keeps (acquire_netns env id)
  unfolding acquire_netns
  acquire-Keeps id = search (keeps_rules, from_pool-Keeps)

  is_pooled-Keeps : (nc : NetnsConfig) (o : Option NetnsPool) → Keeps (is_pooled env nc o)
  is_pooled-Keeps nc none = search (keeps_rules, cleanup-Keeps) depth 10
  is_pooled-Keeps nc (some q) = search (keeps_rules, cleanup-Keeps, send-Keeps) depth 10

  pub release-Keeps : (nc : Option NetnsConfig) → Keeps (release_netns env nc)
  unfolding release_netns
  release-Keeps none = search keeps_rules
  release-Keeps (some nc) = search (keeps_rules, is_pooled-Keeps)

  entry-Keeps : (i : ℕ) → Keeps (init_entry env i)
  unfolding init_entry
  entry-Keeps i =
      search (keeps_rules, recorded-Keeps, cleanup-Keeps, setup-Keeps, send-Keeps) depth 12
    where
      recorded-Keeps :
          (nc : NetnsConfig)
          → Keeps (modify (λ s. record s { netns_pool = record_in s.netns_pool nc }))
      recorded-Keeps nc = record { at = λ w. refl }

  init_from-Keeps : (n i : ℕ) → Keeps (init_from env n i)
  unfolding init_from
  init_from-Keeps zero i = search keeps_rules
  init_from-Keeps (suc n) i = Keeps-bind _ _ (entry-Keeps i) (λ u. init_from-Keeps n (i + 1))

  pub init-Keeps : (size : ℕ) → Keeps (init_pool env size)
  unfolding init_pool
  init-Keeps size = init_from-Keeps size 1
