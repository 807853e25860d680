-- ===== src/Tests/Network.antt =====
-- Runs of the theorems on the networks.
use manta.Prelude.{
  ℕ, zero, suc, ◌+◌, ◌≡◌, ◌≢◌, ◌≤◌, Bool, true, false, not, ◌||◌, refl, [], ◌∷◌, ◌++◌, some, total,
  arith,
}
use manta.Text.{lit, str_eq}
use manta.Types.{NetnsConfig, NetnsPool}
use manta.Machine.{Error, err, World, Trace, Op, link_add_veth}
use manta.Machine.Counts.{cost}
use manta.Machine.Trace.{count}
use manta.Netns.{config_for}
use manta.Netns.Names.{config_for_distinct}
use manta.Netns.Setup.{setup_netns}
use manta.Netns.Setup.Failure.{is_delete_ns, deletes_netns, setup_netns_deletes}
use manta.Netns.Pool.{acquire, release, acquire_netns, pool_id}
use manta.Netns.Pool.Alloc.{IsHeld, acquire_netns_collides}
use manta.Netns.Pool.Slots.{
  Slots, Reach, acquires, start, later, pool_conserved, release_never_blocks,
}
use manta.Startup.{new_server}
use manta.Tests.Fixtures.{host, always, empty, net, server, cfg}

abbrev first : NetnsConfig
first = net (lit "manta-pool-001") 1

abbrev second : NetnsConfig
second = net (lit "manta-pool-002") 2

abbrev full : NetnsPool
full = record { size = 2; ch = first ∷ second ∷ []; all = first ∷ second ∷ [] }

abbrev one_left : NetnsPool
one_left = record { size = 2; ch = second ∷ []; all = first ∷ second ∷ [] }

abbrev one_taken : Slots
one_taken = record { pool = one_left; held = first ∷ []; lost = [] }

taken-Reach : Reach full one_taken
unfolding acquire
taken-Reach =
    later (start refl (omega arith))
      (acquires (record { pool = full; held = []; lost = [] }) first one_left refl)

pool_conserved_example :
    total (λ nc. nc.subnet) one_left.ch
      + total (λ nc. nc.subnet) one_taken.held
      + total (λ nc. nc.subnet) one_taken.lost
    ≡ total (λ nc. nc.subnet) one_left.all
pool_conserved_example = pool_conserved taken-Reach (λ nc. nc.subnet)

release_never_blocks_example :
    (q : NetnsPool) × (release one_left first ≡ some q) × (q.ch ≡ one_left.ch ++ first ∷ [])
release_never_blocks_example = release_never_blocks [] [] first taken-Reach refl

setup_netns_deletes_example :
    count is_delete_ns (setup_netns (host always) (lit "sb-1") 1 empty).1.trace
    ≡ count is_delete_ns empty.trace
      + cost deletes_netns 0 (setup_netns (host always) (lit "sb-1") 1 empty).0
setup_netns_deletes_example = setup_netns_deletes (host always) (lit "sb-1") 1 empty

config_for_distinct_example :
    let a = config_for (lit "sb-1") 1 in
    let b = config_for (lit "sb-2") 2 in
    (a.veth_host ≢ b.veth_host)
    × (a.veth_host_ip ≢ b.veth_host_ip)
    × (a.veth_ns_ip ≢ b.veth_ns_ip)
    × (a.veth_cidr ≢ b.veth_cidr)
    × (a.subnet_cidr ≢ b.subnet_cidr)
    × (a.guest_ip ≢ b.guest_ip)
config_for_distinct_example = config_for_distinct (lit "sb-1") (lit "sb-2") 1 2 (λ e. omega arith)

abbrev emptied : NetnsPool
emptied = record { size = 2; ch = []; all = first ∷ second ∷ [] }

abbrev exhausted : World
exhausted = record { server = server [] 0 (some emptied); trace = [] }

-- A kernel that has the devices of the pool's two entries.
abbrev has_devices : Trace → Op → Bool
has_devices tr (link_add_veth name peer) = not (
    str_eq name (config_for (pool_id 1) 1).veth_host
    || str_eq name (config_for (pool_id 2) 2).veth_host)
has_devices tr _ = true

devices-IsHeld : IsHeld (host has_devices) 2
unfolding config_for str_eq manta.Netns.veth_host_name manta.Text.Decimal.dec3
devices-IsHeld = record { taken = λ k peer tr some_entry in_pool. held k some_entry in_pool }
  where
    held :
        (k : ℕ)
        → 1 ≤ k
        → k ≤ 2
        → not (
            str_eq (config_for (pool_id k) k).veth_host (config_for (pool_id 1) 1).veth_host
            || str_eq (config_for (pool_id k) k).veth_host (config_for (pool_id 2) 2).veth_host)
          ≡ false
    held zero some_entry in_pool = absurd (omega arith)
    held (suc zero) some_entry in_pool = refl
    held (suc (suc zero)) some_entry in_pool = refl
    held (suc (suc (suc k))) some_entry in_pool = absurd (omega arith)

at_start : exhausted.server.next_subnet ≡ (new_server cfg).next_subnet + 0
unfolding new_server
at_start = refl

acquire_netns_collides_example :
    (e : Error) × ((acquire_netns (host has_devices) (lit "sb-3") exhausted).0 ≡ err e)
acquire_netns_collides_example =
    acquire_netns_collides (host has_devices) cfg (lit "sb-3") exhausted emptied 0 refl refl
      at_start (omega arith) (omega arith) devices-IsHeld
