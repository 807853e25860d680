-- ===== src/Netns/Pool.antt =====
-- cmd/server/netns_pool.go and netns_alloc.go: the pool of networks that are built in advance, and
-- the choice between it and a network built on demand.
pub mod Slots
pub mod Alloc
use manta.Prelude.{
  ℕ, zero, suc, ◌+◌, ◌%◌, ◌^◌, true, false, List, [], ◌∷◌, ◌++◌, Option, none, some, length, ltb,
  if◌then◌else◌,
}
use manta.Text.{Str, lit}
use manta.Text.Decimal.{dec3}
use manta.Types.{NetnsConfig, NetnsPool, Server}
use manta.Machine.{
  Env, Error, Result, ok, err, World, M, pure, raise, catch, modify, gets, ◌>>=◌, ◌>>◌,
}
use manta.Netns.{config_for, netns_name_for_sandbox, veth_host_name, guest_net_ip}
use manta.Netns.Setup.{setup_netns}
use manta.Netns.Cleanup.{cleanup_netns}

unfoldable pub new_netns_pool : ℕ → NetnsPool
new_netns_pool size = record { size = size; ch = []; all = [] }

abbrev pub take_first : NetnsPool → List NetnsConfig → Option (NetnsConfig × NetnsPool)
take_first p [] = none
take_first p (nc ∷ rest) = some (nc, record p { ch = rest })

-- A receive; none is the timeout of an empty channel.
unfoldable pub acquire : NetnsPool → Option (NetnsConfig × NetnsPool)
acquire p = take_first p p.ch

-- A send; none is a full channel, on which it never returns.
unfoldable pub release : NetnsPool → NetnsConfig → Option NetnsPool
release p nc = if ltb (length p.ch) p.size then some (record p { ch = p.ch ++ (nc ∷ []) }) else none

-- `pool-%03d`
abbrev pub pool_id : ℕ → Str
pool_id i = lit "pool-" ++ dec3 i

abbrev pub set_pool : NetnsPool → Server → Server
set_pool p s = record s { netns_pool = some p }

-- The send of `Release` and of `Init`, on the server's pool.
abbrev pub sent : Option NetnsPool → M (Unit {0})
sent none = raise Error.blocked
sent (some p) = modify (set_pool p)

abbrev pub send_to : Option NetnsPool → NetnsConfig → M (Unit {0})
send_to none nc = pure tt
send_to (some p) nc = sent (release p nc)

unfoldable pub send : NetnsConfig → M (Unit {0})
send nc = do pool ← gets (λ s. s.netns_pool); send_to pool nc

abbrev pub record_in : Option NetnsPool → NetnsConfig → Option NetnsPool
record_in none nc = none
record_in (some p) nc = some (record p { all = p.all ++ (nc ∷ []) })

-- What `Init` removes before it builds the i-th entry: only these three fields are set.
abbrev pub stale_entry : ℕ → NetnsConfig
stale_entry i = record {
  netns_name = netns_name_for_sandbox (pool_id i);
  subnet = 0;
  pooled = false;
  veth_host = veth_host_name i;
  veth_ns = [];
  veth_cidr = [];
  veth_host_ip = [];
  veth_ns_ip = [];
  tap_name = [];
  subnet_cidr = guest_net_ip i ".0/30";
  host_ip = [];
  guest_ip = [];
}

module _ (env : Env) where
  -- One round of the loop of `Init`.
  unfoldable pub init_entry : ℕ → M (Unit {0})
  init_entry i = do
    _ ← catch (cleanup_netns env (stale_entry i))
    built ← setup_netns env (pool_id i) i
    let nc = record built { pooled = true; subnet = i }
    modify (λ s. record s { netns_pool = record_in s.netns_pool nc })
    send nc

  -- The rounds that are left, from the i-th on.
  unfoldable pub init_from : ℕ → ℕ → M (Unit {0})
  init_from zero i = pure tt
  init_from (suc n) i = do init_entry i; init_from n (i + 1)

  unfoldable pub init_pool : ℕ → M (Unit {0})
  init_pool size = init_from size 1

  -- A network on demand: the counter is a uint32.
  unfoldable pub on_demand : Str → M NetnsConfig
  on_demand id = do
    subnet ← gets (λ s. (s.next_subnet + 1) % 2 ^ 32)
    modify (λ s. record s { next_subnet = subnet })
    setup_netns env id subnet

  abbrev pub taken : Str → Option (NetnsConfig × NetnsPool) → M NetnsConfig
  taken id none = on_demand id
  taken id (some (nc, p)) = do modify (set_pool p); pure nc

  abbrev pub from_pool : Str → Option NetnsPool → M NetnsConfig
  from_pool id none = on_demand id
  from_pool id (some p) = taken id (acquire p)

  unfoldable pub acquire_netns : Str → M NetnsConfig
  acquire_netns id = do pool ← gets (λ s. s.netns_pool); from_pool id pool

  abbrev pub is_pooled : NetnsConfig → Option NetnsPool → M (Unit {0})
  is_pooled nc none = do _ ← catch (cleanup_netns env nc); pure tt
  is_pooled nc (some p) =
      if nc.pooled then send nc else (do _ ← catch (cleanup_netns env nc); pure tt)

  unfoldable pub release_netns : Option NetnsConfig → M (Unit {0})
  release_netns none = pure tt
  release_netns (some nc) = do pool ← gets (λ s. s.netns_pool); is_pooled nc pool

  -- `Destroy`: the entries are removed, and stay in the channel.
  unfoldable pub destroy_each : List NetnsConfig → M (Unit {0})
  destroy_each [] = pure tt
  destroy_each (nc ∷ rest) = do _ ← catch (cleanup_netns env nc); destroy_each rest

  abbrev pub entries : Option NetnsPool → List NetnsConfig
  entries none = []
  entries (some p) = p.all

  unfoldable pub destroy_pool : M (Unit {0})
  destroy_pool = do all ← gets (λ s. entries s.netns_pool); destroy_each all
