-- ===== src/Netns/Pool/Alloc.antt =====
-- The fallback of cmd/server/netns_alloc.go: which device a network on demand asks for.
use manta.Prelude.{
  ℕ, ◌+◌, ◌%◌, ◌^◌, ◌<◌, ◌≤◌, ◌≡◌, refl, ap, sym, ◌∙◌, subst, [], some, false, arith,
}
use manta.Text.{Str}
use manta.Types.{Config, NetnsPool}
use manta.Machine.{
  new_handle, root_handle, create_veth, Op, Env, Error, Result, ok, err, World, Trace,
  link_add_veth,
}
use manta.Machine.Yields.{Returned, Yields, Yields-bind, Yields-then}
use manta.Netns.{config_for}
use manta.Netns.Setup.{setup_netns, need_or_delete, make_netns}
use manta.Netns.Pool.{on_demand, acquire, from_pool, taken, acquire_netns, take_first, pool_id}
use manta.Startup.{new_server}

-- The kernel has the veth device of each entry that a pool of this size made, so another device
-- cannot be added under its name (EEXIST).
pub record IsHeld (env : Env) (size : ℕ) : Type 0 where
  pub taken :
      (k : ℕ) (peer : Str) (tr : Trace)
      → 1 ≤ k
      → k ≤ size
      → env.succeeds tr (link_add_veth (config_for (pool_id k) k).veth_host peer) ≡ false

abbrev Never : {A : Type 0} → A → Type 0
Never a = ⊥

module _ (env : Env) where
  refused-Never :
      (ns : Str) (op : Op) (e : Error)
      → ((tr : Trace) → env.succeeds tr op ≡ false)
      → Yields Never (need_or_delete env ns op e)
  unfolding need_or_delete
  refused-Never ns op e refuses = record { at = λ w. rw (refuses w.trace) tt }

  setup-Never :
      (id : Str) (n : ℕ)
      → ((tr : Trace)
          → env.succeeds tr (link_add_veth (config_for id n).veth_host (config_for id n).veth_ns)
            ≡ false)
      → Yields Never (setup_netns env id n)
  unfolding setup_netns
  setup-Never id n refuses =
      let nc = config_for id n in
      Yields-bind {B = Unit {0}} (make_netns env nc) _ (λ u.
        Yields-bind {B = Unit {0}} (need_or_delete env nc.netns_name new_handle root_handle) _ (λ v.
          Yields-then Never
            (need_or_delete env nc.netns_name (link_add_veth nc.veth_host nc.veth_ns) create_veth) _
            (refused-Never nc.netns_name (link_add_veth nc.veth_host nc.veth_ns) create_veth
              refuses)
            (λ x never. absurd never)))

-- The fallbacks of a server since its start, as many of them as the pool has entries, fail: where
-- the pool has handed out all its entries and the fallback is the j-th since `newServer`, j from 0,
-- j less than the pool's size, which fits the uint32 counter, and the kernel has the entries'
-- devices, acquireNetns returns an error.
pub acquire_netns_collides :
    (env : Env) (cfg : Config) (id : Str) (w : World) (p : NetnsPool) (j : ℕ)
    → w.server.netns_pool ≡ some p
    → p.ch ≡ []
    → w.server.next_subnet ≡ (new_server cfg).next_subnet + j
    → j < p.size
    → p.size < 2 ^ 32
    → IsHeld env p.size
    → (e : Error) × ((acquire_netns env id w).0 ≡ err e)
unfolding acquire_netns acquire on_demand config_for new_server
acquire_netns_collides env cfg id w p j pool drained next few fits held =
    let n = (w.server.next_subnet + 1) % 2 ^ 32 in
    let falls : acquire_netns env id w ≡ on_demand env id w =
      ap (λ o. from_pool env id o w) pool ∙ ap (λ l. taken env id (take_first p l) w) drained in
    failed (acquire_netns env id w).0 (
      subst (λ r. Returned Never r.0) (sym falls)
        ((setup-Never env id n (λ tr. held.taken n _ tr (omega arith) (omega arith))).at
          (record w { server = record w.server { next_subnet = n } })))
  where
    failed : {A : Type 0} (r : Result A) → Returned Never r → (e : Error) × (r ≡ err e)
    failed (ok a) never = absurd never
    failed (err e) u = (e, refl)
