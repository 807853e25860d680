-- ===== src/Startup/Served.antt =====
-- From the startup on: the requests that the started server is sent.
use manta.Prelude.{ℕ, ◌^◌, ◌<◌, ◌≡◌, refl, ◌∙◌, ap, sym, subst, List, [], arith}
use manta.Prelude.Int.{ℤ, pos, negsuc}
use manta.Text.{Str}
use manta.Types.{Config, Server}
use manta.Machine.{Env, Result, ok, err, World, M, modify, continue, ◌>>=◌, ◌>>◌}
use manta.Machine.Keeps.{Keeps, Keeps-modify, Keeps-bind, registry, keeps_rules}
use manta.Netns.Pool.{set_pool, new_netns_pool}
use manta.Netns.Keeps.{init-Keeps}
use manta.Server.Invariant.{IsEntry, IsWellFormed}
use manta.Server.Invariant.Command.{Call, serve_all, creations, serve_all-IsWellFormed}
use manta.Server.Registry.{Every, IsDistinct}
use manta.Startup.{new_server, make_pool, init_netns_pool, start_server}
use manta.Startup.Preflight.{ensure_global_masquerade}

-- A success leaves a server with an empty map and the counter at its start.
abbrev IsFresh : Server → Type 0
IsFresh s = registry s ≡ ([], 0)

abbrev Left : Result (Unit {0}) → Server → Type 0
Left (ok u) s = IsFresh s
Left (err e) s = Unit

record Leaves (m : M (Unit {0})) : Type 0 where
  at : (w : World) → Left (m w).0 (m w).1.server

Leaves-bind :
    {A : Type 0} (m : M A) (k : A → M (Unit {0})) → ((a : A) → Leaves (k a)) → Leaves (m >>= k)
Leaves-bind {A} m k h = record { at = λ w. next (m w).0 (m w).1 }
  where
    next : (r : Result A) (w : World) → Left (continue r k w).0 (continue r k w).1.server
    next (ok a) w = (h a).at w
    next (err e) w = tt

Leaves-set : (s : Server) (m : M (Unit {0})) → IsFresh s → Keeps m → Leaves (modify (λ _. s) >> m)
Leaves-set s m f k = record { at = λ w. kept (m (set w)).0 (m (set w)).1 (k.at (set w) ∙ f) }
  where
    set : World → World
    set w = record w { server = s }

    kept : (r : Result (Unit {0})) (w : World) → IsFresh w.server → Left r w.server
    kept (ok u) w h = h
    kept (err e) w h = tt

module _ (env : Env) where
  masquerade-Keeps : (iface : Str) → Keeps (ensure_global_masquerade env iface)
  unfolding ensure_global_masquerade
  masquerade-Keeps iface = search keeps_rules depth 15

  make-Keeps : (n : ℕ) → Keeps (make_pool env n)
  make-Keeps n =
      Keeps-bind _ _ (Keeps-modify (set_pool (new_netns_pool n)) (λ s. refl))
        (λ u. init-Keeps env n)

  pool-Keeps : (size : ℤ) → Keeps (init_netns_pool env size)
  pool-Keeps (pos n) = search (keeps_rules, make-Keeps) depth 12
  pool-Keeps (negsuc n) = search keeps_rules

  ready-Keeps :
      (cfg : Config)
      → Keeps (
          ensure_global_masquerade env cfg.host_nat_iface
          >> init_netns_pool env cfg.netns_pool_size)
  ready-Keeps cfg =
      Keeps-bind _ _ (masquerade-Keeps cfg.host_nat_iface) (λ u. pool-Keeps cfg.netns_pool_size)

  made-Leaves :
      (cfg : Config)
      → Leaves (
          modify (λ _. new_server cfg)
          >> (ensure_global_masquerade env cfg.host_nat_iface
              >> init_netns_pool env cfg.netns_pool_size))
  unfolding new_server
  made-Leaves cfg = Leaves-set (new_server cfg) _ refl (ready-Keeps cfg)

  start-Leaves : Leaves (start_server env)
  unfolding start_server
  start-Leaves = search (made-Leaves, Leaves-bind) depth 8

fresh-IsWellFormed : (s : Server) → IsFresh s → IsWellFormed s
fresh-IsWellFormed s f = record {
  entries = subst (λ g. Every (IsEntry g.1) g.0) (sym f) tt;
  distinct = subst (λ g. IsDistinct g.0) (sym f) tt;
}

-- Where the startup succeeds, from whatever state, any sequence of requests with less than 2^64
-- creations leaves the map of sandboxes well formed.
pub start_server-IsWellFormed :
    (env : Env) (w : World) (cs : List Call)
    → (start_server env w).0 ≡ ok tt
    → creations cs < 2 ^ 64
    → IsWellFormed (serve_all env cs (start_server env w).1).server
start_server-IsWellFormed env w cs e room =
    let w' = (start_server env w).1 in
    let fresh : IsFresh w'.server = subst (λ r. Left r w'.server) e ((start-Leaves env).at w) in
    serve_all-IsWellFormed env cs w' (fresh-IsWellFormed w'.server fresh)
      (omega (arith, ap (λ g. g.1) fresh, room))
