-- ===== src/Netns/Setup/Failure.antt =====
-- What a failed setup of a sandbox network leaves behind.
use manta.Prelude.{ℕ, ◌+◌, ◌≡◌, Bool, true, false, arith}
use manta.Text.{Str}
use manta.Types.{NetnsConfig}
use manta.Machine.{
  Op, Env, Error, World, M, delete_ns, root_handle, create_veth, lookup_peer, move_peer,
  lookup_veth_host, parse_veth_host_ip,
}
use manta.Machine.Counts.{Counts, Other, cost, counts_rules}
use manta.Machine.Trace.{count}
use manta.Netns.Setup.{
  need_or_delete, check_or_delete, make_netns, configure_root, configure_veth_ns, configure_tap,
  with_netns, add_guest_route, remove_veth, inside, after_veth, setup_netns,
}

abbrev pub is_delete_ns : Op → Bool → Bool
is_delete_ns (delete_ns n) done = true
is_delete_ns _ done = false

-- The errors that are returned after the namespace has been deleted.
abbrev pub deletes_netns : Error → ℕ
deletes_netns root_handle = 1
deletes_netns create_veth = 1
deletes_netns lookup_peer = 1
deletes_netns move_peer = 1
deletes_netns lookup_veth_host = 1
deletes_netns parse_veth_host_ip = 1
deletes_netns _ = 0

module _ (env : Env) where
  need_or_delete-Counts :
      (ns : Str) (op : Op) (e : Error)
      → Other is_delete_ns op
      → deletes_netns e ≡ 1
      → Counts is_delete_ns deletes_netns 0 (need_or_delete env ns op e)
  unfolding need_or_delete count
  need_or_delete-Counts ns op e h one = record { at = λ w. ground arith }

  check_or_delete-Counts :
      (ns : Str) (b : Bool) (e : Error)
      → deletes_netns e ≡ 1
      → Counts is_delete_ns deletes_netns 0 (check_or_delete env ns b e)
  unfolding check_or_delete count
  check_or_delete-Counts ns true e one = record { at = λ w. omega arith }
  check_or_delete-Counts ns false e one = record { at = λ w. omega arith }

  remove_veth-Counts : (name : Str) → Counts is_delete_ns (λ _. 0) 0 (remove_veth env name)
  unfolding remove_veth
  remove_veth-Counts name = search counts_rules depth 10

  with_netns-Counts :
      (fn : M (Unit {0}))
      → Counts is_delete_ns deletes_netns 0 fn
      → Counts is_delete_ns deletes_netns 0 (with_netns env fn)
  unfolding with_netns
  with_netns-Counts fn h = search counts_rules depth 10

module _ (env : Env) (c : NetnsConfig) where
  make_netns-Counts : Counts is_delete_ns deletes_netns 0 (make_netns env c)
  unfolding make_netns
  make_netns-Counts = search counts_rules

  inside-Counts : Counts is_delete_ns deletes_netns 0 (inside env c)
  unfolding inside configure_veth_ns configure_tap
  inside-Counts = search counts_rules depth 20

  configure_root-Counts : Counts is_delete_ns deletes_netns 0 (configure_root env c)
  unfolding configure_root
  configure_root-Counts =
      search (counts_rules, need_or_delete-Counts, check_or_delete-Counts) depth 20

  add_guest_route-Counts : Counts is_delete_ns deletes_netns 0 (add_guest_route env c)
  unfolding add_guest_route
  add_guest_route-Counts = search counts_rules depth 10

  after_veth-Counts : Counts is_delete_ns deletes_netns 0 (after_veth env c)
  unfolding after_veth
  after_veth-Counts =
      search
        (
          counts_rules, configure_root-Counts, with_netns-Counts, inside-Counts,
          add_guest_route-Counts,
        )
        depth 12

setup_netns-Counts :
    (env : Env) (id : Str) (subnet : ℕ)
    → Counts is_delete_ns deletes_netns 0 (setup_netns env id subnet)
unfolding setup_netns
setup_netns-Counts env id subnet =
    search
      (
        counts_rules, make_netns-Counts, need_or_delete-Counts, remove_veth-Counts,
        after_veth-Counts,
      )
      depth 15

-- A setup of a network calls for the deletion of the namespace once if it fails with one of the six
-- errors of `deletes_netns`, from `netns.NewHandle` to the parsing of the host's address, and not at
-- all at any other failure (from the assignment of that address on, for one) or at success.
pub setup_netns_deletes :
    (env : Env) (id : Str) (subnet : ℕ) (w : World)
    → count is_delete_ns (setup_netns env id subnet w).1.trace
      ≡ count is_delete_ns w.trace + cost deletes_netns 0 (setup_netns env id subnet w).0
setup_netns_deletes env id subnet w = (setup_netns-Counts env id subnet).at w
