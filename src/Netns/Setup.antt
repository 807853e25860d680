-- ===== src/Netns/Setup.antt =====
-- `setupSandboxNetnsAndRouting` of netns.go and `withNetns` of netns_util.go. Closing the handles
-- is left out, and the thread is locked throughout.
pub mod Failure
use manta.Prelude.{ℕ, ◌++◌, Bool, true, false, if◌then◌else◌}
use manta.Text.{Str, lit}
use manta.Types.{NetnsConfig}
use manta.Machine
use manta.Machine.{
  Op, Env, Error, World, M, pure, raise, check, try, need, ignore, on_error, finally, ◌>>=◌, ◌>>◌,
  get_ns, set_ns, new_handle, enter_ns, leave_ns, new_ns, delete_ns, link_add_veth, link_set_ns,
  link_by_name, link_set_up, link_del, link_add_tap, addr_add, route_replace, write_file,
}
use manta.Netns.{config_for}

abbrev pub with_bits : Str → Str
with_bits ip = ip ++ lit "/30"

module _ (env : Env) where
  -- The steps whose failure deletes the namespace before the function returns.
  unfoldable pub need_or_delete : Str → Op → Error → M (Unit {0})
  need_or_delete ns op e = do
    done ← try env op
    if done then pure tt else (do ignore env (delete_ns ns); raise e)

  unfoldable pub check_or_delete : Str → Bool → Error → M (Unit {0})
  check_or_delete ns b e = if b then pure tt else (do ignore env (delete_ns ns); raise e)

  -- `netns.Get`, `netns.NewNamed` and `netns.Set`.
  unfoldable pub make_netns : NetnsConfig → M (Unit {0})
  make_netns c = do
    need env get_ns Error.get_current_netns
    need env (new_ns c.netns_name) Error.create_netns
    need env set_ns Error.restore_netns

  -- Moving the peer and configuring the root side.
  unfoldable pub configure_root : NetnsConfig → M (Unit {0})
  configure_root c = do
    need_or_delete c.netns_name (link_by_name c.veth_ns) Error.lookup_peer
    need_or_delete c.netns_name (link_set_ns c.veth_ns c.netns_name) Error.move_peer
    need_or_delete c.netns_name (link_by_name c.veth_host) Error.lookup_veth_host
    check_or_delete c.netns_name (env.parses (with_bits c.veth_host_ip)) Error.parse_veth_host_ip
    need env (addr_add c.veth_host (with_bits c.veth_host_ip)) Error.assign_veth_host_ip
    need env (link_set_up c.veth_host) Error.set_veth_host_up

  -- The function that runs inside the namespace: first the veth end and the default route.
  unfoldable pub configure_veth_ns : NetnsConfig → M (Unit {0})
  configure_veth_ns c = do
    need env new_handle Error.netns_handle
    need env (link_by_name c.veth_ns) Error.lookup_veth_ns
    check (env.parses (with_bits c.veth_ns_ip)) Error.parse_veth_ns_ip
    need env (addr_add c.veth_ns (with_bits c.veth_ns_ip)) Error.assign_veth_ns_ip
    need env (link_set_up c.veth_ns) Error.set_veth_ns_up
    need env (write_file (lit "/proc/sys/net/ipv4/ip_forward")) Error.enable_ip_forward
    check (env.parses c.veth_host_ip) Error.invalid_gateway
    need env (route_replace (lit "default") c.veth_host_ip) Error.ns_default_route

  -- Then the tap device.
  unfoldable pub configure_tap : NetnsConfig → M (Unit {0})
  configure_tap c = do
    need env (link_add_tap c.tap_name) Error.create_tap
    need env (link_by_name c.tap_name) Error.lookup_tap
    check (env.parses (with_bits c.host_ip)) Error.parse_tap_ip
    need env (addr_add c.tap_name (with_bits c.host_ip)) Error.assign_tap_ip
    need env (link_set_up c.tap_name) Error.set_tap_up

  unfoldable pub with_netns : M (Unit {0}) → M (Unit {0})
  with_netns fn = do need env enter_ns Error.enter_netns; finally (ignore env leave_ns) fn

  unfoldable pub add_guest_route : NetnsConfig → M (Unit {0})
  add_guest_route c = do
    check (env.parses c.subnet_cidr) Error.parse_guest_subnet
    check (env.parses c.veth_ns_ip) Error.invalid_veth_ns_ip
    need env (route_replace c.subnet_cidr c.veth_ns_ip) Error.guest_route

  -- The deferred removal of the veth pair, also a part of the cleanup.
  unfoldable pub remove_veth : Str → M (Unit {0})
  remove_veth name = do
    found ← try env (link_by_name name)
    if found then ignore env (link_del name) else pure tt

  unfoldable pub inside : NetnsConfig → M (Unit {0})
  inside c = do configure_veth_ns c; configure_tap c

  unfoldable pub after_veth : NetnsConfig → M (Unit {0})
  after_veth c = do configure_root c; with_netns (inside c); add_guest_route c

  unfoldable pub setup_netns : Str → ℕ → M NetnsConfig
  setup_netns id subnet =
      let c = config_for id subnet in
      do
        make_netns c
        need_or_delete c.netns_name new_handle Error.root_handle
        need_or_delete c.netns_name (link_add_veth c.veth_host c.veth_ns) Error.create_veth
        on_error (remove_veth c.veth_host) (after_veth c)
        pure c
