-- ===== src/Netns/Cleanup.antt =====
-- `cleanupSandboxNetnsAndRouting` of netns.go.
use manta.Prelude.{if◌then◌else◌, ◌&&◌}
use manta.Types.{NetnsConfig}
use manta.Machine.{
  Env, Error, M, pure, raise, try, ignore, ◌>>=◌, ◌>>◌, new_handle, delete_ns, route_del,
}
use manta.Netns.Setup.{remove_veth}

module _ (env : Env) where
  unfoldable pub remove_links : NetnsConfig → M (Unit {0})
  remove_links nc = do
    if env.parses nc.subnet_cidr then ignore env (route_del nc.subnet_cidr) else pure tt
    remove_veth env nc.veth_host

  -- The two messages that the source joins are one error here.
  unfoldable pub cleanup_netns : NetnsConfig → M (Unit {0})
  cleanup_netns nc = do
    handle ← try env new_handle
    if handle then remove_links nc else pure tt
    deleted ← try env (delete_ns nc.netns_name)
    if handle && deleted then pure tt else raise Error.delete_netns
