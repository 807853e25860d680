-- ===== src/Guest.antt =====
-- cmd/agent/main.go: how the agent in a guest answers a request. The loop that reads the requests
-- of a connection is in Guest/Serve, the messages themselves in Rpc/Frame; the listener is not
-- modelled.
pub mod Exec
pub mod Network
pub mod Agreement
pub mod Serve
use manta.Prelude.{
  ℕ, Bool, true, false, List, ◌∷◌, [], ◌++◌, Option, none, some, String, if◌then◌else◌,
}
use manta.Prelude.Int.{ℤ}
use manta.Text.{Str, lit, str_eq}
use manta.Rpc.{Request, Response, ExecRequest, ExecResponse, NetRequest}
use Exec.{Child, Command, ExecResult, run_exec}
use Network.{
  Netlink, Interface, NetError, configure_network, required, invalid_gateway, lookup_interface,
  set_up_failed, list_failed, remove_failed, parse_failed, assign_failed, route_failed,
}

-- The guest: how its commands end, what netlink answers, and the clock.
pub record Guest : Type 0 where
  pub child : Command → Child
  pub netlink : Netlink
  pub now_unix_ms : ℤ

abbrev pub agent_version : Str
agent_version = lit "v0.2.0"

abbrev pub refused : Str → Response
refused text = record { ok = false; error = text; ping = none; exec = none; net = none }

abbrev pub pong : ℤ → Response
pong now = record {
  ok = true;
  error = [];
  ping = some (record { agent_version = agent_version; now_unix_ms = now });
  exec = none;
  net = none;
}

-- errString, and whether the error is nil
abbrev pub error_text : Option Str → Str
error_text none = []
error_text (some e) = e

abbrev pub is_nil : Option Str → Bool
is_nil none = true
is_nil (some e) = false

abbrev pub exec_answer : ExecResult → Response
exec_answer out = record {
  ok = is_nil out.failure;
  error = error_text out.failure;
  ping = none;
  exec = some out.response;
  net = none;
}

abbrev pub handle_exec_request : Guest → Option ExecRequest → Response
handle_exec_request g none = refused (lit "missing exec payload")
handle_exec_request g (some req) = exec_answer (run_exec g.child req)

-- The text of the error, without the values and the cause that are formatted into it.
abbrev pub net_error_text : NetError → Str
net_error_text required = lit "address and gateway are required"
net_error_text invalid_gateway = lit "invalid gateway ip"
net_error_text lookup_interface = lit "lookup interface"
net_error_text set_up_failed = lit "set interface up"
net_error_text list_failed = lit "list addresses"
net_error_text remove_failed = lit "remove address"
net_error_text parse_failed = lit "parse interface address"
net_error_text assign_failed = lit "assign address"
net_error_text route_failed = lit "set default route"

abbrev pub net_answer : Option NetError × Interface → Response × Interface
net_answer (none, i) = (
  record {
    ok = true;
    error = [];
    ping = none;
    exec = none;
    net = some (record { configured = true });
  },
  i,
)
net_answer (some e, i) = (
  record {
    ok = false;
    error = net_error_text e;
    ping = none;
    exec = none;
    net = some (record { configured = false });
  },
  i,
)

abbrev pub handle_net_request : Guest → Option NetRequest → Interface → Response × Interface
handle_net_request g none i = (refused (lit "missing net payload"), i)
handle_net_request g (some req) i = net_answer (configure_network g.netlink req i)

-- The response, and the network interface as it is left. The escapes of %q are left out.
unfoldable pub handle : Guest → Request → Interface → Response × Interface
handle g req i =
    if str_eq req.kind (lit "ping")
    then (pong g.now_unix_ms, i)
    else if str_eq req.kind (lit "exec")
    then (handle_exec_request g req.exec, i)
    else if str_eq req.kind (lit "net")
    then handle_net_request g req.net i
    else (refused (lit "unknown request type \"" ++ (req.kind ++ lit "\"")), i)
