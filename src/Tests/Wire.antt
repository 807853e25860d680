-- ===== src/Tests/Wire.antt =====
-- Runs of the theorems on the messages and on the agent in the guest.
use manta.Prelude.{
  ◌*◌, arith, ◌≤◌, ◌≡◌, ◌≢◌, refl, inr, true, false, [], ◌∷◌, ◌++◌, Option, none, some, length,
}
use manta.Prelude.Int.{pos}
use manta.Text.{Str, lit}
use manta.Text.Trim.{trim_space}
use manta.Text.Utf8.{is_utf8, rest_is_utf8, follow}
use manta.Rpc.{ExecRequest, NetRequest}
use manta.Rpc.Frame.{Json, put_uint32, write_message, read_message, read_message-write_message}
use manta.Guest.{Guest, handle}
use manta.Guest.Exec.{Child, exited, run_exec, output_limit, run_exec-IsBounded, command_timeout}
use manta.Guest.Network.{
  Netlink, Interface, only, configure_network, del_addresses, configure_network-Configured,
}
use manta.Guest.Agreement.{
  command_line, read_by_agent, select_mode-normalize_argv, handle-agent_reply,
  agent_request-command_timeout,
}
use manta.Server.{panicked}
use manta.Server.Exec.{ExecBody, agent_request, agent_reply}
use manta.Server.Exec.Mode.{select_mode, run}
use manta.Tests.Fixtures.{host, always, cfg}

-- Texts that are sent as they are, behind a quotation mark.
abbrev decode_text : Str → Option Str
decode_text [] = none
decode_text (q ∷ s) = some s

abbrev text : Json Str is_utf8
text = record {
  marshal = λ s. some (34 ∷ s);
  decode = decode_text;
  decodes = λ s raw utf8 e. decodes_text s raw e;
  nonempty = λ s raw e. nonempty_text s raw e;
}
  where
    decodes_text : (s raw : Str) → some (34 ∷ s) ≡ some raw → decode_text raw ≡ some s
    decodes_text s [] e = cc
    decodes_text s (q ∷ raw) e = cc

    nonempty_text : (s raw : Str) → some (34 ∷ s) ≡ some raw → raw ≢ []
    nonempty_text s raw e f = cc

hello_sent : write_message text (lit "hi") ≡ some (0 ∷ 0 ∷ 0 ∷ 3 ∷ 34 ∷ lit "hi")
unfolding write_message put_uint32
hello_sent = refl

hi_is_utf8 : is_utf8 (lit "hi") ≡ true
unfolding is_utf8 rest_is_utf8 follow
hi_is_utf8 = refl

read_message-write_message_example :
    read_message text ((0 ∷ 0 ∷ 0 ∷ 3 ∷ 34 ∷ lit "hi") ++ (9 ∷ [])) ≡ some (lit "hi", 9 ∷ [])
read_message-write_message_example =
    read_message-write_message text (lit "hi") (0 ∷ 0 ∷ 0 ∷ 3 ∷ 34 ∷ lit "hi") (9 ∷ []) hi_is_utf8
      hello_sent

abbrev list_files : ExecBody
list_files = record {
  sandbox_id = lit "sb-1";
  cmd = lit " ls ";
  argv = [];
  use_shell = none;
  timeout_ms = pos 0;
}

abbrev child : Child
child = record {
  stdout_pipe = none;
  stderr_pipe = none;
  start = none;
  ending = λ t. exited (pos 0);
  stdout = lit "some output";
  stderr = [];
}

abbrev netlink : Netlink
netlink = record {
  parses_ip = λ s. true;
  parses_addr = λ s. true;
  is_v4 = λ s. true;
  exists = λ s. true;
  set_up = true;
  assigned = lit "fe80::1/64" ∷ [];
  list_addresses = true;
  add_address = true;
  replace_route = true;
  del_address = λ s. true;
  write_resolv = true;
}

abbrev pub guest : Guest
guest = record { child = λ r. child; netlink = netlink; now_unix_ms = pos 0 }

abbrev pub eth0 : Interface
eth0 = record {
  up = false;
  addresses = lit "10.0.0.9/8" ∷ [];
  other_addresses = [];
  gateway = none;
  resolv = [];
}

accepted : select_mode (trim_space list_files.cmd) list_files.argv list_files.use_shell ≡ run true
unfolding select_mode trim_space
accepted = refl

select_mode-normalize_argv_example :
    read_by_agent (agent_request (host always) cfg list_files true).exec
    ≡ some (inr (command_line list_files true))
select_mode-normalize_argv_example =
    select_mode-normalize_argv (host always) cfg list_files true accepted

-- A timeout in the body itself.
abbrev patient : ExecBody
patient = record list_files { timeout_ms = pos 1500 }

abbrev asked : ExecRequest
asked = record {
  use_shell = true;
  cmd = lit "ls";
  argv = [];
  cwd = [];
  env = [];
  timeout_ms = pos 1500;
  max_output_bytes = pos 64;
}

asks : (agent_request (host always) cfg patient true).exec ≡ some asked
unfolding trim_space manta.Server.Exec.Timeout.milliseconds manta.Server.Exec.Timeout.exec_timeout
asks = refl

agent_request-command_timeout_example :
    (asked.timeout_ms ≡ pos 1500) × (command_timeout asked.timeout_ms ≡ pos (1500 * 1000000))
agent_request-command_timeout_example =
    agent_request-command_timeout (host always) cfg patient true 1500 asked refl (omega arith)
      (omega arith) asks

handle-agent_reply_example :
    agent_reply
      (host always)
      (handle guest (agent_request (host always) cfg list_files true) eth0).0.exec
    ≢ panicked
handle-agent_reply_example = handle-agent_reply (host always) cfg list_files true guest eth0

abbrev short : ExecRequest
short = record {
  use_shell = true;
  cmd = lit "ls";
  argv = [];
  cwd = [];
  env = [];
  timeout_ms = pos 0;
  max_output_bytes = pos 4;
}

run_exec-IsBounded_example :
    let r = (run_exec (λ c. child) short).response in
    (length r.stdout ≤ output_limit short.max_output_bytes)
    × (length r.stderr ≤ output_limit short.max_output_bytes)
run_exec-IsBounded_example = run_exec-IsBounded (λ c. child) short

abbrev address : NetRequest
address = record {
  interface = [];
  address = lit "172.16.1.2/30";
  gateway = lit "172.16.1.1";
  dns = [];
}

abbrev configured : Interface
configured = record {
  up = true;
  addresses = lit "172.16.1.2/30" ∷ [];
  other_addresses = lit "fe80::1/64" ∷ [];
  gateway = some (lit "172.16.1.1");
  resolv = [];
}

configures : configure_network netlink address eth0 ≡ (none, configured)
unfolding configure_network del_addresses trim_space
configures = refl

configure_network-Configured_example :
    (configured.up ≡ true)
    × (configured.addresses ≡ only true (trim_space address.address))
    × (configured.other_addresses
        ≡ (eth0.other_addresses ++ netlink.assigned) ++ only false (trim_space address.address))
    × (configured.gateway ≡ some (trim_space address.gateway))
configure_network-Configured_example =
    configure_network-Configured netlink address eth0 configured configures
