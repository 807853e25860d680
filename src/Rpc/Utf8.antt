-- ===== src/Rpc/Utf8.antt =====
-- The messages of internal/agentrpc/agentrpc.go whose texts encoding/json writes as they are.
use manta.Prelude.{Bool, true, ◌&&◌, Option, none, some}
use manta.Text.Utf8.{is_utf8, all_utf8}
use manta.Rpc.{PingResponse, ExecRequest, ExecResponse, NetRequest, Request, Response}

abbrev valid_exec : Option ExecRequest → Bool
valid_exec none = true
valid_exec (some r) = is_utf8 r.cmd && all_utf8 r.argv && is_utf8 r.cwd && all_utf8 r.env

abbrev valid_net : Option NetRequest → Bool
valid_net none = true
valid_net (some r) = is_utf8 r.interface && is_utf8 r.address && is_utf8 r.gateway && is_utf8 r.dns

-- Every text of a request is UTF-8.
abbrev pub valid_request : Request → Bool
valid_request r = is_utf8 r.kind && valid_exec r.exec && valid_net r.net

abbrev valid_ping : Option PingResponse → Bool
valid_ping none = true
valid_ping (some r) = is_utf8 r.agent_version

abbrev valid_output : Option ExecResponse → Bool
valid_output none = true
valid_output (some r) = is_utf8 r.stdout && is_utf8 r.stderr

-- Every text of a response is UTF-8, so the output of its command is.
abbrev pub valid_response : Response → Bool
valid_response r = is_utf8 r.error && valid_ping r.ping && valid_output r.exec
