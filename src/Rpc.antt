-- ===== src/Rpc.antt =====
-- internal/agentrpc/agentrpc.go: the messages between the host and the agent in the guest.
pub mod Frame
pub mod Utf8
use manta.Prelude.{ℕ, Bool, List, Option}
use manta.Prelude.Int.{ℤ}
use manta.Text.{Str}

pub record PingResponse : Type 0 where
  pub agent_version : Str
  pub now_unix_ms : ℤ

pub record ExecRequest : Type 0 where
  pub use_shell : Bool
  pub cmd : Str
  pub argv : List Str
  pub cwd : Str
  pub env : List Str
  pub timeout_ms : ℤ
  pub max_output_bytes : ℤ

pub record ExecResponse : Type 0 where
  pub exit_code : ℤ
  pub stdout : Str
  pub stderr : Str
  pub timed_out : Bool

pub record NetRequest : Type 0 where
  pub interface : Str
  pub address : Str
  pub gateway : Str
  pub dns : Str

pub record NetResponse : Type 0 where
  pub configured : Bool

-- `type` is `kind` here.
pub record Request : Type 0 where
  pub kind : Str
  pub exec : Option ExecRequest
  pub net : Option NetRequest

pub record Response : Type 0 where
  pub ok : Bool
  pub error : Str
  pub ping : Option PingResponse
  pub exec : Option ExecResponse
  pub net : Option NetResponse

abbrev pub default_port : ℕ
default_port = 7777

-- 8 MiB
abbrev pub max_message_bytes : ℕ
max_message_bytes = 8388608
