-- ===== src/Bench.antt =====
-- The HTTP client of cmd/bench and cmd/bench_restore: the calls that they make of the server, and
-- what they take for an answer. A request's body is a JSON object of its arguments.
pub mod Calls
pub mod Percentile
pub mod Exec
pub mod Restore
pub mod OnServer
use manta.Prelude.{
  ℕ, ◌-◌, ◌≡◌, Bool, true, false, List, [], ◌∷◌, Option, none, some, ltb, ◌||◌, not, if◌then◌else◌,
}
use manta.Prelude.Int.{ℤ}
use manta.Text.{Str, is_empty}
use manta.Text.Trim.{trim_space}

-- POST /create, /exec, /destroy, /snapshot/create and /snapshot/restore.
pub data HttpRequest : Type 0 where
  create : HttpRequest
  exec : Str → Str → HttpRequest
  destroy : Str → HttpRequest
  snapshot_create : Str → Str → HttpRequest
  snapshot_restore : Str → HttpRequest

-- A response of the server with one id: createResponse, snapshotCreateResponse and
-- snapshotRestoreResponse have the same fields but for the name of the id.
pub record IdResponse : Type 0 where
  pub id : Str
  pub error : Str

pub record ExecResponse : Type 0 where
  pub stdout : Str
  pub stderr : Str
  pub exit_code : ℤ
  pub error : Str

pub record DestroyResponse : Type 0 where
  pub status : Str
  pub error : Str

-- client.Do with the body read, none where either fails; json.Unmarshal of each kind of response,
-- none where it fails; and the clock.
pub record Http (S : Type 0) : Type 0 where
  pub send : HttpRequest → S → Option (ℕ × Str) × S
  pub now : S → ℕ
  pub created : Str → Option IdResponse
  pub executed : Str → Option ExecResponse
  pub destroyed : Str → Option DestroyResponse
  pub snapshotted : Str → Option IdResponse
  pub restored : Str → Option IdResponse

pub data Failure : Type 0 where
  transport status_not_ok undecodable refused : Failure
  exit_code_not_zero stdout_mismatch : Failure

pub data Outcome {ℓ} (A : Type ℓ) : Type ℓ where
  done : A → Outcome A
  failed : Failure → Outcome A

-- The calls made, the newest first, and the state of what answers them.
pub record Session (S : Type 0) : Type 0 where
  pub calls : List HttpRequest
  pub peer : S

-- Code of the client, which may return an error.
abbrev pub M : Type 0 → Type 0 → Type 0
M S A = Session S → Outcome A × Session S

-- The error as a value.
abbrev caught : {A : Type 0} → Outcome A → Outcome (Outcome A)
caught r = Outcome.done r

abbrev pub ok_status : Option (ℕ × Str) → Outcome Str
ok_status none = Outcome.failed Failure.transport
ok_status (some (code, raw)) =
    if ltb code 200 || not (ltb code 300)
    then Outcome.failed Failure.status_not_ok
    else Outcome.done raw

module _ {S : Type 0} where
  abbrev pub pure : {A : Type 0} → A → M S A
  pure a s = (Outcome.done a, s)

  abbrev pub raise : {A : Type 0} → Failure → M S A
  raise e s = (Outcome.failed e, s)

  abbrev pub continue : {A B : Type 0} → Outcome A → (A → M S B) → M S B
  continue (Outcome.done a) f s = f a s
  continue (Outcome.failed e) f s = (Outcome.failed e, s)

  infixl 5 ◌>>=◌ ◌>>◌
  abbrev pub ◌>>=◌ : {A B : Type 0} → M S A → (A → M S B) → M S B
  ◌>>=◌ m f s = let (r, s') = m s in continue r f s'

  abbrev pub ◌>>◌ : {A B : Type 0} → M S A → M S B → M S B
  m >> k = m >>= λ _. k

  abbrev pub catch : {A : Type 0} → M S A → M S (Outcome A)
  catch m s = let (r, s') = m s in (caught r, s')

  -- `defer`red code, whose own error is dropped.
  abbrev pub finally : {A : Type 0} → M S (Unit {0}) → M S A → M S A
  finally c m s = let (r, s') = m s in (r, (c s').1)

  abbrev pub check : Bool → Failure → M S (Unit {0})
  check true e = pure tt
  check false e = raise e

  abbrev pub decoded : {A : Type 0} → Option A → M S A
  decoded none = raise Failure.undecodable
  decoded (some a) = pure a

  module _ (http : Http S) where
    unfoldable pub do_json : HttpRequest → M S Str
    do_json c s =
        let (answer, peer) = http.send c s.peer in
        (ok_status answer, record { calls = c ∷ s.calls; peer = peer })

    abbrev pub clock : M S ℕ
    clock s = (Outcome.done (http.now s.peer), s)
