-- ===== src/Tests/Connection.antt =====
-- Runs of the theorems on the agent's loop on a connection.
use manta.Prelude.{
  ℕ, zero, suc, ◌≡◌, ◌≢◌, refl, Bool, true, false, List, [], ◌∷◌, ◌++◌, Option, none, some,
}
use manta.Text.{Str, lit, str_eq}
use manta.Rpc.{Request, Response, ExecRequest, NetRequest, PingResponse, ExecResponse, NetResponse}
use manta.Rpc.Utf8.{valid_request, valid_response}
use manta.Text.Utf8.{is_utf8, rest_is_utf8, follow}
use manta.Rpc.Frame.{Json, put_uint32, write_message}
use manta.Guest.{handle, refused}
use manta.Guest.Serve.{
  Ended, Encodes, AreValid, answers, serve_conn, serve_conn-answers, serve_conn-Ends,
}
use manta.Tests.Wire.{guest, eth0}

abbrev of_kind : Str → Request
of_kind s = record { kind = s; exec = none; net = none }

-- Requests without a payload, sent as their kind.
abbrev put_request : Str → Option ExecRequest → Option NetRequest → Option Str
put_request kind none none = some (34 ∷ kind)
put_request kind _ _ = none

abbrev get_request : Str → Option Request
get_request [] = none
get_request (q ∷ s) = some (of_kind s)

abbrev requests : Json Request valid_request
requests = record {
  marshal = λ r. put_request r.kind r.exec r.net;
  decode = get_request;
  decodes = λ r raw utf8 e. back r.kind r.exec r.net raw e;
  nonempty = λ r raw e. some_text r.kind r.exec r.net raw e;
}
  where
    back :
        (kind : Str) (exec : Option ExecRequest) (net : Option NetRequest) (raw : Str)
        → put_request kind exec net ≡ some raw
        → get_request raw ≡ some (record { kind = kind; exec = exec; net = net })
    back kind none none [] e = cc
    back kind none none (q ∷ raw) e = let e' : kind ≡ raw = cc in rw e' refl
    back kind none (some n) raw e = cc
    back kind (some x) none raw e = cc
    back kind (some x) (some n) raw e = cc

    some_text :
        (kind : Str) (exec : Option ExecRequest) (net : Option NetRequest) (raw : Str)
        → put_request kind exec net ≡ some raw
        → raw ≢ []
    some_text kind none none raw e f = cc
    some_text kind none (some n) raw e f = cc
    some_text kind (some x) none raw e f = cc
    some_text kind (some x) (some n) raw e f = cc

-- Refusals, sent as their text.
abbrev put_response :
    Bool → Str → Option PingResponse → Option ExecResponse → Option NetResponse → Option Str
put_response false text none none none = some (34 ∷ text)
put_response _ _ _ _ _ = none

abbrev get_response : Str → Option Response
get_response [] = none
get_response (q ∷ s) = some (refused s)

abbrev responses : Json Response valid_response
responses = record {
  marshal = λ r. put_response r.ok r.error r.ping r.exec r.net;
  decode = get_response;
  decodes = λ r raw utf8 e. back r.ok r.error r.ping r.exec r.net raw e;
  nonempty = λ r raw e. some_text r.ok r.error r.ping r.exec r.net raw e;
}
  where
    back :
        (ok : Bool) (text : Str) (p : Option PingResponse) (x : Option ExecResponse)
        (n : Option NetResponse) (raw : Str)
        → put_response ok text p x n ≡ some raw
        → get_response raw ≡ some (record { ok = ok; error = text; ping = p; exec = x; net = n })
    back true text p x n raw e = cc
    back false text (some p) x n raw e = cc
    back false text none (some x) n raw e = cc
    back false text none none (some n) raw e = cc
    back false text none none none [] e = cc
    back false text none none none (q ∷ raw) e = let e' : text ≡ raw = cc in rw e' refl

    some_text :
        (ok : Bool) (text : Str) (p : Option PingResponse) (x : Option ExecResponse)
        (n : Option NetResponse) (raw : Str)
        → put_response ok text p x n ≡ some raw
        → raw ≢ []
    some_text true text p x n raw e f = cc
    some_text false text (some p) x n raw e f = cc
    some_text false text none (some x) n raw e f = cc
    some_text false text none none (some n) raw e f = cc
    some_text false text none none none raw e f = cc

abbrev two : List Request
two = of_kind (lit "a") ∷ of_kind (lit "net") ∷ []

abbrev sent : Str
sent = (0 ∷ 0 ∷ 0 ∷ 2 ∷ 34 ∷ lit "a") ++ ((0 ∷ 0 ∷ 0 ∷ 4 ∷ 34 ∷ lit "net") ++ [])

abbrev replies : Str
replies =
    (0 ∷ 0 ∷ 0 ∷ 25 ∷ 34 ∷ lit "unknown request type \"a\"")
    ++ ((0 ∷ 0 ∷ 0 ∷ 20 ∷ 34 ∷ lit "missing net payload") ++ [])

both_sent : Encodes requests two sent
unfolding write_message put_uint32
both_sent = Encodes.next _ refl (Encodes.next _ refl Encodes.done)

both_answered : Encodes responses (answers guest two eth0).0 replies
unfolding write_message put_uint32 answers handle str_eq
both_answered = Encodes.next _ refl (Encodes.next _ refl Encodes.done)

both_valid : AreValid two
unfolding is_utf8 rest_is_utf8 follow
both_valid = (refl, (refl, tt))

serve_conn-answers_example : serve_conn requests responses (λ k. true) guest sent eth0 ≡ record {
  written = replies;
  interface = (answers guest two eth0).1;
  ended = Ended.read_failed;
}
serve_conn-answers_example =
    serve_conn-answers requests responses guest two sent eth0 replies both_valid both_sent
      both_answered

-- The second response cannot be written.
abbrev first_write : ℕ → Bool
first_write zero = true
first_write (suc k) = false

serve_conn-Ends_example :
    (serve_conn requests responses first_write guest sent eth0).ended ≢ Ended.out_of_fuel
serve_conn-Ends_example = serve_conn-Ends requests responses first_write guest sent eth0
