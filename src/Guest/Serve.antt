-- ===== src/Guest/Serve.antt =====
-- `serveConn` of cmd/agent/main.go: the requests of one connection, read, answered and written one
-- after the other. The stream is what the host sends until it closes its side.
use manta.Prelude.{
  ℕ, zero, suc, ◌<◌, ◌≡◌, ◌≢◌, refl, ap, Bool, true, false, List, [], ◌∷◌, ◌++◌, Option, none, some,
  arith, length, All,
}
use manta.Text.{Str}
use manta.Rpc.{Request, Response}
use manta.Rpc.Frame.{
  Json, write_message, read_message, read_message-shrinks, read_message-write_message,
}
use manta.Rpc.Utf8.{valid_request, valid_response}
use manta.Guest.{Guest, handle}
use manta.Guest.Network.{Interface}

-- How the loop ends: at the end of the stream or an error of the protocol, at a response that could
-- not be written, or at the end of the model's own fuel.
pub data Ended : Type 0 where
  read_failed write_failed out_of_fuel : Ended

-- What was sent back in whole messages, and the guest's network interface as it is left.
pub record Served : Type 0 where
  pub written : Str
  pub interface : Interface
  pub ended : Ended

abbrev pub ended_at : Interface → Ended → Served
ended_at i e = record { written = []; interface = i; ended = e }

abbrev pub after : Str → Served → Served
after bytes s = record s { written = bytes ++ s.written }

module _ (requests : Json Request valid_request) (responses : Json Response valid_response)
    (writes : ℕ → Bool) (g : Guest) where
  -- `writes k` is whether the write of the k-th response returns a nil error; `again` is the next
  -- round of the loop.
  abbrev pub wrote : (Str → Interface → Served) → Bool → Str → Str → Interface → Served
  wrote again true bytes rest i = after bytes (again rest i)
  wrote again false bytes rest i = ended_at i Ended.write_failed

  abbrev pub encoded : (Str → Interface → Served) → ℕ → Option Str → Str → Interface → Served
  encoded again k (some bytes) rest i = wrote again (writes k) bytes rest i
  encoded again k none rest i = ended_at i Ended.write_failed

  abbrev pub answered : (Str → Interface → Served) → ℕ → Response × Interface → Str → Served
  answered again k (resp, i) rest = encoded again k (write_message responses resp) rest i

  abbrev pub round : (Str → Interface → Served) → ℕ → Option (Request × Str) → Interface → Served
  round again k (some (req, rest)) i = answered again k (handle g req i) rest
  round again k none i = ended_at i Ended.read_failed

  unfoldable pub serve_loop : ℕ → ℕ → Str → Interface → Served
  serve_loop zero k s i = ended_at i Ended.out_of_fuel
  serve_loop (suc fuel) k s i =
      round (λ rest i'. serve_loop fuel (suc k) rest i') k (read_message requests s) i

  -- Every message takes a byte at least, so the length of the stream is fuel enough.
  unfoldable pub serve_conn : Str → Interface → Served
  serve_conn s i = serve_loop (suc (length s)) 0 s i

  abbrev Ends : Served → Type 0
  Ends r = r.ended ≢ Ended.out_of_fuel

  stops : (i : Interface) → Ends (ended_at i Ended.write_failed)
  stops i e = cc

  encoded-Ends :
      (again : Str → Interface → Served) (k : ℕ) (o : Option Str) (rest : Str) (i : Interface)
      → Ends (again rest i)
      → Ends (encoded again k o rest i)
  encoded-Ends again k none rest i h = stops i
  encoded-Ends again k (some bytes) rest i h = sent (writes k)
    where
      sent : (b : Bool) → Ends (wrote again b bytes rest i)
      sent true = h
      sent false = stops i

  round-Ends :
      (again : Str → Interface → Served) (k : ℕ) (s : Str) (o : Option (Request × Str))
      (i : Interface)
      → read_message requests s ≡ o
      → ((rest : Str) (i' : Interface) → length rest < length s → Ends (again rest i'))
      → Ends (round again k o i)
  round-Ends again k s none i e h = λ f. cc
  round-Ends again k s (some (req, rest)) i e h =
      let shorter = read_message-shrinks requests s req rest e in
      encoded-Ends again k _ rest _ (h rest _ shorter)

  serve_loop-Ends :
      (fuel k : ℕ) (s : Str) (i : Interface) → length s < fuel → Ends (serve_loop fuel k s i)
  unfolding serve_loop
  serve_loop-Ends zero k s i h = absurd (omega arith)
  serve_loop-Ends (suc fuel) k s i h =
      round-Ends (λ rest i'. serve_loop fuel (suc k) rest i') k s (read_message requests s) i refl
        λ rest i' shorter. serve_loop-Ends fuel (suc k) rest i' (omega arith)

  -- The loop on a connection ends, for every stream, whichever writes fail: at the end of the
  -- stream or an error of the protocol, or at a response that cannot be written.
  pub serve_conn-Ends : (s : Str) (i : Interface) → (serve_conn s i).ended ≢ Ended.out_of_fuel
  unfolding serve_conn
  serve_conn-Ends s i = serve_loop-Ends (suc (length s)) 0 s i (omega arith)

abbrev pub AreValid : List Request → Type 0
AreValid reqs = All (λ req. valid_request req ≡ true) reqs

-- What the guest answers to a list of requests, each in the state that the one before leaves.
unfoldable pub answers : Guest → List Request → Interface → List Response × Interface
answers g [] i = ([], i)
answers g (req ∷ reqs) i =
    let (resp, i') = handle g req i in let (resps, i'') = answers g reqs i' in (resp ∷ resps, i'')

-- The bytes of a list of messages, in order.
pub data Encodes {A : Type 0} {valid : A → Bool} (json : Json A valid) : List A → Str → Type 0 where
  done : Encodes json [] []
  next :
      {v : A} {vs : List A} (bytes : Str) {rest : Str}
      → write_message json v ≡ some bytes
      → Encodes json vs rest
      → Encodes json (v ∷ vs) (bytes ++ rest)

end_of_stream : (json : Json Request valid_request) → read_message json [] ≡ none
unfolding read_message
end_of_stream json = refl

module _ (requests : Json Request valid_request) (responses : Json Response valid_response)
    (g : Guest) where
  loop_answers :
      (fuel k : ℕ) (reqs : List Request) (s : Str) (i : Interface) (out : Str)
      → length s < fuel
      → AreValid reqs
      → Encodes requests reqs s
      → Encodes responses (answers g reqs i).0 out
      → serve_loop requests responses (λ k. true) g fuel k s i
        ≡ record { written = out; interface = (answers g reqs i).1; ended = Ended.read_failed }
  unfolding serve_loop answers
  loop_answers zero k reqs s i out h valid es rs = absurd (omega arith)
  loop_answers (suc fuel) k [] _ i _ h valid Encodes.done Encodes.done =
      rw (end_of_stream requests) refl
  loop_answers (suc fuel) k (req ∷ reqs) _ i _ h (first, others)
        (Encodes.next bytes {rest = rest} e es) (Encodes.next sent {rest = out} e' rs) =
      let left : length rest < fuel = still bytes rest first e h in
      rw (read_message-write_message requests req bytes rest first e, e')
        (ap (after sent)
          (loop_answers fuel (suc k) reqs rest (handle g req i).1 out left others es rs))
    where
      still :
          (bytes rest : Str)
          → valid_request req ≡ true
          → write_message requests req ≡ some bytes
          → length (bytes ++ rest) < suc fuel
          → length rest < fuel
      still bytes rest first e h =
          let shorter =
            read_message-shrinks requests (bytes ++ rest) req rest
              (read_message-write_message requests req bytes rest first e) in
          omega arith

  -- What a client writes as whole messages, any number of them, their texts all UTF-8, is answered
  -- in full and in order, where every response can be encoded and written: the response to each is
  -- the agent's answer in the state that the earlier ones left.
  pub serve_conn-answers :
      (reqs : List Request) (s : Str) (i : Interface) (out : Str)
      → AreValid reqs
      → Encodes requests reqs s
      → Encodes responses (answers g reqs i).0 out
      → serve_conn requests responses (λ k. true) g s i
        ≡ record { written = out; interface = (answers g reqs i).1; ended = Ended.read_failed }
  unfolding serve_conn
  serve_conn-answers reqs s i out = loop_answers (suc (length s)) 0 reqs s i out (omega arith)
