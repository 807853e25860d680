-- ===== src/Rpc/Frame.antt =====
-- WriteMessage and ReadMessage of internal/agentrpc/agentrpc.go: a message is the length of its JSON
-- text in four bytes, the highest first, and that text. A stream is the bytes that it still holds.
use manta.Prelude.{
  ℕ, ◌+◌, ◌*◌, ◌/◌, ◌%◌, ◌<◌, ◌≡◌, ◌≢◌, Bool, refl, subst, inl, inr, true, false, [], ◌∷◌, ◌++◌,
  Option, none, some, arith, length, take, drop, length-append, take-append, drop-append,
  length-drop, ◌≤◌, ltb, leb, ◌==◌, ◌||◌, if◌then◌else◌, Bool-cases,
}
use manta.Text.{Str}
use manta.Rpc.{max_message_bytes}

-- binary.BigEndian.PutUint32 of a uint32, and Uint32.
unfoldable pub put_uint32 : ℕ → Str
put_uint32 n = (n / 16777216) % 256 ∷ (n / 65536) % 256 ∷ (n / 256) % 256 ∷ n % 256 ∷ []

unfoldable pub uint32 : ℕ → ℕ → ℕ → ℕ → ℕ
uint32 a b c d = a * 16777216 + b * 65536 + c * 256 + d

uint32-put_uint32 :
    (n : ℕ)
    → n < 4294967296
    → uint32 ((n / 16777216) % 256) ((n / 65536) % 256) ((n / 256) % 256) (n % 256) ≡ n
unfolding uint32
uint32-put_uint32 n h = omega arith

-- io.ReadFull: the bytes and the rest of the stream, or an error at its end.
unfoldable pub read_full : ℕ → Str → Option (Str × Str)
read_full n s = if leb n (length s) then some (take n s, drop n s) else none

read_full-append : (xs ys : Str) → read_full (length xs) (xs ++ ys) ≡ some (xs, ys)
unfolding read_full
read_full-append xs ys =
    let there : leb (length xs) (length (xs ++ ys)) ≡ true = ground (arith, length-append xs ys) in
    rw (there, take-append xs ys, drop-append xs ys) refl

length_positive : (xs : Str) → xs ≢ [] → 0 < length xs
length_positive [] h = absurd (h refl)
length_positive (x ∷ xs) h = omega arith

-- encoding/json on one type of messages, of which `valid` are those whose texts are all UTF-8: it
-- encodes to a text that is not empty, and of a valid message what it has encoded it decodes. (In
-- the place of bytes that are not UTF-8 it writes U+FFFD.)
pub record Json (A : Type 0) (valid : A → Bool) : Type 0 where
  pub marshal : A → Option Str
  pub decode : Str → Option A
  pub decodes : (a : A) (raw : Str) → valid a ≡ true → marshal a ≡ some raw → decode raw ≡ some a
  pub nonempty : (a : A) (raw : Str) → marshal a ≡ some raw → raw ≢ []

none_apart : {x : Str} → none ≡ some x → ⊥
none_apart e = cc

some_inj : {x y : Str} → some x ≡ some y → x ≡ y
some_inj e = cc

module _ {A : Type 0} {valid : A → Bool} (json : Json A valid) where
  abbrev pub framed : Option Str → Option Str
  framed none = none
  framed (some raw) =
      if ltb max_message_bytes (length raw)
      then none
      else some (put_uint32 (length raw % 4294967296) ++ raw)

  -- The bytes that are written; none is an error, before any byte.
  unfoldable pub write_message : A → Option Str
  write_message v = framed (json.marshal v)

  abbrev pub decoded : Str → Option A → Option (A × Str)
  decoded rest none = none
  decoded rest (some v) = some (v, rest)

  abbrev pub body_read : Option (Str × Str) → Option (A × Str)
  body_read none = none
  body_read (some (raw, rest)) = decoded rest (json.decode raw)

  abbrev pub header_read : ℕ → Str → Option (A × Str)
  header_read n s = if n == 0 || ltb max_message_bytes n then none else body_read (read_full n s)

  -- The message and the rest of the stream.
  unfoldable pub read_message : Str → Option (A × Str)
  read_message (a ∷ b ∷ c ∷ d ∷ s) = header_read (uint32 a b c d) s
  read_message _ = none

  read_back :
      (v : A) (raw rest : Str)
      → valid v ≡ true
      → json.marshal v ≡ some raw
      → ltb max_message_bytes (length raw) ≡ false
      → read_message ((put_uint32 (length raw % 4294967296) ++ raw) ++ rest) ≡ some (v, rest)
  unfolding read_message put_uint32
  read_back v raw rest utf8 e fits =
      let n = length raw in
      let small : n % 4294967296 ≡ n = ground arith in
      let whole = uint32-put_uint32 n (ground arith) in
      let positive = length_positive raw (json.nonempty v raw e) in
      let accepted : (n == 0 || ltb max_message_bytes n) ≡ false = ground arith in
      rw (small, whole, accepted, read_full-append raw rest, json.decodes v raw utf8 e) refl

  -- A message whose texts are all UTF-8, which one side writes, the other reads whole, and with what
  -- follows it left in the stream.
  pub read_message-write_message :
      (v : A) (bytes rest : Str)
      → valid v ≡ true
      → write_message v ≡ some bytes
      → read_message (bytes ++ rest) ≡ some (v, rest)
  unfolding write_message
  read_message-write_message v bytes rest utf8 e = written (json.marshal v) refl e
    where
      written :
          (o : Option Str)
          → json.marshal v ≡ o
          → framed o ≡ some bytes
          → read_message (bytes ++ rest) ≡ some (v, rest)
      written none h f = cc
      written (some raw) h f = elim (Bool-cases (ltb max_message_bytes (length raw))) [
        | inl big ↦ absurd (
            none_apart (
              subst
                (λ b.
                  (if b then none else some (put_uint32 (length raw % 4294967296) ++ raw))
                  ≡ some bytes)
                big f))
        | inr fits ↦
            subst (λ x. read_message (x ++ rest) ≡ some (v, rest))
              (some_inj (
                subst
                  (λ b.
                    (if b then none else some (put_uint32 (length raw % 4294967296) ++ raw))
                    ≡ some bytes)
                  fits f))
              (read_back v raw rest utf8 h fits)
      ]

  -- A message takes its header, at least, from the stream.
  body-shrinks :
      (n : ℕ) (s : Str) (v : A) (rest : Str)
      → body_read (read_full n s) ≡ some (v, rest)
      → length rest ≤ length s
  unfolding read_full
  body-shrinks n s v rest e = elim (Bool-cases (leb n (length s))) [
    | inl fits ↦ taken (json.decode (take n s)) (rw fits at e)
    | inr short ↦ let e' : none ≡ some (v, rest) = rw short at e in cc
  ]
    where
      taken : (o : Option A) → decoded (drop n s) o ≡ some (v, rest) → length rest ≤ length s
      taken none h = cc
      taken (some u) h =
          let h' : drop n s ≡ rest = cc in
          subst (λ r. length r ≤ length s) h' (omega (arith, length-drop n s))

  pub read_message-shrinks :
      (s : Str) (v : A) (rest : Str) → read_message s ≡ some (v, rest) → length rest < length s
  unfolding read_message
  read_message-shrinks (a ∷ b ∷ c ∷ d ∷ s) v rest e =
      let n = uint32 a b c d in
      elim (Bool-cases (n == 0 || ltb max_message_bytes n)) [
        | inl bad ↦ let e' : none ≡ some (v, rest) = rw bad at e in cc
        | inr fine ↦ omega (arith, body-shrinks n s v rest (rw fine at e))
      ]
  read_message-shrinks [] v rest e = cc
  read_message-shrinks (a ∷ []) v rest e = cc
  read_message-shrinks (a ∷ b ∷ []) v rest e = cc
  read_message-shrinks (a ∷ b ∷ c ∷ []) v rest e = cc
