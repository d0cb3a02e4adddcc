-- ===== src/Resp/Connection.antt =====
-- `handle_connection` of crates/node/src/resp/server.rs: what a connection does with the bytes that it
-- reads. Writes to the client succeed, and a panic is `none`.
use self_healing_distributed.Prelude.{
  ℕ, zero, suc, Option, none, some, List, [], ◌∷◌, ◌++◌, length, drop,
}
use self_healing_distributed.Types.{Bytes, codes, Instant}
use self_healing_distributed.Cache.Store.{CacheStore}
use self_healing_distributed.Resp.Parser.{
  ParseResult, complete, incomplete, invalid, panicked, parse_resp,
}
use self_healing_distributed.Resp.Encoder.{encode_error}
use self_healing_distributed.Resp.Server.{Answer, handle_command}

-- What a connection holds: the store, what it has written, and the bytes that it has not yet used.
pub record Connection : Type 0 where
  pub store : CacheStore
  pub written : Bytes
  pub buf : Bytes

module _ (limit : ℕ) (message : Bytes → Bytes) (now : Instant) where
  abbrev pub answered : ℕ → Connection → Answer → Option Connection
  answered n c none = none
  answered n c (some (s, response)) =
      some (record { store = s; written = c.written ++ response; buf = drop n c.buf })

  -- How a round of the inner loop of `handle_connection` ends: with a command handled, or with
  -- `break`. `message` is the text of the parser's error.
  pub data Round : Type 0 where
    handled : Option Connection → Round
    broken : Option Connection → Round

  unfoldable pub round_of : Connection → ParseResult → Round
  round_of c (complete v n) = handled (answered n c (handle_command now v c.store))
  round_of c incomplete = broken (some c)
  round_of c invalid = broken (
      some (record c {
        written = c.written ++ encode_error (codes "ERR " ++ message c.buf);
        buf = [];
      }))
  round_of c panicked = broken none

  -- At most `fuel` rounds of the inner loop.
  unfoldable pub drain : ℕ → Connection → Option Connection
  drain zero c = some c
  drain (suc fuel) c = elim (round_of c (parse_resp limit c.buf)) [
    | handled none ↦ none
    | handled (some c') ↦ drain fuel c'
    | broken r ↦ r
  ]

  -- The inner loop: a command takes at least a byte, so that the length of the buffer is enough.
  unfoldable pub process_buffer : Connection → Option Connection
  unfolding drain
  process_buffer c = drain (length c.buf) c

-- The outer loop of `handle_connection`, over what each call of `read_buf` appends and when it returns.
-- A read of nothing means that the client has closed the connection.
unfoldable pub handle_connection :
    ℕ → (Bytes → Bytes) → Connection → List (Instant × Bytes) → Option Connection
handle_connection limit message c [] = some c
handle_connection limit message c ((now, []) ∷ reads) = some c
handle_connection limit message c ((now, b ∷ bs) ∷ reads) =
    elim (process_buffer limit message now (record c { buf = c.buf ++ b ∷ bs })) [
      | none ↦ none
      | some c' ↦ handle_connection limit message c' reads
    ]
