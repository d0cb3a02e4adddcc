-- ===== src/Resp/Pipeline.antt =====
-- The commands that a client sends over a connection (crates/node/src/resp/server.rs), in reads of
-- any sizes.
use self_healing_distributed.Prelude.{
  ℕ, zero, suc, ◌≤◌, ◌<◌, ◌≡◌, ◌≢◌, refl, sym, ap, ◌∙◌, Option, none, some, List, [], ◌∷◌, ◌++◌,
  arith, length, drop, map, All, Option-cases, ◌⊎◌, inl, append_assoc, append-nil, inr,
}
use self_healing_distributed.Types.{Bytes, Instant}
use self_healing_distributed.Cache.Store.{CacheStore}
use self_healing_distributed.Resp.Parser.{
  RespValue, ParseResult, complete, incomplete, invalid, panicked, parse_resp,
}
use self_healing_distributed.Resp.Encoder.{encode_value}
use self_healing_distributed.Resp.Bounds.{consumed-le, length-drop}
use self_healing_distributed.Resp.Lines.{drop-append}
use self_healing_distributed.Resp.Stable.{drop-more, parse_resp-append}
use self_healing_distributed.Resp.Scalars.{IsSendable}
use self_healing_distributed.Resp.RoundTrip.{parse_resp-encode_value}
use self_healing_distributed.Resp.Server.{handle_command}
use self_healing_distributed.Resp.Connection.{
  Connection, round_of, drain, process_buffer, handle_connection,
}
use self_healing_distributed.Resp.Progress.{parse_resp-nil}

-- The commands in a row, as a client sends them.
abbrev pub encode_all : List RespValue → Bytes
encode_all [] = []
encode_all (v ∷ vs) = encode_value v ++ encode_all vs

abbrev pub concat : List Bytes → Bytes
concat [] = []
concat (b ∷ bs) = b ++ concat bs

-- One command after the other, each answered.
abbrev pub answer_all : Instant → List RespValue → CacheStore → Bytes → Option Connection
answer_all now [] s written = some (record { store = s; written = written; buf = [] })
answer_all now (v ∷ vs) s written = elim (handle_command now v s) [
  | none ↦ none
  | some (s', response) ↦ answer_all now vs s' (written ++ response)
]

incomplete_or_not : (r : ParseResult) → (r ≡ incomplete) ⊎ (r ≢ incomplete)
incomplete_or_not (complete v n) = inr (λ e. ground arith)
incomplete_or_not incomplete = inl refl
incomplete_or_not invalid = inr (λ e. ground arith)
incomplete_or_not panicked = inr (λ e. ground arith)

-- If the parser does not wait for more bytes, then it has found the first of the commands.
first_command :
    (limit : ℕ) (buf q : Bytes) (v : RespValue) (rest : Bytes)
    → IsSendable limit v
    → buf ++ q ≡ encode_value v ++ rest
    → parse_resp limit buf ≢ incomplete
    → (parse_resp limit buf ≡ complete v (length (encode_value v)))
      × (drop (length (encode_value v)) buf ++ q ≡ rest)
      × (length (drop (length (encode_value v)) buf) < length buf)
first_command limit buf q v rest ok same done =
    let size = length (encode_value v) in
    let found : parse_resp limit buf ≡ complete v size =
      sym (parse_resp-append limit buf q done)
      ∙ ap (parse_resp limit) same
      ∙ parse_resp-encode_value limit v rest ok in
    let (some_byte, fits) = consumed-le limit buf v size found in
    (
      found,
      sym (drop-more size buf q fits)
          ∙ ap (drop size) same
          ∙ drop-append size (encode_value v) rest refl,
      omega (arith, length-drop size buf),
    )

no_bytes : (buf q : Bytes) → buf ++ q ≡ [] → length buf ≤ 0
no_bytes [] q h = omega arith
no_bytes (b ∷ bs) q h = ground arith

module _ (limit : ℕ) (message : Bytes → Bytes) (now : Instant) where
  -- What the inner loop has done when it ends, of the commands `vs` whose first part is in the buffer
  -- and whose last part `q` is still to come: it has panicked, as the commands do, or it has answered
  -- some of them, and waits.
  data Drained (q : Bytes) (expected : Option Connection) : Option Connection → Type 0 where
    panics : expected ≡ none → Drained q expected none
    waits :
        (c : Connection) (left : List RespValue)
        → All (IsSendable limit) left
        → c.buf ++ q ≡ encode_all left
        → answer_all now left c.store c.written ≡ expected
        → parse_resp limit c.buf ≡ incomplete
        → Drained q expected (some c)

  drain-Drained :
      (fuel : ℕ) (c : Connection) (q : Bytes) (vs : List RespValue)
      → length c.buf ≤ fuel
      → All (IsSendable limit) vs
      → c.buf ++ q ≡ encode_all vs
      → Drained q (answer_all now vs c.store c.written) (drain limit message now fuel c)
  unfolding drain round_of
  drain-Drained zero c q vs enough ok same =
      waits c vs ok same refl (parse_resp-nil limit c.buf enough)
  drain-Drained (suc fuel) c q [] enough ok same =
      let open_value = parse_resp-nil limit c.buf (no_bytes c.buf q same) in
      rw (drain, open_value) (waits c [] ok same refl open_value)
  drain-Drained (suc fuel) c q (v ∷ vs) enough (ok, oks) same =
      elim (incomplete_or_not (parse_resp limit c.buf)) [
        | inl open_value ↦ rw (drain, open_value) (waits c (v ∷ vs) (ok, oks) same refl open_value)
        | inr done ↦
            let (found, behind, shorter) =
              first_command limit c.buf q v (encode_all vs) ok same done in
            rw (drain, found)
              (elim (Option-cases (handle_command now v c.store)) [
                | inl panic ↦ rw panic (panics (rw (panic, answer_all) refl))
                | inr ((s, response), answer) ↦
                    rw (answer, answer_all)
                      (drain-Drained fuel
                        (record {
                          store = s;
                          written = c.written ++ response;
                          buf = drop (length (encode_value v)) c.buf;
                        })
                        q vs (omega arith) oks behind)
              ])
      ]

  abbrev pub at : List Bytes → List (Instant × Bytes)
  at chunks = map (λ b. (now, b)) chunks

  nothing_left :
      (c : Connection) (vs : List RespValue)
      → All (IsSendable limit) vs
      → parse_resp limit c.buf ≡ incomplete
      → c.buf ≡ encode_all vs
      → some c ≡ answer_all now vs c.store c.written
  nothing_left c [] ok open_value same = rw (sym same) refl
  nothing_left c (v ∷ vs) (ok, oks) open_value same =
      let read = parse_resp-encode_value limit v (encode_all vs) ok in
      let both = sym open_value ∙ ap (parse_resp limit) same ∙ read in ground arith

  Drained-handle_connection :
      (chunks : List Bytes) (expected r : Option Connection)
      → ((c : Connection) (left : List RespValue)
          → All (IsSendable limit) left
          → parse_resp limit c.buf ≡ incomplete
          → c.buf ++ concat chunks ≡ encode_all left
          → handle_connection limit message c (at chunks) ≡ answer_all now left c.store c.written)
      → Drained (concat chunks) expected r
      → elim r [ none ↦ none | some c ↦ handle_connection limit message c (at chunks) ] ≡ expected
  Drained-handle_connection chunks expected none behind (panics p) = sym p
  Drained-handle_connection chunks expected (some _) behind
        (waits c left ok same answers open_value) =
      behind c left ok open_value same ∙ answers

  chunks_answered :
      (chunks : List Bytes) (c : Connection) (vs : List RespValue)
      → All (λ b. 0 < length b) chunks
      → All (IsSendable limit) vs
      → parse_resp limit c.buf ≡ incomplete
      → c.buf ++ concat chunks ≡ encode_all vs
      → handle_connection limit message c (at chunks) ≡ answer_all now vs c.store c.written
  unfolding handle_connection process_buffer
  chunks_answered [] c vs nonempty ok open_value same =
      nothing_left c vs ok open_value (sym (append-nil c.buf) ∙ same)
  chunks_answered ([] ∷ chunks) c vs (some_byte, nonempty) ok open_value same = ground arith
  chunks_answered ((b ∷ bs) ∷ chunks) c vs (some_byte, nonempty) ok open_value same =
      let c' = record c { buf = c.buf ++ b ∷ bs } in
      Drained-handle_connection chunks (answer_all now vs c.store c.written)
        (process_buffer limit message now c')
        (λ d left oks waiting rest. chunks_answered chunks d left nonempty oks waiting rest)
        (drain-Drained (length (c.buf ++ b ∷ bs)) c' (concat chunks) vs (omega arith) ok
          (append_assoc c.buf (b ∷ bs) (concat chunks) ∙ same))

  -- A client that sends commands one behind the other, without waiting for answers, gets the answer
  -- to each, in order, whatever reads its bytes arrive in: the connection ends as if the
  -- commands had been handled one by one, with nothing left in the buffer, or in the panic that they
  -- end in. All reads come at one instant, and the commands are values that the wire format can carry.
  pub handle_connection-encode_all :
      (vs : List RespValue) (chunks : List Bytes) (s : CacheStore) (written : Bytes)
      → All (IsSendable limit) vs
      → All (λ b. 0 < length b) chunks
      → concat chunks ≡ encode_all vs
      → handle_connection limit message
          (record { store = s; written = written; buf = [] })
          (at chunks)
        ≡ answer_all now vs s written
  handle_connection-encode_all vs chunks s written ok nonempty same =
      chunks_answered chunks (record { store = s; written = written; buf = [] }) vs nonempty ok
        (parse_resp-nil limit [] (omega arith)) same
