-- ===== src/Resp/Progress.antt =====
-- The inner loop of `handle_connection` (crates/node/src/resp/server.rs).
use self_healing_distributed.Prelude.{
  ℕ, zero, suc, ◌≤◌, ◌≡◌, refl, none, some, [], ◌∷◌, arith, length, drop, Option-cases, ◌⊎◌, inl,
  inr,
}
use self_healing_distributed.Types.{Bytes, Instant}
use self_healing_distributed.Resp.Parser.{
  RespValue, ParseResult, complete, incomplete, invalid, panicked, parse_resp, parse_nested,
  parse_tagged,
}
use self_healing_distributed.Resp.Bounds.{consumed-le, length-drop}
use self_healing_distributed.Resp.Server.{Answer, handle_command}
use self_healing_distributed.Resp.Connection.{Connection, round_of, drain, process_buffer, answered}

pub ParseResult-cases :
    (r : ParseResult)
    → ((v : RespValue) × (n : ℕ) × (r ≡ complete v n))
      ⊎ ((r ≡ incomplete) ⊎ ((r ≡ invalid) ⊎ (r ≡ panicked)))
ParseResult-cases (complete v n) = inl (v, n, refl)
ParseResult-cases incomplete = inr (inl refl)
ParseResult-cases invalid = inr (inr (inl refl))
ParseResult-cases panicked = inr (inr (inr refl))

pub parse_resp-nil : (limit : ℕ) (buf : Bytes) → length buf ≤ 0 → parse_resp limit buf ≡ incomplete
unfolding parse_resp parse_nested parse_tagged
parse_resp-nil limit [] h = refl
parse_resp-nil limit (b ∷ bs) h = ground arith

module _ (limit : ℕ) (message : Bytes → Bytes) (now : Instant) where
  buf-answered :
      (n : ℕ) (c d : Connection) (a : Answer)
      → answered limit message now n c a ≡ some d
      → d.buf ≡ drop n c.buf
  buf-answered n c d none h = ground arith
  buf-answered n c d (some (s, response)) h = ground arith

  drain-incomplete :
      (fuel : ℕ) (c c' : Connection)
      → length c.buf ≤ fuel
      → drain limit message now fuel c ≡ some c'
      → parse_resp limit c'.buf ≡ incomplete
  unfolding drain round_of
  drain-incomplete zero c c' enough h = ground (arith, parse_resp-nil limit c.buf enough)
  drain-incomplete (suc fuel) c c' enough h = elim (ParseResult-cases (parse_resp limit c.buf)) [
    | inr (inl waits) ↦ ground arith
    | inr (inr (inl bad)) ↦ ground (arith, parse_resp-nil limit [])
    | inr (inr (inr panics)) ↦ ground arith
    | inl (v, n, done) ↦
        elim (Option-cases (answered limit message now n c (handle_command now v c.store))) [
          | inl panics ↦ ground arith
          | inr (d, next) ↦
              let (some_byte, fits) = consumed-le limit c.buf v n done in
              let rest = buf-answered n c d (handle_command now v c.store) next in
              drain-incomplete fuel d c' (grind (arith, rest, length-drop n c.buf)) (ground arith)
        ]
  ]

  -- Unless a panic comes, the inner loop ends with nothing left to handle: what stays in the buffer
  -- is not yet a complete value (nothing stays after a protocol error). It never ends for want of
  -- fuel.
  pub process_buffer-incomplete :
      (c c' : Connection)
      → process_buffer limit message now c ≡ some c'
      → parse_resp limit c'.buf ≡ incomplete
  unfolding process_buffer
  process_buffer-incomplete c c' h = drain-incomplete (length c.buf) c c' (omega arith) h
