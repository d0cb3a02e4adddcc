-- ===== src/Resp/BulkString.antt =====
-- A bulk string that the encoder (crates/node/src/resp/encoder.rs) has written, as the parser
-- (crates/node/src/resp/parser.rs) reads it.
use self_healing_distributed.Prelude.{
  ℕ, ◌+◌, ◌^◌, ◌<◌, ◌≡◌, refl, sym, ap, ◌∙◌, false, ◌||◌, not, [], ◌∷◌, ◌++◌, arith, ltb, ◌==◌,
  length, take, drop, length-append, append_assoc,
}
use self_healing_distributed.Types.{Bytes}
use self_healing_distributed.Decimal.{to_decimal}
use self_healing_distributed.Resp.Text.{pos}
use self_healing_distributed.Resp.Parser.{
  complete, ParseResult, parse_tagged, byte_at, bulk_string, parse_bulk_string, bulk_data,
}
use self_healing_distributed.Resp.Encoder.{crlf, encode_bulk_string}
use self_healing_distributed.Resp.Numbers.{
  IsNumber, is_utf8-digits, if_false, to_decimal-IsNumber, parse_i64-digits,
}
use self_healing_distributed.Resp.Lines.{
  take-append, drop-append, byte_at-append, read_line-line, digits-HasNoCrlf,
}

-- The buffer of a bulk string, with what follows it.
abbrev bulk_buffer : Bytes → Bytes → Bytes → Bytes
bulk_buffer ds d rest = b'$' ∷ (ds ++ (b'\r' ∷ b'\n' ∷ (d ++ (b'\r' ∷ b'\n' ∷ rest))))

head_of : Bytes → Bytes
head_of ds = b'$' ∷ ds ++ crlf

length-head_of : (ds : Bytes) → length (head_of ds) ≡ length ds + 3
unfolding head_of
length-head_of ds = omega (arith, length-append ds crlf)

bulk_buffer-head :
    (ds d rest : Bytes) → bulk_buffer ds d rest ≡ head_of ds ++ (d ++ (b'\r' ∷ b'\n' ∷ rest))
unfolding head_of
bulk_buffer-head ds d rest =
    ap (λ l. b'$' ∷ l) (sym (append_assoc ds crlf (d ++ (b'\r' ∷ b'\n' ∷ rest))))

drop-bulk_buffer :
    (ds d rest : Bytes) → drop (length ds + 3) (bulk_buffer ds d rest) ≡ d ++ b'\r' ∷ b'\n' ∷ rest
drop-bulk_buffer ds d rest =
    ap (drop (length ds + 3)) (bulk_buffer-head ds d rest)
    ∙ drop-append (length ds + 3) (head_of ds) _ (sym (length-head_of ds))

byte_at-bulk_buffer :
    (ds d rest : Bytes) (n k : ℕ)
    → n ≡ length ds + 3 + length d + k
    → byte_at n (bulk_buffer ds d rest) ≡ byte_at k (b'\r' ∷ b'\n' ∷ rest)
byte_at-bulk_buffer ds d rest n k h =
    ap (byte_at n) (bulk_buffer-head ds d rest)
    ∙ byte_at-append n (head_of ds) (d ++ (b'\r' ∷ b'\n' ∷ rest)) (length d + k)
        (omega (arith, length-head_of ds))
    ∙ byte_at-append (length d + k) d (b'\r' ∷ b'\n' ∷ rest) k refl

length-bulk_buffer :
    (ds d rest : Bytes)
    → length (bulk_buffer ds d rest) ≡ length ds + 3 + length d + 2 + length rest
length-bulk_buffer ds d rest = omega (
  arith,
  length-append ds (b'\r' ∷ b'\n' ∷ (d ++ (b'\r' ∷ b'\n' ∷ rest))),
  length-append d (b'\r' ∷ b'\n' ∷ rest),
)

bulk_data-read :
    (ds d rest : Bytes)
    → bulk_data (bulk_buffer ds d rest) (pos (length d)) (length ds + 3)
      ≡ complete (bulk_string d) (length ds + 3 + length d + 2)
unfolding bulk_data
bulk_data-read ds d rest =
    let cr = byte_at-bulk_buffer ds d rest (length ds + 3 + length d) 0 (omega arith) in
    let lf = byte_at-bulk_buffer ds d rest (length ds + 3 + length d + 1) 1 (omega arith) in
    let fits : ltb (length (bulk_buffer ds d rest)) (length ds + 3 + length d + 2) ≡ false =
      ground (arith, length-bulk_buffer ds d rest) in
    let closed : (not (byte_at (length ds + 3 + length d) (bulk_buffer ds d rest) == b'\r')
          || not (byte_at (length ds + 3 + length d + 1) (bulk_buffer ds d rest) == b'\n'))
        ≡ false =
      rw (cr, lf) refl in
    if_false _ _ _ fits
    ∙ if_false _ _ _ closed
    ∙ ap (λ l. complete (bulk_string l) (length ds + 3 + length d + 2))
        (ap (take (length d)) (drop-bulk_buffer ds d rest)
          ∙ take-append (length d) d (b'\r' ∷ b'\n' ∷ rest) refl)

parse_bulk_buffer :
    (parse : Bytes → ParseResult) (limit : ℕ) (ds d rest : Bytes)
    → IsNumber (length d) ds
    → length d < 2 ^ 63
    → parse_tagged limit parse (bulk_buffer ds d rest)
      ≡ complete (bulk_string d) (length ds + 3 + length d + 2)
unfolding parse_tagged parse_bulk_string
parse_bulk_buffer parse limit ds d rest number small =
    rw
      (
        read_line-line b'$' ds (d ++ (b'\r' ∷ b'\n' ∷ rest)) (digits-HasNoCrlf ds number.only),
        is_utf8-digits ds number.only,
        parse_i64-digits (length d) ds number small,
      )
      (bulk_data-read ds d rest)

encode_bulk_string-append :
    (d rest : Bytes) → encode_bulk_string d ++ rest ≡ bulk_buffer (to_decimal (length d)) d rest
unfolding encode_bulk_string
encode_bulk_string-append d rest = simp append_assoc refl

length-encode_bulk_string :
    (d : Bytes) → length (encode_bulk_string d) ≡ length (to_decimal (length d)) + 3 + length d + 2
length-encode_bulk_string d = omega (
  arith,
  length-bulk_buffer (to_decimal (length d)) d [],
  ap (λ l. length l) (encode_bulk_string-append d []),
  length-append (encode_bulk_string d) [],
)

-- A bulk string may hold any bytes.
pub parse_tagged-encode_bulk_string :
    (parse : Bytes → ParseResult) (limit : ℕ) (d rest : Bytes)
    → length d < 2 ^ 63
    → parse_tagged limit parse (encode_bulk_string d ++ rest)
      ≡ complete (bulk_string d) (length (encode_bulk_string d))
parse_tagged-encode_bulk_string parse limit d rest small =
    ap (parse_tagged limit parse) (encode_bulk_string-append d rest)
    ∙ parse_bulk_buffer parse limit (to_decimal (length d)) d rest (to_decimal-IsNumber (length d))
        small
    ∙ ap (complete (bulk_string d)) (sym (length-encode_bulk_string d))
