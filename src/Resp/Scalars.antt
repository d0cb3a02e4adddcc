-- ===== src/Resp/Scalars.antt =====
-- The values other than arrays that the encoder (crates/node/src/resp/encoder.rs) writes, as the
-- parser (crates/node/src/resp/parser.rs) reads them.
use self_healing_distributed.Prelude.{
  ℕ, ◌+◌, ◌^◌, ◌≤◌, ◌<◌, ◌≡◌, refl, sym, ap, true, some, [], ◌∷◌, ◌++◌, arith, length,
  length-append, append_assoc,
}
use self_healing_distributed.Types.{Bytes}
use self_healing_distributed.Decimal.{to_decimal}
use self_healing_distributed.Resp.Text.{ℤ, pos, negsuc, is_utf8, parse_i64, parse_unsigned}
use self_healing_distributed.Resp.Parser.{
  RespValue, RespValues, simple_string, error, integer, bulk_string, null, array, end, item,
  ParseResult, complete, parse_simple_string, parse_error, parse_integer, bulk_data,
  parse_bulk_string, parse_tagged,
}
use self_healing_distributed.Resp.Encoder.{
  crlf, int_to_string, encode_simple_string, encode_error, encode_integer, encode_null, count_items,
  encode_value,
}
use self_healing_distributed.Resp.Numbers.{
  IsNumber, is_utf8-digits, to_decimal-IsNumber, parse_i64-digits,
}
use self_healing_distributed.Resp.Lines.{
  HasNoCrlf, read_line-line, digits-HasNoCrlf, minus-HasNoCrlf,
}
use self_healing_distributed.Resp.BulkString.{parse_tagged-encode_bulk_string}

-- What the wire format can carry: lines are UTF-8 without a line end, numbers are `i64`, and an
-- array is not longer than a vector may be made.
unfoldable mutual
  pub IsSendable : ℕ → RespValue → Type 0
  IsSendable limit (simple_string s) = (is_utf8 s ≡ true) × HasNoCrlf s
  IsSendable limit (error e) = (is_utf8 e ≡ true) × HasNoCrlf e
  IsSendable limit (integer (pos n)) = n < 2 ^ 63
  IsSendable limit (integer (negsuc n)) = n < 2 ^ 63
  IsSendable limit (bulk_string d) = length d < 2 ^ 63
  IsSendable limit null = Unit
  IsSendable limit (array items) =
      (count_items items ≤ limit) × (count_items items < 2 ^ 63) × AreSendable limit items

  pub AreSendable : ℕ → RespValues → Type 0
  AreSendable limit end = Unit
  AreSendable limit (item v vs) = IsSendable limit v × AreSendable limit vs

-- A line, its end, and what follows.
pub line_end :
    (tag : ℕ) (line rest : Bytes)
    → tag ∷ line ++ crlf ++ rest ≡ tag ∷ (line ++ b'\r' ∷ b'\n' ∷ rest)
line_end tag line rest = simp append_assoc refl

pub length-line_end : (tag : ℕ) (line : Bytes) → length (tag ∷ line ++ crlf) ≡ length line + 3
length-line_end tag line = omega (arith, length-append line crlf)

parse_i64-minus :
    (n : ℕ) (ds : Bytes)
    → IsNumber (n + 1) ds
    → n < 2 ^ 63
    → parse_i64 (b'-' ∷ ds) ≡ some (negsuc n)
unfolding parse_i64 parse_unsigned
parse_i64-minus n [] d h = ground (arith, d.some_digit)
parse_i64-minus n (b ∷ bs) d h = ground (arith, d.read)

is_utf8-minus : (ds : Bytes) → is_utf8 ds ≡ true → is_utf8 (b'-' ∷ ds) ≡ true
unfolding is_utf8
is_utf8-minus ds h = h

module _ (limit : ℕ) (parse : Bytes → ParseResult) (rest : Bytes) where
  -- The parser on what the encoder writes for `v`, with `rest` behind it.
  abbrev Reads : RespValue → Type 0
  Reads v = parse_tagged limit parse (encode_value v ++ rest) ≡ complete v (length (encode_value v))

  pub simple_string-Reads :
      (s : Bytes) → IsSendable limit (simple_string s) → Reads (simple_string s)
  unfolding parse_tagged parse_simple_string IsSendable encode_value encode_simple_string
  simple_string-Reads s (utf8, plain) =
      rw (append_assoc s crlf rest, read_line-line b'+' s rest plain, utf8)
        (ap (complete (simple_string s)) (sym (length-line_end b'+' s)))

  pub error-Reads : (s : Bytes) → IsSendable limit (error s) → Reads (error s)
  unfolding parse_tagged parse_error IsSendable encode_value encode_error
  error-Reads s (utf8, plain) =
      rw (append_assoc s crlf rest, read_line-line b'-' s rest plain, utf8)
        (ap (complete (error s)) (sym (length-line_end b'-' s)))

  pub integer-Reads : (n : ℤ) → IsSendable limit (integer n) → Reads (integer n)
  unfolding parse_tagged parse_integer IsSendable encode_value encode_integer int_to_string
  integer-Reads (pos n) small =
      let ds = to_decimal n in
      let number = to_decimal-IsNumber n in
      rw
        (
          append_assoc ds crlf rest,
          read_line-line b':' ds rest (digits-HasNoCrlf ds number.only),
          is_utf8-digits ds number.only,
          parse_i64-digits n ds number small,
        )
        (ap (complete (integer (pos n))) (sym (length-line_end b':' ds)))
  integer-Reads (negsuc n) small =
      let ds = to_decimal (n + 1) in
      let number = to_decimal-IsNumber (n + 1) in
      rw
        (
          append_assoc ds crlf rest,
          read_line-line b':' (b'-' ∷ ds) rest (minus-HasNoCrlf ds number.only),
          is_utf8-minus ds (is_utf8-digits ds number.only),
          parse_i64-minus n ds number small,
        )
        (ap (complete (integer (negsuc n))) (sym (length-line_end b':' (b'-' ∷ ds))))

  pub null-Reads : Reads null
  unfolding parse_tagged parse_bulk_string bulk_data encode_value encode_null parse_i64 is_utf8
      parse_unsigned HasNoCrlf
  null-Reads = rw (read_line-line b'$' (b'-' ∷ b'1' ∷ []) rest ((λ (cr, lf). omega arith), tt)) refl

  pub bulk_string-Reads : (d : Bytes) → IsSendable limit (bulk_string d) → Reads (bulk_string d)
  unfolding IsSendable encode_value
  bulk_string-Reads d small = parse_tagged-encode_bulk_string parse limit d rest small
