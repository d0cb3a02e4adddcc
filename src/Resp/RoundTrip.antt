-- ===== src/Resp/RoundTrip.antt =====
-- What the encoder (crates/node/src/resp/encoder.rs) writes, the parser
-- (crates/node/src/resp/parser.rs) reads back.
use self_healing_distributed.Prelude.{
  ℕ, zero, suc, ◌+◌, ◌≤◌, ◌<◌, ◌≡◌, refl, sym, ap, ◌∙◌, false, [], ◌∷◌, ◌++◌, arith, ltb, length,
  drop, length-append, append_assoc,
}
use self_healing_distributed.Types.{Bytes}
use self_healing_distributed.Decimal.{to_decimal}
use self_healing_distributed.Resp.Parser.{
  RespValue, RespValues, simple_string, error, integer, bulk_string, null, array, end, item,
  ParseResult, complete, incomplete, parsed, parse_items, array_items, parse_array, parse_tagged,
  parse_nested, parse_resp,
}
use self_healing_distributed.Resp.Encoder.{
  crlf, encode_simple_string, encode_error, encode_integer, encode_bulk_string, encode_null,
  count_items, encode_value, encode_items,
}
use self_healing_distributed.Resp.Numbers.{is_utf8-digits, to_decimal-IsNumber, parse_i64-digits}
use self_healing_distributed.Resp.Lines.{drop-append, read_line-line, digits-HasNoCrlf}
use self_healing_distributed.Resp.Scalars.{
  IsSendable, AreSendable, line_end, length-line_end, simple_string-Reads, error-Reads,
  integer-Reads, null-Reads, bulk_string-Reads,
}

drop-nil : (n : ℕ) → drop {A = ℕ} n [] ≡ []
drop-nil zero = refl
drop-nil (suc n) = refl

pub drop-drop : (m n : ℕ) (bs : Bytes) → drop (m + n) bs ≡ drop n (drop m bs)
drop-drop zero n bs = ap (λ k. drop k bs) (omega arith)
drop-drop (suc m) n [] = drop-nil (suc m + n) ∙ sym (drop-nil n)
drop-drop (suc m) n (b ∷ bs) =
    let e : suc m + n ≡ suc (m + n) = omega arith in ap (λ k. drop k (b ∷ bs)) e ∙ drop-drop m n bs

-- The items in front of `rest`, when `parse` reads each of them, whatever follows it.
module _ (limit : ℕ) (parse : Bytes → ParseResult) (room : ℕ)
    (reads : (v : RespValue) (rest : Bytes)
      → IsSendable limit v
      → length (encode_value v) ≤ room
      → parse (encode_value v ++ rest) ≡ complete v (length (encode_value v))) where
  parse_items-encode_items :
      (vs : RespValues) (rest buf : Bytes) (offset : ℕ)
      → AreSendable limit vs
      → length (encode_items vs) ≤ room
      → drop offset buf ≡ encode_items vs ++ rest
      → parse_items parse (count_items vs) buf offset
        ≡ parsed vs (offset + length (encode_items vs))
  unfolding parse_items encode_items AreSendable
  parse_items-encode_items end rest buf offset ok fits at = ap (parsed end) (omega arith)
  parse_items-encode_items (item v vs) rest buf offset (ok, oks) fits at =
      let one = encode_value v in
      let others = encode_items vs in
      let size = length-append one others in
      let here : parse (drop offset buf) ≡ complete v (length one) =
        rw (at, append_assoc one others rest) (reads v (others ++ rest) ok (omega (arith, size))) in
      let behind : drop (offset + length one) buf ≡ others ++ rest =
        drop-drop offset (length one) buf
        ∙ ap (drop (length one)) (at ∙ append_assoc one others rest)
        ∙ drop-append (length one) one (others ++ rest) refl in
      rw
        (
          here,
          parse_items-encode_items vs rest buf (offset + length one) oks (omega (arith, size))
              behind,
        )
        (ap (λ n. parsed (item v vs) n) (omega (arith, size)))

  array-read :
      (items : RespValues) (rest : Bytes)
      → IsSendable limit (array items)
      → length (encode_items items) ≤ room
      → parse_tagged limit parse (encode_value (array items) ++ rest)
        ≡ complete (array items) (length (encode_value (array items)))
  unfolding parse_tagged parse_array array_items encode_value IsSendable
  array-read items rest (within_limit, small, oks) fits =
      let count = count_items items in
      let ds = to_decimal count in
      let number = to_decimal-IsNumber count in
      let buf = b'*' ∷ (ds ++ b'\r' ∷ b'\n' ∷ (encode_items items ++ rest)) in
      let shape : encode_value (array items) ++ rest ≡ buf = simp append_assoc refl in
      let start : drop (length ds + 3) buf ≡ encode_items items ++ rest =
        ap (drop (length ds + 3)) (sym (line_end b'*' ds (encode_items items ++ rest)))
        ∙ drop-append (length ds + 3) (b'*' ∷ ds ++ crlf) (encode_items items ++ rest)
            (sym (length-line_end b'*' ds)) in
      let size : length ds + 3 + length (encode_items items) ≡ length (encode_value (array items)) =
        omega (
          arith,
          length-append (b'*' ∷ ds ++ crlf) (encode_items items),
          length-line_end b'*' ds,
        ) in
      let counted : ltb limit count ≡ false = ground arith in
      ap (parse_tagged limit parse) shape
      ∙ rw
          (
            read_line-line b'*' ds (encode_items items ++ rest) (digits-HasNoCrlf ds number.only),
            is_utf8-digits ds number.only,
            parse_i64-digits count ds number small,
            counted,
            parse_items-encode_items items rest buf (length ds + 3) oks fits start,
          )
          (ap (complete (array items)) size)

encode_value-nonempty : (v : RespValue) → 0 < length (encode_value v)
unfolding encode_value encode_simple_string encode_error encode_integer encode_bulk_string
    encode_null
encode_value-nonempty (simple_string s) = omega arith
encode_value-nonempty (error s) = omega arith
encode_value-nonempty (integer n) = omega arith
encode_value-nonempty (bulk_string d) = omega arith
encode_value-nonempty null = omega arith
encode_value-nonempty (array items) = omega arith

encode_items-lt :
    (items : RespValues) → length (encode_items items) < length (encode_value (array items))
unfolding encode_value
encode_items-lt items =
    let head = b'*' ∷ to_decimal (count_items items) ++ crlf in
    omega (
      arith,
      length-append head (encode_items items),
      length-line_end b'*' (to_decimal (count_items items)),
    )

-- Every step of the nesting takes a byte, so that the length of what is written bounds the depth.
parse_nested-encode_value :
    (limit fuel : ℕ) (v : RespValue) (rest : Bytes)
    → IsSendable limit v
    → length (encode_value v) ≤ fuel
    → parse_nested limit incomplete fuel (encode_value v ++ rest)
      ≡ complete v (length (encode_value v))
unfolding parse_nested
parse_nested-encode_value limit zero v rest ok enough = ground (arith, encode_value-nonempty v)
parse_nested-encode_value limit (suc fuel) (simple_string s) rest ok enough =
    simple_string-Reads limit (parse_nested limit incomplete fuel) rest s ok
parse_nested-encode_value limit (suc fuel) (error s) rest ok enough =
    error-Reads limit (parse_nested limit incomplete fuel) rest s ok
parse_nested-encode_value limit (suc fuel) (integer n) rest ok enough =
    integer-Reads limit (parse_nested limit incomplete fuel) rest n ok
parse_nested-encode_value limit (suc fuel) (bulk_string d) rest ok enough =
    bulk_string-Reads limit (parse_nested limit incomplete fuel) rest d ok
parse_nested-encode_value limit (suc fuel) null rest ok enough =
    null-Reads limit (parse_nested limit incomplete fuel) rest
parse_nested-encode_value limit (suc fuel) (array items) rest ok enough =
    array-read limit (parse_nested limit incomplete fuel) fuel
      (λ v rest' ok' fits. parse_nested-encode_value limit fuel v rest' ok' fits) items rest ok
      (omega (arith, encode_items-lt items))

-- The parser reads back every value that the wire format can carry, nested arrays and negative
-- numbers included, whatever follows it, and consumes exactly what the encoder has written. Such a
-- value has UTF-8 texts without a line end, numbers of 64 bits with a sign, lengths below 2^63, and
-- no array longer than the capacity `limit` of a vector.
pub parse_resp-encode_value :
    (limit : ℕ) (v : RespValue) (rest : Bytes)
    → IsSendable limit v
    → parse_resp limit (encode_value v ++ rest) ≡ complete v (length (encode_value v))
unfolding parse_resp
parse_resp-encode_value limit v rest ok =
    parse_nested-encode_value limit (suc (length (encode_value v ++ rest))) v rest ok
      (omega (arith, length-append (encode_value v) rest))
