-- ===== src/Resp/Parser.antt =====
-- crates/node/src/resp/parser.rs. The text of an error is left out, and a panic is a result of its
-- own: `Vec::with_capacity` panics above a capacity `limit` that depends on the allocator.
use self_healing_distributed.Prelude.{
  ℕ, zero, suc, ◌+◌, ◌-◌, ◌&&◌, ◌||◌, not, Option, none, some, [], ◌∷◌, ltb, ◌==◌, if◌then◌else◌,
  length, take, drop,
}
use self_healing_distributed.Types.{Bytes}
use self_healing_distributed.Resp.Text.{ℤ, pos, negsuc, is_utf8, parse_i64}

mutual
  pub data RespValue : Type 0 where
    simple_string : Bytes → RespValue
    error : Bytes → RespValue
    integer : ℤ → RespValue
    bulk_string : Bytes → RespValue
    null : RespValue
    array : RespValues → RespValue

  pub data RespValues : Type 0 where
    end : RespValues
    item : RespValue → RespValues → RespValues

pub data ParseResult : Type 0 where
  complete : RespValue → ℕ → ParseResult
  incomplete invalid panicked : ParseResult

-- The loop of `find_crlf` from index `i`, over the bytes from there on.
unfoldable pub crlf_from : ℕ → Bytes → Option ℕ
crlf_from i [] = none
crlf_from i (x ∷ []) = none
crlf_from i (x ∷ y ∷ bs) =
    let rest = crlf_from (suc i) (y ∷ bs) in if (x == b'\r') && (y == b'\n') then some i else rest

unfoldable pub find_crlf : Bytes → ℕ → Option ℕ
unfolding crlf_from
find_crlf buf offset =
    if ltb (length buf) (offset + 2) then none else crlf_from offset (drop offset buf)

abbrev line_to : Bytes → ℕ → Option ℕ → Option (Bytes × ℕ)
line_to buf offset none = none
line_to buf offset (some cr) = some (take (cr - offset) (drop offset buf), cr + 2)

unfoldable pub read_line : Bytes → ℕ → Option (Bytes × ℕ)
unfolding find_crlf
read_line buf offset = line_to buf offset (find_crlf buf offset)

abbrev pub text_line : (Bytes → RespValue) → Option (Bytes × ℕ) → ParseResult
text_line value none = incomplete
text_line value (some (line, next)) = if is_utf8 line then complete (value line) next else invalid

unfoldable pub parse_simple_string : Bytes → ParseResult
parse_simple_string buf = text_line simple_string (read_line buf 1)

unfoldable pub parse_error : Bytes → ParseResult
parse_error buf = text_line error (read_line buf 1)

-- What follows on the number that a line spells: `then n next`.
abbrev pub number_line : (ℤ → ℕ → ParseResult) → Option (Bytes × ℕ) → ParseResult
number_line go none = incomplete
number_line go (some (line, next)) =
    if is_utf8 line then elim (parse_i64 line) [ none ↦ invalid | some n ↦ go n next ] else invalid

unfoldable pub parse_integer : Bytes → ParseResult
parse_integer buf = number_line (λ n next. complete (integer n) next) (read_line buf 1)

abbrev pub byte_at : ℕ → Bytes → ℕ
byte_at zero [] = 0
byte_at zero (b ∷ bs) = b
byte_at (suc n) [] = 0
byte_at (suc n) (b ∷ bs) = byte_at n bs

-- The part of `parse_bulk_string` behind the length.
unfoldable pub bulk_data : Bytes → ℤ → ℕ → ParseResult
bulk_data buf (negsuc n) after_len = complete null after_len
bulk_data buf (pos len) after_len =
    let data_end = after_len + len in
    if ltb (length buf) (data_end + 2)
    then incomplete
    else if not (byte_at data_end buf == b'\r') || not (byte_at (data_end + 1) buf == b'\n')
    then invalid
    else complete (bulk_string (take len (drop after_len buf))) (data_end + 2)

unfoldable pub parse_bulk_string : Bytes → ParseResult
unfolding bulk_data
parse_bulk_string buf = number_line (bulk_data buf) (read_line buf 1)

-- How the loop of `parse_array` ends: with the items and the offset, or early.
pub data Items : Type 0 where
  parsed : RespValues → ℕ → Items
  stopped : ParseResult → Items

abbrev pub push : RespValue → Items → Items
push v (parsed items offset) = parsed (item v items) offset
push v (stopped r) = stopped r

abbrev pub item_or_stop : ParseResult → (RespValue → ℕ → Items) → Items
item_or_stop (complete v consumed) go = go v consumed
item_or_stop incomplete go = stopped incomplete
item_or_stop invalid go = stopped invalid
item_or_stop panicked go = stopped panicked

-- `n` rounds of the loop of `parse_array`; `parse` is `parse_resp`.
unfoldable pub parse_items : (Bytes → ParseResult) → ℕ → Bytes → ℕ → Items
parse_items parse zero buf offset = parsed end offset
parse_items parse (suc n) buf offset =
    item_or_stop (parse (drop offset buf))
      (λ v consumed. push v (parse_items parse n buf (offset + consumed)))

abbrev pub array_of : Items → ParseResult
array_of (parsed items offset) = complete (array items) offset
array_of (stopped r) = r

-- The part of `parse_array` behind the count.
unfoldable pub array_items : ℕ → (Bytes → ParseResult) → Bytes → ℤ → ℕ → ParseResult
unfolding parse_items
array_items limit parse buf (negsuc n) after_count = complete null after_count
array_items limit parse buf (pos count) after_count =
    if ltb limit count then panicked else array_of (parse_items parse count buf after_count)

unfoldable pub parse_array : ℕ → (Bytes → ParseResult) → Bytes → ParseResult
unfolding array_items
parse_array limit parse buf = number_line (array_items limit parse buf) (read_line buf 1)

-- The `match buf[0]` of `parse_resp`, with the parser for the items of an array.
unfoldable pub parse_tagged : ℕ → (Bytes → ParseResult) → Bytes → ParseResult
unfolding parse_simple_string parse_error parse_integer parse_bulk_string parse_array
parse_tagged limit parse [] = incomplete
parse_tagged limit parse (tag ∷ rest) =
    if tag == b'+'
    then parse_simple_string (tag ∷ rest)
    else if tag == b'-'
    then parse_error (tag ∷ rest)
    else if tag == b':'
    then parse_integer (tag ∷ rest)
    else if tag == b'$'
    then parse_bulk_string (tag ∷ rest)
    else if tag == b'*'
    then parse_array limit parse (tag ∷ rest)
    else invalid

-- Arrays nested to a depth below `fuel`; what comes of deeper ones is `out`, which stands for the
-- results that are not computed.
unfoldable pub parse_nested : ℕ → ParseResult → ℕ → Bytes → ParseResult
unfolding parse_tagged
parse_nested limit out zero buf = out
parse_nested limit out (suc fuel) buf = parse_tagged limit (parse_nested limit out fuel) buf

-- The items of an array are parsed from less than the whole buffer, so that one more than its length
-- is enough fuel, and `out` is never the result (Resp/Depth.antt).
unfoldable pub parse_resp : ℕ → Bytes → ParseResult
unfolding parse_nested
parse_resp limit buf = parse_nested limit incomplete (suc (length buf)) buf
