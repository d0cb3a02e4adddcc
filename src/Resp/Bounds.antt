-- ===== src/Resp/Bounds.antt =====
-- How much of the buffer the parser (crates/node/src/resp/parser.rs) consumes.
use mathlib.Core.Path.{subst}
use self_healing_distributed.Prelude.{
  ℕ, zero, suc, ◌+◌, ◌-◌, ◌≤◌, ◌<◌, ◌≡◌, Bool, true, false, some, [], ◌∷◌, arith, not, ◌||◌, ltb,
  ◌==◌, if◌then◌else◌, length, take, drop, Option-cases, Bool-cases, inl, inr,
}
use self_healing_distributed.Types.{Bytes}
use self_healing_distributed.Resp.Text.{ℤ, pos, negsuc, is_utf8, parse_i64}
use self_healing_distributed.Resp.Parser.{
  bulk_string, byte_at, RespValue, ParseResult, complete, incomplete, invalid, panicked, crlf_from,
  find_crlf, read_line, parse_simple_string, parse_error, parse_integer, parse_bulk_string,
  bulk_data, parse_items, Items, parsed, stopped, array_items, parse_array, parse_tagged,
  parse_nested, parse_resp, text_line, number_line, item_or_stop, push, array_of,
}

pub length-drop : (n : ℕ) (bs : Bytes) → length (drop n bs) ≡ length bs - n
length-drop zero bs = omega arith
length-drop (suc n) [] = omega arith
length-drop (suc n) (b ∷ bs) = omega (arith, length-drop n bs)

pub crlf_from-le :
    (i : ℕ) (bs : Bytes) (cr : ℕ) → crlf_from i bs ≡ some cr → (i ≤ cr) × (cr + 2 ≤ i + length bs)
unfolding crlf_from
crlf_from-le i [] cr h = ground arith
crlf_from-le i (x ∷ []) cr h = ground arith
crlf_from-le i (x ∷ y ∷ bs) cr h = ground (arith, crlf_from-le (suc i) (y ∷ bs) cr)

pub read_line-le :
    (buf : Bytes) (line : Bytes) (next : ℕ)
    → read_line buf 1 ≡ some (line, next)
    → (3 ≤ next) × (next ≤ length buf)
unfolding read_line find_crlf
read_line-le buf line next h = elim (Option-cases (find_crlf buf 1)) [
  | inl open_line ↦ ground arith
  | inr (cr, found) ↦ ground (arith, crlf_from-le 1 (drop 1 buf) cr, length-drop 1 buf)
]

-- A complete value takes at least one byte, and at most all that there are.
abbrev pub Fits : ℕ → ParseResult → Type 0
Fits room (complete v n) = (0 < n) × (n ≤ room)
Fits room incomplete = Unit
Fits room invalid = Unit
Fits room panicked = Unit

text_line-Fits :
    (value : Bytes → RespValue) (buf : Bytes)
    → Fits (length buf) (text_line value (read_line buf 1))
text_line-Fits value buf = elim (Option-cases (read_line buf 1)) [
  | inl open_line ↦ rw open_line tt
  | inr ((line, next), found) ↦ elim (Bool-cases (is_utf8 line)) [
    | inl good ↦ rw (found, good) (omega (arith, read_line-le buf line next found))
    | inr bad ↦ rw (found, bad) tt
  ]
]

number_line-Fits :
    (go : ℤ → ℕ → ParseResult) (buf : Bytes)
    → ((n : ℤ) (next : ℕ) → 3 ≤ next → next ≤ length buf → Fits (length buf) (go n next))
    → Fits (length buf) (number_line go (read_line buf 1))
number_line-Fits go buf fits = elim (Option-cases (read_line buf 1)) [
  | inl open_line ↦ rw open_line tt
  | inr ((line, next), found) ↦ elim (Bool-cases (is_utf8 line)) [
    | inr bad ↦ rw (found, bad) tt
    | inl good ↦ elim (Option-cases (parse_i64 line)) [
      | inl no_number ↦ rw (found, good, no_number) tt
      | inr (n, number) ↦
          rw (found, good, number)
            (let (low, high) = read_line-le buf line next found in fits n next low high)
    ]
  ]
]

Fits-if :
    (room : ℕ) (b : Bool) (r r' : ParseResult)
    → Fits room r
    → Fits room r'
    → Fits room (if b then r else r')
Fits-if room true r r' h h' = h
Fits-if room false r r' h h' = h'

bulk_data-Fits :
    (buf : Bytes) (n : ℤ) (next : ℕ)
    → 3 ≤ next
    → next ≤ length buf
    → Fits (length buf) (bulk_data buf n next)
unfolding bulk_data
bulk_data-Fits buf (negsuc n) next low high = omega arith
bulk_data-Fits buf (pos len) next low high = elim (Bool-cases (ltb (length buf) (next + len + 2))) [
  | inl short ↦ rw short tt
  | inr enough ↦
      let room : next + len + 2 ≤ length buf = ground arith in
      rw enough (
        Fits-if (length buf)
          (not (byte_at (next + len) buf == b'\r') || not (byte_at (next + len + 1) buf == b'\n'))
          invalid (complete (bulk_string (take len (drop next buf))) (next + len + 2)) tt
          (omega arith))
]

-- The items end at an offset that is not before the start, and not past the end.
abbrev ItemsFit : ℕ → ℕ → Items → Type 0
ItemsFit low high (parsed items offset) = (low ≤ offset) × (offset ≤ high)
ItemsFit low high (stopped (complete v n)) = ⊥
ItemsFit low high (stopped incomplete) = Unit
ItemsFit low high (stopped invalid) = Unit
ItemsFit low high (stopped panicked) = Unit

push-ItemsFit :
    (low low' high : ℕ) (v : RespValue) (r : Items)
    → low' ≤ low
    → ItemsFit low high r
    → ItemsFit low' high (push v r)
push-ItemsFit low low' high v (parsed items offset) le h = omega arith
push-ItemsFit low low' high v (stopped (complete w n)) le h = h
push-ItemsFit low low' high v (stopped incomplete) le h = tt
push-ItemsFit low low' high v (stopped invalid) le h = tt
push-ItemsFit low low' high v (stopped panicked) le h = tt

item_or_stop-ItemsFit :
    (low high room : ℕ) (r : ParseResult) (go : RespValue → ℕ → Items)
    → Fits room r
    → ((v : RespValue) (n : ℕ) → 0 < n → n ≤ room → ItemsFit low high (go v n))
    → ItemsFit low high (item_or_stop r go)
item_or_stop-ItemsFit low high room (complete v n) go (some_byte, fits) then_fits =
    then_fits v n some_byte fits
item_or_stop-ItemsFit low high room incomplete go h then_fits = tt
item_or_stop-ItemsFit low high room invalid go h then_fits = tt
item_or_stop-ItemsFit low high room panicked go h then_fits = tt

parse_items-ItemsFit :
    (parse : Bytes → ParseResult) (n : ℕ) (buf : Bytes) (offset : ℕ)
    → ((b : Bytes) → Fits (length b) (parse b))
    → offset ≤ length buf
    → ItemsFit offset (length buf) (parse_items parse n buf offset)
unfolding parse_items
parse_items-ItemsFit parse zero buf offset fits inside = omega arith
parse_items-ItemsFit parse (suc n) buf offset fits inside =
    item_or_stop-ItemsFit offset (length buf) (length (drop offset buf)) (parse (drop offset buf)) _
      (fits (drop offset buf))
      (λ v consumed low high.
        push-ItemsFit (offset + consumed) offset (length buf) v _ (omega arith) (
          parse_items-ItemsFit parse n buf (offset + consumed) fits
            (omega (arith, length-drop offset buf))))

array_of-Fits : (low high : ℕ) (r : Items) → 0 < low → ItemsFit low high r → Fits high (array_of r)
array_of-Fits low high (parsed items offset) pos_low h = omega arith
array_of-Fits low high (stopped incomplete) pos_low h = tt
array_of-Fits low high (stopped invalid) pos_low h = tt
array_of-Fits low high (stopped panicked) pos_low h = tt
array_of-Fits low high (stopped (complete v n)) pos_low h = elim h [ ]

array_items-Fits :
    (limit : ℕ) (parse : Bytes → ParseResult) (buf : Bytes) (n : ℤ) (next : ℕ)
    → ((b : Bytes) → Fits (length b) (parse b))
    → 3 ≤ next
    → next ≤ length buf
    → Fits (length buf) (array_items limit parse buf n next)
unfolding array_items
array_items-Fits limit parse buf (negsuc n) next fits low high = omega arith
array_items-Fits limit parse buf (pos count) next fits low high =
    Fits-if (length buf) (ltb limit count) panicked _ tt (
      array_of-Fits next (length buf) (parse_items parse count buf next) (omega arith)
        (parse_items-ItemsFit parse count buf next fits high))

parse_tagged-Fits :
    (limit : ℕ) (parse : Bytes → ParseResult) (buf : Bytes)
    → ((b : Bytes) → Fits (length b) (parse b))
    → Fits (length buf) (parse_tagged limit parse buf)
unfolding parse_tagged parse_simple_string parse_error parse_integer parse_bulk_string parse_array
parse_tagged-Fits limit parse [] fits = tt
parse_tagged-Fits limit parse (tag ∷ rest) fits =
    let buf = tag ∷ rest in
    let room = length buf in
    Fits-if room (tag == b'+') _ _ (text_line-Fits _ buf) (
      Fits-if room (tag == b'-') _ _ (text_line-Fits _ buf) (
        Fits-if room (tag == b':') _ _ (number_line-Fits _ buf (λ n next low high. omega arith)) (
          Fits-if room (tag == b'$') _ _
            (number_line-Fits _ buf (λ n next low high. bulk_data-Fits buf n next low high))
            (Fits-if room (tag == b'*') _ _
              (number_line-Fits _ buf
                (λ n next low high. array_items-Fits limit parse buf n next fits low high))
              tt))))

pub parse_nested-Fits :
    (limit fuel : ℕ) (buf : Bytes) → Fits (length buf) (parse_nested limit incomplete fuel buf)
unfolding parse_nested
parse_nested-Fits limit zero buf = tt
parse_nested-Fits limit (suc fuel) buf =
    parse_tagged-Fits limit (parse_nested limit incomplete fuel) buf (parse_nested-Fits limit fuel)

-- A value that is parsed takes at least one byte of the buffer, and not more than there are: the
-- connection advances, and never past the end.
pub consumed-le :
    (limit : ℕ) (buf : Bytes) (v : RespValue) (n : ℕ)
    → parse_resp limit buf ≡ complete v n
    → (0 < n) × (n ≤ length buf)
unfolding parse_resp
consumed-le limit buf v n h =
    subst (λ r. Fits (length buf) r) h (parse_nested-Fits limit (suc (length buf)) buf)
