-- ===== src/Resp/Stable.antt =====
-- What the parser (crates/node/src/resp/parser.rs) gives when more bytes have come.
use self_healing_distributed.Prelude.{
  ℕ, zero, suc, ◌+◌, ◌-◌, ◌≤◌, ◌<◌, ◌≡◌, ◌≢◌, refl, sym, ap, ◌∙◌, Bool, true, false, some, [], ◌∷◌,
  ◌++◌, arith, ltb, ◌==◌, if◌then◌else◌, length, take, drop, length-append, Option-cases,
  Bool-cases, ◌⊎◌, inl, inr,
}
use self_healing_distributed.Types.{Bytes}
use self_healing_distributed.Resp.Text.{ℤ, pos, negsuc, is_utf8, parse_i64}
use self_healing_distributed.Resp.Parser.{
  byte_at, RespValue, ParseResult, complete, incomplete, invalid, panicked, crlf_from, find_crlf,
  read_line, parse_simple_string, parse_error, parse_integer, parse_bulk_string, bulk_data,
  parse_items, Items, stopped, array_items, parse_array, parse_tagged, parse_nested, parse_resp,
  text_line, number_line, item_or_stop, push, array_of,
}
use self_healing_distributed.Resp.Bounds.{
  crlf_from-le, length-drop, read_line-le, Fits, parse_nested-Fits,
}
use self_healing_distributed.Resp.Depth.{parse_nested-eq-parse_resp}

crlf_from-append :
    (i : ℕ) (bs more : Bytes) (cr : ℕ)
    → crlf_from i bs ≡ some cr
    → crlf_from i (bs ++ more) ≡ some cr
unfolding crlf_from
crlf_from-append i [] more cr h = ground arith
crlf_from-append i (x ∷ []) more cr h = ground arith
crlf_from-append i (x ∷ y ∷ bs) more cr h =
    ground (arith, crlf_from-append (suc i) (y ∷ bs) more cr)

pub drop-more : (n : ℕ) (bs more : Bytes) → n ≤ length bs → drop n (bs ++ more) ≡ drop n bs ++ more
drop-more zero bs more h = refl
drop-more (suc n) [] more h = ground arith
drop-more (suc n) (b ∷ bs) more h = drop-more n bs more (omega arith)

take-more : (n : ℕ) (bs more : Bytes) → n ≤ length bs → take n (bs ++ more) ≡ take n bs
take-more zero bs more h = refl
take-more (suc n) [] more h = ground arith
take-more (suc n) (b ∷ bs) more h = ap (λ l. b ∷ l) (take-more n bs more (omega arith))

byte_at-more : (n : ℕ) (bs more : Bytes) → n < length bs → byte_at n (bs ++ more) ≡ byte_at n bs
byte_at-more n [] more h = ground arith
byte_at-more zero (b ∷ bs) more h = refl
byte_at-more (suc n) (b ∷ bs) more h = byte_at-more n bs more (omega arith)

find_crlf-append :
    (bs more : Bytes) (cr : ℕ) → find_crlf bs 1 ≡ some cr → find_crlf (bs ++ more) 1 ≡ some cr
unfolding find_crlf
find_crlf-append [] more cr h = ground arith
find_crlf-append (b ∷ bs) more cr h =
    ground (arith, crlf_from-append 1 bs more cr, length-append bs more)

find_crlf-le : (buf : Bytes) (cr : ℕ) → find_crlf buf 1 ≡ some cr → (1 ≤ cr) × (cr + 2 ≤ length buf)
unfolding find_crlf
find_crlf-le buf cr h = ground (arith, crlf_from-le 1 (drop 1 buf) cr, length-drop 1 buf)

read_line-append :
    (buf more line : Bytes) (next : ℕ)
    → read_line buf 1 ≡ some (line, next)
    → read_line (buf ++ more) 1 ≡ some (line, next)
unfolding read_line
read_line-append buf more line next h = elim (Option-cases (find_crlf buf 1)) [
  | inl open_line ↦ ground arith
  | inr (cr, found) ↦
      let (low, high) = find_crlf-le buf cr found in
      let same : take (cr - 1) (drop 1 (buf ++ more)) ≡ take (cr - 1) (drop 1 buf) =
        rw (drop-more 1 buf more (omega arith))
          (take-more (cr - 1) (drop 1 buf) more (omega (arith, length-drop 1 buf))) in
      rw (find_crlf-append buf more cr found, same) (rw found at h)
]

-- The result `r` is final: with more bytes, `r'` is the same, unless `r` waits for them.
abbrev Extends : ParseResult → ParseResult → Type 0
Extends r r' = (r ≡ incomplete) ⊎ (r' ≡ r)

-- The same for the items of an array.
abbrev ItemsExtend : Items → Items → Type 0
ItemsExtend r r' = (r ≡ stopped incomplete) ⊎ (r' ≡ r)

text_line-Extends :
    (value : Bytes → RespValue) (buf more : Bytes)
    → Extends (text_line value (read_line buf 1)) (text_line value (read_line (buf ++ more) 1))
text_line-Extends value buf more = elim (Option-cases (read_line buf 1)) [
  | inl open_line ↦ rw open_line (inl refl)
  | inr ((line, next), found) ↦ rw (found, read_line-append buf more line next found) (inr refl)
]

number_line-Extends :
    (go go' : ℤ → ℕ → ParseResult) (buf more : Bytes)
    → ((n : ℤ) (next : ℕ) → 0 < next → next ≤ length buf → Extends (go n next) (go' n next))
    → Extends (number_line go (read_line buf 1)) (number_line go' (read_line (buf ++ more) 1))
number_line-Extends go go' buf more ext = elim (Option-cases (read_line buf 1)) [
  | inl open_line ↦ rw open_line (inl refl)
  | inr ((line, next), found) ↦
      let (low, high) = read_line-le buf line next found in
      rw (found, read_line-append buf more line next found)
        (elim (Bool-cases (is_utf8 line)) [
          | inr bad ↦ rw bad (inr refl)
          | inl good ↦ elim (Option-cases (parse_i64 line)) [
            | inl no_number ↦ rw (good, no_number) (inr refl)
            | inr (n, number) ↦ rw (good, number) (ext n next (omega arith) high)
          ]
        ])
]

Extends-if :
    (b : Bool) (r r' s s' : ParseResult)
    → Extends r r'
    → Extends s s'
    → Extends (if b then r else s) (if b then r' else s')
Extends-if true r r' s s' h h' = h
Extends-if false r r' s s' h h' = h'

bulk_data-Extends :
    (buf more : Bytes) (n : ℤ) (next : ℕ)
    → Extends (bulk_data buf n next) (bulk_data (buf ++ more) n next)
unfolding bulk_data
bulk_data-Extends buf more (negsuc n) next = inr refl
bulk_data-Extends buf more (pos len) next = elim (Bool-cases (ltb (length buf) (next + len + 2))) [
  | inl short ↦ rw short (inl refl)
  | inr enough ↦
      let room : next + len + 2 ≤ length buf = ground arith in
      let longer : ltb (length (buf ++ more)) (next + len + 2) ≡ false =
        ground (arith, length-append buf more) in
      rw
        (
          enough,
          longer,
          byte_at-more (next + len) buf more (omega arith),
          byte_at-more (next + len + 1) buf more (omega arith),
          drop-more next buf more (omega arith),
          take-more len (drop next buf) more (omega (arith, length-drop next buf)),
        )
        (inr refl)
]

push-ItemsExtend :
    (v : RespValue) (r r' : Items) → ItemsExtend r r' → ItemsExtend (push v r) (push v r')
push-ItemsExtend v r r' (inl waits) = inl (ap (push v) waits)
push-ItemsExtend v r r' (inr same) = inr (ap (push v) same)

item_or_stop-ItemsExtend :
    (room : ℕ) (r r' : ParseResult) (go go' : RespValue → ℕ → Items)
    → Fits room r
    → Extends r r'
    → ((v : RespValue) (n : ℕ) → n ≤ room → ItemsExtend (go v n) (go' v n))
    → ItemsExtend (item_or_stop r go) (item_or_stop r' go')
item_or_stop-ItemsExtend room (complete v n) r' go go' (some_byte, fits) (inl waits) ext =
    ground arith
item_or_stop-ItemsExtend room (complete v n) r' go go' (some_byte, fits) (inr same) ext =
    rw same (ext v n fits)
item_or_stop-ItemsExtend room incomplete r' go go' fits e ext = inl refl
item_or_stop-ItemsExtend room invalid r' go go' fits (inl waits) ext = ground arith
item_or_stop-ItemsExtend room invalid r' go go' fits (inr same) ext = rw same (inr refl)
item_or_stop-ItemsExtend room panicked r' go go' fits (inl waits) ext = ground arith
item_or_stop-ItemsExtend room panicked r' go go' fits (inr same) ext = rw same (inr refl)

array_of-Extends : (r r' : Items) → ItemsExtend r r' → Extends (array_of r) (array_of r')
array_of-Extends r r' (inl waits) = inl (ap array_of waits)
array_of-Extends r r' (inr same) = inr (ap array_of same)

-- A parser of the items whose results are final.
module _ (parse : Bytes → ParseResult) (more : Bytes)
    (fits : (b : Bytes) → Fits (length b) (parse b))
    (final : (b : Bytes) → Extends (parse b) (parse (b ++ more))) where
  parse_items-ItemsExtend :
      (n : ℕ) (buf : Bytes) (offset : ℕ)
      → offset ≤ length buf
      → ItemsExtend (parse_items parse n buf offset) (parse_items parse n (buf ++ more) offset)
  unfolding parse_items
  parse_items-ItemsExtend zero buf offset inside = inr refl
  parse_items-ItemsExtend (suc n) buf offset inside = rw (drop-more offset buf more inside) (
      item_or_stop-ItemsExtend (length (drop offset buf)) (parse (drop offset buf)) _ _ _
        (fits (drop offset buf)) (final (drop offset buf))
        (λ v consumed high. push-ItemsExtend v _ _ (
          parse_items-ItemsExtend n buf (offset + consumed)
            (omega (arith, length-drop offset buf)))))

  array_items-Extends :
      (limit : ℕ) (buf : Bytes) (n : ℤ) (next : ℕ)
      → next ≤ length buf
      → Extends (array_items limit parse buf n next) (array_items limit parse (buf ++ more) n next)
  unfolding array_items
  array_items-Extends limit buf (negsuc n) next inside = inr refl
  array_items-Extends limit buf (pos count) next inside =
      Extends-if (ltb limit count) panicked panicked _ _ (inr refl)
        (array_of-Extends _ _ (parse_items-ItemsExtend count buf next inside))

  parse_tagged-Extends :
      (limit : ℕ) (buf : Bytes)
      → Extends (parse_tagged limit parse buf) (parse_tagged limit parse (buf ++ more))
  unfolding parse_tagged parse_simple_string parse_error parse_integer parse_bulk_string parse_array
  parse_tagged-Extends limit [] = inl refl
  parse_tagged-Extends limit (tag ∷ rest) =
      let buf = tag ∷ rest in
      Extends-if (tag == b'+') _ _ _ _ (text_line-Extends _ buf more) (
        Extends-if (tag == b'-') _ _ _ _ (text_line-Extends _ buf more) (
          Extends-if (tag == b':') _ _ _ _
            (number_line-Extends _ _ buf more (λ n next low high. inr refl))
            (Extends-if (tag == b'$') _ _ _ _
              (number_line-Extends _ _ buf more
                (λ n next low high. bulk_data-Extends buf more n next))
              (Extends-if (tag == b'*') _ _ _ _
                (number_line-Extends _ _ buf more
                  (λ n next low high. array_items-Extends limit buf n next high))
                (inr refl)))))

parse_nested-Extends :
    (limit fuel : ℕ) (buf more : Bytes)
    → Extends
        (parse_nested limit incomplete fuel buf)
        (parse_nested limit incomplete fuel (buf ++ more))
unfolding parse_nested
parse_nested-Extends limit zero buf more = inl refl
parse_nested-Extends limit (suc fuel) buf more =
    parse_tagged-Extends (parse_nested limit incomplete fuel) more (parse_nested-Fits limit fuel)
      (λ b. parse_nested-Extends limit fuel b more) limit buf

not_waiting : (r r' : ParseResult) → Extends r r' → r ≢ incomplete → r' ≡ r
not_waiting r r' (inl waits) done = elim (done waits) [ ]
not_waiting r r' (inr same) done = same

-- A result other than that more bytes are needed is final: bytes that come later do not change
-- it, be it a value, a protocol error or a panic.
pub parse_resp-append :
    (limit : ℕ) (buf more : Bytes)
    → parse_resp limit buf ≢ incomplete
    → parse_resp limit (buf ++ more) ≡ parse_resp limit buf
parse_resp-append limit buf more done =
    let fuel = suc (length (buf ++ more)) in
    let enough =
      (parse_nested-eq-parse_resp limit incomplete fuel buf
        (omega (arith, length-append buf more))).0 in
    sym (parse_nested-eq-parse_resp limit incomplete fuel (buf ++ more) (omega arith)).0
    ∙ not_waiting (parse_nested limit incomplete fuel buf) _
        (parse_nested-Extends limit fuel buf more) (λ waits. done (sym enough ∙ waits))
    ∙ enough
