-- ===== src/Resp/Lines.antt =====
-- The lines that the encoder (crates/node/src/resp/encoder.rs) ends with a carriage return and a line
-- feed, as the parser (crates/node/src/resp/parser.rs) reads them.
use self_healing_distributed.Prelude.{
  ℕ, zero, suc, ◌+◌, ◌-◌, ◌≡◌, refl, ap, some, [], ◌∷◌, ◌++◌, arith, length, take, drop,
  length-append, All,
}
use self_healing_distributed.Types.{Bytes}
use self_healing_distributed.Resp.Parser.{byte_at, crlf_from, find_crlf, read_line}
use self_healing_distributed.Resp.Numbers.{IsDigit}

pub take-append : (n : ℕ) (xs ys : Bytes) → n ≡ length xs → take n (xs ++ ys) ≡ xs
take-append zero [] ys h = refl
take-append (suc n) [] ys h = ground arith
take-append zero (x ∷ xs) ys h = ground arith
take-append (suc n) (x ∷ xs) ys h = ap (λ l. x ∷ l) (take-append n xs ys (omega arith))

pub drop-append : (n : ℕ) (xs ys : Bytes) → n ≡ length xs → drop n (xs ++ ys) ≡ ys
drop-append zero [] ys h = refl
drop-append (suc n) [] ys h = ground arith
drop-append zero (x ∷ xs) ys h = ground arith
drop-append (suc n) (x ∷ xs) ys h = drop-append n xs ys (omega arith)

pub byte_at-append :
    (n : ℕ) (xs ys : Bytes) (k : ℕ) → n ≡ length xs + k → byte_at n (xs ++ ys) ≡ byte_at k ys
byte_at-append n [] ys k h = let e : n ≡ k = omega arith in ap (λ i. byte_at i ys) e
byte_at-append zero (x ∷ xs) ys k h = ground arith
byte_at-append (suc n) (x ∷ xs) ys k h = byte_at-append n xs ys k (omega arith)

pair_eq : {x x' : Bytes} {n n' : ℕ} → x ≡ x' → n ≡ n' → ◌≡◌ {A = Bytes × ℕ} (x, n) (x', n')
pair_eq p q = cc

-- A text without a carriage return that a line feed follows.
unfoldable pub HasNoCrlf : Bytes → Type 0
HasNoCrlf [] = Unit
HasNoCrlf (x ∷ []) = Unit
HasNoCrlf (x ∷ y ∷ bs) = ¬ ((x ≡ b'\r') × (y ≡ b'\n')) × HasNoCrlf (y ∷ bs)

pub digits-HasNoCrlf : (ds : Bytes) → All IsDigit ds → HasNoCrlf ds
unfolding HasNoCrlf
digits-HasNoCrlf [] h = tt
digits-HasNoCrlf (x ∷ []) h = tt
digits-HasNoCrlf (x ∷ y ∷ bs) (h, hs) = ((λ (cr, lf). omega arith), digits-HasNoCrlf (y ∷ bs) hs)

pub minus-HasNoCrlf : (ds : Bytes) → All IsDigit ds → HasNoCrlf (b'-' ∷ ds)
unfolding HasNoCrlf
minus-HasNoCrlf [] h = tt
minus-HasNoCrlf (x ∷ ds) h = ((λ (cr, lf). omega arith), digits-HasNoCrlf (x ∷ ds) h)

crlf_from-line :
    (i : ℕ) (line rest : Bytes)
    → HasNoCrlf line
    → crlf_from i (line ++ b'\r' ∷ b'\n' ∷ rest) ≡ some (i + length line)
unfolding crlf_from HasNoCrlf
crlf_from-line i [] rest h = ground arith
crlf_from-line i (x ∷ []) rest h = ground (arith, crlf_from-line (suc i) [] rest tt)
crlf_from-line i (x ∷ y ∷ bs) rest (h, hs) = ground (arith, crlf_from-line (suc i) (y ∷ bs) rest hs)

-- The line behind the tag, and where it ends.
pub read_line-line :
    (tag : ℕ) (line rest : Bytes)
    → HasNoCrlf line
    → read_line (tag ∷ line ++ b'\r' ∷ b'\n' ∷ rest) 1 ≡ some (line, length line + 3)
unfolding read_line find_crlf
read_line-line tag line rest h =
    let buf = tag ∷ line ++ b'\r' ∷ b'\n' ∷ rest in
    let found : find_crlf buf 1 ≡ some (1 + length line) =
      ground (arith, crlf_from-line 1 line rest h, length-append line (b'\r' ∷ b'\n' ∷ rest)) in
    rw found (
      ap (λ p. some p)
        (pair_eq (take-append (1 + length line - 1) line (b'\r' ∷ b'\n' ∷ rest) (omega arith))
          (omega arith)))
