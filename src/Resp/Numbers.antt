-- ===== src/Resp/Numbers.antt =====
-- The lengths that the encoder (crates/node/src/resp/encoder.rs) writes in decimal, as the parser
-- (crates/node/src/resp/parser.rs) reads them.
use mathlib.Core.Path.{subst}
use mathlib.Core.WellFounded.{Acc}
use native.Mathlib.Decide.{dec_lt}
use native.Mathlib.Bridge.{le_prop}
use mathlib.Core.Logic.{dif_pos, dif_neg}
use self_healing_distributed.Prelude.{
  ℕ, zero, suc, ◌+◌, ◌-◌, ◌*◌, ◌/◌, ◌%◌, ◌^◌, ◌≤◌, ◌<◌, ◌≡◌, refl, sym, ap, ◌∙◌, Bool, true, false,
  some, [], ◌∷◌, arith, ltb, ◌==◌, if◌then◌else◌, length, All,
}
use self_healing_distributed.Types.{Bytes}
use self_healing_distributed.Decimal.{digits, digits_acc, to_decimal, lt_wf, tenth_lt}
use self_healing_distributed.Resp.Text.{
  pos, is_utf8, parse_i64, parse_u64, parse_digits, parse_unsigned,
}

abbrev pub IsDigit : ℕ → Type 0
IsDigit b = (48 ≤ b) × (b ≤ 57)

add_sub : (d : ℕ) → 48 + d - 48 ≡ d
add_sub d = omega arith

parse_digits-cons :
    (n d : ℕ) (bs : Bytes) → d < 10 → parse_digits n ((48 + d) ∷ bs) ≡ parse_digits (10 * n + d) bs
unfolding parse_digits
parse_digits-cons n d bs h = ground (arith, ap (λ k. parse_digits (10 * n + k) bs) (add_sub d))

tenths : (n : ℕ) → 10 * (n / 10) + n % 10 ≡ n
tenths n = omega arith

positive_or_zero : (n : ℕ) → ¬ (0 < n) → 0 ≡ n
positive_or_zero n h = omega arith

parse_digits-digits_acc :
    (n : ℕ) (a : Acc ◌<◌ n) (out : Bytes) → parse_digits 0 (digits_acc n a out) ≡ parse_digits n out
unfolding digits_acc
parse_digits-digits_acc n (Acc.intro _ smaller) out = elim (dec_lt 0 n) [
  | yes h ↦ rw (dif_pos (dec_lt 0 n) le_prop h) (
      parse_digits-digits_acc (n / 10) (smaller (n / 10) (tenth_lt h)) ((48 + n % 10) ∷ out)
      ∙ parse_digits-cons (n / 10) (n % 10) out (omega arith)
      ∙ ap (λ k. parse_digits k out) (tenths n))
  | no h ↦ rw (dif_neg (dec_lt 0 n) h) (ap (λ k. parse_digits k out) (positive_or_zero n h))
]

All-digits_acc :
    (n : ℕ) (a : Acc ◌<◌ n) (out : Bytes) → All IsDigit out → All IsDigit (digits_acc n a out)
unfolding digits_acc
All-digits_acc n (Acc.intro _ smaller) out h = elim (dec_lt 0 n) [
  | yes p ↦ rw (dif_pos (dec_lt 0 n) le_prop p) (
      All-digits_acc (n / 10) (smaller (n / 10) (tenth_lt p)) ((48 + n % 10) ∷ out)
        ((omega arith, omega arith), h))
  | no p ↦ rw (dif_neg (dec_lt 0 n) p) h
]

pub is_utf8-digits : (ds : Bytes) → All IsDigit ds → is_utf8 ds ≡ true
unfolding is_utf8
is_utf8-digits [] h = refl
is_utf8-digits (d ∷ ds) (h, hs) =
    let low : ltb d 128 ≡ true = ground arith in ground (arith, is_utf8-digits ds hs)

ends : (n : ℕ) → parse_digits n [] ≡ some n
unfolding parse_digits
ends n = refl

nonempty : (n : ℕ) (ds : Bytes) → 0 < n → parse_digits 0 ds ≡ some n → 0 < length ds
unfolding parse_digits
nonempty n [] h read = ground arith
nonempty n (d ∷ ds) h read = omega arith

-- What `to_decimal` writes is a number that the parser reads.
pub record IsNumber (n : ℕ) (ds : Bytes) : Type 0 where
  pub read : parse_digits 0 ds ≡ some n
  pub only : All IsDigit ds
  pub some_digit : 0 < length ds

digits-IsNumber : (n : ℕ) → 0 < n → IsNumber n (digits n [])
unfolding digits
digits-IsNumber n h =
    let read = parse_digits-digits_acc n (lt_wf.apply n) [] in
    record {
      read = read ∙ ends n;
      only = All-digits_acc n (lt_wf.apply n) [] tt;
      some_digit = nonempty n (digits_acc n (lt_wf.apply n) []) h (read ∙ ends n);
    }

pub if_false : {A : Type 0} (b : Bool) (x y : A) → b ≡ false → (if b then x else y) ≡ y
if_false true x y h = ground arith
if_false false x y h = refl

to_decimal-suc : (n : ℕ) → to_decimal (suc n) ≡ digits (suc n) []
unfolding to_decimal
to_decimal-suc n = if_false (suc n == 0) (48 ∷ []) (digits (suc n) []) (ground arith)

pub to_decimal-IsNumber : (n : ℕ) → IsNumber n (to_decimal n)
unfolding to_decimal parse_digits
to_decimal-IsNumber zero = record {
  read = refl;
  only = ((omega arith, omega arith), tt);
  some_digit = omega arith;
}
to_decimal-IsNumber (suc n) =
    subst (λ ds. IsNumber (suc n) ds) (sym (to_decimal-suc n))
      (digits-IsNumber (suc n) (omega arith))

pub parse_i64-digits :
    (n : ℕ) (ds : Bytes) → IsNumber n ds → n < 2 ^ 63 → parse_i64 ds ≡ some (pos n)
unfolding parse_i64 parse_unsigned
parse_i64-digits n [] d h = ground (arith, d.some_digit)
parse_i64-digits n (b ∷ bs) d h = let ((low, high), _) = d.only in ground (arith, d.read)

pub parse_u64-digits : (n : ℕ) (ds : Bytes) → IsNumber n ds → n < 2 ^ 64 → parse_u64 ds ≡ some n
unfolding parse_u64 parse_unsigned
parse_u64-digits n [] d h = ground (arith, d.some_digit)
parse_u64-digits n (b ∷ bs) d h = let ((low, high), _) = d.only in ground (arith, d.read)
