-- ===== src/Decimal.antt =====
-- `to_string` of the unsigned integers: the decimal digits, most significant first.
use mathlib.Core.WellFounded.{Acc, WellFounded}
use native.Mathlib.Decide.{dec_lt}
use mathlib.Core.Logic.{dite}
use self_healing_distributed.Prelude.{
  ℕ, zero, suc, ◌+◌, ◌/◌, ◌%◌, ◌<◌, ◌≡◌, refl, arith, [], ◌∷◌, ◌==◌, if◌then◌else◌,
}
use self_healing_distributed.Types.{Bytes, codes}

Acc-below : (k n : ℕ) → n < k → Acc ◌<◌ n
Acc-below zero n h = elim h [ ]
Acc-below (suc k) n h = Acc.intro n (λ m hm. Acc-below k m (omega arith))

unfoldable pub lt_wf : WellFounded ◌<◌
unfolding Acc-below
lt_wf = record { apply = λ n. Acc-below (suc n) n (omega arith) }

pub tenth_lt : {n : ℕ} → 0 < n → n / 10 < n
tenth_lt h = omega arith

unfoldable pub digits_acc : (n : ℕ) → Acc ◌<◌ n → Bytes → Bytes
digits_acc n (Acc.intro _ smaller) out =
    dite (dec_lt 0 n)
      (λ h. digits_acc (n / 10) (smaller (n / 10) (tenth_lt h)) ((b'0' + n % 10) ∷ out)) (λ _. out)

-- The digits of a positive number, in front of what follows.
unfoldable pub digits : ℕ → Bytes → Bytes
unfolding digits_acc lt_wf dec_lt
digits n = digits_acc n (lt_wf.apply n)

unfoldable pub to_decimal : ℕ → Bytes
unfolding digits
to_decimal n = if n == 0 then b'0' ∷ [] else digits n []

to_decimal-150 : to_decimal 150 ≡ codes "150"
unfolding to_decimal
to_decimal-150 = refl
