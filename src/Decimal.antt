-- ===== src/Decimal.antt =====
-- `%d` of package fmt on a uint64: the decimal digits, and that they tell numbers apart.
use Prim.Native.Char.{Char, code}
use Prim.Native.String.{[], ◌∷◌}
use agent_secyrity.Prelude.{
  ℕ, zero, suc, ◌+◌, ◌-◌, ◌*◌, ◌/◌, ◌%◌, ◌^◌, ◌<◌, String, ◌≡◌, refl, sym, ap, ◌∙◌, arith, ltb,
  Bool-cases, inl, inr, if◌then◌else◌,
}

unfoldable pub digit : ℕ → Char
digit zero = "0"
digit (suc zero) = "1"
digit (suc (suc zero)) = "2"
digit (suc (suc (suc zero))) = "3"
digit (suc (suc (suc (suc zero)))) = "4"
digit (suc (suc (suc (suc (suc zero))))) = "5"
digit (suc (suc (suc (suc (suc (suc zero)))))) = "6"
digit (suc (suc (suc (suc (suc (suc (suc zero))))))) = "7"
digit (suc (suc (suc (suc (suc (suc (suc (suc zero)))))))) = "8"
digit _ = "9"

-- The digits of `n` in front of `out`, the last one first; the fuel bounds their number.
unfoldable pub digits_from : ℕ → ℕ → String → String
digits_from zero n out = out
digits_from (suc fuel) n out =
    let more = digits_from fuel (n / 10) (digit (n % 10) ∷ out) in
    if ltb n 10 then digit n ∷ out else more

-- Twenty digits are enough for every uint64.
unfoldable pub decimal : ℕ → String
decimal n = digits_from 20 n ""

unfoldable pub value_from : String → ℕ → ℕ
value_from [] n = n
value_from (c ∷ s) n = value_from s (n * 10 + (code c - 48))

abbrev pub HasDigits : ℕ → ℕ → Type 0
HasDigits zero n = n < 1
HasDigits (suc fuel) n = HasDigits fuel (n / 10)

pub code-digit : (d : ℕ) → d < 10 → code (digit d) ≡ 48 + d
unfolding digit
code-digit zero h = refl
code-digit (suc zero) h = refl
code-digit (suc (suc zero)) h = refl
code-digit (suc (suc (suc zero))) h = refl
code-digit (suc (suc (suc (suc zero)))) h = refl
code-digit (suc (suc (suc (suc (suc zero))))) h = refl
code-digit (suc (suc (suc (suc (suc (suc zero)))))) h = refl
code-digit (suc (suc (suc (suc (suc (suc (suc zero))))))) h = refl
code-digit (suc (suc (suc (suc (suc (suc (suc (suc zero)))))))) h = refl
code-digit _ h = omega arith

value-digits :
    (fuel n : ℕ) (out : String)
    → HasDigits fuel n
    → value_from (digits_from fuel n out) 0 ≡ value_from out n
unfolding digits_from value_from
value-digits zero n out h = ap (value_from out) (omega arith)
value-digits (suc fuel) n out h = elim (Bool-cases (ltb n 10)) [
  | inl small ↦ rw small (ap (value_from out) (omega (arith, code-digit n (ground arith))))
  | inr large ↦ rw large (
      value-digits fuel (n / 10) (digit (n % 10) ∷ out) h
      ∙ ap (value_from out) (omega (arith, code-digit (n % 10) (omega arith))))
]

pub uint64-HasDigits : (n : ℕ) → n < 2 ^ 64 → HasDigits 20 n
uint64-HasDigits n h = omega arith

value-decimal : (n : ℕ) → n < 2 ^ 64 → value_from (decimal n) 0 ≡ n
unfolding decimal value_from
value-decimal n h = value-digits 20 n "" (uint64-HasDigits n h)

-- Different numbers below 2 ^ 64 have different decimal texts.
pub decimal_injective : (n m : ℕ) → n < 2 ^ 64 → m < 2 ^ 64 → decimal n ≡ decimal m → n ≡ m
decimal_injective n m h k e =
    sym (value-decimal n h) ∙ ap (λ s. value_from s 0) e ∙ value-decimal m k
