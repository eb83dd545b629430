-- ===== src/Strconv.antt =====
-- strconv.Atoi of Go's standard library, on a 64-bit machine; `none` stands for its errors.
use Prim.Native.Char.{code}
use Prim.Native.String.{[], ◌∷◌}
use agent_secyrity.Prelude.{
  ℕ, zero, suc, ◌+◌, ◌-◌, ◌*◌, ◌/◌, ◌%◌, ◌^◌, ◌<◌, ◌≤◌, String, ◌≡◌, ap, ◌∙◌, Bool, ◌&&◌, Option,
  none, some, arith, ltb, leb, nat_eq, Bool-cases, inl, inr, if◌then◌else◌,
}
use agent_secyrity.Prelude.Int.{ℤ, pos, negsuc, ◌≤ℤ◌}
use agent_secyrity.Decimal.{digit, digits_from, decimal, HasDigits, code-digit, uint64-HasDigits}

is_digit : ℕ → Bool
is_digit c = leb 48 c && leb c 57

-- the digits that follow those of `n`
digits_value : String → ℕ → Option ℕ
unfolding is_digit
digits_value [] n = some n
digits_value (c ∷ s) n =
    let more = digits_value s (n * 10 + (code c - 48)) in if is_digit (code c) then more else none

unsigned : String → Option ℕ
unfolding digits_value
unsigned [] = none
unsigned (c ∷ s) = digits_value (c ∷ s) 0

to_int : Option ℕ → Option ℤ
to_int none = none
to_int (some n) = if ltb n (2 ^ 63) then some (pos n) else none

to_negative : Option ℕ → Option ℤ
to_negative none = none
to_negative (some n) =
    if nat_eq n 0 then some (pos 0) else if leb n (2 ^ 63) then some (negsuc (n - 1)) else none

unfoldable pub atoi : String → Option ℤ
unfolding unsigned to_int to_negative
atoi [] = none
atoi (c ∷ s) =
    if nat_eq (code c) b'-'
    then to_negative (unsigned s)
    else if nat_eq (code c) b'+'
    then to_int (unsigned s)
    else to_int (unsigned (c ∷ s))

digits_value-digits :
    (fuel n : ℕ) (out : String)
    → HasDigits fuel n
    → digits_value (digits_from fuel n out) 0 ≡ digits_value out n
unfolding digits_from digits_value
digits_value-digits zero n out h = ap (digits_value out) (omega arith)
digits_value-digits (suc fuel) n out h = elim (Bool-cases (ltb n 10)) [
  | inl small ↦ rw small (ground (arith, code-digit n))
  | inr large ↦ rw large (
      digits_value-digits fuel (n / 10) (digit (n % 10) ∷ out) h
      ∙ ground (arith, code-digit (n % 10)))
]

-- A text that begins with a digit.
abbrev IsNumeral : String → Type 0
IsNumeral [] = ⊥
IsNumeral (c ∷ s) = 48 ≤ code c

IsNumeral-digits : (fuel n : ℕ) (out : String) → IsNumeral out → IsNumeral (digits_from fuel n out)
unfolding digits_from
IsNumeral-digits zero n out h = h
IsNumeral-digits (suc fuel) n out h = elim (Bool-cases (ltb n 10)) [
  | inl small ↦ rw small (ground (arith, code-digit n))
  | inr large ↦ rw large (
      IsNumeral-digits fuel (n / 10) (digit (n % 10) ∷ out)
        (omega (arith, code-digit (n % 10) (omega arith))))
]

IsNumeral-decimal : (n : ℕ) → IsNumeral (decimal n)
unfolding decimal digits_from
IsNumeral-decimal n = elim (Bool-cases (ltb n 10)) [
  | inl small ↦ rw small (ground (arith, code-digit n))
  | inr large ↦ rw large (
      IsNumeral-digits 19 (n / 10) (digit (n % 10) ∷ "")
        (omega (arith, code-digit (n % 10) (omega arith))))
]

atoi_of_numeral : (s : String) → IsNumeral s → atoi s ≡ to_int (digits_value s 0)
unfolding atoi
atoi_of_numeral [] h = absurd h
atoi_of_numeral (c ∷ s) h = ground arith

digits_value-decimal : (n : ℕ) → n < 2 ^ 64 → digits_value (decimal n) 0 ≡ some n
unfolding decimal digits_value
digits_value-decimal n h = digits_value-digits 20 n "" (uint64-HasDigits n h)

-- Atoi reads back what %d prints of a number that fits an int.
pub atoi-decimal : (n : ℕ) → n < 2 ^ 63 → atoi (decimal n) ≡ some (pos n)
unfolding to_int
atoi-decimal n h =
    atoi_of_numeral (decimal n) (IsNumeral-decimal n)
    ∙ rw (digits_value-decimal n (omega arith)) (ground arith)

to_int-le : (o : Option ℕ) (z : ℤ) → to_int o ≡ some z → z ≤ℤ pos (2 ^ 63 - 1)
unfolding to_int
to_int-le none z h = absurd (cc h)
to_int-le (some n) z h = ground arith

to_negative-le : (o : Option ℕ) (z : ℤ) → to_negative o ≡ some z → z ≤ℤ pos (2 ^ 63 - 1)
unfolding to_negative
to_negative-le none z h = absurd (cc h)
to_negative-le (some n) z h = ground arith

-- What Atoi yields fits an int.
pub atoi-le : (s : String) (z : ℤ) → atoi s ≡ some z → z ≤ℤ pos (2 ^ 63 - 1)
unfolding atoi
atoi-le [] z h = absurd (cc h)
atoi-le (c ∷ s) z h =
    ground (
      arith,
      to_int-le (unsigned s) z,
      to_negative-le (unsigned s) z,
      to_int-le (unsigned (c ∷ s)) z,
    )
