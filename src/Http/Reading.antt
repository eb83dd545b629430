-- ===== src/Http/Reading.antt =====
-- The numbers of an audit query.
use agent_secyrity.Prelude.{
  ℕ, ◌^◌, ◌<◌, ◌≡◌, inl, inr, ap, String, false, ◌==◌, arith, eq_iff, Bool-cases,
}
use agent_secyrity.Prelude.Int.{pos}
use agent_secyrity.Strconv.{atoi, atoi-decimal}
use agent_secyrity.Decimal.{decimal}
use agent_secyrity.Domain.Errors.{ok}
use agent_secyrity.Http.Query.{number_parameter}

decimal_filled : (n : ℕ) → n < 2 ^ 63 → (decimal n == "") ≡ false
unfolding atoi
decimal_filled n h = elim (Bool-cases (decimal n == "")) [
  | inl blank ↦ absurd (cc (atoi-decimal n h, ap atoi ((eq_iff (decimal n) "").0 blank)))
  | inr filled ↦ filled
]

-- A page number that is printed in decimal is read back, if it fits an int.
pub number_parameter-decimal :
    (name : String) (n : ℕ) → n < 2 ^ 63 → number_parameter name (decimal n) ≡ ok (pos n)
unfolding number_parameter
number_parameter-decimal name n h = rw (decimal_filled n h, atoi-decimal n h) (ground arith)
