-- ===== src/Decimal.antt =====
-- `%d` of `snprintf` for a number of zero or more, and for an `int`.
pub mod Tests
pub mod RoundTrip
use ramryder.Prelude.{
  ℕ, zero, suc, ◌+◌, ◌/◌, ◌%◌, Bool, List, [], ◌∷◌, ◌++◌, ℤ, pos, negsuc, ltb, if◌then◌else◌, ◌≡◌,
  refl,
}
use ramryder.Scan.{Bytes, codes}

-- The fuel is a bound on the number of digits; without it the remaining digits are dropped.
unfoldable pub digits : ℕ → ℕ → Bytes
digits zero n = []
digits (suc fuel) n =
    let high = digits fuel (n / 10) in
    if ltb n 10 then (b'0' + n) ∷ [] else high ++ (b'0' + n % 10) ∷ []

-- A number has at most `n + 1` digits.
unfoldable pub show_nat : ℕ → Bytes
unfolding digits
show_nat n = digits (suc n) n

unfoldable pub show_int : ℤ → Bytes
unfolding show_nat
show_int (pos n) = show_nat n
show_int (negsuc n) = b'-' ∷ show_nat (suc n)
