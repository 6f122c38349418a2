-- ===== src/Decimal/RoundTrip.antt =====
-- `sscanf` reads a number back that `snprintf` has printed.
use ramryder.Prelude.{
  ℕ, zero, suc, ◌+◌, ◌*◌, ◌/◌, ◌%◌, ◌-◌, ◌<◌, ◌≡◌, refl, true, false, ◌&&◌, Bool, [], ◌∷◌, ◌++◌,
  some, arith, ℤ, pos, negsuc, ltb, if◌then◌else◌, Bool-cases, inl, inr, ap, sym, ◌∙◌,
}
use ramryder.Scan.{
  Bytes, is_digit, skip_spaces, scan_digits, scan_unsigned, scan_signed, scan_int, as_int, negate,
}
use ramryder.Decimal.{digits, show_nat, show_int}

abbrev pub all_digits : Bytes → Bool
all_digits [] = true
all_digits (c ∷ s) = is_digit c && all_digits s

-- A rest that does not go on with a digit.
abbrev pub ends_number : Bytes → Bool
ends_number [] = true
ends_number (c ∷ s) = if is_digit c then false else true

all_digits-append : (xs ys : Bytes) → all_digits (xs ++ ys) ≡ (all_digits xs && all_digits ys)
all_digits-append [] ys = refl
all_digits-append (x ∷ xs) ys = ground (arith, all_digits-append xs ys)

digit_lem : (n : ℕ) → n < 10 → is_digit (b'0' + n) ≡ true
digit_lem n h = ground arith

pub digits-digits : (fuel n : ℕ) → all_digits (digits fuel n) ≡ true
unfolding digits
digits-digits zero n = refl
digits-digits (suc fuel) n = elim (Bool-cases (ltb n 10)) [
  | inl small ↦ ground (arith, digit_lem n (ground arith))
  | inr big ↦ ground (
    arith,
    big,
    all_digits-append (digits fuel (n / 10)) ((b'0' + n % 10) ∷ []),
    digits-digits fuel (n / 10),
    digit_lem (n % 10) (omega arith),
  )
]

scan_digits-append :
    (k : ℕ) (xs ys : Bytes)
    → all_digits xs ≡ true
    → scan_digits k (xs ++ ys) ≡ scan_digits (scan_digits k xs).0 ys
unfolding scan_digits
scan_digits-append k [] ys h = refl
scan_digits-append k (x ∷ xs) ys h = ground (arith, scan_digits-append (k * 10 + (x - b'0')) xs ys)

scan_digits-digit : (k d : ℕ) → d < 10 → scan_digits k ((b'0' + d) ∷ []) ≡ (k * 10 + d, [])
unfolding scan_digits
scan_digits-digit k d h = ground (arith, digit_lem d h)

scan_digits-digits : (fuel n : ℕ) → n < fuel → (scan_digits 0 (digits fuel n)).0 ≡ n
unfolding digits
scan_digits-digits zero n h = absurd (omega arith)
scan_digits-digits (suc fuel) n h = elim (Bool-cases (ltb n 10)) [
  | inl small ↦ rw small (ap (λ r. r.0) (scan_digits-digit 0 n (ground arith)) ∙ omega arith)
  | inr big ↦ rw big (
      ap (λ r. r.0)
        (scan_digits-append 0 (digits fuel (n / 10)) ((b'0' + n % 10) ∷ [])
          (digits-digits fuel (n / 10)))
      ∙ ap (λ k. (scan_digits k ((b'0' + n % 10) ∷ [])).0)
          (scan_digits-digits fuel (n / 10) (ground arith))
      ∙ ap (λ r. r.0) (scan_digits-digit (n / 10) (n % 10) (omega arith))
      ∙ omega arith)
]

scan_digits-end : (k : ℕ) (s : Bytes) → ends_number s ≡ true → scan_digits k s ≡ (k, s)
unfolding scan_digits
scan_digits-end k [] h = refl
scan_digits-end k (c ∷ s) h = ground arith

scan_digits-show_nat :
    (n : ℕ) (rest : Bytes)
    → ends_number rest ≡ true
    → scan_digits 0 (show_nat n ++ rest) ≡ (n, rest)
unfolding show_nat
scan_digits-show_nat n rest h =
    scan_digits-append 0 (digits (suc n) n) rest (digits-digits (suc n) n)
    ∙ ap (λ k. scan_digits k rest) (scan_digits-digits (suc n) n (omega arith))
    ∙ scan_digits-end n rest h

-- A printed number begins with a digit.
digits-head :
    (fuel n : ℕ) → (c : ℕ) × (s : Bytes) × (digits (suc fuel) n ≡ c ∷ s) × (is_digit c ≡ true)
unfolding digits
digits-head zero n = elim (Bool-cases (ltb n 10)) [
  | inl small ↦ (b'0' + n, [], rw small refl, digit_lem n (ground arith))
  | inr big ↦ (b'0' + n % 10, [], rw big refl, digit_lem (n % 10) (omega arith))
]
digits-head (suc fuel) n = elim (Bool-cases (ltb n 10)) [
  | inl small ↦ (b'0' + n, [], rw small refl, digit_lem n (ground arith))
  | inr big ↦
      let (c, s, e, d) = digits-head fuel (n / 10) in
      (c, s ++ (b'0' + n % 10) ∷ [], rw big (ap (λ t. t ++ (b'0' + n % 10) ∷ []) e), d)
]

-- A number that an `int` holds.
abbrev pub FitsInt : ℤ → Type 0
FitsInt (pos n) = n < 2147483648
FitsInt (negsuc n) = n < 2147483648

as_int-FitsInt : (z : ℤ) → FitsInt z → as_int z ≡ z
as_int-FitsInt (pos n) h = ground (arith, h)
as_int-FitsInt (negsuc n) h = ground (arith, h)

scan_int-digit :
    (c n : ℕ) (s rest : Bytes)
    → is_digit c ≡ true
    → scan_digits 0 (c ∷ s) ≡ (n, rest)
    → FitsInt (pos n)
    → scan_int (c ∷ s) ≡ some (pos n, rest)
unfolding scan_int skip_spaces scan_signed scan_unsigned
scan_int-digit c n s rest d e f = ground (arith, d, e, as_int-FitsInt (pos n) f)

scan_int-show_nat :
    (n : ℕ) (rest : Bytes)
    → ends_number rest ≡ true
    → FitsInt (pos n)
    → scan_int (show_nat n ++ rest) ≡ some (pos n, rest)
unfolding show_nat
scan_int-show_nat n rest h f =
    let (c, s, e, d) = digits-head n n in
    let head : digits (suc n) n ++ rest ≡ c ∷ s ++ rest = ap (λ t. t ++ rest) e in
    ap scan_int head
    ∙ scan_int-digit c n (s ++ rest) rest d
        (ap (scan_digits 0) (sym head) ∙ scan_digits-show_nat n rest h) f

scan_unsigned-digit :
    (c n : ℕ) (s rest : Bytes)
    → is_digit c ≡ true
    → scan_digits 0 (c ∷ s) ≡ (n, rest)
    → scan_unsigned (c ∷ s) ≡ some (n, rest)
unfolding scan_unsigned
scan_unsigned-digit c n s rest d e = ground (arith, d, e)

scan_unsigned-show_nat :
    (n : ℕ) (rest : Bytes)
    → ends_number rest ≡ true
    → scan_unsigned (show_nat n ++ rest) ≡ some (n, rest)
unfolding show_nat
scan_unsigned-show_nat n rest h =
    let (c, s, e, d) = digits-head n n in
    let head : digits (suc n) n ++ rest ≡ c ∷ s ++ rest = ap (λ t. t ++ rest) e in
    ap scan_unsigned head
    ∙ scan_unsigned-digit c n (s ++ rest) rest d
        (ap (scan_digits 0) (sym head) ∙ scan_digits-show_nat n rest h)

scan_int-minus :
    (n : ℕ) (s rest : Bytes)
    → scan_unsigned s ≡ some (suc n, rest)
    → FitsInt (negsuc n)
    → scan_int (b'-' ∷ s) ≡ some (negsuc n, rest)
unfolding scan_int skip_spaces scan_signed negate
scan_int-minus n s rest e f = ground (arith, e, as_int-FitsInt (negsuc n) f)

-- A number of an `int` that was printed by `%d`, in front of anything but a further digit, is read back by `%d`,
-- and what follows it is left.
pub scan_int-show_int :
    (z : ℤ) (rest : Bytes)
    → ends_number rest ≡ true
    → FitsInt z
    → scan_int (show_int z ++ rest) ≡ some (z, rest)
unfolding show_int
scan_int-show_int (pos n) rest h f = scan_int-show_nat n rest h f
scan_int-show_int (negsuc n) rest h f =
    scan_int-minus n (show_nat (suc n) ++ rest) rest (scan_unsigned-show_nat (suc n) rest h) f
