-- ===== src/Buffer.antt =====
-- Reports that are written piece by piece into a buffer: `offset += snprintf(buffer + offset,
-- size - offset, ...)`.
use ramryder.Prelude.{
  ℕ, zero, suc, ◌⊎◌, inl, inr, ◌+◌, ◌-◌, ◌≤◌, ◌≡◌, refl, [], ◌∷◌, ◌++◌, arith, length, take, ap,
  sym, ◌∙◌,
}
use ramryder.Scan.{Bytes}

-- The text that stands in the buffer, and the number of bytes that were asked for so far.
pub record Buffer : Type 0 where
  pub text : Bytes
  pub offset : ℕ

abbrev pub empty_buffer : Buffer
empty_buffer = record { text = []; offset = 0 }

-- One call of `snprintf`, with room for at least the closing NUL.
unfoldable pub print_at : ℕ → Buffer → Bytes → Buffer
print_at size b piece = record {
  text = b.text ++ take (size - b.offset - 1) piece;
  offset = b.offset + length piece;
}

-- The buffer holds as much of the whole text as fits beside the closing NUL.
pub record Holds (size : ℕ) (b : Buffer) (whole : Bytes) : Type 0 where
  pub fits : b.text ≡ take (size - 1) whole
  pub asked : b.offset ≡ length whole

length-append : (a b : Bytes) → length (a ++ b) ≡ length a + length b
length-append [] b = omega arith
length-append (c ∷ a) b = omega (arith, length-append a b)

zero_minus : (m : ℕ) → 0 - m ≡ 0
zero_minus m = omega arith

minus_zero : (m : ℕ) → m - 0 ≡ m
minus_zero m = omega arith

suc_minus : (n m : ℕ) → suc n - suc m ≡ n - m
suc_minus n m = omega arith

room : (size offset n : ℕ) → offset ≡ n → size - offset - 1 ≡ size - 1 - n
room size offset n e = omega (arith, e)

take-append : (n : ℕ) (a b : Bytes) → take n a ++ take (n - length a) b ≡ take n (a ++ b)
take-append zero [] b = refl
take-append (suc n) [] b = ap (λ m. take m b) (minus_zero (suc n))
take-append zero (c ∷ a) b = ap (λ m. take m b) (zero_minus (suc (length a)))
take-append (suc n) (c ∷ a) b =
    ap (◌∷◌ c) (ap (λ m. take n a ++ take m b) (suc_minus n (length a)) ∙ take-append n a b)

-- What is behind the end of the buffer does not matter.
take-full : (n : ℕ) (a b : Bytes) → n ≤ length a → take n (a ++ b) ≡ take n a
take-full zero a b h = refl
take-full (suc n) [] b h = absurd (omega arith)
take-full (suc n) (c ∷ a) b h = ap (◌∷◌ c) (take-full n a b (omega arith))

pub print_at-Holds :
    (size : ℕ) (b : Buffer) (whole piece : Bytes)
    → Holds size b whole
    → Holds size (print_at size b piece) (whole ++ piece)
unfolding print_at
print_at-Holds size b whole piece h = record {
  fits =
      ap (λ t. t ++ take (size - b.offset - 1) piece) h.fits
      ∙ ap (λ m. take (size - 1) whole ++ take m piece) (room size b.offset (length whole) h.asked)
      ∙ take-append (size - 1) whole piece;
  asked = omega (arith, h.asked, length-append whole piece);
}

pub Holds-full :
    (size : ℕ) (b : Buffer) (whole rest : Bytes)
    → Holds size b whole
    → size - 1 ≤ b.offset
    → b.text ≡ take (size - 1) (whole ++ rest)
Holds-full size b whole rest h full =
    h.fits ∙ sym (take-full (size - 1) whole rest (omega (arith, h.asked)))

pub append_nil : (a : Bytes) → a ++ [] ≡ a
append_nil [] = refl
append_nil (x ∷ a) = ap (◌∷◌ x) (append_nil a)

pub append_assoc : (a b c : Bytes) → (a ++ b) ++ c ≡ a ++ (b ++ c)
append_assoc [] b c = refl
append_assoc (x ∷ a) b c = ap (◌∷◌ x) (append_assoc a b c)

-- The buffer is full, and whatever might follow the text would not stand in it.
abbrev pub IsFull : ℕ → Buffer → Bytes → Type 0
IsFull size b whole =
    (size ≤ b.offset) × ((rest : Bytes) → b.text ≡ take (size - 1) (whole ++ rest))

-- Either way the buffer shows what fits of the text.
abbrev pub Shows : ℕ → Buffer → Bytes → Type 0
Shows size b whole = Holds size b whole ⊎ IsFull size b whole

pub Shows-IsFull :
    (size : ℕ) (b : Buffer) (whole more : Bytes)
    → Shows size b whole
    → size ≤ b.offset
    → IsFull size b (whole ++ more)
Shows-IsFull size b whole more (inl h) full = (
  full,
  λ rest.
      Holds-full size b whole (more ++ rest) h (omega (arith, full))
      ∙ ap (take (size - 1)) (sym (append_assoc whole more rest)),
)
Shows-IsFull size b whole more (inr (le, f)) full =
    (full, λ rest. f (more ++ rest) ∙ ap (take (size - 1)) (sym (append_assoc whole more rest)))

pub Shows-text :
    (size : ℕ) (b : Buffer) (whole : Bytes) → Shows size b whole → b.text ≡ take (size - 1) whole
Shows-text size b whole (inl h) = h.fits
Shows-text size b whole (inr (le, f)) = f [] ∙ ap (take (size - 1)) (append_nil whole)

take_nil : (n : ℕ) → ◌≡◌ {A = Bytes} [] (take n [])
take_nil zero = refl
take_nil (suc n) = refl

pub empty_buffer-Holds : (size : ℕ) → Holds size empty_buffer []
empty_buffer-Holds size = record { fits = take_nil (size - 1); asked = refl }
