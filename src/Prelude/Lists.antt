-- ===== src/Prelude/Lists.antt =====
-- Arrays as lists that are measured and indexed by native numbers.
use Prim.Native.Nat.{ℕ, zero, suc, ◌+◌, ◌≤◌, ◌<◌}
use mathlib.Core.Path.{◌≡◌, refl, ap}
use mathlib.Core.Logic.{◌≢◌, ◌⊎◌, inl, inr}
use mathlib.Core.Bool.{◌&&◌}
use mathlib.Core.List.{List, [], ◌∷◌}
use mathlib.Core.Option.{Option, none, some}
use native.Mathlib.Omega.{arith}
use ramryder.Prelude.Tests.{ltb, leb, ◌==◌, if◌then◌else◌, Bool-cases}

module _ {ℓ} {A : Type ℓ} where
  abbrev pub length : List A → ℕ
  length [] = 0
  length (x ∷ xs) = suc (length xs)

  abbrev pub get_elem? : List A → ℕ → Option A
  get_elem? [] i = none
  get_elem? (x ∷ xs) zero = some x
  get_elem? (x ∷ xs) (suc i) = get_elem? xs i

  -- A write out of bounds changes nothing.
  abbrev pub set : List A → ℕ → A → List A
  set [] i v = []
  set (x ∷ xs) zero v = v ∷ xs
  set (x ∷ xs) (suc i) v = x ∷ set xs i v

  abbrev pub drop : ℕ → List A → List A
  drop zero xs = xs
  drop (suc n) [] = []
  drop (suc n) (x ∷ xs) = drop n xs

  abbrev pub take : ℕ → List A → List A
  take zero xs = []
  take (suc n) [] = []
  take (suc n) (x ∷ xs) = x ∷ take n xs

  abbrev pub replicate : ℕ → A → List A
  replicate zero a = []
  replicate (suc n) a = a ∷ replicate n a

  -- The `n` entries from `k` on are replaced by `v`, as far as they exist.
  abbrev pub fill : List A → ℕ → ℕ → A → List A
  fill [] k n v = []
  fill (x ∷ xs) zero zero v = x ∷ xs
  fill (x ∷ xs) zero (suc n) v = v ∷ fill xs zero n v
  fill (x ∷ xs) (suc k) n v = x ∷ fill xs k n v

module _ {ℓ} {A : Type ℓ} where
  pub length-set : (xs : List A) (i : ℕ) (v : A) → length (set xs i v) ≡ length xs
  length-set [] i v = refl
  length-set (x ∷ xs) zero v = refl
  length-set (x ∷ xs) (suc i) v = ap suc (length-set xs i v)

  pub length-fill : (xs : List A) (k n : ℕ) (v : A) → length (fill xs k n v) ≡ length xs
  length-fill [] k n v = refl
  length-fill (x ∷ xs) zero zero v = refl
  length-fill (x ∷ xs) zero (suc n) v = ap suc (length-fill xs zero n v)
  length-fill (x ∷ xs) (suc k) n v = ap suc (length-fill xs k n v)

  pub length-replicate : (n : ℕ) (a : A) → length (replicate n a) ≡ n
  length-replicate zero a = refl
  length-replicate (suc n) a = ap suc (length-replicate n a)

  pub length-take : (n : ℕ) (xs : List A) → length (take n xs) ≤ length xs
  length-take zero xs = omega arith
  length-take (suc n) [] = omega arith
  length-take (suc n) (x ∷ xs) = omega (arith, length-take n xs)

  pub length-take_bound : (n : ℕ) (xs : List A) → length (take n xs) ≤ n
  length-take_bound zero xs = omega arith
  length-take_bound (suc n) [] = omega arith
  length-take_bound (suc n) (x ∷ xs) = omega (arith, length-take_bound n xs)

  pub length-take_all : (n : ℕ) (xs : List A) → n ≤ length xs → length (take n xs) ≡ n
  length-take_all zero xs l = refl
  length-take_all (suc n) [] l = absurd (omega arith)
  length-take_all (suc n) (x ∷ xs) l = ap suc (length-take_all n xs (omega arith))

  pub take_all : (n : ℕ) (xs : List A) → length xs ≤ n → take n xs ≡ xs
  take_all zero [] l = refl
  take_all zero (x ∷ xs) l = absurd (omega arith)
  take_all (suc n) [] l = refl
  take_all (suc n) (x ∷ xs) l = ap (◌∷◌ x) (take_all n xs (omega arith))

  pub get_elem?-set :
      (xs : List A) (i j : ℕ) (v : A)
      → i < length xs
      → get_elem? (set xs i v) j ≡ (if i == j then some v else get_elem? xs j)
  get_elem?-set [] i j v h = absurd (omega arith)
  get_elem?-set (x ∷ xs) zero zero v h = refl
  get_elem?-set (x ∷ xs) zero (suc j) v h = ground arith
  get_elem?-set (x ∷ xs) (suc i) zero v h = ground arith
  get_elem?-set (x ∷ xs) (suc i) (suc j) v h = ground (arith, get_elem?-set xs i j v)

  -- An entry of a list that was written to is the new one, or an old one.
  pub set-cases :
      (xs : List A) (i j : ℕ) {v w : A}
      → i < length xs
      → get_elem? (set xs i v) j ≡ some w
      → ((i ≡ j) × (v ≡ w)) ⊎ ((i ≢ j) × (get_elem? xs j ≡ some w))
  set-cases xs i j {v} h e = elim (Bool-cases (i == j)) [
    | inl same ↦ inl (ground arith, ground (arith, get_elem?-set xs i j v h))
    | inr other ↦ inr (ground arith, ground (arith, get_elem?-set xs i j v h))
  ]

  pub get_elem?-total : (xs : List A) (i : ℕ) → i < length xs → (a : A) × (get_elem? xs i ≡ some a)
  get_elem?-total [] i h = absurd (omega arith)
  get_elem?-total (x ∷ xs) zero h = (x, refl)
  get_elem?-total (x ∷ xs) (suc i) h = get_elem?-total xs i (omega arith)

  pub get_elem?-none : (xs : List A) (i : ℕ) → length xs ≤ i → get_elem? xs i ≡ none
  get_elem?-none [] i h = refl
  get_elem?-none (x ∷ xs) zero h = absurd (omega arith)
  get_elem?-none (x ∷ xs) (suc i) h = get_elem?-none xs i (omega arith)

  pub get_elem?-lt : (xs : List A) (i : ℕ) {a : A} → get_elem? xs i ≡ some a → i < length xs
  get_elem?-lt [] i h = absurd (cc)
  get_elem?-lt (x ∷ xs) zero h = omega arith
  get_elem?-lt (x ∷ xs) (suc i) h = omega (arith, get_elem?-lt xs i h)

  pub get_elem?-fill :
      (xs : List A) (k n j : ℕ) (v : A)
      → k + n ≤ length xs
      → get_elem? (fill xs k n v) j ≡ (if leb k j && ltb j (k + n) then some v else get_elem? xs j)
  get_elem?-fill [] k n j v h = ground arith
  get_elem?-fill (x ∷ xs) zero zero j v h = ground arith
  get_elem?-fill (x ∷ xs) zero (suc n) zero v h = ground arith
  get_elem?-fill (x ∷ xs) zero (suc n) (suc j) v h = ground (arith, get_elem?-fill xs zero n j v)
  get_elem?-fill (x ∷ xs) (suc k) n zero v h = ground arith
  get_elem?-fill (x ∷ xs) (suc k) n (suc j) v h = ground (arith, get_elem?-fill xs k n j v)

  -- Writing the window from its lower end, one entry at a time.
  pub fill-set :
      (xs : List A) (k n : ℕ) (v : A)
      → k < length xs
      → fill (set xs k v) (suc k) n v ≡ fill xs k (suc n) v
  fill-set [] k n v h = refl
  fill-set (x ∷ xs) zero n v h = refl
  fill-set (x ∷ xs) (suc k) n v h = ap (◌∷◌ x) (fill-set xs k n v (omega arith))

  pub fill-zero : (xs : List A) (k : ℕ) (v : A) → fill xs k zero v ≡ xs
  fill-zero [] k v = refl
  fill-zero (x ∷ xs) zero v = refl
  fill-zero (x ∷ xs) (suc k) v = ap (◌∷◌ x) (fill-zero xs k v)

  pub fill-fill : (xs : List A) (k n : ℕ) (v w : A) → fill (fill xs k n v) k n w ≡ fill xs k n w
  fill-fill [] k n v w = refl
  fill-fill (x ∷ xs) zero zero v w = refl
  fill-fill (x ∷ xs) zero (suc n) v w = ap (◌∷◌ w) (fill-fill xs zero n v w)
  fill-fill (x ∷ xs) (suc k) n v w = ap (◌∷◌ x) (fill-fill xs k n v w)

  pub set_self : (xs : List A) (i : ℕ) {v : A} → get_elem? xs i ≡ some v → set xs i v ≡ xs
  set_self [] i e = refl
  set_self (x ∷ xs) zero e = cc
  set_self (x ∷ xs) (suc i) e = ap (◌∷◌ x) (set_self xs i e)

  pub get_elem?-set_self :
      (xs : List A) (i : ℕ) {v w : A} → get_elem? xs i ≡ some v → get_elem? (set xs i w) i ≡ some w
  get_elem?-set_self [] i e = absurd (cc)
  get_elem?-set_self (x ∷ xs) zero e = refl
  get_elem?-set_self (x ∷ xs) (suc i) e = get_elem?-set_self xs i e

  pub set-set : (xs : List A) (i : ℕ) (v w : A) → set (set xs i v) i w ≡ set xs i w
  set-set [] i v w = refl
  set-set (x ∷ xs) zero v w = refl
  set-set (x ∷ xs) (suc i) v w = ap (◌∷◌ x) (set-set xs i v w)
