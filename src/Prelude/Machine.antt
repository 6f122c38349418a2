-- ===== src/Prelude/Machine.antt =====
-- Runs of C code that may stop the process: an assertion, a trap, or an access out of bounds.
use Prim.Native.Nat.{ℕ}
use mathlib.Core.Path.{◌≡◌, refl}
use mathlib.Core.Bool.{Bool, true, false}
use mathlib.Core.List.{List}
use mathlib.Core.Option.{none, some}
use ramryder.Prelude.Tests.{ltb, if◌then◌else◌}
use ramryder.Prelude.Lists.{length, get_elem?, set}

-- Why a run stops. `out_of_bounds` stands for undefined behaviour of C, and `out_of_fuel` for a
-- loop that is still running when the fuel of its model is used up.
pub data Abort : Type 0 where
  assert_failed bug_on out_of_bounds division_by_zero out_of_fuel : Abort

pub data Exec {ℓ} (A : Type ℓ) : Type ℓ where
  done : A → Exec A
  abort : Abort → Exec A

infixl 5 ◌>>=◌ ◌>>◌
abbrev pub ◌>>=◌ {ℓ κ} : {A : Type ℓ} {B : Type κ} → Exec A → (A → Exec B) → Exec B
done a >>= f = f a
abort e >>= f = abort e

abbrev pub ◌>>◌ {ℓ} : {B : Type ℓ} → Exec (Unit {0}) → Exec B → Exec B
m >> k = m >>= λ _. k

-- `BUG_ON(cond)`, and `assert(!cond)`.
abbrev pub stop_if : Bool → Abort → Exec (Unit {0})
stop_if true e = abort e
stop_if false e = done tt

module _ {ℓ} {A : Type ℓ} where
  -- `xs[i]`
  abbrev pub read : List A → ℕ → Exec A
  read xs i = elim (get_elem? xs i) [ none ↦ abort out_of_bounds | some a ↦ done a ]

  -- `xs[i] = v`
  abbrev pub write : List A → ℕ → A → Exec (List A)
  write xs i v = if ltb i (length xs) then done (set xs i v) else abort out_of_bounds

-- Inversion of a run that ended.
pub >>=-eq-done {ℓ κ} :
    {A : Type ℓ} {B : Type κ} (m : Exec A) (f : A → Exec B) {b : B}
    → (m >>= f) ≡ done b
    → (a : A) × (m ≡ done a) × (f a ≡ done b)
>>=-eq-done (done a) f h = (a, refl, h)
>>=-eq-done (abort e) f h = absurd (cc)

-- A run has one final state.
pub same_state {ℓ κ} :
    {A : Type ℓ} {S : Type κ} (run : Exec (A × S)) (a b : A) (s t : S)
    → run ≡ done (a, s)
    → run ≡ done (b, t)
    → s ≡ t
same_state run a b s t e f = cc

pub >>=-done {ℓ κ} :
    {A : Type ℓ} {B : Type κ} (m : Exec A) (f : A → Exec B) {a : A} → m ≡ done a → (m >>= f) ≡ f a
>>=-done m f e = rw e refl

-- Two ways to go on that agree.
pub >>=-ext {ℓ κ} :
    {A : Type ℓ} {B : Type κ} (m : Exec A) (f g : A → Exec B)
    → ((a : A) → f a ≡ g a)
    → (m >>= f) ≡ (m >>= g)
>>=-ext (done a) f g h = h a
>>=-ext (abort e) f g h = refl

pub read-eq {ℓ} :
    {A : Type ℓ} (xs : List A) (i : ℕ) {a : A} → get_elem? xs i ≡ some a → read xs i ≡ done a
read-eq xs i e = rw (read, e) refl
