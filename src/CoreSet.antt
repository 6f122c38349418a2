-- ===== src/CoreSet.antt =====
-- src/vm_manager.c, `vm_mngr_for_each_core`: the cores that a core set such as "20-39,41" names, in
-- the order in which the handler sees them.
pub mod Tests
use ramryder.Prelude.{
  ℕ, zero, suc, ◌+◌, ◌-◌, Bool, true, false, List, [], ◌∷◌, ◌++◌, Option, none, some, ℤ, pos, ◌+ℤ◌,
  ◌-ℤ◌, leb_ℤ, pos_part, ◌==◌, if◌then◌else◌, Exec, done, abort, ◌>>=◌, ◌>>◌, stop_if, bug_on, ◌≡◌,
  ◌≢◌, refl, length, arith,
}
use ramryder.Scan.{Bytes, codes, scan_int, scan_literal}

-- The first part up to a comma, put in front of the others.
pub add_byte : ℕ → List Bytes → List Bytes
add_byte c [] = (c ∷ []) ∷ []
add_byte c (part ∷ parts) = (c ∷ part) ∷ parts

pub split_commas : Bytes → List Bytes
split_commas [] = [] ∷ []
split_commas (c ∷ s) =
    let parts = split_commas s in if c == b',' then [] ∷ parts else add_byte c parts

-- `strtok(copy, ",")` and the calls that follow skip the empty parts.
pub drop_empty : List Bytes → List Bytes
drop_empty [] = []
drop_empty ([] ∷ parts) = drop_empty parts
drop_empty ((c ∷ part) ∷ parts) = (c ∷ part) ∷ drop_empty parts

-- `sscanf(token, "%d-%d", &start, &end) == 2`
pub scan_range : Bytes → Option (ℤ × ℤ)
scan_range token = elim (scan_int token) [
  | none ↦ none
  | some (start, r) ↦ elim (scan_literal (b'-' ∷ []) r) [
    | none ↦ none
    | some r' ↦ elim (scan_int r') [ none ↦ none | some (end, r'') ↦ some (start, end) ]
  ]
]

-- `for (i = start; ...; ++i)` with the number of rounds that are left. The counter has no limit here:
-- a range whose end is the largest `int`, where the code's counter overflows, is taken to end there.
pub cores_from : ℤ → ℕ → List ℤ
cores_from start zero = []
cores_from start (suc n) = start ∷ cores_from (start +ℤ pos 1) n

pub token_cores : Bytes → List ℤ
token_cores token = elim (scan_range token) [
  | some (start, end) ↦
      if leb_ℤ start end then cores_from start (pos_part (end -ℤ start) + 1) else []
  | none ↦ elim (scan_int token) [ none ↦ [] | some (start, r) ↦ start ∷ [] ]
]

pub tokens_cores : List Bytes → List ℤ
tokens_cores [] = []
tokens_cores (t ∷ ts) = token_cores t ++ tokens_cores ts

-- The cores that the handler is called with, one after another.
unfoldable pub core_list : Bytes → List ℤ
unfolding add_byte split_commas drop_empty scan_range cores_from token_cores tokens_cores scan_int
    scan_literal ◌+ℤ◌ ◌-ℤ◌
core_list core_set = tokens_cores (drop_empty (split_commas core_set))

is_empty : Bytes → Bool
is_empty [] = true
is_empty (c ∷ s) = false

-- The calls of the handler.
unfoldable pub each_core {ℓ} : {S : Type ℓ} → (S → ℤ → Exec S) → S → List ℤ → Exec S
each_core handler s [] = done s
each_core handler s (c ∷ cs) = do s' ← handler s c; each_core handler s' cs

-- An empty core set is a bug.
unfoldable pub for_each_core {ℓ} : {S : Type ℓ} → Bytes → (S → ℤ → Exec S) → S → Exec S
unfolding is_empty
for_each_core core_set handler s = do
  stop_if (is_empty core_set) bug_on
  each_core handler s (core_list core_set)

count_each : (cs : List ℤ) (n : ℕ) → each_core (λ m c. done (m + 1)) n cs ≡ done (n + length cs)
unfolding each_core
count_each [] n = ground arith
count_each (c ∷ cs) n = ground (arith, count_each cs (n + 1))

-- Counting with a handler counts the cores of the list, if there is a core set at all.
pub for_each_core_count :
    (core_set : Bytes)
    → core_set ≢ []
    → for_each_core core_set (λ n c. done (n + 1)) 0 ≡ done (length (core_list core_set))
unfolding for_each_core
for_each_core_count [] h = absurd (h refl)
for_each_core_count (c ∷ s) h = ground (arith, count_each (core_list (c ∷ s)) 0)

pub for_each_core_empty {ℓ} :
    {S : Type ℓ} (handler : S → ℤ → Exec S) (s : S) → for_each_core [] handler s ≡ abort bug_on
unfolding for_each_core
for_each_core_empty handler s = refl

pub for_each_core-eq {ℓ} :
    {S : Type ℓ} (core_set : Bytes) (handler : S → ℤ → Exec S) (s : S)
    → core_set ≢ []
    → for_each_core core_set handler s ≡ each_core handler s (core_list core_set)
unfolding for_each_core
for_each_core-eq [] handler s h = absurd (h refl)
for_each_core-eq (c ∷ cs) handler s h = refl
