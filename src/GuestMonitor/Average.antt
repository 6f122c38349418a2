-- ===== src/GuestMonitor/Average.antt =====
-- The bandwidth of a machine against the sum over its cores.
use native.Mathlib.Nat.{mod-add-mod}
use ramryder.Prelude.{
  ℕ, ◌+◌, ◌/◌, ◌%◌, ◌^◌, ◌≡◌, ◌≢◌, refl, ap, sym, ◌∙◌, Bool, true, false, ◌&&◌, List, [], ◌∷◌, none,
  some, ℤ, pos, negsuc, ltb, ◌==◌, if◌then◌else◌, length, get_elem?, get_elem?-total,
  get_elem?-none, read-eq, >>=-done, arith, Bool-cases, inl, inr, Exec, done, abort, ◌>>=◌,
  out_of_bounds, division_by_zero,
}
use ramryder.Scan.{Bytes}
use ramryder.CoreSet.{core_list, each_core, for_each_core-eq}
use ramryder.GuestMonitor.{
  CoreMetrics, Bandwidth, bw_of_core, accumulate_bw_per_core, average_bw, get_vm_mem_bw,
}

abbrev pub is_core : ℕ → ℤ → Bool
is_core cores (pos c) = ltb c cores
is_core cores (negsuc c) = false

abbrev pub all_cores : ℕ → List ℤ → Bool
all_cores cores [] = true
all_cores cores (c ∷ cs) = is_core cores c && all_cores cores cs

abbrev pub entry_of : List ℕ → ℤ → ℕ
entry_of array (pos c) = elim (get_elem? array c) [ none ↦ 0 | some x ↦ x ]
entry_of array (negsuc c) = 0

-- The sum over the cores, each as often as the list has it.
abbrev pub sum_of : List ℕ → List ℤ → ℕ
sum_of array [] = 0
sum_of array (c ∷ cs) = entry_of array c + sum_of array cs

-- What the monitor is to compute.
abbrev pub average_of : CoreMetrics → ℕ → List ℤ → Exec Bandwidth
average_of m seconds cores =
    let near = sum_of m.core_local_bw cores % 2 ^ 64 in
    let far = sum_of m.core_remote_bw cores % 2 ^ 64 in
    if all_cores (length m.core_local_bw) cores
    then (if seconds == 0
        then abort division_by_zero
        else done (record {
          mem_bw_local = near / seconds;
          mem_bw_remote = far / seconds;
          mem_bw = (near / seconds + far / seconds) % 2 ^ 64;
        }))
    else abort out_of_bounds

add_zero : (n : ℕ) → n + 0 ≡ n
add_zero n = omega arith

zero_add : (n : ℕ) → 0 + n ≡ n
zero_add n = omega arith

add_assoc : (a b c : ℕ) → a + b + c ≡ a + (b + c)
add_assoc a b c = omega arith

bw_of_core-eq :
    (array : List ℕ) (c : ℤ)
    → is_core (length array) c ≡ true
    → bw_of_core array c ≡ done (entry_of array c)
unfolding bw_of_core
bw_of_core-eq array (pos c) h =
    let (x, e) = get_elem?-total array c (ground arith) in
    read-eq array c e ∙ ap done (sym (rw (entry_of, e) refl))
bw_of_core-eq array (negsuc c) h = absurd (cc)

bw_of_core-out :
    (array : List ℕ) (c : ℤ)
    → is_core (length array) c ≡ false
    → bw_of_core array c ≡ abort out_of_bounds
unfolding bw_of_core
bw_of_core-out array (pos c) h = ground (arith, get_elem?-none array c (ground arith))
bw_of_core-out array (negsuc c) h = refl

accumulate-core :
    (m : CoreMetrics) (near far : ℕ) (c : ℤ)
    → length m.core_remote_bw ≡ length m.core_local_bw
    → is_core (length m.core_local_bw) c ≡ true
    → accumulate_bw_per_core m (near % 2 ^ 64, far % 2 ^ 64) c
      ≡ done (
        (near + entry_of m.core_local_bw c) % 2 ^ 64,
        (far + entry_of m.core_remote_bw c) % 2 ^ 64,
      )
unfolding accumulate_bw_per_core
accumulate-core m near far c h i =
    let x = entry_of m.core_local_bw c in
    let y = entry_of m.core_remote_bw c in
    rw (bw_of_core-eq m.core_local_bw c i, bw_of_core-eq m.core_remote_bw c (rw h i))
      (ap (λ n. done (n, (far % 2 ^ 64 + y) % 2 ^ 64)) (mod-add-mod near (2 ^ 64) x)
        ∙ ap (λ n. done ((near + x) % 2 ^ 64, n)) (mod-add-mod far (2 ^ 64) y))

accumulate-out :
    (m : CoreMetrics) (sums : ℕ × ℕ) (c : ℤ)
    → is_core (length m.core_local_bw) c ≡ false
    → accumulate_bw_per_core m sums c ≡ abort out_of_bounds
unfolding accumulate_bw_per_core
accumulate-out m (near, far) c i = rw (bw_of_core-out m.core_local_bw c i) refl

-- The sums of the cores that are read, as far as they can be.
abbrev sums : CoreMetrics → ℕ → ℕ → List ℤ → Exec (ℕ × ℕ)
sums m near far cores =
    if all_cores (length m.core_local_bw) cores
    then done (
      (near + sum_of m.core_local_bw cores) % 2 ^ 64,
      (far + sum_of m.core_remote_bw cores) % 2 ^ 64,
    )
    else abort out_of_bounds

sums-cons :
    (m : CoreMetrics) (near far : ℕ) (c : ℤ) (cs : List ℤ)
    → is_core (length m.core_local_bw) c ≡ true
    → sums m (near + entry_of m.core_local_bw c) (far + entry_of m.core_remote_bw c) cs
      ≡ sums m near far (c ∷ cs)
sums-cons m near far c cs i =
    rw
      (
        i,
        add_assoc near (entry_of m.core_local_bw c) (sum_of m.core_local_bw cs),
        add_assoc far (entry_of m.core_remote_bw c) (sum_of m.core_remote_bw cs),
      )
      refl

each_core-accumulate :
    (m : CoreMetrics) (near far : ℕ) (cores : List ℤ)
    → length m.core_remote_bw ≡ length m.core_local_bw
    → each_core (accumulate_bw_per_core m) (near % 2 ^ 64, far % 2 ^ 64) cores
      ≡ sums m near far cores
unfolding each_core
each_core-accumulate m near far [] h = rw (add_zero near, add_zero far) refl
each_core-accumulate m near far (c ∷ cs) h =
    elim (Bool-cases (is_core (length m.core_local_bw) c)) [
      | inl i ↦
          >>=-done _ _ (accumulate-core m near far c h i)
          ∙ each_core-accumulate m (near + entry_of m.core_local_bw c)
              (far + entry_of m.core_remote_bw c) cs h
          ∙ sums-cons m near far c cs i
      | inr i ↦ rw (accumulate-out m (near % 2 ^ 64, far % 2 ^ 64) c i, i) refl
    ]

sums-average :
    (m : CoreMetrics) (seconds : ℕ) (cores : List ℤ)
    → sums m 0 0 cores >>= average_bw seconds ≡ average_of m seconds cores
unfolding average_bw
sums-average m seconds cores = elim (Bool-cases (all_cores (length m.core_local_bw) cores)) [
  | inl i ↦ rw i (elim (Bool-cases (seconds == 0)) [
    | inl z ↦ rw z refl
    | inr z ↦
        rw (z, zero_add (sum_of m.core_local_bw cores), zero_add (sum_of m.core_remote_bw cores))
          refl
  ])
  | inr i ↦ rw i refl
]

-- When the core set of a machine is not empty and PCM's two arrays have one length, the bandwidth of
-- the machine is this: where each core of the set is below that length and the interval is not 0, the
-- two sums of what PCM has measured for these cores, in 64 bits and divided by the interval, and the
-- sum of the two quotients. A core that is not makes the code read outside of the arrays, and else an
-- interval of 0 makes it divide by zero.
pub get_vm_mem_bw_lem :
    (m : CoreMetrics) (seconds : ℕ) (core_set : Bytes)
    → core_set ≢ []
    → length m.core_remote_bw ≡ length m.core_local_bw
    → get_vm_mem_bw m seconds core_set ≡ average_of m seconds (core_list core_set)
unfolding get_vm_mem_bw
get_vm_mem_bw_lem m seconds core_set n h =
    ap (λ run. run >>= average_bw seconds)
      (for_each_core-eq core_set (accumulate_bw_per_core m) (0, 0) n
        ∙ each_core-accumulate m 0 0 (core_list core_set) h)
    ∙ sums-average m seconds (core_list core_set)
