-- ===== src/VmManager/Metrics/Tests.antt =====
-- An arithmetic in which `none` is not a number, and the theorems in it.
use ramryder.Prelude.{
  ℕ, ◌+◌, ◌-◌, ◌*◌, ◌/◌, ◌≡◌, refl, sym, Bool, false, List, [], ◌∷◌, Option, none, some, arith, ltb,
  ◌==◌, if◌then◌else◌, replicate, done,
}
use ramryder.GuestAgent.{max_num_vm}
use ramryder.PerfCounter.{Perf}
use ramryder.MemoryPool.Pool.Tests.{small_pool, small_pool-IsValid}
use ramryder.VmManager.{no_perf}
use ramryder.VmManager.Reachable.{Reach-initial-IsValid}
use ramryder.VmManager.Serviced.Requests.{Reach-initial-IsServiced}
use ramryder.VmManager.Serviced.Tests.{started, run_to_started}
use ramryder.VmManager.Metrics.{Doubles, Metrics, reset_metrics, vm_mngr_update_metrics}
use ramryder.VmManager.Metrics.Bounds.{IsOrder, Measures, vm_mngr_update_metrics-Measures}
use ramryder.VmManager.Metrics.Idle.{IsIeee, updates, updates-lost}

pub both : (ℕ → ℕ → Option ℕ) → Option ℕ → Option ℕ → Option ℕ
both f none y = none
both f (some a) none = none
both f (some a) (some b) = f a b

pub below : Option ℕ → Option ℕ → Bool
below none y = false
below (some a) none = false
below (some a) (some b) = ltb a b

abbrev pub numbers : Doubles
numbers = record {
  Double = Option ℕ;
  of_uint64 = λ n. some n;
  two_tenths = some 0;
  plus = both (λ a b. some (a + b));
  minus = both (λ a b. some (a - b));
  times = both (λ a b. some (a * b));
  divided = both (λ a b. if b == 0 then none else some (a / b));
  less = below;
}

numbers-IsOrder : IsOrder numbers
unfolding below
numbers-IsOrder = record { irreflexive = irreflexive; max_not_negative = ground arith }
  where
    irreflexive : (x : Option ℕ) → below x x ≡ false
    irreflexive none = refl
    irreflexive (some a) = ground arith

right_none : (f : ℕ → ℕ → Option ℕ) (x : Option ℕ) → both f x none ≡ none
unfolding both
right_none f none = refl
right_none f (some a) = refl

numbers-IsIeee : IsIeee numbers none
unfolding both below
numbers-IsIeee = record {
  zero_by_zero = refl;
  times_nan = right_none (λ a b. some (a * b));
  nan_divided = λ x. refl;
  plus_nan = right_none (λ a b. some (a + b));
  nan_plus = λ x. refl;
  nan_less = λ x. refl;
  less_nan = less_nan;
}
  where
    less_nan : (x : Option ℕ) → below x none ≡ false
    less_nan none = refl
    less_nan (some a) = refl

abbrev idle : Perf
idle = record no_perf { delta_counts = 5 ∷ 7 ∷ 9 ∷ 0 ∷ 0 ∷ [] }

abbrev busy : Perf
busy = record no_perf { delta_counts = 5 ∷ 7 ∷ 9 ∷ 400 ∷ 2 ∷ [] }

updates-lost_example :
    (m' : Metrics (Option ℕ)) × (updates numbers (idle ∷ busy ∷ busy ∷ []) (reset_metrics numbers)
      ≡ done m')
    × (m'.ewma_metric ≡ none)
updates-lost_example =
    updates-lost numbers none numbers-IsIeee idle (busy ∷ busy ∷ []) (reset_metrics numbers) refl
      refl refl (refl, (refl, tt))

abbrev pub all_reset : List (Metrics (Option ℕ))
all_reset = replicate max_num_vm (reset_metrics numbers)

vm_mngr_update_metrics-Measures_example :
    (ms' : List (Metrics (Option ℕ))) × (vm_mngr_update_metrics numbers started all_reset
      ≡ done ms')
    × Measures numbers numbers-IsOrder started.vms all_reset ms'
vm_mngr_update_metrics-Measures_example =
    vm_mngr_update_metrics-Measures numbers numbers-IsOrder started all_reset
      (Reach-initial-IsValid small_pool started small_pool-IsValid run_to_started)
      (Reach-initial-IsServiced small_pool started small_pool-IsValid run_to_started)
      (sym (Reach-initial-IsValid small_pool started small_pool-IsValid run_to_started).slots)
