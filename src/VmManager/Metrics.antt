-- ===== src/VmManager/Metrics.antt =====
-- src/vm_manager.c, `vm_mngr_update_metrics`, and what `vm_perf_counter_setup` sets the metrics to. The
-- arithmetic of `double` is a parameter. `METRIC_TYPE_MAX` is 1, so that each array of metrics is its
-- one entry, and the metrics of a machine stand in a list beside the table, slot by slot.
pub mod Bounds
pub mod Idle
pub mod Tests
use ramryder.Prelude.{
  ℕ, Bool, true, false, List, [], ◌∷◌, pos, ◌==ℤ◌, if◌then◌else◌, Exec, done, abort, ◌>>=◌,
  out_of_bounds, read,
}
use ramryder.PerfCounter.{Perf}
use ramryder.VmManager.{VmInstance, Manager}

-- `double`, the conversion of a `uint64_t`, the operations that the code uses and the literal 0.2.
pub record Doubles : Type 1 where
  pub Double : Type 0
  pub of_uint64 : ℕ → Double
  pub two_tenths : Double
  pub plus : Double → Double → Double
  pub minus : Double → Double → Double
  pub times : Double → Double → Double
  pub divided : Double → Double → Double
  pub less : Double → Double → Bool

-- The fields of `struct vm_instance` that hold the metrics.
pub record Metrics (D : Type 0) : Type 0 where
  pub cur_metric : D
  pub ewma_metric : D
  pub ewma_initialized : Bool

module _ (d : Doubles) where
  open d use {Double, of_uint64, two_tenths, plus, minus, times, divided, less}

  -- `metric_max_arr[METRIC_TYPE_LOAD_L3_MISS_LAT]`
  abbrev pub metric_max : Double
  metric_max = of_uint64 350

  abbrev pub tsc_freq : Double
  tsc_freq = of_uint64 2100000000

  -- `MAX` and `MIN`
  pub max_of : Double → Double → Double
  max_of a b = if less b a then a else b

  pub min_of : Double → Double → Double
  min_of a b = if less a b then a else b

  pub clamp : Double → Double
  clamp x = min_of metric_max (max_of (of_uint64 0) x)

  pub reset_metrics : Metrics Double
  reset_metrics = record {
    cur_metric = of_uint64 0;
    ewma_metric = of_uint64 0;
    ewma_initialized = false;
  }

  -- The latency of a miss in the L3 cache in nanoseconds, by Little's law.
  pub latency_of : ℕ → ℕ → ℕ → ℕ → Double
  latency_of outstanding misses clk ref_tsc =
      divided (times (of_uint64 1000000000) (divided (of_uint64 outstanding) (of_uint64 misses)))
        (times (divided (of_uint64 clk) (of_uint64 ref_tsc)) tsc_freq)

  -- The event types that it takes have the numbers 3, 4, 1 and 2.
  pub l3_miss_latency : List ℕ → Exec Double
  l3_miss_latency deltas = do
    outstanding ← read deltas 3
    misses ← read deltas 4
    clk ← read deltas 1
    ref_tsc ← read deltas 2
    done (latency_of outstanding misses clk ref_tsc)

  -- The exponentially weighted moving average.
  pub ewma : Metrics Double → Double → Double
  ewma m cur =
      if m.ewma_initialized
      then plus (times two_tenths cur) (times (minus (of_uint64 1) two_tenths) m.ewma_metric)
      else cur

  -- The body of the loop for a machine that runs.
  pub update_metrics : Perf → Metrics Double → Exec (Metrics Double)
  update_metrics perf m = l3_miss_latency perf.delta_counts >>= λ latency.
      let cur = clamp latency in
      done (record { cur_metric = cur; ewma_metric = ewma m cur; ewma_initialized = true })

  unfoldable pub update_slots :
      List VmInstance → List (Metrics Double) → Exec (List (Metrics Double))
  update_slots [] ms = done ms
  update_slots (vm ∷ vms) [] = abort out_of_bounds
  update_slots (vm ∷ vms) (m ∷ ms) = do
    m' ← if vm.running then update_metrics vm.perf m else done m
    ms' ← update_slots vms ms
    done (m' ∷ ms')

  unfoldable pub vm_mngr_update_metrics :
      Manager → List (Metrics Double) → Exec (List (Metrics Double))
  vm_mngr_update_metrics s ms = if s.count ==ℤ pos 0 then done ms else update_slots s.vms ms
