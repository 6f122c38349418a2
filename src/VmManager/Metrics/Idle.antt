-- ===== src/VmManager/Metrics/Idle.antt =====
-- What an interval without a miss in the L3 cache does to the metrics of a machine.
use ramryder.Prelude.{
  ◌∙◌, ap, ℕ, ◌≡◌, refl, true, false, List, [], ◌∷◌, some, arith, Bool-cases, inl, inr, length,
  get_elem?, get_elem?-total, Exec, done, ◌>>=◌,
}
use ramryder.PerfCounter.{Perf, event_types}
use ramryder.VmManager.Metrics.Bounds.{l3_miss_latency-ends}
use ramryder.VmManager.Metrics.{
  Doubles, Metrics, metric_max, max_of, min_of, clamp, latency_of, l3_miss_latency, ewma,
  update_metrics,
}

-- What IEEE 754 says of NaN, as far as the code uses it.
pub record IsIeee (d : Doubles) (nan : d.Double) : Type 0 where
  pub zero_by_zero : d.divided (d.of_uint64 0) (d.of_uint64 0) ≡ nan
  pub times_nan : (x : d.Double) → d.times x nan ≡ nan
  pub nan_divided : (x : d.Double) → d.divided nan x ≡ nan
  pub plus_nan : (x : d.Double) → d.plus x nan ≡ nan
  pub nan_plus : (x : d.Double) → d.plus nan x ≡ nan
  pub nan_less : (x : d.Double) → d.less nan x ≡ false
  pub less_nan : (x : d.Double) → d.less x nan ≡ false

-- The updates of one machine that runs, one after another, with the counters that each of them finds.
pub updates : (d : Doubles) → List Perf → Metrics d.Double → Exec (Metrics d.Double)
updates d [] m = done m
updates d (perf ∷ perfs) m = update_metrics d perf m >>= λ m'. updates d perfs m'

-- The counters have a delta for each event type.
abbrev pub HaveDeltas : List Perf → Type 0
HaveDeltas [] = Unit
HaveDeltas (perf ∷ perfs) = (length perf.delta_counts ≡ event_types) × HaveDeltas perfs

module _ (d : Doubles) (nan : d.Double) (ieee : IsIeee d nan) where
  open d use {Double, of_uint64}

  clamp-nan : clamp d nan ≡ nan
  unfolding clamp min_of max_of
  clamp-nan = rw (ieee.nan_less (of_uint64 0), ieee.less_nan (metric_max d)) refl

  latency_of-idle : (clk ref_tsc : ℕ) → latency_of d 0 0 clk ref_tsc ≡ nan
  unfolding latency_of
  latency_of-idle clk ref_tsc =
      rw (latency_of, ieee.zero_by_zero, ieee.times_nan (of_uint64 1000000000)) (ieee.nan_divided _)

  ewma-nan : (m : Metrics Double) → ewma d m nan ≡ nan
  unfolding ewma
  ewma-nan m = elim (Bool-cases m.ewma_initialized) [
    | inl on ↦ rw (on, ieee.times_nan d.two_tenths) (ieee.nan_plus _)
    | inr off ↦ rw off refl
  ]

  ewma-stays :
      (m : Metrics Double) (cur : Double)
      → m.ewma_initialized ≡ true
      → m.ewma_metric ≡ nan
      → ewma d m cur ≡ nan
  unfolding ewma
  ewma-stays m cur on e =
      rw (on, e, ieee.times_nan (d.minus (of_uint64 1) d.two_tenths)) (ieee.plus_nan _)

  -- The average of a machine is not a number.
  abbrev pub IsLost : Metrics Double → Type 0
  IsLost m = (m.ewma_initialized ≡ true) × (m.ewma_metric ≡ nan)

  latency-idle :
      (deltas : List ℕ)
      → length deltas ≡ event_types
      → get_elem? deltas 3 ≡ some 0
      → get_elem? deltas 4 ≡ some 0
      → l3_miss_latency d deltas ≡ done nan
  unfolding l3_miss_latency
  latency-idle deltas size e3 e4 =
      let (clk, e1) = get_elem?-total deltas 1 (omega (arith, size)) in
      let (tsc, e2) = get_elem?-total deltas 2 (omega (arith, size)) in
      ground (arith, e3, e4, e1, e2, latency_of-idle clk tsc)

  update-idle :
      (perf : Perf) (m : Metrics Double)
      → length perf.delta_counts ≡ event_types
      → get_elem? perf.delta_counts 3 ≡ some 0
      → get_elem? perf.delta_counts 4 ≡ some 0
      → (m' : Metrics Double) × (update_metrics d perf m ≡ done m') × IsLost m'
  unfolding update_metrics
  update-idle perf m size e3 e4 = (
    record {
      cur_metric = clamp d nan;
      ewma_metric = ewma d m (clamp d nan);
      ewma_initialized = true;
    },
    rw (latency-idle perf.delta_counts size e3 e4) refl,
    (refl, ap (ewma d m) clamp-nan ∙ ewma-nan m),
  )

  updates-IsLost :
      (perfs : List Perf) (m : Metrics Double)
      → HaveDeltas perfs
      → IsLost m
      → (m' : Metrics Double) × (updates d perfs m ≡ done m') × IsLost m'
  unfolding updates update_metrics
  updates-IsLost [] m h lost = (m, refl, lost)
  updates-IsLost (perf ∷ perfs) m (size, h) (on, e) =
      let (x, ran) = l3_miss_latency-ends d perf.delta_counts size in
      let m1 : Metrics Double = record {
        cur_metric = clamp d x;
        ewma_metric = ewma d m (clamp d x);
        ewma_initialized = true;
      } in
      let (m', rest, lost) = updates-IsLost perfs m1 h (refl, ewma-stays m (clamp d x) on e) in
      (m', rw ran rest, lost)

  -- In IEEE arithmetic, an update that finds neither a miss in the L3 cache nor a cycle with one
  -- outstanding since the one before it (both deltas are 0) divides 0 by 0. The moving average of the
  -- machine is then NaN, and it stays so for all updates that follow without a new set-up of the
  -- counters in between, whatever they count.
  pub updates-lost :
      (perf : Perf) (perfs : List Perf) (m : Metrics Double)
      → length perf.delta_counts ≡ event_types
      → get_elem? perf.delta_counts 3 ≡ some 0
      → get_elem? perf.delta_counts 4 ≡ some 0
      → HaveDeltas perfs
      → (m' : Metrics Double) × (updates d (perf ∷ perfs) m ≡ done m') × (m'.ewma_metric ≡ nan)
  unfolding updates
  updates-lost perf perfs m size e3 e4 h =
      let (m1, run, lost) = update-idle perf m size e3 e4 in
      let (m', rest, (_, e)) = updates-IsLost perfs m1 h lost in (m', rw (run, rest) refl, e)
