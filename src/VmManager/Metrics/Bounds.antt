-- ===== src/VmManager/Metrics/Bounds.antt =====
-- An update of the metrics goes through, and the metrics stay in their range.
use ramryder.Prelude.{
  ℕ, zero, suc, ◌≡◌, refl, ap, true, false, List, [], ◌∷◌, some, arith, pos, ◌==ℤ◌, if◌then◌else◌,
  Bool-cases, inl, inr, length, get_elem?, get_elem?-total, done,
}
use ramryder.PerfCounter.{Perf, event_types}
use ramryder.VmManager.{VmInstance, Manager}
use ramryder.VmManager.Invariant.{IsValid, empty_table}
use ramryder.VmManager.Serviced.{IsServiced}
use ramryder.VmManager.Metrics.{
  Doubles, Metrics, metric_max, max_of, min_of, clamp, latency_of, l3_miss_latency, ewma,
  update_metrics, update_slots, vm_mngr_update_metrics,
}

-- What the bounds rely on; it holds in IEEE 754 for every operand, a NaN included.
pub record IsOrder (d : Doubles) : Type 0 where
  pub irreflexive : (x : d.Double) → d.less x x ≡ false
  pub max_not_negative : d.less (metric_max d) (d.of_uint64 0) ≡ false

pub l3_miss_latency-ends :
    (d : Doubles) (deltas : List ℕ)
    → length deltas ≡ event_types
    → (x : d.Double) × (l3_miss_latency d deltas ≡ done x)
unfolding l3_miss_latency
l3_miss_latency-ends d deltas size =
    let (o3, e3) = get_elem?-total deltas 3 (omega (arith, size)) in
    let (o4, e4) = get_elem?-total deltas 4 (omega (arith, size)) in
    let (o1, e1) = get_elem?-total deltas 1 (omega (arith, size)) in
    let (o2, e2) = get_elem?-total deltas 2 (omega (arith, size)) in
    (latency_of d o3 o4 o1 o2, ground (arith, e3, e4, e1, e2))

module _ (d : Doubles) (o : IsOrder d) where
  open d use {Double, of_uint64, less}

  -- Neither below 0 nor above the largest latency.
  abbrev pub IsInRange : Double → Type 0
  IsInRange x = (less x (of_uint64 0) ≡ false) × (less (metric_max d) x ≡ false)

  max_of-0 : (x : Double) → less (max_of d (of_uint64 0) x) (of_uint64 0) ≡ false
  unfolding max_of
  max_of-0 x = elim (Bool-cases (less x (of_uint64 0))) [
    | inl below ↦ rw below (o.irreflexive (of_uint64 0))
    | inr fine ↦ rw fine fine
  ]

  clamp-IsInRange : (x : Double) → IsInRange (clamp d x)
  unfolding clamp min_of
  clamp-IsInRange x =
      let y = max_of d (of_uint64 0) x in
      elim (Bool-cases (less (metric_max d) y)) [
        | inl above ↦ rw above (o.max_not_negative, o.irreflexive (metric_max d))
        | inr fine ↦ rw fine (max_of-0 x, fine)
      ]

  -- The metrics of a machine before and after an update.
  pub record IsUpdated (m m' : Metrics Double) : Type 0 where
    pub in_range : IsInRange m'.cur_metric
    pub started : m'.ewma_initialized ≡ true
    pub average : m'.ewma_metric ≡ ewma d m m'.cur_metric

  pub update_metrics-IsUpdated :
      (perf : Perf) (m : Metrics Double)
      → length perf.delta_counts ≡ event_types
      → (m' : Metrics Double) × (update_metrics d perf m ≡ done m') × IsUpdated m m'
  unfolding update_metrics
  update_metrics-IsUpdated perf m size =
      let (x, e) = l3_miss_latency-ends d perf.delta_counts size in
      (
        record {
          cur_metric = clamp d x;
          ewma_metric = ewma d m (clamp d x);
          ewma_initialized = true;
        },
        rw e refl,
        record { in_range = clamp-IsInRange x; started = refl; average = refl },
      )

  -- What an update does to one machine: its metrics are updated if it runs, and kept if not.
  abbrev pub MeasuresOne : VmInstance → Metrics Double → Metrics Double → Type 0
  MeasuresOne vm m m' = (vm.running ≡ true → IsUpdated m m') × (vm.running ≡ false → m' ≡ m)

  update_one :
      (vm : VmInstance) (m : Metrics Double)
      → (vm.running ≡ true → length vm.perf.delta_counts ≡ event_types)
      → (m' : Metrics Double) × ((if vm.running then update_metrics d vm.perf m else done m)
          ≡ done m')
        × MeasuresOne vm m m'
  update_one vm m sized = elim (Bool-cases vm.running) [
    | inl on ↦
        let (m', run, u) = update_metrics-IsUpdated vm.perf m (sized on) in
        (m', rw on run, (λ _. u, λ off. absurd (cc)))
    | inr off ↦ (m, rw off refl, (λ on. absurd (cc), λ _. refl))
  ]

  -- The same for a table, slot by slot.
  abbrev pub Measures : List VmInstance → List (Metrics Double) → List (Metrics Double) → Type 0
  Measures vms ms ms' =
      (length ms' ≡ length ms)
      × ((i : ℕ) (vm : VmInstance) (m m' : Metrics Double)
          → get_elem? vms i ≡ some vm
          → get_elem? ms i ≡ some m
          → get_elem? ms' i ≡ some m'
          → MeasuresOne vm m m')

  Measures-cons :
      (vm : VmInstance) (vms : List VmInstance) (m m' : Metrics Double)
      (ms ms' : List (Metrics Double))
      → MeasuresOne vm m m'
      → Measures vms ms ms'
      → Measures (vm ∷ vms) (m ∷ ms) (m' ∷ ms')
  Measures-cons vm vms m m' ms ms' one (size, all) = (ap suc size, each)
    where
      each :
          (i : ℕ) (v : VmInstance) (x x' : Metrics Double)
          → get_elem? (vm ∷ vms) i ≡ some v
          → get_elem? (m ∷ ms) i ≡ some x
          → get_elem? (m' ∷ ms') i ≡ some x'
          → MeasuresOne v x x'
      each zero v x x' ev ex ex' =
          let a : vm ≡ v = cc in
          let b : m ≡ x = cc in let c : m' ≡ x' = cc in rw (← a, ← b, ← c) one
      each (suc i) v x x' ev ex ex' = all i v x x' ev ex ex'

  update_slots-Measures :
      (vms : List VmInstance) (ms : List (Metrics Double))
      → length ms ≡ length vms
      → ((i : ℕ) (vm : VmInstance)
          → get_elem? vms i ≡ some vm
          → vm.running ≡ true
          → length vm.perf.delta_counts ≡ event_types)
      → (ms' : List (Metrics Double)) × (update_slots d vms ms ≡ done ms') × Measures vms ms ms'
  unfolding update_slots
  update_slots-Measures [] ms size sized = (ms, refl, (refl, λ i vm m m' e em em'. absurd (cc)))
  update_slots-Measures (vm ∷ vms) [] size sized = absurd (omega (arith, size))
  update_slots-Measures (vm ∷ vms) (m ∷ ms) size sized =
      let (m', run, one) = update_one vm m (sized 0 vm refl) in
      let (ms', rest, all) =
        update_slots-Measures vms ms (omega (arith, size)) (λ i v e on. sized (suc i) v e on) in
      (m' ∷ ms', rw (run, rest) refl, Measures-cons vm vms m m' ms ms' one all)

  -- In a valid manager whose machines are serviced, an update of the metrics goes through. The current
  -- metric of each machine that runs is then neither below 0 nor above the largest latency, its average
  -- starts or goes on with it, and the metrics of the other machines are as they were.
  pub vm_mngr_update_metrics-Measures :
      (s : Manager) (ms : List (Metrics Double))
      → IsValid s
      → IsServiced s
      → length ms ≡ length s.vms
      → (ms' : List (Metrics Double)) × (vm_mngr_update_metrics d s ms ≡ done ms')
        × Measures s.vms ms ms'
  unfolding vm_mngr_update_metrics
  vm_mngr_update_metrics-Measures s ms v h size = elim (Bool-cases (s.count ==ℤ pos 0)) [
    | inr some_vms ↦
        let (ms', run, all) =
          update_slots-Measures s.vms ms size (λ i vm e on. (h.served i vm e on).0.deltas) in
        (ms', rw some_vms run, all)
    | inl nobody ↦
        let still = λ (i : ℕ) (vm : VmInstance) (e : get_elem? s.vms i ≡ some vm).
          v.resting i vm e (empty_table s v nobody i vm e) in
        (
          ms,
          rw nobody refl,
          (refl, λ i vm m m' e em em'. (λ on. absurd (cc (still i vm e)), λ _. cc)),
        )
  ]
