-- ===== src/PerfCounter/Teardown.antt =====
-- Taking the counters down, when a machine is stopped.
use ramryder.Prelude.{
  ℕ, zero, suc, ◌+◌, ◌%◌, ◌^◌, ◌≤◌, ◌<◌, ◌≡◌, refl, List, [], Option, some, arith, ℤ, length,
  get_elem?, get_elem?-total, set, length-set, get_elem?-set, done,
}
use ramryder.PerfCounter.{
  PerfKernel, IsReliable, Perf, event_types, sum_counts, update_events, perf_update, drain_row,
  teardown_events, perf_teardown,
}
use ramryder.PerfCounter.Setup.{IsWritten, IsReady}
use ramryder.PerfCounter.Counts.{counted, counted-IsReady, sum_counts-total}

-- The arrays of the event types before `j` are freed, and the others are those of `fds`.
pub record IsFreed (j : ℕ) (fds freed : List (List (Option ℤ))) : Type 0 where
  pub size : length freed ≡ event_types
  pub gone : (i : ℕ) → i < j → get_elem? freed i ≡ some []
  pub kept : (i : ℕ) → j ≤ i → get_elem? freed i ≡ get_elem? fds i

IsFreed-step :
    (j : ℕ) (fds freed : List (List (Option ℤ)))
    → j < event_types
    → IsFreed j fds freed
    → IsFreed (j + 1) fds (set freed j [])
IsFreed-step j fds freed lt f = record {
  size = omega (arith, length-set {0} freed j [], f.size);
  gone = λ i l. ground (arith, f.gone i, f.size, get_elem?-set {0} freed j i []);
  kept = λ i l. ground (arith, f.kept i, f.size, get_elem?-set {0} freed j i []);
}

module _ (kernel : PerfKernel) (reliable : IsReliable kernel) where
  -- Closing the descriptors does not change what is read from them.
  drain_row-sums :
      (row : List (Option ℤ)) (num k left total : ℕ)
      → k + left ≡ num
      → IsWritten row num
      → drain_row kernel row k left total ≡ sum_counts kernel row k left total
  unfolding sum_counts drain_row
  drain_row-sums row num k zero total e w = refl
  drain_row-sums row num k (suc left) total e w =
      let (fd, ef) = w k (omega arith) in
      let (count, ec) = reliable.reads fd in
      let rest = drain_row-sums row num (k + 1) left ((total + count) % 2 ^ 64) (omega arith) w in
      ground (arith, ef, ec, reliable.closes fd, rest)

  -- How a teardown of the event types from `j` on compares with an update of them.
  abbrev Drains : ℕ → ℕ → ℕ → Perf → List (List (Option ℤ)) → Type 0
  Drains num j left perf fds =
      (perf' : Perf) × (freed : List (List (Option ℤ))) × (update_events kernel num j left perf
        ≡ done perf')
      × (teardown_events kernel num j left (record perf { event_fds = fds })
          ≡ done (record perf' { event_fds = freed }))
      × IsFreed event_types perf.event_fds freed

  teardown_events-Drains :
      (num j left : ℕ) (perf : Perf) (fds : List (List (Option ℤ)))
      → j + left ≡ event_types
      → IsReady num perf
      → IsFreed j perf.event_fds fds
      → Drains num j left perf fds
  unfolding update_events teardown_events
  teardown_events-Drains num j zero perf fds e r f =
      let all : j ≡ event_types = omega (arith, e) in (perf, fds, refl, refl, rw all at f)
  teardown_events-Drains num j (suc left) perf fds e r f =
      let (row, er) = get_elem?-total perf.event_fds j (omega (arith, r.filled.types)) in
      let w = r.filled.behind j row (omega arith) er in
      let (total, et) = sum_counts-total kernel row num 0 num 0 reliable.reads (omega arith) w in
      let same = drain_row-sums row num 0 num 0 (omega arith) w in
      let (old, eo) = get_elem?-total perf.cum_counts j (omega (arith, r.cums)) in
      let mid : Perf = counted perf j total old in
      let (perf', freed, ran, torn, f') =
        teardown_events-Drains num (j + 1) left mid (set fds j []) (omega arith)
          (counted-IsReady num j total old perf r)
          (IsFreed-step j perf.event_fds fds (omega arith) f) in
      (
        perf',
        freed,
        ground (arith, er, et, eo, ran, r.cums, r.deltas),
        ground (arith, er, et, same, eo, torn, r.cums, r.deltas, f.kept j, f.size),
        f',
      )

  -- For the counters that a setup of `num` cores left, with descriptors that can be read and closed, a
  -- teardown runs to its end. It leaves the counts and the deltas that an update would have left, and all arrays of
  -- descriptors are freed.
  pub perf_teardown-Drains :
      (num : ℕ) (perf : Perf)
      → IsReady num perf
      → (perf' : Perf) × (freed : List (List (Option ℤ))) × (perf_update kernel num perf
          ≡ done perf')
        × (perf_teardown kernel num perf ≡ done (record perf' { event_fds = freed }))
        × (length freed ≡ event_types)
        × ((j : ℕ) → j < event_types → get_elem? freed j ≡ some [])
  unfolding perf_update perf_teardown
  perf_teardown-Drains num perf r =
      let (perf', freed, ran, torn, f) =
        teardown_events-Drains num 0 event_types perf perf.event_fds refl r (record {
          size = r.filled.types;
          gone = λ i l. absurd (omega arith);
          kept = λ i l. refl;
        }) in
      (perf', freed, ran, torn, f.size, f.gone)
