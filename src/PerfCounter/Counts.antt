-- ===== src/PerfCounter/Counts.antt =====
-- Reading the counters of a machine that runs.
use ramryder.Prelude.{
  ℕ, zero, suc, ◌+◌, ◌-◌, ◌%◌, ◌^◌, ◌≤◌, ◌<◌, ◌≡◌, refl, List, Option, some, arith, ℤ, ◌==◌,
  Bool-cases, inl, inr, length, get_elem?, get_elem?-total, get_elem?-lt, set, length-set,
  get_elem?-set, done, read, >>=-eq-done,
}
use ramryder.PerfCounter.{
  PerfKernel, Reads, Perf, event_types, sum_counts, keep_max, update_events, perf_update,
}
use ramryder.PerfCounter.Setup.{IsWritten, IsReady}

-- From event type `j` on the counts have moved on by what `delta_counts` says, and never back; the
-- descriptors and the counts before `j` are as they were.
pub record IsCounted (j : ℕ) (perf perf' : Perf) : Type 0 where
  pub same_fds : perf'.event_fds ≡ perf.event_fds
  pub same_before : (i : ℕ) → i < j → get_elem? perf'.cum_counts i ≡ get_elem? perf.cum_counts i
  pub moved :
      (i old new delta : ℕ)
      → j ≤ i
      → get_elem? perf.cum_counts i ≡ some old
      → get_elem? perf'.cum_counts i ≡ some new
      → get_elem? perf'.delta_counts i ≡ some delta
      → old + delta ≡ new
  pub same_deltas : (i : ℕ) → i < j → get_elem? perf'.delta_counts i ≡ get_elem? perf.delta_counts i

-- One event type more.
IsCounted-step :
    (j old new : ℕ) (perf perf' : Perf)
    → get_elem? perf.cum_counts j ≡ some old
    → old ≤ new
    → j < length perf.delta_counts
    → IsCounted
        (j + 1)
        (record perf {
          cum_counts = set perf.cum_counts j new;
          delta_counts = set perf.delta_counts j (new - old);
        })
        perf'
    → IsCounted j perf perf'
IsCounted-step j old new perf perf' eo le lt c = record {
  same_fds = c.same_fds;
  same_before = λ i l. ground (
    arith,
    c.same_before i,
    get_elem?-set {0} perf.cum_counts j i new (get_elem?-lt perf.cum_counts j eo),
  );
  moved = λ i o n d l ho hn hd. elim (Bool-cases (j == i)) [
    | inl here_now ↦ ground (
      arith,
      c.same_before i,
      c.same_deltas i,
      get_elem?-set {0} perf.cum_counts j i new (get_elem?-lt perf.cum_counts j eo),
      get_elem?-set {0} perf.delta_counts j i (new - old) lt,
      eo,
    )
    | inr later ↦
        c.moved i o n d (ground arith)
          (ground (
            arith,
            get_elem?-set {0} perf.cum_counts j i new (get_elem?-lt perf.cum_counts j eo),
            ho,
          ))
          hn hd
  ];
  same_deltas = λ i l.
      ground (arith, c.same_deltas i, get_elem?-set {0} perf.delta_counts j i (new - old) lt);
}

-- One event type counted.
abbrev pub counted : Perf → ℕ → ℕ → ℕ → Perf
counted perf j total old = record perf {
  cum_counts = set perf.cum_counts j (keep_max total old);
  delta_counts = set perf.delta_counts j (keep_max total old - old);
}

pub counted-IsReady :
    (num j total old : ℕ) (perf : Perf) → IsReady num perf → IsReady num (counted perf j total old)
counted-IsReady num j total old perf r = record {
  filled = r.filled;
  cums = omega (arith, length-set {0} perf.cum_counts j (keep_max total old), r.cums);
  deltas = omega (arith, length-set {0} perf.delta_counts j (keep_max total old - old), r.deltas);
}

module _ (kernel : PerfKernel) where
  -- The sum ends, if the descriptors can be read.
  pub sum_counts-total :
      (row : List (Option ℤ)) (num k left total : ℕ)
      → Reads kernel
      → k + left ≡ num
      → IsWritten row num
      → (t : ℕ) × (sum_counts kernel row k left total ≡ done t)
  unfolding sum_counts
  sum_counts-total row num k zero total reads e w = (total, refl)
  sum_counts-total row num k (suc left) total reads e w =
      let (fd, ef) = w k (omega arith) in
      let (count, ec) = reads fd in
      let (t, et) =
        sum_counts-total row num (k + 1) left ((total + count) % 2 ^ 64) reads (omega arith) w in
      (t, ground (arith, ef, ec, et))

  update_events-ends :
      (num j left : ℕ) (perf : Perf)
      → Reads kernel
      → j + left ≡ event_types
      → IsReady num perf
      → (perf' : Perf) × (update_events kernel num j left perf ≡ done perf')
  unfolding update_events
  update_events-ends num j zero perf reads e r = (perf, refl)
  update_events-ends num j (suc left) perf reads e r =
      let (row, er) = get_elem?-total perf.event_fds j (omega (arith, r.filled.types)) in
      let written = r.filled.behind j row (omega arith) er in
      let (total, et) = sum_counts-total row num 0 num 0 reads (omega arith) written in
      let (old, eo) = get_elem?-total perf.cum_counts j (omega (arith, r.cums)) in
      let (perf', ep) =
        update_events-ends num (j + 1) left (counted perf j total old) reads (omega arith)
          (counted-IsReady num j total old perf r) in
      (perf', ground (arith, er, et, eo, ep, r.cums, r.deltas))

  update_events-IsCounted :
      (num j left : ℕ) (perf perf' : Perf)
      → j + left ≡ event_types
      → IsReady num perf
      → update_events kernel num j left perf ≡ done perf'
      → IsReady num perf' × IsCounted j perf perf'
  unfolding update_events
  update_events-IsCounted num j zero perf perf' e r ran =
      let same : perf ≡ perf' = cc in
      rw (← same) (
        r,
        record {
          same_fds = refl;
          same_before = λ i lt. refl;
          moved = λ i old new delta le eo en ed.
              absurd (omega (arith, get_elem?-lt perf.cum_counts i eo, r.cums));
          same_deltas = λ i lt. refl;
        },
      )
  update_events-IsCounted num j (suc left) perf perf' e r ran =
      let (row, _, ran1) = >>=-eq-done (read perf.event_fds j) _ ran in
      let (total, _, ran2) = >>=-eq-done (sum_counts kernel row 0 num 0) _ ran1 in
      let (old, eo) = get_elem?-total perf.cum_counts j (omega (arith, r.cums)) in
      let new = keep_max total old in
      let mid = counted perf j total old in
      let rest : update_events kernel num (j + 1) left mid ≡ done perf' =
        ground (arith, eo, ran2, r.cums, r.deltas) in
      let (r', c) =
        update_events-IsCounted num (j + 1) left mid perf' (omega arith)
          (counted-IsReady num j total old perf r) rest in
      (r', IsCounted-step j old new perf perf' eo (ground arith) (omega (arith, r.deltas)) c)

  -- What an update that ended has done.
  pub perf_update-IsCounted :
      (num : ℕ) (perf perf' : Perf)
      → IsReady num perf
      → perf_update kernel num perf ≡ done perf'
      → IsReady num perf' × IsCounted 0 perf perf'
  unfolding perf_update
  perf_update-IsCounted num perf perf' r ran =
      update_events-IsCounted num 0 event_types perf perf' refl r ran

  -- An update of the counters that a setup of `num` cores left, with descriptors that can be read, runs
  -- to its end: it leaves them ready for the next one, on the same descriptors, and moves each count on
  -- by the delta it stores.
  pub perf_update-Counts :
      (num : ℕ) (perf : Perf)
      → Reads kernel
      → IsReady num perf
      → (perf' : Perf) × (perf_update kernel num perf ≡ done perf')
        × IsReady num perf'
        × IsCounted 0 perf perf'
  unfolding perf_update
  perf_update-Counts num perf reads r =
      let (perf', ran) = update_events-ends num 0 event_types perf reads refl r in
      let (r', c) = perf_update-IsCounted num perf perf' r ran in (perf', ran, r', c)
