-- ===== src/PerfCounter/Tests.antt =====
-- Counters of a machine with one core, and the theorems about them.
use ramryder.Prelude.{
  ℕ, zero, suc, ◌<◌, ◌≡◌, ◌⊎◌, refl, List, [], ◌∷◌, Option, some, arith, ℤ, pos, done, abort,
  bug_on, length, replicate, get_elem?,
}
use ramryder.CoreSet.{core_list}
use ramryder.PerfCounter.{PerfKernel, Perf, event_types, perf_setup, perf_update, perf_teardown}
use ramryder.PerfCounter.Setup.{IsWritten, IsReady, IsRefused, perf_setup-IsReady}
use ramryder.PerfCounter.Teardown.{perf_teardown-Drains}
use ramryder.PerfCounter.Counts.{IsCounted, perf_update-Counts}

abbrev kernel : PerfKernel
kernel = record {
  event_open = λ core event. pos 9;
  event_read = λ fd. done 1000;
  close = λ fd. pos 0;
}

abbrev opened : Perf
opened = record {
  core_index = 1;
  event_fds = replicate event_types (some (pos 9) ∷ []);
  cum_counts = replicate event_types 40;
  delta_counts = replicate event_types 0;
}

row_of :
    (n i : ℕ) (row : List (Option ℤ))
    → get_elem? (replicate n (some (pos 9) ∷ [])) i ≡ some row
    → row ≡ some (pos 9) ∷ []
row_of zero i row e = absurd (cc)
row_of (suc n) zero row e = cc
row_of (suc n) (suc i) row e = row_of n i row e

opened-IsReady : IsReady 1 opened
opened-IsReady = record {
  filled = record {
    types = refl;
    sizes = λ i row e. rw (row_of event_types i row e) refl;
    before = λ i row lt e. absurd (omega arith);
    behind = λ i row le e. rw (row_of event_types i row e) (one_written);
  };
  cums = refl;
  deltas = refl;
}
  where
    one_written : IsWritten (some (pos 9) ∷ []) 1
    one_written zero lt = (pos 9, refl)
    one_written (suc m) lt = absurd (omega arith)

perf_setup-IsReady_example :
    ((perf_setup kernel (48 ∷ []) (length (core_list (48 ∷ []))) ≡ abort bug_on)
      × ((length (core_list (48 ∷ [])) ≡ 0) ⊎ IsRefused kernel (core_list (48 ∷ []))))
    ⊎ ((perf : Perf) × (perf_setup kernel (48 ∷ []) (length (core_list (48 ∷ []))) ≡ done perf)
        × IsReady (length (core_list (48 ∷ []))) perf
        × (perf.cum_counts ≡ replicate event_types 0))
perf_setup-IsReady_example =
    perf_setup-IsReady kernel (48 ∷ []) (length (core_list (48 ∷ []))) (λ e. cc) refl

perf_update-Counts_example :
    (perf' : Perf) × (perf_update kernel 1 opened ≡ done perf')
    × IsReady 1 perf'
    × IsCounted 0 opened perf'
perf_update-Counts_example = perf_update-Counts kernel 1 opened (λ fd. (1000, refl)) opened-IsReady

perf_teardown-Drains_example :
    (perf' : Perf) × (freed : List (List (Option ℤ))) × (perf_update kernel 1 opened ≡ done perf')
    × (perf_teardown kernel 1 opened ≡ done (record perf' { event_fds = freed }))
    × (length freed ≡ event_types)
    × ((j : ℕ) → j < event_types → get_elem? freed j ≡ some [])
perf_teardown-Drains_example =
    perf_teardown-Drains kernel (record { reads = λ fd. (1000, refl); closes = λ fd. refl }) 1
      opened opened-IsReady
