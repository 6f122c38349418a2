-- ===== src/PerfCounter/Setup.antt =====
-- Setting the counters up: one descriptor for each event type on each core, written within bounds.
use ramryder.Prelude.{
  set-cases, ℕ, zero, suc, ◌+◌, ◌≤◌, ◌<◌, ◌≡◌, ◌≢◌, ◌⊎◌, refl, List, [], ◌∷◌, Option, none, some,
  arith, ℤ, pos, ltb_ℤ, true, ◌==◌, Bool-cases, inl, inr, length, get_elem?, get_elem?-total,
  get_elem?-lt, set, length-set, get_elem?-set, replicate, length-replicate, Exec, done, abort,
  bug_on,
}
use ramryder.Scan.{Bytes}
use ramryder.CoreSet.{core_list, each_core, for_each_core}
use ramryder.PerfCounter.{PerfKernel, Perf, event_types, setup_events, setup_core, perf_setup}

-- The first `k` entries of an array of descriptors are written.
abbrev pub IsWritten : List (Option ℤ) → ℕ → Type 0
IsWritten row k = (m : ℕ) → m < k → (fd : ℤ) × (get_elem? row m ≡ some (some fd))

-- Every array has `num` entries; those of the first `j` event types are written below `k + 1`, and
-- the others below `k`.
pub record IsFilled (fds : List (List (Option ℤ))) (num j k : ℕ) : Type 0 where
  pub types : length fds ≡ event_types
  pub sizes : (i : ℕ) (row : List (Option ℤ)) → get_elem? fds i ≡ some row → length row ≡ num
  pub before :
      (i : ℕ) (row : List (Option ℤ)) → i < j → get_elem? fds i ≡ some row → IsWritten row (suc k)
  pub behind :
      (i : ℕ) (row : List (Option ℤ)) → j ≤ i → get_elem? fds i ≡ some row → IsWritten row k

write-IsWritten :
    (row : List (Option ℤ)) (k : ℕ) (fd : ℤ)
    → k < length row
    → IsWritten row k
    → IsWritten (set row k (some fd)) (suc k)
write-IsWritten row k fd h w m lt = elim (Bool-cases (k == m)) [
  | inl same ↦ (fd, ground (arith, get_elem?-set row k m (some fd) h))
  | inr other ↦
      let (x, e) = w m (ground arith) in (x, ground (arith, e, get_elem?-set row k m (some fd) h))
]

step-IsFilled :
    (fds : List (List (Option ℤ))) (num j k : ℕ) (row : List (Option ℤ)) (fd : ℤ)
    → IsFilled fds num j k
    → get_elem? fds j ≡ some row
    → k < num
    → IsFilled (set fds j (set row k (some fd))) num (j + 1) k
step-IsFilled fds num j k row fd f e lt =
    let new = set row k (some fd) in
    let size = f.sizes j row e in
    let at_j = get_elem?-lt fds j e in
    let written = write-IsWritten row k fd (omega arith) (f.behind j row (omega arith) e) in
    record {
      types = omega (arith, length-set {0} fds j new, f.types);
      sizes = λ i r er. elim (set-cases fds j i at_j er) [
        | inl (ji, nr) ↦ rw (← nr) (omega (arith, length-set {0} row k (some fd)))
        | inr (ji, eo) ↦ f.sizes i r eo
      ];
      before = λ i r lt' er. elim (set-cases fds j i at_j er) [
        | inl (ji, nr) ↦ rw (← nr) written
        | inr (ji, eo) ↦ f.before i r (omega arith) eo
      ];
      behind = λ i r le er. elim (set-cases fds j i at_j er) [
        | inl (ji, nr) ↦ absurd (omega arith)
        | inr (ji, eo) ↦ f.behind i r (omega arith) eo
      ];
    }

module _ (kernel : PerfKernel) where
  open kernel use {event_open}

  -- What setting up event types from `j` on for one core comes to: the kernel refuses one, which
  -- stops the process, or all arrays have one more entry.
  abbrev SetsUp : ℤ → ℕ → Perf → Exec Perf → Type 0
  SetsUp core num perf run =
      ((run ≡ abort bug_on) × ((j : ℕ) × (ltb_ℤ (event_open core j) (pos 0) ≡ true)))
      ⊎ ((fds : List (List (Option ℤ))) × (run ≡ done (record perf { event_fds = fds }))
          × IsFilled fds num event_types perf.core_index)

  setup_events-SetsUp :
      (core : ℤ) (num j left : ℕ) (perf : Perf)
      → j + left ≡ event_types
      → perf.core_index < num
      → IsFilled perf.event_fds num j perf.core_index
      → SetsUp core num perf (setup_events kernel core j left perf)
  unfolding setup_events
  setup_events-SetsUp core num j zero perf e lt f =
      let all : j ≡ event_types = omega arith in inr (perf.event_fds, refl, rw all at f)
  setup_events-SetsUp core num j (suc left) perf e lt f =
      let (row, er) = get_elem?-total perf.event_fds j (omega (arith, f.types)) in
      let size = f.sizes j row er in
      elim (Bool-cases (ltb_ℤ (event_open core j) (pos 0))) [
        | inl refused ↦ inl (ground arith, (j, refused))
        | inr opened ↦
            let fds = set perf.event_fds j (set row perf.core_index (some (event_open core j))) in
            elim (setup_events-SetsUp core num (j + 1) left (record perf { event_fds = fds })
              (omega arith) lt
              (step-IsFilled perf.event_fds num j perf.core_index row (event_open core j) f er
                lt)) [
                  | inl (stopped, why) ↦ inl (ground (arith, f.types), why)
                  | inr (fds', er', f') ↦ inr (fds', ground (arith, f.types), f')
                ]
      ]

  fresh-IsWritten :
      (num n i : ℕ) (row : List (Option ℤ))
      → get_elem? (replicate n (replicate {A = Option ℤ} num none)) i ≡ some row
      → length row ≡ num
  fresh-IsWritten num zero i row e = absurd (cc)
  fresh-IsWritten num (suc n) zero row e =
      let same : replicate num none ≡ row = cc in rw (← same) (length-replicate num none)
  fresh-IsWritten num (suc n) (suc i) row e = fresh-IsWritten num n i row e

  next_core :
      (fds : List (List (Option ℤ))) (num k : ℕ)
      → IsFilled fds num event_types k
      → IsFilled fds num 0 (k + 1)
  next_core fds num k f = record {
    types = f.types;
    sizes = f.sizes;
    before = λ i row lt e. absurd (omega arith);
    behind = λ i row le e m lt.
        f.before i row (omega (arith, get_elem?-lt fds i e, f.types)) e m (omega arith);
  }

  -- A core of the list has a negative number, or the kernel refuses to open an event on it.
  abbrev pub IsRefused : List ℤ → Type 0
  IsRefused cores =
      (i : ℕ) × (core : ℤ) × (get_elem? cores i ≡ some core)
      × ((ltb_ℤ core (pos 0) ≡ true) ⊎ ((j : ℕ) × (ltb_ℤ (event_open core j) (pos 0) ≡ true)))

  -- What setting up a list of cores comes to.
  abbrev SetsUpCores : List ℤ → ℕ → ℕ → Perf → Exec Perf → Type 0
  SetsUpCores cores num last perf run =
      ((run ≡ abort bug_on) × IsRefused cores)
      ⊎ ((fds : List (List (Option ℤ))) × (run
            ≡ done (record perf { core_index = last; event_fds = fds }))
          × IsFilled fds num 0 last)

  setup_cores-SetsUp :
      (cores : List ℤ) (num last : ℕ) (perf : Perf)
      → perf.core_index + length cores ≡ last
      → last ≤ num
      → IsFilled perf.event_fds num 0 perf.core_index
      → SetsUpCores cores num last perf (each_core (setup_core kernel) perf cores)
  unfolding each_core setup_core
  setup_cores-SetsUp [] num last perf e le f =
      let same : perf.core_index ≡ last = omega arith in
      inr (perf.event_fds, ground arith, rw same at f)
  setup_cores-SetsUp (c ∷ cores) num last perf e le f = elim (Bool-cases (ltb_ℤ c (pos 0))) [
    | inl negative ↦ inl (ground arith, (0, c, refl, inl negative))
    | inr core ↦ elim (setup_events-SetsUp c num 0 event_types perf refl (omega arith) f) [
      | inl (refused, why) ↦ inl (ground arith, (0, c, refl, inr why))
      | inr (fds, er, f') ↦
          elim (setup_cores-SetsUp cores num last
            (record perf { core_index = perf.core_index + 1; event_fds = fds }) (omega arith) le
            (next_core fds num perf.core_index f')) [
              | inl (stopped, (i, core, at_i, why)) ↦
                  inl (ground (arith, er), (suc i, core, at_i, why))
              | inr (fds', er', f'') ↦ inr (fds', ground (arith, er), f'')
            ]
    ]
  ]

-- The counters of a machine with `num` cores that runs: each event type has a descriptor for each
-- core, and a count.
pub record IsReady (num : ℕ) (perf : Perf) : Type 0 where
  pub filled : IsFilled perf.event_fds num 0 num
  pub cums : length perf.cum_counts ≡ event_types
  pub deltas : length perf.delta_counts ≡ event_types

fresh-IsFilled :
    (kernel : PerfKernel) (num : ℕ) → IsFilled (replicate event_types (replicate num none)) num 0 0
fresh-IsFilled kernel num = record {
  types = refl;
  sizes = λ i row e. fresh-IsWritten kernel num event_types i row e;
  before = λ i row lt e. absurd (omega arith);
  behind = λ i row le e m lt. absurd (omega arith);
}

-- Setting the counters up for a machine whose number of cores was counted from the same core set,
-- which is not empty, never writes out of bounds. It stops at a bug check, and then no core was counted,
-- a core has a negative number or the kernel refuses an event on a core; or every descriptor of every
-- event type and core is there and the counts are zero.
pub perf_setup-IsReady :
    (kernel : PerfKernel) (core_set : Bytes) (num : ℕ)
    → core_set ≢ []
    → num ≡ length (core_list core_set)
    → ((perf_setup kernel core_set num ≡ abort bug_on)
        × ((num ≡ 0) ⊎ IsRefused kernel (core_list core_set)))
      ⊎ ((perf : Perf) × (perf_setup kernel core_set num ≡ done perf)
          × IsReady num perf
          × (perf.cum_counts ≡ replicate event_types 0))
unfolding perf_setup for_each_core
perf_setup-IsReady kernel [] num h e = absurd (h refl)
perf_setup-IsReady kernel (c ∷ s) num h e = elim (Bool-cases (num == 0)) [
  | inl no_cores ↦ inl (ground arith, inl (ground arith))
  | inr some_cores ↦
      elim (setup_cores-SetsUp kernel (core_list (c ∷ s)) num num start (omega arith) (omega arith)
        (fresh-IsFilled kernel num)) [
          | inl (stopped, why) ↦ inl (ground arith, inr why)
          | inr (fds, er, f) ↦ inr (
            record start { core_index = num; event_fds = fds },
            ground (arith, er),
            record { filled = f; cums = refl; deltas = refl },
            refl,
          )
        ]
]
  where
    start : Perf
    start = record {
      core_index = 0;
      event_fds = replicate event_types (replicate num none);
      cum_counts = replicate event_types 0;
      delta_counts = replicate event_types 0;
    }
