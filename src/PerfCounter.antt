-- ===== src/PerfCounter.antt =====
-- src/vm_manager.c, `vm_perf_counter_setup`, `vm_perf_counter_teardown` and the body of
-- `vm_mngr_update_perf_counters` for one machine. The metrics are in VmManager/Metrics.antt. Opening and
-- reading an event are the kernel's here; PerfEvent.antt has them by system calls.
pub mod Setup
pub mod Counts
pub mod Teardown
pub mod Tests
use ramryder.Prelude.{
  ℕ, zero, suc, ◌+◌, ◌-◌, ◌%◌, ◌^◌, Bool, true, false, not, List, [], ◌∷◌, Option, none, some, ℤ,
  pos, ltb_ℤ, ltb, ◌==◌, ◌==ℤ◌, if◌then◌else◌, Exec, done, abort, ◌>>=◌, ◌>>◌, stop_if, bug_on,
  out_of_bounds, read, write, replicate, ◌≡◌,
}
use ramryder.Scan.{Bytes}
use ramryder.CoreSet.{for_each_core}

-- `PERF_EVENT_TYPE_MAX`
abbrev pub event_types : ℕ
event_types = 5

-- The kernel as this code uses it. `event_open core j` is the file descriptor, or a negative number,
-- that `perf_event_setup` returns for event type `j` on a core; `event_read fd` is the run of
-- `perf_event_read`, which ends with a `uint64_t` computed from the counter, or stops the program when
-- `read` does not fill the struct; `close fd` is the result of the call.
pub record PerfKernel : Type 0 where
  pub event_open : ℤ → ℕ → ℤ
  pub event_read : ℤ → Exec ℕ
  pub close : ℤ → ℤ

-- Every descriptor can be read.
abbrev pub Reads : PerfKernel → Type 0
Reads kernel = (fd : ℤ) → (count : ℕ) × (kernel.event_read fd ≡ done count)

-- Every descriptor can be read and closed.
pub record IsReliable (kernel : PerfKernel) : Type 0 where
  pub reads : Reads kernel
  pub closes : (fd : ℤ) → kernel.close fd ≡ pos 0

-- The fields of `struct vm_instance` that belong to the counters. An entry of `event_fds` that was
-- allocated and not yet written is `none`; a freed array has no entries.
pub record Perf : Type 0 where
  pub core_index : ℕ
  pub event_fds : List (List (Option ℤ))
  pub cum_counts : List ℕ
  pub delta_counts : List ℕ

-- A sum that fell behind is replaced by the old one.
abbrev pub keep_max : ℕ → ℕ → ℕ
keep_max new old = if ltb new old then old else new

module _ (kernel : PerfKernel) where
  open kernel use {event_open, event_read, close}

  -- The loop of `__vm_perf_counter_setup_core`, from event type `j` on.
  unfoldable pub setup_events : ℤ → ℕ → ℕ → Perf → Exec Perf
  setup_events core j zero perf = done perf
  setup_events core j (suc left) perf = do
    let fd = event_open core j
    row ← read perf.event_fds j
    row' ← write row perf.core_index (some fd)
    fds ← write perf.event_fds j row'
    stop_if (ltb_ℤ fd (pos 0)) bug_on
    setup_events core (j + 1) left (record perf { event_fds = fds })

  unfoldable pub setup_core : Perf → ℤ → Exec Perf
  setup_core perf core = do
    stop_if (ltb_ℤ core (pos 0)) bug_on
    perf' ← setup_events core 0 event_types perf
    done (record perf' { core_index = perf'.core_index + 1 })

  -- The end of `vm_perf_counter_setup`: the cores, from index 0 on.
  abbrev pub setup_cores : Bytes → Perf → Exec Perf
  setup_cores core_set perf = for_each_core core_set setup_core (record perf { core_index = 0 })

  -- `vm_perf_counter_setup`; the allocations are taken to succeed. The reset of the metrics is in
  -- VmManager/Metrics.antt.
  unfoldable pub perf_setup : Bytes → ℕ → Exec Perf
  perf_setup core_set num_cores = do
    stop_if (num_cores == 0) bug_on
    setup_cores core_set (record {
      core_index = 0;
      event_fds = replicate event_types (replicate num_cores none);
      cum_counts = replicate event_types 0;
      delta_counts = replicate event_types 0;
    })

  -- A descriptor that was never written is not defined.
  defined : Option ℤ → Exec ℤ
  defined none = abort out_of_bounds
  defined (some fd) = done fd

  -- The sum of the counters of one event type over the cores from `k` on, in `uint64_t`.
  pub sum_counts : List (Option ℤ) → ℕ → ℕ → ℕ → Exec ℕ
  unfolding defined
  sum_counts row k zero total = done total
  sum_counts row k (suc left) total = do
    entry ← read row k
    fd ← defined entry
    count ← event_read fd
    sum_counts row (k + 1) left ((total + count) % 2 ^ 64)

  -- The loop of `vm_mngr_update_perf_counters` over the event types, from type `j` on.
  pub update_events : ℕ → ℕ → ℕ → Perf → Exec Perf
  update_events num_cores j zero perf = done perf
  update_events num_cores j (suc left) perf = do
    row ← read perf.event_fds j
    total ← sum_counts row 0 num_cores 0
    old ← read perf.cum_counts j
    let new = keep_max total old
    deltas ← write perf.delta_counts j (new - old)
    cums ← write perf.cum_counts j new
    update_events num_cores (j + 1) left (record perf { cum_counts = cums; delta_counts = deltas })

  pub perf_update : ℕ → Perf → Exec Perf
  perf_update num_cores perf = update_events num_cores 0 event_types perf

  -- The inner loop of `vm_perf_counter_teardown`, from core `k` on: read, add and close.
  pub drain_row : List (Option ℤ) → ℕ → ℕ → ℕ → Exec ℕ
  unfolding defined
  drain_row row k zero total = done total
  drain_row row k (suc left) total = do
    entry ← read row k
    fd ← defined entry
    count ← event_read fd
    stop_if (not (close fd ==ℤ pos 0)) bug_on
    drain_row row (k + 1) left ((total + count) % 2 ^ 64)

  -- Its outer loop, from event type `j` on. The array of descriptors is freed.
  pub teardown_events : ℕ → ℕ → ℕ → Perf → Exec Perf
  teardown_events num_cores j zero perf = done perf
  teardown_events num_cores j (suc left) perf = do
    row ← read perf.event_fds j
    total ← drain_row row 0 num_cores 0
    old ← read perf.cum_counts j
    let new = keep_max total old
    deltas ← write perf.delta_counts j (new - old)
    cums ← write perf.cum_counts j new
    fds ← write perf.event_fds j []
    teardown_events num_cores (j + 1) left
        (record perf { event_fds = fds; cum_counts = cums; delta_counts = deltas })

  pub perf_teardown : ℕ → Perf → Exec Perf
  perf_teardown num_cores perf = teardown_events num_cores 0 event_types perf
