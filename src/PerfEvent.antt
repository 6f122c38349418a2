-- ===== src/PerfEvent.antt =====
-- src/perf_counter.c, the wrapper of the kernel's perf events, and src/vm_manager.c,
-- `__vm_perf_counter_setup_core` with the descriptors of group leaders. The system calls and the
-- arithmetic of `double` are parameters.
pub mod Groups
pub mod Tests
use ramryder.Prelude.{
  ℕ, zero, suc, ◌+◌, Bool, true, false, not, List, [], ◌∷◌, Option, none, some, ℤ, pos, minus_one,
  ltb_ℤ, ◌==ℤ◌, if◌then◌else◌, Exec, done, abort, ◌>>=◌, ◌>>◌, stop_if, bug_on, read, write,
  replicate, ◌==◌,
}
use ramryder.Scan.{Bytes}
use ramryder.CoreSet.{for_each_core}
use ramryder.PerfCounter.{Perf, PerfKernel, event_types}
use ramryder.VmManager.Metrics.{Doubles, Metrics, reset_metrics}

-- The fields of `struct perf_event_attr` that are set, but for its size; the others are 0. The two
-- flags of the read format are the bits that `PERF_READ_FORMAT` joins.
pub record PerfEventAttr : Type 0 where
  pub is_raw : Bool
  pub config : ℕ
  pub config1 : ℕ
  pub disabled : Bool
  pub total_time_enabled : Bool
  pub total_time_running : Bool
  pub pinned : Bool
  pub exclude_user : Bool
  pub exclude_kernel : Bool
  pub exclude_hv : Bool
  pub exclude_idle : Bool
  pub exclude_host : Bool
  pub exclude_guest : Bool

-- `struct perf_read_format`
pub record PerfReadFormat : Type 0 where
  pub value : ℕ
  pub time_enabled : ℕ
  pub time_running : ℕ

pub data PerfIoctl : Type 0 where
  ioc_reset ioc_enable ioc_disable : PerfIoctl

-- The system calls: `perf_event_open` with its process, core, group and flags; `ioctl` and `close`;
-- what `read` puts into the structure, or `none` if it returns another number of bytes than its size;
-- and the conversion of a `double` into `uint64_t`.
pub record Syscalls (d : Doubles) : Type 0 where
  pub sys_perf_event_open : PerfEventAttr → ℤ → ℤ → ℤ → ℕ → ℤ
  pub sys_ioctl : ℤ → PerfIoctl → ℤ
  pub sys_close : ℤ → ℤ
  pub sys_read : ℤ → Option PerfReadFormat
  pub to_uint64 : d.Double → ℕ

abbrev pub perf_event_config_arr : List ℕ
perf_event_config_arr = 192 ∷ 60 ∷ 768 ∷ 4192 ∷ 4272 ∷ []

abbrev pub perf_event_config1_arr : List ℕ
perf_event_config1_arr = 0 ∷ 0 ∷ 0 ∷ 0 ∷ 0 ∷ []

abbrev pub perf_event_is_leader_arr : List Bool
perf_event_is_leader_arr = true ∷ true ∷ true ∷ true ∷ true ∷ []

abbrev pub perf_event_pin_arr : List Bool
perf_event_pin_arr = true ∷ true ∷ true ∷ true ∷ false ∷ []

module _ (d : Doubles) (sys : Syscalls d) where
  open sys use {sys_perf_event_open, sys_ioctl, sys_close, sys_read, to_uint64}

  control : ℤ → PerfIoctl → Exec (Unit {0})
  control event_fd request = stop_if (ltb_ℤ (sys_ioctl event_fd request) (pos 0)) bug_on

  pub perf_event_reset : ℤ → Exec (Unit {0})
  unfolding control
  perf_event_reset event_fd = control event_fd ioc_reset

  pub perf_event_enable : ℤ → Exec (Unit {0})
  unfolding control
  perf_event_enable event_fd = control event_fd ioc_enable

  pub perf_event_disable : ℤ → Exec (Unit {0})
  unfolding control
  perf_event_disable event_fd = control event_fd ioc_disable

  pub perf_event_teardown : ℤ → Exec (Unit {0})
  perf_event_teardown fd = stop_if (not (sys_close fd ==ℤ pos 0)) bug_on

  pub perf_event_setup :
      (core : ℤ) (config config1 : ℕ)
      (pin_event exclude_user exclude_kernel exclude_hv exclude_idle exclude_host
        exclude_guest : Bool)
      (group_fd : ℤ)
      → ℤ
  perf_event_setup core config config1 pin_event exclude_user exclude_kernel exclude_hv exclude_idle
        exclude_host exclude_guest group_fd =
      sys_perf_event_open
        (record {
          is_raw = true;
          config = config;
          config1 = config1;
          disabled = false;
          total_time_enabled = true;
          total_time_running = true;
          pinned = pin_event;
          exclude_user = exclude_user;
          exclude_kernel = exclude_kernel;
          exclude_hv = exclude_hv;
          exclude_idle = exclude_idle;
          exclude_host = exclude_host;
          exclude_guest = exclude_guest;
        })
        minus_one core group_fd 0

  -- The count, scaled up by the time in which the event was not on the hardware.
  pub scaled : PerfReadFormat → ℕ
  scaled data_read = to_uint64 (
      d.divided (d.times (d.of_uint64 data_read.value) (d.of_uint64 data_read.time_enabled))
        (d.of_uint64 data_read.time_running))

  pub perf_event_read : ℤ → Exec ℕ
  perf_event_read event_fd = elim (sys_read event_fd) [
    | none ↦ abort bug_on
    | some data_read ↦ done (scaled data_read)
  ]

  -- The call of `perf_event_setup` for event type `j`, with the entries of the tables.
  pub open_event : ℤ → ℕ → ℤ → Exec ℤ
  open_event core j leader_fd = do
    config ← read perf_event_config_arr j
    config1 ← read perf_event_config1_arr j
    pin ← read perf_event_pin_arr j
    done (perf_event_setup core config config1 pin false false false false false false leader_fd)

  -- The loop of `__vm_perf_counter_setup_core`, from event type `j` on.
  pub open_events : ℤ → ℕ → ℕ → ℤ → Perf → Exec Perf
  open_events core j zero leader_fd perf = done perf
  open_events core j (suc left) leader_fd perf = do
    is_leader ← read perf_event_is_leader_arr j
    let leader = if is_leader then minus_one else leader_fd
    fd ← open_event core j leader
    row ← read perf.event_fds j
    row' ← write row perf.core_index (some fd)
    fds ← write perf.event_fds j row'
    stop_if (ltb_ℤ fd (pos 0)) bug_on
    open_events core (j + 1) left (if leader ==ℤ minus_one then fd else leader)
        (record perf { event_fds = fds })

  pub open_core : Perf → ℤ → Exec Perf
  open_core perf core = do
    stop_if (ltb_ℤ core (pos 0)) bug_on
    perf' ← open_events core 0 event_types minus_one perf
    done (record perf' { core_index = perf'.core_index + 1 })

  -- `vm_perf_counter_setup`; the allocations are taken to succeed.
  pub vm_perf_counter_setup : Bytes → ℕ → Exec (Perf × Metrics d.Double)
  vm_perf_counter_setup core_set num_cores = do
    stop_if (num_cores == 0) bug_on
    perf ← for_each_core core_set open_core (record {
      core_index = 0;
      event_fds = replicate event_types (replicate num_cores none);
      cum_counts = replicate event_types 0;
      delta_counts = replicate event_types 0;
    })
    done (perf, reset_metrics d)
