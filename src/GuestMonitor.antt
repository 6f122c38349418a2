-- ===== src/GuestMonitor.antt =====
-- src/guest_monitor.c: the configuration of the monitor, the bandwidth of a machine, the lines for the
-- database, and one round of the monitor's loop. The library libcurl sends a line on; the round
-- returns the lines that it is given. What PCM has measured is a parameter, and so are the
-- arithmetic of a metric and its text.
pub mod Average
pub mod Round
pub mod Steps
pub mod Server
pub mod Tests
use ramryder.Prelude.{
  ℕ, zero, suc, ◌+◌, ◌-◌, ◌/◌, ◌%◌, ◌^◌, Bool, true, false, not, ◌&&◌, ◌||◌, List, [], ◌∷◌, ◌++◌,
  Option, none, some, ℤ, pos, negsuc, ltb, ◌==◌, ◌==ℤ◌, if◌then◌else◌, take, read, set, length,
  Exec, done, abort, ◌>>=◌, ◌>>◌, stop_if, out_of_bounds, division_by_zero,
}
use ramryder.Scan.{Bytes, codes, same_bytes, until_nul}
use ramryder.Decimal.{show_nat, show_int}
use ramryder.Config.{read_lines, is_skipped, scan_words, all_shorter, atoi}
use ramryder.CoreSet.{for_each_core}

-- The static settings of the file.
pub record Settings : Type 0 where
  pub monitor_interval_in_second : ℕ
  pub enable_cloud_db : Bool
  pub influxdb_url : Option Bytes
  pub influxdb_token : Option Bytes
  pub use_proxy : Bool
  pub proxy_addr : Option Bytes

pub default_settings : Settings
default_settings = record {
  monitor_interval_in_second = 1;
  enable_cloud_db = false;
  influxdb_url = none;
  influxdb_token = none;
  use_proxy = false;
  proxy_addr = none;
}

-- An `int` that is stored in a `uint32_t`.
pub to_uint32 : ℤ → ℕ
to_uint32 (pos n) = n % 2 ^ 32
to_uint32 (negsuc n) = 2 ^ 32 - 1 - n % 2 ^ 32

pub is_true : Bytes → Bool
is_true value = same_bytes value (codes "true") || same_bytes value (codes "1")

-- A line that has at least two values.
pub set_entry : Settings → Bytes → Bytes → Settings
set_entry c key value1 =
    if same_bytes key (codes "enable_clouddb")
    then record c { enable_cloud_db = is_true value1 }
    else if same_bytes key (codes "influxdb_url")
    then record c { influxdb_url = some value1 }
    else if same_bytes key (codes "influxdb_token")
    then record c { influxdb_token = some value1 }
    else if same_bytes key (codes "use_proxy")
    then record c { use_proxy = is_true value1 }
    else if same_bytes key (codes "proxy_addr")
    then record c { proxy_addr = some value1 }
    else if same_bytes key (codes "monitor_interval_second")
    then record c { monitor_interval_in_second = to_uint32 (atoi value1) }
    else c

pub set_words : Settings → List Bytes → Settings
set_words c [] = c
set_words c (key ∷ []) = c
set_words c (key ∷ value1 ∷ values) = set_entry c key value1

-- The words of a line and the arrays for them.
pub set_line : Settings → Bytes → Exec Settings
set_line c line =
    if is_skipped line
    then done c
    else let words = scan_words 3 line in
      stop_if (not (all_shorter 32 (take 1 words) && all_shorter 256 words)) out_of_bounds
      >> done (set_words c words)

pub set_lines : Settings → List Bytes → Exec Settings
set_lines c [] = done c
set_lines c (line ∷ lines) = set_line c (until_nul line) >>= λ c'. set_lines c' lines

-- The file, or none if it cannot be opened; `none` is the return code -1.
pub guest_monitor_load_config : Option Bytes → Exec (Option Settings)
guest_monitor_load_config none = done none
guest_monitor_load_config (some file) =
    set_lines default_settings (read_lines 511 file) >>= λ c. done (some c)

-- What PCM measures for each core, in MB.
pub record CoreMetrics : Type 0 where
  pub core_local_bw : List ℕ
  pub core_remote_bw : List ℕ

-- The fields of a machine that are about its bandwidth.
pub record Bandwidth : Type 0 where
  pub mem_bw_local : ℕ
  pub mem_bw_remote : ℕ
  pub mem_bw : ℕ

-- `array[core_id]`
pub bw_of_core : List ℕ → ℤ → Exec ℕ
bw_of_core array (pos c) = read array c
bw_of_core array (negsuc c) = abort out_of_bounds

-- `__accumulate_bw_per_core`
pub accumulate_bw_per_core : CoreMetrics → ℕ × ℕ → ℤ → Exec (ℕ × ℕ)
accumulate_bw_per_core m (near, far) core_id = do
  x ← bw_of_core m.core_local_bw core_id
  y ← bw_of_core m.core_remote_bw core_id
  done ((near + x) % 2 ^ 64, (far + y) % 2 ^ 64)

pub average_bw : ℕ → ℕ × ℕ → Exec Bandwidth
average_bw seconds (near, far) = do
  stop_if (seconds == 0) division_by_zero
  done (record {
    mem_bw_local = near / seconds;
    mem_bw_remote = far / seconds;
    mem_bw = (near / seconds + far / seconds) % 2 ^ 64;
  })

-- `__get_vm_mem_bw`, up to the upload.
pub get_vm_mem_bw : CoreMetrics → ℕ → Bytes → Exec Bandwidth
get_vm_mem_bw m seconds core_set =
    for_each_core core_set (accumulate_bw_per_core m) (0, 0) >>= average_bw seconds

pub mb_to_gb : ℕ → ℕ
mb_to_gb mb = mb / 1024

-- `upload_vm_bw_to_cloud_db`, into an array of 256 bytes; none for a result that is filtered out.
pub bandwidth_line : ℕ → ℤ → Bandwidth → Option Bytes
bandwidth_line now vm_id b =
    if ltb 250 (mb_to_gb b.mem_bw)
    then none
    else some (
        take 255 (
          codes "vm_bandwidth,vm_id="
          ++ show_int vm_id
          ++ codes " bandwidth_local="
          ++ show_nat b.mem_bw_local
          ++ codes ",bandwidth_remote="
          ++ show_nat b.mem_bw_remote
          ++ codes " "
          ++ show_nat now))

-- `upload_vm_latency_to_cloud_db`, with what "%f" makes of the metric.
pub latency_line : ℕ → ℤ → Bandwidth → Bytes → Bytes
latency_line now vm_id b metric =
    let gb = mb_to_gb b.mem_bw in
    take 255 (
      codes "vm_latency,vm_id="
      ++ show_int vm_id
      ++ codes " l3_miss_latency="
      ++ (if ltb 250 gb || ltb gb 2 then codes "0.000000" else metric)
      ++ codes " "
      ++ show_nat now)
