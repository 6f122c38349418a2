-- ===== src/GuestMonitor/Tests.antt =====
-- Two cores, and a configuration file of the monitor.
use ramryder.Prelude.{pos, ◌+ℤ◌, ◌≡◌, refl, true, false, some, none, [], ◌∷◌, done}
use ramryder.Scan.{Bytes, codes, until_nul, same_bytes}
use ramryder.Config.{read_lines, is_skipped, scan_words, all_shorter, atoi}
use ramryder.CoreSet.{core_list}
use ramryder.QemuAgent.Tests.{json, short_net}
use ramryder.VmManager.{initial, empty_slot, vm_mngr_update_perf_counters, update_running}
use ramryder.VmManager.Metrics.{vm_mngr_update_metrics, update_slots}
use ramryder.VmManager.Metrics.Tests.{numbers, all_reset}
use ramryder.VmManager.Tests.{with_memory, core_0}
use ramryder.GuestMonitor.Round.{World, Monitor, each_running, for_each_running, monitor_round}
use ramryder.MemoryPool.Pool.{Pool}
use ramryder.MemoryPool.Config.Tests.{good_file}
use ramryder.VmManager.Lifecycle.{created}
use ramryder.GuestMonitor.Server.{guest_monitor_server_start, guest_monitor_server_start-runs}
use ramryder.GuestMonitor.{
  Settings, CoreMetrics, get_vm_mem_bw, default_settings, to_uint32, is_true, set_entry, set_words,
  set_line, set_lines, guest_monitor_load_config,
}
use ramryder.GuestMonitor.Average.{average_of, get_vm_mem_bw_lem}

abbrev two_cores : CoreMetrics
two_cores = record { core_local_bw = 10 ∷ 30 ∷ []; core_remote_bw = 1 ∷ 2 ∷ [] }

get_vm_mem_bw_lem_example :
    get_vm_mem_bw two_cores 2 (codes "0-1") ≡ average_of two_cores 2 (core_list (codes "0-1"))
get_vm_mem_bw_lem_example = get_vm_mem_bw_lem two_cores 2 (codes "0-1") (λ e. cc) refl

averages :
    average_of two_cores 2 (core_list (codes "0-1"))
    ≡ done (record { mem_bw_local = 20; mem_bw_remote = 1; mem_bw = 21 })
unfolding core_list
averages = refl

abbrev file : Bytes
file =
    codes
      "monitor_interval_second 0\n[clouddb]\nenable_clouddb true\ninfluxdb_url <url>\nuse_proxy\n"

abbrev loaded : Settings
loaded = record {
  monitor_interval_in_second = 0;
  enable_cloud_db = true;
  influxdb_url = some (codes "<url>");
  influxdb_token = none;
  use_proxy = false;
  proxy_addr = none;
}

loads : guest_monitor_load_config (some file) ≡ done (some loaded)
unfolding guest_monitor_load_config set_lines set_line set_words set_entry is_true to_uint32
    default_settings until_nul same_bytes read_lines is_skipped scan_words all_shorter atoi
loads = refl

-- A round over a machine that does not run.
abbrev pub world : World numbers
world = record {
  now = 0;
  metrics = two_cores;
  perf_kernel = record {
    event_open = λ core event. pos 9;
    event_read = λ fd. done 0;
    close = λ fd. pos 0;
  };
  Value = Bytes;
  json = json;
  net = short_net;
  heap = [];
  show_double = λ x. [];
}

abbrev quiet : Monitor numbers.Double
quiet = record { bandwidths = []; vm_metrics = all_reset; uploads = []; history = [] }

passes : monitor_round world loaded with_memory quiet ≡ done (with_memory, quiet)
unfolding monitor_round for_each_running each_running vm_mngr_update_perf_counters update_running
    vm_mngr_update_metrics update_slots ◌+ℤ◌
passes = refl

-- The monitor with the configuration of the memory pool, which sets nothing for it.
monitor_loads : guest_monitor_load_config (some good_file) ≡ done (some default_settings)
unfolding guest_monitor_load_config set_lines set_line set_words set_entry is_true until_nul
    same_bytes read_lines is_skipped scan_words all_shorter atoi
monitor_loads = refl

pub monitor_starts :
    guest_monitor_server_start
      (record { pcm_c_init = pos 0; pthread_create = pos 0; has_curl = false })
      (some good_file)
    ≡ done (some (default_settings, none))
unfolding default_settings
monitor_starts = guest_monitor_server_start-runs _ _ _ monitor_loads refl refl refl

pub passes_created :
    (p : Pool) (st : Monitor numbers.Double)
    → monitor_round world default_settings
        (created (initial p) 0 empty_slot (pos 1) core_0)
        (record st { vm_metrics = all_reset })
      ≡ done (created (initial p) 0 empty_slot (pos 1) core_0, record st { vm_metrics = all_reset })
unfolding monitor_round for_each_running each_running vm_mngr_update_perf_counters update_running
    vm_mngr_update_metrics update_slots ◌+ℤ◌
passes_created p st = refl
