-- ===== src/Program/Tests.antt =====
-- A run of the program: a client that goes away, a machine that is created, and a round of the monitor.
use ramryder.Prelude.{ℕ, ◌≡◌, refl, false, List, [], ◌∷◌, none, some, arith, pos, get_elem?, done}
use ramryder.Scan.{codes, skip_spaces, scan_word, same_bytes}
use ramryder.MemoryPool.Pool.Owner.{owner}
use ramryder.MemoryPool.Config.Tests.{good_file, ready, starts, sizes}
use ramryder.VmManager.{VmInstance, Manager, empty_slot, initial}
use ramryder.VmManager.Lifecycle.{created}
use ramryder.VmManager.Invariant.{IsValid}
use ramryder.VmManager.Accounting.{IsAccounted}
use ramryder.VmManager.Serviced.{IsServiced}
use ramryder.VmManager.Metrics.Tests.{numbers}
use ramryder.VmManager.Tests.{core_0}
use ramryder.GuestMonitor.{default_settings}
use ramryder.GuestMonitor.Tests.{world, monitor_starts, passes_created}
use ramryder.ResourceManager.Shutdown.{handle_signal}
use ramryder.ResourceManager.Tests.{outside, receives_create, serves_create}
use ramryder.ResourceManager.{Server}
use ramryder.Program.{
  Host, ServerEvent, accept_fails, asks, monitors, Program, opens_server, request_slot, reset_slot,
  started_program, run_event, run_events, rpc_server_start, with_monitor, with_pool, main,
}
use ramryder.Program.Whole.{main-IsSound}

abbrev host : Host
host = record {
  log_init = pos 0;
  config_file = some good_file;
  monitor_host = record { pcm_c_init = pos 0; pthread_create = pos 0; has_curl = false };
  socket = pos 3;
  bind = pos 0;
  listen = pos 0;
  epoll_create = pos 4;
  epoll_ctl = pos 0;
}

abbrev events : List (ServerEvent numbers)
events = accept_fails ∷ asks outside (codes "create-vm vid=1 coreset=[0]") ∷ monitors world ∷ []

abbrev after_events : Program numbers
after_events = record (started_program numbers ready) {
  server = record {
    manager = created (initial ready) 0 empty_slot (pos 1) core_0;
    args = some (codes "vid=1 coreset=[0]");
  };
}

accept_passes :
    run_event numbers default_settings accept_fails (started_program numbers ready)
    ≡ done (started_program numbers ready)
unfolding run_event
accept_passes = refl

not_a_start :
    (server : Server) → request_slot numbers server (codes "create-vm vid=1 coreset=[0]") ≡ none
unfolding request_slot skip_spaces scan_word same_bytes
not_a_start server = refl

create_passes :
    run_event numbers default_settings
      (asks outside (codes "create-vm vid=1 coreset=[0]"))
      (started_program numbers ready)
    ≡ done after_events
unfolding run_event started_program reset_slot
create_passes =
    rw (receives_create, serves_create ready, not_a_start (started_program numbers ready).server)
      refl

round_passes : run_event numbers default_settings (monitors world) after_events ≡ done after_events
unfolding run_event started_program
round_passes = rw (passes_created ready (started_program numbers ready).monitor) refl

events_pass :
    run_events numbers default_settings events (started_program numbers ready) ≡ done after_events
unfolding run_events
events_pass = rw (accept_passes, create_passes, round_passes) refl

runs : main numbers host events ≡ done (some after_events)
unfolding main with_pool with_monitor rpc_server_start opens_server
runs = rw (starts, monitor_starts, events_pass) refl

main-IsSound_example :
    IsValid after_events.server.manager
    × IsAccounted after_events.server.manager
    × IsServiced after_events.server.manager
    × ((u : Manager) × (handle_signal outside.kernel after_events.server.manager ≡ done u)
        × (u.count ≡ pos 0)
        × ((j : ℕ) (w : VmInstance)
            → get_elem? u.vms j ≡ some w
            → (w.initialized ≡ false) × (w.running ≡ false))
        × ((j k : ℕ) → owner u.pool j k ≡ none))
main-IsSound_example =
    main-IsSound numbers host events ready after_events outside.kernel starts (omega arith)
      (sizes, tt) runs (record { reads = λ fd. (0, refl); closes = λ fd. refl })
