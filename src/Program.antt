-- ===== src/Program.antt =====
-- src/resource_manager.c, `main` and the frame of `rpc_server_start`: the parts of the program put
-- together. The requests of clients and the rounds of the monitor come as a list of events, each of which
-- runs as a whole. The monitor is started, as without `ARCH_AMD`.
pub mod Whole
pub mod Tests
use ramryder.Prelude.{
  ℕ, Bool, true, false, not, List, [], ◌∷◌, Option, none, some, ℤ, pos, minus_one, ltb_ℤ, ◌==ℤ◌,
  if◌then◌else◌, replicate, Exec, done, abort, ◌>>=◌, get_elem?, set,
}
use ramryder.Scan.{Bytes, codes, skip_spaces, scan_word, scan_line, scan_1, same_bytes}
use ramryder.GuestAgent.{max_num_vm}
use ramryder.MemoryPool.Pool.{Pool}
use ramryder.MemoryPool.Config.{memory_pool_init}
use ramryder.VmManager.{Manager, VmInstance, initial, vm_mngr_get_instance}
use ramryder.VmManager.Metrics.{Doubles, reset_metrics}
use ramryder.GuestMonitor.{Settings}
use ramryder.GuestMonitor.Round.{World, Monitor, monitor_round}
use ramryder.GuestMonitor.Server.{MonitorHost, CloudDb, guest_monitor_server_start}
use ramryder.RpcHandler.{Outside}
use ramryder.ResourceManager.{Server, new_args, receive, serve_request}

-- What the start of the program asks of its surroundings: the result of `rm_log_init`, the
-- configuration file, the libraries of the monitor, and the calls that set up the socket of the server.
pub record Host : Type 0 where
  pub log_init : ℤ
  pub config_file : Option Bytes
  pub monitor_host : MonitorHost
  pub socket : ℤ
  pub bind : ℤ
  pub listen : ℤ
  pub epoll_create : ℤ
  pub epoll_ctl : ℤ

-- The set-up in `rpc_server_start`; false stands for an exit.
pub opens_server : Host → Bool
opens_server host =
    if ltb_ℤ host.socket (pos 0)
    then false
    else if ltb_ℤ host.bind (pos 0)
    then false
    else if ltb_ℤ host.listen (pos 0)
    then false
    else if host.epoll_create ==ℤ minus_one
    then false
    else not (host.epoll_ctl ==ℤ minus_one)

module _ (d : Doubles) where
  -- A client whose `accept` fails, a request, or a round of the monitor.
  pub data ServerEvent : Type 1 where
    accept_fails : ServerEvent
    asks : Outside → Bytes → ServerEvent
    monitors : World d → ServerEvent

  pub record Program : Type 0 where
    pub server : Server
    pub monitor : Monitor d.Double

  -- The globals when the server begins to wait for requests.
  pub started_program : Pool → Program
  started_program p = record {
    server = record { manager = initial p; args = none };
    monitor = record {
      bandwidths =
          replicate max_num_vm (record { mem_bw_local = 0; mem_bw_remote = 0; mem_bw = 0 });
      vm_metrics = replicate max_num_vm (reset_metrics d);
      uploads = [];
      history = [];
    };
  }

  -- The slot of the machine whose counters are set up when `start-vm` is called with an id.
  pub setup_slot : Manager → ℤ → Option ℕ
  setup_slot s vid = elim (vm_mngr_get_instance vid s.vms) [
    | none ↦ none
    | some i ↦ elim (get_elem? s.vms i) [
      | none ↦ none
      | some vm ↦ if vm.running then none else some i
    ]
  ]

  -- The same for a request, which may not be a `start-vm`.
  pub request_slot : Server → Bytes → Option ℕ
  request_slot server buffer =
      let word = scan_word 63 (skip_spaces buffer) in
      if same_bytes word.0 (codes "start-vm")
      then elim (new_args server.args (scan_line (skip_spaces word.1))) [
        | none ↦ none
        | some args ↦ elim (scan_1 (codes "vid=") args) [
          | none ↦ none
          | some vid ↦ if ltb_ℤ vid (pos 0) then none else setup_slot server.manager vid
        ]
      ]
      else none

  -- `vm_perf_counter_setup` resets the metrics too.
  pub reset_slot : Option ℕ → Monitor d.Double → Monitor d.Double
  reset_slot none st = st
  reset_slot (some i) st = record st { vm_metrics = set st.vm_metrics i (reset_metrics d) }

  pub run_event : Settings → ServerEvent → Program → Exec Program
  run_event c accept_fails prog = done prog
  run_event c (asks outside arrived) prog = receive arrived >>= λ buffer.
      serve_request outside prog.server buffer >>= λ r.
      done (record {
        server = r.1;
        monitor = reset_slot (request_slot prog.server buffer) prog.monitor;
      })
  run_event c (monitors w) prog = monitor_round w c prog.server.manager prog.monitor >>= λ r.
      done (record { server = record { manager = r.0; args = prog.server.args }; monitor = r.1 })

  pub run_events : Settings → List ServerEvent → Program → Exec Program
  run_events c [] prog = done prog
  run_events c (event ∷ events) prog = run_event c event prog >>= λ prog'. run_events c events prog'

  -- `rpc_server_start`; `none` stands for an exit.
  pub rpc_server_start : Host → Settings → List ServerEvent → Program → Exec (Option Program)
  rpc_server_start host c events prog =
      if opens_server host
      then (run_events c events prog >>= λ prog'. done (some prog'))
      else done none

  pub with_monitor :
      Host → Pool → List ServerEvent → Option (Settings × Option CloudDb) → Exec (Option Program)
  with_monitor host p events none = done none
  with_monitor host p events (some (c, db)) = rpc_server_start host c events (started_program p)

  pub with_pool : Host → List ServerEvent → Option Pool → Exec (Option Program)
  with_pool host events none = done none
  with_pool host events (some p) =
      guest_monitor_server_start host.monitor_host host.config_file >>= with_monitor host p events

  -- `main`, up to some number of events.
  pub main : Host → List ServerEvent → Exec (Option Program)
  main host events =
      if not (host.log_init ==ℤ pos 0)
      then done none
      else memory_pool_init host.config_file >>= with_pool host events
