-- ===== src/Program/Whole.antt =====
-- What holds of the whole program, from its configuration file to its shutdown.
use ramryder.Prelude.{
  ℕ, ◌≡◌, ◌<◌, false, List, [], ◌∷◌, Option, none, some, pos, not, ◌==ℤ◌, Bool-cases, inl, inr,
  get_elem?, done, >>=-eq-done,
}
use ramryder.MemoryPool.Pool.{Pool}
use ramryder.MemoryPool.Pool.Owner.{owner}
use ramryder.MemoryPool.Pool.Invariant
use ramryder.MemoryPool.Pool.Invariant.{AllFit}
use ramryder.MemoryPool.Config.{memory_pool_init}
use ramryder.MemoryPool.Config.Startup.{memory_pool_init-IsValid}
use ramryder.PerfCounter.{IsReliable}
use ramryder.VmManager.{VmInstance, Manager, Kernel, initial}
use ramryder.VmManager.Invariant.{IsValid}
use ramryder.VmManager.Reachable.{Reach, here, Reach-initial-IsValid}
use ramryder.VmManager.Accounting.{IsAccounted}
use ramryder.VmManager.Accounting.Requests.{Reach-initial-IsAccounted}
use ramryder.VmManager.Serviced.{IsServiced}
use ramryder.VmManager.Serviced.Requests.{Reach-initial-IsServiced}
use ramryder.VmManager.Metrics.{Doubles}
use ramryder.GuestMonitor.{Settings}
use ramryder.GuestMonitor.Round.{monitor_round}
use ramryder.GuestMonitor.Steps.{monitor_round-Reach}
use ramryder.GuestMonitor.Server.{CloudDb, guest_monitor_server_start}
use ramryder.ResourceManager.{receive, serve_request}
use ramryder.ResourceManager.Serving.{serve_request-Reach}
use ramryder.ResourceManager.Shutdown.{handle_signal}
use ramryder.ResourceManager.Shutdown.Ending.{handle_signal-ends}
use ramryder.Program.{
  Host, ServerEvent, accept_fails, asks, monitors, Program, started_program, run_event, run_events,
  opens_server, reset_slot, request_slot, rpc_server_start, with_monitor, with_pool, main,
}

module _ (d : Doubles) (p : Pool) (v : Invariant.IsValid p) where
  run_event-Reach :
      (c : Settings) (event : ServerEvent d) (prog prog' : Program d)
      → Reach (initial p) prog.server.manager
      → run_event d c event prog ≡ done prog'
      → Reach (initial p) prog'.server.manager
  unfolding run_event
  run_event-Reach c accept_fails prog prog' reach e =
      let same : prog ≡ prog' = cc in rw (← same) reach
  run_event-Reach c (asks outside arrived) prog prog' reach e =
      let (buffer, _, e1) = >>=-eq-done (receive arrived) _ e in
      let (r, ran, out) = >>=-eq-done (serve_request outside prog.server buffer) _ e1 in
      let after : Program d = record {
        server = r.1;
        monitor = reset_slot d (request_slot d prog.server buffer) prog.monitor;
      } in
      let same : after ≡ prog' = cc in
      rw (← same) (serve_request-Reach (initial p) outside prog.server r.1 buffer r.0 reach ran)
  run_event-Reach c (monitors w) prog prog' reach e =
      let (r, ran, out) = >>=-eq-done (monitor_round w c prog.server.manager prog.monitor) _ e in
      let after : Program d = record {
        server = record { manager = r.0; args = prog.server.args };
        monitor = r.1;
      } in
      let same : after ≡ prog' = cc in
      rw (← same) (monitor_round-Reach w c p prog.server.manager r.0 prog.monitor r.1 reach ran)

  run_events-Reach :
      (c : Settings) (events : List (ServerEvent d)) (prog prog' : Program d)
      → Reach (initial p) prog.server.manager
      → run_events d c events prog ≡ done prog'
      → Reach (initial p) prog'.server.manager
  unfolding run_events
  run_events-Reach c [] prog prog' reach e = let same : prog ≡ prog' = cc in rw (← same) reach
  run_events-Reach c (event ∷ events) prog prog' reach e =
      let (mid, ran, rest) = >>=-eq-done (run_event d c event prog) _ e in
      run_events-Reach c events mid prog' (run_event-Reach c event prog mid reach ran) rest

  with_monitor-Reach :
      (host : Host) (events : List (ServerEvent d)) (started : Option (Settings × Option CloudDb))
      (prog : Program d)
      → with_monitor d host p events started ≡ done (some prog)
      → Reach (initial p) prog.server.manager
  unfolding with_monitor rpc_server_start started_program
  with_monitor-Reach host events none prog e = absurd (cc)
  with_monitor-Reach host events (some (c, db)) prog e = elim (Bool-cases (opens_server host)) [
    | inr closed ↦ absurd (let stopped = rw closed at e in cc)
    | inl open_now ↦
        let (last, ran, out) =
          >>=-eq-done (run_events d c events (started_program d p)) _ (rw open_now at e) in
        let same : last ≡ prog = cc in
        rw (← same) (run_events-Reach c events (started_program d p) last here ran)
  ]

-- The state of the manager, with the pool that the configuration file makes.
main-Reach :
    (d : Doubles) (host : Host) (events : List (ServerEvent d)) (p : Pool) (prog : Program d)
    → Invariant.IsValid p
    → memory_pool_init host.config_file ≡ done (some p)
    → main d host events ≡ done (some prog)
    → Reach (initial p) prog.server.manager
unfolding main with_pool
main-Reach d host events p prog v loaded e = elim (Bool-cases (not (host.log_init ==ℤ pos 0))) [
  | inl failed ↦ absurd (let stopped = rw failed at e in cc)
  | inr logs ↦
      let (_, _, e1) =
        >>=-eq-done (guest_monitor_server_start host.monitor_host host.config_file) _
          (rw (logs, loaded) at e) in
      with_monitor-Reach d p v host events _ prog e1
]

-- For every configuration file that makes a pool with a segment size above 0 and with no device of more
-- than 4096 segments, whatever clients ask, whatever rounds of the monitor come between their
-- requests, and whatever the world answers: as long as the program runs, its manager is valid, no memory
-- is lost, and the machines that run are served. With descriptors that can be read and closed, a
-- signal at this point ends the program with no machine that is registered or runs, and with no segment in
-- use.
pub main-IsSound :
    (d : Doubles) (host : Host) (events : List (ServerEvent d)) (p : Pool) (prog : Program d)
    (kernel : Kernel)
    → memory_pool_init host.config_file ≡ done (some p)
    → 0 < p.segment_size_mb
    → AllFit p.segment_size_mb p.mem_devs
    → main d host events ≡ done (some prog)
    → IsReliable kernel.perf_kernel
    → IsValid prog.server.manager
      × IsAccounted prog.server.manager
      × IsServiced prog.server.manager
      × ((u : Manager) × (handle_signal kernel prog.server.manager ≡ done u)
          × (u.count ≡ pos 0)
          × ((j : ℕ) (w : VmInstance)
              → get_elem? u.vms j ≡ some w
              → (w.initialized ≡ false) × (w.running ≡ false))
          × ((j k : ℕ) → owner u.pool j k ≡ none))
main-IsSound d host events p prog kernel loaded positive fit ran reliable =
    let (_, v, unused) = memory_pool_init-IsValid host.config_file p loaded positive fit in
    let reach = main-Reach d host events p prog v loaded ran in
    (
      Reach-initial-IsValid p prog.server.manager v reach,
      Reach-initial-IsAccounted p prog.server.manager v unused reach,
      Reach-initial-IsServiced p prog.server.manager v reach,
      handle_signal-ends kernel reliable p v prog.server.manager unused reach,
    )
