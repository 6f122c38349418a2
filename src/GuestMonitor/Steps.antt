-- ===== src/GuestMonitor/Steps.antt =====
-- What a round of the monitor does to the manager.
use ramryder.Prelude.{◌≡◌, done, >>=-eq-done}
use ramryder.MemoryPool.Pool.{Pool}
use ramryder.VmManager.{Manager, initial, vm_mngr_update_perf_counters}
use ramryder.VmManager.Reachable.{Reach, next, recounts}
use ramryder.VmManager.Metrics.{Doubles, vm_mngr_update_metrics}
use ramryder.GuestMonitor.{Settings}
use ramryder.GuestMonitor.Round.{
  World, Monitor, for_each_running, get_vm_mem_cp, store_vm_mem_bw, get_vm_mem_latency,
  monitor_round,
}

-- In a state that requests and rounds of the monitor have reached from the start of the program on:
-- however the world answers, a round that ends leaves a state of which this holds too.
pub monitor_round-Reach :
    {d : Doubles} (w : World d) (c : Settings) (p : Pool) (s s' : Manager)
    (st st' : Monitor d.Double)
    → Reach (initial p) s
    → monitor_round w c s st ≡ done (s', st')
    → Reach (initial p) s'
unfolding monitor_round
monitor_round-Reach {d} w c p s s' st st' reach e =
    let (st1, _, e1) = >>=-eq-done (for_each_running (get_vm_mem_cp w c s.agents) s st) _ e in
    let (st2, _, e2) = >>=-eq-done (for_each_running (store_vm_mem_bw w c) s st1) _ e1 in
    let (t, counted, e3) = >>=-eq-done (vm_mngr_update_perf_counters w.perf_kernel s) _ e2 in
    let (ms, _, e4) = >>=-eq-done (vm_mngr_update_metrics d t st2.vm_metrics) _ e3 in
    let (st3, _, out) =
      >>=-eq-done (for_each_running (get_vm_mem_latency w c) t (record st2 { vm_metrics = ms })) _
        e4 in
    let same : t ≡ s' = cc in rw (← same) (next reach (recounts w.perf_kernel counted))
