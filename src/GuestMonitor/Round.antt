-- ===== src/GuestMonitor/Round.antt =====
-- src/guest_monitor.c, one round of `__monitor_loop` (with ENABLE_PERF): the memory of each running
-- machine, its bandwidth, its perf counters, its metrics and its latency. The arithmetic of `double`
-- and what "%f" prints of a number are parameters.
use ramryder.Prelude.{
  ℕ, ◌+◌, ◌&&◌, List, [], ◌∷◌, ◌++◌, map, Option, none, some, ℤ, pos, ◌==ℤ◌, if◌then◌else◌, take,
  read, set, Exec, done, ◌>>=◌,
}
use ramryder.Scan.{Bytes, codes}
use ramryder.Decimal.{show_nat, show_int}
use ramryder.GuestAgent.{Agents}
use ramryder.GuestAgent.Meminfo.{c_string, guest_agent_get_meminfo}
use ramryder.PerfCounter.{PerfKernel}
use ramryder.QemuAgent.{JsonC, Net, Event}
use ramryder.VmManager.{VmInstance, Manager, vm_mngr_update_perf_counters}
use ramryder.VmManager.Metrics.{Doubles, Metrics, vm_mngr_update_metrics}
use ramryder.GuestMonitor.{
  Settings, CoreMetrics, Bandwidth, get_vm_mem_bw, bandwidth_line, latency_line,
}

-- What a round asks of the world: the time, PCM, the perf events, json-c, the sockets of the guest
-- agents, what `malloc` finds for their answers, and the arithmetic of `double` with its "%f".
pub record World (d : Doubles) : Type 1 where
  pub now : ℕ
  pub metrics : CoreMetrics
  pub perf_kernel : PerfKernel
  pub Value : Type 0
  pub json : JsonC Value
  pub net : Net
  pub heap : Bytes
  pub show_double : d.Double → Bytes

-- The bandwidth fields and the metrics of the machines, slot by slot, the lines that were handed to libcurl, and the
-- history of the sockets.
pub record Monitor (D : Type 0) : Type 0 where
  pub bandwidths : List Bandwidth
  pub vm_metrics : List (Metrics D)
  pub uploads : List Bytes
  pub history : List Event

-- `vm_mngr_for_each_vm_running` for a handler that leaves the table alone.
unfoldable pub each_running {ℓ} :
    {S : Type ℓ} → (ℕ → VmInstance → S → Exec S) → ℕ → List VmInstance → S → Exec S
each_running handler i [] st = done st
each_running handler i (vm ∷ vms) st =
    (if vm.initialized && vm.running then handler i vm st else done st) >>= λ st'.
    each_running handler (i + 1) vms st'

unfoldable pub for_each_running {ℓ} :
    {S : Type ℓ} → (ℕ → VmInstance → S → Exec S) → Manager → S → Exec S
for_each_running handler s st =
    if s.count ==ℤ pos 0 then done st else each_running handler 0 s.vms st

module _ {Value : Type 0} (json : JsonC Value) where
  -- A field of an object as an `int`.
  pub int_field : Value → Bytes → ℤ
  int_field v key = json.get_int (json.object_get v key)

  pub capacity_line : ℕ → ℤ → Value → Bytes
  capacity_line now vm_id meminfo = take 255 (
      codes "guest_memory,vm_id="
      ++ show_int vm_id
      ++ codes ",node="
      ++ show_int (int_field meminfo (codes "index"))
      ++ codes " memory_free="
      ++ show_int (int_field meminfo (codes "mem-free"))
      ++ codes ",memory_total="
      ++ show_int (int_field meminfo (codes "mem-total"))
      ++ codes ",memory_available="
      ++ show_int (int_field meminfo (codes "mem-available"))
      ++ codes " "
      ++ show_nat now)

  -- `upload_vm_cp_to_cloud_db`: the lines for an answer of a guest agent.
  pub capacity_lines : ℕ → ℤ → Bytes → List Bytes
  capacity_lines now vm_id json_str = elim (json.tokener_parse json_str) [
    | none ↦ []
    | some parsed ↦ elim (json.object_get_ex parsed (codes "return")) [
      | none ↦ []
      | some return_obj ↦ elim (json.object_get_ex return_obj (codes "meminfo-list")) [
        | none ↦ []
        | some meminfo_list ↦ map (capacity_line now vm_id) (json.array_elements meminfo_list)
      ]
    ]
  ]

pub upload_capacity :
    {d : Doubles}
    → World d
    → Settings
    → ℤ
    → Monitor d.Double
    → Option Bytes
    → Exec (Monitor d.Double)
upload_capacity w c vm_id st none = done st
upload_capacity w c vm_id st (some response) =
    if c.enable_cloud_db
    then (c_string response >>= λ text.
        done (record st { uploads = st.uploads ++ capacity_lines w.json w.now vm_id text }))
    else done st

-- `__get_vm_mem_cp`
pub get_vm_mem_cp :
    {d : Doubles}
    → World d
    → Settings
    → Agents
    → ℕ
    → VmInstance
    → Monitor d.Double
    → Exec (Monitor d.Double)
get_vm_mem_cp w c agents i vm st =
    guest_agent_get_meminfo w.json w.net w.heap agents vm.vm_id st.history >>= λ r.
    upload_capacity w c vm.vm_id (record st { history = r.1 }) r.0

pub upload_bandwidth : ℕ → ℤ → Bandwidth → List Bytes
upload_bandwidth now vm_id b = elim (bandwidth_line now vm_id b) [
  | none ↦ []
  | some line ↦ line ∷ []
]

-- `__get_vm_mem_bw`
pub store_vm_mem_bw :
    {d : Doubles} → World d → Settings → ℕ → VmInstance → Monitor d.Double → Exec (Monitor d.Double)
store_vm_mem_bw w c i vm st =
    get_vm_mem_bw w.metrics c.monitor_interval_in_second vm.core_set >>= λ b. done (record st {
      bandwidths = set st.bandwidths i b;
      uploads =
          if c.enable_cloud_db then st.uploads ++ upload_bandwidth w.now vm.vm_id b else st.uploads;
    })

-- `__get_vm_mem_latency`
pub get_vm_mem_latency :
    {d : Doubles} → World d → Settings → ℕ → VmInstance → Monitor d.Double → Exec (Monitor d.Double)
get_vm_mem_latency w c i vm st = read st.bandwidths i >>= λ b. read st.vm_metrics i >>= λ m. done (
    if c.enable_cloud_db
    then record st {
      uploads = st.uploads ++ latency_line w.now vm.vm_id b (w.show_double m.cur_metric) ∷ [];
    }
    else st)

-- The body of the loop.
unfoldable pub monitor_round :
    {d : Doubles}
    → World d
    → Settings
    → Manager
    → Monitor d.Double
    → Exec (Manager × Monitor d.Double)
monitor_round {d} w c s st = do
  st' ← for_each_running (get_vm_mem_cp w c s.agents) s st
  st'' ← for_each_running (store_vm_mem_bw w c) s st'
  s' ← vm_mngr_update_perf_counters w.perf_kernel s
  vm_metrics ← vm_mngr_update_metrics d s' st''.vm_metrics
  st''' ← for_each_running (get_vm_mem_latency w c) s' (record st'' { vm_metrics = vm_metrics })
  done (s', st''')
