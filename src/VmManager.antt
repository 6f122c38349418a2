-- ===== src/VmManager.antt =====
-- src/vm_manager.c: the table of virtual machines, their life cycle and their memory devices. The
-- devices that are attached to a machine are the list that the code keeps as a TAILQ. The metrics of a
-- machine are in VmManager/Metrics.antt and its bandwidth in GuestMonitor.antt; allocations by `malloc` are taken to succeed.
pub mod Table
pub mod Backing
pub mod Attach
pub mod Detach
pub mod Invariant
pub mod Memory
pub mod Lifecycle
pub mod Endings
pub mod Running
pub mod Counters
pub mod Reachable
pub mod Isolation
pub mod Serviced
pub mod Metrics
pub mod Accounting
pub mod ForEach
pub mod Dump
pub mod Tests
use ramryder.Prelude.{
  ℕ, zero, suc, ◌+◌, Bool, true, false, not, ◌&&◌, List, [], ◌∷◌, ◌++◌, Option, none, some, ℤ, pos,
  minus_one, ◌+ℤ◌, ◌-ℤ◌, leb_ℤ, ltb_ℤ, ◌==ℤ◌, ◌==◌, if◌then◌else◌, Exec, done, abort, ◌>>=◌, ◌>>◌,
  stop_if, bug_on, read, set, replicate, take, length,
}
use mathlib.Core.Option
use ramryder.Scan.{Bytes}
use ramryder.CoreSet.{for_each_core}
use ramryder.PerfCounter.{Perf, PerfKernel, perf_setup, perf_teardown, perf_update}
use ramryder.GuestAgent.{
  Agents, SocketKernel, max_num_vm, no_agents, guest_agent_init, guest_agent_cleanup,
}
use ramryder.MemoryPool.Pool.{
  Pool, MemoryRequest, copy_path, memory_pool_allocate_segments, memory_pool_release_segments,
  memory_pool_release_vm_memory,
}

-- `struct memory_dev`
pub record MemoryDev : Type 0 where
  pub memdev_idx : ℕ
  pub memory_req : MemoryRequest

-- `struct vm_instance`
pub record VmInstance : Type 0 where
  pub vm_id : ℤ
  pub num_cores : ℕ
  pub core_set : Bytes
  pub initialized : Bool
  pub running : Bool
  pub perf : Perf
  pub memdev_counter : ℕ
  pub attached_devs : List MemoryDev

-- `struct vm_mem_req`
pub record VmMemReq : Type 0 where
  pub memdev_idx : ℕ
  pub dev_path : Bytes
  pub offset_mb : ℕ
  pub size_mb : ℕ
  pub align_mb : ℕ

-- The global state of the resource manager: `g_vm_mngr`, the memory pool and the guest agents.
pub record Manager : Type 0 where
  pub count : ℤ
  pub vms : List VmInstance
  pub pool : Pool
  pub agents : Agents

pub record Kernel : Type 0 where
  pub perf_kernel : PerfKernel
  pub sockets : SocketKernel

abbrev pub no_perf : Perf
no_perf = record { core_index = 0; event_fds = []; cum_counts = []; delta_counts = [] }

-- A slot of the static table before its first use.
abbrev pub empty_slot : VmInstance
empty_slot = record {
  vm_id = pos 0;
  num_cores = 0;
  core_set = [];
  initialized = false;
  running = false;
  perf = no_perf;
  memdev_counter = 0;
  attached_devs = [];
}

-- The manager after the start of the program, with a pool that was set up.
abbrev pub initial : Pool → Manager
initial p = record {
  count = pos 0;
  vms = replicate max_num_vm empty_slot;
  pool = p;
  agents = no_agents;
}

-- The loops over the table return the index of the slot.
pub vm_mngr_get_instance : ℤ → List VmInstance → Option ℕ
vm_mngr_get_instance vm_id [] = none
vm_mngr_get_instance vm_id (vm ∷ vms) =
    if vm.vm_id ==ℤ vm_id && vm.initialized
    then some 0
    else Option.map (λ i. suc i) (vm_mngr_get_instance vm_id vms)

pub find_free_slot : List VmInstance → Option ℕ
find_free_slot [] = none
find_free_slot (vm ∷ vms) =
    if vm.initialized then Option.map (λ i. suc i) (find_free_slot vms) else some 0

pub is_some {ℓ} : {A : Type ℓ} → Option A → Bool
is_some none = false
is_some (some a) = true

pub vm_mngr_check_exit : List VmInstance → ℤ → Bool
unfolding is_some
vm_mngr_check_exit vms vm_id = is_some (vm_mngr_get_instance vm_id vms)

abbrev pub put_vm : Manager → ℕ → VmInstance → Manager
put_vm s i vm = record s { vms = set s.vms i vm }

-- The number of cores is counted by a handler; a core set that is empty stops the process.
pub count_cores : Bytes → Exec ℕ
count_cores core_set = for_each_core core_set (λ n c. done (n + 1)) 0

-- The part of `vm_mngr_instance_create` behind the search for a free slot: `none` means that every
-- slot is in use.
pub fill_slot : Manager → ℤ → Bytes → Option ℕ → Exec (ℤ × Manager)
fill_slot s vm_id core_set none = abort bug_on
fill_slot s vm_id core_set (some i) = do
  vm ← read s.vms i
  let cores = take 255 core_set
  num_cores ← count_cores cores
  done (
    pos 0,
    record (put_vm s i (record vm {
      vm_id = vm_id;
      num_cores = num_cores;
      memdev_counter = 0;
      core_set = cores;
      attached_devs = [];
      initialized = true;
    })) { count = s.count +ℤ pos 1 },
  )

pub vm_mngr_instance_create : Manager → ℤ → Bytes → Exec (ℤ × Manager)
vm_mngr_instance_create s vm_id core_set =
    if leb_ℤ (pos max_num_vm) s.count
    then done (minus_one, s)
    else if vm_mngr_check_exit s.vms vm_id
    then done (minus_one, s)
    else fill_slot s vm_id core_set (find_free_slot s.vms)

-- A call that begins by looking the machine up, and fails with -1 if it is not there.
abbrev pub with_vm : Manager → ℤ → (ℕ → VmInstance → Exec (ℤ × Manager)) → Exec (ℤ × Manager)
with_vm s vm_id body = elim (vm_mngr_get_instance vm_id s.vms) [
  | none ↦ done (minus_one, s)
  | some i ↦ read s.vms i >>= body i
]

-- The part of `vm_mngr_instance_start` behind the guest agent's answer.
pub finish_start : Kernel → Manager → ℕ → VmInstance → ℤ → Exec (ℤ × Manager)
finish_start kernel s i vm ret =
    if ltb_ℤ ret (pos 0)
    then (do
      perf ← perf_teardown kernel.perf_kernel vm.num_cores vm.perf
      done (minus_one, put_vm s i (record vm { perf = perf })))
    else done (pos 0, put_vm s i (record vm { running = true }))

pub start_vm : Kernel → Manager → ℤ → ℕ → VmInstance → Exec (ℤ × Manager)
start_vm kernel s vm_id i vm = do
  stop_if (not vm.initialized) bug_on
  perf ← perf_setup kernel.perf_kernel vm.core_set vm.num_cores
  (ret, agents) ← guest_agent_init kernel.sockets s.agents vm_id
  finish_start kernel (record s { agents = agents }) i (record vm { perf = perf }) ret

pub vm_mngr_instance_start : Kernel → Manager → ℤ → Exec (ℤ × Manager)
vm_mngr_instance_start kernel s vm_id =
    with_vm s vm_id λ i vm. if vm.running then done (pos 0, s) else start_vm kernel s vm_id i vm

pub destroy_vm : Manager → ℕ → VmInstance → Exec (ℤ × Manager)
destroy_vm s i vm = do
  pool ← memory_pool_release_vm_memory s.pool vm.vm_id
  done (
    pos 0,
    record (put_vm s i (record vm { core_set = []; initialized = false })) {
      pool = pool;
      count = s.count -ℤ pos 1;
    },
  )

pub vm_mngr_instance_destroy : Manager → ℤ → Exec (ℤ × Manager)
vm_mngr_instance_destroy s vm_id =
    with_vm s vm_id λ i vm. if vm.running then done (minus_one, s) else destroy_vm s i vm

pub stop_vm : Kernel → Manager → ℕ → VmInstance → Exec (ℤ × Manager)
stop_vm kernel s i vm = do
  agents ← guest_agent_cleanup s.agents vm.vm_id
  perf ← perf_teardown kernel.perf_kernel vm.num_cores vm.perf
  done (pos 0, record (put_vm s i (record vm { running = false; perf = perf })) { agents = agents })

pub vm_mngr_instance_stop : Kernel → Manager → ℤ → Exec (ℤ × Manager)
vm_mngr_instance_stop kernel s vm_id =
    with_vm s vm_id λ i vm. if vm.running then stop_vm kernel s i vm else done (pos 0, s)

-- The answer to QEMU; the paths are copied by `snprintf`.
pub vm_mem_req_of : ℕ → MemoryRequest → VmMemReq
vm_mem_req_of idx req = record {
  memdev_idx = idx;
  dev_path = copy_path req.dev_path;
  offset_mb = req.offset_mb;
  size_mb = req.size_mb;
  align_mb = req.align_mb;
}

-- The part of `vm_mngr_instance_alloc_mem` behind the pool's answer.
pub attach_dev : Manager → ℕ → VmInstance → Option MemoryRequest → Option VmMemReq × Manager
attach_dev s i vm none = (none, s)
attach_dev s i vm (some req) = (
  some (vm_mem_req_of vm.memdev_counter req),
  put_vm s i (record vm {
    memdev_counter = vm.memdev_counter + 1;
    attached_devs =
        vm.attached_devs ++ record { memdev_idx = vm.memdev_counter; memory_req = req } ∷ [];
  }),
)

-- `none` stands for the return code -1.
pub vm_mngr_instance_alloc_mem : Manager → ℤ → ℤ → ℤ → Exec (Option VmMemReq × Manager)
vm_mngr_instance_alloc_mem s node_id vm_id size_mb = elim (vm_mngr_get_instance vm_id s.vms) [
  | none ↦ done (none, s)
  | some i ↦ read s.vms i >>= λ vm.
      memory_pool_allocate_segments s.pool node_id vm_id size_mb >>= λ r.
      done (attach_dev (record s { pool = r.1 }) i vm r.0)
]

-- The loop over the attached devices.
pub find_memdev : ℤ → List MemoryDev → Option MemoryDev
find_memdev memdev_idx [] = none
find_memdev memdev_idx (m ∷ ms) =
    if pos m.memdev_idx ==ℤ memdev_idx then some m else find_memdev memdev_idx ms

-- `TAILQ_REMOVE` of the device that the loop stopped at.
pub remove_memdev : ℤ → List MemoryDev → List MemoryDev
remove_memdev memdev_idx [] = []
remove_memdev memdev_idx (m ∷ ms) =
    if pos m.memdev_idx ==ℤ memdev_idx then ms else m ∷ remove_memdev memdev_idx ms

pub free_dev : Manager → ℕ → VmInstance → ℤ → ℤ → Option MemoryDev → Exec (ℤ × Manager)
free_dev s i vm vm_id memdev_idx none = done (minus_one, s)
free_dev s i vm vm_id memdev_idx (some m) = do
  let req = m.memory_req
  (ret, pool) ←
      memory_pool_release_segments s.pool req.node_id vm_id (pos req.offset_mb) (pos req.size_mb)
  let vm' = record vm { attached_devs = remove_memdev memdev_idx vm.attached_devs }
  done (
      if ltb_ℤ ret (pos 0)
      then (minus_one, record s { pool = pool })
      else (pos 0, put_vm (record s { pool = pool }) i vm'))

pub vm_mngr_instance_free_mem : Manager → ℤ → ℤ → Exec (ℤ × Manager)
vm_mngr_instance_free_mem s vm_id memdev_idx =
    with_vm s vm_id
      λ i vm. free_dev s i vm vm_id memdev_idx (find_memdev memdev_idx vm.attached_devs)

pub vm_mngr_instance_get_mem : Manager → ℤ → ℤ → Exec (Option MemoryRequest)
vm_mngr_instance_get_mem s vm_id memdev_idx = elim (vm_mngr_get_instance vm_id s.vms) [
  | none ↦ done none
  | some i ↦ read s.vms i >>= λ vm.
      done (Option.map (λ m. m.memory_req) (find_memdev memdev_idx vm.attached_devs))
]

-- `vm_mngr_update_perf_counters`: the running machines, one after another.
unfoldable pub update_running : PerfKernel → List VmInstance → Exec (List VmInstance)
update_running kernel [] = done []
update_running kernel (vm ∷ vms) = do
  perf ← if vm.running then perf_update kernel vm.num_cores vm.perf else done vm.perf
  vms' ← update_running kernel vms
  done (record vm { perf = perf } ∷ vms')

unfoldable pub vm_mngr_update_perf_counters : PerfKernel → Manager → Exec Manager
vm_mngr_update_perf_counters kernel s =
    if s.count ==ℤ pos 0
    then done s
    else update_running kernel s.vms >>= λ vms. done (record s { vms = vms })
