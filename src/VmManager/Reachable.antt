-- ===== src/VmManager/Reachable.antt =====
-- All sequences of requests: what holds whenever the manager waits for the next one.
use ramryder.Prelude.{
  ℕ, ◌≡◌, ◌≢◌, ◌⊎◌, Option, none, ℤ, pos, minus_one, Option-cases, inl, inr, sym, ◌∙◌, done,
  same_state,
}
use ramryder.Scan.{Bytes}
use ramryder.MemoryPool.Pool.{Pool}
use ramryder.MemoryPool.Pool.Invariant
use ramryder.VmManager.{
  VmInstance, MemoryDev, Manager, Kernel, VmMemReq, initial, vm_mngr_get_instance,
  vm_mngr_instance_create, vm_mngr_instance_destroy, vm_mngr_instance_start, vm_mngr_instance_stop,
  vm_mngr_instance_alloc_mem, vm_mngr_instance_free_mem, find_memdev, vm_mngr_update_perf_counters,
}
use ramryder.VmManager.Table.{IsRegistered, get_instance-some, get_instance-none}
use ramryder.VmManager.Invariant.{IsValid, initial-IsValid}
use ramryder.VmManager.Memory.{
  vm_mngr_instance_alloc_mem-AllocatesMem, vm_mngr_instance_free_mem_lem,
  vm_mngr_instance_free_mem_fails, detached,
}
use ramryder.MemoryPool.Pool.Requests.{IsGivenBack}
use ramryder.PerfCounter.{PerfKernel}
use ramryder.VmManager.Counters.{update_perf-Recounts, recounted-IsValid}
use ramryder.VmManager.Endings.{create-IsValid, destroy-IsValid}
use ramryder.VmManager.Running.{
  vm_mngr_instance_start-Starts, vm_mngr_instance_stop-Stops, Starts-IsValid, Stops-IsValid,
}

-- One request that was served, or an update of the counters by the monitor. The kernel may answer each
-- of them differently. The server passes on only sizes above 0.
pub data Step (s s' : Manager) : Type 0 where
  creates :
      (vm_id : ℤ) (core_set : Bytes) (ret : ℤ)
      → vm_mngr_instance_create s vm_id core_set ≡ done (ret, s')
      → Step s s'
  destroys : (vm_id ret : ℤ) → vm_mngr_instance_destroy s vm_id ≡ done (ret, s') → Step s s'
  starts :
      (kernel : Kernel) (vm_id ret : ℤ)
      → vm_mngr_instance_start kernel s vm_id ≡ done (ret, s')
      → Step s s'
  stops :
      (kernel : Kernel) (vm_id ret : ℤ)
      → vm_mngr_instance_stop kernel s vm_id ≡ done (ret, s')
      → Step s s'
  allocates :
      (node vm_id size : ℤ) (r : Option VmMemReq)
      → size ≢ pos 0
      → vm_mngr_instance_alloc_mem s node vm_id size ≡ done (r, s')
      → Step s s'
  frees : (vm_id idx ret : ℤ) → vm_mngr_instance_free_mem s vm_id idx ≡ done (ret, s') → Step s s'
  recounts : (kernel : PerfKernel) → vm_mngr_update_perf_counters kernel s ≡ done s' → Step s s'

pub data Reach (s : Manager) : Manager → Type 0 where
  here : Reach s s
  next : {t u : Manager} → Reach s t → Step t u → Reach s u

-- Only one machine is registered under an id.
only :
    (s : Manager) (vm_id idx : ℤ) (i j : ℕ) (vm w : VmInstance)
    → IsValid s
    → IsRegistered s.vms vm_id i vm
    → IsRegistered s.vms vm_id j w
    → find_memdev idx vm.attached_devs ≡ none
    → find_memdev idx w.attached_devs ≡ none
only s vm_id idx i j vm w v r q e =
    let same : i ≡ j = v.distinct i j vm w r.0 q.0 r.2 q.2 (r.1 ∙ sym q.1) in
    let one : vm ≡ w = cc (r.0, q.0) in rw (← one) e

-- How a release ends, in a valid manager.
abbrev pub FreeCases : Manager → ℤ → ℤ → Manager → Type 0
FreeCases s vm_id idx s' =
    (s' ≡ s)
    ⊎ ((i : ℕ) × (vm : VmInstance) × (m : MemoryDev) × (p : Pool) × IsRegistered s.vms vm_id i vm
        × IsGivenBack s.pool m.memory_req p
        × (s' ≡ detached s i vm idx p))

free-both :
    (s s' : Manager) (vm_id idx ret : ℤ)
    → IsValid s
    → vm_mngr_instance_free_mem s vm_id idx ≡ done (ret, s')
    → FreeCases s vm_id idx s' × IsValid s'
free-both s s' vm_id idx ret v e = elim (Option-cases (vm_mngr_get_instance vm_id s.vms)) [
  | inl gone ↦
      let f =
        vm_mngr_instance_free_mem_fails s vm_id idx
          (λ i vm r. absurd (get_instance-none vm_id s.vms i vm gone r)) in
      let same = same_state _ ret minus_one s' s e f in (inl same, rw same v)
  | inr (i, at_i) ↦
      let (vm, r) = get_instance-some vm_id s.vms i at_i in
      elim (Option-cases (find_memdev idx vm.attached_devs)) [
        | inl missing ↦
            let f =
              vm_mngr_instance_free_mem_fails s vm_id idx
                (λ j w q. only s vm_id idx i j vm w v r q missing) in
            let same = same_state _ ret minus_one s' s e f in (inl same, rw same v)
        | inr (m, em) ↦
            let (p, f, g, w) = vm_mngr_instance_free_mem_lem s vm_id idx i vm m v at_i r.0 em in
            let same = same_state _ ret (pos 0) s' _ e f in
            (inr (i, vm, m, p, r, g, same), rw same w)
      ]
]

pub free-cases :
    (s s' : Manager) (vm_id idx ret : ℤ)
    → IsValid s
    → vm_mngr_instance_free_mem s vm_id idx ≡ done (ret, s')
    → FreeCases s vm_id idx s'
free-cases s s' vm_id idx ret v e = (free-both s s' vm_id idx ret v e).0

free-IsValid :
    (s s' : Manager) (vm_id idx ret : ℤ)
    → IsValid s
    → vm_mngr_instance_free_mem s vm_id idx ≡ done (ret, s')
    → IsValid s'
free-IsValid s s' vm_id idx ret v e = (free-both s s' vm_id idx ret v e).1

Step-IsValid : (s s' : Manager) → IsValid s → Step s s' → IsValid s'
Step-IsValid s s' v (creates vm_id core_set ret e) = create-IsValid s s' vm_id core_set ret v e
Step-IsValid s s' v (destroys vm_id ret e) = destroy-IsValid s s' vm_id ret v e
Step-IsValid s s' v (starts kernel vm_id ret e) =
    Starts-IsValid s s' vm_id ret v (vm_mngr_instance_start-Starts kernel s s' vm_id ret e)
Step-IsValid s s' v (stops kernel vm_id ret e) =
    Stops-IsValid s s' vm_id ret v (vm_mngr_instance_stop-Stops kernel s s' vm_id ret e)
Step-IsValid s s' v (allocates node vm_id size r h e) =
    let (r', t, f, _, w) = vm_mngr_instance_alloc_mem-AllocatesMem s node vm_id size v h in
    rw (same_state _ r r' s' t e f) w
Step-IsValid s s' v (frees vm_id idx ret e) = free-IsValid s s' vm_id idx ret v e
Step-IsValid s s' v (recounts kernel e) =
    let (vms, same, r) = update_perf-Recounts kernel s s' e in rw same (recounted-IsValid s vms v r)

pub Reach-IsValid : {s t : Manager} → IsValid s → Reach s t → IsValid t
Reach-IsValid v here = v
Reach-IsValid v (next {t} {u} r st) = Step-IsValid t u (Reach-IsValid v r) st

-- Whatever requests are served and whatever updates of the counters end from the start of the program
-- on, with a valid pool, in whatever order, the manager is valid between any two of them: the slots are counted, the ids of registered
-- machines differ, and each attached memory device has segments of its own that its machine owns.
pub Reach-initial-IsValid :
    (p : Pool) (s : Manager) → Invariant.IsValid p → Reach (initial p) s → IsValid s
Reach-initial-IsValid p s v r = Reach-IsValid (initial-IsValid p v) r
