-- ===== src/VmManager/Accounting.antt =====
-- No segment is lost: each one that is not free belongs to a machine that is registered.
pub mod Requests
use ramryder.Prelude.{
  ap, ℕ, ◌≡◌, ◌≢◌, refl, true, false, Bool, List, Option, none, some, arith, ℤ, Bool-cases, inl,
  inr, sym, ◌∙◌, get_elem?, set, get_elem?-set, get_elem?-lt, ◌==◌, ◌==ℤ◌, ==ℤ_iff, if◌then◌else◌,
  ◌&&◌, done, same_state,
}
use ramryder.Scan.{Bytes}
use ramryder.GuestAgent.{Agents}
use ramryder.PerfCounter.{Perf}
use ramryder.MemoryPool.Pool.{Pool, MemoryRequest}
use ramryder.MemoryPool.Pool.Owner.{owner}
use ramryder.MemoryPool.Pool.Requests.{IsTaken, IsGivenBack, holds}
use ramryder.MemoryPool.Pool.Reclaim.{IsReclaimed, on_device, is_owner}
use ramryder.MemoryPool.Pool.Invariant
use ramryder.VmManager.{
  VmInstance, Manager, VmMemReq, initial, vm_mngr_instance_create, vm_mngr_instance_destroy,
  vm_mngr_instance_free_mem,
}
use ramryder.VmManager.Table.{IsRegistered}
use ramryder.VmManager.Counters.{AllRecounted, AllRecounted-to, update_perf-Recounts}
use ramryder.VmManager.Invariant.{IsValid, initial-IsValid}
use ramryder.VmManager.Running.{
  switched, Starts, Stops, vm_mngr_instance_start-Starts, vm_mngr_instance_stop-Stops,
}
use ramryder.VmManager.Memory.{
  attached, detached, AllocAnswer, vm_mngr_instance_alloc_mem-AllocatesMem,
}
use ramryder.VmManager.Endings.{create-cases, destroy-cases, create-IsValid, destroy-IsValid}
use ramryder.VmManager.Lifecycle.{created, destroyed}
use ramryder.VmManager.Reachable.{
  Step, Reach, here, next, creates, destroys, starts, stops, allocates, frees, recounts, free-cases,
  Reach-IsValid,
}

-- Some machine is registered under the id.
abbrev pub HasVm : List VmInstance → ℤ → Type 0
HasVm vms id = (i : ℕ) × (vm : VmInstance) × IsRegistered vms id i vm

pub record IsAccounted (s : Manager) : Type 0 where
  pub counts : (j k : ℕ) (v : ℤ) → owner s.pool j k ≡ some v → on_device s.pool.mem_devs j k ≡ true
  pub owned : (j k : ℕ) (v : ℤ) → owner s.pool j k ≡ some v → HasVm s.vms v

slot_kept :
    (vms : List VmInstance) (i j : ℕ) (vm w : VmInstance)
    → i ≢ j
    → get_elem? vms i ≡ some vm
    → get_elem? vms j ≡ some w
    → (new : VmInstance) → get_elem? (set vms i new) j ≡ some w
slot_kept vms i j vm w ne e f new = ground (arith, get_elem?-set vms i j new (get_elem?-lt vms i e))

slot_new :
    (vms : List VmInstance) (i : ℕ) (vm : VmInstance)
    → get_elem? vms i ≡ some vm
    → (new : VmInstance) → get_elem? (set vms i new) i ≡ some new
slot_new vms i vm e new = ground (arith, get_elem?-set vms i i new (get_elem?-lt vms i e))

HasVm-update :
    (vms : List VmInstance) (id v : ℤ) (i : ℕ) (vm new : VmInstance)
    → IsRegistered vms id i vm
    → new.vm_id ≡ vm.vm_id
    → new.initialized ≡ true
    → HasVm vms v
    → HasVm (set vms i new) v
HasVm-update vms id v i vm new r same up (j, w, q) = elim (Bool-cases (i == j)) [
  | inl e ↦
      let ij : i ≡ j = ground (arith, e) in
      let vw : vm ≡ w = cc (r.0, q.0) in (i, new, (slot_new vms i vm r.0 new, cc (q.1), up))
  | inr e ↦ (j, w, (slot_kept vms i j vm w (ground (arith, e)) r.0 q.0 new, q.1, q.2))
]

HasVm-other :
    (vms : List VmInstance) (v : ℤ) (i : ℕ) (vm new : VmInstance)
    → get_elem? vms i ≡ some vm
    → ((j : ℕ) (w : VmInstance) → IsRegistered vms v j w → i ≢ j)
    → HasVm vms v
    → HasVm (set vms i new) v
HasVm-other vms v i vm new e other (j, w, q) =
    (j, w, (slot_kept vms i j vm w (other j w q) e q.0 new, q.1, q.2))

pub switched-IsAccounted :
    (s : Manager) (id : ℤ) (i : ℕ) (vm : VmInstance) (running : Bool) (perf : Perf)
    (agents : Agents)
    → IsAccounted s
    → IsRegistered s.vms id i vm
    → IsAccounted (switched s i vm running perf agents)
switched-IsAccounted s id i vm running perf agents a r = record {
  counts = a.counts;
  owned = λ j k v e. HasVm-update s.vms id v i vm _ r refl r.2 (a.owned j k v e);
}

pub created-IsAccounted :
    (s : Manager) (id : ℤ) (i : ℕ) (vm : VmInstance) (core_set : Bytes)
    → IsAccounted s
    → get_elem? s.vms i ≡ some vm
    → vm.initialized ≡ false
    → IsAccounted (created s i vm id core_set)
created-IsAccounted s id i vm core_set a e down = record {
  counts = a.counts;
  owned = λ j k v o.
      HasVm-other s.vms v i vm _ e (λ j w q ij. absurd (cc (q.0, q.2))) (a.owned j k v o);
}

pub attached-IsAccounted :
    (s : Manager) (id : ℤ) (i : ℕ) (vm : VmInstance) (req : MemoryRequest) (p : Pool)
    → IsAccounted s
    → IsRegistered s.vms id i vm
    → IsTaken s.pool id req p
    → IsAccounted (attached s i vm req p)
attached-IsAccounted s id i vm req p a r t = record {
  counts = λ j k v o. elim (Bool-cases (holds s.pool.segment_size_mb req j k)) [
    | inl hold ↦ t.same_devices j k ∙ t.lies j k hold
    | inr out ↦ t.same_devices j k ∙ a.counts j k v (ground (arith, t.taken j k, out, o))
  ];
  owned = λ j k v o. elim (Bool-cases (holds s.pool.segment_size_mb req j k)) [
    | inl hold ↦
        HasVm-update s.vms id v i vm _ r refl r.2
          (i, vm, (r.0, ground (arith, t.taken j k, hold, o, r.1), r.2))
    | inr out ↦
        HasVm-update s.vms id v i vm _ r refl r.2
          (a.owned j k v (ground (arith, t.taken j k, out, o)))
  ];
}

pub detached-IsAccounted :
    (s : Manager) (id idx : ℤ) (i : ℕ) (vm : VmInstance) (req : MemoryRequest) (p : Pool)
    → IsAccounted s
    → IsRegistered s.vms id i vm
    → IsGivenBack s.pool req p
    → IsAccounted (detached s i vm idx p)
detached-IsAccounted s id idx i vm req p a r g =
    let was : (j k : ℕ) (v : ℤ) → owner p j k ≡ some v → owner s.pool j k ≡ some v = λ j k v o.
      ground (arith, g.freed j k, o, Bool-cases (holds s.pool.segment_size_mb req j k)) in
    record {
      counts = λ j k v o. g.same_devices j k ∙ a.counts j k v (was j k v o);
      owned = λ j k v o. HasVm-update s.vms id v i vm _ r refl r.2 (a.owned j k v (was j k v o));
    }

left_over :
    (b : Bool) (id v : ℤ) (o : Option ℤ)
    → (if b && is_owner id o then none else o) ≡ some v
    → o ≡ some v
left_over b id v none e = ground (arith, Bool-cases b)
left_over b id v (some u) e = ground (arith, Bool-cases (b && u ==ℤ id))

left_over-not :
    (b : Bool) (id v : ℤ) (o : Option ℤ)
    → b ≡ true
    → (if b && is_owner id o then none else o) ≡ some v
    → v ≢ id
left_over-not b id v none t e = absurd (cc)
left_over-not b id v (some u) t e = λ same. ground (arith, ==ℤ_iff u id)

pub destroyed-IsAccounted :
    (s : Manager) (id : ℤ) (i : ℕ) (vm : VmInstance) (p : Pool)
    → IsAccounted s
    → IsRegistered s.vms id i vm
    → IsReclaimed s.pool id p
    → IsAccounted (destroyed s i vm p)
destroyed-IsAccounted s id i vm p a r g =
    let left : (j k : ℕ) (v : ℤ)
        → owner p j k ≡ some v
        → (if on_device s.pool.mem_devs j k && is_owner id (owner s.pool j k)
            then none
            else owner s.pool j k)
          ≡ some v =
      λ j k v o. sym (g.reclaimed_owners j k) ∙ o in
    let was : (j k : ℕ) (v : ℤ) → owner p j k ≡ some v → owner s.pool j k ≡ some v =
      λ j k v o. left_over (on_device s.pool.mem_devs j k) id v (owner s.pool j k) (left j k v o) in
    record {
      counts = λ j k v o. g.same_devices j k ∙ a.counts j k v (was j k v o);
      owned = λ j k v o.
          let other =
            left_over-not (on_device s.pool.mem_devs j k) id v (owner s.pool j k)
              (a.counts j k v (was j k v o)) (left j k v o) in
          HasVm-other s.vms v i vm _ r.0
            (λ n w q same. let one : vm ≡ w = cc (r.0, q.0) in other (cc (q.1, r.1)))
            (a.owned j k v (was j k v o));
    }

pub recounted-IsAccounted :
    (s : Manager) (vms : List VmInstance)
    → IsAccounted s
    → AllRecounted s.vms vms
    → IsAccounted (record s { vms = vms })
recounted-IsAccounted s vms a r = record {
  counts = a.counts;
  owned = λ j k v o.
      let (i, vm, q) = a.owned j k v o in
      let (w, e, (_, same)) = AllRecounted-to s.vms vms i vm r q.0 in
      (i, w, (e, ap (λ x. x.vm_id) same ∙ q.1, ap (λ x. x.initialized) same ∙ q.2));
}
