-- ===== src/VmManager/Accounting/Requests.antt =====
-- Every request keeps the account of the segments.
use ramryder.Prelude.{ℕ, ◌≡◌, true, false, Option, none, some, ℤ, inl, inr, done, same_state}
use ramryder.Scan.{Bytes}
use ramryder.MemoryPool.Pool.{Pool}
use ramryder.MemoryPool.Pool.Owner.{owner}
use ramryder.MemoryPool.Pool.Invariant
use ramryder.VmManager.{
  Manager, VmMemReq, initial, vm_mngr_instance_create, vm_mngr_instance_destroy,
  vm_mngr_instance_free_mem,
}
use ramryder.VmManager.Counters.{update_perf-Recounts}
use ramryder.VmManager.Invariant.{IsValid, initial-IsValid}
use ramryder.VmManager.Running.{
  Starts, Stops, vm_mngr_instance_start-Starts, vm_mngr_instance_stop-Stops,
}
use ramryder.VmManager.Memory.{AllocAnswer, vm_mngr_instance_alloc_mem-AllocatesMem}
use ramryder.VmManager.Endings.{create-cases, destroy-cases}
use ramryder.VmManager.Reachable.{
  Step, Reach, here, next, creates, destroys, starts, stops, allocates, frees, recounts, free-cases,
  Reach-IsValid,
}
use ramryder.VmManager.Accounting.{
  IsAccounted, switched-IsAccounted, created-IsAccounted, attached-IsAccounted,
  detached-IsAccounted, destroyed-IsAccounted, recounted-IsAccounted,
}

create-IsAccounted :
    (s s' : Manager) (vm_id ret : ℤ) (core_set : Bytes)
    → IsValid s
    → IsAccounted s
    → vm_mngr_instance_create s vm_id core_set ≡ done (ret, s')
    → IsAccounted s'
create-IsAccounted s s' vm_id ret core_set v a e = elim (create-cases s s' vm_id core_set ret v e) [
  | inl same ↦ rw same a
  | inr (i, vm, ev, down, _, same) ↦ rw same (created-IsAccounted s vm_id i vm core_set a ev down)
]

destroy-IsAccounted :
    (s s' : Manager) (vm_id ret : ℤ)
    → IsValid s
    → IsAccounted s
    → vm_mngr_instance_destroy s vm_id ≡ done (ret, s')
    → IsAccounted s'
destroy-IsAccounted s s' vm_id ret v a e = elim (destroy-cases s s' vm_id ret v e) [
  | inl same ↦ rw same a
  | inr (i, vm, p, r, _, g, same) ↦ rw same (destroyed-IsAccounted s vm_id i vm p a r g)
]

Starts-IsAccounted :
    (s s' : Manager) (vm_id ret : ℤ) → IsAccounted s → Starts s vm_id ret s' → IsAccounted s'
Starts-IsAccounted s s' vm_id ret a (inl (_, _, e)) = rw e a
Starts-IsAccounted s s' vm_id ret a (inr (i, vm, r, inl (_, _, e))) = rw e a
Starts-IsAccounted s s' vm_id ret a (inr (i, vm, r, inr (perf, agents, _, inl (_, e)))) =
    rw e (switched-IsAccounted s vm_id i vm true perf agents a r)
Starts-IsAccounted s s' vm_id ret a (inr (i, vm, r, inr (perf, agents, _, inr (_, e)))) =
    rw e (switched-IsAccounted s vm_id i vm false perf agents a r)

Stops-IsAccounted :
    (s s' : Manager) (vm_id ret : ℤ) → IsAccounted s → Stops s vm_id ret s' → IsAccounted s'
Stops-IsAccounted s s' vm_id ret a (inl (_, _, e)) = rw e a
Stops-IsAccounted s s' vm_id ret a (inr (i, vm, r, _, inl (_, e))) = rw e a
Stops-IsAccounted s s' vm_id ret a (inr (i, vm, r, _, inr (perf, agents, _, e))) =
    rw e (switched-IsAccounted s vm_id i vm false perf agents a r)

AllocAnswer-IsAccounted :
    (s s' : Manager) (node vm_id size : ℤ) (r : Option VmMemReq)
    → IsAccounted s
    → AllocAnswer s node vm_id size r s'
    → IsAccounted s'
AllocAnswer-IsAccounted s s' node vm_id size none a (e, _) = rw e a
AllocAnswer-IsAccounted s s' node vm_id size (some answer) a g =
    rw g.after (attached-IsAccounted s vm_id g.slot g.vm g.req s'.pool a g.registered g.taken)

free-IsAccounted :
    (s s' : Manager) (vm_id idx ret : ℤ)
    → IsValid s
    → IsAccounted s
    → vm_mngr_instance_free_mem s vm_id idx ≡ done (ret, s')
    → IsAccounted s'
free-IsAccounted s s' vm_id idx ret v a e = elim (free-cases s s' vm_id idx ret v e) [
  | inl same ↦ rw same a
  | inr (i, vm, m, p, r, g, same) ↦
      rw same (detached-IsAccounted s vm_id idx i vm m.memory_req p a r g)
]

Step-IsAccounted : (s s' : Manager) → IsValid s → IsAccounted s → Step s s' → IsAccounted s'
Step-IsAccounted s s' v a (creates vm_id core_set ret e) =
    create-IsAccounted s s' vm_id ret core_set v a e
Step-IsAccounted s s' v a (destroys vm_id ret e) = destroy-IsAccounted s s' vm_id ret v a e
Step-IsAccounted s s' v a (starts kernel vm_id ret e) =
    Starts-IsAccounted s s' vm_id ret a (vm_mngr_instance_start-Starts kernel s s' vm_id ret e)
Step-IsAccounted s s' v a (stops kernel vm_id ret e) =
    Stops-IsAccounted s s' vm_id ret a (vm_mngr_instance_stop-Stops kernel s s' vm_id ret e)
Step-IsAccounted s s' v a (allocates node vm_id size r h e) =
    let (r', t, f, answer, w) = vm_mngr_instance_alloc_mem-AllocatesMem s node vm_id size v h in
    rw (same_state _ r r' s' t e f) (AllocAnswer-IsAccounted s t node vm_id size r' a answer)
Step-IsAccounted s s' v a (frees vm_id idx ret e) = free-IsAccounted s s' vm_id idx ret v a e
Step-IsAccounted s s' v a (recounts kernel e) =
    let (vms, same, r) = update_perf-Recounts kernel s s' e in
    rw same (recounted-IsAccounted s vms a r)

pub Reach-IsAccounted : {s t : Manager} → IsValid s → IsAccounted s → Reach s t → IsAccounted t
Reach-IsAccounted v a here = a
Reach-IsAccounted v a (next {t} {u} r st) =
    Step-IsAccounted t u (Reach-IsValid v r) (Reach-IsAccounted v a r) st

-- Whatever requests are served and whatever updates of the counters end from the start of the program
-- on, with a valid pool of which no segment is in use, in whatever order: between two of them no memory is lost, since each segment that is not
-- free belongs to a machine that is registered, and lies where its device counts it.
pub Reach-initial-IsAccounted :
    (p : Pool) (s : Manager)
    → Invariant.IsValid p
    → ((j k : ℕ) → owner p j k ≡ none)
    → Reach (initial p) s
    → IsAccounted s
Reach-initial-IsAccounted p s v unused r =
    Reach-IsAccounted (initial-IsValid p v)
      (record {
        counts = λ j k w e. absurd (cc (unused j k, e));
        owned = λ j k w e. absurd (cc (unused j k, e));
      })
      r
