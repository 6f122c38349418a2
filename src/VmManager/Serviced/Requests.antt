-- ===== src/VmManager/Serviced/Requests.antt =====
-- Every request and every update of the counters keeps the machines serviced.
use mathlib.Core.Path.{subst}
use ramryder.Prelude.{
  set-cases, ◌<◌, ℕ, zero, suc, ◌≡◌, refl, true, false, List, [], Option, none, some, arith, ℤ, pos,
  ◌==◌, Bool-cases, inl, inr, length, get_elem?, get_elem?-lt, set, get_elem?-set, replicate, done,
  same_state,
}
use ramryder.Scan.{Bytes}
use ramryder.GuestAgent.{GuestAgent, no_agents, max_num_vm}
use ramryder.MemoryPool.Pool.{Pool}
use ramryder.MemoryPool.Pool.Invariant
use ramryder.VmManager.{
  VmInstance, Manager, MemoryDev, VmMemReq, initial, vm_mngr_instance_create,
  vm_mngr_instance_destroy, vm_mngr_instance_free_mem,
}
use ramryder.VmManager.Invariant.{IsValid, initial-IsValid, not_running, unused}
use ramryder.VmManager.Lifecycle.{created_vm, take_nonempty}
use ramryder.VmManager.Endings.{create-cases, destroy-cases}
use ramryder.VmManager.Memory.{AllocAnswer, vm_mngr_instance_alloc_mem-AllocatesMem}
use ramryder.VmManager.Reachable.{
  Step, Reach, here, next, creates, destroys, starts, stops, allocates, frees, recounts, free-cases,
  Reach-IsValid,
}
use ramryder.VmManager.Serviced.{IsServiced, HasCores, AllKept-set, kept-IsServiced}
use ramryder.VmManager.Serviced.Recounts.{update_perf-AllKept}
use ramryder.VmManager.Serviced.Switching.{IsSwitch-IsServiced}
use ramryder.VmManager.Serviced.Calls.{
  Switches, vm_mngr_instance_start-Switches, vm_mngr_instance_stop-Switches,
}

-- A slot is filled or emptied: a machine that does not run replaces one that does not run.
quiet-IsServiced :
    (s t : Manager) (i : ℕ) (vm new : VmInstance)
    → IsServiced s
    → get_elem? s.vms i ≡ some vm
    → vm.running ≡ false
    → new.running ≡ false
    → (new.initialized ≡ true → HasCores new)
    → t.agents ≡ s.agents
    → t.vms ≡ set s.vms i new
    → IsServiced t
quiet-IsServiced s t i vm new h e still stays cores same_agents same_vms = record {
  agents_valid = rw same_agents h.agents_valid;
  cores = λ j x ex up. elim (set-cases s.vms i j lt (rw same_vms at ex)) [
    | inl (_, one) ↦ subst (λ y. y.initialized ≡ true → HasCores y) one cores up
    | inr (_, ex') ↦ h.cores j x ex' up
  ];
  served = λ j x ex on. elim (set-cases s.vms i j lt (rw same_vms at ex)) [
    | inl (_, one) ↦ absurd (cc)
    | inr (_, ex') ↦ rw same_agents (h.served j x ex' on)
  ];
  runs = λ n c.
      let (j, x, (ex, id, up, on)) = h.runs n (rw same_agents at c) in
      elim (Bool-cases (i == j)) [
        | inl same ↦ let ij : i ≡ j = ground arith in let one : vm ≡ x = cc in absurd (cc)
        | inr other ↦ (
          j,
          x,
          (rw same_vms (ground (arith, get_elem?-set s.vms i j new lt, other, ex)), id, up, on),
        )
      ];
}
  where
    lt : i < length s.vms
    lt = get_elem?-lt s.vms i e

create-IsServiced :
    (s s' : Manager) (vm_id ret : ℤ) (core_set : Bytes)
    → IsValid s
    → IsServiced s
    → vm_mngr_instance_create s vm_id core_set ≡ done (ret, s')
    → IsServiced s'
create-IsServiced s s' vm_id ret core_set v h e = elim (create-cases s s' vm_id core_set ret v e) [
  | inl same ↦ rw same h
  | inr (i, vm, ev, down, ne, same) ↦
      let still = v.resting i vm ev down in
      rw same (
        quiet-IsServiced s _ i vm (created_vm vm vm_id core_set) h ev still still
          (λ _. (take_nonempty core_set ne, refl)) refl refl)
]

destroy-IsServiced :
    (s s' : Manager) (vm_id ret : ℤ)
    → IsValid s
    → IsServiced s
    → vm_mngr_instance_destroy s vm_id ≡ done (ret, s')
    → IsServiced s'
destroy-IsServiced s s' vm_id ret v h e = elim (destroy-cases s s' vm_id ret v e) [
  | inl same ↦ rw same h
  | inr (i, vm, p, r, still, g, same) ↦ rw same (
      quiet-IsServiced s _ i vm (record vm { core_set = []; initialized = false }) h r.0 still still
        (λ no. absurd (cc)) refl refl)
]

-- The devices of a machine change.
devs-IsServiced :
    (s t : Manager) (i : ℕ) (vm : VmInstance) (counter : ℕ) (devs : List MemoryDev)
    → IsServiced s
    → get_elem? s.vms i ≡ some vm
    → t.agents ≡ s.agents
    → t.vms ≡ set s.vms i (record vm { memdev_counter = counter; attached_devs = devs })
    → IsServiced t
devs-IsServiced s t i vm counter devs h e same_agents same_vms = kept-IsServiced s t h same_agents (
    rw same_vms (
      AllKept-set s.vms i vm _ e (record {
        same_id = refl;
        same_cores = refl;
        same_set = refl;
        same_use = refl;
        same_run = refl;
        ready = λ _ r. r;
      })))

AllocAnswer-IsServiced :
    (s s' : Manager) (node vm_id size : ℤ) (r : Option VmMemReq)
    → IsServiced s
    → AllocAnswer s node vm_id size r s'
    → IsServiced s'
AllocAnswer-IsServiced s s' node vm_id size none h (e, _) = rw e h
AllocAnswer-IsServiced s s' node vm_id size (some answer) h g =
    rw g.after (devs-IsServiced s _ g.slot g.vm _ _ h g.registered.0 refl refl)

free-IsServiced :
    (s s' : Manager) (vm_id idx ret : ℤ)
    → IsValid s
    → IsServiced s
    → vm_mngr_instance_free_mem s vm_id idx ≡ done (ret, s')
    → IsServiced s'
free-IsServiced s s' vm_id idx ret v h e = elim (free-cases s s' vm_id idx ret v e) [
  | inl same ↦ rw same h
  | inr (i, vm, m, p, r, g, same) ↦ rw same (devs-IsServiced s _ i vm _ _ h r.0 refl refl)
]

Switches-IsServiced : (s s' : Manager) → IsValid s → IsServiced s → Switches s s' → IsServiced s'
Switches-IsServiced s s' v h (inl same) = rw same h
Switches-IsServiced s s' v h (inr (i, inl w)) = IsSwitch-IsServiced s i true s' v h w
Switches-IsServiced s s' v h (inr (i, inr w)) = IsSwitch-IsServiced s i false s' v h w

Step-IsServiced : (s s' : Manager) → IsValid s → IsServiced s → Step s s' → IsServiced s'
Step-IsServiced s s' v h (creates vm_id core_set ret e) =
    create-IsServiced s s' vm_id ret core_set v h e
Step-IsServiced s s' v h (destroys vm_id ret e) = destroy-IsServiced s s' vm_id ret v h e
Step-IsServiced s s' v h (starts kernel vm_id ret e) =
    Switches-IsServiced s s' v h (vm_mngr_instance_start-Switches kernel s s' vm_id ret h e)
Step-IsServiced s s' v h (stops kernel vm_id ret e) =
    Switches-IsServiced s s' v h (vm_mngr_instance_stop-Switches kernel s s' vm_id ret h e)
Step-IsServiced s s' v h (allocates node vm_id size r ne e) =
    let (r', t, f, answer, w) = vm_mngr_instance_alloc_mem-AllocatesMem s node vm_id size v ne in
    rw (same_state _ r r' s' t e f) (AllocAnswer-IsServiced s t node vm_id size r' h answer)
Step-IsServiced s s' v h (frees vm_id idx ret e) = free-IsServiced s s' vm_id idx ret v h e
Step-IsServiced s s' v h (recounts kernel e) =
    let (vms, same, k) = update_perf-AllKept kernel s s' e in rw same (kept-IsServiced s _ h refl k)

nobody_connected :
    (n : ℕ) (a : GuestAgent) → get_elem? no_agents.guest_agents n ≡ some a → a.initialized ≡ false
nobody_connected n a e = fresh max_num_vm n a e
  where
    unconnected : GuestAgent
    unconnected = record { socket_path = []; agent_fd = pos 0; initialized = false }

    fresh :
        (k n : ℕ) (a : GuestAgent)
        → get_elem? (replicate k unconnected) n ≡ some a
        → a.initialized ≡ false
    fresh zero n a e = absurd (cc)
    fresh (suc k) zero a e = let same : unconnected ≡ a = cc in rw (← same) refl
    fresh (suc k) (suc n) a e = fresh k n a e

initial-IsServiced : (p : Pool) → IsServiced (initial p)
initial-IsServiced p = record {
  agents_valid = record { size = refl; counted = refl };
  cores = λ i v e up. absurd (cc (unused max_num_vm i v e));
  served = λ i v e on. absurd (cc (not_running max_num_vm i v e));
  runs = λ n (a, e, up). absurd (cc (up, nobody_connected n a e));
}

pub Reach-IsServiced : {s t : Manager} → IsValid s → IsServiced s → Reach s t → IsServiced t
Reach-IsServiced v h here = h
Reach-IsServiced v h (next {t} {u} r st) =
    Step-IsServiced t u (Reach-IsValid v r) (Reach-IsServiced v h r) st

-- Whatever requests are served and whatever updates of the counters end from the start of the program
-- on, with a valid pool, in whatever order: between two of them each machine that runs has a number below
-- `max_num_vm`, a connection to its guest agent and, for each event type and core, a descriptor; and
-- each connection belongs to a machine that runs.
pub Reach-initial-IsServiced :
    (p : Pool) (s : Manager) → Invariant.IsValid p → Reach (initial p) s → IsServiced s
Reach-initial-IsServiced p s v r = Reach-IsServiced (initial-IsValid p v) (initial-IsServiced p) r
