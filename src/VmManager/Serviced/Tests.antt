-- ===== src/VmManager/Serviced/Tests.antt =====
-- A machine with memory that is started and stopped.
use ramryder.Prelude.{
  ℕ, zero, suc, get_elem?, ◌≡◌, ◌⊎◌, inl, inr, refl, true, false, none, some, arith, ℤ, pos,
  minus_one, ltb_ℤ, done,
}
use ramryder.PerfCounter.{IsReliable}
use ramryder.GuestAgent.{agent_path, connect_to_socket}
use ramryder.CoreSet.{core_list}
use ramryder.MemoryPool.Pool.Tests.{small_pool, small_pool-IsValid}
use ramryder.VmManager.{
  VmInstance, Manager, Kernel, vm_mngr_get_instance, vm_mngr_instance_start, vm_mngr_instance_stop,
}
use ramryder.VmManager.Table.{IsRegistered}
use ramryder.VmManager.Reachable.{Reach, next, starts}
use ramryder.VmManager.Tests.{at_start, with_memory, run_to_memory, finds_vm_1, vm_1_once}
use ramryder.VmManager.Serviced.{IsServiced}
use ramryder.VmManager.Serviced.Switching.{IsSwitch}
use ramryder.VmManager.Serviced.Calls.{vm_mngr_instance_stop-ends}
use ramryder.VmManager.Serviced.Starting.{IsWilling, NamesCores, vm_mngr_instance_start-ends}
use ramryder.VmManager.Serviced.Requests.{Reach-initial-IsServiced}

abbrev pub kernel : Kernel
kernel = record {
  perf_kernel = record {
    event_open = λ core event. pos 9;
    event_read = λ fd. done 0;
    close = λ fd. pos 0;
  };
  sockets = record { socket = pos 7; connect = λ path. pos 0 };
}

pub kernel-IsReliable : IsReliable kernel.perf_kernel
kernel-IsReliable = record { reads = λ fd. (0, refl); closes = λ fd. refl }

pub kernel-IsWilling : IsWilling kernel.perf_kernel
kernel-IsWilling = record { opens = λ core j. ground arith; reliable = kernel-IsReliable }

pub vm_1_once-NamesCores : NamesCores vm_1_once
unfolding core_list
vm_1_once-NamesCores = record { some_core = λ no. cc; cores = λ i core e. first i core e }
  where
    first :
        (i : ℕ) (core : ℤ)
        → get_elem? (core_list vm_1_once.core_set) i ≡ some core
        → ltb_ℤ core (pos 0) ≡ false
    first zero core e = let same : pos 0 ≡ core = cc in rw (← same) (ground arith)
    first (suc i) core e = absurd (cc)

pub with_memory-IsServiced : IsServiced with_memory
with_memory-IsServiced =
    Reach-initial-IsServiced small_pool with_memory small_pool-IsValid run_to_memory

vm_mngr_instance_start-ends_example :
    (s' : Manager) × (((vm_mngr_instance_start kernel with_memory (pos 1) ≡ done (pos 0, s'))
        × IsSwitch with_memory 0 true s')
      ⊎ ((vm_mngr_instance_start kernel with_memory (pos 1) ≡ done (minus_one, s'))
          × IsSwitch with_memory 0 false s'
          × (ltb_ℤ (connect_to_socket kernel.sockets (agent_path (pos 1))) (pos 0) ≡ true)))
vm_mngr_instance_start-ends_example =
    vm_mngr_instance_start-ends kernel with_memory 1 0 vm_1_once kernel-IsWilling
      with_memory-IsServiced finds_vm_1 refl refl (omega arith) vm_1_once-NamesCores

-- The manager after the start, with the run that led to it.
abbrev pub starts_vm_1 : (s : Manager) × Reach at_start s
starts_vm_1 =
    let (s, outcome) =
      vm_mngr_instance_start-ends kernel with_memory 1 0 vm_1_once kernel-IsWilling
        with_memory-IsServiced finds_vm_1 refl refl (omega arith) vm_1_once-NamesCores in
    (
      s,
      elim outcome [
        | inl (run, _) ↦ next run_to_memory (starts kernel (pos 1) _ run)
        | inr (run, _, _) ↦ next run_to_memory (starts kernel (pos 1) _ run)
      ],
    )

abbrev pub started : Manager
started = starts_vm_1.0

pub run_to_started : Reach at_start started
run_to_started = starts_vm_1.1

Reach-initial-IsServiced_example : IsServiced started
Reach-initial-IsServiced_example =
    Reach-initial-IsServiced small_pool started small_pool-IsValid run_to_started

vm_mngr_instance_stop-ends_example :
    (s' : Manager) × (((vm_mngr_get_instance (pos 1) started.vms ≡ none)
        × (vm_mngr_instance_stop kernel started (pos 1) ≡ done (minus_one, s'))
        × (s' ≡ started))
      ⊎ ((vm_mngr_instance_stop kernel started (pos 1) ≡ done (pos 0, s'))
          × ((i : ℕ) × (vm : VmInstance) × IsRegistered started.vms (pos 1) i vm
              × (((vm.running ≡ false) × (s' ≡ started))
                  ⊎ ((vm.running ≡ true) × IsSwitch started i false s')))))
vm_mngr_instance_stop-ends_example =
    vm_mngr_instance_stop-ends kernel started (pos 1) kernel-IsReliable
      (Reach-initial-IsServiced small_pool started small_pool-IsValid run_to_started)
