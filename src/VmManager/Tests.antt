-- ===== src/VmManager/Tests.antt =====
-- A machine that is created and gets memory twice, and the theorems at this run.
use ramryder.Prelude.{
  take, ℕ, ◌<◌, ◌≡◌, refl, false, [], ◌∷◌, none, some, arith, pos, ◌+ℤ◌, done, get_elem?, inr,
}
use ramryder.Scan.{Bytes}
use ramryder.CoreSet.{for_each_core_count}
use ramryder.MemoryPool.Pool.{Pool}
use ramryder.MemoryPool.Pool.Requests.{holds, IsGivenBack}
use ramryder.MemoryPool.Pool.Reclaim.{IsReclaimed}
use ramryder.MemoryPool.Pool.Tests.{
  small_pool, small_pool-IsValid, small_pool-unused, used_pool, first_request, first_grant,
  fuller_pool, second_request, second_grant, holds_first,
}
use ramryder.VmManager.Accounting.{IsAccounted}
use ramryder.VmManager.Accounting.Requests.{Reach-initial-IsAccounted}
use ramryder.VmManager.{
  VmInstance, Manager, initial, empty_slot, vm_mngr_get_instance, find_free_slot, is_some,
  vm_mngr_check_exit, count_cores, fill_slot, vm_mngr_instance_create, vm_mem_req_of, attach_dev,
  vm_mngr_instance_alloc_mem, vm_mngr_instance_destroy, vm_mngr_instance_free_mem, find_memdev,
}
use ramryder.GuestAgent.{max_num_vm}
use ramryder.VmManager.Table.{in_use}
use ramryder.VmManager.Invariant.{IsValid}
use ramryder.VmManager.Lifecycle.{
  created_vm, created, destroyed, vm_mngr_instance_create_lem, vm_mngr_instance_destroy_lem,
}
use ramryder.VmManager.Memory.{
  attached, AllocatesMem, detached, vm_mngr_instance_alloc_mem-AllocatesMem,
  vm_mngr_instance_free_mem_lem,
}
use ramryder.VmManager.Reachable.{Reach, here, next, creates, allocates, Reach-initial-IsValid}
use ramryder.VmManager.Dump.{vm_mngr_dump_state, report, vm_mngr_dump_state_lem}
use ramryder.VmManager.Isolation.{reachable_devs_disjoint}

-- The core set "0".
abbrev pub core_0 : Bytes
core_0 = 48 ∷ []

abbrev vm_1 : VmInstance
vm_1 = created_vm empty_slot (pos 1) core_0

abbrev pub at_start : Manager
at_start = initial small_pool

abbrev pub with_one_vm : Manager
with_one_vm = created at_start 0 empty_slot (pos 1) core_0

-- With any pool.
pub creates_first_vm :
    (p : Pool)
    → vm_mngr_instance_create (initial p) (pos 1) core_0
      ≡ done (pos 0, created (initial p) 0 empty_slot (pos 1) core_0)
unfolding vm_mngr_instance_create vm_mngr_check_exit vm_mngr_get_instance is_some find_free_slot
    fill_slot count_cores ◌+ℤ◌
creates_first_vm p = rw (for_each_core_count core_0 (λ e. cc)) refl

pub creates_vm_1 : vm_mngr_instance_create at_start (pos 1) core_0 ≡ done (pos 0, with_one_vm)
creates_vm_1 = creates_first_vm small_pool

abbrev pub with_memory : Manager
with_memory = attached with_one_vm 0 vm_1 first_request used_pool

abbrev pub vm_1_once : VmInstance
vm_1_once = record vm_1 {
  memdev_counter = 1;
  attached_devs = record { memdev_idx = 0; memory_req = first_request } ∷ [];
}

gets_memory :
    vm_mngr_instance_alloc_mem with_one_vm (pos 0) (pos 1) (pos 128)
    ≡ done (some (vm_mem_req_of 0 first_request), with_memory)
unfolding vm_mngr_instance_alloc_mem vm_mngr_get_instance attach_dev ◌+ℤ◌
gets_memory = rw first_grant refl

abbrev with_more_memory : Manager
with_more_memory = attached with_memory 0 vm_1_once second_request fuller_pool

gets_more_memory :
    vm_mngr_instance_alloc_mem with_memory (pos 0) (pos 1) (pos 128)
    ≡ done (some (vm_mem_req_of 1 second_request), with_more_memory)
unfolding vm_mngr_instance_alloc_mem vm_mngr_get_instance attach_dev ◌+ℤ◌
gets_more_memory = rw second_grant refl

pub run_to_memory : Reach at_start with_memory
run_to_memory =
    next (next here (creates (pos 1) core_0 (pos 0) creates_vm_1))
      (allocates (pos 0) (pos 1) (pos 128) _ (λ e. cc) gets_memory)

pub with_memory-IsValid : IsValid with_memory
with_memory-IsValid = Reach-initial-IsValid small_pool with_memory small_pool-IsValid run_to_memory

Reach-initial-IsValid_example : IsValid with_more_memory
Reach-initial-IsValid_example =
    Reach-initial-IsValid small_pool with_more_memory small_pool-IsValid
      (next run_to_memory (allocates (pos 0) (pos 1) (pos 128) _ (λ e. cc) gets_more_memory))

reachable_devs_disjoint_example : holds 128 second_request 0 0 ≡ false
reachable_devs_disjoint_example =
    reachable_devs_disjoint small_pool with_more_memory 0 0 0 1 _ _ _ _ 0 0 small_pool-IsValid
      (next run_to_memory (allocates (pos 0) (pos 1) (pos 128) _ (λ e. cc) gets_more_memory)) refl
      refl refl refl refl refl (inr (λ e. cc)) holds_first

vm_mngr_instance_alloc_mem-AllocatesMem_example :
    AllocatesMem with_memory
      (pos 0)
      (pos 1)
      (pos 256)
      (vm_mngr_instance_alloc_mem with_memory (pos 0) (pos 1) (pos 256))
vm_mngr_instance_alloc_mem-AllocatesMem_example =
    vm_mngr_instance_alloc_mem-AllocatesMem with_memory (pos 0) (pos 1) (pos 256)
      with_memory-IsValid (λ e. cc)

pub finds_vm_1 : vm_mngr_get_instance (pos 1) with_memory.vms ≡ some 0
unfolding vm_mngr_get_instance
finds_vm_1 = refl

finds_memory :
    find_memdev (pos 0) vm_1_once.attached_devs
    ≡ some (record { memdev_idx = 0; memory_req = first_request })
unfolding find_memdev
finds_memory = refl

vm_mngr_instance_free_mem_lem_example :
    (p : Pool) × (vm_mngr_instance_free_mem with_memory (pos 1) (pos 0)
      ≡ done (pos 0, detached with_memory 0 vm_1_once (pos 0) p))
    × IsGivenBack used_pool first_request p
    × IsValid (detached with_memory 0 vm_1_once (pos 0) p)
vm_mngr_instance_free_mem_lem_example =
    vm_mngr_instance_free_mem_lem with_memory (pos 1) (pos 0) 0 vm_1_once
      (record { memdev_idx = 0; memory_req = first_request }) with_memory-IsValid finds_vm_1 refl
      finds_memory

vm_mngr_instance_destroy_lem_example :
    (p : Pool) × (vm_mngr_instance_destroy with_memory (pos 1)
      ≡ done (pos 0, destroyed with_memory 0 vm_1_once p))
    × IsReclaimed used_pool (pos 1) p
    × IsValid (destroyed with_memory 0 vm_1_once p)
vm_mngr_instance_destroy_lem_example =
    vm_mngr_instance_destroy_lem with_memory (pos 1) 0 vm_1_once with_memory-IsValid finds_vm_1 refl
      refl

no_vm_2 : vm_mngr_get_instance (pos 2) with_memory.vms ≡ none
unfolding vm_mngr_get_instance
no_vm_2 = refl

room_for_more : in_use with_memory.vms < max_num_vm
unfolding in_use
room_for_more = omega arith

vm_mngr_instance_create_lem_example :
    (i : ℕ) × (vm : VmInstance) × (get_elem? with_memory.vms i ≡ some vm)
    × (vm.initialized ≡ false)
    × (vm_mngr_instance_create with_memory (pos 2) core_0
        ≡ done (pos 0, created with_memory i vm (pos 2) core_0))
    × IsValid (created with_memory i vm (pos 2) core_0)
vm_mngr_instance_create_lem_example =
    vm_mngr_instance_create_lem with_memory (pos 2) core_0 with_memory-IsValid room_for_more no_vm_2
      (λ e. cc)

vm_mngr_dump_state_lem_example :
    vm_mngr_dump_state with_more_memory 64 ≡ take 63 (report with_more_memory)
vm_mngr_dump_state_lem_example = vm_mngr_dump_state_lem with_more_memory 64 (omega arith)

Reach-initial-IsAccounted_example : IsAccounted with_memory
Reach-initial-IsAccounted_example =
    Reach-initial-IsAccounted small_pool with_memory small_pool-IsValid small_pool-unused
      run_to_memory
