-- ===== src/VmManager/Lifecycle.antt =====
-- `vm_mngr_instance_create`, `_destroy`, `_start` and `_stop`.
use ramryder.Prelude.{
  ℕ, ◌+◌, ◌<◌, ◌≡◌, ◌≢◌, ◌⊎◌, refl, true, false, [], ◌∷◌, none, some, arith, ℤ, pos, minus_one,
  ◌+ℤ◌, ◌-ℤ◌, Option-cases, inl, inr, length, get_elem?, take, get_elem?-lt, done, abort, bug_on,
}
use mathlib.Core.Path.{subst}
use ramryder.Scan.{Bytes}
use ramryder.CoreSet.{core_list, for_each_core_count, for_each_core_empty}
use ramryder.GuestAgent.{max_num_vm}
use ramryder.MemoryPool.Pool.{Pool}
use ramryder.MemoryPool.Pool.Reclaim.{IsReclaimed, memory_pool_release_vm_memory_lem}
use ramryder.VmManager.{
  VmInstance, Manager, put_vm, vm_mngr_get_instance, vm_mngr_check_exit, find_free_slot,
  count_cores, fill_slot, vm_mngr_instance_create, destroy_vm, vm_mngr_instance_destroy,
}
use ramryder.VmManager.Table.{
  in_use, in_use-set_new, in_use-set_gone, IsRegistered, get_instance-some, get_instance-none,
  find_free_slot-some, find_free_slot-none, IsRegistered-at,
}
use ramryder.VmManager.Backing.{AreBacked-keep, IsReclaimed-keep}
use ramryder.VmManager.Invariant.{IsValid, update-IsValid}
use ramryder.VmManager.Memory.{other_id}

-- The machine that a creation puts into a slot.
abbrev pub created_vm : VmInstance → ℤ → Bytes → VmInstance
created_vm vm vm_id core_set = record vm {
  vm_id = vm_id;
  num_cores = length (core_list (take 255 core_set));
  memdev_counter = 0;
  core_set = take 255 core_set;
  attached_devs = [];
  initialized = true;
}

abbrev pub created : Manager → ℕ → VmInstance → ℤ → Bytes → Manager
created s i vm vm_id core_set = record (put_vm s i (created_vm vm vm_id core_set)) {
  count = s.count +ℤ pos 1;
}

pub created-IsValid :
    (s : Manager) (i : ℕ) (vm : VmInstance) (vm_id : ℤ) (core_set : Bytes)
    → IsValid s
    → vm_mngr_get_instance vm_id s.vms ≡ none
    → get_elem? s.vms i ≡ some vm
    → vm.initialized ≡ false
    → IsValid (created s i vm vm_id core_set)
unfolding ◌+ℤ◌
created-IsValid s i vm vm_id core_set v gone e down =
    update-IsValid s i (created_vm vm vm_id core_set) s.pool (s.count +ℤ pos 1) s.agents v (record {
      slot = get_elem?-lt s.vms i e;
      recounted =
          ground (
            arith,
            v.counted,
            in_use-set_new s.vms i vm (created_vm vm vm_id core_set) e down refl,
          );
      new_id = λ _ j w ew iw same. absurd (get_instance-none vm_id s.vms j w gone (ew, same, iw));
      rests = λ no. absurd (cc);
      new_pool = v.pool_valid;
      own = λ _. tt;
      others = λ j w ij ew iw. v.housed j w ew iw;
    })

pub take_nonempty : (core_set : Bytes) → core_set ≢ [] → take 255 core_set ≢ []
take_nonempty [] h = absurd (h refl)
take_nonempty (c ∷ s) h = λ e. cc

-- In a valid manager, where the table has room, no machine has the id yet and the core set is not empty, a machine is
-- created in a slot that was free: it is registered under the id, with no device and the cores of
-- its core set. The manager stays valid.
pub vm_mngr_instance_create_lem :
    (s : Manager) (vm_id : ℤ) (core_set : Bytes)
    → IsValid s
    → in_use s.vms < max_num_vm
    → vm_mngr_get_instance vm_id s.vms ≡ none
    → core_set ≢ []
    → (i : ℕ) × (vm : VmInstance) × (get_elem? s.vms i ≡ some vm)
      × (vm.initialized ≡ false)
      × (vm_mngr_instance_create s vm_id core_set ≡ done (pos 0, created s i vm vm_id core_set))
      × IsValid (created s i vm vm_id core_set)
unfolding vm_mngr_instance_create vm_mngr_check_exit fill_slot count_cores
vm_mngr_instance_create_lem s vm_id core_set v room gone h =
    elim (Option-cases (find_free_slot s.vms)) [
      | inl full ↦ absurd (omega (arith, find_free_slot-none s.vms full, v.slots))
      | inr (i, e) ↦
          let (vm, ev, down) = find_free_slot-some s.vms i e in
          (
            i,
            vm,
            ev,
            down,
            ground (
              arith,
              v.counted,
              ev,
              for_each_core_count (take 255 core_set) (take_nonempty core_set h),
            ),
            created-IsValid s i vm vm_id core_set v gone ev down,
          )
    ]

-- In a valid manager a creation fails, and changes nothing, when all slots are in use or the id is
-- registered.
pub vm_mngr_instance_create_fails :
    (s : Manager) (vm_id : ℤ) (core_set : Bytes)
    → IsValid s
    → (in_use s.vms ≡ max_num_vm) ⊎ (vm_mngr_get_instance vm_id s.vms ≢ none)
    → vm_mngr_instance_create s vm_id core_set ≡ done (minus_one, s)
unfolding vm_mngr_instance_create vm_mngr_check_exit
vm_mngr_instance_create_fails s vm_id core_set v why =
    ground (arith, v.counted, Option-cases (vm_mngr_get_instance vm_id s.vms))

-- The manager after the machine in slot `i` is gone.
abbrev pub destroyed : Manager → ℕ → VmInstance → Pool → Manager
destroyed s i vm p = record (put_vm s i (record vm { core_set = []; initialized = false })) {
  pool = p;
  count = s.count -ℤ pos 1;
}

destroyed-IsValid :
    (s : Manager) (vm_id : ℤ) (i : ℕ) (vm : VmInstance) (p : Pool)
    → IsValid s
    → IsRegistered s.vms vm_id i vm
    → vm.running ≡ false
    → IsReclaimed s.pool vm.vm_id p
    → IsValid (destroyed s i vm p)
unfolding ◌-ℤ◌
destroyed-IsValid s vm_id i vm p v r still g =
    update-IsValid s i (record vm { core_set = []; initialized = false }) p (s.count -ℤ pos 1)
      s.agents v
      (record {
        slot = get_elem?-lt s.vms i r.0;
        recounted = ground (
          arith,
          v.counted,
          in_use-set_gone s.vms i vm (record vm { core_set = []; initialized = false }) r.0 r.2
              refl,
        );
        new_id = λ no. absurd (cc);
        rests = λ _. still;
        new_pool = g.valid;
        own = λ no. absurd (cc);
        others = λ j w ij ew iw.
            AreBacked-keep s.pool p w.vm_id w.memdev_counter w.memdev_counter w.attached_devs
              g.same_size g.same_devices
              (IsReclaimed-keep s.pool p vm.vm_id w.vm_id g
                (other_id s vm_id i j vm w v r ij ew iw))
              (omega arith) (v.housed j w ew iw);
      })

-- In a valid manager, a registered machine that is not running can be destroyed: the call returns 0, its slot is free,
-- every segment that the machine owned on a device is free and all others keep their owner, and the
-- manager stays valid.
pub vm_mngr_instance_destroy_lem :
    (s : Manager) (vm_id : ℤ) (i : ℕ) (vm : VmInstance)
    → IsValid s
    → vm_mngr_get_instance vm_id s.vms ≡ some i
    → get_elem? s.vms i ≡ some vm
    → vm.running ≡ false
    → (p : Pool) × (vm_mngr_instance_destroy s vm_id ≡ done (pos 0, destroyed s i vm p))
      × IsReclaimed s.pool vm_id p
      × IsValid (destroyed s i vm p)
unfolding vm_mngr_instance_destroy destroy_vm
vm_mngr_instance_destroy_lem s vm_id i vm v e ev still =
    let r = IsRegistered-at s vm_id i vm e ev in
    let (p, ep, g) = memory_pool_release_vm_memory_lem s.pool vm.vm_id v.pool_valid in
    (
      p,
      ground (arith, ep),
      subst (λ t. IsReclaimed s.pool t p) r.1 g,
      destroyed-IsValid s vm_id i vm p v r still g,
    )

-- A machine that runs, or that is not registered, cannot be destroyed: the call returns -1 and
-- changes nothing.
pub vm_mngr_instance_destroy_fails :
    (s : Manager) (vm_id : ℤ)
    → ((i : ℕ) (vm : VmInstance) → IsRegistered s.vms vm_id i vm → vm.running ≡ true)
    → vm_mngr_instance_destroy s vm_id ≡ done (minus_one, s)
unfolding vm_mngr_instance_destroy
vm_mngr_instance_destroy_fails s vm_id runs =
    elim (Option-cases (vm_mngr_get_instance vm_id s.vms)) [
      | inl e ↦ ground arith
      | inr (i, e) ↦
          let (vm, r) = get_instance-some vm_id s.vms i e in ground (arith, r.0, runs i vm r)
    ]

-- In a valid manager, a creation with an empty core set stops the process at a bug check, where the
-- table has room and the id is new.
pub vm_mngr_instance_create_stops :
    (s : Manager) (vm_id : ℤ)
    → IsValid s
    → in_use s.vms < max_num_vm
    → vm_mngr_get_instance vm_id s.vms ≡ none
    → vm_mngr_instance_create s vm_id [] ≡ abort bug_on
unfolding vm_mngr_instance_create vm_mngr_check_exit fill_slot count_cores
vm_mngr_instance_create_stops s vm_id v room gone = elim (Option-cases (find_free_slot s.vms)) [
  | inl full ↦ absurd (omega (arith, find_free_slot-none s.vms full, v.slots))
  | inr (i, e) ↦
      let (vm, ev, down) = find_free_slot-some s.vms i e in
      ground (arith, v.counted, ev, for_each_core_empty (λ (n : ℕ) c. done (n + 1)) 0)
]
