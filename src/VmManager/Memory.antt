-- ===== src/VmManager/Memory.antt =====
-- `vm_mngr_instance_alloc_mem`, `_free_mem` and `_get_mem`.
use ramryder.Prelude.{
  ℕ, ◌+◌, ◌≡◌, ◌≢◌, ◌⊎◌, refl, true, List, [], ◌∷◌, ◌++◌, Option, none, some, arith, ℤ, pos,
  minus_one, Option-cases, inl, inr, sym, ap, ◌∙◌, get_elem?, get_elem?-lt, Exec, done,
}
use ramryder.MemoryPool.Pool.{Pool, MemoryRequest, memory_pool_allocate_segments}
use ramryder.MemoryPool.Pool.Invariant
use ramryder.MemoryPool.Pool.Allocate.{IsRefused, Answers, memory_pool_allocate_segments-Allocates}
use ramryder.MemoryPool.Pool.Requests.{
  IsTaken, memory_pool_allocate_segments-IsTaken, IsGivenBack,
  memory_pool_release_segments-IsGivenBack,
}
use ramryder.VmManager.{
  VmInstance, Manager, MemoryDev, VmMemReq, put_vm, vm_mngr_get_instance, attach_dev, vm_mem_req_of,
  vm_mngr_instance_alloc_mem, find_memdev, remove_memdev, free_dev, vm_mngr_instance_free_mem,
}
use ramryder.VmManager.Table.{in_use-set_same, IsRegistered, get_instance-some, IsRegistered-at}
use ramryder.VmManager.Backing.{AreBacked, AreBacked-keep, IsTaken-keep, IsGivenBack-keep}
use ramryder.VmManager.Attach.{AreBacked-attach}
use ramryder.VmManager.Detach.{find_memdev-IsBacked, AreBacked-detach}
use ramryder.VmManager.Invariant.{IsValid, IsUpdate, IsHoused, update-IsValid}

-- A change of the devices of a registered machine, and of the pool.
devs-IsUpdate :
    (s : Manager) (vm_id : ℤ) (i : ℕ) (vm : VmInstance) (p : Pool) (counter : ℕ)
    (devs : List MemoryDev)
    → IsValid s
    → IsRegistered s.vms vm_id i vm
    → Invariant.IsValid p
    → AreBacked p vm.vm_id counter devs
    → ((j : ℕ) (w : VmInstance)
        → i ≢ j
        → get_elem? s.vms j ≡ some w
        → w.initialized ≡ true
        → IsHoused p w)
    → IsUpdate s i (record vm { memdev_counter = counter; attached_devs = devs }) p s.count
devs-IsUpdate s vm_id i vm p counter devs v (e, id, up) vp own others = record {
  slot = get_elem?-lt s.vms i e;
  recounted = v.counted ∙ ap pos (sym (in_use-set_same s.vms i vm _ e refl));
  new_id = λ _ j w ew iw same. v.distinct i j vm w e ew up iw (sym same);
  rests = λ down. absurd (cc (up, down));
  new_pool = vp;
  own = λ _. own;
  others = others;
}

-- Two machines that are registered in different slots have different ids.
pub other_id :
    (s : Manager) (vm_id : ℤ) (i j : ℕ) (vm w : VmInstance)
    → IsValid s
    → IsRegistered s.vms vm_id i vm
    → i ≢ j
    → get_elem? s.vms j ≡ some w
    → w.initialized ≡ true
    → w.vm_id ≢ vm.vm_id
other_id s vm_id i j vm w v (e, id, up) ij ew iw same =
    ij (v.distinct i j vm w e ew up iw (sym same))

-- The manager after a request of the machine in slot `i` was granted.
abbrev pub attached : Manager → ℕ → VmInstance → MemoryRequest → Pool → Manager
attached s i vm req p =
    put_vm (record s { pool = p }) i
      (record vm {
        memdev_counter = vm.memdev_counter + 1;
        attached_devs =
            vm.attached_devs ++ record { memdev_idx = vm.memdev_counter; memory_req = req } ∷ [];
      })

pub attached-IsValid :
    (s : Manager) (vm_id : ℤ) (i : ℕ) (vm : VmInstance) (req : MemoryRequest) (p : Pool)
    → IsValid s
    → IsRegistered s.vms vm_id i vm
    → IsTaken s.pool vm.vm_id req p
    → Invariant.IsValid p
    → IsValid (attached s i vm req p)
attached-IsValid s vm_id i vm req p v r t vp = update-IsValid s i _ p s.count s.agents v (
    devs-IsUpdate s vm_id i vm p _ _ v r vp
      (AreBacked-attach s.pool p vm.vm_id vm.memdev_counter req vm.attached_devs t
        (v.housed i vm r.0 r.2))
      (λ j w ij ew iw.
        AreBacked-keep s.pool p w.vm_id w.memdev_counter w.memdev_counter w.attached_devs
          t.same_size t.same_devices (IsTaken-keep s.pool p vm.vm_id w.vm_id req t) (omega arith)
          (v.housed j w ew iw)))

-- A request of the machine was granted: the pool gave it segments that were free, the answer holds
-- the old counter as the index, and the device stands at the end of the machine's list.
pub record IsAllocated (s : Manager) (vm_id : ℤ) (answer : VmMemReq) (s' : Manager) : Type 0 where
  pub slot : ℕ
  pub vm : VmInstance
  pub req : MemoryRequest
  pub registered : IsRegistered s.vms vm_id slot vm
  pub taken : IsTaken s.pool vm_id req s'.pool
  pub answered : answer ≡ vm_mem_req_of vm.memdev_counter req
  pub after : s' ≡ attached s slot vm req s'.pool

abbrev pub AllocAnswer : Manager → ℤ → ℤ → ℤ → Option VmMemReq → Manager → Type 0
AllocAnswer s node vm_id size none s' =
    (s' ≡ s) × ((vm_mngr_get_instance vm_id s.vms ≡ none) ⊎ IsRefused s.pool node size)
AllocAnswer s node vm_id size (some answer) s' = IsAllocated s vm_id answer s'

-- What a call for memory comes to.
abbrev pub AllocatesMem : Manager → ℤ → ℤ → ℤ → Exec (Option VmMemReq × Manager) → Type 0
AllocatesMem s node vm_id size run =
    (r : Option VmMemReq) × (s' : Manager) × (run ≡ done (r, s'))
    × AllocAnswer s node vm_id size r s'
    × IsValid s'

attach_dev-Allocates :
    (s : Manager) (node vm_id size : ℤ) (i : ℕ) (vm : VmInstance) (r : Option MemoryRequest)
    (p : Pool)
    → IsValid s
    → IsRegistered s.vms vm_id i vm
    → size ≢ pos 0
    → memory_pool_allocate_segments s.pool node vm_id size ≡ done (r, p)
    → Answers s.pool node vm_id size r p
    → AllocatesMem s node vm_id size (done (attach_dev (record s { pool = p }) i vm r))
unfolding attach_dev
attach_dev-Allocates s node vm_id size i vm none p v reg h e a =
    (none, s, ground (arith, a.0), (refl, inr a.1), v)
attach_dev-Allocates s node vm_id size i vm (some req) p v reg h e a =
    let (t, vp) =
      memory_pool_allocate_segments-IsTaken s.pool p node vm_id size req v.pool_valid h e in
    (
      some (vm_mem_req_of vm.memdev_counter req),
      attached s i vm req p,
      refl,
      record {
        slot = i;
        vm = vm;
        req = req;
        registered = reg;
        taken = t;
        answered = refl;
        after = refl;
      },
      attached-IsValid s vm_id i vm req p v reg (rw reg.1 t) vp,
    )

-- A call for memory, of any size but 0, on a valid manager ends without a fault and keeps the manager valid. It
-- answers with memory that was free and is attached to the machine now, or it fails and changes
-- nothing, and then the machine is not registered or the pool refused the request.
pub vm_mngr_instance_alloc_mem-AllocatesMem :
    (s : Manager) (node vm_id size : ℤ)
    → IsValid s
    → size ≢ pos 0
    → AllocatesMem s node vm_id size (vm_mngr_instance_alloc_mem s node vm_id size)
unfolding vm_mngr_instance_alloc_mem
vm_mngr_instance_alloc_mem-AllocatesMem s node vm_id size v h =
    elim (Option-cases (vm_mngr_get_instance vm_id s.vms)) [
      | inl e ↦ (none, s, ground arith, (refl, inl e), v)
      | inr (i, e) ↦
          let (vm, reg) = get_instance-some vm_id s.vms i e in
          let (r, p, er, a, vp) =
            memory_pool_allocate_segments-Allocates s.pool node vm_id size v.pool_valid h in
          let (r', s', e', a', v') = attach_dev-Allocates s node vm_id size i vm r p v reg h er a in
          (r', s', ground (arith, reg.0, er), a', v')
    ]

-- The manager after the device with index `idx` of the machine in slot `i` was given back.
abbrev pub detached : Manager → ℕ → VmInstance → ℤ → Pool → Manager
detached s i vm idx p =
    put_vm (record s { pool = p }) i
      (record vm { attached_devs = remove_memdev idx vm.attached_devs })

pub detached-IsValid :
    (s : Manager) (vm_id idx : ℤ) (i : ℕ) (vm : VmInstance) (m : MemoryDev) (p : Pool)
    → IsValid s
    → IsRegistered s.vms vm_id i vm
    → find_memdev idx vm.attached_devs ≡ some m
    → IsGivenBack s.pool m.memory_req p
    → IsValid (detached s i vm idx p)
detached-IsValid s vm_id idx i vm m p v r e g =
    let own = v.housed i vm r.0 r.2 in
    update-IsValid s i _ p s.count s.agents v (
      devs-IsUpdate s vm_id i vm p vm.memdev_counter _ v r g.valid
        (AreBacked-detach s.pool p vm.vm_id vm.memdev_counter idx vm.attached_devs m e g own)
        (λ j w ij ew iw.
          AreBacked-keep s.pool p w.vm_id w.memdev_counter w.memdev_counter w.attached_devs
            g.same_size g.same_devices
            (IsGivenBack-keep s.pool p vm.vm_id w.vm_id m g
              (find_memdev-IsBacked s.pool vm.vm_id vm.memdev_counter idx vm.attached_devs m own e)
              (other_id s vm_id i j vm w v r ij ew iw))
            (omega arith) (v.housed j w ew iw)))

-- In a valid manager, a memory device of a registered machine can always be given back: the call
-- returns 0, exactly the segments that its request names are free afterwards, the device is off the
-- machine's list, and the manager stays valid.
pub vm_mngr_instance_free_mem_lem :
    (s : Manager) (vm_id idx : ℤ) (i : ℕ) (vm : VmInstance) (m : MemoryDev)
    → IsValid s
    → vm_mngr_get_instance vm_id s.vms ≡ some i
    → get_elem? s.vms i ≡ some vm
    → find_memdev idx vm.attached_devs ≡ some m
    → (p : Pool) × (vm_mngr_instance_free_mem s vm_id idx ≡ done (pos 0, detached s i vm idx p))
      × IsGivenBack s.pool m.memory_req p
      × IsValid (detached s i vm idx p)
unfolding vm_mngr_instance_free_mem free_dev
vm_mngr_instance_free_mem_lem s vm_id idx i vm m v e ev em =
    let reg = IsRegistered-at s vm_id i vm e ev in
    let b =
      find_memdev-IsBacked s.pool vm.vm_id vm.memdev_counter idx vm.attached_devs m
        (v.housed i vm ev reg.2) em in
    let (p, er, g) =
      memory_pool_release_segments-IsGivenBack s.pool vm.vm_id m.memory_req v.pool_valid b.located
        b.owned in
    (p, ground (arith, er, reg.1), g, detached-IsValid s vm_id idx i vm m p v reg em g)

-- A release for a machine that is not registered, or of a device that it does not have, returns -1
-- and changes nothing.
pub vm_mngr_instance_free_mem_fails :
    (s : Manager) (vm_id idx : ℤ)
    → ((i : ℕ) (vm : VmInstance)
        → IsRegistered s.vms vm_id i vm
        → find_memdev idx vm.attached_devs ≡ none)
    → vm_mngr_instance_free_mem s vm_id idx ≡ done (minus_one, s)
unfolding vm_mngr_instance_free_mem free_dev
vm_mngr_instance_free_mem_fails s vm_id idx missing =
    elim (Option-cases (vm_mngr_get_instance vm_id s.vms)) [
      | inl e ↦ ground arith
      | inr (i, e) ↦
          let (vm, reg) = get_instance-some vm_id s.vms i e in
          ground (arith, reg.0, missing i vm reg)
    ]
