-- ===== src/VmManager/Running.antt =====
-- `vm_mngr_instance_start` and `_stop`.
use ramryder.Prelude.{
  ℕ, ◌≡◌, ◌⊎◌, refl, true, false, not, Bool, none, arith, ℤ, pos, minus_one, ltb_ℤ, Bool-cases,
  Option-cases, inl, inr, sym, ap, ◌∙◌, get_elem?-lt, done, bug_on, stop_if, >>=-eq-done,
}
use ramryder.GuestAgent.{Agents, guest_agent_init, guest_agent_cleanup}
use ramryder.PerfCounter.{Perf, perf_setup, perf_teardown}
use ramryder.VmManager.{
  VmInstance, Manager, Kernel, put_vm, vm_mngr_get_instance, finish_start, start_vm,
  vm_mngr_instance_start, stop_vm, vm_mngr_instance_stop,
}
use ramryder.VmManager.Table.{in_use-set_same, IsRegistered, get_instance-some}
use ramryder.VmManager.Invariant.{IsValid, update-IsValid}

-- The manager after the run state and the counters of the machine in slot `i` changed.
abbrev pub switched : Manager → ℕ → VmInstance → Bool → Perf → Agents → Manager
switched s i vm running perf agents =
    record (put_vm s i (record vm { running = running; perf = perf })) { agents = agents }

pub switched-IsValid :
    (s : Manager) (vm_id : ℤ) (i : ℕ) (vm : VmInstance) (running : Bool) (perf : Perf)
    (agents : Agents)
    → IsValid s
    → IsRegistered s.vms vm_id i vm
    → IsValid (switched s i vm running perf agents)
switched-IsValid s vm_id i vm running perf agents v (e, id, up) =
    update-IsValid s i (record vm { running = running; perf = perf }) s.pool s.count agents v
      (record {
        slot = get_elem?-lt s.vms i e;
        recounted = v.counted ∙ ap pos (sym (in_use-set_same s.vms i vm _ e refl));
        new_id = λ _ j w ew iw same. v.distinct i j vm w e ew up iw (sym same);
        rests = λ down. absurd (cc (up, down));
        new_pool = v.pool_valid;
        own = λ _. v.housed i vm e up;
        others = λ j w ij ew iw. v.housed j w ew iw;
      })

-- How a start ends. The machine is not registered; or it was running already; or it was not, and it
-- runs now, or the guest agent could not be reached and it still does not run.
abbrev pub Starts : Manager → ℤ → ℤ → Manager → Type 0
Starts s vm_id ret s' =
    ((vm_mngr_get_instance vm_id s.vms ≡ none) × (ret ≡ minus_one) × (s' ≡ s))
    ⊎ ((i : ℕ) × (vm : VmInstance) × IsRegistered s.vms vm_id i vm
        × (((vm.running ≡ true) × (ret ≡ pos 0) × (s' ≡ s))
            ⊎ ((perf : Perf) × (agents : Agents) × (vm.running ≡ false)
                × (((ret ≡ pos 0) × (s' ≡ switched s i vm true perf agents))
                    ⊎ ((ret ≡ minus_one) × (s' ≡ switched s i vm false perf agents))))))

-- How a stop ends: the machine is not registered, or did not run, or runs no longer.
abbrev pub Stops : Manager → ℤ → ℤ → Manager → Type 0
Stops s vm_id ret s' =
    ((vm_mngr_get_instance vm_id s.vms ≡ none) × (ret ≡ minus_one) × (s' ≡ s))
    ⊎ ((i : ℕ) × (vm : VmInstance) × IsRegistered s.vms vm_id i vm
        × (ret ≡ pos 0)
        × (((vm.running ≡ false) × (s' ≡ s))
            ⊎ ((perf : Perf) × (agents : Agents) × (vm.running ≡ true)
                × (s' ≡ switched s i vm false perf agents))))

pub finish_start-cases :
    (kernel : Kernel) (s : Manager) (i : ℕ) (vm : VmInstance) (perf : Perf) (agents : Agents)
    (ret ret' : ℤ) (s' : Manager)
    → vm.running ≡ false
    → finish_start kernel (record s { agents = agents }) i (record vm { perf = perf }) ret
      ≡ done (ret', s')
    → (perf' : Perf) × (((ret' ≡ pos 0) × (s' ≡ switched s i vm true perf' agents))
        ⊎ ((ret' ≡ minus_one) × (s' ≡ switched s i vm false perf' agents)))
unfolding finish_start
finish_start-cases kernel s i vm perf agents ret ret' s' still e =
    elim (Bool-cases (ltb_ℤ ret (pos 0))) [
      | inl failed ↦
          let (perf', ep, er) =
            >>=-eq-done (perf_teardown kernel.perf_kernel vm.num_cores perf) _ (rw failed at e) in
          (perf', inr (ground arith, ground arith))
      | inr went ↦ (perf, inl (ground arith, ground arith))
    ]

start_vm-cases :
    (kernel : Kernel) (s s' : Manager) (vm_id ret : ℤ) (i : ℕ) (vm : VmInstance)
    → vm.running ≡ false
    → start_vm kernel s vm_id i vm ≡ done (ret, s')
    → (perf : Perf) × (agents : Agents) × (((ret ≡ pos 0) × (s' ≡ switched s i vm true perf agents))
        ⊎ ((ret ≡ minus_one) × (s' ≡ switched s i vm false perf agents)))
unfolding start_vm
start_vm-cases kernel s s' vm_id ret i vm still e =
    let (_, _, e1) = >>=-eq-done (stop_if (not vm.initialized) bug_on) _ e in
    let (perf, _, e2) = >>=-eq-done (perf_setup kernel.perf_kernel vm.core_set vm.num_cores) _ e1 in
    let (r, _, e3) = >>=-eq-done (guest_agent_init kernel.sockets s.agents vm_id) _ e2 in
    let (perf', cases) = finish_start-cases kernel s i vm perf r.1 r.0 ret s' still e3 in
    (perf', r.1, cases)

stop_vm-lem :
    (kernel : Kernel) (s s' : Manager) (ret : ℤ) (i : ℕ) (vm : VmInstance)
    → stop_vm kernel s i vm ≡ done (ret, s')
    → (perf : Perf) × (agents : Agents) × (ret ≡ pos 0) × (s' ≡ switched s i vm false perf agents)
unfolding stop_vm
stop_vm-lem kernel s s' ret i vm e =
    let (agents, _, e1) = >>=-eq-done (guest_agent_cleanup s.agents vm.vm_id) _ e in
    let (perf, _, e2) = >>=-eq-done (perf_teardown kernel.perf_kernel vm.num_cores vm.perf) _ e1 in
    (perf, agents, ground arith, ground arith)

-- A start that ends has ended in one of these ways, and changed nothing else.
pub vm_mngr_instance_start-Starts :
    (kernel : Kernel) (s s' : Manager) (vm_id ret : ℤ)
    → vm_mngr_instance_start kernel s vm_id ≡ done (ret, s')
    → Starts s vm_id ret s'
unfolding vm_mngr_instance_start
vm_mngr_instance_start-Starts kernel s s' vm_id ret e =
    elim (Option-cases (vm_mngr_get_instance vm_id s.vms)) [
      | inl gone ↦ inl (gone, ground arith, ground arith)
      | inr (i, here) ↦
          let (vm, r) = get_instance-some vm_id s.vms i here in
          inr (
            i,
            vm,
            r,
            elim (Bool-cases vm.running) [
              | inl up ↦ inl (up, ground (arith, r.0), ground (arith, r.0))
              | inr down ↦
                  let (perf, agents, cases) =
                    start_vm-cases kernel s s' vm_id ret i vm down (ground (arith, r.0)) in
                  inr (perf, agents, down, cases)
            ],
          )
    ]

-- A stop that ends has ended in one of these ways, and changed nothing else.
pub vm_mngr_instance_stop-Stops :
    (kernel : Kernel) (s s' : Manager) (vm_id ret : ℤ)
    → vm_mngr_instance_stop kernel s vm_id ≡ done (ret, s')
    → Stops s vm_id ret s'
unfolding vm_mngr_instance_stop
vm_mngr_instance_stop-Stops kernel s s' vm_id ret e =
    elim (Option-cases (vm_mngr_get_instance vm_id s.vms)) [
      | inl gone ↦ inl (gone, ground arith, ground arith)
      | inr (i, here) ↦
          let (vm, r) = get_instance-some vm_id s.vms i here in
          elim (Bool-cases vm.running) [
            | inl up ↦
                let (perf, agents, er, es) =
                  stop_vm-lem kernel s s' ret i vm (ground (arith, r.0)) in
                inr (i, vm, r, er, inr (perf, agents, up, es))
            | inr down ↦ inr (i, vm, r, ground (arith, r.0), inl (down, ground (arith, r.0)))
          ]
    ]

pub Starts-IsValid :
    (s s' : Manager) (vm_id ret : ℤ) → IsValid s → Starts s vm_id ret s' → IsValid s'
Starts-IsValid s s' vm_id ret v (inl (_, _, e)) = rw e v
Starts-IsValid s s' vm_id ret v (inr (i, vm, r, inl (_, _, e))) = rw e v
Starts-IsValid s s' vm_id ret v (inr (i, vm, r, inr (perf, agents, _, inl (_, e)))) =
    rw e (switched-IsValid s vm_id i vm true perf agents v r)
Starts-IsValid s s' vm_id ret v (inr (i, vm, r, inr (perf, agents, _, inr (_, e)))) =
    rw e (switched-IsValid s vm_id i vm false perf agents v r)

pub Stops-IsValid : (s s' : Manager) (vm_id ret : ℤ) → IsValid s → Stops s vm_id ret s' → IsValid s'
Stops-IsValid s s' vm_id ret v (inl (_, _, e)) = rw e v
Stops-IsValid s s' vm_id ret v (inr (i, vm, r, _, inl (_, e))) = rw e v
Stops-IsValid s s' vm_id ret v (inr (i, vm, r, _, inr (perf, agents, _, e))) =
    rw e (switched-IsValid s vm_id i vm false perf agents v r)
