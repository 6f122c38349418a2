-- ===== src/ResourceManager/Shutdown/Ending.antt =====
-- The first loop of the shutdown ends, and so does the shutdown.
use ramryder.Prelude.{
  ℕ, zero, suc, ◌+◌, ◌≡◌, refl, false, none, some, arith, pos, ◌&&◌, ◌==ℤ◌, if◌then◌else◌,
  Bool-cases, inl, inr, done, get_elem?, get_elem?-total,
}
use ramryder.GuestAgent.{max_num_vm}
use ramryder.MemoryPool.Pool.{Pool}
use ramryder.MemoryPool.Pool.Owner.{owner}
use ramryder.MemoryPool.Pool.Invariant
use ramryder.PerfCounter.{IsReliable}
use ramryder.VmManager.{VmInstance, Manager, Kernel, initial}
use ramryder.VmManager.ForEach.{each_from, each_from-suc, vm_mngr_for_each_vm_running}
use ramryder.VmManager.Reachable.{Reach, next, stops, Reach-initial-IsValid}
use ramryder.VmManager.Serviced.Calls.{vm_mngr_instance_stop-ends}
use ramryder.VmManager.Serviced.Requests.{Reach-initial-IsServiced}
use ramryder.ResourceManager.Shutdown.{vm_stop, handle_signal}
use ramryder.ResourceManager.Shutdown.Empties.{handle_signal-Empties}

module _ (kernel : Kernel) (reliable : IsReliable kernel.perf_kernel) (p : Pool)
    (v : Invariant.IsValid p) where
  vm_stop-ends :
      (vm : VmInstance) (s : Manager)
      → Reach (initial p) s
      → (t : Manager) × (vm_stop kernel vm s ≡ done t) × Reach (initial p) t
  unfolding vm_stop
  vm_stop-ends vm s r =
      let (t, result) =
        vm_mngr_instance_stop-ends kernel s vm.vm_id reliable (Reach-initial-IsServiced p s v r) in
      elim result [
        | inl (_, run, _) ↦ (t, rw run refl, next r (stops kernel vm.vm_id _ run))
        | inr (run, _) ↦ (t, rw run refl, next r (stops kernel vm.vm_id _ run))
      ]

  round-ends :
      (vm : VmInstance) (s : Manager)
      → Reach (initial p) s
      → (t : Manager) × ((if vm.initialized && vm.running then vm_stop kernel vm s else done s)
          ≡ done t)
        × Reach (initial p) t
  round-ends vm s r = elim (Bool-cases (vm.initialized && vm.running)) [
    | inl on ↦ let (t, run, r') = vm_stop-ends vm s r in (t, rw on run, r')
    | inr off ↦ (s, rw off refl, r)
  ]

  each_from-ends :
      (left i : ℕ) (s : Manager)
      → i + left ≡ max_num_vm
      → Reach (initial p) s
      → (t : Manager) × (each_from (λ vm. vm.initialized && vm.running) (vm_stop kernel) i left s
          ≡ done t)
  unfolding each_from
  each_from-ends zero i s h r = (s, refl)
  each_from-ends (suc left) i s h r =
      let valid = Reach-initial-IsValid p s v r in
      let (vm, e) = get_elem?-total s.vms i (omega (arith, h, valid.slots)) in
      let (t, run, r') = round-ends vm s r in
      let (u, rest) = each_from-ends left (i + 1) t (omega (arith, h)) r' in
      (
        u,
        each_from-suc (λ vm. vm.initialized && vm.running) (vm_stop kernel) i left s t u vm e run
            rest,
      )

  stop_phase-ends :
      (s : Manager)
      → Reach (initial p) s
      → (t : Manager) × (vm_mngr_for_each_vm_running (vm_stop kernel) s ≡ done t)
  unfolding vm_mngr_for_each_vm_running
  stop_phase-ends s r = elim (Bool-cases (s.count ==ℤ pos 0)) [
    | inl nobody ↦ (s, rw nobody refl)
    | inr some_vms ↦ let (t, run) = each_from-ends max_num_vm 0 s refl r in (t, rw some_vms run)
  ]

  -- From any state that requests and updates of the counters have reached from the start of the program
  -- on, with a valid pool of which no segment was in use, and with descriptors that can be read and
  -- closed, the shutdown ends: no machine is left that is registered or runs, the count is 0, and no
  -- segment is in use.
  pub handle_signal-ends :
      (s : Manager)
      → ((j k : ℕ) → owner p j k ≡ none)
      → Reach (initial p) s
      → (u : Manager) × (handle_signal kernel s ≡ done u)
        × (u.count ≡ pos 0)
        × ((j : ℕ) (w : VmInstance)
            → get_elem? u.vms j ≡ some w
            → (w.initialized ≡ false) × (w.running ≡ false))
        × ((j k : ℕ) → owner u.pool j k ≡ none)
  handle_signal-ends s unused r =
      let (t, run) = stop_phase-ends s r in handle_signal-Empties kernel p s t v unused r run
