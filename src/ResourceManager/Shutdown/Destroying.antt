-- ===== src/ResourceManager/Shutdown/Destroying.antt =====
-- The second loop of the shutdown: it ends, and afterwards no machine is registered.
use ramryder.Prelude.{
  ℕ, zero, suc, ◌+◌, ◌≡◌, ◌<◌, refl, some, arith, pos, ◌==ℤ◌, if◌then◌else◌, Bool-cases, inl, inr,
  done, get_elem?, get_elem?-total,
}
use ramryder.GuestAgent.{max_num_vm}
use ramryder.MemoryPool.Pool.{Pool}
use ramryder.MemoryPool.Pool.Invariant
use ramryder.VmManager.{VmInstance, Manager, Kernel, initial}
use ramryder.VmManager.Lifecycle.{destroyed, vm_mngr_instance_destroy_lem}
use ramryder.VmManager.Reachable.{Reach, next, destroys, Reach-initial-IsValid}
use ramryder.VmManager.Invariant.{empty_table}
use ramryder.VmManager.ForEach.{each_from, each_from-suc, vm_mngr_for_each_vm}
use ramryder.ResourceManager.Shutdown.{vm_destroy}
use ramryder.ResourceManager.Shutdown.Slots.{IsClear, IsClear-set, IsClear-suc, IsClear-done, finds}
use ramryder.ResourceManager.Shutdown.Stopping.{Runs}

module _ (kernel : Kernel) (p : Pool) (v : Invariant.IsValid p) where
  -- Destroying goes through.
  abbrev pub Leaves : ℕ → Manager → Type 0
  Leaves i s =
      Reach (initial p) s
      × IsClear (λ vm. vm.running) max_num_vm s.vms
      × IsClear (λ vm. vm.initialized) i s.vms

  round-Leaves :
      (s : Manager) (i : ℕ) (vm : VmInstance)
      → i < max_num_vm
      → Leaves i s
      → get_elem? s.vms i ≡ some vm
      → (t : Manager) × ((if vm.initialized then vm_destroy vm s else done s) ≡ done t)
        × Leaves (i + 1) t
  unfolding vm_destroy
  round-Leaves s i vm h (r, still, c) e = elim (Bool-cases vm.initialized) [
    | inr off ↦ (s, rw off refl, (r, still, IsClear-suc (λ x. x.initialized) s.vms i vm e off c))
    | inl up ↦
        let valid = Reach-initial-IsValid p s v r in
        let (pool, run, back, valid') =
          vm_mngr_instance_destroy_lem s vm.vm_id i vm valid (finds s i vm valid e up) e
            (still i vm h e) in
        (
          destroyed s i vm pool,
          rw (up, run) refl,
          (
            next r (destroys vm.vm_id (pos 0) run),
            IsClear-set (λ x. x.running) s.vms i max_num_vm vm _ e (still i vm h e) still,
            IsClear-done (λ x. x.initialized) s.vms i vm _ e refl c,
          ),
        )
  ]

  each_from-Leaves :
      (left i : ℕ) (s : Manager)
      → i + left ≡ max_num_vm
      → Leaves i s
      → (t : Manager) × (each_from (λ vm. vm.initialized) vm_destroy i left s ≡ done t)
        × Leaves max_num_vm t
  unfolding each_from
  each_from-Leaves zero i s h l = let n : i ≡ max_num_vm = omega (arith, h) in (s, refl, rw n at l)
  each_from-Leaves (suc left) i s h l =
      let valid = Reach-initial-IsValid p s v l.0 in
      let (vm, e) = get_elem?-total s.vms i (omega (arith, h, valid.slots)) in
      let (t, run, l') = round-Leaves s i vm (omega (arith, h)) l e in
      let (u, run', l'') = each_from-Leaves left (i + 1) t (omega (arith, h)) l' in
      (u, each_from-suc (λ vm. vm.initialized) vm_destroy i left s t u vm e run run', l'')

  pub destroy_phase-Leaves :
      (s : Manager)
      → Runs kernel p v max_num_vm s
      → (t : Manager) × (vm_mngr_for_each_vm vm_destroy s ≡ done t) × Leaves max_num_vm t
  unfolding vm_mngr_for_each_vm
  destroy_phase-Leaves s (r, still) = elim (Bool-cases (s.count ==ℤ pos 0)) [
    | inr some_vms ↦
        let (t, run, l) =
          each_from-Leaves max_num_vm 0 s refl (r, still, λ j w lt ew. absurd (omega arith)) in
        (t, rw some_vms run, l)
    | inl none_there ↦ (
      s,
      rw none_there refl,
      (r, still, λ j w lt ew. empty_table s (Reach-initial-IsValid p s v r) none_there j w ew),
    )
  ]
