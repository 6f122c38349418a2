-- ===== src/ResourceManager/Shutdown/Stopping.antt =====
-- The first loop of the shutdown: afterwards no machine runs.
use ramryder.Prelude.{
  ℕ, zero, suc, ◌+◌, ◌≡◌, refl, true, false, Bool, some, arith, ℤ, pos, ◌&&◌, ◌==ℤ◌, if◌then◌else◌,
  Bool-cases, inl, inr, done, >>=-eq-done, get_elem?, read,
}
use ramryder.GuestAgent.{max_num_vm}
use ramryder.MemoryPool.Pool.{Pool}
use ramryder.MemoryPool.Pool.Invariant
use ramryder.VmManager.{VmInstance, Manager, Kernel, initial, vm_mngr_instance_stop}
use ramryder.VmManager.Table.{get_instance-none}
use ramryder.VmManager.Running.{Stops, vm_mngr_instance_stop-Stops}
use ramryder.VmManager.Reachable.{Reach, next, stops, Reach-initial-IsValid}
use ramryder.VmManager.Invariant.{empty_table}
use ramryder.VmManager.ForEach.{each_from, vm_mngr_for_each_vm_running}
use ramryder.ResourceManager.Shutdown.{vm_stop}
use ramryder.ResourceManager.Shutdown.Slots.{IsClear, IsClear-suc, IsClear-done, read-done}

module _ (kernel : Kernel) (p : Pool) (v : Invariant.IsValid p) where
  abbrev pub Runs : ℕ → Manager → Type 0
  Runs i s = Reach (initial p) s × IsClear (λ vm. vm.running) i s.vms

  stopped-Runs :
      (s t : Manager) (i : ℕ) (vm : VmInstance) (ret : ℤ)
      → Runs i s
      → get_elem? s.vms i ≡ some vm
      → vm.initialized ≡ true
      → vm.running ≡ true
      → vm_mngr_instance_stop kernel s vm.vm_id ≡ done (ret, t)
      → Stops s vm.vm_id ret t
      → Runs (i + 1) t
  stopped-Runs s t i vm ret (r, c) e up on run (inl (gone, _, _)) =
      absurd (get_instance-none vm.vm_id s.vms i vm gone (e, refl, up))
  stopped-Runs s t i vm ret (r, c) e up on run (inr (j, w, q, _, inl (off, _))) =
      let valid = Reach-initial-IsValid p s v r in
      let same : j ≡ i = valid.distinct j i w vm q.0 e q.2 up q.1 in
      let one : w ≡ vm = cc (q.0) in absurd (cc)
  stopped-Runs s t i vm ret (r, c) e up on run (inr (j, w, q, _, inr (perf, agents, _, out))) =
      let valid = Reach-initial-IsValid p s v r in
      let same : j ≡ i = valid.distinct j i w vm q.0 e q.2 up q.1 in
      (
        next r (stops kernel vm.vm_id ret run),
        rw (out, same) (IsClear-done (λ x. x.running) s.vms i vm _ e refl c),
      )

  -- One round of the loop, by what it finds.
  round-Runs :
      (s t : Manager) (i : ℕ) (vm : VmInstance)
      → Runs i s
      → get_elem? s.vms i ≡ some vm
      → (if vm.initialized && vm.running then vm_stop kernel vm s else done s) ≡ done t
      → Runs (i + 1) t
  unfolding vm_stop
  round-Runs s t i vm (r, c) e run = elim (Bool-cases (vm.initialized && vm.running)) [
    | inr off ↦
        let same : s ≡ t = ground (arith, off, run) in
        let rests = (Reach-initial-IsValid p s v r).resting i vm e in
        let still : vm.running ≡ false = quiet vm.initialized vm.running off rests in
        rw (← same) (r, IsClear-suc (λ x. x.running) s.vms i vm e still c)
    | inl on ↦
        let (res, stop, out) =
          >>=-eq-done (vm_mngr_instance_stop kernel s vm.vm_id) (λ r. done r.1) (rw on at run) in
        let same : res.1 ≡ t = ground (arith, out) in
        let (up, go) = both vm.initialized vm.running on in
        rw (← same) (
          stopped-Runs s res.1 i vm res.0 (r, c) e up go stop
            (vm_mngr_instance_stop-Stops kernel s res.1 vm.vm_id res.0 stop))
  ]
    where
      quiet : (a b : Bool) → (a && b) ≡ false → (a ≡ false → b ≡ false) → b ≡ false
      quiet true b e f = e
      quiet false b e f = f refl

      both : (a b : Bool) → (a && b) ≡ true → (a ≡ true) × (b ≡ true)
      both true b e = (refl, e)
      both false b e = absurd (cc)

  each_from-Runs :
      (left i : ℕ) (s t : Manager)
      → i + left ≡ max_num_vm
      → Runs i s
      → each_from (λ vm. vm.initialized && vm.running) (vm_stop kernel) i left s ≡ done t
      → Runs max_num_vm t
  unfolding each_from
  each_from-Runs zero i s t h r e =
      let n : i ≡ max_num_vm = omega (arith, h) in let same : s ≡ t = cc in rw (← same) (rw n at r)
  each_from-Runs (suc left) i s t h r e =
      let (vm, slot, e1) = >>=-eq-done (read s.vms i) _ e in
      let at_i = read-done s.vms i vm slot in
      let (u, ran, e2) =
        >>=-eq-done (if vm.initialized && vm.running then vm_stop kernel vm s else done s) _ e1 in
      each_from-Runs left (i + 1) u t (omega (arith, h)) (round-Runs s u i vm r at_i ran) e2

  pub stop_phase-Runs :
      (s t : Manager)
      → Reach (initial p) s
      → vm_mngr_for_each_vm_running (vm_stop kernel) s ≡ done t
      → Runs max_num_vm t
  unfolding vm_mngr_for_each_vm_running
  stop_phase-Runs s t r e = elim (Bool-cases (s.count ==ℤ pos 0)) [
    | inr some_vms ↦
        each_from-Runs max_num_vm 0 s t refl (r, λ j w lt ew. absurd (omega arith))
          (rw some_vms at e)
    | inl none_there ↦
        let same : s ≡ t = ground (arith, none_there, e) in
        rw (← same) (
          r,
          λ j w lt ew.
              (Reach-initial-IsValid p s v r).resting j w ew
                (empty_table s (Reach-initial-IsValid p s v r) none_there j w ew),
        )
  ]
