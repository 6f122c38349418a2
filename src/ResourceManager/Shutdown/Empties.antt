-- ===== src/ResourceManager/Shutdown/Empties.antt =====
-- What the shutdown leaves.
use ramryder.Prelude.{
  ap, ℕ, ◌≡◌, refl, false, none, some, arith, pos, Option-cases, inl, inr, ◌∙◌, done, get_elem?,
  get_elem?-lt,
}
use ramryder.MemoryPool.Pool.{Pool}
use ramryder.MemoryPool.Pool.Owner.{owner}
use ramryder.MemoryPool.Pool.Invariant
use ramryder.VmManager.{VmInstance, Manager, Kernel, initial}
use ramryder.VmManager.Reachable.{Reach, Reach-initial-IsValid}
use ramryder.VmManager.Accounting.Requests.{Reach-initial-IsAccounted}
use ramryder.VmManager.ForEach.{vm_mngr_for_each_vm_running}
use ramryder.ResourceManager.Shutdown.{vm_stop, handle_signal}
use ramryder.ResourceManager.Shutdown.Slots.{in_use-clear}
use ramryder.ResourceManager.Shutdown.Stopping.{stop_phase-Runs}
use ramryder.ResourceManager.Shutdown.Destroying.{destroy_phase-Leaves}

-- A state that requests and updates of the counters have reached from the start of the program on, with a valid pool of which no
-- segment was in use: once the running machines have been stopped, the shutdown ends, and it leaves no
-- machine that is registered or runs, a count of 0 and no segment that is in use.
pub handle_signal-Empties :
    (kernel : Kernel) (p : Pool) (s t : Manager)
    → Invariant.IsValid p
    → ((j k : ℕ) → owner p j k ≡ none)
    → Reach (initial p) s
    → vm_mngr_for_each_vm_running (vm_stop kernel) s ≡ done t
    → (u : Manager) × (handle_signal kernel s ≡ done u)
      × (u.count ≡ pos 0)
      × ((j : ℕ) (w : VmInstance)
          → get_elem? u.vms j ≡ some w
          → (w.initialized ≡ false) × (w.running ≡ false))
      × ((j k : ℕ) → owner u.pool j k ≡ none)
unfolding handle_signal
handle_signal-Empties kernel p s t v unused r run =
    let (u, ended, (reach, still, gone)) =
      destroy_phase-Leaves kernel p v t (stop_phase-Runs kernel p v s t r run) in
    let valid = Reach-initial-IsValid p u v reach in
    let accounted = Reach-initial-IsAccounted p u v unused reach in
    let clear : (j : ℕ) (w : VmInstance) → get_elem? u.vms j ≡ some w → w.initialized ≡ false =
      λ j w e. gone j w (omega (arith, valid.slots, get_elem?-lt u.vms j e)) e in
    (
      u,
      rw (run, ended) refl,
      valid.counted ∙ ap pos (in_use-clear u.vms clear),
      λ j w e. (clear j w e, valid.resting j w e (clear j w e)),
      λ j k. elim (Option-cases (owner u.pool j k)) [
        | inl free ↦ free
        | inr (id, e) ↦ let (i, w, q) = accounted.owned j k id e in absurd (cc (clear i w q.0, q.2))
      ],
    )
