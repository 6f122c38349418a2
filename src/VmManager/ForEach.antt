-- ===== src/VmManager/ForEach.antt =====
-- src/vm_manager.c, `vm_mngr_for_each_vm` and `vm_mngr_for_each_vm_running`. A handler may change the
-- state, and the loop reads each slot when it comes to it.
use ramryder.Prelude.{
  ◌∙◌, >>=-done, read-eq, ◌≡◌, some, get_elem?, ℕ, zero, suc, ◌+◌, Bool, ◌&&◌, pos, ◌==ℤ◌,
  if◌then◌else◌, Exec, done, ◌>>=◌, read,
}
use ramryder.GuestAgent.{max_num_vm}
use ramryder.VmManager.{VmInstance, Manager}

-- `left` slots are to go, from slot `i` on.
unfoldable pub each_from :
    (VmInstance → Bool) → (VmInstance → Manager → Exec Manager) → ℕ → ℕ → Manager → Exec Manager
each_from picks handler i zero s = done s
each_from picks handler i (suc left) s = read s.vms i >>= λ vm.
    (if picks vm then handler vm s else done s) >>= λ t. each_from picks handler (i + 1) left t

unfoldable pub vm_mngr_for_each_vm : (VmInstance → Manager → Exec Manager) → Manager → Exec Manager
vm_mngr_for_each_vm handler s =
    if s.count ==ℤ pos 0 then done s else each_from (λ vm. vm.initialized) handler 0 max_num_vm s

unfoldable pub vm_mngr_for_each_vm_running :
    (VmInstance → Manager → Exec Manager) → Manager → Exec Manager
vm_mngr_for_each_vm_running handler s =
    if s.count ==ℤ pos 0
    then done s
    else each_from (λ vm. vm.initialized && vm.running) handler 0 max_num_vm s

-- A round of the loop and what follows it.
pub each_from-suc :
    (picks : VmInstance → Bool) (handler : VmInstance → Manager → Exec Manager) (i left : ℕ)
    (s t u : Manager) (vm : VmInstance)
    → get_elem? s.vms i ≡ some vm
    → (if picks vm then handler vm s else done s) ≡ done t
    → each_from picks handler (i + 1) left t ≡ done u
    → each_from picks handler i (suc left) s ≡ done u
unfolding each_from
each_from-suc picks handler i left s t u vm e run rest =
    >>=-done (read s.vms i) _ (read-eq s.vms i e)
    ∙ >>=-done (if picks vm then handler vm s else done s) _ run
    ∙ rest
