-- ===== src/ResourceManager/Shutdown.antt =====
-- src/resource_manager.c, what `handle_signal` does to the manager. The server and the monitor are
-- stopped before that.
pub mod Slots
pub mod Stopping
pub mod Destroying
pub mod Empties
pub mod Ending
use ramryder.Prelude.{
  ap, ℕ, zero, suc, ◌+◌, ◌≡◌, ◌≢◌, ◌<◌, ◌⊎◌, refl, true, false, Bool, none, some, Option, arith, ℤ,
  pos, ◌&&◌, ◌==ℤ◌, ==ℤ_iff, if◌then◌else◌, ltb, Bool-cases, Option-cases, inl, inr, sym, ◌∙◌, Exec,
  done, ◌>>=◌, >>=-eq-done, get_elem?, get_elem?-total, get_elem?-lt, set, get_elem?-set, read,
  length, List, [], ◌∷◌, ◌==◌,
}
use ramryder.GuestAgent.{max_num_vm}
use ramryder.MemoryPool.Pool.{Pool}
use ramryder.MemoryPool.Pool.Owner.{owner}
use ramryder.MemoryPool.Pool.Invariant
use ramryder.VmManager.{
  VmInstance, Manager, Kernel, initial, vm_mngr_get_instance, vm_mngr_instance_destroy,
  vm_mngr_instance_stop,
}
use ramryder.VmManager.Table.{IsRegistered, get_instance-some, get_instance-none, in_use}
use ramryder.VmManager.Invariant.{IsValid}
use ramryder.VmManager.Running.{Stops, switched, vm_mngr_instance_stop-Stops}
use ramryder.VmManager.Lifecycle.{destroyed, vm_mngr_instance_destroy_lem}
use ramryder.VmManager.Reachable.{Reach, Step, here, next, stops, destroys, Reach-initial-IsValid}
use ramryder.VmManager.Accounting.{IsAccounted, HasVm}
use ramryder.VmManager.Accounting.Requests.{Reach-initial-IsAccounted}
use ramryder.VmManager.ForEach.{
  each_from, each_from-suc, vm_mngr_for_each_vm, vm_mngr_for_each_vm_running,
}

-- `__vm_stop` and `__vm_destroy`
pub vm_stop : Kernel → VmInstance → Manager → Exec Manager
vm_stop kernel vm s = vm_mngr_instance_stop kernel s vm.vm_id >>= λ r. done r.1

pub vm_destroy : VmInstance → Manager → Exec Manager
vm_destroy vm s = vm_mngr_instance_destroy s vm.vm_id >>= λ r. done r.1

pub handle_signal : Kernel → Manager → Exec Manager
handle_signal kernel s =
    vm_mngr_for_each_vm_running (vm_stop kernel) s >>= λ t. vm_mngr_for_each_vm vm_destroy t
