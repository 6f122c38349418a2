-- ===== src/VmManager/Serviced/Starting.antt =====
-- A start of a registered machine goes through when the kernel opens, reads and closes the perf events.
use ramryder.Prelude.{
  ℕ, ◌<◌, ◌≡◌, ◌≢◌, ◌⊎◌, refl, true, false, some, arith, ℤ, pos, minus_one, ltb_ℤ, inl, inr,
  get_elem?, done,
}
use ramryder.CoreSet.{core_list}
use ramryder.GuestAgent.{Agents, max_num_vm, agent_path, connect_to_socket}
use ramryder.GuestAgent.Connections.{guest_agent_init-Connects}
use ramryder.PerfCounter.{Perf, PerfKernel, IsReliable, perf_setup, perf_teardown}
use ramryder.PerfCounter.Setup.{IsReady, IsRefused, perf_setup-IsReady}
use ramryder.PerfCounter.Teardown.{perf_teardown-Drains}
use ramryder.VmManager.{
  VmInstance, Manager, Kernel, vm_mngr_get_instance, finish_start, start_vm, vm_mngr_instance_start,
}
use ramryder.VmManager.Table.{IsRegistered-at}
use ramryder.VmManager.Running.{switched}
use ramryder.VmManager.Serviced.{IsServiced, HasCores}
use ramryder.VmManager.Serviced.Switching.{IsSwitch}
use ramryder.VmManager.Serviced.Calls.{IsSwitch-of}

-- The kernel opens every event, and every descriptor can be read and closed.
pub record IsWilling (kernel : PerfKernel) : Type 0 where
  pub opens : (core : ℤ) (j : ℕ) → ltb_ℤ (kernel.event_open core j) (pos 0) ≡ false
  pub reliable : IsReliable kernel

-- The core set of a machine names cores.
pub record NamesCores (vm : VmInstance) : Type 0 where
  pub some_core : vm.num_cores ≢ 0
  pub cores :
      (i : ℕ) (core : ℤ)
      → get_elem? (core_list vm.core_set) i ≡ some core
      → ltb_ℤ core (pos 0) ≡ false

not-IsRefused :
    (kernel : PerfKernel) (vm : VmInstance)
    → IsWilling kernel
    → NamesCores vm
    → ¬ IsRefused kernel (core_list vm.core_set)
not-IsRefused kernel vm k c (i, core, e, inl negative) = absurd (cc (c.cores i core e))
not-IsRefused kernel vm k c (i, core, e, inr (j, refused)) = absurd (cc (k.opens core j))

setup-runs :
    (kernel : PerfKernel) (vm : VmInstance)
    → IsWilling kernel
    → NamesCores vm
    → HasCores vm
    → (perf : Perf) × (perf_setup kernel vm.core_set vm.num_cores ≡ done perf)
      × IsReady vm.num_cores perf
setup-runs kernel vm k c (ne, num) =
    elim (perf_setup-IsReady kernel vm.core_set vm.num_cores ne num) [
      | inr (perf, run, ready, _) ↦ (perf, run, ready)
      | inl (_, inl nobody) ↦ absurd (c.some_core nobody)
      | inl (_, inr refused) ↦ absurd (not-IsRefused kernel vm k c refused)
    ]

finish_on :
    (kernel : Kernel) (s : Manager) (i : ℕ) (vm : VmInstance) (perf : Perf) (agents : Agents)
    → finish_start kernel (record s { agents = agents }) i (record vm { perf = perf }) (pos 0)
      ≡ done (pos 0, switched s i vm true perf agents)
unfolding finish_start
finish_on kernel s i vm perf agents = ground arith

finish_off :
    (kernel : Kernel) (s : Manager) (i : ℕ) (vm : VmInstance) (perf perf' : Perf) (agents : Agents)
    → vm.running ≡ false
    → perf_teardown kernel.perf_kernel vm.num_cores perf ≡ done perf'
    → finish_start kernel (record s { agents = agents }) i (record vm { perf = perf }) minus_one
      ≡ done (minus_one, switched s i vm false perf' agents)
unfolding finish_start
finish_off kernel s i vm perf perf' agents still e = ground (arith, e, still)

-- A start of a registered machine that does not run, with a number below `max_num_vm` and a core set
-- that names cores, in a manager whose machines are serviced and on a kernel that opens, reads and closes
-- the perf events, always returns. It returns 0 and just this machine is switched on, with its connection
-- and its counters; or it returns -1 and this machine does not run and has no connection, the others are
-- as they were, and then connecting to the socket of its guest agent has failed.
pub vm_mngr_instance_start-ends :
    (kernel : Kernel) (s : Manager) (n i : ℕ) (vm : VmInstance)
    → IsWilling kernel.perf_kernel
    → IsServiced s
    → vm_mngr_get_instance (pos n) s.vms ≡ some i
    → get_elem? s.vms i ≡ some vm
    → vm.running ≡ false
    → n < max_num_vm
    → NamesCores vm
    → (s' : Manager) × (((vm_mngr_instance_start kernel s (pos n) ≡ done (pos 0, s'))
          × IsSwitch s i true s')
        ⊎ ((vm_mngr_instance_start kernel s (pos n) ≡ done (minus_one, s'))
            × IsSwitch s i false s'
            × (ltb_ℤ (connect_to_socket kernel.sockets (agent_path (pos n))) (pos 0) ≡ true)))
unfolding vm_mngr_instance_start start_vm
vm_mngr_instance_start-ends kernel s n i vm k h found e still lt c =
    let r = IsRegistered-at s (pos n) i vm found e in
    let (perf, set_up, ready) = setup-runs kernel.perf_kernel vm k c (h.cores i vm e r.2) in
    let (agents, valid, outcome) =
      guest_agent_init-Connects kernel.sockets s.agents n h.agents_valid lt in
    elim outcome [
      | inl (answered, sw) ↦ (
        switched s i vm true perf agents,
        inl (
          ground (arith, found, e, r.2, set_up, answered, finish_on kernel s i vm perf agents),
          IsSwitch-of s _ true i vm n perf agents r lt valid sw (λ _. ready) refl,
        ),
      )
      | inr (answered, sw, unreachable) ↦
          let (perf', freed, _, torn, _, _) =
            perf_teardown-Drains kernel.perf_kernel k.reliable vm.num_cores perf ready in
          let off = record perf' { event_fds = freed } in
          (
            switched s i vm false off agents,
            inr (
              ground (
                arith,
                found,
                e,
                r.2,
                set_up,
                answered,
                finish_off kernel s i vm perf off agents still torn,
              ),
              IsSwitch-of s _ false i vm n off agents r lt valid sw (λ no. absurd (cc)) refl,
              unreachable,
            ),
          )
    ]
