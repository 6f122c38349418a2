-- ===== src/VmManager/Serviced/Calls.antt =====
-- `vm_mngr_instance_start` and `_stop` of a manager whose machines are serviced.
use ramryder.Prelude.{
  ℕ, ◌<◌, ◌≡◌, ◌⊎◌, Bool, refl, true, false, not, none, arith, ℤ, pos, negsuc, ltb_ℤ, ltb,
  Bool-cases, Option-cases, inl, inr, done, bug_on, same_state, minus_one, stop_if, >>=-eq-done,
}
use ramryder.GuestAgent.{Agents, SocketKernel, max_num_vm, guest_agent_init, guest_agent_cleanup}
use ramryder.GuestAgent.Connections
use ramryder.GuestAgent.Connections.{
  IsSwitched, guest_agent_init-Connects, guest_agent_init-overruns, guest_agent_cleanup-Disconnects,
}
use ramryder.PerfCounter.{Perf, PerfKernel, IsReliable, perf_setup, perf_teardown}
use ramryder.PerfCounter.Setup.{IsReady, perf_setup-IsReady}
use ramryder.PerfCounter.Teardown.{perf_teardown-Drains}
use ramryder.VmManager.{
  VmInstance, Manager, Kernel, vm_mngr_get_instance, finish_start, start_vm, vm_mngr_instance_start,
  stop_vm, vm_mngr_instance_stop,
}
use ramryder.VmManager.Table.{IsRegistered, get_instance-some}
use ramryder.VmManager.Running.{switched}
use ramryder.VmManager.Serviced.{IsServiced, HasCores}
use ramryder.VmManager.Serviced.Switching.{IsSwitch}

-- A call that came back from `guest_agent_init` had a number within the table.
in_range :
    (kernel : SocketKernel) (s : Agents) (vm_id : ℤ) (r : ℤ × Agents)
    → Connections.IsValid s
    → guest_agent_init kernel s vm_id ≡ done r
    → (n : ℕ) × (vm_id ≡ pos n) × n < max_num_vm
in_range kernel s (pos n) r v e = elim (Bool-cases (ltb n max_num_vm)) [
  | inl lt ↦ (n, refl, ground arith)
  | inr ge ↦ absurd (cc (e, guest_agent_init-overruns kernel s (pos n) v (inr (ground arith))))
]
in_range kernel s (negsuc n) r v e =
    absurd (cc (e, guest_agent_init-overruns kernel s (negsuc n) v (inl (ground arith))))

pub IsSwitch-of :
    (s s' : Manager) (on : Bool) (i : ℕ) (vm : VmInstance) (n : ℕ) (perf : Perf) (agents : Agents)
    → IsRegistered s.vms (pos n) i vm
    → n < max_num_vm
    → Connections.IsValid agents
    → IsSwitched n on s.agents agents
    → (on ≡ true → IsReady vm.num_cores perf)
    → s' ≡ switched s i vm on perf agents
    → IsSwitch s i on s'
IsSwitch-of s s' on i vm n perf agents r lt v sw ready after = record {
  vm = vm;
  n = n;
  perf = perf;
  agents = agents;
  registered = r;
  in_table = lt;
  agents_valid = v;
  connection = sw;
  ready = ready;
  after = after;
}

-- What the guest agent's answer says, for a machine with the number `n`.
answers :
    (kernel : SocketKernel) (s : Agents) (n : ℕ) (ret : ℤ) (a : Agents)
    → Connections.IsValid s
    → n < max_num_vm
    → guest_agent_init kernel s (pos n) ≡ done (ret, a)
    → (Connections.IsValid a)
      × (((ret ≡ pos 0) × IsSwitched n true s a) ⊎ ((ret ≡ minus_one) × IsSwitched n false s a))
answers kernel s n ret a v lt e =
    let (b, valid, outcome) = guest_agent_init-Connects kernel s n v lt in
    elim outcome [
      | inl (f, sw) ↦
          let same = same_state _ ret (pos 0) a b e f in
          let zero_ret : ret ≡ pos 0 = cc in (rw same valid, inl (zero_ret, rw same sw))
      | inr (f, sw, _) ↦
          let same = same_state _ ret minus_one a b e f in
          let one_ret : ret ≡ minus_one = cc in (rw same valid, inr (one_ret, rw same sw))
    ]

finish_on :
    (kernel : Kernel) (s : Manager) (i : ℕ) (vm : VmInstance) (perf : Perf) (agents : Agents)
    (ret : ℤ) (s' : Manager)
    → finish_start kernel (record s { agents = agents }) i (record vm { perf = perf }) (pos 0)
      ≡ done (ret, s')
    → (ret ≡ pos 0) × (s' ≡ switched s i vm true perf agents)
unfolding finish_start
finish_on kernel s i vm perf agents ret s' e = (ground arith, ground arith)

finish_off :
    (kernel : Kernel) (s : Manager) (i : ℕ) (vm : VmInstance) (perf : Perf) (agents : Agents)
    (answer ret : ℤ) (s' : Manager)
    → ltb_ℤ answer (pos 0) ≡ true
    → vm.running ≡ false
    → finish_start kernel (record s { agents = agents }) i (record vm { perf = perf }) answer
      ≡ done (ret, s')
    → (ret ≡ minus_one) × ((perf' : Perf) × (s' ≡ switched s i vm false perf' agents))
unfolding finish_start
finish_off kernel s i vm perf agents answer ret s' failed still e =
    let (perf', _, out) =
      >>=-eq-done (perf_teardown kernel.perf_kernel vm.num_cores perf) _ (rw failed at e) in
    (ground arith, (perf', ground arith))

perf_setup-ready :
    (kernel : PerfKernel) (vm : VmInstance) (perf : Perf)
    → HasCores vm
    → perf_setup kernel vm.core_set vm.num_cores ≡ done perf
    → IsReady vm.num_cores perf
perf_setup-ready kernel vm perf (ne, num) e =
    elim (perf_setup-IsReady kernel vm.core_set vm.num_cores ne num) [
      | inl (stopped, _) ↦ absurd (cc)
      | inr (q, f, ready, _) ↦ let same : q ≡ perf = cc in rw same at ready
    ]

-- A start of a machine that did not run, by what it comes to.
start_vm-IsSwitch :
    (kernel : Kernel) (s s' : Manager) (vm_id ret : ℤ) (i : ℕ) (vm : VmInstance)
    → IsServiced s
    → IsRegistered s.vms vm_id i vm
    → vm.running ≡ false
    → start_vm kernel s vm_id i vm ≡ done (ret, s')
    → ((ret ≡ pos 0) × IsSwitch s i true s') ⊎ ((ret ≡ minus_one) × IsSwitch s i false s')
unfolding start_vm
start_vm-IsSwitch kernel s s' vm_id ret i vm h r still e =
    let (_, _, e1) = >>=-eq-done (stop_if (not vm.initialized) bug_on) _ e in
    let (perf, set_up, e2) =
      >>=-eq-done (perf_setup kernel.perf_kernel vm.core_set vm.num_cores) _ e1 in
    let (a, answered, e3) = >>=-eq-done (guest_agent_init kernel.sockets s.agents vm_id) _ e2 in
    let (n, id, lt) = in_range kernel.sockets s.agents vm_id a h.agents_valid answered in
    let (valid, outcome) =
      answers kernel.sockets s.agents n a.0 a.1 h.agents_valid lt (rw id at answered) in
    let known : IsRegistered s.vms (pos n) i vm = rw id at r in
    elim outcome [
      | inl (good, sw) ↦
          let (gives, after) = finish_on kernel s i vm perf a.1 ret s' (rw good at e3) in
          let ready = perf_setup-ready kernel.perf_kernel vm perf (h.cores i vm r.0 r.2) set_up in
          inl (gives, IsSwitch-of s s' true i vm n perf a.1 known lt valid sw (λ _. ready) after)
      | inr (bad, sw) ↦
          let (gives, (perf', after)) =
            finish_off kernel s i vm perf a.1 a.0 ret s' (ground (arith, bad)) still e3 in
          inr (
            gives,
            IsSwitch-of s s' false i vm n perf' a.1 known lt valid sw (λ no. absurd (cc)) after,
          )
    ]

-- How a call that may switch a machine ends: it changed nothing, or it switched one.
abbrev pub Switches : Manager → Manager → Type 0
Switches s s' = (s' ≡ s) ⊎ ((i : ℕ) × (IsSwitch s i true s' ⊎ IsSwitch s i false s'))

pub vm_mngr_instance_start-Switches :
    (kernel : Kernel) (s s' : Manager) (vm_id ret : ℤ)
    → IsServiced s
    → vm_mngr_instance_start kernel s vm_id ≡ done (ret, s')
    → Switches s s'
unfolding vm_mngr_instance_start
vm_mngr_instance_start-Switches kernel s s' vm_id ret h e =
    elim (Option-cases (vm_mngr_get_instance vm_id s.vms)) [
      | inl gone ↦ inl (ground arith)
      | inr (i, there) ↦
          let (vm, r) = get_instance-some vm_id s.vms i there in
          elim (Bool-cases vm.running) [
            | inl up ↦ inl (ground (arith, r.0))
            | inr down ↦
                elim (start_vm-IsSwitch kernel s s' vm_id ret i vm h r down (ground (arith, r.0))) [
                  | inl (_, w) ↦ inr (i, inl w)
                  | inr (_, w) ↦ inr (i, inr w)
                ]
          ]
    ]

-- A stop of a registered machine that runs goes through, when the descriptors can be read and closed.
stop_vm-IsSwitch :
    (kernel : Kernel) (s : Manager) (vm_id : ℤ) (i : ℕ) (vm : VmInstance)
    → IsReliable kernel.perf_kernel
    → IsServiced s
    → IsRegistered s.vms vm_id i vm
    → vm.running ≡ true
    → (s' : Manager) × (stop_vm kernel s i vm ≡ done (pos 0, s')) × IsSwitch s i false s'
unfolding stop_vm
stop_vm-IsSwitch kernel s vm_id i vm k h r up =
    let (ready, (n, id, lt, _)) = h.served i vm r.0 up in
    let (agents, cleaned, valid, sw) =
      guest_agent_cleanup-Disconnects s.agents n h.agents_valid lt in
    let (perf, freed, _, torn, _, _) =
      perf_teardown-Drains kernel.perf_kernel k vm.num_cores vm.perf ready in
    let known : IsRegistered s.vms (pos n) i vm = (r.0, id, r.2) in
    (
      switched s i vm false (record perf { event_fds = freed }) agents,
      ground (arith, id, cleaned, torn),
      IsSwitch-of s _ false i vm n _ agents known lt valid sw (λ no. absurd (cc)) refl,
    )

stopped-IsSwitch :
    (kernel : Kernel) (s s' : Manager) (vm_id ret : ℤ) (i : ℕ) (vm : VmInstance)
    → IsServiced s
    → IsRegistered s.vms vm_id i vm
    → vm.running ≡ true
    → stop_vm kernel s i vm ≡ done (ret, s')
    → IsSwitch s i false s'
unfolding stop_vm
stopped-IsSwitch kernel s s' vm_id ret i vm h r up e =
    let (_, (n, id, lt, _)) = h.served i vm r.0 up in
    let (agents, cleaned, valid, sw) =
      guest_agent_cleanup-Disconnects s.agents n h.agents_valid lt in
    let (a, cleaned', e1) = >>=-eq-done (guest_agent_cleanup s.agents vm.vm_id) _ e in
    let (perf, _, e2) = >>=-eq-done (perf_teardown kernel.perf_kernel vm.num_cores vm.perf) _ e1 in
    let one : agents ≡ a = cc in
    let known : IsRegistered s.vms (pos n) i vm = (r.0, id, r.2) in
    IsSwitch-of s s' false i vm n perf a known lt (rw one at valid) (rw one at sw)
      (λ no. absurd (cc)) (ground arith)

pub vm_mngr_instance_stop-Switches :
    (kernel : Kernel) (s s' : Manager) (vm_id ret : ℤ)
    → IsServiced s
    → vm_mngr_instance_stop kernel s vm_id ≡ done (ret, s')
    → Switches s s'
unfolding vm_mngr_instance_stop
vm_mngr_instance_stop-Switches kernel s s' vm_id ret h e =
    elim (Option-cases (vm_mngr_get_instance vm_id s.vms)) [
      | inl gone ↦ inl (ground arith)
      | inr (i, there) ↦
          let (vm, r) = get_instance-some vm_id s.vms i there in
          elim (Bool-cases vm.running) [
            | inl up ↦
                inr (
                  i,
                  inr (stopped-IsSwitch kernel s s' vm_id ret i vm h r up (ground (arith, r.0))),
                )
            | inr down ↦ inl (ground (arith, r.0))
          ]
    ]

-- In a manager whose machines are serviced, with descriptors that can be read and closed, a
-- stop always returns. It returns -1 and changes nothing if the id is not registered, and 0 if it is: it
-- changes nothing if the machine in a slot under this id does not run, and if it runs, just this machine
-- is switched off, with its counters and its connection.
pub vm_mngr_instance_stop-ends :
    (kernel : Kernel) (s : Manager) (vm_id : ℤ)
    → IsReliable kernel.perf_kernel
    → IsServiced s
    → (s' : Manager) × (((vm_mngr_get_instance vm_id s.vms ≡ none)
          × (vm_mngr_instance_stop kernel s vm_id ≡ done (minus_one, s'))
          × (s' ≡ s))
        ⊎ ((vm_mngr_instance_stop kernel s vm_id ≡ done (pos 0, s'))
            × ((i : ℕ) × (vm : VmInstance) × IsRegistered s.vms vm_id i vm
                × (((vm.running ≡ false) × (s' ≡ s))
                    ⊎ ((vm.running ≡ true) × IsSwitch s i false s')))))
unfolding vm_mngr_instance_stop
vm_mngr_instance_stop-ends kernel s vm_id k h =
    elim (Option-cases (vm_mngr_get_instance vm_id s.vms)) [
      | inl gone ↦ (s, inl (gone, ground arith, refl))
      | inr (i, there) ↦
          let (vm, r) = get_instance-some vm_id s.vms i there in
          elim (Bool-cases vm.running) [
            | inl up ↦
                let (s', run, w) = stop_vm-IsSwitch kernel s vm_id i vm k h r up in
                (s', inr (ground (arith, r.0, run), (i, vm, r, inr (up, w))))
            | inr down ↦ (s, inr (ground (arith, r.0), (i, vm, r, inl (down, refl))))
          ]
    ]
