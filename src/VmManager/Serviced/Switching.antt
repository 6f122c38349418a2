-- ===== src/VmManager/Serviced/Switching.antt =====
-- `vm_mngr_instance_start` and `_stop` with the counters and the connection of the machine.
use mathlib.Core.Path.{subst}
use ramryder.Prelude.{
  set-cases, ℕ, ◌<◌, ◌≡◌, ◌≢◌, sym, ap, ◌∙◌, true, Bool, List, some, arith, pos, ◌==◌, Bool-cases,
  inl, inr, length, get_elem?, get_elem?-lt, set, get_elem?-set, get_elem?-set_self,
}
use ramryder.GuestAgent.{Agents, max_num_vm}
use ramryder.GuestAgent.Connections
use ramryder.GuestAgent.Connections.{
  IsSwitched, guest_agent_init-Connects, guest_agent_init-overruns, guest_agent_cleanup-Disconnects,
}
use ramryder.PerfCounter.{Perf}
use ramryder.PerfCounter.Setup.{IsReady}
use ramryder.VmManager.{VmInstance, Manager}
use ramryder.VmManager.Table.{IsRegistered}
use ramryder.VmManager.Invariant.{IsValid}
use ramryder.VmManager.Memory.{other_id}
use ramryder.VmManager.Running.{switched}
use ramryder.VmManager.Serviced.{IsServiced, IsServed, IsRunning, IsConnected, HasCores}

-- The machine in slot `slot`, with the number `n`, was switched on or off, together with its counters and its connection.
pub record IsSwitch (s : Manager) (slot : ℕ) (on : Bool) (s' : Manager) : Type 0 where
  pub vm : VmInstance
  pub n : ℕ
  pub perf : Perf
  pub agents : Agents
  pub registered : IsRegistered s.vms (pos n) slot vm
  pub in_table : n < max_num_vm
  pub agents_valid : Connections.IsValid agents
  pub connection : IsSwitched n on s.agents agents
  pub ready : on ≡ true → IsReady vm.num_cores perf
  pub after : s' ≡ switched s slot vm on perf agents

-- A machine that runs is registered.
running-registered :
    (s : Manager) (i : ℕ) (v : VmInstance)
    → IsValid s
    → get_elem? s.vms i ≡ some v
    → v.running ≡ true
    → v.initialized ≡ true
running-registered s i v valid e on = elim (Bool-cases v.initialized) [
  | inl up ↦ up
  | inr off ↦ absurd (cc (valid.resting i v e off))
]

IsConnected-other :
    (n k : ℕ) (on : Bool) (a b : Agents)
    → IsSwitched n on a b
    → k ≢ n
    → IsConnected a k
    → IsConnected b k
IsConnected-other n k on a b sw ne (g, e, up) = (g, sw.others k ne ∙ e, up)

module _ (s : Manager) (slot : ℕ) (on : Bool) (s' : Manager) (v : IsValid s) (h : IsServiced s)
    (w : IsSwitch s slot on s') where
  open w use {vm, n, perf, agents, registered, connection}

  abbrev switched_vm : VmInstance
  switched_vm = record vm { running = on; perf = perf }

  other_number :
      (j m : ℕ) (x : VmInstance)
      → slot ≢ j
      → get_elem? s.vms j ≡ some x
      → x.initialized ≡ true
      → x.vm_id ≡ pos m
      → m ≢ n
  other_number j m x ne ex up id same =
      other_id s (pos n) slot j vm x v registered ne ex up (id ∙ ap pos same ∙ sym registered.1)

  own-IsServed : switched_vm.running ≡ true → IsServed agents switched_vm
  own-IsServed up =
      let (a, ea, ia) = connection.entry in
      (w.ready up, (n, registered.1, w.in_table, (a, ea, ia ∙ up)))

  other-IsServed :
      (j : ℕ) (x : VmInstance)
      → slot ≢ j
      → get_elem? s.vms j ≡ some x
      → x.running ≡ true
      → IsServed agents x
  other-IsServed j x ne ex up =
      let (r, (m, id, lt, c)) = h.served j x ex up in
      let far = other_number j m x ne ex (running-registered s j x v ex up) id in
      (r, (m, id, lt, IsConnected-other n m on s.agents agents connection far c))

  other_slot :
      (m i : ℕ) (x : VmInstance) → m ≢ n → get_elem? s.vms i ≡ some x → x.vm_id ≡ pos m → slot ≢ i
  other_slot m i x far ex id same =
      let one : vm ≡ x = cc (registered.0) in
      let ids : pos n ≡ pos m = cc (registered.1) in far (ground (arith, ids))

  abbrev slots_after : List VmInstance
  slots_after = set s.vms slot switched_vm

  still_runs :
      (m : ℕ) → IsConnected agents m → (i : ℕ) × (x : VmInstance) × IsRunning slots_after m i x
  still_runs m (a, ea, up) = elim (Bool-cases (m == n)) [
    | inl same ↦
        let mn : m ≡ n = ground arith in
        let (b, eb, ib) = connection.entry in
        let one : a ≡ b = cc in
        (
          slot,
          switched_vm,
          (
            get_elem?-set_self s.vms slot registered.0,
            registered.1 ∙ ap pos (sym mn),
            registered.2,
            cc,
          ),
        )
    | inr differs ↦
        let far : m ≢ n = ground arith in
        let (i, x, (ex, id, on_then, goes)) =
          h.runs m (a, sym (connection.others m far) ∙ ea, up) in
        let apart : slot ≢ i = other_slot m i x far ex id in
        (
          i,
          x,
          (
            ground (
              arith,
              get_elem?-set s.vms slot i switched_vm (get_elem?-lt s.vms slot registered.0),
            ),
            id,
            on_then,
            goes,
          ),
        )
  ]

  -- A switch keeps the machines serviced.
  pub IsSwitch-IsServiced : IsServiced s'
  IsSwitch-IsServiced = rw w.after (record {
    agents_valid = w.agents_valid;
    cores = λ j x e up. elim (set-cases s.vms slot j lt e) [
      | inl (_, same) ↦ subst HasCores same (h.cores slot vm registered.0 registered.2)
      | inr (_, ex) ↦ h.cores j x ex up
    ];
    served = λ j x e up. elim (set-cases s.vms slot j lt e) [
      | inl (_, same) ↦ subst (λ y. y.running ≡ true → IsServed agents y) same own-IsServed up
      | inr (ne, ex) ↦ other-IsServed j x ne ex up
    ];
    runs = still_runs;
  })
    where
      lt : slot < length s.vms
      lt = get_elem?-lt s.vms slot registered.0
