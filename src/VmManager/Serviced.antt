-- ===== src/VmManager/Serviced.antt =====
-- The machines that run, their perf counters and their connections to the guest agents.
pub mod Switching
pub mod Recounts
pub mod Calls
pub mod Starting
pub mod Tests
pub mod Requests
use ramryder.Prelude.{
  set-cases, ℕ, zero, suc, ◌+◌, ◌<◌, ◌≡◌, ◌≢◌, ◌⊎◌, refl, sym, ap, ◌∙◌, true, false, Bool, List, [],
  some, arith, ℤ, pos, ◌==◌, Bool-cases, inl, inr, length, get_elem?, get_elem?-lt, set,
  get_elem?-set,
}
use ramryder.CoreSet.{core_list}
use ramryder.GuestAgent.{Agents, GuestAgent, max_num_vm}
use ramryder.GuestAgent.Connections
use ramryder.PerfCounter.Setup.{IsReady}
use ramryder.VmManager.{VmInstance, Manager}

-- The machine of slot `i` runs and has the number `n`.
abbrev pub IsRunning : List VmInstance → ℕ → ℕ → VmInstance → Type 0
IsRunning vms n i v =
    (get_elem? vms i ≡ some v) × (v.vm_id ≡ pos n) × (v.initialized ≡ true) × (v.running ≡ true)

-- The guest agent of machine `n` is connected.
abbrev pub IsConnected : Agents → ℕ → Type 0
IsConnected s n = (a : GuestAgent) × (get_elem? s.guest_agents n ≡ some a) × (a.initialized ≡ true)

-- The cores of a machine were counted from its core set.
abbrev pub HasCores : VmInstance → Type 0
HasCores v = (v.core_set ≢ []) × (v.num_cores ≡ length (core_list v.core_set))

-- What a machine that runs can rely on.
abbrev pub IsServed : Agents → VmInstance → Type 0
IsServed agents v =
    IsReady v.num_cores v.perf
    × ((n : ℕ) × (v.vm_id ≡ pos n) × n < max_num_vm × IsConnected agents n)

-- A registered machine has its cores; a machine that runs has counters that are ready, a number
-- below `max_num_vm` and a connection; and a connection belongs to a machine that runs.
pub record IsServiced (s : Manager) : Type 0 where
  pub agents_valid : Connections.IsValid s.agents
  pub cores :
      (i : ℕ) (v : VmInstance) → get_elem? s.vms i ≡ some v → v.initialized ≡ true → HasCores v
  pub served :
      (i : ℕ) (v : VmInstance) → get_elem? s.vms i ≡ some v → v.running ≡ true → IsServed s.agents v
  pub runs : (n : ℕ) → IsConnected s.agents n → (i : ℕ) × (v : VmInstance) × IsRunning s.vms n i v

-- A machine with the same name, cores and run state; its counters are still ready if they were.
pub record IsKept (v w : VmInstance) : Type 0 where
  pub same_id : w.vm_id ≡ v.vm_id
  pub same_cores : w.num_cores ≡ v.num_cores
  pub same_set : w.core_set ≡ v.core_set
  pub same_use : w.initialized ≡ v.initialized
  pub same_run : w.running ≡ v.running
  pub ready : v.running ≡ true → IsReady v.num_cores v.perf → IsReady w.num_cores w.perf

pub IsKept-refl : (v : VmInstance) → IsKept v v
IsKept-refl v = record {
  same_id = refl;
  same_cores = refl;
  same_set = refl;
  same_use = refl;
  same_run = refl;
  ready = λ _ r. r;
}

-- All machines of a table are kept in another.
pub record AllKept (vs ws : List VmInstance) : Type 0 where
  pub from :
      (i : ℕ) (w : VmInstance)
      → get_elem? ws i ≡ some w
      → (v : VmInstance) × (get_elem? vs i ≡ some v) × IsKept v w
  pub to :
      (i : ℕ) (v : VmInstance)
      → get_elem? vs i ≡ some v
      → (w : VmInstance) × (get_elem? ws i ≡ some w) × IsKept v w

pub AllKept-set :
    (vms : List VmInstance) (i : ℕ) (vm new : VmInstance)
    → get_elem? vms i ≡ some vm
    → IsKept vm new
    → AllKept vms (set vms i new)
AllKept-set vms i vm new e k = record {
  from = λ j w ew. elim (set-cases vms i j lt ew) [
    | inl (ij, same) ↦ (vm, rw ij at e, rw same at k)
    | inr (ij, ew') ↦ (w, ew', IsKept-refl w)
  ];
  to = λ j v ev. elim (Bool-cases (i == j)) [
    | inl same ↦
        let ij : i ≡ j = ground arith in
        let one : vm ≡ v = cc in
        (new, ground (arith, get_elem?-set vms i j new lt, same), rw one at k)
    | inr other ↦ (v, ground (arith, get_elem?-set vms i j new lt, other, ev), IsKept-refl v)
  ];
}
  where
    lt : i < length vms
    lt = get_elem?-lt vms i e

-- Such a change leaves every machine serviced.
pub kept-IsServiced :
    (s t : Manager) → IsServiced s → t.agents ≡ s.agents → AllKept s.vms t.vms → IsServiced t
kept-IsServiced s t h same k = record {
  agents_valid = rw same h.agents_valid;
  cores = λ i w e up.
      let (v, ev, q) = k.from i w e in
      let (ne, num) = h.cores i v ev (sym q.same_use ∙ up) in
      (rw q.same_set ne, rw (q.same_set, q.same_cores) num);
  served = λ i w e on.
      let (v, ev, q) = k.from i w e in
      let old : v.running ≡ true = sym q.same_run ∙ on in
      let (r, (n, id, lt, c)) = h.served i v ev old in
      (q.ready old r, (n, q.same_id ∙ id, lt, rw same c));
  runs = λ n c.
      let (i, v, (ev, id, up, on)) = h.runs n (rw same at c) in
      let (w, ew, q) = k.to i v ev in
      (i, w, (ew, q.same_id ∙ id, q.same_use ∙ up, q.same_run ∙ on));
}
