-- ===== src/VmManager/Serviced/Recounts.antt =====
-- `vm_mngr_update_perf_counters` of a manager whose machines are serviced.
use ramryder.Prelude.{
  ℕ, zero, suc, ◌≡◌, refl, List, [], ◌∷◌, some, pos, ◌==ℤ◌, Bool-cases, inl, inr, if◌then◌else◌,
  get_elem?, done, >>=-eq-done, sym, arith,
}
use ramryder.PerfCounter.{Perf, PerfKernel, perf_update}
use ramryder.PerfCounter.Counts.{perf_update-IsCounted}
use ramryder.VmManager.{VmInstance, Manager, update_running, vm_mngr_update_perf_counters}
use ramryder.VmManager.Serviced.{IsKept, IsKept-refl, AllKept}

AllKept-cons :
    (v w : VmInstance) (vs ws : List VmInstance)
    → IsKept v w
    → AllKept vs ws
    → AllKept (v ∷ vs) (w ∷ ws)
AllKept-cons v w vs ws k r = record { from = back; to = forth }
  where
    back :
        (i : ℕ) (y : VmInstance)
        → get_elem? (w ∷ ws) i ≡ some y
        → (x : VmInstance) × (get_elem? (v ∷ vs) i ≡ some x) × IsKept x y
    back zero y e = let same : w ≡ y = cc in (v, refl, rw same at k)
    back (suc i) y e = r.from i y e

    forth :
        (i : ℕ) (x : VmInstance)
        → get_elem? (v ∷ vs) i ≡ some x
        → (y : VmInstance) × (get_elem? (w ∷ ws) i ≡ some y) × IsKept x y
    forth zero x e = let same : v ≡ x = cc in (w, refl, rw same at k)
    forth (suc i) x e = r.to i x e

AllKept-refl : (vms : List VmInstance) → AllKept vms vms
AllKept-refl vms = record {
  from = λ i w e. (w, e, IsKept-refl w);
  to = λ i v e. (v, e, IsKept-refl v);
}

module _ (kernel : PerfKernel) where
  -- What an update of one machine that ended keeps.
  update_one :
      (v : VmInstance) (perf : Perf)
      → (if v.running then perf_update kernel v.num_cores v.perf else done v.perf) ≡ done perf
      → IsKept v (record v { perf = perf })
  update_one v perf run = record {
    same_id = refl;
    same_cores = refl;
    same_set = refl;
    same_use = refl;
    same_run = refl;
    ready = λ on r.
        let (ready, _) =
          perf_update-IsCounted kernel v.num_cores v.perf perf r (ground (arith, on, run)) in
        ready;
  }

  update_running-AllKept :
      (vms vms' : List VmInstance) → update_running kernel vms ≡ done vms' → AllKept vms vms'
  unfolding update_running
  update_running-AllKept [] vms' e = let same : [] ≡ vms' = cc in rw (← same) (AllKept-refl [])
  update_running-AllKept (v ∷ vs) vms' e =
      let (perf, run, e1) =
        >>=-eq-done (if v.running then perf_update kernel v.num_cores v.perf else done v.perf) _
          e in
      let (ws, rest, out) = >>=-eq-done (update_running kernel vs) _ e1 in
      let same : (record v { perf = perf } ∷ ws) ≡ vms' = cc in
      rw (← same) (
        AllKept-cons v (record v { perf = perf }) vs ws (update_one v perf run)
          (update_running-AllKept vs ws rest))

  -- An update of the counters that ended has changed nothing but the counters of the machines.
  pub update_perf-AllKept :
      (s s' : Manager)
      → vm_mngr_update_perf_counters kernel s ≡ done s'
      → (vms : List VmInstance) × (s' ≡ record s { vms = vms }) × AllKept s.vms vms
  unfolding vm_mngr_update_perf_counters
  update_perf-AllKept s s' e = elim (Bool-cases (s.count ==ℤ pos 0)) [
    | inl nobody ↦
        let same : s ≡ s' = ground (arith, nobody, e) in (s.vms, sym same, AllKept-refl s.vms)
    | inr some_vms ↦
        let (vms, run, out) = >>=-eq-done (update_running kernel s.vms) _ (rw some_vms at e) in
        let same : record s { vms = vms } ≡ s' = cc in
        (vms, sym same, update_running-AllKept s.vms vms run)
  ]
