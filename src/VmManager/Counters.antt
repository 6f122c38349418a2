-- ===== src/VmManager/Counters.antt =====
-- `vm_mngr_update_perf_counters` changes the perf counters of the machines and nothing else.
use ramryder.Prelude.{
  ℕ, zero, suc, ◌≡◌, refl, ap, List, [], ◌∷◌, some, arith, pos, ◌==ℤ◌, if◌then◌else◌, Bool-cases,
  inl, inr, sym, ◌∙◌, length, get_elem?, done, >>=-eq-done,
}
use ramryder.PerfCounter.{Perf, PerfKernel, perf_update}
use ramryder.VmManager.{VmInstance, Manager, update_running, vm_mngr_update_perf_counters}
use ramryder.VmManager.Table.{in_use}
use ramryder.VmManager.Invariant.{IsValid}

-- The machine is as it was, but for its counters.
abbrev pub IsRecounted : VmInstance → VmInstance → Type 0
IsRecounted v w = (perf : Perf) × (w ≡ record v { perf = perf })

abbrev pub AllRecounted : List VmInstance → List VmInstance → Type 0
AllRecounted [] [] = Unit
AllRecounted [] (w ∷ ws) = ⊥
AllRecounted (v ∷ vs) [] = ⊥
AllRecounted (v ∷ vs) (w ∷ ws) = IsRecounted v w × AllRecounted vs ws

update_running-AllRecounted :
    (kernel : PerfKernel) (vms vms' : List VmInstance)
    → update_running kernel vms ≡ done vms'
    → AllRecounted vms vms'
unfolding update_running
update_running-AllRecounted kernel [] [] e = tt
update_running-AllRecounted kernel [] (w ∷ ws) e = absurd (cc)
update_running-AllRecounted kernel (v ∷ vs) ws e =
    let (perf, _, e1) =
      >>=-eq-done (if v.running then perf_update kernel v.num_cores v.perf else done v.perf) _ e in
    let (rest, run, out) = >>=-eq-done (update_running kernel vs) _ e1 in
    let same : (record v { perf = perf } ∷ rest) ≡ ws = cc in
    rw (← same) ((perf, refl), update_running-AllRecounted kernel vs rest run)

pub refl_recounted : (vms : List VmInstance) → AllRecounted vms vms
refl_recounted [] = tt
refl_recounted (v ∷ vs) = ((v.perf, refl), refl_recounted vs)

-- The manager after an update that ended.
pub update_perf-Recounts :
    (kernel : PerfKernel) (s s' : Manager)
    → vm_mngr_update_perf_counters kernel s ≡ done s'
    → (vms : List VmInstance) × (s' ≡ record s { vms = vms }) × AllRecounted s.vms vms
unfolding vm_mngr_update_perf_counters
update_perf-Recounts kernel s s' e = elim (Bool-cases (s.count ==ℤ pos 0)) [
  | inl nobody ↦
      let same : s ≡ s' = ground (arith, nobody, e) in (s.vms, sym same, refl_recounted s.vms)
  | inr some_vms ↦
      let (vms, run, out) = >>=-eq-done (update_running kernel s.vms) _ (rw some_vms at e) in
      let same : record s { vms = vms } ≡ s' = cc in
      (vms, sym same, update_running-AllRecounted kernel s.vms vms run)
]

length-recounted : (vs ws : List VmInstance) → AllRecounted vs ws → length ws ≡ length vs
length-recounted [] [] r = refl
length-recounted [] (w ∷ ws) r = absurd r
length-recounted (v ∷ vs) [] r = absurd r
length-recounted (v ∷ vs) (w ∷ ws) r = ap suc (length-recounted vs ws r.1)

in_use-recounted : (vs ws : List VmInstance) → AllRecounted vs ws → in_use ws ≡ in_use vs
unfolding in_use
in_use-recounted [] [] r = refl
in_use-recounted [] (w ∷ ws) r = absurd r
in_use-recounted (v ∷ vs) [] r = absurd r
in_use-recounted (v ∷ vs) (w ∷ ws) r =
    let same : w.initialized ≡ v.initialized = ap (λ x. x.initialized) (r.0.1) in
    ground (arith, same, in_use-recounted vs ws r.1)

-- Where a machine of the new table comes from, and where one of the old table has gone.
pub AllRecounted-from :
    (vs ws : List VmInstance) (i : ℕ) (w : VmInstance)
    → AllRecounted vs ws
    → get_elem? ws i ≡ some w
    → (v : VmInstance) × (get_elem? vs i ≡ some v) × IsRecounted v w
AllRecounted-from [] [] i w r e = absurd (cc)
AllRecounted-from [] (x ∷ ws) i w r e = absurd r
AllRecounted-from (v ∷ vs) [] i w r e = absurd r
AllRecounted-from (v ∷ vs) (x ∷ ws) zero w r e =
    let same : x ≡ w = cc in (v, refl, (r.0.0, sym same ∙ r.0.1))
AllRecounted-from (v ∷ vs) (x ∷ ws) (suc i) w r e = AllRecounted-from vs ws i w r.1 e

pub AllRecounted-to :
    (vs ws : List VmInstance) (i : ℕ) (v : VmInstance)
    → AllRecounted vs ws
    → get_elem? vs i ≡ some v
    → (w : VmInstance) × (get_elem? ws i ≡ some w) × IsRecounted v w
AllRecounted-to [] [] i v r e = absurd (cc)
AllRecounted-to [] (x ∷ ws) i v r e = absurd r
AllRecounted-to (x ∷ vs) [] i v r e = absurd r
AllRecounted-to (x ∷ vs) (w ∷ ws) zero v r e =
    let same : x ≡ v = cc in (w, refl, (r.0.0, rw same at r.0.1))
AllRecounted-to (x ∷ vs) (w ∷ ws) (suc i) v r e = AllRecounted-to vs ws i v r.1 e

pub recounted-IsValid :
    (s : Manager) (vms : List VmInstance)
    → IsValid s
    → AllRecounted s.vms vms
    → IsValid (record s { vms = vms })
recounted-IsValid s vms v r = record {
  slots = length-recounted s.vms vms r ∙ v.slots;
  counted = v.counted ∙ ap pos (sym (in_use-recounted s.vms vms r));
  distinct = λ i j a b ea eb ia ib same.
      let (a', ea', (_, pa)) = AllRecounted-from s.vms vms i a r ea in
      let (b', eb', (_, pb)) = AllRecounted-from s.vms vms j b r eb in
      v.distinct i j a' b' ea' eb' (ap (λ x. x.initialized) (sym pa) ∙ ia)
        (ap (λ x. x.initialized) (sym pb) ∙ ib)
        (ap (λ x. x.vm_id) (sym pa) ∙ same ∙ ap (λ x. x.vm_id) pb);
  resting = λ i a ea off.
      let (a', ea', (_, pa)) = AllRecounted-from s.vms vms i a r ea in
      ap (λ x. x.running) pa ∙ v.resting i a' ea' (ap (λ x. x.initialized) (sym pa) ∙ off);
  pool_valid = v.pool_valid;
  housed = λ i a ea up.
      let (a', ea', (_, pa)) = AllRecounted-from s.vms vms i a r ea in
      rw pa (v.housed i a' ea' (ap (λ x. x.initialized) (sym pa) ∙ up));
}
