-- ===== src/ResourceManager/Shutdown/Slots.antt =====
-- Flags of the machines, slot by slot of the table.
use ramryder.Prelude.{
  ℕ, suc, ◌+◌, ◌≡◌, ◌<◌, refl, true, false, Bool, some, arith, Bool-cases, Option-cases, inl, inr,
  done, get_elem?, get_elem?-lt, set, get_elem?-set, read, List, [], ◌∷◌, ◌==◌,
}
use ramryder.VmManager.{VmInstance, Manager, vm_mngr_get_instance}
use ramryder.VmManager.Table.{get_instance-some, get_instance-none, in_use}
use ramryder.VmManager.Invariant.{IsValid}

-- A flag is not set in any slot below slot `n`.
abbrev pub IsClear : (VmInstance → Bool) → ℕ → List VmInstance → Type 0
IsClear flag n vms = (j : ℕ) (w : VmInstance) → j < n → get_elem? vms j ≡ some w → flag w ≡ false

pub IsClear-set :
    (flag : VmInstance → Bool) (vms : List VmInstance) (i n : ℕ) (vm new : VmInstance)
    → get_elem? vms i ≡ some vm
    → flag new ≡ false
    → IsClear flag n vms
    → IsClear flag n (set vms i new)
IsClear-set flag vms i n vm new e off c j w lt ew =
    let at_j = get_elem?-set vms i j new (get_elem?-lt vms i e) in
    elim (Bool-cases (i == j)) [
      | inl same ↦ let one : new ≡ w = ground (arith, at_j, same, ew) in rw (← one) off
      | inr other ↦ c j w lt (ground (arith, at_j, other, ew))
    ]

pub IsClear-suc :
    (flag : VmInstance → Bool) (vms : List VmInstance) (i : ℕ) (vm : VmInstance)
    → get_elem? vms i ≡ some vm
    → flag vm ≡ false
    → IsClear flag i vms
    → IsClear flag (i + 1) vms
IsClear-suc flag vms i vm e off c j w lt ew = elim (Bool-cases (i == j)) [
  | inl same ↦ let ij : i ≡ j = ground (arith, same) in let one : vm ≡ w = cc in rw (← one) off
  | inr other ↦ c j w (ground (arith, other)) ew
]

-- The slot is written, and the loop goes on behind it.
pub IsClear-done :
    (flag : VmInstance → Bool) (vms : List VmInstance) (i : ℕ) (vm new : VmInstance)
    → get_elem? vms i ≡ some vm
    → flag new ≡ false
    → IsClear flag i vms
    → IsClear flag (i + 1) (set vms i new)
IsClear-done flag vms i vm new e off c =
    let h : get_elem? (set vms i new) i ≡ some new =
      ground (arith, get_elem?-set vms i i new (get_elem?-lt vms i e)) in
    IsClear-suc flag (set vms i new) i new h off (IsClear-set flag vms i i vm new e off c)

-- The look-up of a registered machine finds it.
pub finds :
    (s : Manager) (i : ℕ) (vm : VmInstance)
    → IsValid s
    → get_elem? s.vms i ≡ some vm
    → vm.initialized ≡ true
    → vm_mngr_get_instance vm.vm_id s.vms ≡ some i
finds s i vm v e up = elim (Option-cases (vm_mngr_get_instance vm.vm_id s.vms)) [
  | inl gone ↦ absurd (get_instance-none vm.vm_id s.vms i vm gone (e, refl, up))
  | inr (j, found) ↦
      let (w, r) = get_instance-some vm.vm_id s.vms j found in
      let same : j ≡ i = v.distinct j i w vm r.0 e r.2 up r.1 in cc
]

pub read-done :
    (vms : List VmInstance) (i : ℕ) (vm : VmInstance)
    → read vms i ≡ done vm
    → get_elem? vms i ≡ some vm
read-done vms i vm e = ground (arith, Option-cases (get_elem? vms i))

pub in_use-clear :
    (vms : List VmInstance)
    → ((j : ℕ) (w : VmInstance) → get_elem? vms j ≡ some w → w.initialized ≡ false)
    → in_use vms ≡ 0
unfolding in_use
in_use-clear [] c = refl
in_use-clear (x ∷ vms) c = ground (arith, c 0 x refl, in_use-clear vms (λ j w e. c (suc j) w e))
