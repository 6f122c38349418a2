-- ===== src/VmManager/Table.antt =====
-- The look-ups in the table of machines.
use mathlib.Core.Path.{subst}
use ramryder.Prelude.{
  Bool-cases, ℕ, zero, suc, ◌+◌, ◌≤◌, ◌≡◌, refl, true, false, List, [], ◌∷◌, none, some, arith, ℤ,
  pos, ==ℤ_iff, length, replicate, get_elem?, set, Option-cases, if◌then◌else◌,
}
use ramryder.GuestAgent.{max_num_vm}
use ramryder.VmManager.{VmInstance, Manager, empty_slot, vm_mngr_get_instance, find_free_slot}

-- The machine of slot `i` is registered.
abbrev pub IsRegistered : List VmInstance → ℤ → ℕ → VmInstance → Type 0
IsRegistered vms vm_id i vm =
    (get_elem? vms i ≡ some vm) × (vm.vm_id ≡ vm_id) × (vm.initialized ≡ true)

pub get_instance-some :
    (vm_id : ℤ) (vms : List VmInstance) (i : ℕ)
    → vm_mngr_get_instance vm_id vms ≡ some i
    → (vm : VmInstance) × IsRegistered vms vm_id i vm
unfolding vm_mngr_get_instance
get_instance-some vm_id [] i e = absurd (cc)
get_instance-some vm_id (vm ∷ vms) zero e =
    let found = ==ℤ_iff vm.vm_id vm_id in
    let other = Option-cases (vm_mngr_get_instance vm_id vms) in
    (vm, (refl, ground (arith, found, other), ground (arith, found, other)))
get_instance-some vm_id (vm ∷ vms) (suc i) e =
    get_instance-some vm_id vms i (ground (arith, Option-cases (vm_mngr_get_instance vm_id vms)))

pub get_instance-none :
    (vm_id : ℤ) (vms : List VmInstance) (i : ℕ) (vm : VmInstance)
    → vm_mngr_get_instance vm_id vms ≡ none
    → ¬ IsRegistered vms vm_id i vm
unfolding vm_mngr_get_instance
get_instance-none vm_id [] i vm e r = absurd (cc (r.0))
get_instance-none vm_id (x ∷ vms) zero vm e r = ground (arith, r.0, r.1, r.2, ==ℤ_iff x.vm_id vm_id)
get_instance-none vm_id (x ∷ vms) (suc i) vm e r =
    get_instance-none vm_id vms i vm (ground (arith, Option-cases (vm_mngr_get_instance vm_id vms)))
      r

pub find_free_slot-some :
    (vms : List VmInstance) (i : ℕ)
    → find_free_slot vms ≡ some i
    → (vm : VmInstance) × (get_elem? vms i ≡ some vm) × (vm.initialized ≡ false)
unfolding find_free_slot
find_free_slot-some [] i e = absurd (cc)
find_free_slot-some (vm ∷ vms) zero e =
    (vm, refl, ground (arith, Option-cases (find_free_slot vms)))
find_free_slot-some (vm ∷ vms) (suc i) e =
    find_free_slot-some vms i (ground (arith, Option-cases (find_free_slot vms)))

-- The number of slots in use.
unfoldable pub in_use : List VmInstance → ℕ
in_use [] = 0
in_use (vm ∷ vms) = (if vm.initialized then 1 else 0) + in_use vms

pub in_use-le-length : (vms : List VmInstance) → in_use vms ≤ length vms
unfolding in_use
in_use-le-length [] = omega arith
in_use-le-length (vm ∷ vms) = ground (arith, in_use-le-length vms)

-- The search for a free slot fails only if all slots are in use.
pub find_free_slot-none :
    (vms : List VmInstance) → find_free_slot vms ≡ none → in_use vms ≡ length vms
unfolding find_free_slot in_use
find_free_slot-none [] e = refl
find_free_slot-none (vm ∷ vms) e =
    ground (arith, Option-cases (find_free_slot vms), find_free_slot-none vms)

pub in_use-set_new :
    (vms : List VmInstance) (i : ℕ) (old new : VmInstance)
    → get_elem? vms i ≡ some old
    → old.initialized ≡ false
    → new.initialized ≡ true
    → in_use (set vms i new) ≡ in_use vms + 1
unfolding in_use
in_use-set_new [] i old new e o n = absurd (cc)
in_use-set_new (vm ∷ vms) zero old new e o n = ground arith
in_use-set_new (vm ∷ vms) (suc i) old new e o n = omega (arith, in_use-set_new vms i old new e o n)

pub in_use-set_gone :
    (vms : List VmInstance) (i : ℕ) (old new : VmInstance)
    → get_elem? vms i ≡ some old
    → old.initialized ≡ true
    → new.initialized ≡ false
    → in_use (set vms i new) + 1 ≡ in_use vms
unfolding in_use
in_use-set_gone [] i old new e o n = absurd (cc)
in_use-set_gone (vm ∷ vms) zero old new e o n = ground arith
in_use-set_gone (vm ∷ vms) (suc i) old new e o n =
    omega (arith, in_use-set_gone vms i old new e o n)

pub in_use-set_same :
    (vms : List VmInstance) (i : ℕ) (old new : VmInstance)
    → get_elem? vms i ≡ some old
    → new.initialized ≡ old.initialized
    → in_use (set vms i new) ≡ in_use vms
unfolding in_use
in_use-set_same [] i old new e s = absurd (cc)
in_use-set_same (vm ∷ vms) zero old new e s = ground arith
in_use-set_same (vm ∷ vms) (suc i) old new e s = omega (arith, in_use-set_same vms i old new e s)

pub no_slots_in_use : pos 0 ≡ pos (in_use (replicate max_num_vm empty_slot))
unfolding in_use
no_slots_in_use = refl

-- The machine that a look-up finds, read from its slot, is registered.
pub IsRegistered-at :
    (s : Manager) (vm_id : ℤ) (i : ℕ) (vm : VmInstance)
    → vm_mngr_get_instance vm_id s.vms ≡ some i
    → get_elem? s.vms i ≡ some vm
    → IsRegistered s.vms vm_id i vm
IsRegistered-at s vm_id i vm e ev =
    let (w, r) = get_instance-some vm_id s.vms i e in
    let same : w ≡ vm = found_twice s.vms i w vm r.0 ev in
    subst (λ t. IsRegistered s.vms vm_id i t) same r
  where
    found_twice :
        (vms : List VmInstance) (i : ℕ) (v w : VmInstance)
        → get_elem? vms i ≡ some v
        → get_elem? vms i ≡ some w
        → v ≡ w
    found_twice vms i v w ev ew = cc

-- A table of which no slot is in use has no machine.
pub nobody :
    (vms : List VmInstance)
    → in_use vms ≡ 0
    → (j : ℕ) (w : VmInstance) → get_elem? vms j ≡ some w
    → w.initialized ≡ false
unfolding in_use
nobody [] e j w ew = absurd (cc)
nobody (x ∷ vms) e zero w ew = ground (arith, e, ew)
nobody (x ∷ vms) e (suc j) w ew = nobody vms (ground (arith, e, Bool-cases x.initialized)) j w ew
