-- ===== src/VmManager/Invariant.antt =====
-- What holds of the manager between two requests.
use ramryder.Prelude.{
  ◌==ℤ◌, set-cases, ℕ, zero, suc, ◌<◌, ◌≡◌, ◌≢◌, refl, true, false, some, arith, ℤ, pos, inl, inr,
  length, get_elem?, set, length-set, replicate,
}
use mathlib.Core.Path.{subst}
use ramryder.GuestAgent.{Agents, max_num_vm}
use ramryder.MemoryPool.Pool.{Pool}
use ramryder.MemoryPool.Pool.Invariant
use ramryder.VmManager.{VmInstance, Manager, empty_slot, initial}
use ramryder.VmManager.Table.{in_use, nobody, no_slots_in_use}
use ramryder.VmManager.Backing.{AreBacked}

-- What holds of a machine that is registered.
abbrev pub IsHoused : Pool → VmInstance → Type 0
IsHoused p vm = AreBacked p vm.vm_id vm.memdev_counter vm.attached_devs

pub record IsValid (s : Manager) : Type 0 where
  pub slots : length s.vms ≡ max_num_vm
  pub counted : s.count ≡ pos (in_use s.vms)
  pub distinct :
      (i j : ℕ) (v w : VmInstance)
      → get_elem? s.vms i ≡ some v
      → get_elem? s.vms j ≡ some w
      → v.initialized ≡ true
      → w.initialized ≡ true
      → v.vm_id ≡ w.vm_id
      → i ≡ j
  pub resting :
      (i : ℕ) (v : VmInstance)
      → get_elem? s.vms i ≡ some v
      → v.initialized ≡ false
      → v.running ≡ false
  pub pool_valid : Invariant.IsValid s.pool
  pub housed :
      (i : ℕ) (v : VmInstance)
      → get_elem? s.vms i ≡ some v
      → v.initialized ≡ true
      → IsHoused s.pool v

-- What an operation has to show when it changes the machine of slot `i` and the pool.
pub record IsUpdate (s : Manager) (i : ℕ) (v : VmInstance) (p : Pool) (count : ℤ) : Type 0 where
  pub slot : i < length s.vms
  pub recounted : count ≡ pos (in_use (set s.vms i v))
  pub new_id :
      v.initialized ≡ true
      → (j : ℕ) (w : VmInstance) → get_elem? s.vms j ≡ some w
      → w.initialized ≡ true
      → w.vm_id ≡ v.vm_id
      → i ≡ j
  pub rests : v.initialized ≡ false → v.running ≡ false
  pub new_pool : Invariant.IsValid p
  pub own : v.initialized ≡ true → IsHoused p v
  pub others :
      (j : ℕ) (w : VmInstance)
      → i ≢ j
      → get_elem? s.vms j ≡ some w
      → w.initialized ≡ true
      → IsHoused p w

pub update-IsValid :
    (s : Manager) (i : ℕ) (v : VmInstance) (p : Pool) (count : ℤ) (agents : Agents)
    → IsValid s
    → IsUpdate s i v p count
    → IsValid (record { count = count; vms = set s.vms i v; pool = p; agents = agents })
update-IsValid s i v p count agents valid u = record {
  slots = omega (arith, length-set {0} s.vms i v, valid.slots);
  counted = u.recounted;
  distinct = ids;
  resting = λ j w e. elim (set-cases s.vms i j u.slot e) [
    | inl (ij, vw) ↦ subst (λ t. t.initialized ≡ false → t.running ≡ false) vw u.rests
    | inr (ij, ew) ↦ valid.resting j w ew
  ];
  pool_valid = u.new_pool;
  housed = λ j w e. elim (set-cases s.vms i j u.slot e) [
    | inl (ij, vw) ↦ subst (λ t. t.initialized ≡ true → IsHoused p t) vw u.own
    | inr (ij, ew) ↦ u.others j w ij ew
  ];
}
  where
    ids :
        (j k : ℕ) (w x : VmInstance)
        → get_elem? (set s.vms i v) j ≡ some w
        → get_elem? (set s.vms i v) k ≡ some x
        → w.initialized ≡ true
        → x.initialized ≡ true
        → w.vm_id ≡ x.vm_id
        → j ≡ k
    ids j k w x ew ex iw ix same = elim (set-cases s.vms i j u.slot ew) [
      | inl (ij, vw) ↦ elim (set-cases s.vms i k u.slot ex) [
        | inl (ik, vx) ↦ cc
        | inr (ik, ex') ↦ absurd (ik (u.new_id (rw vw iw) k x ex' ix (cc)))
      ]
      | inr (ij, ew') ↦ elim (set-cases s.vms i k u.slot ex) [
        | inl (ik, vx) ↦ absurd (ij (u.new_id (rw vx ix) j w ew' iw (cc)))
        | inr (ik, ex') ↦ valid.distinct j k w x ew' ex' iw ix same
      ]
    ]

empty_slots :
    (n i : ℕ) (v : VmInstance) → get_elem? (replicate n empty_slot) i ≡ some v → empty_slot ≡ v
empty_slots zero i v e = absurd (cc)
empty_slots (suc n) zero v e = cc
empty_slots (suc n) (suc i) v e = empty_slots n i v e

pub unused :
    (n i : ℕ) (v : VmInstance)
    → get_elem? (replicate n empty_slot) i ≡ some v
    → v.initialized ≡ false
unused n i v e = let same = empty_slots n i v e in rw (← same) refl

pub not_running :
    (n i : ℕ) (v : VmInstance) → get_elem? (replicate n empty_slot) i ≡ some v → v.running ≡ false
not_running n i v e = let same = empty_slots n i v e in rw (← same) refl

-- The manager at the start of the program, with a valid pool.
pub initial-IsValid : (p : Pool) → Invariant.IsValid p → IsValid (initial p)
initial-IsValid p h = record {
  slots = refl;
  counted = no_slots_in_use;
  distinct = λ i j v w ev ew iv iw same. absurd (cc (unused max_num_vm i v ev, iv));
  resting = λ i v e _. not_running max_num_vm i v e;
  pool_valid = h;
  housed = λ i v e iv. absurd (cc (unused max_num_vm i v e, iv));
}

-- With a count of 0 no machine is registered.
pub empty_table :
    (s : Manager)
    → IsValid s
    → (s.count ==ℤ pos 0) ≡ true
    → (j : ℕ) (w : VmInstance) → get_elem? s.vms j ≡ some w
    → w.initialized ≡ false
empty_table s valid e = nobody s.vms (ground (arith, e, valid.counted))
