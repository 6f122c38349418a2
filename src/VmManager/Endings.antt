-- ===== src/VmManager/Endings.antt =====
-- `vm_mngr_instance_create` and `_destroy`, by how they end.
use ramryder.Prelude.{
  ◌≢◌, ℕ, ◌<◌, ◌≡◌, ◌⊎◌, false, [], ◌∷◌, none, some, arith, ℤ, pos, minus_one, Bool-cases,
  Option-cases, inl, inr, get_elem?, done, same_state, ltb,
}
use ramryder.Scan.{Bytes}
use ramryder.GuestAgent.{max_num_vm}
use ramryder.MemoryPool.Pool.{Pool}
use ramryder.MemoryPool.Pool.Reclaim.{IsReclaimed}
use ramryder.VmManager.{
  VmInstance, Manager, vm_mngr_get_instance, vm_mngr_instance_create, vm_mngr_instance_destroy,
}
use ramryder.VmManager.Table.{in_use, in_use-le-length, IsRegistered, get_instance-some}
use ramryder.VmManager.Invariant.{IsValid}
use ramryder.VmManager.Lifecycle.{
  created, destroyed, vm_mngr_instance_create_lem, vm_mngr_instance_create_stops,
  vm_mngr_instance_create_fails, vm_mngr_instance_destroy_lem,
}

-- How a creation ends, in a valid manager.
abbrev pub CreateCases : Manager → ℤ → Bytes → Manager → Type 0
CreateCases s vm_id core_set s' =
    (s' ≡ s)
    ⊎ ((i : ℕ) × (vm : VmInstance) × (get_elem? s.vms i ≡ some vm)
        × (vm.initialized ≡ false)
        × (core_set ≢ [])
        × (s' ≡ created s i vm vm_id core_set))

new-cases :
    (s s' : Manager) (vm_id : ℤ) (core_set : Bytes) (ret : ℤ)
    → IsValid s
    → in_use s.vms < max_num_vm
    → vm_mngr_get_instance vm_id s.vms ≡ none
    → vm_mngr_instance_create s vm_id core_set ≡ done (ret, s')
    → CreateCases s vm_id core_set s' × IsValid s'
new-cases s s' vm_id [] ret v room gone e =
    absurd (cc (vm_mngr_instance_create_stops s vm_id v room gone))
new-cases s s' vm_id (c ∷ cs) ret v room gone e =
    let (i, vm, ev, down, f, w) =
      vm_mngr_instance_create_lem s vm_id (c ∷ cs) v room gone (λ no. cc) in
    let same = same_state _ ret (pos 0) s' _ e f in
    (inr (i, vm, ev, down, (λ no. cc), same), rw same w)

create-both :
    (s s' : Manager) (vm_id : ℤ) (core_set : Bytes) (ret : ℤ)
    → IsValid s
    → vm_mngr_instance_create s vm_id core_set ≡ done (ret, s')
    → CreateCases s vm_id core_set s' × IsValid s'
create-both s s' vm_id core_set ret v e = elim (Option-cases (vm_mngr_get_instance vm_id s.vms)) [
  | inr (i, here) ↦
      let f = vm_mngr_instance_create_fails s vm_id core_set v (inr (λ no. cc)) in
      let same = same_state _ ret minus_one s' s e f in (inl same, rw same v)
  | inl gone ↦ elim (Bool-cases (ltb (in_use s.vms) max_num_vm)) [
    | inl room ↦ new-cases s s' vm_id core_set ret v (ground arith) gone e
    | inr full ↦
        let f =
          vm_mngr_instance_create_fails s vm_id core_set v
            (inl (ground (arith, in_use-le-length s.vms, v.slots))) in
        let same = same_state _ ret minus_one s' s e f in (inl same, rw same v)
  ]
]

pub create-cases :
    (s s' : Manager) (vm_id : ℤ) (core_set : Bytes) (ret : ℤ)
    → IsValid s
    → vm_mngr_instance_create s vm_id core_set ≡ done (ret, s')
    → CreateCases s vm_id core_set s'
create-cases s s' vm_id core_set ret v e = (create-both s s' vm_id core_set ret v e).0

-- A creation that ends, however it ends, leaves the manager valid.
pub create-IsValid :
    (s s' : Manager) (vm_id : ℤ) (core_set : Bytes) (ret : ℤ)
    → IsValid s
    → vm_mngr_instance_create s vm_id core_set ≡ done (ret, s')
    → IsValid s'
create-IsValid s s' vm_id core_set ret v e = (create-both s s' vm_id core_set ret v e).1

-- How a destruction ends.
abbrev pub DestroyCases : Manager → ℤ → Manager → Type 0
DestroyCases s vm_id s' =
    (s' ≡ s)
    ⊎ ((i : ℕ) × (vm : VmInstance) × (p : Pool) × IsRegistered s.vms vm_id i vm
        × (vm.running ≡ false)
        × IsReclaimed s.pool vm_id p
        × (s' ≡ destroyed s i vm p))

destroy-both :
    (s s' : Manager) (vm_id ret : ℤ)
    → IsValid s
    → vm_mngr_instance_destroy s vm_id ≡ done (ret, s')
    → DestroyCases s vm_id s' × IsValid s'
unfolding vm_mngr_instance_destroy
destroy-both s s' vm_id ret v e = elim (Option-cases (vm_mngr_get_instance vm_id s.vms)) [
  | inl gone ↦ let same : s' ≡ s = ground arith in (inl same, rw same v)
  | inr (i, here) ↦
      let (vm, r) = get_instance-some vm_id s.vms i here in
      elim (Bool-cases vm.running) [
        | inl up ↦ let same : s' ≡ s = ground (arith, r.0) in (inl same, rw same v)
        | inr still ↦
            let (p, f, g, w) = vm_mngr_instance_destroy_lem s vm_id i vm v here r.0 still in
            let same = same_state _ ret (pos 0) s' _ e f in
            (inr (i, vm, p, r, still, g, same), rw same w)
      ]
]

pub destroy-cases :
    (s s' : Manager) (vm_id ret : ℤ)
    → IsValid s
    → vm_mngr_instance_destroy s vm_id ≡ done (ret, s')
    → DestroyCases s vm_id s'
destroy-cases s s' vm_id ret v e = (destroy-both s s' vm_id ret v e).0

-- So does a destruction.
pub destroy-IsValid :
    (s s' : Manager) (vm_id ret : ℤ)
    → IsValid s
    → vm_mngr_instance_destroy s vm_id ≡ done (ret, s')
    → IsValid s'
destroy-IsValid s s' vm_id ret v e = (destroy-both s s' vm_id ret v e).1
