-- ===== src/MemoryPool/Pool/Reclaim.antt =====
-- `memory_pool_release_vm_memory`: all segments of one machine on all devices.
use ramryder.Prelude.{
  ℕ, zero, suc, ◌+◌, ◌≡◌, refl, false, Bool, List, [], ◌∷◌, Option, none, some, arith, ℤ, ltb, ◌&&◌,
  if◌then◌else◌, done, get_elem?, ◌==ℤ◌,
}
use ramryder.MemoryPool.Device.{MemoryDaxDev}
use ramryder.MemoryPool.Device.Reclaim.{reclaimed, get_elem?-disown, release_owned-Reclaims}
use ramryder.MemoryPool.Pool.{Pool, reclaim_devices, memory_pool_release_vm_memory}
use ramryder.MemoryPool.Pool.Lookup.{IsNumbered}
use ramryder.MemoryPool.Pool.Invariant.{IsValid, AllValid}
use ramryder.MemoryPool.Pool.Owner.{owner, holder_at}

-- Segment `k` of device `j` is one that the device counts.
abbrev pub on_device : List MemoryDaxDev → ℕ → ℕ → Bool
on_device devs j k = elim (get_elem? devs j) [ none ↦ false | some d ↦ ltb k d.total_segments ]

abbrev owner_in : List MemoryDaxDev → ℕ → ℕ → Option ℤ
owner_in devs j k = elim (get_elem? devs j) [ none ↦ none | some d ↦ holder_at d.segments k ]

abbrev pub is_owner : ℤ → Option ℤ → Bool
is_owner vm none = false
is_owner vm (some v) = v ==ℤ vm

holder_at-reclaimed :
    (dev : MemoryDaxDev) (vm used : ℤ) (k : ℕ)
    → holder_at (reclaimed dev vm 0 dev.total_segments used).segments k ≡ (
        if ltb k dev.total_segments && is_owner vm (holder_at dev.segments k)
        then none
        else holder_at dev.segments k)
holder_at-reclaimed dev vm used k =
    ground (arith, get_elem?-disown vm dev.segments 0 dev.total_segments k)

-- What reclaiming from a table of devices comes to.
abbrev Reclaims : ℤ → ℕ → List MemoryDaxDev → Type 0
Reclaims vm low devs =
    (devs' : List MemoryDaxDev) × (reclaim_devices vm devs ≡ done devs')
    × IsNumbered low devs'
    × AllValid devs'
    × ((j k : ℕ)
        → owner_in devs' j k ≡ (
            if on_device devs j k && is_owner vm (owner_in devs j k)
            then none
            else owner_in devs j k))
    × ((j k : ℕ) → on_device devs' j k ≡ on_device devs j k)

cons-on_device :
    (vm used : ℤ) (d : MemoryDaxDev) (devs devs' : List MemoryDaxDev)
    → ((j k : ℕ) → on_device devs' j k ≡ on_device devs j k)
    → (j k : ℕ)
    → on_device (reclaimed d vm 0 d.total_segments used ∷ devs') j k ≡ on_device (d ∷ devs) j k
cons-on_device vm used d devs devs' o zero k = refl
cons-on_device vm used d devs devs' o (suc j) k = o j k

cons-owners :
    (vm used : ℤ) (d : MemoryDaxDev) (devs devs' : List MemoryDaxDev)
    → ((j k : ℕ)
        → owner_in devs' j k ≡ (
            if on_device devs j k && is_owner vm (owner_in devs j k)
            then none
            else owner_in devs j k))
    → (j k : ℕ)
    → owner_in (reclaimed d vm 0 d.total_segments used ∷ devs') j k ≡ (
        if on_device (d ∷ devs) j k && is_owner vm (owner_in (d ∷ devs) j k)
        then none
        else owner_in (d ∷ devs) j k)
cons-owners vm used d devs devs' o zero k = holder_at-reclaimed d vm used k
cons-owners vm used d devs devs' o (suc j) k = o j k

reclaim_devices-Reclaims :
    (vm : ℤ) (low : ℕ) (devs : List MemoryDaxDev)
    → IsNumbered low devs
    → AllValid devs
    → Reclaims vm low devs
unfolding reclaim_devices
reclaim_devices-Reclaims vm low [] n v = ([], refl, tt, tt, λ j k. refl, λ j k. refl)
reclaim_devices-Reclaims vm low (d ∷ devs) n v =
    let (used, e, w) = release_owned-Reclaims d vm 0 d.total_segments v.0 (omega arith) in
    let (devs', es, n', v', o, t) = reclaim_devices-Reclaims vm (low + 1) devs n.1 v.1 in
    (
      reclaimed d vm 0 d.total_segments used ∷ devs',
      ground (arith, e, es),
      (n.0, n'),
      (w, v'),
      cons-owners vm used d devs devs' o,
      cons-on_device vm used d devs devs' t,
    )

-- What reclaiming the memory of a machine changes.
pub record IsReclaimed (p : Pool) (vm : ℤ) (p' : Pool) : Type 0 where
  pub reclaimed_owners :
      (j k : ℕ)
      → owner p' j k
        ≡ (if on_device p.mem_devs j k && is_owner vm (owner p j k) then none else owner p j k)
  pub same_devices : (j k : ℕ) → on_device p'.mem_devs j k ≡ on_device p.mem_devs j k
  pub same_size : p'.segment_size_mb ≡ p.segment_size_mb
  pub valid : IsValid p'

-- Reclaiming the memory of a machine on a valid pool ends without a fault and keeps the pool valid.
-- Afterwards every segment of a device that belonged to the machine is free, and all others have
-- the owner that they had.
pub memory_pool_release_vm_memory_lem :
    (p : Pool) (vm : ℤ)
    → IsValid p
    → (p' : Pool) × (memory_pool_release_vm_memory p vm ≡ done p') × IsReclaimed p vm p'
unfolding memory_pool_release_vm_memory owner
memory_pool_release_vm_memory_lem p vm v =
    let (devs', e, n, v', o, t) = reclaim_devices-Reclaims vm 0 p.mem_devs v.numbered v.valid in
    (
      record p { mem_devs = devs' },
      ground (arith, e),
      record {
        reclaimed_owners = o;
        same_devices = t;
        same_size = refl;
        valid = record { segmented = v.segmented; numbered = n; valid = v' };
      },
    )
