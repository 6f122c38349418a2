-- ===== src/MemoryPool/Pool/Release.antt =====
-- `memory_pool_release_segments`: what it gives back, and what it never touches.
use native.Mathlib.Nat.{mul-div_cancel, mul-mod_left}
use ramryder.Prelude.{
  ℕ, ◌+◌, ◌*◌, ◌/◌, ◌%◌, ◌≤◌, ◌<◌, ◌≡◌, ◌⊎◌, inl, inr, refl, true, false, Bool, none, some, arith,
  ℤ, pos, negsuc, minus_one, ◌==◌, ltb, ◌&&◌, if◌then◌else◌, pos_part, ◌-ℤ◌, Exec, done, length,
  get_elem?, get_elem?-lt, set, Bool-cases, Option-cases, ◌∙◌, ==ℤ_iff,
}
use ramryder.MemoryPool.Device.{MemoryDaxDev, is_aligned, release_segments, free_segment}
use ramryder.MemoryPool.Device.Alignment.{is_aligned_pos, is_aligned_negsuc}
use ramryder.MemoryPool.Device.Release.{is_owned, released, IsOwnedRun, release_segments-Releases}
use ramryder.MemoryPool.Pool.{Pool, find_device, release_on, memory_pool_release_segments}
use ramryder.MemoryPool.Pool.Lookup.{find_device-some, find_device-IsNumbered}
use ramryder.MemoryPool.Pool.Invariant.{IsValid, AllValid-at, set-IsValid}
use ramryder.MemoryPool.Pool.Owner.{owner, in_window, owner-fill, holder_at, owner-at}

-- Each segment keeps its owner, or it belonged to the machine and is free now.
abbrev pub OnlyFrees : Pool → ℤ → Pool → Type 0
OnlyFrees p vm p' =
    (j k : ℕ) → (owner p' j k ≡ owner p j k) ⊎ ((owner p j k ≡ some vm) × (owner p' j k ≡ none))

-- The pool after `n` segments from `start` on of device `i` were given back.
abbrev pub pool_released : Pool → ℕ → MemoryDaxDev → ℕ → ℕ → Pool
pool_released p i dev start n = record p { mem_devs = set p.mem_devs i (released dev start n) }

holder-owned :
    (dev : MemoryDaxDev) (vm : ℤ) (k : ℕ)
    → is_owned dev.segments vm k ≡ true
    → holder_at dev.segments k ≡ some vm
holder-owned dev vm k h = elim (Option-cases (get_elem? dev.segments k)) [
  | inl e ↦ absurd (ground arith)
  | inr (s, e) ↦ ground (arith, ==ℤ_iff s.used_vm_id vm)
]

pub owner-pool_released :
    (p : Pool) (i : ℕ) (dev : MemoryDaxDev) (start n : ℕ)
    → get_elem? p.mem_devs i ≡ some dev
    → start + n ≤ length dev.segments
    → (j k : ℕ)
    → owner (pool_released p i dev start n) j k
      ≡ (if in_window i start n j k then none else owner p j k)
owner-pool_released p i dev start n e h j k =
    owner-fill p i start n free_segment (dev.used_segments -ℤ pos n) dev e h j k

pool_released-OnlyFrees :
    (p : Pool) (vm : ℤ) (i : ℕ) (dev : MemoryDaxDev) (start count n : ℕ)
    → get_elem? p.mem_devs i ≡ some dev
    → start + count ≤ length dev.segments
    → IsOwnedRun dev vm start count n
    → OnlyFrees p vm (pool_released p i dev start n)
pool_released-OnlyFrees p vm i dev start count n e h r j k =
    let o = owner-pool_released p i dev start n e (omega (arith, r.short)) j k in
    elim (Bool-cases (in_window i start n j k)) [
      | inr out ↦ inl (ground arith)
      | inl inside ↦ inr (in_run (ground arith), ground arith)
    ]
  where
    in_run : (j ≡ i) × (start ≤ k) × (k < start + n) → owner p j k ≡ some vm
    in_run (ji, sk, kn) = rw ji (owner-at p i k dev e ∙ holder-owned dev vm k (r.owned k sk kn))

-- What a call of the release comes to.
abbrev pub Frees : Pool → ℤ → Exec (ℤ × Pool) → Type 0
Frees p vm run = (ret : ℤ) × (p' : Pool) × (run ≡ done (ret, p')) × OnlyFrees p vm p' × IsValid p'

release_on-Frees :
    (p : Pool) (vm : ℤ) (offset size i : ℕ) (dev : MemoryDaxDev)
    → IsValid p
    → get_elem? p.mem_devs i ≡ some dev
    → offset / p.segment_size_mb + size / p.segment_size_mb ≤ length dev.segments
    → Frees p vm (release_on p vm offset size (some i))
unfolding release_on
release_on-Frees p vm offset size i dev v e h =
    let start = offset / p.segment_size_mb in
    let count = size / p.segment_size_mb in
    let (n, er, r, vd) =
      release_segments-Releases dev vm start count (AllValid-at p.mem_devs i v.valid e) h in
    (
      if n == count then pos 0 else minus_one,
      pool_released p i dev start n,
      ground (arith, er),
      pool_released-OnlyFrees p vm i dev start count n e h r,
      set-IsValid p i dev (released dev start n) v e refl vd,
    )

-- The range that a call names lies within the array of segments of the device that it names.
abbrev pub IsInArray : Pool → ℤ → ℕ → ℕ → Type 0
IsInArray p node offset size =
    (i : ℕ) (dev : MemoryDaxDev)
    → find_device node p.mem_devs ≡ some i
    → get_elem? p.mem_devs i ≡ some dev
    → offset / p.segment_size_mb + size / p.segment_size_mb ≤ length dev.segments

Frees-none : (p : Pool) (vm : ℤ) → IsValid p → Frees p vm (done (minus_one, p))
Frees-none p vm v = (minus_one, p, refl, λ j k. inl refl, v)

find-Frees :
    (p : Pool) (node vm : ℤ) (offset size : ℕ)
    → IsValid p
    → IsInArray p node offset size
    → Frees p vm (release_on p vm offset size (find_device node p.mem_devs))
unfolding release_on
find-Frees p node vm offset size v h = elim (Option-cases (find_device node p.mem_devs)) [
  | inl e ↦ rw e (Frees-none p vm v)
  | inr (i, e) ↦
      let (dev, ed, en) = find_device-some node 0 i p.mem_devs v.numbered e in
      rw e (release_on-Frees p vm offset size i dev v ed (h i dev e ed))
]

is_aligned-total : (z : ℤ) (a : ℕ) → 0 < a → (b : Bool) × (is_aligned z a ≡ done b)
is_aligned-total (pos n) a h = (_, is_aligned_pos n a h)
is_aligned-total (negsuc n) a h = (false, is_aligned_negsuc n a)

-- Whatever size, offset, node and machine a release names, as long as the range lies within the
-- array of segments: the call ends without a fault, keeps the pool valid, and takes no segment from
-- another machine and gives none away: each segment keeps its owner, or it belonged to the named
-- machine and is free now.
pub memory_pool_release_segments-Frees :
    (p : Pool) (node vm offset size : ℤ)
    → IsValid p
    → IsInArray p node (pos_part offset) (pos_part size)
    → Frees p vm (memory_pool_release_segments p node vm offset size)
unfolding memory_pool_release_segments
memory_pool_release_segments-Frees p node vm offset size v h =
    let (bs, es) = is_aligned-total size p.segment_size_mb v.segmented in
    let (bo, eo) = is_aligned-total offset p.segment_size_mb v.segmented in
    let (ret, p', e, o, v') = find-Frees p node vm (pos_part offset) (pos_part size) v h in
    elim (Bool-cases (bs && bo)) [
      | inl both ↦ (ret, p', ground (arith, es, eo), o, v')
      | inr other ↦ (minus_one, p, ground (arith, es, eo), λ j k. inl refl, v)
    ]

whole_owned_run :
    (dev : MemoryDaxDev) (vm : ℤ) (start num n : ℕ)
    → start + num ≤ dev.total_segments
    → ((k : ℕ) → start ≤ k → k < start + num → is_owned dev.segments vm k ≡ true)
    → IsOwnedRun dev vm start num n
    → n ≡ num
whole_owned_run dev vm start num n fits own r = elim (Bool-cases (ltb n num)) [
  | inl short ↦
      absurd
        (ground (arith, r.maximal (ground arith), own (start + n) (omega arith) (ground arith)))
  | inr long ↦ ground (arith, r.short)
]

mul-mod_self : (n a : ℕ) → 0 < a → (n * a) % a ≡ 0
mul-mod_self n a h = mul-mod_left n a

pub release_on-pos :
    (p : Pool) (i start num : ℕ) (vm : ℤ)
    → IsValid p
    → i < length p.mem_devs
    → memory_pool_release_segments p
        (pos i)
        vm
        (pos (start * p.segment_size_mb))
        (pos (num * p.segment_size_mb))
      ≡ release_on p vm (start * p.segment_size_mb) (num * p.segment_size_mb) (some i)
unfolding memory_pool_release_segments
release_on-pos p i start num vm v h = ground (
  arith,
  is_aligned_pos (start * p.segment_size_mb) p.segment_size_mb v.segmented,
  is_aligned_pos (num * p.segment_size_mb) p.segment_size_mb v.segmented,
  mul-mod_self start p.segment_size_mb v.segmented,
  mul-mod_self num p.segment_size_mb v.segmented,
  find_device-IsNumbered 0 i p.mem_devs v.numbered h,
)

-- If the machine owns all `num` segments from `start` on of a device, the release of that range
-- succeeds, just these segments are free afterwards, and the pool stays valid.
pub memory_pool_release_segments-owned :
    (p : Pool) (i start num : ℕ) (vm : ℤ) (dev : MemoryDaxDev)
    → IsValid p
    → get_elem? p.mem_devs i ≡ some dev
    → start + num ≤ dev.total_segments
    → ((k : ℕ) → start ≤ k → k < start + num → is_owned dev.segments vm k ≡ true)
    → (memory_pool_release_segments p
          (pos i)
          vm
          (pos (start * p.segment_size_mb))
          (pos (num * p.segment_size_mb))
        ≡ done (pos 0, pool_released p i dev start num))
      × ((j k : ℕ)
          → owner (pool_released p i dev start num) j k
            ≡ (if in_window i start num j k then none else owner p j k))
      × IsValid (pool_released p i dev start num)
unfolding release_on
memory_pool_release_segments-owned p i start num vm dev v e fits own =
    let vdev = AllValid-at p.mem_devs i v.valid e in
    let within : start + num ≤ length dev.segments = omega (arith, vdev.sized) in
    let (n, er, r, vd) = release_segments-Releases dev vm start num vdev within in
    let whole = whole_owned_run dev vm start num n fits own r in
    let er' : release_segments dev vm start num ≡ done (pos 0, released dev start num) =
      ground (arith, er, whole) in
    (
      release_on-pos p i start num vm v (get_elem?-lt p.mem_devs i e)
          ∙ ground
              (arith, er', e, mul-div_cancel start v.segmented, mul-div_cancel num v.segmented),
      owner-pool_released p i dev start num e within,
      set-IsValid p i dev (released dev start num) v e refl (rw whole at vd),
    )
