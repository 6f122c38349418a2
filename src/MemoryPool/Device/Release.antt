-- ===== src/MemoryPool/Device/Release.antt =====
-- `release_segments` and the inner loop of `memory_pool_release_vm_memory`.
use ramryder.Prelude.{
  ℕ, zero, suc, ◌+◌, ◌≤◌, ◌<◌, ◌≡◌, refl, true, false, Bool, List, none, some, arith, ℤ, pos,
  minus_one, ◌-ℤ◌, ◌==ℤ◌, done, length, get_elem?, fill, length-set, fill-set, fill-zero,
  get_elem?-total, get_elem?-set, ◌==◌, if◌then◌else◌, ltb, ◌&&◌, Bool-cases, inl, inr,
}
use ramryder.MemoryPool.Device.{
  MemorySegment, MemoryDaxDev, free_segment, free_at, release_segments,
}
use ramryder.MemoryPool.Device.Windows.{eq_or_lt}
use ramryder.MemoryPool.Device.Invariant.{IsValid, free_at-IsValid}

-- The machine owns segment `k`.
abbrev pub is_owned : List MemorySegment → ℤ → ℕ → Bool
is_owned segs vm k = elim (get_elem? segs k) [
  | none ↦ false
  | some s ↦ s.allocated && s.used_vm_id ==ℤ vm
]

-- The device after `n` segments from `idx` on were given back.
abbrev pub released : MemoryDaxDev → ℕ → ℕ → MemoryDaxDev
released dev idx n = record dev {
  segments = fill dev.segments idx n free_segment;
  used_segments = dev.used_segments -ℤ pos n;
}

-- The first `n` of `count` segments from `idx` on are on the device and belong to the machine, and
-- the next one, if `n` is short of `count`, does not.
pub record IsOwnedRun (dev : MemoryDaxDev) (vm : ℤ) (idx count n : ℕ) : Type 0 where
  pub short : n ≤ count
  pub on_device : (k : ℕ) → idx ≤ k → k < idx + n → k < dev.total_segments
  pub owned : (k : ℕ) → idx ≤ k → k < idx + n → is_owned dev.segments vm k ≡ true
  pub maximal :
      n < count → (ltb (idx + n) dev.total_segments && is_owned dev.segments vm (idx + n)) ≡ false

released-zero : (dev : MemoryDaxDev) (idx : ℕ) → dev ≡ released dev idx zero
unfolding ◌-ℤ◌
released-zero dev idx = ground (arith, fill-zero dev.segments idx free_segment)

released-free_at :
    (dev : MemoryDaxDev) (idx n : ℕ)
    → idx < length dev.segments
    → released (free_at dev idx) (idx + 1) n ≡ released dev idx (suc n)
unfolding free_at ◌-ℤ◌
released-free_at dev idx n h = ground (arith, fill-set dev.segments idx n free_segment h)

-- The segments above `idx` are as before.
is_owned-free_at :
    (dev : MemoryDaxDev) (vm : ℤ) (idx k : ℕ)
    → idx < length dev.segments
    → idx < k
    → is_owned (free_at dev idx).segments vm k ≡ is_owned dev.segments vm k
unfolding free_at
is_owned-free_at dev vm idx k h lt = ground (arith, get_elem?-set dev.segments idx k free_segment h)

room :
    (dev : MemoryDaxDev) (idx count : ℕ)
    → idx + suc count ≤ length dev.segments
    → idx + 1 + count ≤ length (free_at dev idx).segments
unfolding free_at
room dev idx count h = omega (arith, length-set {0} dev.segments idx free_segment)

extend :
    (dev : MemoryDaxDev) (vm : ℤ) (idx left n : ℕ)
    → idx < length dev.segments
    → idx < dev.total_segments
    → is_owned dev.segments vm idx ≡ true
    → IsOwnedRun (free_at dev idx) vm (idx + 1) left n
    → IsOwnedRun dev vm idx (suc left) (suc n)
unfolding free_at
extend dev vm idx left n h t own r = record {
  short = omega (arith, r.short);
  on_device = λ k p q. elim (eq_or_lt idx k p) [
    | inl e ↦ omega arith
    | inr lt ↦ r.on_device k (omega arith) (omega arith)
  ];
  owned = λ k p q. elim (eq_or_lt idx k p) [
    | inl e ↦ rw (← e) own
    | inr lt ↦ rw (← is_owned-free_at dev vm idx k h lt) (r.owned k (omega arith) (omega arith))
  ];
  maximal = λ m.
      ground
        (arith, r.maximal (omega arith), is_owned-free_at dev vm idx (idx + suc n) h (omega arith));
}

-- What releasing `count` segments from `idx` on comes to.
abbrev pub Releases : MemoryDaxDev → ℤ → ℕ → ℕ → Type 0
Releases dev vm idx count =
    (n : ℕ) × (release_segments dev vm idx count
      ≡ done (if n == count then pos 0 else minus_one, released dev idx n))
    × IsOwnedRun dev vm idx count n
    × IsValid (released dev idx n)

Releases-none :
    (dev : MemoryDaxDev) (vm : ℤ) (idx count : ℕ)
    → IsValid dev
    → release_segments dev vm idx count ≡ done (if 0 == count then pos 0 else minus_one, dev)
    → (0 < count → (ltb idx dev.total_segments && is_owned dev.segments vm idx) ≡ false)
    → Releases dev vm idx count
Releases-none dev vm idx count v e last = (
  0,
  ground (arith, released-zero dev idx),
  record {
    short = omega arith;
    on_device = λ k p q. absurd (omega arith);
    owned = λ k p q. absurd (omega arith);
    maximal = λ m. ground (arith, last m);
  },
  rw (← released-zero dev idx) v,
)

Releases-more :
    (dev : MemoryDaxDev) (vm : ℤ) (idx count : ℕ) (s : MemorySegment)
    → idx < length dev.segments
    → get_elem? dev.segments idx ≡ some s
    → (ltb idx dev.total_segments && (s.allocated && s.used_vm_id ==ℤ vm)) ≡ true
    → Releases (free_at dev idx) vm (idx + 1) count
    → Releases dev vm idx (suc count)
unfolding release_segments
Releases-more dev vm idx count s h e own (n, er, r, w) = (
  suc n,
  ground (arith, released-free_at dev idx n h),
  extend dev vm idx count n h (ground arith) (ground arith) r,
  rw (← released-free_at dev idx n h) w,
)

-- On a valid device, releasing `count` segments from `idx` on, which lie within the array, ends and
-- reads nothing out of bounds. It gives back the longest run of them from `idx` on that is on the device
-- and belongs to the machine, and returns 0 exactly if that run is all of them; the other segments
-- are as before, and the device stays valid.
pub release_segments-Releases :
    (dev : MemoryDaxDev) (vm : ℤ) (idx count : ℕ)
    → IsValid dev
    → idx + count ≤ length dev.segments
    → Releases dev vm idx count
unfolding release_segments
release_segments-Releases dev vm idx zero v h =
    Releases-none dev vm idx zero v refl (λ m. absurd (omega arith))
release_segments-Releases dev vm idx (suc count) v h =
    let (s, e) = get_elem?-total dev.segments idx (omega arith) in
    elim (Bool-cases (ltb idx dev.total_segments && (s.allocated && s.used_vm_id ==ℤ vm))) [
      | inl own ↦ Releases-more dev vm idx count s (omega arith) e own (
          release_segments-Releases (free_at dev idx) vm (idx + 1) count
            (free_at-IsValid dev idx s v e (ground arith) (ground arith)) (room dev idx count h))
      | inr other ↦ Releases-none dev vm idx (suc count) v (ground arith) (λ m. ground arith)
    ]
