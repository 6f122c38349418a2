-- ===== src/MemoryPool/Device/Reclaim.antt =====
-- The inner loop of `memory_pool_release_vm_memory`: all segments of one machine on one device.
use mathlib.Core.Option
use ramryder.Prelude.{
  ℕ, zero, suc, ◌+◌, ◌≡◌, refl, true, false, List, [], ◌∷◌, some, arith, ℤ, ◌==ℤ◌, done, get_elem?,
  get_elem?-total, set, ap, Bool-cases, inl, inr, ◌&&◌, if◌then◌else◌, leb, ltb,
}
use ramryder.MemoryPool.Device.{MemorySegment, MemoryDaxDev, free_segment, free_at, release_owned}
use ramryder.MemoryPool.Device.Invariant.{IsValid, free_at-IsValid}

-- A segment is set free if the machine owns it.
abbrev pub disowned : ℤ → MemorySegment → MemorySegment
disowned vm s = if s.allocated && s.used_vm_id ==ℤ vm then free_segment else s

-- The `n` segments from `k` on, where they exist, with those of the machine set free.
abbrev pub disown : ℤ → List MemorySegment → ℕ → ℕ → List MemorySegment
disown vm [] k n = []
disown vm (s ∷ segs) zero zero = s ∷ segs
disown vm (s ∷ segs) zero (suc n) = disowned vm s ∷ disown vm segs zero n
disown vm (s ∷ segs) (suc k) n = s ∷ disown vm segs k n

disown-zero : (vm : ℤ) (segs : List MemorySegment) (k : ℕ) → disown vm segs k zero ≡ segs
disown-zero vm [] k = refl
disown-zero vm (s ∷ segs) zero = refl
disown-zero vm (s ∷ segs) (suc k) = ap (◌∷◌ s) (disown-zero vm segs k)

disown-step :
    (vm : ℤ) (segs : List MemorySegment) (k n : ℕ) (s : MemorySegment)
    → get_elem? segs k ≡ some s
    → disown vm
        (if s.allocated && s.used_vm_id ==ℤ vm then set segs k free_segment else segs)
        (suc k)
        n
      ≡ disown vm segs k (suc n)
disown-step vm [] k n s e = absurd (cc)
disown-step vm (x ∷ xs) zero n s e = ground arith
disown-step vm (x ∷ xs) (suc k) n s e = ground (arith, disown-step vm xs k n s e)

-- Segment by segment.
pub get_elem?-disown :
    (vm : ℤ) (segs : List MemorySegment) (k n j : ℕ)
    → get_elem? (disown vm segs k n) j ≡ (
        if leb k j && ltb j (k + n)
        then Option.map (disowned vm) (get_elem? segs j)
        else get_elem? segs j)
get_elem?-disown vm [] k n j = ground arith
get_elem?-disown vm (x ∷ xs) zero zero j = ground arith
get_elem?-disown vm (x ∷ xs) zero (suc n) zero = ground arith
get_elem?-disown vm (x ∷ xs) zero (suc n) (suc j) = ground (arith, get_elem?-disown vm xs zero n j)
get_elem?-disown vm (x ∷ xs) (suc k) n zero = ground arith
get_elem?-disown vm (x ∷ xs) (suc k) n (suc j) = ground (arith, get_elem?-disown vm xs k n j)

-- The device after the segments from `j` on were gone over.
abbrev pub reclaimed : MemoryDaxDev → ℤ → ℕ → ℕ → ℤ → MemoryDaxDev
reclaimed dev vm j left used = record dev {
  segments = disown vm dev.segments j left;
  used_segments = used;
}

-- What reclaiming the `left` segments from `j` on comes to.
abbrev pub Reclaims : MemoryDaxDev → ℤ → ℕ → ℕ → Type 0
Reclaims dev vm j left =
    (used : ℤ) × (release_owned dev vm j left ≡ done (reclaimed dev vm j left used))
    × IsValid (reclaimed dev vm j left used)

reclaimed-owned :
    (dev : MemoryDaxDev) (vm : ℤ) (j left : ℕ) (s : MemorySegment) (used : ℤ)
    → get_elem? dev.segments j ≡ some s
    → (s.allocated && s.used_vm_id ==ℤ vm) ≡ true
    → reclaimed (free_at dev j) vm (j + 1) left used ≡ reclaimed dev vm j (suc left) used
unfolding free_at
reclaimed-owned dev vm j left s used e own = ground (arith, disown-step vm dev.segments j left s e)

reclaimed-other :
    (dev : MemoryDaxDev) (vm : ℤ) (j left : ℕ) (s : MemorySegment) (used : ℤ)
    → get_elem? dev.segments j ≡ some s
    → (s.allocated && s.used_vm_id ==ℤ vm) ≡ false
    → reclaimed dev vm (j + 1) left used ≡ reclaimed dev vm j (suc left) used
reclaimed-other dev vm j left s used e own = ground (arith, disown-step vm dev.segments j left s e)

rest_of :
    (dev : MemoryDaxDev) (j left : ℕ)
    → j + suc left ≡ dev.total_segments
    → j + 1 + left ≡ (free_at dev j).total_segments
unfolding free_at
rest_of dev j left h = omega arith

-- On a valid device, going over its last `left` segments, from `j` on, ends, reads nothing out of
-- bounds, sets free just those that the machine owns, and keeps the device valid.
pub release_owned-Reclaims :
    (dev : MemoryDaxDev) (vm : ℤ) (j left : ℕ)
    → IsValid dev
    → j + left ≡ dev.total_segments
    → Reclaims dev vm j left
unfolding release_owned
release_owned-Reclaims dev vm j zero v h =
    let same : dev ≡ reclaimed dev vm j zero dev.used_segments =
      ground (arith, disown-zero vm dev.segments j) in
    (dev.used_segments, ap done same, rw (← same) v)
release_owned-Reclaims dev vm j (suc left) v h =
    let (s, e) = get_elem?-total dev.segments j (omega (arith, v.sized)) in
    elim (Bool-cases (s.allocated && s.used_vm_id ==ℤ vm)) [
      | inl own ↦
          let (used, er, w) =
            release_owned-Reclaims (free_at dev j) vm (j + 1) left
              (free_at-IsValid dev j s v e (ground arith) (omega arith)) (rest_of dev j left h) in
          let same = reclaimed-owned dev vm j left s used e own in
          (used, ground (arith, same), rw (← same) w)
      | inr other ↦
          let (used, er, w) = release_owned-Reclaims dev vm (j + 1) left v (omega arith) in
          let same = reclaimed-other dev vm j left s used e other in
          (used, ground (arith, same), rw (← same) w)
    ]
