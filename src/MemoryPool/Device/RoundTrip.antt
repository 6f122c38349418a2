-- ===== src/MemoryPool/Device/RoundTrip.antt =====
-- Giving back what was just handed out.
use ramryder.Prelude.{
  ℕ, zero, suc, ◌+◌, ◌≤◌, ◌<◌, ◌≡◌, refl, true, List, [], ◌∷◌, some, arith, ℤ, pos, ◌+ℤ◌, ◌-ℤ◌,
  ==ℤ_iff, done, length, get_elem?, fill, length-fill, fill-fill, get_elem?-fill, ap, ltb,
  Bool-cases, Option-cases, inl, inr,
}
use ramryder.MemoryPool.Device.{
  MemorySegment, MemoryDaxDev, free_segment, owned_segment, allocate_segments, release_segments,
}
use ramryder.MemoryPool.Device.Windows.{is_free, IsFreeWindow}
use ramryder.MemoryPool.Device.Invariant.{IsValid, IsTidy}
use ramryder.MemoryPool.Device.Allocate.{granted, allocate_segments-some}
use ramryder.MemoryPool.Device.Release.{is_owned, released, IsOwnedRun, release_segments-Releases}

fill_self :
    (segs : List MemorySegment) (k n : ℕ) (v : MemorySegment)
    → k + n ≤ length segs
    → ((j : ℕ) → k ≤ j → j < k + n → get_elem? segs j ≡ some v)
    → fill segs k n v ≡ segs
fill_self [] k n v h f = refl
fill_self (x ∷ xs) zero zero v h f = refl
fill_self (x ∷ xs) zero (suc n) v h f = ground (
  arith,
  f 0 (omega arith) (omega arith),
  fill_self xs zero n v (omega arith) (λ j p q. f (suc j) (omega arith) (omega arith)),
)
fill_self (x ∷ xs) (suc k) n v h f =
    ap (◌∷◌ x) (fill_self xs k n v (omega arith) (λ j p q. f (suc j) (omega arith) (omega arith)))

free-eq-free_segment :
    (segs : List MemorySegment) (k : ℕ)
    → IsTidy segs
    → is_free segs k ≡ true
    → get_elem? segs k ≡ some free_segment
free-eq-free_segment segs k tidy f = elim (Option-cases (get_elem? segs k)) [
  | inl e ↦ absurd (ground arith)
  | inr (s, e) ↦ ground (arith, tidy k s)
]

pub released-granted :
    (dev : MemoryDaxDev) (num start : ℕ) (vm : ℤ)
    → IsValid dev
    → IsFreeWindow dev num start
    → released (granted dev num vm (some start)) start num ≡ dev
unfolding ◌+ℤ◌ ◌-ℤ◌
released-granted dev num start vm v w = ground (
  arith,
  fill-fill dev.segments start num (owned_segment vm) free_segment,
  fill_self dev.segments start num free_segment (omega (arith, v.sized, w.fits))
      (λ j p q. free-eq-free_segment dev.segments j v.tidy (w.free j p q)),
)

pub is_owned-granted :
    (dev : MemoryDaxDev) (num start k : ℕ) (vm : ℤ)
    → start + num ≤ length dev.segments
    → start ≤ k
    → k < start + num
    → is_owned (granted dev num vm (some start)).segments vm k ≡ true
is_owned-granted dev num start k vm h p q =
    ground (arith, get_elem?-fill dev.segments start num k (owned_segment vm) h, ==ℤ_iff vm vm)

whole_run :
    (dev : MemoryDaxDev) (num start n : ℕ) (vm : ℤ)
    → IsValid dev
    → IsFreeWindow dev num start
    → IsOwnedRun (granted dev num vm (some start)) vm start num n
    → n ≡ num
whole_run dev num start n vm v w r = elim (Bool-cases (ltb n num)) [
  | inl short ↦ absurd (
      ground (
        arith,
        r.maximal (ground arith),
        is_owned-granted dev num start (start + n) vm (omega (arith, v.sized, w.fits)) (omega arith)
            (ground arith),
        w.fits,
      ))
  | inr long ↦ ground (arith, r.short)
]

pub release-granted :
    (dev : MemoryDaxDev) (num start : ℕ) (vm : ℤ)
    → IsValid dev
    → IsFreeWindow dev num start
    → IsValid (granted dev num vm (some start))
    → release_segments (granted dev num vm (some start)) vm start num ≡ done (pos 0, dev)
release-granted dev num start vm v w v' =
    let (n, e, r, _) =
      release_segments-Releases (granted dev num vm (some start)) vm start num v' (
        omega
          (arith, length-fill {0} dev.segments start num (owned_segment vm), v.sized, w.fits)) in
    ground (arith, e, whole_run dev num start n vm v w r, released-granted dev num start vm v w)

-- When a request for at least one segment is granted on a valid device, releasing the segments at once in the name of
-- the same machine succeeds and restores the device exactly.
pub release-allocate :
    (dev dev' : MemoryDaxDev) (num start : ℕ) (vm : ℤ)
    → IsValid dev
    → 0 < num
    → allocate_segments dev num vm ≡ done (some start, dev')
    → release_segments dev' vm start num ≡ done (pos 0, dev)
release-allocate dev dev' num start vm v h e =
    let (p, f, v') = allocate_segments-some dev dev' num start vm v h e in
    rw p (release-granted dev num start vm v f.1 v')
