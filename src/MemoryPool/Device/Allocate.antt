-- ===== src/MemoryPool/Device/Allocate.antt =====
-- `allocate_segments`: which segments a request gets, and that the device stays well formed.
use mathlib.Core.Path.{subst}
use ramryder.Prelude.{
  ℕ, zero, suc, ◌+◌, ◌≤◌, ◌<◌, ◌≡◌, refl, List, Option, none, some, arith, ℤ, pos, ◌+ℤ◌, Exec, done,
  length, set, fill, length-set, length-fill, fill-set, fill-zero, ◌∙◌, sym,
}
use ramryder.MemoryPool.Device.{
  MemorySegment, MemoryDaxDev, owned_segment, mark_segments, claim_segments, allocate_segments,
}
use ramryder.MemoryPool.Device.FirstFit.{IsFirstFit, find_free_segments-IsFirstFit}
use ramryder.MemoryPool.Device.Invariant.{IsValid, used_count-fill_owned, fill-IsTidy}

pub mark_segments-eq-fill :
    (segs : List MemorySegment) (vm : ℤ) (k n : ℕ)
    → k + n ≤ length segs
    → mark_segments segs vm k n ≡ done (fill segs k n (owned_segment vm))
unfolding mark_segments
mark_segments-eq-fill segs vm k zero h = ground (arith, fill-zero segs k (owned_segment vm))
mark_segments-eq-fill segs vm k (suc n) h = ground (
  arith,
  length-set segs k (owned_segment vm),
  mark_segments-eq-fill (set segs k (owned_segment vm)) vm (k + 1) n,
  fill-set segs k n (owned_segment vm),
)

-- The device after a request for `num` segments was answered by `found`.
abbrev pub granted : MemoryDaxDev → ℕ → ℤ → Option ℕ → MemoryDaxDev
granted dev num vm none = dev
granted dev num vm (some start) = record dev {
  segments = fill dev.segments start num (owned_segment vm);
  used_segments = dev.used_segments +ℤ pos num;
}

pub granted-IsValid :
    (dev : MemoryDaxDev) (num : ℕ) (vm : ℤ) (found : Option ℕ)
    → IsValid dev
    → IsFirstFit dev num 0 found
    → IsValid (granted dev num vm found)
unfolding ◌+ℤ◌
granted-IsValid dev num vm none v f = v
granted-IsValid dev num vm (some start) v f = record {
  sized = omega (arith, length-fill {0} dev.segments start num (owned_segment vm), v.sized);
  counted = ground (
    arith,
    v.counted,
    used_count-fill_owned dev.segments start num dev.total_segments vm f.1.fits v.sized f.1.free,
  );
  tidy =
      fill-IsTidy dev.segments start num (owned_segment vm) (omega (arith, v.sized, f.1.fits)) (cc)
        v.tidy;
}

claim_segments-eq-granted :
    (dev : MemoryDaxDev) (num : ℕ) (vm : ℤ) (found : Option ℕ)
    → IsValid dev
    → IsFirstFit dev num 0 found
    → claim_segments dev num vm found ≡ done (found, granted dev num vm found)
unfolding claim_segments
claim_segments-eq-granted dev num vm none v f = refl
claim_segments-eq-granted dev num vm (some start) v f =
    rw (mark_segments-eq-fill dev.segments vm start num (omega (arith, v.sized, f.1.fits)))

-- On a valid device, a request for at least one segment is answered by the lowest free window. Its
-- segments, and no others, then belong to the machine, and `used_segments` grows by their number;
-- where there is no window, the answer is -1 and the device is as before. The device stays valid.
pub allocate_segments_lem :
    (dev : MemoryDaxDev) (num : ℕ) (vm : ℤ)
    → IsValid dev
    → 0 < num
    → (found : Option ℕ) × (allocate_segments dev num vm ≡ done (found, granted dev num vm found))
      × IsFirstFit dev num 0 found
      × IsValid (granted dev num vm found)
unfolding allocate_segments
allocate_segments_lem dev num vm v h =
    let (found, e, f) = find_free_segments-IsFirstFit dev num v.sized in
    (
      found,
      ground (arith, claim_segments-eq-granted dev num vm found v f),
      f,
      granted-IsValid dev num vm found v f,
    )

granted-some :
    (dev dev' : MemoryDaxDev) (num start : ℕ) (vm : ℤ) (found : Option ℕ)
    → ◌≡◌ {A = Exec (Option ℕ × MemoryDaxDev)}
        (done (found, granted dev num vm found))
        (done (some start, dev'))
    → IsFirstFit dev num 0 found
    → IsValid (granted dev num vm found)
    → (dev' ≡ granted dev num vm (some start))
      × IsFirstFit dev num 0 (some start)
      × IsValid (granted dev num vm (some start))
granted-some dev dev' num start vm none e f v = absurd (cc)
granted-some dev dev' num start vm (some s) e f v =
    let p : s ≡ start = cc in
    (
      cc,
      subst (λ t. IsFirstFit dev num 0 (some t)) p f,
      subst (λ t. IsValid (granted dev num vm (some t))) p v,
    )

-- What a granted request says of the device before and after it.
pub allocate_segments-some :
    (dev dev' : MemoryDaxDev) (num start : ℕ) (vm : ℤ)
    → IsValid dev
    → 0 < num
    → allocate_segments dev num vm ≡ done (some start, dev')
    → (dev' ≡ granted dev num vm (some start))
      × IsFirstFit dev num 0 (some start)
      × IsValid (granted dev num vm (some start))
allocate_segments-some dev dev' num start vm v h e =
    let (found, e', f, v') = allocate_segments_lem dev num vm v h in
    granted-some dev dev' num start vm found (sym e' ∙ e) f v'
