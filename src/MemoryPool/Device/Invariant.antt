-- ===== src/MemoryPool/Device/Invariant.antt =====
-- What holds of a device between two calls, and how the two updates of its segments keep it.
use ramryder.Prelude.{
  ℕ, zero, suc, ◌+◌, ◌≤◌, ◌<◌, ◌≡◌, refl, true, false, List, [], ◌∷◌, some, arith, pos, ◌-ℤ◌,
  length, get_elem?, set, fill, length-replicate, replicate, length-set, get_elem?-set,
  get_elem?-fill, if◌then◌else◌, ℤ,
}
use ramryder.MemoryPool.Device.{MemorySegment, MemoryDaxDev, free_segment, owned_segment, free_at}
use ramryder.MemoryPool.Device.Windows.{is_free}

-- The number of taken segments among the first `n`.
pub used_count : ℕ → List MemorySegment → ℕ
used_count zero segs = 0
used_count (suc n) [] = 0
used_count (suc n) (s ∷ segs) = (if s.allocated then 1 else 0) + used_count n segs

-- A segment that is not taken holds no owner.
abbrev pub IsTidy : List MemorySegment → Type 0
IsTidy segs =
    (k : ℕ) (s : MemorySegment) → get_elem? segs k ≡ some s → s.allocated ≡ false → s ≡ free_segment

pub record IsValid (dev : MemoryDaxDev) : Type 0 where
  pub sized : dev.total_segments ≤ length dev.segments
  pub counted : dev.used_segments ≡ pos (used_count dev.total_segments dev.segments)
  pub tidy : IsTidy dev.segments

pub used_count-fill_owned :
    (segs : List MemorySegment) (k n total : ℕ) (vm : ℤ)
    → k + n ≤ total
    → total ≤ length segs
    → ((j : ℕ) → k ≤ j → j < k + n → is_free segs j ≡ true)
    → used_count total (fill segs k n (owned_segment vm)) ≡ used_count total segs + n
unfolding used_count
used_count-fill_owned [] k n total vm h t f = ground arith
used_count-fill_owned (x ∷ xs) zero zero total vm h t f = omega arith
used_count-fill_owned (x ∷ xs) zero (suc n) zero vm h t f = absurd (omega arith)
used_count-fill_owned (x ∷ xs) zero (suc n) (suc total) vm h t f = ground (
  arith,
  f 0 (omega arith) (omega arith),
  used_count-fill_owned xs zero n total vm (omega arith) (omega arith)
      (λ j p q. f (suc j) (omega arith) (omega arith)),
)
used_count-fill_owned (x ∷ xs) (suc k) n zero vm h t f = absurd (omega arith)
used_count-fill_owned (x ∷ xs) (suc k) n (suc total) vm h t f = omega (
  arith,
  used_count-fill_owned xs k n total vm (omega arith) (omega arith)
      (λ j p q. f (suc j) (omega arith) (omega arith)),
)

pub used_count-set_free :
    (segs : List MemorySegment) (k total : ℕ) (s : MemorySegment)
    → get_elem? segs k ≡ some s
    → s.allocated ≡ true
    → k < total
    → used_count total (set segs k free_segment) + 1 ≡ used_count total segs
unfolding used_count
used_count-set_free [] k total s e a h = absurd (cc)
used_count-set_free (x ∷ xs) zero zero s e a h = absurd (omega arith)
used_count-set_free (x ∷ xs) zero (suc total) s e a h = ground arith
used_count-set_free (x ∷ xs) (suc k) zero s e a h = absurd (omega arith)
used_count-set_free (x ∷ xs) (suc k) (suc total) s e a h =
    omega (arith, used_count-set_free xs k total s e a (omega arith))

pub fill-IsTidy :
    (segs : List MemorySegment) (k n : ℕ) (v : MemorySegment)
    → k + n ≤ length segs
    → (v.allocated ≡ false → v ≡ free_segment)
    → IsTidy segs
    → IsTidy (fill segs k n v)
fill-IsTidy segs k n v h clean tidy j s e a =
    ground (arith, get_elem?-fill segs k n j v h, tidy j s, clean)

pub set-IsTidy :
    (segs : List MemorySegment) (k : ℕ)
    → k < length segs
    → IsTidy segs
    → IsTidy (set segs k free_segment)
set-IsTidy segs k h tidy j s e a = ground (arith, get_elem?-set segs k j free_segment h, tidy j s)

-- Releasing one taken segment of the device keeps its invariant.
pub free_at-IsValid :
    (dev : MemoryDaxDev) (k : ℕ) (s : MemorySegment)
    → IsValid dev
    → get_elem? dev.segments k ≡ some s
    → s.allocated ≡ true
    → k < dev.total_segments
    → IsValid (free_at dev k)
unfolding free_at ◌-ℤ◌
free_at-IsValid dev k s v e a h = record {
  sized = omega (arith, length-set {0} dev.segments k free_segment, v.sized);
  counted =
      ground (arith, v.counted, used_count-set_free dev.segments k dev.total_segments s e a h);
  tidy = set-IsTidy dev.segments k (omega (arith, v.sized)) v.tidy;
}

replicate-IsTidy : (n : ℕ) → IsTidy (replicate n free_segment)
replicate-IsTidy zero k s e a = absurd (cc)
replicate-IsTidy (suc n) zero s e a = cc
replicate-IsTidy (suc n) (suc k) s e a = replicate-IsTidy n k s e a

used_count-replicate : (total n : ℕ) → used_count total (replicate n free_segment) ≡ 0
unfolding used_count
used_count-replicate zero n = refl
used_count-replicate (suc total) zero = refl
used_count-replicate (suc total) (suc n) = omega (arith, used_count-replicate total n)

-- A device with no segment in use is valid, if its segments fit into the array.
pub fresh-IsValid :
    (dev : MemoryDaxDev) (n : ℕ)
    → dev.total_segments ≤ n
    → IsValid (record dev { used_segments = pos 0; segments = replicate n free_segment })
fresh-IsValid dev n h = record {
  sized = omega (arith, length-replicate n free_segment);
  counted = ground (arith, used_count-replicate dev.total_segments n);
  tidy = replicate-IsTidy n;
}
