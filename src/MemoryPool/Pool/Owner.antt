-- ===== src/MemoryPool/Pool/Owner.antt =====
-- The pool as its clients see it: which machine owns which segment of which device.
use ramryder.Prelude.{
  zero, suc, refl, [], ◌∷◌, replicate, ℕ, ◌+◌, ◌≤◌, ◌≡◌, Bool, List, Option, none, some, arith, ℤ,
  length, get_elem?, set, get_elem?-set, get_elem?-fill, get_elem?-lt, fill, ◌==◌, leb, ltb, ◌&&◌,
  if◌then◌else◌,
}
use ramryder.MemoryPool.Device.{MemorySegment, MemoryDaxDev, free_segment, max_segments}
use ramryder.MemoryPool.Pool.{Pool}
use ramryder.MemoryPool.Pool.Invariant.{init_all}

abbrev pub holder : MemorySegment → Option ℤ
holder s = if s.allocated then some s.used_vm_id else none

-- The owner of segment `k` in an array of segments.
abbrev pub holder_at : List MemorySegment → ℕ → Option ℤ
holder_at segs k = elim (get_elem? segs k) [ none ↦ none | some s ↦ holder s ]

-- The owner of segment `k` of device `i`.
unfoldable pub owner : Pool → ℕ → ℕ → Option ℤ
owner p i k = elim (get_elem? p.mem_devs i) [ none ↦ none | some d ↦ holder_at d.segments k ]

-- Segment `k` of device `j` lies among the `num` from `start` on of device `i`.
abbrev pub in_window : ℕ → ℕ → ℕ → ℕ → ℕ → Bool
in_window i start num j k = i == j && (leb start k && ltb k (start + num))

pub owner-at :
    (p : Pool) (i k : ℕ) (d : MemoryDaxDev)
    → get_elem? p.mem_devs i ≡ some d
    → owner p i k ≡ holder_at d.segments k
unfolding owner
owner-at p i k d e = ground arith

-- The owners after a run of segments on one device was overwritten.
pub owner-fill :
    (p : Pool) (i start num : ℕ) (v : MemorySegment) (used : ℤ) (d : MemoryDaxDev)
    → get_elem? p.mem_devs i ≡ some d
    → start + num ≤ length d.segments
    → (j k : ℕ)
    → owner
        (record p {
          mem_devs =
              set p.mem_devs i
                (record d { segments = fill d.segments start num v; used_segments = used });
        })
        j
        k
      ≡ (if in_window i start num j k then holder v else owner p j k)
unfolding owner
owner-fill p i start num v used d e h j k = ground (
  arith,
  get_elem?-lt p.mem_devs i e,
  get_elem?-set p.mem_devs i j
      (record d { segments = fill d.segments start num v; used_segments = used }),
  get_elem?-fill d.segments start num k v h,
)

pub holder_at-replicate : (n k : ℕ) → holder_at (replicate n free_segment) k ≡ none
holder_at-replicate zero k = refl
holder_at-replicate (suc n) zero = refl
holder_at-replicate (suc n) (suc k) = holder_at-replicate n k

-- No segment of a table that was just set up has an owner.
pub owner-init_all :
    (segment_size low : ℕ) (devs : List MemoryDaxDev) (j k : ℕ)
    → owner
        (record { mem_devs = init_all segment_size low devs; segment_size_mb = segment_size })
        j
        k
      ≡ none
unfolding owner
owner-init_all segment_size low [] j k = refl
owner-init_all segment_size low (d ∷ devs) zero k = holder_at-replicate max_segments k
owner-init_all segment_size low (d ∷ devs) (suc j) k =
    owner-init_all segment_size (low + 1) devs j k
