-- ===== src/MemoryPool/Device/Windows.antt =====
-- Runs of free segments, and what one pass of the inner loop of `find_free_segments` finds.
use ramryder.Prelude.{
  ℕ, zero, suc, ◌+◌, ◌≤◌, ◌<◌, ◌≡◌, ◌⊎◌, inl, inr, refl, Bool, true, false, not, List, none, some,
  arith, done, Bool-cases, length, get_elem?, get_elem?-total,
}
use ramryder.MemoryPool.Device.{MemorySegment, MemoryDaxDev, scan_segments}

pub eq_or_lt : (a b : ℕ) → a ≤ b → (a ≡ b) ⊎ (a < b)
eq_or_lt a b h = omega arith

pub le_or_lt : (a b : ℕ) → (a ≤ b) ⊎ (b < a)
le_or_lt a b = omega arith

-- Segment `k` exists and is free.
abbrev pub is_free : List MemorySegment → ℕ → Bool
is_free segs k = elim (get_elem? segs k) [ none ↦ false | some s ↦ not s.allocated ]

-- `num` segments from `start` on lie on the device and are free.
pub record IsFreeWindow (dev : MemoryDaxDev) (num start : ℕ) : Type 0 where
  pub fits : start + num ≤ dev.total_segments
  pub free : (k : ℕ) → start ≤ k → k < start + num → is_free dev.segments k ≡ true

-- What the inner loop reports: it stops at the first segment that is taken, or after `num`.
pub record Scanned (segs : List MemorySegment) (i j num r : ℕ) : Type 0 where
  pub above : j ≤ r
  pub below : r ≤ num
  pub seen : (k : ℕ) → i + j ≤ k → k < i + r → is_free segs k ≡ true
  pub stopped : r < num → is_free segs (i + r) ≡ false

extend :
    (segs : List MemorySegment) (i j num r : ℕ)
    → Scanned segs i (j + 1) num r
    → is_free segs (i + j) ≡ true
    → Scanned segs i j num r
extend segs i j num r v clear = record {
  above = omega arith;
  below = v.below;
  seen = λ k p q. elim (eq_or_lt (i + j) k p) [
    | inl e ↦ rw (← e) clear
    | inr lt ↦ v.seen k (omega arith) q
  ];
  stopped = v.stopped;
}

pub scan_segments-Scanned :
    (segs : List MemorySegment) (i j left num : ℕ)
    → j + left ≡ num
    → i + num ≤ length segs
    → (r : ℕ) × (scan_segments segs i j left ≡ done r) × Scanned segs i j num r
unfolding scan_segments
scan_segments-Scanned segs i j zero num e h = (
  j,
  refl,
  record {
    above = omega arith;
    below = omega arith;
    seen = λ k p q. absurd (omega arith);
    stopped = λ q. absurd (omega arith);
  },
)
scan_segments-Scanned segs i j (suc left) num e h =
    let (s, es) = get_elem?-total segs (i + j) (omega arith) in
    elim (Bool-cases s.allocated) [
      | inl taken ↦ (
        j,
        ground arith,
        record {
          above = omega arith;
          below = omega arith;
          seen = λ k p q. absurd (omega arith);
          stopped = λ q. ground arith;
        },
      )
      | inr clear ↦
          let (r, er, v) = scan_segments-Scanned segs i (j + 1) left num (omega arith) h in
          (r, ground arith, extend segs i j num r v (ground arith))
    ]
