-- ===== src/MemoryPool/Device/FirstFit.antt =====
-- `find_free_segments` is a first-fit search: it skips over segments that it has seen taken, and
-- still finds the lowest window.
use ramryder.Prelude.{
  ℕ, zero, suc, ◌+◌, ◌≤◌, ◌<◌, ◌≡◌, inl, inr, false, Option, none, some, arith, done, length, leb,
  Bool-cases, ◌==◌,
}
use ramryder.MemoryPool.Device.{MemoryDaxDev, find_from, find_free_segments}
use ramryder.MemoryPool.Device.Windows.{le_or_lt, is_free, IsFreeWindow, scan_segments-Scanned}

-- The lowest window from index `low` on, or none where there is none.
abbrev pub IsFirstFit : MemoryDaxDev → ℕ → ℕ → Option ℕ → Type 0
IsFirstFit dev num low none = (k : ℕ) → low ≤ k → ¬ IsFreeWindow dev num k
IsFirstFit dev num low (some start) =
    (low ≤ start)
    × IsFreeWindow dev num start
    × ((k : ℕ) → low ≤ k → k < start → ¬ IsFreeWindow dev num k)

-- No window starts at or below a segment that was seen taken.
not-IsFreeWindow :
    (dev : MemoryDaxDev) (num i j k : ℕ)
    → is_free dev.segments (i + j) ≡ false
    → j < num
    → i ≤ k
    → k ≤ i + j
    → ¬ IsFreeWindow dev num k
not-IsFreeWindow dev num i j k taken jn ik kj w = cc (w.free (i + j) kj (omega arith))

IsFirstFit-skip :
    (dev : MemoryDaxDev) (num i j : ℕ) (r : Option ℕ)
    → is_free dev.segments (i + j) ≡ false
    → j < num
    → IsFirstFit dev num (i + j + 1) r
    → IsFirstFit dev num i r
IsFirstFit-skip dev num i j none taken jn f = λ k ik. elim (le_or_lt k (i + j)) [
  | inl le ↦ not-IsFreeWindow dev num i j k taken jn ik le
  | inr lt ↦ f k (omega arith)
]
IsFirstFit-skip dev num i j (some start) taken jn (low, w, least) = (
  omega arith,
  w,
  λ k ik ks. elim (le_or_lt k (i + j)) [
    | inl le ↦ not-IsFreeWindow dev num i j k taken jn ik le
    | inr lt ↦ least k (omega arith) ks
  ],
)

find_from-IsFirstFit :
    (dev : MemoryDaxDev) (num fuel i : ℕ)
    → dev.total_segments ≤ length dev.segments
    → dev.total_segments + 1 < i + fuel
    → i ≤ dev.total_segments + 1
    → (r : Option ℕ) × (find_from dev num fuel i ≡ done r) × IsFirstFit dev num i r
unfolding find_from
find_from-IsFirstFit dev num zero i sized enough low = absurd (omega arith)
find_from-IsFirstFit dev num (suc fuel) i sized enough low =
    elim (Bool-cases (leb (i + num) dev.total_segments)) [
      | inr over ↦ (none, ground arith, λ k ik w. absurd (ground (arith, w.fits)))
      | inl room ↦
          let (j, ej, v) =
            scan_segments-Scanned dev.segments i 0 num num (omega arith) (ground arith) in
          elim (Bool-cases (j == num)) [
            | inl whole ↦ (
              some i,
              ground arith,
              (
                omega arith,
                record {
                  fits = ground arith;
                  free = λ k ik kn. v.seen k (omega arith) (ground arith);
                },
                λ k ik ki. absurd (omega arith),
              ),
            )
            | inr part ↦
                let (r, er, f) =
                  find_from-IsFirstFit dev num fuel (i + j + 1) sized (omega arith)
                    (ground (arith)) in
                (
                  r,
                  ground arith,
                  IsFirstFit-skip dev num i j r (v.stopped (ground arith)) (ground arith) f,
                )
          ]
    ]

-- On a device whose segments all exist the search ends, reads nothing out of bounds, and returns
-- the lowest index at which the wanted number of free segments stands side by side on the device,
-- or -1 exactly where there is no such index.
pub find_free_segments-IsFirstFit :
    (dev : MemoryDaxDev) (num : ℕ)
    → dev.total_segments ≤ length dev.segments
    → (r : Option ℕ) × (find_free_segments dev num ≡ done r) × IsFirstFit dev num 0 r
unfolding find_free_segments
find_free_segments-IsFirstFit dev num sized =
    find_from-IsFirstFit dev num (dev.total_segments + 2) 0 sized (omega arith) (omega arith)
