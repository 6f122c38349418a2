-- ===== src/MemoryPool/Device.antt =====
-- src/memory_pool.c, the static functions that work on one DAX device. Sizes, counts and indices
-- are natural numbers, since the code only ever holds values of zero or more there; the virtual
-- machine that owns a segment is an `int`. Log messages are left out.
pub mod Alignment
pub mod Windows
pub mod FirstFit
pub mod Invariant
pub mod Allocate
pub mod Release
pub mod RoundTrip
pub mod Reclaim
pub mod Tests
use ramryder.Prelude.{
  ℕ, zero, suc, ◌+◌, ◌-◌, ◌%◌, Bool, true, false, not, ◌&&◌, List, Option, none, some, ℤ, pos,
  negsuc, minus_one, ◌+ℤ◌, ◌-ℤ◌, ◌==ℤ◌, Exec, done, abort, ◌>>=◌, ◌>>◌, stop_if, assert_failed,
  out_of_fuel, division_by_zero, read, write, set, ltb, leb, ◌==◌, if◌then◌else◌,
}

abbrev pub max_devices : ℕ
max_devices = 10

abbrev pub max_segments : ℕ
max_segments = 4096

pub record MemorySegment : Type 0 where
  pub allocated : Bool
  pub used_vm_id : ℤ

pub record MemoryDaxDev : Type 0 where
  pub dev_path : List ℕ
  pub node_id : ℤ
  pub tier_id : ℤ
  pub dax_id : ℤ
  pub total_size_mb : ℕ
  pub total_segments : ℕ
  pub used_segments : ℤ
  pub segments : List MemorySegment

-- What the code writes to a segment that it sets free, and to one that it hands out.
abbrev pub free_segment : MemorySegment
free_segment = record { allocated = false; used_vm_id = minus_one }

abbrev pub owned_segment : ℤ → MemorySegment
owned_segment vm_id = record { allocated = true; used_vm_id = vm_id }

-- `value % alignment` traps when the alignment is zero; a negative value is refused before that.
pub is_aligned : ℤ → ℕ → Exec Bool
is_aligned (negsuc v) alignment = done false
is_aligned (pos v) alignment =
    if alignment == 0 then abort division_by_zero else done (v % alignment == 0)

-- The inner loop of `find_free_segments`: `j` free segments are seen from `i` on, `left` are to go.
pub scan_segments : List MemorySegment → ℕ → ℕ → ℕ → Exec ℕ
scan_segments segs i j zero = done j
scan_segments segs i j (suc left) = do
  s ← read segs (i + j)
  elim s.allocated [ true ↦ done j | false ↦ scan_segments segs i (j + 1) left ]

-- The outer loop, with fuel. `i <= total_segments - num_segments` is over signed numbers.
pub find_from : MemoryDaxDev → ℕ → ℕ → ℕ → Exec (Option ℕ)
find_from dev num_segments zero i = abort out_of_fuel
find_from dev num_segments (suc fuel) i = elim (leb (i + num_segments) dev.total_segments) [
  | false ↦ done none
  | true ↦ scan_segments dev.segments i 0 num_segments >>= λ j. elim (j == num_segments) [
    | true ↦ done (some i)
    | false ↦ find_from dev num_segments fuel (i + j + 1)
  ]
]

pub find_free_segments : MemoryDaxDev → ℕ → Exec (Option ℕ)
find_free_segments dev num_segments = find_from dev num_segments (dev.total_segments + 2) 0

-- The loop of `allocate_segments`, from segment `k` on.
pub mark_segments : List MemorySegment → ℤ → ℕ → ℕ → Exec (List MemorySegment)
mark_segments segs vm_id k zero = done segs
mark_segments segs vm_id k (suc left) = do
  segs' ← write segs k (owned_segment vm_id)
  mark_segments segs' vm_id (k + 1) left

-- The part of `allocate_segments` behind the search.
pub claim_segments : MemoryDaxDev → ℕ → ℤ → Option ℕ → Exec (Option ℕ × MemoryDaxDev)
claim_segments dev num_segments vm_id none = done (none, dev)
claim_segments dev num_segments vm_id (some start) = do
  segs ← mark_segments dev.segments vm_id start num_segments
  done (
    some start,
    record dev { segments = segs; used_segments = dev.used_segments +ℤ pos num_segments },
  )

pub allocate_segments : MemoryDaxDev → ℕ → ℤ → Exec (Option ℕ × MemoryDaxDev)
allocate_segments dev num_segments vm_id = do
  stop_if (num_segments == 0) assert_failed
  found ← find_free_segments dev num_segments
  claim_segments dev num_segments vm_id found

-- `used_segments--` and the two writes to segment `idx`.
pub free_at : MemoryDaxDev → ℕ → MemoryDaxDev
free_at dev idx = record dev {
  segments = set dev.segments idx free_segment;
  used_segments = dev.used_segments -ℤ pos 1;
}

-- Segment `idx` is read on every path: by the test, or by the message of the error branch.
pub release_segments : MemoryDaxDev → ℤ → ℕ → ℕ → Exec (ℤ × MemoryDaxDev)
release_segments dev vm_id idx zero = done (pos 0, dev)
release_segments dev vm_id idx (suc left) = do
  s ← read dev.segments idx
  elim (ltb idx dev.total_segments && (s.allocated && s.used_vm_id ==ℤ vm_id)) [
    | true ↦ release_segments (free_at dev idx) vm_id (idx + 1) left
    | false ↦ done (minus_one, dev)
  ]

-- The inner loop of `memory_pool_release_vm_memory`, from segment `j` on.
pub release_owned : MemoryDaxDev → ℤ → ℕ → ℕ → Exec MemoryDaxDev
release_owned dev vm_id j zero = done dev
release_owned dev vm_id j (suc left) = do
  s ← read dev.segments j
  release_owned (if s.allocated && s.used_vm_id ==ℤ vm_id then free_at dev j else dev) vm_id (j + 1)
      left
