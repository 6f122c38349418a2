-- ===== src/MemoryPool/Device/Tests.antt =====
-- Small devices, runs on them, and the theorems at these runs.
use ramryder.Prelude.{
  ℕ, ◌≡◌, refl, [], ◌∷◌, Option, none, some, arith, pos, minus_one, ◌+ℤ◌, done, replicate,
}
use ramryder.MemoryPool.Device.{
  MemoryDaxDev, free_segment, owned_segment, find_from, find_free_segments, scan_segments,
  mark_segments, claim_segments, allocate_segments, release_segments,
}
use ramryder.MemoryPool.Device.FirstFit.{IsFirstFit, find_free_segments-IsFirstFit}
use ramryder.MemoryPool.Device.Invariant.{IsValid, fresh-IsValid}
use ramryder.MemoryPool.Device.Allocate.{allocate_segments-some}

-- A device of four segments, none of them in use.
abbrev pub four_free : MemoryDaxDev
four_free = record {
  dev_path = 47 ∷ [];
  node_id = pos 0;
  tier_id = pos 0;
  dax_id = pos 0;
  total_size_mb = 512;
  total_segments = 4;
  used_segments = pos 0;
  segments = replicate 4 free_segment;
}

pub four_free-IsValid : IsValid four_free
four_free-IsValid = fresh-IsValid four_free 4 (omega arith)

-- Machine 1 owns the first segment.
abbrev pub one_taken : MemoryDaxDev
one_taken = record four_free {
  used_segments = pos 1;
  segments = owned_segment (pos 1) ∷ replicate 3 free_segment;
}

pub allocate_one : allocate_segments four_free 1 (pos 1) ≡ done (some 0, one_taken)
unfolding allocate_segments find_free_segments find_from scan_segments claim_segments mark_segments
    ◌+ℤ◌
allocate_one = refl

-- And then the second as well.
abbrev pub two_taken : MemoryDaxDev
two_taken = record four_free {
  used_segments = pos 2;
  segments = owned_segment (pos 1) ∷ owned_segment (pos 1) ∷ replicate 2 free_segment;
}

pub allocate_next : allocate_segments one_taken 1 (pos 1) ≡ done (some 1, two_taken)
unfolding allocate_segments find_free_segments find_from scan_segments claim_segments mark_segments
    ◌+ℤ◌
allocate_next = refl

-- The window begins behind the segment that is taken.
find_behind : find_free_segments one_taken 2 ≡ done (some 1)
unfolding find_free_segments find_from scan_segments
find_behind = refl

find_too_many : find_free_segments one_taken 4 ≡ done none
unfolding find_free_segments find_from scan_segments
find_too_many = refl

-- Another machine cannot release the segment.
release_of_other : release_segments one_taken (pos 2) 0 1 ≡ done (minus_one, one_taken)
unfolding release_segments
release_of_other = refl

pub one_taken-IsValid : IsValid one_taken
unfolding ◌+ℤ◌
one_taken-IsValid =
    (allocate_segments-some four_free one_taken 1 0 (pos 1) four_free-IsValid (omega arith)
      allocate_one).2

find_free_segments-IsFirstFit_example :
    (r : Option ℕ) × (find_free_segments one_taken 2 ≡ done r) × IsFirstFit one_taken 2 0 r
find_free_segments-IsFirstFit_example = find_free_segments-IsFirstFit one_taken 2 (omega arith)
