-- ===== src/MemoryPool/Pool/Tests.antt =====
-- A pool with one small device, runs on it, and the theorems at these runs.
use ramryder.Prelude.{
  none, take, ℕ, zero, suc, ◌≡◌, refl, true, [], ◌∷◌, some, arith, pos, done, ◌∙◌,
}
use ramryder.MemoryPool.Device.Tests.{
  four_free, four_free-IsValid, one_taken, allocate_one, two_taken, allocate_next,
}
use ramryder.MemoryPool.Device.Alignment.{is_aligned_pos}
use ramryder.MemoryPool.Pool.Owner.{owner, holder_at-replicate}
use ramryder.MemoryPool.Pool.Usage.{memory_pool_get_usage, usage_report, memory_pool_get_usage_lem}
use ramryder.MemoryPool.Pool.{
  Pool, MemoryRequest, find_device, request_of, allocate_on, memory_pool_allocate_segments,
  memory_pool_release_segments, memory_pool_release_vm_memory,
}
use ramryder.MemoryPool.Pool.Invariant.{IsValid}
use ramryder.MemoryPool.Pool.Allocate.{Allocates, memory_pool_allocate_segments-Allocates}
use ramryder.MemoryPool.Pool.Release.{Frees, IsInArray, memory_pool_release_segments-Frees}
use ramryder.MemoryPool.Pool.Owner.{owner}
use ramryder.MemoryPool.Pool.Reclaim.{on_device, IsReclaimed, memory_pool_release_vm_memory_lem}
use ramryder.MemoryPool.Pool.RoundTrip.{memory_pool_release-allocate}
use ramryder.MemoryPool.Pool.Requests.{
  holds, holds-in_window, IsTaken, memory_pool_allocate_segments-IsTaken,
}

abbrev pub small_pool : Pool
small_pool = record { mem_devs = four_free ∷ []; segment_size_mb = 128 }

pub small_pool-unused : (j k : ℕ) → owner small_pool j k ≡ none
unfolding owner
small_pool-unused zero k = holder_at-replicate 4 k
small_pool-unused (suc j) k = refl

pub small_pool-IsValid : IsValid small_pool
small_pool-IsValid = record {
  segmented = omega arith;
  numbered = (refl, tt);
  valid = (four_free-IsValid, tt);
}

-- The pool after machine 1 was given 128 MB, and the answer that it got.
abbrev pub used_pool : Pool
used_pool = record { mem_devs = one_taken ∷ []; segment_size_mb = 128 }

abbrev pub first_request : MemoryRequest
first_request = record {
  node_id = pos 0;
  dev_path = 47 ∷ [];
  offset_mb = 0;
  size_mb = 128;
  align_mb = 128;
}

pub first_grant :
    memory_pool_allocate_segments small_pool (pos 0) (pos 1) (pos 128)
    ≡ done (some first_request, used_pool)
unfolding memory_pool_allocate_segments allocate_on find_device request_of
first_grant = rw (is_aligned_pos 128 128 (omega arith)) (rw allocate_one refl)

abbrev pub fuller_pool : Pool
fuller_pool = record { mem_devs = two_taken ∷ []; segment_size_mb = 128 }

abbrev pub second_request : MemoryRequest
second_request = record first_request { offset_mb = 128 }

pub second_grant :
    memory_pool_allocate_segments used_pool (pos 0) (pos 1) (pos 128)
    ≡ done (some second_request, fuller_pool)
unfolding memory_pool_allocate_segments allocate_on find_device request_of
second_grant = rw (is_aligned_pos 128 128 (omega arith)) (rw allocate_next refl)

-- The first segment is named by the first request.
pub holds_first : holds 128 first_request 0 0 ≡ true
holds_first =
    holds-in_window 128 first_request
      (record {
        index = 0;
        start = 0;
        num = 1;
        at_node = refl;
        at_offset = refl;
        at_size = refl;
        some_segments = omega arith;
      })
      0 0 (omega arith)

pub used_pool-IsTaken : IsTaken small_pool (pos 1) first_request used_pool × IsValid used_pool
used_pool-IsTaken =
    memory_pool_allocate_segments-IsTaken small_pool used_pool (pos 0) (pos 1) (pos 128)
      first_request small_pool-IsValid (λ e. cc) first_grant

memory_pool_allocate_segments-Allocates_example :
    Allocates used_pool
      (pos 0)
      (pos 2)
      (pos 256)
      (memory_pool_allocate_segments used_pool (pos 0) (pos 2) (pos 256))
memory_pool_allocate_segments-Allocates_example =
    memory_pool_allocate_segments-Allocates used_pool (pos 0) (pos 2) (pos 256)
      (used_pool-IsTaken.1) (λ e. cc)

in_array : IsInArray used_pool (pos 0) 0 256
in_array zero dev ei ed = ground (arith, ed)
in_array (suc i) dev ei ed = absurd (cc)

memory_pool_release_segments-Frees_example :
    Frees used_pool
      (pos 1)
      (memory_pool_release_segments used_pool (pos 0) (pos 1) (pos 0) (pos 256))
memory_pool_release_segments-Frees_example =
    memory_pool_release_segments-Frees used_pool (pos 0) (pos 1) (pos 0) (pos 256)
      used_pool-IsTaken.1 in_array

memory_pool_release_vm_memory_lem_example :
    (p' : Pool) × (memory_pool_release_vm_memory used_pool (pos 1) ≡ done p')
    × IsReclaimed used_pool (pos 1) p'
memory_pool_release_vm_memory_lem_example =
    memory_pool_release_vm_memory_lem used_pool (pos 1) used_pool-IsTaken.1

memory_pool_release-allocate_example :
    memory_pool_release_segments used_pool (pos 0) (pos 1) (pos 0) (pos 128)
    ≡ done (pos 0, small_pool)
memory_pool_release-allocate_example =
    memory_pool_release-allocate small_pool used_pool (pos 0) (pos 1) (pos 128) first_request
      small_pool-IsValid (λ e. cc) first_grant

own_first :
    (j k : ℕ)
    → holds 128 first_request j k ≡ true
    → (owner used_pool j k ≡ some (pos 1)) × (on_device used_pool.mem_devs j k ≡ true)
own_first j k h =
    let t = used_pool-IsTaken.0 in
    (ground (arith, t.taken j k, h), t.same_devices j k ∙ t.lies j k h)

memory_pool_get_usage_lem_example :
    memory_pool_get_usage small_pool 1024 ≡ take 1023 (usage_report 128 (four_free ∷ []))
memory_pool_get_usage_lem_example = memory_pool_get_usage_lem small_pool 1024 (omega arith)
