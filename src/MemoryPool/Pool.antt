-- ===== src/MemoryPool/Pool.antt =====
-- src/memory_pool.c, the functions of memory_pool.h over the global table of devices. `mem_devs` is
-- the part of `g_mem_devs` below `g_num_devs`; a pointer into the table is an index. The request
-- that a successful allocation fills in is returned with it, in place of the return code 0.
pub mod Lookup
pub mod Invariant
pub mod Owner
pub mod Allocate
pub mod Release
pub mod Reclaim
pub mod RoundTrip
pub mod Requests
pub mod Usage
pub mod Tests
use mathlib.Core.Option
use ramryder.Prelude.{
  ℕ, suc, ◌+◌, ◌-◌, ◌*◌, ◌/◌, Bool, true, false, List, [], ◌∷◌, Option, none, some, ℤ, pos,
  minus_one, pos_part, ◌==ℤ◌, ltb_ℤ, Exec, done, abort, ◌>>=◌, ◌>>◌, stop_if, division_by_zero,
  read, set, take, length, replicate, ◌==◌, if◌then◌else◌,
}
use ramryder.MemoryPool.Device.{
  MemoryDaxDev, free_segment, max_segments, is_aligned, allocate_segments, release_segments,
  release_owned,
}

pub record Pool : Type 0 where
  pub mem_devs : List MemoryDaxDev
  pub segment_size_mb : ℕ

-- `struct memory_request`
pub record MemoryRequest : Type 0 where
  pub node_id : ℤ
  pub dev_path : List ℕ
  pub offset_mb : ℕ
  pub size_mb : ℕ
  pub align_mb : ℕ

-- `snprintf` into an array of `DEV_PATH_LEN` bytes keeps all but the last of them.
abbrev pub copy_path : List ℕ → List ℕ
copy_path = take 63

-- The loop that looks a device up by its node.
pub find_device : ℤ → List MemoryDaxDev → Option ℕ
find_device node_id [] = none
find_device node_id (d ∷ devs) =
    if d.node_id ==ℤ node_id then some 0 else Option.map (λ i. suc i) (find_device node_id devs)

pub request_of : MemoryDaxDev → ℤ → ℕ → ℕ → ℕ → MemoryRequest
request_of dev node_id segment_size num_segments start = record {
  node_id = node_id;
  dev_path = copy_path dev.dev_path;
  offset_mb = start * segment_size;
  size_mb = num_segments * segment_size;
  align_mb = segment_size;
}

-- The part of `memory_pool_allocate_segments` behind the look-up.
pub allocate_on : Pool → ℤ → ℤ → ℕ → Option ℕ → Exec (Option MemoryRequest × Pool)
allocate_on p node_id vm_id size_mb none = done (none, p)
allocate_on p node_id vm_id size_mb (some i) = do
  dev ← read p.mem_devs i
  let num_segments = size_mb / p.segment_size_mb
  (start, dev') ← allocate_segments dev num_segments vm_id
  done (
    Option.map (request_of dev node_id p.segment_size_mb num_segments) start,
    record p { mem_devs = set p.mem_devs i dev' },
  )

pub memory_pool_allocate_segments : Pool → ℤ → ℤ → ℤ → Exec (Option MemoryRequest × Pool)
memory_pool_allocate_segments p node_id vm_id size_mb = do
  aligned ← is_aligned size_mb p.segment_size_mb
  if aligned
      then allocate_on p node_id vm_id (pos_part size_mb) (find_device node_id p.mem_devs)
      else done (none, p)

-- The part of `memory_pool_release_segments` behind the look-up.
pub release_on : Pool → ℤ → ℕ → ℕ → Option ℕ → Exec (ℤ × Pool)
release_on p vm_id offset_mb size_mb none = done (minus_one, p)
release_on p vm_id offset_mb size_mb (some i) = do
  dev ← read p.mem_devs i
  (ret, dev') ←
      release_segments dev vm_id (offset_mb / p.segment_size_mb) (size_mb / p.segment_size_mb)
  done (
    if ltb_ℤ ret (pos 0) then minus_one else pos 0,
    record p { mem_devs = set p.mem_devs i dev' },
  )

pub memory_pool_release_segments : Pool → ℤ → ℤ → ℤ → ℤ → Exec (ℤ × Pool)
memory_pool_release_segments p node_id vm_id offset_mb size_mb = do
  size_aligned ← is_aligned size_mb p.segment_size_mb
  offset_aligned ← if size_aligned then is_aligned offset_mb p.segment_size_mb else done false
  if offset_aligned
      then release_on p vm_id (pos_part offset_mb) (pos_part size_mb)
          (find_device node_id p.mem_devs)
      else done (minus_one, p)

-- The outer loop of `memory_pool_release_vm_memory`.
pub reclaim_devices : ℤ → List MemoryDaxDev → Exec (List MemoryDaxDev)
reclaim_devices vm_id [] = done []
reclaim_devices vm_id (dev ∷ devs) = do
  dev' ← release_owned dev vm_id 0 dev.total_segments
  devs' ← reclaim_devices vm_id devs
  done (dev' ∷ devs')

pub memory_pool_release_vm_memory : Pool → ℤ → Exec Pool
memory_pool_release_vm_memory p vm_id = do
  devs ← reclaim_devices vm_id p.mem_devs
  done (record p { mem_devs = devs })

pub memory_pool_get_num_devs : Pool → ℕ
memory_pool_get_num_devs p = length p.mem_devs

-- The two fields of `struct memory_node_info` are `tier_id` and `dax_id`.
pub memory_pool_get_node_info : Pool → ℤ → Exec (Option (ℤ × ℤ))
memory_pool_get_node_info p node_id = elim (find_device node_id p.mem_devs) [
  | none ↦ done none
  | some i ↦ read p.mem_devs i >>= λ dev. done (some (dev.tier_id, dev.dax_id))
]

-- One round of the loop of `init_memory_resource`.
abbrev pub init_device : ℕ → ℕ → MemoryDaxDev → MemoryDaxDev
init_device segment_size i dev = record dev {
  node_id = pos i;
  total_segments = dev.total_size_mb / segment_size;
  used_segments = pos 0;
  segments = replicate max_segments free_segment;
}

-- That loop, from device `i` on. The division traps when no segment size was set.
pub init_devices : ℕ → ℕ → List MemoryDaxDev → Exec (List MemoryDaxDev)
init_devices segment_size i [] = done []
init_devices segment_size i (dev ∷ devs) = do
  stop_if (segment_size == 0) division_by_zero
  devs' ← init_devices segment_size (i + 1) devs
  done (init_device segment_size i dev ∷ devs')
