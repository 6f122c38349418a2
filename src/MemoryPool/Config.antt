-- ===== src/MemoryPool/Config.antt =====
-- src/memory_pool.c, `memory_pool_load_config`, `init_memory_resource` and `memory_pool_init`. Every
-- failure ends the program, so that a failed load has no pool.
pub mod Startup
pub mod Tests
use ramryder.Prelude.{
  take, ℕ, zero, suc, Bool, true, false, not, ◌&&◌, List, [], ◌∷◌, ◌++◌, Option, none, some, ℤ, pos,
  negsuc, leb, ltb, if◌then◌else◌, length, replicate, Exec, done, abort, ◌>>=◌, ◌>>◌, stop_if,
  out_of_bounds,
}
use ramryder.Scan.{Bytes, codes, same_bytes, scan_1, scan_literal, until_nul}
use ramryder.Config.{read_lines, is_skipped, scan_words, all_shorter, atoi}
use ramryder.MemoryPool.Device.{MemoryDaxDev, MemorySegment, max_devices, max_segments}
use ramryder.MemoryPool.Pool.{Pool, init_devices}

-- The globals at the start of the program.
pub no_pool : Pool
no_pool = record { mem_devs = []; segment_size_mb = 0 }

-- The array of segments behind `memset`.
pub zero_segments : List MemorySegment
zero_segments = replicate max_segments (record { allocated = false; used_vm_id = pos 0 })

-- "path=%255s" on a word, into an array of 64 bytes.
pub scan_path : Bytes → Exec (Option Bytes)
scan_path word = elim (scan_literal (codes "path=") word) [
  | none ↦ done none
  | some [] ↦ done none
  | some (c ∷ path) ↦
      if ltb (length (c ∷ path)) 64 then done (some (c ∷ path)) else abort out_of_bounds
]

pub config_device : Bytes → ℕ → ℤ → ℤ → MemoryDaxDev
config_device path size tier dax = record {
  dev_path = path;
  node_id = pos 0;
  tier_id = tier;
  dax_id = dax;
  total_size_mb = size;
  total_segments = 0;
  used_segments = pos 0;
  segments = zero_segments;
}

-- The device of an entry, or none for an entry that is refused. A tier or DAX id below 0 is only logged.
pub device_of : Option Bytes → Option ℤ → Option ℤ → Option ℤ → Option MemoryDaxDev
device_of (some path) (some (pos (suc size))) (some tier) (some dax) =
    some (config_device path (suc size) tier dax)
device_of path size tier dax = none

pub add_device : Pool → Option MemoryDaxDev → Option Pool
add_device p none = none
add_device p (some dev) = some (record p { mem_devs = p.mem_devs ++ dev ∷ [] })

pub four_values : List Bytes → Option (Bytes × Bytes × Bytes × Bytes)
four_values (value1 ∷ value2 ∷ value3 ∷ value4 ∷ []) = some (value1, value2, value3, value4)
four_values values = none

-- Values that were not scanned are not defined, and the code reads them either way.
pub load_values : Pool → Option (Bytes × Bytes × Bytes × Bytes) → Exec (Option Pool)
load_values p none = abort out_of_bounds
load_values p (some (value1, value2, value3, value4)) = scan_path value1 >>= λ path. done (
    add_device p (
      device_of path (scan_1 (codes "size_mb=") value2) (scan_1 (codes "tier_id=") value3)
        (scan_1 (codes "dax_id=") value4)))

-- The entry "dev".
pub load_device : Pool → List Bytes → Exec (Option Pool)
load_device p values =
    if leb max_devices (length p.mem_devs) then done none else load_values p (four_values values)

pub set_segment_size : Pool → ℤ → Option Pool
set_segment_size p (pos (suc n)) = some (record p { segment_size_mb = suc n })
set_segment_size p size = none

-- A line that has at least two values.
pub load_entry : Pool → Bytes → Bytes → List Bytes → Exec (Option Pool)
load_entry p key value1 values =
    if same_bytes key (codes "segment_size_mb")
    then done (set_segment_size p (atoi value1))
    else if same_bytes key (codes "dev")
    then load_device p (value1 ∷ values)
    else done (some p)

pub load_words : Pool → List Bytes → Exec (Option Pool)
load_words p [] = done (some p)
load_words p (key ∷ []) = done (some p)
load_words p (key ∷ value1 ∷ values) = load_entry p key value1 values

-- The words of a line and the arrays for them.
pub load_line : Pool → Bytes → Exec (Option Pool)
load_line p line =
    if is_skipped line
    then done (some p)
    else let words = scan_words 5 line in
      stop_if (not (all_shorter 32 (take 1 words) && all_shorter 128 words)) out_of_bounds
      >> load_words p words

pub load_lines : Pool → List Bytes → Exec (Option Pool)
load_lines p [] = done (some p)
load_lines p (line ∷ lines) = load_line p (until_nul line) >>= λ r. elim r [
  | none ↦ done none
  | some p' ↦ load_lines p' lines
]

-- The file, or none if it cannot be opened.
pub memory_pool_load_config : Option Bytes → Exec (Option Pool)
memory_pool_load_config none = done none
memory_pool_load_config (some file) = load_lines no_pool (read_lines 511 file)

pub init_loaded : Option Pool → Exec (Option Pool)
init_loaded none = done none
init_loaded (some p) = init_devices p.segment_size_mb 0 p.mem_devs >>= λ devs.
    done (some (record p { mem_devs = devs }))

pub init_memory_resource : Option Bytes → Exec (Option Pool)
init_memory_resource config_file = memory_pool_load_config config_file >>= init_loaded

pub memory_pool_init : Option Bytes → Exec (Option Pool)
memory_pool_init config_file = init_memory_resource config_file
