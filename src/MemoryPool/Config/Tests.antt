-- ===== src/MemoryPool/Config/Tests.antt =====
-- A configuration file with one device of two segments, and the same without a segment size.
use ramryder.Prelude.{
  ℕ, none, ◌/◌, ◌≡◌, ◌≤◌, refl, [], ◌∷◌, ◌++◌, pos, arith, length, done, abort, division_by_zero,
  some,
}
use ramryder.Scan.{Bytes, codes, until_nul, scan_1, scan_field, same_bytes, scan_int}
use ramryder.Config.{read_lines, is_skipped, all_shorter, scan_words, atoi}
use ramryder.MemoryPool.Device.{MemoryDaxDev, max_devices}
use ramryder.MemoryPool.Pool.{Pool}
use ramryder.MemoryPool.Pool.Owner.{owner}
use ramryder.MemoryPool.Pool.Invariant.{IsValid, init_all, init_devices-eq, init_devices-traps}
use ramryder.MemoryPool.Config.{
  no_pool, scan_path, device_of, config_device, add_device, four_values, load_values, load_device,
  set_segment_size, load_entry, load_words, load_line, load_lines, memory_pool_load_config,
  init_loaded, init_memory_resource, memory_pool_init,
}
use ramryder.MemoryPool.Config.Startup.{memory_pool_init-IsValid}

abbrev pub device_line : Bytes
device_line = codes "dev path=/dev/dax0.0 size_mb=256 tier_id=0 dax_id=0\n"

abbrev pub good_file : Bytes
good_file = codes "# size in MB\nsegment_size_mb 128\n\n[devices]\n" ++ device_line

abbrev pub entry : MemoryDaxDev
entry = config_device (codes "/dev/dax0.0") 256 (pos 0) (pos 0)

pub sizes : entry.total_size_mb / 128 ≤ 4096
unfolding config_device
sizes = omega arith

abbrev loaded : Pool
loaded = record { mem_devs = entry ∷ []; segment_size_mb = 128 }

loads : memory_pool_load_config (some good_file) ≡ done (some loaded)
unfolding memory_pool_load_config no_pool load_lines load_line load_words load_entry
    set_segment_size load_device load_values four_values add_device device_of scan_path read_lines
    is_skipped until_nul all_shorter scan_words atoi scan_1 scan_field same_bytes scan_int
loads = refl

abbrev pub ready : Pool
ready = record { mem_devs = init_all 128 0 (entry ∷ []); segment_size_mb = 128 }

pub starts : memory_pool_init (some good_file) ≡ done (some ready)
unfolding memory_pool_init init_memory_resource init_loaded
starts = rw (loads, init_devices-eq 128 0 (entry ∷ []) (omega arith)) refl

memory_pool_init-IsValid_example :
    (length ready.mem_devs ≤ max_devices) × IsValid ready × ((j k : ℕ) → owner ready j k ≡ none)
memory_pool_init-IsValid_example =
    memory_pool_init-IsValid (some good_file) ready starts (omega arith) (sizes, tt)

loads_unset :
    memory_pool_load_config (some device_line) ≡ done (some (record loaded { segment_size_mb = 0 }))
unfolding memory_pool_load_config no_pool load_lines load_line load_words load_entry load_device
    load_values four_values add_device device_of scan_path read_lines is_skipped until_nul
    all_shorter scan_words scan_1 scan_field same_bytes scan_int
loads_unset = refl

-- A file with a device and without a segment size is loaded, and then the program divides by zero.
traps : memory_pool_init (some device_line) ≡ abort division_by_zero
unfolding memory_pool_init init_memory_resource init_loaded
traps = rw (loads_unset, init_devices-traps 0 entry []) refl
