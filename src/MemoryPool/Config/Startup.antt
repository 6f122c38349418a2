-- ===== src/MemoryPool/Config/Startup.antt =====
-- What the start of the program makes of a configuration file, whatever stands in it.
use ramryder.Prelude.{
  Option-cases, inl, inr, ℕ, zero, suc, ◌+◌, ◌≡◌, ◌≤◌, ◌<◌, refl, false, List, [], ◌∷◌, ◌++◌,
  Option, none, some, ℤ, pos, negsuc, arith, length, if-cases, leb, Exec, done, abort, >>=-eq-done,
  not, ◌&&◌, take, stop_if, out_of_bounds,
}
use ramryder.Scan.{Bytes, same_bytes, codes, until_nul}
use ramryder.Config.{is_skipped, scan_words, all_shorter, atoi, read_lines}
use ramryder.MemoryPool.Device.{MemoryDaxDev, max_devices}
use ramryder.MemoryPool.Pool.{Pool, init_devices}
use ramryder.MemoryPool.Pool.Owner.{owner, owner-init_all}
use ramryder.MemoryPool.Pool.Invariant.{
  IsValid, AllFit, init_all, init_all-AllValid, init_all-IsNumbered, length-init_all,
  init_devices-done,
}
use ramryder.MemoryPool.Config.{
  no_pool, add_device, scan_path, load_values, four_values, load_device, set_segment_size,
  load_entry, load_words, load_line, load_lines, memory_pool_load_config, init_loaded,
  init_memory_resource, memory_pool_init,
}

-- If the run loads a pool, the table of devices has not overrun.
abbrev Loads : Exec (Option Pool) → Type 0
Loads run = (p : Pool) → run ≡ done (some p) → length p.mem_devs ≤ max_devices

Loads-none : Loads (done none)
Loads-none p e = absurd (cc)

Loads-abort : Loads (abort out_of_bounds)
Loads-abort p e = absurd (cc)

Loads-same : (p : Pool) → length p.mem_devs ≤ max_devices → Loads (done (some p))
Loads-same p h q e = let same : p ≡ q = cc in rw (← same) h

length-append_one : {A : Type 0} (xs : List A) (x : A) → length (xs ++ x ∷ []) ≡ length xs + 1
length-append_one [] x = refl
length-append_one (y ∷ xs) x = omega (arith, length-append_one xs x)

add_device-Loads :
    (p : Pool) (dev : Option MemoryDaxDev)
    → leb max_devices (length p.mem_devs) ≡ false
    → Loads (done (add_device p dev))
unfolding add_device
add_device-Loads p none h = Loads-none
add_device-Loads p (some dev) h = Loads-same _ (ground (arith, length-append_one p.mem_devs dev))

load_values-Loads :
    (p : Pool) (values : Option (Bytes × Bytes × Bytes × Bytes))
    → leb max_devices (length p.mem_devs) ≡ false
    → Loads (load_values p values)
unfolding load_values
load_values-Loads p none h q e = absurd (cc)
load_values-Loads p (some (a, b, c, d)) h q e =
    let (path, scanned, added) = >>=-eq-done (scan_path a) _ e in add_device-Loads p _ h q added

load_device-Loads : (p : Pool) (values : List Bytes) → Loads (load_device p values)
unfolding load_device
load_device-Loads p values =
    if-cases Loads (leb max_devices (length p.mem_devs)) _ _ (λ h. Loads-none)
      (λ h. load_values-Loads p (four_values values) h)

set_segment_size-Loads :
    (p : Pool) (size : ℤ) → length p.mem_devs ≤ max_devices → Loads (done (set_segment_size p size))
unfolding set_segment_size
set_segment_size-Loads p (pos zero) h = Loads-none
set_segment_size-Loads p (pos (suc n)) h = Loads-same _ h
set_segment_size-Loads p (negsuc n) h = Loads-none

load_entry-Loads :
    (p : Pool) (key value1 : Bytes) (values : List Bytes)
    → length p.mem_devs ≤ max_devices
    → Loads (load_entry p key value1 values)
unfolding load_entry
load_entry-Loads p key value1 values h =
    if-cases Loads (same_bytes key (codes "segment_size_mb")) _ _
      (λ e. set_segment_size-Loads p (atoi value1) h)
      (λ e.
        if-cases Loads (same_bytes key (codes "dev")) _ _
          (λ e. load_device-Loads p (value1 ∷ values)) (λ e. Loads-same p h))

load_words-Loads :
    (p : Pool) (words : List Bytes) → length p.mem_devs ≤ max_devices → Loads (load_words p words)
unfolding load_words
load_words-Loads p [] h = Loads-same p h
load_words-Loads p (key ∷ []) h = Loads-same p h
load_words-Loads p (key ∷ value1 ∷ values) h = load_entry-Loads p key value1 values h

load_line-Loads :
    (p : Pool) (line : Bytes) → length p.mem_devs ≤ max_devices → Loads (load_line p line)
unfolding load_line
load_line-Loads p line h =
    let words = scan_words 5 line in
    if-cases Loads (is_skipped line) _ _ (λ e. Loads-same p h)
      (λ e q loaded.
        let (u, fits, rest) =
          >>=-eq-done
            (stop_if (not (all_shorter 32 (take 1 words) && all_shorter 128 words)) out_of_bounds) _
            loaded in
        load_words-Loads p words h q rest)

load_lines-Loads :
    (p : Pool) (lines : List Bytes) → length p.mem_devs ≤ max_devices → Loads (load_lines p lines)
unfolding load_lines
load_lines-Loads p [] h q e = Loads-same p h q e
load_lines-Loads p (line ∷ lines) h q e =
    let (r, first, rest) = >>=-eq-done (load_line p (until_nul line)) _ e in
    elim (Option-cases r) [
      | inl n ↦ absurd (let failed = rw n at rest in cc)
      | inr (p', n) ↦
          load_lines-Loads p' lines (load_line-Loads p (until_nul line) h p' (rw n at first)) q
            (rw n at rest)
    ]

no_pool-empty : length no_pool.mem_devs ≤ max_devices
unfolding no_pool
no_pool-empty = omega arith

memory_pool_load_config-Loads : (file : Option Bytes) → Loads (memory_pool_load_config file)
unfolding memory_pool_load_config
memory_pool_load_config-Loads none = Loads-none
memory_pool_load_config-Loads (some bytes) =
    load_lines-Loads no_pool (read_lines 511 bytes) no_pool-empty

init_all-IsValid :
    (segment_size : ℕ) (devs : List MemoryDaxDev)
    → length devs ≤ max_devices
    → 0 < segment_size
    → AllFit segment_size (init_all segment_size 0 devs)
    → let p : Pool = record {
      mem_devs = init_all segment_size 0 devs;
      segment_size_mb = segment_size;
    } in
      (length p.mem_devs ≤ max_devices) × IsValid p × ((j k : ℕ) → owner p j k ≡ none)
init_all-IsValid segment_size devs h positive fit = (
  omega (arith, h, length-init_all segment_size 0 devs),
  record {
    segmented = positive;
    numbered = init_all-IsNumbered segment_size 0 devs;
    valid = init_all-AllValid segment_size 0 devs fit;
  },
  owner-init_all segment_size 0 devs,
)

init_loaded-eq :
    (p q : Pool)
    → init_loaded (some p) ≡ done (some q)
    → q ≡ record p { mem_devs = init_all p.segment_size_mb 0 p.mem_devs }
unfolding init_loaded
init_loaded-eq p q e =
    let (devs, set_up, out) = >>=-eq-done (init_devices p.segment_size_mb 0 p.mem_devs) _ e in
    let table = init_devices-done p.segment_size_mb 0 p.mem_devs devs set_up in
    let same : record p { mem_devs = devs } ≡ q = cc in rw (← same, table) refl

-- Whatever stands in the configuration file: if the start of the program makes a pool of it, with a
-- segment size above 0 and with no device of more than 4096 segments, then the pool has at most ten
-- devices, is valid, and none of its segments is in use.
pub memory_pool_init-IsValid :
    (file : Option Bytes) (p : Pool)
    → memory_pool_init file ≡ done (some p)
    → 0 < p.segment_size_mb
    → AllFit p.segment_size_mb p.mem_devs
    → (length p.mem_devs ≤ max_devices) × IsValid p × ((j k : ℕ) → owner p j k ≡ none)
unfolding memory_pool_init init_memory_resource init_loaded
memory_pool_init-IsValid file q e positive fit =
    let (loaded, load, set_up) = >>=-eq-done (memory_pool_load_config file) init_loaded e in
    elim (Option-cases loaded) [
      | inl n ↦ absurd (let failed = rw n at set_up in cc)
      | inr (p, n) ↦
          let h = memory_pool_load_config-Loads file p (rw n at load) in
          let same = init_loaded-eq p q (rw n at set_up) in
          let positive' : 0 < p.segment_size_mb = rw same at positive in
          let fit' = rw same at fit in
          rw same (init_all-IsValid p.segment_size_mb p.mem_devs h positive' fit')
    ]
