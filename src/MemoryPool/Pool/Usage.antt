-- ===== src/MemoryPool/Pool/Usage.antt =====
-- src/memory_pool.c, `memory_pool_get_usage`, with a buffer of `size` bytes, `size` above 0.
use ramryder.Prelude.{
  ℕ, ◌+◌, ◌-◌, ◌<◌, ◌≡◌, List, [], ◌∷◌, ◌++◌, arith, leb, if◌then◌else◌, take, length, replicate,
  Bool-cases, inl, inr,
}
use ramryder.Scan.{Bytes, codes}
use ramryder.Decimal.{show_nat, show_int}
use ramryder.Buffer.{
  Buffer, empty_buffer, print_at, Holds, empty_buffer-Holds, Holds-full, print_at-Holds, append_nil,
  append_assoc,
}
use ramryder.MemoryPool.Device.{MemoryDaxDev}
use ramryder.MemoryPool.Pool.{Pool}

-- A field of a least width, as "%9d" has it.
pub pad : ℕ → Bytes → Bytes
pad width s = replicate (width - length s) 32 ++ s

pub usage_title : Bytes
usage_title =
    codes
      "Index | Device Path | Size (MB) | Segment (MB) | Used Seg | Total Seg | Node ID | Tier ID | Dax ID\n"

pub usage_line : ℕ → ℕ → MemoryDaxDev → Bytes
usage_line segment_size i dev =
    pad 5 (show_nat i)
    ++ codes " | "
    ++ dev.dev_path
    ++ codes " | "
    ++ pad 9 (show_nat dev.total_size_mb)
    ++ codes " | "
    ++ pad 12 (show_nat segment_size)
    ++ codes " | "
    ++ pad 8 (show_int dev.used_segments)
    ++ codes " | "
    ++ pad 9 (show_nat dev.total_segments)
    ++ codes " | "
    ++ pad 7 (show_int dev.node_id)
    ++ codes " | "
    ++ pad 7 (show_int dev.tier_id)
    ++ codes " | "
    ++ pad 6 (show_int dev.dax_id)
    ++ codes "\n"

-- The loop over the devices from the one with index `i` on, up to the test of `offset` or the `break`.
pub print_devices : ℕ → ℕ → ℕ → Buffer → List MemoryDaxDev → Buffer
print_devices size segment_size i b [] = b
print_devices size segment_size i b (dev ∷ devs) =
    let b' = print_at size b (usage_line segment_size i dev) in
    let rest = print_devices size segment_size (i + 1) b' devs in
    if leb size b.offset then b else if leb (size - 1) b'.offset then b' else rest

pub usage_text : ℕ → ℕ → List MemoryDaxDev → Bytes
usage_text segment_size size [] =
    (print_at size empty_buffer (codes "No memory devices initialized.\n")).text
usage_text segment_size size (dev ∷ devs) =
    (print_devices size segment_size 0 (print_at size empty_buffer usage_title) (dev ∷ devs)).text

pub memory_pool_get_usage : Pool → ℕ → Bytes
memory_pool_get_usage p size = usage_text p.segment_size_mb size p.mem_devs

-- The whole report, which has no regard to the buffer.
abbrev pub usage_lines : ℕ → ℕ → List MemoryDaxDev → Bytes
usage_lines segment_size i [] = []
usage_lines segment_size i (dev ∷ devs) =
    usage_line segment_size i dev ++ usage_lines segment_size (i + 1) devs

abbrev pub usage_report : ℕ → List MemoryDaxDev → Bytes
usage_report segment_size [] = codes "No memory devices initialized.\n"
usage_report segment_size (dev ∷ devs) = usage_title ++ usage_lines segment_size 0 (dev ∷ devs)

print_devices-text :
    (size segment_size i : ℕ) (b : Buffer) (whole : Bytes) (devs : List MemoryDaxDev)
    → Holds size b whole
    → (print_devices size segment_size i b devs).text
      ≡ take (size - 1) (whole ++ usage_lines segment_size i devs)
unfolding print_devices
print_devices-text size segment_size i b whole [] h = rw (append_nil whole) h.fits
print_devices-text size segment_size i b whole (dev ∷ devs) h =
    let line = usage_line segment_size i dev in
    let b' = print_at size b line in
    let more = usage_lines segment_size (i + 1) devs in
    let h' = print_at-Holds size b whole line h in
    elim (Bool-cases (leb size b.offset)) [
      | inl full ↦ rw full (Holds-full size b whole (line ++ more) h (ground (arith, full)))
      | inr room ↦
          rw (room, ← append_assoc whole line more)
            (elim (Bool-cases (leb (size - 1) b'.offset)) [
              | inl full ↦
                  rw full (Holds-full size b' (whole ++ line) more h' (ground (arith, full)))
              | inr fits ↦
                  rw fits (print_devices-text size segment_size (i + 1) b' (whole ++ line) devs h')
            ])
    ]

usage_text_lem :
    (segment_size size : ℕ) (devs : List MemoryDaxDev)
    → usage_text segment_size size devs ≡ take (size - 1) (usage_report segment_size devs)
unfolding usage_text
usage_text_lem segment_size size [] =
    (print_at-Holds size empty_buffer [] _ (empty_buffer-Holds size)).fits
usage_text_lem segment_size size (dev ∷ devs) =
    print_devices-text size segment_size 0 _ usage_title (dev ∷ devs)
      (print_at-Holds size empty_buffer [] usage_title (empty_buffer-Holds size))

-- For a buffer of any size above 0, `memory_pool_get_usage` leaves just as much of its report as fits
-- beside the closing NUL: the line that says that there are no devices or, when there are some, the
-- title and one line for each device in the order of the table.
pub memory_pool_get_usage_lem :
    (p : Pool) (size : ℕ)
    → 0 < size
    → memory_pool_get_usage p size ≡ take (size - 1) (usage_report p.segment_size_mb p.mem_devs)
unfolding memory_pool_get_usage
memory_pool_get_usage_lem p size h = usage_text_lem p.segment_size_mb size p.mem_devs
