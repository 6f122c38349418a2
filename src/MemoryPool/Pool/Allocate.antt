-- ===== src/MemoryPool/Pool/Allocate.antt =====
-- `memory_pool_allocate_segments`: when a request is granted, and what it changes.
use mathlib.Core.Option
use ramryder.Prelude.{
  ℕ, ◌*◌, ◌/◌, ◌%◌, ◌<◌, ◌≡◌, ◌≢◌, ◌⊎◌, inl, inr, refl, false, Option, none, some, arith, ℤ, pos,
  negsuc, ◌==◌, if◌then◌else◌, pos_part, ◌+ℤ◌, Exec, done, get_elem?, set, Bool-cases, Option-cases,
  set_self, ap,
}
use ramryder.MemoryPool.Device.{MemoryDaxDev, is_aligned, owned_segment}
use ramryder.MemoryPool.Device.Alignment.{is_aligned_pos, is_aligned_negsuc}
use ramryder.MemoryPool.Device.Windows.{IsFreeWindow}
use ramryder.MemoryPool.Device.FirstFit.{IsFirstFit}
use ramryder.MemoryPool.Device.Allocate.{granted, allocate_segments_lem}
use ramryder.MemoryPool.Pool.{
  Pool, MemoryRequest, find_device, request_of, allocate_on, memory_pool_allocate_segments,
}
use ramryder.MemoryPool.Pool.Lookup.{find_device-some}
use ramryder.MemoryPool.Pool.Invariant.{IsValid, AllValid-at, set-IsValid}
use ramryder.MemoryPool.Pool.Owner.{owner, in_window, owner-fill}

-- A request for `size` MB, which is `num` segments, was answered by the segments from `start` on of
-- device `index`.
pub record IsGranted (p : Pool) (node vm : ℤ) (size : ℕ) (req : MemoryRequest) (p' : Pool)
    : Type 0 where
  pub index : ℕ
  pub dev : MemoryDaxDev
  pub num : ℕ
  pub start : ℕ
  pub found : get_elem? p.mem_devs index ≡ some dev
  pub at_node : node ≡ pos index
  pub exact : num * p.segment_size_mb ≡ size
  pub some_segments : 0 < num
  pub first : IsFirstFit dev num 0 (some start)
  pub answer : req ≡ request_of dev node p.segment_size_mb num start
  pub after : p' ≡ record p { mem_devs = set p.mem_devs index (granted dev num vm (some start)) }
  pub owners :
      (j k : ℕ) → owner p' j k ≡ (if in_window index start num j k then some vm else owner p j k)

-- Why a request is refused: the size, the node, or no free window that is long enough.
abbrev pub IsRefused : Pool → ℤ → ℤ → Type 0
IsRefused p node size =
    (is_aligned size p.segment_size_mb ≡ done false)
    ⊎ (find_device node p.mem_devs ≡ none)
    ⊎ ((i : ℕ) × (dev : MemoryDaxDev) × (node ≡ pos i)
        × (get_elem? p.mem_devs i ≡ some dev)
        × ((k : ℕ) → ¬ IsFreeWindow dev (pos_part size / p.segment_size_mb) k))

abbrev pub Answers : Pool → ℤ → ℤ → ℤ → Option MemoryRequest → Pool → Type 0
Answers p node vm size none p' = (p' ≡ p) × IsRefused p node size
Answers p node vm size (some req) p' = IsGranted p node vm (pos_part size) req p'

-- What a call of the allocator comes to.
abbrev pub Allocates : Pool → ℤ → ℤ → ℤ → Exec (Option MemoryRequest × Pool) → Type 0
Allocates p node vm size run =
    (r : Option MemoryRequest) × (p' : Pool) × (run ≡ done (r, p'))
    × Answers p node vm size r p'
    × IsValid p'

pos_of_ne : (n : ℕ) → n ≢ 0 → 0 < n
pos_of_ne n h = omega arith

whole_segments : (n seg : ℕ) → 0 < seg → n % seg ≡ 0 → (n / seg) * seg ≡ n
whole_segments n seg h e = ground arith

some_segments_lem : (n seg : ℕ) → 0 < seg → 0 < n → n % seg ≡ 0 → 0 < n / seg
some_segments_lem n seg h p e = ground arith

-- The answer of one device, whatever its search found.
answer_of :
    (p : Pool) (node vm : ℤ) (n i : ℕ) (dev : MemoryDaxDev) (found : Option ℕ)
    → IsValid p
    → 0 < n
    → n % p.segment_size_mb ≡ 0
    → get_elem? p.mem_devs i ≡ some dev
    → node ≡ pos i
    → IsFirstFit dev (n / p.segment_size_mb) 0 found
    → Answers p node vm
        (pos n)
        (Option.map (request_of dev node p.segment_size_mb (n / p.segment_size_mb)) found)
        (record p { mem_devs = set p.mem_devs i (granted dev (n / p.segment_size_mb) vm found) })
answer_of p node vm n i dev none v h al e en f =
    (ground (arith, set_self p.mem_devs i e), inr (inr (i, dev, en, e, λ k w. f k (omega arith) w)))
answer_of p node vm n i dev (some start) v h al e en f = record {
  index = i;
  dev = dev;
  num = n / p.segment_size_mb;
  start = start;
  found = e;
  at_node = en;
  exact = whole_segments n p.segment_size_mb v.segmented al;
  some_segments = some_segments_lem n p.segment_size_mb v.segmented h al;
  first = f;
  answer = refl;
  after = refl;
  owners =
      owner-fill p i start (n / p.segment_size_mb) (owned_segment vm)
        (dev.used_segments +ℤ pos (n / p.segment_size_mb)) dev e
        (omega (arith, (AllValid-at p.mem_devs i v.valid e).sized, f.1.fits));
}

granted-node :
    (dev : MemoryDaxDev) (num : ℕ) (vm : ℤ) (found : Option ℕ)
    → (granted dev num vm found).node_id ≡ dev.node_id
granted-node dev num vm none = refl
granted-node dev num vm (some start) = refl

allocate_on-Allocates :
    (p : Pool) (node vm : ℤ) (n i : ℕ) (dev : MemoryDaxDev)
    → IsValid p
    → 0 < n
    → n % p.segment_size_mb ≡ 0
    → get_elem? p.mem_devs i ≡ some dev
    → node ≡ pos i
    → Allocates p node vm (pos n) (allocate_on p node vm n (some i))
unfolding allocate_on
allocate_on-Allocates p node vm n i dev v h al e en =
    let num = n / p.segment_size_mb in
    let vd = AllValid-at p.mem_devs i v.valid e in
    let (found, ea, f, vd') =
      allocate_segments_lem dev num vm vd
        (some_segments_lem n p.segment_size_mb v.segmented h al) in
    (
      Option.map (request_of dev node p.segment_size_mb num) found,
      record p { mem_devs = set p.mem_devs i (granted dev num vm found) },
      ground (arith, ea),
      answer_of p node vm n i dev found v h al e en f,
      set-IsValid p i dev (granted dev num vm found) v e (granted-node dev num vm found) vd',
    )

find-Allocates :
    (p : Pool) (node vm : ℤ) (n : ℕ)
    → IsValid p
    → 0 < n
    → n % p.segment_size_mb ≡ 0
    → Allocates p node vm (pos n) (allocate_on p node vm n (find_device node p.mem_devs))
unfolding allocate_on
find-Allocates p node vm n v h al = elim (Option-cases (find_device node p.mem_devs)) [
  | inl e ↦ (none, p, ground arith, (refl, inr (inl e)), v)
  | inr (i, e) ↦
      let (dev, ed, en) = find_device-some node 0 i p.mem_devs v.numbered e in
      rw e (allocate_on-Allocates p node vm n i dev v h al ed (ground arith))
]

-- A call of the allocator on a valid pool, for any size but 0, ends without a fault and keeps the pool valid. It
-- grants the request at the lowest free window of the device with that node: the answer names the
-- window, it has exactly the size that was asked for, and the owners change there and nowhere else.
-- Or it refuses and changes nothing, and then the size is negative or no multiple of the segment
-- size, no device has that node, or the device has no window that is long enough.
pub memory_pool_allocate_segments-Allocates :
    (p : Pool) (node vm size : ℤ)
    → IsValid p
    → size ≢ pos 0
    → Allocates p node vm size (memory_pool_allocate_segments p node vm size)
unfolding memory_pool_allocate_segments
memory_pool_allocate_segments-Allocates p node vm (negsuc n) v h =
    let e = is_aligned_negsuc n p.segment_size_mb in (none, p, ground (arith, e), (refl, inl e), v)
memory_pool_allocate_segments-Allocates p node vm (pos n) v h =
    let e = is_aligned_pos n p.segment_size_mb v.segmented in
    elim (Bool-cases (n % p.segment_size_mb == 0)) [
      | inl al ↦
          let (r, p', ea, a, v') =
            find-Allocates p node vm n v (pos_of_ne n (λ z. h (ap pos z))) (ground arith) in
          (r, p', ground (arith, e), a, v')
      | inr off ↦ (none, p, ground (arith, e), (refl, inl (ground (arith, e))), v)
    ]
