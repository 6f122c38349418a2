-- ===== src/MemoryPool/Pool/Requests.antt =====
-- The pool's answers, read as sets of segments: what a request that was granted stands for, and how
-- allocation, release and reclaiming change the owners in those terms.
use native.Mathlib.Nat.{mul-le-mul_right, mul-lt-mul_of_pos_right}
use ramryder.Prelude.{
  ℕ, ◌+◌, ◌-◌, ◌*◌, ◌≤◌, ◌<◌, ◌≡◌, ◌≢◌, refl, true, Bool, List, none, some, arith, ℤ, pos, ltb, leb,
  ◌&&◌, if◌then◌else◌, ◌==ℤ◌, ==ℤ_iff, pos_part, done, get_elem?, get_elem?-set, get_elem?-lt, set,
  Bool-cases, Option-cases, inl, inr, sym, ◌∙◌,
}
use ramryder.MemoryPool.Device.{MemoryDaxDev}
use ramryder.MemoryPool.Device.Windows.{is_free}
use ramryder.MemoryPool.Device.Release.{is_owned}
use ramryder.MemoryPool.Pool.{
  Pool, MemoryRequest, request_of, memory_pool_allocate_segments, memory_pool_release_segments,
}
use ramryder.MemoryPool.Pool.Invariant.{IsValid}
use ramryder.MemoryPool.Pool.Owner.{owner, in_window, owner-at, holder_at}
use ramryder.MemoryPool.Pool.Allocate.{IsGranted}
use ramryder.MemoryPool.Pool.Release.{pool_released, memory_pool_release_segments-owned}
use ramryder.MemoryPool.Pool.Reclaim.{on_device}
use ramryder.MemoryPool.Pool.RoundTrip.{memory_pool_allocate_segments-IsGranted}

-- Segment `k` of device `j` begins within the range that a request names.
pub holds : ℕ → MemoryRequest → ℕ → ℕ → Bool
holds seg req j k =
    req.node_id ==ℤ pos j
    && (leb req.offset_mb (k * seg) && ltb (k * seg) (req.offset_mb + req.size_mb))

-- A request names `num` whole segments of one device, from `start` on.
pub record IsLocated (seg : ℕ) (req : MemoryRequest) : Type 0 where
  pub index : ℕ
  pub start : ℕ
  pub num : ℕ
  pub at_node : req.node_id ≡ pos index
  pub at_offset : req.offset_mb ≡ start * seg
  pub at_size : req.size_mb ≡ num * seg
  pub some_segments : 0 < num

leb_scale : (a b seg : ℕ) → 0 < seg → leb (a * seg) (b * seg) ≡ leb a b
leb_scale a b seg h = elim (Bool-cases (leb a b)) [
  | inl le ↦ ground (arith, mul-le-mul_right {m = a} {n = b} seg (ground arith))
  | inr gt ↦ ground (arith, mul-lt-mul_of_pos_right {m = b} {n = a} {k = seg} (ground arith) h)
]

ltb_scale : (a b seg : ℕ) → 0 < seg → ltb (a * seg) (b * seg) ≡ ltb a b
ltb_scale a b seg h = elim (Bool-cases (ltb a b)) [
  | inl lt ↦ ground (arith, mul-lt-mul_of_pos_right {m = a} {n = b} {k = seg} (ground arith) h)
  | inr ge ↦ ground (arith, mul-le-mul_right {m = b} {n = a} seg (ground arith))
]

pub holds-in_window :
    (seg : ℕ) (req : MemoryRequest) (l : IsLocated seg req) (j k : ℕ)
    → 0 < seg
    → holds seg req j k ≡ in_window l.index l.start l.num j k
unfolding holds
holds-in_window seg req l j k h =
    let e : req.offset_mb + req.size_mb ≡ (l.start + l.num) * seg =
      omega (arith, l.at_offset, l.at_size) in
    rw (e, l.at_node, l.at_offset, leb_scale l.start k seg h, ltb_scale k (l.start + l.num) seg h)
      (ground arith)

on_device-set :
    (devs : List MemoryDaxDev) (i j k : ℕ) (d d' : MemoryDaxDev)
    → get_elem? devs i ≡ some d
    → d'.total_segments ≡ d.total_segments
    → on_device (set devs i d') j k ≡ on_device devs j k
on_device-set devs i j k d d' e t = ground (arith, get_elem?-lt devs i e, get_elem?-set devs i j d')

-- What a granted request changes.
pub record IsTaken (p : Pool) (vm : ℤ) (req : MemoryRequest) (p' : Pool) : Type 0 where
  pub located : IsLocated p.segment_size_mb req
  pub taken :
      (j k : ℕ) → owner p' j k ≡ (if holds p.segment_size_mb req j k then some vm else owner p j k)
  pub was_free : (j k : ℕ) → holds p.segment_size_mb req j k ≡ true → owner p j k ≡ none
  pub lies : (j k : ℕ) → holds p.segment_size_mb req j k ≡ true → on_device p.mem_devs j k ≡ true
  pub same_devices : (j k : ℕ) → on_device p'.mem_devs j k ≡ on_device p.mem_devs j k
  pub same_size : p'.segment_size_mb ≡ p.segment_size_mb

free-holder :
    (d : MemoryDaxDev) (k : ℕ) → is_free d.segments k ≡ true → holder_at d.segments k ≡ none
free-holder d k h = elim (Option-cases (get_elem? d.segments k)) [
  | inl e ↦ ground arith
  | inr (s, e) ↦ ground arith
]

in_window_parts :
    (i start num j k : ℕ)
    → in_window i start num j k ≡ true
    → (j ≡ i) × (start ≤ k) × (k < start + num)
in_window_parts i start num j k h = ground arith

granted-located :
    (p p' : Pool) (node vm : ℤ) (size : ℕ) (req : MemoryRequest)
    → IsGranted p node vm size req p'
    → IsLocated p.segment_size_mb req
unfolding request_of
granted-located p p' node vm size req g = record {
  index = g.index;
  start = g.start;
  num = g.num;
  at_node = ground (arith, g.answer, g.at_node);
  at_offset = ground (arith, g.answer);
  at_size = ground (arith, g.answer);
  some_segments = g.some_segments;
}

granted-taken :
    (p p' : Pool) (node vm : ℤ) (size : ℕ) (req : MemoryRequest) (j k : ℕ)
    → IsValid p
    → (g : IsGranted p node vm size req p')
    → holds p.segment_size_mb req j k ≡ in_window g.index g.start g.num j k
unfolding granted-located
granted-taken p p' node vm size req j k v g =
    holds-in_window p.segment_size_mb req (granted-located p p' node vm size req g) j k v.segmented

-- A request of any size but 0 that is granted names whole segments of one device; they lie on it
-- and were free, and they belong to the machine now; no other segment changes its owner.
pub memory_pool_allocate_segments-IsTaken :
    (p p' : Pool) (node vm size : ℤ) (req : MemoryRequest)
    → IsValid p
    → size ≢ pos 0
    → memory_pool_allocate_segments p node vm size ≡ done (some req, p')
    → IsTaken p vm req p' × IsValid p'
memory_pool_allocate_segments-IsTaken p p' node vm size req v h e =
    let (g, v') = memory_pool_allocate_segments-IsGranted p p' node vm size req v h e in
    (taken_of g, v')
  where
    window :
        (g : IsGranted p node vm (pos_part size) req p') (j k : ℕ)
        → holds p.segment_size_mb req j k ≡ true
        → (j ≡ g.index) × (g.start ≤ k) × (k < g.start + g.num)
    window g j k hold =
        in_window_parts g.index g.start g.num j k
          (sym (granted-taken p p' node vm (pos_part size) req j k v g) ∙ hold)

    taken_of : IsGranted p node vm (pos_part size) req p' → IsTaken p vm req p'
    taken_of g = record {
      located = granted-located p p' node vm (pos_part size) req g;
      taken = λ j k. rw (granted-taken p p' node vm (pos_part size) req j k v g) (g.owners j k);
      was_free = λ j k hold.
          let (ji, sk, kn) = window g j k hold in
          rw ji (owner-at p g.index k g.dev g.found ∙ free-holder g.dev k (g.first.1.free k sk kn));
      lies = λ j k hold.
          let (ji, sk, kn) = window g j k hold in ground (arith, g.found, g.first.1.fits);
      same_devices = λ j k. rw g.after (on_device-set p.mem_devs g.index j k g.dev _ g.found refl);
      same_size = rw g.after refl;
    }

-- What giving back a request changes.
pub record IsGivenBack (p : Pool) (req : MemoryRequest) (p' : Pool) : Type 0 where
  pub freed :
      (j k : ℕ) → owner p' j k ≡ (if holds p.segment_size_mb req j k then none else owner p j k)
  pub same_devices : (j k : ℕ) → on_device p'.mem_devs j k ≡ on_device p.mem_devs j k
  pub same_size : p'.segment_size_mb ≡ p.segment_size_mb
  pub valid : IsValid p'

on_device-at :
    (devs : List MemoryDaxDev) (j k : ℕ)
    → on_device devs j k ≡ true
    → (d : MemoryDaxDev) × (get_elem? devs j ≡ some d) × (k < d.total_segments)
on_device-at devs j k h = elim (Option-cases (get_elem? devs j)) [
  | inl e ↦ absurd (ground arith)
  | inr (d, e) ↦ (d, e, ground arith)
]

owned-holder :
    (d : MemoryDaxDev) (vm : ℤ) (k : ℕ)
    → holder_at d.segments k ≡ some vm
    → is_owned d.segments vm k ≡ true
owned-holder d vm k h = elim (Option-cases (get_elem? d.segments k)) [
  | inl e ↦ absurd (ground arith)
  | inr (s, e) ↦ ground (arith, ==ℤ_iff s.used_vm_id vm)
]

in_window_lem : (i start num k : ℕ) → start ≤ k → k < start + num → in_window i start num i k ≡ true
in_window_lem i start num k h q = ground arith

-- In a valid pool, if a request names whole segments of one device, and a machine owns all of them on
-- that device, giving it back in the name of the machine succeeds and sets just these free; no other
-- segment changes its owner, and the pool stays valid.
pub memory_pool_release_segments-IsGivenBack :
    (p : Pool) (vm : ℤ) (req : MemoryRequest)
    → IsValid p
    → IsLocated p.segment_size_mb req
    → ((j k : ℕ)
        → holds p.segment_size_mb req j k ≡ true
        → (owner p j k ≡ some vm) × (on_device p.mem_devs j k ≡ true))
    → (p' : Pool) × (memory_pool_release_segments p req.node_id vm
          (pos req.offset_mb)
          (pos req.size_mb)
        ≡ done (pos 0, p'))
      × IsGivenBack p req p'
memory_pool_release_segments-IsGivenBack p vm req v l own =
    let last = l.start + l.num - 1 in
    let (dev, e, fits) =
      on_device-at p.mem_devs l.index last
        (own l.index last
          (held last (omega (arith, l.some_segments)) (omega (arith, l.some_segments)))).1 in
    let (er, o, v') =
      memory_pool_release_segments-owned p l.index l.start l.num vm dev v e
        (omega (arith, l.some_segments))
        (λ k sk kn.
          owned-holder dev vm k
            (sym (owner-at p l.index k dev e) ∙ (own l.index k (held k sk kn)).0)) in
    (
      pool_released p l.index dev l.start l.num,
      rw (l.at_node, l.at_offset, l.at_size) er,
      record {
        freed = λ j k. rw (holds-in_window p.segment_size_mb req l j k v.segmented) (o j k);
        same_devices = λ j k. on_device-set p.mem_devs l.index j k dev _ e refl;
        same_size = refl;
        valid = v';
      },
    )
  where
    held :
        (k : ℕ) → l.start ≤ k → k < l.start + l.num → holds p.segment_size_mb req l.index k ≡ true
    held k h q =
        holds-in_window p.segment_size_mb req l l.index k v.segmented
        ∙ in_window_lem l.index l.start l.num k h q
