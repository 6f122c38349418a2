-- ===== src/MemoryPool/Pool/RoundTrip.antt =====
-- A request that is granted and then given back.
use native.Mathlib.Nat.{mul-div_cancel}
use ramryder.Prelude.{
  ℕ, ◌*◌, ◌<◌, ◌≡◌, ◌≢◌, Option, none, some, arith, ℤ, pos, pos_part, Exec, done, length, get_elem?,
  get_elem?-lt, length-set, set, set_self, set-set, get_elem?-set_self, sym, ◌∙◌,
}
use mathlib.Core.Path.{subst}
use ramryder.MemoryPool.Device.{MemoryDaxDev, release_segments}
use ramryder.MemoryPool.Device.Allocate.{granted, granted-IsValid}
use ramryder.MemoryPool.Device.RoundTrip.{release-granted}
use ramryder.MemoryPool.Pool.{
  Pool, MemoryRequest, request_of, release_on, memory_pool_allocate_segments,
  memory_pool_release_segments,
}
use ramryder.MemoryPool.Pool.Invariant.{IsValid, AllValid-at}
use ramryder.MemoryPool.Pool.Allocate.{IsGranted, Answers, memory_pool_allocate_segments-Allocates}
use ramryder.MemoryPool.Pool.Release.{release_on-pos}

-- Inversion of a granted request.
pub memory_pool_allocate_segments-IsGranted :
    (p p' : Pool) (node vm size : ℤ) (req : MemoryRequest)
    → IsValid p
    → size ≢ pos 0
    → memory_pool_allocate_segments p node vm size ≡ done (some req, p')
    → IsGranted p node vm (pos_part size) req p' × IsValid p'
memory_pool_allocate_segments-IsGranted p p' node vm size req v h e =
    let (r, q, er, a, v') = memory_pool_allocate_segments-Allocates p node vm size v h in
    invert r q (sym er ∙ e) a v'
  where
    invert :
        (r : Option MemoryRequest) (q : Pool)
        → ◌≡◌ {A = Exec (Option MemoryRequest × Pool)} (done (r, q)) (done (some req, p'))
        → Answers p node vm size r q
        → IsValid q
        → IsGranted p node vm (pos_part size) req p' × IsValid p'
    invert none q eq a w = absurd (cc)
    invert (some r) q eq a w =
        let er : r ≡ req = cc in
        let eq' : q ≡ p' = cc in
        (
          subst (λ t. IsGranted p node vm (pos_part size) t p') er
              (subst (λ t. IsGranted p node vm (pos_part size) r t) eq' a),
          subst IsValid eq' w,
        )

release_on-granted :
    (p : Pool) (i num start : ℕ) (vm : ℤ) (dev : MemoryDaxDev)
    → IsValid p
    → get_elem? p.mem_devs i ≡ some dev
    → release_segments (granted dev num vm (some start)) vm start num ≡ done (pos 0, dev)
    → release_on
        (record p { mem_devs = set p.mem_devs i (granted dev num vm (some start)) })
        vm
        (start * p.segment_size_mb)
        (num * p.segment_size_mb)
        (some i)
      ≡ done (pos 0, p)
unfolding release_on
release_on-granted p i num start vm dev v e er = ground (
  arith,
  er,
  get_elem?-set_self p.mem_devs i {w = granted dev num vm (some start)} e,
  mul-div_cancel start v.segmented,
  mul-div_cancel num v.segmented,
  set-set p.mem_devs i (granted dev num vm (some start)) dev,
  set_self p.mem_devs i e,
)

in_table :
    (p : Pool) (i : ℕ) (d : MemoryDaxDev) → i < length p.mem_devs → i < length (set p.mem_devs i d)
in_table p i d h = omega (arith, length-set {0} p.mem_devs i d)

-- If a request of any size but 0 is granted on a valid pool, then releasing what its answer names, by
-- node, offset and size and for the same machine, succeeds and restores the pool exactly.
pub memory_pool_release-allocate :
    (p p' : Pool) (node vm size : ℤ) (req : MemoryRequest)
    → IsValid p
    → size ≢ pos 0
    → memory_pool_allocate_segments p node vm size ≡ done (some req, p')
    → memory_pool_release_segments p' req.node_id vm (pos req.offset_mb) (pos req.size_mb)
      ≡ done (pos 0, p)
unfolding request_of
memory_pool_release-allocate p p' node vm size req v h e =
    let (g, v') = memory_pool_allocate_segments-IsGranted p p' node vm size req v h e in
    let vd = AllValid-at p.mem_devs g.index v.valid g.found in
    let q : Pool = record p {
      mem_devs = set p.mem_devs g.index (granted g.dev g.num vm (some g.start));
    } in
    let vq : IsValid q = rw g.after at v' in
    let back =
      release-granted g.dev g.num g.start vm vd g.first.1
        (granted-IsValid g.dev g.num vm (some g.start) vd g.first) in
    rw (g.after, g.answer, g.at_node)
      (release_on-pos q g.index g.start g.num vm vq (
          in_table p g.index (granted g.dev g.num vm (some g.start))
            (get_elem?-lt p.mem_devs g.index g.found))
        ∙ release_on-granted p g.index g.num g.start vm g.dev v g.found back)
