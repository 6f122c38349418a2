-- ===== src/VmManager/Isolation.antt =====
-- Memory devices do not overlap.
use ramryder.Prelude.{
  ℕ, zero, suc, ◌<◌, ◌≡◌, ◌≢◌, ◌⊎◌, true, false, List, [], ◌∷◌, some, arith, ℤ, Bool-cases, inl,
  inr, get_elem?,
}
use ramryder.MemoryPool.Pool.{Pool}
use ramryder.MemoryPool.Pool.Requests.{holds}
use ramryder.VmManager.{VmInstance, Manager, MemoryDev, initial}
use ramryder.VmManager.Backing.{IsBacked, IsApart, AllApart, AreBacked}
use ramryder.MemoryPool.Pool.Invariant
use ramryder.VmManager.Reachable.{Reach, Reach-initial-IsValid}
use ramryder.VmManager.Invariant.{IsValid}

pub AreBacked-at :
    (p : Pool) (vm : ℤ) (counter a : ℕ) (ms : List MemoryDev) (m : MemoryDev)
    → AreBacked p vm counter ms
    → get_elem? ms a ≡ some m
    → IsBacked p vm m
AreBacked-at p vm counter a [] m b e = absurd (cc)
AreBacked-at p vm counter zero (x ∷ ms) m b e = let same : x ≡ m = cc in rw same at b.0
AreBacked-at p vm counter (suc a) (x ∷ ms) m b e = AreBacked-at p vm counter a ms m b.3 e

AllApart-at :
    (seg b : ℕ) (x : MemoryDev) (ms : List MemoryDev) (n : MemoryDev)
    → AllApart seg x ms
    → get_elem? ms b ≡ some n
    → IsApart seg x n
AllApart-at seg b x [] n a e = absurd (cc)
AllApart-at seg zero x (y ∷ ms) n a e = let same : y ≡ n = cc in rw same at a.0
AllApart-at seg (suc b) x (y ∷ ms) n a e = AllApart-at seg b x ms n a.1 e

AreBacked-IsApart :
    (p : Pool) (vm : ℤ) (counter a b : ℕ) (ms : List MemoryDev) (m n : MemoryDev)
    → AreBacked p vm counter ms
    → a < b
    → get_elem? ms a ≡ some m
    → get_elem? ms b ≡ some n
    → IsApart p.segment_size_mb m n
AreBacked-IsApart p vm counter a b [] m n k lt em en = absurd (cc)
AreBacked-IsApart p vm counter a zero (x ∷ ms) m n k lt em en = absurd (omega arith)
AreBacked-IsApart p vm counter zero (suc b) (x ∷ ms) m n k lt em en =
    let same : x ≡ m = cc in rw same at (AllApart-at p.segment_size_mb b x ms n k.2 en)
AreBacked-IsApart p vm counter (suc a) (suc b) (x ∷ ms) m n k lt em en =
    AreBacked-IsApart p vm counter a b ms m n k.3 (omega arith) em en

same_machine :
    (p : Pool) (vm : ℤ) (counter a b : ℕ) (ms : List MemoryDev) (m n : MemoryDev) (d k : ℕ)
    → AreBacked p vm counter ms
    → a ≢ b
    → get_elem? ms a ≡ some m
    → get_elem? ms b ≡ some n
    → holds p.segment_size_mb m.memory_req d k ≡ true
    → holds p.segment_size_mb n.memory_req d k ≡ false
same_machine p vm counter a b ms m n d k v ne em en hold = elim (ne_cases a b ne) [
  | inl lt ↦ (AreBacked-IsApart p vm counter a b ms m n v lt em en).disjoint d k hold
  | inr gt ↦ elim (Bool-cases (holds p.segment_size_mb n.memory_req d k)) [
    | inl both ↦
        absurd (cc (hold, (AreBacked-IsApart p vm counter b a ms n m v gt en em).disjoint d k both))
    | inr out ↦ out
  ]
]
  where
    ne_cases : (a b : ℕ) → a ≢ b → (a < b) ⊎ (b < a)
    ne_cases a b h = omega arith

-- In a valid manager no segment is named by two attached devices, whether they are two devices of
-- one registered machine or devices of two machines.
attached_devs_disjoint :
    (s : Manager) (i j a b : ℕ) (v w : VmInstance) (m n : MemoryDev) (d k : ℕ)
    → IsValid s
    → get_elem? s.vms i ≡ some v
    → get_elem? s.vms j ≡ some w
    → v.initialized ≡ true
    → w.initialized ≡ true
    → get_elem? v.attached_devs a ≡ some m
    → get_elem? w.attached_devs b ≡ some n
    → (i ≢ j) ⊎ (a ≢ b)
    → holds s.pool.segment_size_mb m.memory_req d k ≡ true
    → holds s.pool.segment_size_mb n.memory_req d k ≡ false
attached_devs_disjoint s i j a b v w m n d k valid ev ew iv iw em en ne hold =
    elim (Bool-cases (holds s.pool.segment_size_mb n.memory_req d k)) [
      | inr out ↦ out
      | inl both ↦
          let bm =
            AreBacked-at s.pool v.vm_id v.memdev_counter a v.attached_devs m
              (valid.housed i v ev iv) em in
          let bn =
            AreBacked-at s.pool w.vm_id w.memdev_counter b w.attached_devs n
              (valid.housed j w ew iw) en in
          let om = (bm.owned d k hold).0 in
          let on = (bn.owned d k both).0 in
          let one : i ≡ j = valid.distinct i j v w ev ew iv iw (cc (om, on)) in
          let same : v ≡ w = cc (ev, ew, one) in
          elim ne [
            | inl other ↦ absurd (other one)
            | inr other ↦
                same_machine s.pool v.vm_id v.memdev_counter a b v.attached_devs m n d k
                  (valid.housed i v ev iv) other em (cc (same, en)) hold
          ]
    ]

-- Whatever requests are served and whatever updates of the counters end from the start of the program
-- on, with a valid pool, in whatever order: between two of them no segment is named by two attached devices, whether they are two
-- devices of one registered machine or devices of two machines.
pub reachable_devs_disjoint :
    (p : Pool) (s : Manager) (i j a b : ℕ) (v w : VmInstance) (m n : MemoryDev) (d k : ℕ)
    → Invariant.IsValid p
    → Reach (initial p) s
    → get_elem? s.vms i ≡ some v
    → get_elem? s.vms j ≡ some w
    → v.initialized ≡ true
    → w.initialized ≡ true
    → get_elem? v.attached_devs a ≡ some m
    → get_elem? w.attached_devs b ≡ some n
    → (i ≢ j) ⊎ (a ≢ b)
    → holds s.pool.segment_size_mb m.memory_req d k ≡ true
    → holds s.pool.segment_size_mb n.memory_req d k ≡ false
reachable_devs_disjoint p s i j a b v w m n d k h r =
    attached_devs_disjoint s i j a b v w m n d k (Reach-initial-IsValid p s h r)
