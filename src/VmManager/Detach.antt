-- ===== src/VmManager/Detach.antt =====
-- A device that is taken out of a machine's list.
use ramryder.Prelude.{
  ℕ, ◌≡◌, true, false, List, [], ◌∷◌, some, arith, ℤ, pos, Bool-cases, inl, inr, ◌==ℤ◌,
}
use mathlib.Core.Path.{subst}
use ramryder.MemoryPool.Pool.{Pool}
use ramryder.MemoryPool.Pool.Requests.{holds, IsGivenBack}
use ramryder.VmManager.{MemoryDev, find_memdev, remove_memdev}
use ramryder.VmManager.Backing.{IsBacked, IsApart, AllApart, AreBacked, IsBacked-keep}

-- The device that the loop stops at is one of the list.
pub find_memdev-IsBacked :
    (p : Pool) (vm : ℤ) (counter : ℕ) (idx : ℤ) (ms : List MemoryDev) (m : MemoryDev)
    → AreBacked p vm counter ms
    → find_memdev idx ms ≡ some m
    → IsBacked p vm m
unfolding find_memdev
find_memdev-IsBacked p vm counter idx [] m b e = absurd (cc)
find_memdev-IsBacked p vm counter idx (x ∷ ms) m b e =
    elim (Bool-cases (pos x.memdev_idx ==ℤ idx)) [
      | inl hit ↦ let same : x ≡ m = ground arith in rw same at b.0
      | inr miss ↦ find_memdev-IsBacked p vm counter idx ms m b.3 (ground arith)
    ]

find_memdev-IsApart :
    (seg : ℕ) (x m : MemoryDev) (idx : ℤ) (ms : List MemoryDev)
    → AllApart seg x ms
    → find_memdev idx ms ≡ some m
    → IsApart seg x m
unfolding find_memdev
find_memdev-IsApart seg x m idx [] a e = absurd (cc)
find_memdev-IsApart seg x m idx (y ∷ ms) a e = elim (Bool-cases (pos y.memdev_idx ==ℤ idx)) [
  | inl hit ↦ let same : y ≡ m = ground arith in rw same at a.0
  | inr miss ↦ find_memdev-IsApart seg x m idx ms a.1 (ground arith)
]

AllApart-remove :
    (seg : ℕ) (x : MemoryDev) (idx : ℤ) (ms : List MemoryDev)
    → AllApart seg x ms
    → AllApart seg x (remove_memdev idx ms)
unfolding remove_memdev
AllApart-remove seg x idx [] a = tt
AllApart-remove seg x idx (y ∷ ms) a = elim (Bool-cases (pos y.memdev_idx ==ℤ idx)) [
  | inl hit ↦ rw hit a.1
  | inr miss ↦ rw miss (a.0, AllApart-remove seg x idx ms a.1)
]

-- A device that is apart from the one that is given back keeps its segments.
IsBacked-given_back :
    (p p' : Pool) (vm : ℤ) (m x : MemoryDev)
    → IsGivenBack p m.memory_req p'
    → IsBacked p vm x
    → ((j k : ℕ)
        → holds p.segment_size_mb x.memory_req j k ≡ true
        → holds p.segment_size_mb m.memory_req j k ≡ false)
    → IsBacked p' vm x
IsBacked-given_back p p' vm m x g b apart =
    IsBacked-keep p p' vm x g.same_size g.same_devices
      (λ j k hold o. ground (arith, g.freed j k, apart j k hold)) b

AreBacked-behind :
    (p p' : Pool) (vm : ℤ) (counter : ℕ) (m : MemoryDev) (ms : List MemoryDev)
    → IsGivenBack p m.memory_req p'
    → AllApart p.segment_size_mb m ms
    → AreBacked p vm counter ms
    → AreBacked p' vm counter ms
AreBacked-behind p p' vm counter m [] g a b = tt
AreBacked-behind p p' vm counter m (x ∷ ms) g a b = (
  IsBacked-given_back p p' vm m x g b.0 (λ j k hold. other j k hold),
  b.1,
  rw g.same_size b.2,
  AreBacked-behind p p' vm counter m ms g a.1 b.3,
)
  where
    other :
        (j k : ℕ)
        → holds p.segment_size_mb x.memory_req j k ≡ true
        → holds p.segment_size_mb m.memory_req j k ≡ false
    other j k hold = elim (Bool-cases (holds p.segment_size_mb m.memory_req j k)) [
      | inl both ↦ absurd (cc (hold, a.0.disjoint j k both))
      | inr out ↦ out
    ]

-- After the device with index `idx` was given back, the list without it is as it should be.
pub AreBacked-detach :
    (p p' : Pool) (vm : ℤ) (counter : ℕ) (idx : ℤ) (ms : List MemoryDev) (m : MemoryDev)
    → find_memdev idx ms ≡ some m
    → IsGivenBack p m.memory_req p'
    → AreBacked p vm counter ms
    → AreBacked p' vm counter (remove_memdev idx ms)
unfolding find_memdev remove_memdev
AreBacked-detach p p' vm counter idx [] m e g b = tt
AreBacked-detach p p' vm counter idx (x ∷ ms) m e g b =
    elim (Bool-cases (pos x.memdev_idx ==ℤ idx)) [
      | inl hit ↦
          let same : x ≡ m = ground arith in
          rw hit (
            AreBacked-behind p p' vm counter m ms g
              (subst (λ t. AllApart p.segment_size_mb t ms) same b.2) b.3)
      | inr miss ↦
          let rest : find_memdev idx ms ≡ some m = ground arith in
          rw miss (
            IsBacked-given_back p p' vm m x g b.0
                (find_memdev-IsApart p.segment_size_mb x m idx ms b.2 rest).disjoint,
            b.1,
            rw g.same_size (AllApart-remove p.segment_size_mb x idx ms b.2),
            AreBacked-detach p p' vm counter idx ms m rest g b.3,
          )
    ]
