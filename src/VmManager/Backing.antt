-- ===== src/VmManager/Backing.antt =====
-- A memory device that is attached to a machine, and the segments behind it.
use ramryder.Prelude.{
  ℕ, ◌≤◌, ◌<◌, ◌≡◌, ◌≢◌, true, false, List, [], ◌∷◌, Option, some, arith, ℤ, ==ℤ_iff, Bool-cases,
  inl, inr, sym, ◌∙◌,
}
use ramryder.MemoryPool.Pool.{Pool, MemoryRequest}
use ramryder.MemoryPool.Pool.Owner.{owner}
use ramryder.MemoryPool.Pool.Reclaim.{on_device, IsReclaimed}
use ramryder.MemoryPool.Pool.Requests.{holds, IsLocated, IsTaken, IsGivenBack}
use ramryder.VmManager.{MemoryDev}

-- The device names whole segments, and the machine owns all of them.
pub record IsBacked (p : Pool) (vm : ℤ) (m : MemoryDev) : Type 0 where
  pub located : IsLocated p.segment_size_mb m.memory_req
  pub owned :
      (j k : ℕ)
      → holds p.segment_size_mb m.memory_req j k ≡ true
      → (owner p j k ≡ some vm) × (on_device p.mem_devs j k ≡ true)

-- Two devices share no segment, and have different indices.
pub record IsApart (seg : ℕ) (m n : MemoryDev) : Type 0 where
  pub other_index : m.memdev_idx ≢ n.memdev_idx
  pub disjoint : (j k : ℕ) → holds seg m.memory_req j k ≡ true → holds seg n.memory_req j k ≡ false

abbrev pub AllApart : ℕ → MemoryDev → List MemoryDev → Type 0
AllApart seg m [] = Unit
AllApart seg m (n ∷ ns) = IsApart seg m n × AllApart seg m ns

-- What holds of the devices of a machine: each has its own segments and an index below the counter.
abbrev pub AreBacked : Pool → ℤ → ℕ → List MemoryDev → Type 0
AreBacked p vm counter [] = Unit
AreBacked p vm counter (m ∷ ms) =
    IsBacked p vm m
    × (m.memdev_idx < counter)
    × AllApart p.segment_size_mb m ms
    × AreBacked p vm counter ms

-- The pool keeps the segments of a device.
abbrev pub Keeps : Pool → Pool → ℤ → MemoryDev → Type 0
Keeps p p' vm m =
    (j k : ℕ)
    → holds p.segment_size_mb m.memory_req j k ≡ true
    → owner p j k ≡ some vm
    → owner p' j k ≡ some vm

pub IsBacked-keep :
    (p p' : Pool) (vm : ℤ) (m : MemoryDev)
    → p'.segment_size_mb ≡ p.segment_size_mb
    → ((j k : ℕ) → on_device p'.mem_devs j k ≡ on_device p.mem_devs j k)
    → Keeps p p' vm m
    → IsBacked p vm m
    → IsBacked p' vm m
IsBacked-keep p p' vm m s d keep b = record {
  located = rw s b.located;
  owned = λ j k hold.
      let (o, on) = b.owned j k (rw s at hold) in (keep j k (rw s at hold) o, d j k ∙ on);
}

-- If the pool keeps all that the machine owns, its devices stay as they are.
pub AreBacked-keep :
    (p p' : Pool) (vm : ℤ) (counter counter' : ℕ) (ms : List MemoryDev)
    → p'.segment_size_mb ≡ p.segment_size_mb
    → ((j k : ℕ) → on_device p'.mem_devs j k ≡ on_device p.mem_devs j k)
    → ((j k : ℕ) → owner p j k ≡ some vm → owner p' j k ≡ some vm)
    → counter ≤ counter'
    → AreBacked p vm counter ms
    → AreBacked p' vm counter' ms
AreBacked-keep p p' vm counter counter' [] s d keep le b = tt
AreBacked-keep p p' vm counter counter' (m ∷ ms) s d keep le b = (
  IsBacked-keep p p' vm m s d (λ j k hold. keep j k) b.0,
  omega arith,
  rw s b.2,
  AreBacked-keep p p' vm counter counter' ms s d keep le b.3,
)

-- What was taken was free before, so that nobody loses a segment.
pub IsTaken-keep :
    (p p' : Pool) (vm vm' : ℤ) (req : MemoryRequest)
    → IsTaken p vm req p'
    → (j k : ℕ) → owner p j k ≡ some vm'
    → owner p' j k ≡ some vm'
IsTaken-keep p p' vm vm' req t j k o = elim (Bool-cases (holds p.segment_size_mb req j k)) [
  | inl hold ↦ absurd (cc (t.was_free j k hold))
  | inr out ↦ ground (arith, t.taken j k)
]

-- Nobody but the named machine loses a segment when memory is reclaimed.
pub IsReclaimed-keep :
    (p p' : Pool) (vm vm' : ℤ)
    → IsReclaimed p vm p'
    → vm' ≢ vm
    → (j k : ℕ) → owner p j k ≡ some vm'
    → owner p' j k ≡ some vm'
IsReclaimed-keep p p' vm vm' r ne j k o = ground (arith, r.reclaimed_owners j k, ==ℤ_iff vm' vm)

-- Nor when a request of a machine that owns all of it is given back.
pub IsGivenBack-keep :
    (p p' : Pool) (vm vm' : ℤ) (m : MemoryDev)
    → IsGivenBack p m.memory_req p'
    → IsBacked p vm m
    → vm' ≢ vm
    → (j k : ℕ) → owner p j k ≡ some vm'
    → owner p' j k ≡ some vm'
IsGivenBack-keep p p' vm vm' m g b ne j k o =
    elim (Bool-cases (holds p.segment_size_mb m.memory_req j k)) [
      | inl hold ↦ absurd (ne (some-eq (sym o ∙ (b.owned j k hold).0)))
      | inr out ↦ ground (arith, g.freed j k)
    ]
  where
    some-eq : ◌≡◌ {A = Option ℤ} (some vm') (some vm) → vm' ≡ vm
    some-eq e = cc
