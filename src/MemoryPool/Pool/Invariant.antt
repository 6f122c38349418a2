-- ===== src/MemoryPool/Pool/Invariant.antt =====
-- What holds of the whole pool between two calls.
use ramryder.Prelude.{
  false, ap, length, abort, division_by_zero, stop_if, ◌==◌, >>=-eq-done, ℕ, zero, suc, ◌+◌, ◌/◌,
  ◌≤◌, ◌<◌, ◌≡◌, refl, List, [], ◌∷◌, map, some, arith, pos, done, get_elem?, set,
}
use ramryder.MemoryPool.Device.{MemoryDaxDev, max_segments}
use ramryder.MemoryPool.Device.Invariant.{fresh-IsValid}
use ramryder.MemoryPool.Device.Invariant
use ramryder.MemoryPool.Pool.{Pool, init_device, init_devices}
use ramryder.MemoryPool.Pool.Lookup.{IsNumbered}

-- Every device is valid.
abbrev pub AllValid : List MemoryDaxDev → Type 0
AllValid [] = Unit
AllValid (d ∷ devs) = Invariant.IsValid d × AllValid devs

pub record IsValid (p : Pool) : Type 0 where
  pub segmented : 0 < p.segment_size_mb
  pub numbered : IsNumbered 0 p.mem_devs
  pub valid : AllValid p.mem_devs

pub AllValid-at :
    (devs : List MemoryDaxDev) (i : ℕ) {d : MemoryDaxDev}
    → AllValid devs
    → get_elem? devs i ≡ some d
    → Invariant.IsValid d
AllValid-at [] i v e = absurd (cc)
AllValid-at (x ∷ devs) zero v e = let p : x ≡ _ = cc in rw p at v.0
AllValid-at (x ∷ devs) (suc i) v e = AllValid-at devs i v.1 e

pub AllValid-set :
    (devs : List MemoryDaxDev) (i : ℕ) (d : MemoryDaxDev)
    → AllValid devs
    → Invariant.IsValid d
    → AllValid (set devs i d)
AllValid-set [] i d v w = tt
AllValid-set (x ∷ devs) zero d v w = (w, v.1)
AllValid-set (x ∷ devs) (suc i) d v w = (v.0, AllValid-set devs i d v.1 w)

-- Putting back a device with the node that it had keeps the numbering.
pub IsNumbered-set :
    (low i : ℕ) (devs : List MemoryDaxDev) (d d' : MemoryDaxDev)
    → IsNumbered low devs
    → get_elem? devs i ≡ some d
    → d'.node_id ≡ d.node_id
    → IsNumbered low (set devs i d')
IsNumbered-set low i [] d d' n e h = tt
IsNumbered-set low zero (x ∷ devs) d d' n e h = (ground arith, n.1)
IsNumbered-set low (suc i) (x ∷ devs) d d' n e h =
    (n.0, IsNumbered-set (low + 1) i devs d d' n.1 e h)

pub set-IsValid :
    (p : Pool) (i : ℕ) (d d' : MemoryDaxDev)
    → IsValid p
    → get_elem? p.mem_devs i ≡ some d
    → d'.node_id ≡ d.node_id
    → Invariant.IsValid d'
    → IsValid (record p { mem_devs = set p.mem_devs i d' })
set-IsValid p i d d' v e h w = record {
  segmented = v.segmented;
  numbered = IsNumbered-set 0 i p.mem_devs d d' v.numbered e h;
  valid = AllValid-set p.mem_devs i d' v.valid w;
}

-- Every device of the configuration fits into the array of segments.
abbrev pub AllFit : ℕ → List MemoryDaxDev → Type 0
AllFit segment_size [] = Unit
AllFit segment_size (d ∷ devs) =
    (d.total_size_mb / segment_size ≤ max_segments) × AllFit segment_size devs

-- When the segment size is set and every device fits, the set-up of the table ends; the devices are
-- numbered in order and valid, none is added or dropped, and none of their segments is in use.
pub init_devices-IsValid :
    (segment_size low : ℕ) (devs : List MemoryDaxDev)
    → 0 < segment_size
    → AllFit segment_size devs
    → (devs' : List MemoryDaxDev) × (init_devices segment_size low devs ≡ done devs')
      × IsNumbered low devs'
      × AllValid devs'
      × (map (λ d. d.used_segments) devs' ≡ map (λ d. pos 0) devs)
unfolding init_devices
init_devices-IsValid segment_size low [] h fit = ([], refl, tt, tt, refl)
init_devices-IsValid segment_size low (d ∷ devs) h fit =
    let (devs', e, n, v, u) = init_devices-IsValid segment_size (low + 1) devs h fit.1 in
    (
      init_device segment_size low d ∷ devs',
      ground arith,
      (refl, n),
      (fresh-IsValid (init_device segment_size low d) max_segments fit.0, v),
      ground arith,
    )

not_zero : (n : ℕ) → 0 < n → (n == 0) ≡ false
not_zero n h = ground arith

-- What the set-up makes of the table, where it ends.
abbrev pub init_all : ℕ → ℕ → List MemoryDaxDev → List MemoryDaxDev
init_all segment_size i [] = []
init_all segment_size i (dev ∷ devs) =
    init_device segment_size i dev ∷ init_all segment_size (i + 1) devs

pub init_devices-done :
    (segment_size i : ℕ) (devs devs' : List MemoryDaxDev)
    → init_devices segment_size i devs ≡ done devs'
    → devs' ≡ init_all segment_size i devs
unfolding init_devices
init_devices-done segment_size i [] devs' e = cc
init_devices-done segment_size i (d ∷ devs) devs' e =
    let (u, positive, rest) = >>=-eq-done (stop_if (segment_size == 0) division_by_zero) _ e in
    let (more, set_up, out) = >>=-eq-done (init_devices segment_size (i + 1) devs) _ rest in
    let tail : more ≡ init_all segment_size (i + 1) devs =
      init_devices-done segment_size (i + 1) devs more set_up in
    cc

pub init_devices-traps :
    (i : ℕ) (d : MemoryDaxDev) (devs : List MemoryDaxDev)
    → init_devices 0 i (d ∷ devs) ≡ abort division_by_zero
unfolding init_devices
init_devices-traps i d devs = refl

pub init_all-AllValid :
    (segment_size i : ℕ) (devs : List MemoryDaxDev)
    → AllFit segment_size (init_all segment_size i devs)
    → AllValid (init_all segment_size i devs)
init_all-AllValid segment_size i [] fit = tt
init_all-AllValid segment_size i (d ∷ devs) fit = (
  fresh-IsValid (init_device segment_size i d) max_segments fit.0,
  init_all-AllValid segment_size (i + 1) devs fit.1,
)

pub init_all-IsNumbered :
    (segment_size i : ℕ) (devs : List MemoryDaxDev) → IsNumbered i (init_all segment_size i devs)
init_all-IsNumbered segment_size i [] = tt
init_all-IsNumbered segment_size i (d ∷ devs) =
    (refl, init_all-IsNumbered segment_size (i + 1) devs)

pub length-init_all :
    (segment_size i : ℕ) (devs : List MemoryDaxDev)
    → length (init_all segment_size i devs) ≡ length devs
length-init_all segment_size i [] = refl
length-init_all segment_size i (d ∷ devs) = ap suc (length-init_all segment_size (i + 1) devs)

pub init_devices-eq :
    (segment_size i : ℕ) (devs : List MemoryDaxDev)
    → 0 < segment_size
    → init_devices segment_size i devs ≡ done (init_all segment_size i devs)
unfolding init_devices
init_devices-eq segment_size i [] h = refl
init_devices-eq segment_size i (d ∷ devs) h =
    rw (not_zero segment_size h, init_devices-eq segment_size (i + 1) devs h) refl
