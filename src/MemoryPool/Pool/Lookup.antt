-- ===== src/MemoryPool/Pool/Lookup.antt =====
-- The look-up of a device by its node.
use ramryder.Prelude.{
  ℕ, zero, suc, ◌+◌, ◌<◌, ◌≡◌, refl, List, [], ◌∷◌, some, arith, ℤ, pos, ==ℤ_iff, length, get_elem?,
  Option-cases,
}
use ramryder.MemoryPool.Device.{MemoryDaxDev}
use ramryder.MemoryPool.Pool.{find_device}

-- Device `i` of the table has node `low + i`.
abbrev pub IsNumbered : ℕ → List MemoryDaxDev → Type 0
IsNumbered low [] = Unit
IsNumbered low (d ∷ devs) = (d.node_id ≡ pos low) × IsNumbered (low + 1) devs

-- In a numbered table the node of a device is its index.
pub find_device-IsNumbered :
    (low i : ℕ) (devs : List MemoryDaxDev)
    → IsNumbered low devs
    → i < length devs
    → find_device (pos (low + i)) devs ≡ some i
unfolding find_device
find_device-IsNumbered low i [] n h = absurd (omega arith)
find_device-IsNumbered low zero (d ∷ devs) n h = ground arith
find_device-IsNumbered low (suc i) (d ∷ devs) n h =
    ground (arith, find_device-IsNumbered (low + 1) i devs n.1 (omega arith))

-- A device that is found stands at its index and has the node that was asked for.
pub find_device-some :
    (node : ℤ) (low i : ℕ) (devs : List MemoryDaxDev)
    → IsNumbered low devs
    → find_device node devs ≡ some i
    → (d : MemoryDaxDev) × (get_elem? devs i ≡ some d) × (node ≡ pos (low + i))
unfolding find_device
find_device-some node low i [] n e = absurd (cc)
find_device-some node low zero (d ∷ devs) n e =
    (d, refl, ground (arith, ==ℤ_iff d.node_id node, Option-cases (find_device node devs)))
find_device-some node low (suc i) (d ∷ devs) n e =
    let (d', ed, en) =
      find_device-some node (low + 1) i devs n.1
        (ground (arith, Option-cases (find_device node devs))) in
    (d', ed, ground arith)
