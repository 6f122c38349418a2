-- ===== src/MemoryPool/Device/Alignment.antt =====
-- `is_aligned` where the alignment is set.
use ramryder.Prelude.{ℕ, ◌%◌, ◌<◌, ◌≡◌, refl, false, arith, pos, negsuc, done, ◌==◌}
use ramryder.MemoryPool.Device.{is_aligned}

pub is_aligned_pos : (n a : ℕ) → 0 < a → is_aligned (pos n) a ≡ done (n % a == 0)
unfolding is_aligned
is_aligned_pos n a h = ground arith

pub is_aligned_negsuc : (n a : ℕ) → is_aligned (negsuc n) a ≡ done false
unfolding is_aligned
is_aligned_negsuc n a = refl
