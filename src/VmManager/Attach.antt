-- ===== src/VmManager/Attach.antt =====
-- A device that is added at the end of a machine's list.
use ramryder.Prelude.{ℕ, ◌+◌, ◌<◌, List, [], ◌∷◌, ◌++◌, arith, ℤ, Bool-cases, inl, inr, ◌∙◌}
use ramryder.MemoryPool.Pool.{Pool, MemoryRequest}
use ramryder.MemoryPool.Pool.Requests.{holds, IsTaken}
use ramryder.VmManager.{MemoryDev}
use ramryder.VmManager.Backing.{IsBacked, IsApart, AllApart, AreBacked, IsBacked-keep, IsTaken-keep}

new_dev : ℕ → MemoryRequest → MemoryDev
new_dev counter req = record { memdev_idx = counter; memory_req = req }

AllApart-append :
    (seg : ℕ) (m n : MemoryDev) (ms : List MemoryDev)
    → AllApart seg m ms
    → IsApart seg m n
    → AllApart seg m (ms ++ n ∷ [])
AllApart-append seg m n [] a b = (b, tt)
AllApart-append seg m n (x ∷ ms) a b = (a.0, AllApart-append seg m n ms a.1 b)

-- What a machine owns already is apart from what it is given now.
IsApart-taken :
    (p p' : Pool) (vm : ℤ) (counter : ℕ) (req : MemoryRequest) (m : MemoryDev)
    → IsTaken p vm req p'
    → IsBacked p vm m
    → m.memdev_idx < counter
    → IsApart p.segment_size_mb m (new_dev counter req)
unfolding new_dev
IsApart-taken p p' vm counter req m t b lt = record {
  other_index = omega arith;
  disjoint = λ j k hold. elim (Bool-cases (holds p.segment_size_mb req j k)) [
    | inl taken ↦ absurd (cc ((b.owned j k hold).0, t.was_free j k taken))
    | inr out ↦ out
  ];
}

IsBacked-new :
    (p p' : Pool) (vm : ℤ) (counter : ℕ) (req : MemoryRequest)
    → IsTaken p vm req p'
    → IsBacked p' vm (new_dev counter req)
unfolding new_dev
IsBacked-new p p' vm counter req t = record {
  located = rw t.same_size t.located;
  owned = λ j k hold.
      let hold' = rw t.same_size at hold in
      (ground (arith, t.taken j k, hold'), t.same_devices j k ∙ t.lies j k hold');
}

-- After a request was granted, the list with the new device at its end is as it should be, with the
-- counter one higher.
pub AreBacked-attach :
    (p p' : Pool) (vm : ℤ) (counter : ℕ) (req : MemoryRequest) (ms : List MemoryDev)
    → IsTaken p vm req p'
    → AreBacked p vm counter ms
    → AreBacked p' vm (counter + 1) (ms ++ record { memdev_idx = counter; memory_req = req } ∷ [])
unfolding new_dev
AreBacked-attach p p' vm counter req [] t b =
    (IsBacked-new p p' vm counter req t, omega arith, tt, tt)
AreBacked-attach p p' vm counter req (m ∷ ms) t b = (
  IsBacked-keep p p' vm m t.same_size t.same_devices (λ j k hold. IsTaken-keep p p' vm vm req t j k)
      b.0,
  omega arith,
  rw t.same_size (
      AllApart-append p.segment_size_mb m (new_dev counter req) ms b.2
        (IsApart-taken p p' vm counter req m t b.0 b.1)),
  AreBacked-attach p p' vm counter req ms t b.3,
)
