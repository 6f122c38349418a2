-- ===== src/PerfEvent/Groups.antt =====
-- The perf events of a core, opened by the system calls, are those that `PerfKernel` describes.
use ramryder.Prelude.{
  List, [], ◌∷◌, ◌==◌, Bool-cases, inl, inr, ℕ, zero, suc, ◌+◌, ◌<◌, ◌≡◌, refl, true, some, arith,
  ℤ, pos, minus_one, ltb_ℤ, ap, ◌>>=◌, >>=-ext, stop_if, bug_on, write, Exec, done, abort,
  get_elem?, read,
}
use ramryder.Scan.{Bytes}
use ramryder.CoreSet.{core_list, each_core, for_each_core}
use ramryder.PerfCounter.{Perf, PerfKernel, event_types, setup_events, setup_core, perf_setup}
use ramryder.VmManager.Metrics.{Doubles, reset_metrics}
use ramryder.PerfEvent.{
  Syscalls, perf_event_is_leader_arr, open_event, open_events, open_core, vm_perf_counter_setup,
}

module _ (d : Doubles) (sys : Syscalls d) (reads : ℤ → Exec ℕ) where
  pub fd_of : Exec ℤ → ℤ
  fd_of (done fd) = fd
  fd_of (abort e) = minus_one

  -- Each event is opened in a group of its own; `reads` is the reading of a descriptor.
  abbrev pub kernel_of : PerfKernel
  kernel_of = record {
    event_open = λ core j. fd_of (open_event d sys core j minus_one);
    event_read = reads;
    close = sys.sys_close;
  }

  all_leaders : (j : ℕ) → j < event_types → get_elem? perf_event_is_leader_arr j ≡ some true
  all_leaders zero lt = refl
  all_leaders (suc zero) lt = refl
  all_leaders (suc (suc zero)) lt = refl
  all_leaders (suc (suc (suc zero))) lt = refl
  all_leaders (suc (suc (suc (suc zero)))) lt = refl
  all_leaders (suc (suc (suc (suc (suc j))))) lt = absurd (omega arith)

  opens :
      (core : ℤ) (j : ℕ)
      → j < event_types
      → open_event d sys core j minus_one ≡ done (kernel_of.event_open core j)
  unfolding open_event fd_of
  opens core zero lt = refl
  opens core (suc zero) lt = refl
  opens core (suc (suc zero)) lt = refl
  opens core (suc (suc (suc zero))) lt = refl
  opens core (suc (suc (suc (suc zero)))) lt = refl
  opens core (suc (suc (suc (suc (suc j))))) lt = absurd (omega arith)

  open_events-setup_events :
      (core : ℤ) (j left : ℕ) (leader_fd : ℤ) (perf : Perf)
      → j + left ≡ event_types
      → open_events d sys core j left leader_fd perf ≡ setup_events kernel_of core j left perf
  unfolding open_events setup_events fd_of
  open_events-setup_events core j zero leader_fd perf e = refl
  open_events-setup_events core j (suc left) leader_fd perf e =
      rw (all_leaders j (omega arith), opens core j (omega arith))
        (>>=-ext (read perf.event_fds j) _ _ (λ row.
          >>=-ext (write row perf.core_index (some fd)) _ _ (λ row'.
            >>=-ext (write perf.event_fds j row') _ _ (λ fds.
              >>=-ext (stop_if (ltb_ℤ fd (pos 0)) bug_on) _ _ (λ _.
                open_events-setup_events core (j + 1) left _ (record perf { event_fds = fds })
                  (omega arith))))))
    where
      fd : ℤ
      fd = kernel_of.event_open core j

  open_core-setup_core :
      (perf : Perf) (core : ℤ) → open_core d sys perf core ≡ setup_core kernel_of perf core
  unfolding open_core setup_core
  open_core-setup_core perf core = >>=-ext (stop_if (ltb_ℤ core (pos 0)) bug_on) _ _ (λ _.
      ap (λ run. run >>= λ (p : Perf). done (record p { core_index = p.core_index + 1 }))
        (open_events-setup_events core 0 event_types minus_one perf refl))

  open_cores-setup_cores :
      (cores : List ℤ) (perf : Perf)
      → each_core (open_core d sys) perf cores ≡ each_core (setup_core kernel_of) perf cores
  unfolding each_core
  open_cores-setup_cores [] perf = refl
  open_cores-setup_cores (c ∷ cores) perf =
      rw (open_core-setup_core perf c)
        (>>=-ext (setup_core kernel_of perf c) _ _ (λ p. open_cores-setup_cores cores p))

  -- Setting up the counters of a machine with the tables of the program, the system calls and the
  -- descriptors of group leaders is, whatever the system calls return, setting them up with a kernel that
  -- opens each event of each core in a group of its own; and the metrics are 0.
  pub vm_perf_counter_setup-refines :
      (core_set : Bytes) (num_cores : ℕ)
      → vm_perf_counter_setup d sys core_set num_cores
        ≡ (perf_setup kernel_of core_set num_cores >>= λ perf. done (perf, reset_metrics d))
  unfolding vm_perf_counter_setup perf_setup for_each_core
  vm_perf_counter_setup-refines [] num_cores = elim (Bool-cases (num_cores == 0)) [
    | inl nobody ↦ rw nobody refl
    | inr some_cores ↦ rw some_cores refl
  ]
  vm_perf_counter_setup-refines (c ∷ cs) num_cores = elim (Bool-cases (num_cores == 0)) [
    | inl nobody ↦ rw nobody refl
    | inr some_cores ↦ rw (some_cores, open_cores-setup_cores (core_list (c ∷ cs))) refl
  ]
