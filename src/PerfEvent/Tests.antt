-- ===== src/PerfEvent/Tests.antt =====
-- System calls that open every event, and the theorems about them.
use ramryder.Prelude.{◌≡◌, refl, [], ◌∷◌, none, pos, minus_one, if◌then◌else◌, done, ◌>>=◌}
use ramryder.PerfCounter.{perf_setup}
use ramryder.VmManager.Metrics.{reset_metrics}
use ramryder.VmManager.Metrics.Tests.{numbers}
use ramryder.PerfEvent.{
  Syscalls, perf_event_read, perf_event_setup, open_event, vm_perf_counter_setup,
}
use ramryder.PerfEvent.Groups.{kernel_of, vm_perf_counter_setup-refines}

-- A pinned event gets another descriptor than one that may be taken off the hardware.
abbrev calls : Syscalls numbers
calls = record {
  sys_perf_event_open = λ attr pid core group_fd flags. if attr.pinned then pos 9 else pos 10;
  sys_ioctl = λ fd request. minus_one;
  sys_close = λ fd. pos 0;
  sys_read = λ fd. none;
  to_uint64 = λ x. 0;
}

pinned : open_event numbers calls (pos 2) 3 minus_one ≡ done (pos 9)
unfolding open_event perf_event_setup
pinned = refl

not_pinned : open_event numbers calls (pos 2) 4 minus_one ≡ done (pos 10)
unfolding open_event perf_event_setup
not_pinned = refl

vm_perf_counter_setup-refines_example : vm_perf_counter_setup numbers calls (48 ∷ []) 1 ≡ (
    perf_setup (kernel_of numbers calls (perf_event_read numbers calls)) (48 ∷ []) 1 >>= λ perf.
    done (perf, reset_metrics numbers))
vm_perf_counter_setup-refines_example =
    vm_perf_counter_setup-refines numbers calls (perf_event_read numbers calls) (48 ∷ []) 1
