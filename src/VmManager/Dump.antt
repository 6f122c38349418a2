-- ===== src/VmManager/Dump.antt =====
-- src/vm_manager.c, `vm_mngr_dump_state`, with a buffer of `size` bytes, `size` above 0.
use ramryder.Prelude.{
  ℕ, ◌-◌, ◌<◌, ◌≡◌, false, List, [], ◌∷◌, ◌++◌, arith, ℤ, pos, leb, ◌==ℤ◌, if◌then◌else◌, take,
  Bool-cases, inl, inr,
}
use ramryder.Scan.{Bytes, codes}
use ramryder.Decimal.{show_nat, show_int}
use ramryder.Buffer.{
  Buffer, empty_buffer, print_at, Holds, empty_buffer-Holds, Shows, print_at-Holds, Shows-IsFull,
  Shows-text, append_nil, append_assoc,
}
use ramryder.VmManager.{MemoryDev, VmInstance, Manager}

-- The line of a machine, and that of a memory device.
pub vm_line : VmInstance → Bytes
vm_line vm =
    codes "VM id="
    ++ show_int vm.vm_id
    ++ codes " cores="
    ++ show_nat vm.num_cores
    ++ codes " coreset=["
    ++ vm.core_set
    ++ codes "] memdev_count="
    ++ show_nat vm.memdev_counter
    ++ codes "\n"

pub dev_line : MemoryDev → Bytes
dev_line m =
    let req = m.memory_req in
    codes "  memdev="
    ++ show_nat m.memdev_idx
    ++ codes " node="
    ++ show_int req.node_id
    ++ codes " path="
    ++ req.dev_path
    ++ codes " size="
    ++ show_nat req.size_mb
    ++ codes "MB align="
    ++ show_nat req.align_mb
    ++ codes "MB offset="
    ++ show_nat req.offset_mb
    ++ codes "MB\n"

-- The loop over the devices of a machine, up to the `break`.
pub dump_devs : ℕ → Buffer → List MemoryDev → Buffer
dump_devs size b [] = b
dump_devs size b (m ∷ ms) =
    let b' = print_at size b (dev_line m) in
    let rest = dump_devs size b' ms in if leb size b'.offset then b' else rest

-- The loop over the machines, up to the `break` or the test of `offset`.
pub dump_vms : ℕ → Buffer → List VmInstance → Buffer
dump_vms size b [] = b
dump_vms size b (vm ∷ vms) =
    let b' = print_at size b (vm_line vm) in
    let skipped = dump_vms size b vms in
    let rest = dump_vms size (dump_devs size b' vm.attached_devs) vms in
    if leb size b.offset
    then b
    else if vm.initialized
    then (if leb size b'.offset then b' else rest)
    else skipped

pub count_line : ℤ → Bytes
count_line count = codes "VM Count: " ++ show_int count ++ codes "\n"

pub vm_mngr_dump_state : Manager → ℕ → Bytes
vm_mngr_dump_state s size =
    let b = print_at size empty_buffer (count_line s.count) in
    if leb size b.offset
    then b.text
    else if s.count ==ℤ pos 0
    then (print_at size b (codes "No VM created.\n")).text
    else (dump_vms size b s.vms).text

-- The whole report, which has no regard to the buffer.
abbrev pub devs_report : List MemoryDev → Bytes
devs_report [] = []
devs_report (m ∷ ms) = dev_line m ++ devs_report ms

abbrev pub vms_report : List VmInstance → Bytes
vms_report [] = []
vms_report (vm ∷ vms) =
    if vm.initialized
    then vm_line vm ++ (devs_report vm.attached_devs ++ vms_report vms)
    else vms_report vms

abbrev pub report : Manager → Bytes
report s =
    count_line s.count ++ (if s.count ==ℤ pos 0 then codes "No VM created.\n" else vms_report s.vms)

dump_devs-Shows :
    (size : ℕ) (b : Buffer) (whole : Bytes) (ms : List MemoryDev)
    → Holds size b whole
    → Shows size (dump_devs size b ms) (whole ++ devs_report ms)
unfolding dump_devs
dump_devs-Shows size b whole [] h = inl (rw (append_nil whole) h)
dump_devs-Shows size b whole (m ∷ ms) h =
    let b' = print_at size b (dev_line m) in
    let h' = print_at-Holds size b whole (dev_line m) h in
    elim (Bool-cases (leb size b'.offset)) [
      | inl full ↦ rw full (
          rw (← append_assoc whole (dev_line m) (devs_report ms)) (
            inr (
              Shows-IsFull size b' (whole ++ dev_line m) (devs_report ms) (inl h') (ground arith))))
      | inr room ↦ rw room (
          rw (← append_assoc whole (dev_line m) (devs_report ms))
            (dump_devs-Shows size b' (whole ++ dev_line m) ms h'))
    ]

Shows-Holds :
    (size : ℕ) (b : Buffer) (whole : Bytes)
    → Shows size b whole
    → leb size b.offset ≡ false
    → Holds size b whole
Shows-Holds size b whole (inl h) room = h
Shows-Holds size b whole (inr (le, f)) room = absurd (ground arith)

dump_vms-Shows :
    (size : ℕ) (b : Buffer) (whole : Bytes) (vms : List VmInstance)
    → Shows size b whole
    → Shows size (dump_vms size b vms) (whole ++ vms_report vms)
unfolding dump_vms print_at vm_line
dump_vms-Shows size b whole [] h = rw (append_nil whole) h
dump_vms-Shows size b whole (vm ∷ vms) h =
    let line = vm_line vm in
    let b' = print_at size b line in
    let devs = devs_report vm.attached_devs in
    elim (Bool-cases (leb size b.offset)) [
      | inl full ↦
          rw full (inr (Shows-IsFull size b whole (vms_report (vm ∷ vms)) h (ground arith)))
      | inr room ↦ rw room (elim (Bool-cases vm.initialized) [
        | inr off ↦ rw off (dump_vms-Shows size b whole vms h)
        | inl on ↦ rw on (
            let h' = print_at-Holds size b whole line (Shows-Holds size b whole h room) in
            rw (← append_assoc whole line (devs ++ vms_report vms))
              (elim (Bool-cases (leb size b'.offset)) [
                | inl full ↦ rw full (
                    inr (
                      Shows-IsFull size b' (whole ++ line) (devs ++ vms_report vms) (inl h')
                        (ground arith)))
                | inr more ↦ rw more (
                    rw (← append_assoc (whole ++ line) devs (vms_report vms)) (
                      dump_vms-Shows size (dump_devs size b' vm.attached_devs)
                        ((whole ++ line) ++ devs) vms
                        (dump_devs-Shows size b' (whole ++ line) vm.attached_devs h')))
              ]))
      ])
    ]

-- For a buffer of any size above 0, `vm_mngr_dump_state` leaves just as much of the report as fits
-- beside the closing NUL: the line with the count and, unless the count is 0, for each registered
-- machine in the order of the table its line and one line for each of its memory devices.
pub vm_mngr_dump_state_lem :
    (s : Manager) (size : ℕ) → 0 < size → vm_mngr_dump_state s size ≡ take (size - 1) (report s)
unfolding vm_mngr_dump_state
vm_mngr_dump_state_lem s size h =
    let head = count_line s.count in
    let b = print_at size empty_buffer head in
    let none_created = codes "No VM created.\n" in
    let hold : Holds size b head =
      print_at-Holds size empty_buffer [] head (empty_buffer-Holds size) in
    elim (Bool-cases (leb size b.offset)) [
      | inl full ↦ rw full (
          Shows-text size b (report s) (inr (Shows-IsFull size b head _ (inl hold) (ground arith))))
      | inr room ↦ rw room (elim (Bool-cases (s.count ==ℤ pos 0)) [
        | inl nobody ↦ rw nobody (
            Shows-text size (print_at size b none_created) (head ++ none_created)
              (inl (print_at-Holds size b head none_created hold)))
        | inr some_vms ↦ rw some_vms (
            Shows-text size (dump_vms size b s.vms) (head ++ vms_report s.vms)
              (dump_vms-Shows size b head s.vms (inl hold)))
      ])
    ]
