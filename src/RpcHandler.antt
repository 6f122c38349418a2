-- ===== src/RpcHandler.antt =====
-- src/resource_manager.c, the functions `rpc_handle_*`: from the arguments of a request to the answer.
pub mod Responses
use ramryder.Prelude.{
  ℕ, suc, ◌+◌, ◌-◌, ◌*◌, ◌%◌, ◌^◌, true, ◌||◌, [], ◌∷◌, ◌++◌, Option, none, some, ℤ, pos, ltb_ℤ,
  leb_ℤ, ◌==ℤ◌, ◌==◌, ltb, if◌then◌else◌, take, drop, Exec, done, ◌>>=◌,
}
use ramryder.Scan.{
  Bytes, codes, skip_spaces, scan_literal, scan_field, scan_1, scan_2, scan_3, scan_line,
}
use ramryder.Decimal.{show_nat, show_int}
use ramryder.GuestAgent.Meminfo.{c_string, guest_agent_get_meminfo}
use ramryder.QemuAgent.{
  JsonC, Net, HotplugRequest, HotunplugRequest, qemu_agent_hotplug_memory,
  qemu_agent_hotunplug_memory,
}
use ramryder.MemoryPool.Pool.{
  MemoryRequest, copy_path, memory_pool_get_num_devs, memory_pool_get_node_info,
}
use ramryder.MemoryPool.Pool.Usage.{memory_pool_get_usage}
use ramryder.VmManager.Dump.{vm_mngr_dump_state}
use ramryder.VmManager.{
  Manager, Kernel, VmMemReq, vm_mngr_instance_create, vm_mngr_instance_destroy,
  vm_mngr_instance_start, vm_mngr_instance_stop, vm_mngr_instance_alloc_mem,
  vm_mngr_instance_free_mem, vm_mngr_instance_get_mem,
}

-- What the server asks of the world: the system calls, the library json-c, the sockets of QEMU's monitor
-- and of the guest agents, and what `malloc` finds in the memory for an answer of a guest agent. The
-- history that the sockets go by starts anew with each call.
pub record Outside : Type 1 where
  pub kernel : Kernel
  pub Value : Type 0
  pub json : JsonC Value
  pub net : Net
  pub heap : Bytes

-- `snprintf` into a response of `BUFFER_SIZE` bytes.
abbrev pub respond : Bytes → Bytes
respond = take 1023

abbrev pub invalid_args : Bytes
invalid_args = codes "Invalid args"

abbrev pub failed_results : Bytes
failed_results = codes "Failed to get results\n"

-- `MB_TO_BYTES`, a `size_t`.
pub mb_to_bytes : ℕ → ℕ
mb_to_bytes mb = (mb * 1048576) % 2 ^ 64

-- An id for QEMU, in an array of `STRING_ID_LEN` bytes.
pub string_id : Bytes → ℤ → Bytes
string_id prefix memid = take 31 (prefix ++ show_int memid)

-- The server measures an answer by its NUL.
unfoldable pub answer_string : Option Bytes → Exec (Option Bytes)
answer_string none = done none
answer_string (some response) = c_string response >>= λ r. done (some r)

unfoldable pub mem_info_scanned : Outside → Manager → Option ℤ → Exec (Option Bytes)
mem_info_scanned outside s none = done (some invalid_args)
mem_info_scanned outside s (some vid) =
    guest_agent_get_meminfo outside.json outside.net outside.heap s.agents vid [] >>= λ r.
    answer_string r.0

unfoldable pub rpc_handle_get_mem_info : Outside → Manager → Bytes → Exec (Option Bytes)
rpc_handle_get_mem_info outside s args = mem_info_scanned outside s (scan_1 (codes "vid=") args)

pub rpc_handle_get_mem_pool : Manager → Bytes
rpc_handle_get_mem_pool s = memory_pool_get_usage s.pool 1024

pub rpc_handle_get_vms : Manager → Bytes
rpc_handle_get_vms s = vm_mngr_dump_state s 1024

pub rpc_handle_get_num_nodes : Manager → Bytes
rpc_handle_get_num_nodes s = respond (show_nat (memory_pool_get_num_devs s.pool))

pub node_answer : ℤ → Option (ℤ × ℤ) → Bytes
node_answer node_id none = codes "Node " ++ show_int node_id ++ codes " does not exist"
node_answer node_id (some (tier_id, dax_id)) =
    codes "nodeid="
    ++ show_int node_id
    ++ codes ",tier-id="
    ++ show_int tier_id
    ++ codes ",dax-id="
    ++ show_int dax_id

pub node_info_scanned : Manager → Option ℤ → Exec Bytes
node_info_scanned s none = done invalid_args
node_info_scanned s (some node_id) =
    memory_pool_get_node_info s.pool node_id >>= λ info. done (respond (node_answer node_id info))

pub rpc_handle_get_node_info : Manager → Bytes → Exec Bytes
rpc_handle_get_node_info s args = node_info_scanned s (scan_1 (codes "nid=") args)

-- QEMU reads this.
pub alloc_answer : Option VmMemReq → Bytes
alloc_answer none = codes "Allocate failed"
alloc_answer (some req) =
    codes "id=mem"
    ++ show_nat req.memdev_idx
    ++ codes ",mem-path="
    ++ req.dev_path
    ++ codes ",size="
    ++ show_nat req.size_mb
    ++ codes "M,align="
    ++ show_nat req.align_mb
    ++ codes "M,offset="
    ++ show_nat req.offset_mb
    ++ codes "M"

-- The part of `rpc_handle_alloc_mem` behind `sscanf`; `none` is a return value other than 3.
unfoldable pub alloc_scanned : Manager → Option (ℤ × ℤ × ℤ) → Exec (Bytes × Manager)
alloc_scanned s none = done (invalid_args, s)
alloc_scanned s (some (nid, vid, size_mb)) =
    if ltb_ℤ nid (pos 0) || (ltb_ℤ vid (pos 0) || leb_ℤ size_mb (pos 0))
    then done (invalid_args, s)
    else vm_mngr_instance_alloc_mem s nid vid size_mb >>= λ r.
        done (respond (alloc_answer r.0), r.1)

unfoldable pub rpc_handle_alloc_mem : Manager → Bytes → Exec (Bytes × Manager)
rpc_handle_alloc_mem s args =
    alloc_scanned s (scan_3 (codes "nid=") (codes "vid=") (codes "size=") args)

unfoldable pub free_scanned : Manager → Option (ℤ × ℤ) → Exec (Bytes × Manager)
free_scanned s none = done (invalid_args, s)
free_scanned s (some (vid, memid)) =
    if ltb_ℤ vid (pos 0) || ltb_ℤ memid (pos 0)
    then done (invalid_args, s)
    else vm_mngr_instance_free_mem s vid memid >>= λ r.
        done (if r.0 ==ℤ pos 0 then codes "Release success" else codes "Release failed", r.1)

unfoldable pub rpc_handle_free_mem : Manager → Bytes → Exec (Bytes × Manager)
rpc_handle_free_mem s args = free_scanned s (scan_2 (codes "vid=") (codes "memid=") args)

-- The call that `rpc_handle_destroy_vm`, `_start_vm` and `_stop_vm` make, with its two answers.
unfoldable pub call_vm :
    (ℤ → Exec (ℤ × Manager)) → Bytes → Manager → Option ℤ → Exec (Bytes × Manager)
call_vm operation verb s none = done (invalid_args, s)
call_vm operation verb s (some vid) =
    if ltb_ℤ vid (pos 0)
    then done (invalid_args, s)
    else operation vid >>= λ r. done (
      respond (
          verb
          ++ codes " VM "
          ++ show_int vid
          ++ (if r.0 ==ℤ pos 0 then codes " success" else codes " failed")),
      r.1,
    )

unfoldable pub rpc_handle_destroy_vm : Manager → Bytes → Exec (Bytes × Manager)
rpc_handle_destroy_vm s args =
    call_vm (vm_mngr_instance_destroy s) (codes "Destroy") s (scan_1 (codes "vid=") args)

unfoldable pub rpc_handle_start_vm : Kernel → Manager → Bytes → Exec (Bytes × Manager)
rpc_handle_start_vm kernel s args =
    call_vm (vm_mngr_instance_start kernel s) (codes "Start") s (scan_1 (codes "vid=") args)

unfoldable pub rpc_handle_stop_vm : Kernel → Manager → Bytes → Exec (Bytes × Manager)
rpc_handle_stop_vm kernel s args =
    call_vm (vm_mngr_instance_stop kernel s) (codes "Stop") s (scan_1 (codes "vid=") args)

-- The behaviour of `rpc_handle_attach_mem` behind the look-up of the memory device.
pub attach_found : Outside → ℤ → ℤ → ℤ → Option MemoryRequest → Exec Bytes
attach_found outside memid vid nid none =
    done (respond (codes "Find not find memory " ++ show_int memid ++ codes "\n"))
attach_found outside memid vid nid (some req) =
    let hotplug : HotplugRequest = record {
      memdev_id = string_id (codes "mem") memid;
      dimm_id = string_id (codes "dimm") memid;
      dev_path = copy_path req.dev_path;
      size_bytes = mb_to_bytes req.size_mb;
      align_bytes = mb_to_bytes req.align_mb;
      share = true;
      numa_node = if ltb_ℤ nid (pos 0) then pos 0 else nid;
    } in
    qemu_agent_hotplug_memory outside.json outside.net vid hotplug [] >>= λ r.
    done (if r.0 ==ℤ pos 0 then codes "Hotplug memory success" else codes "Hotplug memory failed")

pub attach_scanned : Outside → Manager → Option (ℤ × ℤ × ℤ) → Exec Bytes
attach_scanned outside s none = done invalid_args
attach_scanned outside s (some (memid, vid, nid)) =
    if ltb_ℤ memid (pos 0) || ltb_ℤ vid (pos 0)
    then done invalid_args
    else vm_mngr_instance_get_mem s vid memid >>= λ req. attach_found outside memid vid nid req

pub rpc_handle_attach_mem : Outside → Manager → Bytes → Exec Bytes
rpc_handle_attach_mem outside s args =
    attach_scanned outside s (scan_3 (codes "memid=") (codes "vid=") (codes "nid=") args)

pub detach_found : Outside → ℤ → ℤ → Option MemoryRequest → Exec Bytes
detach_found outside memid vid none =
    done (respond (codes "Find not find memory " ++ show_int memid ++ codes "\n"))
detach_found outside memid vid (some req) =
    let hotunplug : HotunplugRequest = record {
      memdev_id = string_id (codes "mem") memid;
      dimm_id = string_id (codes "dimm") memid;
    } in
    qemu_agent_hotunplug_memory outside.json outside.net vid hotunplug [] >>= λ r.
    done
      (if r.0 ==ℤ pos 0 then codes "Hotunplug memory success" else codes "Hotunplug memory failed")

pub detach_scanned : Outside → Manager → Option (ℤ × ℤ) → Exec Bytes
detach_scanned outside s none = done invalid_args
detach_scanned outside s (some (memid, vid)) =
    if ltb_ℤ memid (pos 0) || ltb_ℤ vid (pos 0)
    then done invalid_args
    else vm_mngr_instance_get_mem s vid memid >>= λ req. detach_found outside memid vid req

pub rpc_handle_detach_mem : Outside → Manager → Bytes → Exec Bytes
rpc_handle_detach_mem outside s args =
    detach_scanned outside s (scan_2 (codes "memid=") (codes "vid=") args)

-- `strchr`, as an index.
unfoldable pub find_byte : ℕ → Bytes → Option ℕ
find_byte b [] = none
find_byte b (c ∷ s) =
    if c == b then some 0 else elim (find_byte b s) [ none ↦ none | some i ↦ some (suc i) ]

-- What stands between the first opening and the first closing bracket.
unfoldable pub bracketed : Bytes → Option Bytes
bracketed s = elim (find_byte b'[' s) [
  | none ↦ none
  | some start ↦ elim (find_byte b']' s) [
    | none ↦ none
    | some end ↦
        if ltb start end then some (take (end - (start + 1)) (drop (start + 1) s)) else none
  ]
]

-- The two conversions of "vid=%d coreset=%[^\n]".
unfoldable pub scan_coreset : Bytes → Option (ℤ × Bytes)
scan_coreset args = elim (scan_field (codes "vid=") args) [
  | none ↦ none
  | some (vid, r) ↦ elim (scan_literal (codes "coreset=") (skip_spaces r)) [
    | none ↦ none
    | some r' ↦ elim (scan_line r') [ [] ↦ none | c ∷ line ↦ some (vid, c ∷ line) ]
  ]
]

-- The call of `vm_mngr_instance_create`, where the brackets are there.
unfoldable pub create_bracketed : Manager → ℤ → Option Bytes → Exec (Bytes × Manager)
create_bracketed s vid none = done (codes "Invalid command", s)
create_bracketed s vid (some core_set) = vm_mngr_instance_create s vid core_set >>= λ r. done (
  respond (
      codes "Create VM "
      ++ show_int vid
      ++ (if r.0 ==ℤ pos 0 then codes " success, coreset: [" else codes " failed, coreset: [")
      ++ core_set
      ++ codes "]"),
  r.1,
)

unfoldable pub create_scanned : Manager → Option (ℤ × Bytes) → Exec (Bytes × Manager)
create_scanned s none = done (invalid_args, s)
create_scanned s (some (vid, coreset_str)) =
    if ltb_ℤ vid (pos 0)
    then done (invalid_args, s)
    else create_bracketed s vid (bracketed coreset_str)

unfoldable pub rpc_handle_create_vm : Manager → Bytes → Exec (Bytes × Manager)
rpc_handle_create_vm s args = create_scanned s (scan_coreset args)
