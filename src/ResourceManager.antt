-- ===== src/ResourceManager.antt =====
-- src/resource_manager.c: the requests that the server answers, from the bytes of a request to the
-- bytes of the answer.
pub mod Serving
pub mod Responses
pub mod Words
pub mod Arguments
pub mod Meminfo
pub mod Shutdown
pub mod Tests
use ramryder.Prelude.{
  ℕ, zero, suc, ◌+◌, ◌-◌, ◌*◌, ◌%◌, ◌^◌, Bool, true, false, ◌||◌, ◌&&◌, List, [], ◌∷◌, ◌++◌, Option,
  none, some, ℤ, pos, ltb_ℤ, leb_ℤ, ◌==ℤ◌, ◌==◌, ltb, if◌then◌else◌, take, drop, Exec, done, abort,
  ◌>>=◌, out_of_bounds, replicate, length,
}
use ramryder.Scan.{
  Bytes, codes, skip_spaces, scan_literal, scan_field, scan_1, scan_2, scan_3, scan_word, scan_line,
  same_bytes,
}
use ramryder.Decimal.{show_nat, show_int}
use ramryder.GuestAgent.Meminfo.{c_string, guest_agent_get_meminfo}
use ramryder.QemuAgent.{
  JsonC, Net, HotplugRequest, HotunplugRequest, qemu_agent_hotplug_memory,
  qemu_agent_hotunplug_memory,
}
use ramryder.MemoryPool.Pool.{
  Pool, MemoryRequest, copy_path, memory_pool_get_num_devs, memory_pool_get_node_info,
}
use ramryder.MemoryPool.Pool.Usage.{memory_pool_get_usage}
use ramryder.VmManager.Dump.{vm_mngr_dump_state}
use ramryder.VmManager.{
  Manager, Kernel, VmMemReq, vm_mngr_instance_create, vm_mngr_instance_destroy,
  vm_mngr_instance_start, vm_mngr_instance_stop, vm_mngr_instance_alloc_mem,
  vm_mngr_instance_free_mem, vm_mngr_instance_get_mem,
}
use ramryder.RpcHandler.{
  Outside, respond, invalid_args, failed_results, mb_to_bytes, string_id, answer_string,
  mem_info_scanned, rpc_handle_get_mem_info, rpc_handle_get_mem_pool, rpc_handle_get_vms,
  rpc_handle_get_num_nodes, rpc_handle_get_node_info, alloc_answer, alloc_scanned,
  rpc_handle_alloc_mem, free_scanned, rpc_handle_free_mem, call_vm, rpc_handle_destroy_vm,
  rpc_handle_start_vm, rpc_handle_stop_vm, attach_found, rpc_handle_attach_mem, detach_found,
  rpc_handle_detach_mem, find_byte, bracketed, scan_coreset, create_bracketed, create_scanned,
  rpc_handle_create_vm,
}

-- A reading of `args` before anything was written to it is not defined.
pub with_args {ℓ} : {A : Type ℓ} → Option Bytes → (Bytes → Exec A) → Exec A
with_args none body = abort out_of_bounds
with_args (some args) body = body args

-- A handler that leaves the manager alone.
abbrev pub query : Manager → Exec Bytes → Exec (Option Bytes × Manager)
query s run = run >>= λ response. done (some response, s)

abbrev pub change : Exec (Bytes × Manager) → Exec (Option Bytes × Manager)
change run = run >>= λ r. done (some r.0, r.1)

-- The chain of tests on the command word in `rpc_server_start`. `none` stands for `NULL`.
pub dispatch : Outside → Manager → Bytes → Option Bytes → Exec (Option Bytes × Manager)
dispatch outside s cmd args =
    if same_bytes cmd (codes "get-mem-info")
    then with_args args (λ a. rpc_handle_get_mem_info outside s a >>= λ r. done (r, s))
    else if same_bytes cmd (codes "get-mem-pool")
    then done (some (rpc_handle_get_mem_pool s), s)
    else if same_bytes cmd (codes "get-vms")
    then done (some (rpc_handle_get_vms s), s)
    else if same_bytes cmd (codes "get-num-nodes")
    then done (some (rpc_handle_get_num_nodes s), s)
    else if same_bytes cmd (codes "get-node-info")
    then with_args args (λ a. query s (rpc_handle_get_node_info s a))
    else if same_bytes cmd (codes "alloc-mem")
    then with_args args (λ a. change (rpc_handle_alloc_mem s a))
    else if same_bytes cmd (codes "free-mem")
    then with_args args (λ a. change (rpc_handle_free_mem s a))
    else if same_bytes cmd (codes "attach-mem")
    then with_args args (λ a. query s (rpc_handle_attach_mem outside s a))
    else if same_bytes cmd (codes "detach-mem")
    then with_args args (λ a. query s (rpc_handle_detach_mem outside s a))
    else if same_bytes cmd (codes "create-vm")
    then with_args args (λ a. change (rpc_handle_create_vm s a))
    else if same_bytes cmd (codes "destroy-vm")
    then with_args args (λ a. change (rpc_handle_destroy_vm s a))
    else if same_bytes cmd (codes "start-vm")
    then with_args args (λ a. change (rpc_handle_start_vm outside.kernel s a))
    else if same_bytes cmd (codes "stop-vm")
    then with_args args (λ a. change (rpc_handle_stop_vm outside.kernel s a))
    else done (some (codes "Invalid command"), s)

-- The state of the loop in `rpc_server_start`: `args` is declared in front of the loop, so that it
-- still holds the arguments of an earlier request when a request brings none.
pub record Server : Type 0 where
  pub manager : Manager
  pub args : Option Bytes

pub new_args : Option Bytes → Bytes → Option Bytes
new_args old [] = old
new_args old (c ∷ line) = some (c ∷ line)

pub or_failed : Option Bytes → Bytes
or_failed none = failed_results
or_failed (some response) = response

-- The rest of a round behind the first conversion of `sscanf`; an empty word is a failed one.
pub serve_word : Outside → Server → Bytes → Bytes → Exec (Bytes × Server)
serve_word outside server [] rest = done (codes "Invalid command", server)
serve_word outside server (c ∷ cmd) rest =
    let args = new_args server.args (scan_line (skip_spaces rest)) in
    dispatch outside server.manager (c ∷ cmd) args >>= λ r.
    done (or_failed r.0, record { manager = r.1; args = args })

-- What `recv` puts into a buffer of `BUFFER_SIZE` bytes that was set to 0, as a string; when it fills
-- the buffer without a NUL, reading the string leaves the buffer.
unfoldable pub receive : Bytes → Exec Bytes
receive arrived = c_string (take 1024 arrived ++ replicate (1024 - length arrived) 0)

-- One round of that loop, behind `recv`, for the string that the buffer holds.
pub serve_request : Outside → Server → Bytes → Exec (Bytes × Server)
serve_request outside server buffer =
    let word = scan_word 63 (skip_spaces buffer) in serve_word outside server word.0 word.1

-- One round after another, for the bytes that arrive; the world may answer differently each time.
pub serve : Server → List (Outside × Bytes) → Exec Server
serve server [] = done server
serve server ((outside, arrived) ∷ requests) =
    receive arrived >>= λ buffer. serve_request outside server buffer >>= λ r. serve r.1 requests
