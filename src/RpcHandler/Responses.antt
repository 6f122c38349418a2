-- ===== src/RpcHandler/Responses.antt =====
-- The responses of the handlers fit into a buffer of `BUFFER_SIZE` bytes, with the closing NUL.
use ramryder.Prelude.{
  ◌≤◌, ◌≡◌, true, false, Bool, [], ◌++◌, ◌-◌, Option, none, some, arith, ℤ, pos, ◌||◌, ltb_ℤ, leb_ℤ,
  ◌==ℤ◌, if◌then◌else◌, if-cases, length, length-take_bound, Exec, done, abort, ◌>>=◌,
}
use ramryder.Scan.{Bytes, codes}
use ramryder.Decimal.{show_int}
use ramryder.MemoryPool.Pool.{MemoryRequest, memory_pool_get_node_info}
use ramryder.MemoryPool.Pool.Usage.{memory_pool_get_usage_lem}
use ramryder.QemuAgent.{qemu_agent_hotplug_memory, qemu_agent_hotunplug_memory}
use ramryder.VmManager.{
  Manager, vm_mngr_instance_get_mem, vm_mngr_instance_alloc_mem, vm_mngr_instance_free_mem,
  vm_mngr_instance_create,
}
use ramryder.VmManager.Dump.{vm_mngr_dump_state_lem}
use ramryder.RpcHandler.{
  Outside, respond, invalid_args, rpc_handle_get_mem_pool, rpc_handle_get_vms,
  rpc_handle_get_num_nodes, node_answer, node_info_scanned, attach_scanned, detach_scanned,
  rpc_handle_get_node_info, alloc_scanned, free_scanned, call_vm, attach_found,
  rpc_handle_attach_mem, detach_found, rpc_handle_detach_mem, bracketed, create_bracketed,
  create_scanned,
}

abbrev pub IsShort : Bytes → Type 0
IsShort r = length r ≤ 1023

-- If the run ends, its response is short.
abbrev pub Answers : Exec Bytes → Type 0
Answers run = (r : Bytes) → run ≡ done r → IsShort r

abbrev pub AnswersWith : Exec (Bytes × Manager) → Type 0
AnswersWith run = (r : Bytes) (t : Manager) → run ≡ done (r, t) → IsShort r

respond-IsShort : (text : Bytes) → IsShort (respond text)
respond-IsShort text = length-take_bound 1023 text

Answers-done : (text : Bytes) → IsShort text → Answers (done text)
Answers-done text h r e = let same : text ≡ r = cc in rw (← same) h

AnswersWith-done : (text : Bytes) (s : Manager) → IsShort text → AnswersWith (done (text, s))
AnswersWith-done text s h r t e = let same : text ≡ r = cc in rw (← same) h

Answers->>= {ℓ} :
    {A : Type ℓ} (m : Exec A) (f : A → Exec Bytes) → ((a : A) → Answers (f a)) → Answers (m >>= f)
Answers->>= (done a) f h r e = h a r e
Answers->>= (abort why) f h r e = absurd (cc)

AnswersWith->>= {ℓ} :
    {A : Type ℓ} (m : Exec A) (f : A → Exec (Bytes × Manager))
    → ((a : A) → AnswersWith (f a))
    → AnswersWith (m >>= f)
AnswersWith->>= (done a) f h r t e = h a r t e
AnswersWith->>= (abort why) f h r t e = absurd (cc)

-- One of two fixed texts.
either-IsShort : (b : Bool) (x y : Bytes) → IsShort x → IsShort y → IsShort (if b then x else y)
either-IsShort true x y h k = h
either-IsShort false x y h k = k

pub rpc_handle_get_mem_pool-IsShort : (s : Manager) → IsShort (rpc_handle_get_mem_pool s)
unfolding rpc_handle_get_mem_pool
rpc_handle_get_mem_pool-IsShort s =
    rw (memory_pool_get_usage_lem s.pool 1024 (omega arith)) (length-take_bound (1024 - 1) _)

pub rpc_handle_get_vms-IsShort : (s : Manager) → IsShort (rpc_handle_get_vms s)
unfolding rpc_handle_get_vms
rpc_handle_get_vms-IsShort s =
    rw (vm_mngr_dump_state_lem s 1024 (omega arith)) (length-take_bound (1024 - 1) _)

pub rpc_handle_get_num_nodes-IsShort : (s : Manager) → IsShort (rpc_handle_get_num_nodes s)
unfolding rpc_handle_get_num_nodes
rpc_handle_get_num_nodes-IsShort s = respond-IsShort _

node_info_scanned-Answers : (s : Manager) (nid : Option ℤ) → Answers (node_info_scanned s nid)
unfolding node_info_scanned
node_info_scanned-Answers s none = Answers-done invalid_args (omega arith)
node_info_scanned-Answers s (some nid) =
    Answers->>= (memory_pool_get_node_info s.pool nid) _
      (λ info. Answers-done _ (respond-IsShort (node_answer nid info)))

pub rpc_handle_get_node_info-Answers :
    (s : Manager) (args : Bytes) → Answers (rpc_handle_get_node_info s args)
unfolding rpc_handle_get_node_info
rpc_handle_get_node_info-Answers s args = node_info_scanned-Answers s _

pub alloc_scanned-Answers :
    (s : Manager) (scanned : Option (ℤ × ℤ × ℤ)) → AnswersWith (alloc_scanned s scanned)
unfolding alloc_scanned
alloc_scanned-Answers s none = AnswersWith-done invalid_args s (omega arith)
alloc_scanned-Answers s (some (nid, vid, size)) =
    if-cases AnswersWith (ltb_ℤ nid (pos 0) || (ltb_ℤ vid (pos 0) || leb_ℤ size (pos 0))) _ _
      (λ e. AnswersWith-done invalid_args s (omega arith))
      (λ e.
        AnswersWith->>= (vm_mngr_instance_alloc_mem s nid vid size) _
          (λ r. AnswersWith-done _ _ (respond-IsShort _)))

pub free_scanned-Answers :
    (s : Manager) (scanned : Option (ℤ × ℤ)) → AnswersWith (free_scanned s scanned)
unfolding free_scanned
free_scanned-Answers s none = AnswersWith-done invalid_args s (omega arith)
free_scanned-Answers s (some (vid, memid)) =
    if-cases AnswersWith (ltb_ℤ vid (pos 0) || ltb_ℤ memid (pos 0)) _ _
      (λ e. AnswersWith-done invalid_args s (omega arith))
      (λ e. AnswersWith->>= (vm_mngr_instance_free_mem s vid memid) _ (λ r.
        AnswersWith-done _ _ (either-IsShort (r.0 ==ℤ pos 0) _ _ (omega arith) (omega arith))))

pub call_vm-Answers :
    (operation : ℤ → Exec (ℤ × Manager)) (verb : Bytes) (s : Manager) (scanned : Option ℤ)
    → AnswersWith (call_vm operation verb s scanned)
unfolding call_vm
call_vm-Answers operation verb s none = AnswersWith-done invalid_args s (omega arith)
call_vm-Answers operation verb s (some vid) =
    if-cases AnswersWith (ltb_ℤ vid (pos 0)) _ _
      (λ e. AnswersWith-done invalid_args s (omega arith))
      (λ e. AnswersWith->>= (operation vid) _ (λ r. AnswersWith-done _ _ (respond-IsShort _)))

create_bracketed-Answers :
    (s : Manager) (vid : ℤ) (cores : Option Bytes) → AnswersWith (create_bracketed s vid cores)
unfolding create_bracketed
create_bracketed-Answers s vid none = AnswersWith-done _ s (omega arith)
create_bracketed-Answers s vid (some cores) =
    AnswersWith->>= (vm_mngr_instance_create s vid cores) _ (λ r. AnswersWith-done _ _ (
      respond-IsShort (
        codes "Create VM "
        ++ show_int vid
        ++ (if r.0 ==ℤ pos 0 then codes " success, coreset: [" else codes " failed, coreset: [")
        ++ cores
        ++ codes "]")))

pub create_scanned-Answers :
    (s : Manager) (scanned : Option (ℤ × Bytes)) → AnswersWith (create_scanned s scanned)
unfolding create_scanned
create_scanned-Answers s none = AnswersWith-done invalid_args s (omega arith)
create_scanned-Answers s (some (vid, text)) =
    if-cases AnswersWith (ltb_ℤ vid (pos 0)) _ _
      (λ e. AnswersWith-done invalid_args s (omega arith))
      (λ e. create_bracketed-Answers s vid (bracketed text))

attach_found-Answers :
    (outside : Outside) (memid vid nid : ℤ) (req : Option MemoryRequest)
    → Answers (attach_found outside memid vid nid req)
unfolding attach_found
attach_found-Answers outside memid vid nid none =
    Answers-done _ (respond-IsShort (codes "Find not find memory " ++ show_int memid ++ codes "\n"))
attach_found-Answers outside memid vid nid (some req) =
    Answers->>= (qemu_agent_hotplug_memory outside.json outside.net vid _ []) _
      (λ r. Answers-done _ (either-IsShort (r.0 ==ℤ pos 0) _ _ (omega arith) (omega arith)))

attach_scanned-Answers :
    (outside : Outside) (s : Manager) (scanned : Option (ℤ × ℤ × ℤ))
    → Answers (attach_scanned outside s scanned)
unfolding attach_scanned
attach_scanned-Answers outside s none = Answers-done invalid_args (omega arith)
attach_scanned-Answers outside s (some (memid, vid, nid)) =
    if-cases Answers (ltb_ℤ memid (pos 0) || ltb_ℤ vid (pos 0)) _ _
      (λ e. Answers-done invalid_args (omega arith))
      (λ e.
        Answers->>= (vm_mngr_instance_get_mem s vid memid) _
          (attach_found-Answers outside memid vid nid))

pub rpc_handle_attach_mem-Answers :
    (outside : Outside) (s : Manager) (args : Bytes)
    → Answers (rpc_handle_attach_mem outside s args)
unfolding rpc_handle_attach_mem
rpc_handle_attach_mem-Answers outside s args = attach_scanned-Answers outside s _

detach_found-Answers :
    (outside : Outside) (memid vid : ℤ) (req : Option MemoryRequest)
    → Answers (detach_found outside memid vid req)
unfolding detach_found
detach_found-Answers outside memid vid none =
    Answers-done _ (respond-IsShort (codes "Find not find memory " ++ show_int memid ++ codes "\n"))
detach_found-Answers outside memid vid (some req) =
    Answers->>= (qemu_agent_hotunplug_memory outside.json outside.net vid _ []) _
      (λ r. Answers-done _ (either-IsShort (r.0 ==ℤ pos 0) _ _ (omega arith) (omega arith)))

detach_scanned-Answers :
    (outside : Outside) (s : Manager) (scanned : Option (ℤ × ℤ))
    → Answers (detach_scanned outside s scanned)
unfolding detach_scanned
detach_scanned-Answers outside s none = Answers-done invalid_args (omega arith)
detach_scanned-Answers outside s (some (memid, vid)) =
    if-cases Answers (ltb_ℤ memid (pos 0) || ltb_ℤ vid (pos 0)) _ _
      (λ e. Answers-done invalid_args (omega arith))
      (λ e.
        Answers->>= (vm_mngr_instance_get_mem s vid memid) _
          (detach_found-Answers outside memid vid))

pub rpc_handle_detach_mem-Answers :
    (outside : Outside) (s : Manager) (args : Bytes)
    → Answers (rpc_handle_detach_mem outside s args)
unfolding rpc_handle_detach_mem
rpc_handle_detach_mem-Answers outside s args = detach_scanned-Answers outside s _
