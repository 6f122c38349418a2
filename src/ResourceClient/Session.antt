-- ===== src/ResourceClient/Session.antt =====
-- src/resource_client.c, `send_command`, `print_results` and `print_usage`. The sockets and json-c are
-- parameters, and so is the server, which gets the request in its state.
pub mod Answered
use ramryder.Prelude.{
  ℕ, ◌-◌, Bool, List, [], ◌∷◌, ◌++◌, Option, none, some, ℤ, pos, ltb_ℤ, if◌then◌else◌, length, take,
  replicate, Exec, done, ◌>>=◌,
}
use ramryder.Scan.{Bytes, codes}
use ramryder.GuestAgent.Meminfo.{c_string}
use ramryder.ResourceClient.{main}

-- The results of `socket` and `connect`; and what json-c prints of a text that it can parse.
pub record ClientHost : Type 0 where
  pub socket : ℤ
  pub connect : ℤ
  pub pretty : Bytes → Option Bytes

pub print_results : ClientHost → Bytes → Bytes
print_results host results = elim (host.pretty results) [
  | none ↦ results ++ codes "\n"
  | some text ↦ text ++ codes "\n"
]

-- `recv` into a buffer of `BUFFER_SIZE` zero bytes, which is then read up to its first NUL.
pub received : Bytes → Exec Bytes
received answer = c_string (take 1024 answer ++ replicate (1024 - length answer) 0)

-- The output, or none for an exit with an error; and the state of the server.
pub send_command {ℓ} :
    {S : Type ℓ} → ClientHost → (S → Bytes → Exec (Bytes × S)) → S → Bytes → Exec (Option Bytes × S)
send_command host server s command =
    if ltb_ℤ host.socket (pos 0)
    then done (none, s)
    else if ltb_ℤ host.connect (pos 0)
    then done (none, s)
    else (server s command >>= λ r.
        received r.0 >>= λ results. done (some (print_results host results), r.1))

-- `main` with what it sends; without a request the usage text is printed.
pub run_client {ℓ} :
    {S : Type ℓ}
    → ClientHost
    → (S → Bytes → Exec (Bytes × S))
    → S
    → List Bytes
    → Exec (Option Bytes × S)
run_client host server s args = elim (main args) [
  | none ↦ done (none, s)
  | some request ↦ send_command host server s request
]

-- `fprintf(stderr, "  %-60s %s\n", ...)`
pub usage_entry : Bytes → Bytes → Bytes
usage_entry usage help =
    codes "  " ++ usage ++ replicate (60 - length usage) 32 ++ codes " " ++ help ++ codes "\n"

pub usage_example : Bytes → Bytes → Bytes
usage_example progname words = codes "  " ++ progname ++ codes " " ++ words ++ codes "\n"

pub print_usage : Bytes → Bytes
print_usage progname =
    codes "Resource Manager Client\n"
    ++ codes
        "Send management commands to the resource manager over /var/run/resource_manager.sock.\n\n"
    ++ codes "Usage:\n"
    ++ codes "  "
    ++ progname
    ++ codes " <command> [arguments]\n\n"
    ++ codes "Query Commands:\n"
    ++ usage_entry (codes "get-mem-info vid=<vm_id>") (codes "Show memory information for a VM.")
    ++ usage_entry (codes "get-mem-pool") (codes "Show the current memory pool state.")
    ++ usage_entry (codes "get-vms") (codes "Show all VMs and their allocated memory objects.")
    ++ usage_entry (codes "get-num-nodes") (codes "Show the number of available NUMA nodes.")
    ++ usage_entry (codes "get-node-info nid=<node_id>") (codes "Show details for a C-NUMA node.")
    ++ codes "\n"
    ++ codes "Memory Management Commands:\n"
    ++ usage_entry (codes "alloc-mem nid=<node_id> vid=<vm_id> size=<mb>")
        (codes "Allocate memory for a VM.")
    ++ usage_entry (codes "free-mem vid=<vm_id> memid=<memdev_id>")
        (codes "Release an allocated memory device.")
    ++ usage_entry (codes "attach-mem memid=<memory_id> vid=<vm_id> nid=<node_id>")
        (codes "Attach memory to a VM on a NUMA node.")
    ++ usage_entry (codes "detach-mem memid=<memory_id> vid=<vm_id>")
        (codes "Detach memory from a VM.")
    ++ codes "\n"
    ++ codes "VM Lifecycle Commands:\n"
    ++ usage_entry (codes "create-vm vid=<vm_id> coreset=[start-end,...]")
        (codes "Register a VM and its CPU core set.")
    ++ usage_entry (codes "destroy-vm vid=<vm_id>") (codes "Remove a VM from the manager.")
    ++ usage_entry (codes "start-vm vid=<vm_id>") (codes "Mark a VM as started.")
    ++ usage_entry (codes "stop-vm vid=<vm_id>") (codes "Mark a VM as stopped.")
    ++ codes "\n"
    ++ codes "Examples:\n"
    ++ usage_example progname (codes "get-mem-info vid=3")
    ++ usage_example progname (codes "alloc-mem nid=1 vid=3 size=1024")
    ++ usage_example progname (codes "create-vm vid=3 coreset=[20-30,50-60]")
