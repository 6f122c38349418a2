-- ===== src/ResourceManager/Tests.antt =====
-- A server that is asked to create a machine.
use ramryder.Prelude.{
  ◌≤◌, length, ℕ, get_elem?, false, set, ◌++◌, true, replicate, ◌≡◌, arith, refl, ◌∷◌, [], List,
  none, some, pos, done, abort, out_of_bounds,
}
use ramryder.Scan.{
  Bytes, codes, skip_spaces, scan_digits, scan_unsigned, scan_signed, scan_int, scan_literal,
  scan_field, scan_word, scan_line, same_bytes,
}
use ramryder.GuestAgent.{no_agents}
use ramryder.GuestAgent.Meminfo.{c_string}
use ramryder.VmManager.{Manager, VmInstance, initial, empty_slot}
use ramryder.VmManager.Lifecycle.{created}
use ramryder.MemoryPool.Pool.{Pool}
use ramryder.Decimal.{show_int}
use ramryder.MemoryPool.Pool.Owner.{owner}
use ramryder.ResourceManager.Shutdown.{handle_signal}
use ramryder.ResourceManager.Shutdown.Ending.{handle_signal-ends}
use ramryder.VmManager.Serviced.Tests.{kernel, started, run_to_started}
use ramryder.QemuAgent.Tests.{json, short_net}
use ramryder.MemoryPool.Pool.Tests.{small_pool, small_pool-unused, small_pool-IsValid}
use ramryder.VmManager.Invariant.{IsValid}
use ramryder.VmManager.Reachable.{Reach}
use ramryder.VmManager.Tests.{at_start, with_one_vm, core_0, creates_first_vm}
use ramryder.ResourceManager.{
  or_failed, Server, with_args, dispatch, new_args, serve_word, serve_request, serve, receive,
}
use ramryder.RpcHandler.{
  respond, Outside, find_byte, bracketed, scan_coreset, create_bracketed, create_scanned,
  rpc_handle_create_vm,
}
use ramryder.ResourceManager.Serving.{serve-IsValid}
use ramryder.ResourceManager.Responses.{serve_request-IsShort}
use ramryder.ResourceManager.Words.{IsCommand, IsArguments, serve_request-reuses}

abbrev pub outside : Outside
outside = record {
  kernel = record {
    perf_kernel = record {
      event_open = λ core event. pos 9;
      event_read = λ fd. done 0;
      close = λ fd. pos 0;
    };
    sockets = record { socket = pos 7; connect = λ path. pos 0 };
  };
  Value = Bytes;
  json = json;
  net = short_net;
  heap = replicate 1024 0;
}

abbrev requests : List (Outside × Bytes)
requests = (outside, codes "create-vm vid=1 coreset=[0]") ∷ []

abbrev pub served : Server
served = record { manager = with_one_vm; args = some (codes "vid=1 coreset=[0]") }

-- A server with any pool is asked for the machine.
pub serves_create :
    (p : Pool)
    → serve_request outside
        (record { manager = initial p; args = none })
        (codes "create-vm vid=1 coreset=[0]")
      ≡ done (
        respond (
            codes "Create VM "
            ++ show_int (pos 1)
            ++ codes " success, coreset: ["
            ++ core_0
            ++ codes "]"),
        record {
          manager = created (initial p) 0 empty_slot (pos 1) core_0;
          args = some (codes "vid=1 coreset=[0]");
        },
      )
unfolding serve_request serve_word dispatch with_args new_args same_bytes rpc_handle_create_vm
    create_scanned create_bracketed scan_coreset bracketed find_byte skip_spaces scan_digits
    scan_unsigned scan_signed scan_int scan_literal scan_field scan_word scan_line or_failed
serves_create p = rw (creates_first_vm p) refl

pub receives_create :
    receive (codes "create-vm vid=1 coreset=[0]") ≡ done (codes "create-vm vid=1 coreset=[0]")
unfolding receive c_string
receives_create = refl

-- A request that fills the buffer is read beyond its end.
long_request : receive (replicate 1024 b'a') ≡ abort out_of_bounds
unfolding receive c_string
long_request = refl

serves : serve (record { manager = at_start; args = none }) requests ≡ done served
unfolding serve
serves = rw (receives_create, serves_create small_pool) refl

serve-IsValid_example : Reach at_start with_one_vm × IsValid with_one_vm
serve-IsValid_example = serve-IsValid small_pool served requests small_pool-IsValid serves

stop_vm-IsCommand : IsCommand (codes "stop-vm")
stop_vm-IsCommand = record { some_bytes = λ e. cc; short = omega arith; unbroken = refl }

vid_1-IsArguments : IsArguments (codes "vid=1")
unfolding skip_spaces scan_line
vid_1-IsArguments = record { some_bytes = λ e. cc; starts = refl; one_line = refl }

serve_request-reuses_example :
    serve_request outside
      (record { manager = with_one_vm; args = some (codes "vid=1") })
      (codes "stop-vm")
    ≡ serve_request outside
        (record { manager = with_one_vm; args = some (codes "vid=1") })
        (codes "stop-vm vid=1")
serve_request-reuses_example =
    serve_request-reuses outside with_one_vm (codes "stop-vm") (codes "vid=1") stop_vm-IsCommand
      vid_1-IsArguments

-- A guest agent is connected that answers "ok", and the heap still holds "key".
abbrev connected_1 : Manager
connected_1 = record with_one_vm {
  agents = record {
    guest_agents =
        set no_agents.guest_agents 1
          (record { socket_path = []; agent_fd = pos 7; initialized = true });
    count = pos 1;
  };
}

abbrev leaky : Outside
leaky = record outside { heap = codes "##key" ++ (0 ∷ []) }

handle_signal-ends_example :
    (u : Manager) × (handle_signal kernel started ≡ done u)
    × (u.count ≡ pos 0)
    × ((j : ℕ) (w : VmInstance)
        → get_elem? u.vms j ≡ some w
        → (w.initialized ≡ false) × (w.running ≡ false))
    × ((j k : ℕ) → owner u.pool j k ≡ none)
handle_signal-ends_example =
    handle_signal-ends kernel (record { reads = λ fd. (0, refl); closes = λ fd. refl }) small_pool
      small_pool-IsValid started small_pool-unused run_to_started

create_word :
    same_bytes
      (scan_word 63 (skip_spaces (codes "create-vm vid=1 coreset=[0]"))).0
      (codes "get-mem-info")
    ≡ false
unfolding same_bytes skip_spaces scan_word
create_word = refl

serve_request-IsShort_example :
    length (
      respond (
        codes "Create VM "
        ++ show_int (pos 1)
        ++ codes " success, coreset: ["
        ++ core_0
        ++ codes "]"))
    ≤ 1023
serve_request-IsShort_example =
    serve_request-IsShort outside (record { manager = initial small_pool; args = none }) _
      (codes "create-vm vid=1 coreset=[0]") _ create_word (serves_create small_pool)
