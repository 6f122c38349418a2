-- ===== src/GuestAgent.antt =====
-- src/guest_agent.c and src/util_socket.c: the table of connections to the guest agents.
pub mod Connections
pub mod Meminfo
pub mod Tests
use ramryder.Prelude.{
  ℕ, zero, suc, ◌+◌, Bool, true, false, List, [], ◌∷◌, ◌++◌, Option, none, some, ℤ, pos, negsuc,
  minus_one, ◌+ℤ◌, ◌-ℤ◌, leb_ℤ, ltb_ℤ, if◌then◌else◌, Exec, done, abort, ◌>>=◌, ◌>>◌, stop_if,
  out_of_bounds, read, set, replicate, take, length,
}
use ramryder.Scan.{Bytes, codes}
use ramryder.Decimal.{show_int}

-- `MAX_NUM_VM`
abbrev pub max_num_vm : ℕ
max_num_vm = 16

pub record GuestAgent : Type 0 where
  pub socket_path : Bytes
  pub agent_fd : ℤ
  pub initialized : Bool

-- `struct guest_agent_manager`
pub record Agents : Type 0 where
  pub guest_agents : List GuestAgent
  pub count : ℤ

-- The socket calls of the kernel: the result of `socket`, and of `connect` for a path.
pub record SocketKernel : Type 0 where
  pub socket : ℤ
  pub connect : Bytes → ℤ

-- The static table at the start of the program.
abbrev pub no_agents : Agents
no_agents = record {
  guest_agents =
      replicate max_num_vm (record { socket_path = []; agent_fd = pos 0; initialized = false });
  count = pos 0;
}

-- `guest_agents[vm_id]`
unfoldable pub agent_at : List GuestAgent → ℤ → Exec GuestAgent
agent_at agents (pos i) = read agents i
agent_at agents (negsuc i) = abort out_of_bounds

-- A write to an entry that was read before.
pub put_agent : List GuestAgent → ℤ → GuestAgent → List GuestAgent
put_agent agents (pos i) a = set agents i a
put_agent agents (negsuc i) a = agents

-- The descriptor, or -1.
pub connect_to_socket : SocketKernel → Bytes → ℤ
connect_to_socket kernel path =
    if ltb_ℤ kernel.socket (pos 0)
    then minus_one
    else if ltb_ℤ (kernel.connect (take 107 path)) (pos 0)
    then minus_one
    else kernel.socket

-- `snprintf` of the path into an array of `MAX_SOCKET_PATH` bytes.
pub agent_path : ℤ → Bytes
agent_path vm_id = take 255 (codes "/var/run/qga-sock-" ++ show_int vm_id)

-- The part of `guest_agent_init` behind the test that the agent is not there yet.
pub connect_agent : SocketKernel → Agents → ℤ → GuestAgent → ℤ × Agents
connect_agent kernel s vm_id a =
    if leb_ℤ (pos max_num_vm) s.count
    then (minus_one, s)
    else let path = agent_path vm_id in
      let fd = connect_to_socket kernel path in
      if ltb_ℤ fd (pos 0)
      then (
        minus_one,
        record s {
          guest_agents = put_agent s.guest_agents vm_id (record a { socket_path = path });
        },
      )
      else (
        pos 0,
        record s {
          guest_agents =
              put_agent s.guest_agents vm_id
                (record { socket_path = path; agent_fd = fd; initialized = true });
          count = s.count +ℤ pos 1;
        },
      )

pub guest_agent_init : SocketKernel → Agents → ℤ → Exec (ℤ × Agents)
guest_agent_init kernel s vm_id = do
  a ← agent_at s.guest_agents vm_id
  done (if a.initialized then (pos 0, s) else connect_agent kernel s vm_id a)

pub guest_agent_cleanup : Agents → ℤ → Exec Agents
guest_agent_cleanup s vm_id = do
  a ← agent_at s.guest_agents vm_id
  done (
      if a.initialized
      then record s {
        guest_agents = put_agent s.guest_agents vm_id (record a { initialized = false });
        count = s.count -ℤ pos 1;
      }
      else s)
