-- ===== src/Lib.antt =====
-- The resource manager of RamRyder (src/*.c): it hands out memory segments of DAX devices to
-- virtual machines, keeps the table of the machines, and reads their performance counters.
--
-- The program's parts, and the files that model them:
-- * src/memory_pool.c. MemoryPool/Device.antt has the static functions on one device
--   (`is_aligned`, `find_free_segments`, `allocate_segments`, `release_segments`, the inner loop of
--   `memory_pool_release_vm_memory`), and MemoryPool/Pool.antt the functions of src/memory_pool.h
--   over `g_mem_devs`; MemoryPool/Pool/Usage.antt has the report `memory_pool_get_usage`, and
--   MemoryPool/Config.antt the start of the program from its configuration file. Config.antt has
--   what is read of such a file line by line.
-- * src/vm_manager.c. CoreSet.antt has `vm_mngr_for_each_core`; PerfCounter.antt has the counters
--   of one machine (`vm_perf_counter_setup`, `vm_perf_counter_teardown`, the loop of
--   `vm_mngr_update_perf_counters`); VmManager.antt has the table `g_vm_mngr` and the functions
--   `vm_mngr_instance_*`. The manager's state is one record with the pool and the guest agents in
--   it, since these are the globals that its functions change. VmManager/Dump.antt has the report
--   `vm_mngr_dump_state`, and Buffer.antt the buffer that it is written to.
-- * src/guest_agent.c and src/util_socket.c. GuestAgent.antt has the table of connections, and
--   GuestAgent/Meminfo.antt the command that is sent over one.
-- * src/qemu_agent.c. QemuAgent.antt has the commands and the sessions with QEMU's monitor, and
--   QemuAgent/Protocol.antt the protocol that they are to follow, as a relation on histories of
--   events.
-- * src/resource_manager.c. RpcHandler.antt has the functions `rpc_handle_*`, and
--   ResourceManager.antt the chain of tests on the command word and the loop over requests, which
--   calls the VM manager, the memory pool and the two agents. ResourceManager/Shutdown.antt has what
--   `handle_signal` does to the manager, by the loops of VmManager/ForEach.antt.
-- * src/perf_counter.c. PerfEvent.antt has the tables of events and the calls for one event, and
--   the set-up of a machine's counters with them; PerfCounter.antt takes the kernel as a
--   `PerfKernel`. VmManager/Metrics.antt has the metrics that are computed from the counters.
-- * src/guest_monitor.c. GuestMonitor.antt has its configuration, the bandwidth of a machine and
--   the lines for the database, and GuestMonitor/Round.antt one round of the loop.
--   GuestMonitor/Server.antt has its start.
-- * Program.antt puts these together: `main` of src/resource_manager.c, from the configuration
--   file over the start of the monitor and the server, to a list of events, each a request or a
--   round of the monitor. It has the program without `ARCH_AMD` and with `ENABLE_PERF`.
-- * src/resource_client.c. ResourceClient.antt has `main` up to the request that it sends, and
--   ResourceClient/Session.antt the exchange with the server and the usage text.
-- * Scan.antt and Decimal.antt have what the code uses of `sscanf` and `snprintf`.
-- Prelude.antt has the shared helpers: lists and integers over the native numbers, and the monad
-- `Exec` of runs that end, or stop at an assertion, a bug check, a division by zero or an access
-- out of bounds. A child module proves theorems about its parent; the modules named Tests hold
-- runs on small inputs.
--
-- Calls pass the state on explicitly and return it with the result. The system calls are
-- parameters: `PerfKernel` (perf events, with `perf_event_setup`, `perf_event_read` and `close`,
-- which answer by their arguments) and `SocketKernel` (`socket` and `connect`), `Net` (the sockets
-- of the two agents, which answer by the history of the run), `JsonC` (the library json-c),
-- `Syscalls` (the system calls below the perf events) and `Doubles` (the arithmetic of `double`).
-- A theorem holds for every choice of them that it does not restrict, and a sequence of requests
-- may take another choice for each request: the record `Outside` holds what one request needs.
--
-- Bounds and fuel: the table has 16 machines, a device at most 4096 segments, a path 63 bytes. The
-- outer loop of `find_free_segments` has fuel for `total_segments + 2` rounds, which are enough
-- since each round moves the index on; printing the number n has fuel for n + 1 digits. A number
-- that is scanned is cut to an `int` as glibc does. Sizes and offsets of one request are not
-- bounded by the width of an `int`; the sums of counters wrap around at 2 ^ 64 as in the code.
--
-- A request that fills the buffer of 1024 bytes without a NUL is read beyond it, which stops a
-- run. A core range that ends at the largest `int` is taken to end there.
--
-- Not modelled: the end of the monitor's thread, and rounds of the monitor or a signal in the
-- middle of a request (the model has whole requests, whole rounds and a whole shutdown one after
-- another), the sending of a line by libcurl, the calls that are passed on to PCM, logging, and
-- the allocations by `malloc`, which are taken to succeed.
pub mod Prelude
pub mod Scan
pub mod Buffer
pub mod CoreSet
pub mod Decimal
pub mod PerfCounter
pub mod GuestAgent
pub mod QemuAgent
pub mod Config
pub mod MemoryPool
pub mod VmManager
pub mod PerfEvent
pub mod GuestMonitor
pub mod RpcHandler
pub mod ResourceManager
pub mod Program
pub mod ResourceClient
