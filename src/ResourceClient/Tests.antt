-- ===== src/ResourceClient/Tests.antt =====
-- Commands of the client.
use ramryder.Prelude.{
  zero, suc, Bool, true, false, List, ◌++◌, pos, done, ◌≤◌, ◌≡◌, refl, [], ◌∷◌, none, some, arith,
  length,
}
use ramryder.Scan.{Bytes, codes, same_bytes, skip_spaces, scan_word}
use ramryder.Decimal.{show_int, show_nat, digits}
use ramryder.ResourceManager.{serve_request}
use ramryder.ResourceManager.Arguments.{alloc_request, alloc_round}
use ramryder.ResourceManager.Tests.{outside, served, serves_create}
use ramryder.GuestAgent.Meminfo.{HasNoNul, end, more}
use ramryder.RpcHandler.{respond}
use ramryder.MemoryPool.Pool.Tests.{small_pool}
use ramryder.VmManager.{initial, empty_slot}
use ramryder.VmManager.Lifecycle.{created}
use ramryder.VmManager.Tests.{core_0}
use ramryder.ResourceClient.Session.{ClientHost, print_results, run_client}
use ramryder.ResourceClient.Session.Answered.{run_client-prints}
use ramryder.ResourceClient.{join, command, request_of_words, main}
use ramryder.ResourceClient.EndToEnd.{alloc_words, alloc_mem_arrives}

lists_machines : main (codes "get-vms" ∷ []) ≡ some (codes "get-vms")
unfolding main request_of_words command join same_bytes
lists_machines = refl

too_few_arguments : main (codes "stop-vm" ∷ []) ≡ none
unfolding main request_of_words command same_bytes
too_few_arguments = refl

fits : length (alloc_request 0 1 128) ≤ 1023
unfolding show_int
fits = omega arith

alloc_mem_arrives_example :
    (request : Bytes) × (main (alloc_words 0 1 128) ≡ some request)
    × (serve_request outside served request ≡ alloc_round served 0 1 128)
alloc_mem_arrives_example =
    alloc_mem_arrives outside served 0 1 128 (omega arith) (omega arith) (omega arith) (omega arith)
      fits

abbrev create_words : List Bytes
create_words = codes "create-vm" ∷ codes "vid=1" ∷ codes "coreset=[0]" ∷ []

creates : main create_words ≡ some (codes "create-vm vid=1 coreset=[0]")
unfolding main request_of_words command join same_bytes
creates = refl

other_command :
    same_bytes
      (scan_word 63 (skip_spaces (codes "create-vm vid=1 coreset=[0]"))).0
      (codes "get-mem-info")
    ≡ false
unfolding same_bytes skip_spaces scan_word
other_command = refl

clean : Bytes → Bool
clean [] = true
clean (zero ∷ s) = false
clean (suc c ∷ s) = clean s

clean-HasNoNul : (s : Bytes) → clean s ≡ true → HasNoNul s
unfolding clean
clean-HasNoNul [] e = end
clean-HasNoNul (zero ∷ s) e = absurd (cc)
clean-HasNoNul (suc c ∷ s) e = more (clean-HasNoNul s e)

abbrev answer : Bytes
answer =
    respond (
      codes "Create VM " ++ show_int (pos 1) ++ codes " success, coreset: [" ++ core_0 ++ codes "]")

answer_clean : clean answer ≡ true
unfolding clean show_int show_nat digits
answer_clean = refl

answer-HasNoNul : HasNoNul answer
answer-HasNoNul = clean-HasNoNul answer answer_clean

abbrev local : ClientHost
local = record { socket = pos 3; connect = pos 0; pretty = λ text. none }

run_client-prints_example :
    run_client local
      (serve_request outside)
      (record { manager = initial small_pool; args = none })
      create_words
    ≡ done (
      some (print_results local answer),
      record {
        manager = created (initial small_pool) 0 empty_slot (pos 1) core_0;
        args = some (codes "vid=1 coreset=[0]");
      },
    )
run_client-prints_example =
    run_client-prints local outside (record { manager = initial small_pool; args = none }) _
      create_words (codes "create-vm vid=1 coreset=[0]") answer (ground arith) (ground arith)
      creates other_command (serves_create small_pool) answer-HasNoNul
