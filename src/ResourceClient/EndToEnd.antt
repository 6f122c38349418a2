-- ===== src/ResourceClient/EndToEnd.antt =====
-- From the command line of the client to the call in the server.
use ramryder.Prelude.{take_all, ℕ, ◌≤◌, ◌<◌, ◌≡◌, List, [], ◌∷◌, ◌++◌, some, pos, length, ap}
use ramryder.Scan.{Bytes, codes, same_bytes}
use ramryder.Decimal.{show_int}
use ramryder.ResourceManager.{Server, serve_request}
use ramryder.RpcHandler.{Outside}
use ramryder.ResourceManager.Arguments.{alloc_request, alloc_round, serve_request-alloc}
use ramryder.ResourceClient.{join, command, request_of_words, main}

-- The words of `alloc-mem nid=<nid> vid=<vid> size=<size>`.
abbrev pub alloc_words : ℕ → ℕ → ℕ → List Bytes
alloc_words nid vid size =
    codes "alloc-mem"
    ∷ (codes "nid=" ++ show_int (pos nid))
    ∷ (codes "vid=" ++ show_int (pos vid))
    ∷ (codes "size=" ++ show_int (pos size))
    ∷ []

main-alloc :
    (nid vid size : ℕ)
    → length (alloc_request nid vid size) ≤ 1023
    → main (alloc_words nid vid size) ≡ some (alloc_request nid vid size)
unfolding main request_of_words command join same_bytes
main-alloc nid vid size h = ap some (take_all 1023 (alloc_request nid vid size) h)

-- The command `alloc-mem nid=<nid> vid=<vid> size=<size>`, with numbers of zero or more that an `int`
-- holds, the size above 0, and as long as it fits into the client's buffer: the client sends a request, and the server that
-- gets it calls `vm_mngr_instance_alloc_mem` with just these three numbers, answers with its result,
-- and ends up in the state that the call leaves.
pub alloc_mem_arrives :
    (outside : Outside) (server : Server) (nid vid size : ℕ)
    → 0 < size
    → nid < 2147483648
    → vid < 2147483648
    → size < 2147483648
    → length (alloc_request nid vid size) ≤ 1023
    → (request : Bytes) × (main (alloc_words nid vid size) ≡ some request)
      × (serve_request outside server request ≡ alloc_round server nid vid size)
alloc_mem_arrives outside server nid vid size h n v l fits = (
  alloc_request nid vid size,
  main-alloc nid vid size fits,
  serve_request-alloc outside server nid vid size h n v l,
)
