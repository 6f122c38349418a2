-- ===== src/ResourceManager/Responses.antt =====
-- The responses that the server sends, for all commands.
use ramryder.Prelude.{
  ◌≤◌, ◌≡◌, refl, true, false, Bool, [], ◌∷◌, Option, none, some, arith, length, if◌then◌else◌,
  Exec, done, abort, >>=-eq-done,
}
use ramryder.Scan.{Bytes, codes, same_bytes, skip_spaces, scan_line, scan_word}
use ramryder.VmManager.{Manager}
use ramryder.RpcHandler.{
  Outside, rpc_handle_alloc_mem, rpc_handle_free_mem, rpc_handle_create_vm, rpc_handle_destroy_vm,
  rpc_handle_start_vm, rpc_handle_stop_vm,
}
use ramryder.RpcHandler.Responses.{
  IsShort, Answers, AnswersWith, rpc_handle_get_mem_pool-IsShort, rpc_handle_get_vms-IsShort,
  rpc_handle_get_num_nodes-IsShort, rpc_handle_get_node_info-Answers, alloc_scanned-Answers,
  free_scanned-Answers, call_vm-Answers, create_scanned-Answers, rpc_handle_attach_mem-Answers,
  rpc_handle_detach_mem-Answers,
}
use ramryder.ResourceManager.{
  Server, with_args, query, change, dispatch, new_args, or_failed, serve_word, serve_request,
}

-- If the run ends, what is sent is short.
abbrev Sends : Exec (Option Bytes × Manager) → Type 0
Sends run = (r : Option Bytes) (t : Manager) → run ≡ done (r, t) → IsShort (or_failed r)

Sends-done : (text : Bytes) (s : Manager) → IsShort text → Sends (done (some text, s))
unfolding or_failed
Sends-done text s h r t e = let same : some text ≡ r = cc in rw (← same) h

query-Sends : (s : Manager) (run : Exec Bytes) → Answers run → Sends (query s run)
query-Sends s (done text) h r t e = Sends-done text s (h text refl) r t e
query-Sends s (abort why) h r t e = absurd (cc)

change-Sends : (run : Exec (Bytes × Manager)) → AnswersWith run → Sends (change run)
change-Sends (done (text, s)) h r t e = Sends-done text s (h text s refl) r t e
change-Sends (abort why) h r t e = absurd (cc)

with_args-Sends :
    (args : Option Bytes) (body : Bytes → Exec (Option Bytes × Manager))
    → ((a : Bytes) → Sends (body a))
    → Sends (with_args args body)
unfolding with_args
with_args-Sends none body h = λ r t e. absurd (cc)
with_args-Sends (some a) body h = h a

-- One test of the chain.
Sends-if :
    (b : Bool) (m n : Exec (Option Bytes × Manager))
    → Sends m
    → Sends n
    → Sends (if b then m else n)
Sends-if true m n f g = f
Sends-if false m n f g = g

dispatch-Sends :
    (outside : Outside) (s : Manager) (cmd : Bytes) (args : Option Bytes)
    → same_bytes cmd (codes "get-mem-info") ≡ false
    → Sends (dispatch outside s cmd args)
unfolding dispatch rpc_handle_alloc_mem rpc_handle_free_mem rpc_handle_create_vm
    rpc_handle_destroy_vm rpc_handle_start_vm rpc_handle_stop_vm
dispatch-Sends outside s cmd args other =
    rw (dispatch, other)
      (Sends-if (same_bytes cmd (codes "get-mem-pool")) _ _
        (Sends-done _ s (rpc_handle_get_mem_pool-IsShort s))
        (Sends-if (same_bytes cmd (codes "get-vms")) _ _
          (Sends-done _ s (rpc_handle_get_vms-IsShort s))
          (Sends-if (same_bytes cmd (codes "get-num-nodes")) _ _
            (Sends-done _ s (rpc_handle_get_num_nodes-IsShort s))
            (Sends-if (same_bytes cmd (codes "get-node-info")) _ _
              (with_args-Sends args _ (λ a. query-Sends s _ (rpc_handle_get_node_info-Answers s a)))
              (Sends-if (same_bytes cmd (codes "alloc-mem")) _ _
                (with_args-Sends args _ (λ a. change-Sends _ (alloc_scanned-Answers s _)))
                (Sends-if (same_bytes cmd (codes "free-mem")) _ _
                  (with_args-Sends args _ (λ a. change-Sends _ (free_scanned-Answers s _)))
                  (Sends-if (same_bytes cmd (codes "attach-mem")) _ _
                    (with_args-Sends args _
                      (λ a. query-Sends s _ (rpc_handle_attach_mem-Answers outside s a)))
                    (Sends-if (same_bytes cmd (codes "detach-mem")) _ _
                      (with_args-Sends args _
                        (λ a. query-Sends s _ (rpc_handle_detach_mem-Answers outside s a)))
                      (Sends-if (same_bytes cmd (codes "create-vm")) _ _
                        (with_args-Sends args _ (λ a. change-Sends _ (create_scanned-Answers s _)))
                        (Sends-if (same_bytes cmd (codes "destroy-vm")) _ _
                          (with_args-Sends args _
                            (λ a. change-Sends _ (call_vm-Answers _ (codes "Destroy") s _)))
                          (Sends-if (same_bytes cmd (codes "start-vm")) _ _
                            (with_args-Sends args _
                              (λ a. change-Sends _ (call_vm-Answers _ (codes "Start") s _)))
                            (Sends-if (same_bytes cmd (codes "stop-vm")) _ _
                              (with_args-Sends args _
                                (λ a. change-Sends _ (call_vm-Answers _ (codes "Stop") s _)))
                              (Sends-done _ s (omega arith))))))))))))))

serve_word-IsShort :
    (outside : Outside) (server server' : Server) (word rest response : Bytes)
    → same_bytes word (codes "get-mem-info") ≡ false
    → serve_word outside server word rest ≡ done (response, server')
    → IsShort response
unfolding serve_word
serve_word-IsShort outside server server' [] rest response other e =
    let same : codes "Invalid command" ≡ response = cc in rw (← same) (omega arith)
serve_word-IsShort outside server server' (c ∷ cmd) rest response other e =
    let args = new_args server.args (scan_line (skip_spaces rest)) in
    let (r, ran, out) = >>=-eq-done (dispatch outside server.manager (c ∷ cmd) args) _ e in
    let same : or_failed r.0 ≡ response = cc in
    rw (← same) (dispatch-Sends outside server.manager (c ∷ cmd) args other r.0 r.1 ran)

-- Whatever bytes arrive as a request other than `get-mem-info`, and however the world answers: if the
-- round of the server ends, its response has at most 1023 bytes, so that it fits into the buffer of the
-- client with the closing NUL.
pub serve_request-IsShort :
    (outside : Outside) (server server' : Server) (buffer response : Bytes)
    → same_bytes (scan_word 63 (skip_spaces buffer)).0 (codes "get-mem-info") ≡ false
    → serve_request outside server buffer ≡ done (response, server')
    → length response ≤ 1023
unfolding serve_request
serve_request-IsShort outside server server' buffer response other e =
    serve_word-IsShort outside server server' _ _ response other e
