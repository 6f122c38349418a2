-- ===== src/ResourceManager/Serving.antt =====
-- What a request does to the manager: one operation of the VM manager, or nothing.
use ramryder.Prelude.{
  ◌≡◌, ◌⊎◌, ◌||◌, refl, true, false, Bool, List, [], ◌∷◌, Option, none, some, arith, ℤ, pos, ltb_ℤ,
  leb_ℤ, if◌then◌else◌, Exec, done, abort, ◌>>=◌, >>=-eq-done, inl, inr, ap, sym,
}
use ramryder.Scan.{Bytes, codes, same_bytes, skip_spaces, scan_line}
use ramryder.MemoryPool.Pool.{Pool}
use ramryder.MemoryPool.Pool.Invariant
use ramryder.VmManager.{
  Manager, initial, vm_mngr_instance_create, vm_mngr_instance_alloc_mem, vm_mngr_instance_free_mem,
}
use ramryder.VmManager.Invariant.{IsValid}
use ramryder.VmManager.Reachable.{
  Step, Reach, here, next, creates, destroys, starts, stops, allocates, frees,
  Reach-initial-IsValid,
}
use ramryder.ResourceManager.{
  Server, with_args, change, dispatch, new_args, serve_word, serve_request, serve, receive,
}
use ramryder.RpcHandler.{
  Outside, call_vm, alloc_scanned, free_scanned, create_scanned, create_bracketed,
  rpc_handle_alloc_mem, rpc_handle_free_mem, rpc_handle_destroy_vm, rpc_handle_start_vm,
  rpc_handle_stop_vm, rpc_handle_create_vm, bracketed,
}

-- However the run ends, it has changed nothing or done one operation.
abbrev Follows {ℓ} : {A : Type ℓ} → Manager → Exec (A × Manager) → Type ℓ
Follows {A} s run = (r : A) (t : Manager) → run ≡ done (r, t) → (t ≡ s) ⊎ Step s t

Follows-done {ℓ} : {A : Type ℓ} (s : Manager) (a : A) → Follows s (done (a, s))
Follows-done s a r t e = inl (cc)

Follows-if {ℓ} :
    {A : Type ℓ} (s : Manager) (b : Bool) (m n : Exec (A × Manager))
    → Follows s m
    → Follows s n
    → Follows s (if b then m else n)
Follows-if s true m n f g = f
Follows-if s false m n f g = g

Follows-unless {ℓ} :
    {A : Type ℓ} (s : Manager) (b : Bool) (m n : Exec (A × Manager))
    → Follows s m
    → (b ≡ false → Follows s n)
    → Follows s (if b then m else n)
Follows-unless s true m n f g = f
Follows-unless s false m n f g = g refl

-- An answer made from the result.
Follows-map {ℓ κ} :
    {A : Type ℓ} {B : Type κ} (s : Manager) (m : Exec (A × Manager)) (answer : A → B)
    → Follows s m
    → Follows s (m >>= λ r. done (answer r.0, r.1))
Follows-map s (done (a, t')) answer f r t e = let same : t' ≡ t = cc in rw (← same) (f a t' refl)
Follows-map s (abort why) answer f r t e = absurd (cc)

Follows-query {ℓ} :
    {A : Type ℓ} (s : Manager) (m : Exec A) (answer : A → Option Bytes)
    → Follows s (m >>= λ r. done (answer r, s))
Follows-query s (done a) answer r t e = inl (cc)
Follows-query s (abort why) answer r t e = absurd (cc)

alloc_scanned-Follows :
    (s : Manager) (scanned : Option (ℤ × ℤ × ℤ)) → Follows s (alloc_scanned s scanned)
unfolding alloc_scanned
alloc_scanned-Follows s none = Follows-done s _
alloc_scanned-Follows s (some (nid, vid, size)) =
    Follows-unless s (ltb_ℤ nid (pos 0) || (ltb_ℤ vid (pos 0) || leb_ℤ size (pos 0))) _ _
      (Follows-done s _)
      (λ good. Follows-map s (vm_mngr_instance_alloc_mem s nid vid size) _ (λ r t e.
        inr (allocates nid vid size r (λ none_asked. ground (arith, good, none_asked)) e)))

free_scanned-Follows : (s : Manager) (scanned : Option (ℤ × ℤ)) → Follows s (free_scanned s scanned)
unfolding free_scanned
free_scanned-Follows s none = Follows-done s _
free_scanned-Follows s (some (vid, memid)) =
    Follows-if s (ltb_ℤ vid (pos 0) || ltb_ℤ memid (pos 0)) _ _ (Follows-done s _)
      (Follows-map s (vm_mngr_instance_free_mem s vid memid) _ (λ r t e. inr (frees vid memid r e)))

call_vm-Follows :
    (operation : ℤ → Exec (ℤ × Manager)) (verb : Bytes) (s : Manager) (scanned : Option ℤ)
    → ((vid r : ℤ) (t : Manager) → operation vid ≡ done (r, t) → Step s t)
    → Follows s (call_vm operation verb s scanned)
unfolding call_vm
call_vm-Follows operation verb s none f = Follows-done s _
call_vm-Follows operation verb s (some vid) f =
    Follows-if s (ltb_ℤ vid (pos 0)) _ _ (Follows-done s _)
      (Follows-map s (operation vid) _ (λ r t e. inr (f vid r t e)))

create_bracketed-Follows :
    (s : Manager) (vid : ℤ) (cores : Option Bytes) → Follows s (create_bracketed s vid cores)
unfolding create_bracketed
create_bracketed-Follows s vid none = Follows-done s _
create_bracketed-Follows s vid (some cores) =
    Follows-map s (vm_mngr_instance_create s vid cores) _ (λ r t e. inr (creates vid cores r e))

create_scanned-Follows :
    (s : Manager) (scanned : Option (ℤ × Bytes)) → Follows s (create_scanned s scanned)
unfolding create_scanned
create_scanned-Follows s none = Follows-done s _
create_scanned-Follows s (some (vid, str)) =
    Follows-if s (ltb_ℤ vid (pos 0)) _ _ (Follows-done s _)
      (create_bracketed-Follows s vid (bracketed str))

with_args-Follows {ℓ} :
    {A : Type ℓ} (s : Manager) (args : Option Bytes) (body : Bytes → Exec (A × Manager))
    → ((a : Bytes) → Follows s (body a))
    → Follows s (with_args args body)
unfolding with_args
with_args-Follows s none body f = λ r t e. absurd (cc)
with_args-Follows s (some a) body f = f a

change-Follows :
    (s : Manager) (run : Exec (Bytes × Manager)) → Follows s run → Follows s (change run)
change-Follows s run f = Follows-map s run (λ b. some b) f

dispatch-Follows :
    (outside : Outside) (s : Manager) (cmd : Bytes) (args : Option Bytes)
    → Follows s (dispatch outside s cmd args)
unfolding dispatch rpc_handle_alloc_mem rpc_handle_free_mem rpc_handle_create_vm
    rpc_handle_destroy_vm rpc_handle_start_vm rpc_handle_stop_vm
dispatch-Follows outside s cmd args =
    Follows-if s (same_bytes cmd (codes "get-mem-info")) _ _
      (with_args-Follows s args _ (λ a. Follows-query s _ (λ r. r)))
      (Follows-if s (same_bytes cmd (codes "get-mem-pool")) _ _ (Follows-done s _) (
        Follows-if s (same_bytes cmd (codes "get-vms")) _ _ (Follows-done s _) (
          Follows-if s (same_bytes cmd (codes "get-num-nodes")) _ _ (Follows-done s _) (
            Follows-if s (same_bytes cmd (codes "get-node-info")) _ _
              (with_args-Follows s args _ (λ a. Follows-query s _ _))
              (Follows-if s (same_bytes cmd (codes "alloc-mem")) _ _
                (with_args-Follows s args _ (λ a. change-Follows s _ (alloc_scanned-Follows s _)))
                (Follows-if s (same_bytes cmd (codes "free-mem")) _ _
                  (with_args-Follows s args _ (λ a. change-Follows s _ (free_scanned-Follows s _)))
                  (Follows-if s (same_bytes cmd (codes "attach-mem")) _ _
                    (with_args-Follows s args _ (λ a. Follows-query s _ _))
                    (Follows-if s (same_bytes cmd (codes "detach-mem")) _ _
                      (with_args-Follows s args _ (λ a. Follows-query s _ _))
                      (Follows-if s (same_bytes cmd (codes "create-vm")) _ _
                        (with_args-Follows s args _
                          (λ a. change-Follows s _ (create_scanned-Follows s _)))
                        (Follows-if s (same_bytes cmd (codes "destroy-vm")) _ _
                          (with_args-Follows s args _ (λ a.
                            change-Follows s _
                              (call_vm-Follows _ _ s _ (λ vid r t e. destroys vid r e))))
                          (Follows-if s (same_bytes cmd (codes "start-vm")) _ _
                            (with_args-Follows s args _ (λ a. change-Follows s _ (
                              call_vm-Follows _ _ s _
                                (λ vid r t e. starts outside.kernel vid r e))))
                            (Follows-if s (same_bytes cmd (codes "stop-vm")) _ _
                              (with_args-Follows s args _ (λ a. change-Follows s _ (
                                call_vm-Follows _ _ s _
                                  (λ vid r t e. stops outside.kernel vid r e))))
                              (Follows-done s _)))))))))))))

serve_word-Follows :
    (outside : Outside) (server server' : Server) (word rest r : Bytes)
    → serve_word outside server word rest ≡ done (r, server')
    → (server'.manager ≡ server.manager) ⊎ Step server.manager server'.manager
unfolding serve_word
serve_word-Follows outside server server' [] rest r e =
    let same : server ≡ server' = cc in inl (ap (λ v. v.manager) (sym same))
serve_word-Follows outside server server' (c ∷ cmd) rest r e =
    let args = new_args server.args (scan_line (skip_spaces rest)) in
    let (got, run, out) = >>=-eq-done (dispatch outside server.manager (c ∷ cmd) args) _ e in
    let same : got.1 ≡ server'.manager = ground (arith, out) in
    rw (← same) (dispatch-Follows outside server.manager (c ∷ cmd) args got.0 got.1 run)

Reach-follow : (s t u : Manager) → Reach s t → (u ≡ t) ⊎ Step t u → Reach s u
Reach-follow s t u r (inl same) = rw same r
Reach-follow s t u r (inr st) = next r st

pub serve_request-Reach :
    (s : Manager) (outside : Outside) (server server' : Server) (buffer r : Bytes)
    → Reach s server.manager
    → serve_request outside server buffer ≡ done (r, server')
    → Reach s server'.manager
unfolding serve_request
serve_request-Reach s outside server server' buffer r reach e =
    Reach-follow s server.manager server'.manager reach
      (serve_word-Follows outside server server' _ _ r e)

serve-Reach :
    (s : Manager) (server server' : Server) (requests : List (Outside × Bytes))
    → Reach s server.manager
    → serve server requests ≡ done server'
    → Reach s server'.manager
unfolding serve
serve-Reach s server server' [] reach e = let same : server ≡ server' = cc in rw (← same) reach
serve-Reach s server server' ((outside, arrived) ∷ requests) reach e =
    let (buffer, _, e1) = >>=-eq-done (receive arrived) _ e in
    let ((r, mid), run, rest) = >>=-eq-done (serve_request outside server buffer) _ e1 in
    serve-Reach s mid server' requests (serve_request-Reach s outside server mid buffer r reach run)
      rest

-- Whatever bytes arrive as requests, and however the world answers: as long as the server runs, the
-- state of its manager is one that the operations of the VM manager reach from the start of the
-- program, and with a valid pool it is valid.
pub serve-IsValid :
    (p : Pool) (server : Server) (requests : List (Outside × Bytes))
    → Invariant.IsValid p
    → serve (record { manager = initial p; args = none }) requests ≡ done server
    → Reach (initial p) server.manager × IsValid server.manager
serve-IsValid p server requests v e =
    let reach =
      serve-Reach (initial p) (record { manager = initial p; args = none }) server requests here
        e in
    (reach, Reach-initial-IsValid p server.manager v reach)
