-- ===== src/ResourceClient/Session/Answered.antt =====
-- From the command line of the client to what it prints.
use ramryder.Prelude.{
  ℕ, zero, suc, ◌-◌, ◌≤◌, ◌<◌, ◌≡◌, refl, false, List, [], some, arith, pos, ltb_ℤ, length,
  take_all, replicate, done, ◌∙◌, ap,
}
use ramryder.Scan.{Bytes, codes, same_bytes, skip_spaces, scan_word}
use ramryder.GuestAgent.Meminfo.{c_string, c_string-append, HasNoNul}
use ramryder.Buffer.{append_nil}
use ramryder.RpcHandler.{Outside}
use ramryder.ResourceManager.{Server, serve_request}
use ramryder.ResourceManager.Responses.{serve_request-IsShort}
use ramryder.ResourceClient.{main}
use ramryder.ResourceClient.Session.{ClientHost, print_results, received, send_command, run_client}

zeros-empty : (n : ℕ) → 0 < n → c_string (replicate n 0) ≡ done []
unfolding c_string
zeros-empty zero h = absurd (omega arith)
zeros-empty (suc n) h = refl

-- A response that leaves room for the closing NUL is read as it was sent.
received-whole :
    (response : Bytes)
    → length response ≤ 1023
    → HasNoNul response
    → received response ≡ done response
unfolding received
received-whole response short clean = rw (take_all 1024 response (omega (arith, short))) (
    c_string-append response (replicate (1024 - length response) 0) [] clean
      (zeros-empty (1024 - length response) (omega (arith, short)))
    ∙ ap done (append_nil response))

-- A client whose arguments make a request other than `get-mem-info`, and whose socket connects: if the
-- round of the server that gets the request ends with a response without a NUL, the client prints the
-- whole response, or what json-c makes of it, and the server is in the state that its round left.
pub run_client-prints :
    (host : ClientHost) (outside : Outside) (server server' : Server) (args : List Bytes)
    (request response : Bytes)
    → ltb_ℤ host.socket (pos 0) ≡ false
    → ltb_ℤ host.connect (pos 0) ≡ false
    → main args ≡ some request
    → same_bytes (scan_word 63 (skip_spaces request)).0 (codes "get-mem-info") ≡ false
    → serve_request outside server request ≡ done (response, server')
    → HasNoNul response
    → run_client host (serve_request outside) server args
      ≡ done (some (print_results host response), server')
unfolding run_client send_command
run_client-prints host outside server server' args request response up there asks other ran clean =
    rw
      (
        run_client,
        asks,
        send_command,
        up,
        there,
        ran,
        received-whole response
            (serve_request-IsShort outside server server' request response other ran) clean,
      )
      refl
