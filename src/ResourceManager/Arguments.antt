-- ===== src/ResourceManager/Arguments.antt =====
-- The arguments of a request, from the text that a client writes.
use ramryder.Prelude.{
  ℕ, suc, ◌<◌, ◌≡◌, Exec, done, abort, ◌>>=◌, refl, true, [], ◌∷◌, ◌++◌, Option, some, arith, ℤ,
  pos, negsuc, ap, sym, ◌∙◌,
}
use ramryder.Scan.{
  Bytes, codes, skip_spaces, scan_literal, scan_field, scan_1, scan_2, scan_3, scan_line, scan_int,
  same_bytes,
}
use ramryder.Decimal.{show_nat, show_int, digits}
use ramryder.Decimal.RoundTrip.{FitsInt, all_digits, digits-digits, scan_int-show_int}
use ramryder.Buffer.{append_nil}
use ramryder.VmManager.{Manager, VmMemReq, vm_mngr_instance_alloc_mem}
use ramryder.ResourceManager.{
  Server, change, with_args, or_failed, dispatch, serve_word, serve_request,
}
use ramryder.RpcHandler.{Outside, respond, alloc_answer, alloc_scanned, rpc_handle_alloc_mem}
use ramryder.ResourceManager.Words.{IsArguments, serve_request-args, read_args}

scan_line-digits :
    (xs rest : Bytes) → all_digits xs ≡ true → scan_line (xs ++ rest) ≡ xs ++ scan_line rest
unfolding scan_line
scan_line-digits [] rest h = refl
scan_line-digits (x ∷ xs) rest h = ground (arith, scan_line-digits xs rest)

pub scan_line-show_int :
    (z : ℤ) (rest : Bytes) → scan_line (show_int z ++ rest) ≡ show_int z ++ scan_line rest
unfolding show_int show_nat scan_line
scan_line-show_int (pos n) rest = scan_line-digits (digits (suc n) n) rest (digits-digits (suc n) n)
scan_line-show_int (negsuc n) rest =
    ap (◌∷◌ b'-')
      (scan_line-digits (digits (suc (suc n)) (suc n)) rest (digits-digits (suc (suc n)) (suc n)))

scan_int-last : (z : ℤ) → FitsInt z → scan_int (show_int z) ≡ some (z, [])
scan_int-last z f = ap scan_int (sym (append_nil (show_int z))) ∙ scan_int-show_int z [] refl f

-- The text of the arguments of an allocation.
abbrev pub alloc_text : ℤ → ℤ → ℤ → Bytes
alloc_text nid vid size =
    codes "nid="
    ++ (show_int nid ++ (codes " vid=" ++ (show_int vid ++ (codes " size=" ++ show_int size))))

scan_1-field : (name s r : Bytes) (a : ℤ) → scan_field name s ≡ some (a, r) → scan_1 name s ≡ some a
unfolding scan_1
scan_1-field name s r a e = ground (arith, e)

scan_2-fields :
    (name name' s r : Bytes) (a b : ℤ)
    → scan_field name s ≡ some (a, r)
    → scan_1 name' (skip_spaces r) ≡ some b
    → scan_2 name name' s ≡ some (a, b)
unfolding scan_2
scan_2-fields name name' s r a b e f = ground (arith, e, f)

scan_3-fields :
    (name name' name'' s r : Bytes) (a b c : ℤ)
    → scan_field name s ≡ some (a, r)
    → scan_2 name' name'' (skip_spaces r) ≡ some (b, c)
    → scan_3 name name' name'' s ≡ some (a, b, c)
unfolding scan_3
scan_3-fields name name' name'' s r a b c e f = ground (arith, e, f)

pub scan-alloc_text :
    (nid vid size : ℤ)
    → FitsInt nid
    → FitsInt vid
    → FitsInt size
    → scan_3 (codes "nid=") (codes "vid=") (codes "size=") (alloc_text nid vid size)
      ≡ some (nid, vid, size)
unfolding scan_field scan_literal skip_spaces
scan-alloc_text nid vid size f g h =
    let last = codes " size=" ++ show_int size in
    let rest = codes " vid=" ++ (show_int vid ++ last) in
    scan_3-fields (codes "nid=") (codes "vid=") (codes "size=") _ rest nid vid size
      (scan_int-show_int nid rest refl f)
      (scan_2-fields (codes "vid=") (codes "size=") _ last vid size
        (scan_int-show_int vid last refl g)
        (scan_1-field (codes "size=") _ [] size (scan_int-last size h)))

scan_line-last : (z : ℤ) → scan_line (show_int z) ≡ show_int z
unfolding scan_line
scan_line-last z =
    ap scan_line (sym (append_nil (show_int z))) ∙ scan_line-show_int z [] ∙ append_nil (show_int z)

pub alloc_text-IsArguments : (nid vid size : ℤ) → IsArguments (alloc_text nid vid size)
unfolding skip_spaces scan_line
alloc_text-IsArguments nid vid size = record {
  some_bytes = λ e. cc;
  starts = refl;
  one_line =
      rw
        (scan_line-show_int nid
          (codes " vid=" ++ (show_int vid ++ (codes " size=" ++ show_int size))))
        (rw (scan_line-show_int vid (codes " size=" ++ show_int size))
          (rw (scan_line-last size) refl));
}

abbrev pub alloc_request : ℕ → ℕ → ℕ → Bytes
alloc_request nid vid size = codes "alloc-mem" ++ 32 ∷ alloc_text (pos nid) (pos vid) (pos size)

-- The answer to an allocation, with the arguments that the server keeps.
abbrev pub answered : Bytes → Option VmMemReq × Manager → Exec (Bytes × Server)
answered text r = done (respond (alloc_answer r.0), record { manager = r.1; args = some text })

abbrev passed : Bytes → Option Bytes × Manager → Exec (Bytes × Server)
unfolding or_failed
passed text r = done (or_failed r.0, record { manager = r.1; args = some text })

-- What the server does with the request: it calls `vm_mngr_instance_alloc_mem` and answers with its
-- result.
abbrev pub alloc_round : Server → ℕ → ℕ → ℕ → Exec (Bytes × Server)
alloc_round server nid vid size =
    vm_mngr_instance_alloc_mem server.manager (pos nid) (pos vid) (pos size)
    >>= answered (alloc_text (pos nid) (pos vid) (pos size))

alloc_scanned-pos :
    (s : Manager) (nid vid size : ℕ)
    → 0 < size
    → alloc_scanned s (some (pos nid, pos vid, pos size)) ≡ (
        vm_mngr_instance_alloc_mem s (pos nid) (pos vid) (pos size) >>= λ r.
        done (respond (alloc_answer r.0), r.1))
unfolding alloc_scanned
alloc_scanned-pos s nid vid size h = ground (arith, h)

alloc_text-round :
    (outside : Outside) (server : Server) (nid vid size : ℕ)
    → 0 < size
    → nid < 2147483648
    → vid < 2147483648
    → size < 2147483648
    → serve_word outside server (codes "alloc-mem") (32 ∷ alloc_text (pos nid) (pos vid) (pos size))
      ≡ alloc_round server nid vid size
unfolding serve_word dispatch same_bytes with_args or_failed rpc_handle_alloc_mem
alloc_text-round outside server nid vid size h n v l =
    let text = alloc_text (pos nid) (pos vid) (pos size) in
    let call = vm_mngr_instance_alloc_mem server.manager (pos nid) (pos vid) (pos size) in
    rw (read_args server.args text (alloc_text-IsArguments (pos nid) (pos vid) (pos size))) (
      rw (scan-alloc_text (pos nid) (pos vid) (pos size) n v l)
        (rw (alloc_scanned-pos server.manager nid vid size h) (answers call)))
  where
    answers :
        (call : Exec (Option VmMemReq × Manager))
        → (change (call >>= λ r. done (respond (alloc_answer r.0), r.1))
            >>= passed (alloc_text (pos nid) (pos vid) (pos size)))
          ≡ (call >>= answered (alloc_text (pos nid) (pos vid) (pos size)))
    answers (done r) = refl
    answers (abort why) = refl

pub serve_request-alloc :
    (outside : Outside) (server : Server) (nid vid size : ℕ)
    → 0 < size
    → nid < 2147483648
    → vid < 2147483648
    → size < 2147483648
    → serve_request outside server (alloc_request nid vid size) ≡ alloc_round server nid vid size
serve_request-alloc outside server nid vid size h n v l =
    serve_request-args outside server b'a' (codes "lloc-mem") _
      (record { some_bytes = λ e. cc; short = omega arith; unbroken = refl })
      (alloc_text-IsArguments (pos nid) (pos vid) (pos size))
    ∙ alloc_text-round outside server nid vid size h n v l
