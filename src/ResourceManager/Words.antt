-- ===== src/ResourceManager/Words.antt =====
-- How the server takes a request apart into the command word and the arguments.
use ramryder.Prelude.{
  ℕ, zero, suc, ◌≤◌, ◌≡◌, ◌≢◌, refl, true, not, ◌&&◌, Bool, [], ◌∷◌, ◌++◌, Option, some, arith,
  length, sym, ◌∙◌, ap,
}
use ramryder.Scan.{Bytes, is_space, skip_spaces, scan_word, scan_line}
use ramryder.Buffer.{append_nil}
use ramryder.VmManager.{Manager}
use ramryder.ResourceManager.{Server, new_args, serve_word, serve_request}
use ramryder.RpcHandler.{Outside}

-- No byte is a space.
abbrev pub no_spaces : Bytes → Bool
no_spaces [] = true
no_spaces (c ∷ s) = not (is_space c) && no_spaces s

-- A command word that the server reads whole.
pub record IsCommand (w : Bytes) : Type 0 where
  pub some_bytes : w ≢ []
  pub short : length w ≤ 63
  pub unbroken : no_spaces w ≡ true

-- Arguments that the server reads as they are: a line that begins with no space.
pub record IsArguments (a : Bytes) : Type 0 where
  pub some_bytes : a ≢ []
  pub starts : skip_spaces a ≡ a
  pub one_line : scan_line a ≡ a

pub scan_word-blank :
    (n : ℕ) (w r : Bytes)
    → length w ≤ n
    → no_spaces w ≡ true
    → scan_word n (w ++ 32 ∷ r) ≡ (w, 32 ∷ r)
unfolding scan_word
scan_word-blank zero [] r h u = refl
scan_word-blank (suc n) [] r h u = refl
scan_word-blank zero (c ∷ w) r h u = absurd (omega arith)
scan_word-blank (suc n) (c ∷ w) r h u = ground (arith, scan_word-blank n w r (omega arith))

scan_word-end : (n : ℕ) (w : Bytes) → length w ≤ n → no_spaces w ≡ true → scan_word n w ≡ (w, [])
unfolding scan_word
scan_word-end zero [] h u = refl
scan_word-end (suc n) [] h u = refl
scan_word-end zero (c ∷ w) h u = absurd (omega arith)
scan_word-end (suc n) (c ∷ w) h u = ground (arith, scan_word-end n w (omega arith))

skip_spaces-word : (w r : Bytes) → w ≢ [] → no_spaces w ≡ true → skip_spaces (w ++ r) ≡ w ++ r
unfolding skip_spaces
skip_spaces-word [] r h u = absurd (h refl)
skip_spaces-word (c ∷ w) r h u = ground arith

new_args-some : (old : Option Bytes) (a : Bytes) → a ≢ [] → new_args old a ≡ some a
unfolding new_args
new_args-some old [] h = absurd (h refl)
new_args-some old (c ∷ a) h = refl

-- A request with arguments.
pub serve_request-args :
    (outside : Outside) (server : Server) (c : ℕ) (cmd a : Bytes)
    → IsCommand (c ∷ cmd)
    → IsArguments a
    → serve_request outside server (c ∷ cmd ++ 32 ∷ a)
      ≡ serve_word outside server (c ∷ cmd) (32 ∷ a)
unfolding serve_request
serve_request-args outside server c cmd a w g =
    rw (skip_spaces-word (c ∷ cmd) (32 ∷ a) w.some_bytes w.unbroken)
      (rw (scan_word-blank 63 (c ∷ cmd) a w.short w.unbroken) refl)

-- A request that is a bare command word.
serve_request-bare :
    (outside : Outside) (server : Server) (c : ℕ) (cmd : Bytes)
    → IsCommand (c ∷ cmd)
    → serve_request outside server (c ∷ cmd) ≡ serve_word outside server (c ∷ cmd) []
unfolding serve_request
serve_request-bare outside server c cmd w =
    let skip =
      ap skip_spaces (sym (append_nil (c ∷ cmd)))
      ∙ skip_spaces-word (c ∷ cmd) [] w.some_bytes w.unbroken
      ∙ append_nil (c ∷ cmd) in
    rw skip (rw (scan_word-end 63 (c ∷ cmd) w.short w.unbroken) refl)

-- Only the arguments that a round ends up with matter.
pub serve_word-eq :
    (outside : Outside) (server : Server) (c : ℕ) (cmd rest rest' : Bytes)
    → new_args server.args (scan_line (skip_spaces rest))
      ≡ new_args server.args (scan_line (skip_spaces rest'))
    → serve_word outside server (c ∷ cmd) rest ≡ serve_word outside server (c ∷ cmd) rest'
unfolding serve_word
serve_word-eq outside server c cmd rest rest' e = rw e refl

pub read_args :
    (old : Option Bytes) (a : Bytes)
    → IsArguments a
    → new_args old (scan_line (skip_spaces (32 ∷ a))) ≡ some a
unfolding skip_spaces
read_args old a g =
    ap (λ t. new_args old (scan_line t)) g.starts
    ∙ ap (new_args old) g.one_line
    ∙ new_args-some old a g.some_bytes

-- A bare command word, sent after a request that had arguments, is served as if it had come with the
-- arguments of that earlier request.
pub serve_request-reuses :
    (outside : Outside) (s : Manager) (cmd a : Bytes)
    → IsCommand cmd
    → IsArguments a
    → serve_request outside (record { manager = s; args = some a }) cmd
      ≡ serve_request outside (record { manager = s; args = some a }) (cmd ++ 32 ∷ a)
unfolding new_args skip_spaces scan_line
serve_request-reuses outside s [] a w g = absurd (w.some_bytes refl)
serve_request-reuses outside s (c ∷ cmd) a w g =
    let server : Server = record { manager = s; args = some a } in
    serve_request-bare outside server c cmd w
    ∙ serve_word-eq outside server c cmd [] (32 ∷ a) (sym (read_args (some a) a g))
    ∙ sym (serve_request-args outside server c cmd a w g)
