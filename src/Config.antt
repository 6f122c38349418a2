-- ===== src/Config.antt =====
-- How `memory_pool_load_config` and `guest_monitor_load_config` read a configuration file, line by
-- line. The two have this code in common.
use ramryder.Prelude.{
  ℕ, zero, suc, ◌-◌, Bool, true, false, ◌||◌, ◌&&◌, List, [], ◌∷◌, none, some, ℤ, pos, ltb, leb,
  ◌==◌, if◌then◌else◌, length,
}
use ramryder.Scan.{Bytes, codes, skip_spaces, scan_word, scan_literal, scan_int}

-- A byte that goes on with the first line of the rest.
unfoldable pub push : ℕ → List Bytes → List Bytes
push c [] = (c ∷ []) ∷ []
push c (line ∷ lines) = (c ∷ line) ∷ lines

-- What one `fgets` after another reads into an array of 512 bytes, where `room` more bytes fit.
unfoldable pub read_lines : ℕ → Bytes → List Bytes
unfolding push
read_lines room [] = []
read_lines room (c ∷ s) =
    let full = c == 10 || leb room 1 in
    let rest = read_lines (if full then 511 else room - 1) s in
    if full then (c ∷ []) ∷ rest else push c rest

unfoldable pub starts_with : Bytes → Bytes → Bool
unfolding scan_literal
starts_with prefix s = elim (scan_literal prefix s) [ none ↦ false | some r ↦ true ]

-- The lines that are passed over.
unfoldable pub is_skipped : Bytes → Bool
unfolding starts_with
is_skipped line =
    starts_with (codes "#") line
    || starts_with (codes "[global]") line
    || starts_with (codes "[devices]") line
    || starts_with (codes "[clouddb]") line

-- At most `n` conversions "%s".
unfoldable pub scan_words : ℕ → Bytes → List Bytes
unfolding skip_spaces scan_word
scan_words zero s = []
scan_words (suc n) s =
    let word = scan_word (length s) (skip_spaces s) in
    let rest = scan_words n word.1 in if leb 1 (length word.0) then word.0 ∷ rest else []

-- Every value is shorter than the array for it.
unfoldable pub all_shorter : ℕ → List Bytes → Bool
all_shorter size [] = true
all_shorter size (word ∷ words) = ltb (length word) size && all_shorter size words

-- `atoi`
unfoldable pub atoi : Bytes → ℤ
unfolding scan_int
atoi s = elim (scan_int s) [ none ↦ pos 0 | some (n, r) ↦ n ]
