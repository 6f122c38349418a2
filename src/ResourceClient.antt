-- ===== src/ResourceClient.antt =====
-- src/resource_client.c: from the arguments of the program to the request that it sends.
pub mod EndToEnd
pub mod Session
pub mod Tests
use ramryder.Prelude.{
  ℕ, Bool, List, [], ◌∷◌, ◌++◌, Option, none, some, length, take, ◌==◌, if◌then◌else◌,
}
use ramryder.Scan.{Bytes, codes, same_bytes}

-- "%s %s ... %s"
pub join : Bytes → List Bytes → Bytes
join word [] = word
join word (a ∷ words) = word ++ 32 ∷ join a words

-- The test of `argc`, and `snprintf` into `cmd_full`.
pub command : ℕ → Bytes → List Bytes → Option Bytes
command count cmd_action words =
    if length words == count then some (take 1023 (join cmd_action words)) else none

-- The chain of tests in `main`; `none` is the exit with the usage text.
pub request_of_words : Bytes → List Bytes → Option Bytes
request_of_words cmd_action words =
    if same_bytes cmd_action (codes "get-mem-info")
    then command 1 cmd_action words
    else if same_bytes cmd_action (codes "get-mem-pool")
    then command 0 cmd_action words
    else if same_bytes cmd_action (codes "get-vms")
    then command 0 cmd_action words
    else if same_bytes cmd_action (codes "get-num-nodes")
    then command 0 cmd_action words
    else if same_bytes cmd_action (codes "get-node-info")
    then command 1 cmd_action words
    else if same_bytes cmd_action (codes "alloc-mem")
    then command 3 cmd_action words
    else if same_bytes cmd_action (codes "free-mem")
    then command 2 cmd_action words
    else if same_bytes cmd_action (codes "attach-mem")
    then command 3 cmd_action words
    else if same_bytes cmd_action (codes "detach-mem")
    then command 2 cmd_action words
    else if same_bytes cmd_action (codes "create-vm")
    then command 2 cmd_action words
    else if same_bytes cmd_action (codes "destroy-vm")
    then command 1 cmd_action words
    else if same_bytes cmd_action (codes "start-vm")
    then command 1 cmd_action words
    else if same_bytes cmd_action (codes "stop-vm")
    then command 1 cmd_action words
    else none

-- `main`, for the arguments behind the program's name: the request that it sends, or none.
pub main : List Bytes → Option Bytes
main [] = none
main (cmd_action ∷ words) = request_of_words cmd_action words
