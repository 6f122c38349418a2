-- ===== src/GuestAgent/Meminfo.antt =====
-- src/guest_agent.c, `send_guest_cmd` and `guest_agent_get_meminfo`. `heap` is what stands in the
-- memory that `malloc` returns, which has `BUFFER_SIZE` bytes.
use ramryder.Prelude.{
  ◌≡◌, ℕ, suc, zero, true, false, List, [], ◌∷◌, ◌++◌, Option, none, some, ℤ, ◌==◌, if◌then◌else◌,
  take, drop, length, Exec, done, abort, ◌>>=◌, out_of_bounds, arith, refl,
}
use ramryder.Scan.{Bytes, codes}
use ramryder.GuestAgent.{Agents, GuestAgent, agent_at}
use ramryder.QemuAgent.{JsonC, Event, Net, sent, received, execute}

pub send_guest_cmd :
    Net → Bytes → Agents → ℤ → Bytes → List Event → Exec (Option Bytes × List Event)
send_guest_cmd net heap s vm_id command h = do
  a ← agent_at s.guest_agents vm_id
  let h' = sent a.agent_fd command ∷ h
  let answer = take 1024 (net.recv h' a.agent_fd)
  done (
      if a.initialized
      then (some (answer ++ drop (length answer) heap), received a.agent_fd answer ∷ h')
      else (none, h))

-- {"execute": "guest-get-meminfo"}
pub meminfo_command : {Value : Type 0} → JsonC Value → Bytes
meminfo_command json = json.to_json_string (execute json (codes "guest-get-meminfo"))

pub guest_agent_get_meminfo :
    {Value : Type 0}
    → JsonC Value
    → Net
    → Bytes
    → Agents
    → ℤ
    → List Event
    → Exec (Option Bytes × List Event)
guest_agent_get_meminfo json net heap s vm_id =
    send_guest_cmd net heap s vm_id (meminfo_command json)

-- The string that starts an array, as `strlen` finds it.
unfoldable pub c_string : Bytes → Exec Bytes
c_string [] = abort out_of_bounds
c_string (c ∷ s) = if c == 0 then done [] else c_string s >>= λ r. done (c ∷ r)

-- No byte of these is 0.
pub data HasNoNul : Bytes → Type 0 where
  end : HasNoNul []
  more : {n : ℕ} {s : Bytes} → HasNoNul s → HasNoNul (suc n ∷ s)

suc_not_zero : (n : ℕ) → (suc n == 0) ≡ false
suc_not_zero n = ground arith

-- What follows bytes without a NUL belongs to the string.
pub c_string-append :
    (a b r : Bytes) → HasNoNul a → c_string b ≡ done r → c_string (a ++ b) ≡ done (a ++ r)
unfolding c_string
c_string-append [] b r end e = e
c_string-append (zero ∷ a) b r h e = elim h [ ]
c_string-append (suc n ∷ a) b r (more h) e = rw (suc_not_zero n, c_string-append a b r h e) refl

-- A connected agent that is asked leaves its answer in the array, and the heap behind it.
pub guest_agent_get_meminfo_lem :
    {Value : Type 0} (json : JsonC Value) (net : Net) (heap : Bytes) (s : Agents) (vm_id : ℤ)
    (a : GuestAgent) (h : List Event)
    → agent_at s.guest_agents vm_id ≡ done a
    → a.initialized ≡ true
    → let asked = sent a.agent_fd (meminfo_command json) ∷ h in
      let answer = take 1024 (net.recv asked a.agent_fd) in
      guest_agent_get_meminfo json net heap s vm_id h
      ≡ done (some (answer ++ drop (length answer) heap), received a.agent_fd answer ∷ asked)
unfolding guest_agent_get_meminfo send_guest_cmd
guest_agent_get_meminfo_lem json net heap s vm_id a h e i = rw (e, i) refl
