-- ===== src/GuestAgent/Connections.antt =====
-- The connections to the guest agents: bounds, the count, and what a failed connection leaves.
use ramryder.Prelude.{
  if-cases, take, ℕ, zero, suc, ◌+◌, ◌-◌, ◌≤◌, ◌<◌, ◌≡◌, ◌≢◌, ◌⊎◌, refl, ap, ◌∙◌, true, false, Bool,
  List, [], ◌∷◌, some, arith, ℤ, pos, negsuc, minus_one, pos-add, pos-sub, get_elem?-none, ltb_ℤ,
  leb_ℤ, ◌+ℤ◌, ◌-ℤ◌, Bool-cases, inl, inr, length, get_elem?, get_elem?-total, get_elem?-lt, set,
  length-set, get_elem?-set, if◌then◌else◌, done, abort, out_of_bounds,
}
use ramryder.Scan.{Bytes}
use ramryder.GuestAgent.{
  GuestAgent, Agents, SocketKernel, max_num_vm, agent_at, put_agent, connect_to_socket, agent_path,
  connect_agent, guest_agent_init, guest_agent_cleanup,
}

abbrev pub connected : List GuestAgent → ℕ
connected [] = 0
connected (a ∷ agents) = (if a.initialized then 1 else 0) + connected agents

-- The table has an entry for every machine, and the count is the number of open connections.
pub record IsValid (s : Agents) : Type 0 where
  pub size : length s.guest_agents ≡ max_num_vm
  pub counted : s.count ≡ pos (connected s.guest_agents)

connected-set :
    (agents : List GuestAgent) (i : ℕ) (a b : GuestAgent)
    → get_elem? agents i ≡ some a
    → connected (set agents i b) + (if a.initialized then 1 else 0)
      ≡ connected agents + (if b.initialized then 1 else 0)
connected-set [] i a b e = absurd (cc)
connected-set (x ∷ agents) zero a b e = ground (arith, e)
connected-set (x ∷ agents) (suc i) a b e = ground (arith, connected-set agents i a b e)

connected-≤ : (agents : List GuestAgent) → connected agents ≤ length agents
connected-≤ [] = omega arith
connected-≤ (a ∷ agents) = ground (arith, connected-≤ agents)

connected-lt :
    (agents : List GuestAgent) (i : ℕ) (a : GuestAgent)
    → get_elem? agents i ≡ some a
    → a.initialized ≡ false
    → connected agents < length agents
connected-lt [] i a e h = absurd (cc)
connected-lt (x ∷ agents) zero a e h = ground (arith, connected-≤ agents, e, h)
connected-lt (x ∷ agents) (suc i) a e h = ground (arith, connected-lt agents i a e h)

-- The entry of machine `i` says whether it is connected, and no other entry has changed.
pub record IsSwitched (i : ℕ) (on : Bool) (s s' : Agents) : Type 0 where
  pub entry : (a : GuestAgent) × (get_elem? s'.guest_agents i ≡ some a) × (a.initialized ≡ on)
  pub others : (k : ℕ) → k ≢ i → get_elem? s'.guest_agents k ≡ get_elem? s.guest_agents k

put-IsSwitched :
    (s : Agents) (i : ℕ) (b : GuestAgent) (n : ℤ)
    → i < length s.guest_agents
    → IsSwitched i b.initialized s (record { guest_agents = set s.guest_agents i b; count = n })
put-IsSwitched s i b n lt = record {
  entry = (b, ground (arith, get_elem?-set s.guest_agents i i b lt), refl);
  others = λ k ne. ground (arith, get_elem?-set s.guest_agents i k b lt);
}

put-IsValid :
    (s : Agents) (i : ℕ) (a b : GuestAgent) (n : ℕ)
    → IsValid s
    → get_elem? s.guest_agents i ≡ some a
    → n + (if a.initialized then 1 else 0)
      ≡ connected s.guest_agents + (if b.initialized then 1 else 0)
    → IsValid (record { guest_agents = set s.guest_agents i b; count = pos n })
put-IsValid s i a b n v e h = record {
  size = length-set {0} s.guest_agents i b ∙ v.size;
  counted = ap pos (omega (arith, h, connected-set s.guest_agents i a b e));
}

module _ (kernel : SocketKernel) where
  connect_agent-Connects :
      (s : Agents) (i : ℕ) (a : GuestAgent)
      → IsValid s
      → get_elem? s.guest_agents i ≡ some a
      → a.initialized ≡ false
      → (s' : Agents) × (IsValid s')
        × (((connect_agent kernel s (pos i) a ≡ (pos 0, s')) × (IsSwitched i true s s'))
            ⊎ ((connect_agent kernel s (pos i) a ≡ (minus_one, s'))
                × (IsSwitched i false s s')
                × (ltb_ℤ (connect_to_socket kernel (agent_path (pos i))) (pos 0) ≡ true)))
  unfolding connect_agent put_agent
  connect_agent-Connects s i a v e off =
      elim (Bool-cases (ltb_ℤ (connect_to_socket kernel (agent_path (pos i))) (pos 0))) [
        | inl bad ↦ (
          record s { guest_agents = set s.guest_agents i tried },
          record {
            size = length-set {0} s.guest_agents i tried ∙ v.size;
            counted =
                v.counted ∙ ap pos (ground (arith, off, connected-set s.guest_agents i a tried e));
          },
          inr (
            ground (arith, v.counted, room, bad),
            ground (arith, off, put-IsSwitched s i tried s.count lt),
            bad,
          ),
        )
        | inr good ↦ (
          record {
            guest_agents = set s.guest_agents i open_now;
            count = pos (connected s.guest_agents + 1);
          },
          put-IsValid s i a open_now (connected s.guest_agents + 1) v e (ground (arith, off)),
          inl (
            ground (
              arith,
              v.counted,
              room,
              good,
              ap (λ c. c +ℤ pos 1) v.counted ∙ pos-add (connected s.guest_agents) 1,
            ),
            put-IsSwitched s i open_now (pos (connected s.guest_agents + 1)) lt,
          ),
        )
      ]
    where
      path : Bytes
      path = agent_path (pos i)

      tried : GuestAgent
      tried = record a { socket_path = path }

      open_now : GuestAgent
      open_now = record {
        socket_path = path;
        agent_fd = connect_to_socket kernel path;
        initialized = true;
      }

      lt : i < length s.guest_agents
      lt = get_elem?-lt s.guest_agents i e

      room : connected s.guest_agents < max_num_vm
      room = omega (arith, connected-lt s.guest_agents i a e off, v.size)

  -- For a machine number below `max_num_vm`, and with a table whose count is right,
  -- `guest_agent_init` returns and keeps the count right. It returns 0 with the machine connected, or
  -- -1 with the machine not connected, and then connecting to its socket has failed. No other entry of
  -- the table changes.
  pub guest_agent_init-Connects :
      (s : Agents) (i : ℕ)
      → IsValid s
      → i < max_num_vm
      → (s' : Agents) × (IsValid s')
        × (((guest_agent_init kernel s (pos i) ≡ done (pos 0, s')) × (IsSwitched i true s s'))
            ⊎ ((guest_agent_init kernel s (pos i) ≡ done (minus_one, s'))
                × (IsSwitched i false s s')
                × (ltb_ℤ (connect_to_socket kernel (agent_path (pos i))) (pos 0) ≡ true)))
  unfolding guest_agent_init agent_at
  guest_agent_init-Connects s i v lt =
      let (a, e) = get_elem?-total s.guest_agents i (omega (arith, v.size)) in
      elim (Bool-cases a.initialized) [
        | inl on ↦ (
          s,
          v,
          inl (ground (arith, e, on), record { entry = (a, e, on); others = λ k ne. refl }),
        )
        | inr off ↦
            let (s', v', result) = connect_agent-Connects s i a v e off in
            (
              s',
              v',
              elim result [
                | inl (h, sw) ↦ inl (ground (arith, e, off, h), sw)
                | inr (h, sw, bad) ↦ inr (ground (arith, e, off, h), sw, bad)
              ],
            )
      ]

  -- `guest_agent_init` tests the count and never the machine number: with a number that is negative or
  -- at least `max_num_vm` it reads outside of the table, whatever the table holds.
  pub guest_agent_init-overruns :
      (s : Agents) (vm_id : ℤ)
      → IsValid s
      → (ltb_ℤ vm_id (pos 0) ≡ true) ⊎ (leb_ℤ (pos max_num_vm) vm_id ≡ true)
      → guest_agent_init kernel s vm_id ≡ abort out_of_bounds
  unfolding guest_agent_init agent_at
  guest_agent_init-overruns s (pos i) v h =
      ground (arith, get_elem?-none {0} s.guest_agents i (ground (arith, h, v.size)))
  guest_agent_init-overruns s (negsuc i) v h = refl

-- For a machine number below `max_num_vm`, and with a table whose count is right,
-- `guest_agent_cleanup` returns with the machine not connected, the count right and every other
-- entry of the table as it was.
pub guest_agent_cleanup-Disconnects :
    (s : Agents) (i : ℕ)
    → IsValid s
    → i < max_num_vm
    → (s' : Agents) × (guest_agent_cleanup s (pos i) ≡ done s')
      × (IsValid s')
      × (IsSwitched i false s s')
unfolding guest_agent_cleanup agent_at put_agent
guest_agent_cleanup-Disconnects s i v lt =
    let (a, e) = get_elem?-total s.guest_agents i (omega (arith, v.size)) in
    elim (Bool-cases a.initialized) [
      | inl on ↦
          let n = connected s.guest_agents - 1 in
          let b : GuestAgent = record a { initialized = false } in
          let some_open : 1 ≤ connected s.guest_agents =
            ground (arith, on, connected-set s.guest_agents i a b e) in
          (
            record { guest_agents = set s.guest_agents i b; count = pos n },
            ground (
              arith,
              e,
              on,
              ap (λ c. c -ℤ pos 1) v.counted ∙ pos-sub (connected s.guest_agents) 1 some_open,
            ),
            put-IsValid s i a b n v e (ground (arith, on, some_open)),
            put-IsSwitched s i b (pos n) (omega (arith, v.size)),
          )
      | inr off ↦
          (s, ground (arith, e, off), v, record { entry = (a, e, off); others = λ k ne. refl })
    ]

pub connect_to_socket_nonzero :
    (kernel : SocketKernel) (path : Bytes)
    → kernel.socket ≢ pos 0
    → connect_to_socket kernel path ≢ pos 0
unfolding connect_to_socket
connect_to_socket_nonzero kernel path n =
    if-cases (λ fd. fd ≢ pos 0) (ltb_ℤ kernel.socket (pos 0)) _ _ (λ e. λ z. absurd (cc))
      (λ e.
        if-cases (λ fd. fd ≢ pos 0) (ltb_ℤ (kernel.connect (take 107 path)) (pos 0)) _ _
          (λ e. λ z. absurd (cc)) (λ e. n))

pub connect_to_socket_connects :
    (kernel : SocketKernel) (path : Bytes)
    → ltb_ℤ kernel.socket (pos 0) ≡ false
    → ltb_ℤ (kernel.connect (take 107 path)) (pos 0) ≡ false
    → connect_to_socket kernel path ≡ kernel.socket
unfolding connect_to_socket
connect_to_socket_connects kernel path e f = rw (e, f) refl
