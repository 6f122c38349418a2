-- ===== src/GuestAgent/Tests.antt =====
-- The table of agents at the start of the program, and the theorems there.
use ramryder.Prelude.{
  ◌≡◌, ◌⊎◌, refl, true, false, arith, pos, minus_one, ltb_ℤ, done, abort, out_of_bounds, inr,
}
use ramryder.GuestAgent.{
  Agents, SocketKernel, no_agents, agent_path, connect_to_socket, guest_agent_init,
}
use ramryder.GuestAgent.Connections.{
  IsValid, IsSwitched, guest_agent_init-Connects, guest_agent_init-overruns,
}

no_agents-IsValid : IsValid no_agents
no_agents-IsValid = record { size = refl; counted = refl }

-- Every call of this kernel succeeds.
abbrev willing : SocketKernel
willing = record { socket = pos 7; connect = λ path. pos 0 }

guest_agent_init-Connects_example :
    (s' : Agents) × (IsValid s')
    × (((guest_agent_init willing no_agents (pos 3) ≡ done (pos 0, s'))
          × (IsSwitched 3 true no_agents s'))
        ⊎ ((guest_agent_init willing no_agents (pos 3) ≡ done (minus_one, s'))
            × (IsSwitched 3 false no_agents s')
            × (ltb_ℤ (connect_to_socket willing (agent_path (pos 3))) (pos 0) ≡ true)))
guest_agent_init-Connects_example =
    guest_agent_init-Connects willing no_agents 3 no_agents-IsValid (omega arith)

guest_agent_init-overruns_example :
    guest_agent_init willing no_agents (pos 16) ≡ abort out_of_bounds
guest_agent_init-overruns_example =
    guest_agent_init-overruns willing no_agents (pos 16) no_agents-IsValid (inr refl)
