-- ===== src/ResourceManager/Meminfo.antt =====
-- What the server sends on from a guest agent.
use ramryder.GuestAgent.{GuestAgent}
