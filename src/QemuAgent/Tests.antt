-- ===== src/QemuAgent/Tests.antt =====
-- A QEMU that takes every command, and one whose answers are too long.
use ramryder.Prelude.{
  none, ◌≡◌, refl, List, [], ◌∷◌, some, ltb, if◌then◌else◌, ℕ, pos, length, ◌^◌, replicate, arith,
  abort, out_of_bounds, true, ◌++◌,
}
use ramryder.Scan.{Bytes, codes}
use ramryder.GuestAgent.{connect_to_socket}
use ramryder.GuestAgent.Connections.{connect_to_socket_connects}
use ramryder.QemuAgent.{
  JsonC, Net, Event, connected, sent, received, HotplugRequest, HotunplugRequest, qmp_capabilities,
  qmp_path, execute, no_bytes, has_return, check_session, negotiate, init_qemu_qmp_session, talk,
  exchange, send_qemu_cmd, qemu_agent_hotplug_memory, qemu_agent_hotunplug_memory,
  object_add_command, device_add_command, object_del_command, device_del_command,
}
use ramryder.QemuAgent.Protocol.{IsScripted}
use ramryder.QemuAgent.Refinement.{
  qemu_agent_hotplug_memory-IsScripted, qemu_agent_hotunplug_memory-IsScripted,
}

-- A value is its text, and every text reads as an answer with an empty object in it.
abbrev pub json : JsonC Bytes
json = record {
  new_string = λ s. s;
  new_int = λ i. [];
  new_int64 = λ i. [];
  new_boolean = λ b. [];
  new_object = [];
  object_add = λ o key v. o ++ (key ++ v);
  to_json_string = λ v. v;
  tokener_parse = λ s. some s;
  object_get_ex = λ v key. some v;
  is_object = λ v. true;
  object_length = λ v. 0;
  object_get = λ v key. none;
  get_int = λ v. pos 0;
  array_elements = λ v. v ∷ [];
}

-- The sockets of a QEMU whose `n`-th event and later ones are answered with 1024 bytes.
abbrev pub net_until : ℕ → Net
net_until n = record {
  sockets = λ h. record { socket = pos 7; connect = λ path. pos 0 };
  send = λ h fd s. pos (length s);
  recv = λ h fd. if ltb (length h) n then codes "ok" else replicate 1024 b'a';
}

abbrev pub short_net : Net
short_net = record (net_until 0) { recv = λ h fd. codes "ok" }

abbrev hotplug : HotplugRequest
hotplug = record {
  dimm_id = codes "dimm0";
  memdev_id = codes "mem0";
  dev_path = codes "/dev/dax0.0";
  size_bytes = 2 ^ 30;
  align_bytes = 2 ^ 21;
  share = true;
  numa_node = pos 0;
}

abbrev hotunplug : HotunplugRequest
hotunplug = record { dimm_id = codes "dimm0"; memdev_id = codes "mem0" }

qemu_agent_hotplug_memory-IsScripted_example :
    IsScripted json
      (pos 1)
      []
      (object_add_command json hotplug ∷ device_add_command json hotplug ∷ [])
      (qemu_agent_hotplug_memory json short_net (pos 1) hotplug [])
qemu_agent_hotplug_memory-IsScripted_example =
    qemu_agent_hotplug_memory-IsScripted json short_net (pos 1) hotplug [] (λ h fd. omega arith)
      (λ h e. ground arith)

qemu_agent_hotunplug_memory-IsScripted_example :
    IsScripted json
      (pos 1)
      []
      (device_del_command json hotunplug ∷ object_del_command json hotunplug ∷ [])
      (qemu_agent_hotunplug_memory json short_net (pos 1) hotunplug [])
qemu_agent_hotunplug_memory-IsScripted_example =
    qemu_agent_hotunplug_memory-IsScripted json short_net (pos 1) hotunplug [] (λ h fd. omega arith)
      (λ h e. ground arith)

abbrev negotiated : List Event
negotiated =
    received (pos 7) (codes "ok")
    ∷ sent (pos 7) (qmp_capabilities json)
    ∷ received (pos 7) (codes "ok")
    ∷ connected (pos 7) (qmp_path (pos 1))
    ∷ []

negotiates :
    init_qemu_qmp_session json (net_until 4) (pos 7) (connected (pos 7) (qmp_path (pos 1)) ∷ [])
    ≡ (pos 0, negotiated)
unfolding init_qemu_qmp_session negotiate check_session has_return no_bytes qmp_capabilities execute
negotiates = refl

connects : connect_to_socket ((net_until 4).sockets []) (qmp_path (pos 1)) ≡ pos 7
connects = connect_to_socket_connects ((net_until 4).sockets []) (qmp_path (pos 1)) refl refl

-- The closing NUL of an answer that fills the buffer goes behind its end.
overruns : send_qemu_cmd json (net_until 4) (pos 1) (codes "quit") [] ≡ abort out_of_bounds
unfolding send_qemu_cmd talk exchange no_bytes
overruns = rw (connects, negotiates) refl
