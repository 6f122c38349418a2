-- ===== src/QemuAgent.antt =====
-- src/qemu_agent.c: the QMP commands that plug memory into a machine and take it out again. The
-- library json-c is a parameter, and so are the sockets, which may answer by all that has happened
-- so far. The history of a run is a list of events, the latest first.
pub mod Protocol
pub mod Refinement
pub mod Tests
use ramryder.Prelude.{
  ℕ, zero, suc, ◌+◌, ◌-◌, ◌^◌, Bool, true, false, List, [], ◌∷◌, ◌++◌, Option, none, some, ℤ, pos,
  negsuc, minus_one, ltb_ℤ, ltb, ◌==◌, ◌&&◌, if◌then◌else◌, take, length, Exec, done, abort, ◌>>=◌,
  ◌>>◌, stop_if, out_of_bounds,
}
use ramryder.Scan.{Bytes, codes, until_nul}
use ramryder.Decimal.{show_int}
use ramryder.GuestAgent.{SocketKernel, connect_to_socket}

-- What the code uses of json-c, for its type of values.
pub record JsonC (Value : Type 0) : Type 0 where
  pub new_string : Bytes → Value
  pub new_int : ℤ → Value
  pub new_int64 : ℤ → Value
  pub new_boolean : Bool → Value
  pub new_object : Value
  pub object_add : Value → Bytes → Value → Value
  pub to_json_string : Value → Bytes
  pub tokener_parse : Bytes → Option Value
  pub object_get_ex : Value → Bytes → Option Value
  pub is_object : Value → Bool
  pub object_length : Value → ℕ
  pub object_get : Value → Bytes → Option Value
  pub get_int : Option Value → ℤ
  pub array_elements : Value → List Value

pub data Event : Type 0 where
  connected : ℤ → Bytes → Event
  sent : ℤ → Bytes → Event
  received : ℤ → Bytes → Event
  closed : ℤ → Event

-- The sockets: what `socket` and `connect` return, what `send` returns, and the bytes that are there
-- for the next `recv`, none of them where it fails.
pub record Net : Type 0 where
  pub sockets : List Event → SocketKernel
  pub send : List Event → ℤ → Bytes → ℤ
  pub recv : List Event → ℤ → Bytes

-- `struct hotplug_request` and `struct hotunplug_request`
pub record HotplugRequest : Type 0 where
  pub dimm_id : Bytes
  pub memdev_id : Bytes
  pub dev_path : Bytes
  pub size_bytes : ℕ
  pub align_bytes : ℕ
  pub share : Bool
  pub numa_node : ℤ

pub record HotunplugRequest : Type 0 where
  pub dimm_id : Bytes
  pub memdev_id : Bytes

-- A `uint64_t` that is passed on as an `int64_t`.
pub to_int64 : ℕ → ℤ
to_int64 n = if ltb n (2 ^ 63) then pos n else negsuc (2 ^ 64 - n - 1)

pub no_bytes : Bytes → Bool
no_bytes [] = true
no_bytes (c ∷ s) = false

pub qmp_path : ℤ → Bytes
qmp_path vm_id = take 255 (codes "/var/run/qmp-sock-" ++ show_int vm_id)

module _ {Value : Type 0} (json : JsonC Value) where
  open json use {
    new_string, new_int, new_int64, new_boolean, new_object, object_add, to_json_string,
    tokener_parse, object_get_ex, is_object, object_length,
  }

  -- {"execute": name}
  pub execute : Bytes → Value
  execute name = object_add new_object (codes "execute") (new_string name)

  -- {"execute": name, "arguments": arguments}
  pub execute_with : Bytes → Value → Value
  execute_with name arguments = object_add (execute name) (codes "arguments") arguments

  pub qmp_capabilities : Bytes
  qmp_capabilities = to_json_string (execute (codes "qmp_capabilities"))

  -- The test of the answer in `init_qemu_qmp_session`.
  pub has_return : Bytes → Bool
  has_return response = elim (tokener_parse (until_nul response)) [
    | none ↦ false
    | some v ↦ elim (object_get_ex v (codes "return")) [ none ↦ false | some r ↦ true ]
  ]

  pub is_response_success : Bytes → Bool
  is_response_success response = elim (tokener_parse (until_nul response)) [
    | none ↦ false
    | some v ↦ elim (object_get_ex v (codes "return")) [
      | none ↦ false
      | some r ↦ is_object r && object_length r == 0
    ]
  ]

  pub object_add_command : HotplugRequest → Bytes
  object_add_command request =
      let a = object_add new_object (codes "qom-type") (new_string (codes "memory-backend-file")) in
      let a = object_add a (codes "id") (new_string request.memdev_id) in
      let a = object_add a (codes "mem-path") (new_string request.dev_path) in
      let a = object_add a (codes "size") (new_int64 (to_int64 request.size_bytes)) in
      let a = object_add a (codes "share") (new_boolean request.share) in
      let a = object_add a (codes "align") (new_int64 (to_int64 request.align_bytes)) in
      to_json_string (execute_with (codes "object-add") a)

  pub object_del_command : HotunplugRequest → Bytes
  object_del_command request = to_json_string (
      execute_with (codes "object-del")
        (object_add new_object (codes "id") (new_string request.memdev_id)))

  pub device_add_command : HotplugRequest → Bytes
  device_add_command request =
      let a = object_add new_object (codes "driver") (new_string (codes "pc-dimm")) in
      let a = object_add a (codes "id") (new_string request.dimm_id) in
      let a = object_add a (codes "memdev") (new_string request.memdev_id) in
      let a = object_add a (codes "node") (new_int request.numa_node) in
      to_json_string (execute_with (codes "device_add") a)

  pub device_del_command : HotunplugRequest → Bytes
  device_del_command request = to_json_string (
      execute_with (codes "device_del")
        (object_add new_object (codes "id") (new_string request.dimm_id)))

  module _ (net : Net) where
    -- The end of `init_qemu_qmp_session`, on the answer to the command.
    pub check_session : ℤ → List Event → Bytes → ℤ × List Event
    check_session fd h response =
        (if has_return response then pos 0 else minus_one, received fd response ∷ h)

    -- The part of it behind the greeting.
    pub negotiate : ℤ → List Event → ℤ × List Event
    negotiate fd h =
        let ret = net.send h fd qmp_capabilities in
        let h' = sent fd qmp_capabilities ∷ h in
        let response = take 1023 (net.recv h' fd) in
        if ltb_ℤ ret (pos 0)
        then (minus_one, h')
        else if no_bytes response
        then (minus_one, received fd [] ∷ h')
        else check_session fd h' response

    pub init_qemu_qmp_session : ℤ → List Event → ℤ × List Event
    init_qemu_qmp_session fd h =
        let greeting = take 1023 (net.recv h fd) in
        if no_bytes greeting
        then (minus_one, received fd [] ∷ h)
        else negotiate fd (received fd greeting ∷ h)

    -- The part of `send_qemu_cmd` behind the handshake, up to the closing of the socket; `none` stands
    -- for `goto fail`. A response that fills the buffer has its NUL written behind the end.
    pub exchange : ℤ → Bytes → List Event → Exec (Option Bytes × List Event)
    exchange fd command h =
        let ret = net.send h fd command in
        let h' = sent fd command ∷ h in
        let response = take 1024 (net.recv h' fd) in
        if ltb_ℤ ret (pos 0)
        then done (none, h')
        else if no_bytes response
        then done (none, received fd [] ∷ h')
        else if length response == 1024
        then abort out_of_bounds
        else done (some response, received fd response ∷ h')

    pub talk : ℤ → Bytes → List Event → Exec (Option Bytes × List Event)
    talk fd command h =
        let session = init_qemu_qmp_session fd h in
        if ltb_ℤ session.0 (pos 0) then done (none, session.1) else exchange fd command session.1

    -- The two ways out: the socket is closed, on a failure only if its number is above 0.
    pub hang_up : ℤ → Option Bytes × List Event → Option Bytes × List Event
    hang_up fd (none, h) = (none, if ltb_ℤ (pos 0) fd then closed fd ∷ h else h)
    hang_up fd (some response, h) = (some response, closed fd ∷ h)

    -- `none` is the return code -1.
    pub send_qemu_cmd : ℤ → Bytes → List Event → Exec (Option Bytes × List Event)
    send_qemu_cmd vm_id command h =
        let path = qmp_path vm_id in
        let fd = connect_to_socket (net.sockets h) path in
        let h' = connected fd path ∷ h in
        if ltb_ℤ fd (pos 0)
        then done (none, h')
        else talk fd command h' >>= λ r. done (hang_up fd r)

    -- The return code of the four functions that send a command.
    pub answer_code : Option Bytes → ℤ
    answer_code none = minus_one
    answer_code (some response) = if is_response_success response then pos 0 else minus_one

    -- What these four functions have in common.
    pub run_command : ℤ → Bytes → List Event → Exec (ℤ × List Event)
    run_command vm_id command h = send_qemu_cmd vm_id command h >>= λ r. done (answer_code r.0, r.1)

    pub qemu_agent_create_object : ℤ → HotplugRequest → List Event → Exec (ℤ × List Event)
    qemu_agent_create_object vm_id request = run_command vm_id (object_add_command request)

    pub qemu_agent_free_object : ℤ → HotunplugRequest → List Event → Exec (ℤ × List Event)
    qemu_agent_free_object vm_id request = run_command vm_id (object_del_command request)

    pub qemu_agent_add_device : ℤ → HotplugRequest → List Event → Exec (ℤ × List Event)
    qemu_agent_add_device vm_id request = run_command vm_id (device_add_command request)

    pub qemu_agent_del_device : ℤ → HotunplugRequest → List Event → Exec (ℤ × List Event)
    qemu_agent_del_device vm_id request = run_command vm_id (device_del_command request)

    -- A step that is taken only if the one before it returned no error.
    pub and_then : ℤ × List Event → (List Event → Exec (ℤ × List Event)) → Exec (ℤ × List Event)
    and_then (ret, h) next =
        if ltb_ℤ ret (pos 0)
        then done (minus_one, h)
        else next h >>= λ r. done (if ltb_ℤ r.0 (pos 0) then minus_one else pos 0, r.1)

    pub qemu_agent_hotplug_memory : ℤ → HotplugRequest → List Event → Exec (ℤ × List Event)
    qemu_agent_hotplug_memory vm_id request h = qemu_agent_create_object vm_id request h >>= λ r.
        and_then r (qemu_agent_add_device vm_id request)

    pub qemu_agent_hotunplug_memory : ℤ → HotunplugRequest → List Event → Exec (ℤ × List Event)
    qemu_agent_hotunplug_memory vm_id request h = qemu_agent_del_device vm_id request h >>= λ r.
        and_then r (qemu_agent_free_object vm_id request)
