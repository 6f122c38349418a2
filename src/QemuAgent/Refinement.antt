-- ===== src/QemuAgent/Refinement.antt =====
-- What the functions of the agent do follows the protocol.
use ramryder.Prelude.{
  ◌≡◌, ◌≢◌, ◌⊎◌, ◌<◌, refl, true, false, Bool, List, [], ◌∷◌, Option, none, some, ℕ, zero, suc, ◌≤◌,
  ℤ, pos, negsuc, minus_one, ltb_ℤ, arith, take, length, ◌>>=◌, Exec, done, inl, inr, Bool-cases,
  if-cases, ◌==◌, length-take, if◌then◌else◌,
}
use ramryder.Scan.{Bytes}
use ramryder.GuestAgent.{connect_to_socket}
use ramryder.GuestAgent.Connections.{connect_to_socket_nonzero}
use ramryder.QemuAgent.{
  JsonC, Net, Event, sent, received, closed, no_bytes, qmp_path, qmp_capabilities, has_return,
  is_response_success, check_session, negotiate, init_qemu_qmp_session, exchange, talk, hang_up,
  send_qemu_cmd, answer_code, run_command, and_then, HotplugRequest, HotunplugRequest,
  object_add_command, object_del_command, device_add_command, device_del_command,
  qemu_agent_create_object, qemu_agent_free_object, qemu_agent_add_device, qemu_agent_del_device,
  qemu_agent_hotplug_memory, qemu_agent_hotunplug_memory,
}
use ramryder.QemuAgent.Protocol.{
  Trace, IsScripted, begins, Phase, between, open_at, stopped, fresh, greeted, negotiating, ready,
  asked, answered, failed, refuses, connects, greets, negotiates, accepts, declines, asks,
  acknowledges, rejects, silent, unsent, ends, breaks_off,
}

not_full : (n m : ℕ) → n ≤ m → m < 1024 → (n == 1024) ≡ false
not_full n m h l = ground arith

not_zero : (n : ℤ) → ltb_ℤ n (pos 0) ≡ false → n ≢ pos 0 → ltb_ℤ (pos 0) n ≡ true
not_zero (pos zero) e n = absurd (n refl)
not_zero (pos (suc i)) e n = ground arith
not_zero (negsuc i) e n = absurd (ground (arith, e))

module _ {Value : Type 0} (json : JsonC Value) (net : Net) (vm_id : ℤ) (start : List Event)
    (script : List Bytes) where
  abbrev At : List Event → Phase → Type 0
  At = Trace json vm_id start script

  -- The handshake ends in a session, or in a connection that is to be closed.
  abbrev Negotiated : ℤ → List Bytes → ℤ × List Event → Type 0
  Negotiated fd left r =
      ((r.0 ≡ pos 0) × At r.1 (open_at ready fd left))
      ⊎ ((r.0 ≡ minus_one) × At r.1 (open_at failed fd left))

  check_session-Negotiated :
      (fd : ℤ) (left : List Bytes) (h : List Event) (response : Bytes)
      → no_bytes response ≡ false
      → At h (open_at negotiating fd left)
      → Negotiated fd left (check_session json net fd h response)
  unfolding check_session
  check_session-Negotiated fd left h response some_bytes t =
      elim (Bool-cases (has_return json response)) [
        | inl e ↦ inl (ground (arith, e), accepts response some_bytes e t)
        | inr e ↦ inr (ground (arith, e), declines response e t)
      ]

  negotiate-Negotiated :
      (fd : ℤ) (left : List Bytes) (h : List Event)
      → At h (open_at greeted fd left)
      → Negotiated fd left (negotiate json net fd h)
  unfolding negotiate
  negotiate-Negotiated fd left h t =
      let h' = sent fd (qmp_capabilities json) ∷ h in
      let response = take 1023 (net.recv h' fd) in
      if-cases (Negotiated fd left) (ltb_ℤ (net.send h fd (qmp_capabilities json)) (pos 0)) _ _
        (λ e. inr (refl, unsent refl (negotiates t)))
        (λ e.
          if-cases (Negotiated fd left) (no_bytes response) _ _
            (λ e. inr (refl, silent refl (negotiates t)))
            (λ e. check_session-Negotiated fd left h' response e (negotiates t)))

  init_qemu_qmp_session-Negotiated :
      (fd : ℤ) (left : List Bytes) (h : List Event)
      → At h (open_at fresh fd left)
      → Negotiated fd left (init_qemu_qmp_session json net fd h)
  unfolding init_qemu_qmp_session
  init_qemu_qmp_session-Negotiated fd left h t =
      let greeting = take 1023 (net.recv h fd) in
      if-cases (Negotiated fd left) (no_bytes greeting) _ _ (λ e. inr (refl, silent refl t))
        (λ e. negotiate-Negotiated fd left _ (greets greeting e t))

  -- The outcome of the exchange, while the socket is still open.
  abbrev heard : ℤ → Bytes → List Bytes → Bool → Phase
  heard fd command left success =
      if success then open_at answered fd left else open_at failed fd (command ∷ left)

  abbrev Exchanged : ℤ → Bytes → List Bytes → Exec (Option Bytes × List Event) → Type 0
  Exchanged fd command left run =
      (h' : List Event) × (((run ≡ done (none, h')) × At h' (open_at failed fd (command ∷ left)))
        ⊎ ((response : Bytes) × (run ≡ done (some response, h'))
            × At h' (heard fd command left (is_response_success json response))))

  heard-At :
      (fd : ℤ) (command : Bytes) (left : List Bytes) (h : List Event) (response : Bytes)
      → no_bytes response ≡ false
      → At h (open_at asked fd (command ∷ left))
      → At (received fd response ∷ h) (heard fd command left (is_response_success json response))
  heard-At fd command left h response some_bytes t =
      if-cases (At (received fd response ∷ h)) (is_response_success json response) _ _
        (λ e. acknowledges response some_bytes e t) (λ e. rejects response e t)

  module _ (short : (h : List Event) (fd : ℤ) → length (net.recv h fd) < 1024) where
    exchange-Exchanged :
        (fd : ℤ) (command : Bytes) (left : List Bytes) (h : List Event)
        → At h (open_at ready fd (command ∷ left))
        → Exchanged fd command left (exchange json net fd command h)
    unfolding exchange
    exchange-Exchanged fd command left h t =
        let h' = sent fd command ∷ h in
        let response = take 1024 (net.recv h' fd) in
        if-cases (Exchanged fd command left) (ltb_ℤ (net.send h fd command) (pos 0)) _ _
          (λ e. (_, inl (refl, unsent refl (asks t))))
          (λ e.
            if-cases (Exchanged fd command left) (no_bytes response) _ _
              (λ e. (_, inl (refl, silent refl (asks t))))
              (λ some_bytes.
                if-cases (Exchanged fd command left) (length response == 1024) _ _
                  (λ e.
                    let unfilled = not_full _ _ (length-take 1024 (net.recv h' fd)) (short h' fd) in
                    absurd (cc))
                  (λ e. (
                    _,
                    inr (response, refl, heard-At fd command left h' response some_bytes (asks t)),
                  ))))

    talk-Exchanged :
        (fd : ℤ) (command : Bytes) (left : List Bytes) (h : List Event)
        → At h (open_at fresh fd (command ∷ left))
        → Exchanged fd command left (talk json net fd command h)
    unfolding talk
    talk-Exchanged fd command left h t =
        let session = init_qemu_qmp_session json net fd h in
        let agreed = init_qemu_qmp_session-Negotiated fd (command ∷ left) h t in
        if-cases (Exchanged fd command left) (ltb_ℤ session.0 (pos 0)) _ _
          (λ e. elim agreed [
            | inl (e', t') ↦ absurd (ground (arith, e, e'))
            | inr (e', t') ↦ (session.1, inl (refl, t'))
          ])
          (λ e. elim agreed [
            | inl (e', t') ↦ exchange-Exchanged fd command left session.1 t'
            | inr (e', t') ↦ absurd (ground (arith, e, e'))
          ])

    -- How a command ends: QEMU has acknowledged it, or the client has stopped.
    abbrev Finished : Bytes → List Bytes → Exec (ℤ × List Event) → Type 0
    Finished command left run =
        (h' : List Event) × (((run ≡ done (pos 0, h')) × At h' (between left))
          ⊎ ((run ≡ done (minus_one, h')) × At h' (stopped (command ∷ left))))

    closed-Finished :
        (fd : ℤ) (command : Bytes) (left : List Bytes) (h : List Event) (success : Bool)
        → At h (heard fd command left success)
        → Finished command left (done (if success then pos 0 else minus_one, closed fd ∷ h))
    closed-Finished fd command left h true t = (_, inl (refl, ends t))
    closed-Finished fd command left h false t = (_, inr (refl, breaks_off t))

    talked-Finished :
        (fd : ℤ) (command : Bytes) (left : List Bytes) (run : Exec (Option Bytes × List Event))
        → ltb_ℤ fd (pos 0) ≡ false
        → fd ≢ pos 0
        → Exchanged fd command left run
        → Finished command left (
            run
            >>= (λ r. done (hang_up json net fd r))
            >>= (λ r. done (answer_code json net r.0, r.1)))
    unfolding hang_up answer_code
    talked-Finished fd command left run e n (h, inl (over, t)) =
        rw (over, not_zero fd e n) (_, inr (refl, breaks_off t))
    talked-Finished fd command left run e n (h, inr (response, over, t)) =
        rw over (closed-Finished fd command left h (is_response_success json response) t)

    module _ (positive : (h : List Event) → (net.sockets h).socket ≢ pos 0) where
      run_command-Finished :
          (command : Bytes) (left : List Bytes) (h : List Event)
          → At h (between (command ∷ left))
          → Finished command left (run_command json net vm_id command h)
      unfolding run_command send_qemu_cmd answer_code
      run_command-Finished command left h t =
          let path = qmp_path vm_id in
          let fd = connect_to_socket (net.sockets h) path in
          if-cases
            (λ (run : Exec (Option Bytes × List Event)).
              Finished command left (run >>= λ r. done (answer_code json net r.0, r.1)))
            (ltb_ℤ fd (pos 0)) _ _ (λ e. (_, inr (refl, refuses fd e t)))
            (λ e.
              talked-Finished fd command left _ e (connect_to_socket_nonzero _ path (positive h))
                (talk-Exchanged fd command left _ (connects fd e t)))

      -- Two commands, the second of them only if QEMU has acknowledged the first.
      abbrev Scripted : Exec (ℤ × List Event) → Type 0
      Scripted = IsScripted json vm_id start script

      last-Scripted :
          (second : Bytes) (run rest : Exec (ℤ × List Event)) (h : List Event)
          → run ≡ done (pos 0, h)
          → rest ≡ run_command json net vm_id second h
          → Finished second [] rest
          → Scripted (run >>= (λ r. and_then json net r (run_command json net vm_id second)))
      unfolding and_then
      last-Scripted second run rest h e over (h', inl (e', t)) =
          (h', inl (rw (e, ← over, e') refl, t))
      last-Scripted second run rest h e over (h', inr (e', t)) =
          (h', inr (_, _, rw (e, ← over, e') refl, t))

      first-Scripted :
          (first second : Bytes) (run : Exec (ℤ × List Event))
          → Finished first (second ∷ []) run
          → Scripted (run >>= (λ r. and_then json net r (run_command json net vm_id second)))
      unfolding and_then
      first-Scripted first second run (h, inl (e, t)) =
          last-Scripted second run _ h e refl (run_command-Finished second [] h t)
      first-Scripted first second run (h, inr (e, t)) = (h, inr (_, _, rw e refl, t))

-- Where QEMU's answers have less than 1024 bytes and no socket is numbered 0, plugging memory into a
-- machine ends, and its history follows the protocol of the monitor: a session is negotiated in front
-- of either command, `device_add` is sent only after QEMU has acknowledged `object-add`, every
-- connection is closed again, and the return code is 0 just when both are acknowledged, else -1.
pub qemu_agent_hotplug_memory-IsScripted :
    {Value : Type 0} (json : JsonC Value) (net : Net) (vm_id : ℤ) (request : HotplugRequest)
    (h : List Event)
    → ((h : List Event) (fd : ℤ) → length (net.recv h fd) < 1024)
    → ((h : List Event) → (net.sockets h).socket ≢ pos 0)
    → IsScripted json vm_id h
        (object_add_command json request ∷ device_add_command json request ∷ [])
        (qemu_agent_hotplug_memory json net vm_id request h)
unfolding qemu_agent_hotplug_memory qemu_agent_create_object qemu_agent_add_device
qemu_agent_hotplug_memory-IsScripted json net vm_id request h short positive =
    let first = object_add_command json request in
    let second = device_add_command json request in
    first-Scripted json net vm_id h (first ∷ second ∷ []) short positive first second _ (
      run_command-Finished json net vm_id h (first ∷ second ∷ []) short positive first (second ∷ [])
        h begins)

-- Where QEMU's answers have less than 1024 bytes and no socket is numbered 0, taking memory out of a
-- machine ends, and its history follows the protocol of the monitor: a session is negotiated in front
-- of either command, `object-del` is sent only after QEMU has acknowledged `device_del`, every
-- connection is closed again, and the return code is 0 just when both are acknowledged, else -1.
pub qemu_agent_hotunplug_memory-IsScripted :
    {Value : Type 0} (json : JsonC Value) (net : Net) (vm_id : ℤ) (request : HotunplugRequest)
    (h : List Event)
    → ((h : List Event) (fd : ℤ) → length (net.recv h fd) < 1024)
    → ((h : List Event) → (net.sockets h).socket ≢ pos 0)
    → IsScripted json vm_id h
        (device_del_command json request ∷ object_del_command json request ∷ [])
        (qemu_agent_hotunplug_memory json net vm_id request h)
unfolding qemu_agent_hotunplug_memory qemu_agent_free_object qemu_agent_del_device
qemu_agent_hotunplug_memory-IsScripted json net vm_id request h short positive =
    let first = device_del_command json request in
    let second = object_del_command json request in
    first-Scripted json net vm_id h (first ∷ second ∷ []) short positive first second _ (
      run_command-Finished json net vm_id h (first ∷ second ∷ []) short positive first (second ∷ [])
        h begins)
