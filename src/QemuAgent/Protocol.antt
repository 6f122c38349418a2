-- ===== src/QemuAgent/Protocol.antt =====
-- The protocol of QEMU's monitor as a relation on histories, for a list of commands that are to be
-- run one after another, each in a connection of its own.
use ramryder.Prelude.{
  Exec, done, minus_one, ◌⊎◌, ◌≡◌, Bool, true, false, List, ◌∷◌, [], ℤ, pos, ltb_ℤ,
}
use ramryder.Scan.{Bytes}
use ramryder.QemuAgent.{
  JsonC, Event, connected, sent, received, closed, no_bytes, qmp_path, qmp_capabilities, has_return,
  is_response_success,
}

-- How far an open connection is.
pub data Stage : Type 0 where
  fresh greeted negotiating ready asked answered failed : Stage

-- The client has just sent something.
abbrev pub sends : Stage → Bool
sends fresh = false
sends greeted = false
sends negotiating = true
sends ready = false
sends asked = true
sends answered = false
sends failed = false

-- The client expects to receive something.
abbrev pub awaits : Stage → Bool
awaits fresh = true
awaits greeted = false
awaits negotiating = true
awaits ready = false
awaits asked = true
awaits answered = false
awaits failed = false

-- With the commands that QEMU has not yet acknowledged.
pub data Phase : Type 0 where
  between : List Bytes → Phase
  open_at : Stage → ℤ → List Bytes → Phase
  stopped : List Bytes → Phase

-- The histories that a client may leave behind, from the history `start` on.
pub data Trace {Value : Type 0} (json : JsonC Value) (vm_id : ℤ) (start : List Event)
    (script : List Bytes) : List Event → Phase → Type 0 where
  begins : Trace json vm_id start script start (between script)
  -- A connection is made for a command that is left.
  refuses :
      {h : List Event} {left : List Bytes} {command : Bytes} (fd : ℤ)
      → ltb_ℤ fd (pos 0) ≡ true
      → Trace json vm_id start script h (between (command ∷ left))
      → Trace json vm_id start script (connected fd (qmp_path vm_id) ∷ h) (stopped (command ∷ left))
  connects :
      {h : List Event} {left : List Bytes} {command : Bytes} (fd : ℤ)
      → ltb_ℤ fd (pos 0) ≡ false
      → Trace json vm_id start script h (between (command ∷ left))
      → Trace json vm_id start script
          (connected fd (qmp_path vm_id) ∷ h)
          (open_at fresh fd (command ∷ left))
  greets :
      {h : List Event} {left : List Bytes} {fd : ℤ} (greeting : Bytes)
      → no_bytes greeting ≡ false
      → Trace json vm_id start script h (open_at fresh fd left)
      → Trace json vm_id start script (received fd greeting ∷ h) (open_at greeted fd left)
  negotiates :
      {h : List Event} {left : List Bytes} {fd : ℤ}
      → Trace json vm_id start script h (open_at greeted fd left)
      → Trace json vm_id start script
          (sent fd (qmp_capabilities json) ∷ h)
          (open_at negotiating fd left)
  accepts :
      {h : List Event} {left : List Bytes} {fd : ℤ} (response : Bytes)
      → no_bytes response ≡ false
      → has_return json response ≡ true
      → Trace json vm_id start script h (open_at negotiating fd left)
      → Trace json vm_id start script (received fd response ∷ h) (open_at ready fd left)
  declines :
      {h : List Event} {left : List Bytes} {fd : ℤ} (response : Bytes)
      → has_return json response ≡ false
      → Trace json vm_id start script h (open_at negotiating fd left)
      → Trace json vm_id start script (received fd response ∷ h) (open_at failed fd left)
  asks :
      {h : List Event} {left : List Bytes} {fd : ℤ} {command : Bytes}
      → Trace json vm_id start script h (open_at ready fd (command ∷ left))
      → Trace json vm_id start script (sent fd command ∷ h) (open_at asked fd (command ∷ left))
  acknowledges :
      {h : List Event} {left : List Bytes} {fd : ℤ} {command : Bytes} (response : Bytes)
      → no_bytes response ≡ false
      → is_response_success json response ≡ true
      → Trace json vm_id start script h (open_at asked fd (command ∷ left))
      → Trace json vm_id start script (received fd response ∷ h) (open_at answered fd left)
  rejects :
      {h : List Event} {left : List Bytes} {fd : ℤ} (response : Bytes)
      → is_response_success json response ≡ false
      → Trace json vm_id start script h (open_at asked fd left)
      → Trace json vm_id start script (received fd response ∷ h) (open_at failed fd left)
  -- Nothing is there to be received, where an answer is expected.
  silent :
      {h : List Event} {left : List Bytes} {stage : Stage} {fd : ℤ}
      → awaits stage ≡ true
      → Trace json vm_id start script h (open_at stage fd left)
      → Trace json vm_id start script (received fd [] ∷ h) (open_at failed fd left)
  -- What was just to be sent has not been.
  unsent :
      {h : List Event} {left : List Bytes} {stage : Stage} {fd : ℤ}
      → sends stage ≡ true
      → Trace json vm_id start script h (open_at stage fd left)
      → Trace json vm_id start script h (open_at failed fd left)
  ends :
      {h : List Event} {left : List Bytes} {fd : ℤ}
      → Trace json vm_id start script h (open_at answered fd left)
      → Trace json vm_id start script (closed fd ∷ h) (between left)
  breaks_off :
      {h : List Event} {left : List Bytes} {fd : ℤ}
      → Trace json vm_id start script h (open_at failed fd left)
      → Trace json vm_id start script (closed fd ∷ h) (stopped left)

-- The run ends, with 0 when QEMU has acknowledged the commands of the script, each in its turn, and
-- with -1 when some command of it is left. Its history follows the protocol, and no connection is left open.
abbrev pub IsScripted :
    {Value : Type 0} → JsonC Value → ℤ → List Event → List Bytes → Exec (ℤ × List Event) → Type 0
IsScripted json vm_id start script run =
    (h' : List Event) × (((run ≡ done (pos 0, h')) × Trace json vm_id start script h' (between []))
      ⊎ ((command : Bytes) × (left : List Bytes) × (run ≡ done (minus_one, h'))
          × Trace json vm_id start script h' (stopped (command ∷ left))))
