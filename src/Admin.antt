-- ===== src/Admin.antt =====
-- `handle_admin_packet` of SteamLinkGeneric.cpp, a function for each branch of its chain of tests.
-- `delay(70)` changes no state and is left out.
pub mod Packet
pub mod Config
pub mod Refusals
pub mod Status
pub mod Transmit
pub mod Data
pub mod Bridged
use steamlink_arduino.Prelude.{
  ℕ, ◌+◌, ◌-◌, false, List, [], ◌∷◌, if◌then◌else◌, ◌==◌, not, take, drop,
}
use steamlink_arduino.Wire.{
  u8, as_control_header, as_node_cfg, node_config_version, sizeof_control_header, sizeof_node_cfg,
  is_data,
}
use steamlink_arduino.Wire.Op
use steamlink_arduino.Wire.Ack
use steamlink_arduino.System.{
  Ref, Env, resets, M, ◌>>=◌, ◌>>◌, pure, this, modify, deliver, free, malloc, read_byte, memcpy,
}
use steamlink_arduino.Send.{Handler, warnpkt, generic_send, send_data, send_as, send_ss, send_td}

-- `packet_length - sizeof(control_header)` as a `uint8_t`
unfoldable pub payload_length_of : ℕ → ℕ
payload_length_of packet_length = u8 (packet_length + 256 - sizeof_control_header)

-- `memcpy(packet, payload, payload_length)`: the payload moves to the start of the buffer.
unfoldable pub move_payload : List ℕ → ℕ → M (List ℕ)
move_payload packet packet_length =
    memcpy packet 0 (drop sizeof_control_header packet) (payload_length_of packet_length)

-- the string "OK"
abbrev pub status_ok : List ℕ
status_ok = 79 ∷ 75 ∷ 0 ∷ []

module _ (env : Env) (handler : Handler) where
  unfoldable pub handle_dn : Ref → List ℕ → ℕ → M (Unit {0})
  handle_dn self packet packet_length = do
    moved ← move_payload packet packet_length
    sent ← send_as env handler self Ack.success
    n ← this self
    if n.on_receive then deliver self (take (payload_length_of packet_length) moved) else pure tt

  unfoldable pub handle_bn : Ref → List ℕ → ℕ → M (Unit {0})
  handle_bn self packet packet_length = do
    moved ← move_payload packet packet_length
    last ← read_byte moved 4
    sent ←
        generic_send env handler self moved (payload_length_of packet_length)
          (as_control_header moved).slid
    pure tt

  unfoldable pub handle_gs : Ref → M (Unit {0})
  handle_gs self = do sent ← send_ss env handler self status_ok; pure tt

  unfoldable pub handle_td : Ref → List ℕ → ℕ → M (Unit {0})
  handle_td self packet packet_length = do
    sent ← send_as env handler self Ack.success
    moved ← move_payload packet packet_length
    queued ← send_td env self moved (payload_length_of packet_length)
    pure tt

  -- the inner test of the `SC` branch: the size of a payload of the right version
  unfoldable pub set_config : Ref → List ℕ → ℕ → M (Unit {0})
  set_config self moved payload_length =
      if not (payload_length == sizeof_node_cfg)
      then (do sent ← send_as env handler self Ack.size_err; pure tt)
      else (do
        fresh ← malloc env sizeof_node_cfg
        config ← memcpy fresh 0 moved payload_length
        modify self
            (λ n. record n { config = as_node_cfg config; slid = (as_node_cfg config).slid })
        sent ← send_as env handler self Ack.success
        again ← send_as env handler self Ack.success
        pure tt)

  -- the `SC` branch while an acknowledgement is awaited
  unfoldable pub accept_config : Ref → List ℕ → ℕ → M (Unit {0})
  accept_config self packet packet_length = do
    modify self (λ n. record n { waiting_for_ack = false })
    moved ← move_payload packet packet_length
    vers ← read_byte moved 0
    if vers == node_config_version
        then set_config self moved (payload_length_of packet_length)
        else (do sent ← send_as env handler self Ack.version_err; pure tt)

  unfoldable pub handle_sc : Ref → List ℕ → ℕ → M (Unit {0})
  handle_sc self packet packet_length = do
    n ← this self
    if n.waiting_for_ack
        then accept_config self packet packet_length
        else (do sent ← send_as env handler self Ack.unexpected; pure tt)
    free

  -- `while(1)`
  unfoldable pub handle_bc : M (Unit {0})
  handle_bc = do free; λ s. resets

  unfoldable pub handle_an : Ref → M (Unit {0})
  handle_an self = do free; modify self (λ n. record n { waiting_for_ack = false })

  unfoldable pub handle_data : Ref → List ℕ → ℕ → M (Unit {0})
  handle_data self packet packet_length = do
    sent ← send_data env handler self Op.bs packet packet_length
    pure tt

  -- the chain of tests, on the op code
  unfoldable pub dispatch : ℕ → Ref → List ℕ → ℕ → M (Unit {0})
  dispatch op self packet packet_length =
      if op == Op.dn
      then handle_dn self packet packet_length
      else if op == Op.bn
      then handle_bn self packet packet_length
      else if op == Op.gs
      then handle_gs self
      else if op == Op.td
      then handle_td self packet packet_length
      else if op == Op.sc
      then handle_sc self packet packet_length
      else if op == Op.bc
      then handle_bc
      else if op == Op.br
      then free
      else if op == Op.an
      then handle_an self
      else if is_data op
      then handle_data self packet packet_length
      else pure tt

  unfoldable pub handle_admin_packet : Ref → List ℕ → ℕ → M (Unit {0})
  handle_admin_packet self packet packet_length = do
    warnpkt packet
    op ← read_byte packet 0
    dispatch op self packet packet_length
