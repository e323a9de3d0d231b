-- ===== src/Admin/Bridged.antt =====
-- The branches of `handle_admin_packet` that pass a packet on: `BN` takes the outer header off,
-- and a data packet is put behind a header of its own.
use steamlink_arduino.Prelude.{
  ℕ, ◌+◌, ◌≤◌, ◌<◌, ◌^◌, ◌≡◌, refl, ◌∙◌, true, false, List, [], ◌++◌, arith, length, drop,
}
use steamlink_arduino.Wire.{
  ControlHeader, control_header_bytes, as_control_header, is_transport, is_data, byte_at,
}
use steamlink_arduino.Wire.RoundTrip.{read32-le32}
use steamlink_arduino.Wire.Op
use steamlink_arduino.Wire.Slid
use steamlink_arduino.System.{Env, System, Node, Ref, returns, node, ◌>>=◌, read_byte, pure}
use steamlink_arduino.Send.{Handler, generic_send}
use steamlink_arduino.Send.Packet.{IsWhole-long, warnpkt_lem, packet_of}
use steamlink_arduino.Send.Steps.{is_blocked, prepared, finish, send_packet_lem, send_data-accepted}
use steamlink_arduino.Admin.{handle_admin_packet, dispatch, handle_bn, handle_data}
use steamlink_arduino.Admin.Packet.{
  control_packet, control_length, move_payload_stale, payload_length_of_lem, dispatch_lem,
  FitsControl,
}

-- a buffer that begins with a packet
abbrev pub behind : ControlHeader → List ℕ → List ℕ → List ℕ
behind h inner stale = inner ++ drop (length inner) (control_packet h (inner ++ stale))

pub bs-open : (n : Node) → is_blocked Op.bs n ≡ false
unfolding is_transport
bs-open n = ground arith

module _ (env : Env) (handler : Handler) where
  -- `BN` sends the enclosed packet on, to the SLID in that packet's own header.
  pub bn_lem :
      (self : Ref) (h inner : ControlHeader) (payload stale : List ℕ) (s : System)
      → h.op ≡ Op.bn
      → FitsControl (control_packet inner payload)
      → inner.slid < 2 ^ 32
      → let packet = control_packet inner payload in
        handle_admin_packet env handler self
          (control_packet h (packet ++ stale))
          (control_length packet)
          s
        ≡ (generic_send env handler self (behind h packet stale) (length packet) inner.slid
              >>= λ sent. pure (tt {0}))
            s
  unfolding dispatch handle_bn read_byte control_header_bytes as_control_header
  bn_lem self h inner payload stale s o f hs =
      let packet = control_packet inner payload in
      dispatch_lem env handler self h Op.bn (packet ++ stale) (control_length packet) s o refl
      ∙ rw (
        move_payload_stale h packet stale s f,
        fifth,
        payload_length_of_lem packet f,
        to_slid,
        ◌>>=◌,
      )
    where
      buffer : List ℕ
      buffer = behind h (control_packet inner payload) stale

      fifth : read_byte buffer 4 s ≡ returns (byte_at buffer 4) s
      fifth = ground arith

      to_slid : (as_control_header buffer).slid ≡ inner.slid
      to_slid = read32-le32 inner.slid [] hs

  -- A packet with a data op code takes the last branch.
  pub dispatch-data :
      (self : Ref) (packet : List ℕ) (k : ℕ) (s : System)
      → 8 ≤ length packet
      → is_data (byte_at packet 0) ≡ true
      → handle_admin_packet env handler self packet k s ≡ handle_data env handler self packet k s
  unfolding handle_admin_packet dispatch is_data read_byte
  dispatch-data self packet k s l d =
      rw (warnpkt_lem packet s (IsWhole-long packet l), ◌>>=◌) (ground arith)

  -- Encapsulation is never held back, and comes down to one call of `generic_send`.
  pub handle_data_lem :
      (self : Ref) (packet : List ℕ) (k : ℕ) (s : System)
      → 8 ≤ length packet
      → is_data (byte_at packet 0) ≡ true
      → k ≤ length packet
      → k + 8 < 256
      → length (node self s).retry_packet ≡ 255
      → let outer = packet_of env s (node self s) Op.bs packet k in
        handle_admin_packet env handler self packet k s
        ≡ ((generic_send env handler self outer (k + 8) Slid.store_addr >>= finish Op.bs)
              >>= λ sent. pure (tt {0}))
            (prepared env self Op.bs outer (k + 8) s)
  unfolding handle_data
  handle_data_lem self packet k s l d p f r =
      dispatch-data self packet k s l d
      ∙ rw (
        send_data-accepted env handler self Op.bs packet k s (bs-open (node self s)) f,
        send_packet_lem env handler self Op.bs packet k s p (omega arith),
        ◌>>=◌,
      )
