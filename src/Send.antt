-- ===== src/Send.antt =====
-- The sending half of SteamLinkGeneric.cpp: from a payload to a packet on the send queue, or on
-- the bridge. `_bridge_handler` is an argument, called where the field is set.
pub mod Packet
pub mod Steps
pub mod Phy
pub mod Limits
pub mod Status
use steamlink_arduino.Prelude.{
  ℕ, suc, ◌+◌, Bool, true, false, List, [], ◌∷◌, ◌&&◌, if◌then◌else◌, ltb, ◌==◌, not,
}
use steamlink_arduino.Wire.{
  u8, u16, DataHeader, data_header_bytes, as_data_header, sizeof_data_header, node_cfg_bytes,
  sizeof_node_cfg, is_transport, needs_ack, is_data,
}
use steamlink_arduino.Wire.Op
use steamlink_arduino.Wire.Slid
use steamlink_arduino.Ring.{enqueue}
use steamlink_arduino.System.{
  BridgeMode, unbridged, storeside, nodeside, Node, Ref, Env, Fault, null_handler, returns, faults,
  M, ◌>>=◌, ◌>>◌, pure, this, modify, free, when, millis, malloc, read_byte, memcpy,
}

-- `on_receive_bridge_handler_function`
abbrev pub Handler : Type 0
Handler = List ℕ → ℕ → ℕ → M (Unit {0})

abbrev pub sl_max_packet_length : ℕ
sl_max_packet_length = 255

-- `_pkt_count_data++`, once more where that gives 0
unfoldable pub next_count : ℕ → ℕ
next_count c = if u16 (c + 1) == 0 then 1 else u16 (c + 1)

-- where a packet goes, by what it is and by how the node is bridged
pub data Way : Type 0 where
  phy bridge : Way

unfoldable pub way : Bool → BridgeMode → Way
way true storeside = phy
way true nodeside = bridge
way true unbridged = phy
way false nodeside = phy
way false unbridged = phy
way false storeside = bridge

-- the header that `send_data` writes, and the packet behind it
unfoldable pub header_of : Node → ℕ → List ℕ → DataHeader
header_of n op fresh = record {
  op = op;
  slid = n.slid;
  pkg_num = if is_transport op then (as_data_header fresh).pkg_num else n.pkt_count_data;
  rssi = n.last_rssi;
}

-- `strlen`: the bytes before the first 0, or a fault where the buffer has none.
unfoldable pub strlen : List ℕ → M ℕ
strlen [] = λ s. faults Fault.read_out_of_range
strlen (c ∷ cs) = let rest = strlen cs >>= (λ n. pure (suc n)) in if c == 0 then pure 0 else rest

-- `WARNPKT`, at the repository's level of warnings: `print_packet` reads every field of the header,
-- which ends with byte 7 of a data packet and byte 6 of a control packet.
unfoldable pub warnpkt : List ℕ → M (Unit {0})
warnpkt packet = do
  op ← read_byte packet 0
  last ← read_byte packet (if is_data op then 7 else 6)
  pure tt

module _ (env : Env) where
  -- The function has no `return`: what it gives its caller is not determined.
  unfoldable pub send_enqueue : Ref → List ℕ → ℕ → ℕ → M Bool
  send_enqueue self packet packet_length slid = do
    modify self (λ n. record n { send_q = (enqueue n.send_q packet packet_length slid).0 })
    λ s. returns (env.no_return s) s

  -- `header->… = …` on the fresh buffer, then the payload behind the header
  unfoldable pub build_packet : Node → ℕ → ℕ → List ℕ → ℕ → M (List ℕ)
  build_packet n op packet_length payload payload_length = do
    fresh ← malloc env packet_length
    packet ← memcpy fresh 0 (data_header_bytes (header_of n op fresh)) sizeof_data_header
    if ltb 0 payload_length
        then memcpy packet sizeof_data_header payload payload_length
        else pure packet

  -- the retry buffer, where the packet needs an acknowledgement
  unfoldable pub cache_packet : Ref → List ℕ → ℕ → M (Unit {0})
  cache_packet self packet packet_length = do
    n ← this self
    copy ← memcpy n.retry_packet 0 packet packet_length
    now ← millis env
    modify self (λ n. record n {
      waiting_for_ack = true;
      retry_packet = copy;
      retry_packet_length = packet_length;
      retry_slid = Slid.store_addr;
      last_retry_time = now;
    })

  module _ (handler : Handler) where
    unfoldable pub to_bridge : Ref → List ℕ → ℕ → ℕ → M Bool
    to_bridge self packet packet_length slid = do
      n ← this self
      if n.bridge_handler
          then handler packet packet_length slid >> pure true
          else (λ s. faults null_handler)

    unfoldable pub generic_send : Ref → List ℕ → ℕ → ℕ → M Bool
    generic_send self packet packet_length slid = do
      warnpkt packet
      op ← read_byte packet 0
      n ← this self
      rc ← elim (way (is_data op) n.bridge_mode) [
        | phy ↦ send_enqueue self packet packet_length slid
        | bridge ↦ to_bridge self packet packet_length slid
      ]
      now ← millis env
      modify self (λ n. record n { last_send_time = now })
      pure rc

    -- The second half of `send_data`: the packet is built, numbered, cached and sent.
    unfoldable pub send_packet : Ref → ℕ → List ℕ → ℕ → ℕ → M Bool
    send_packet self op payload payload_length packet_length = do
      n ← this self
      packet ← build_packet n op packet_length payload payload_length
      when (not (is_transport op))
          (modify self (λ n. record n { pkt_count_data = next_count n.pkt_count_data }))
      when (needs_ack op) (cache_packet self packet packet_length)
      sent ← generic_send self packet packet_length Slid.store_addr
      when (is_transport op) free
      pure sent

    unfoldable pub send_data : Ref → ℕ → List ℕ → ℕ → M Bool
    send_data self op payload payload_length = do
      n ← this self
      if n.waiting_for_ack && (not (is_transport op) && not (op == Op.acks))
          then pure false
          else (let packet_length = u8 (payload_length + sizeof_data_header) in
              if ltb sl_max_packet_length packet_length
              then pure false
              else send_packet self op payload payload_length packet_length)

    -- a string argument, its terminator included: its length is passed as a `uint8_t`
    unfoldable pub send_string : Ref → ℕ → List ℕ → M Bool
    send_string self op buf = do n ← strlen buf; send_data self op buf (u8 (n + 1))

    unfoldable pub send : Ref → List ℕ → M Bool
    send self buf = send_string self Op.ds buf

    unfoldable pub send_on : Ref → M Bool
    send_on self = do n ← this self; send_data self Op.on (node_cfg_bytes n.config) sizeof_node_cfg

    unfoldable pub send_off : Ref → ℕ → M Bool
    send_off self seconds = send_data self Op.off (seconds ∷ []) 1

    unfoldable pub send_as : Ref → ℕ → M Bool
    send_as self ack_code = send_data self Op.acks (ack_code ∷ []) 1

    unfoldable pub send_ms : Ref → List ℕ → M Bool
    send_ms self msg = send_string self Op.ms msg

    unfoldable pub send_tr : Ref → List ℕ → ℕ → M Bool
    send_tr self payload payload_length = send_data self Op.tr payload payload_length

    unfoldable pub send_ss : Ref → List ℕ → M Bool
    send_ss self status = send_string self Op.ss status

  unfoldable pub send_td : Ref → List ℕ → ℕ → M Bool
  send_td self td len = do
    fresh ← malloc env len
    packet ← memcpy fresh 0 td len
    send_enqueue self packet len Slid.test_addr
