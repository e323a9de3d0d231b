-- ===== src/Node.antt =====
-- The constructor of `SteamLinkGeneric`, with the initial values of SteamLinkGeneric.h.
use steamlink_arduino.Prelude.{ℕ, ◌≡◌, false, List, [], arith, length}
use steamlink_arduino.Wire.{NodeCfgStruct}
use steamlink_arduino.Wire.RoundTrip
use steamlink_arduino.Ring
use steamlink_arduino.Ring.Refine
use steamlink_arduino.System.{unbridged, Node}
use steamlink_arduino.Send.Phy.{IsTyped}

abbrev pub sendq_size : ℕ
sendq_size = 10

-- What memory holds in the three fields that are not set is an argument.
unfoldable pub new : NodeCfgStruct → List ℕ → ℕ → ℕ → Node
new config retry_packet retry_packet_length retry_slid = record {
  config = config;
  slid = config.slid;
  on_receive = false;
  bridge_handler = false;
  encrypted = false;
  pkt_count_data = 1;
  pkt_count_control = 1;
  last_rssi = 0;
  bridge_mode = unbridged;
  sign_on_complete = false;
  last_send_time = 0;
  retry_packet = retry_packet;
  retry_packet_length = retry_packet_length;
  retry_slid = retry_slid;
  last_retry_time = 0;
  waiting_for_ack = false;
  send_q = Ring.new sendq_size;
}

-- A new node is as the theorems on nodes ask: its fields are in range, and its send queue is a
-- valid ring with nothing in it.
pub new-IsTyped :
    (config : NodeCfgStruct) (retry_packet : List ℕ) (retry_packet_length retry_slid : ℕ)
    → RoundTrip.IsValid config
    → length retry_packet ≡ 255
    → let n = new config retry_packet retry_packet_length retry_slid in
      IsTyped n × Refine.IsValid n.send_q × (Refine.contents n.send_q ≡ [])
unfolding new
new-IsTyped config retry_packet retry_packet_length retry_slid c l =
    let (v, e) = Refine.new-IsValid sendq_size (omega arith) in
    (record { queue_in = v; slid_in = c.slid_in; count_in = omega arith; retry_size = l }, v, e)
