-- ===== src/Mqtt.antt =====
-- The receive queue `mqttQ` that SteamLinkESP.cpp and SteamLinkPaho.cpp both keep: the subscription's
-- callback fills it while the MQTT client runs, and `driver_receive` empties it.
pub mod Queue
pub mod Esp
pub mod Paho
pub mod Topic
pub mod Wifi
use steamlink_arduino.Prelude.{
  ℕ, Bool, true, false, List, [], ◌∷◌, Option, none, some, ◌==◌, not, if◌then◌else◌, ltb, length,
}
use steamlink_arduino.Wire.{u8, as_control_header, is_data, byte_at}
use steamlink_arduino.Ring
use steamlink_arduino.Ring.{RingBuff, enqueue, dequeue, queuelevel}
use steamlink_arduino.Update.{Reception}

abbrev pub mqttq_size : ℕ
mqttq_size = 10

-- The queue when the program starts.
unfoldable pub mqtt_q : RingBuff
mqtt_q = Ring.new mqttq_size

-- The callback keeps a copy of a message. `enqueue` takes its length as a `uint8_t`, and NULL as
-- its address. A message that the full queue refuses is lost.
unfoldable pub sub_callback : RingBuff → List ℕ → RingBuff
sub_callback q message = (enqueue q message (u8 (length message)) 0).0

-- the callbacks for the messages that arrive while the client runs
unfoldable pub arrivals : RingBuff → List (List ℕ) → RingBuff
arrivals q [] = q
arrivals q (message ∷ messages) = arrivals (sub_callback q message) messages

-- the SLID that a packet is for, or `none` where its header ends outside the buffer
unfoldable pub slid_of : List ℕ → Option ℕ
slid_of packet =
    if ltb 0 (length packet)
    then (if is_data (byte_at packet 0)
        then some 0
        else if ltb (length packet) 5
        then none
        else some (as_control_header packet).slid)
    else none

-- The next packet of the queue, if there is one, with the signal strength that is noted for it.
unfoldable pub next_packet : RingBuff → ℕ → Option (RingBuff × Option Reception)
next_packet q rssi =
    if not (queuelevel q == 0)
    then elim (dequeue q).1 [
      | none ↦ none
      | some e ↦ elim (slid_of e.pkt) [
        | none ↦ none
        | some slid ↦ some (
          (dequeue q).0,
          some (record { packet = e.pkt; packet_size = e.len; slid = slid; rssi = rssi }),
        )
      ]
    ]
    else some (q, none)
