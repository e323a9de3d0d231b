-- ===== src/Bridge/Radio.antt =====
-- A bridge from MQTT to LoRa: an order that the broker delivers goes out by the radio.
use steamlink_arduino.Prelude.{
  ℕ, ◌≤◌, ◌<◌, ◌≡◌, refl, ap, sym, ◌∙◌, true, List, [], ◌∷◌, append-nil, some, arith, length, take,
  take_all, ◌-◌, ◌^◌,
}
use steamlink_arduino.Prelude.Startup.{ready}
use steamlink_arduino.Wire.{ControlHeader, is_data, u8}
use steamlink_arduino.Wire.Slid
use steamlink_arduino.Ring.Refine.{IsValid, contents}
use steamlink_arduino.System.{Env, System, returns}
use steamlink_arduino.Admin.Packet.{control_packet, control_length, length-control_packet}
use steamlink_arduino.Update.{Reception, Received, no_packet, a_packet}
use steamlink_arduino.Lora
use steamlink_arduino.Lora.{Radio, Lora}
use steamlink_arduino.Mqtt.Queue.{slid_of-control}
use steamlink_arduino.Mqtt.Wifi.{Wifi, Credentials}
use steamlink_arduino.Mqtt.Esp
use steamlink_arduino.Mqtt.Esp.{Network, Esp, poll, receive_from_wifi}
use steamlink_arduino.Interface.Drivers.{lora_driver, esp_driver}
use steamlink_arduino.Bridge.Rounds.{rounds}
use steamlink_arduino.Bridge.Wiring.{IsWired}
use steamlink_arduino.Bridge.Relay.{IsIdle}
use steamlink_arduino.Bridge.Order.{IsOrder, envelope, order_for, delivers_order}
use steamlink_arduino.Bridge.Broker.{esp_idle}

module _ {R : Type 0} (radio : Radio R) where
  -- the radio once it has found nothing, and once it has sent a packet
  abbrev pub searched : R → R
  searched r = (radio.parse_packet r).0

  abbrev pub written : R → List ℕ → R
  written r packet = radio.end_packet (radio.write (radio.begin_packet r) packet)

  silent :
      (d : Lora R)
      → (radio.parse_packet d.radio).1 ≡ 0
      → (lora_driver radio).driver_receive d ≡ (record d { radio = searched d.radio }, no_packet)
  unfolding lora_driver Lora.driver_receive
  silent d e = rw e refl

  sends :
      (d : Lora R) (buffer packet : List ℕ) (len slid : ℕ)
      → take len buffer ≡ packet
      → ((lora_driver radio).driver_send d buffer len slid).0
        ≡ record d { radio = written d.radio packet }
  unfolding lora_driver Lora.driver_send
  sends d buffer packet len slid e = rw e refl

  can_send : (d : Lora R) → (lora_driver radio).driver_can_send d ≡ true
  unfolding lora_driver
  can_send d = refl

esp_hears :
    {C : Type 0} (net : Network C) (wifi : Wifi C) (fuel : ℕ) (creds : List Credentials)
    (esp esp' : Esp C) (r : Reception)
    → Esp.driver_receive net wifi fuel creds esp ≡ ready (some (esp', some r))
    → (esp_driver net wifi fuel creds).driver_receive esp ≡ (esp', a_packet r)
unfolding esp_driver
esp_hears net wifi fuel creds esp esp' r e = rw e refl

-- An order of at most 241 bytes for a node that the broker delivers to an idle bridge between MQTT and
-- LoRa, in two `BN` envelopes for the store side and for the node side, is written to the radio in
-- the next round of the bridge's loop, exactly as it was enclosed, where the broker delivers nothing
-- else and the radio hears nothing meanwhile. Nothing is left in either send queue.
pub broker_to_lora :
    {C R : Type 0} (env : Env) (net : Network C) (wifi : Wifi C) (fuel : ℕ)
    (creds : List Credentials) (radio : Radio R) (esp : Esp C) (c c2 : C) (lora : Lora R)
    (outer mid inner : ControlHeader) (payload : List ℕ) (s : System)
    → IsWired s
    → IsIdle env s
    → IsOrder outer mid inner payload s
    → outer.slid ≡ s.store_side.slid
    → outer.pkg_num < 2 ^ 16
    → Slid.lowest ≤ s.store_side.slid
    → s.store_side.slid ≤ Slid.highest
    → 1 < s.node_side.send_q.ringsize
    → poll net wifi fuel creds esp.client
      ≡ ready (c, control_packet outer (envelope mid inner payload) ∷ [])
    → poll net wifi fuel creds c ≡ ready (c2, [])
    → IsValid esp.queue
    → contents esp.queue ≡ []
    → 1 < esp.queue.ringsize
    → (radio.parse_packet lora.radio).1 ≡ 0
    → (radio.parse_packet (searched radio lora.radio)).1 ≡ 0
    → (esp' : Esp C) × (s' : System) × (rounds env
          (esp_driver net wifi fuel creds)
          (lora_driver radio)
          2
          (record { init_done = true })
          esp
          lora
          s
        ≡ returns
            (
              record { init_done = true },
              esp',
              record lora {
                radio =
                    written radio
                      (searched radio (searched radio lora.radio))
                      (control_packet inner payload);
              },
            )
            s')
      × (contents s'.store_side.send_q ≡ [])
      × (contents s'.node_side.send_q ≡ [])
unfolding is_data
broker_to_lora {C} {R} env net wifi fuel creds radio esp c c2 lora outer mid inner payload s w i q a
      n lo hi room y y2 v e l h h2 =
    let message = control_packet outer (envelope mid inner payload) in
    let driver = esp_driver net wifi fuel creds in
    let (queue, run, left) =
      receive_from_wifi net wifi fuel creds esp c message [] outer.slid v e l y (
        slid_of-control outer (envelope mid inner payload) (rw q.outer_op refl)
          (omega (arith, a, hi)) n) in
    let esp1 : Esp C = record { client = c; queue = queue } in
    let hears = esp_hears net wifi fuel creds esp esp1 _ run in
    let idle =
      esp_idle net wifi fuel creds esp1 c2 y2
        (left ∙ take_all (esp.queue.ringsize - 2) [] (omega arith)) in
    let lora1 : Lora R = record lora { radio = searched radio lora.radio } in
    let quiet = silent radio lora h in
    let quiet1 = silent radio lora1 h2 in
    let node = lora_driver radio in
    let size : u8 (length message) ≡ control_length (envelope mid inner payload) =
      omega (arith, length-control_packet outer (envelope mid inner payload), q.fits) in
    let same : ◌≡◌ {A = Reception}
        (record {
          packet = message;
          packet_size = u8 (length message);
          slid = outer.slid;
          rssi = net.rssi c;
        })
        (order_for outer mid inner payload [] (net.rssi c) s) =
      λ k. record {
        packet = control_packet outer (sym (append-nil (envelope mid inner payload)) k);
        packet_size = size k;
        slid = a k;
        rssi = net.rssi c;
      } in
    let (buffer, s', done, head, empty, empty') =
      delivers_order env driver node esp lora outer mid inner payload [] (net.rssi c) s w i q lo hi
        room (ap (λ (x : Esp C × Received). x.1) hears ∙ ap (λ (x : Reception). a_packet x) same)
        (ap (λ (x : Esp C × Received). (driver.driver_receive x.0).1) hears
          ∙ ap (λ (x : Esp C × Received). x.1) idle)
        (ap (λ (x : Lora R × Received). x.1) quiet)
        (ap (λ (x : Lora R × Received). (node.driver_receive x.0).1) quiet
          ∙ ap (λ (x : Lora R × Received). x.1) quiet1)
        (can_send radio _) in
    let after : Esp C = (driver.driver_receive (driver.driver_receive esp).0).0 in
    let len = length (control_packet inner payload) in
    (
      after,
      s',
      done
          ∙ ap
              (λ (x : Lora R × Received).
                returns
                  (
                    record { init_done = true },
                    after,
                    (node.driver_send (node.driver_receive x.0).0 buffer len inner.slid).0,
                  )
                  s')
              quiet
          ∙ ap
              (λ (x : Lora R × Received).
                returns
                  (
                    record { init_done = true },
                    after,
                    (node.driver_send x.0 buffer len inner.slid).0,
                  )
                  s')
              quiet1
          ∙ ap (λ (x : Lora R). returns (record { init_done = true }, after, x) s')
              (sends radio (record lora1 { radio = searched radio lora1.radio }) buffer
                (control_packet inner payload) len inner.slid head),
      empty,
      empty',
    )
