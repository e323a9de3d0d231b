-- ===== src/Mqtt/Esp.antt =====
-- SteamLinkESP.h and SteamLinkESP.cpp. What they use of the WiFi and MQTT libraries is an argument.
pub mod Setup
use steamlink_arduino.Prelude.{
  ℕ, ◌-◌, ◌<◌, ◌≡◌, ◌≢◌, refl, ap, ==_ne, Bool, true, false, List, [], ◌∷◌, Option, none, some,
  ◌==◌, if◌then◌else◌, length, take,
}
use steamlink_arduino.Prelude.Startup.{Startup, ready, ◌>>=◌}
use steamlink_arduino.Wire.{u8}
use steamlink_arduino.Ring.Refine.{IsValid, contents}
use steamlink_arduino.Ring.{RingBuff}
use steamlink_arduino.Update.{Reception}
use steamlink_arduino.Mqtt.{arrivals, next_packet, slid_of}
use steamlink_arduino.Mqtt.Wifi.{Wifi, Credentials, wifi_connect}
use steamlink_arduino.Mqtt.Queue.{stored, next_packet_lem}

-- The MQTT library and the signal strength, over the state of the board. `connect` gives 0 for
-- success, and `process_packets` the messages for which it has called back.
pub record Network (C : Type 0) : Type 0 where
  pub connected : C → Bool
  pub connect : C → C × ℕ
  pub disconnect : C → C
  pub process_packets : C → C × List (List ℕ)
  pub rssi : C → ℕ
  pub publish : C → List ℕ → C

pub record Esp (C : Type 0) : Type 0 where
  pub client : C
  pub queue : RingBuff

module _ {C : Type 0} (api : Network C) where
  unfoldable pub mqtt_connect : C → C × Bool
  mqtt_connect c =
      if api.connected c
      then (c, true)
      else (let (c', ret) = api.connect c in
          if ret == 0 then (c', true) else (api.disconnect c', false))

  -- `fuel` is for the rounds of `wifi_connect`.
  module _ (wifi : Wifi C) (fuel : ℕ) (creds : List Credentials) where
    -- the messages that arrive before the queue is looked at
    unfoldable pub poll : C → Startup (C × List (List ℕ))
    poll c = do
      c1 ← wifi_connect wifi fuel creds c
      let (c', ok) = mqtt_connect c1
      ready (if ok then api.process_packets c' else (c', []))

    unfoldable pub driver_receive : Esp C → Startup (Option (Esp C × Option Reception))
    driver_receive d = do
      (c, messages) ← poll d.client
      ready (elim (next_packet (arrivals d.queue messages) (api.rssi c)) [
        | none ↦ none
        | some (q, received) ↦ some (record { client = c; queue = q }, received)
      ])

  unfoldable pub driver_send : Esp C → List ℕ → ℕ → ℕ → Esp C × Bool
  driver_send d packet packet_size slid =
      if api.connected d.client
      then (record d { client = api.publish d.client (take packet_size packet) }, true)
      else (d, false)

handed_over :
    {C : Type 0} (api : Network C) (wifi : Wifi C) (fuel : ℕ) (creds : List Credentials) (d : Esp C)
    (c : C) (messages : List (List ℕ)) (q : RingBuff) (received : Option Reception)
    → poll api wifi fuel creds d.client ≡ ready (c, messages)
    → next_packet (arrivals d.queue messages) (api.rssi c) ≡ some (q, received)
    → driver_receive api wifi fuel creds d
      ≡ ready (some (record { client = c; queue = q }, received))
unfolding driver_receive
handed_over api wifi fuel creds d c messages q received y run = rw (driver_receive, y, run) refl

pub receive_from_wifi :
    {C : Type 0} (api : Network C) (wifi : Wifi C) (fuel : ℕ) (creds : List Credentials) (d : Esp C)
    (c : C) (message : List ℕ) (messages : List (List ℕ)) (slid : ℕ)
    → IsValid d.queue
    → contents d.queue ≡ []
    → 1 < d.queue.ringsize
    → poll api wifi fuel creds d.client ≡ ready (c, message ∷ messages)
    → slid_of message ≡ some slid
    → (q : RingBuff) × (driver_receive api wifi fuel creds d
        ≡ ready (
            some (
              record { client = c; queue = q },
              some (record {
                packet = message;
                packet_size = u8 (length message);
                slid = slid;
                rssi = api.rssi c;
              }),
            )))
      × (contents q ≡ take (d.queue.ringsize - 2) (stored messages))
receive_from_wifi api wifi fuel creds d c message messages slid v e l y s =
    let (q, run, rest, w) = next_packet_lem d.queue (api.rssi c) message messages slid v e l s in
    (q, handed_over api wifi fuel creds d c (message ∷ messages) q _ y run, rest)

-- While the client is not connected, a packet that is sent is dropped; a round tries once to
-- connect, and where that fails, no message arrives.
pub driver_send-offline :
    {C : Type 0} (api : Network C) (wifi : Wifi C) (fuel : ℕ) (creds : List Credentials) (d : Esp C)
    (c c1 : C) (packet : List ℕ) (len slid code : ℕ)
    → api.connected d.client ≡ false
    → wifi_connect wifi fuel creds d.client ≡ ready c1
    → api.connected c1 ≡ false
    → api.connect c1 ≡ (c, code)
    → code ≢ 0
    → (driver_send api d packet len slid ≡ (d, false))
      × (poll api wifi fuel creds d.client ≡ ready (api.disconnect c, []))
unfolding driver_send poll mqtt_connect
driver_send-offline api wifi fuel creds d c c1 packet len slid code o w o' e z =
    (rw o, rw (w, o', e, ==_ne code 0 z) refl)
