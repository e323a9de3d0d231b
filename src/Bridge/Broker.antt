-- ===== src/Bridge/Broker.antt =====
-- A bridge from LoRa to MQTT: what the radio hears is published.
use steamlink_arduino.Prelude.{
  ℕ, ◌+◌, ◌≤◌, ◌<◌, ◌≡◌, refl, ap, ◌∙◌, inl, true, List, [], ◌++◌, none, some, arith, length,
  take_all,
}
use steamlink_arduino.Prelude.Startup.{ready}
use steamlink_arduino.Wire.{DataHeader, data_header_bytes, is_data}
use steamlink_arduino.Wire.Op
use steamlink_arduino.Ring.Refine.{contents, queuelevel-contents}
use steamlink_arduino.Ring.{RingBuff, queuelevel}
use steamlink_arduino.System.{Env, System, returns}
use steamlink_arduino.Send.Phy.{Carries}
use steamlink_arduino.Update.{Reception, Received, no_packet, a_packet}
use steamlink_arduino.Update.Receive.{is_problem_iff}
use steamlink_arduino.Lora
use steamlink_arduino.Lora.{Radio, Lora}
use steamlink_arduino.Lora.Receive.{Holds, receive_data}
use steamlink_arduino.Mqtt.{arrivals, next_packet}
use steamlink_arduino.Mqtt.Wifi.{Wifi, Credentials}
use steamlink_arduino.Mqtt.Esp
use steamlink_arduino.Mqtt.Esp.{Network, Esp, poll}
use steamlink_arduino.Interface.Drivers.{lora_driver, esp_driver}
use steamlink_arduino.Bridge.Loop.{update}
use steamlink_arduino.Bridge.Wiring.{IsWired}
use steamlink_arduino.Bridge.Relay.{IsIdle, relays}

-- An empty receive queue hands over nothing.
next_packet-empty :
    (q : RingBuff) (rssi : ℕ) → contents q ≡ [] → next_packet q rssi ≡ some (q, none)
unfolding next_packet
next_packet-empty q rssi e =
    let z : queuelevel q ≡ 0 = omega (arith, queuelevel-contents q, ap length e) in
    ground (arith, z)

module _ {C : Type 0} (net : Network C) (wifi : Wifi C) (fuel : ℕ) (creds : List Credentials)
    (esp : Esp C) (c : C) where
  -- the driver once it has looked for messages, and found none
  abbrev pub polled : Esp C
  polled = record { client = c; queue = esp.queue }

  pub esp_idle :
      poll net wifi fuel creds esp.client ≡ ready (c, [])
      → contents esp.queue ≡ []
      → (esp_driver net wifi fuel creds).driver_receive esp ≡ (polled, no_packet)
  unfolding esp_driver Esp.driver_receive arrivals
  esp_idle y e = rw (y, next_packet-empty esp.queue (net.rssi c) e) refl

  esp_can :
      (esp_driver net wifi fuel creds).driver_can_send
        ((esp_driver net wifi fuel creds).driver_receive esp).0
      ≡ true
  unfolding esp_driver
  esp_can = refl

  published :
      (packet : List ℕ) (slid : ℕ)
      → net.connected c ≡ true
      → ((esp_driver net wifi fuel creds).driver_send polled packet (length packet) slid).0
        ≡ record { client = net.publish c packet; queue = esp.queue }
  unfolding esp_driver Esp.driver_send
  published packet slid o = rw (o, take_all (length packet) packet (omega arith)) refl

lora_hears :
    {R : Type 0} (radio : Radio R) (lora lora' : Lora R) (heard : Reception)
    → Lora.driver_receive radio lora ≡ some (lora', some heard)
    → (lora_driver radio).driver_receive lora ≡ (lora', a_packet heard)
unfolding lora_driver
lora_hears radio lora lora' heard e = rw e refl

-- what the LoRa driver makes of a data packet
abbrev pub heard_as : {R : Type 0} → Radio R → R → DataHeader → List ℕ → List ℕ
heard_as radio last h payload =
    data_header_bytes (record h { rssi = radio.packet_rssi last }) ++ payload

-- In one round of an idle bridge between LoRa and MQTT, a data packet of at most 239 bytes that the
-- radio holds is published to the broker, where the network is up and delivers nothing: in two
-- envelopes, the outer one a `BS` packet under the store side's SLID, whose content is a `BS` packet
-- under the node side's SLID, whose content is the packet as the node sent it, but for the signal
-- strength in its header, which is that of its last hop, as it is in the inner envelope. Nothing is
-- left in any queue.
pub lora_to_broker :
    {C R : Type 0} (env : Env) (net : Network C) (wifi : Wifi C) (fuel : ℕ)
    (creds : List Credentials) (radio : Radio R) (esp : Esp C) (c : C) (lora : Lora R)
    (r last_r : R) (h : DataHeader) (payload : List ℕ) (s : System)
    → IsWired s
    → IsIdle env s
    → poll net wifi fuel creds esp.client ≡ ready (c, [])
    → contents esp.queue ≡ []
    → net.connected c ≡ true
    → radio.parse_packet lora.radio ≡ (r, length payload + 8)
    → Holds radio r (data_header_bytes h ++ payload) last_r
    → is_data h.op ≡ true
    → Op.lowest ≤ h.op
    → h.op ≤ Op.highest
    → length payload + 24 < 256
    → let heard = heard_as radio last_r h payload in
      (mid last : List ℕ) × (lora' : Lora R) × (s' : System) × (update env
          (esp_driver net wifi fuel creds)
          (lora_driver radio)
          (record { init_done = true })
          esp
          lora
          s
        ≡ returns
            (
              record { init_done = true },
              record { client = net.publish c last; queue = esp.queue },
              lora',
            )
            s')
      × Carries
          (record s.node_side { last_rssi = radio.packet_rssi last_r })
          Op.bs
          heard
          (length heard)
          mid
      × Carries s.store_side Op.bs mid (length mid) last
      × (contents s'.store_side.send_q ≡ [])
      × (contents s'.node_side.send_q ≡ [])
unfolding data_header_bytes
lora_to_broker {C} {R} env net wifi fuel creds radio esp c lora r last_r h payload s w i y q o p
      held d lo hi f =
    let (lora', run) = receive_data radio lora r last_r h payload p held d (omega arith) in
    let rec : Reception = record {
      packet = heard_as radio last_r h payload;
      packet_size = length payload + 8;
      slid = 0;
      rssi = radio.packet_rssi last_r;
    } in
    let hears = lora_hears radio lora lora' rec run in
    let driver = esp_driver net wifi fuel creds in
    let heard = (lora_driver radio).driver_receive lora in
    let idle = esp_idle net wifi fuel creds esp c y q in
    let (mid, last, s', done, first, second, empty, empty', balance) =
      relays env (esp_driver net wifi fuel creds) (lora_driver radio) esp lora rec s w i
        (ap (λ (x : Lora R × Received). x.1) hears) (ap (λ (x : Esp C × Received). x.1) idle)
        (esp_can net wifi fuel creds esp c) (omega arith) (omega arith) refl d
        ((is_problem_iff h.op 0).1 (lo, hi, inl refl)) (omega arith) in
    (
      mid,
      last,
      lora',
      s',
      done
          ∙ ap
              (λ (x : Esp C × Received).
                returns
                  (
                    record { init_done = true },
                    (driver.driver_send x.0 last (length last) 1).0,
                    heard.0,
                  )
                  s')
              idle
          ∙ ap (λ (x : Esp C). returns (record { init_done = true }, x, heard.0) s')
              (published net wifi fuel creds esp c last 1 o)
          ∙ ap
              (λ (x : Lora R × Received).
                returns
                  (
                    record { init_done = true },
                    record { client = net.publish c last; queue = esp.queue },
                    x.0,
                  )
                  s')
              hears,
      first,
      second,
      empty,
      empty',
    )
