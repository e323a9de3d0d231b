-- ===== src/Examples/Relays.antt =====
-- A bridge between LoRa and MQTT that relays a reading.
use steamlink_arduino.Prelude.{ℕ, ◌≡◌, refl, true, List, [], ◌∷◌, ◌++◌, replicate, arith, length}
use steamlink_arduino.Wire.{DataHeader, ControlHeader, data_header_bytes, is_data}
use steamlink_arduino.Wire.Op
use steamlink_arduino.Ring.{queuelevel}
use steamlink_arduino.Ring.Refine.{contents}
use steamlink_arduino.System.{Env, System, Ref, store_driver, node_driver, returns}
use steamlink_arduino.Send.Phy.{Carries}
use steamlink_arduino.Update.{heartbeat_due}
use steamlink_arduino.Update.Rounds.{IsQuiet}
use steamlink_arduino.Lora.{Lora}
use steamlink_arduino.Mqtt.Wifi.{wifi_connect, try_rounds, try_networks, wait}
use steamlink_arduino.Mqtt.Esp.{Network, Esp, poll, mqtt_connect}
use steamlink_arduino.Admin.Packet.{control_packet, length-control_packet}
use steamlink_arduino.Bridge.Order.{envelope}
use steamlink_arduino.Bridge.Radio.{broker_to_lora}
use steamlink_arduino.Bridge.Rounds.{rounds}
use steamlink_arduino.Interface.Drivers.{lora_driver, esp_driver}
use steamlink_arduino.Bridge.Loop.{update}
use steamlink_arduino.Bridge.Relay.{IsIdle}
use steamlink_arduino.Bridge.Broker.{lora_to_broker, heard_as}
use steamlink_arduino.Examples.Drivers.{radio, radio-Holds, lasting}
use steamlink_arduino.Examples.{
  bridged, bridged-IsWired, empty_queue-IsValid, store_half, node_half, empty_queue, reading,
  header,
}

-- a moment at which nothing is due
abbrev pub moment : Env
moment = record { clock = λ n. 2000; uninitialised = λ buffer i. 170; no_return = λ s. true }

-- The broker keeps what is published.
abbrev broker : Network (List (List ℕ))
broker = record {
  connected = λ c. true;
  connect = λ c. (c, 0);
  disconnect = λ c. c;
  process_packets = λ c. (c, []);
  rssi = λ c. 200;
  publish = λ c packet. packet ∷ c;
}

bridged-IsQuiet : (self : Ref) → IsQuiet moment self bridged
unfolding heartbeat_due
bridged-IsQuiet store_driver = record {
  signed_on = refl;
  not_waiting = refl;
  not_due = λ k. refl;
  queue_IsValid = empty_queue-IsValid;
}
bridged-IsQuiet node_driver = record {
  signed_on = refl;
  not_waiting = refl;
  not_due = λ k. refl;
  queue_IsValid = empty_queue-IsValid;
}

bridged-IsIdle : IsIdle moment bridged
unfolding heartbeat_due queuelevel
bridged-IsIdle = record {
  store_quiet = bridged-IsQuiet store_driver;
  node_quiet = bridged-IsQuiet node_driver;
  store_empty = refl;
  node_empty = refl;
  store_room = omega arith;
  store_later = λ j k. refl;
  node_later = λ j k. refl;
}

abbrev stamp : DataHeader
stamp = record { op = Op.ds; slid = 0x105; pkg_num = 770; rssi = 60 }

lora_to_broker_example :
    let packet = data_header_bytes stamp ++ reading in
    let heard = heard_as radio [] stamp reading in
    (mid last : List ℕ) × (lora' : Lora (List ℕ)) × (s' : System) × (update moment
        (esp_driver broker lasting 1 [])
        (lora_driver radio)
        (record { init_done = true })
        (record { client = []; queue = empty_queue })
        (record { radio = packet; driverbuffer = replicate 255 0 })
        bridged
      ≡ returns
          (record { init_done = true }, record { client = last ∷ []; queue = empty_queue }, lora')
          s')
    × Carries (record node_half { last_rssi = 70 }) Op.bs heard (length heard) mid
    × Carries store_half Op.bs mid (length mid) last
    × (contents s'.store_side.send_q ≡ [])
    × (contents s'.node_side.send_q ≡ [])
unfolding data_header_bytes is_data poll mqtt_connect wifi_connect try_rounds try_networks wait
    queuelevel
lora_to_broker_example =
    let packet = data_header_bytes stamp ++ reading in
    lora_to_broker moment broker lasting 1 [] radio (record { client = []; queue = empty_queue }) []
      (record { radio = packet; driverbuffer = replicate 255 0 }) packet [] stamp reading bridged
      bridged-IsWired bridged-IsIdle refl refl refl refl (radio-Holds packet) refl (omega arith)
      (omega arith) (omega arith)

-- a broker that delivers one message in each round
abbrev one_by_one : List (List ℕ) → List (List ℕ) × List (List ℕ)
one_by_one [] = ([], [])
one_by_one (message ∷ messages) = (messages, message ∷ [])

abbrev delivering : Network (List (List ℕ))
delivering = record {
  connected = λ c. true;
  connect = λ c. (c, 0);
  disconnect = λ c. c;
  process_packets = one_by_one;
  rssi = λ c. 200;
  publish = λ c packet. c;
}

abbrev outer : ControlHeader
outer = header Op.bn 0x105

abbrev mid : ControlHeader
mid = header Op.bn 0x106

abbrev inner : ControlHeader
inner = header Op.dn 0x107

broker_to_lora_example :
    let message = control_packet outer (envelope mid inner reading) in
    (esp' : Esp (List (List ℕ))) × (s' : System) × (rounds moment
        (esp_driver delivering lasting 1 [])
        (lora_driver radio)
        2
        (record { init_done = true })
        (record { client = message ∷ []; queue = empty_queue })
        (record { radio = []; driverbuffer = [] })
        bridged
      ≡ returns
          (
            record { init_done = true },
            esp',
            record { radio = control_packet inner reading; driverbuffer = [] },
          )
          s')
    × (contents s'.store_side.send_q ≡ [])
    × (contents s'.node_side.send_q ≡ [])
unfolding is_data poll mqtt_connect wifi_connect try_rounds try_networks wait queuelevel
broker_to_lora_example =
    let message = control_packet outer (envelope mid inner reading) in
    broker_to_lora moment delivering lasting 1 [] radio
      (record { client = message ∷ []; queue = empty_queue }) [] []
      (record { radio = []; driverbuffer = [] }) outer mid inner reading bridged bridged-IsWired
      bridged-IsIdle
      (record {
        outer_op = refl;
        mid_op = refl;
        control = refl;
        not_store = refl;
        for_node = refl;
        mid_slid_in = omega arith;
        inner_slid_in = omega arith;
        fits = omega (
          arith,
          length-control_packet mid (control_packet inner reading),
          length-control_packet inner reading,
        );
      })
      refl (omega arith) (omega arith) (omega arith) (omega arith) refl refl empty_queue-IsValid
      refl (omega arith) refl refl
