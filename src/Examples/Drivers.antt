-- ===== src/Examples/Drivers.antt =====
-- A radio and an MQTT client that hold what is to be received.
use steamlink_arduino.Prelude.{
  ℕ, ◌-◌, ◌≡◌, refl, Bool, true, false, List, [], ◌∷◌, ◌++◌, some, replicate, arith, length, take,
  drop, get_or,
}
use steamlink_arduino.Wire.{DataHeader, data_header_bytes, control_header_bytes, is_data}
use steamlink_arduino.Wire.Op
use steamlink_arduino.Ring.Refine.{IsValid, contents}
use steamlink_arduino.Lora.{Radio, Lora, get_node_from_slid, get_mesh_from_slid}
use steamlink_arduino.Lora
use steamlink_arduino.Lora.Receive.{Holds, receive_control, receive_data}
use steamlink_arduino.Mqtt.{arrivals}
use steamlink_arduino.Mqtt.Queue.{stored, arrivals_refines}
use steamlink_arduino.Mqtt.Paho.{Client}
use steamlink_arduino.Mqtt.Wifi.{Wifi}
use steamlink_arduino.Mqtt.Esp.{Network, Esp, driver_send-offline}
use steamlink_arduino.Mqtt.Esp
use steamlink_arduino.Examples.{empty_queue-IsValid, empty_queue, reading, header}

-- The radio is the bytes that are still to be read.
abbrev pub any : List ℕ → Bool
any [] = false
any (b ∷ bs) = true

abbrev pub radio : Radio (List ℕ)
radio = record {
  parse_packet = λ r. (r, length r);
  available = any;
  read = λ r. (drop 1 r, get_or r 0 0);
  packet_rssi = λ r. 70;
  begin_packet = λ r. r;
  write = λ r bytes. bytes;
  end_packet = λ r. r;
}

abbrev holding : List ℕ → Lora (List ℕ)
holding bytes = record { radio = bytes; driverbuffer = replicate 255 0 }

pub radio-Holds : (bytes : List ℕ) → Holds radio bytes bytes []
radio-Holds [] = (refl, refl)
radio-Holds (b ∷ bs) = (refl, refl, radio-Holds bs)

receive_control_example :
    let packet = control_header_bytes (header Op.dn 0x105) ++ reading in
    (d' : Lora (List ℕ)) × (Lora.driver_receive radio (holding packet)
      ≡ some (d', some (record { packet = packet; packet_size = 10; slid = 0x105; rssi = 70 })))
unfolding control_header_bytes is_data
receive_control_example =
    let packet = control_header_bytes (header Op.dn 0x105) ++ reading in
    receive_control radio (holding packet) packet [] (header Op.dn 0x105) reading refl
      (radio-Holds packet) refl (omega arith) (omega arith) (omega arith)

abbrev stamp : DataHeader
stamp = record { op = Op.ds; slid = 0x105; pkg_num = 770; rssi = 60 }

receive_data_example :
    (d' : Lora (List ℕ)) × (Lora.driver_receive radio (holding (data_header_bytes stamp ++ reading))
      ≡ some (
        d',
        some (record {
          packet = data_header_bytes (record stamp { rssi = 70 }) ++ reading;
          packet_size = 11;
          slid = 0;
          rssi = 70;
        }),
      ))
unfolding data_header_bytes is_data
receive_data_example =
    let packet = data_header_bytes stamp ++ reading in
    receive_data radio (holding packet) packet [] stamp reading refl (radio-Holds packet) refl
      (omega arith)

arrivals_refines_example :
    (contents (arrivals empty_queue (reading ∷ reading ∷ []))
      ≡ take (10 - 1) (contents empty_queue ++ stored (reading ∷ reading ∷ [])))
    × IsValid (arrivals empty_queue (reading ∷ reading ∷ []))
    × ((arrivals empty_queue (reading ∷ reading ∷ [])).ringsize ≡ 10)
arrivals_refines_example = arrivals_refines empty_queue (reading ∷ reading ∷ []) empty_queue-IsValid

-- a client with one message to deliver
abbrev client : Client (List (List ℕ))
client = record { yield = λ c. ([], c); publish = λ c packet. (c, 0) }

abbrev letter : List ℕ
letter = control_header_bytes (header Op.dn 0x105) ++ reading

-- a network that is up, and one that is down
abbrev network : Bool → Network (List (List ℕ))
network up = record {
  connected = λ c. up;
  connect = λ c. (c, 1);
  disconnect = λ c. c;
  process_packets = λ c. ([], c);
  rssi = λ c. 200;
  publish = λ c packet. c;
}

-- a WiFi that stays connected
abbrev pub lasting : Wifi (List (List ℕ))
lasting = record { status = λ c. (c, true); begin = λ ssid pass c. c; delay = λ ms c. c }
