-- ===== src/Interface/Drivers.antt =====
-- The three drivers as the base class calls them: what SteamLinkLoRa, SteamLinkESP and SteamLinkPaho
-- override, and how their `driver_receive` ends.
use steamlink_arduino.Prelude.{ℕ, true, List, Option, none, some}
use steamlink_arduino.Prelude.Startup.{Startup, ready, hangs, waits}
use steamlink_arduino.Update.{
  Driver, Reception, Received, no_packet, a_packet, receive_hangs, receive_waits, receive_faults,
}
use steamlink_arduino.System.{Fault}
use steamlink_arduino.Lora
use steamlink_arduino.Lora.{Radio, Lora}
use steamlink_arduino.Mqtt.Wifi.{Wifi, Credentials}
use steamlink_arduino.Mqtt.Esp
use steamlink_arduino.Mqtt.Esp.{Network, Esp}
use steamlink_arduino.Mqtt.Paho
use steamlink_arduino.Mqtt.Paho.{Client, Paho}

-- what a driver that returns hands over
abbrev pub arrived : Option Reception → Received
arrived none = no_packet
arrived (some r) = a_packet r

-- a reception that may leave a buffer
abbrev pub receiving : {D : Type 0} → Fault → D → Option (D × Option Reception) → D × Received
receiving e d none = (d, receive_faults e)
receiving e d (some (d', received)) = (d', arrived received)

-- a reception that may hang, too
abbrev pub settled : {D : Type 0} → D → Startup (Option (D × Option Reception)) → D × Received
settled d (ready o) = receiving Fault.read_out_of_range d o
settled d hangs = (d, receive_hangs)
settled d waits = (d, receive_waits)

unfoldable pub lora_driver : {R : Type 0} → Radio R → Driver (Lora R)
lora_driver api = record {
  driver_receive = λ d. receiving Fault.write_out_of_range d (Lora.driver_receive api d);
  driver_can_send = λ d. true;
  driver_send = Lora.driver_send api;
}

-- The MQTT drivers keep the base class's `driver_can_send`.
unfoldable pub esp_driver :
    {C : Type 0} → Network C → Wifi C → ℕ → List Credentials → Driver (Esp C)
esp_driver api wifi fuel creds = record {
  driver_receive = λ d. settled d (Esp.driver_receive api wifi fuel creds d);
  driver_can_send = λ d. true;
  driver_send = Esp.driver_send api;
}

unfoldable pub paho_driver : {C : Type 0} → Client C → Driver (Paho C)
paho_driver api = record {
  driver_receive = λ d. receiving Fault.read_out_of_range d (Paho.driver_receive api d);
  driver_can_send = λ d. true;
  driver_send = Paho.driver_send api;
}
