-- ===== src/Sketch/Bridge0/Runs.antt =====
-- The sketch in operation, with the ESP driver towards the store and the LoRa driver towards the
-- nodes.
use steamlink_arduino.Ring
use steamlink_arduino.Mqtt.Esp.{Network}
use steamlink_arduino.Mqtt.Wifi.{Wifi}
use steamlink_arduino.Node
