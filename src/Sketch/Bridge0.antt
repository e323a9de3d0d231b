-- ===== src/Sketch/Bridge0.antt =====
-- examples/SL_bridge0/SL_bridge0.ino: a bridge between an ESP8266's WiFi and LoRa. The two inits of
-- `setup` act on the boards alone, and the two registrations on the objects alone.
pub mod Runs
use steamlink_arduino.Prelude.{
  ℕ, ◌≤◌, ◌≡◌, refl, true, false, List, [], ◌∷◌, ◌++◌, Option, none, some, not, arith, length,
  if◌then◌else◌,
}
use steamlink_arduino.Prelude.Text.{codes, c_string}
use steamlink_arduino.Prelude.Startup.{Startup, ready, ◌>>=◌}
use steamlink_arduino.Wire.{NodeCfgStruct}
use steamlink_arduino.Wire.RoundTrip
use steamlink_arduino.Debug.{Item, text, byte, newline, say}
use steamlink_arduino.Node
use steamlink_arduino.System.{Env, System, store_driver, node_driver, M, returns, ◌>>◌}
use steamlink_arduino.Update.{Driver}
use steamlink_arduino.Bridge
use steamlink_arduino.Bridge.{BridgeState, Pointers, register_receive_handler}
use steamlink_arduino.Bridge.Wiring.{IsWired}
use steamlink_arduino.Bridge.Loop
use steamlink_arduino.Bridge.Loop.{start, start_wires}
use steamlink_arduino.Mqtt.Esp
use steamlink_arduino.Mqtt.Esp.Setup as EspSetup
use steamlink_arduino.Mqtt.Esp.Setup.{EspConfig, EspFields, Mqtt, esp_ready}
use steamlink_arduino.Mqtt.Wifi.{Wifi, Credentials}
use steamlink_arduino.Mqtt.Wifi.Reach.{InReach}
use steamlink_arduino.Lora.Setup.{Board, LoraConfig, LoraFields, set_pins, sizeof_lora_config}
use steamlink_arduino.Lora.Setup as LoraSetup
use steamlink_arduino.Sketch.TestClient.{text_field, has_nul}

abbrev pub sl_id_esp : ℕ
sl_id_esp = 0x111

abbrev pub sl_id_lora : ℕ
sl_id_lora = 0x110

abbrev pub esp_config : NodeCfgStruct
esp_config = record {
  version = 1;
  slid = sl_id_esp;
  name = text_field 3 (codes "ESP_273");
  description = text_field 14 (codes "ESP Side of Bridge");
  gps_lat = 1110292562;
  gps_lon = 3265164739;
  altitude = 180;
  max_silence = 45;
  battery_powered = 0;
  radio_params = 1;
}

abbrev pub lora_config : NodeCfgStruct
lora_config = record {
  version = 1;
  slid = sl_id_lora;
  name = text_field 2 (codes "LoRa_272");
  description = text_field 13 (codes "LoRa Side of Bridge");
  gps_lat = 1110292562;
  gps_lon = 3265164739;
  altitude = 180;
  max_silence = 45;
  battery_powered = 0;
  radio_params = 1;
}

-- the global objects, where memory holds `e` and `l` in the fields that are not set
unfoldable pub objects : List ℕ → List ℕ → System
objects e l = record {
  store_side = Node.new esp_config e 0 0;
  node_side = Node.new lora_config l 0 0;
  clock_reads = 0;
  allocated = 0;
  freed = 0;
  delivered = [];
}

-- `SteamLinkBridge slbridge(&slesp)`, and `slbridge.bridge(&sllora)` at the end of `setup`
abbrev pub slbridge : Pointers
slbridge = Bridge.bridge node_driver (Bridge.new store_driver)

abbrev pub registrations : M (Unit {0})
registrations = register_receive_handler store_driver >> register_receive_handler node_driver

module _ {W : Type 0} (wifi : Wifi W) (net : Esp.Network W) (mqtt : Mqtt W) (board : Board W) where
  -- `setup`: the two inits, and then the registrations, left to be done on the objects
  unfoldable pub setup :
      ℕ
      → EspConfig
      → LoraConfig
      → EspFields
      → LoraFields
      → W
      → Startup (EspFields × LoraFields × W × M (Unit {0}))
  setup fuel sl_esp_config sl_lora_config slesp sllora w = do
    (slesp', w1) ← EspSetup.init wifi net mqtt fuel sl_esp_config EspSetup.sizeof_esp_config slesp w
    (sllora', w2) ←
        LoraSetup.init board sl_lora_config sizeof_lora_config (set_pins 15 4 5 sllora) w1
    ready (slesp', sllora', w2, registrations)

-- `loop`
unfoldable pub loop :
    {D E : Type 0} → Env → Driver D → Driver E → BridgeState → D → E → M (BridgeState × D × E)
loop env esp_driver lora_driver b d e = Loop.update env esp_driver lora_driver b d e

-- `esp_on_receive` and `lora_on_receive` print the buffer as a string, or read past its end.
unfoldable pub received : List Item → List ℕ → ℕ → Option (List Item)
received who buf len =
    if not (has_nul buf)
    then none
    else some (who ++ (byte len ∷ say " msg: " ∷ text (c_string buf) ∷ newline ∷ []))

unfoldable pub esp_on_receive : List ℕ → ℕ → Option (List Item)
esp_on_receive buf len = received (say "slesp_on_receive: len: " ∷ []) buf len

unfoldable pub lora_on_receive : List ℕ → ℕ → Option (List Item)
lora_on_receive buf len = received (say "sl_on_receive: len: " ∷ []) buf len

esp_config-IsValid : RoundTrip.IsValid esp_config
esp_config-IsValid = record {
  slid_in = omega arith;
  name_size = refl;
  description_size = refl;
  gps_lat_in = omega arith;
  gps_lon_in = omega arith;
  altitude_in = omega arith;
}

lora_config-IsValid : RoundTrip.IsValid lora_config
lora_config-IsValid = record {
  slid_in = omega arith;
  name_size = refl;
  description_size = refl;
  gps_lat_in = omega arith;
  gps_lon_in = omega arith;
  altitude_in = omega arith;
}

-- The boards get ready where one of the first six WiFi networks is in reach and the radio answers.
pub setup_ready :
    {W : Type 0} (wifi : Wifi W) (net : Esp.Network W) (mqtt : Mqtt W) (board : Board W)
    (conf : EspConfig) (conf' : LoraConfig) (slesp : EspFields) (sllora : LoraFields) (w : W)
    (c : Credentials) (before after : List Credentials)
    → conf.creds ≡ before ++ (c ∷ after)
    → InReach wifi c
    → length before ≤ 5
    → sllora.has_driver ≡ false
    → ((v : W) → (board.begin 915000000 v).1 ≡ true)
    → (slesp' : EspFields) × (sllora' : LoraFields) × (w' : W) × ((setup wifi net mqtt board 2 conf
          conf' slesp sllora w)
        ≡ ready (slesp', sllora', w', registrations))
      × (slesp'.conf ≡ some conf)
      × (sllora'.has_driver ≡ true)
unfolding setup set_pins
setup_ready wifi net mqtt board conf conf' slesp sllora w c before after e reach l h answers =
    let (w1, r, run) = esp_ready wifi net mqtt conf slesp w c before after e reach l in
    let w2 = (Esp.mqtt_connect net w1).0 in
    let pins = set_pins 15 4 5 sllora in
    let ok =
      LoraSetup.init_new board conf' pins w2 true h (answers (LoraSetup.configure board pins w2)) in
    (
      record slesp { conf = some conf },
      record pins {
        encrypted = conf'.encrypted;
        key = conf'.key;
        mod_conf = conf'.mod_conf;
        has_driver = true;
      },
      board.random_seed (board.begin 915000000 (LoraSetup.configure board pins w2)).0,
      rw (run, ok) refl,
      refl,
      refl,
    )
