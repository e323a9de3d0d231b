-- ===== src/Examples/Setups.antt =====
-- The drivers' set-ups on concrete boards and networks.
use steamlink_arduino.Prelude.{
  ℕ, ◌+◌, ◌<◌, ◌≤◌, ◌≡◌, ◌≢◌, ◌⊎◌, ◌↔◌, refl, true, false, [], ◌∷◌, ◌++◌, ltb, ◌==◌, if◌then◌else◌,
  arith, get_or, drop, none, some, replicate,
}
use steamlink_arduino.Prelude.Startup.{Startup, ready, hangs, waits}
use steamlink_arduino.Prelude.Text.{codes, decimal, digits, read_decimal}
use steamlink_arduino.Lora.Setup.{Board, LoraConfig, LoraFields, init, configure, init_hangs_iff}
use steamlink_arduino.Mqtt.Topic.{create_pub_str, create_sub_str, topic_round_trip}
use steamlink_arduino.Mqtt.Wifi.{Wifi, Credentials, wifi_connect}
use steamlink_arduino.Mqtt.Wifi.Down.{wifi_connect-Down}
use steamlink_arduino.Mqtt.Wifi.Reach.{InReach, wifi_connect-up}
use steamlink_arduino.Mqtt.Esp.{Network}
use steamlink_arduino.Mqtt.Esp.Setup.{EspConfig, EspFields, Mqtt}
use steamlink_arduino.Lora.{Radio}
use steamlink_arduino.Sketch.Bridge0.{registrations, setup, setup_ready}

-- A radio that keeps its pins and one setting, which `begin` clears.
abbrev radio : Board (ℕ × ℕ)
radio = record {
  new_radio = λ r. (0, 0);
  set_radio_pins = λ cs reset interrupt r. (cs, r.1);
  set_frequency = λ n r. (r.0, n);
  set_spreading_factor = λ n r. (r.0, n);
  set_signal_bandwidth = λ n r. (r.0, n);
  set_preamble_length = λ n r. (r.0, n);
  set_coding_rate4 = λ n r. (r.0, n);
  enable_crc = λ r. (r.0, 1);
  begin = λ f r. ((r.0, 0), ltb 3 r.0);
  random_seed = λ r. r;
}

abbrev plain : LoraConfig
plain = record { encrypted = false; key = []; mod_conf = 0 }

abbrev lora : LoraFields
lora = record {
  slid = 0x110;
  node_addr = 16;
  encrypted = false;
  key = [];
  mod_conf = 0;
  has_driver = false;
  cs_pin = 15;
  reset_pin = 4;
  interrupt_pin = 5;
}

init_hangs_iff_example : (init radio plain 6 (record lora { cs_pin = 2 }) (0, 0) ≡ hangs) ↔ (
    (◌≢◌ {A = ℕ} 6 6)
    ⊎ ((false ≡ false)
        × ((radio.begin 915000000 (configure radio (record lora { cs_pin = 2 }) (0, 0))).1
            ≡ false)))
init_hangs_iff_example = init_hangs_iff radio plain 6 (record lora { cs_pin = 2 }) (0, 0)

topic_round_trip_example :
    (create_pub_str 261 ≡ codes "SteamLink/261/data" ++ (0 ∷ []))
    × (create_sub_str 261 ≡ codes "SteamLink/261/control" ++ (0 ∷ []))
    × (read_decimal 0 (drop 10 (create_pub_str 261)) ≡ 261)
    × (read_decimal 0 (drop 10 (create_sub_str 261)) ≡ 261)
unfolding decimal digits
topic_round_trip_example = topic_round_trip 261 (omega arith)

-- A WiFi that knows the network `A`: it is up four seconds after it was asked for.
abbrev wifi : Wifi ℕ
wifi = record {
  status = λ w. (w, ltb 3 w);
  begin = λ ssid pass w. if get_or ssid 0 0 == 65 then 1 else 0;
  delay = λ ms w. if w == 0 then 0 else w + 1;
}

abbrev off : Wifi ℕ
off = record { status = λ w. (w, false); begin = λ ssid pass w. w; delay = λ ms w. w + 1 }

abbrev known : Credentials
known = record { ssid = codes "A"; pass = codes "secret" }

abbrev other : Credentials
other = record { ssid = codes "B"; pass = codes "secret" }

known-InReach : InReach wifi known
known-InReach = record { comes_up = λ w. (3, omega arith, refl); stays = λ w u. u }

wifi_connect-up_example : (w : ℕ) × (wifi_connect wifi 2 (other ∷ known ∷ []) 0 ≡ ready w)
wifi_connect-up_example = wifi_connect-up wifi known (other ∷ []) [] 0 known-InReach (omega arith)

wifi_connect-Down_example :
    (5 < 6 → wifi_connect off 2 (replicate 6 other) 0 ≡ hangs)
    × (6 ≤ 5 → wifi_connect off 1 (replicate 6 other) 0 ≡ waits)
wifi_connect-Down_example = wifi_connect-Down off 1 (replicate 6 other) 0 (λ w. refl)

abbrev net : Network ℕ
net = record {
  connected = λ w. false;
  connect = λ w. (w, 0);
  disconnect = λ w. w;
  process_packets = λ w. (w, []);
  rssi = λ w. 60;
  publish = λ w packet. w;
}

abbrev broker : Mqtt ℕ
broker = record {
  new_client = λ server port conid user key w. w;
  new_publish = λ topic w. w;
  new_subscribe = λ topic w. w;
  subscribe = λ w. w;
  set_callback = λ w. w;
}

abbrev answering : Board ℕ
answering = record {
  new_radio = λ w. w;
  set_radio_pins = λ cs reset interrupt w. w;
  set_frequency = λ n w. w;
  set_spreading_factor = λ n w. w;
  set_signal_bandwidth = λ n w. w;
  set_preamble_length = λ n w. w;
  set_coding_rate4 = λ n w. w;
  enable_crc = λ w. w;
  begin = λ f w. (w, true);
  random_seed = λ w. w;
}

abbrev esp_conf : EspConfig
esp_conf = record {
  encrypted = false;
  key = [];
  creds = other ∷ known ∷ [];
  sl_server = codes "mqtt.steamlink.net";
  sl_serverport = 8883;
  sl_username = codes "USERNAME";
  sl_conid = codes "bridge";
  sl_key = codes "PASSWORD";
  sl_server_fingerprint = [];
}

abbrev esp : EspFields
esp = record { slid = 0x111; pub_str = []; sub_str = []; conf = none }

setup_ready_example :
    (esp' : EspFields) × (lora' : LoraFields) × (w : ℕ) × ((setup wifi net broker answering 2
        esp_conf plain esp lora 0)
      ≡ ready (esp', lora', w, registrations))
    × (esp'.conf ≡ some esp_conf)
    × (lora'.has_driver ≡ true)
setup_ready_example =
    setup_ready wifi net broker answering esp_conf plain esp lora 0 known (other ∷ []) [] refl
      known-InReach (omega arith) refl (λ w. refl)

-- A radio that hears nothing.
abbrev silence : Radio ℕ
silence = record {
  parse_packet = λ r. (r, 0);
  available = λ r. false;
  read = λ r. (r, 0);
  packet_rssi = λ r. 0;
  begin_packet = λ r. r;
  write = λ r bytes. r;
  end_packet = λ r. r;
}
