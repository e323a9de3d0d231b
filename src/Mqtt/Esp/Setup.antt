-- ===== src/Mqtt/Esp/Setup.antt =====
-- The constructor and `init` of SteamLinkESP.cpp. What is printed is left out.
use steamlink_arduino.Prelude.{
  ℕ, suc, ◌≤◌, ◌<◌, ◌≡◌, ◌≢◌, ==_ne, refl, ap, ◌∙◌, Bool, Bool-cases, inl, inr, Option, none, some,
  List, ◌∷◌, ◌++◌, ◌==◌, not, length, if◌then◌else◌,
}
use steamlink_arduino.Prelude.Startup.{Startup, ready, hangs, ◌>>=◌}
use steamlink_arduino.Wire.{NodeCfgStruct}
use steamlink_arduino.Mqtt.Topic.{create_pub_str, create_sub_str}
use steamlink_arduino.Mqtt.Wifi.{Wifi, Credentials, wifi_connect, Down}
use steamlink_arduino.Mqtt.Wifi.Down.{wifi_connect-Down}
use steamlink_arduino.Mqtt.Wifi.Reach.{InReach, wifi_connect-up}
use steamlink_arduino.Mqtt.Esp.{Network, mqtt_connect}

-- `struct SteamLinkESPConfig`
pub record EspConfig : Type 0 where
  pub encrypted : Bool
  pub key : List ℕ
  pub creds : List Credentials
  pub sl_server : List ℕ
  pub sl_serverport : ℕ
  pub sl_username : List ℕ
  pub sl_conid : List ℕ
  pub sl_key : List ℕ
  pub sl_server_fingerprint : List ℕ

-- its size where a pointer has four bytes, with the padding
abbrev pub sizeof_esp_config : ℕ
sizeof_esp_config = 36

-- The fields that the set-up uses. The configuration is not set before `init`.
pub record EspFields : Type 0 where
  pub slid : ℕ
  pub pub_str : List ℕ
  pub sub_str : List ℕ
  pub conf : Option EspConfig

-- The MQTT library's objects: the client with its server, port, connection, user and key, the
-- publisher and the subscription with their topics.
pub record Mqtt (W : Type 0) : Type 0 where
  pub new_client : List ℕ → ℕ → List ℕ → List ℕ → List ℕ → W → W
  pub new_publish : List ℕ → W → W
  pub new_subscribe : List ℕ → W → W
  pub subscribe : W → W
  pub set_callback : W → W

unfoldable pub new : NodeCfgStruct → EspFields
new config = record {
  slid = config.slid;
  pub_str = create_pub_str config.slid;
  sub_str = create_sub_str config.slid;
  conf = none;
}

module _ {W : Type 0} (wifi : Wifi W) (net : Network W) (mqtt : Mqtt W) where
  -- the objects, and the subscription to the node's topic
  unfoldable pub subscribed : EspConfig → EspFields → W → W
  subscribed conf d w =
      let w1 =
        mqtt.new_client conf.sl_server conf.sl_serverport conf.sl_conid conf.sl_username conf.sl_key
          w in
      let w2 = mqtt.new_subscribe d.sub_str (mqtt.new_publish d.pub_str w1) in
      mqtt.set_callback (mqtt.subscribe w2)

  -- The last step's result is not looked at. `fuel` is for the rounds of `wifi_connect`.
  unfoldable pub init : ℕ → EspConfig → ℕ → EspFields → W → Startup (EspFields × W)
  init fuel conf config_length d w = if not (config_length == sizeof_esp_config) then hangs else (do
    w' ← wifi_connect wifi fuel conf.creds (subscribed conf d w)
    ready (record d { conf = some conf }, (mqtt_connect net w').0))

-- A node whose configuration has the right size and names a network in reach among the first six
-- gets ready: subscribed to its topic before it connects, with its configuration noted.
pub esp_ready :
    {W : Type 0} (wifi : Wifi W) (net : Network W) (mqtt : Mqtt W) (conf : EspConfig)
    (d : EspFields) (w : W) (c : Credentials) (before after : List Credentials)
    → conf.creds ≡ before ++ (c ∷ after)
    → InReach wifi c
    → length before ≤ 5
    → (w' : W) × (wifi_connect wifi 2 conf.creds (subscribed wifi net mqtt conf d w) ≡ ready w')
      × (init wifi net mqtt 2 conf 36 d w
          ≡ ready (record d { conf = some conf }, (mqtt_connect net w').0))
unfolding init
esp_ready wifi net mqtt conf d w c before after e reach l =
    let (w', r) = wifi_connect-up wifi c before after (subscribed wifi net mqtt conf d w) reach l in
    let r' = ap (λ n. wifi_connect wifi 2 n (subscribed wifi net mqtt conf d w)) e ∙ r in
    (w', r', rw r' refl)

-- A configuration of another size makes `init` hang, and so does one of more than five networks of
-- which none comes up.
pub esp_hangs :
    {W : Type 0} (wifi : Wifi W) (net : Network W) (mqtt : Mqtt W) (fuel : ℕ) (conf : EspConfig)
    (config_length : ℕ) (d : EspFields) (w : W)
    → (config_length ≢ 36 → init wifi net mqtt fuel conf config_length d w ≡ hangs)
      × (Down wifi
          → 5 < length conf.creds
          → init wifi net mqtt (suc fuel) conf config_length d w ≡ hangs)
unfolding init
esp_hangs wifi net mqtt fuel conf config_length d w = (
  λ n. rw (==_ne config_length 36 n) refl,
  λ down l. elim (Bool-cases (config_length == 36)) [
    | inl y ↦
        rw
          (y, (wifi_connect-Down wifi fuel conf.creds (subscribed wifi net mqtt conf d w) down).0 l)
          refl
    | inr n ↦ rw n refl
  ],
)
