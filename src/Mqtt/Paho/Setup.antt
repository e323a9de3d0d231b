-- ===== src/Mqtt/Paho/Setup.antt =====
-- The constructor and `init` of SteamLinkPaho.cpp, and its topics. Of what is printed, the lines of
-- `printf` are kept.
use steamlink_arduino.Prelude.{
  ℕ, ◌≡◌, ◌≢◌, ==_ne, refl, Bool, List, [], ◌∷◌, ◌++◌, Option, none, some, ◌==◌, not, if◌then◌else◌,
}
use steamlink_arduino.Prelude.Text.{codes}
use steamlink_arduino.Prelude.Startup.{Startup, ready, hangs}
use steamlink_arduino.Debug.{Item, number, newline, say}
use steamlink_arduino.Wire.{NodeCfgStruct}
use steamlink_arduino.Mqtt.Topic
use steamlink_arduino.Mqtt.Topic.{snprintf, topic_text}

abbrev pub default_topic_len : ℕ
default_topic_len = 100

unfoldable pub create_pub_str : ℕ → List ℕ
create_pub_str slid = snprintf default_topic_len (topic_text (codes "/data") slid)

unfoldable pub create_sub_str : ℕ → List ℕ
create_sub_str slid = snprintf default_topic_len (topic_text (codes "/control") slid)

-- `struct SteamLinkPahoConfig`
pub record PahoConfig : Type 0 where
  pub encrypted : Bool
  pub key : List ℕ
  pub sl_server : List ℕ
  pub sl_serverport : ℕ
  pub sl_username : List ℕ
  pub sl_conid : List ℕ
  pub sl_key : List ℕ
  pub sl_server_fingerprint : List ℕ

-- its size where a pointer has eight bytes, with the padding
abbrev pub sizeof_paho_config : ℕ
sizeof_paho_config = 64

pub record PahoFields : Type 0 where
  pub slid : ℕ
  pub pub_str : List ℕ
  pub sub_str : List ℕ
  pub conf : Option PahoConfig

-- The calls of the client's library, over its state; each gives a code, 0 for success.
-- `connect` names the MQTT version and the client.
pub record Library (W : Type 0) : Type 0 where
  pub new_client : W → W
  pub tcp_connect : List ℕ → ℕ → W → W × ℕ
  pub connect : ℕ → List ℕ → W → W × ℕ
  pub subscribe : List ℕ → W → W × ℕ

unfoldable pub new : NodeCfgStruct → PahoFields
new config = record {
  slid = config.slid;
  pub_str = create_pub_str config.slid;
  sub_str = create_sub_str config.slid;
  conf = none;
}

-- `if (rc != 0) printf("rc from .. is %d\n", rc)`
abbrev pub complaint : List Item → ℕ → List Item
complaint what rc = if not (rc == 0) then what ++ (say " is " ∷ number rc ∷ newline ∷ []) else []

module _ {W : Type 0} (lib : Library W) where
  unfoldable pub init : PahoConfig → ℕ → PahoFields → W → Startup (PahoFields × W × List Item)
  init conf config_length d w =
      if not (config_length == sizeof_paho_config)
      then hangs
      else (let (w1, rc1) = lib.tcp_connect conf.sl_server conf.sl_serverport (lib.new_client w) in
          let (w2, rc2) = lib.connect 4 conf.sl_conid w1 in
          let (w3, rc3) = lib.subscribe d.sub_str w2 in
          ready (
            record d { conf = some conf },
            w3,
            complaint (say "rc from TCP connect" ∷ []) rc1
                ++ (complaint (say "rc from MQTT connect" ∷ []) rc2
                    ++ (say "MQTT connected"
                        ∷ newline
                        ∷ complaint (say "rc from MQTT subscribe" ∷ []) rc3)),
          ))

-- Whatever the connections come to, `init` goes on to the subscription and returns: where neither
-- connection succeeds, it prints both errors and still says that MQTT is connected.
pub paho_goes_on :
    {W : Type 0} (lib : Library W) (conf : PahoConfig) (d : PahoFields) (w w1 w2 w3 : W)
    (rc1 rc2 : ℕ)
    → lib.tcp_connect conf.sl_server conf.sl_serverport (lib.new_client w) ≡ (w1, rc1)
    → lib.connect 4 conf.sl_conid w1 ≡ (w2, rc2)
    → lib.subscribe d.sub_str w2 ≡ (w3, 0)
    → rc1 ≢ 0
    → rc2 ≢ 0
    → init lib conf 64 d w
      ≡ ready (
        record d { conf = some conf },
        w3,
        say "rc from TCP connect"
            ∷ say " is "
            ∷ number rc1
            ∷ newline
            ∷ say "rc from MQTT connect"
            ∷ say " is "
            ∷ number rc2
            ∷ newline
            ∷ say "MQTT connected"
            ∷ newline
            ∷ [],
      )
unfolding init
paho_goes_on lib conf d w w1 w2 w3 rc1 rc2 e1 e2 e3 n1 n2 =
    rw (e1, e2, e3, ==_ne rc1 0 n1, ==_ne rc2 0 n2) refl

-- A node of this driver has the topics that the node of the same SLID has with the other.
pub same_topics :
    (config : NodeCfgStruct)
    → ((new config).pub_str ≡ Topic.create_pub_str config.slid)
      × ((new config).sub_str ≡ Topic.create_sub_str config.slid)
unfolding create_pub_str create_sub_str Topic.create_pub_str Topic.create_sub_str new
same_topics config = (refl, refl)
