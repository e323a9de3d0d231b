-- ===== src/Wire.antt =====
-- SteamLink.h: op codes, acknowledgement codes, the ranges of SLIDs, the packed headers and the
-- packed node configuration. A byte is a number below 256; the layouts are little endian, as on
-- every board that the library supports (ESP8266, ESP32, SAMD, x86).
pub mod Op
pub mod Ack
pub mod Slid
pub mod RoundTrip
use Op
use steamlink_arduino.Prelude.{
  ℕ, ◌+◌, ◌*◌, ◌/◌, ◌%◌, ◌<◌, ◌≡◌, Bool, List, [], ◌∷◌, ◌++◌, ◌==◌, ◌||◌, get_or, take, drop,
  length,
}

-- the conversions to `uint8_t`, `uint16_t` and `uint32_t`
abbrev pub u8 : ℕ → ℕ
u8 n = n % 256

abbrev pub u16 : ℕ → ℕ
u16 n = n % 65536

abbrev pub u32 : ℕ → ℕ
u32 n = n % 4294967296

-- The bytes of a `uint16_t` and of a `uint32_t` in memory.
abbrev pub le16 : ℕ → List ℕ
le16 v = v % 256 ∷ v / 256 % 256 ∷ []

abbrev pub le32 : ℕ → List ℕ
le32 v = v % 256 ∷ v / 256 % 256 ∷ v / 65536 % 256 ∷ v / 16777216 % 256 ∷ []

abbrev pub byte_at : List ℕ → ℕ → ℕ
byte_at b i = get_or b i 0

abbrev pub read16 : List ℕ → ℕ
read16 b = byte_at b 0 + byte_at b 1 * 256

abbrev pub read32 : List ℕ → ℕ
read32 b = byte_at b 0 + byte_at b 1 * 256 + byte_at b 2 * 65536 + byte_at b 3 * 16777216

-- `struct data_header`, 8 bytes packed
pub record DataHeader : Type 0 where
  pub op : ℕ
  pub slid : ℕ
  pub pkg_num : ℕ
  pub rssi : ℕ

-- `struct control_header`, 7 bytes packed
pub record ControlHeader : Type 0 where
  pub op : ℕ
  pub slid : ℕ
  pub pkg_num : ℕ

abbrev pub sizeof_data_header : ℕ
sizeof_data_header = 8

abbrev pub sizeof_control_header : ℕ
sizeof_control_header = 7

-- A header as its bytes in memory, and what a cast of the packet's pointer reads.
unfoldable pub data_header_bytes : DataHeader → List ℕ
data_header_bytes h = h.op ∷ (le32 h.slid ++ (le16 h.pkg_num ++ (h.rssi ∷ [])))

unfoldable pub as_data_header : List ℕ → DataHeader
as_data_header b = record {
  op = byte_at b 0;
  slid = read32 (drop 1 b);
  pkg_num = read16 (drop 5 b);
  rssi = byte_at b 7;
}

unfoldable pub control_header_bytes : ControlHeader → List ℕ
control_header_bytes h = h.op ∷ (le32 h.slid ++ le16 h.pkg_num)

unfoldable pub as_control_header : List ℕ → ControlHeader
as_control_header b = record {
  op = byte_at b 0;
  slid = read32 (drop 1 b);
  pkg_num = read16 (drop 5 b);
}

abbrev pub node_config_version : ℕ
node_config_version = 1

-- `struct SL_NodeCfgStruct`. The floats are kept as their bit patterns, `altitude` as its 16 bits.
pub record NodeCfgStruct : Type 0 where
  pub version : ℕ
  pub slid : ℕ
  pub name : List ℕ
  pub description : List ℕ
  pub gps_lat : ℕ
  pub gps_lon : ℕ
  pub altitude : ℕ
  pub max_silence : ℕ
  pub battery_powered : ℕ
  pub radio_params : ℕ

abbrev pub sizeof_node_cfg : ℕ
sizeof_node_cfg = 60

unfoldable pub node_cfg_bytes : NodeCfgStruct → List ℕ
node_cfg_bytes c =
    c.version
    ∷ (le32 c.slid
        ++ (c.name
            ++ (c.description
                ++ (le32 c.gps_lat
                    ++ (le32 c.gps_lon
                        ++ (le16 c.altitude
                            ++ (c.max_silence ∷ c.battery_powered ∷ c.radio_params ∷ [])))))))

unfoldable pub as_node_cfg : List ℕ → NodeCfgStruct
as_node_cfg b = record {
  version = byte_at b 0;
  slid = read32 (drop 1 b);
  name = take 10 (drop 5 b);
  description = take 32 (drop 15 b);
  gps_lat = read32 (drop 47 b);
  gps_lon = read32 (drop 51 b);
  altitude = read16 (drop 55 b);
  max_silence = byte_at (drop 57 b) 0;
  battery_powered = byte_at (drop 58 b) 0;
  radio_params = byte_at (drop 59 b) 0;
}

-- is_transport, needs_ack and is_data of SteamLinkGeneric.cpp
unfoldable pub is_transport : ℕ → Bool
is_transport op = op == Op.bs || op == Op.tr

unfoldable pub needs_ack : ℕ → Bool
needs_ack op = op == Op.ds || op == Op.on

-- `(op & 0x1) == 1`
unfoldable pub is_data : ℕ → Bool
is_data op = op % 2 == 1
