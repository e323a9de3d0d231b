-- ===== src/Wire/RoundTrip.antt =====
-- The packed structs of SteamLink.h: what is written into a packet is what a cast of it reads.
use steamlink_arduino.Prelude.{
  ℕ, ◌+◌, ◌<◌, ◌^◌, ◌≡◌, refl, ap, ◌∙◌, List, [], ◌∷◌, ◌++◌, arith, length, take, drop,
  length-append, take-append, drop-append,
}
use steamlink_arduino.Wire.{
  DataHeader, ControlHeader, NodeCfgStruct, le16, le32, read16, read32, byte_at, data_header_bytes,
  as_data_header, control_header_bytes, as_control_header, node_cfg_bytes, as_node_cfg,
  sizeof_node_cfg, sizeof_data_header, sizeof_control_header,
}

pub read32-le32 : (v : ℕ) (rest : List ℕ) → v < 2 ^ 32 → read32 (le32 v ++ rest) ≡ v
read32-le32 v rest h = omega arith

pub read16-le16 : (v : ℕ) (rest : List ℕ) → v < 2 ^ 16 → read16 (le16 v ++ rest) ≡ v
read16-le16 v rest h = omega arith

-- A data header followed by any payload is read back, field by field, and takes 8 bytes.
pub data_header_round_trip :
    (h : DataHeader) (payload : List ℕ)
    → h.slid < 2 ^ 32
    → h.pkg_num < 2 ^ 16
    → (as_data_header (data_header_bytes h ++ payload) ≡ h)
      × (length (data_header_bytes h) ≡ sizeof_data_header)
unfolding data_header_bytes as_data_header
data_header_round_trip h payload s p =
    (ground (arith, read32-le32 h.slid [] s, read16-le16 h.pkg_num [] p), refl)

-- So is a control header, in 7 bytes.
pub control_header_round_trip :
    (h : ControlHeader) (payload : List ℕ)
    → h.slid < 2 ^ 32
    → h.pkg_num < 2 ^ 16
    → (as_control_header (control_header_bytes h ++ payload) ≡ h)
      × (length (control_header_bytes h) ≡ sizeof_control_header)
unfolding control_header_bytes as_control_header
control_header_round_trip h payload s p =
    (ground (arith, read32-le32 h.slid [] s, read16-le16 h.pkg_num [] p), refl)

-- The fields of a configuration fit their types and arrays.
pub record IsValid (c : NodeCfgStruct) : Type 0 where
  pub slid_in : c.slid < 2 ^ 32
  pub name_size : length c.name ≡ 10
  pub description_size : length c.description ≡ 32
  pub gps_lat_in : c.gps_lat < 2 ^ 32
  pub gps_lon_in : c.gps_lon < 2 ^ 32
  pub altitude_in : c.altitude < 2 ^ 16

-- the bytes behind `name` and behind `description`
abbrev tail_bytes : NodeCfgStruct → List ℕ
tail_bytes c =
    le32 c.gps_lat
    ++ (le32 c.gps_lon
        ++ (le16 c.altitude ++ (c.max_silence ∷ c.battery_powered ∷ c.radio_params ∷ [])))

-- A field behind the two arrays is found at its offset from their end.
drop-arrays :
    (n k : ℕ) (c : NodeCfgStruct)
    → IsValid c
    → n ≡ 42 + k
    → drop n (c.name ++ (c.description ++ tail_bytes c)) ≡ drop k (tail_bytes c)
drop-arrays n k c v h =
    drop-append n (32 + k) c.name (c.description ++ tail_bytes c) (omega arith)
    ∙ drop-append (32 + k) k c.description (tail_bytes c) (omega arith)

pub length-node_cfg_bytes :
    (c : NodeCfgStruct)
    → length c.name ≡ 10
    → length c.description ≡ 32
    → length (node_cfg_bytes c) ≡ sizeof_node_cfg
unfolding node_cfg_bytes
length-node_cfg_bytes c n d = omega (
  arith,
  length-append c.name (c.description ++ tail_bytes c),
  length-append c.description (tail_bytes c),
)

-- A node configuration is 60 bytes in memory, and is read back from them field by field.
pub node_cfg_round_trip :
    (c : NodeCfgStruct)
    → IsValid c
    → (as_node_cfg (node_cfg_bytes c) ≡ c) × (length (node_cfg_bytes c) ≡ sizeof_node_cfg)
unfolding node_cfg_bytes as_node_cfg
node_cfg_round_trip c v = (
  λ i. record {
    version = c.version;
    slid = read32-le32 c.slid [] v.slid_in i;
    name = take-append 10 c.name (c.description ++ tail_bytes c) (omega arith) i;
    description =
        (ap (take 32) (drop-append 10 0 c.name (c.description ++ tail_bytes c) (omega arith))
            ∙ take-append 32 c.description (tail_bytes c) (omega arith))
          i;
    gps_lat = (ap read32 (drop-arrays 42 0 c v refl) ∙ read32-le32 c.gps_lat [] v.gps_lat_in) i;
    gps_lon = (ap read32 (drop-arrays 46 4 c v refl) ∙ read32-le32 c.gps_lon [] v.gps_lon_in) i;
    altitude = (ap read16 (drop-arrays 50 8 c v refl) ∙ read16-le16 c.altitude [] v.altitude_in) i;
    max_silence = ap first (drop-arrays 52 10 c v refl) i;
    battery_powered = ap first (drop-arrays 53 11 c v refl) i;
    radio_params = ap first (drop-arrays 54 12 c v refl) i;
  },
  length-node_cfg_bytes c v.name_size v.description_size,
)
  where
    first : List ℕ → ℕ
    first b = byte_at b 0
