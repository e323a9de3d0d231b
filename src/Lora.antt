-- ===== src/Lora.antt =====
-- SteamLinkLoRa.h and SteamLinkLoRa.cpp: the driver over a LoRa radio. The radio's library is an
-- argument; a write outside `driverbuffer` is `none`.
pub mod Receive
pub mod Setup
pub mod Drain
use steamlink_arduino.Prelude.{
  ℕ, zero, suc, ◌/◌, ◌%◌, Bool, true, List, [], ◌∷◌, ◌++◌, Option, none, some, ◌==◌, if◌then◌else◌,
  length, set, take, drop,
}
use steamlink_arduino.Wire.{u8, as_control_header, is_data, byte_at}
use steamlink_arduino.Wire.Slid
use steamlink_arduino.Update.{Reception}

-- What the driver calls of the radio, over the radio's state. `packet_rssi` is taken as the
-- `uint8_t` that the driver keeps of it.
pub record Radio (R : Type 0) : Type 0 where
  pub parse_packet : R → R × ℕ
  pub available : R → Bool
  pub read : R → R × ℕ
  pub packet_rssi : R → ℕ
  pub begin_packet : R → R
  pub write : R → List ℕ → R
  pub end_packet : R → R

pub record Lora (R : Type 0) : Type 0 where
  pub radio : R
  pub driverbuffer : List ℕ

abbrev pub max_message_len : ℕ
max_message_len = 255

unfoldable pub get_node_from_slid : ℕ → ℕ
get_node_from_slid slid = slid % 256

unfoldable pub get_mesh_from_slid : ℕ → ℕ
get_mesh_from_slid slid = slid / 256

-- the constructor's test, which leads to an endless loop
unfoldable pub slid_refused : ℕ → Bool
slid_refused slid = get_node_from_slid slid == get_node_from_slid Slid.store_addr

module _ {R : Type 0} (api : Radio R) where
  -- `while (available())`, with room for so many more bytes in `driverbuffer`
  unfoldable pub read_bytes : ℕ → R → Option (R × List ℕ)
  read_bytes zero r = if api.available r then none else some (r, [])
  read_bytes (suc room) r =
      let rest : Option (R × List ℕ) = elim (read_bytes room (api.read r).0) [
        | none ↦ none
        | some (r', bytes) ↦ some (r', (api.read r).1 ∷ bytes)
      ] in
      if api.available r then rest else some (r, [])

  -- The bytes stand in `driverbuffer`, before what earlier packets have left there.
  unfoldable pub hand_over : R → List ℕ → List ℕ → Lora R × Option Reception
  hand_over r buffer bytes =
      let raw = bytes ++ drop (length bytes) buffer in
      let rssi = api.packet_rssi r in
      let noted = if is_data (byte_at raw 0) then set raw 7 rssi else raw in
      (
        record { radio = r; driverbuffer = noted },
        some (record {
          packet = take (length bytes) noted;
          packet_size = u8 (length bytes);
          slid = if is_data (byte_at raw 0) then 0 else (as_control_header raw).slid;
          rssi = rssi;
        }),
      )

  unfoldable pub driver_receive : Lora R → Option (Lora R × Option Reception)
  driver_receive d =
      let (r, packet_size) = api.parse_packet d.radio in
      if packet_size == 0
      then some (record d { radio = r }, none)
      else elim (read_bytes max_message_len r) [
        | none ↦ none
        | some (r', bytes) ↦ some (hand_over r' d.driverbuffer bytes)
      ]

  unfoldable pub driver_can_send : Lora R → Bool
  driver_can_send d = true

  unfoldable pub driver_send : Lora R → List ℕ → ℕ → ℕ → Lora R × Bool
  driver_send d packet packet_size slid = (
    record d {
      radio = api.end_packet (api.write (api.begin_packet d.radio) (take packet_size packet));
    },
    true,
  )
