-- ===== src/Lora/Receive.antt =====
-- What the LoRa driver hands over of the bytes that the radio holds.
use steamlink_arduino.Prelude.{
  ℕ, zero, suc, ◌+◌, ◌*◌, ◌≤◌, ◌<◌, ◌^◌, ◌≡◌, refl, ap, ◌∙◌, sym, true, false, List, [], ◌∷◌, ◌++◌,
  none, some, arith, length, drop, take-append, ==_ne,
}
use steamlink_arduino.Wire.{
  u8, DataHeader, ControlHeader, data_header_bytes, control_header_bytes, is_data,
}
use steamlink_arduino.Wire.RoundTrip.{control_header_round_trip}
use steamlink_arduino.Lora.{
  Radio, Lora, read_bytes, hand_over, driver_receive, get_node_from_slid, get_mesh_from_slid,
}

-- The radio says of each byte of a packet that it is available, and hands over the next one.
abbrev pub Holds : {R : Type 0} → Radio R → R → List ℕ → R → Type 0
Holds api r [] last = (api.available r ≡ false) × (r ≡ last)
Holds api r (b ∷ bs) last =
    (api.available r ≡ true) × ((api.read r).1 ≡ b) × Holds api (api.read r).0 bs last

read_bytes_lem :
    {R : Type 0} (api : Radio R) (room : ℕ) (bytes : List ℕ) (r last : R)
    → Holds api r bytes last
    → length bytes ≤ room
    → read_bytes api room r ≡ some (last, bytes)
unfolding read_bytes
read_bytes_lem api zero [] r last h l = rw (h.0, h.1)
read_bytes_lem api (suc room) [] r last h l = rw (h.0, h.1)
read_bytes_lem api zero (b ∷ bs) r last h l = absurd (omega arith)
read_bytes_lem api (suc room) (b ∷ bs) r last (a, e, h) l =
    rw (a, read_bytes_lem api room bs (api.read r).0 last h (omega arith), e)

-- With more bytes than room, the loop writes past the end of the buffer.
read_bytes-overflows :
    {R : Type 0} (api : Radio R) (room : ℕ) (bytes : List ℕ) (r last : R)
    → Holds api r bytes last
    → room < length bytes
    → read_bytes api room r ≡ none
unfolding read_bytes
read_bytes-overflows api room [] r last h l = absurd (omega arith)
read_bytes-overflows api zero (b ∷ bs) r last h l = rw h.0
read_bytes-overflows api (suc room) (b ∷ bs) r last (a, e, h) l =
    rw (a, read_bytes-overflows api room bs (api.read r).0 last h (omega arith))

-- A SLID is its 24-bit mesh and its 8-bit node address.
pub slid_split :
    (slid : ℕ)
    → slid < 2 ^ 32
    → (get_mesh_from_slid slid * 256 + get_node_from_slid slid ≡ slid)
      × (get_mesh_from_slid slid < 2 ^ 24)
      × (get_node_from_slid slid < 2 ^ 8)
unfolding get_mesh_from_slid get_node_from_slid
slid_split slid h = (omega arith, omega arith, omega arith)

module _ {R : Type 0} (api : Radio R) (d : Lora R) (r last : R) where
  receive_lem :
      (bytes : List ℕ)
      → api.parse_packet d.radio ≡ (r, length bytes)
      → 0 < length bytes
      → Holds api r bytes last
      → length bytes ≤ 255
      → driver_receive api d ≡ some (hand_over api last d.driverbuffer bytes)
  unfolding driver_receive
  receive_lem bytes p l h f =
      rw (p, ==_ne (length bytes) 0 (λ e. omega arith), read_bytes_lem api 255 bytes r last h f)

  -- A packet of more than 255 bytes, if the radio had one, would be written past the end of the
  -- driver's buffer.
  pub receive_overflows :
      (bytes : List ℕ)
      → api.parse_packet d.radio ≡ (r, length bytes)
      → Holds api r bytes last
      → 255 < length bytes
      → driver_receive api d ≡ none
  unfolding driver_receive
  receive_overflows bytes p h f =
      rw (
        p,
        ==_ne (length bytes) 0 (λ e. omega arith),
        read_bytes-overflows api 255 bytes r last h f,
      )

  control_lem :
      (h : ControlHeader) (payload : List ℕ)
      → is_data h.op ≡ false
      → h.slid < 2 ^ 32
      → h.pkg_num < 2 ^ 16
      → length payload + 7 < 256
      → let packet = control_header_bytes h ++ payload in
        hand_over api last d.driverbuffer packet ≡ (
          record { radio = last; driverbuffer = packet ++ drop (length packet) d.driverbuffer },
          some (record {
            packet = packet;
            packet_size = length payload + 7;
            slid = h.slid;
            rssi = api.packet_rssi last;
          }),
        )
  unfolding hand_over control_header_bytes
  control_lem h payload c s n f =
      let packet = control_header_bytes h ++ payload in
      let size : u8 (length packet) ≡ length payload + 7 = omega arith in
      rw (
        c,
        take-append (length packet) packet (drop (length packet) d.driverbuffer) refl,
        size,
        (control_header_round_trip h (payload ++ drop (length packet) d.driverbuffer) s n).0,
      )

  data_lem :
      (h : DataHeader) (payload : List ℕ)
      → is_data h.op ≡ true
      → length payload + 8 < 256
      → let packet = data_header_bytes h ++ payload in
        let noted = data_header_bytes (record h { rssi = api.packet_rssi last }) ++ payload in
        hand_over api last d.driverbuffer packet ≡ (
          record { radio = last; driverbuffer = noted ++ drop (length packet) d.driverbuffer },
          some (record {
            packet = noted;
            packet_size = length payload + 8;
            slid = 0;
            rssi = api.packet_rssi last;
          }),
        )
  unfolding hand_over data_header_bytes
  data_lem h payload c f =
      let packet = data_header_bytes h ++ payload in
      let noted = data_header_bytes (record h { rssi = api.packet_rssi last }) ++ payload in
      let size : u8 (length packet) ≡ length payload + 8 = omega arith in
      rw (c, size, take-append (length packet) noted (drop (length packet) d.driverbuffer) refl)

  -- A control packet of at most 255 bytes is handed over as it came from the radio, whatever an
  -- earlier packet has left in the driver's buffer, addressed to the SLID in its header.
  pub receive_control :
      (h : ControlHeader) (payload : List ℕ)
      → api.parse_packet d.radio ≡ (r, length payload + 7)
      → Holds api r (control_header_bytes h ++ payload) last
      → is_data h.op ≡ false
      → h.slid < 2 ^ 32
      → h.pkg_num < 2 ^ 16
      → length payload + 7 < 256
      → (d' : Lora R) × (driver_receive api d
          ≡ some (
            d',
            some (record {
              packet = control_header_bytes h ++ payload;
              packet_size = length payload + 7;
              slid = h.slid;
              rssi = api.packet_rssi last;
            }),
          ))
  unfolding control_header_bytes
  receive_control h payload p held c s n f =
      let packet = control_header_bytes h ++ payload in
      let buffer = drop (length packet) d.driverbuffer in
      let size : length packet ≡ length payload + 7 = omega arith in
      (
        record { radio = last; driverbuffer = packet ++ buffer },
        receive_lem packet (p ∙ ap (λ k. (r, k)) (sym size)) (omega arith) held (omega arith)
            ∙ ap (λ x. some x) (control_lem h payload c s n f),
      )

  -- A data packet of at most 255 bytes is handed over addressed to no one, with the signal strength
  -- of its last hop in place of the one in its header, and otherwise as it came from the radio.
  pub receive_data :
      (h : DataHeader) (payload : List ℕ)
      → api.parse_packet d.radio ≡ (r, length payload + 8)
      → Holds api r (data_header_bytes h ++ payload) last
      → is_data h.op ≡ true
      → length payload + 8 < 256
      → (d' : Lora R) × (driver_receive api d
          ≡ some (
            d',
            some (record {
              packet = data_header_bytes (record h { rssi = api.packet_rssi last }) ++ payload;
              packet_size = length payload + 8;
              slid = 0;
              rssi = api.packet_rssi last;
            }),
          ))
  unfolding data_header_bytes
  receive_data h payload p held c f =
      let packet = data_header_bytes h ++ payload in
      let size : length packet ≡ length payload + 8 = omega arith in
      let noted = data_header_bytes (record h { rssi = api.packet_rssi last }) ++ payload in
      (
        record { radio = last; driverbuffer = noted ++ drop (length packet) d.driverbuffer },
        receive_lem packet (p ∙ ap (λ k. (r, k)) (sym size)) (omega arith) held (omega arith)
            ∙ ap (λ x. some x) (data_lem h payload c f),
      )
