-- ===== src/Interface/Deliver.antt =====
-- What a driver hands over to a bridge: packets of at most 255 bytes. Here for the LoRa driver, in
-- the children for the MQTT drivers.
pub mod Queue
pub mod Network
use steamlink_arduino.Prelude.{
  ℕ, zero, suc, ◌+◌, ◌%◌, ◌≤◌, ◌≡◌, refl, ap, sym, subst, ◌∙◌, inl, inr, Bool, true, false,
  Bool-cases, List, [], ◌∷◌, ◌++◌, Option, none, some, length, take, length-take, arith, get_or,
  set, not, ◌==◌, if◌then◌else◌,
}
use steamlink_arduino.Wire.{u8, byte_at, is_data}
use steamlink_arduino.System.{Fault}
use steamlink_arduino.Update.{
  Driver, Reception, Received, no_packet, a_packet, receive_hangs, receive_waits, receive_faults,
}
use steamlink_arduino.Lora
use steamlink_arduino.Lora.{Radio, Lora, read_bytes, hand_over}
use steamlink_arduino.Interface.Drivers.{lora_driver, esp_driver, paho_driver, receiving, settled}
use steamlink_arduino.Sound.{Any}
use steamlink_arduino.Sound.Rounds.{IsReceived, Arrives, Delivers}
use steamlink_arduino.Bridge.Termination.{bridging}

-- what comes of a reception: a packet of at most 255 bytes, if there is one; no wait without an end
abbrev pub Short : Received → Type 0
Short no_packet = Unit {0}
Short receive_hangs = Unit {0}
Short receive_waits = ⊥
Short (a_packet r) = length r.packet ≤ 255
Short (receive_faults e) = Unit {0}

pub Short-Arrives : (r : Received) → Short r → Arrives bridging r
Short-Arrives no_packet h = tt
Short-Arrives receive_hangs h = tt
Short-Arrives receive_waits h = h
Short-Arrives (a_packet r) h = record { size = h; regular = inl refl }
Short-Arrives (receive_faults e) h = refl

length-take_le : (k : ℕ) (b : List ℕ) → k ≤ 255 → length (take k b) ≤ 255
length-take_le k b h = omega (arith, length-take k b)

module _ {R : Type 0} (api : Radio R) where
  -- the bytes read, if they fit
  abbrev Within : ℕ → Option (R × List ℕ) → Type 0
  Within room none = Unit {0}
  Within room (some (r, bytes)) = length bytes ≤ room

  one_more :
      (room b : ℕ) (o : Option (R × List ℕ))
      → Within room o
      → Within (suc room) (elim o [ none ↦ none | some (r, bytes) ↦ some (r, b ∷ bytes) ])
  one_more room b none h = tt
  one_more room b (some (r, bytes)) h = omega arith

  read_bytes-Within : (room : ℕ) (r : R) → Within room (read_bytes api room r)
  unfolding read_bytes
  read_bytes-Within zero r = elim (Bool-cases (api.available r)) [
    | inl more ↦ rw more tt
    | inr done ↦ rw done (omega arith)
  ]
  read_bytes-Within (suc room) r = elim (Bool-cases (api.available r)) [
    | inl more ↦ rw more (
        one_more room (api.read r).1 (read_bytes api room (api.read r).0)
          (read_bytes-Within room (api.read r).0))
    | inr done ↦ rw done (omega arith)
  ]

  handed-Short :
      (d : Lora R) (o : Option (R × List ℕ))
      → Within 255 o
      → Short
          (receiving Fault.write_out_of_range d (elim o [
            | none ↦ none
            | some (r, bytes) ↦ some (hand_over api r d.driverbuffer bytes)
          ])).1
  unfolding hand_over
  handed-Short d none h = tt
  handed-Short d (some (r, bytes)) h = length-take_le (length bytes) _ h

  receive-Short : (d : Lora R) → Short ((lora_driver api).driver_receive d).1
  unfolding lora_driver Lora.driver_receive
  receive-Short d = elim (Bool-cases ((api.parse_packet d.radio).1 == 0)) [
    | inl nothing ↦ rw nothing tt
    | inr some_bytes ↦ rw some_bytes (
        handed-Short d (read_bytes api 255 (api.parse_packet d.radio).0)
          (read_bytes-Within 255 (api.parse_packet d.radio).0))
  ]

  -- The LoRa driver keeps nothing, and hands over at most what its buffer holds.
  pub lora_driver-Delivers : Delivers bridging Any (lora_driver api)
  lora_driver-Delivers = record {
    receives = λ d i. (tt, Short-Arrives _ (receive-Short d));
    takes = λ d packet len slid i p. tt;
  }
