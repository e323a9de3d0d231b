-- ===== src/Mqtt/Paho.antt =====
-- SteamLinkPaho.h and SteamLinkPaho.cpp. What they use of the Paho client is an argument.
pub mod Setup
use steamlink_arduino.Prelude.{
  ℕ, ◌-◌, ◌<◌, ◌≡◌, ap, Bool, true, List, [], ◌∷◌, Option, none, some, length, take,
}
use steamlink_arduino.Wire.{u8}
use steamlink_arduino.Ring.Refine.{IsValid, contents}
use steamlink_arduino.Ring.{RingBuff}
use steamlink_arduino.Update.{Reception}
use steamlink_arduino.Mqtt.{arrivals, next_packet, slid_of}
use steamlink_arduino.Mqtt.Queue.{stored, next_packet_lem}

-- The client, over its own state: `yield` gives the messages for which it has called back, and
-- `publish` takes a packet for the topic of the node's data, and gives an error code.
pub record Client (C : Type 0) : Type 0 where
  pub yield : C → C × List (List ℕ)
  pub publish : C → List ℕ → C × ℕ

pub record Paho (C : Type 0) : Type 0 where
  pub client : C
  pub queue : RingBuff

module _ {C : Type 0} (api : Client C) where
  unfoldable pub driver_receive : Paho C → Option (Paho C × Option Reception)
  driver_receive d =
      let (c, messages) = api.yield d.client in
      elim (next_packet (arrivals d.queue messages) 255) [
        | none ↦ none
        | some (q, received) ↦ some (record { client = c; queue = q }, received)
      ]

  -- An error is printed, and not reported.
  unfoldable pub driver_send : Paho C → List ℕ → ℕ → ℕ → Paho C × Bool
  driver_send d packet packet_size slid =
      (record d { client = (api.publish d.client (take packet_size packet)).0 }, true)

handed_over :
    {C : Type 0} (api : Client C) (d : Paho C) (c : C) (messages : List (List ℕ)) (q : RingBuff)
    (received : Option Reception)
    → api.yield d.client ≡ (c, messages)
    → next_packet (arrivals d.queue messages) 255 ≡ some (q, received)
    → driver_receive api d ≡ some (record { client = c; queue = q }, received)
unfolding driver_receive
handed_over {C} api d c messages q received y run =
    rw (driver_receive, y, run)
      (ap (λ (x : C × List (List ℕ)). some (record { client = x.0; queue = q }, received)) y)

-- A message that arrives while the queue is empty is handed over in the same round, for the SLID
-- that its header names; the messages behind it wait, as far as there is room.
pub receive_from_paho :
    {C : Type 0} (api : Client C) (d : Paho C) (c : C) (message : List ℕ) (messages : List (List ℕ))
    (slid : ℕ)
    → IsValid d.queue
    → contents d.queue ≡ []
    → 1 < d.queue.ringsize
    → api.yield d.client ≡ (c, message ∷ messages)
    → slid_of message ≡ some slid
    → (q : RingBuff) × (driver_receive api d
        ≡ some (
          record { client = c; queue = q },
          some (record {
            packet = message;
            packet_size = u8 (length message);
            slid = slid;
            rssi = 255;
          }),
        ))
      × (contents q ≡ take (d.queue.ringsize - 2) (stored messages))
receive_from_paho api d c message messages slid v e l y s =
    let (q, run, rest, w) = next_packet_lem d.queue 255 message messages slid v e l s in
    (q, handed_over api d c (message ∷ messages) q _ y run, rest)
