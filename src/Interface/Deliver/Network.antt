-- ===== src/Interface/Deliver/Network.antt =====
-- What the ESP driver hands over: short packets, where the network's messages are short.
use steamlink_arduino.Prelude.{
  ℕ, ◌≢◌, refl, inl, inr, Bool, true, false, Bool-cases, List, [], Option, none, some,
  if◌then◌else◌,
}
use steamlink_arduino.Prelude.Startup.{Startup, ready, hangs, waits, ◌>>=◌}
use steamlink_arduino.Ring.{RingBuff}
use steamlink_arduino.System.{Fault}
use steamlink_arduino.Update.{Reception, Received}
use steamlink_arduino.Mqtt.Esp
use steamlink_arduino.Mqtt.Esp.{Network, Esp}
use steamlink_arduino.Mqtt.Wifi.{Wifi, Credentials, wifi_connect}
use steamlink_arduino.Mqtt.{arrivals, next_packet}
use steamlink_arduino.Interface.Drivers.{esp_driver, receiving, settled}
use steamlink_arduino.Sound.Rounds.{Delivers}
use steamlink_arduino.Bridge.Termination.{bridging}
use steamlink_arduino.Interface.Deliver.{Short, Short-Arrives}
use steamlink_arduino.Interface.Deliver.Queue.{
  AllShort, ShortMessages, LeavesShort, arrivals-AllShort, next_packet-LeavesShort,
}

-- what the driver keeps
abbrev pub EspShort : {C : Type 0} → Esp C → Type 0
EspShort d = AllShort d.queue.ring

module _ {C : Type 0} (api : Network C) (wifi : Wifi C) (fuel : ℕ) (creds : List Credentials) where
  -- a start-up that does not wait without an end, and gives only short messages, if it gets that far
  abbrev ShortPoll : Startup (C × List (List ℕ)) → Type 0
  ShortPoll (ready (c, messages)) = ShortMessages messages
  ShortPoll hangs = Unit {0}
  ShortPoll waits = ⊥

  polled-Short :
      (ok : Bool) (c : C)
      → ((c : C) → ShortMessages (api.process_packets c).1)
      → ShortMessages (if ok then api.process_packets c else (c, [])).1
  polled-Short true c l = l c
  polled-Short false c l = tt

  poll_after :
      (w : Startup C)
      → w ≢ waits
      → ((c : C) → ShortMessages (api.process_packets c).1)
      → ShortPoll (
          w >>= (λ c1.
            let (c', ok) = Esp.mqtt_connect api c1 in
            ready (if ok then api.process_packets c' else (c', []))))
  poll_after (ready c1) u l = polled-Short (Esp.mqtt_connect api c1).1 (Esp.mqtt_connect api c1).0 l
  poll_after hangs u l = tt
  poll_after waits u l = u refl

  esp_keeps :
      (d : Esp C) (c : C) (o : Option (RingBuff × Option Reception))
      → EspShort d
      → LeavesShort o
      → let r : Esp C × Received = receiving Fault.read_out_of_range d (elim o [
        | none ↦ none
        | some (q, received) ↦ some (record { client = c; queue = q }, received)
      ]) in
        EspShort r.0 × Short r.1
  esp_keeps d c none k h = (k, tt)
  esp_keeps d c (some (q, received)) k h = h

  esp_polled :
      (d : Esp C) (w : Startup (C × List (List ℕ)))
      → ShortPoll w
      → EspShort d
      → let r : Esp C × Received = settled d (
          w >>= (λ x. ready (elim (next_packet (arrivals d.queue x.1) (api.rssi x.0)) [
            | none ↦ none
            | some (q, received) ↦ some (record { client = x.0; queue = q }, received)
          ]))) in
        EspShort r.0 × Short r.1
  esp_polled d (ready (c, messages)) l h =
      esp_keeps d c (next_packet (arrivals d.queue messages) (api.rssi c)) h (
        next_packet-LeavesShort (arrivals d.queue messages) (api.rssi c)
          (arrivals-AllShort d.queue messages h l))
  esp_polled d hangs l h = (h, tt)
  esp_polled d waits l h = (h, l)

  esp_receives :
      (d : Esp C)
      → ((c : C) → wifi_connect wifi fuel creds c ≢ waits)
      → ((c : C) → ShortMessages (api.process_packets c).1)
      → EspShort d
      → EspShort ((esp_driver api wifi fuel creds).driver_receive d).0
        × Short ((esp_driver api wifi fuel creds).driver_receive d).1
  unfolding esp_driver Esp.driver_receive Esp.poll
  esp_receives d u l h =
      esp_polled d (Esp.poll api wifi fuel creds d.client)
        (poll_after (wifi_connect wifi fuel creds d.client) (u d.client) l) h

  esp_takes :
      (d : Esp C) (packet : List ℕ) (len slid : ℕ)
      → EspShort d
      → EspShort ((esp_driver api wifi fuel creds).driver_send d packet len slid).0
  unfolding esp_driver Esp.driver_send
  esp_takes d packet len slid h = elim (Bool-cases (api.connected d.client)) [
    | inl on ↦ rw on h
    | inr off ↦ rw off h
  ]

  pub esp_driver-Delivers :
      ((c : C) → wifi_connect wifi fuel creds c ≢ waits)
      → ((c : C) → ShortMessages (api.process_packets c).1)
      → Delivers bridging EspShort (esp_driver api wifi fuel creds)
  esp_driver-Delivers u l = record {
    receives = λ d h. let (kept, short) = esp_receives d u l h in (kept, Short-Arrives _ short);
    takes = λ d packet len slid h p. esp_takes d packet len slid h;
  }
