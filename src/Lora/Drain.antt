-- ===== src/Lora/Drain.antt =====
-- A LoRa node whose radio hears nothing: its whole queue goes out over the radio.
use steamlink_arduino.Prelude.{◌+◌, ◌≡◌, refl, ap, ◌∙◌, List, [], ◌∷◌, none, some, length, take}
use steamlink_arduino.Ring.{Relement}
use steamlink_arduino.Ring.Refine.{contents}
use steamlink_arduino.System.{Env, System, Ref, returns, node}
use steamlink_arduino.Send.{Handler}
use steamlink_arduino.Update.Rounds.{IsQuiet, rounds, handed, rounds-drain}
use steamlink_arduino.Update.{no_packet}
use steamlink_arduino.Lora.{Radio, Lora, driver_receive, driver_send}
use steamlink_arduino.Interface.Drivers.{lora_driver}

module _ {R : Type 0} (api : Radio R) where
  -- the radio once these packets have been sent, one in each round
  abbrev pub transmitted : R → List Relement → R
  transmitted r [] = r
  transmitted r (e ∷ rest) =
      transmitted
        (api.end_packet (api.write (api.begin_packet (api.parse_packet r).0) (take e.len e.pkt)))
        rest

  silent :
      (d : Lora R)
      → (api.parse_packet d.radio).1 ≡ 0
      → driver_receive api d ≡ some (record d { radio = (api.parse_packet d.radio).0 }, none)
  unfolding driver_receive
  silent d e = rw e refl

  receive-silent :
      (d : Lora R)
      → ((r : R) → (api.parse_packet r).1 ≡ 0)
      → ((lora_driver api).driver_receive d).1 ≡ no_packet
  unfolding lora_driver
  receive-silent d quiet = rw (silent d (quiet d.radio)) refl

  handed-transmitted :
      (env : Env) (handler : Handler) (d : Lora R) (queue : List Relement)
      → ((r : R) → (api.parse_packet r).1 ≡ 0)
      → handed env handler (lora_driver api) d queue
        ≡ record d { radio = transmitted d.radio queue }
  unfolding lora_driver driver_send
  handed-transmitted env handler d [] quiet = refl
  handed-transmitted env handler d (e ∷ rest) quiet = rw (silent d (quiet d.radio)) (
      handed-transmitted env handler
        (record d {
          radio =
              api.end_packet
                (api.write (api.begin_packet (api.parse_packet d.radio).0) (take e.len e.pkt));
        })
        rest quiet)

-- While the radio hears nothing and no timer is due, so many rounds of a LoRa node's `update` as it
-- has packets queued write every one of them to the radio, in the order in which they were queued,
-- each one whole up to its length, and leave the queue empty.
pub lora_drains :
    {R : Type 0} (api : Radio R) (env : Env) (handler : Handler) (self : Ref) (d : Lora R)
    (s : System)
    → ((r : R) → (api.parse_packet r).1 ≡ 0)
    → IsQuiet env self s
    → let queue = contents (node self s).send_q in
      (s' : System) × (rounds env handler (lora_driver api) self (length queue) d s
        ≡ returns (record d { radio = transmitted api d.radio queue }) s')
      × (contents (node self s').send_q ≡ [])
      × (s'.freed ≡ s.freed + length queue)
unfolding lora_driver
lora_drains api env handler self d s quiet q =
    let queue = contents (node self s).send_q in
    let (s', run, empty, freed, q') =
      rounds-drain env handler (lora_driver api) self d s (λ o. receive-silent api o quiet)
        (λ o. refl) q in
    (
      s',
      run ∙ ap (λ o. returns o s') (handed-transmitted api env handler d queue quiet),
      empty,
      freed,
    )
