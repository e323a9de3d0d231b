-- ===== src/Interface/Deliver/Queue.antt =====
-- The MQTT drivers' receive queue, and what the Paho driver hands over: short packets, where the
-- network's messages are short.
use steamlink_arduino.Prelude.{
  ℕ, zero, suc, ◌≤◌, inl, inr, Bool-cases, List, [], ◌∷◌, Option, none, some, length, arith, get_or,
  set, ◌==◌,
}
use steamlink_arduino.Wire.{u8}
use steamlink_arduino.Ring.{Relement, RingBuff, blank, enqueue, dequeue, queuelevel}
use steamlink_arduino.System.{Fault}
use steamlink_arduino.Update.{Reception, Received}
use steamlink_arduino.Mqtt.Paho
use steamlink_arduino.Mqtt.Paho.{Client, Paho}
use steamlink_arduino.Mqtt.{sub_callback, arrivals, slid_of, next_packet}
use steamlink_arduino.Interface.Drivers.{paho_driver, receiving, arrived}
use steamlink_arduino.Sound.Rounds.{Delivers}
use steamlink_arduino.Bridge.Termination.{bridging}
use steamlink_arduino.Interface.Deliver.{Short, Short-Arrives}

-- every packet of a receive queue
abbrev pub AllShort : List Relement → Type 0
AllShort [] = Unit {0}
AllShort (e ∷ es) = (length e.pkt ≤ 255) × AllShort es

abbrev pub ShortMessages : List (List ℕ) → Type 0
ShortMessages [] = Unit {0}
ShortMessages (m ∷ ms) = (length m ≤ 255) × ShortMessages ms

AllShort-set :
    (es : List Relement) (i : ℕ) (e : Relement)
    → AllShort es
    → length e.pkt ≤ 255
    → AllShort (set es i e)
AllShort-set [] i e h l = tt
AllShort-set (x ∷ es) zero e h l = (l, h.1)
AllShort-set (x ∷ es) (suc i) e h l = (h.0, AllShort-set es i e h.1 l)

get_or-short : (es : List Relement) (i : ℕ) → AllShort es → length (get_or es i blank).pkt ≤ 255
get_or-short [] i h = omega arith
get_or-short (x ∷ es) zero h = h.0
get_or-short (x ∷ es) (suc i) h = get_or-short es i h.1

callback-AllShort :
    (q : RingBuff) (message : List ℕ)
    → AllShort q.ring
    → length message ≤ 255
    → AllShort (sub_callback q message).ring
unfolding sub_callback enqueue
callback-AllShort q m h l =
    grind
      (arith, AllShort-set q.ring q.tail (record { addr = 0; len = u8 (length m); pkt = m }) h l, h)

pub arrivals-AllShort :
    (q : RingBuff) (messages : List (List ℕ))
    → AllShort q.ring
    → ShortMessages messages
    → AllShort (arrivals q messages).ring
unfolding arrivals
arrivals-AllShort q [] h l = h
arrivals-AllShort q (m ∷ ms) h l =
    arrivals-AllShort (sub_callback q m) ms (callback-AllShort q m h l.0) l.1

-- a reception that leaves such a queue
abbrev pub LeavesShort : Option (RingBuff × Option Reception) → Type 0
LeavesShort none = Unit {0}
LeavesShort (some (q, received)) = AllShort q.ring × Short (arrived received)

dequeue-AllShort : (q : RingBuff) → AllShort q.ring → AllShort (dequeue q).0.ring
unfolding dequeue
dequeue-AllShort q h = ground (arith, h)

by_slid :
    (q : RingBuff) (rssi : ℕ) (e : Relement) (o : Option ℕ)
    → AllShort q.ring
    → length e.pkt ≤ 255
    → LeavesShort (elim o [
      | none ↦ none
      | some slid ↦
          some (q, some (record { packet = e.pkt; packet_size = e.len; slid = slid; rssi = rssi }))
    ])
by_slid q rssi e none h l = tt
by_slid q rssi e (some slid) h l = (h, l)

pub next_packet-LeavesShort :
    (q : RingBuff) (rssi : ℕ) → AllShort q.ring → LeavesShort (next_packet q rssi)
unfolding next_packet dequeue
next_packet-LeavesShort q rssi h = elim (Bool-cases (queuelevel q == 0)) [
  | inl empty ↦ rw empty (h, tt)
  | inr more ↦ rw more (elim (Bool-cases (q.head == q.tail)) [
    | inl none_there ↦ rw none_there tt
    | inr there ↦ rw there (
        by_slid (dequeue q).0 rssi (get_or q.ring q.head blank)
          (slid_of (get_or q.ring q.head blank).pkt) (dequeue-AllShort q h)
          (get_or-short q.ring q.head h))
  ])
]

-- what an MQTT driver keeps: a receive queue of such packets
abbrev pub PahoShort : {C : Type 0} → Paho C → Type 0
PahoShort d = AllShort d.queue.ring

module _ {C : Type 0} (api : Client C) where
  paho_keeps :
      (d : Paho C) (c : C) (o : Option (RingBuff × Option Reception))
      → PahoShort d
      → LeavesShort o
      → let r : Paho C × Received = receiving Fault.read_out_of_range d (elim o [
        | none ↦ none
        | some (q, received) ↦ some (record { client = c; queue = q }, received)
      ]) in
        PahoShort r.0 × Short r.1
  paho_keeps d c none k h = (k, tt)
  paho_keeps d c (some (q, received)) k h = h

  paho_receives :
      (d : Paho C)
      → ((c : C) → ShortMessages (api.yield c).1)
      → PahoShort d
      → PahoShort ((paho_driver api).driver_receive d).0
        × Short ((paho_driver api).driver_receive d).1
  unfolding paho_driver Paho.driver_receive
  paho_receives d l h =
      paho_keeps d (api.yield d.client).0
        (next_packet (arrivals d.queue (api.yield d.client).1) 255) h
        (next_packet-LeavesShort (arrivals d.queue (api.yield d.client).1) 255
          (arrivals-AllShort d.queue (api.yield d.client).1 h (l d.client)))

  paho_takes :
      (d : Paho C) (packet : List ℕ) (len slid : ℕ)
      → PahoShort d
      → PahoShort ((paho_driver api).driver_send d packet len slid).0
  unfolding paho_driver Paho.driver_send
  paho_takes d packet len slid h = h

  pub paho_driver-Delivers :
      ((c : C) → ShortMessages (api.yield c).1) → Delivers bridging PahoShort (paho_driver api)
  paho_driver-Delivers l = record {
    receives = λ d h. let (kept, short) = paho_receives d l h in (kept, Short-Arrives _ short);
    takes = λ d packet len slid h p. paho_takes d packet len slid h;
  }
