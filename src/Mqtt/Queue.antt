-- ===== src/Mqtt/Queue.antt =====
-- The receive queue as a list, and what `driver_receive` takes from it.
use steamlink_arduino.Prelude.{
  ℕ, suc, ◌-◌, ◌≤◌, ◌<◌, ◌^◌, ◌≡◌, refl, ap, ◌∙◌, sym, Bool, true, false, Bool-cases, inl, inr,
  List, [], ◌∷◌, ◌++◌, append-nil, append_assoc, Option, some, arith, get_or, length, take, drop,
  take-append, take_all, ltb,
}
use steamlink_arduino.Wire.{
  u8, DataHeader, ControlHeader, data_header_bytes, control_header_bytes, is_data,
}
use steamlink_arduino.Wire.RoundTrip.{control_header_round_trip}
use steamlink_arduino.Ring.{Relement, RingBuff, blank, enqueue, dequeue}
use steamlink_arduino.Ring.Fifo.{push}
use steamlink_arduino.Ring.Refine.{
  IsValid, entries, contents, enqueue_refines, enqueue-IsValid, dequeue-IsValid, dequeue-cases,
  queuelevel-contents, queuelevel-lt,
}
use steamlink_arduino.Mqtt.{sub_callback, arrivals, slid_of, next_packet}

-- the entry that a message makes
abbrev pub stored : List (List ℕ) → List Relement
stored [] = []
stored (message ∷ messages) =
    record { addr = 0; len = u8 (length message); pkt = message } ∷ stored messages

ringsize-enqueue :
    (q : RingBuff) (val : List ℕ) (len addr : ℕ) → (enqueue q val len addr).0.ringsize ≡ q.ringsize
unfolding enqueue
ringsize-enqueue q val len addr = ground arith

-- Pushing one more, and cutting at the capacity.
take-push :
    (cap : ℕ) (l rest : List Relement) (x : Relement)
    → length l ≤ cap
    → take cap ((push cap l x).0 ++ rest) ≡ take cap (l ++ (x ∷ rest))
unfolding push
take-push cap l rest x h = elim (Bool-cases (ltb (length l) cap)) [
  | inl e ↦ rw e (ap (take cap) (append_assoc l (x ∷ []) rest))
  | inr e ↦
      let full : cap ≡ length l = ground arith in
      rw e (take-append cap l rest full ∙ sym (take-append cap l (x ∷ rest) full))
]

-- The messages that arrive stand in the queue in their order, behind what was there, as far as one
-- slot less than the ring has; the rest of them is lost, and nothing else.
pub arrivals_refines :
    (q : RingBuff) (messages : List (List ℕ))
    → IsValid q
    → (contents (arrivals q messages) ≡ take (q.ringsize - 1) (contents q ++ stored messages))
      × IsValid (arrivals q messages)
      × ((arrivals q messages).ringsize ≡ q.ringsize)
unfolding arrivals sub_callback
arrivals_refines q [] v = (
  sym (
      ap (take (q.ringsize - 1)) (append-nil (contents q))
      ∙ take_all (q.ringsize - 1) (contents q)
          (omega (arith, queuelevel-contents q, queuelevel-lt q v))),
  v,
  refl,
)
arrivals_refines q (m ∷ ms) v =
    let len = u8 (length m) in
    let (c, v', s) = arrivals_refines (sub_callback q m) ms (enqueue-IsValid q m len 0 v) in
    let same = ringsize-enqueue q m len 0 in
    (
      c
          ∙ ap (λ n. take (n - 1) (contents (enqueue q m len 0).0 ++ stored ms)) same
          ∙ ap (λ (x : List Relement × Bool). take (q.ringsize - 1) (x.0 ++ stored ms))
              (enqueue_refines q m len 0 v)
          ∙ take-push (q.ringsize - 1) (contents q) (stored ms)
              (record { addr = 0; len = len; pkt = m })
              (omega (arith, queuelevel-contents q, queuelevel-lt q v)),
      v',
      s ∙ same,
    )

-- A control packet is for the SLID in its header, a data packet for no one.
pub slid_of-control :
    (h : ControlHeader) (payload : List ℕ)
    → is_data h.op ≡ false
    → h.slid < 2 ^ 32
    → h.pkg_num < 2 ^ 16
    → slid_of (control_header_bytes h ++ payload) ≡ some h.slid
unfolding slid_of control_header_bytes
slid_of-control h payload c s n = rw (c, (control_header_round_trip h payload s n).0) (ground arith)

pub slid_of-data :
    (h : DataHeader) (payload : List ℕ)
    → is_data h.op ≡ true
    → slid_of (data_header_bytes h ++ payload) ≡ some 0
unfolding slid_of data_header_bytes
slid_of-data h payload c = rw c (ground arith)

-- The oldest packet of a valid queue is handed over.
next_packet-first :
    (q : RingBuff) (rssi : ℕ) (e : Relement) (rest : List Relement) (slid : ℕ)
    → IsValid q
    → contents q ≡ e ∷ rest
    → slid_of e.pkt ≡ some slid
    → let q' = (dequeue q).0 in
      (next_packet q rssi
        ≡ some
            (q', some (record { packet = e.pkt; packet_size = e.len; slid = slid; rssi = rssi })))
      × (contents q' ≡ rest)
unfolding next_packet
next_packet-first q rssi e rest slid v c s = elim (dequeue-cases q v) [
  | inl (empty, d) ↦ absurd (omega (arith, queuelevel-contents q, ap length c))
  | inr (left, d) ↦
      let split = (ap (entries q.ring q.ringsize q.head) (sym left) ∙ c) in
      let first = ap (λ l. get_or l 0 blank) split in
      (
        rw (left, ap (λ (x : RingBuff × Option Relement). x.1) d, first, s) (ground (arith, first)),
        ap contents (ap (λ (x : RingBuff × Option Relement). x.0) d) ∙ ap (drop 1) split,
      )
]

-- A message that reaches a driver whose queue is empty is handed over at once: whole, with its
-- length as a `uint8_t`, and for the SLID that its header names. The messages behind it wait in
-- the queue in their order, as far as there is room.
pub next_packet_lem :
    (q : RingBuff) (rssi : ℕ) (message : List ℕ) (messages : List (List ℕ)) (slid : ℕ)
    → IsValid q
    → contents q ≡ []
    → 1 < q.ringsize
    → slid_of message ≡ some slid
    → (q' : RingBuff) × (next_packet (arrivals q (message ∷ messages)) rssi
        ≡ some (
          q',
          some (record {
            packet = message;
            packet_size = u8 (length message);
            slid = slid;
            rssi = rssi;
          }),
        ))
      × (contents q' ≡ take (q.ringsize - 2) (stored messages))
      × IsValid q'
next_packet_lem q rssi message messages slid v e l s =
    let r = arrivals q (message ∷ messages) in
    let (c, v', n) = arrivals_refines q (message ∷ messages) v in
    let x : Relement = record { addr = 0; len = u8 (length message); pkt = message } in
    let k : q.ringsize - 1 ≡ suc (q.ringsize - 2) = omega arith in
    let c' : contents r ≡ x ∷ take (q.ringsize - 2) (stored messages) =
      c
      ∙ ap (λ l. take (q.ringsize - 1) (l ++ stored (message ∷ messages))) e
      ∙ ap (λ n. take n (x ∷ stored messages)) k in
    let (run, rest) =
      next_packet-first r rssi x (take (q.ringsize - 2) (stored messages)) slid v' c' s in
    ((dequeue r).0, run, rest, dequeue-IsValid r v')
