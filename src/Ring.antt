-- ===== src/Ring.antt =====
-- SL_RingBuff.h and SL_RingBuff.cpp: the ring of packets that is each node's send queue and each
-- MQTT driver's receive queue. A packet is the content of its buffer: the ring stores the pointer
-- and never looks through it. The `int` fields stay below the ring's size, so plain numbers do.
pub mod Fifo
pub mod Refine
pub mod Runs
use steamlink_arduino.Prelude.{
  ℕ, ◌+◌, ◌-◌, ◌%◌, Bool, true, false, Option, none, some, List, ltb, ◌==◌, if◌then◌else◌, get_or,
  set, replicate, [],
}

-- `struct relement`
pub record Relement : Type 0 where
  pub addr : ℕ
  pub len : ℕ
  pub pkt : List ℕ

-- what `calloc` leaves in a slot
abbrev pub blank : Relement
blank = record { addr = 0; len = 0; pkt = [] }

pub record RingBuff : Type 0 where
  pub ringsize : ℕ
  pub head : ℕ
  pub tail : ℕ
  pub ring : List Relement

-- the constructor
unfoldable pub new : ℕ → RingBuff
new size = record { ringsize = size; head = 0; tail = 0; ring = replicate size blank }

-- The result is `true` for the code's 1 and `false` for its 0.
unfoldable pub enqueue : RingBuff → List ℕ → ℕ → ℕ → RingBuff × Bool
enqueue r val len addr =
    let newtail = (r.tail + 1) % r.ringsize in
    if newtail == r.head then (r, false) else (
      record r {
        ring = set r.ring r.tail (record { addr = addr; len = len; pkt = val });
        tail = newtail;
      },
      true,
    )

-- The three `int`s are added up before the subtraction, which never goes below 0 then.
unfoldable pub queuelevel : RingBuff → ℕ
queuelevel r = r.tail + (if ltb r.tail r.head then r.ringsize else 0) - r.head

-- `none` is the null pointer of an empty ring; else the slot gives the packet, its length and addr.
unfoldable pub dequeue : RingBuff → RingBuff × Option Relement
dequeue r =
    if r.head == r.tail
    then (r, none)
    else (record r { head = (r.head + 1) % r.ringsize }, some (get_or r.ring r.head blank))
