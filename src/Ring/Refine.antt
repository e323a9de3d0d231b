-- ===== src/Ring/Refine.antt =====
-- A valid ring of `n` slots is a first-in first-out queue of at most `n - 1` packets.
use native.Mathlib.Nat.{mod-eq_of_lt}
use native.Mathlib.Decide.{dec_lt}
use steamlink_arduino.Prelude.{
  ℕ, zero, suc, ◌+◌, ◌-◌, ◌%◌, ◌<◌, ◌≡◌, ◌⊎◌, inl, inr, refl, ap, ap₂, sym, true, false, List, [],
  ◌∷◌, ◌++◌, arith, length, get_or, set, length-set, get_or-set_self, get_or-set_ne,
  length-replicate, none, some,
}
use steamlink_arduino.Ring.{Relement, RingBuff, blank, new, enqueue, dequeue, queuelevel}
use steamlink_arduino.Ring.Fifo

-- The slots agree with the size, and both indices are slots.
pub record IsValid (r : RingBuff) : Type 0 where
  pub slots : length r.ring ≡ r.ringsize
  pub head_in : r.head < r.ringsize
  pub tail_in : r.tail < r.ringsize

-- the next index round a ring of `size` slots
abbrev next : ℕ → ℕ → ℕ
next size i = (i + 1) % size

-- the `n` entries from slot `h` on, round the ring
abbrev pub entries : List Relement → ℕ → ℕ → ℕ → List Relement
entries ring size h zero = []
entries ring size h (suc n) = get_or ring h blank ∷ entries ring size (next size h) n

abbrev pub contents : RingBuff → List Relement
contents r = entries r.ring r.ringsize r.head (queuelevel r)

length-entries : (ring : List Relement) (size h n : ℕ) → length (entries ring size h n) ≡ n
length-entries ring size h zero = refl
length-entries ring size h (suc n) = ap suc (length-entries ring size (next size h) n)

-- `queuelevel` counts the entries.
pub queuelevel-contents : (r : RingBuff) → queuelevel r ≡ length (contents r)
queuelevel-contents r = sym (length-entries r.ring r.ringsize r.head (queuelevel r))

-- Slot `i` stands `k` places on from slot `h`, round the ring.
record IsAhead (size h k i : ℕ) : Type 0 where
  inside : i < size
  apart : (h + k ≡ i) ⊎ (h + k ≡ i + size)

next-cases :
    (size h : ℕ)
    → h < size
    → (next size h ≡ h + 1) × (h + 1 < size) ⊎ (next size h ≡ 0) × (h + 1 ≡ size)
next-cases size h l = elim (dec_lt (h + 1) size) [
  | yes p ↦ inl (mod-eq_of_lt p, p)
  | no p ↦ inr (grind arith, omega arith)
]

IsAhead-next :
    (size h k i : ℕ) → h < size → IsAhead size h (suc k) i → IsAhead size (next size h) k i
IsAhead-next size h k i l a = ground (arith, next-cases size h l)

-- Writing the slot just past the entries appends to them.
entries-set :
    (ring : List Relement) (size n h i : ℕ) (x : Relement)
    → length ring ≡ size
    → h < size
    → n < size
    → IsAhead size h n i
    → entries (set ring i x) size h (suc n) ≡ entries ring size h n ++ (x ∷ [])
entries-set ring size zero h i x hs hh hn a =
    let e : i ≡ h = omega arith in rw (e, get_or-set_self ring h x blank (omega arith))
entries-set ring size (suc n) h i x hs hh hn a =
    ap₂ ◌∷◌ (get_or-set_ne ring x blank (omega arith)) (
      entries-set ring size n (next size h) i x hs (omega (arith, next-cases size h hh))
        (omega arith) (IsAhead-next size h n i hh a))

tail-IsAhead : (r : RingBuff) → IsValid r → IsAhead r.ringsize r.head (queuelevel r) r.tail
unfolding queuelevel
tail-IsAhead r v = ground arith

pub queuelevel-lt : (r : RingBuff) → IsValid r → queuelevel r < r.ringsize
unfolding queuelevel
queuelevel-lt r v = ground arith

abbrev stored : RingBuff → Relement → RingBuff
stored r e = record r { ring = set r.ring r.tail e; tail = next r.ringsize r.tail }

-- The ring is full exactly when one slot is left; else the packet is stored, and counts.
enqueue-cases :
    (r : RingBuff) (val : List ℕ) (len addr : ℕ)
    → IsValid r
    → let r' = stored r (record { addr = addr; len = len; pkt = val }) in
      (queuelevel r + 1 ≡ r.ringsize) × (enqueue r val len addr ≡ (r, false))
      ⊎ (queuelevel r + 1 < r.ringsize)
        × (enqueue r val len addr ≡ (r', true))
        × (queuelevel r' ≡ suc (queuelevel r))
unfolding queuelevel enqueue
enqueue-cases r val len addr v = ground (arith, next-cases r.ringsize r.tail)

-- Null is returned exactly when nothing is left; else the next slot becomes the head.
pub dequeue-cases :
    (r : RingBuff)
    → IsValid r
    → let r' = record r { head = next r.ringsize r.head } in
      (queuelevel r ≡ 0) × (dequeue r ≡ (r, none))
      ⊎ (queuelevel r ≡ suc (queuelevel r')) × (dequeue r ≡ (r', some (get_or r.ring r.head blank)))
unfolding queuelevel dequeue
dequeue-cases r v = ground (arith, next-cases r.ringsize r.head)

-- Storing a packet keeps the ring valid.
pub enqueue-IsValid :
    (r : RingBuff) (val : List ℕ) (len addr : ℕ) → IsValid r → IsValid (enqueue r val len addr).0
unfolding enqueue
enqueue-IsValid r val len addr v = ground (
  arith,
  next-cases r.ringsize r.tail,
  length-set r.ring r.tail (record { addr = addr; len = len; pkt = val }),
)

-- `enqueue` is `Fifo.push` on the entries, with room for one packet less than there are slots.
pub enqueue_refines :
    (r : RingBuff) (val : List ℕ) (len addr : ℕ)
    → IsValid r
    → let (r', stored) = enqueue r val len addr in
      (contents r', stored)
      ≡ Fifo.push (r.ringsize - 1) (contents r) (record { addr = addr; len = len; pkt = val })
unfolding Fifo.push
enqueue_refines r val len addr v = elim (enqueue-cases r val len addr v) [
  | inl (full, e) ↦ rw e (ground (arith, queuelevel-contents r))
  | inr (room, e, l) ↦
      rw (e, l)
        (ground (
          arith,
          queuelevel-contents r,
          entries-set r.ring r.ringsize (queuelevel r) r.head r.tail
              (record { addr = addr; len = len; pkt = val }) v.slots v.head_in (omega arith)
              (tail-IsAhead r v),
        ))
]

-- Taking a packet keeps the ring valid.
pub dequeue-IsValid : (r : RingBuff) → IsValid r → IsValid (dequeue r).0
unfolding dequeue
dequeue-IsValid r v = ground (arith, next-cases r.ringsize r.head)

-- `dequeue` is `Fifo.pop` on the entries: null only when there are none, else the oldest.
pub dequeue_refines :
    (r : RingBuff)
    → IsValid r
    → let (r', out) = dequeue r in (contents r', out) ≡ Fifo.pop (contents r)
unfolding Fifo.pop
dequeue_refines r v = elim (dequeue-cases r v) [
  | inl (empty, e) ↦ rw (e, empty)
  | inr (some_left, e) ↦ rw (e, some_left)
]

pub new-IsValid : (size : ℕ) → 0 < size → IsValid (new size) × (contents (new size) ≡ [])
unfolding new queuelevel
new-IsValid size h =
    (record { slots = length-replicate size blank; head_in = h; tail_in = h }, ground arith)

-- What a ring holds once a packet has been handed to it: the packet stands at the end, unless the
-- ring is full, with one slot left. Then the packet is lost, and the ring holds what it held.
pub record Joins (r : RingBuff) (val : List ℕ) (len addr : ℕ) (r' : RingBuff) : Type 0 where
  pub still_valid : IsValid r'
  pub same_size : r'.ringsize ≡ r.ringsize
  pub holds :
      contents r'
      ≡ (Fifo.push (r.ringsize - 1) (contents r) (record { addr = addr; len = len; pkt = val })).0

pub enqueue-Joins :
    (r : RingBuff) (val : List ℕ) (len addr : ℕ)
    → IsValid r
    → Joins r val len addr (enqueue r val len addr).0
unfolding enqueue
enqueue-Joins r val len addr v = record {
  still_valid = enqueue-IsValid r val len addr v;
  same_size = ground arith;
  holds = ap (λ x. x.0) (enqueue_refines r val len addr v);
}
