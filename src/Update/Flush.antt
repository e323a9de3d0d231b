-- ===== src/Update/Flush.antt =====
-- One round of `update` at the send queue: at most one packet goes to the driver.
use steamlink_arduino.Prelude.{
  ℕ, suc, ◌+◌, ◌≡◌, ◌⊎◌, inl, inr, refl, ap, true, false, List, [], ◌∷◌, Option, arith, get_or,
  length, drop, sym, ◌∙◌, ◌==◌, Bool-cases,
}
use steamlink_arduino.Ring.{Relement, RingBuff, blank, dequeue}
use steamlink_arduino.Ring.Refine.{IsValid, contents, dequeue-cases, dequeue-IsValid}
use steamlink_arduino.System.{System, Ref, store_driver, node_driver, returns, node, put}
use steamlink_arduino.Update.{Driver, flush_queue}

-- The state once the oldest packet has left the queue, and its buffer has been given back.
abbrev pub served : Ref → System → System
served self s =
    let t = put self (record (node self s) { send_q = (dequeue (node self s).send_q).0 }) s in
    record t { freed = t.freed + 1 }

suc-some : (n : ℕ) → (suc n == 0) ≡ false
suc-some n = ground arith

-- What is done with the oldest packet, if there is one and the driver can send.
pub flush_run :
    {D : Type 0} (driver : Driver D) (self : Ref) (d : D) (s : System)
    → IsValid (node self s).send_q
    → ((contents (node self s).send_q ≡ []) ⊎ (driver.driver_can_send d ≡ false))
        × (flush_queue driver self d s ≡ returns d s)
      ⊎ (let e = get_or (node self s).send_q.ring (node self s).send_q.head blank in
          (driver.driver_can_send d ≡ true)
          × (contents (node self s).send_q ≡ e ∷ contents (dequeue (node self s).send_q).0)
          × (flush_queue driver self d s
              ≡ returns (driver.driver_send d e.pkt e.len e.addr).0 (served self s)))
unfolding flush_queue
flush_run driver store_driver d s v = elim (Bool-cases (driver.driver_can_send d)) [
  | inr c ↦ inl (inr c, rw c)
  | inl c ↦ elim (dequeue-cases (node store_driver s).send_q v) [
    | inl (empty, e) ↦ inl (inl (rw empty), rw (c, empty))
    | inr (left, e) ↦
        inr
          (c, rw (e, left), rw (c, left, suc-some, ap (λ (x : RingBuff × Option Relement). x.1) e))
  ]
]
flush_run driver node_driver d s v = elim (Bool-cases (driver.driver_can_send d)) [
  | inr c ↦ inl (inr c, rw c)
  | inl c ↦ elim (dequeue-cases (node node_driver s).send_q v) [
    | inl (empty, e) ↦ inl (inl (rw empty), rw (c, empty))
    | inr (left, e) ↦
        inr
          (c, rw (e, left), rw (c, left, suc-some, ap (λ (x : RingBuff × Option Relement). x.1) e))
  ]
]

-- Where the driver can send and the queue of a valid ring is not empty, one round hands the oldest
-- packet to the driver, with the length and the address that it was queued with, takes it from the
-- queue and gives its buffer back, whether or not the driver says that it was sent. Where the
-- driver cannot send, or nothing is queued, the round does nothing. The ring stays valid.
pub flush_queue_lem :
    {D : Type 0} (driver : Driver D) (self : Ref) (d : D) (s : System)
    → IsValid (node self s).send_q
    → ((contents (node self s).send_q ≡ []) ⊎ (driver.driver_can_send d ≡ false))
        × (flush_queue driver self d s ≡ returns d s)
      ⊎ ((e : Relement) × (rest : List Relement) × (s' : System) × (driver.driver_can_send d ≡ true)
          × (contents (node self s).send_q ≡ e ∷ rest)
          × (flush_queue driver self d s ≡ returns (driver.driver_send d e.pkt e.len e.addr).0 s')
          × (contents (node self s').send_q ≡ rest)
          × IsValid (node self s').send_q
          × (s'.freed ≡ s.freed + 1))
flush_queue_lem driver self d s v = elim (flush_run driver self d s v) [
  | inl nothing ↦ inl nothing
  | inr (c, q, e) ↦ inr (
    get_or (node self s).send_q.ring (node self s).send_q.head blank,
    contents (dequeue (node self s).send_q).0,
    served self s,
    c,
    q,
    e,
    after self,
    rw (queue_after self) (dequeue-IsValid (node self s).send_q v),
    freed_after self,
  )
]
  where
    queue_after :
        (self : Ref) → (node self (served self s)).send_q ≡ (dequeue (node self s).send_q).0
    queue_after store_driver = refl
    queue_after node_driver = refl

    after :
        (self : Ref)
        → contents (node self (served self s)).send_q ≡ contents (dequeue (node self s).send_q).0
    after self = ap contents (queue_after self)

    freed_after : (self : Ref) → (served self s).freed ≡ s.freed + 1
    freed_after store_driver = refl
    freed_after node_driver = refl

module _ {D : Type 0} (driver : Driver D) (self : Ref) (d : D) (s : System)
    (v : IsValid (node self s).send_q) where
  -- With nothing queued, nothing is done.
  pub flush_empty : contents (node self s).send_q ≡ [] → flush_queue driver self d s ≡ returns d s
  flush_empty c = elim (flush_run driver self d s v) [
    | inl (why, run) ↦ run
    | inr (can, split, run) ↦ absurd (omega (arith, ap length (sym c ∙ split)))
  ]

  -- The oldest packet goes out where the driver can send.
  pub flush_oldest :
      (e : Relement) (rest : List Relement)
      → contents (node self s).send_q ≡ e ∷ rest
      → driver.driver_can_send d ≡ true
      → (flush_queue driver self d s
          ≡ returns (driver.driver_send d e.pkt e.len e.addr).0 (served self s))
        × (contents (dequeue (node self s).send_q).0 ≡ rest)
  flush_oldest e rest c can = elim (flush_run driver self d s v) [
    | inl (inl empty, run) ↦ absurd (omega (arith, ap length (sym c ∙ empty)))
    | inl (inr cannot, run) ↦ absurd (ground (arith, sym can ∙ cannot))
    | inr (ok, c', run) ↦
        let split = sym c' ∙ c in
        (
          run
              ∙ ap
                  (λ (x : Relement).
                    returns (driver.driver_send d x.pkt x.len x.addr).0 (served self s))
                  (ap (λ l. get_or l 0 blank) split),
          ap (drop 1) split,
        )
  ]
