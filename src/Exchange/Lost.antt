-- ===== src/Exchange/Lost.antt =====
-- A packet that was lost: the retry timer queues it again, and the next round transmits it.
use steamlink_arduino.Prelude.{
  ℕ, ◌+◌, ◌<◌, ◌≡◌, ◌≢◌, refl, ap, sym, subst, ◌∙◌, true, false, List, [], arith, length,
}
use steamlink_arduino.Ring.{dequeue, enqueue}
use steamlink_arduino.Ring.Refine.{IsValid, contents, enqueue-IsValid, dequeue-IsValid}
use steamlink_arduino.Ring.Runs.{enqueues, dequeues, step, ringsize-step}
use steamlink_arduino.System.{
  nodeside, Env, System, Node, Ref, store_driver, node_driver, returns, node, ◌>>=◌,
}
use steamlink_arduino.Send.{Handler}
use steamlink_arduino.Update.{
  no_packet, Driver, update, retry_due, heartbeat_due, run_timers, retry_task, heartbeat_task,
}
use steamlink_arduino.Update.Retry.{IsCached, ticked, resent, retry_task_run}
use steamlink_arduino.Update.Flush.{served, flush_oldest, flush_empty}
use steamlink_arduino.Update.Rounds.{clock_read, timers_wait, update_alone, rounds}
use steamlink_arduino.Bridge.Relay.{contents-enqueue}

-- A node that waits for the acknowledgement of this packet, with nothing queued.
pub record IsWaiting (packet : List ℕ) (n : Node) : Type 0 where
  pub own_way : n.bridge_mode ≢ nodeside
  pub signed_on : n.sign_on_complete ≡ true
  pub waiting : n.waiting_for_ack ≡ true
  pub cached : IsCached n packet
  pub queue_IsValid : IsValid n.send_q
  pub room : 1 < n.send_q.ringsize
  pub empty : contents n.send_q ≡ []

-- The readings of the clock in two rounds, from the one on: the retry is due at the first, and no
-- other timer at a later one.
pub record OnlyRetry (env : Env) (n : Node) (c : ℕ) : Type 0 where
  pub late : retry_due n (env.clock c) ≡ true
  pub first_beat :
      heartbeat_due (record n { last_send_time = env.clock (c + 2) }) (env.clock (c + 3)) ≡ false
  pub not_late :
      retry_due (record n { last_retry_time = env.clock (c + 1) }) (env.clock (c + 4)) ≡ false
  pub second_beat :
      heartbeat_due (record n { last_send_time = env.clock (c + 2) }) (env.clock (c + 5)) ≡ false

-- What the timers do where no heartbeat is due after the retry.
timers_retry :
    (env : Env) (handler : Handler) (self : Ref) (s s1 : System)
    → retry_task env handler self s ≡ returns tt s1
    → heartbeat_due (node self s1) (env.clock s1.clock_reads) ≡ false
    → run_timers env handler self s ≡ returns tt (clock_read s1)
unfolding run_timers heartbeat_task
timers_retry env handler self s s1 e h = rw (◌>>=◌, e, h) refl

module _ (env : Env) (handler : Handler) (packet : List ℕ) (s : System) where
  abbrev again : Ref → System
  again self = resent env handler self (ticked env handler s) packet

  abbrev requeued : Ref → System
  requeued self = clock_read (again self)

  abbrev again_node : Node → Node
  again_node n = record n {
    last_retry_time = env.clock (s.clock_reads + 1);
    send_q = (enqueue n.send_q packet n.retry_packet_length n.retry_slid).0;
    last_send_time = env.clock (s.clock_reads + 1 + 1);
  }

  abbrev served_node : Node → Node
  served_node n = record (again_node n) { send_q = (dequeue (again_node n).send_q).0 }

  abbrev finished : Ref → System
  finished self = clock_read (clock_read (served self (requeued self)))

  node-again : (self : Ref) → node self (again self) ≡ again_node (node self s)
  node-again store_driver = refl
  node-again node_driver = refl

  node-requeued : (self : Ref) → node self (requeued self) ≡ again_node (node self s)
  node-requeued store_driver = refl
  node-requeued node_driver = refl

  node-served : (self : Ref) → node self (served self (requeued self)) ≡ served_node (node self s)
  node-served store_driver = refl
  node-served node_driver = refl

  node-finished : (self : Ref) → node self (finished self) ≡ served_node (node self s)
  node-finished store_driver = refl
  node-finished node_driver = refl

  reads-again : (self : Ref) → (again self).clock_reads ≡ s.clock_reads + 3
  reads-again store_driver = omega arith
  reads-again node_driver = omega arith

  reads-served : (self : Ref) → (served self (requeued self)).clock_reads ≡ s.clock_reads + 4
  reads-served store_driver = omega arith
  reads-served node_driver = omega arith

module _ (env : Env) (handler : Handler) (self : Ref) (packet : List ℕ) (s : System)
    (w : IsWaiting packet (node self s)) (o : OnlyRetry env (node self s) s.clock_reads) where
  abbrev first : System
  first = requeued env handler packet s self

  abbrev n1 : Node
  n1 = again_node env handler packet s (node self s)

  abbrev last : System
  last = served self first

  abbrev n2 : Node
  n2 = served_node env handler packet s (node self s)

  stamp_lem : s.clock_reads + 2 ≡ s.clock_reads + 1 + 1
  stamp_lem = omega arith

  quiet1 : heartbeat_due n1 (env.clock (s.clock_reads + 3)) ≡ false
  unfolding heartbeat_due
  quiet1 =
      subst
        (λ j.
          heartbeat_due (record (node self s) { last_send_time = env.clock j })
            (env.clock (s.clock_reads + 3))
          ≡ false)
        stamp_lem o.first_beat

  quiet2 : heartbeat_due n2 (env.clock (s.clock_reads + 5)) ≡ false
  unfolding heartbeat_due
  quiet2 =
      subst
        (λ j.
          heartbeat_due (record (node self s) { last_send_time = env.clock j })
            (env.clock (s.clock_reads + 5))
          ≡ false)
        stamp_lem o.second_beat

  patient : retry_due n2 (env.clock (s.clock_reads + 4)) ≡ false
  unfolding retry_due
  patient = o.not_late

  retries : retry_task env handler self s ≡ returns tt (again env handler packet s self)
  retries =
      retry_task_run env handler self packet s w.own_way w.cached
      ∙ ap (λ t. returns tt t) (rw (w.waiting, o.late) refl)

  first_timers : run_timers env handler self s ≡ returns tt first
  first_timers =
      timers_retry env handler self s (again env handler packet s self) retries
        (rw (node-again env handler packet s self, reads-again env handler packet s self) quiet1)

  abbrev finish : System
  finish = finished env handler packet s self

  last_timers : run_timers env handler self last ≡ returns tt finish
  last_timers =
      let e = node-served env handler packet s self in
      let c = reads-served env handler packet s self in
      timers_wait env handler self last (ap (λ (n : Node). n.waiting_for_ack) e ∙ w.waiting)
        (rw (e, c) patient)
        (rw e (subst (λ j. heartbeat_due n2 (env.clock j) ≡ false) (omega (arith, c)) quiet2))

  module _ {D : Type 0} (driver : Driver D) (d : D) where
    first_round :
        (driver.driver_receive d).1 ≡ no_packet
        → update env handler driver self d s ≡ returns (driver.driver_receive d).0 first
    first_round nothing =
        update_alone env handler driver self d (driver.driver_receive d).0 s s first w.signed_on
          nothing (flush_empty driver self (driver.driver_receive d).0 s w.queue_IsValid w.empty)
          first_timers

    queue-first : (node self first).send_q ≡ n1.send_q
    queue-first = ap (λ (n : Node). n.send_q) (node-requeued env handler packet s self)

    first-IsValid : IsValid n1.send_q
    first-IsValid =
        enqueue-IsValid (node self s).send_q packet (node self s).retry_packet_length
          (node self s).retry_slid w.queue_IsValid

    second_round :
        (driver.driver_receive d).1 ≡ no_packet
        → driver.driver_can_send (driver.driver_receive d).0 ≡ true
        → (update env handler driver self d first
            ≡ returns
                (driver.driver_send
                  (driver.driver_receive d).0
                  packet
                  (node self s).retry_packet_length
                  (node self s).retry_slid).0
                finish)
          × (contents (dequeue (node self first).send_q).0 ≡ [])
    second_round nothing can =
        let (flushed, left) =
          flush_oldest driver self (driver.driver_receive d).0 first (rw queue-first first-IsValid)
            (record {
              addr = (node self s).retry_slid;
              len = (node self s).retry_packet_length;
              pkt = packet;
            })
            []
            (ap contents queue-first
              ∙ contents-enqueue (node self s).send_q packet (node self s).retry_packet_length
                  (node self s).retry_slid w.queue_IsValid w.empty w.room)
            can in
        (
          update_alone env handler driver self d _ first last finish
              (ap (λ (n : Node). n.sign_on_complete) (node-requeued env handler packet s self)
                ∙ w.signed_on)
              nothing flushed last_timers,
          left,
        )

  left-room : n2.send_q.ringsize ≡ (node self s).send_q.ringsize
  left-room =
      let q = (node self s).send_q in
      let enter = enqueues packet (node self s).retry_packet_length (node self s).retry_slid in
      ringsize-step dequeues (step enter q).0 ∙ ringsize-step enter q

  still : contents n2.send_q ≡ [] → IsWaiting packet n2
  still e = record {
    own_way = w.own_way;
    signed_on = w.signed_on;
    waiting = w.waiting;
    cached = record {
      whole_header = w.cached.whole_header;
      is_data_packet = w.cached.is_data_packet;
      size = w.cached.size;
      content = w.cached.content;
      fits = w.cached.fits;
    };
    queue_IsValid = dequeue-IsValid n1.send_q (
        enqueue-IsValid (node self s).send_q packet (node self s).retry_packet_length
          (node self s).retry_slid w.queue_IsValid);
    room = omega (arith, left-room, w.room);
    empty = e;
  }

balanced :
    (env : Env) (handler : Handler) (packet : List ℕ) (s : System) (self : Ref)
    → (finished env handler packet s self).allocated + s.freed
      ≡ s.allocated + (finished env handler packet s self).freed
balanced env handler packet s store_driver = omega arith
balanced env handler packet s node_driver = omega arith

-- A node that is not the node side of a bridge, and waits for an acknowledgement that does not
-- come, with nothing queued, sends the same packet again: where the retry is due in a round,
-- nothing is received in that round and the next, no other timer is due in them, and the driver
-- can send, the driver gets the packet in the next round, byte for byte and for the same address.
-- The node goes on waiting with the packet kept for another retry, uses no new packet number, and
-- gives as many buffers back as it takes.
pub resends :
    {D : Type 0} (env : Env) (handler : Handler) (driver : Driver D) (self : Ref) (d : D)
    (packet : List ℕ) (s : System)
    → IsWaiting packet (node self s)
    → OnlyRetry env (node self s) s.clock_reads
    → (driver.driver_receive d).1 ≡ no_packet
    → let d1 = (driver.driver_receive d).0 in
      (driver.driver_receive d1).1 ≡ no_packet
      → driver.driver_can_send (driver.driver_receive d1).0 ≡ true
      → (s' : System) × (rounds env handler driver self 2 d s
          ≡ returns
              (driver.driver_send
                (driver.driver_receive d1).0
                packet
                (length packet)
                (node self s).retry_slid).0
              s')
        × IsWaiting packet (node self s')
        × ((node self s').retry_slid ≡ (node self s).retry_slid)
        × ((node self s').pkt_count_data ≡ (node self s).pkt_count_data)
        × (s'.allocated + s.freed ≡ s.allocated + s'.freed)
resends env handler driver self d packet s w o nothing nothing2 can =
    let d1 = (driver.driver_receive d).0 in
    let end = finished env handler packet s self in
    let (run, left) = second_round env handler self packet s w o driver d1 nothing2 can in
    let e = node-finished env handler packet s self in
    (
      end,
      rw (◌>>=◌, first_round env handler self packet s w o driver d nothing, run)
          (ap
            (λ k.
              returns
                (driver.driver_send (driver.driver_receive d1).0 packet k
                  (node self s).retry_slid).0
                end)
            w.cached.size),
      subst (IsWaiting packet) (sym e) (
          still env handler self packet s w o (
            ap (λ (n : Node). contents (dequeue n.send_q).0)
              (sym (node-requeued env handler packet s self))
            ∙ left)),
      ap (λ (n : Node). n.retry_slid) e,
      ap (λ (n : Node). n.pkt_count_data) e,
      balanced env handler packet s self,
    )
