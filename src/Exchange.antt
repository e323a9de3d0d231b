-- ===== src/Exchange.antt =====
-- A sketch's `send` of a node that is ready for it, and the round of `update` that hands the packet to
-- the driver. The children go on to the round in which the store's acknowledgement arrives.
pub mod Answer
pub mod Text
pub mod Lost
use steamlink_arduino.Prelude.{
  ℕ, ◌+◌, ◌%◌, ◌≤◌, ◌<◌, ◌≡◌, ◌≢◌, refl, ap, sym, subst, ◌∙◌, inl, inr, Bool, true, false, List, [],
  ◌∷◌, ◌++◌, Option, none, some, arith, length, take, drop, length-append, if◌then◌else◌,
}
use steamlink_arduino.Wire.{
  ControlHeader, is_data, is_transport, needs_ack, byte_at, control_header_bytes,
}
use steamlink_arduino.Wire.Op
use steamlink_arduino.Wire.Slid
use steamlink_arduino.Ring.{RingBuff, dequeue, enqueue}
use steamlink_arduino.Ring.Refine.{IsValid, contents, enqueue-IsValid, dequeue-IsValid}
use steamlink_arduino.Ring.Runs.{enqueues, dequeues, step, ringsize-step}
use steamlink_arduino.System.{
  nodeside, Env, System, Node, Ref, store_driver, node_driver, returns, node, ◌>>=◌,
}
use steamlink_arduino.Send.{Handler, send, send_data, next_count}
use steamlink_arduino.Send.Limits.{IsText, send_string-length}
use steamlink_arduino.Send.Packet.{packet_of, length-packet_of}
use steamlink_arduino.Send.Phy.{
  IsTyped, Carries, Sent, Sent-IsTyped, sent_state, sent_state-Sent, send_data-phy,
  packet_of-Carries, in_queue,
}
use steamlink_arduino.Admin.{handle_admin_packet}
use steamlink_arduino.Admin.Packet.{control_packet, control_length, length-control_packet}
use steamlink_arduino.Admin.Data.{after_an, an_unblocks}
use steamlink_arduino.Update.{
  no_packet, a_packet, Driver, Reception, update, heartbeat_due, retry_due, accept_packet,
  flush_queue, run_timers,
}
use steamlink_arduino.Update.Receive.{noted, dropped, accepts, accept_packet_lem, is_problem_iff}
use steamlink_arduino.Update.Flush.{served, flush_oldest, flush_empty}
use steamlink_arduino.Update.Rounds.{
  clock_read, timers_wait, timers_idle, update_alone, update_received,
}
use steamlink_arduino.Bridge.Relay.{contents-enqueue}
use steamlink_arduino.Sound.Alone.{Act, acts, text, round}

-- A node between two messages: it has signed on, awaits nothing and has nothing queued. Within five
-- readings in a row, as many as an exchange takes, the clock moves so little that neither timer is due
-- after a send. It may move on by any time from one exchange to the next.
pub record IsReady (env : Env) (n : Node) : Type 0 where
  pub typed : IsTyped n
  pub own_way : n.bridge_mode ≢ nodeside
  pub signed_on : n.sign_on_complete ≡ true
  pub not_waiting : n.waiting_for_ack ≡ false
  pub queue_IsValid : IsValid n.send_q
  pub room : 1 < n.send_q.ringsize
  pub empty : contents n.send_q ≡ []
  pub not_silent :
      (j k : ℕ)
      → j ≤ k
      → k ≤ j + 4
      → heartbeat_due (record n { last_send_time = env.clock j }) (env.clock k) ≡ false
  pub not_late :
      (j k : ℕ)
      → j ≤ k
      → k ≤ j + 4
      → retry_due (record n { last_retry_time = env.clock j }) (env.clock k) ≡ false

module _ (env : Env) (handler : Handler) (self : Ref) (buf : List ℕ) (k : ℕ) (s : System) where
  abbrev pub packet : List ℕ
  packet = packet_of env s (node self s) Op.ds buf k

  -- after `send`, and after the round that transmits
  abbrev pub posted : System
  posted = sent_state env self Op.ds packet (k + 8) s

  abbrev pub transmitted : System
  transmitted = clock_read (clock_read (served self posted))

  -- the node then
  abbrev pub posted_node : Node
  posted_node = record (node self s) {
    pkt_count_data = next_count (node self s).pkt_count_data;
    waiting_for_ack = true;
    retry_packet = take (k + 8) packet ++ drop (k + 8) (node self s).retry_packet;
    retry_packet_length = k + 8;
    retry_slid = Slid.store_addr;
    last_retry_time = env.clock s.clock_reads;
    send_q = (enqueue (node self s).send_q packet (k + 8) Slid.store_addr).0;
    last_send_time = env.clock (s.clock_reads + 1);
  }

  abbrev pub served_node : Node
  served_node = record posted_node { send_q = (dequeue posted_node.send_q).0 }

module _ (env : Env) (handler : Handler) (buf : List ℕ) (k : ℕ) (s : System) where
  pub node-posted :
      (self : Ref)
      → node self (posted env handler self buf k s) ≡ posted_node env handler self buf k s
  unfolding is_transport needs_ack
  node-posted store_driver = refl
  node-posted node_driver = refl

  node-served :
      (self : Ref)
      → node self (served self (posted env handler self buf k s))
        ≡ served_node env handler self buf k s
  unfolding is_transport needs_ack
  node-served store_driver = refl
  node-served node_driver = refl

  reads-served :
      (self : Ref) → (served self (posted env handler self buf k s)).clock_reads ≡ s.clock_reads + 2
  unfolding is_transport needs_ack
  reads-served store_driver = omega arith
  reads-served node_driver = omega arith

  pub node-transmitted :
      (self : Ref)
      → node self (transmitted env handler self buf k s) ≡ served_node env handler self buf k s
  unfolding is_transport needs_ack
  node-transmitted store_driver = refl
  node-transmitted node_driver = refl

module _ (env : Env) (handler : Handler) (self : Ref) (buf : List ℕ) (k : ℕ) (s : System)
    (i : IsReady env (node self s)) where
  abbrev n' : Node
  n' = served_node env handler self buf k s

  abbrev posted' : System
  posted' = posted env handler self buf k s

  pub posts :
      k ≤ length buf
      → k + 8 < 256
      → send_data env handler self Op.ds buf k s
        ≡ returns
            (env.no_return (in_queue env self Op.ds (packet env handler self buf k s) (k + 8) s))
            posted'
  unfolding is_data is_transport
  posts p l =
      send_data-phy env handler self Op.ds buf k s refl i.own_way (rw i.not_waiting refl) p l
        i.typed.retry_size

  patient : (j : ℕ) → s.clock_reads ≤ j → j ≤ s.clock_reads + 4 → retry_due n' (env.clock j) ≡ false
  unfolding retry_due
  patient j lo hi = i.not_late s.clock_reads j lo hi

  not_silent :
      (j : ℕ)
      → s.clock_reads + 1 ≤ j
      → j ≤ s.clock_reads + 5
      → heartbeat_due n' (env.clock j) ≡ false
  unfolding heartbeat_due
  not_silent j lo hi = i.not_silent (s.clock_reads + 1) j lo (omega arith)

  waits :
      run_timers env handler self (served self posted')
      ≡ returns tt (transmitted env handler self buf k s)
  waits =
      let e = node-served env handler buf k s self in
      let c = reads-served env handler buf k s self in
      timers_wait env handler self (served self posted') (ap (λ (n : Node). n.waiting_for_ack) e)
        (ap (λ (n : Node). retry_due n (env.clock (served self posted').clock_reads)) e
          ∙ patient (served self posted').clock_reads (omega (arith, c)) (omega (arith, c)))
        (ap (λ (n : Node). heartbeat_due n (env.clock ((served self posted').clock_reads + 1))) e
          ∙ not_silent ((served self posted').clock_reads + 1) (omega (arith, c))
              (omega (arith, c)))

  abbrev sent_packet : List ℕ
  sent_packet = packet env handler self buf k s

  abbrev rest_queue : RingBuff
  rest_queue = (dequeue (node self posted').send_q).0

  queue-posted :
      (node self posted').send_q
      ≡ (enqueue (node self s).send_q sent_packet (k + 8) Slid.store_addr).0
  queue-posted = ap (λ (n : Node). n.send_q) (node-posted env handler buf k s self)

  posted-IsValid : IsValid (node self posted').send_q
  posted-IsValid =
      rw queue-posted
        (enqueue-IsValid (node self s).send_q sent_packet (k + 8) Slid.store_addr i.queue_IsValid)

  -- The round that hands the packet to the driver.
  pub transmits :
      {D : Type 0} (driver : Driver D) (d : D)
      → (driver.driver_receive d).1 ≡ no_packet
      → driver.driver_can_send (driver.driver_receive d).0 ≡ true
      → (update env handler driver self d posted'
          ≡ returns
              (driver.driver_send (driver.driver_receive d).0 sent_packet (k + 8) Slid.store_addr).0
              (transmitted env handler self buf k s))
        × (contents rest_queue ≡ [])
  transmits driver d nothing can =
      let (flushed, left) =
        flush_oldest driver self (driver.driver_receive d).0 posted' posted-IsValid
          (record { addr = Slid.store_addr; len = k + 8; pkt = sent_packet }) []
          (ap contents queue-posted
            ∙ contents-enqueue (node self s).send_q sent_packet (k + 8) Slid.store_addr
                i.queue_IsValid i.empty i.room)
          can in
      (
        update_alone env handler driver self d _ posted' (served self posted')
            (transmitted env handler self buf k s)
            (ap (λ (n : Node). n.sign_on_complete) (node-posted env handler buf k s self)
              ∙ i.signed_on)
            nothing flushed waits,
        left,
      )
