-- ===== src/Exchange/Answer.antt =====
-- The round of `update` in which the store's acknowledgement of a text arrives.
use steamlink_arduino.Prelude.{
  ℕ, ◌+◌, ◌≤◌, ◌<◌, ◌≡◌, ◌≢◌, refl, ap, sym, subst, ◌∙◌, inr, true, false, List, [], arith, length,
  if◌then◌else◌,
}
use steamlink_arduino.Wire.{
  ControlHeader, is_data, is_transport, needs_ack, byte_at, control_header_bytes,
}
use steamlink_arduino.Wire.Op
use steamlink_arduino.Wire.Slid
use steamlink_arduino.Ring.{RingBuff, dequeue}
use steamlink_arduino.Ring.Refine.{IsValid, contents, enqueue-IsValid, dequeue-IsValid}
use steamlink_arduino.Ring.Runs.{enqueues, dequeues, step, ringsize-step}
use steamlink_arduino.System.{Env, System, Node, Ref, store_driver, node_driver, returns, node}
use steamlink_arduino.Send.{Handler}
use steamlink_arduino.Send.Packet.{length-packet_of}
use steamlink_arduino.Send.Phy.{IsTyped, Sent-IsTyped, sent_state-Sent}
use steamlink_arduino.Admin.{handle_admin_packet}
use steamlink_arduino.Admin.Packet.{control_packet, control_length, length-control_packet}
use steamlink_arduino.Admin.Data.{after_an, an_unblocks}
use steamlink_arduino.Update.{
  a_packet, Driver, Reception, update, heartbeat_due, retry_due, accept_packet,
}
use steamlink_arduino.Update.Receive.{noted, dropped, accepts, accept_packet_lem, is_problem_iff}
use steamlink_arduino.Update.Flush.{flush_empty}
use steamlink_arduino.Update.Rounds.{clock_read, timers_idle, update_received}
use steamlink_arduino.Exchange.{
  IsReady, packet, transmitted, posted_node, served_node, node-posted, node-transmitted,
}

-- the store's answer, as a driver hands it over
abbrev pub answer : ControlHeader → List ℕ → ℕ → Reception
answer h payload rssi = record {
  packet = control_packet h payload;
  packet_size = control_length payload;
  slid = h.slid;
  rssi = rssi;
}

module _ (env : Env) (handler : Handler) (buf : List ℕ) (k : ℕ) (s : System) (r : Reception) where
  -- after the acknowledgement, and at the end of its round
  abbrev pub answered : Ref → System
  answered self = after_an self (noted self r (transmitted env handler self buf k s))

  abbrev pub ended : Ref → System
  ended self = clock_read (answered self)

  abbrev pub ended_node : Ref → Node
  ended_node self = record (served_node env handler self buf k s) {
    last_rssi = r.rssi;
    waiting_for_ack = false;
  }

  node-noted :
      (self : Ref)
      → node self (noted self r (transmitted env handler self buf k s))
        ≡ record (served_node env handler self buf k s) { last_rssi = r.rssi }
  unfolding is_transport needs_ack
  node-noted store_driver = refl
  node-noted node_driver = refl

  node-answered : (self : Ref) → node self (answered self) ≡ ended_node self
  unfolding is_transport needs_ack
  node-answered store_driver = refl
  node-answered node_driver = refl

  reads-answered : (self : Ref) → (answered self).clock_reads ≡ s.clock_reads + 4
  unfolding is_transport needs_ack
  reads-answered store_driver = omega arith
  reads-answered node_driver = omega arith

  pub node-ended : (self : Ref) → node self (ended self) ≡ ended_node self
  unfolding is_transport needs_ack
  node-ended store_driver = refl
  node-ended node_driver = refl

  -- as many buffers given back as are taken
  pub balance : (self : Ref) → (ended self).allocated + s.freed ≡ s.allocated + (ended self).freed
  unfolding is_transport needs_ack
  balance store_driver = omega arith
  balance node_driver = omega arith

module _ (env : Env) (handler : Handler) (self : Ref) (buf : List ℕ) (k : ℕ) (s : System)
    (i : IsReady env (node self s)) (h : ControlHeader) (payload : List ℕ) (rssi : ℕ) where
  abbrev r : Reception
  r = answer h payload rssi

  abbrev heard : System
  heard = noted self r (transmitted env handler self buf k s)

  length-answer : 0 < length r.packet
  length-answer = omega (arith, length-control_packet h payload)

  is_for_us :
      h.op ≡ Op.an
      → h.slid ≡ (node self s).slid
      → accepts (node self heard) (byte_at r.packet 0) h.slid ≡ true
  unfolding accepts is_data control_header_bytes
  is_for_us o a =
      let e : (node self heard).slid ≡ h.slid =
        ap (λ (n : Node). n.slid) (node-noted env handler buf k s r self) ∙ sym a in
      rw (o, e) (ground arith)

  accepted :
      h.op ≡ Op.an
      → h.slid ≡ (node self s).slid
      → h.slid ≢ Slid.test_addr
      → accept_packet env handler self r.packet r.packet_size r.slid heard
        ≡ returns tt (answered env handler buf k s r self)
  accepted o a t =
      accept_packet_lem env handler self r.packet r.packet_size r.slid heard length-answer t
      ∙ ap
          (λ b.
            if b
            then handle_admin_packet env handler self r.packet r.packet_size heard
            else returns tt (dropped heard))
          (is_for_us o a)
      ∙ (an_unblocks env handler self h payload Op.ds heard o).0

  typed : k ≤ length buf → k + 8 < 256 → IsTyped (posted_node env handler self buf k s)
  typed p l =
      let size = length-packet_of env s (node self s) Op.ds buf k p in
      subst IsTyped (node-posted env handler buf k s self) (
        Sent-IsTyped
          (sent_state-Sent env self Op.ds (packet env handler self buf k s) (k + 8) s size
            (omega (arith, i.typed.retry_size)) i.typed.queue_in)
          i.typed)

  -- what is left of the queue
  abbrev left : RingBuff
  left = (dequeue (posted_node env handler self buf k s).send_q).0

  left-IsValid : IsValid left
  left-IsValid = dequeue-IsValid (posted_node env handler self buf k s).send_q (
      enqueue-IsValid (node self s).send_q (packet env handler self buf k s) (k + 8) Slid.store_addr
        i.queue_IsValid)

  left-room : left.ringsize ≡ (node self s).send_q.ringsize
  left-room =
      let q = (node self s).send_q in
      let step1 = enqueues (packet env handler self buf k s) (k + 8) Slid.store_addr in
      ringsize-step dequeues (step step1 q).0 ∙ ringsize-step step1 q

  pub ended-IsReady :
      k ≤ length buf
      → k + 8 < 256
      → contents left ≡ []
      → IsReady env (ended_node env handler buf k s r self)
  unfolding heartbeat_due retry_due
  ended-IsReady p l e =
      let t = typed p l in
      record {
        typed = record {
          queue_in = left-IsValid;
          slid_in = t.slid_in;
          count_in = t.count_in;
          retry_size = t.retry_size;
        };
        own_way = i.own_way;
        signed_on = i.signed_on;
        not_waiting = refl;
        queue_IsValid = left-IsValid;
        room = omega (arith, left-room, i.room);
        empty = e;
        not_silent = i.not_silent;
        not_late = i.not_late;
      }

  -- The round in which the acknowledgement arrives.
  pub unblocks :
      {D : Type 0} (driver : Driver D) (d : D)
      → h.op ≡ Op.an
      → h.slid ≡ (node self s).slid
      → Slid.lowest ≤ h.slid
      → h.slid ≤ Slid.highest
      → contents left ≡ []
      → (driver.driver_receive d).1 ≡ a_packet r
      → update env handler driver self d (transmitted env handler self buf k s)
        ≡ returns (driver.driver_receive d).0 (ended env handler buf k s r self)
  unfolding control_header_bytes heartbeat_due
  unblocks driver d o a lo hi empty heard_ack =
      let late = transmitted env handler self buf k s in
      let after = answered env handler buf k s r self in
      let e = node-answered env handler buf k s r self in
      update_received env handler driver self d (driver.driver_receive d).0 r late after after
        (ap (λ (n : Node). n.sign_on_complete) (node-transmitted env handler buf k s self)
          ∙ i.signed_on)
        heard_ack length-answer
        ((is_problem_iff h.op h.slid).1 (omega (arith, o), omega (arith, o), inr (lo, hi)))
        (accepted o a (omega arith))
        (flush_empty driver self (driver.driver_receive d).0 after
          (subst (λ (n : Node). IsValid n.send_q) (sym e) left-IsValid)
          (ap (λ (n : Node). contents n.send_q) e ∙ empty))
        (timers_idle env handler self after (ap (λ (n : Node). n.waiting_for_ack) e) (
          ap (λ (n : Node). heartbeat_due n (env.clock after.clock_reads)) e
          ∙ i.not_silent (s.clock_reads + 1) after.clock_reads
              (omega (arith, reads-answered env handler buf k s r self))
              (omega (arith, reads-answered env handler buf k s r self))))
