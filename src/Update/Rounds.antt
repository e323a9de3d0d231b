-- ===== src/Update/Rounds.antt =====
-- Whole rounds of `update` in which nothing is received and no timer is due: the loop's progress.
use steamlink_arduino.Prelude.{
  ℕ, zero, suc, ◌+◌, ◌≡◌, refl, ap, ◌∙◌, true, false, List, [], ◌∷◌, ◌<◌, arith, length,
}
use steamlink_arduino.Wire.{byte_at}
use steamlink_arduino.Ring.{Relement, dequeue}
use steamlink_arduino.Ring.Refine.{IsValid, contents, dequeue-IsValid}
use steamlink_arduino.System.{
  Env, System, Ref, store_driver, node_driver, returns, M, ◌>>=◌, pure, node,
}
use steamlink_arduino.Send.{Handler}
use steamlink_arduino.Update.{
  no_packet, a_packet, Driver, flush_queue, run_timers, retry_task, retry_due, heartbeat_task,
  heartbeat_due, receive_packet, is_problem, accept_packet, Reception, update,
}
use steamlink_arduino.Update.Receive.{ensure_signed_on-done, receive_packet-good, noted}
use steamlink_arduino.Update.Flush.{served, flush_oldest}

abbrev pub clock_read : System → System
clock_read s = record s { clock_reads = s.clock_reads + 1 }

-- A node that has signed on, waits for no acknowledgement, and at no reading of the clock has been
-- silent for too long.
pub record IsQuiet (env : Env) (self : Ref) (s : System) : Type 0 where
  pub signed_on : (node self s).sign_on_complete ≡ true
  pub not_waiting : (node self s).waiting_for_ack ≡ false
  pub not_due : (k : ℕ) → heartbeat_due (node self s) (env.clock k) ≡ false
  pub queue_IsValid : IsValid (node self s).send_q

module _ (env : Env) (handler : Handler) where
  pub timers_idle :
      (self : Ref) (s : System)
      → (node self s).waiting_for_ack ≡ false
      → heartbeat_due (node self s) (env.clock s.clock_reads) ≡ false
      → run_timers env handler self s ≡ returns tt (clock_read s)
  unfolding run_timers retry_task heartbeat_task
  timers_idle self s w h = rw (◌>>=◌, w, h) refl

  -- The same of a node that waits for an acknowledgement, and will not yet send again.
  pub timers_wait :
      (self : Ref) (s : System)
      → (node self s).waiting_for_ack ≡ true
      → retry_due (node self s) (env.clock s.clock_reads) ≡ false
      → heartbeat_due (node self s) (env.clock (s.clock_reads + 1)) ≡ false
      → run_timers env handler self s ≡ returns tt (clock_read (clock_read s))
  unfolding run_timers retry_task heartbeat_task retry_due heartbeat_due
  timers_wait store_driver s w r h = rw (◌>>=◌, w, r, pure, h) refl
  timers_wait node_driver s w r h = rw (◌>>=◌, w, r, pure, h) refl

  -- A round that receives nothing.
  pub update_alone :
      {D : Type 0} (driver : Driver D) (self : Ref) (d d2 : D) (s s1 s2 : System)
      → (node self s).sign_on_complete ≡ true
      → (driver.driver_receive d).1 ≡ no_packet
      → flush_queue driver self (driver.driver_receive d).0 s ≡ returns d2 s1
      → run_timers env handler self s1 ≡ returns tt s2
      → update env handler driver self d s ≡ returns d2 s2
  unfolding update receive_packet
  update_alone driver self d d2 s s1 s2 o r f t =
      rw (◌>>=◌, ensure_signed_on-done env handler self s o, r, f, t) refl

  pub update_quiet :
      {D : Type 0} (driver : Driver D) (self : Ref) (d d2 : D) (s s1 : System)
      → (node self s).sign_on_complete ≡ true
      → (driver.driver_receive d).1 ≡ no_packet
      → flush_queue driver self (driver.driver_receive d).0 s ≡ returns d2 s1
      → run_timers env handler self s1 ≡ returns tt (clock_read s1)
      → update env handler driver self d s ≡ returns d2 (clock_read s1)
  update_quiet driver self d d2 s s1 o r f t =
      update_alone driver self d d2 s s1 (clock_read s1) o r f t

  -- A round that takes a packet, when no timer is due afterwards.
  pub update_received :
      {D : Type 0} (driver : Driver D) (self : Ref) (d d2 : D) (r : Reception) (s s1 s2 : System)
      → (node self s).sign_on_complete ≡ true
      → (driver.driver_receive d).1 ≡ a_packet r
      → 0 < length r.packet
      → is_problem (byte_at r.packet 0) r.slid ≡ false
      → accept_packet env handler self r.packet r.packet_size r.slid (noted self r s)
        ≡ returns tt s1
      → flush_queue driver self (driver.driver_receive d).0 s1 ≡ returns d2 s2
      → run_timers env handler self s2 ≡ returns tt (clock_read s2)
      → update env handler driver self d s ≡ returns d2 (clock_read s2)
  unfolding update
  update_received driver self d d2 r s s1 s2 o g l p a f t =
      rw
        (
          ensure_signed_on-done env handler self s o,
          g,
          receive_packet-good env handler self r s l p,
          a,
          f,
          t,
          ◌>>=◌,
        )
        refl

  -- The state once the oldest packet has been sent, and the clock has been read.
  abbrev sent : Ref → System → System
  sent self s = clock_read (served self s)

  sent-IsQuiet : (self : Ref) (s : System) → IsQuiet env self s → IsQuiet env self (sent self s)
  unfolding heartbeat_due
  sent-IsQuiet store_driver s q = record {
    signed_on = q.signed_on;
    not_waiting = q.not_waiting;
    not_due = q.not_due;
    queue_IsValid = dequeue-IsValid (node store_driver s).send_q q.queue_IsValid;
  }
  sent-IsQuiet node_driver s q = record {
    signed_on = q.signed_on;
    not_waiting = q.not_waiting;
    not_due = q.not_due;
    queue_IsValid = dequeue-IsValid (node node_driver s).send_q q.queue_IsValid;
  }

  queue-sent :
      (self : Ref) (s : System)
      → (node self (sent self s)).send_q ≡ (dequeue (node self s).send_q).0
  queue-sent store_driver s = refl
  queue-sent node_driver s = refl

  freed-sent : (self : Ref) (s : System) → (sent self s).freed ≡ s.freed + 1
  freed-sent store_driver s = refl
  freed-sent node_driver s = refl

  timers_after :
      (self : Ref) (s : System)
      → IsQuiet env self s
      → run_timers env handler self (served self s) ≡ returns tt (sent self s)
  unfolding heartbeat_due
  timers_after store_driver s q =
      timers_idle store_driver (served store_driver s) q.not_waiting (q.not_due s.clock_reads)
  timers_after node_driver s q =
      timers_idle node_driver (served node_driver s) q.not_waiting (q.not_due s.clock_reads)

  -- so many rounds of the loop
  abbrev pub rounds : {D : Type 0} → Driver D → Ref → ℕ → D → M D
  rounds driver self zero d = pure d
  rounds driver self (suc n) d = update env handler driver self d >>= rounds driver self n

  -- the driver behind rounds that each look for a packet, find none, and send one of these
  abbrev pub handed : {D : Type 0} → Driver D → D → List Relement → D
  handed driver d [] = d
  handed driver d (e ∷ rest) =
      handed driver (driver.driver_send (driver.driver_receive d).0 e.pkt e.len e.addr).0 rest

  drains :
      {D : Type 0} (driver : Driver D) (self : Ref) (queue : List Relement) (d : D) (s : System)
      → ((d : D) → (driver.driver_receive d).1 ≡ no_packet)
      → ((d : D) → driver.driver_can_send d ≡ true)
      → IsQuiet env self s
      → contents (node self s).send_q ≡ queue
      → (s' : System) × (rounds driver self (length queue) d s ≡ returns (handed driver d queue) s')
        × (contents (node self s').send_q ≡ [])
        × (s'.freed ≡ s.freed + length queue)
        × IsQuiet env self s'
  drains driver self [] d s nothing can q c = (s, refl, c, omega arith, q)
  drains driver self (e ∷ rest) d s nothing can q c =
      let d1 = (driver.driver_receive d).0 in
      let (flushed, left) = flush_oldest driver self d1 s q.queue_IsValid e rest c (can d1) in
      let d2 = (driver.driver_send d1 e.pkt e.len e.addr).0 in
      let first =
        update_quiet driver self d d2 s (served self s) q.signed_on (nothing d) flushed
          (timers_after self s q) in
      let (s2, later, empty, freed, q') =
        drains driver self rest d2 (sent self s) nothing can (sent-IsQuiet self s q)
          (ap contents (queue-sent self s) ∙ left) in
      (s2, rw (◌>>=◌, first) later, empty, omega (arith, freed, freed-sent self s), q')

  -- While nothing is received, no timer is due and the driver can send, so many rounds of `update`
  -- as packets are queued hand every packet of the queue to the driver, in the order in which they
  -- were queued, leave the queue empty, give as many buffers back, and leave the node quiet.
  pub rounds-drain :
      {D : Type 0} (driver : Driver D) (self : Ref) (d : D) (s : System)
      → ((d : D) → (driver.driver_receive d).1 ≡ no_packet)
      → ((d : D) → driver.driver_can_send d ≡ true)
      → IsQuiet env self s
      → let queue = contents (node self s).send_q in
        (s' : System) × (rounds driver self (length queue) d s ≡ returns (handed driver d queue) s')
        × (contents (node self s').send_q ≡ [])
        × (s'.freed ≡ s.freed + length queue)
        × IsQuiet env self s'
  rounds-drain driver self d s nothing can q =
      drains driver self (contents (node self s).send_q) d s nothing can q refl
