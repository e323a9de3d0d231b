-- ===== src/Update/Retry.antt =====
-- The first timer of `update`: sending a packet again that has not been acknowledged.
use steamlink_arduino.Prelude.{
  ℕ, ◌+◌, ◌-◌, ◌≤◌, ◌<◌, ◌^◌, ◌≡◌, ◌≢◌, ◌↔◌, refl, ap, ◌∙◌, Bool, true, false, ◌&&◌, if◌then◌else◌,
  Bool-cases, inl, inr, List, ◌++◌, append-nil, arith, length, take, drop_all,
}
use steamlink_arduino.Wire.{is_data, byte_at}
use steamlink_arduino.Ring.Fifo
use steamlink_arduino.Ring.Refine.{IsValid, contents, enqueue-Joins}
use steamlink_arduino.System.{
  nodeside, Env, System, Node, Ref, store_driver, node_driver, returns, node, put, memcpy, ◌>>=◌,
  when, millis,
}
use steamlink_arduino.Send.{Handler, way, phy}
use steamlink_arduino.Send.Packet.{IsWhole-long, memcpy_start, fresh_buffer, length-fill}
use steamlink_arduino.Send.Steps.{queued, stamped, generic_send-phy}
use steamlink_arduino.Send.Phy.{way_own}
use steamlink_arduino.Update.{retry_due, resend, retry_task}

-- While the sum fits into 32 bits, the test says that more than 3000 ms have passed.
pub retry_due_iff :
    (n : Node) (now : ℕ)
    → n.last_retry_time + 3000 < 2 ^ 32
    → (retry_due n now ≡ true) ↔ (n.last_retry_time + 3000 < now)
unfolding retry_due
retry_due_iff n now h = (λ e. ground arith, λ e. ground arith)

-- In the last three seconds before the clock wraps, the test always says so: a packet that has
-- just been sent counts as overdue at every later reading.
pub retry_due_early :
    (n : Node) (now : ℕ)
    → n.last_retry_time < 2 ^ 32
    → 2 ^ 32 ≤ n.last_retry_time + 3000
    → n.last_retry_time ≤ now
    → retry_due n now ≡ true
unfolding retry_due
retry_due_early n now a b c = ground arith

-- The packet in the retry buffer, as `cache_packet` leaves it.
pub record IsCached (n : Node) (packet : List ℕ) : Type 0 where
  pub whole_header : 8 ≤ length packet
  pub is_data_packet : is_data (byte_at packet 0) ≡ true
  pub size : n.retry_packet_length ≡ length packet
  pub content : take n.retry_packet_length n.retry_packet ≡ packet
  pub fits : n.retry_packet_length ≤ length n.retry_packet

module _ (env : Env) (handler : Handler) (self : Ref) (s : System) where
  -- the time of the retry noted, and a buffer taken for the copy
  abbrev retried : System
  retried =
      let t = record s { allocated = s.allocated + 1 } in
      let u = record t { clock_reads = t.clock_reads + 1 } in
      put self (record (node self u) { last_retry_time = env.clock t.clock_reads }) u

  copy_lem :
      (packet : List ℕ) (t : System)
      → IsCached (node self s) packet
      → memcpy
          (fresh_buffer env s (node self s).retry_packet_length)
          0
          (node self s).retry_packet
          (node self s).retry_packet_length
          t
        ≡ returns packet t
  copy_lem packet t c =
      let n = node self s in
      let fresh = fresh_buffer env s n.retry_packet_length in
      let size = length-fill (env.uninitialised s.allocated) n.retry_packet_length in
      memcpy_start fresh n.retry_packet n.retry_packet_length t c.fits (omega (arith, size))
      ∙ ap (λ b. returns (take n.retry_packet_length n.retry_packet ++ b) t)
          (drop_all n.retry_packet_length fresh (omega (arith, size)))
      ∙ ap (λ b. returns b t) (append-nil _ ∙ c.content)

  -- the state after the copy has been queued
  abbrev pub resent : List ℕ → System
  resent packet =
      stamped env self
        (queued self packet (node self s).retry_packet_length (node self s).retry_slid retried)

  resend_lem :
      (packet : List ℕ)
      → IsCached (node self s) packet
      → way (is_data (byte_at packet 0)) (node self retried).bridge_mode ≡ phy
      → resend env handler self s ≡ returns tt (resent packet)
  unfolding resend
  resend_lem packet c w =
      rw
        (
          copy_lem packet (record s { allocated = s.allocated + 1 }) c,
          ◌>>=◌,
          generic_send-phy env handler self packet (node self s).retry_packet_length
              (node self s).retry_slid retried (IsWhole-long packet c.whole_header) w,
        )
        refl

-- What the timer leaves in the node.
pub record Retried (packet : List ℕ) (now : ℕ) (n n' : Node) : Type 0 where
  pub still_valid : IsValid n'.send_q
  pub holds : contents n'.send_q ≡ (
      if n.waiting_for_ack && retry_due n now
      then (Fifo.push
          (n.send_q.ringsize - 1)
          (contents n.send_q)
          (record { addr = n.retry_slid; len = length packet; pkt = packet })).0
      else contents n.send_q)
  pub waits : n'.waiting_for_ack ≡ n.waiting_for_ack
  pub count : n'.pkt_count_data ≡ n.pkt_count_data
  pub copy : n'.retry_packet ≡ n.retry_packet
  pub copy_length : n'.retry_packet_length ≡ n.retry_packet_length
  pub copy_slid : n'.retry_slid ≡ n.retry_slid

module _ (env : Env) (handler : Handler) where
  -- the clock has been read once
  abbrev pub ticked : System → System
  ticked s = record s { clock_reads = s.clock_reads + 1 }

  goes :
      (self : Ref) (packet : List ℕ) (s : System)
      → (node self s).bridge_mode ≢ nodeside
      → IsCached (node self s) packet
      → way
          (is_data (byte_at packet 0))
          (node self (retried env handler self (ticked s))).bridge_mode
        ≡ phy
  goes store_driver packet s m c =
      ap (λ b. way b s.store_side.bridge_mode) c.is_data_packet ∙ way_own s.store_side.bridge_mode m
  goes node_driver packet s m c =
      ap (λ b. way b s.node_side.bridge_mode) c.is_data_packet ∙ way_own s.node_side.bridge_mode m

  -- the state that the retry timer leaves
  abbrev pub after_retry : Ref → List ℕ → System → System
  after_retry self packet s =
      if (node self s).waiting_for_ack
      then (if retry_due (node self s) (env.clock s.clock_reads)
          then resent env handler self (ticked s) packet
          else ticked s)
      else s

  retry_run :
      (self : Ref) (packet : List ℕ) (s : System) (w : Bool) (d : ℕ → Bool)
      → resend env handler self (ticked s) ≡ returns tt (resent env handler self (ticked s) packet)
      → when w (millis env >>= (λ now. when (d now) (resend env handler self))) s
        ≡ returns tt (
            if w
            then (if d (env.clock s.clock_reads)
                then resent env handler self (ticked s) packet
                else ticked s)
            else s)
  retry_run self packet s true d e = elim (Bool-cases (d (env.clock s.clock_reads))) [
    | inl h ↦ rw h e
    | inr h ↦ rw h refl
  ]
  retry_run self packet s false d e = refl

  pub retry_task_run :
      (self : Ref) (packet : List ℕ) (s : System)
      → (node self s).bridge_mode ≢ nodeside
      → IsCached (node self s) packet
      → retry_task env handler self s ≡ returns tt (after_retry self packet s)
  unfolding retry_task
  retry_task_run store_driver packet s m c =
      retry_run store_driver packet s s.store_side.waiting_for_ack (retry_due s.store_side)
        (resend_lem env handler store_driver (ticked s) packet c (goes store_driver packet s m c))
  retry_task_run node_driver packet s m c =
      retry_run node_driver packet s s.node_side.waiting_for_ack (retry_due s.node_side)
        (resend_lem env handler node_driver (ticked s) packet c (goes node_driver packet s m c))

  -- Where a node that is not the node side of a bridge awaits an acknowledgement, and the test of
  -- the timer passes, the cached packet joins its send queue again, byte for byte and for the same
  -- address, at the end or nowhere where the queue is full: the node goes on waiting, keeps the
  -- copy, and uses no new packet number. Where the test fails, or nothing is awaited, nothing is
  -- sent. The cached packet has a whole header and fits the retry buffer, and the send queue is a
  -- valid ring.
  pub retry_task_lem :
      (self : Ref) (packet : List ℕ) (s : System)
      → (node self s).bridge_mode ≢ nodeside
      → IsCached (node self s) packet
      → IsValid (node self s).send_q
      → (s' : System) × (retry_task env handler self s ≡ returns tt s')
        × Retried packet (env.clock s.clock_reads) (node self s) (node self s')
  retry_task_lem self packet s m c v =
      (after_retry self packet s, retry_task_run self packet s m c, after self c v)
    where
      after :
          (self : Ref)
          → IsCached (node self s) packet
          → IsValid (node self s).send_q
          → Retried packet
              (env.clock s.clock_reads)
              (node self s)
              (node self (after_retry self packet s))
      after store_driver c v =
          let n = s.store_side in
          ground (arith, c.size, enqueue-Joins n.send_q packet (length packet) n.retry_slid v)
      after node_driver c v =
          let n = s.node_side in
          ground (arith, c.size, enqueue-Joins n.send_q packet (length packet) n.retry_slid v)
