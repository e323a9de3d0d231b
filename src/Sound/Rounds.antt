-- ===== src/Sound/Rounds.antt =====
-- A round of `update` ends in a sound state, and so does any number of rounds.
use steamlink_arduino.Prelude.{
  [], ◌∷◌, ℕ, zero, suc, ◌+◌, ◌≤◌, ◌≡◌, ◌≢◌, ◌⊎◌, ◌∙◌, ap, sym, refl, inl, inr, Bool, true, false,
  List, Option, none, some, length, arith, length-drop, ◌==◌, not, ◌&&◌, Bool-cases, get_or,
}
use native.Mathlib.Decide.{dec_lt}
use steamlink_arduino.Send.Packet.{IsWhole, IsWhole-long, IsWhole-control}
use steamlink_arduino.Wire.{is_data, byte_at, node_cfg_bytes}
use steamlink_arduino.Wire.RoundTrip.{length-node_cfg_bytes}
use steamlink_arduino.Wire.Op
use steamlink_arduino.Wire.Slid
use steamlink_arduino.Ring.{Relement, RingBuff, blank, dequeue, queuelevel}
use steamlink_arduino.Ring.Refine.{dequeue-IsValid}
use steamlink_arduino.System.{
  BridgeMode, unbridged, Env, System, Ref, store_driver, node_driver, node, returns, ◌>>=◌, ◌>>◌,
  pure, this, modify, free, when, millis, malloc, memcpy, read_byte,
}
use steamlink_arduino.Send.{Handler, generic_send, send_data, send_on, send_ss, send_tr}
use steamlink_arduino.Admin.{handle_admin_packet, payload_length_of, status_ok}
use steamlink_arduino.Update.{
  no_packet, a_packet, receive_hangs, receive_waits, receive_faults, Received, Driver, Reception,
  is_problem, retry_due, heartbeat_due, flush_queue, ensure_signed_on, sign_on_procedure,
  accept_packet, receive_packet, resend, retry_task, heartbeat_task, run_timers, update,
}
use steamlink_arduino.Update.Rounds.{clock_read}
use steamlink_arduino.Sound.{
  IsPacket, AllPackets, IsQueue, IsSide, IsSound, Setting, Excused, excuse, Ends, Ensures, Any,
  bind, step, pure_ends, ignored, malloc_ends, millis_ends, free_ends, this_ends, modify_ends,
  memcpy_ends, read_byte_ends, test_ends, cases_ends, when_ends, length-copy,
}
use steamlink_arduino.Sound.Sends.{SendsData, send_data_ends, send_ss_ends}
use steamlink_arduino.Sound.Packets.{IsMoved, IsRegular, handle_admin_packet_ends}

-- what a driver hands over
pub record IsReceived (t : Setting) (r : Reception) : Type 0 where
  pub size : length r.packet ≤ 255
  pub regular : Excused t (IsRegular r.packet r.packet_size)

-- How a driver's `driver_receive` may end: not with fuel that is out, and not with a buffer left
-- where undefined behaviour is not put up with.
abbrev pub Arrives : Setting → Received → Type 0
Arrives t no_packet = Unit {0}
Arrives t receive_hangs = Unit {0}
Arrives t receive_waits = ⊥
Arrives t (a_packet r) = IsReceived t r
Arrives t (receive_faults e) = t.tolerant ≡ true

-- What a driver keeps of its own state, where it is given packets that lie within their buffers,
-- and that what it hands over is then well formed.
pub record Delivers (t : Setting) {D : Type 0} (Inv : D → Type 0) (driver : Driver D) : Type 0 where
  pub receives :
      (d : D) → Inv d → Inv (driver.driver_receive d).0 × Arrives t (driver.driver_receive d).1
  pub takes :
      (d : D) (packet : List ℕ) (len slid : ℕ)
      → Inv d
      → IsPacket packet len
      → Inv (driver.driver_send d packet len slid).0

get_or-IsPacket :
    (es : List Relement) (i : ℕ)
    → AllPackets es
    → IsPacket (get_or es i blank).pkt (get_or es i blank).len
get_or-IsPacket [] i h = record { within = omega arith; size = omega arith }
get_or-IsPacket (e ∷ es) zero h = h.0
get_or-IsPacket (e ∷ es) (suc i) h = get_or-IsPacket es i h.1

-- What is taken from a queue of packets is a packet.
dequeue-IsPacket :
    (q : RingBuff) (e : Relement)
    → AllPackets q.ring
    → (dequeue q).1 ≡ some e
    → IsPacket e.pkt e.len
unfolding dequeue
dequeue-IsPacket q e h d = elim (Bool-cases (q.head == q.tail)) [
  | inl empty ↦ ground (arith, d, empty)
  | inr more ↦
      let same : get_or q.ring q.head blank ≡ e = ground (arith, d, more) in
      rw (← same) (get_or-IsPacket q.ring q.head h)
]

dequeue-IsQueue : (q : RingBuff) → IsQueue q → IsQueue (dequeue q).0
unfolding dequeue
dequeue-IsQueue q v = record {
  ring_IsValid = dequeue-IsValid q v.ring_IsValid;
  packets = ground (arith, v.packets);
}

-- What a `BN` packet leaves in its buffer has a header, too: at least the packet's own.
moved-IsWhole :
    (packet moved : List ℕ) (len : ℕ)
    → IsRegular packet len
    → IsMoved packet (payload_length_of len) moved
    → byte_at packet 0 ≡ Op.bn
    → IsWhole moved
unfolding payload_length_of is_data
moved-IsWhole packet moved len r c e = elim (dec_lt 7 (length moved)) [
  | yes l ↦ IsWhole-long moved l
  | no l ↦
      let same = c.unmoved (omega (arith, c.same_length, r.0, r.1)) in
      IsWhole-control moved (rw (same, e) refl) (omega (arith, c.same_length, r.0, r.1))
]

same_wait :
    (self : Ref) (s : System)
    → (node self s).waiting_for_ack ≡ true
    → (node self (clock_read s)).waiting_for_ack ≡ true
same_wait store_driver s w = w
same_wait node_driver s w = w

module _ (t : Setting) (env : Env) (handler : Handler) (self : Ref) where
  -- Whatever the object sends ends. It stands alone, where undefined behaviour is not put up with.
  pub record Sends : Type 0 where
    pub owner : (t.tolerant ≡ true) ⊎ (t.mode_of self ≡ unbridged)
    pub sends :
        (packet : List ℕ) (len slid : ℕ)
        → IsPacket packet len
        → Excused t (IsWhole packet)
        → Ensures t Any (generic_send env handler self packet len slid)

  module _ (out : Sends) where
    pub sends_data : SendsData t env handler self
    sends_data = record { sends = λ packet len slid p x d. out.sends packet len slid p x }

    pub takes_packet :
        (packet : List ℕ) (len : ℕ)
        → length packet ≤ 255
        → Excused t (IsRegular packet len)
        → Excused t (IsWhole packet)
        → Ensures t Any (handle_admin_packet env handler self packet len)
    takes_packet packet len p x y =
        handle_admin_packet_ends t env handler self sends_data packet len x
          (λ moved c e.
            out.sends moved (payload_length_of len) _
              (record {
                within = omega (arith, c.fits, c.same_length, length-drop 7 packet);
                size = omega (arith, c.same_length, p);
              })
              (excuse t x (λ r. moved-IsWhole packet moved len r c e)))
          y

    signed_on_ends : Ensures t Any (ensure_signed_on env handler self)
    unfolding ensure_signed_on sign_on_procedure send_on is_data
    signed_on_ends = bind (this self) _ (this_ends self) (λ n v.
        when_ends (not n.sign_on_complete) _ (λ e.
          step (sign_on_procedure env handler self)
            (modify self (λ n. record n { sign_on_complete = true }))
            (bind (this self) _ (this_ends self) (λ n v.
              ignored (send_data env handler self Op.on (node_cfg_bytes n.config) 60) (
                send_data_ends t env handler self sends_data Op.on (node_cfg_bytes n.config) 60 refl
                  (inr (
                    omega (arith, length-node_cfg_bytes n.config v.arrays.0 v.arrays.1),
                    omega arith,
                  )))))
            (modify_ends self (λ n. record n { sign_on_complete = true }) (λ n v. v))))

    node-IsSide : (s : System) → IsSound t s → IsSide (t.mode_of self) (node self s)
    node-IsSide s v = elim self as (λ r. IsSide (t.mode_of r) (node r s)) [
      | store_driver ↦ v.0
      | node_driver ↦ v.1
    ]

    by_mode :
        (mode : BridgeMode) (packet : List ℕ) (len : ℕ)
        → (mode ≢ unbridged → Ensures t Any (handle_admin_packet env handler self packet len))
        → Ensures t Any
            (elim mode [ unbridged ↦ free | _ ↦ handle_admin_packet env handler self packet len ])
    by_mode unbridged packet len h = free_ends
    by_mode BridgeMode.storeside packet len h = h (λ e. ground (arith, e))
    by_mode BridgeMode.nodeside packet len h = h (λ e. ground (arith, e))

    accept_packet_ends :
        (packet : List ℕ) (len slid : ℕ)
        → length packet ≤ 255
        → Excused t (IsRegular packet len)
        → Ensures t Any (accept_packet env handler self packet len slid)
    unfolding accept_packet send_tr is_data
    accept_packet_ends packet len slid p x = bind (this self) _ (this_ends self) (λ n v.
        bind (read_byte packet 0) _
          (read_byte_ends packet 0 (excuse t x (λ r. omega (arith, r.0, r.1))))
          (λ op o.
            test_ends (not (slid == Slid.test_addr)) _ _
              (cases_ends (is_data op) _ _
                (λ e. by_mode n.bridge_mode packet len (λ m.
                  takes_packet packet len p x
                    (elim out.owner [ inl u ↦ inl u | inr u ↦ absurd (m (v.keeps_mode ∙ u)) ])))
                (λ e.
                  test_ends (slid == n.slid) (handle_admin_packet env handler self packet len) free
                    (takes_packet packet len p x (
                      excuse t x (λ r.
                        IsWhole-control packet (ap is_data (sym o) ∙ e) (omega (arith, r.0, r.1)))))
                    free_ends))
              (ignored (send_data env handler self Op.tr packet len) (
                send_data_ends t env handler self sends_data Op.tr packet len refl
                  (excuse t x (λ r. (r.0, r.2)))))))

    receive_packet_ends :
        (r : Received) → Arrives t r → Ensures t Any (receive_packet env handler self r)
    unfolding receive_packet Ends
    receive_packet_ends no_packet h = pure_ends true tt
    receive_packet_ends receive_hangs h = record { run = λ s v. tt }
    receive_packet_ends receive_waits h = elim h [ ]
    receive_packet_ends (receive_faults e) h = record { run = λ s v. h }
    receive_packet_ends (a_packet r) q =
        step (modify self (λ n. record n { last_rssi = r.rssi })) _
          (modify_ends self (λ n. record n { last_rssi = r.rssi }) (λ n v. v))
          (step (λ s. returns tt (record s { allocated = s.allocated + 1 })) _
            (record { run = λ s v. (tt, v) })
            (bind (read_byte r.packet 0) _
              (read_byte_ends r.packet 0 (excuse t q.regular (λ l. omega (arith, l.0, l.1))))
              (λ op o.
                test_ends (is_problem op r.slid) (free >> pure false) _
                  (step free (pure false) free_ends (pure_ends false tt))
                  (step (accept_packet env handler self r.packet r.packet_size r.slid) (pure true)
                    (accept_packet_ends r.packet r.packet_size r.slid q.size q.regular)
                    (pure_ends true tt)))))

    module _ {D : Type 0} (driver : Driver D) (Inv : D → Type 0) (h : Delivers t Inv driver) where
      sent_ends :
          (d : D) (o : Option Relement)
          → Inv d
          → ((e : Relement) → o ≡ some e → IsPacket e.pkt e.len)
          → Ensures t Inv (elim o [
            | none ↦ pure d
            | some e ↦ (do
              modify self (λ n. record n { send_q = (dequeue n.send_q).0 })
              free
              pure (driver.driver_send d e.pkt e.len e.addr).0)
          ])
      sent_ends d none i p = pure_ends d i
      sent_ends d (some e) i p =
          step (modify self (λ n. record n { send_q = (dequeue n.send_q).0 })) _
            (modify_ends self (λ n. record n { send_q = (dequeue n.send_q).0 })
              (λ n v. record {
                keeps_mode = v.keeps_mode;
                has_handler = v.has_handler;
                queue = dequeue-IsQueue n.send_q v.queue;
                arrays = v.arrays;
                count_in = v.count_in;
                retry = v.retry;
              }))
            (step free _ free_ends (
              pure_ends (driver.driver_send d e.pkt e.len e.addr).0
                (h.takes d e.pkt e.len e.addr i (p e refl))))

      flush_queue_ends : (d : D) → Inv d → Ensures t Inv (flush_queue driver self d)
      unfolding flush_queue
      flush_queue_ends d i = bind (this self) _ (this_ends self) (λ n v.
          test_ends (driver.driver_can_send d && not (queuelevel n.send_q == 0)) _ (pure d)
            (sent_ends d (dequeue n.send_q).1 i (λ e. dequeue-IsPacket n.send_q e v.queue.packets))
            (pure_ends d i))

    -- A wait for an acknowledgement comes with a packet to send again.
    resend_ends :
        (s : System)
        → IsSound t s
        → (node self s).waiting_for_ack ≡ true
        → Ends t Any (resend env handler self s)
    unfolding resend
    resend_ends s v w =
        let n = node self s in
        let k = n.retry_packet_length in
        let r = (node-IsSide s v).retry in
        (bind (malloc env k) _ (malloc_ends env k) (λ fresh size.
            bind (memcpy fresh 0 n.retry_packet k) _
              (memcpy_ends fresh 0 n.retry_packet k
                (inr (omega (arith, r.retry_size, r.retry_in), omega (arith, size))))
              (λ packet c. bind (millis env) _ (millis_ends env) (λ now u.
                step (modify self (λ n. record n { last_retry_time = now })) _
                  (modify_ends self (λ n. record n { last_retry_time = now }) (λ n v. v))
                  (ignored (generic_send env handler self packet k n.retry_slid) (
                    out.sends packet k n.retry_slid
                      (record {
                        within = omega (arith, length-copy c, size);
                        size = omega (arith, length-copy c, size, r.retry_in);
                      })
                      (inr (
                        IsWhole-long packet
                          (omega (arith, length-copy c, size, r.cached w)))))))))).run
          s v

    late_ends :
        (s : System)
        → IsSound t s
        → (node self s).waiting_for_ack ≡ true
        → (b : Bool) → Ends t Any (when b (resend env handler self) (clock_read s))
    unfolding Ends
    late_ends s v w true = resend_ends (clock_read s) v (same_wait self s w)
    late_ends s v w false = (tt, v)

    retry_task_ends : Ensures t Any (retry_task env handler self)
    unfolding retry_task Ends
    retry_task_ends = record {
      run = λ s v. elim (Bool-cases (node self s).waiting_for_ack) [
        | inl w ↦
            rw (◌>>=◌, w) (late_ends s v w (retry_due (node self s) (env.clock s.clock_reads)))
        | inr w ↦ rw (◌>>=◌, w) (tt, v)
      ];
    }

    heartbeat_task_ends : Ensures t Any (heartbeat_task env handler self)
    unfolding heartbeat_task
    heartbeat_task_ends = bind (this self) _ (this_ends self) (λ n v.
        bind (millis env) _ (millis_ends env) (λ now u. when_ends (heartbeat_due n now) _ (λ e.
          ignored (send_ss env handler self status_ok)
            (send_ss_ends t env handler self sends_data))))

    -- A round of `update` ends, in a sound state if it returns.
    pub update_ends :
        {D : Type 0} (driver : Driver D) (Inv : D → Type 0) (d : D)
        → Delivers t Inv driver
        → Inv d
        → Ensures t Inv (update env handler driver self d)
    unfolding update run_timers
    update_ends driver Inv d h i =
        let (i', received) = h.receives d i in
        step (ensure_signed_on env handler self) _ signed_on_ends (
          bind (receive_packet env handler self (driver.driver_receive d).1) _
            (receive_packet_ends (driver.driver_receive d).1 received)
            (λ go_on u.
              test_ends go_on _ (pure (driver.driver_receive d).0)
                (bind (flush_queue driver self (driver.driver_receive d).0) _
                  (flush_queue_ends driver Inv h (driver.driver_receive d).0 i')
                  (λ d' i2.
                    step _ (pure d')
                      (step (retry_task env handler self) (heartbeat_task env handler self)
                        retry_task_ends heartbeat_task_ends)
                      (pure_ends d' i2)))
                (pure_ends (driver.driver_receive d).0 i')))
