-- ===== src/Bridge/Order.antt =====
-- Two rounds of a bridge that is handed an order for a node: the order goes out by the radio.
use steamlink_arduino.Prelude.{
  ℕ, ◌≤◌, ◌<◌, ◌^◌, ◌≡◌, refl, ap, ◌∙◌, inr, true, false, List, [], ◌++◌, arith, length, take,
  take-append, ◌==◌, if◌then◌else◌,
}
use steamlink_arduino.Wire.{ControlHeader, is_data, byte_at, control_header_bytes}
use steamlink_arduino.Wire.Op
use steamlink_arduino.Wire.Slid
use steamlink_arduino.Ring.Refine.{contents, enqueue-IsValid}
use steamlink_arduino.System.{Env, System, store_driver, node_driver, returns}
use steamlink_arduino.Send.Steps.{>>=-returns, stamped}
use steamlink_arduino.Admin.{handle_admin_packet}
use steamlink_arduino.Admin.Packet.{control_packet, control_length, FitsControl}
use steamlink_arduino.Update
use steamlink_arduino.Update.{
  no_packet, a_packet, Driver, Reception, is_problem, accept_packet, heartbeat_due,
}
use steamlink_arduino.Update.Receive.{noted, accepts, accept_packet_lem, dropped, is_problem_iff}
use steamlink_arduino.Update.Flush.{served, flush_empty, flush_oldest}
use steamlink_arduino.Update.Rounds.{clock_read, timers_idle, update_quiet, update_received}
use steamlink_arduino.Bridge.{router}
use steamlink_arduino.Bridge.Loop.{update, update_lem}
use steamlink_arduino.Bridge.Rounds.{rounds}
use steamlink_arduino.Bridge.Wiring.{IsWired}
use steamlink_arduino.Bridge.Downlink.{kept, stored, store_passes, control_packet-op}
use steamlink_arduino.Bridge.Relay.{IsIdle, contents-enqueue}

-- What the order is like, and how it is addressed: to the store side, for the node side, to be sent on.
pub record IsOrder (outer mid inner : ControlHeader) (payload : List ℕ) (s : System) : Type 0 where
  pub outer_op : outer.op ≡ Op.bn
  pub mid_op : mid.op ≡ Op.bn
  pub control : is_data inner.op ≡ false
  pub not_store : (mid.slid == s.store_side.slid) ≡ false
  pub for_node : (mid.slid == s.node_side.slid) ≡ true
  pub mid_slid_in : mid.slid < 2 ^ 32
  pub inner_slid_in : inner.slid < 2 ^ 32
  pub fits : FitsControl (control_packet mid (control_packet inner payload))

-- the order's envelopes, and what the store side's driver hands over
abbrev pub envelope : ControlHeader → ControlHeader → List ℕ → List ℕ
envelope mid inner payload = control_packet mid (control_packet inner payload)

abbrev pub order_for :
    ControlHeader → ControlHeader → ControlHeader → List ℕ → List ℕ → ℕ → System → Reception
order_for outer mid inner payload stale rssi s = record {
  packet = control_packet outer (envelope mid inner payload ++ stale);
  packet_size = control_length (envelope mid inner payload);
  slid = s.store_side.slid;
  rssi = rssi;
}

module _ {D E : Type 0} (env : Env) (store_radio : Driver D) (node_radio : Driver E) (d : D) (e : E)
    (outer mid inner : ControlHeader) (payload stale : List ℕ) (rssi : ℕ) (s : System) where
  abbrev order : Reception
  order = order_for outer mid inner payload stale rssi s

  -- The node's packet at the head of a buffer, and the bridge once it is queued.
  abbrev heard : System
  heard = noted store_driver order (clock_read s)

  abbrev buffer : List ℕ
  buffer = kept env outer mid inner payload stale heard

  abbrev passed : System
  passed = stamped env store_driver (stored env outer mid inner payload stale heard)

  abbrev sent : System
  sent = clock_read (served node_driver (clock_read passed))

  heard-IsWired : IsWired s → IsWired heard
  heard-IsWired w = record {
    store_mode = w.store_mode;
    node_mode = w.node_mode;
    store_handler = w.store_handler;
    node_handler = w.node_handler;
    store_typed = record {
      queue_in = w.store_typed.queue_in;
      slid_in = w.store_typed.slid_in;
      count_in = w.store_typed.count_in;
      retry_size = w.store_typed.retry_size;
    };
    node_typed = w.node_typed;
  }

  passes :
      IsWired s
      → IsOrder outer mid inner payload s
      → handle_admin_packet env (router env) store_driver order.packet order.packet_size heard
        ≡ returns tt passed
  unfolding router
  passes w q =
      store_passes env outer mid inner payload stale heard 299 (heard-IsWired w) q.outer_op q.mid_op
        q.control q.not_store q.for_node q.mid_slid_in q.inner_slid_in q.fits

  first_byte : outer.op ≡ Op.bn → byte_at order.packet 0 ≡ Op.bn
  first_byte o = control_packet-op outer (envelope mid inner payload ++ stale) ∙ o

  is_accepted :
      outer.op ≡ Op.bn → accepts heard.store_side (byte_at order.packet 0) order.slid ≡ true
  unfolding accepts is_data
  is_accepted o = rw (first_byte o) (ground arith)

  accepted :
      IsWired s
      → IsOrder outer mid inner payload s
      → s.store_side.slid ≤ Slid.highest
      → accept_packet env (router env) store_driver order.packet order.packet_size order.slid heard
        ≡ returns tt passed
  unfolding control_header_bytes
  accepted w q hi =
      accept_packet_lem env (router env) store_driver order.packet order.packet_size order.slid
        heard (omega arith) (λ t. omega (arith, t, hi))
      ∙ ap
          (λ b.
            if b
            then handle_admin_packet env (router env) store_driver order.packet order.packet_size
                heard
            else returns tt (dropped heard))
          (is_accepted q.outer_op)
      ∙ passes w q

  -- the drivers after the first round
  abbrev d1 : D
  d1 = (store_radio.driver_receive d).0

  abbrev e1 : E
  e1 = (node_radio.driver_receive e).0

  quiet_node :
      IsIdle env s
      → (node_radio.driver_receive e).1 ≡ no_packet
      → Update.update env (router env) node_radio node_driver e s ≡ returns e1 (clock_read s)
  unfolding heartbeat_due
  quiet_node i n =
      update_quiet env (router env) node_radio node_driver e e1 s s i.node_quiet.signed_on n
        (flush_empty node_radio node_driver e1 s i.node_quiet.queue_IsValid i.node_empty)
        (timers_idle env (router env) node_driver s i.node_quiet.not_waiting
          (i.node_quiet.not_due s.clock_reads))

  store_hears :
      IsWired s
      → IsIdle env s
      → IsOrder outer mid inner payload s
      → Slid.lowest ≤ s.store_side.slid
      → s.store_side.slid ≤ Slid.highest
      → (store_radio.driver_receive d).1 ≡ a_packet order
      → Update.update env (router env) store_radio store_driver d (clock_read s)
        ≡ returns d1 (clock_read passed)
  unfolding heartbeat_due control_header_bytes
  store_hears w i q lo hi g =
      update_received env (router env) store_radio store_driver d d1 order (clock_read s) passed
        passed i.store_quiet.signed_on g (omega arith)
        ((is_problem_iff (byte_at order.packet 0) order.slid).1
          (rw (first_byte q.outer_op) (omega arith, omega arith, inr (lo, hi))))
        (accepted w q hi)
        (flush_empty store_radio store_driver d1 passed i.store_quiet.queue_IsValid i.store_empty)
        (timers_idle env (router env) store_driver passed i.store_quiet.not_waiting
          (i.store_later _ _))

  node_sends :
      IsIdle env s
      → 1 < s.node_side.send_q.ringsize
      → (node_radio.driver_receive e1).1 ≡ no_packet
      → node_radio.driver_can_send (node_radio.driver_receive e1).0 ≡ true
      → (Update.update env (router env) node_radio node_driver e1 (clock_read passed)
          ≡ returns
              (node_radio.driver_send
                (node_radio.driver_receive e1).0
                buffer
                (length (control_packet inner payload))
                inner.slid).0
              sent)
        × (contents sent.node_side.send_q ≡ [])
  unfolding heartbeat_due
  node_sends i room n c =
      let q = s.node_side.send_q in
      let size = length (control_packet inner payload) in
      let v = enqueue-IsValid q buffer size inner.slid i.node_quiet.queue_IsValid in
      let (flushed, left) =
        flush_oldest node_radio node_driver (node_radio.driver_receive e1).0 (clock_read passed) v
          (record { addr = inner.slid; len = size; pkt = buffer }) []
          (contents-enqueue q buffer size inner.slid i.node_quiet.queue_IsValid i.node_empty room)
          c in
      (
        update_quiet env (router env) node_radio node_driver e1 _ (clock_read passed)
            (served node_driver (clock_read passed)) i.node_quiet.signed_on n flushed
            (timers_idle env (router env) node_driver (served node_driver (clock_read passed))
              i.node_quiet.not_waiting (i.node_later _ _)),
        left,
      )

  quiet_store :
      IsIdle env s
      → (store_radio.driver_receive d1).1 ≡ no_packet
      → Update.update env (router env) store_radio store_driver d1 sent
        ≡ returns (store_radio.driver_receive d1).0 (clock_read sent)
  unfolding heartbeat_due
  quiet_store i n =
      update_quiet env (router env) store_radio store_driver d1 (store_radio.driver_receive d1).0
        sent sent i.store_quiet.signed_on n
        (flush_empty store_radio store_driver (store_radio.driver_receive d1).0 sent
          i.store_quiet.queue_IsValid i.store_empty)
        (timers_idle env (router env) store_driver sent i.store_quiet.not_waiting
          (i.store_later _ _))

  -- An order that the store's network delivers to an idle bridge, a control packet in two `BN`
  -- envelopes for the store side and for the node side, is handed to the node side's driver in the
  -- next round of the bridge's loop, both envelopes taken off, at the head of a buffer, with its own
  -- length and addressed to the SLID in its header. Nothing is left in either queue.
  pub delivers_order :
      IsWired s
      → IsIdle env s
      → IsOrder outer mid inner payload s
      → Slid.lowest ≤ s.store_side.slid
      → s.store_side.slid ≤ Slid.highest
      → 1 < s.node_side.send_q.ringsize
      → (store_radio.driver_receive d).1 ≡ a_packet (order_for outer mid inner payload stale rssi s)
      → (store_radio.driver_receive d1).1 ≡ no_packet
      → (node_radio.driver_receive e).1 ≡ no_packet
      → (node_radio.driver_receive e1).1 ≡ no_packet
      → node_radio.driver_can_send (node_radio.driver_receive e1).0 ≡ true
      → let packet = control_packet inner payload in
        (buffer : List ℕ) × (s' : System) × (rounds env store_radio node_radio 2
            (record { init_done = true })
            d
            e
            s
          ≡ returns
              (
                record { init_done = true },
                (store_radio.driver_receive d1).0,
                (node_radio.driver_send
                    (node_radio.driver_receive e1).0
                    buffer
                    (length packet)
                    inner.slid).0,
              )
              s')
        × (take (length packet) buffer ≡ packet)
        × (contents s'.store_side.send_q ≡ [])
        × (contents s'.node_side.send_q ≡ [])
  delivers_order w i q lo hi room g g' n n' c =
      let (node_run, left) = node_sends i room n' c in
      let first =
        update_lem env store_radio node_radio d d1 e e1 s (clock_read s) (clock_read passed)
          (quiet_node i n) (store_hears w i q lo hi g) in
      let second =
        update_lem env store_radio node_radio d1 _ e1 _ (clock_read passed) sent (clock_read sent)
          node_run (quiet_store i g') in
      (
        buffer,
        clock_read sent,
        >>=-returns (update env store_radio node_radio (record { init_done = true }) d e)
              (λ x. rounds env store_radio node_radio 1 x.0 x.1 x.2) s first
            ∙ >>=-returns (update env store_radio node_radio (record { init_done = true }) d1 e1)
                (λ x. rounds env store_radio node_radio 0 x.0 x.1 x.2) (clock_read passed) second,
        take-append (length (control_packet inner payload)) (control_packet inner payload) _ refl,
        i.store_empty,
        left,
      )
