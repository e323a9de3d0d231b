-- ===== src/Bridge/Relay.antt =====
-- A whole round of a bridge that hears a data packet: the packet goes from the one radio to the
-- other.
use steamlink_arduino.Prelude.{
  ℕ, ◌+◌, ◌≤◌, ◌<◌, ◌≡◌, ap, ◌∙◌, true, false, List, [], ◌∷◌, arith, length, if◌then◌else◌,
}
use steamlink_arduino.Wire.{is_data, byte_at, is_transport, needs_ack}
use steamlink_arduino.Wire.Op
use steamlink_arduino.Wire.Slid
use steamlink_arduino.Ring.{RingBuff, enqueue}
use steamlink_arduino.Ring.Fifo
use steamlink_arduino.Ring.Refine.{IsValid, contents, enqueue_refines, enqueue-IsValid}
use steamlink_arduino.System.{Env, System, store_driver, node_driver, returns}
use steamlink_arduino.Admin.{handle_admin_packet}
use steamlink_arduino.Send.Phy.{Carries, packet_of-Carries}
use steamlink_arduino.Update
use steamlink_arduino.Update.{
  no_packet, a_packet, Driver, Reception, is_problem, accept_packet, heartbeat_due,
}
use steamlink_arduino.Update.Receive.{noted, accepts, is_alone, accept_packet_lem, dropped}
use steamlink_arduino.Update.Flush.{served, flush_empty, flush_oldest}
use steamlink_arduino.Update.Rounds.{
  IsQuiet, clock_read, timers_idle, update_quiet, update_received,
}
use steamlink_arduino.Bridge.{router}
use steamlink_arduino.Bridge.Loop.{update, update_lem}
use steamlink_arduino.Bridge.Wiring.{IsWired}
use steamlink_arduino.Bridge.Uplink.{
  inner, outer, arrived, finished, node_passes, length-inner, length-outer,
}

-- A bridge with nothing to do: both sides have signed on, await nothing, have nothing queued, and
-- are not due a heartbeat, nor will they be in this round if they send.
pub record IsIdle (env : Env) (s : System) : Type 0 where
  pub store_quiet : IsQuiet env store_driver s
  pub node_quiet : IsQuiet env node_driver s
  pub store_empty : contents s.store_side.send_q ≡ []
  pub node_empty : contents s.node_side.send_q ≡ []
  pub store_room : 1 < s.store_side.send_q.ringsize
  pub store_later :
      (j k : ℕ)
      → heartbeat_due (record s.store_side { last_send_time = env.clock j }) (env.clock k) ≡ false
  pub node_later :
      (j k : ℕ)
      → heartbeat_due (record s.node_side { last_send_time = env.clock j }) (env.clock k) ≡ false

-- what is queued on an empty queue
pub contents-enqueue :
    (q : RingBuff) (packet : List ℕ) (len slid : ℕ)
    → IsValid q
    → contents q ≡ []
    → 1 < q.ringsize
    → contents (enqueue q packet len slid).0 ≡ record { addr = slid; len = len; pkt = packet } ∷ []
unfolding Fifo.push
contents-enqueue q packet len slid v e l =
    ap (λ x. x.0) (enqueue_refines q packet len slid v) ∙ rw e (ground arith)

module _ {D E : Type 0} (env : Env) (store_radio : Driver D) (node_radio : Driver E) (d : D) (e : E)
    (r : Reception) (s : System) where
  abbrev heard : System
  heard = noted node_driver r s

  heard-IsWired : IsWired s → IsWired heard
  heard-IsWired w = record {
    store_mode = w.store_mode;
    node_mode = w.node_mode;
    store_handler = w.store_handler;
    node_handler = w.node_handler;
    store_typed = w.store_typed;
    node_typed = record {
      queue_in = w.node_typed.queue_in;
      slid_in = w.node_typed.slid_in;
      count_in = w.node_typed.count_in;
      retry_size = w.node_typed.retry_size;
    };
  }

  abbrev passed : System
  passed = finished env r.packet heard

  is_accepted :
      IsWired s
      → is_data (byte_at r.packet 0) ≡ true
      → accepts heard.node_side (byte_at r.packet 0) r.slid ≡ true
  unfolding accepts is_alone
  is_accepted w o = rw (o, w.node_mode)

  passes :
      IsWired s
      → 8 ≤ length r.packet
      → is_data (byte_at r.packet 0) ≡ true
      → length r.packet + 16 < 256
      → handle_admin_packet env (router env) node_driver r.packet (length r.packet) heard
        ≡ returns tt passed
  unfolding router
  passes w l o f = node_passes env r.packet heard 299 (heard-IsWired w) l o f

  accepted :
      IsWired s
      → 8 ≤ length r.packet
      → r.packet_size ≡ length r.packet
      → r.slid ≡ 0
      → is_data (byte_at r.packet 0) ≡ true
      → length r.packet + 16 < 256
      → accept_packet env (router env) node_driver r.packet r.packet_size r.slid heard
        ≡ returns tt passed
  accepted w l z a o f =
      let handle = handle_admin_packet env (router env) node_driver r.packet in
      accept_packet_lem env (router env) node_driver r.packet r.packet_size r.slid heard
        (omega (arith, l)) (λ t. omega (arith, a, t))
      ∙ ap (λ b. if b then handle r.packet_size heard else returns tt (dropped heard))
          (is_accepted w o)
      ∙ ap (λ k. handle k heard) z
      ∙ passes w l o f

  node_round :
      IsWired s
      → IsIdle env s
      → (node_radio.driver_receive e).1 ≡ a_packet r
      → 8 ≤ length r.packet
      → r.packet_size ≡ length r.packet
      → r.slid ≡ 0
      → is_data (byte_at r.packet 0) ≡ true
      → is_problem (byte_at r.packet 0) r.slid ≡ false
      → length r.packet + 16 < 256
      → Update.update env (router env) node_radio node_driver e s
        ≡ returns (node_radio.driver_receive e).0 (clock_read passed)
  unfolding needs_ack is_transport heartbeat_due
  node_round w i g l z a o p f =
      update_received env (router env) node_radio node_driver e (node_radio.driver_receive e).0 r s
        passed passed i.node_quiet.signed_on g (omega (arith, l)) p (accepted w l z a o f)
        (flush_empty node_radio node_driver (node_radio.driver_receive e).0 passed
          i.node_quiet.queue_IsValid i.node_empty)
        (timers_idle env (router env) node_driver passed i.node_quiet.not_waiting
          (i.node_later _ _))

  -- the packet in both its envelopes, as the store side has it queued
  abbrev wrapped : List ℕ
  wrapped = outer env r.packet heard

  abbrev wrapped_size : ℕ
  wrapped_size = length (inner env r.packet heard) + 8

  abbrev relayed : System
  relayed = clock_read (served store_driver (clock_read passed))

  store_round :
      IsIdle env s
      → (store_radio.driver_receive d).1 ≡ no_packet
      → store_radio.driver_can_send (store_radio.driver_receive d).0 ≡ true
      → (Update.update env (router env) store_radio store_driver d (clock_read passed)
          ≡ returns
              (store_radio.driver_send
                (store_radio.driver_receive d).0
                wrapped
                wrapped_size
                Slid.store_addr).0
              relayed)
        × (contents relayed.store_side.send_q ≡ [])
  unfolding needs_ack is_transport heartbeat_due
  store_round i g c =
      let q = s.store_side.send_q in
      let v = enqueue-IsValid q wrapped wrapped_size Slid.store_addr i.store_quiet.queue_IsValid in
      let (flushed, left) =
        flush_oldest store_radio store_driver (store_radio.driver_receive d).0 (clock_read passed) v
          (record { addr = Slid.store_addr; len = wrapped_size; pkt = wrapped }) []
          (contents-enqueue q wrapped wrapped_size Slid.store_addr i.store_quiet.queue_IsValid
            i.store_empty i.store_room)
          c in
      (
        update_quiet env (router env) store_radio store_driver d _ (clock_read passed)
            (served store_driver (clock_read passed)) i.store_quiet.signed_on g flushed
            (timers_idle env (router env) store_driver (served store_driver (clock_read passed))
              i.store_quiet.not_waiting (i.store_later _ _)),
        left,
      )

  -- In one round of an idle bridge's loop, a data packet of at most 239 bytes that the node side's
  -- radio hands over goes out by the store side's driver, addressed to the store, in two envelopes:
  -- the outer one is a `BS` packet under the store side's SLID, whose content is a `BS` packet under
  -- the node side's SLID with the signal strength of the reception, whose content is the packet
  -- received. Nothing is left in either queue, and as many buffers are given back as are allocated.
  pub relays :
      IsWired s
      → IsIdle env s
      → (node_radio.driver_receive e).1 ≡ a_packet r
      → (store_radio.driver_receive d).1 ≡ no_packet
      → store_radio.driver_can_send (store_radio.driver_receive d).0 ≡ true
      → 8 ≤ length r.packet
      → r.packet_size ≡ length r.packet
      → r.slid ≡ 0
      → is_data (byte_at r.packet 0) ≡ true
      → is_problem (byte_at r.packet 0) r.slid ≡ false
      → length r.packet + 16 < 256
      → (mid last : List ℕ) × (s' : System) × (update env store_radio node_radio
            (record { init_done = true })
            d
            e
            s
          ≡ returns
              (
                record { init_done = true },
                (store_radio.driver_send
                    (store_radio.driver_receive d).0
                    last
                    (length last)
                    Slid.store_addr).0,
                (node_radio.driver_receive e).0,
              )
              s')
        × Carries (record s.node_side { last_rssi = r.rssi }) Op.bs r.packet (length r.packet) mid
        × Carries s.store_side Op.bs mid (length mid) last
        × (contents s'.store_side.send_q ≡ [])
        × (contents s'.node_side.send_q ≡ [])
        × (s'.allocated + s.freed ≡ s.allocated + s'.freed)
  unfolding needs_ack is_transport
  relays w i g n c l z a o p f =
      let (store_run, left) = store_round i n c in
      (
        inner env r.packet heard,
        wrapped,
        relayed,
        update_lem env store_radio node_radio d _ e (node_radio.driver_receive e).0 s
              (clock_read passed) relayed (node_round w i g l z a o p f) store_run
            ∙ ap
                (λ k.
                  returns
                    (
                      record { init_done = true },
                      (store_radio.driver_send (store_radio.driver_receive d).0 wrapped k
                          Slid.store_addr).0,
                      (node_radio.driver_receive e).0,
                    )
                    relayed)
                (omega (arith, length-outer env r.packet heard, length-inner env r.packet heard)),
        packet_of-Carries env heard heard.node_side Op.bs r.packet (length r.packet)
            w.node_typed.slid_in w.node_typed.count_in (omega arith),
        packet_of-Carries env (arrived env r.packet heard) s.store_side Op.bs
            (inner env r.packet heard) (length (inner env r.packet heard)) w.store_typed.slid_in
            w.store_typed.count_in (omega arith),
        left,
        i.node_empty,
        omega arith,
      )
