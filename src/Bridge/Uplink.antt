-- ===== src/Bridge/Uplink.antt =====
-- A data packet on its way to the store: from the node side's radio to the store side's queue.
use native.Mathlib.Decide.{dec_lt}
use steamlink_arduino.Prelude.{
  ℕ, suc, ◌+◌, ◌%◌, ◌==◌, ◌≤◌, ◌<◌, ◌≡◌, refl, ap, ap₂, ◌∙◌, sym, true, List, arith, length,
}
use steamlink_arduino.Wire.{is_data, byte_at, is_transport, needs_ack}
use steamlink_arduino.Wire.Op
use steamlink_arduino.Wire.Slid
use steamlink_arduino.Ring.Refine.{Joins, enqueue-Joins}
use steamlink_arduino.System.{
  Env, System, Ref, store_driver, node_driver, returns, faults, Fault, write_out_of_range, node,
  ◌>>=◌,
}
use steamlink_arduino.Send.{Handler, way, bridge, phy, generic_send, to_bridge}
use steamlink_arduino.Send.Limits.{send_data-overflows}
use steamlink_arduino.Send.Packet.{
  IsWhole, IsWhole-lt, IsWhole-long, warnpkt_lem, packet_of, length-packet_of, read_byte_lem,
}
use steamlink_arduino.Send.Steps.{prepared, stamped, queued, generic_send-bridge, generic_send-phy}
use steamlink_arduino.Send.Phy.{Carries, packet_of-Carries, packet_of-op}
use steamlink_arduino.Admin.{handle_admin_packet, handle_data}
use steamlink_arduino.Admin.Bridged.{handle_data_lem, dispatch-data, bs-open}
use steamlink_arduino.Bridge.{router_on, router}
use steamlink_arduino.Bridge.Wiring.{IsWired, router_on-data}

module _ (env : Env) (packet : List ℕ) (s : System) where
  -- the packet as each side wraps it, and the states in between
  abbrev pub inner : List ℕ
  inner = packet_of env s s.node_side Op.bs packet (length packet)

  abbrev pub arrived : System
  arrived = prepared env node_driver Op.bs inner (length packet + 8) s

  abbrev pub outer : List ℕ
  outer = packet_of env arrived arrived.store_side Op.bs inner (length inner)

  abbrev pub wrapped : System
  wrapped = prepared env store_driver Op.bs outer (length inner + 8) arrived

  abbrev pub stored : System
  stored =
      let t =
        stamped env store_driver
          (queued store_driver outer (length inner + 8) Slid.store_addr wrapped) in
      record t { freed = t.freed + 1 }

  abbrev pub finished : System
  finished = let t = stamped env node_driver stored in record t { freed = t.freed + 1 }

  is_data-inner : is_data (byte_at inner 0) ≡ true
  unfolding is_data
  is_data-inner = ap (λ o. o % 2 == 1) (packet_of-op env s s.node_side Op.bs packet (length packet))

  pub length-inner : length inner ≡ length packet + 8
  length-inner = sym (length-packet_of env s s.node_side Op.bs packet (length packet) (omega arith))

  pub length-outer : length outer ≡ length packet + 16
  length-outer = omega (
    arith,
    length-inner,
    length-packet_of env arrived arrived.store_side Op.bs inner (length inner) (omega arith),
  )

  arrived-store : arrived.store_side ≡ s.store_side
  unfolding needs_ack
  arrived-store = refl

  wrapped-goes : IsWired s → way (is_data (byte_at outer 0)) wrapped.store_side.bridge_mode ≡ phy
  unfolding needs_ack is_data way
  wrapped-goes w =
      ap₂ (λ o m. way (o % 2 == 1) m)
        (packet_of-op env arrived arrived.store_side Op.bs inner (length inner)) w.store_mode

  store_takes :
      (fuel : ℕ)
      → IsWired s
      → length packet + 16 < 256
      → handle_admin_packet env (router_on env fuel) store_driver inner (length inner) arrived
        ≡ returns tt stored
  unfolding is_transport
  store_takes fuel w f =
      handle_data_lem env (router_on env fuel) store_driver inner (length inner) arrived
        (omega (arith, length-inner)) is_data-inner (omega arith) (omega (arith, length-inner))
        (ap (λ n. length n.retry_packet) arrived-store ∙ w.store_typed.retry_size)
      ∙ rw (
        generic_send-phy env (router_on env fuel) store_driver outer (length inner + 8)
            Slid.store_addr wrapped (IsWhole-long outer (omega (arith, length-outer)))
            (wrapped-goes w),
        ◌>>=◌,
      )

  arrived-goes : IsWired s → way (is_data (byte_at inner 0)) arrived.node_side.bridge_mode ≡ bridge
  unfolding needs_ack is_data way
  arrived-goes w =
      ap₂ (λ o m. way (o % 2 == 1) m) (packet_of-op env s s.node_side Op.bs packet (length packet))
        w.node_mode

  arrived-handler : IsWired s → arrived.node_side.bridge_handler ≡ true
  unfolding needs_ack
  arrived-handler w = w.node_handler

  pub node_passes :
      (fuel : ℕ)
      → IsWired s
      → 8 ≤ length packet
      → is_data (byte_at packet 0) ≡ true
      → length packet + 16 < 256
      → handle_admin_packet env (router_on env (suc fuel)) node_driver packet (length packet) s
        ≡ returns tt finished
  unfolding is_transport
  node_passes fuel w l d f =
      handle_data_lem env (router_on env (suc fuel)) node_driver packet (length packet) s l d
        (omega arith) (omega arith) w.node_typed.retry_size
      ∙ rw (
        generic_send-bridge env (router_on env (suc fuel)) node_driver inner (length packet + 8)
            Slid.store_addr arrived stored (IsWhole-long inner (omega (arith, length-inner)))
            (arrived-goes w) (arrived-handler w)
            (router_on-data env fuel inner (length packet + 8) Slid.store_addr arrived
                (omega (arith, length-inner)) is_data-inner
              ∙ ap (λ k. handle_admin_packet env (router_on env fuel) store_driver inner k arrived)
                  (sym length-inner)
              ∙ store_takes fuel w f),
        ◌>>=◌,
      )

-- A data packet of 8 to 239 bytes that reaches the node side of a bridge joins the store side's
-- queue, at the end or nowhere where that is full, addressed to the store, in two envelopes: the
-- outer one is a `BS` packet under the store side's SLID, whose content is a `BS` packet under the
-- node side's SLID, whose content is the packet received. The node side's queue is untouched,
-- neither side comes to wait for an acknowledgement, and as many buffers are given back as are
-- allocated. The bridge is taken to be wired as `init` leaves it, each side's send queue a valid
-- ring.
pub uplink :
    (env : Env) (packet : List ℕ) (s : System)
    → IsWired s
    → 8 ≤ length packet
    → is_data (byte_at packet 0) ≡ true
    → length packet + 16 < 256
    → (mid last : List ℕ) × (s' : System) × (handle_admin_packet env
          (router env)
          node_driver
          packet
          (length packet)
          s
        ≡ returns tt s')
      × Carries s.node_side Op.bs packet (length packet) mid
      × Carries s.store_side Op.bs mid (length mid) last
      × Joins s.store_side.send_q last (length mid + 8) Slid.store_addr s'.store_side.send_q
      × (s'.node_side.send_q ≡ s.node_side.send_q)
      × (s'.store_side.waiting_for_ack ≡ s.store_side.waiting_for_ack)
      × (s'.node_side.waiting_for_ack ≡ s.node_side.waiting_for_ack)
      × (s'.allocated + s.freed ≡ s.allocated + s'.freed)
unfolding router needs_ack is_transport
uplink env packet s w l d f = (
  inner env packet s,
  outer env packet s,
  finished env packet s,
  node_passes env packet s 299 w (omega arith) d f,
  packet_of-Carries env s s.node_side Op.bs packet (length packet) w.node_typed.slid_in
      w.node_typed.count_in (omega arith),
  packet_of-Carries env (arrived env packet s) s.store_side Op.bs (inner env packet s)
      (length (inner env packet s)) w.store_typed.slid_in w.store_typed.count_in (omega arith),
  joins,
  refl,
  refl,
  refl,
  omega arith,
)
  where
    joins :
        Joins s.store_side.send_q
          (outer env packet s)
          (length (inner env packet s) + 8)
          Slid.store_addr
          (finished env packet s).store_side.send_q
    joins =
        enqueue-Joins s.store_side.send_q (outer env packet s) (length (inner env packet s) + 8)
          Slid.store_addr w.store_typed.queue_in

-- The call of the other side faults, and so does the send.
generic_send-faults :
    (env : Env) (handler : Handler) (self : Ref) (packet : List ℕ) (len slid : ℕ) (s : System)
    (e : Fault)
    → IsWhole packet
    → way (is_data (byte_at packet 0)) (node self s).bridge_mode ≡ bridge
    → (node self s).bridge_handler ≡ true
    → handler packet len slid s ≡ faults e
    → generic_send env handler self packet len slid s ≡ faults e
unfolding generic_send to_bridge
generic_send-faults env handler self packet len slid s e l w b h =
    rw (warnpkt_lem packet s l, read_byte_lem packet 0 s (IsWhole-lt packet l), w, b, h, ◌>>=◌)

module _ (env : Env) (packet : List ℕ) (s : System) (fuel : ℕ) where
  -- the store side is handed the packet in its first envelope
  second_overflows :
      IsWired s
      → 8 ≤ length packet
      → is_data (byte_at packet 0) ≡ true
      → 240 ≤ length packet
      → length packet < 248
      → handle_admin_packet env (router_on env (suc fuel)) node_driver packet (length packet) s
        ≡ faults write_out_of_range
  unfolding handle_data
  second_overflows w l d lo hi =
      let inner = inner env packet s in
      let size = length-inner env packet s in
      handle_data_lem env (router_on env (suc fuel)) node_driver packet (length packet) s l d
        (omega arith) (omega arith) w.node_typed.retry_size
      ∙ rw (
        generic_send-faults env (router_on env (suc fuel)) node_driver inner (length packet + 8)
            Slid.store_addr (arrived env packet s) write_out_of_range
            (IsWhole-long inner (omega (arith, size))) (arrived-goes env packet s w)
            (arrived-handler env packet s w)
            (router_on-data env fuel inner (length packet + 8) Slid.store_addr
                (arrived env packet s) (omega (arith, size)) (is_data-inner env packet s)
              ∙ dispatch-data env (router_on env fuel) store_driver inner (length packet + 8)
                  (arrived env packet s) (omega (arith, size)) (is_data-inner env packet s)
              ∙ rw (
                send_data-overflows env (router_on env fuel) store_driver Op.bs inner
                    (length packet + 8) (arrived env packet s)
                    (bs-open (arrived env packet s).store_side) (omega arith) (omega arith),
                ◌>>=◌,
              )),
        ◌>>=◌,
      )

  first_overflows :
      8 ≤ length packet
      → is_data (byte_at packet 0) ≡ true
      → 248 ≤ length packet
      → length packet < 256
      → handle_admin_packet env (router_on env (suc fuel)) node_driver packet (length packet) s
        ≡ faults write_out_of_range
  unfolding handle_data
  first_overflows l d lo hi =
      dispatch-data env (router_on env (suc fuel)) node_driver packet (length packet) s l d
      ∙ rw (
        send_data-overflows env (router_on env (suc fuel)) node_driver Op.bs packet (length packet)
            s (bs-open s.node_side) lo hi,
        ◌>>=◌,
      )

-- A data packet of 240 to 255 bytes, which the radio can deliver, makes the bridge write past the
-- end of a buffer: there is no room for its envelopes, and no test notices.
pub uplink_overflows :
    (env : Env) (packet : List ℕ) (s : System)
    → IsWired s
    → is_data (byte_at packet 0) ≡ true
    → 240 ≤ length packet
    → length packet < 256
    → handle_admin_packet env (router env) node_driver packet (length packet) s
      ≡ faults write_out_of_range
unfolding router
uplink_overflows env packet s w d lo hi = elim (dec_lt (length packet) 248) [
  | yes p ↦ second_overflows env packet s 299 w (omega arith) d lo p
  | no p ↦ first_overflows env packet s 299 (omega arith) d (omega arith) hi
]
