-- ===== src/Admin/Transmit.antt =====
-- The `TD` branch of `handle_admin_packet`: a node that is told to send a test packet.
use steamlink_arduino.Prelude.{
  ℕ, ◌+◌, ◌≡◌, ◌≢◌, refl, ap, ◌∙◌, sym, subst, List, ◌++◌, append-nil, arith, length, drop,
  take-append, drop_all, length-append,
}
use steamlink_arduino.Wire.{ControlHeader, needs_ack, is_transport}
use steamlink_arduino.Wire.Op
use steamlink_arduino.Wire.Ack
use steamlink_arduino.Wire.Slid
use steamlink_arduino.Ring.Refine.{Joins, enqueue-Joins}
use steamlink_arduino.Ring.{enqueue}
use steamlink_arduino.System.{
  nodeside, Env, System, Node, Ref, store_driver, node_driver, returns, node, ◌>>=◌,
}
use steamlink_arduino.Send.{Handler, send_td, send_enqueue}
use steamlink_arduino.Send.Packet.{fresh_buffer, length-fill, memcpy_start}
use steamlink_arduino.Send.Steps.{queued}
use steamlink_arduino.Send.Phy.{IsTyped}
use steamlink_arduino.Admin.{handle_admin_packet, dispatch, handle_td}
use steamlink_arduino.Admin.Packet.{
  control_packet, control_length, move_payload_lem, payload_length_of_lem, dispatch_lem, acked,
  Answers, send_as-phy, acked-Answers, acked-IsTyped, FitsControl,
}

-- The state once a copy of a test packet is queued.
abbrev with_test : Ref → List ℕ → System → System
with_test self payload s =
    queued self payload (length payload) Slid.test_addr (record s { allocated = s.allocated + 1 })

module _ (env : Env) (handler : Handler) where
  -- `send_td` queues a copy of the buffer's first bytes.
  send_td_lem :
      (self : Ref) (payload stale : List ℕ) (s : System)
      → send_td env self (payload ++ stale) (length payload) s
        ≡ returns (env.no_return (with_test self payload s)) (with_test self payload s)
  unfolding send_td send_enqueue
  send_td_lem self payload stale s =
      let k = length payload in
      let fresh = fresh_buffer env s k in
      rw
        (
          memcpy_start fresh (payload ++ stale) k (record s { allocated = s.allocated + 1 })
              (omega (arith, length-append payload stale))
              (omega (arith, length-fill (env.uninitialised s.allocated) k)),
          take-append k payload stale refl,
          drop_all k fresh (omega (arith, length-fill (env.uninitialised s.allocated) k)),
          append-nil payload,
          ◌>>=◌,
        )
        refl

  td_lem :
      (self : Ref) (h : ControlHeader) (payload : List ℕ) (s : System)
      → h.op ≡ Op.td
      → FitsControl payload
      → (node self s).bridge_mode ≢ nodeside
      → IsTyped (node self s)
      → handle_admin_packet env handler self (control_packet h payload) (control_length payload) s
        ≡ returns tt (with_test self payload (acked env self Ack.success s))
  unfolding dispatch handle_td
  td_lem self h payload s o f m t =
      dispatch_lem env handler self h Op.td payload (control_length payload) s o refl
      ∙ rw (
        send_as-phy env handler self Ack.success s m t,
        move_payload_lem h payload (acked env self Ack.success s) f,
        payload_length_of_lem payload f,
        send_td_lem self payload (drop (length payload) (control_packet h payload))
            (acked env self Ack.success s),
        ◌>>=◌,
      )

  node-with_test :
      (self : Ref) (payload : List ℕ) (s : System)
      → node self (with_test self payload s) ≡ record (node self s) {
        send_q = (enqueue (node self s).send_q payload (length payload) Slid.test_addr).0;
      }
  node-with_test store_driver payload s = refl
  node-with_test node_driver payload s = refl

  buffers :
      (self : Ref) (payload : List ℕ) (s : System)
      → let s' = with_test self payload (acked env self Ack.success s) in
        (s'.allocated ≡ s.allocated + 2) × (s'.freed ≡ s.freed)
  unfolding acked needs_ack is_transport
  buffers store_driver payload s = (omega arith, refl)
  buffers node_driver payload s = (omega arith, refl)

  -- Where a node that is not the node side of a bridge takes a `TD` packet, an acknowledgement of
  -- code 0 joins its send queue, and then exactly the packet's payload, without a header of its
  -- own, for the address of test packets: each at the end, or nowhere where the queue is full. Of
  -- the two buffers that it allocates and the packet's own none is given back here. The node's
  -- fields are taken to lie in the ranges of their types, and its send queue to be a valid ring.
  pub td_transmits :
      (self : Ref) (h : ControlHeader) (payload : List ℕ) (s : System)
      → h.op ≡ Op.td
      → FitsControl payload
      → (node self s).bridge_mode ≢ nodeside
      → IsTyped (node self s)
      → (acknowledged : Node) × (s' : System) × (handle_admin_packet env handler self
            (control_packet h payload)
            (control_length payload)
            s
          ≡ returns tt s')
        × Answers Ack.success (node self s) acknowledged
        × (node self s' ≡ record acknowledged {
          send_q = (enqueue acknowledged.send_q payload (length payload) Slid.test_addr).0;
        })
        × Joins acknowledged.send_q payload (length payload) Slid.test_addr (node self s').send_q
        × (s'.allocated ≡ s.allocated + 2)
        × (s'.freed ≡ s.freed)
  td_transmits self h payload s o f m t =
      let (taken, given) = buffers self payload s in
      let same = node-with_test self payload (acked env self Ack.success s) in
      let q = (node self (acked env self Ack.success s)).send_q in
      (
        node self (acked env self Ack.success s),
        with_test self payload (acked env self Ack.success s),
        td_lem self h payload s o f m t,
        acked-Answers env handler self Ack.success s refl t,
        same,
        subst (Joins q payload (length payload) Slid.test_addr)
            (sym (ap (λ (n : Node). n.send_q) same))
            (enqueue-Joins q payload (length payload) Slid.test_addr
              (acked-IsTyped env handler self Ack.success s t).queue_in),
        taken,
        given,
      )
