-- ===== src/Admin/Data.antt =====
-- The `DN`, `GS` and `AN` branches of `handle_admin_packet`.
use steamlink_arduino.Prelude.{
  ℕ, ◌+◌, ◌≡◌, ◌≢◌, refl, ◌∙◌, subst, false, List, [], ◌∷◌, ◌++◌, append-nil, arith, length,
  take-append, if◌then◌else◌,
}
use steamlink_arduino.Wire.{ControlHeader, needs_ack, is_transport}
use steamlink_arduino.Wire.Op
use steamlink_arduino.Wire.Ack
use steamlink_arduino.System.{
  nodeside, Env, System, Node, Ref, store_driver, node_driver, Delivery, returns, node, put, ◌>>=◌,
}
use steamlink_arduino.Send.{Handler}
use steamlink_arduino.Send.Steps.{is_blocked}
use steamlink_arduino.Send.Phy.{IsTyped}
use steamlink_arduino.Admin.{handle_admin_packet, dispatch, handle_dn, handle_an}
use steamlink_arduino.Admin.Packet.{
  control_packet, control_length, move_payload_lem, payload_length_of_lem, dispatch_lem, acked,
  Answers, send_as-phy, acked-Answers, acked-Sent, FitsControl,
}

-- the calls of the user's handler that a payload causes
abbrev pub deliveries : Ref → Node → List ℕ → List Delivery
deliveries self n payload =
    if n.on_receive then record { receiver = self; buffer = payload } ∷ [] else []

-- the object after an `AN` packet, whose buffer is given back
abbrev pub after_an : Ref → System → System
after_an self s =
    let t = record s { freed = s.freed + 1 } in
    put self (record (node self t) { waiting_for_ack = false }) t

module _ (env : Env) (handler : Handler) where
  delivered-acked :
      (self : Ref) (code : ℕ) (s : System) → (acked env self code s).delivered ≡ s.delivered
  unfolding acked needs_ack is_transport
  delivered-acked store_driver code s = refl
  delivered-acked node_driver code s = refl

  abbrev after_dn : Ref → List ℕ → System → System
  after_dn self payload s = record (acked env self Ack.success s) {
    delivered = s.delivered ++ deliveries self (node self s) payload;
  }

  dn_lem :
      (self : Ref) (h : ControlHeader) (payload : List ℕ) (s : System)
      → h.op ≡ Op.dn
      → FitsControl payload
      → (node self s).bridge_mode ≢ nodeside
      → IsTyped (node self s)
      → handle_admin_packet env handler self (control_packet h payload) (control_length payload) s
        ≡ returns tt (after_dn self payload s)
  unfolding dispatch handle_dn
  dn_lem self h payload s o f m t =
      dispatch_lem env handler self h Op.dn payload (control_length payload) s o refl
      ∙ rw
          (
            move_payload_lem h payload s f,
            send_as-phy env handler self Ack.success s m t,
            payload_length_of_lem payload f,
            take-append (length payload) payload _ refl,
            ◌>>=◌,
          )
          (ground (
            arith,
            delivered-acked self Ack.success s,
            (acked-Sent env handler self Ack.success s t).0.same_handlers,
            append-nil s.delivered,
          ))

  node-after_dn :
      (self : Ref) (payload : List ℕ) (s : System)
      → node self (acked env self Ack.success s) ≡ node self (after_dn self payload s)
  node-after_dn store_driver payload s = refl
  node-after_dn node_driver payload s = refl

  -- Where a node that is not the node side of a bridge takes a `DN` packet, one acknowledgement of
  -- code 0 joins its send queue, at the end or nowhere where the queue is full, and the node calls
  -- the user's handler, where one is registered, exactly once, with exactly the payload. The
  -- packet's buffer is not given back. The node's fields are taken to lie in the ranges of their
  -- types, and its send queue to be a valid ring.
  pub dn_delivers :
      (self : Ref) (h : ControlHeader) (payload : List ℕ) (s : System)
      → h.op ≡ Op.dn
      → FitsControl payload
      → (node self s).bridge_mode ≢ nodeside
      → IsTyped (node self s)
      → (s' : System) × (handle_admin_packet env handler self
            (control_packet h payload)
            (control_length payload)
            s
          ≡ returns tt s')
        × Answers Ack.success (node self s) (node self s')
        × (s'.delivered ≡ s.delivered ++ deliveries self (node self s) payload)
        × (s'.freed ≡ s.freed)
  unfolding acked is_transport needs_ack
  dn_delivers self h payload s o f m t = (
    after_dn self payload s,
    dn_lem self h payload s o f m t,
    subst (Answers Ack.success (node self s)) (node-after_dn self payload s)
        (acked-Answers env handler self Ack.success s refl t),
    refl,
    freed-acked self s,
  )
    where
      freed-acked : (self : Ref) (s : System) → (acked env self Ack.success s).freed ≡ s.freed
      freed-acked store_driver s = refl
      freed-acked node_driver s = refl

  -- An `AN` packet ends the wait for an acknowledgement and gives its buffer back, and does
  -- nothing else: whatever its payload, also where that names another packet's number or a code
  -- other than success. No op code is held back afterwards.
  pub an_unblocks :
      (self : Ref) (h : ControlHeader) (payload : List ℕ) (op : ℕ) (s : System)
      → h.op ≡ Op.an
      → (handle_admin_packet env handler self (control_packet h payload) (control_length payload) s
          ≡ returns tt (after_an self s))
        × (is_blocked op (node self (after_an self s)) ≡ false)
  unfolding dispatch handle_an
  an_unblocks store_driver h payload op s o = (
    dispatch_lem env handler store_driver h Op.an payload (control_length payload) s o refl,
    refl,
  )
  an_unblocks node_driver h payload op s o =
      (dispatch_lem env handler node_driver h Op.an payload (control_length payload) s o refl, refl)
