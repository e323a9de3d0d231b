-- ===== src/Admin/Refusals.antt =====
-- The `SC` branch of `handle_admin_packet` where it does not take the configuration.
use steamlink_arduino.Prelude.{
  ℕ, ◌+◌, ◌≡◌, ◌≢◌, refl, ◌∙◌, subst, Bool, false, List, ◌∷◌, arith, length, if◌then◌else◌, ◌==◌,
}
use steamlink_arduino.Wire.{ControlHeader, byte_at, needs_ack}
use steamlink_arduino.Wire.Op
use steamlink_arduino.System.{
  nodeside, Env, System, Node, Ref, store_driver, node_driver, returns, node, put, read_byte,
}
use steamlink_arduino.Send.{Handler}
use steamlink_arduino.Send.Phy.{IsTyped}
use steamlink_arduino.Admin.{handle_admin_packet, dispatch, handle_sc, accept_config, set_config}
use steamlink_arduino.Admin.Packet.{
  control_packet, control_length, move_payload_lem, payload_length_of_lem, dispatch_lem, acked,
  Answers, send_as-phy, acked-Answers, FitsControl,
}

-- The code with which a node answers a new configuration: 2 when it awaits none, 3 for another
-- version of the struct, 4 for another size, else 0.
unfoldable pub sc_answer : Bool → List ℕ → ℕ
sc_answer waiting payload =
    if waiting
    then if byte_at payload 0 == 1 then (if length payload == 60 then 0 else 4) else 3
    else 2

-- the node, which no longer waits for an acknowledgement
abbrev pub unawaiting : Node → Node
unawaiting n = record n { waiting_for_ack = false }

-- the state in which the refusal is sent
refusing : Ref → System → System
refusing self s = if (node self s).waiting_for_ack then put self (unawaiting (node self s)) s else s

module _ (env : Env) (handler : Handler) where
  abbrev refused : Ref → ℕ → System → System
  refused self code s =
      let t = acked env self code (refusing self s) in record t { freed = t.freed + 1 }

  refuses :
      (self : Ref) (h : ControlHeader) (b : ℕ) (rest : List ℕ) (code : ℕ) (s : System)
      → h.op ≡ Op.sc
      → FitsControl (b ∷ rest)
      → sc_answer (node self s).waiting_for_ack (b ∷ rest) ≡ code
      → code ≢ 0
      → (node self s).bridge_mode ≢ nodeside
      → IsTyped (node self s)
      → handle_admin_packet env handler self
          (control_packet h (b ∷ rest))
          (control_length (b ∷ rest))
          s
        ≡ returns tt (refused self code s)
  unfolding dispatch handle_sc accept_config set_config sc_answer refusing read_byte
  refuses store_driver h b rest code s o f a z m t =
      dispatch_lem env handler store_driver h Op.sc (b ∷ rest) (control_length (b ∷ rest)) s o refl
      ∙ ground (
        arith,
        move_payload_lem h (b ∷ rest) (put store_driver (unawaiting (node store_driver s)) s) f,
        payload_length_of_lem (b ∷ rest) f,
        send_as-phy env handler store_driver code s m t,
        send_as-phy env handler store_driver code
            (put store_driver (unawaiting (node store_driver s)) s) m
            (record {
              queue_in = t.queue_in;
              slid_in = t.slid_in;
              count_in = t.count_in;
              retry_size = t.retry_size;
            }),
      )
  refuses node_driver h b rest code s o f a z m t =
      dispatch_lem env handler node_driver h Op.sc (b ∷ rest) (control_length (b ∷ rest)) s o refl
      ∙ ground (
        arith,
        move_payload_lem h (b ∷ rest) (put node_driver (unawaiting (node node_driver s)) s) f,
        payload_length_of_lem (b ∷ rest) f,
        send_as-phy env handler node_driver code s m t,
        send_as-phy env handler node_driver code
            (put node_driver (unawaiting (node node_driver s)) s) m
            (record {
              queue_in = t.queue_in;
              slid_in = t.slid_in;
              count_in = t.count_in;
              retry_size = t.retry_size;
            }),
      )

  unawaiting_idle : (n : Node) → n.waiting_for_ack ≡ false → n ≡ unawaiting n
  unawaiting_idle n e = λ i. record n { waiting_for_ack = e i }

  node-refusing : (self : Ref) (s : System) → node self (refusing self s) ≡ unawaiting (node self s)
  unfolding refusing
  node-refusing store_driver s = ground (arith, unawaiting_idle s.store_side)
  node-refusing node_driver s = ground (arith, unawaiting_idle s.node_side)

  node-refused :
      (self : Ref) (code : ℕ) (s : System)
      → node self (acked env self code (refusing self s)) ≡ node self (refused self code s)
  node-refused store_driver code s = refl
  node-refused node_driver code s = refl

  -- An `SC` packet with a payload, of a byte at least, that a node cannot take leaves the node's
  -- configuration and SLID as they are, and ends any wait for an acknowledgement, where the node
  -- is not the node side of a bridge. One acknowledgement joins the send queue, at the end or
  -- nowhere where the queue is full, whose code says why: 2 where no configuration was awaited, 3
  -- for another version, 4 for another size. The node's fields are taken to lie in the ranges of
  -- their types, and its send queue to be a valid ring.
  pub sc_refuses :
      (self : Ref) (h : ControlHeader) (b : ℕ) (rest : List ℕ) (code : ℕ) (s : System)
      → h.op ≡ Op.sc
      → FitsControl (b ∷ rest)
      → sc_answer (node self s).waiting_for_ack (b ∷ rest) ≡ code
      → code ≢ 0
      → (node self s).bridge_mode ≢ nodeside
      → IsTyped (node self s)
      → (s' : System) × (handle_admin_packet env handler self
            (control_packet h (b ∷ rest))
            (control_length (b ∷ rest))
            s
          ≡ returns tt s')
        × Answers code (unawaiting (node self s)) (node self s')
        × ((node self s').config ≡ (node self s).config)
        × ((node self s').slid ≡ (node self s).slid)
        × ((node self s').waiting_for_ack ≡ false)
  unfolding needs_ack
  sc_refuses self h b rest code s o f a z m t =
      let typed : IsTyped (unawaiting (node self s)) = record {
        queue_in = t.queue_in;
        slid_in = t.slid_in;
        count_in = t.count_in;
        retry_size = t.retry_size;
      } in
      let answer =
        subst (Answers code (unawaiting (node self s))) (node-refused self code s)
          (acked-Answers env handler self code (refusing self s) (node-refusing self s) typed) in
      (
        refused self code s,
        refuses self h b rest code s o f a z m t,
        answer,
        answer.2.same_config,
        answer.2.same_slid,
        answer.2.waits,
      )
