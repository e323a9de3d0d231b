-- ===== src/Admin/Config.antt =====
-- The `SC` branch of `handle_admin_packet`: the store sets a node's configuration.
use steamlink_arduino.Prelude.{
  ℕ, ◌+◌, ◌≡◌, ◌≢◌, refl, ap₂, ◌∙◌, sym, subst, true, false, List, [], ◌++◌, append-nil, arith,
  length, drop, take-append, drop_all, length-append,
}
use steamlink_arduino.Wire.{ControlHeader, NodeCfgStruct, node_cfg_bytes, needs_ack}
use steamlink_arduino.Wire.RoundTrip
use steamlink_arduino.Wire.Op
use steamlink_arduino.Wire.Ack
use steamlink_arduino.System.{
  nodeside, Env, System, Node, Ref, store_driver, node_driver, returns, node, put, ◌>>=◌, memcpy,
  pure, read_byte,
}
use steamlink_arduino.Send.{Handler, send_as}
use steamlink_arduino.Send.Packet.{fresh_buffer, length-fill, memcpy_start}
use steamlink_arduino.Send.Phy.{IsTyped, Sent-IsTyped}
use steamlink_arduino.Admin.{handle_admin_packet, dispatch, handle_sc, accept_config, set_config}
use steamlink_arduino.Admin.Packet.{
  control_packet, control_length, move_payload_lem, payload_length_of_lem, dispatch_lem, acked,
  send_as-phy, acked-Answers, Answers, acked-IsTyped, acked-bridge_mode,
}

-- the node with a new configuration, and no acknowledgement awaited
abbrev pub configured : NodeCfgStruct → Node → Node
configured c n = record n { config = c; slid = c.slid; waiting_for_ack = false }

-- a system in which the object's configuration and SLID have been replaced
abbrev reconfigured : Ref → NodeCfgStruct → System → System
reconfigured self c s =
    put self (record (node self s) { config = c; slid = c.slid })
      (record s { allocated = s.allocated + 1 })

module _ (env : Env) (handler : Handler) where
  two_acks :
      (self : Ref) (s : System)
      → (node self s).bridge_mode ≢ nodeside
      → IsTyped (node self s)
      → (send_as env handler self Ack.success >>= λ sent.
            send_as env handler self Ack.success >>= λ again. pure (tt {0}))
          s
        ≡ returns tt (acked env self Ack.success (acked env self Ack.success s))
  two_acks self s m v = rw (
    send_as-phy env handler self Ack.success s m v,
    send_as-phy env handler self Ack.success (acked env self Ack.success s)
        (acked-bridge_mode env handler self Ack.success s v m)
        (acked-IsTyped env handler self Ack.success s v),
    ◌>>=◌,
  )

  -- The bytes of a configuration at the start of a buffer, copied into a fresh one.
  copy_config :
      (c : NodeCfgStruct) (rest : List ℕ) (s t : System)
      → RoundTrip.IsValid c
      → memcpy (fresh_buffer env s 60) 0 (node_cfg_bytes c ++ rest) 60 t
        ≡ returns (node_cfg_bytes c ++ []) t
  copy_config c rest s t v =
      memcpy_start (fresh_buffer env s 60) (node_cfg_bytes c ++ rest) 60 t
        (omega (arith, length-append (node_cfg_bytes c) rest, size)) (omega (arith, filled))
      ∙ ap₂ (λ a b. returns (a ++ b) t) (take-append 60 (node_cfg_bytes c) rest (sym size))
          (drop_all 60 (fresh_buffer env s 60) (omega (arith, filled)))
    where
      size : length (node_cfg_bytes c) ≡ 60
      size = (RoundTrip.node_cfg_round_trip c v).1

      filled : length (fresh_buffer env s 60) ≡ 60
      filled = length-fill (env.uninitialised s.allocated) 60

  set_config_lem :
      (self : Ref) (c : NodeCfgStruct) (rest : List ℕ) (s : System)
      → RoundTrip.IsValid c
      → (node self s).bridge_mode ≢ nodeside
      → IsTyped (node self s)
      → set_config env handler self (node_cfg_bytes c ++ rest) 60 s
        ≡ returns tt
            (acked env self Ack.success (acked env self Ack.success (reconfigured self c s)))
  unfolding set_config
  set_config_lem store_driver c rest s v m t =
      rw
        (
          copy_config c rest s (record s { allocated = s.allocated + 1 }) v,
          append-nil (node_cfg_bytes c),
          (RoundTrip.node_cfg_round_trip c v).0,
          ◌>>=◌,
        )
        (two_acks store_driver (reconfigured store_driver c s) m (record {
          queue_in = t.queue_in;
          slid_in = v.slid_in;
          count_in = t.count_in;
          retry_size = t.retry_size;
        }))
  set_config_lem node_driver c rest s v m t =
      rw
        (
          copy_config c rest s (record s { allocated = s.allocated + 1 }) v,
          append-nil (node_cfg_bytes c),
          (RoundTrip.node_cfg_round_trip c v).0,
          ◌>>=◌,
        )
        (two_acks node_driver (reconfigured node_driver c s) m (record {
          queue_in = t.queue_in;
          slid_in = v.slid_in;
          count_in = t.count_in;
          retry_size = t.retry_size;
        }))

  -- the acknowledgement that was awaited is no longer
  pub unawaited : Ref → System → System
  unawaited self s = put self (record (node self s) { waiting_for_ack = false }) s

  read_version :
      (c : NodeCfgStruct) (vers : ℕ) (rest : List ℕ) (s : System)
      → c.version ≡ vers
      → read_byte (node_cfg_bytes c ++ rest) 0 s ≡ returns vers s
  unfolding read_byte node_cfg_bytes
  read_version c vers rest s e = ground arith

  accept_config_lem :
      (self : Ref) (h : ControlHeader) (c : NodeCfgStruct) (s : System)
      → RoundTrip.IsValid c
      → c.version ≡ 1
      → (node self s).bridge_mode ≢ nodeside
      → IsTyped (node self s)
      → accept_config env handler self
          (control_packet h (node_cfg_bytes c))
          (control_length (node_cfg_bytes c))
          s
        ≡ returns tt (
            acked env self Ack.success
              (acked env self Ack.success (reconfigured self c (unawaited self s))))
  unfolding accept_config unawaited
  accept_config_lem store_driver h c s v e m t =
      rw
        (
          move_payload_lem h (node_cfg_bytes c) (unawaited store_driver s) (omega (arith, size)),
          read_version c 1 (drop (length (node_cfg_bytes c)) (control_packet h (node_cfg_bytes c)))
              (unawaited store_driver s) e,
          payload_length_of_lem (node_cfg_bytes c) (omega (arith, size)),
          size,
          ◌>>=◌,
        )
        (set_config_lem store_driver c _ (unawaited store_driver s) v m (record {
          queue_in = t.queue_in;
          slid_in = t.slid_in;
          count_in = t.count_in;
          retry_size = t.retry_size;
        }))
    where
      size : length (node_cfg_bytes c) ≡ 60
      size = (RoundTrip.node_cfg_round_trip c v).1
  accept_config_lem node_driver h c s v e m t =
      rw
        (
          move_payload_lem h (node_cfg_bytes c) (unawaited node_driver s) (omega (arith, size)),
          read_version c 1 (drop (length (node_cfg_bytes c)) (control_packet h (node_cfg_bytes c)))
              (unawaited node_driver s) e,
          payload_length_of_lem (node_cfg_bytes c) (omega (arith, size)),
          size,
          ◌>>=◌,
        )
        (set_config_lem node_driver c _ (unawaited node_driver s) v m (record {
          queue_in = t.queue_in;
          slid_in = t.slid_in;
          count_in = t.count_in;
          retry_size = t.retry_size;
        }))
    where
      size : length (node_cfg_bytes c) ≡ 60
      size = (RoundTrip.node_cfg_round_trip c v).1

-- The packet's buffer is given back at the end of the branch.
abbrev pub given_back : System → System
given_back s = record s { freed = s.freed + 1 }

module _ (env : Env) (handler : Handler) where
  installs :
      (self : Ref) (h : ControlHeader) (c : NodeCfgStruct) (s : System)
      → h.op ≡ Op.sc
      → RoundTrip.IsValid c
      → c.version ≡ 1
      → (node self s).waiting_for_ack ≡ true
      → (node self s).bridge_mode ≢ nodeside
      → IsTyped (node self s)
      → handle_admin_packet env handler self
          (control_packet h (node_cfg_bytes c))
          (control_length (node_cfg_bytes c))
          s
        ≡ returns tt (
            given_back (
              acked env self Ack.success
                (acked env self Ack.success (reconfigured self c (unawaited env handler self s)))))
  unfolding dispatch handle_sc
  installs self h c s o v e w m t =
      dispatch_lem env handler self h Op.sc (node_cfg_bytes c) (control_length (node_cfg_bytes c)) s
        o refl
      ∙ rw (w, accept_config_lem env handler self h c s v e m t, ◌>>=◌)

  node-reconfigured :
      (self : Ref) (c : NodeCfgStruct) (s : System)
      → node self (reconfigured self c (unawaited env handler self s)) ≡ configured c (node self s)
  unfolding unawaited
  node-reconfigured store_driver c s = refl
  node-reconfigured node_driver c s = refl

  node-given_back : (self : Ref) (s : System) → node self (given_back s) ≡ node self s
  node-given_back store_driver s = refl
  node-given_back node_driver s = refl

  -- A node that is not the node side of a bridge, waits for an acknowledgement, and receives an
  -- `SC` packet with a version 1 configuration, installs exactly the configuration that was
  -- encoded, takes its SLID and stops waiting. Two acknowledgements with code 0 under the new SLID
  -- join its send queue one after the other, each at the end or nowhere where the queue is full.
  -- The node's fields are taken to lie in the ranges of their types, and its send queue to be a
  -- valid ring.
  pub sc_installs :
      (self : Ref) (h : ControlHeader) (c : NodeCfgStruct) (s : System)
      → h.op ≡ Op.sc
      → RoundTrip.IsValid c
      → c.version ≡ 1
      → (node self s).waiting_for_ack ≡ true
      → (node self s).bridge_mode ≢ nodeside
      → IsTyped (node self s)
      → (s' : System) × (mid : Node) × (handle_admin_packet env handler self
            (control_packet h (node_cfg_bytes c))
            (control_length (node_cfg_bytes c))
            s
          ≡ returns tt s')
        × Answers Ack.success (configured c (node self s)) mid
        × Answers Ack.success mid (node self s')
        × ((node self s').config ≡ c)
        × ((node self s').slid ≡ c.slid)
        × ((node self s').waiting_for_ack ≡ false)
  unfolding needs_ack
  sc_installs self h c s o v e w m t =
      let s0 = reconfigured self c (unawaited env handler self s) in
      let s1 = acked env self Ack.success s0 in
      let s2 = acked env self Ack.success s1 in
      let typed : IsTyped (configured c (node self s)) = record {
        queue_in = t.queue_in;
        slid_in = v.slid_in;
        count_in = t.count_in;
        retry_size = t.retry_size;
      } in
      let one = acked-Answers env handler self Ack.success s0 (node-reconfigured self c s) typed in
      let two = acked-Answers env handler self Ack.success s1 refl (Sent-IsTyped one.2 typed) in
      let three = subst (Answers Ack.success (node self s1)) (sym (node-given_back self s2)) two in
      (
        given_back s2,
        node self s1,
        installs self h c s o v e w m t,
        one,
        three,
        three.2.same_config ∙ one.2.same_config,
        three.2.same_slid ∙ one.2.same_slid,
        three.2.waits ∙ one.2.waits,
      )
