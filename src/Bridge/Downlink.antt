-- ===== src/Bridge/Downlink.antt =====
-- A control packet on its way from the store: through the store side to the node side's queue.
use steamlink_arduino.Prelude.{
  ℕ, suc, ◌==◌, ◌≤◌, ◌<◌, ◌^◌, ◌≡◌, refl, ap, ap₂, ◌∙◌, true, false, List, ◌++◌, append_assoc,
  arith, length, take, drop, take-append, length-append,
}
use steamlink_arduino.Wire.{ControlHeader, control_header_bytes, is_data, byte_at}
use steamlink_arduino.Wire.Op
use steamlink_arduino.Ring.Refine.{Joins, enqueue-Joins}
use steamlink_arduino.System.{Env, System, store_driver, node_driver, returns, ◌>>=◌}
use steamlink_arduino.Send.{way}
use steamlink_arduino.Send.Packet.{IsWhole-control}
use steamlink_arduino.Send.Steps.{stamped, queued, generic_send-bridge, generic_send-phy}
use steamlink_arduino.Admin.{handle_admin_packet}
use steamlink_arduino.Admin.Packet.{
  control_packet, control_length, length-control_packet, FitsControl,
}
use steamlink_arduino.Admin.Bridged.{behind, bn_lem}
use steamlink_arduino.Bridge.{router_on, router}
use steamlink_arduino.Bridge.Wiring.{IsWired, router_on-node}

-- The first byte of a control packet is its op code.
pub control_packet-op :
    (h : ControlHeader) (rest : List ℕ) → byte_at (control_packet h rest) 0 ≡ h.op
unfolding control_header_bytes
control_packet-op h rest = refl

module _ (env : Env) (outer mid inner : ControlHeader) (payload stale : List ℕ) (s : System) where
  abbrev pub core : List ℕ
  core = control_packet inner payload

  abbrev pub wrapped : List ℕ
  wrapped = control_packet mid core

  -- the node side's buffer, and what stands behind the packet there
  abbrev remains : List ℕ
  remains = drop (length wrapped) (control_packet outer (wrapped ++ stale))

  abbrev pub kept : List ℕ
  kept = behind mid core remains

  abbrev pub stored : System
  stored = stamped env node_driver (queued node_driver kept (length core) inner.slid s)

  node_takes :
      (fuel : ℕ)
      → IsWired s
      → mid.op ≡ Op.bn
      → is_data inner.op ≡ false
      → inner.slid < 2 ^ 32
      → FitsControl core
      → handle_admin_packet env
          (router_on env fuel)
          node_driver
          (behind outer wrapped stale)
          (length wrapped)
          s
        ≡ returns tt stored
  unfolding way
  node_takes fuel w o d hs f =
      ap₂ (λ p k. handle_admin_packet env (router_on env fuel) node_driver p k s)
        (append_assoc (control_header_bytes mid) core remains) (length-control_packet mid core)
      ∙ bn_lem env (router_on env fuel) node_driver mid inner payload remains s o f hs
      ∙ rw (
        generic_send-phy env (router_on env fuel) node_driver kept (length core) inner.slid s
            (IsWhole-control kept (ap is_data kept-op ∙ d) (
              omega (
                arith,
                length-append core (drop (length core) (control_packet mid (core ++ remains))),
                length-control_packet inner payload,
              )))
            (ap₂ way (ap is_data kept-op ∙ d) w.node_mode),
        ◌>>=◌,
      )
    where
      kept-op : byte_at kept 0 ≡ inner.op
      kept-op =
          ap (λ p. byte_at p 0) (append_assoc (control_header_bytes inner) payload _)
          ∙ control_packet-op inner _

  pub store_passes :
      (fuel : ℕ)
      → IsWired s
      → outer.op ≡ Op.bn
      → mid.op ≡ Op.bn
      → is_data inner.op ≡ false
      → (mid.slid == s.store_side.slid) ≡ false
      → (mid.slid == s.node_side.slid) ≡ true
      → mid.slid < 2 ^ 32
      → inner.slid < 2 ^ 32
      → FitsControl wrapped
      → handle_admin_packet env
          (router_on env (suc fuel))
          store_driver
          (control_packet outer (wrapped ++ stale))
          (control_length wrapped)
          s
        ≡ returns tt (stamped env store_driver stored)
  unfolding way is_data
  store_passes fuel w o o' d a b hm hs f =
      bn_lem env (router_on env (suc fuel)) store_driver outer mid core stale s o f hm
      ∙ rw (
        generic_send-bridge env (router_on env (suc fuel)) store_driver (behind outer wrapped stale)
            (length wrapped) mid.slid s stored
            (IsWhole-control (behind outer wrapped stale) bn-op long) (ap₂ way bn-op w.store_mode)
            w.store_handler
            (router_on-node env fuel (behind outer wrapped stale) (length wrapped) mid.slid s
                (omega (arith, long)) bn-op a b
              ∙ node_takes fuel w o' d hs (omega (arith, length-control_packet mid core))),
        ◌>>=◌,
      )
    where
      long : 7 ≤ length (behind outer wrapped stale)
      long = omega (arith, length-append wrapped remains, length-control_packet mid core)

      bn-op : is_data (byte_at (behind outer wrapped stale) 0) ≡ false
      bn-op =
          ap (λ p. is_data (byte_at p 0)) (append_assoc (control_header_bytes mid) core remains)
          ∙ ap is_data (control_packet-op mid (core ++ remains) ∙ o')

-- Where the store side of a bridge takes a `BN` packet whose content is a `BN` packet for the node
-- side's SLID, the control packet enclosed in that joins the node side's queue, at the end or
-- nowhere where that is full, both envelopes taken off, addressed to the SLID in its own header.
-- The buffer may be longer than the packet: only the packet's bytes are sent. The store side's
-- queue is untouched, and no one comes to wait for an acknowledgement. The bridge is taken to be
-- wired as `init` leaves it, each side's send queue a valid ring.
pub downlink :
    (env : Env) (outer mid inner : ControlHeader) (payload stale : List ℕ) (s : System)
    → IsWired s
    → outer.op ≡ Op.bn
    → mid.op ≡ Op.bn
    → is_data inner.op ≡ false
    → (mid.slid == s.store_side.slid) ≡ false
    → (mid.slid == s.node_side.slid) ≡ true
    → mid.slid < 2 ^ 32
    → inner.slid < 2 ^ 32
    → FitsControl (control_packet mid (control_packet inner payload))
    → let core = control_packet inner payload in
      (buffer : List ℕ) × (s' : System) × (handle_admin_packet env
          (router env)
          store_driver
          (control_packet outer (control_packet mid core ++ stale))
          (control_length (control_packet mid core))
          s
        ≡ returns tt s')
      × (take (length core) buffer ≡ core)
      × Joins s.node_side.send_q buffer (length core) inner.slid s'.node_side.send_q
      × (s'.store_side.send_q ≡ s.store_side.send_q)
      × (s'.node_side.waiting_for_ack ≡ s.node_side.waiting_for_ack)
      × (s'.store_side.waiting_for_ack ≡ s.store_side.waiting_for_ack)
unfolding router
downlink env outer mid inner payload stale s w o o' d a b hm hs f = (
  kept env outer mid inner payload stale s,
  stamped env store_driver (stored env outer mid inner payload stale s),
  store_passes env outer mid inner payload stale s 299 w o o' d a b hm hs f,
  take-append (length (control_packet inner payload)) (control_packet inner payload) _ refl,
  enqueue-Joins s.node_side.send_q (kept env outer mid inner payload stale s)
      (length (control_packet inner payload)) inner.slid w.node_typed.queue_in,
  refl,
  refl,
  refl,
)
