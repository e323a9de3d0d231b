-- ===== src/Update/Receive.antt =====
-- What `update` does with a packet that its driver hands over: the sanity check, and the choice
-- between handling and dropping.
use steamlink_arduino.Prelude.{
  ℕ, ◌+◌, ◌≤◌, ◌<◌, ◌≡◌, ◌≢◌, ◌↔◌, ◌⊎◌, refl, ap, Bool, true, false, List, arith, length, ◌==◌,
  ==_ne, not, if◌then◌else◌,
}
use steamlink_arduino.Wire.{is_data, byte_at}
use steamlink_arduino.Wire.Op
use steamlink_arduino.Wire.Slid
use steamlink_arduino.System.{
  BridgeMode, unbridged, storeside, nodeside, Env, System, Node, Ref, store_driver, node_driver,
  returns, node, put, ◌>>=◌,
}
use steamlink_arduino.Send.{Handler}
use steamlink_arduino.Send.Packet.{read_byte_lem}
use steamlink_arduino.Admin.{handle_admin_packet}
use steamlink_arduino.Update.{
  Received, a_packet, Driver, Reception, is_problem, accept_packet, receive_packet,
  ensure_signed_on, update,
}

unfoldable pub is_alone : BridgeMode → Bool
is_alone unbridged = true
is_alone storeside = false
is_alone nodeside = false

-- whether a packet is for this node: data packets are for bridges, control packets for the node
-- whose SLID they name
unfoldable pub accepts : Node → ℕ → ℕ → Bool
accepts n op slid = if is_data op then not (is_alone n.bridge_mode) else slid == n.slid

-- the state once a reception has been noted, and once its buffer has been given back again
abbrev pub noted : Ref → Reception → System → System
noted self r s =
    let t = put self (record (node self s) { last_rssi = r.rssi }) s in
    record t { allocated = t.allocated + 1 }

abbrev pub dropped : System → System
dropped s = record s { freed = s.freed + 1 }

-- The check lets a packet pass exactly if its op code is one of the sixteen and it is addressed
-- to nobody (a data packet) or to a SLID of the allowed range.
pub is_problem_iff :
    (op slid : ℕ)
    → (is_problem op slid ≡ false)
      ↔ (Op.lowest ≤ op)
        × (op ≤ Op.highest)
        × ((slid ≡ 0) ⊎ ((Slid.lowest ≤ slid) × (slid ≤ Slid.highest)))
unfolding is_problem
is_problem_iff op slid = (λ h. grind arith, λ h. ground arith)

module _ (env : Env) (handler : Handler) (self : Ref) (r : Reception) (s : System) where
  -- A reception that fails the check: nothing but `_last_rssi` is different afterwards, the buffer
  -- is given back, and `update` returns at once.
  receive_packet-bad :
      0 < length r.packet
      → is_problem (byte_at r.packet 0) r.slid ≡ true
      → receive_packet env handler self (a_packet r) s ≡ returns false (dropped (noted self r s))
  unfolding receive_packet
  receive_packet-bad l p = rw (read_byte_lem r.packet 0 (noted self r s) l, p, ◌>>=◌)

  -- One that passes it is handed to `accept_packet`.
  pub receive_packet-good :
      0 < length r.packet
      → is_problem (byte_at r.packet 0) r.slid ≡ false
      → receive_packet env handler self (a_packet r) s
        ≡ (accept_packet env handler self r.packet r.packet_size r.slid >>= λ _.
              λ t. returns true t)
            (noted self r s)
  unfolding receive_packet
  receive_packet-good l p = rw (read_byte_lem r.packet 0 (noted self r s) l, p, ◌>>=◌)

-- A node that has signed on once does not do so again.
pub ensure_signed_on-done :
    (env : Env) (handler : Handler) (self : Ref) (s : System)
    → (node self s).sign_on_complete ≡ true
    → ensure_signed_on env handler self s ≡ returns tt s
unfolding ensure_signed_on
ensure_signed_on-done env handler self s e = rw e

-- Once signed on, an `update` whose driver hands over a packet that fails the check does nothing
-- but note the signal strength: the packet's buffer is given back, the send queue is not served,
-- and neither timer runs, so that no retry and no heartbeat goes out in that round.
pub update_drops :
    {D : Type 0} (env : Env) (handler : Handler) (driver : Driver D) (self : Ref) (d d' : D)
    (r : Reception) (s : System)
    → (node self s).sign_on_complete ≡ true
    → driver.driver_receive d ≡ (d', a_packet r)
    → 0 < length r.packet
    → is_problem (byte_at r.packet 0) r.slid ≡ true
    → update env handler driver self d s ≡ returns d' (dropped (noted self r s))
unfolding update
update_drops {D} env handler driver self d d' r s e g l p =
    rw
      (
        ensure_signed_on-done env handler self s e,
        g,
        receive_packet-bad env handler self r s l p,
        ◌>>=◌,
      )
      (ap (λ (x : D × Received). returns x.0 (dropped (noted self r s))) g)

-- The address of test packets lies outside the range that the check allows, so the branch that
-- reports a test packet to the store is never reached: such a packet is dropped, whatever it is.
pub test_packet_dropped :
    {D : Type 0} (env : Env) (handler : Handler) (driver : Driver D) (self : Ref) (d d' : D)
    (r : Reception) (s : System)
    → (node self s).sign_on_complete ≡ true
    → driver.driver_receive d ≡ (d', a_packet r)
    → 0 < length r.packet
    → r.slid ≡ Slid.test_addr
    → (update env handler driver self d s ≡ returns d' (dropped (noted self r s)))
      × ((node self (dropped (noted self r s))).send_q ≡ (node self s).send_q)
unfolding is_problem
test_packet_dropped env handler driver self d d' r s e g l t =
    (update_drops env handler driver self d d' r s e g l (rw t (ground arith)), same self)
  where
    same : (self : Ref) → (node self (dropped (noted self r s))).send_q ≡ (node self s).send_q
    same store_driver = refl
    same node_driver = refl

-- What `update` does with a packet that passed the check, by what the node is.
module _ (env : Env) (handler : Handler) (self : Ref) (packet : List ℕ) (len slid : ℕ)
    (s : System) where
  -- A control packet is handled if it is addressed to this node, and dropped if not. A data packet
  -- is handled on a bridge, and dropped on a node that stands alone.
  pub accept_packet_lem :
      0 < length packet
      → slid ≢ Slid.test_addr
      → accept_packet env handler self packet len slid s ≡ (
          if accepts (node self s) (byte_at packet 0) slid
          then handle_admin_packet env handler self packet len s
          else returns tt (dropped s))
  unfolding accept_packet accepts is_alone
  accept_packet_lem l t =
      rw (read_byte_lem packet 0 s l, (==_ne slid Slid.test_addr t), ◌>>=◌) (ground arith)
