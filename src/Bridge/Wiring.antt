-- ===== src/Bridge/Wiring.antt =====
-- The two drivers as `SteamLinkBridge::init` leaves them, and the router's choice between them.
use steamlink_arduino.Prelude.{ℕ, ◌<◌, ◌≡◌, true, false, List, length, ◌==◌}
use steamlink_arduino.Wire.{is_data, byte_at}
use steamlink_arduino.System.{storeside, nodeside, Env, System, store_driver, node_driver, ◌>>=◌}
use steamlink_arduino.Send.Packet.{read_byte_lem}
use steamlink_arduino.Send.Phy.{IsTyped}
use steamlink_arduino.Admin.{handle_admin_packet}
use steamlink_arduino.Bridge.{route, router_on, get_slid}

pub record IsWired (s : System) : Type 0 where
  pub store_mode : s.store_side.bridge_mode ≡ storeside
  pub node_mode : s.node_side.bridge_mode ≡ nodeside
  pub store_handler : s.store_side.bridge_handler ≡ true
  pub node_handler : s.node_side.bridge_handler ≡ true
  pub store_typed : IsTyped s.store_side
  pub node_typed : IsTyped s.node_side

module _ (env : Env) (fuel : ℕ) (packet : List ℕ) (len slid : ℕ) (s : System) where
  -- A data packet goes to the store side, whoever it names.
  pub router_on-data :
      0 < length packet
      → is_data (byte_at packet 0) ≡ true
      → router_on env (ℕ.suc fuel) packet len slid s
        ≡ handle_admin_packet env (router_on env fuel) store_driver packet len s
  unfolding router_on route
  router_on-data l d = rw (read_byte_lem packet 0 s l, d, ◌>>=◌)

  -- A control packet for the node side's SLID goes there.
  pub router_on-node :
      0 < length packet
      → is_data (byte_at packet 0) ≡ false
      → (slid == s.store_side.slid) ≡ false
      → (slid == s.node_side.slid) ≡ true
      → router_on env (ℕ.suc fuel) packet len slid s
        ≡ handle_admin_packet env (router_on env fuel) node_driver packet len s
  unfolding router_on route get_slid
  router_on-node l d a b = rw (read_byte_lem packet 0 s l, d, a, b, ◌>>=◌)
