-- ===== src/Bridge.antt =====
-- SteamLinkBridge.cpp: the router that both drivers call back into, and the bridge's start.
-- The two static driver pointers are the two `Ref`s.
pub mod Wiring
pub mod Uplink
pub mod Downlink
pub mod Loop
pub mod Termination
pub mod Rounds
pub mod Relay
pub mod Broker
pub mod Order
pub mod Radio
use steamlink_arduino.Prelude.{
  ℕ, zero, suc, Bool, true, List, Option, none, some, if◌then◌else◌, ◌==◌,
}
use steamlink_arduino.Wire.{is_data}
use steamlink_arduino.System.{
  storeside, nodeside, BridgeMode, Node, Ref, store_driver, node_driver, Env, out_of_fuel, M, ◌>>=◌,
  ◌>>◌, pure, this, modify, free, read_byte,
}
use steamlink_arduino.Send.{Handler}
use steamlink_arduino.Admin.{handle_admin_packet}

-- set_bridge, get_slid and register_bridge_handler of SteamLinkGeneric.cpp
unfoldable pub set_bridge : Ref → BridgeMode → M (Unit {0})
set_bridge self mode = modify self (λ n. record n { bridge_mode = mode })

unfoldable pub get_slid : Node → ℕ
get_slid n = n.slid

unfoldable pub register_bridge_handler : Ref → M (Unit {0})
register_bridge_handler self = modify self (λ n. record n { bridge_handler = true })

unfoldable pub register_receive_handler : Ref → M (Unit {0})
register_receive_handler self = modify self (λ n. record n { on_receive = true })

module _ (env : Env) where
  -- the tests of `router`, with the handler that the drivers call back
  unfoldable pub route : Handler → List ℕ → ℕ → ℕ → M (Unit {0})
  route handler packet packet_length slid = do
    op ← read_byte packet 0
    store_side ← this store_driver
    node_side ← this node_driver
    if is_data op
        then handle_admin_packet env handler store_driver packet packet_length
        else if slid == get_slid store_side
        then handle_admin_packet env handler store_driver packet packet_length
        else if slid == get_slid node_side
        then handle_admin_packet env handler node_driver packet packet_length
        else free

  -- The router calls a driver, which may call the router: `fuel` bounds how often.
  unfoldable pub router_on : ℕ → Handler
  router_on zero packet packet_length slid = λ s. out_of_fuel
  router_on (suc fuel) packet packet_length slid = route (router_on fuel) packet packet_length slid

  -- Each call between routers shortens a packet of at most 255 bytes, or is the last but one.
  unfoldable pub router : Handler
  router = router_on 300

-- the two static driver pointers of `SteamLinkBridge`, the constructor, and `bridge`
pub record Pointers : Type 0 where
  pub store_side_driver : Option Ref
  pub node_side_driver : Option Ref

unfoldable pub new : Ref → Pointers
new storeside_driver = record { store_side_driver = some storeside_driver; node_side_driver = none }

unfoldable pub bridge : Ref → Pointers → Pointers
bridge nodeside_driver p = record p { node_side_driver = some nodeside_driver }

-- the static member `_init_done`
pub record BridgeState : Type 0 where
  pub init_done : Bool

unfoldable pub init : M BridgeState
init = do
  register_bridge_handler store_driver
  register_bridge_handler node_driver
  set_bridge store_driver storeside
  set_bridge node_driver nodeside
  pure (record { init_done = true })
