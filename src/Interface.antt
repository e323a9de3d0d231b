-- ===== src/Interface.antt =====
-- The class of SteamLinkGeneric.h as its users see it: the table of its virtual methods, over the
-- state of a driver, and the table that SteamLinkGeneric.cpp fills for an object.
pub mod Drivers
pub mod Deliver
use steamlink_arduino.Prelude.{ℕ, Bool, List}
use steamlink_arduino.System.{BridgeMode, Ref, Env, M, ◌>>=◌, pure, this}
use steamlink_arduino.Send
use steamlink_arduino.Send.{
  Handler, send_data, send_td, send_on, send_off, send_as, send_ms, send_tr, send_ss, send_enqueue,
  generic_send,
}
use steamlink_arduino.Admin.{handle_admin_packet}
use steamlink_arduino.Bridge.{
  get_slid, set_bridge, register_bridge_handler, register_receive_handler,
}
use steamlink_arduino.Update
use steamlink_arduino.Update.{Driver, sign_on_procedure}

-- A method is applied to its object. The driver's own methods are the record `Driver`.
pub record Methods (D : Type 0) : Type 0 where
  pub init : List ℕ → ℕ → M (Unit {0})
  pub send : List ℕ → M Bool
  pub send_data : ℕ → List ℕ → ℕ → M Bool
  pub send_td : List ℕ → ℕ → M Bool
  pub send_on : M Bool
  pub send_off : ℕ → M Bool
  pub send_as : ℕ → M Bool
  pub send_ms : List ℕ → M Bool
  pub send_tr : List ℕ → ℕ → M Bool
  pub send_ss : List ℕ → M Bool
  pub update : D → M D
  pub handle_admin_packet : List ℕ → ℕ → M (Unit {0})
  pub register_receive_handler : M (Unit {0})
  pub register_bridge_handler : M (Unit {0})
  pub sign_on_procedure : M (Unit {0})
  pub send_enqueue : List ℕ → ℕ → ℕ → M Bool
  pub driver : Driver D
  pub get_slid : M ℕ
  pub set_bridge : BridgeMode → M (Unit {0})
  pub generic_send : List ℕ → ℕ → ℕ → M Bool

-- `SteamLinkGeneric::init` has an empty body.
unfoldable pub generic_init : List ℕ → ℕ → M (Unit {0})
generic_init conf config_length = pure tt

-- the methods of a driver that overrides those of the record `Driver`, and `init`
unfoldable pub methods :
    {D : Type 0} → Env → Handler → Ref → Driver D → (List ℕ → ℕ → M (Unit {0})) → Methods D
methods env handler self driver init = record {
  init = init;
  send = Send.send env handler self;
  send_data = send_data env handler self;
  send_td = send_td env self;
  send_on = send_on env handler self;
  send_off = send_off env handler self;
  send_as = send_as env handler self;
  send_ms = send_ms env handler self;
  send_tr = send_tr env handler self;
  send_ss = send_ss env handler self;
  update = Update.update env handler driver self;
  handle_admin_packet = handle_admin_packet env handler self;
  register_receive_handler = register_receive_handler self;
  register_bridge_handler = register_bridge_handler self;
  sign_on_procedure = sign_on_procedure env handler self;
  send_enqueue = send_enqueue env self;
  driver = driver;
  get_slid = (do n ← this self; pure (get_slid n));
  set_bridge = set_bridge self;
  generic_send = generic_send env handler self;
}
