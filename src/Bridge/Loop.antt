-- ===== src/Bridge/Loop.antt =====
-- `SteamLinkBridge::update`, the body of a bridge's loop, and what its first round sets up.
use steamlink_arduino.Prelude.{◌≡◌, refl, ◌∙◌, true, false, not, if◌then◌else◌}
use steamlink_arduino.System.{
  storeside, nodeside, Env, System, store_driver, node_driver, returns, M, ◌>>=◌, pure,
}
use steamlink_arduino.Send.Steps.{>>=-returns}
use steamlink_arduino.Send.Phy.{IsTyped}
use steamlink_arduino.Update
use steamlink_arduino.Bridge.{BridgeState, init, router, set_bridge, register_bridge_handler}
use steamlink_arduino.Bridge.Wiring.{IsWired}

-- `if (!_init_done) init()`
unfoldable pub start : BridgeState → M BridgeState
start b = if not b.init_done then init else pure b

-- The node side is served before the store side.
unfoldable pub update :
    {D E : Type 0}
    → Env
    → Update.Driver D
    → Update.Driver E
    → BridgeState
    → D
    → E
    → M (BridgeState × D × E)
update env store_radio node_radio b d e = do
  b' ← start b
  e' ← Update.update env (router env) node_radio node_driver e
  d' ← Update.update env (router env) store_radio store_driver d
  pure (b', d', e')

-- The first round of a bridge registers the router with both drivers and sets their modes, and
-- changes neither queue. A later round changes nothing here.
pub start_wires :
    (s : System)
    → IsTyped s.store_side
    → IsTyped s.node_side
    → (s' : System) × (start (record { init_done = false }) s
        ≡ returns (record { init_done = true }) s')
      × IsWired s'
      × (s'.store_side.send_q ≡ s.store_side.send_q)
      × (s'.node_side.send_q ≡ s.node_side.send_q)
      × ((t : System)
          → start (record { init_done = true }) t ≡ returns (record { init_done = true }) t)
unfolding start init set_bridge register_bridge_handler
start_wires s v w = (
  record s {
    store_side = record s.store_side { bridge_handler = true; bridge_mode = storeside };
    node_side = record s.node_side { bridge_handler = true; bridge_mode = nodeside };
  },
  refl,
  record {
    store_mode = refl;
    node_mode = refl;
    store_handler = refl;
    node_handler = refl;
    store_typed = record {
      queue_in = v.queue_in;
      slid_in = v.slid_in;
      count_in = v.count_in;
      retry_size = v.retry_size;
    };
    node_typed = record {
      queue_in = w.queue_in;
      slid_in = w.slid_in;
      count_in = w.count_in;
      retry_size = w.retry_size;
    };
  },
  refl,
  refl,
  λ t. refl,
)

-- A round of a bridge that has been set up is a round of each side.
pub update_lem :
    {D E : Type 0} (env : Env) (store_radio : Update.Driver D) (node_radio : Update.Driver E)
    (d d' : D) (e e' : E) (s s1 s2 : System)
    → Update.update env (router env) node_radio node_driver e s ≡ returns e' s1
    → Update.update env (router env) store_radio store_driver d s1 ≡ returns d' s2
    → update env store_radio node_radio (record { init_done = true }) d e s
      ≡ returns (record { init_done = true }, d', e') s2
unfolding update start
update_lem env store_radio node_radio d d' e e' s s1 s2 n p =
    >>=-returns (Update.update env (router env) node_radio node_driver e)
      (λ e'. Update.update env (router env) store_radio store_driver d >>= λ d'.
        pure (record { init_done = true }, d', e'))
      s n
    ∙ >>=-returns (Update.update env (router env) store_radio store_driver d)
        (λ d'. pure (record { init_done = true }, d', e')) s1 p
