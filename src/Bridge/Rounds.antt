-- ===== src/Bridge/Rounds.antt =====
-- A bridge in operation: the loop from its first round on, between any two drivers.
use steamlink_arduino.Prelude.{ℕ, zero, suc, ◌≡◌, refl, true, false}
use steamlink_arduino.System.{
  BridgeMode, unbridged, storeside, nodeside, Env, System, Node, store_driver, node_driver, M,
  ◌>>=◌, pure,
}
use steamlink_arduino.Update
use steamlink_arduino.Update.{Driver}
use steamlink_arduino.Bridge.{BridgeState, init, router, set_bridge, register_bridge_handler}
use steamlink_arduino.Bridge.Loop.{start, update}
use steamlink_arduino.Bridge.Termination.{bridging, bridge_sends}
use steamlink_arduino.Sound.{IsSide, IsSound, Ends, Ensures, bind, pure_ends}
use steamlink_arduino.Sound.Rounds.{Delivers, update_ends}
use steamlink_arduino.Sound.Alone.{standalone}

module _ {D E : Type 0} (env : Env) (store_radio : Driver D) (node_radio : Driver E) where
  -- so many rounds of the bridge's loop
  abbrev pub rounds : ℕ → BridgeState → D → E → M (BridgeState × D × E)
  rounds zero b d e = pure (b, d, e)
  rounds (suc n) b d e = update env store_radio node_radio b d e >>= λ x. rounds n x.0 x.1 x.2

  -- the bridge has been set up, and its drivers keep their invariants
  abbrev pub Running : (D → Type 0) → (E → Type 0) → BridgeState × D × E → Type 0
  Running I J x = (x.0.init_done ≡ true) × I x.1 × J x.2

  module _ (I : D → Type 0) (J : E → Type 0) (h : Delivers bridging I store_radio)
      (k : Delivers bridging J node_radio) where
    started :
        (b : BridgeState)
        → b.init_done ≡ true
        → Ensures bridging (λ b'. b'.init_done ≡ true) (start b)
    unfolding start Ends
    started b i = record { run = λ s v. rw i (refl, v) }

    update_runs :
        (b : BridgeState) (d : D) (e : E)
        → Running I J (b, d, e)
        → Ensures bridging (Running I J) (update env store_radio node_radio b d e)
    unfolding update
    update_runs b d e r = bind (start b) _ (started b r.0) (λ b' i.
        bind (Update.update env (router env) node_radio node_driver e) _
          (update_ends bridging env (router env) node_driver (bridge_sends env node_driver)
            node_radio J e k r.2)
          (λ e' j.
            bind (Update.update env (router env) store_radio store_driver d) _
              (update_ends bridging env (router env) store_driver (bridge_sends env store_driver)
                store_radio I d h r.1)
              (λ d' l. pure_ends (b', d', e') (i, l, j))))

    rounds_run :
        (n : ℕ) (b : BridgeState) (d : D) (e : E)
        → Running I J (b, d, e)
        → Ensures bridging (Running I J) (rounds n b d e)
    rounds_run zero b d e r = pure_ends (b, d, e) r
    rounds_run (suc n) b d e r =
        bind (update env store_radio node_radio b d e) _ (update_runs b d e r)
          (λ x q. rounds_run n x.0 x.1 x.2 q)

  -- The first round makes a bridge of two objects that stand alone.
  wired : System → System
  wired s = record s {
    store_side = record s.store_side { bridge_handler = true; bridge_mode = storeside };
    node_side = record s.node_side { bridge_handler = true; bridge_mode = nodeside };
  }

  Side-wired :
      (mode : BridgeMode) (n : Node)
      → IsSide unbridged n
      → IsSide mode (record n { bridge_handler = true; bridge_mode = mode })
  Side-wired mode n v = record {
    keeps_mode = refl;
    has_handler = λ u. refl;
    queue = v.queue;
    arrays = v.arrays;
    count_in = v.count_in;
    retry = v.retry;
  }

  -- Whatever packets of at most 255 bytes the two drivers hand over, where none of them waits for
  -- ever, every round of a bridge's loop ends, from the first one on, which makes the bridge of
  -- two objects as they are constructed: each round returns with the bridge set up and sound and
  -- with the drivers' invariants kept, or meets undefined behaviour, or ends in an endless loop
  -- that resets the board. In a sound bridge each side has its mode and its handler, a send queue
  -- that is a valid ring of packets that lie within their buffers, a packet number from 1 to
  -- 65535, and a packet to send again whenever it waits for an acknowledgement.
  pub rounds-Ends :
      (I : D → Type 0) (J : E → Type 0) (n : ℕ) (d : D) (e : E) (s : System)
      → Delivers bridging I store_radio
      → Delivers bridging J node_radio
      → I d
      → J e
      → IsSound standalone s
      → Ends bridging (Running I J) (rounds (suc n) (record { init_done = false }) d e s)
  unfolding update start init set_bridge register_bridge_handler wired
  rounds-Ends I J n d e s h k i j v =
      (rounds_run I J h k (suc n) (record { init_done = true }) d e (refl, i, j)).run (wired s)
        (Side-wired storeside s.store_side v.0, Side-wired nodeside s.node_side v.1)
