-- ===== src/Bridge/Termination.antt =====
-- The calls between the router and the two drivers come to an end, and leave a sound bridge.
use steamlink_arduino.Prelude.{
  ℕ, zero, suc, ◌+◌, ◌*◌, ◌≤◌, ◌<◌, ◌≡◌, sym, ap, ◌∙◌, inl, refl, Bool, true, false, List, arith,
  if◌then◌else◌, length, length-drop, ◌==◌,
}
use steamlink_arduino.Wire.{byte_at, is_data, as_control_header}
use steamlink_arduino.System.{
  BridgeMode, Env, System, Ref, store_driver, node_driver, free, this, read_byte, storeside,
  nodeside,
}
use steamlink_arduino.Send.{way, bridge}
use steamlink_arduino.Admin.{payload_length_of, handle_admin_packet}
use steamlink_arduino.Bridge.{route, router_on, router, get_slid}
use steamlink_arduino.Sound.{
  IsPacket, Setting, IsSound, Ends, Ensures, Any, bind, free_ends, this_ends, read_byte_ends,
  test_ends, cases_ends,
}
use steamlink_arduino.Sound.Sends.{SendsData, generic_send_ends}
use steamlink_arduino.Sound.Packets.{IsMoved, handle_admin_packet_ends}
use steamlink_arduino.Sound.Rounds.{Sends, takes_packet}

abbrev pub bridge_modes : Ref → BridgeMode
bridge_modes store_driver = storeside
bridge_modes node_driver = nodeside

-- A bridge, whose packets may be of any length and content, so that undefined behaviour is allowed.
abbrev pub bridging : Setting
bridging = record { tolerant = true; mode_of = bridge_modes }

module _ (env : Env) where
  -- The store side sends its data packets itself.
  no_bridge : (b : Bool) → b ≡ true → way b storeside ≡ bridge → ⊥
  unfolding way
  no_bridge true d e = ground arith
  no_bridge false d e = ground arith

  store_sends : (fuel : ℕ) → SendsData bridging env (router_on env fuel) store_driver
  store_sends fuel = record {
    sends = λ packet len slid p x d.
        generic_send_ends bridging env (router_on env fuel) store_driver packet len slid p x
          (λ e. absurd (no_bridge (is_data (byte_at packet 0)) d e));
  }

  -- So a data packet calls the router once.
  data_ends :
      (fuel : ℕ) (packet : List ℕ) (len slid : ℕ)
      → is_data (byte_at packet 0) ≡ true
      → Ensures bridging Any (router_on env (suc fuel) packet len slid)
  unfolding router_on route is_data
  data_ends fuel packet len slid d =
      bind (read_byte packet 0) _ (read_byte_ends packet 0 (inl refl)) (λ op o.
        bind (this store_driver) _ (this_ends store_driver) (λ a m.
          bind (this node_driver) _ (this_ends node_driver) (λ b m'.
            cases_ends (is_data op)
              (handle_admin_packet env (router_on env fuel) store_driver packet len)
              (if slid == get_slid a
                then handle_admin_packet env (router_on env fuel) store_driver packet len
                else if slid == get_slid b
                then handle_admin_packet env (router_on env fuel) node_driver packet len
                else free)
              (λ e.
                handle_admin_packet_ends bridging env (router_on env fuel) store_driver
                  (store_sends fuel) packet len (inl refl)
                  (λ moved c n. absurd (ground (arith, ap is_data n))) (inl refl))
              (λ e. absurd (ground (arith, sym (ap is_data o) ∙ e))))))

  all_send : (fuel : ℕ) (self : Ref) → SendsData bridging env (router_on env (suc fuel)) self
  all_send fuel store_driver = store_sends (suc fuel)
  all_send fuel node_driver = record {
    sends = λ packet len slid p x d.
        generic_send_ends bridging env (router_on env (suc fuel)) node_driver packet len slid p x
          (λ e. data_ends fuel packet len slid d);
  }

  moved-IsPacket :
      (packet moved : List ℕ) (len : ℕ)
      → length packet ≤ 255
      → IsMoved packet (payload_length_of len) moved
      → IsPacket moved (payload_length_of len)
  moved-IsPacket packet moved len l c = record {
    within = omega (arith, c.fits, c.same_length, length-drop 7 packet);
    size = omega (arith, c.same_length);
  }

  -- Where the router can be called with what a `BN` packet encloses, a driver can take the packet.
  admin_ends :
      (fuel : ℕ) (self : Ref) (packet : List ℕ) (len : ℕ)
      → length packet ≤ 255
      → len < 256
      → ((moved : List ℕ) (k slid : ℕ)
          → length moved ≤ 255
          → k + 7 ≤ len
          → Ensures bridging Any (router_on env (suc fuel) moved k slid))
      → Ensures bridging Any (handle_admin_packet env (router_on env (suc fuel)) self packet len)
  unfolding payload_length_of
  admin_ends fuel self packet len l b h =
      handle_admin_packet_ends bridging env (router_on env (suc fuel)) self (all_send fuel self)
        packet len (inl refl)
        (λ moved c n.
          generic_send_ends bridging env (router_on env (suc fuel)) self moved
            (payload_length_of len) (as_control_header moved).slid
            (moved-IsPacket packet moved len l c) (inl refl)
            (λ e.
              h moved (payload_length_of len) (as_control_header moved).slid
                (omega (arith, c.same_length)) (omega (arith, c.fits, length-drop 7 packet))))
        (inl refl)

  route_ends :
      (fuel : ℕ) (packet : List ℕ) (len slid : ℕ)
      → ((self : Ref)
          → Ensures bridging Any (handle_admin_packet env (router_on env fuel) self packet len))
      → Ensures bridging Any (router_on env (suc fuel) packet len slid)
  unfolding router_on route
  route_ends fuel packet len slid h =
      bind (read_byte packet 0) _ (read_byte_ends packet 0 (inl refl)) (λ op o.
        bind (this store_driver) _ (this_ends store_driver) (λ x m.
          bind (this node_driver) _ (this_ends node_driver) (λ y m'.
            test_ends (is_data op)
              (handle_admin_packet env (router_on env fuel) store_driver packet len)
              (if slid == get_slid x
                then handle_admin_packet env (router_on env fuel) store_driver packet len
                else if slid == get_slid y
                then handle_admin_packet env (router_on env fuel) node_driver packet len
                else free)
              (h store_driver)
              (test_ends (slid == get_slid x)
                (handle_admin_packet env (router_on env fuel) store_driver packet len) _
                (h store_driver)
                (test_ends (slid == get_slid y)
                  (handle_admin_packet env (router_on env fuel) node_driver packet len) free
                  (h node_driver) free_ends)))))

  router_ends :
      (k : ℕ) (packet : List ℕ) (len slid : ℕ)
      → length packet ≤ 255
      → len < 256
      → len < 7 * (k + 1)
      → Ensures bridging Any (router_on env (suc (suc k)) packet len slid)
  router_ends zero packet len slid l b f =
      route_ends 1 packet len slid
        (λ self. admin_ends 0 self packet len l b (λ moved j slid l' p. absurd (omega arith)))
  router_ends (suc k) packet len slid l b f = route_ends (suc (suc k)) packet len slid (λ self.
      admin_ends (suc k) self packet len l b
        (λ moved j slid l' p. router_ends k moved j slid l' (omega arith) (omega arith)))

  -- Whatever a side of a bridge sends ends, by either way.
  pub bridge_sends : (self : Ref) → Sends bridging env (router env) self
  unfolding router
  bridge_sends self = record {
    owner = inl refl;
    sends = λ packet len slid p x.
        generic_send_ends bridging env (router env) self packet len slid p x (λ e.
          router_ends 298 packet len slid p.size (omega (arith, p.within, p.size))
            (omega (arith, p.within, p.size)));
  }

  -- Whatever packet of at most 255 bytes reaches either side of a sound bridge, and however many
  -- packets it encloses, the calls between the drivers and the router end well within the fuel: the
  -- call returns with the bridge sound, or meets undefined behaviour, or resets the board. In a
  -- sound bridge each side has its mode and its handler, a send queue that is a valid ring of
  -- packets that lie within their buffers, a packet number from 1 to 65535, and a packet to send
  -- again whenever it waits for an acknowledgement.
  pub handle_admin_packet-Ends :
      (self : Ref) (packet : List ℕ) (len : ℕ) (s : System)
      → IsSound bridging s
      → length packet ≤ 255
      → Ends bridging Any (handle_admin_packet env (router env) self packet len s)
  handle_admin_packet-Ends self packet len s v l =
      (takes_packet bridging env (router env) self (bridge_sends self) packet len l (inl refl)
          (inl refl)).run
        s v
