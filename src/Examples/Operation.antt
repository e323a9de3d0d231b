-- ===== src/Examples/Operation.antt =====
-- Nodes and bridges in operation: any number of rounds, with whatever is received.
use steamlink_arduino.Prelude.{
  ℕ, ◌≡◌, ◌≢◌, refl, inr, Bool, true, false, List, [], ◌∷◌, replicate, length-replicate, arith, suc,
}
use steamlink_arduino.Ring.{blank}
use steamlink_arduino.System.{BridgeMode, unbridged, storeside, nodeside, store_driver, node_driver}
use steamlink_arduino.Update.{a_packet, Reception, Driver}
use steamlink_arduino.Wire.Op
use steamlink_arduino.Wire.{control_header_bytes}
use steamlink_arduino.Admin.{handle_admin_packet}
use steamlink_arduino.Admin.Packet.{control_packet}
use steamlink_arduino.Bridge.{router}
use steamlink_arduino.Bridge.Termination.{bridging, handle_admin_packet-Ends}
use steamlink_arduino.Bridge.Rounds.{rounds, Running, rounds-Ends}
use steamlink_arduino.Sound.{AllPackets, Side, IsSound, Setting, Ends, Any}
use steamlink_arduino.Sound.Rounds.{Delivers}
use steamlink_arduino.Sound.Alone.{standalone, round, text, acts, acts-Ends}
use steamlink_arduino.Examples.{
  board, handler, alone, bridged, reading, header, empty_queue, greenhouse,
}

AllPackets-blank : (n : ℕ) → AllPackets (replicate n blank)
AllPackets-blank ℕ.zero = tt
AllPackets-blank (suc n) = (record { within = omega arith; size = omega arith }, AllPackets-blank n)

-- the node `lone`, bridged or not
lone-Side :
    (mode : BridgeMode) (set : Bool)
    → (mode ≢ unbridged → set ≡ true)
    → Side mode mode set empty_queue greenhouse 7 (replicate 255 0) 0 false
lone-Side mode set h = record {
  keeps_mode = refl;
  has_handler = h;
  queue = record {
    ring_IsValid = record { slots = refl; head_in = omega arith; tail_in = omega arith };
    packets = AllPackets-blank 10;
  };
  arrays = (refl, refl);
  count_in = (omega arith, omega arith);
  retry = record {
    retry_size = length-replicate {A = ℕ} 255 0;
    retry_in = omega arith;
    cached = λ w. absurd (ground (arith, w));
  };
}

bridged-IsSound : IsSound bridging bridged
bridged-IsSound = (lone-Side storeside true (λ u. refl), lone-Side nodeside true (λ u. refl))

alone-IsSound : IsSound standalone alone
alone-IsSound = (
  lone-Side unbridged false (λ u. absurd (u refl)),
  lone-Side unbridged false (λ u. absurd (u refl)),
)

-- A driver that hands over one and the same packet in every round.
abbrev order : List ℕ
order = control_packet (header Op.dn 0x105) reading

abbrev ordered : Reception
ordered = record { packet = order; packet_size = 10; slid = 0x105; rssi = 70 }

abbrev repeating : Driver (Unit {0})
repeating = record {
  driver_receive = λ d. (d, a_packet ordered);
  driver_can_send = λ d. true;
  driver_send = λ d packet packet_size slid. (d, true);
}

repeating-Delivers : (t : Setting) → Delivers t Any repeating
unfolding control_header_bytes
repeating-Delivers t = record {
  receives = λ d i.
      (tt, record { size = omega arith; regular = inr (omega arith, omega arith, omega arith) });
  takes = λ d packet len slid i p. tt;
}

acts-Ends_example :
    Ends standalone Any
      (acts board handler store_driver repeating (round ∷ text reading [] ∷ round ∷ []) tt alone)
acts-Ends_example =
    acts-Ends board handler store_driver repeating Any (round ∷ text reading [] ∷ round ∷ []) tt
      alone (repeating-Delivers standalone)
      (
        tt,
        (((λ e. omega arith, (λ e. omega arith, (λ e. omega arith, tt))), omega arith), (tt, tt)),
      )
      tt alone-IsSound

handle_admin_packet-Ends_example :
    Ends bridging Any (handle_admin_packet board (router board) node_driver order 10 bridged)
unfolding control_header_bytes
handle_admin_packet-Ends_example =
    handle_admin_packet-Ends board node_driver order 10 bridged bridged-IsSound (omega arith)

rounds-Ends_example :
    Ends bridging
      (Running board repeating repeating Any Any)
      (rounds board repeating repeating 5 (record { init_done = false }) tt tt alone)
rounds-Ends_example =
    rounds-Ends board repeating repeating Any Any 4 tt tt alone (repeating-Delivers bridging)
      (repeating-Delivers bridging) tt tt alone-IsSound
