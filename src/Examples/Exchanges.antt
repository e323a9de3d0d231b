-- ===== src/Examples/Exchanges.antt =====
-- A node that sends readings, and is answered.
use steamlink_arduino.Prelude.{
  ℕ, ◌+◌, ◌≡◌, refl, Bool, true, false, List, [], ◌∷◌, ◌++◌, arith, replicate,
}
use steamlink_arduino.Wire.{data_header_bytes, is_data}
use steamlink_arduino.Exchange.Lost.{IsWaiting, OnlyRetry, resends}
use steamlink_arduino.Update.Rounds.{rounds}
use steamlink_arduino.Wire.Op
use steamlink_arduino.Wire.Slid
use steamlink_arduino.Ring.{queuelevel}
use steamlink_arduino.System.{Env, System, Node, store_driver, returns}
use steamlink_arduino.Update.{
  Received, no_packet, a_packet, Driver, Reception, heartbeat_due, retry_due,
}
use steamlink_arduino.Exchange.Answer.{answer}
use steamlink_arduino.Examples.Relays.{moment}
use steamlink_arduino.Examples.{
  handler, empty_queue-IsValid, system_of, lone, stands_alone, reading, header,
}

-- A store that acknowledges whatever is sent, and keeps it.
abbrev Line : Type 0
Line = Bool × List (List ℕ)

abbrev acknowledgement : Reception
acknowledgement = answer (header Op.an 0x105) [] 70

abbrev look : Line → Line × Received
look (false, kept) = ((false, kept), no_packet)
look (true, kept) = ((false, kept), a_packet acknowledgement)

abbrev line : Driver Line
line = record {
  driver_receive = look;
  driver_can_send = λ d. true;
  driver_send = λ d packet packet_size slid. ((true, d.1 ++ (packet ∷ [])), true);
}

abbrev IsQuietLine : Line → Type 0
IsQuietLine d = d.0 ≡ false

abbrev kept : Line → List (List ℕ)
kept d = d.1

-- the packet that `lost` waits to have acknowledged
abbrev unheard : List ℕ
unheard = data_header_bytes (record { op = Op.ds; slid = 0x105; pkg_num = 6; rssi = 60 }) ++ reading

abbrev lost : Node
lost = record lone {
  waiting_for_ack = true;
  retry_packet = unheard ++ replicate 244 0;
  retry_packet_length = 11;
  retry_slid = Slid.store_addr;
}

abbrev lost_system : System
lost_system = system_of lost lone

lost-IsWaiting : IsWaiting unheard lost
unfolding data_header_bytes is_data queuelevel
lost-IsWaiting = record {
  own_way = stands_alone;
  signed_on = refl;
  waiting = refl;
  cached = record {
    whole_header = omega arith;
    is_data_packet = refl;
    size = refl;
    content = refl;
    fits = omega arith;
  };
  queue_IsValid = empty_queue-IsValid;
  room = omega arith;
  empty = refl;
}

abbrev later : Env
later = record moment { clock = λ n. 5000 }

lost-OnlyRetry : OnlyRetry later lost 3
unfolding heartbeat_due retry_due
lost-OnlyRetry = record { late = refl; first_beat = refl; not_late = refl; second_beat = refl }

resends_example :
    (s' : System) × (rounds later handler line store_driver 2 (false, []) lost_system
      ≡ returns (true, unheard ∷ []) s')
    × IsWaiting unheard s'.store_side
    × (s'.store_side.retry_slid ≡ Slid.store_addr)
    × (s'.store_side.pkt_count_data ≡ 7)
    × (s'.allocated + 4 ≡ 5 + s'.freed)
resends_example =
    resends later handler line store_driver (false, []) unheard lost_system lost-IsWaiting
      lost-OnlyRetry refl refl refl
