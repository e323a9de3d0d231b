-- ===== src/Examples.antt =====
-- Concrete nodes, bridges and packets, on which the theorems are applied.
pub mod Rings
pub mod Nodes
pub mod Updates
pub mod Bridges
pub mod Drivers
pub mod Setups
pub mod Outputs
pub mod Operation
pub mod Relays
pub mod Exchanges
use steamlink_arduino.Prelude.{
  ℕ, ◌+◌, ◌*◌, ◌≡◌, ◌≢◌, refl, Bool, true, false, List, [], ◌∷◌, ◌++◌, replicate, length,
  length-replicate, arith,
}
use steamlink_arduino.Wire.{ControlHeader, NodeCfgStruct}
use steamlink_arduino.Wire.RoundTrip
use steamlink_arduino.Wire.Op
use steamlink_arduino.Ring.Refine.{IsValid}
use steamlink_arduino.Ring.{Relement, RingBuff, blank}
use steamlink_arduino.System.{unbridged, storeside, nodeside, Env, Node, System}
use steamlink_arduino.Send.{Handler}
use steamlink_arduino.Send.Phy.{IsTyped}
use steamlink_arduino.Bridge.{router}
use steamlink_arduino.Bridge.Wiring.{IsWired}

-- A clock that advances by five seconds from reading to reading.
abbrev pub board : Env
board = record { clock = λ n. n * 5000; uninitialised = λ buffer i. 170; no_return = λ s. true }

abbrev pub handler : Handler
handler = router board

abbrev pub greenhouse : NodeCfgStruct
greenhouse = record {
  version = 1;
  slid = 0x105;
  name = replicate 10 71;
  description = replicate 32 104;
  gps_lat = 1112014848;
  gps_lon = 3264651264;
  altitude = 71;
  max_silence = 30;
  battery_powered = 1;
  radio_params = 0;
}

pub greenhouse-IsValid : RoundTrip.IsValid greenhouse
greenhouse-IsValid = record {
  slid_in = omega arith;
  name_size = refl;
  description_size = refl;
  gps_lat_in = omega arith;
  gps_lon_in = omega arith;
  altitude_in = omega arith;
}

abbrev pub empty_queue : RingBuff
empty_queue = record { ringsize = 10; head = 0; tail = 0; ring = replicate 10 blank }

abbrev pub lone : Node
lone = record {
  config = greenhouse;
  slid = 0x105;
  on_receive = true;
  bridge_handler = false;
  encrypted = false;
  pkt_count_data = 7;
  pkt_count_control = 1;
  last_rssi = 60;
  bridge_mode = unbridged;
  sign_on_complete = true;
  last_send_time = 1000;
  retry_packet = replicate 255 0;
  retry_packet_length = 0;
  retry_slid = 0;
  last_retry_time = 1000;
  waiting_for_ack = false;
  send_q = empty_queue;
}

pub empty_queue-IsValid : IsValid empty_queue
empty_queue-IsValid = record { slots = refl; head_in = omega arith; tail_in = omega arith }

pub lone-IsTyped : IsTyped lone
lone-IsTyped = record {
  queue_in = empty_queue-IsValid;
  slid_in = omega arith;
  count_in = omega arith;
  retry_size = length-replicate {A = ℕ} 255 0;
}

abbrev pub system_of : Node → Node → System
system_of store_side node_side = record {
  store_side = store_side;
  node_side = node_side;
  clock_reads = 3;
  allocated = 5;
  freed = 4;
  delivered = [];
}

abbrev pub alone : System
alone = system_of lone lone

abbrev pub waiting : System
waiting = system_of (record lone { waiting_for_ack = true }) lone

abbrev pub store_half : Node
store_half = record lone { bridge_mode = storeside; bridge_handler = true }

abbrev pub node_half : Node
node_half = record lone { slid = 0x106; bridge_mode = nodeside; bridge_handler = true }

abbrev pub bridged : System
bridged = system_of store_half node_half

pub bridged-IsWired : IsWired bridged
bridged-IsWired = record {
  store_mode = refl;
  node_mode = refl;
  store_handler = refl;
  node_handler = refl;
  store_typed = record {
    queue_in = empty_queue-IsValid;
    slid_in = omega arith;
    count_in = omega arith;
    retry_size = length-replicate {A = ℕ} 255 0;
  };
  node_typed = record {
    queue_in = empty_queue-IsValid;
    slid_in = omega arith;
    count_in = omega arith;
    retry_size = length-replicate {A = ℕ} 255 0;
  };
}

-- "21C", as a node's reading and as a control packet's payload
abbrev pub reading : List ℕ
reading = 50 ∷ 49 ∷ 67 ∷ []

abbrev pub header : ℕ → ℕ → ControlHeader
header op slid = record { op = op; slid = slid; pkg_num = 9 }

pub stands_alone : unbridged ≢ nodeside
stands_alone = ground arith
