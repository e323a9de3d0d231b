-- ===== src/Examples/Updates.antt =====
-- Rounds of `update` on a node whose driver holds at most one reception.
use steamlink_arduino.Prelude.{
  ℕ, ◌+◌, ◌≡◌, ◌⊎◌, refl, true, false, List, [], ◌∷◌, ◌++◌, replicate, arith, length-replicate,
  length,
}
use steamlink_arduino.Wire.{data_header_bytes, is_data}
use steamlink_arduino.Wire.Op
use steamlink_arduino.Wire.Slid
use steamlink_arduino.Ring.{Relement, blank}
use steamlink_arduino.Ring.Refine.{IsValid, contents}
use steamlink_arduino.System.{Env, System, Node, store_driver, returns}
use steamlink_arduino.Update.{
  Received, no_packet, a_packet, Reception, Driver, is_problem, retry_task, flush_queue, update,
  heartbeat_due,
}
use steamlink_arduino.Update.Receive.{noted, dropped, update_drops}
use steamlink_arduino.Update.Retry.{IsCached, Retried, retry_task_lem}
use steamlink_arduino.Update.{generic_driver, heartbeat_due}
use steamlink_arduino.Interface.Drivers.{lora_driver}
use steamlink_arduino.Lora.{Radio, Lora}
use steamlink_arduino.Lora.Drain.{transmitted, lora_drains}
use steamlink_arduino.Update.Rounds.{IsQuiet, rounds, handed, rounds-drain}
use steamlink_arduino.Update.Flush.{flush_queue_lem}
use steamlink_arduino.Examples.{
  board, handler, stands_alone, lone, alone, system_of, reading, empty_queue-IsValid,
}

abbrev radio : Driver Received
radio = record {
  driver_receive = λ d. (no_packet, d);
  driver_can_send = λ d. true;
  driver_send = λ d packet packet_size slid. (d, true);
}

-- a reception with an op code that is none, and one of a test packet
abbrev noise : Reception
noise = record { packet = 16 ∷ reading; packet_size = 4; slid = 0x105; rssi = 80 }

abbrev test_packet : Reception
test_packet = record { packet = 48 ∷ reading; packet_size = 4; slid = Slid.test_addr; rssi = 80 }

update_drops_example :
    update board handler radio store_driver (a_packet noise) alone
    ≡ returns no_packet (dropped (noted store_driver noise alone))
unfolding is_problem
update_drops_example =
    update_drops board handler radio store_driver (a_packet noise) no_packet noise alone refl refl
      (omega arith) refl

-- a node that sent its last retry shortly before the clock wraps
abbrev late : Node
late = record lone { last_retry_time = 4294966000 }

abbrev kept : List ℕ
kept = data_header_bytes (record { op = Op.ds; slid = 0x105; pkg_num = 6; rssi = 60 }) ++ reading

-- a node that waits for the acknowledgement of `kept`
abbrev expecting : Node
expecting = record lone {
  waiting_for_ack = true;
  retry_packet = kept ++ replicate 244 0;
  retry_packet_length = 11;
  retry_slid = 1;
}

expecting-IsCached : IsCached expecting kept
unfolding is_data data_header_bytes
expecting-IsCached = record {
  whole_header = omega arith;
  is_data_packet = refl;
  size = refl;
  content = refl;
  fits = omega (arith, length-replicate {A = ℕ} 244 0);
}

retry_task_lem_example :
    (s' : System) × (retry_task board handler store_driver (system_of expecting lone)
      ≡ returns tt s')
    × Retried kept (board.clock 3) expecting s'.store_side
retry_task_lem_example =
    retry_task_lem board handler store_driver kept (system_of expecting lone) stands_alone
      expecting-IsCached empty_queue-IsValid

-- a node with one packet to send
abbrev loaded : System
loaded =
    system_of
      (record lone {
        send_q = record {
          ringsize = 2;
          head = 1;
          tail = 0;
          ring = blank ∷ record { addr = 1; len = 11; pkt = kept } ∷ [];
        };
      })
      lone

loaded-IsValid : IsValid loaded.store_side.send_q
loaded-IsValid = record { slots = refl; head_in = omega arith; tail_in = omega arith }

flush_queue_lem_example :
    ((contents loaded.store_side.send_q ≡ []) ⊎ (true ≡ false))
      × (flush_queue radio store_driver no_packet loaded ≡ returns no_packet loaded)
    ⊎ ((e : Relement) × (rest : List Relement) × (s' : System) × (true ≡ true)
        × (contents loaded.store_side.send_q ≡ e ∷ rest)
        × (flush_queue radio store_driver no_packet loaded ≡ returns no_packet s')
        × (contents s'.store_side.send_q ≡ rest)
        × IsValid s'.store_side.send_q
        × (s'.freed ≡ loaded.freed + 1))
flush_queue_lem_example = flush_queue_lem radio store_driver no_packet loaded loaded-IsValid

-- a platform whose clock stands still, as it does on Unix
abbrev still : Env
still = record board { clock = λ n. 0 }

loaded-IsQuiet : IsQuiet still store_driver loaded
unfolding heartbeat_due
loaded-IsQuiet = record {
  signed_on = refl;
  not_waiting = refl;
  not_due = λ k. refl;
  queue_IsValid = loaded-IsValid;
}

rounds-drain_example :
    let queue = contents loaded.store_side.send_q in
    (s' : System) × (rounds still handler {D = ℕ} generic_driver store_driver
        (length queue)
        0
        loaded
      ≡ returns (handed still handler {D = ℕ} generic_driver 0 queue) s')
    × (contents s'.store_side.send_q ≡ [])
    × (s'.freed ≡ loaded.freed + length queue)
    × IsQuiet still store_driver s'
unfolding generic_driver
rounds-drain_example =
    rounds-drain still handler {D = ℕ} generic_driver store_driver 0 loaded (λ d. refl) (λ d. refl)
      loaded-IsQuiet

-- a radio that hears nothing and keeps what is written to it
abbrev mute : Radio (List (List ℕ))
mute = record {
  parse_packet = λ r. (r, 0);
  available = λ r. false;
  read = λ r. (r, 0);
  packet_rssi = λ r. 0;
  begin_packet = λ r. r;
  write = λ r packet. r ++ (packet ∷ []);
  end_packet = λ r. r;
}

abbrev on_air : Lora (List (List ℕ))
on_air = record { radio = []; driverbuffer = replicate 255 0 }

lora_drains_example :
    let queue = contents loaded.store_side.send_q in
    (s' : System) × (rounds still handler
        (lora_driver mute)
        store_driver
        (length queue)
        on_air
        loaded
      ≡ returns (record on_air { radio = transmitted mute [] queue }) s')
    × (contents s'.store_side.send_q ≡ [])
    × (s'.freed ≡ loaded.freed + length queue)
lora_drains_example =
    lora_drains mute still handler store_driver on_air loaded (λ r. refl) loaded-IsQuiet

-- a node that has not signed on
abbrev asleep : System
asleep = system_of (record lone { sign_on_complete = false }) lone
