-- ===== src/Examples/Nodes.antt =====
-- A node on its own that sends a reading and takes packets from the store.
use steamlink_arduino.Prelude.{
  ℕ, ◌≡◌, refl, true, false, ◌⊎◌, List, [], ◌∷◌, ◌++◌, replicate, arith, length-replicate,
}
use steamlink_arduino.Wire.{node_cfg_bytes}
use steamlink_arduino.Wire.Op
use steamlink_arduino.Wire.Ack
use steamlink_arduino.System.{System, Node, store_driver, returns, faults, write_out_of_range}
use steamlink_arduino.Send.{send_data}
use steamlink_arduino.Send.Phy.{Carries, Sent}
use steamlink_arduino.Send.Limits.{send_data-overflows}
use steamlink_arduino.Admin.{handle_admin_packet}
use steamlink_arduino.Admin.Packet.{control_packet, control_length, Answers}
use steamlink_arduino.Admin.Config.{sc_installs, configured}
use steamlink_arduino.Admin.Refusals.{sc_refuses, unawaiting, sc_answer}
use steamlink_arduino.Admin.Status.{gs_answers}
use steamlink_arduino.Ring.Refine.{Joins}
use steamlink_arduino.Ring.{enqueue}
use steamlink_arduino.Wire.Slid
use steamlink_arduino.Admin.Transmit.{td_transmits}
use steamlink_arduino.Admin.Data.{dn_delivers, deliveries}
use steamlink_arduino.Examples.{
  board, handler, stands_alone, greenhouse, greenhouse-IsValid, lone, lone-IsTyped, alone, waiting,
  reading, header, empty_queue-IsValid,
}

send_data-overflows_example :
    send_data board handler store_driver Op.ds (replicate 250 65) 250 alone
    ≡ faults write_out_of_range
send_data-overflows_example =
    send_data-overflows board handler store_driver Op.ds (replicate 250 65) 250 alone refl
      (omega arith) (omega arith)

sc_installs_example :
    (s' : System) × (mid : Node) × (handle_admin_packet board handler store_driver
        (control_packet (header Op.sc 0x105) (node_cfg_bytes greenhouse))
        (control_length (node_cfg_bytes greenhouse))
        waiting
      ≡ returns tt s')
    × Answers Ack.success (configured greenhouse waiting.store_side) mid
    × Answers Ack.success mid s'.store_side
    × (s'.store_side.config ≡ greenhouse)
    × (s'.store_side.slid ≡ 0x105)
    × (s'.store_side.waiting_for_ack ≡ false)
sc_installs_example =
    sc_installs board handler store_driver (header Op.sc 0x105) greenhouse waiting refl
      greenhouse-IsValid refl refl stands_alone
      (record {
        queue_in = empty_queue-IsValid;
        slid_in = omega arith;
        count_in = omega arith;
        retry_size = length-replicate {A = ℕ} 255 0;
      })

sc_refuses_example :
    (s' : System) × (handle_admin_packet board handler store_driver
        (control_packet (header Op.sc 0x105) (2 ∷ reading))
        (control_length (2 ∷ reading))
        waiting
      ≡ returns tt s')
    × Answers 3 (unawaiting waiting.store_side) s'.store_side
    × (s'.store_side.config ≡ greenhouse)
    × (s'.store_side.slid ≡ 0x105)
    × (s'.store_side.waiting_for_ack ≡ false)
unfolding sc_answer
sc_refuses_example =
    sc_refuses board handler store_driver (header Op.sc 0x105) 2 reading 3 waiting refl
      (omega arith) refl (λ e. omega arith) stands_alone
      (record {
        queue_in = empty_queue-IsValid;
        slid_in = omega arith;
        count_in = omega arith;
        retry_size = length-replicate {A = ℕ} 255 0;
      })

dn_delivers_example :
    (s' : System) × (handle_admin_packet board handler store_driver
        (control_packet (header Op.dn 0x105) reading)
        (control_length reading)
        alone
      ≡ returns tt s')
    × Answers Ack.success lone s'.store_side
    × (s'.delivered ≡ alone.delivered ++ deliveries store_driver lone reading)
    × (s'.freed ≡ alone.freed)
dn_delivers_example =
    dn_delivers board handler store_driver (header Op.dn 0x105) reading alone refl (omega arith)
      stands_alone lone-IsTyped

td_transmits_example :
    (acknowledged : Node) × (s' : System) × (handle_admin_packet board handler store_driver
        (control_packet (header Op.td 0x105) reading)
        (control_length reading)
        alone
      ≡ returns tt s')
    × Answers Ack.success lone acknowledged
    × (s'.store_side
        ≡ record acknowledged { send_q = (enqueue acknowledged.send_q reading 3 Slid.test_addr).0 })
    × Joins acknowledged.send_q reading 3 Slid.test_addr s'.store_side.send_q
    × (s'.allocated ≡ 7)
    × (s'.freed ≡ 4)
td_transmits_example =
    td_transmits board handler store_driver (header Op.td 0x105) reading alone refl (omega arith)
      stands_alone lone-IsTyped

gs_answers_example :
    ((false ≡ false)
      × ((packet : List ℕ) × (s' : System) × (handle_admin_packet board handler store_driver
              (control_packet (header Op.gs 0x105) [])
              (control_length [])
              alone
            ≡ returns tt s')
          × Carries lone Op.ss (79 ∷ 75 ∷ 0 ∷ []) 3 packet
          × Sent Op.ss packet 11 lone s'.store_side))
    ⊎ ((false ≡ true)
        × (handle_admin_packet board handler store_driver
              (control_packet (header Op.gs 0x105) [])
              (control_length [])
              alone
            ≡ returns tt alone))
gs_answers_example =
    gs_answers board handler store_driver (header Op.gs 0x105) [] alone refl lone-IsTyped
      stands_alone
