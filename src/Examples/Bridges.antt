-- ===== src/Examples/Bridges.antt =====
-- A bridge between 0x105 on the store's side and 0x106 on the nodes' side.
use steamlink_arduino.Prelude.{
  ℕ, ◌+◌, ◌≡◌, refl, false, List, [], ◌∷◌, ◌++◌, replicate, arith, length, length-replicate, take,
}
use steamlink_arduino.Wire.{is_data, control_header_bytes, data_header_bytes}
use steamlink_arduino.Wire.Op
use steamlink_arduino.Wire.Slid
use steamlink_arduino.Ring.Refine.{Joins}
use steamlink_arduino.System.{
  System, store_driver, node_driver, returns, faults, write_out_of_range,
}
use steamlink_arduino.Send.Phy.{Carries}
use steamlink_arduino.Admin.{handle_admin_packet}
use steamlink_arduino.Admin.Packet.{control_packet, control_length}
use steamlink_arduino.Bridge.{router}
use steamlink_arduino.Bridge.Uplink.{uplink, uplink_overflows}
use steamlink_arduino.Bridge.Downlink.{downlink}
use steamlink_arduino.Examples.{
  board, store_half, node_half, bridged, bridged-IsWired, reading, header,
}

abbrev report : List ℕ
report = data_header_bytes (record { op = Op.ds; slid = 0x107; pkg_num = 3; rssi = 70 }) ++ reading

uplink_example :
    (mid last : List ℕ) × (s' : System) × (handle_admin_packet board
        (router board)
        node_driver
        report
        11
        bridged
      ≡ returns tt s')
    × Carries node_half Op.bs report 11 mid
    × Carries store_half Op.bs mid (length mid) last
    × Joins store_half.send_q last (length mid + 8) Slid.store_addr s'.store_side.send_q
    × (s'.node_side.send_q ≡ node_half.send_q)
    × (s'.store_side.waiting_for_ack ≡ false)
    × (s'.node_side.waiting_for_ack ≡ false)
    × (s'.allocated + bridged.freed ≡ bridged.allocated + s'.freed)
unfolding is_data data_header_bytes
uplink_example = uplink board report bridged bridged-IsWired (omega arith) refl (omega arith)

abbrev long_report : List ℕ
long_report = 0x31 ∷ replicate 244 65

uplink_overflows_example :
    handle_admin_packet board (router board) node_driver long_report (length long_report) bridged
    ≡ faults write_out_of_range
unfolding is_data
uplink_overflows_example =
    uplink_overflows board long_report bridged bridged-IsWired refl
      (omega (arith, length-replicate {A = ℕ} 244 65))
      (omega (arith, length-replicate {A = ℕ} 244 65))

downlink_example :
    let core = control_packet (header Op.dn 0x107) reading in
    let envelope = control_packet (header Op.bn 0x106) core in
    (buffer : List ℕ) × (s' : System) × (handle_admin_packet board
        (router board)
        store_driver
        (control_packet (header Op.bn 0x105) (envelope ++ []))
        (control_length envelope)
        bridged
      ≡ returns tt s')
    × (take (length core) buffer ≡ core)
    × Joins node_half.send_q buffer (length core) 0x107 s'.node_side.send_q
    × (s'.store_side.send_q ≡ store_half.send_q)
    × (s'.node_side.waiting_for_ack ≡ false)
    × (s'.store_side.waiting_for_ack ≡ false)
unfolding is_data control_header_bytes
downlink_example =
    downlink board (header Op.bn 0x105) (header Op.bn 0x106) (header Op.dn 0x107) reading [] bridged
      bridged-IsWired refl refl refl refl refl (omega arith) (omega arith) (omega arith)
