-- ===== src/Examples/Rings.antt =====
-- A ring of three slots that holds two packets, its entries wrapped round the end, and headers.
use steamlink_arduino.Prelude.{ℕ, ◌-◌, ◌≡◌, refl, List, [], ◌∷◌, arith}
use steamlink_arduino.Wire.{DataHeader}
use steamlink_arduino.Wire.Op
use steamlink_arduino.Ring.{Relement, RingBuff, queuelevel}
use steamlink_arduino.Ring.Refine.{IsValid, contents}
use steamlink_arduino.Ring.Runs.{Operation, enqueues, dequeues, run, run_fifo, run_refines}
use steamlink_arduino.Examples.{reading}

abbrev slot : ℕ → Relement
slot b = record { addr = 1; len = 1; pkt = b ∷ [] }

abbrev wrapped : RingBuff
wrapped = record { ringsize = 4; head = 3; tail = 1; ring = slot 8 ∷ slot 9 ∷ slot 6 ∷ slot 7 ∷ [] }

wrapped-IsValid : IsValid wrapped
wrapped-IsValid = record { slots = refl; head_in = omega arith; tail_in = omega arith }

wrapped-contents : contents wrapped ≡ slot 7 ∷ slot 8 ∷ []
unfolding queuelevel
wrapped-contents = refl

abbrev calls : List Operation
calls =
    dequeues ∷ enqueues reading 3 1 ∷ enqueues reading 3 1 ∷ enqueues reading 3 1 ∷ dequeues ∷ []

run_refines_example :
    ((contents (run calls wrapped).0, (run calls wrapped).1)
      ≡ run_fifo (4 - 1) calls (contents wrapped))
    × IsValid (run calls wrapped).0
run_refines_example = run_refines calls wrapped wrapped-IsValid

abbrev stamp : DataHeader
stamp = record { op = Op.ds; slid = 0x105; pkg_num = 770; rssi = 60 }
