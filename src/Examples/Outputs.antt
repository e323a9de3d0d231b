-- ===== src/Examples/Outputs.antt =====
-- What is printed, and how the test client runs, on concrete inputs.
use steamlink_arduino.Prelude.{
  ℕ, zero, suc, ◌+◌, ◌≡◌, refl, inl, inr, true, false, List, [], ◌∷◌, ◌++◌, some, none, arith,
  replicate, length-replicate,
}
use steamlink_arduino.Prelude.Text.{codes}
use steamlink_arduino.System.{store_driver, System, Delivery, returns}
use steamlink_arduino.Debug.{Build, phex}
use steamlink_arduino.Debug.Arrays.{Narrow}
use steamlink_arduino.Debug.Hex.{rows, phex_lem, phex_overflows}
use steamlink_arduino.Update.{generic_driver}
use steamlink_arduino.Interface.{Methods, methods, generic_init}
use steamlink_arduino.Sketch.TestClient.{started, send_message, loop}
use steamlink_arduino.Sketch.Pacing.{sent_at, read_clock, message_paced}
use steamlink_arduino.Examples.{board, handler, alone}

abbrev full : Build
full = record { unix = false; debug_enabled = 4; char_signed = false }

-- the program on a PC
abbrev on_pc : Build
on_pc = record { unix = true; debug_enabled = 3; char_signed = true }

phex_lem_example :
    phex full (replicate 49 7) (replicate 17 7) (0x35 ∷ 0x05 ∷ 0xff ∷ [])
    ≡ some (rows [] (0x35 ∷ 0x05 ∷ 0xff ∷ []))
phex_lem_example =
    phex_lem full (replicate 49 7) (replicate 17 7) (0x35 ∷ 0x05 ∷ 0xff ∷ [])
      (length-replicate {A = ℕ} 49 7) (length-replicate {A = ℕ} 17 7)
      (inl refl, (inl refl, (inl refl, tt)))

-- digits 0 as characters
zeros-Narrow : (n : ℕ) → Narrow on_pc (replicate n 0x30)
zeros-Narrow zero = tt
zeros-Narrow (suc n) = (inr (omega arith), zeros-Narrow n)

phex_overflows_example :
    phex on_pc (replicate 49 7) (replicate 17 7) (replicate 14 0x30 ++ (0xff ∷ [])) ≡ none
phex_overflows_example =
    phex_overflows on_pc (replicate 49 7) (replicate 17 7) (replicate 14 0x30) [] 0xff
      (length-replicate {A = ℕ} 49 7) (length-replicate {A = ℕ} 17 7) (zeros-Narrow 14) refl
      (omega arith) (omega arith)

abbrev order : List Delivery
order = record { receiver = store_driver; buffer = codes "60" ++ (0 ∷ []) } ∷ []

-- a node whose calls succeed and do nothing
abbrev idle : Methods ℕ
idle = record (methods board handler store_driver generic_driver generic_init) {
  send = λ buf s. returns true s;
  update = λ d s. returns d s;
}

message_paced_example :
    let sent = sent_at (board.clock (alone.clock_reads + 1 + 1)) started in
    ((s : System) × (send_message board idle 3700 started alone ≡ returns sent s))
    × (loop board idle 2 3700 0 sent alone ≡ returns (0, sent) (read_clock alone))
message_paced_example =
    message_paced board idle 3700 started true alone (read_clock alone) 0 0 alone alone refl
      (omega arith) refl refl (omega arith)
