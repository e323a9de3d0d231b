-- ===== src/Exchange/Text.antt =====
-- Texts on their way: for each, `send`, the round of `update` that transmits it, and the round in which
-- the store's acknowledgement arrives.
use steamlink_arduino.Prelude.{ℕ, ◌≡◌, true, List, [], ◌∷◌, ◌++◌, length, drop}
use steamlink_arduino.Wire.{ControlHeader, as_data_header}
use steamlink_arduino.Wire.Op
use steamlink_arduino.Wire.Slid
use steamlink_arduino.System.{System}
use steamlink_arduino.Send.{next_count}
use steamlink_arduino.Update.{no_packet, a_packet, Driver}
use steamlink_arduino.Sound.Alone.{Act, text, round}
use steamlink_arduino.Exchange.Answer.{answer}

-- the calls of the sketch: for each text `send`, and two rounds of `update`
abbrev pub exchanges : List (List ℕ) → List Act
exchanges [] = []
exchanges (t ∷ ts) = text t [] ∷ round ∷ round ∷ exchanges ts

-- The other end, as the node's driver sees it: where it is `Quiet` it has nothing to hand over, and
-- whatever is sent to the store it logs, and acknowledges to the node with this SLID.
pub record Acknowledges {D : Type 0} (driver : Driver D) (slid : ℕ) (Quiet : D → Type 0)
    (log : D → List (List ℕ)) : Type 0 where
  pub nothing : (d : D) → Quiet d → (driver.driver_receive d).1 ≡ no_packet
  pub can_send : (d : D) → Quiet d → driver.driver_can_send (driver.driver_receive d).0 ≡ true
  pub answers :
      (d : D) (packet : List ℕ)
      → Quiet d
      → let after =
          (driver.driver_send
            (driver.driver_receive d).0
            packet
            (length packet)
            Slid.store_addr).0 in
        (h : ControlHeader) × (payload : List ℕ) × (rssi : ℕ) × (h.op ≡ Op.an)
        × (h.slid ≡ slid)
        × ((driver.driver_receive after).1 ≡ a_packet (answer h payload rssi))
        × Quiet (driver.driver_receive after).0
        × (log (driver.driver_receive after).0 ≡ log d ++ (packet ∷ []))

-- a `DS` packet with this number that carries a text and its terminator
pub record Conveys (slid count : ℕ) (t packet : List ℕ) : Type 0 where
  pub header_op : (as_data_header packet).op ≡ Op.ds
  pub header_slid : (as_data_header packet).slid ≡ slid
  pub header_number : (as_data_header packet).pkg_num ≡ count
  pub content : drop 8 packet ≡ t ++ (0 ∷ [])

-- the packets that carry these texts, numbered on from `count`
abbrev pub ConveysAll : ℕ → ℕ → List (List ℕ) → List (List ℕ) → Type 0
ConveysAll slid count [] [] = Unit {0}
ConveysAll slid count [] (p ∷ ps) = ⊥
ConveysAll slid count (t ∷ ts) [] = ⊥
ConveysAll slid count (t ∷ ts) (p ∷ ps) =
    Conveys slid count t p × ConveysAll slid (next_count count) ts ps
